-- ===== src/Utf/Surrogates.antt =====
-- utf.c: surrogates.
use rimstone.Base.{ℕ, ◌≤◌, ◌<◌, ◌≡◌, arith}
use rimstone.Utf.{get_utf_surrogate, make_from_utf_surrogate}

-- The surrogates of a number above 0xFFFF lie in their two ranges, and put together they give the
-- number.
pub surrogate-make :
    (u : ℕ)
    → 65535 < u
    → u ≤ 1114111
    → let (u0, u1) = get_utf_surrogate u in
      (55296 ≤ u0)
      × (u0 ≤ 56319)
      × (56320 ≤ u1)
      × (u1 ≤ 57343)
      × (make_from_utf_surrogate u0 u1 ≡ u)
unfolding get_utf_surrogate make_from_utf_surrogate
surrogate-make u a b = (omega arith, omega arith, omega arith, omega arith, omega arith)
