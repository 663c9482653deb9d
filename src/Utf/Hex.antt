-- ===== src/Utf/Hex.antt =====
-- utf.c: the escapes that rim.h's macros write, read back.
use rimstone.Base.{
  ℕ, suc, ◌+◌, ◌-◌, ◌*◌, ◌/◌, ◌%◌, ◌≤◌, ◌<◌, ◌≡◌, refl, ap, ◌∙◌, ◌⊎◌, inl, inr, true, false, some,
  [], ◌∷◌, ◌++◌, arith, lt→ltb, le→ltb-false, drop,
}
use rimstone.Base.Words.{Bytes}
use rimstone.Base.Results.{ℤ, pos, negsuc, Result, okay}
use rimstone.Utf.Digits.{to_hex, hex_from_byte, hex_from_int16, hex_from_int32}
use rimstone.Utf.Surrogates.{surrogate-make}
use rimstone.Utf.{
  Error, get_utf_surrogate, make_from_utf_surrogate, topower, hex_digit, get_hex_from, get_hex,
  to_num32, utf_get_code, utf_get_code8, second_surrogate, is_surrogate, decode_utf,
}

hex_digit-to_hex : (x : ℕ) → x < 16 → hex_digit (to_hex x) ≡ some x
unfolding hex_digit to_hex
hex_digit-to_hex x h = ground arith

spread : (r a b t : ℕ) → r + a * (t * 16) + b * t ≡ r + (a * 16 + b) * t
spread r a b t = grind arith

digits_of : (x : ℕ) → x < 256 → x / 16 % 16 * 16 + x % 16 ≡ x
digits_of x h = omega arith

byte_sum :
    (r p x : ℕ)
    → x < 256
    → r + x / 16 % 16 * topower 16 (suc p) + x % 16 * topower 16 p ≡ r + x * topower 16 p
unfolding topower
byte_sum r p x h =
    spread r (x / 16 % 16) (x % 16) (topower 16 p) ∙ ap (λ s. r + s * topower 16 p) (digits_of x h)

get_hex_from-to_hex :
    (r p d : ℕ) (v : Bytes)
    → d < 16
    → get_hex_from r (suc p) (to_hex d ∷ v) ≡ get_hex_from (r + d * topower 16 p) p v
unfolding get_hex_from
get_hex_from-to_hex r p d v h = rw (hex_digit-to_hex d h, get_hex_from) refl

-- Two digits of a byte
get_hex_from-byte :
    (r p x : ℕ) (v : Bytes)
    → x < 256
    → get_hex_from r (suc (suc p)) (hex_from_byte x ++ v) ≡ get_hex_from (r + x * topower 16 p) p v
unfolding hex_from_byte
get_hex_from-byte r p x v h =
    get_hex_from-to_hex r (suc p) (x / 16 % 16) (to_hex (x % 16) ∷ v) (omega arith)
    ∙ get_hex_from-to_hex (r + x / 16 % 16 * topower 16 (suc p)) p (x % 16) v (omega arith)
    ∙ ap (λ s. get_hex_from s p v) (byte_sum r p x h)

int16_sum : (x : ℕ) → x < 65536 → 0 + x / 256 % 256 * 256 + x % 256 * 1 ≡ x
int16_sum x h = omega arith

int32_sum :
    (x : ℕ)
    → x < 4294967296
    → 0
        + x / 16777216 % 256 * 16777216
        + x / 65536 % 256 * 65536
        + x / 256 % 256 * 256
        + x % 256 * 1
      ≡ x
int32_sum x h = omega arith

get_hex_from-int16 :
    (x : ℕ) (v : Bytes) → x < 65536 → get_hex_from 0 4 (hex_from_int16 x ++ v) ≡ okay x
unfolding hex_from_int16 hex_from_byte topower get_hex_from
get_hex_from-int16 x v h =
    get_hex_from-byte 0 2 (x / 256 % 256) (hex_from_byte (x % 256) ++ v) (omega arith)
    ∙ get_hex_from-byte (0 + x / 256 % 256 * 256) 0 (x % 256) v (omega arith)
    ∙ ap okay (int16_sum x h)

get_hex_from-int32 :
    (x : ℕ) (v : Bytes) → x < 4294967296 → get_hex_from 0 8 (hex_from_int32 x ++ v) ≡ okay x
unfolding hex_from_int32 hex_from_byte topower get_hex_from
get_hex_from-int32 x v h =
    let w = hex_from_byte (x % 256) ++ v in
    let w' = hex_from_byte (x / 256 % 256) ++ w in
    let a = 0 + x / 16777216 % 256 * 16777216 in
    let b = a + x / 65536 % 256 * 65536 in
    get_hex_from-byte 0 6 (x / 16777216 % 256) (hex_from_byte (x / 65536 % 256) ++ w') (omega arith)
    ∙ get_hex_from-byte a 4 (x / 65536 % 256) w' (omega arith)
    ∙ get_hex_from-byte b 2 (x / 256 % 256) w (omega arith)
    ∙ get_hex_from-byte (b + x / 256 % 256 * 256) 0 (x % 256) v (omega arith)
    ∙ ap okay (int32_sum x h)

is_surrogate-false : (u : ℕ) → (u < 55296) ⊎ (57343 < u) → is_surrogate (pos u) ≡ false
unfolding is_surrogate
is_surrogate-false u h = ground arith

outside : (u : ℕ) → (u < 55296) ⊎ ((57343 < u) × (u < 65536)) → (u < 55296) ⊎ (57343 < u)
outside u (inl a) = inl a
outside u (inr (a, b)) = inr a

is_surrogate-true : (u : ℕ) → 55296 ≤ u → u ≤ 57343 → is_surrogate (pos u) ≡ true
unfolding is_surrogate
is_surrogate-true u a b = ground arith

-- The escape `\u` that rim_utf_to_text writes for a number up to 0xFFFF outside the surrogates,
-- after `\u`, is read back as the number and six characters.
pub utf_get_code-int16 :
    (u : ℕ) (v : Bytes)
    → (u < 55296) ⊎ ((57343 < u) × (u < 65536))
    → utf_get_code (hex_from_int16 u ++ v) ≡ okay (pos u, 6)
unfolding utf_get_code get_hex to_num32
utf_get_code-int16 u v h =
    rw
      (
        get_hex_from-int16 u v (omega arith),
        lt→ltb u 2147483648 (omega arith),
        is_surrogate-false u (outside u h),
      )
      refl

lowest_byte : (r : ℕ) → r < 4294967296 → 255 - (4294967295 - r) % 256 ≡ r % 256
lowest_byte r b = omega arith

second_half :
    (u0 u1 : ℕ) (v : Bytes)
    → u1 < 65536
    → second_surrogate (pos u0) (92 ∷ 117 ∷ hex_from_int16 u1 ++ v)
      ≡ okay (pos (make_from_utf_surrogate u0 u1), 12)
unfolding second_surrogate
second_half u0 u1 v h = rw (get_hex_from-int16 u1 v h) refl

drop-int16 : (x : ℕ) (v : Bytes) → drop 4 (hex_from_int16 x ++ v) ≡ v
unfolding hex_from_int16 hex_from_byte
drop-int16 x v = refl

first_half :
    (u0 : ℕ) (w : Bytes) (out : Result Error (ℤ × ℕ))
    → 55296 ≤ u0
    → u0 ≤ 57343
    → second_surrogate (pos u0) w ≡ out
    → utf_get_code (hex_from_int16 u0 ++ w) ≡ out
unfolding utf_get_code get_hex to_num32
first_half u0 w out a b e =
    rw
      (
        get_hex_from-int16 u0 w (omega arith),
        lt→ltb u0 2147483648 (omega arith),
        is_surrogate-true u0 a b,
        drop-int16 u0 w,
      )
      e

-- The two escapes that rim_utf_to_text writes for JSON for a number above 0xFFFF and up to
-- 0x10FFFF, one for each surrogate, are read back as the number and twelve characters.
pub utf_get_code-surrogates :
    (u : ℕ) (v : Bytes)
    → 65535 < u
    → u ≤ 1114111
    → let (u0, u1) = get_utf_surrogate u in
      utf_get_code (hex_from_int16 u0 ++ 92 ∷ 117 ∷ hex_from_int16 u1 ++ v) ≡ okay (pos u, 12)
unfolding hex_from_int16 hex_from_byte
utf_get_code-surrogates u v a b =
    let (u0, u1) = get_utf_surrogate u in
    let (a0, b0, a1, b1, made) = surrogate-make u a b in
    first_half u0 (92 ∷ 117 ∷ hex_from_int16 u1 ++ v) (okay (pos u, 12)) a0 (omega arith)
      (second_half u0 u1 v (omega arith) ∙ ap (λ w. okay (pos w, 12)) made)

-- The escape `\U` that rim_utf_to_text writes for a number above 0xFFFF, after `\U`, is read
-- back as the number and ten characters.
pub utf_get_code8-int32 :
    (u : ℕ) (v : Bytes)
    → 65535 < u
    → u ≤ 1114111
    → utf_get_code8 (hex_from_int32 u ++ v) ≡ okay (pos u, 10)
unfolding utf_get_code8 get_hex to_num32
utf_get_code8-int32 u v a b =
    rw
      (
        get_hex_from-int32 u v (omega arith),
        lt→ltb u 2147483648 (omega arith),
        is_surrogate-false u (inr (omega arith)),
      )
      refl

-- Digits after `\U` for a number from 0x80000000 on are taken for a number below 0, which
-- rim_decode_utf turns into one byte, the lowest of the number, and does not refuse as it does
-- every other number above 0x10FFFF.
pub utf_get_code8-negative :
    (r : ℕ) (v : Bytes)
    → 2147483648 ≤ r
    → r < 4294967296
    → (z : ℤ) × (utf_get_code8 (hex_from_int32 r ++ v) ≡ okay (z, 10))
      × (decode_utf z ≡ okay (r % 256 ∷ []))
unfolding utf_get_code8 get_hex to_num32 is_surrogate decode_utf
utf_get_code8-negative r v a b = (
  negsuc (4294967295 - r),
  rw (get_hex_from-int32 r v b, le→ltb-false r 2147483648 a) refl,
  ap (λ x. okay (x ∷ [])) (lowest_byte r b),
)
