-- ===== src/Hash/Key.antt =====
-- The keys of hash.c: their buckets, and the two ways in which it compares them.
use rimstone.Base.{
  ℕ, ◌*◌, ◌%◌, ◌^◌, ◌<◌, bit_xor, ◌≡◌, refl, sym, ap, ◌∙◌, inl, inr, Bool, true, false, [], ◌∷◌,
  arith, ◌==◌, if◌then◌else◌, Bool-cases,
}
use mathlib.Core.Bool.{true≢false}
use rimstone.Base.Words.{
  Bytes, NulFree, c_string, equal_bytes, ≡-of-equal_bytes, equal_bytes_refl, c_string_of_NulFree,
}

abbrev pub fnv_prime : ℕ
fnv_prime = 16777619

abbrev pub fnv_offset_basis : ℕ
fnv_offset_basis = 2166136261

-- The loop of rim_compute_hash, on a `uint32_t`; it ends at the first NUL.
unfoldable pub fnv : ℕ → Bytes → ℕ
fnv h [] = h
fnv h (c ∷ d) = let rest = fnv (bit_xor h c * fnv_prime % 2 ^ 32) d in if c == 0 then h else rest

unfoldable pub compute_hash : Bytes → ℕ → ℕ
compute_hash d size = fnv fnv_offset_basis d % size

-- `!strcmp (a, b)`
unfoldable pub same : Bytes → Bytes → Bool
same a b = equal_bytes (c_string a) (c_string b)

-- rim_cm_str, or strcmp for memory that is not RimStone's
unfoldable pub matches : Bool → Bytes → Bytes → Bool
matches is_rim a b = if is_rim then equal_bytes a b else same a b

fnv-c_string : (h : ℕ) (d : Bytes) → fnv h (c_string d) ≡ fnv h d
unfolding fnv c_string
fnv-c_string h [] = refl
fnv-c_string h (c ∷ d) = elim (Bool-cases (c == 0)) [
  | inl e ↦ rw e refl
  | inr e ↦ rw e (rw e (fnv-c_string (bit_xor h c * fnv_prime % 2 ^ 32) d))
]

pub c_string_of_same : (a b : Bytes) → same a b ≡ true → c_string a ≡ c_string b
unfolding same
c_string_of_same a b h = ≡-of-equal_bytes (c_string a) (c_string b) h

pub same_of_c_string : (a b : Bytes) → c_string a ≡ c_string b → same a b ≡ true
unfolding same
same_of_c_string a b e = rw e (equal_bytes_refl (c_string b))

pub same_refl : (a : Bytes) → same a a ≡ true
same_refl a = same_of_c_string a a refl

-- Equal keys are interchangeable in comparisons, and they have the same bucket.
pub same_congr : (a b q : Bytes) → same a b ≡ true → same q a ≡ same q b
unfolding same
same_congr a b q h = ap (equal_bytes (c_string q)) (c_string_of_same a b h)

pub same_comm : (a b : Bytes) → same a b ≡ same b a
same_comm a b = elim (Bool-cases (same a b)) [
  | inl e ↦ e ∙ sym (same_of_c_string b a (sym (c_string_of_same a b e)))
  | inr e ↦ elim (Bool-cases (same b a)) [
    | inl f ↦ absurd (true≢false (sym (same_of_c_string a b (sym (c_string_of_same b a f))) ∙ e))
    | inr f ↦ e ∙ sym f
  ]
]

pub same_from : (q k a : Bytes) → same q k ≡ true → same q a ≡ same k a
same_from q k a h = same_comm q a ∙ same_congr q k a h ∙ same_comm a k

pub compute_hash_congr :
    (a b : Bytes) (n : ℕ) → same a b ≡ true → compute_hash a n ≡ compute_hash b n
unfolding compute_hash
compute_hash_congr a b n h =
    ap (λ x. x % n)
      (sym (fnv-c_string fnv_offset_basis a)
        ∙ ap (fnv fnv_offset_basis) (c_string_of_same a b h)
        ∙ fnv-c_string fnv_offset_basis b)

pub compute_hash-lt : (a : Bytes) (n : ℕ) → 0 < n → compute_hash a n < n
unfolding compute_hash
compute_hash-lt a n h = grind arith

pub matches-same :
    (is_rim : Bool) (a b : Bytes) → NulFree a → NulFree b → matches is_rim a b ≡ same a b
unfolding matches same
matches-same false a b p q = refl
matches-same true a b p q = rw (c_string_of_NulFree a p, c_string_of_NulFree b q) refl
