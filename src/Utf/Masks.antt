-- ===== src/Utf/Masks.antt =====
-- The masks of utf.c on bytes, as comparisons.
use rimstone.Base.{
  ℕ, zero, suc, ◌<◌, bit_and, ◌≡◌, refl, sym, ap, ◌∙◌, ◌⊎◌, inl, inr, Bool, true, false, not, ◌&&◌,
  arith, ltb, leb, ◌==◌,
}
use mathlib.Core.Bool.{true≢false}
use rimstone.Utf.{has}

abbrev same : Bool → Bool → Bool
same true b = b
same false b = not b

same→≡ : (a b : Bool) → same a b ≡ true → a ≡ b
same→≡ true b h = sym h
same→≡ false true h = h
same→≡ false false h = refl

abbrev all_below : ℕ → (ℕ → Bool) → Bool
all_below zero p = true
all_below (suc n) p = p n && all_below n p

and_both : (a b : Bool) → (a && b) ≡ true → (a ≡ true) × (b ≡ true)
and_both true b h = (refl, h)
and_both false b h = (h, elim (true≢false (sym h)) [ ])

lt_suc-cases : (i n : ℕ) → i < suc n → (i ≡ n) ⊎ (i < n)
lt_suc-cases i n h = grind arith

all_below-every : (n : ℕ) (p : ℕ → Bool) → all_below n p ≡ true → (i : ℕ) → i < n → p i ≡ true
all_below-every zero p h i b = absurd (omega arith)
all_below-every (suc n) p h i b =
    let (first, rest) = and_both (p n) (all_below n p) h in
    elim (lt_suc-cases i n b) [
      | inl e ↦ ap p e ∙ first
      | inr below ↦ all_below-every n p rest i below
    ]

on_bytes :
    (f g : ℕ → Bool) → all_below 256 (λ i. same (f i) (g i)) ≡ true → (b : ℕ) → b < 256 → f b ≡ g b
on_bytes f g h b below = same→≡ (f b) (g b) (all_below-every 256 (λ i. same (f i) (g i)) h b below)

pub is_ascii : (b : ℕ) → b < 256 → (bit_and b 128 == 0) ≡ ltb b 128
is_ascii = on_bytes (λ b. bit_and b 128 == 0) (λ b. ltb b 128) refl

pub has-four : (b : ℕ) → b < 256 → has 240 b ≡ leb 240 b
has-four = on_bytes (has 240) (leb 240) refl

pub has-three : (b : ℕ) → b < 256 → has 224 b ≡ leb 224 b
has-three = on_bytes (has 224) (leb 224) refl

pub has-two : (b : ℕ) → b < 256 → has 192 b ≡ leb 192 b
has-two = on_bytes (has 192) (leb 192) refl

pub has-continuation : (b : ℕ) → b < 256 → has 128 b ≡ leb 128 b
has-continuation = on_bytes (has 128) (leb 128) refl
