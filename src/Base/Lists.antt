-- ===== src/Base/Lists.antt =====
-- Lists measured and indexed by native numbers, under the library's names.
use Prim.Native.Nat.{ℕ, zero, suc, ◌+◌, ◌≤◌, ◌<◌}
use mathlib.Core.List.{List, [], ◌∷◌, ◌++◌, flatten}
use mathlib.Core.Logic.{◌≢◌, ◌⊎◌, inl, inr}
use mathlib.Core.Option.{Option, none, some}
use mathlib.Core.Path.{◌≡◌, refl, sym, ap, ◌∙◌}
use native.Mathlib.Omega.{arith}
use rimstone.Base.Tests.{◌==◌, Bool-cases, ==→≡, ==-false}

module _ {ℓ} {A : Type ℓ} where
  abbrev pub length : List A → ℕ
  length [] = 0
  length (x ∷ xs) = suc (length xs)

  abbrev pub get_elem? : List A → ℕ → Option A
  get_elem? [] i = none
  get_elem? (x ∷ xs) zero = some x
  get_elem? (x ∷ xs) (suc i) = get_elem? xs i

  abbrev pub get_or : List A → ℕ → A → A
  get_or [] i d = d
  get_or (x ∷ xs) zero d = x
  get_or (x ∷ xs) (suc i) d = get_or xs i d

  -- A write out of bounds changes nothing.
  abbrev pub set : List A → ℕ → A → List A
  set [] i v = []
  set (x ∷ xs) zero v = v ∷ xs
  set (x ∷ xs) (suc i) v = x ∷ set xs i v

  abbrev pub take : ℕ → List A → List A
  take zero xs = []
  take (suc n) [] = []
  take (suc n) (x ∷ xs) = x ∷ take n xs

  abbrev pub drop : ℕ → List A → List A
  drop zero xs = xs
  drop (suc n) [] = []
  drop (suc n) (x ∷ xs) = drop n xs

  unfoldable pub replicate : ℕ → A → List A
  replicate zero a = []
  replicate (suc n) a = a ∷ replicate n a

  pub length-append : (xs ys : List A) → length (xs ++ ys) ≡ length xs + length ys
  length-append [] ys = omega arith
  length-append (x ∷ xs) ys = omega (arith, length-append xs ys)

  pub length-set : (xs : List A) (i : ℕ) (v : A) → length (set xs i v) ≡ length xs
  length-set (x ∷ xs) (suc i) v = ap suc (length-set xs i v)
  length-set _ _ v = refl

  pub length-replicate : (n : ℕ) (a : A) → length (replicate n a) ≡ n
  unfolding replicate
  length-replicate zero a = refl
  length-replicate (suc n) a = ap suc (length-replicate n a)

  pub get_or-replicate : (n i : ℕ) (a : A) → get_or (replicate n a) i a ≡ a
  unfolding replicate
  get_or-replicate (suc n) (suc i) a = get_or-replicate n i a
  get_or-replicate _ _ a = refl

  pub get_or-set_self :
      (xs : List A) (i : ℕ) (v d : A) → i < length xs → get_or (set xs i v) i d ≡ v
  get_or-set_self [] i v d h = elim h [ ]
  get_or-set_self (x ∷ xs) zero v d h = refl
  get_or-set_self (x ∷ xs) (suc i) v d h = get_or-set_self xs i v d (omega arith)

  pub get_or-set_ne :
      (xs : List A) (i j : ℕ) (v d : A) → i ≢ j → get_or (set xs i v) j d ≡ get_or xs j d
  get_or-set_ne (x ∷ xs) zero zero v d h = absurd (h refl)
  get_or-set_ne (x ∷ xs) (suc i) (suc j) v d h = get_or-set_ne xs i j v d (λ e. h (ap suc e))
  get_or-set_ne _ _ _ v d h = refl

  pub take-all : (n : ℕ) (xs : List A) → length xs ≤ n → take n xs ≡ xs
  take-all zero [] h = refl
  take-all zero (x ∷ xs) h = absurd (omega arith)
  take-all (suc n) [] h = refl
  take-all (suc n) (x ∷ xs) h = ap (◌∷◌ x) (take-all n xs (omega arith))

  pub get_or-append_replicate :
      (xs : List A) (n i : ℕ) (a : A) → get_or (xs ++ replicate n a) i a ≡ get_or xs i a
  get_or-append_replicate [] n i a = get_or-replicate n i a
  get_or-append_replicate (x ∷ xs) n zero a = refl
  get_or-append_replicate (x ∷ xs) n (suc i) a = get_or-append_replicate xs n i a

  pub get_or-past : (xs : List A) (i : ℕ) (a : A) → length xs ≤ i → get_or xs i a ≡ a
  get_or-past [] i a h = refl
  get_or-past (x ∷ xs) zero a h = absurd (omega arith)
  get_or-past (x ∷ xs) (suc i) a h = get_or-past xs i a (omega arith)

  pub get_or-set_cases :
      (xs : List A) (i j : ℕ) (v d : A)
      → i < length xs
      → ((i ≡ j) × (get_or (set xs i v) j d ≡ v))
        ⊎ ((i ≢ j) × (get_or (set xs i v) j d ≡ get_or xs j d))
  get_or-set_cases xs i j v d h = elim (Bool-cases (i == j)) [
    | inl e ↦ inl (
      ==→≡ i j e,
      ap (λ k. get_or (set xs i v) k d) (sym (==→≡ i j e)) ∙ get_or-set_self xs i v d h,
    )
    | inr e ↦ inr (==-false i j e, get_or-set_ne xs i j v d (==-false i j e))
  ]

pub length-flatten-set {ℓ} :
    {A : Type ℓ} (xss : List (List A)) (i : ℕ) (ys : List A)
    → i < length xss
    → length (flatten (set xss i ys)) + length (get_or xss i []) ≡ length (flatten xss) + length ys
unfolding flatten
length-flatten-set [] i ys h = absurd (omega arith)
length-flatten-set (xs ∷ xss) zero ys h =
    omega (arith, length-append xs (flatten xss), length-append ys (flatten xss))
length-flatten-set (xs ∷ xss) (suc i) ys h = omega (
  arith,
  length-append xs (flatten xss),
  length-append xs (flatten (set xss i ys)),
  length-flatten-set xss i ys (omega arith),
)

pub flatten-replicate {ℓ} : {A : Type ℓ} (n : ℕ) → flatten {A = A} (replicate n []) ≡ []
unfolding flatten replicate
flatten-replicate zero = refl
flatten-replicate (suc n) = flatten-replicate n
