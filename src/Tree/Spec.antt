-- ===== src/Tree/Spec.antt =====
-- What a tree stands for: a list of entries in the order of their keys, and its operations.
pub mod Counts
pub mod Sorted
pub mod Split
use rimstone.Base.{Bool, List, [], ◌∷◌, ◌++◌, Option, none, some, ◌≡◌, refl, ap, if◌then◌else◌}
use rimstone.Tree.Key.{Sign, minus, same, plus, KeyOrder, is_minus, is_same, is_plus, compared}

module _ {ℓ} {K V : Type ℓ} ⦃order : KeyOrder K⦄ where
  -- `k` compares with every key of the list as `s` says.
  abbrev pub All : K → Sign → List (K × V) → Type 0
  All k s [] = Unit
  All k s ((j, w) ∷ es) = (order.compare k j ≡ s) × All k s es

  abbrev pub IsSorted : List (K × V) → Type 0
  IsSorted [] = Unit
  IsSorted ((j, w) ∷ es) = All j minus es × IsSorted es

  -- The data under a key.
  unfoldable pub find : K → List (K × V) → Option V
  find k [] = none
  find k ((j, w) ∷ es) =
      let rest = find k es in elim (order.compare k j) [ same ↦ some w | _ ↦ rest ]

  -- A key that is there already is left as it is.
  unfoldable pub place : K → V → List (K × V) → List (K × V)
  place k v [] = (k, v) ∷ []
  place k v ((j, w) ∷ es) =
      let rest = place k v es in
      elim (order.compare k j) [
        | minus ↦ (k, v) ∷ (j, w) ∷ es
        | same ↦ (j, w) ∷ es
        | plus ↦ (j, w) ∷ rest
      ]

  unfoldable pub remove : K → List (K × V) → List (K × V)
  remove k [] = []
  remove k ((j, w) ∷ es) =
      let rest = remove k es in elim (order.compare k j) [ same ↦ rest | _ ↦ (j, w) ∷ rest ]

  -- The last entry with a lesser key, or with an equal one where that is asked for.
  unfoldable pub last_lesser : Bool → K → Option (K × V) → List (K × V) → Option (K × V)
  last_lesser equal k prev [] = prev
  last_lesser equal k prev ((j, w) ∷ es) = elim (order.compare k j) [
    | minus ↦ last_lesser equal k prev es
    | same ↦ last_lesser equal k (if equal then some (j, w) else prev) es
    | plus ↦ last_lesser equal k (some (j, w)) es
  ]

  -- The first entry with a greater key, or with an equal one where that is asked for.
  unfoldable pub first_greater : Bool → K → List (K × V) → Option (K × V)
  first_greater equal k [] = none
  first_greater equal k ((j, w) ∷ es) =
      let rest = first_greater equal k es in
      elim (order.compare k j) [
        | minus ↦ some (j, w)
        | same ↦ if equal then some (j, w) else rest
        | plus ↦ rest
      ]

  module _ (k : K) where
    pub find_minus : (xs ys : List (K × V)) → All k minus ys → find k (xs ++ ys) ≡ find k xs
    unfolding find
    find_minus [] [] a = refl
    find_minus [] ((j, w) ∷ ys) (e, a) = rw e (find_minus [] ys a)
    find_minus ((j, w) ∷ xs) ys a = elim (compared (order.compare k j)) [
      | is_minus e ↦ rw (e, find) (find_minus xs ys a)
      | is_same e ↦ rw (e, find)
      | is_plus e ↦ rw (e, find) (find_minus xs ys a)
    ]

    pub find_plus : (xs ys : List (K × V)) → All k plus xs → find k (xs ++ ys) ≡ find k ys
    unfolding find
    find_plus [] ys a = refl
    find_plus ((j, w) ∷ xs) ys (e, a) = rw e (find_plus xs ys a)

    pub place_minus :
        (v : V) (xs ys : List (K × V)) → All k minus ys → place k v (xs ++ ys) ≡ place k v xs ++ ys
    unfolding place
    place_minus v [] [] a = refl
    place_minus v [] ((j, w) ∷ ys) (e, a) = rw e
    place_minus v ((j, w) ∷ xs) ys a = elim (compared (order.compare k j)) [
      | is_minus e ↦ rw (e, place)
      | is_same e ↦ rw (e, place)
      | is_plus e ↦ rw (e, place) (ap (λ zs. (j, w) ∷ zs) (place_minus v xs ys a))
    ]

    pub place_plus :
        (v : V) (xs ys : List (K × V)) → All k plus xs → place k v (xs ++ ys) ≡ xs ++ place k v ys
    unfolding place
    place_plus v [] ys a = refl
    place_plus v ((j, w) ∷ xs) ys (e, a) = rw e (ap (λ zs. (j, w) ∷ zs) (place_plus v xs ys a))

    pub remove_minus :
        (xs ys : List (K × V)) → All k minus ys → remove k (xs ++ ys) ≡ remove k xs ++ ys
    unfolding remove
    remove_minus [] [] a = refl
    remove_minus [] ((j, w) ∷ ys) (e, a) = rw e (ap (λ zs. (j, w) ∷ zs) (remove_minus [] ys a))
    remove_minus ((j, w) ∷ xs) ys a = elim (compared (order.compare k j)) [
      | is_minus e ↦ rw (e, remove) (ap (λ zs. (j, w) ∷ zs) (remove_minus xs ys a))
      | is_same e ↦ rw (e, remove) (remove_minus xs ys a)
      | is_plus e ↦ rw (e, remove) (ap (λ zs. (j, w) ∷ zs) (remove_minus xs ys a))
    ]

    pub remove_plus :
        (xs ys : List (K × V)) → All k plus xs → remove k (xs ++ ys) ≡ xs ++ remove k ys
    unfolding remove
    remove_plus [] ys a = refl
    remove_plus ((j, w) ∷ xs) ys (e, a) = rw e (ap (λ zs. (j, w) ∷ zs) (remove_plus xs ys a))

    pub last_lesser_minus :
        (equal : Bool) (prev : Option (K × V)) (xs ys : List (K × V))
        → All k minus ys
        → last_lesser equal k prev (xs ++ ys) ≡ last_lesser equal k prev xs
    unfolding last_lesser
    last_lesser_minus equal prev [] [] a = refl
    last_lesser_minus equal prev [] ((j, w) ∷ ys) (e, a) =
        rw e (last_lesser_minus equal prev [] ys a)
    last_lesser_minus equal prev ((j, w) ∷ xs) ys a = elim (compared (order.compare k j)) [
      | is_minus e ↦ rw (e, last_lesser) (last_lesser_minus equal prev xs ys a)
      | is_same e ↦
          rw (e, last_lesser)
            (last_lesser_minus equal (if equal then some (j, w) else prev) xs ys a)
      | is_plus e ↦ rw (e, last_lesser) (last_lesser_minus equal (some (j, w)) xs ys a)
    ]

    pub last_lesser_plus :
        (equal : Bool) (prev : Option (K × V)) (xs : List (K × V)) (j : K) (w : V)
        (ys : List (K × V))
        → All k plus xs
        → order.compare k j ≡ plus
        → last_lesser equal k prev (xs ++ ((j, w) ∷ ys)) ≡ last_lesser equal k (some (j, w)) ys
    unfolding last_lesser
    last_lesser_plus equal prev [] j w ys a e = rw e
    last_lesser_plus equal prev ((i, u) ∷ xs) j w ys (d, a) e =
        rw d (last_lesser_plus equal (some (i, u)) xs j w ys a e)

    pub last_lesser_none :
        (equal : Bool) (prev : Option (K × V)) (ys : List (K × V))
        → All k minus ys
        → last_lesser equal k prev ys ≡ prev
    last_lesser_none equal prev ys a =
        rw (last_lesser_minus equal prev [] ys a) (unfold last_lesser in refl)

    pub first_greater_plus :
        (equal : Bool) (xs ys : List (K × V))
        → All k plus xs
        → first_greater equal k (xs ++ ys) ≡ first_greater equal k ys
    unfolding first_greater
    first_greater_plus equal [] ys a = refl
    first_greater_plus equal ((j, w) ∷ xs) ys (e, a) = rw e (first_greater_plus equal xs ys a)
