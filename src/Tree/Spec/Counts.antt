-- ===== src/Tree/Spec/Counts.antt =====
-- How many entries the operations on a sorted list leave, and what is found in them afterwards.
use rimstone.Base.{ℕ, ◌+◌, List, [], ◌∷◌, Option, none, some, ◌≡◌, length, arith}
use rimstone.Tree.Key.{minus, KeyOrder, is_minus, is_same, is_plus, compared}
use rimstone.Tree.Spec.Sorted.{find_above, remove_above, All-minus_trans}
use rimstone.Tree.Spec.{All, IsSorted, find, place, remove}

abbrev pub found {ℓ} : {V : Type ℓ} → Option V → ℕ
found none = 0
found (some v) = 1

abbrev pub missing {ℓ} : {V : Type ℓ} → Option V → ℕ
missing none = 1
missing (some v) = 0

module _ {ℓ} {K V : Type ℓ} ⦃order : KeyOrder K⦄ where
  pub length-place :
      (k : K) (v : V) (es : List (K × V))
      → IsSorted es
      → length (place k v es) ≡ length es + missing (find k es)
  unfolding place find
  length-place k v [] s = omega arith
  length-place k v ((j, w) ∷ es) (a, s) = elim (compared (order.compare k j)) [
    | is_minus e ↦
        rw (e, place, find) (rw (find_above k es (All-minus_trans k j es e a)) (omega arith))
    | is_same e ↦ rw (e, place, find) (omega arith)
    | is_plus e ↦ rw (e, place, find) (omega (arith, length-place k v es s))
  ]

  pub length-remove :
      (k : K) (es : List (K × V))
      → IsSorted es
      → length (remove k es) + found (find k es) ≡ length es
  unfolding remove find
  length-remove k [] s = omega arith
  length-remove k ((j, w) ∷ es) (a, s) = elim (compared (order.compare k j)) [
    | is_minus e ↦ rw (e, remove, find) (omega (arith, length-remove k es s))
    | is_same e ↦
        let gone : All k minus es = rw (order.eq_of_compare k j e) a in
        rw (e, remove, find) (rw (remove_above k es gone) (omega arith))
    | is_plus e ↦ rw (e, remove, find) (omega (arith, length-remove k es s))
  ]
