-- ===== src/Tree/Spec/Split.antt =====
-- The operations at an entry in the middle of a sorted list, by the sign of the comparison with it.
use rimstone.Base.{List, ◌∷◌, ◌++◌, some, ◌≡◌, ◌∙◌, ap}
use rimstone.Tree.Key.{minus, same, plus, KeyOrder}
use rimstone.Tree.Spec.Sorted.{around, All-minus_trans, All-plus_trans, remove_above}
use rimstone.Tree.Spec.{
  All, IsSorted, find, find_minus, find_plus, place, place_minus, place_plus, remove, remove_minus,
  remove_plus,
}

module _ {ℓ} {K V : Type ℓ} ⦃order : KeyOrder K⦄ where
  find_step_plus :
      (k j : K) (w : V) (ys : List (K × V))
      → order.compare k j ≡ plus
      → find k ((j, w) ∷ ys) ≡ find k ys
  unfolding find
  find_step_plus k j w ys e = rw (e, find)

  find_step_same :
      (k j : K) (w : V) (ys : List (K × V))
      → order.compare k j ≡ same
      → find k ((j, w) ∷ ys) ≡ some w
  unfolding find
  find_step_same k j w ys e = rw (e, find)

  place_step_plus :
      (k j : K) (v w : V) (ys : List (K × V))
      → order.compare k j ≡ plus
      → place k v ((j, w) ∷ ys) ≡ (j, w) ∷ place k v ys
  unfolding place
  place_step_plus k j v w ys e = rw (e, place)

  place_step_same :
      (k j : K) (v w : V) (ys : List (K × V))
      → order.compare k j ≡ same
      → place k v ((j, w) ∷ ys) ≡ (j, w) ∷ ys
  unfolding place
  place_step_same k j v w ys e = rw (e, place)

  remove_step_plus :
      (k j : K) (w : V) (ys : List (K × V))
      → order.compare k j ≡ plus
      → remove k ((j, w) ∷ ys) ≡ (j, w) ∷ remove k ys
  unfolding remove
  remove_step_plus k j w ys e = rw (e, remove)

  remove_step_same :
      (k j : K) (w : V) (ys : List (K × V))
      → order.compare k j ≡ same
      → remove k ((j, w) ∷ ys) ≡ remove k ys
  unfolding remove
  remove_step_same k j w ys e = rw (e, remove)

  module _ (k : K) (xs : List (K × V)) (j : K) (w : V) (ys : List (K × V))
      (s : IsSorted (xs ++ ((j, w) ∷ ys))) where
    pub above : order.compare k j ≡ minus → All k minus ((j, w) ∷ ys)
    above e = (e, All-minus_trans k j ys e (around xs j w ys s).after)

    pub below : order.compare k j ≡ plus → All k plus xs
    below e = All-plus_trans k j xs e (around xs j w ys s).before

    pub below_same : order.compare k j ≡ same → All k plus xs
    below_same e = rw (order.eq_of_compare k j e) (around xs j w ys s).before

    pub above_same : order.compare k j ≡ same → All k minus ys
    above_same e = rw (order.eq_of_compare k j e) (around xs j w ys s).after

    pub find_at_minus : order.compare k j ≡ minus → find k (xs ++ ((j, w) ∷ ys)) ≡ find k xs
    find_at_minus e = find_minus k xs ((j, w) ∷ ys) (above e)

    pub find_at_same : order.compare k j ≡ same → find k (xs ++ ((j, w) ∷ ys)) ≡ some w
    find_at_same e = find_plus k xs ((j, w) ∷ ys) (below_same e) ∙ find_step_same k j w ys e

    pub find_at_plus : order.compare k j ≡ plus → find k (xs ++ ((j, w) ∷ ys)) ≡ find k ys
    find_at_plus e = find_plus k xs ((j, w) ∷ ys) (below e) ∙ find_step_plus k j w ys e

    pub place_at_minus :
        (v : V)
        → order.compare k j ≡ minus
        → place k v (xs ++ ((j, w) ∷ ys)) ≡ place k v xs ++ ((j, w) ∷ ys)
    place_at_minus v e = place_minus k v xs ((j, w) ∷ ys) (above e)

    pub place_at_same :
        (v : V) → order.compare k j ≡ same → place k v (xs ++ ((j, w) ∷ ys)) ≡ xs ++ ((j, w) ∷ ys)
    place_at_same v e =
        place_plus k v xs ((j, w) ∷ ys) (below_same e)
        ∙ ap (λ zs. xs ++ zs) (place_step_same k j v w ys e)

    pub place_at_plus :
        (v : V)
        → order.compare k j ≡ plus
        → place k v (xs ++ ((j, w) ∷ ys)) ≡ xs ++ ((j, w) ∷ place k v ys)
    place_at_plus v e =
        place_plus k v xs ((j, w) ∷ ys) (below e)
        ∙ ap (λ zs. xs ++ zs) (place_step_plus k j v w ys e)

    pub remove_at_minus :
        order.compare k j ≡ minus → remove k (xs ++ ((j, w) ∷ ys)) ≡ remove k xs ++ ((j, w) ∷ ys)
    remove_at_minus e = remove_minus k xs ((j, w) ∷ ys) (above e)

    pub remove_at_same : order.compare k j ≡ same → remove k (xs ++ ((j, w) ∷ ys)) ≡ xs ++ ys
    remove_at_same e =
        remove_plus k xs ((j, w) ∷ ys) (below_same e)
        ∙ ap (λ zs. xs ++ zs) (remove_step_same k j w ys e ∙ remove_above k ys (above_same e))

    pub remove_at_plus :
        order.compare k j ≡ plus → remove k (xs ++ ((j, w) ∷ ys)) ≡ xs ++ ((j, w) ∷ remove k ys)
    remove_at_plus e =
        remove_plus k xs ((j, w) ∷ ys) (below e) ∙ ap (λ zs. xs ++ zs) (remove_step_plus k j w ys e)
