-- ===== src/Tree/Spec/Sorted.antt =====
-- Sorted lists of entries: how they split at an entry, and that the operations keep them sorted.
use rimstone.Base.{List, [], ◌∷◌, ◌++◌, ◌≡◌, refl, ap, none}
use rimstone.Tree.Key.{minus, plus, KeyOrder, is_minus, is_same, is_plus, compared}
use rimstone.Tree.Spec.{All, IsSorted, find, place, remove}

module _ {ℓ} {K : Type ℓ} ⦃order : KeyOrder K⦄ where
  pub plus_trans :
      (a b c : K) → order.compare a b ≡ plus → order.compare b c ≡ plus → order.compare a c ≡ plus
  plus_trans a b c p q =
      order.plus_of_minus c a
        (order.minus_trans c b a (order.minus_of_plus b c q) (order.minus_of_plus a b p))

module _ {ℓ} {K V : Type ℓ} ⦃order : KeyOrder K⦄ where
  pub All-minus_trans :
      (k j : K) (es : List (K × V)) → order.compare k j ≡ minus → All j minus es → All k minus es
  All-minus_trans k j [] e a = tt
  All-minus_trans k j ((i, u) ∷ es) e (d, a) =
      (order.minus_trans k j i e d, All-minus_trans k j es e a)

  pub All-plus_trans :
      (k j : K) (es : List (K × V)) → order.compare k j ≡ plus → All j plus es → All k plus es
  All-plus_trans k j [] e a = tt
  All-plus_trans k j ((i, u) ∷ es) e (d, a) = (plus_trans k j i e d, All-plus_trans k j es e a)

  All-minus_append :
      (k : K) (xs ys : List (K × V)) → All k minus (xs ++ ys) → All k minus xs × All k minus ys
  All-minus_append k [] ys a = (tt, a)
  All-minus_append k ((i, u) ∷ xs) ys (e, a) =
      let (b, c) = All-minus_append k xs ys a in ((e, b), c)

  -- Around an entry of a sorted list.
  pub record Around (xs : List (K × V)) (j : K) (ys : List (K × V)) : Type ℓ where
    pub before : All j plus xs
    pub after : All j minus ys
    pub left : IsSorted xs
    pub right : IsSorted ys

  pub around :
      (xs : List (K × V)) (j : K) (w : V) (ys : List (K × V))
      → IsSorted (xs ++ ((j, w) ∷ ys))
      → Around xs j ys
  around [] j w ys (a, s) = record { before = tt; after = a; left = tt; right = s }
  around ((i, u) ∷ xs) j w ys (a, s) =
      let rest = around xs j w ys s in
      let (b, (e, c)) = All-minus_append i xs ((j, w) ∷ ys) a in
      record {
        before = (order.plus_of_minus i j e, rest.before);
        after = rest.after;
        left = (b, rest.left);
        right = rest.right;
      }

  All-minus-place :
      (j k : K) (v : V) (es : List (K × V))
      → order.compare j k ≡ minus
      → All j minus es
      → All j minus (place k v es)
  unfolding place
  All-minus-place j k v [] e a = (e, tt)
  All-minus-place j k v ((i, u) ∷ es) e (d, a) = elim (compared (order.compare k i)) [
    | is_minus f ↦ rw (f, place) (e, (d, a))
    | is_same f ↦ rw (f, place) (d, a)
    | is_plus f ↦ rw (f, place) (d, All-minus-place j k v es e a)
  ]

  pub place-IsSorted : (k : K) (v : V) (es : List (K × V)) → IsSorted es → IsSorted (place k v es)
  unfolding place
  place-IsSorted k v [] s = (tt, tt)
  place-IsSorted k v ((i, u) ∷ es) (a, s) = elim (compared (order.compare k i)) [
    | is_minus e ↦ rw (e, place) ((e, All-minus_trans k i es e a), (a, s))
    | is_same e ↦ rw (e, place) (a, s)
    | is_plus e ↦
        rw (e, place)
          (All-minus-place i k v es (order.minus_of_plus k i e) a, place-IsSorted k v es s)
  ]

  All-minus-remove : (j k : K) (es : List (K × V)) → All j minus es → All j minus (remove k es)
  unfolding remove
  All-minus-remove j k [] a = tt
  All-minus-remove j k ((i, u) ∷ es) (e, a) = elim (compared (order.compare k i)) [
    | is_minus f ↦ rw (f, remove) (e, All-minus-remove j k es a)
    | is_same f ↦ rw (f, remove) (All-minus-remove j k es a)
    | is_plus f ↦ rw (f, remove) (e, All-minus-remove j k es a)
  ]

  pub remove-IsSorted : (k : K) (es : List (K × V)) → IsSorted es → IsSorted (remove k es)
  unfolding remove
  remove-IsSorted k [] s = tt
  remove-IsSorted k ((i, u) ∷ es) (a, s) = elim (compared (order.compare k i)) [
    | is_minus f ↦ rw (f, remove) (All-minus-remove i k es a, remove-IsSorted k es s)
    | is_same f ↦ rw (f, remove) (remove-IsSorted k es s)
    | is_plus f ↦ rw (f, remove) (All-minus-remove i k es a, remove-IsSorted k es s)
  ]

  -- Where every key is greater, nothing is found and nothing removed.
  pub find_above : (k : K) (es : List (K × V)) → All k minus es → find k es ≡ none
  unfolding find
  find_above k [] a = refl
  find_above k ((i, u) ∷ es) (e, a) = rw (e, find) (find_above k es a)

  pub remove_above : (k : K) (es : List (K × V)) → All k minus es → remove k es ≡ es
  unfolding remove
  remove_above k [] a = refl
  remove_above k ((i, u) ∷ es) (e, a) =
      rw (e, remove) (ap (λ zs. (i, u) ∷ zs) (remove_above k es a))
