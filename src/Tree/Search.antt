-- ===== src/Tree/Search.antt =====
-- The searches of the tree find in its sorted list what their names say.
use mathlib.Core.Option.{or_else}
use rimstone.Base.{
  Bool, true, false, List, [], ◌∷◌, ◌++◌, Option, none, some, ◌≡◌, refl, sym, ◌∙◌, ap,
  if◌then◌else◌,
}
use rimstone.Tree.Contents.{to_list}
use rimstone.Tree.Key.{minus, same, plus, KeyOrder, is_minus, is_same, is_plus, compared}
use rimstone.Tree.Operations.{
  Tree, conclude, search_f, search_lesser_equal_f, search_greater_equal_f, search_node,
  search_lesser_equal, search_greater_equal,
}
use rimstone.Tree.Spec.Sorted.{around}
use rimstone.Tree.Spec.Split.{
  find_at_minus, find_at_same, find_at_plus, above, below, below_same, above_same,
}
use rimstone.Tree.Spec.{
  All, IsSorted, find, last_lesser, last_lesser_minus, last_lesser_plus, last_lesser_none,
  first_greater, first_greater_plus,
}
use rimstone.Tree.{Node, null, vacant, node, Cursor}

module _ {ℓ} {K V : Type ℓ} ⦃order : KeyOrder K⦄ where
  -- The entry with the key that was searched for.
  abbrev pub entry : K → Option V → Option (K × V)
  entry k none = none
  entry k (some v) = some (k, v)

  pub search-find :
      (k : K) (c : Cursor K V) (t : Node K V)
      → IsSorted (to_list t)
      → search_node k c t ≡ conclude c (entry k (find k (to_list t)))
  unfolding search_node find
  search-find k c null s = refl
  search-find k c vacant s = refl
  search-find k c (node h j w l g) s =
      let a = around (to_list l) j w (to_list g) s in
      elim (compared (order.compare k j)) [
        | is_minus e ↦
            rw (e, search_node)
              (search-find k c l a.left
                ∙ ap (λ o. conclude c (entry k o))
                    (sym (find_at_minus k (to_list l) j w (to_list g) s e)))
        | is_same e ↦
            rw (e, search_node)
              (ap (λ i. conclude c (some (i, w))) (sym (order.eq_of_compare k j e))
                ∙ ap (λ o. conclude c (entry k o))
                    (sym (find_at_same k (to_list l) j w (to_list g) s e)))
        | is_plus e ↦
            rw (e, search_node)
              (search-find k c g a.right
                ∙ ap (λ o. conclude c (entry k o))
                    (sym (find_at_plus k (to_list l) j w (to_list g) s e)))
      ]

  -- An entry in the middle, seen by the search for the last lesser one.
  last_lesser_at_same :
      (equal : Bool) (k : K) (prev : Option (K × V)) (xs : List (K × V)) (j : K) (w : V)
      (ys : List (K × V))
      → All k plus xs
      → All k minus ys
      → order.compare k j ≡ same
      → last_lesser equal k prev (xs ++ ((j, w) ∷ ys))
        ≡ (if equal then some (j, w) else last_lesser equal k prev xs)
  unfolding last_lesser
  last_lesser_at_same equal k prev [] j w ys a b e =
      rw (e, last_lesser) (last_lesser_none k equal _ ys b)
  last_lesser_at_same equal k prev ((i, u) ∷ xs) j w ys (d, a) b e =
      rw (d, last_lesser) (last_lesser_at_same equal k (some (i, u)) xs j w ys a b e)

  conclude_if :
      (c : Cursor K V) (j : K) (w : V) (b : Bool) {x : Cursor K V} (o : Option (K × V))
      → x ≡ conclude c o
      → (if b then conclude c (some (j, w)) else x) ≡ conclude c (if b then some (j, w) else o)
  conclude_if c j w true o p = refl
  conclude_if c j w false o p = p

  pub search_lesser_equal-last :
      (equal : Bool) (k : K) (c : Cursor K V) (prev : Option (K × V)) (t : Node K V)
      → IsSorted (to_list t)
      → search_lesser_equal equal k c prev t ≡ conclude c (last_lesser equal k prev (to_list t))
  unfolding search_lesser_equal last_lesser
  search_lesser_equal-last equal k c prev null s = refl
  search_lesser_equal-last equal k c prev vacant s = refl
  search_lesser_equal-last equal k c prev (node h j w l g) s =
      let xs = to_list l in
      let ys = to_list g in
      let a = around xs j w ys s in
      elim (compared (order.compare k j)) [
        | is_minus e ↦
            rw (e, search_lesser_equal)
              (search_lesser_equal-last equal k c prev l a.left
                ∙ ap (conclude c)
                    (sym (last_lesser_minus k equal prev xs ((j, w) ∷ ys) (above k xs j w ys s e))))
        | is_same e ↦
            rw (e, search_lesser_equal)
              (conclude_if c j w equal _ (search_lesser_equal-last equal k c prev l a.left)
                ∙ ap (conclude c) (
                    sym (
                      last_lesser_at_same equal k prev xs j w ys (below_same k xs j w ys s e)
                        (above_same k xs j w ys s e) e)))
        | is_plus e ↦
            rw (e, search_lesser_equal)
              (search_lesser_equal-last equal k c (some (j, w)) g a.right
                ∙ ap (conclude c)
                    (sym (last_lesser_plus k equal prev xs j w ys (below k xs j w ys s e) e)))
      ]

  first_greater-append :
      (equal : Bool) (k : K) (xs ys : List (K × V))
      → first_greater equal k (xs ++ ys)
        ≡ or_else (first_greater equal k xs) (first_greater equal k ys)
  unfolding first_greater or_else
  first_greater-append equal k [] ys = refl
  first_greater-append equal k ((j, w) ∷ xs) ys = elim (compared (order.compare k j)) [
    | is_minus e ↦ rw (e, first_greater)
    | is_same e ↦ rw (e, first_greater) (skip equal _ _ (first_greater-append equal k xs ys))
    | is_plus e ↦ rw (e, first_greater) (first_greater-append equal k xs ys)
  ]
    where
      skip :
          (b : Bool) {x : Option (K × V)} (o p : Option (K × V))
          → x ≡ or_else o p
          → (if b then some (j, w) else x) ≡ or_else (if b then some (j, w) else o) p
      skip true o p q = refl
      skip false o p q = q

  or_else-some :
      (o : Option (K × V)) (e : K × V) (prev : Option (K × V))
      → or_else (or_else o (some e)) prev ≡ or_else o (some e)
  unfolding or_else
  or_else-some none e prev = refl
  or_else-some (some d) e prev = refl

  or_else-none : (o : Option (K × V)) → or_else o none ≡ o
  unfolding or_else
  or_else-none none = refl
  or_else-none (some e) = refl

  first_greater_head :
      (equal : Bool) (k j : K) (w : V) (ys : List (K × V))
      → order.compare k j ≡ minus
      → first_greater equal k ((j, w) ∷ ys) ≡ some (j, w)
  unfolding first_greater
  first_greater_head equal k j w ys e = rw (e, first_greater)

  first_greater-same :
      (equal : Bool) (k j : K) (w : V) (ys : List (K × V))
      → order.compare k j ≡ same
      → first_greater equal k ((j, w) ∷ ys)
        ≡ (if equal then some (j, w) else first_greater equal k ys)
  unfolding first_greater
  first_greater-same equal k j w ys e = rw (e, first_greater)

  first_greater_tail :
      (equal : Bool) (k j : K) (w : V) (ys : List (K × V))
      → order.compare k j ≡ plus
      → first_greater equal k ((j, w) ∷ ys) ≡ first_greater equal k ys
  unfolding first_greater
  first_greater_tail equal k j w ys e = rw (e, first_greater)

  greater_at_minus :
      (equal : Bool) (k : K) (xs : List (K × V)) (j : K) (w : V) (ys : List (K × V))
      (prev : Option (K × V))
      → order.compare k j ≡ minus
      → or_else (first_greater equal k (xs ++ ((j, w) ∷ ys))) prev
        ≡ or_else (first_greater equal k xs) (some (j, w))
  greater_at_minus equal k xs j w ys prev e =
      rw (first_greater-append equal k xs ((j, w) ∷ ys), first_greater_head equal k j w ys e)
        (or_else-some (first_greater equal k xs) (j, w) prev)

  if_else :
      (b : Bool) (e : K × V) (o prev : Option (K × V))
      → or_else (if b then some e else o) prev ≡ (if b then some e else or_else o prev)
  unfolding or_else
  if_else true e o prev = refl
  if_else false e o prev = refl

  pub search_greater_equal-first :
      (equal : Bool) (k : K) (c : Cursor K V) (prev : Option (K × V)) (t : Node K V)
      → IsSorted (to_list t)
      → search_greater_equal equal k c prev t
        ≡ conclude c (or_else (first_greater equal k (to_list t)) prev)
  unfolding search_greater_equal first_greater or_else
  search_greater_equal-first equal k c prev null s = refl
  search_greater_equal-first equal k c prev vacant s = refl
  search_greater_equal-first equal k c prev (node h j w l g) s =
      let xs = to_list l in
      let ys = to_list g in
      let a = around xs j w ys s in
      elim (compared (order.compare k j)) [
        | is_minus e ↦
            rw (e, search_greater_equal)
              (search_greater_equal-first equal k c (some (j, w)) l a.left
                ∙ ap (conclude c) (sym (greater_at_minus equal k xs j w ys prev e)))
        | is_same e ↦
            rw (e, search_greater_equal)
              (conclude_if c j w equal _ (search_greater_equal-first equal k c prev g a.right)
                ∙ ap (conclude c) (
                    sym (
                      ap (λ o. or_else o prev)
                        (first_greater_plus k equal xs ((j, w) ∷ ys) (below_same k xs j w ys s e)
                          ∙ first_greater-same equal k j w ys e)
                      ∙ if_else equal (j, w) (first_greater equal k ys) prev)))
        | is_plus e ↦
            rw (e, search_greater_equal)
              (search_greater_equal-first equal k c prev g a.right
                ∙ ap (λ o. conclude c (or_else o prev))
                    (sym (
                      first_greater_plus k equal xs ((j, w) ∷ ys) (below k xs j w ys s e)
                      ∙ first_greater_tail equal k j w ys e)))
      ]

  -- The three searches of a tree with sorted entries end at the entry with the key, at the last
  -- entry with a lesser key and at the first with a greater one, or with an equal one where that is
  -- asked for; where there is none, with the status of a key that is not there.
  pub searches_f :
      (equal : Bool) (k : K) (c : Cursor K V) (t : Tree K V)
      → IsSorted (to_list t.root)
      → let c₀ : Cursor K V = record c { count = t.count } in
        let es = to_list t.root in
        (search_f k c t ≡ conclude c₀ (entry k (find k es)))
        × (search_lesser_equal_f equal k c t ≡ conclude c₀ (last_lesser equal k none es))
        × (search_greater_equal_f equal k c t ≡ conclude c₀ (first_greater equal k es))
  unfolding search_f search_lesser_equal_f search_greater_equal_f
  searches_f equal k c t s =
      let c₀ : Cursor K V = record c { count = t.count } in
      (
        search-find k c₀ t.root s,
        search_lesser_equal-last equal k c₀ none t.root s,
        search_greater_equal-first equal k c₀ none t.root s
            ∙ ap (conclude c₀) (or_else-none (first_greater equal k (to_list t.root))),
      )
