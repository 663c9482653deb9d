-- ===== src/Tree/Insert/Refines.antt =====
-- rim_tree_insert places the entry in the sorted list of the tree's entries.
use rimstone.Base.{
  ℕ, ◌+◌, true, false, ◌∷◌, ◌++◌, Option, none, some, ◌≡◌, refl, sym, ◌∙◌, ap, inl, inr, Bool-cases,
}
use rimstone.Tree.Contents.{to_list, to_list-balance}
use rimstone.Tree.Insert.Steps.{
  below_new_lesser, below_old_lesser, below_new_greater, below_old_greater,
}
use rimstone.Tree.Key.{KeyOrder, is_minus, is_same, is_plus, compared}
use rimstone.Tree.Spec.Sorted.{around}
use rimstone.Tree.Spec.Split.{
  find_at_minus, find_at_same, find_at_plus, place_at_minus, place_at_same, place_at_plus,
}
use rimstone.Tree.Spec.{IsSorted, find, place}
use rimstone.Tree.{
  Node, null, vacant, node, Side, lesser_side, greater_side, Slot, Cursor, okay, err_exist, is_null,
  child, link, insert_below, occupy, insert,
}

module _ {ℓ} {K V : Type ℓ} where
  insert_below-cursor :
      (t : Node K V) (side : Side) (r : Slot K V × Cursor K V) → (insert_below t side r).1 ≡ r.1
  unfolding insert_below
  insert_below-cursor t side (s, c) = elim (Bool-cases (is_null (child t side))) [
    | inl e ↦ rw e
    | inr e ↦ rw e
  ]

  module _ (h : ℕ) (k : K) (v : V) (l g : Node K V) where
    link_entries_lesser :
        (r : Slot K V)
        → to_list (link (node h k v l g) lesser_side r) ≡ to_list r.0 ++ ((k, v) ∷ to_list g)
    unfolding link
    link_entries_lesser (t, true) = refl
    link_entries_lesser (t, false) = refl

    link_entries_greater :
        (r : Slot K V)
        → to_list (link (node h k v l g) greater_side r) ≡ to_list l ++ ((k, v) ∷ to_list r.0)
    unfolding link
    link_entries_greater (t, true) = refl
    link_entries_greater (t, false) = refl

    entries_lesser :
        (r : Slot K V × Cursor K V)
        → to_list (insert_below (node h k v l g) lesser_side r).0.0
          ≡ to_list r.0.0 ++ ((k, v) ∷ to_list g)
    entries_lesser r = elim (Bool-cases (is_null l)) [
      | inl e ↦ rw (below_new_lesser h k v l g r e) (link_entries_lesser r.0)
      | inr e ↦ rw (below_old_lesser h k v l g r e) (rw (to_list-balance, to_list-balance))
    ]

    entries_greater :
        (r : Slot K V × Cursor K V)
        → to_list (insert_below (node h k v l g) greater_side r).0.0
          ≡ to_list l ++ ((k, v) ∷ to_list r.0.0)
    entries_greater r = elim (Bool-cases (is_null g)) [
      | inl e ↦ rw (below_new_greater h k v l g r e) (link_entries_greater r.0)
      | inr e ↦ rw (below_old_greater h k v l g r e) (rw (to_list-balance, to_list-balance))
    ]

  module _ ⦃order : KeyOrder K⦄ where
    -- What an insertion leaves in the cursor, by the data that the key had.
    abbrev pub inserted : K → V → Cursor K V → Option V → Cursor K V
    inserted k v c none = record c { current = some (k, v); status = okay; count = c.count + 1 }
    inserted k v c (some w) = record c { status = err_exist }

    -- The tree's entries are those of the sorted list with the new one placed in it, and the cursor
    -- tells a new key from one that was there.
    pub insert-place :
        (k : K) (v : V) (c : Cursor K V) (t : Node K V)
        → IsSorted (to_list t)
        → (to_list (insert k v c t).0.0 ≡ place k v (to_list t))
          × ((insert k v c t).1 ≡ inserted k v c (find k (to_list t)))
    unfolding insert occupy place find
    insert-place k v c null s = (refl, refl)
    insert-place k v c vacant s = (refl, refl)
    insert-place k v c (node h j w l g) s =
        let a = around (to_list l) j w (to_list g) s in
        elim (compared (order.compare k j)) [
          | is_minus e ↦
              let (entries, cursor) = insert-place k v c l a.left in
              (
                rw (e, insert)
                    (entries_lesser h j w l g (insert k v c l)
                      ∙ ap (λ xs. xs ++ ((j, w) ∷ to_list g)) entries
                      ∙ sym (place_at_minus k (to_list l) j w (to_list g) s v e)),
                rw (e, insert)
                    (insert_below-cursor (node h j w l g) lesser_side (insert k v c l)
                      ∙ cursor
                      ∙ ap (inserted k v c)
                          (sym (find_at_minus k (to_list l) j w (to_list g) s e))),
              )
          | is_same e ↦ (
            rw (e, insert) (sym (place_at_same k (to_list l) j w (to_list g) s v e)),
            rw (e, insert)
                (ap (inserted k v c) (sym (find_at_same k (to_list l) j w (to_list g) s e))),
          )
          | is_plus e ↦
              let (entries, cursor) = insert-place k v c g a.right in
              (
                rw (e, insert)
                    (entries_greater h j w l g (insert k v c g)
                      ∙ ap (λ ys. to_list l ++ ((j, w) ∷ ys)) entries
                      ∙ sym (place_at_plus k (to_list l) j w (to_list g) s v e)),
                rw (e, insert)
                    (insert_below-cursor (node h j w l g) greater_side (insert k v c g)
                      ∙ cursor
                      ∙ ap (inserted k v c) (sym (find_at_plus k (to_list l) j w (to_list g) s e))),
              )
        ]
