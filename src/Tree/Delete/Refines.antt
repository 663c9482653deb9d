-- ===== src/Tree/Delete/Refines.antt =====
-- rim_tree_delete takes the key out of the sorted list of the tree's entries.
use rimstone.Base.{
  ℕ, ◌-◌, true, false, [], ◌∷◌, ◌++◌, append-nil, Option, none, some, ◌≡◌, refl, sym, ◌∙◌, ap, inl,
  inr, Bool-cases,
}
use rimstone.Tree.Balance.{IsLoose, IsAvl-IsLoose}
use rimstone.Tree.Contents.{to_list, to_list-balance}
use rimstone.Tree.Delete.Steps.{
  none_lesser, some_lesser, none_greater, some_greater, leaf_found, leaf_below, here_last,
  here_replaced,
}
use rimstone.Tree.Key.{KeyOrder, is_minus, is_same, is_plus, compared}
use rimstone.Tree.Operations.{find_leaf_del, delete_below, delete_here, delete}
use rimstone.Tree.Spec.Sorted.{around}
use rimstone.Tree.Spec.Split.{
  find_at_minus, find_at_same, find_at_plus, remove_at_minus, remove_at_same, remove_at_plus,
}
use rimstone.Tree.Spec.{IsSorted, find, remove}
use rimstone.Tree.{
  Node, null, vacant, node, lesser_side, greater_side, Slot, Cursor, okay, err_exist, is_null,
}

module _ {ℓ} {K V : Type ℓ} where
  null-entries : (l : Node K V) → is_null l ≡ true → to_list l ≡ []
  unfolding is_null
  null-entries null e = refl
  null-entries vacant e = refl
  null-entries (node h k v l g) e = cc

  -- The first entry of a subtree goes to the found node, the others stay.
  find_leaf_del-entries :
      (found : K × V) (t : Node K V)
      → IsLoose t
      → is_null t ≡ false
      → to_list t ≡ (find_leaf_del found t).1 ∷ to_list (find_leaf_del found t).0.0
  unfolding is_null
  find_leaf_del-entries found null a n = cc
  find_leaf_del-entries found vacant a n = absurd a
  find_leaf_del-entries found (node h k v l g) (near, a, b) n = elim (Bool-cases (is_null l)) [
    | inl e ↦ rw (leaf_found h k v l g found e, null-entries l e)
    | inr e ↦
        rw (leaf_below h k v l g found e, to_list-balance, to_list-balance)
          (ap (λ xs. xs ++ ((k, v) ∷ to_list g))
            (find_leaf_del-entries found l (IsAvl-IsLoose l a) e))
  ]

  delete_here-entries :
      (h : ℕ) (k : K) (v : V) (l g : Node K V)
      → IsLoose (node h k v l g)
      → to_list (delete_here (node h k v l g)).0 ≡ to_list l ++ to_list g
  delete_here-entries h k v l g (near, a, b) = elim (Bool-cases (is_null g)) [
    | inl e ↦ rw (here_last h k v l g e, null-entries g e) (sym (append-nil (to_list l)))
    | inr e ↦
        rw (here_replaced h k v l g e, to_list-balance, to_list-balance)
          (ap (λ ys. to_list l ++ ys) (sym (find_leaf_del-entries (k, v) g (IsAvl-IsLoose g b) e)))
  ]

  -- With no child there, the call that is not made would have changed nothing.
  module _ (h : ℕ) (k : K) (v : V) (l g : Node K V) (r : Slot K V × Cursor K V) where
    below_lesser :
        (is_null l ≡ true → to_list r.0.0 ≡ to_list l)
        → (to_list (delete_below (node h k v l g) lesser_side r).0.0
            ≡ to_list r.0.0 ++ ((k, v) ∷ to_list g))
          × ((delete_below (node h k v l g) lesser_side r).1 ≡ r.1)
    below_lesser same = elim (Bool-cases (is_null l)) [
      | inl e ↦ rw (none_lesser h k v l g r e) (rw (same e), refl)
      | inr e ↦ rw (some_lesser h k v l g r e) (rw (to_list-balance, to_list-balance), refl)
    ]

    below_greater :
        (is_null g ≡ true → to_list r.0.0 ≡ to_list g)
        → (to_list (delete_below (node h k v l g) greater_side r).0.0
            ≡ to_list l ++ ((k, v) ∷ to_list r.0.0))
          × ((delete_below (node h k v l g) greater_side r).1 ≡ r.1)
    below_greater same = elim (Bool-cases (is_null g)) [
      | inl e ↦ rw (none_greater h k v l g r e) (rw (same e), refl)
      | inr e ↦ rw (some_greater h k v l g r e) (rw (to_list-balance, to_list-balance), refl)
    ]

  module _ ⦃order : KeyOrder K⦄ where
    -- What a deletion leaves in the cursor, by the data that the key had.
    abbrev pub deleted : Cursor K V → Option V → Cursor K V
    deleted c none = record c { status = err_exist }
    deleted c (some w) = record c { status = okay; count = c.count - 1; res = some w }

    delete-null :
        (k : K) (c : Cursor K V) (t : Node K V)
        → is_null t ≡ true
        → to_list (delete k c t).0.0 ≡ to_list t
    unfolding delete is_null
    delete-null k c null e = refl
    delete-null k c vacant e = refl
    delete-null k c (node h j w l g) e = cc

    pub delete-remove :
        (k : K) (c : Cursor K V) (t : Node K V)
        → IsLoose t
        → IsSorted (to_list t)
        → (to_list (delete k c t).0.0 ≡ remove k (to_list t))
          × ((delete k c t).1 ≡ deleted c (find k (to_list t)))
    unfolding delete remove find
    delete-remove k c null a s = (refl, refl)
    delete-remove k c vacant a s = absurd a
    delete-remove k c (node h j w l g) (near, al, ag) s =
        let a = around (to_list l) j w (to_list g) s in
        elim (compared (order.compare k j)) [
          | is_minus e ↦
              let (entries, cursor) = delete-remove k c l (IsAvl-IsLoose l al) a.left in
              let (p, q) = below_lesser h j w l g (delete k c l) (delete-null k c l) in
              (
                rw (e, delete)
                    (p
                      ∙ ap (λ xs. xs ++ ((j, w) ∷ to_list g)) entries
                      ∙ sym (remove_at_minus k (to_list l) j w (to_list g) s e)),
                rw (e, delete)
                    (q
                      ∙ cursor
                      ∙ ap (deleted c) (sym (find_at_minus k (to_list l) j w (to_list g) s e))),
              )
          | is_same e ↦ (
            rw (e, delete)
                (delete_here-entries h j w l g (near, al, ag)
                  ∙ sym (remove_at_same k (to_list l) j w (to_list g) s e)),
            rw (e, delete) (ap (deleted c) (sym (find_at_same k (to_list l) j w (to_list g) s e))),
          )
          | is_plus e ↦
              let (entries, cursor) = delete-remove k c g (IsAvl-IsLoose g ag) a.right in
              let (p, q) = below_greater h j w l g (delete k c g) (delete-null k c g) in
              (
                rw (e, delete)
                    (p
                      ∙ ap (λ ys. to_list l ++ ((j, w) ∷ ys)) entries
                      ∙ sym (remove_at_plus k (to_list l) j w (to_list g) s e)),
                rw (e, delete)
                    (q
                      ∙ cursor
                      ∙ ap (deleted c) (sym (find_at_plus k (to_list l) j w (to_list g) s e))),
              )
        ]
