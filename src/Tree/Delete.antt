-- ===== src/Tree/Delete.antt =====
-- rim_tree_delete keeps the tree balanced, whether or not it finds the key.
pub mod Steps
pub mod Refines
use rimstone.Base.{ℕ, suc, ◌+◌, ◌≤◌, max, true, false, ◌≡◌, refl, inl, inr, arith, Bool-cases}
use rimstone.Tree.Balance.{
  depth, Near, IsAvl, IsLoose, IsAvl-IsLoose, balance-Settled, balance-IsLoose, balance_keeps,
}
use rimstone.Tree.Delete.Steps.{
  none_lesser, some_lesser, none_greater, some_greater, leaf_found, leaf_below, here_last,
  here_replaced,
}
use rimstone.Tree.Key.{KeyOrder, is_minus, is_same, is_plus, compared}
use rimstone.Tree.Operations.{find_leaf_del, delete_below, delete_here, delete}
use rimstone.Tree.{
  Node, null, vacant, node, lesser_side, greater_side, Slot, Cursor, is_null, balance,
}

module _ {ℓ} {K V : Type ℓ} where
  -- What a deletion below `l` leaves: all but the top's height is right.
  abbrev pub Shrunk : Node K V → Node K V → Type 0
  Shrunk l r = IsLoose r × (depth r ≤ depth l) × (depth l ≤ suc (depth r))

  null-depth : (l : Node K V) → is_null l ≡ true → depth l ≡ 0
  unfolding is_null
  null-depth null e = refl
  null-depth vacant e = refl
  null-depth (node h k v l g) e = cc

  module _ (h : ℕ) (k : K) (v : V) (l g : Node K V) (near : Near (depth l) (depth g)) where
    Shrunk-lesser :
        (t : Node K V)
        → IsAvl g
        → Shrunk l t
        → Shrunk (node h k v l g) (balance (node h k v (balance t).0 g)).0
    Shrunk-lesser t b (loose, low, high) =
        let (a, d, _) = balance-IsLoose t loose in
        let (s, up, down) = balance-Settled h k v (balance t).0 g a b (omega arith) in
        let keeps = balance_keeps h k v (balance t).0 g a b in (s, omega arith, omega arith)

    -- The node may have got the key and the data of another one.
    Shrunk-greater :
        (j : K) (w : V) (t : Node K V)
        → IsAvl l
        → Shrunk g t
        → Shrunk (node h k v l g) (balance (node h j w l (balance t).0)).0
    Shrunk-greater j w t a (loose, low, high) =
        let (b, d, _) = balance-IsLoose t loose in
        let (s, up, down) = balance-Settled h j w l (balance t).0 a b (omega arith) in
        let keeps = balance_keeps h j w l (balance t).0 a b in (s, omega arith, omega arith)

  find_leaf_del-Shrunk :
      (found : K × V) (t : Node K V) → IsLoose t → Shrunk t (find_leaf_del found t).0.0
  unfolding find_leaf_del
  find_leaf_del-Shrunk found null a = omega arith
  find_leaf_del-Shrunk found vacant a = absurd a
  find_leaf_del-Shrunk found (node h k v l g) (near, a, b) = elim (Bool-cases (is_null l)) [
    | inl e ↦
        let empty = null-depth l e in
        rw (leaf_found h k v l g found e) (IsAvl-IsLoose g b, omega arith, omega arith)
    | inr e ↦ rw (leaf_below h k v l g found e) (
        Shrunk-lesser h k v l g near (find_leaf_del found l).0.0 b
          (find_leaf_del-Shrunk found l (IsAvl-IsLoose l a)))
  ]

  delete_here-Shrunk :
      (h : ℕ) (k : K) (v : V) (l g : Node K V)
      → IsLoose (node h k v l g)
      → Shrunk (node h k v l g) (delete_here (node h k v l g)).0
  delete_here-Shrunk h k v l g (near, a, b) = elim (Bool-cases (is_null g)) [
    | inl e ↦
        let empty = null-depth g e in
        rw (here_last h k v l g e) (IsAvl-IsLoose l a, omega arith, omega arith)
    | inr e ↦
        let r = find_leaf_del (k, v) g in
        rw (here_replaced h k v l g e) (
          Shrunk-greater h k v l g near r.1.0 r.1.1 r.0.0 a
            (find_leaf_del-Shrunk (k, v) g (IsAvl-IsLoose g b)))
  ]

  module _ ⦃order : KeyOrder K⦄ where
    pub delete-Shrunk :
        (k : K) (c : Cursor K V) (t : Node K V) → IsLoose t → Shrunk t (delete k c t).0.0
    unfolding delete
    delete-Shrunk k c null a = omega arith
    delete-Shrunk k c vacant a = absurd a
    delete-Shrunk k c (node h j w l g) (near, a, b) = elim (compared (order.compare k j)) [
      | is_minus e ↦ elim (Bool-cases (is_null l)) [
        | inl n ↦
            rw (e, delete)
              (rw (none_lesser h j w l g (delete k c l) n) ((near, a, b), omega arith, omega arith))
        | inr n ↦
            rw (e, delete)
              (rw (some_lesser h j w l g (delete k c l) n) (
                Shrunk-lesser h j w l g near (delete k c l).0.0 b
                  (delete-Shrunk k c l (IsAvl-IsLoose l a))))
      ]
      | is_same e ↦ rw (e, delete) (delete_here-Shrunk h j w l g (near, a, b))
      | is_plus e ↦ elim (Bool-cases (is_null g)) [
        | inl n ↦
            rw (e, delete)
              (rw (none_greater h j w l g (delete k c g) n)
                ((near, a, b), omega arith, omega arith))
        | inr n ↦
            rw (e, delete)
              (rw (some_greater h j w l g (delete k c g) n) (
                Shrunk-greater h j w l g near j w (delete k c g).0.0 a
                  (delete-Shrunk k c g (IsAvl-IsLoose g b))))
      ]
    ]
