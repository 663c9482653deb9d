-- ===== src/Tree/Insert.antt =====
-- rim_tree_insert keeps the tree balanced, whatever it finds.
pub mod Steps
pub mod Refines
use rimstone.Base.{ℕ, suc, ◌+◌, ◌≤◌, max, true, false, ◌≡◌, refl, inl, inr, arith, Bool-cases}
use rimstone.Tree.Balance.{
  depth, Near, IsAvl, IsLoose, IsAvl-IsLoose, balance-Settled, balance-IsLoose, balance_keeps,
}
use rimstone.Tree.Insert.Steps.{
  below_new_lesser, below_old_lesser, below_new_greater, below_old_greater,
}
use rimstone.Tree.Key.{KeyOrder, is_minus, is_same, is_plus, compared}
use rimstone.Tree.{
  Node, null, vacant, node, lesser_side, greater_side, Slot, Cursor, is_null, link, balance,
  insert_below, occupy, insert,
}

module _ {ℓ} {K V : Type ℓ} where
  -- What an insertion below `l` leaves: all but the top's height is right, and a leaf in an empty
  -- place is right altogether.
  abbrev pub Grown : Node K V → Node K V → Type 0
  Grown l r =
      IsLoose r × (is_null l ≡ true → IsAvl r) × (depth l ≤ depth r) × (depth r ≤ suc (depth l))

  null-depth : (l : Node K V) → is_null l ≡ true → depth l ≡ 0
  unfolding is_null
  null-depth null e = refl
  null-depth vacant e = refl
  null-depth (node h k v l g) e = cc

  IsLoose-link_lesser :
      (h : ℕ) (k : K) (v : V) (l g : Node K V) (r : Slot K V)
      → IsLoose (node h k v r.0 g)
      → IsLoose (link (node h k v l g) lesser_side r)
        × (depth (link (node h k v l g) lesser_side r) ≡ depth (node h k v r.0 g))
  unfolding link
  IsLoose-link_lesser h k v l g (t, true) a = (a, refl)
  IsLoose-link_lesser h k v l g (t, false) a = (a, refl)

  IsLoose-link_greater :
      (h : ℕ) (k : K) (v : V) (l g : Node K V) (r : Slot K V)
      → IsLoose (node h k v l r.0)
      → IsLoose (link (node h k v l g) greater_side r)
        × (depth (link (node h k v l g) greater_side r) ≡ depth (node h k v l r.0))
  unfolding link
  IsLoose-link_greater h k v l g (t, true) a = (a, refl)
  IsLoose-link_greater h k v l g (t, false) a = (a, refl)

  module _ (h : ℕ) (k : K) (v : V) (l g : Node K V) (near : Near (depth l) (depth g)) where
    Grown-lesser :
        (r : Slot K V × Cursor K V)
        → IsAvl l
        → IsAvl g
        → Grown l r.0.0
        → Grown (node h k v l g) (insert_below (node h k v l g) lesser_side r).0.0
    unfolding is_null
    Grown-lesser r a b (loose, leaf, low, high) = elim (Bool-cases (is_null l)) [
      | inl new ↦
          let empty = null-depth l new in
          let (s, d) = IsLoose-link_lesser h k v l g r.0 (omega arith, leaf new, b) in
          rw (below_new_lesser h k v l g r new) (s, (λ e. cc), omega arith, omega arith)
      | inr old ↦
          let (a', d, _) = balance-IsLoose r.0.0 loose in
          let (s, up, down) = balance-Settled h k v (balance r.0.0).0 g a' b (omega arith) in
          let keeps = balance_keeps h k v (balance r.0.0).0 g a' b in
          rw (below_old_lesser h k v l g r old) (s, (λ e. cc), omega arith, omega arith)
    ]

    Grown-greater :
        (r : Slot K V × Cursor K V)
        → IsAvl l
        → IsAvl g
        → Grown g r.0.0
        → Grown (node h k v l g) (insert_below (node h k v l g) greater_side r).0.0
    unfolding is_null
    Grown-greater r a b (loose, leaf, low, high) = elim (Bool-cases (is_null g)) [
      | inl new ↦
          let empty = null-depth g new in
          let (s, d) = IsLoose-link_greater h k v l g r.0 (omega arith, a, leaf new) in
          rw (below_new_greater h k v l g r new) (s, (λ e. cc), omega arith, omega arith)
      | inr old ↦
          let (b', d, _) = balance-IsLoose r.0.0 loose in
          let (s, up, down) = balance-Settled h k v l (balance r.0.0).0 a b' (omega arith) in
          let keeps = balance_keeps h k v l (balance r.0.0).0 a b' in
          rw (below_old_greater h k v l g r old) (s, (λ e. cc), omega arith, omega arith)
    ]

  module _ ⦃order : KeyOrder K⦄ where
    pub insert-Grown :
        (k : K) (v : V) (c : Cursor K V) (t : Node K V) → IsLoose t → Grown t (insert k v c t).0.0
    unfolding insert is_null occupy
    insert-Grown k v c null a = omega arith
    insert-Grown k v c vacant a = absurd a
    insert-Grown k v c (node h j w l g) (near, a, b) = elim (compared (order.compare k j)) [
      | is_minus e ↦
          rw (e, insert)
            (Grown-lesser h j w l g near (insert k v c l) a b
              (insert-Grown k v c l (IsAvl-IsLoose l a)))
      | is_same e ↦ rw (e, insert) ((near, a, b), (λ e. cc), omega arith, omega arith)
      | is_plus e ↦
          rw (e, insert)
            (Grown-greater h j w l g near (insert k v c g) a b
              (insert-Grown k v c g (IsAvl-IsLoose g b)))
    ]
