-- ===== src/Tree/Insert/Steps.antt =====
-- The two ways in which a step of rim_tree_insert ends, in short form.
use rimstone.Base.{ℕ, true, false, ◌≡◌}
use rimstone.Tree.Contents.{rebalance_lesser, rebalance_greater}
use rimstone.Tree.{
  Node, node, lesser_side, greater_side, Slot, Cursor, is_null, child, link, balance, insert_below,
}

module _ {ℓ} {K V : Type ℓ} where
  module _ (h : ℕ) (k : K) (v : V) (l g : Node K V) (r : Slot K V × Cursor K V) where
    pub below_new_lesser :
        is_null l ≡ true
        → insert_below (node h k v l g) lesser_side r
          ≡ ((link (node h k v l g) lesser_side r.0, false), r.1)
    unfolding insert_below child
    below_new_lesser e = rw e

    pub below_old_lesser :
        is_null l ≡ false
        → insert_below (node h k v l g) lesser_side r
          ≡ (balance (node h k v (balance r.0.0).0 g), r.1)
    unfolding insert_below child
    below_old_lesser e = rw e (rw (rebalance_lesser h k v l g r.0))

    pub below_new_greater :
        is_null g ≡ true
        → insert_below (node h k v l g) greater_side r
          ≡ ((link (node h k v l g) greater_side r.0, false), r.1)
    unfolding insert_below child
    below_new_greater e = rw e

    pub below_old_greater :
        is_null g ≡ false
        → insert_below (node h k v l g) greater_side r
          ≡ (balance (node h k v l (balance r.0.0).0), r.1)
    unfolding insert_below child
    below_old_greater e = rw e (rw (rebalance_greater h k v l g r.0))
