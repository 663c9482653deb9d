-- ===== src/Tree/Delete/Steps.antt =====
-- How the steps of the deletion end, in short form.
use rimstone.Base.{ℕ, true, false, ◌≡◌}
use rimstone.Tree.Contents.{rebalance_lesser, rebalance_greater}
use rimstone.Tree.Operations.{find_leaf_del, delete_below, delete_here}
use rimstone.Tree.{Node, node, lesser_side, greater_side, Slot, Cursor, is_null, child, balance}

module _ {ℓ} {K V : Type ℓ} (h : ℕ) (k : K) (v : V) (l g : Node K V) where
  module _ (r : Slot K V × Cursor K V) where
    pub none_lesser :
        is_null l ≡ true
        → delete_below (node h k v l g) lesser_side r ≡ ((node h k v l g, false), r.1)
    unfolding delete_below child
    none_lesser e = rw e

    pub some_lesser :
        is_null l ≡ false
        → delete_below (node h k v l g) lesser_side r
          ≡ (balance (node h k v (balance r.0.0).0 g), r.1)
    unfolding delete_below child
    some_lesser e = rw e (rw (rebalance_lesser h k v l g r.0))

    pub none_greater :
        is_null g ≡ true
        → delete_below (node h k v l g) greater_side r ≡ ((node h k v l g, false), r.1)
    unfolding delete_below child
    none_greater e = rw e

    pub some_greater :
        is_null g ≡ false
        → delete_below (node h k v l g) greater_side r
          ≡ (balance (node h k v l (balance r.0.0).0), r.1)
    unfolding delete_below child
    some_greater e = rw e (rw (rebalance_greater h k v l g r.0))

  pub leaf_found :
      (found : K × V)
      → is_null l ≡ true
      → find_leaf_del found (node h k v l g) ≡ ((g, false), (k, v))
  unfolding find_leaf_del
  leaf_found found e = rw (e, find_leaf_del)

  pub leaf_below :
      (found : K × V)
      → is_null l ≡ false
      → find_leaf_del found (node h k v l g) ≡ (
        balance (node h k v (balance (find_leaf_del found l).0.0).0 g),
        (find_leaf_del found l).1,
      )
  unfolding find_leaf_del
  leaf_below found e =
      rw (e, find_leaf_del) (rw (rebalance_lesser h k v l g (find_leaf_del found l).0))

  pub here_last : is_null g ≡ true → delete_here (node h k v l g) ≡ (l, false)
  unfolding delete_here
  here_last e = rw e

  pub here_replaced :
      is_null g ≡ false
      → let r = find_leaf_del (k, v) g in
        delete_here (node h k v l g) ≡ balance (node h r.1.0 r.1.1 l (balance r.0.0).0)
  unfolding delete_here
  here_replaced e =
      let r = find_leaf_del (k, v) g in rw e (rw (rebalance_greater h r.1.0 r.1.1 l g r.0))
