-- ===== src/Tree/Operations.antt =====
-- tree.c: deletion, the searches and the functions that the generated code calls.
-- The references of key and data (rim_mem_add_ref, rim_mem_dec_process) are left to the memory.
use rimstone.Base.{
  ℕ, zero, suc, ◌+◌, ◌-◌, Bool, false, Option, none, some, ltb, ◌==◌, ◌||◌, if◌then◌else◌,
}
use rimstone.Tree.Key.{minus, same, plus, KeyOrder}
use rimstone.Tree.{
  Node, null, vacant, node, Side, lesser_side, greater_side, Slot, Cursor, okay, err_exist, height,
  is_null, child, link, rebalance, insert,
}

-- `count` and the actual root, which is `tree->lesser_node`.
pub record Tree {ℓ} (K V : Type ℓ) : Type ℓ where
  pub root : Node K V
  pub count : ℕ

module _ {ℓ} {K V : Type ℓ} where
  -- rim_tree_find_leaf_del: the least node leaves the subtree, and its key and data replace those
  -- of `found`.
  unfoldable pub find_leaf_del : K × V → Node K V → Slot K V × (K × V)
  find_leaf_del found null = ((null, false), found)
  find_leaf_del found vacant = ((vacant, false), found)
  find_leaf_del found (node h k v l g) =
      let (below, e) = find_leaf_del found l in
      if is_null l
      then ((g, false), (k, v))
      else (rebalance (link (node h k v l g) lesser_side below) lesser_side, e)

  -- rim_tree_delete, behind the recursive call; with no child there the key is not found.
  unfoldable pub delete_below : Node K V → Side → Slot K V × Cursor K V → Slot K V × Cursor K V
  delete_below tree side (below, c) =
      if is_null (child tree side)
      then ((tree, false), c)
      else (rebalance (link tree side below) side, c)

  -- rim_tree_delete where the key is equal
  unfoldable pub delete_here : Node K V → Slot K V
  delete_here null = (null, false)
  delete_here vacant = (vacant, false)
  delete_here (node h k v l g) =
      if is_null g
      then (l, false)
      else (let (below, (j, w)) = find_leaf_del (k, v) g in
          rebalance (link (node h j w l g) greater_side below) greater_side)

  -- The walks of rim_tree_min_f and rim_tree_max_f in a tree without a linked list.
  unfoldable pub least : Node K V → Option (K × V)
  least null = none
  least vacant = none
  least (node h k v l g) = let r = least l in if is_null l then some (k, v) else r

  unfoldable pub greatest : Node K V → Option (K × V)
  greatest null = none
  greatest vacant = none
  greatest (node h k v l g) = let r = greatest g in if is_null g then some (k, v) else r

  unfoldable pub min_f : Cursor K V → Tree K V → Cursor K V
  min_f c t =
      if t.count == 0
      then record c { status = err_exist }
      else record c { status = okay; current = least t.root }

  unfoldable pub max_f : Cursor K V → Tree K V → Cursor K V
  max_f c t =
      if t.count == 0
      then record c { status = err_exist }
      else record c { status = okay; current = greatest t.root }

  -- rim_tree_bal: the number of nodes at which the heights stored by the children differ by two.
  unfoldable pub tree_bal : Node K V → ℕ
  unfolding height
  tree_bal null = 0
  tree_bal vacant = 0
  tree_bal (node h k v l g) =
      let res = tree_bal l + tree_bal g in
      if ltb (height g + 1) (height l) || ltb (height l + 1) (height g) then 1 + res else res

  -- rim_tree_create: a root with no key
  unfoldable pub tree_create : Tree K V
  tree_create = record { root = vacant; count = 0 }

  -- Where the searches end: at the last node that fits, or nowhere.
  unfoldable pub conclude : Cursor K V → Option (K × V) → Cursor K V
  conclude c none = record c { status = err_exist }
  conclude c (some e) = record c { status = okay; current = some e }

  module _ ⦃order : KeyOrder K⦄ where
    -- rim_tree_delete. On NULL this is the end of the function, which the caller reaches.
    unfoldable pub delete : K → Cursor K V → Node K V → Slot K V × Cursor K V
    delete k c null = ((null, false), record c { status = err_exist })
    delete k c vacant = ((vacant, false), record c { status = err_exist })
    delete k c (node h j w l g) = elim (order.compare k j) [
      | minus ↦ delete_below (node h j w l g) lesser_side (delete k c l)
      | same ↦ (
        delete_here (node h j w l g),
        record c { status = okay; count = c.count - 1; res = some w },
      )
      | plus ↦ delete_below (node h j w l g) greater_side (delete k c g)
    ]

    -- rim_tree_search
    unfoldable pub search_node : K → Cursor K V → Node K V → Cursor K V
    search_node k c null = conclude c none
    search_node k c vacant = conclude c none
    search_node k c (node h j w l g) = elim (order.compare k j) [
      | minus ↦ search_node k c l
      | same ↦ conclude c (some (j, w))
      | plus ↦ search_node k c g
    ]

    -- rim_tree_search_lesser_equal, with `prev_lesser`
    unfoldable pub search_lesser_equal :
        Bool → K → Cursor K V → Option (K × V) → Node K V → Cursor K V
    search_lesser_equal equal k c prev null = conclude c prev
    search_lesser_equal equal k c prev vacant = conclude c prev
    search_lesser_equal equal k c prev (node h j w l g) = elim (order.compare k j) [
      | minus ↦ search_lesser_equal equal k c prev l
      | same ↦
          let skip = search_lesser_equal equal k c prev l in
          if equal then conclude c (some (j, w)) else skip
      | plus ↦ search_lesser_equal equal k c (some (j, w)) g
    ]

    -- rim_tree_search_greater_equal, with `prev_greater`
    unfoldable pub search_greater_equal :
        Bool → K → Cursor K V → Option (K × V) → Node K V → Cursor K V
    search_greater_equal equal k c prev null = conclude c prev
    search_greater_equal equal k c prev vacant = conclude c prev
    search_greater_equal equal k c prev (node h j w l g) = elim (order.compare k j) [
      | minus ↦ search_greater_equal equal k c (some (j, w)) l
      | same ↦
          let skip = search_greater_equal equal k c prev g in
          if equal then conclude c (some (j, w)) else skip
      | plus ↦ search_greater_equal equal k c prev g
    ]

    unfoldable pub insert_f : K → V → Cursor K V → Tree K V → Tree K V × Cursor K V
    insert_f k v c t =
        let ((root, _), c') = insert k v (record c { count = t.count }) t.root in
        (record { root = root; count = c'.count }, c')

    -- rim_tree_delete_f: a tree that lost its last node gets a root with no key.
    unfoldable pub delete_f : K → Cursor K V → Tree K V → Tree K V × Cursor K V
    delete_f k c t =
        let ((root, _), c') = delete k (record c { count = t.count }) t.root in
        (record { root = if is_null root then vacant else root; count = c'.count }, c')

    unfoldable pub search_f : K → Cursor K V → Tree K V → Cursor K V
    search_f k c t = search_node k (record c { count = t.count }) t.root

    unfoldable pub search_lesser_equal_f : Bool → K → Cursor K V → Tree K V → Cursor K V
    search_lesser_equal_f equal k c t =
        search_lesser_equal equal k (record c { count = t.count }) none t.root

    unfoldable pub search_greater_equal_f : Bool → K → Cursor K V → Tree K V → Cursor K V
    search_greater_equal_f equal k c t =
        search_greater_equal equal k (record c { count = t.count }) none t.root

    -- rim_tree_purge_f, with fuel: delete the least key as long as there is one.
    unfoldable pub purge : ℕ → Cursor K V → Tree K V → Tree K V × Cursor K V
    purge zero c t = (t, c)
    purge (suc fuel) c t =
        let found = min_f c t in
        elim found.status [
          | err_exist ↦ (t, found)
          | okay ↦ elim found.current [
            | none ↦ (t, found)
            | some (k, v) ↦ let (t', c') = delete_f k found t in purge fuel c' t'
          ]
        ]
