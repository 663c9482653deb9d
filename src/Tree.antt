-- ===== src/Tree.antt =====
-- tree.c: the AVL tree of a tree without a linked list (`new-tree ... unsorted`).
-- A node that a function reaches by (parent_tree, dir) is its argument, and the function returns
-- what it leaves in that slot of the parent: the node, and whether it recomputed the parent's
-- height, as the rotations do. `link` carries both out at the parent.
pub mod Key
pub mod Balance
pub mod Operations
pub mod Api
pub mod Ends
pub mod Purge
pub mod Compare
mod Tests
pub mod Spec
pub mod Contents
pub mod Insert
pub mod Delete
pub mod Search
use rimstone.Base.{
  ℕ, suc, ◌+◌, ◌-◌, ◌≤◌, Bool, true, false, Option, none, some, ltb, leb, if◌then◌else◌,
}
use rimstone.Tree.Key.{Sign, minus, same, plus, KeyOrder}

-- RIM_TREE_LESSER and RIM_TREE_GREATER
pub data Side : Type 0 where
  lesser_side greater_side : Side

-- `null` is the NULL pointer, `vacant` a fresh node whose `key_present` is 0.
pub data Node {ℓ} (K V : Type ℓ) : Type ℓ where
  null : Node K V
  vacant : Node K V
  node : ℕ → K → V → Node K V → Node K V → Node K V

pub data Status : Type 0 where
  okay err_exist : Status

-- The members of `rim_cursor` that an operation sets, and `root->count`.
pub record Cursor {ℓ} (K V : Type ℓ) : Type ℓ where
  pub current : Option (K × V)
  pub status : Status
  pub res : Option V
  pub count : ℕ

-- What a call leaves in the parent's slot, and whether it recomputed the parent's height.
abbrev pub Slot {ℓ} : Type ℓ → Type ℓ → Type ℓ
Slot K V = Node K V × Bool

module _ {ℓ} {K V : Type ℓ} where
  unfoldable pub height : Node K V → ℕ
  height null = 0
  height vacant = 0
  height (node h k v l g) = h

  unfoldable pub lesser : Node K V → Node K V
  lesser null = null
  lesser vacant = null
  lesser (node h k v l g) = l

  unfoldable pub greater : Node K V → Node K V
  greater null = null
  greater vacant = null
  greater (node h k v l g) = g

  unfoldable pub is_null : Node K V → Bool
  is_null null = true
  is_null vacant = false
  is_null (node h k v l g) = false

  -- rim_tree_height: the taller child decides.
  unfoldable pub update_height : Node K V → Node K V
  unfolding height
  update_height null = null
  update_height vacant = vacant
  update_height (node h k v l g) =
      node (if ltb (height g) (height l) then height l + 1 else height g + 1) k v l g

  -- RIM_TREE_SET_PARENT
  unfoldable pub set_child : Node K V → Side → Node K V → Node K V
  set_child null side c = null
  set_child vacant side c = vacant
  set_child (node h k v l g) lesser_side c = node h k v c g
  set_child (node h k v l g) greater_side c = node h k v l c

  unfoldable pub child : Node K V → Side → Node K V
  unfolding lesser greater
  child t lesser_side = lesser t
  child t greater_side = greater t

  unfoldable pub link : Node K V → Side → Slot K V → Node K V
  unfolding set_child update_height
  link parent side (c, touched) =
      if touched then update_height (set_child parent side c) else set_child parent side c

  -- rim_tree_rotate_right. With no lesser node the source reads through NULL; `balance` calls it
  -- only where the lesser node has a positive height.
  unfoldable pub rotate_right : Node K V → Slot K V
  unfolding update_height
  rotate_right (node h k v (node hl kl vl ll lg) g) =
      (node hl kl vl ll (update_height (node h k v lg g)), true)
  rotate_right t = (t, false)

  -- rim_tree_rotate_left
  unfoldable pub rotate_left : Node K V → Slot K V
  unfolding update_height
  rotate_left (node h k v l (node hg kg vg gl gg)) =
      (node hg kg vg (update_height (node h k v l gl)) gg, true)
  rotate_left t = (t, false)

  -- After a rotation `tree` stands below the new top, and its height is computed once more.
  unfoldable pub recompute : Side → Slot K V → Slot K V
  unfolding set_child child update_height
  recompute side (top, touched) = (set_child top side (update_height (child top side)), touched)

  -- rim_tree_balance where the lesser side is taller by two
  unfoldable pub lean_right : Node K V → Slot K V
  unfolding height lesser greater link rotate_left rotate_right recompute
  lean_right tree = recompute greater_side (
      rotate_right (
        if ltb (height (lesser (lesser tree))) (height (greater (lesser tree)))
        then link tree lesser_side (rotate_left (lesser tree))
        else tree))

  -- rim_tree_balance where the greater side is taller by two
  unfoldable pub lean_left : Node K V → Slot K V
  unfolding height lesser greater link rotate_left rotate_right recompute
  lean_left tree = recompute lesser_side (
      rotate_left (
        if ltb (height (greater (greater tree))) (height (lesser (greater tree)))
        then link tree greater_side (rotate_right (greater tree))
        else tree))

  -- rim_tree_balance behind its first line. `bal_factor >= 2` is `right + 2 <= left`.
  unfoldable pub rotate : Node K V → Slot K V
  unfolding height lesser greater
  rotate tree =
      if leb (height (greater tree) + 2) (height (lesser tree))
      then lean_right tree
      else if leb (height (lesser tree) + 2) (height (greater tree))
      then lean_left tree
      else (tree, false)

  -- rim_tree_balance
  unfoldable pub balance : Node K V → Slot K V
  balance tree = rotate (update_height tree)

  -- The end of a step down to `side`: balance the child, if there is one, then `tree` itself.
  unfoldable pub rebalance : Node K V → Side → Slot K V
  rebalance tree side = balance (link tree side (balance (child tree side)))

  -- The first branch of rim_tree_insert: the key goes into a node that has none.
  unfoldable pub occupy : K → V → Cursor K V → Slot K V × Cursor K V
  occupy k v c = (
    (node 1 k v null null, false),
    record c { current = some (k, v); status = okay; count = c.count + 1 },
  )

  -- The end of a step of rim_tree_insert: no balancing above a leaf that was just created.
  unfoldable pub insert_below : Node K V → Side → Slot K V × Cursor K V → Slot K V × Cursor K V
  insert_below tree side (below, c) =
      if is_null (child tree side)
      then ((link tree side below, false), c)
      else (rebalance (link tree side below) side, c)

  module _ ⦃order : KeyOrder K⦄ where
    -- rim_tree_insert. A node that is created for the key is filled by the call on it.
    unfoldable pub insert : K → V → Cursor K V → Node K V → Slot K V × Cursor K V
    insert k v c null = occupy k v c
    insert k v c vacant = occupy k v c
    insert k v c (node h j w l g) = elim (order.compare k j) [
      | minus ↦ insert_below (node h j w l g) lesser_side (insert k v c l)
      | same ↦ ((node h j w l g, false), record c { status = err_exist })
      | plus ↦ insert_below (node h j w l g) greater_side (insert k v c g)
    ]
