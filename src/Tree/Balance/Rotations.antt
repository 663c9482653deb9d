-- ===== src/Tree/Balance/Rotations.antt =====
-- The five outcomes of rim_tree_balance, as equations.
use rimstone.Base.{
  ℕ, suc, ◌+◌, ◌≤◌, ◌<◌, max, true, false, ◌≡◌, ap, arith, leb, ltb, le→leb, lt→ltb, if◌then◌else◌,
}
use rimstone.Tree.{Node, node, height, update_height, rotate, balance, lean_left, lean_right}

taller : (a b : ℕ) → (if ltb b a then a + 1 else b + 1) ≡ suc (max a b)
taller a b = ground arith

not_leb : (a b : ℕ) → b < a → leb a b ≡ false
not_leb a b h = ground arith

not_ltb : (a b : ℕ) → b ≤ a → ltb a b ≡ false
not_ltb a b h = ground arith

module _ {ℓ} {K V : Type ℓ} where
  -- A node with the height that its children store.
  abbrev pub update : K → V → Node K V → Node K V → Node K V
  update k v l g = node (suc (max (height l) (height g))) k v l g

  update_height-node :
      (h : ℕ) (k : K) (v : V) (l g : Node K V) → update_height (node h k v l g) ≡ update k v l g
  unfolding update_height
  update_height-node h k v l g = ap (λ x. node x k v l g) (taller (height l) (height g))

  -- What rim_tree_balance does to a node, by the heights of its children.
  pub balance-rotate :
      (h : ℕ) (k : K) (v : V) (l g : Node K V) → balance (node h k v l g) ≡ rotate (update k v l g)
  unfolding balance
  balance-rotate h k v l g = ap rotate (update_height-node h k v l g)

  pub rotate_even :
      (h : ℕ) (k : K) (v : V) (l g : Node K V)
      → height l < height g + 2
      → height g < height l + 2
      → rotate (node h k v l g) ≡ (node h k v l g, false)
  unfolding rotate
  rotate_even h k v l g p q =
      rw (not_leb (height g + 2) (height l) p, not_leb (height l + 2) (height g) q)

  pub rotate_right_heavy :
      (h : ℕ) (k : K) (v : V) (l g : Node K V)
      → height l + 2 ≤ height g
      → rotate (node h k v l g) ≡ lean_left (node h k v l g)
  unfolding rotate
  rotate_right_heavy h k v l g p =
      rw (not_leb (height g + 2) (height l) (omega arith), le→leb (height l + 2) (height g) p)

  pub rotate_left_heavy :
      (h : ℕ) (k : K) (v : V) (l g : Node K V)
      → height g + 2 ≤ height l
      → rotate (node h k v l g) ≡ lean_right (node h k v l g)
  unfolding rotate
  rotate_left_heavy h k v l g p = rw (le→leb (height g + 2) (height l) p)

  module _ (h : ℕ) (k : K) (v : V) (hc : ℕ) (kc : K) (vc : V) where
    pub lean_right_once :
        (ll lg g : Node K V)
        → height lg ≤ height ll
        → lean_right (node h k v (node hc kc vc ll lg) g)
          ≡ (node hc kc vc ll (update k v lg g), true)
    unfolding lean_right
    lean_right_once ll lg g q =
        rw (not_ltb (height ll) (height lg) q) (rw (taller (height lg) (height g)))

    pub lean_right_twice :
        (hm : ℕ) (km : K) (vm : V) (ll ml mg g : Node K V)
        → height ll < hm
        → lean_right (node h k v (node hc kc vc ll (node hm km vm ml mg)) g)
          ≡ (node hm km vm (update kc vc ll ml) (update k v mg g), true)
    unfolding lean_right
    lean_right_twice hm km vm ll ml mg g q =
        rw (lt→ltb (height ll) hm q)
          (rw (taller (height ll) (height ml), taller (height mg) (height g)))

    pub lean_left_once :
        (gl gg l : Node K V)
        → height gl ≤ height gg
        → lean_left (node h k v l (node hc kc vc gl gg))
          ≡ (node hc kc vc (update k v l gl) gg, true)
    unfolding lean_left
    lean_left_once gl gg l q =
        rw (not_ltb (height gg) (height gl) q) (rw (taller (height l) (height gl)))

    pub lean_left_twice :
        (hm : ℕ) (km : K) (vm : V) (gg ml mg l : Node K V)
        → height gg < hm
        → lean_left (node h k v l (node hc kc vc (node hm km vm ml mg) gg))
          ≡ (node hm km vm (update k v l ml) (update kc vc mg gg), true)
    unfolding lean_left
    lean_left_twice hm km vm gg ml mg l q =
        rw (lt→ltb (height gg) hm q)
          (rw (taller (height l) (height ml), taller (height mg) (height gg)))
