-- ===== src/Tree/Contents.antt =====
-- The entries of a subtree in order, which no rotation changes, and a step back up in short form.
use rimstone.Base.{
  ℕ, ◌+◌, Bool, true, false, List, [], ◌∷◌, ◌++◌, append_assoc, ◌≡◌, refl, sym, ◌∙◌, inl, inr, leb,
  ltb, Bool-cases, if◌then◌else◌,
}
use rimstone.Tree.Balance.Rotations.{balance-rotate}
use rimstone.Tree.{
  Node, null, vacant, node, Side, lesser_side, greater_side, Slot, height, lesser, greater,
  update_height, set_child, child, link, rotate_left, rotate_right, recompute, lean_left,
  lean_right, rotate, balance, rebalance,
}

module _ {ℓ} {K V : Type ℓ} where
  abbrev pub to_list : Node K V → List (K × V)
  to_list null = []
  to_list vacant = []
  to_list (node h k v l g) = to_list l ++ ((k, v) ∷ to_list g)

  to_list-update_height : (t : Node K V) → to_list (update_height t) ≡ to_list t
  unfolding update_height
  to_list-update_height null = refl
  to_list-update_height vacant = refl
  to_list-update_height (node h k v l g) = refl

  to_list-set_child :
      (t c : Node K V) (side : Side)
      → to_list c ≡ to_list (child t side)
      → to_list (set_child t side c) ≡ to_list t
  unfolding set_child child
  to_list-set_child null c side e = refl
  to_list-set_child vacant c side e = refl
  to_list-set_child (node h k v l g) c lesser_side e = rw e
  to_list-set_child (node h k v l g) c greater_side e = rw e

  to_list-link :
      (t : Node K V) (side : Side) (r : Slot K V)
      → to_list r.0 ≡ to_list (child t side)
      → to_list (link t side r) ≡ to_list t
  unfolding link
  to_list-link t side (c, true) e =
      to_list-update_height (set_child t side c) ∙ to_list-set_child t c side e
  to_list-link t side (c, false) e = to_list-set_child t c side e

  to_list-rotate_right : (t : Node K V) → to_list (rotate_right t).0 ≡ to_list t
  unfolding rotate_right
  to_list-rotate_right (node h k v (node hl kl vl ll lg) g) = rw append_assoc
  to_list-rotate_right _ = refl

  to_list-rotate_left : (t : Node K V) → to_list (rotate_left t).0 ≡ to_list t
  unfolding rotate_left
  to_list-rotate_left (node h k v l (node hg kg vg gl gg)) = rw append_assoc
  to_list-rotate_left _ = refl

  to_list-recompute : (side : Side) (r : Slot K V) → to_list (recompute side r).0 ≡ to_list r.0
  unfolding recompute
  to_list-recompute side (t, b) = to_list-set_child t _ side (to_list-update_height (child t side))

  to_list-lean_right : (t : Node K V) → to_list (lean_right t).0 ≡ to_list t
  unfolding lean_right
  to_list-lean_right t =
      to_list-recompute greater_side (rotate_right (turned t))
      ∙ to_list-rotate_right (turned t)
      ∙ inner (ltb (height (lesser (lesser t))) (height (greater (lesser t))))
    where
      turned : Node K V → Node K V
      turned t =
          if ltb (height (lesser (lesser t))) (height (greater (lesser t)))
          then link t lesser_side (rotate_left (lesser t))
          else t

      inner :
          (b : Bool)
          → to_list (if b then link t lesser_side (rotate_left (lesser t)) else t) ≡ to_list t
      inner true = to_list-link t lesser_side _ (to_list-rotate_left (lesser t))
      inner false = refl

  to_list-lean_left : (t : Node K V) → to_list (lean_left t).0 ≡ to_list t
  unfolding lean_left
  to_list-lean_left t =
      to_list-recompute lesser_side (rotate_left (turned t))
      ∙ to_list-rotate_left (turned t)
      ∙ inner (ltb (height (greater (greater t))) (height (lesser (greater t))))
    where
      turned : Node K V → Node K V
      turned t =
          if ltb (height (greater (greater t))) (height (lesser (greater t)))
          then link t greater_side (rotate_right (greater t))
          else t

      inner :
          (b : Bool)
          → to_list (if b then link t greater_side (rotate_right (greater t)) else t) ≡ to_list t
      inner true = to_list-link t greater_side _ (to_list-rotate_right (greater t))
      inner false = refl

  to_list-rotate : (t : Node K V) → to_list (rotate t).0 ≡ to_list t
  unfolding rotate
  to_list-rotate t = elim (Bool-cases (leb (height (greater t) + 2) (height (lesser t)))) [
    | inl e ↦ rw e (to_list-lean_right t)
    | inr e ↦ elim (Bool-cases (leb (height (lesser t) + 2) (height (greater t)))) [
      | inl f ↦ rw (e, f) (to_list-lean_left t)
      | inr f ↦ rw (e, f)
    ]
  ]

  pub to_list-balance : (t : Node K V) → to_list (balance t).0 ≡ to_list t
  unfolding balance
  to_list-balance t = to_list-rotate (update_height t) ∙ to_list-update_height t

  -- The height that the node stores does not matter to its balancing.
  balance_congr :
      (h h' : ℕ) (k : K) (v : V) (l g : Node K V)
      → balance (node h k v l g) ≡ balance (node h' k v l g)
  balance_congr h h' k v l g = balance-rotate h k v l g ∙ sym (balance-rotate h' k v l g)

  link_lesser :
      (h : ℕ) (k : K) (v : V) (l g : Node K V) (r : Slot K V)
      → balance (link (node h k v l g) lesser_side r) ≡ balance (node h k v r.0 g)
  unfolding link
  link_lesser h k v l g (c, true) = balance_congr _ h k v c g
  link_lesser h k v l g (c, false) = refl

  link_greater :
      (h : ℕ) (k : K) (v : V) (l g : Node K V) (r : Slot K V)
      → balance (link (node h k v l g) greater_side r) ≡ balance (node h k v l r.0)
  unfolding link
  link_greater h k v l g (c, true) = balance_congr _ h k v l c
  link_greater h k v l g (c, false) = refl

  rebalance-balance :
      (t : Node K V) (side : Side)
      → rebalance t side ≡ balance (link t side (balance (child t side)))
  unfolding rebalance
  rebalance-balance t side = refl

  link_twice_lesser :
      (h : ℕ) (k : K) (v : V) (l g : Node K V) (r : Slot K V)
      → balance (link (link (node h k v l g) lesser_side r) lesser_side (balance r.0))
        ≡ balance (node h k v (balance r.0).0 g)
  unfolding link
  link_twice_lesser h k v l g (c, true) =
      link_lesser (if ltb (height g) (height c) then height c + 1 else height g + 1) k v c g
        (balance c)
      ∙ balance_congr (if ltb (height g) (height c) then height c + 1 else height g + 1) h k v
          (balance c).0 g
  link_twice_lesser h k v l g (c, false) = link_lesser h k v c g (balance c)

  link_twice_greater :
      (h : ℕ) (k : K) (v : V) (l g : Node K V) (r : Slot K V)
      → balance (link (link (node h k v l g) greater_side r) greater_side (balance r.0))
        ≡ balance (node h k v l (balance r.0).0)
  unfolding link
  link_twice_greater h k v l g (c, true) =
      link_greater (if ltb (height c) (height l) then height l + 1 else height c + 1) k v l c
        (balance c)
      ∙ balance_congr (if ltb (height c) (height l) then height l + 1 else height c + 1) h k v l
          (balance c).0
  link_twice_greater h k v l g (c, false) = link_greater h k v l c (balance c)

  child-link_lesser :
      (h : ℕ) (k : K) (v : V) (l g : Node K V) (r : Slot K V)
      → child (link (node h k v l g) lesser_side r) lesser_side ≡ r.0
  unfolding child link
  child-link_lesser h k v l g (c, true) = refl
  child-link_lesser h k v l g (c, false) = refl

  child-link_greater :
      (h : ℕ) (k : K) (v : V) (l g : Node K V) (r : Slot K V)
      → child (link (node h k v l g) greater_side r) greater_side ≡ r.0
  unfolding child link
  child-link_greater h k v l g (c, true) = refl
  child-link_greater h k v l g (c, false) = refl

  -- A step back up balances the child that was left in the slot, then the node over it.
  pub rebalance_lesser :
      (h : ℕ) (k : K) (v : V) (l g : Node K V) (r : Slot K V)
      → rebalance (link (node h k v l g) lesser_side r) lesser_side
        ≡ balance (node h k v (balance r.0).0 g)
  rebalance_lesser h k v l g r =
      rw (rebalance-balance, child-link_lesser) (link_twice_lesser h k v l g r)

  pub rebalance_greater :
      (h : ℕ) (k : K) (v : V) (l g : Node K V) (r : Slot K V)
      → rebalance (link (node h k v l g) greater_side r) greater_side
        ≡ balance (node h k v l (balance r.0).0)
  rebalance_greater h k v l g r =
      rw (rebalance-balance, child-link_greater) (link_twice_greater h k v l g r)
