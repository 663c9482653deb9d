-- ===== src/Tree/Balance.antt =====
-- Heights: what the stored heights of a subtree say, and what balancing does to them.
pub mod Rotations
use rimstone.Base.{
  ℕ, suc, ◌+◌, ◌≤◌, ◌<◌, max, min, Bool, true, false, ◌≡◌, refl, ◌∙◌, ◌⊎◌, inl, inr, arith, subst,
}
use native.Mathlib.Decide.{dec_lt}
use rimstone.Tree.Balance.Rotations.{
  balance-rotate, rotate_even, rotate_right_heavy, rotate_left_heavy, lean_right_once,
  lean_right_twice, lean_left_once, lean_left_twice, update,
}
use rimstone.Tree.{
  Node, null, vacant, node, Slot, height, update_height, balance, rotate, lean_right, lean_left,
}

abbrev pub Near : ℕ → ℕ → Type 0
Near a b = (a ≤ b + 1) × (b ≤ a + 1)

abbrev pub Apart : ℕ → ℕ → Type 0
Apart a b = (a ≤ b + 2) × (b ≤ a + 2)

module _ {ℓ} {K V : Type ℓ} where
  -- The true height, whatever the nodes store.
  abbrev pub depth : Node K V → ℕ
  depth null = 0
  depth vacant = 0
  depth (node h k v l g) = suc (max (depth l) (depth g))

  -- Every node stores its height, and the heights of its children differ by one at most.
  abbrev pub IsAvl : Node K V → Type 0
  IsAvl null = Unit
  IsAvl vacant = ⊥
  IsAvl (node h k v l g) =
      (h ≡ suc (max (depth l) (depth g))) × Near (depth l) (depth g) × IsAvl l × IsAvl g

  -- The same, but for the height that the top node stores.
  abbrev pub IsLoose : Node K V → Type 0
  IsLoose null = Unit
  IsLoose vacant = ⊥
  IsLoose (node h k v l g) = Near (depth l) (depth g) × IsAvl l × IsAvl g

  pub IsAvl-IsLoose : (t : Node K V) → IsAvl t → IsLoose t
  IsAvl-IsLoose null a = tt
  IsAvl-IsLoose vacant a = a
  IsAvl-IsLoose (node h k v l g) a = (a.1, a.2, a.3)

  pub height-IsAvl : (t : Node K V) → IsAvl t → height t ≡ depth t
  unfolding height
  height-IsAvl null a = refl
  height-IsAvl vacant a = refl
  height-IsAvl (node h k v l g) a = a.0

  -- Balancing ended with a subtree that is balanced but for the height of its top, and that is as
  -- high as `d` or one more.
  abbrev pub Settled : ℕ → Slot K V → Type 0
  Settled d s = IsLoose s.0 × (d ≤ depth s.0) × (depth s.0 ≤ suc d)

  update-IsAvl :
      (k : K) (v : V) (l g : Node K V)
      → IsAvl l
      → IsAvl g
      → Near (depth l) (depth g)
      → IsAvl (update k v l g)
  update-IsAvl k v l g a b n = (rw (height-IsAvl l a, height-IsAvl g b), n, a, b)

  module _ (h : ℕ) (k : K) (v : V) (hc : ℕ) (kc : K) (vc : V) where
    -- The lesser child is taller by two, and on which of its sides the rotation turns.
    right_once-Settled :
        (ll lg g : Node K V)
        → IsAvl (node hc kc vc ll lg)
        → IsAvl g
        → suc (max (depth ll) (depth lg)) ≡ depth g + 2
        → depth lg ≤ depth ll
        → Settled (depth g + 2) (lean_right (node h k v (node hc kc vc ll lg) g))
    right_once-Settled ll lg g (_, near, al, ag) b d q =
        rw (lean_right_once h k v hc kc vc ll lg g (rw (height-IsAvl lg ag, height-IsAvl ll al) q))
          ((omega arith, al, update-IsAvl k v lg g ag b (omega arith)), omega arith, omega arith)

    right_twice-Settled :
        (ll lg g : Node K V)
        → IsAvl (node hc kc vc ll lg)
        → IsAvl g
        → suc (max (depth ll) (depth lg)) ≡ depth g + 2
        → depth ll < depth lg
        → Settled (depth g + 2) (lean_right (node h k v (node hc kc vc ll lg) g))
    right_twice-Settled ll null g a b d q = absurd (omega arith)
    right_twice-Settled ll vacant g a b d q = absurd (omega arith)
    right_twice-Settled ll (node hm km vm ml mg) g (_, near, al, (top, n, aml, amg)) b d q =
        rw (lean_right_twice h k v hc kc vc hm km vm ll ml mg g (rw (height-IsAvl ll al, top) q)) (
          (
            omega arith,
            update-IsAvl kc vc ll ml al aml (omega arith),
            update-IsAvl k v mg g amg b (omega arith),
          ),
          omega arith,
          omega arith,
        )

    left_once-Settled :
        (gl gg l : Node K V)
        → IsAvl (node hc kc vc gl gg)
        → IsAvl l
        → suc (max (depth gl) (depth gg)) ≡ depth l + 2
        → depth gl ≤ depth gg
        → Settled (depth l + 2) (lean_left (node h k v l (node hc kc vc gl gg)))
    left_once-Settled gl gg l (_, near, al, ag) b d q =
        rw (lean_left_once h k v hc kc vc gl gg l (rw (height-IsAvl gl al, height-IsAvl gg ag) q))
          ((omega arith, update-IsAvl k v l gl b al (omega arith), ag), omega arith, omega arith)

    left_twice-Settled :
        (gl gg l : Node K V)
        → IsAvl (node hc kc vc gl gg)
        → IsAvl l
        → suc (max (depth gl) (depth gg)) ≡ depth l + 2
        → depth gg < depth gl
        → Settled (depth l + 2) (lean_left (node h k v l (node hc kc vc gl gg)))
    left_twice-Settled null gg l a b d q = absurd (omega arith)
    left_twice-Settled vacant gg l a b d q = absurd (omega arith)
    left_twice-Settled (node hm km vm ml mg) gg l (_, near, (top, n, aml, amg), ag) b d q =
        rw (lean_left_twice h k v hc kc vc hm km vm gg ml mg l (rw (height-IsAvl gg ag, top) q)) (
          (
            omega arith,
            update-IsAvl k v l ml b aml (omega arith),
            update-IsAvl kc vc mg gg amg ag (omega arith),
          ),
          omega arith,
          omega arith,
        )

  lean_right-Settled :
      (h : ℕ) (k : K) (v : V) (l g : Node K V)
      → IsAvl l
      → IsAvl g
      → depth l ≡ depth g + 2
      → Settled (depth g + 2) (lean_right (node h k v l g))
  lean_right-Settled h k v null g a b d = absurd (omega arith)
  lean_right-Settled h k v vacant g a b d = absurd a
  lean_right-Settled h k v (node hc kc vc ll lg) g a b d = elim (dec_lt (depth ll) (depth lg)) [
    | no q ↦ right_once-Settled h k v hc kc vc ll lg g a b d (omega arith)
    | yes q ↦ right_twice-Settled h k v hc kc vc ll lg g a b d q
  ]

  lean_left-Settled :
      (h : ℕ) (k : K) (v : V) (l g : Node K V)
      → IsAvl l
      → IsAvl g
      → depth g ≡ depth l + 2
      → Settled (depth l + 2) (lean_left (node h k v l g))
  lean_left-Settled h k v l null a b d = absurd (omega arith)
  lean_left-Settled h k v l vacant a b d = absurd b
  lean_left-Settled h k v l (node hc kc vc gl gg) a b d = elim (dec_lt (depth gg) (depth gl)) [
    | no q ↦ left_once-Settled h k v hc kc vc gl gg l b a d (omega arith)
    | yes q ↦ left_twice-Settled h k v hc kc vc gl gg l b a d q
  ]

  -- A node whose children are balanced and differ by at most two in height is balanced again.
  pub balance-Settled :
      (h : ℕ) (k : K) (v : V) (l g : Node K V)
      → IsAvl l
      → IsAvl g
      → Apart (depth l) (depth g)
      → Settled (max (depth l) (depth g)) (balance (node h k v l g))
  balance-Settled h k v l g a b n =
      let el = height-IsAvl l a in
      let eg = height-IsAvl g b in
      elim (dec_lt (depth g + 1) (depth l)) [
        | yes p ↦
            let e : max (depth l) (depth g) ≡ depth g + 2 = omega arith in
            rw (balance-rotate, e, rotate_left_heavy _ k v l g (omega arith))
              (lean_right-Settled _ k v l g a b (omega arith))
        | no p ↦ elim (dec_lt (depth l + 1) (depth g)) [
          | yes q ↦
              let e : max (depth l) (depth g) ≡ depth l + 2 = omega arith in
              rw (balance-rotate, e, rotate_right_heavy _ k v l g (omega arith))
                (lean_left-Settled _ k v l g a b (omega arith))
          | no q ↦
              rw (balance-rotate, rotate_even _ k v l g (omega arith) (omega arith))
                ((omega arith, a, b), omega arith, omega arith)
        ]
      ]

  -- Where only the height of the top is wrong, balancing makes that right and does not rotate.
  pub balance-IsLoose :
      (t : Node K V)
      → IsLoose t
      → IsAvl (balance t).0 × (depth (balance t).0 ≡ depth t) × ((balance t).1 ≡ false)
  balance-IsLoose null a = unfold balance rotate update_height in (tt, refl, refl)
  balance-IsLoose vacant a = absurd a
  balance-IsLoose (node h k v l g) (n, a, b) =
      let el = height-IsAvl l a in
      let eg = height-IsAvl g b in
      rw (balance-rotate, rotate_even _ k v l g (omega arith) (omega arith))
        (update-IsAvl k v l g a b n, refl, refl)

  -- Only a difference of two makes balancing lower a node.
  pub balance_keeps :
      (h : ℕ) (k : K) (v : V) (l g : Node K V)
      → IsAvl l
      → IsAvl g
      → (depth (balance (node h k v l g)).0 ≡ suc (max (depth l) (depth g)))
        ⊎ (min (depth l) (depth g) + 2 ≤ max (depth l) (depth g))
  balance_keeps h k v l g a b =
      elim (dec_lt (min (depth l) (depth g) + 1) (max (depth l) (depth g))) [
        | yes p ↦ inr (omega arith)
        | no p ↦ inl (balance-IsLoose (node h k v l g) (omega arith, a, b)).1
      ]
