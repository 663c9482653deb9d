-- ===== src/Linked/Position.antt =====
-- rimrtc.c and v1.c: the current element of a list, and rim_list_purge.
use rimstone.Base.{
  ℕ, ◌+◌, ◌<◌, ◌≡◌, refl, sym, ap, ◌∙◌, Bool, false, Option, none, some, List, [], ◌∷◌, ◌==◌,
  if◌then◌else◌, arith, length, ≢→==-false, subst,
}
use rimstone.Fifo.{same}
use rimstone.Fifo.Chain.{same_self, Cell, first_of, has, has-cons}
use rimstone.Linked.{
  Node, Linked, Status, done, no_more, Where, list_first, list_last, list_end, list_prev, list_next,
  move_to, position_list,
}
use rimstone.Linked.Zipper.{
  After, end_of, IsZipper, turn, has-here, zip-next, zip-prev, zip-end, zip-start,
}

abbrev pub Place : Type 0 → Type 0
Place D = Status × List (Cell D) × List (Cell D)

module _ {D : Type 0} where
  abbrev pub last_place : List (Cell D) → Place D
  last_place [] = (no_more, [], [])
  last_place (c ∷ cs) = (done, cs, c ∷ [])

  -- Where the statement position-list goes in a list that is not empty.
  abbrev pub place_of : Where → List (Cell D) → List (Cell D) → Place D
  place_of list_first before after = (done, [], turn before after)
  place_of list_last before after = last_place (turn after before)
  place_of list_end before after = (done, turn after before, [])
  place_of list_prev [] after = (no_more, [], after)
  place_of list_prev (b ∷ before) after = (done, before, b ∷ after)
  place_of list_next before [] = (no_more, before, [])
  place_of list_next before (a ∷ after) = (done, a ∷ before, after)

  abbrev pub position_of : Where → List (Cell D) → List (Cell D) → Place D
  position_of w [] [] = (no_more, [], [])
  position_of w (b ∷ before) after = place_of w (b ∷ before) after
  position_of w [] (a ∷ after) = place_of w [] (a ∷ after)

  -- A list at a place, with the status that the move there had.
  abbrev pub Reaches : Status × Linked D → Place D → Type 0
  Reaches r p = (r.0 ≡ p.0) × IsZipper p.1 p.2 r.1

  end-first :
      (a : ℕ) (b : Cell D) (bs : List (Cell D))
      → has a (b ∷ bs) ≡ false
      → same (some a) (end_of bs (some b.place)) ≡ false
  unfolding end_of
  end-first a b [] out = ≢→==-false a b.place (has-cons a b [] out).0
  end-first a b (d ∷ ds) out = end-first a d ds (has-cons a b (d ∷ ds) out).1

  end-some : (b : Cell D) (bs : List (Cell D)) → same none (end_of bs (some b.place)) ≡ false
  unfolding end_of
  end-some b [] = refl
  end-some b (d ∷ ds) = end-some d ds

  module _ (l : Linked D) where
    at_last :
        (cs : List (Cell D))
        → IsZipper cs [] (record l { curr = none })
        → 0 < length cs
        → Reaches (done, record l { curr = l.last }) (last_place cs)
    unfolding end_of
    at_last [] h le = absurd (omega (arith, le))
    at_last (c ∷ cs) h le = (
      refl,
      subst (λ p. IsZipper cs (c ∷ []) (record l { curr = p })) (sym h.ends)
          (zip-prev c cs [] (record l { curr = none }) h),
    )

    at_prev :
        (b : Cell D) (before after : List (Cell D))
        → IsZipper (b ∷ before) after l
        → Reaches (move_to list_prev l) (done, before, b ∷ after)
    unfolding move_to end_of After
    at_prev b before after h =
        subst
          (λ (t : Bool).
            Reaches (if t then (no_more, l) else (done, moved)) (done, before, b ∷ after))
          (sym
            (ap (λ p. same p l.first) h.here ∙ ap (same (first_of after)) h.starts ∙ apart after h))
          (
            refl,
            subst (λ p. IsZipper before (b ∷ after) (record l { curr = p }))
                (sym (
                  ap (λ (q : Option ℕ). elim q [ none ↦ l.last | some c ↦ (l.nodes c).prev ]) h.here
                  ∙ back after h))
                (zip-prev b before after l h),
          )
      where
        moved : Linked D
        moved = record l { curr = elim l.curr [ none ↦ l.last | some c ↦ (l.nodes c).prev ] }

        apart :
            (xs : List (Cell D))
            → IsZipper (b ∷ before) xs l
            → same (first_of xs) (end_of (b ∷ before) (first_of xs)) ≡ false
        apart [] z = end-some b before
        apart (a ∷ xs) z = end-first a.place b before (z.apart a.place (has-here a xs))

        back :
            (xs : List (Cell D))
            → IsZipper (b ∷ before) xs l
            → elim (first_of xs) [ none ↦ l.last | some c ↦ (l.nodes c).prev ] ≡ some b.place
        back [] z = z.ends
        back (a ∷ xs) z = ap (λ (n : Node D). n.prev) z.right.0

    at_next :
        (a : Cell D) (before after : List (Cell D))
        → IsZipper before (a ∷ after) l
        → Reaches (move_to list_next l) (done, a ∷ before, after)
    unfolding move_to After
    at_next a before after h =
        subst
          (λ (q : Option ℕ).
            Reaches
              (elim q [
                | none ↦ (no_more, l)
                | some c ↦ (done, record l { curr = (l.nodes c).next })
              ])
              (done, a ∷ before, after))
          (sym h.here)
          (
            refl,
            subst (λ p. IsZipper (a ∷ before) after (record l { curr = p }))
                (sym (ap (λ (n : Node D). n.next) h.right.0)) (zip-next a before after l h),
          )

    moves :
        (w : Where) (before after : List (Cell D))
        → IsZipper before after l
        → 0 < length before + length after
        → Reaches (move_to w l) (place_of w before after)
    unfolding move_to end_of
    moves list_first before after h le = (refl, zip-start before after l h)
    moves list_last before after h le =
        at_last (turn after before) (zip-end before after l h)
          (omega (arith, le, h.count, (zip-end before after l h).count))
    moves list_end before after h le = (refl, zip-end before after l h)
    moves list_prev [] after h le =
        subst
          (λ (t : Bool).
            Reaches
              (if t then (no_more, l) else (
                done,
                record l { curr = elim l.curr [ none ↦ l.last | some c ↦ (l.nodes c).prev ] },
              ))
              (no_more, [], after))
          (sym (ap (λ p. same p l.first) (h.here ∙ sym h.starts) ∙ same_self l.first)) (refl, h)
    moves list_prev (b ∷ before) after h le = at_prev b before after h
    moves list_next before [] h le =
        subst
          (λ (q : Option ℕ).
            Reaches
              (elim q [
                | none ↦ (no_more, l)
                | some c ↦ (done, record l { curr = (l.nodes c).next })
              ])
              (no_more, before, []))
          (sym h.here) (refl, h)
    moves list_next before (a ∷ after) h le = at_next a before after h

  -- The statement position-list, in every direction: it goes to the place, if there is one, with
  -- the status RIM_OKAY, and otherwise leaves the current element and returns RIM_ERR_EXIST.
  pub position_list-IsZipper :
      (w : Where) (before after : List (Cell D)) (l : Linked D)
      → IsZipper before after l
      → Reaches (position_list w l) (position_of w before after)
  unfolding position_list
  position_list-IsZipper w [] [] l h =
      subst (λ (t : Bool). Reaches (if t then (no_more, l) else move_to w l) (no_more, [], []))
        (sym (ap (λ n. n == 0) h.count)) (refl, h)
  position_list-IsZipper w (b ∷ before) after l h =
      subst
        (λ (t : Bool).
          Reaches (if t then (no_more, l) else move_to w l) (place_of w (b ∷ before) after))
        (sym (≢→==-false l.num_of 0 (λ e. omega (arith, e, h.count))))
        (moves l w (b ∷ before) after h (omega arith))
  position_list-IsZipper w [] (a ∷ after) l h =
      subst
        (λ (t : Bool).
          Reaches (if t then (no_more, l) else move_to w l) (place_of w [] (a ∷ after)))
        (sym (≢→==-false l.num_of 0 (λ e. omega (arith, e, h.count))))
        (moves l w [] (a ∷ after) h (omega arith))
