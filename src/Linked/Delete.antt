-- ===== src/Linked/Delete.antt =====
-- rimrtc.c: rim_list_delete.
use rimstone.Base.{
  ℕ, ◌-◌, ◌≡◌, refl, sym, ap, ◌∙◌, ◌≢◌, inl, inr, false, Option, none, some, List, [], ◌∷◌, arith,
  Bool-cases,
}
use mathlib.Core.Bool.{true≢false}
use rimstone.Fifo.Chain.{Cell, first_of, has, has-cons}
use rimstone.Linked.{
  Node, Nodes, Linked, done, no_more, set, unlink, unlink_next, unlink_prev, list_delete,
}
use rimstone.Linked.Zipper.{
  node, Before, After, AreApart, end_of, IsZipper, set_self, set_other, Before-set, After-set,
  has-here, has-behind, zip-prev,
}

module _ {D : Type 0} (c : Cell D) (before after : List (Cell D)) (l : Linked D)
    (h : IsZipper before (c ∷ after) l) where
  removed-IsZipper :
      (m : Nodes D) (first last : Option ℕ)
      → Before m (first_of after) before
      → After m (first_of before) after
      → first ≡ end_of before (first_of after)
      → last ≡ end_of after (first_of before)
      → IsZipper before after (record {
        first = first;
        num_of = l.num_of - 1;
        last = last;
        curr = first_of after;
        nodes = m;
        fresh = l.fresh;
      })
  unfolding AreApart
  removed-IsZipper m first last left right starts ends = record {
    left = left;
    right = right;
    left_apart = h.left_apart;
    right_apart = h.right_apart.1;
    apart = λ a there. h.apart a (has-behind a c after there);
    starts = starts;
    ends = ends;
    here = refl;
    count = omega (arith, h.count);
    new = λ a le. ((h.new a le).0, (has-cons a c after (h.new a le).1).1);
  }

  deletes : list_delete l ≡ (done, unlink (node c (first_of after) (first_of before)) l)
  unfolding list_delete After
  deletes =
      ap (λ (p : Option ℕ). elim p [ none ↦ (no_more, l) | some t ↦ (done, unlink (l.nodes t) l) ])
        h.here
      ∙ ap (λ (e : Node D). (done, unlink e l)) h.right.0

-- The list without its current element.
abbrev pub left_before : {D : Type 0} → List (Cell D) → List (Cell D) → List (Cell D)
left_before before (a ∷ after) = before
left_before [] [] = []
left_before (b ∷ before) [] = before

abbrev pub left_after : {D : Type 0} → List (Cell D) → List (Cell D) → List (Cell D)
left_after before (a ∷ after) = a ∷ after
left_after [] [] = []
left_after (b ∷ before) [] = b ∷ []

-- Between two elements.
module _ {D : Type 0} (c b a : Cell D) (bs cs : List (Cell D)) (l : Linked D)
    (h : IsZipper (b ∷ bs) (c ∷ a ∷ cs) l) where
  abbrev d1 : Nodes D
  d1 = set l.nodes a.place (record (l.nodes a.place) { prev = some b.place })

  abbrev d2 : Nodes D
  d2 = set d1 b.place (record (d1 b.place) { next = some a.place })

  a_out : has a.place (b ∷ bs) ≡ false
  a_out = h.apart a.place (has-behind a.place c (a ∷ cs) (has-here a cs))

  a≢b : a.place ≢ b.place
  a≢b = (has-cons a.place b bs a_out).0

  b_out : has b.place cs ≡ false
  b_out = elim (Bool-cases (has b.place cs)) [
    | inl e ↦ absurd (
        true≢false (
          sym (has-here b bs)
          ∙ h.apart b.place (has-behind b.place c (a ∷ cs) (has-behind b.place a cs e))))
    | inr e ↦ e
  ]

  linked-left : Before d2 (some a.place) (b ∷ bs)
  unfolding Before AreApart
  linked-left =
      let (at_b, rest) = h.left in
      (
        set_self d1 b.place _
            ∙ ap (λ (n : Node D). record n { next = some a.place })
                (set_other l.nodes a.place b.place _ (λ e. a≢b (sym e)) ∙ at_b),
        Before-set d1 b.place _ (some b.place) bs h.left_apart.0
            (Before-set l.nodes a.place _ (some b.place) bs (has-cons a.place b bs a_out).1 rest),
      )

  linked-right : After d2 (some b.place) (a ∷ cs)
  unfolding After AreApart
  linked-right =
      let (_, (at_a, rest)) = h.right in
      (
        set_other d1 b.place a.place _ a≢b
            ∙ set_self l.nodes a.place _
            ∙ ap (λ (n : Node D). record n { prev = some b.place }) at_a,
        After-set d1 b.place _ (some a.place) cs b_out
            (After-set l.nodes a.place _ (some a.place) cs h.right_apart.1.0 rest),
      )

  between :
      IsZipper
        (b ∷ bs)
        (a ∷ cs)
        (record l { nodes = d2; curr = some a.place; num_of = l.num_of - 1 })
  unfolding end_of
  between =
      removed-IsZipper c (b ∷ bs) (a ∷ cs) l h d2 l.first l.last linked-left linked-right h.starts
        h.ends

-- Deleting takes the current element out, and the next one is current then, or the one in front
-- where there is none.
pub list_delete-IsZipper :
    {D : Type 0} (c : Cell D) (before after : List (Cell D)) (l : Linked D)
    → IsZipper before (c ∷ after) l
    → (k : Linked D) × (list_delete l ≡ (done, k))
      × IsZipper (left_before before after) (left_after before after) k
unfolding unlink unlink_next unlink_prev Before After AreApart end_of
list_delete-IsZipper {D = D} c [] [] l h =
    (_, deletes c [] [] l h, removed-IsZipper c [] [] l h l.nodes none none tt tt refl refl)
list_delete-IsZipper {D = D} c [] (a ∷ cs) l h =
    let (_, (at_a, rest)) = h.right in
    (
      _,
      deletes c [] (a ∷ cs) l h,
      removed-IsZipper c [] (a ∷ cs) l h
          (set l.nodes a.place (record (l.nodes a.place) { prev = none })) (some a.place) l.last tt
          (
            set_self l.nodes a.place _ ∙ ap (λ (n : Node D). record n { prev = none }) at_a,
            After-set l.nodes a.place _ (some a.place) cs h.right_apart.1.0 rest,
          )
          refl h.ends,
    )
list_delete-IsZipper {D = D} c (b ∷ bs) [] l h =
    let (at_b, rest) = h.left in
    (
      _,
      deletes c (b ∷ bs) [] l h,
      zip-prev b bs [] _ (
          removed-IsZipper c (b ∷ bs) [] l h
            (set l.nodes b.place (record (l.nodes b.place) { next = none })) l.first (some b.place)
            (
              set_self l.nodes b.place _ ∙ ap (λ (n : Node D). record n { next = none }) at_b,
              Before-set l.nodes b.place _ (some b.place) bs h.left_apart.0 rest,
            )
            tt h.starts refl),
    )
list_delete-IsZipper {D = D} c (b ∷ bs) (a ∷ cs) l h =
    (_, deletes c (b ∷ bs) (a ∷ cs) l h, between c b a bs cs l h)
