-- ===== src/Linked/Insert.antt =====
-- rimrtc.c: rim_list_store.
use rimstone.Base.{
  ℕ, suc, ◌≡◌, refl, sym, ap, ◌∙◌, ◌≢◌, inl, inr, false, ◌||◌, Option, none, some, List, ◌∷◌, ◌==◌,
  arith, Bool-cases, ==→≡,
}
use mathlib.Core.Bool.{true≢false}
use rimstone.Fifo.Chain.{Cell, first_of, has, has-cons, cons-has}
use rimstone.Linked.{Node, Nodes, Linked, set}
use rimstone.Linked.Zipper.{
  node, Before, After, AreApart, end_of, IsZipper, set_self, set_other, Before-set, After-set,
  has-here, has-behind,
}

-- A new element `c` of `l`, between `before` and `after`.
module _ {D : Type 0} (c : Cell D) (before after : List (Cell D)) (l : Linked D)
    (h : IsZipper before after l) (at_fresh : c.place ≡ l.fresh) where
  pub out_before : has c.place before ≡ false
  out_before = (h.new c.place (omega (arith, at_fresh))).0

  pub out_after : has c.place after ≡ false
  out_after = (h.new c.place (omega (arith, at_fresh))).1

  -- Nodes that link it in give a list.
  pub inserted-IsZipper :
      (m : Nodes D) (first last : Option ℕ)
      → m c.place ≡ node c (first_of after) (first_of before)
      → Before m (some c.place) before
      → After m (some c.place) after
      → first ≡ end_of before (some c.place)
      → last ≡ end_of after (some c.place)
      → IsZipper before (c ∷ after) (record {
        first = first;
        num_of = suc l.num_of;
        last = last;
        curr = some c.place;
        nodes = m;
        fresh = suc l.fresh;
      })
  unfolding After AreApart end_of has
  inserted-IsZipper m first last node left right starts ends = record {
    left = left;
    right = (node, right);
    left_apart = h.left_apart;
    right_apart = (out_after, h.right_apart);
    apart = λ a there. elim (Bool-cases (a == c.place)) [
      | inl e ↦ ap (λ b. has b before) (==→≡ a c.place e) ∙ out_before
      | inr e ↦ h.apart a (sym (ap (λ b. b || has a after) e) ∙ there)
    ];
    starts = starts;
    ends = ends;
    here = refl;
    count = omega (arith, h.count);
    new = λ a le.
        let (out, out') = h.new a (omega (arith, le)) in
        (out, cons-has a c after (λ e. omega (arith, e, at_fresh, le)) out');
  }

  -- The nodes with the new one, before it is linked.
  abbrev with_new : Nodes D
  with_new = set l.nodes c.place (node c none none)

  pub new-left : Before with_new (first_of after) before
  new-left = Before-set l.nodes c.place _ (first_of after) before out_before h.left

  pub new-right : After with_new (first_of before) after
  new-right = After-set l.nodes c.place _ (first_of before) after out_after h.right

-- Between two elements.
module _ {D : Type 0} (c b a : Cell D) (bs cs : List (Cell D)) (l : Linked D)
    (h : IsZipper (b ∷ bs) (a ∷ cs) l) (at_fresh : c.place ≡ l.fresh) where
  abbrev pub g : Linked D
  g = record l { nodes = set l.nodes c.place (node c none none); fresh = suc l.fresh }

  abbrev pub m1 : Nodes D
  m1 = set g.nodes b.place (record (g.nodes b.place) { next = some c.place })

  abbrev pub m2 : Nodes D
  m2 = set m1 c.place (record (m1 c.place) { prev = (m1 a.place).prev; next = some a.place })

  abbrev pub m3 : Nodes D
  m3 = set m2 a.place (record (m2 a.place) { prev = some c.place })

  c≢b : c.place ≢ b.place
  c≢b = (has-cons c.place b bs (out_before c (b ∷ bs) (a ∷ cs) l h at_fresh)).0

  c≢a : c.place ≢ a.place
  c≢a = (has-cons c.place a cs (out_after c (b ∷ bs) (a ∷ cs) l h at_fresh)).0

  a_out : has a.place (b ∷ bs) ≡ false
  a_out = h.apart a.place (has-here a cs)

  a≢b : a.place ≢ b.place
  a≢b = (has-cons a.place b bs a_out).0

  b_out : has b.place cs ≡ false
  b_out = elim (Bool-cases (has b.place cs)) [
    | inl e ↦
        absurd (true≢false (sym (has-here b bs) ∙ h.apart b.place (has-behind b.place a cs e)))
    | inr e ↦ e
  ]

  pub prev-a : (m1 a.place).prev ≡ some b.place
  unfolding After
  prev-a =
      ap (λ (n : Node D). n.prev)
        (set_other g.nodes b.place a.place _ a≢b ∙ (new-right c (b ∷ bs) (a ∷ cs) l h at_fresh).0)

  at_c : m3 c.place ≡ node c (some a.place) (some b.place)
  at_c =
      set_other m2 a.place c.place _ c≢a
      ∙ set_self m1 c.place _
      ∙ ap (λ (n : Node D). record n { prev = (m1 a.place).prev; next = some a.place })
          (set_other g.nodes b.place c.place _ c≢b ∙ set_self l.nodes c.place _)
      ∙ ap (λ p. node c (some a.place) p) prev-a

  linked-left : Before m3 (some c.place) (b ∷ bs)
  unfolding Before AreApart
  linked-left =
      let (at_b, rest) = new-left c (b ∷ bs) (a ∷ cs) l h at_fresh in
      let (_, c_out) = has-cons c.place b bs (out_before c (b ∷ bs) (a ∷ cs) l h at_fresh) in
      (
        set_other m2 a.place b.place _ (λ e. a≢b (sym e))
            ∙ set_other m1 c.place b.place _ (λ e. c≢b (sym e))
            ∙ set_self g.nodes b.place _
            ∙ ap (λ (n : Node D). record n { next = some c.place }) at_b,
        Before-set m2 a.place _ (some b.place) bs (has-cons a.place b bs a_out).1 (
            Before-set m1 c.place _ (some b.place) bs c_out
              (Before-set g.nodes b.place _ (some b.place) bs h.left_apart.0 rest)),
      )

  linked-right : After m3 (some c.place) (a ∷ cs)
  unfolding After AreApart
  linked-right =
      let (at_a, rest) = new-right c (b ∷ bs) (a ∷ cs) l h at_fresh in
      let (_, c_out) = has-cons c.place a cs (out_after c (b ∷ bs) (a ∷ cs) l h at_fresh) in
      (
        set_self m2 a.place _
            ∙ ap (λ (n : Node D). record n { prev = some c.place })
                (set_other m1 c.place a.place _ (λ e. c≢a (sym e))
                  ∙ set_other g.nodes b.place a.place _ a≢b
                  ∙ at_a),
        After-set m2 a.place _ (some a.place) cs h.right_apart.0 (
            After-set m1 c.place _ (some a.place) cs c_out
              (After-set g.nodes b.place _ (some a.place) cs b_out rest)),
      )

  pub between-IsZipper :
      IsZipper
        (b ∷ bs)
        (c ∷ a ∷ cs)
        (record g { nodes = m3; curr = some c.place; num_of = suc l.num_of })
  unfolding end_of
  between-IsZipper =
      inserted-IsZipper c (b ∷ bs) (a ∷ cs) l h at_fresh m3 l.first l.last at_c linked-left
        linked-right h.starts h.ends
