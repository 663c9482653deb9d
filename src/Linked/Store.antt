-- ===== src/Linked/Store.antt =====
-- rimrtc.c: rim_list_store, by the place of the new element.
use rimstone.Base.{
  ℕ, suc, ◌<◌, ◌≡◌, refl, sym, ap, ◌∙◌, Bool, true, false, none, some, List, [], ◌∷◌, ◌==◌,
  if◌then◌else◌, arith, ==-self, ≢→==-false,
}
use rimstone.Base.Words.{Bytes}
use rimstone.Fifo.{same}
use rimstone.Fifo.Chain.{Cell, has, has-cons}
use rimstone.Linked.{
  Node, Nodes, Linked, set, set_next, set_prev, new_node, insert_end, insert_first, insert_before,
  insert_at, count_up, list_store,
}
use rimstone.Linked.Zipper.{
  node, Before, After, AreApart, end_of, IsZipper, set_self, set_other, Before-set, After-set,
  has-here, turn, zip-end,
}
use rimstone.Linked.Insert.{
  m3, out_before, out_after, inserted-IsZipper, new-left, new-right, between-IsZipper,
}

-- The first of the elements.
module _ {D : Type 0} (c a : Cell D) (cs : List (Cell D)) (l : Linked D)
    (h : IsZipper [] (a ∷ cs) l) (at_fresh : c.place ≡ l.fresh) where
  abbrev n1 : Nodes D
  n1 =
      set (set l.nodes c.place (node c none none)) c.place
        (record (set l.nodes c.place (node c none none) c.place) { next = some a.place })

  abbrev pub n2 : Nodes D
  n2 = set n1 a.place (record (n1 a.place) { prev = some c.place })

  pub first-IsZipper : IsZipper [] (c ∷ a ∷ cs) (record l {
    nodes = n2;
    first = some c.place;
    curr = some c.place;
    num_of = suc l.num_of;
    fresh = suc l.fresh;
  })
  unfolding Before After AreApart end_of
  first-IsZipper =
      let (other, out) = has-cons c.place a cs (out_after c [] (a ∷ cs) l h at_fresh) in
      let (at_a, rest) = new-right c [] (a ∷ cs) l h at_fresh in
      inserted-IsZipper c [] (a ∷ cs) l h at_fresh n2 (some c.place) l.last
        (set_other n1 a.place c.place _ other
          ∙ set_self (set l.nodes c.place (node c none none)) c.place _
          ∙ ap (λ (n : Node D). record n { next = some a.place }) (set_self l.nodes c.place _))
        tt
        (
          set_self n1 a.place _
              ∙ ap (λ (n : Node D). record n { prev = some c.place })
                  (set_other _ c.place a.place _ (λ e. other (sym e)) ∙ at_a),
          After-set n1 a.place _ (some a.place) cs h.right_apart.0
              (After-set _ c.place _ (some a.place) cs out rest),
        )
        refl h.ends

-- Behind the last of the elements.
module _ {D : Type 0} (c b : Cell D) (bs : List (Cell D)) (l : Linked D)
    (h : IsZipper (b ∷ bs) [] l) (at_fresh : c.place ≡ l.fresh) where
  abbrev k1 : Nodes D
  k1 =
      set (set l.nodes c.place (node c none none)) b.place
        (record (set l.nodes c.place (node c none none) b.place) { next = some c.place })

  abbrev pub k2 : Nodes D
  k2 = set k1 c.place (record (k1 c.place) { prev = l.last })

  pub end-IsZipper : IsZipper (b ∷ bs) (c ∷ []) (record l {
    nodes = k2;
    last = some c.place;
    curr = some c.place;
    num_of = suc l.num_of;
    fresh = suc l.fresh;
  })
  unfolding Before After AreApart end_of
  end-IsZipper =
      let (other, out) = has-cons c.place b bs (out_before c (b ∷ bs) [] l h at_fresh) in
      let (at_b, rest) = new-left c (b ∷ bs) [] l h at_fresh in
      inserted-IsZipper c (b ∷ bs) [] l h at_fresh k2 l.first (some c.place)
        (set_self k1 c.place _
          ∙ ap (λ (n : Node D). record n { prev = l.last })
              (set_other _ b.place c.place _ other ∙ set_self l.nodes c.place _)
          ∙ ap (λ p. node c none p) h.ends)
        (
          set_other k1 c.place b.place _ (λ e. other (sym e))
              ∙ set_self _ b.place _
              ∙ ap (λ (n : Node D). record n { next = some c.place }) at_b,
          Before-set k1 c.place _ (some b.place) bs out
              (Before-set _ b.place _ (some b.place) bs h.left_apart.0 rest),
        )
        tt h.starts refl

module _ {D : Type 0} (name : Bytes) (value : D) (l : Linked D) where
  abbrev pub new_cell : Cell D
  new_cell = record { place = l.fresh; name = name; value = value }

  store-inserted :
      (k : Linked D)
      → (l.num_of == 0) ≡ false
      → insert_at l.curr l.fresh (new_node name value l) ≡ some k
      → list_store name value false l ≡ some (record k { num_of = suc k.num_of })
  unfolding list_store count_up
  store-inserted k some_left e = rw (some_left, list_store) (rw (e, count_up) refl)

  store-first :
      l.num_of ≡ 0
      → list_store name value false l
        ≡ some (record l {
          nodes = set l.nodes l.fresh (node new_cell none none);
          fresh = suc l.fresh;
          first = some l.fresh;
          last = some l.fresh;
          curr = some l.fresh;
          num_of = suc l.num_of;
        })
  unfolding list_store count_up new_node
  store-first e = rw (ap (λ n. n == 0) e, list_store) refl

  not_empty : 0 < l.num_of → (l.num_of == 0) ≡ false
  not_empty le = ≢→==-false l.num_of 0 (λ q. omega (arith, le, q))

  not_start :
      (a : ℕ) (b : Cell D) (bs : List (Cell D))
      → has a (b ∷ bs) ≡ false
      → same (some a) (end_of bs (some b.place)) ≡ false
  unfolding end_of
  not_start a b [] out = ≢→==-false a b.place (has-cons a b [] out).0
  not_start a b (d ∷ ds) out = not_start a d ds (has-cons a b (d ∷ ds) out).1

  abbrev np : ℕ
  np = l.fresh

  abbrev with_node : Linked D
  unfolding new_node
  with_node = new_node name value l

  at_end :
      (b : Cell D) (bs : List (Cell D))
      → (h : IsZipper (b ∷ bs) [] l)
      → insert_at l.curr np with_node
        ≡ some
            (record with_node { nodes = k2 new_cell b bs l h refl; last = some np; curr = some np })
  unfolding insert_at insert_end set_next new_node end_of
  at_end b bs h =
      ap (λ p. insert_at p np with_node) h.here
      ∙ ap
          (λ p. elim (set_next p (some np) with_node.nodes) [
            | none ↦ none
            | some m ↦ some (record with_node {
              nodes = set m np (record (m np) { prev = l.last });
              last = some np;
              curr = some np;
            })
          ])
          h.ends

  at_start :
      (a : Cell D) (cs : List (Cell D))
      → (h : IsZipper [] (a ∷ cs) l)
      → insert_at l.curr np with_node
        ≡ some (record with_node {
          nodes = n2 new_cell a cs l h refl;
          first = some np;
          curr = some np;
        })
  unfolding insert_at insert_first set_prev new_node end_of
  at_start a cs h =
      ap (λ p. insert_at p np with_node) h.here
      ∙ ap
          (λ (b : Bool).
            if b then insert_first np with_node else insert_before a.place np with_node)
          (ap (same (some a.place)) h.starts ∙ ==-self a.place)
      ∙ rw (h.starts, insert_first) refl

  at_between :
      (b a : Cell D) (bs cs : List (Cell D))
      → (h : IsZipper (b ∷ bs) (a ∷ cs) l)
      → insert_at l.curr np with_node
        ≡ some (record with_node { nodes = m3 new_cell b a bs cs l h refl; curr = some np })
  unfolding insert_at insert_before set_next new_node end_of After
  at_between b a bs cs h =
      ap (λ p. insert_at p np with_node) h.here
      ∙ ap
          (λ (t : Bool).
            if t then insert_first np with_node else insert_before a.place np with_node)
          (ap (same (some a.place)) h.starts
            ∙ not_start a.place b bs (h.apart a.place (has-here a cs)))
      ∙ rw
          (
            ap (λ (n : Node D). n.prev) (new-right new_cell (b ∷ bs) (a ∷ cs) l h refl).0,
            insert_before,
          )
          refl

  -- In front of the current element, or at the end where there is none.
  store-here :
      (before after : List (Cell D))
      → IsZipper before after l
      → (k : Linked D) × (list_store name value false l ≡ some k)
        × IsZipper before (new_cell ∷ after) k
  unfolding new_node end_of After Before
  store-here [] [] h = (
    _,
    store-first h.count,
    inserted-IsZipper new_cell [] [] l h refl (set l.nodes np (node new_cell none none)) (some np)
        (some np) (set_self l.nodes np _) tt tt refl refl,
  )
  store-here (b ∷ bs) [] h = (
    _,
    store-inserted _ (not_empty (omega (arith, h.count))) (at_end b bs h),
    end-IsZipper new_cell b bs l h refl,
  )
  store-here [] (a ∷ cs) h = (
    _,
    store-inserted _ (not_empty (omega (arith, h.count))) (at_start a cs h),
    first-IsZipper new_cell a cs l h refl,
  )
  store-here (b ∷ bs) (a ∷ cs) h = (
    _,
    store-inserted _ (not_empty (omega (arith, h.count))) (at_between b a bs cs h),
    between-IsZipper new_cell b a bs cs l h refl,
  )

-- Storing in a list succeeds: the new element stands in front of the current one, or at the end
-- where there is none or where it is appended, and it is the current one then.
pub list_store-IsZipper :
    {D : Type 0} (name : Bytes) (value : D) (append : Bool) (before after : List (Cell D))
    (l : Linked D)
    → IsZipper before after l
    → (k : Linked D) × (list_store name value append l ≡ some k)
      × IsZipper
          (if append then turn after before else before)
          (record { place = l.fresh; name = name; value = value } ∷ (if append then [] else after))
          k
unfolding list_store insert_at insert_end new_node
list_store-IsZipper name value false before after l h = store-here name value l before after h
list_store-IsZipper name value true before after l h =
    store-here name value (record l { curr = none }) (turn after before) []
      (zip-end before after l h)
