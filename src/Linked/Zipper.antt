-- ===== src/Linked/Zipper.antt =====
-- The elements of a doubly linked list of rimrtc.c around its current one.
use rimstone.Base.{
  ℕ, ◌+◌, ◌≤◌, ◌≡◌, refl, sym, ap, or_true, ◌∙◌, ◌≢◌, inl, inr, true, false, ◌||◌, Option, none,
  some, List, [], ◌∷◌, ◌==◌, arith, length, Bool-cases, ==→≡, ==-self, ≢→==-false, subst,
}
use mathlib.Core.Bool.{true≢false}
use rimstone.Fifo.Chain.{Cell, first_of, has, has-cons, cons-has}
use rimstone.Linked.{Node, Nodes, Linked, set}

module _ {D : Type 0} where
  -- The item of an element between two others.
  abbrev pub node : Cell D → Option ℕ → Option ℕ → Node D
  node c next prev = record { data_of = c.value; name = c.name; next = next; prev = prev }

  -- The elements in front of the current place, the nearest first, where `next` follows.
  unfoldable pub Before : Nodes D → Option ℕ → List (Cell D) → Type 0
  Before m next [] = Unit {0}
  Before m next (c ∷ cs) = (m c.place ≡ node c next (first_of cs)) × Before m (some c.place) cs

  -- The elements from the current place on, behind `prev`.
  unfoldable pub After : Nodes D → Option ℕ → List (Cell D) → Type 0
  After m prev [] = Unit {0}
  After m prev (c ∷ cs) = (m c.place ≡ node c (first_of cs) prev) × After m (some c.place) cs

  unfoldable pub AreApart : List (Cell D) → Type 0
  AreApart [] = Unit {0}
  AreApart (c ∷ cs) = (has c.place cs ≡ false) × AreApart cs

  -- The address at the end of a list that goes on to `p` if it is empty.
  unfoldable pub end_of : List (Cell D) → Option ℕ → Option ℕ
  end_of [] p = p
  end_of (c ∷ cs) p = end_of cs (some c.place)

  -- The list consists of the elements `before`, in reverse, and `after`, at distinct addresses,
  -- with the first of `after` the current one.
  pub record IsZipperAt (before after : List (Cell D)) (first last curr : Option ℕ)
      (num_of fresh : ℕ) (m : Nodes D) : Type 0 where
    pub left : Before m (first_of after) before
    pub right : After m (first_of before) after
    pub left_apart : AreApart before
    pub right_apart : AreApart after
    pub apart : (a : ℕ) → has a after ≡ true → has a before ≡ false
    pub starts : first ≡ end_of before (first_of after)
    pub ends : last ≡ end_of after (first_of before)
    pub here : curr ≡ first_of after
    pub count : num_of ≡ length before + length after
    pub new : (a : ℕ) → fresh ≤ a → (has a before ≡ false) × (has a after ≡ false)

  abbrev pub IsZipper : List (Cell D) → List (Cell D) → Linked D → Type 0
  IsZipper before after l = IsZipperAt before after l.first l.last l.curr l.num_of l.fresh l.nodes

  pub set_self : (m : Nodes D) (a : ℕ) (n : Node D) → set m a n a ≡ n
  unfolding set
  set_self m a n = rw (==-self a) refl

  pub set_other : (m : Nodes D) (a b : ℕ) (n : Node D) → b ≢ a → set m a n b ≡ m b
  unfolding set
  set_other m a b n h = rw (≢→==-false b a h) refl

  pub Before-set :
      (m : Nodes D) (a : ℕ) (n : Node D) (next : Option ℕ) (cs : List (Cell D))
      → has a cs ≡ false
      → Before m next cs
      → Before (set m a n) next cs
  unfolding Before
  Before-set m a n next [] out h = tt
  Before-set m a n next (c ∷ cs) out (e, h) =
      let (other, rest) = has-cons a c cs out in
      (set_other m a c.place n (λ q. other (sym q)) ∙ e, Before-set m a n (some c.place) cs rest h)

  pub After-set :
      (m : Nodes D) (a : ℕ) (n : Node D) (prev : Option ℕ) (cs : List (Cell D))
      → has a cs ≡ false
      → After m prev cs
      → After (set m a n) prev cs
  unfolding After
  After-set m a n prev [] out h = tt
  After-set m a n prev (c ∷ cs) out (e, h) =
      let (other, rest) = has-cons a c cs out in
      (set_other m a c.place n (λ q. other (sym q)) ∙ e, After-set m a n (some c.place) cs rest h)

  pub has-here : (c : Cell D) (cs : List (Cell D)) → has c.place (c ∷ cs) ≡ true
  unfolding has
  has-here c cs = rw (==-self c.place) refl

  pub has-behind :
      (a : ℕ) (c : Cell D) (cs : List (Cell D)) → has a cs ≡ true → has a (c ∷ cs) ≡ true
  unfolding has
  has-behind a c cs h = ap (◌||◌ (a == c.place)) h ∙ or_true (a == c.place)

  -- The current place moves on.
  pub zip-next :
      (c : Cell D) (before after : List (Cell D)) (l : Linked D)
      → IsZipper before (c ∷ after) l
      → IsZipper (c ∷ before) after (record l { curr = first_of after })
  unfolding Before After AreApart end_of
  zip-next c before after l h = record {
    left = (h.right.0, h.left);
    right = h.right.1;
    left_apart = (h.apart c.place (has-here c after), h.left_apart);
    right_apart = h.right_apart.1;
    apart = λ a there.
        cons-has a c before
          (λ e. true≢false (sym there ∙ ap (λ b. has b after) e ∙ h.right_apart.0))
          (h.apart a (has-behind a c after there));
    starts = h.starts;
    ends = h.ends;
    here = refl;
    count = omega (arith, h.count);
    new = λ a le.
        let (out, out_after) = h.new a le in
        let (other, rest) = has-cons a c after out_after in (cons-has a c before other out, rest);
  }

  -- The current place moves back.
  pub zip-prev :
      (c : Cell D) (before after : List (Cell D)) (l : Linked D)
      → IsZipper (c ∷ before) after l
      → IsZipper before (c ∷ after) (record l { curr = some c.place })
  unfolding Before After AreApart end_of has
  zip-prev c before after l h =
      let not_after : has c.place after ≡ false = elim (Bool-cases (has c.place after)) [
        | inl e ↦ absurd (true≢false (sym (has-here c before) ∙ h.apart c.place e))
        | inr e ↦ e
      ] in
      record {
        left = h.left.1;
        right = (h.left.0, h.right);
        left_apart = h.left_apart.1;
        right_apart = (not_after, h.right_apart);
        apart = λ a there. elim (Bool-cases (a == c.place)) [
          | inl e ↦ ap (λ b. has b before) (==→≡ a c.place e) ∙ h.left_apart.0
          | inr e ↦ (has-cons a c before (h.apart a (sym (ap (λ b. b || has a after) e) ∙ there))).1
        ];
        starts = h.starts;
        ends = h.ends;
        here = refl;
        count = omega (arith, h.count);
        new = λ a le.
            let (out_before, out) = h.new a le in
            let (other, rest) = has-cons a c before out_before in
            (rest, cons-has a c after other out);
      }

  -- The elements `cs` in front of `before`, in reverse.
  abbrev pub turn : List (Cell D) → List (Cell D) → List (Cell D)
  turn [] before = before
  turn (c ∷ cs) before = turn cs (c ∷ before)

  pub zip-end :
      (before after : List (Cell D)) (l : Linked D)
      → IsZipper before after l
      → IsZipper (turn after before) [] (record l { curr = none })
  zip-end before [] l h = subst (λ p. IsZipper before [] (record l { curr = p })) h.here h
  zip-end before (c ∷ after) l h =
      zip-end (c ∷ before) after (record l { curr = first_of after }) (zip-next c before after l h)

  pub zip-start :
      (before after : List (Cell D)) (l : Linked D)
      → IsZipper before after l
      → IsZipper [] (turn before after) (record l { curr = l.first })
  unfolding end_of
  zip-start [] after l h =
      subst (λ p. IsZipper [] after (record l { curr = p })) (h.here ∙ sym h.starts) h
  zip-start (c ∷ before) after l h =
      zip-start before (c ∷ after) (record l { curr = some c.place }) (zip-prev c before after l h)
