-- ===== src/Memory/Take.antt =====
-- rimmem.c: rim_mem_del_ord in a well-formed table.
use rimstone.Base.{
  or_true, ℕ, ◌<◌, ◌≡◌, refl, sym, ap, subst, ◌∙◌, ◌≢◌, inl, inr, Bool, true, false, not, ◌||◌,
  none, some, List, [], ◌∷◌, ◌==◌, Bool-cases, ==→≡, ==-self, ==-false, ≢→==-false,
}
use mathlib.Core.Bool.{true≢false}
use mathlib.Core.Option.{some-injective}
use rimstone.Base.Results.{okay}
use rimstone.Memory.{Entry, Mem}
use rimstone.Memory.Chain.{
  has, Chain, AreDistinct, AreBelow, has-here, has-skip, Chain-same, AreBelow-has,
}
use rimstone.Memory.Valid.{IsLoose, IsValid, IsLive, at_or_other}
use rimstone.Memory.{swap, del_ord}
use rimstone.Memory.Valid.{none_loose}
use rimstone.Memory.Held.{IsHeld, held-loose, held-swap}
use rimstone.Memory.Detach.{
  swapped-next, at_f, at_r, at_other, IsLive-at_f, IsLive-at_r, IsLive-at_other,
}

-- An entry `f` out of the list of ordinary entries, with the block of `r`.
pub record Detached (r f : ℕ) (rest free : List ℕ) (m g : Mem) : Type 0 where
  pub loose : IsLoose (some f) rest free g
  pub ptr : (g.vm f).ptr ≡ (m.vm r).ptr
  pub lives : IsLive g f
  pub ordinary : (g.vm f).is_process ≡ false
  pub not_free : (g.vm f).is_free ≡ false
  pub reference : (g.vm f).ref ≡ (m.vm r).ref
  pub mode : g.process ≡ m.process
  pub kept :
      {q : ℕ} {proc : Bool} {count : ℕ}
      → (m.vm r).ptr ≢ some q
      → IsHeld none free m q proc count
      → IsHeld (some f) free g q proc count

has-more : (i f : ℕ) (rest : List ℕ) → has i rest ≡ true → has i (f ∷ rest) ≡ true
unfolding has
has-more i f rest there = ap (◌||◌ (i == f)) there ∙ or_true (i == f)

-- The first ordinary entry itself.
pub detach-first :
    (f : ℕ) (rest free : List ℕ) (m : Mem)
    → IsValid (f ∷ rest) free m
    → Detached f f rest free m (record m { first_ord = (m.vm f).next })
unfolding Chain AreDistinct AreBelow
detach-first f rest free m h =
    let (_, chain) = h.ord_chain in
    let (apart, rest_apart) = h.ord_apart in
    let (below, rest_below) = h.ord_below in
    let used = h.disjoint f (has-here f rest) in
    record {
      loose = record {
        ord_chain = chain;
        free_chain = h.free_chain;
        ord_apart = rest_apart;
        free_apart = h.free_apart;
        disjoint = λ i there. h.disjoint i (has-more i f rest there);
        ord_below = rest_below;
        free_below = h.free_below;
        live = λ i le _ out. h.live i le none_loose out;
        processes = λ i le loose.
            h.processes i le none_loose
            ∙ ap (λ b. not (b || has i free)) (has-skip i f rest (λ e. loose (ap some (sym e))));
        frees = λ i le _. h.frees i le none_loose;
        loose_out = λ i e.
            subst (λ j. (has j rest ≡ false) × (has j free ≡ false) × (j < m.curr))
              (some-injective f i e) (apart, used, below);
      };
      ptr = refl;
      lives = h.live f below none_loose used;
      ordinary = h.processes f below none_loose ∙ ap (λ b. not (b || has f free)) (has-here f rest);
      not_free = h.frees f below none_loose ∙ used;
      reference = refl;
      mode = refl;
      kept = λ apart held. held-loose f m apart held;
    }

-- Another entry, whose place the first one's block takes.
detach-other :
    (r f : ℕ) (rest free : List ℕ) (m : Mem)
    → r ≢ f
    → has r rest ≡ true
    → IsValid (f ∷ rest) free m
    → Detached r f rest free m (record (swap r f m) { first_ord = (m.vm f).next })
unfolding Chain AreDistinct AreBelow swap
detach-other r f rest free m other there h =
    let (_, chain) = h.ord_chain in
    let (apart, rest_apart) = h.ord_apart in
    let (below, rest_below) = h.ord_below in
    let used_f = h.disjoint f (has-here f rest) in
    let used_r = h.disjoint r (has-more r f rest there) in
    let below_r = AreBelow-has m.curr r rest rest_below there in
    let live_r : IsLive m r = h.live r below_r none_loose used_r in
    let live_f : IsLive m f = h.live f below none_loose used_f in
    let links : (i : ℕ) → ((swap r f m).vm i).next ≡ (m.vm i).next =
      λ i. swapped-next m r f other live_r live_f i in
    let here_f : (swap r f m).vm f ≡ record (m.vm r) { next = (m.vm f).next } =
      at_f m r f other live_r live_f in
    let here_r : (swap r f m).vm r ≡ record (m.vm f) { next = (m.vm r).next } =
      at_r m r f other live_r live_f in
    record {
      loose = record {
        ord_chain = Chain-same m.vm (swap r f m).vm (m.vm f).next rest (λ i _. links i) chain;
        free_chain =
            Chain-same m.vm (swap r f m).vm m.first_free free (λ i _. links i) h.free_chain;
        ord_apart = rest_apart;
        free_apart = h.free_apart;
        disjoint = λ i there. h.disjoint i (has-more i f rest there);
        ord_below = rest_below;
        free_below = h.free_below;
        live =
            at_or_other
              (λ i. i < m.curr → some f ≢ some i → has i free ≡ false → IsLive (swap r f m) i) r
              (λ _ _ _. IsLive-at_r m r f other live_r live_f)
              (λ i q le loose out.
                IsLive-at_other m r f other live_r live_f i q (λ e. loose (ap some (sym e)))
                  (h.live i le none_loose out));
        processes =
            at_or_other
              (λ i.
                i < m.curr
                → some f ≢ some i
                → ((swap r f m).vm i).is_process ≡ not (has i rest || has i free))
              r
              (λ _ _.
                ap (λ (x : Entry). x.is_process) here_r
                ∙ h.processes f below none_loose
                ∙ ap (λ b. not (b || has f free)) (has-here f rest)
                ∙ sym (ap (λ b. not (b || has r free)) there))
              (λ i q le loose.
                let not_f : i ≢ f = λ e. loose (ap some (sym e)) in
                ap (λ (x : Entry). x.is_process) (at_other m r f other live_r live_f i q not_f)
                ∙ h.processes i le none_loose
                ∙ ap (λ b. not (b || has i free)) (has-skip i f rest not_f));
        frees =
            at_or_other
              (λ i. i < m.curr → some f ≢ some i → ((swap r f m).vm i).is_free ≡ has i free) r
              (λ _ _.
                ap (λ (x : Entry). x.is_free) here_r
                ∙ h.frees f below none_loose
                ∙ used_f
                ∙ sym used_r)
              (λ i q le loose.
                ap (λ (x : Entry). x.is_free)
                  (at_other m r f other live_r live_f i q (λ e. loose (ap some (sym e))))
                ∙ h.frees i le none_loose);
        loose_out = λ i e.
            subst (λ j. (has j rest ≡ false) × (has j free ≡ false) × (j < m.curr))
              (some-injective f i e) (apart, used_f, below);
      };
      ptr = ap (λ (x : Entry). x.ptr) here_f;
      lives = IsLive-at_f m r f other live_r live_f;
      ordinary =
          ap (λ (x : Entry). x.is_process) here_f
          ∙ h.processes r below_r none_loose
          ∙ ap (λ b. not (b || has r free)) (has-more r f rest there);
      not_free = ap (λ (x : Entry). x.is_free) here_f ∙ h.frees r below_r none_loose ∙ used_r;
      reference = ap (λ (x : Entry). x.ref) here_f;
      mode = refl;
      kept = λ apart held. held-swap r f m other live_r live_f used_r below_r apart held;
    }

-- What deleting the ordinary entry `r` gives.
pub record Deleted (r : ℕ) (ord free : List ℕ) (m : Mem) : Type 0 where
  pub first : ℕ
  pub rest : List ℕ
  pub state : Mem
  pub returns : del_ord r m ≡ okay (first, state)
  pub others : ord ≡ first ∷ rest
  pub detached : Detached r first rest free m state

del_ord-first :
    (f : ℕ) (m : Mem)
    → m.first_ord ≡ some f
    → del_ord f m ≡ okay (f, record m { first_ord = (m.vm f).next })
unfolding del_ord
del_ord-first f m e = rw (e, ==-self f) refl

del_ord-other :
    (r f : ℕ) (m : Mem)
    → r ≢ f
    → m.first_ord ≡ some f
    → del_ord r m ≡ okay (f, record (swap r f m) { first_ord = (m.vm f).next })
unfolding del_ord
del_ord-other r f m other e = rw (e, ≢→==-false r f other) refl

pub del_ord-Deleted :
    (r : ℕ) (ord free : List ℕ) (m : Mem)
    → IsValid ord free m
    → has r ord ≡ true
    → Deleted r ord free m
unfolding has Chain
del_ord-Deleted r [] free m h there = absurd (true≢false (sym there))
del_ord-Deleted r (f ∷ rest) free m h there = elim (Bool-cases (r == f)) [
  | inl e ↦
      subst (λ a. Deleted a (f ∷ rest) free m) (sym (==→≡ r f e))
        (record {
          first = f;
          rest = rest;
          state = record m { first_ord = (m.vm f).next };
          returns = del_ord-first f m h.ord_chain.0;
          others = refl;
          detached = detach-first f rest free m h;
        })
  | inr e ↦ record {
    first = f;
    rest = rest;
    state = record (swap r f m) { first_ord = (m.vm f).next };
    returns = del_ord-other r f m (==-false r f e) h.ord_chain.0;
    others = refl;
    detached =
        detach-other r f rest free m (==-false r f e)
          (sym (has-skip r f rest (==-false r f e)) ∙ there) h;
  }
]
