-- ===== src/Memory/Done.antt =====
-- rimmem.c: rim_done, the end of a request.
use rimstone.Base.{
  ℕ, zero, suc, ◌+◌, ◌<◌, ◌≡◌, refl, sym, ap, subst, ◌∙◌, Bool, true, false, ◌||◌, Option, none,
  some, List, [], ◌∷◌, ◌==◌, if◌then◌else◌, arith, length, inl, inr, Option-cases, Bool-cases, ==→≡,
  ==-false,
}
use mathlib.Core.Bool.{true≢false}
use mathlib.Core.Option.{some-injective}
use rimstone.Base.Results.{none≢some}
use rimstone.Memory.{Entry, Mem, Head, put, id_at, release}
use rimstone.Memory.Ending.{left_over, drop_entry, done_loop, no_ordinary, done}
use rimstone.Memory.Chain.{has, has-skip, Chain, put_self, put_other}
use rimstone.Memory.Valid.{IsLoose, IsValid, IsLoose-heap, owner-apart}
use rimstone.Memory.Close.{close-free}
use rimstone.Memory.Held.{IsHeld, held-release}
use rimstone.Memory.Take.{Detached, detach-first}

-- The table whose ordinary entries start at `p`.
abbrev from : Option ℕ → Mem → Mem
from p m = record m { first_ord = p }

module _ (i : ℕ) (rest used : List ℕ) (m : Mem)
    (h : IsValid (i ∷ rest) used (from (some i) m)) where
  abbrev pub next : Option ℕ
  next = (m.vm i).next

  first_out : Detached i i rest used (from (some i) m) (from next m)
  first_out = detach-first i rest used (from (some i) m) h

  -- The block of the entry goes, or stays.
  drop-IsLoose :
      IsLoose (some i) rest used (record (from next m) { heap = left_over (m.vm i) m.heap })
  unfolding left_over
  drop-IsLoose = elim (Option-cases (m.vm i).ptr) [
    | inl e ↦ rw (e, left_over) (first_out.loose)
    | inr (p, e) ↦ rw (e, left_over) (by_kind p e ((m.vm i).is_file || (m.vm i).is_dir))
  ]
    where
      by_kind :
          (p : ℕ)
          → (m.vm i).ptr ≡ some p
          → (b : Bool)
          → IsLoose
              (some i)
              rest
              used
              (record (from next m) { heap = if b then m.heap else put m.heap p none })
      by_kind p e true = first_out.loose
      by_kind p e false =
          IsLoose-heap i rest used (from next m) p none first_out.loose (λ j apart lives.
            owner-apart (from next m) p i j (ap (λ q. id_at q m.heap) (sym e) ∙ first_out.lives)
              apart lives)

  pub dropped-IsValid : IsValid rest (i ∷ used) (from next (drop_entry i m))
  unfolding release drop_entry
  dropped-IsValid =
      close-free i rest used (record (from next m) { heap = left_over (m.vm i) m.heap })
        drop-IsLoose

  pub dropped-kept :
      {q count : ℕ}
      → IsHeld none used m q true count
      → IsHeld none (i ∷ used) (drop_entry i m) q true count
  unfolding drop_entry
  dropped-kept {q = q} held =
      held-release i (record m { heap = left_over (m.vm i) m.heap })
        (record {
          index = held.index;
          points = held.points;
          used = held.used;
          inside = held.inside;
          tight = λ e. true≢false (
              sym held.process
              ∙ ap (λ j. (m.vm j).is_process) (sym (some-injective i held.index e))
              ∙ first_out.ordinary);
          process = held.process;
          reference = held.reference;
        })

-- The two lists after the loop.
abbrev pub onto : List ℕ → List ℕ → List ℕ
onto [] used = used
onto (i ∷ is) used = onto is (i ∷ used)

pub onto-length : (is used : List ℕ) → length (onto is used) ≡ length is + length used
onto-length [] used = omega arith
onto-length (i ∷ is) used = omega (arith, onto-length is (i ∷ used))

-- What the loop gives, from the entries `is` on.
pub record Ended (n : ℕ) (p : Option ℕ) (is used : List ℕ) (m : Mem) : Type 0 where
  pub state : Mem
  pub returns : done_loop n p m ≡ some state
  pub valid : IsValid [] (onto is used) (from none state)
  pub kept :
      {q count : ℕ}
      → IsHeld none used m q true count
      → IsHeld none (onto is used) state q true count
  pub stays_empty : {x : ℕ} → m.heap x ≡ none → state.heap x ≡ none
  pub gone :
      {x r : ℕ}
      → has r is ≡ true
      → (m.vm r).ptr ≡ some x
      → ((m.vm r).is_file || (m.vm r).is_dir) ≡ false
      → state.heap x ≡ none

-- A block that no entry of a file or a directory has goes with its entry.
left_over-here :
    (e : Entry) (heap : ℕ → Option Head) (x : ℕ)
    → e.ptr ≡ some x
    → (e.is_file || e.is_dir) ≡ false
    → left_over e heap x ≡ none
unfolding left_over
left_over-here e heap x points plain =
    rw (points, left_over)
      (ap (λ (b : Bool). (if b then heap else put heap x none) x) plain ∙ put_self heap x none)

left_over-empty :
    (e : Entry) (heap : ℕ → Option Head) (x : ℕ) → heap x ≡ none → left_over e heap x ≡ none
unfolding left_over put
left_over-empty e heap x h = elim (Option-cases e.ptr) [
  | inl q ↦ rw (q, left_over) h
  | inr (p, q) ↦ rw (q, left_over) (by_kind p (e.is_file || e.is_dir))
]
  where
    put_empty : (p : ℕ) (b : Bool) → (if b then none else heap x) ≡ none
    put_empty p true = refl
    put_empty p false = h

    by_kind : (p : ℕ) (b : Bool) → (if b then heap else put heap p none) x ≡ none
    by_kind p true = h
    by_kind p false = put_empty p (x == p)

loop-Ended :
    (n : ℕ) (p : Option ℕ) (is used : List ℕ) (m : Mem)
    → length is < n
    → IsValid is used (from p m)
    → Ended n p is used m
unfolding done_loop Chain has drop_entry release
loop-Ended zero p is used m lt h = absurd (omega (arith, lt))
loop-Ended (suc n) none [] used m lt h = record {
  state = m;
  returns = refl;
  valid = h;
  kept = λ held. held;
  stays_empty = λ e. e;
  gone = λ there _ _. absurd (true≢false (sym there));
}
loop-Ended (suc n) (some i) [] used m lt h = absurd (none≢some (sym h.ord_chain))
loop-Ended (suc n) none (i ∷ is) used m lt h = absurd (none≢some h.ord_chain.0)
loop-Ended (suc n) (some j) (i ∷ is) used m lt h =
    let same = some-injective j i h.ord_chain.0 in
    let h_i = subst (λ k. IsValid (i ∷ is) used (from (some k) m)) same h in
    let rest =
      loop-Ended n (m.vm i).next is (i ∷ used) (drop_entry i m) (omega (arith, lt))
        (dropped-IsValid i is used m h_i) in
    subst (λ k. Ended (suc n) (some k) (i ∷ is) used m) (sym same)
      (record {
        state = rest.state;
        returns = rest.returns;
        valid = rest.valid;
        kept = λ held. rest.kept (dropped-kept i is used m h_i held);
        stays_empty = λ {x} e. rest.stays_empty (left_over-empty (m.vm i) m.heap x e);
        gone = λ {x} {r} there points plain. elim (Bool-cases (r == i)) [
          | inl e ↦
              let at_i = ==→≡ r i e in
              rest.stays_empty (
                left_over-here (m.vm i) m.heap x (ap (λ k. (m.vm k).ptr) (sym at_i) ∙ points)
                  (ap (λ k. (m.vm k).is_file || (m.vm k).is_dir) (sym at_i) ∙ plain))
          | inr e ↦
              let kept = put_other m.vm i _ r (==-false r i e) in
              rest.gone (sym (has-skip r i is (==-false r i e)) ∙ there)
                (ap (λ (y : Entry). y.ptr) kept ∙ points)
                (ap (λ (y : Entry). y.is_file || y.is_dir) kept ∙ plain)
        ];
      })

done-returns :
    (n : ℕ) (ord unused : List ℕ) (m : Mem)
    → (e : Ended n m.first_ord ord unused m) → done n m ≡ some (from none e.state)
unfolding done no_ordinary
done-returns n ord unused m e = rw (e.returns, done) refl

-- From a well-formed table rim_done comes to an end, with more fuel than there are ordinary blocks,
-- in a well-formed table without ordinary entries, all of which are now free.
pub done-IsValid :
    (n : ℕ) (ord unused : List ℕ) (m : Mem)
    → IsValid ord unused m
    → length ord < n
    → (g : Mem) × (used : List ℕ) × (done n m ≡ some g)
      × IsValid [] used g
      × (length used ≡ length ord + length unused)
done-IsValid n ord unused m h lt =
    let e = loop-Ended n m.first_ord ord unused m lt h in
    (
      from none e.state,
      onto ord unused,
      done-returns n ord unused m e,
      e.valid,
      onto-length ord unused,
    )

-- rim_done leaves every process block held as it was.
pub done-IsHeld :
    (n : ℕ) (ord unused : List ℕ) (m : Mem) (x count : ℕ)
    → IsValid ord unused m
    → length ord < n
    → IsHeld none unused m x true count
    → (g : Mem) × (used : List ℕ) × (done n m ≡ some g) × IsHeld none used g x true count
done-IsHeld n ord unused m x count h lt held =
    let e = loop-Ended n m.first_ord ord unused m lt h in
    (from none e.state, onto ord unused, done-returns n ord unused m e, e.kept held)

-- From a well-formed table rim_done, with more fuel than there are ordinary blocks, gives back
-- every ordinary block but those of files and directories.
pub done-gone :
    (n : ℕ) (ord unused : List ℕ) (m : Mem) (x r : ℕ)
    → IsValid ord unused m
    → length ord < n
    → has r ord ≡ true
    → (m.vm r).ptr ≡ some x
    → ((m.vm r).is_file || (m.vm r).is_dir) ≡ false
    → (g : Mem) × (done n m ≡ some g) × (g.heap x ≡ none)
done-gone n ord unused m x r h lt there points plain =
    let e = loop-Ended n m.first_ord ord unused m lt h in
    (from none e.state, done-returns n ord unused m e, e.gone there points plain)
