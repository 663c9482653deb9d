-- ===== src/Memory/Refs.antt =====
-- rimmem.c: rim_mem_add_ref and rim_mem_dec_process.
use rimstone.Base.{
  ℕ, suc, ◌<◌, ◌≡◌, refl, sym, ap, ◌∙◌, ◌≢◌, Bool, true, false, none, some, List, arith, ≢→==-false,
}
use mathlib.Core.Option.{some-injective}
use rimstone.Base.Results.{Result, error, okay}
use rimstone.Memory.{Entry, Mem, Error, id_at, set_entry, max_ref, too_many_references}
use rimstone.Memory.Counting.{add_ref, add_ref_entry}
use rimstone.Memory.Chain.{Chain-same, put_self, put_other}
use rimstone.Memory.Valid.{IsValid, at_or_other, none_loose}
use rimstone.Memory.Held.{IsHeld, held-id, held-put, held-loose, held-close}
use rimstone.Memory.Give.{get_id-some}

-- The entry `r` with another count.
abbrev pub with_ref : ℕ → ℕ → Mem → Mem
with_ref r n m = set_entry r (record (m.vm r) { ref = n }) m

-- What no count changes.
ref-same :
    {A : Type 0} (f : Entry → A) (r n : ℕ) (m : Mem)
    → f (record (m.vm r) { ref = n }) ≡ f (m.vm r)
    → (i : ℕ) → f ((with_ref r n m).vm i) ≡ f (m.vm i)
ref-same f r n m same =
    at_or_other (λ i. f ((with_ref r n m).vm i) ≡ f (m.vm i)) r (ap f (put_self m.vm r _) ∙ same)
      (λ i apart. ap f (put_other m.vm r _ i apart))

pub ref-IsValid :
    (r n : ℕ) (ord unused : List ℕ) (m : Mem)
    → IsValid ord unused m
    → IsValid ord unused (with_ref r n m)
ref-IsValid r n ord unused m h = record {
  ord_chain =
      Chain-same m.vm (with_ref r n m).vm m.first_ord ord
        (λ i _. ref-same (λ x. x.next) r n m refl i) h.ord_chain;
  free_chain =
      Chain-same m.vm (with_ref r n m).vm m.first_free unused
        (λ i _. ref-same (λ x. x.next) r n m refl i) h.free_chain;
  ord_apart = h.ord_apart;
  free_apart = h.free_apart;
  disjoint = h.disjoint;
  ord_below = h.ord_below;
  free_below = h.free_below;
  live = λ i le loose out.
      ap (λ p. id_at p m.heap) (ref-same (λ x. x.ptr) r n m refl i) ∙ h.live i le loose out;
  processes = λ i le loose. ref-same (λ x. x.is_process) r n m refl i ∙ h.processes i le loose;
  frees = λ i le loose. ref-same (λ x. x.is_free) r n m refl i ∙ h.frees i le loose;
  loose_out = h.loose_out;
}

pub ref-IsHeld :
    {x : ℕ} {proc : Bool} {count : ℕ} (n : ℕ) (unused : List ℕ) (m : Mem)
    → (h : IsHeld none unused m x proc count) → IsHeld none unused (with_ref h.index n m) x proc n
ref-IsHeld n unused m h = record {
  index = h.index;
  points = ref-same (λ x. x.ptr) h.index n m refl h.index ∙ h.points;
  used = h.used;
  inside = h.inside;
  tight = none_loose;
  process = ref-same (λ x. x.is_process) h.index n m refl h.index ∙ h.process;
  reference = ap (λ (x : Entry). x.ref) (put_self m.vm h.index _);
}

pub ref-kept :
    {q : ℕ} {proc : Bool} {count : ℕ} (r n : ℕ) (unused : List ℕ) (m : Mem)
    → (m.vm r).ptr ≢ some q
    → IsHeld none unused m q proc count
    → IsHeld none unused (with_ref r n m) q proc count
ref-kept r n unused m apart held =
    held-close r (with_ref r n m) (held-put r _ m (held-loose r m apart held))

-- What a step on the references of the block at `x` gives.
pub record Counted (run : Mem → Result Error Mem) (x : ℕ) (unused : List ℕ) (m : Mem) (proc : Bool)
    (count : ℕ) : Type 0 where
  pub ords : List ℕ
  pub state : Mem
  pub returns : run m ≡ okay state
  pub valid : IsValid ords unused state
  pub held : IsHeld none unused state x proc count
  pub kept :
      {q : ℕ} {process : Bool} {number : ℕ}
      → q ≢ x
      → IsHeld none unused m q process number
      → IsHeld none unused state q process number

module _ (x : ℕ) (ord unused : List ℕ) (m : Mem) (valid : IsValid ord unused m) where
  pub not_this_block :
      {proc : Bool} {count q : ℕ} (h : IsHeld none unused m x proc count)
      → q ≢ x
      → (m.vm h.index).ptr ≢ some q
  not_this_block {q = q} h apart e = apart (sym (some-injective x q (sym h.points ∙ e)))

  -- A count changes.
  pub ref-Counted :
      {proc : Bool} {count : ℕ} (n : ℕ) (run : Mem → Result Error Mem)
      → (h : IsHeld none unused m x proc count) → run m ≡ okay (with_ref h.index n m)
      → Counted run x unused m proc n
  ref-Counted n run h returns = record {
    ords = ord;
    state = with_ref h.index n m;
    returns = returns;
    valid = ref-IsValid h.index n ord unused m valid;
    held = ref-IsHeld n unused m h;
    kept = λ apart held. ref-kept h.index n unused m (not_this_block h apart) held;
  }

  pub add_ref-entry :
      {proc : Bool} {count : ℕ} (b : Bool) (h : IsHeld none unused m x proc count)
      → add_ref x b m ≡ add_ref_entry h.index b m
  unfolding add_ref
  add_ref-entry b h = rw (get_id-some x h.index m (held-id m ord valid h), add_ref) refl

  -- A process block gets one more reference.
  pub add_ref-more :
      {count : ℕ}
      → IsHeld none unused m x true count
      → count < max_ref
      → Counted (add_ref x true) x unused m true (suc count)
  unfolding add_ref_entry
  add_ref-more {count = count} h lt =
      ref-Counted (suc count) (add_ref x true) h (add_ref-entry true h ∙ entry_more)
    where
      entry_more : add_ref_entry h.index true m ≡ okay (with_ref h.index (suc count) m)
      entry_more =
          rw h.process (rw h.reference (rw (≢→==-false count 255 (λ e. omega (arith, e, lt))) refl))

  pub add_ref-full :
      IsHeld none unused m x true max_ref → add_ref x true m ≡ error too_many_references
  unfolding add_ref_entry
  add_ref-full h = add_ref-entry true h ∙ rw h.process (rw h.reference refl)

  -- An ordinary block that ordinary memory refers to.
  pub add_ref-ordinary :
      {count : ℕ}
      → IsHeld none unused m x false count
      → Counted (add_ref x false) x unused m false 1
  unfolding add_ref_entry
  add_ref-ordinary h = ref-Counted 1 (add_ref x false) h (add_ref-entry false h ∙ rw h.process refl)
