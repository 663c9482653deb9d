-- ===== src/Memory/Counts.antt =====
-- rimmem.c: what the references of a block promise to the code that counts them.
use rimstone.Base.{
  ℕ, zero, suc, ◌<◌, ◌≡◌, refl, ap, ◌∙◌, ◌≢◌, Bool, true, false, ◌||◌, none, List, ltb,
  if◌then◌else◌,
}
use rimstone.Base.Results.{okay}
use rimstone.Memory.{Mem, free, free_entry, max_ref}
use rimstone.Memory.Counting.{add_ref, dec_process}
use rimstone.Memory.Valid.{IsValid}
use rimstone.Memory.Held.{IsHeld, held-id}
use rimstone.Memory.Give.{get_id-some}
use rimstone.Memory.Process.{add_ref-Counted, dec_process-Counted, stays, count_left}

-- In a well-formed table rim_mem_add_ref to process memory, of a block with less than RIM_MAX_REF
-- references, makes it process memory, with one reference more if it was that before and with one
-- otherwise, and leaves a well-formed table.
pub add_ref-IsValid :
    (x : ℕ) (ord unused : List ℕ) (m : Mem) (proc : Bool) (count : ℕ)
    → IsValid ord unused m
    → IsHeld none unused m x proc count
    → count < max_ref
    → (g : Mem) × (ords : List ℕ) × (add_ref x true m ≡ okay g)
      × IsValid ords unused g
      × IsHeld none unused g x true (if proc then suc count else 1)
add_ref-IsValid x ord unused m proc count valid h lt =
    let c = add_ref-Counted x ord unused m valid proc h lt in
    (c.state, c.ords, c.returns, c.valid, c.held)

-- rim_mem_add_ref to process memory leaves every other block held as it was.
pub add_ref-IsHeld :
    (x : ℕ) (ord unused : List ℕ) (m : Mem) (proc : Bool) (count : ℕ) (q : ℕ) (other : Bool)
    (number : ℕ)
    → IsValid ord unused m
    → IsHeld none unused m x proc count
    → count < max_ref
    → q ≢ x
    → IsHeld none unused m q other number
    → (g : Mem) × (add_ref x true m ≡ okay g) × IsHeld none unused g q other number
add_ref-IsHeld x ord unused m proc count q other number valid h lt apart held =
    let c = add_ref-Counted x ord unused m valid proc h lt in
    (c.state, c.returns, c.kept apart held)

-- In a well-formed table rim_mem_dec_process of a process block that has a reference takes one
-- reference from it; without a reference left it becomes an ordinary block that was referenced. The
-- table is well-formed again.
pub dec_process-IsValid :
    (x : ℕ) (ord unused : List ℕ) (m : Mem) (n : ℕ)
    → IsValid ord unused m
    → IsHeld none unused m x true (suc n)
    → (g : Mem) × (ords : List ℕ) × (dec_process x m ≡ okay g)
      × IsValid ords unused g
      × IsHeld none unused g x (stays n) (count_left n)
dec_process-IsValid x ord unused m n valid h =
    let c = dec_process-Counted x ord unused m valid n h in
    (c.state, c.ords, c.returns, c.valid, c.held)

-- rim_mem_dec_process of a process block leaves every other block held as it was.
pub dec_process-IsHeld :
    (x : ℕ) (ord unused : List ℕ) (m : Mem) (n q : ℕ) (other : Bool) (number : ℕ)
    → IsValid ord unused m
    → IsHeld none unused m x true (suc n)
    → q ≢ x
    → IsHeld none unused m q other number
    → (g : Mem) × (dec_process x m ≡ okay g) × IsHeld none unused g q other number
dec_process-IsHeld x ord unused m n q other number valid h apart held =
    let c = dec_process-Counted x ord unused m valid n h in (c.state, c.returns, c.kept apart held)

-- rim_free leaves the table alone for a block that is process memory or that was referenced.
pub free-referenced :
    (x : ℕ) (ord unused : List ℕ) (m : Mem) (proc : Bool) (count : ℕ)
    → IsValid ord unused m
    → IsHeld none unused m x proc count
    → (proc || ltb 0 count) ≡ true
    → free x m ≡ okay m
unfolding free
free-referenced x ord unused m proc count valid h e =
    rw (get_id-some x h.index m (held-id m ord valid h), free)
      (ap (λ b. if b then okay m else free_entry x h.index m) (referenced ∙ e))
  where
    referenced : ((m.vm h.index).is_process || ltb 0 (m.vm h.index).ref) ≡ (proc || ltb 0 count)
    referenced =
        ap (λ b. b || ltb 0 (m.vm h.index).ref) h.process ∙ ap (λ n. proc || ltb 0 n) h.reference

-- In a well-formed table a block that process memory referred to and no longer does stays until
-- the request ends: after
-- rim_mem_add_ref and rim_mem_dec_process of an ordinary block, rim_free leaves it alone.
pub dec_process-add_ref :
    (x : ℕ) (ord unused : List ℕ) (m : Mem) (count : ℕ)
    → IsValid ord unused m
    → IsHeld none unused m x false count
    → count < max_ref
    → (g k : Mem) × (ords : List ℕ) × (add_ref x true m ≡ okay g)
      × (dec_process x g ≡ okay k)
      × IsValid ords unused k
      × IsHeld none unused k x false 1
      × (free x k ≡ okay k)
dec_process-add_ref x ord unused m count valid h lt =
    let c = add_ref-Counted x ord unused m valid false h lt in
    let d = dec_process-Counted x c.ords unused c.state c.valid zero c.held in
    (
      c.state,
      d.state,
      d.ords,
      c.returns,
      d.returns,
      d.valid,
      d.held,
      free-referenced x d.ords unused d.state false 1 d.valid d.held refl,
    )
