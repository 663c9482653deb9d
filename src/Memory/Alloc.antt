-- ===== src/Memory/Alloc.antt =====
-- rimmem.c: rim_malloc and rim_add_mem.
use rimstone.Base.{
  ℕ, ◌<◌, ◌≡◌, refl, sym, ap, subst, ◌∙◌, ◌≢◌, Bool, true, false, none, some, List, ◌∷◌,
  if◌then◌else◌,
}
use rimstone.Memory.{Entry, Mem, put, id_at, set_entry, add_ord, place, fill, vmset}
use rimstone.Memory.Chain.{has, put_self}
use rimstone.Memory.Valid.{IsLoose, IsValid, IsLive, none_loose, IsLoose-put, IsLoose-heap}
use rimstone.Memory.Close.{close-process, close-ordinary}
use rimstone.Memory.Held.{IsHeld, held-put, held-close, held-add_ord}

-- The ordinary entries with one more, unless it is that of a process block.
abbrev pub placed : Bool → ℕ → List ℕ → List ℕ
placed proc r ord = if proc then ord else r ∷ ord

module _ (r : ℕ) (ord unused : List ℕ) where
  pub place-IsValid :
      (b : Bool) (m : Mem)
      → IsLoose (some r) ord unused m
      → (m.vm r).is_process ≡ b
      → (m.vm r).is_free ≡ false
      → IsLive m r
      → IsValid (placed b r ord) unused (place b r m)
  unfolding place
  place-IsValid true m h process used lives = close-process r ord unused m h process used lives
  place-IsValid false m h process used lives = close-ordinary r ord unused m h process used lives

  pub place-kept :
      {q : ℕ} {proc : Bool} {count : ℕ} (b : Bool) (m : Mem)
      → IsHeld (some r) unused m q proc count
      → IsHeld none unused (place b r m) q proc count
  unfolding place
  place-kept true m h = held-close r m h
  place-kept false m h = held-add_ord r m h

  -- The entry itself.
  pub place-IsHeld :
      {p : ℕ} {count : ℕ} (b c : Bool) (m : Mem)
      → has r unused ≡ false
      → r < m.curr
      → (m.vm r).ptr ≡ some p
      → (m.vm r).is_process ≡ c
      → (m.vm r).ref ≡ count
      → IsHeld none unused (place b r m) p c count
  unfolding place add_ord
  place-IsHeld true c m used inside points process reference = record {
    index = r;
    points = points;
    used = used;
    inside = inside;
    tight = none_loose;
    process = process;
    reference = reference;
  }
  place-IsHeld false c m used inside points process reference =
      let here : (add_ord r m).vm r ≡ record (m.vm r) { next = m.first_ord } = put_self m.vm r _ in
      record {
        index = r;
        points = ap (λ (x : Entry). x.ptr) here ∙ points;
        used = used;
        inside = inside;
        tight = none_loose;
        process = ap (λ (x : Entry). x.is_process) here ∙ process;
        reference = ap (λ (x : Entry). x.ref) here ∙ reference;
      }

  vmset-place :
      (p size : ℕ) (b : Bool) (m : Mem)
      → vmset p r size (place b r m) ≡ place b r (vmset p r size m)
  unfolding vmset place add_ord
  vmset-place p size true m = refl
  vmset-place p size false m = refl

  place-size : (b : Bool) (m : Mem) → ((place b r m).curr ≡ m.curr) × ((place b r m).tot ≡ m.tot)
  unfolding place add_ord
  place-size true m = (refl, refl)
  place-size false m = (refl, refl)

  -- The block at `p` that was given the loose entry, and that no other entry leads to.
  module _ (p size : ℕ) (m : Mem) (h : IsLoose (some r) ord unused m)
      (new : (i : ℕ) → i ≢ r → IsLive m i → (m.vm i).ptr ≢ some p) where
    entry : Entry
    unfolding fill
    entry = record (m.vm r) {
      ptr = some p;
      is_free = false;
      is_file = false;
      is_dir = false;
      ref = 0;
      is_process = m.process;
    }

    with_block : Mem
    unfolding vmset
    with_block = vmset p r size (set_entry r entry m)

    here : with_block.vm r ≡ entry
    unfolding with_block vmset
    here = put_self m.vm r entry

    block-IsLoose : IsLoose (some r) ord unused with_block
    unfolding with_block vmset
    block-IsLoose =
        IsLoose-put r ord unused (record m { heap = put m.heap p _ }) entry
          (IsLoose-heap r ord unused m p _ h new)

    block-IsLive : IsLive with_block r
    unfolding with_block vmset entry id_at
    block-IsLive =
        ap (λ (x : Entry). id_at x.ptr with_block.heap) here
        ∙ rw (put_self m.heap p (some (record { id = some r; len = size })), id_at) refl

    abbrev pub filled : Mem
    filled = vmset p r size (fill p r m)

    filled-place : filled ≡ place m.process r with_block
    unfolding with_block entry fill
    filled-place = vmset-place p size m.process (set_entry r entry m)

    pub filled-IsValid : IsValid (placed m.process r ord) unused filled
    unfolding entry
    filled-IsValid = subst (IsValid (placed m.process r ord) unused) (sym filled-place) (
        place-IsValid m.process with_block block-IsLoose (ap (λ (x : Entry). x.is_process) here)
          (ap (λ (x : Entry). x.is_free) here) block-IsLive)

    pub filled-IsHeld : IsHeld none unused filled p m.process 0
    unfolding entry with_block vmset
    filled-IsHeld =
        let (_, used, inside) = h.loose_out r refl in
        subst (λ g. IsHeld none unused g p m.process 0) (sym filled-place)
          (place-IsHeld m.process m.process with_block used inside (ap (λ (x : Entry). x.ptr) here)
            (ap (λ (x : Entry). x.is_process) here) (ap (λ (x : Entry). x.ref) here))

    pub filled-kept :
        {q : ℕ} {proc : Bool} {count : ℕ}
        → IsHeld (some r) unused m q proc count
        → IsHeld none unused filled q proc count
    unfolding with_block vmset
    filled-kept {q = q} {proc = proc} {count = count} held =
        subst (λ g. IsHeld none unused g q proc count) (sym filled-place)
          (place-kept m.process with_block (held-put r entry m held))

    pub filled-head : filled.heap p ≡ some (record { id = some r; len = size })
    unfolding vmset
    filled-head = put_self _ p _

    pub filled-size : (filled.curr ≡ m.curr) × (filled.tot ≡ m.tot)
    unfolding with_block vmset
    filled-size =
        subst (λ g. (g.curr ≡ m.curr) × (g.tot ≡ m.tot)) (sym filled-place)
          (place-size m.process with_block)
