-- ===== src/Memory/Counting.antt =====
-- rimmem.c: the steps on the references of a block.
use rimstone.Base.{ℕ, suc, ◌-◌, Bool, true, false, none, some, ◌==◌, if◌then◌else◌}
use rimstone.Base.Results.{Result, error, okay}
use rimstone.Memory.{
  Entry, Mem, Error, too_many_references, max_ref, set_entry, get_id, add_ord, del_ord,
}

unfoldable pub count_down : Entry → Entry
count_down e = record e { ref = e.ref - 1 }

-- A process block without references becomes an ordinary one that was referenced.
unfoldable pub retire : ℕ → Mem → Mem
retire r m =
    let g = add_ord r (set_entry r (record (m.vm r) { is_process = false }) m) in
    set_entry r (record (g.vm r) { ref = 1 }) g

unfoldable pub retire_unreferenced : ℕ → Mem → Mem
retire_unreferenced r m = if (m.vm r).ref == 0 then retire r m else m

unfoldable pub dec_entry : ℕ → Mem → Mem
dec_entry r m = retire_unreferenced r (set_entry r (count_down (m.vm r)) m)

unfoldable pub dec_process : ℕ → Mem → Result Error Mem
dec_process x m = elim (get_id x m) [
  | error e ↦ error e
  | okay none ↦ okay m
  | okay (some r) ↦ okay (if (m.vm r).is_process then dec_entry r m else m)
]

unfoldable pub make_process : ℕ → Mem → Result Error Mem
make_process r m = elim (del_ord r m) [
  | error e ↦ error e
  | okay (f, g) ↦ okay (set_entry f (record (g.vm f) { is_process = true; ref = 1 }) g)
]

unfoldable pub add_ref_entry : ℕ → Bool → Mem → Result Error Mem
add_ref_entry r false m =
    okay (if (m.vm r).is_process then m else set_entry r (record (m.vm r) { ref = 1 }) m)
add_ref_entry r true m =
    if (m.vm r).is_process
    then if (m.vm r).ref == max_ref
      then error too_many_references
      else okay (set_entry r (record (m.vm r) { ref = suc (m.vm r).ref }) m)
    else make_process r m

unfoldable pub add_ref : ℕ → Bool → Mem → Result Error Mem
add_ref x mem_process m = elim (get_id x m) [
  | error e ↦ error e
  | okay none ↦ okay m
  | okay (some r) ↦ add_ref_entry r mem_process m
]
