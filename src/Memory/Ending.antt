-- ===== src/Memory/Ending.antt =====
-- rimmem.c: rim_done, and rim_memory_init, which calls it.
use rimstone.Base.{ℕ, zero, suc, Bool, ◌||◌, Option, none, some, if◌then◌else◌}
use rimstone.Memory.{Entry, Head, Mem, put, release}

-- What is left of the blocks when the end of a request drops an entry's: that of a file or a
-- directory is closed, and its memory stays.
unfoldable pub left_over : Entry → (ℕ → Option Head) → ℕ → Option Head
left_over e heap = elim e.ptr [
  | none ↦ heap
  | some p ↦ if e.is_file || e.is_dir then heap else put heap p none
]

unfoldable pub drop_entry : ℕ → Mem → Mem
drop_entry i m = release i (record m { heap = left_over (m.vm i) m.heap })

-- The loop of rim_done from the entry `i` on, `none` where the fuel runs out.
unfoldable pub done_loop : ℕ → Option ℕ → Mem → Option Mem
done_loop zero i m = none
done_loop (suc n) none m = some m
done_loop (suc n) (some i) m = done_loop n (m.vm i).next (drop_entry i m)

unfoldable pub no_ordinary : Option Mem → Option Mem
no_ordinary none = none
no_ordinary (some m) = some (record m { first_ord = none })

unfoldable pub done : ℕ → Mem → Option Mem
done fuel m = no_ordinary (done_loop fuel m.first_ord m)

unfoldable pub add_const : ℕ → ℕ → Mem → Mem
add_const p len m = record m { heap = put m.heap p (some (record { id = none; len = len })) }

-- `first` is whether the process calls it for the first time, `p` is the empty string's address.
unfoldable pub memory_init : Bool → ℕ → ℕ → Mem → Option Mem
memory_init first p fuel m = done fuel (if first then add_const p 1 m else m)
