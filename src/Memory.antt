-- ===== src/Memory.antt =====
-- rimmem.c: the table `vm` of memory blocks, with the list of the free entries and the list of the
-- ordinary blocks, those that go at the end of a request, linked through the same field `next`. A
-- piece of memory is named by the address of its block, which is RIM_ALIGN in front of the address
-- that the C code hands out; its header holds the entry's index. The blocks' contents are left out.
-- Allocations return an address, or `none` for NULL, which is a parameter of each step. So is
-- `grows`: whether libc's realloc of the table returns one, should the table have to grow.
-- rim_mem_process is 0 or RIM_MEM_PROCESS wherever it is set, and a Boolean here; -1 is `none`.
mod Chain
mod Valid
mod Close
mod Open
mod Detach
mod Held
mod Take
mod Give
mod Alloc
mod Malloc
mod Counting
mod Ending
mod Growing
mod Refs
mod Process
mod Counts
mod Done
mod Move
mod Realloc
mod Examples
use rimstone.Base.{
  ℕ, suc, ◌+◌, ◌-◌, ◌*◌, ◌%◌, ◌^◌, Bool, true, false, ◌||◌, Option, none, some, ltb, leb, ◌==◌,
  if◌then◌else◌,
}
use rimstone.Base.Results.{Result, error, okay, ℤ, pos, negsuc}

-- An entry of the table, with the bits of its status.
pub record Entry : Type 0 where
  pub ptr : Option ℕ
  pub next : Option ℕ
  pub is_free : Bool
  pub is_file : Bool
  pub is_dir : Bool
  pub is_process : Bool
  pub ref : ℕ

-- The header of a block: the index of its entry, `none` for a constant, and its length.
pub record Head : Type 0 where
  pub id : Option ℕ
  pub len : ℕ

pub record Mem : Type 0 where
  pub vm : ℕ → Entry
  pub curr : ℕ
  pub tot : ℕ
  pub first_free : Option ℕ
  pub first_ord : Option ℕ
  pub process : Bool
  pub heap : ℕ → Option Head

-- The calls of rim_report_error; `invalid` stands for an access through an index or an address that
-- holds nothing.
pub data Error : Type 0 where
  out_of_memory : Error
  too_many_variables : Error
  too_many_references : Error
  bad_range : Error
  invalid : Error

abbrev pub mem_size : ℕ
mem_size = 512

abbrev pub max_mem : ℕ
max_mem = 2 ^ 45 - 1

abbrev pub max_ref : ℕ
max_ref = 255

unfoldable pub put : {A : Type 0} → (ℕ → A) → ℕ → A → ℕ → A
put f i a j = if j == i then a else f j

abbrev pub set_entry : ℕ → Entry → Mem → Mem
set_entry r e m = record m { vm = put m.vm r e }

unfoldable pub get_id : ℕ → Mem → Result Error (Option ℕ)
get_id x m = elim (m.heap x) [ none ↦ error invalid | some h ↦ okay h.id ]

unfoldable pub set_id : Option ℕ → Option ℕ → (ℕ → Option Head) → ℕ → Option Head
set_id none id heap = heap
set_id (some p) id heap = elim (heap p) [
  | none ↦ heap
  | some h ↦ put heap p (some (record h { id = id }))
]

-- The index in the header at a pointer, `none` where there is no header.
unfoldable pub id_at : Option ℕ → (ℕ → Option Head) → Option ℕ
id_at none heap = none
id_at (some p) heap = elim (heap p) [ none ↦ none | some h ↦ h.id ]

unfoldable pub set_len : ℕ → ℕ → Mem → Mem
set_len x n m = elim (m.heap x) [
  | none ↦ m
  | some h ↦ record m { heap = put m.heap x (some (record h { len = n })) }
]

unfoldable pub add_ord : ℕ → Mem → Mem
add_ord r m = record m {
  vm = put m.vm r (record (m.vm r) { next = m.first_ord });
  first_ord = some r;
}

unfoldable pub release : ℕ → Mem → Mem
release r m =
    let freed = record (m.vm r) {
      ptr = none;
      is_free = true;
      is_file = false;
      is_dir = false;
      is_process = false;
      next = m.first_free;
    } in
    record m { vm = put m.vm r freed; first_free = some r }

-- The entries `r` and `f` trade places but for their `next`, and the headers follow.
unfoldable pub swap : ℕ → ℕ → Mem → Mem
swap r f m =
    let er = m.vm r in
    let ef = m.vm f in
    record m {
      vm = put (put m.vm r (record ef { next = er.next })) f (record er { next = ef.next });
      heap = set_id er.ptr (id_at ef.ptr m.heap) (set_id ef.ptr (id_at er.ptr m.heap) m.heap);
    }

unfoldable pub del_ord : ℕ → Mem → Result Error (ℕ × Mem)
del_ord r m = elim m.first_ord [
  | none ↦ error invalid
  | some f ↦ okay (
      if r == f
      then (r, record m { first_ord = (m.vm f).next })
      else (f, record (swap r f m) { first_ord = (m.vm f).next }))
]

-- Where an entry goes: that of a process block is in no list.
unfoldable pub place : Bool → ℕ → Mem → Mem
place true r m = m
place false r m = add_ord r m

-- An entry for the block at `p`, at the index `r` that was taken for it.
unfoldable pub fill : ℕ → ℕ → Mem → Mem
fill p r m =
    let e = record (m.vm r) {
      ptr = some p;
      is_free = false;
      is_file = false;
      is_dir = false;
      ref = 0;
      is_process = m.process;
    } in
    place m.process r (set_entry r e m)

-- The table with room for one more entry.
unfoldable pub extend : Bool → Mem → Result Error Mem
extend grows m =
    let grown = record m { curr = suc m.curr } in
    if ltb (suc m.curr) m.tot
    then okay grown
    else if leb (max_mem - 1) (m.tot + mem_size)
    then error too_many_variables
    else if grows
    then okay (record grown { tot = m.tot + mem_size })
    else error out_of_memory

unfoldable pub add_mem : Bool → ℕ → Mem → Result Error (ℕ × Mem)
add_mem grows p m = elim m.first_free [
  | some r ↦ okay (r, fill p r (record m { first_free = (m.vm r).next }))
  | none ↦ elim (extend grows m) [ error e ↦ error e | okay g ↦ okay (m.curr, fill p m.curr g) ]
]

-- rim_vmset and rim_mem_set_len of a block.
unfoldable pub vmset : ℕ → ℕ → ℕ → Mem → Mem
vmset p r size m = record m { heap = put m.heap p (some (record { id = some r; len = size })) }

unfoldable pub malloc : Bool → ℕ → Option ℕ → Mem → Result Error (ℕ × Mem)
malloc grows size none m = error out_of_memory
malloc grows size (some p) m = elim (add_mem grows p m) [
  | error e ↦ error e
  | okay (r, g) ↦ okay (p, vmset p r size g)
]

unfoldable pub calloc : Bool → ℕ → ℕ → Option ℕ → Mem → Result Error (ℕ × Mem)
calloc grows nmemb size p m = malloc grows (nmemb * size % 2 ^ 64) p m

-- `free`
abbrev pub give_back : ℕ → Mem → Mem
give_back x m = record m { heap = put m.heap x none }

unfoldable pub free_entry : ℕ → ℕ → Mem → Result Error Mem
free_entry x r m = elim (del_ord r m) [
  | error e ↦ error e
  | okay (f, g) ↦ okay (release f (give_back x g))
]

unfoldable pub free_int : Option ℕ → Mem → Result Error Mem
free_int none m = okay m
free_int (some x) m = elim (get_id x m) [
  | error e ↦ error e
  | okay none ↦ okay m
  | okay (some r) ↦ free_entry x r m
]

unfoldable pub free : ℕ → Mem → Result Error Mem
free x m = elim (get_id x m) [
  | error e ↦ error e
  | okay none ↦ okay m
  | okay (some r) ↦ if (m.vm r).is_process || ltb 0 (m.vm r).ref then okay m else free_entry x r m
]
