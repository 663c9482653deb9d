-- ===== src/Memory/Growing.antt =====
-- rimmem.c: rim_realloc, rim_strdupl and rim_strdup.
use rimstone.Base.{
  ℕ, ◌+◌, ◌-◌, Bool, true, false, ◌||◌, Option, none, some, ltb, ◌==◌, if◌then◌else◌,
}
use rimstone.Base.Results.{Result, error, okay, ℤ, pos, negsuc}
use rimstone.Memory.{
  Mem, Error, out_of_memory, bad_range, put, set_entry, set_len, release, del_ord, add_mem, vmset,
  malloc,
}

-- The bits of rim_mem_set_status that are set.
unfoldable pub set_status : Option ℕ → Bool → Bool → Bool → Mem → Mem
set_status none file dir process m = m
set_status (some r) file dir process m =
    let e = m.vm r in
    set_entry r
      (record e {
        is_file = e.is_file || file;
        is_dir = e.is_dir || dir;
        is_process = e.is_process || process;
      })
      m

unfoldable pub get_process : Option ℕ → Mem → Bool
get_process none m = true
get_process (some r) m = (m.vm r).is_process

unfoldable pub is_at : Option ℕ → ℕ → Bool
is_at none q = false
is_at (some p) q = p == q

-- libc's realloc moved the block of `r` to `q`, with its header.
unfoldable pub move : ℕ → ℕ → Mem → Mem
move r q m =
    let e = m.vm r in
    record m {
      vm = put m.vm r (record e { ptr = some q });
      heap = elim e.ptr [ none ↦ m.heap | some p ↦ put (put m.heap q (m.heap p)) p none ];
    }

-- The entry of a block that moves goes out of its list.
unfoldable pub take_out : Bool → ℕ → Mem → Result Error (ℕ × Mem)
take_out true r m = okay (r, m)
take_out false r m = del_ord r m

unfoldable pub make_status : Bool → ℕ → Mem → Mem
make_status true r m = set_status (some r) false false true m
make_status false r m = m

-- The block at `q` gets an entry, with its status and references of before; rim_vmset and
-- rim_mem_set_len of it.
unfoldable pub put_in : Bool → Bool → ℕ → ℕ → ℕ → Mem → Result Error (ℕ × Mem)
put_in grows process count size q m = elim (add_mem grows q m) [
  | error e ↦ error e
  | okay (r, g) ↦
      let k = make_status process r (vmset q r size g) in
      okay (q, set_entry r (record (k.vm r) { ref = count }) k)
]

unfoldable pub after_take_out :
    Bool → Bool → ℕ → ℕ → ℕ → Result Error (ℕ × Mem) → Result Error (ℕ × Mem)
after_take_out grows process count size q (error e) = error e
after_take_out grows process count size q (okay (f, g)) =
    put_in grows process count size q (release f g)

unfoldable pub move_entry : Bool → ℕ → ℕ → ℕ → Mem → Result Error (ℕ × Mem)
move_entry grows r size q m =
    let process = get_process (some r) m in
    after_take_out grows process (m.vm r).ref size q (take_out process r (move r q m))

-- The last but one argument is what libc's realloc returns, or malloc for the empty string.
unfoldable pub realloc : Bool → Option ℕ → ℕ → Option ℕ → Mem → Result Error (ℕ × Mem)
realloc grows none size p m = malloc grows size p m
realloc grows (some r) size none m = error out_of_memory
realloc grows (some r) size (some q) m =
    let moved = move_entry grows r size q m in
    if is_at (m.vm r).ptr q then okay (q, set_len q size m) else moved

-- The number of bytes from `from` to `l`, both counted, or an error.
unfoldable pub span_of : ℤ → ℤ → Result Error ℕ
span_of (negsuc _) l = error bad_range
span_of (pos from) (negsuc _) = error bad_range
span_of (pos from) (pos l) = if ltb l from then error bad_range else okay (l + 1 - from)

-- The allocation of rim_strdupl; the bytes are left out.
unfoldable pub strdupl : Bool → ℤ → ℤ → Option ℕ → Mem → Result Error (ℕ × Mem)
strdupl grows from l p m = elim (span_of from l) [ error e ↦ error e | okay n ↦ malloc grows n p m ]

-- The allocation of rim_strdup, for a string of `l` bytes, or the empty string itself.
unfoldable pub strdup : Bool → Option ℕ → ℕ → Option ℕ → Mem → Result Error (ℕ × Mem)
strdup grows (some empty_string) l p m = okay (empty_string, m)
strdup grows none l p m = malloc grows (l + 1) p m
