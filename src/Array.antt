-- ===== src/Array.antt =====
-- arr.c: the growing arrays of numbers, doubles, Booleans and strings, which differ in the
-- element type and its default only, and the assignment that v1.c generates after a call of
-- the write function.
pub mod Access
mod Tests
use rimstone.Base.{
  ℕ, ◌+◌, ◌-◌, ◌*◌, min, max, Bool, List, ◌++◌, ltb, leb, ◌==◌, if◌then◌else◌, get_or, set, take,
  replicate,
}
use rimstone.Base.Results.{ℤ, pos, negsuc, Result, error, okay}

abbrev pub array_inc : ℕ
array_inc = 256

pub data Error : Type 0 where
  negative_size : Error
  negative_index : Error
  index_too_large : Error

-- `elems` is the allocated block.
pub record Array (A : Type 0) : Type 0 where
  pub elems : List A
  pub max_elem : ℕ
  pub alloc_elem : ℕ
  pub tot_elem : ℕ
  pub process : Bool

-- The sizes that the write function allocates for an index.
unfoldable pub new_alloc : ℕ → ℕ → ℕ
new_alloc max_elem key = min (if ltb key 65536 then key * 2 else key + 65536) max_elem

-- The limit that a new array gets.
unfoldable pub new_max : ℕ → ℕ
new_max max_elem = max (if max_elem == 0 then 1000000 else max_elem) array_inc

module _ {A : Type 0} where
  unfoldable pub count_elem : ℕ → Array A → Array A
  count_elem key arr = record arr {
    tot_elem = if leb arr.tot_elem key then key + 1 else arr.tot_elem;
  }

  -- The statement `write-array`, whose value may use the old one that the call of the write
  -- function handed back.
  unfoldable pub assign : ℤ → (A → A) → Result Error (A × Array A) → Result Error (Array A)
  assign (pos key) value (okay (old, arr)) =
      okay (record arr { elems = set arr.elems key (value old) })
  assign (negsuc _) value (okay (old, arr)) = okay arr
  assign index value (error e) = error e

-- `blank` is the default: zero, 0.0, false or the empty string.
module _ {A : Type 0} (blank : A) where
  unfoldable pub init_array : ℕ → Bool → Array A
  init_array max_elem process = record {
    elems = replicate array_inc blank;
    max_elem = new_max max_elem;
    alloc_elem = array_inc;
    tot_elem = 0;
    process = process;
  }

  unfoldable pub new_array : ℤ → Bool → Result Error (Array A)
  new_array (pos max_elem) process = okay (init_array max_elem process)
  new_array (negsuc _) process = error negative_size

  unfoldable pub purge : Array A → Array A
  purge arr = init_array arr.max_elem arr.process

  -- The block after `rim_realloc`, with the elements past the old size blank.
  unfoldable pub grow : ℕ → Array A → Array A
  grow alloc arr = record arr {
    elems = take alloc arr.elems ++ replicate (alloc - arr.alloc_elem) blank;
    alloc_elem = alloc;
  }

  unfoldable pub reserve : ℕ → Array A → Array A
  reserve key arr = if leb arr.alloc_elem key then grow (new_alloc arr.max_elem key) arr else arr

  -- The old value, and the array with room for the index. `hand_back` is what the caller's variable
  -- has after `*old_val = arr->...[key]`: the element itself, but for doubles, where old_val is a
  -- `rim_num *`, the element cut to a whole number, whose bits stand in a variable for a double.
  unfoldable pub write : (A → A) → Array A → ℤ → Result Error (A × Array A)
  write hand_back arr (negsuc _) = error negative_index
  write hand_back arr (pos key) =
      if leb arr.max_elem key
      then error index_too_large
      else let arr' = count_elem key (reserve key arr) in
        okay (hand_back (get_or arr'.elems key blank), arr')

  unfoldable pub write_array : (A → A) → Array A → ℤ → (A → A) → Result Error (Array A)
  write_array hand_back arr index value = assign index value (write hand_back arr index)

  unfoldable pub read : Array A → ℤ → Result Error A
  read arr (negsuc _) = error negative_index
  read arr (pos key) =
      if leb arr.max_elem key
      then error index_too_large
      else if leb arr.alloc_elem key
      then okay blank
      else okay (get_or arr.elems key blank)
