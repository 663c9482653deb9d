-- ===== src/Array/Tests.antt =====
-- arr.c: an array of numbers with room for 300, and the theorems at it.
use rimstone.Base.{ℕ, suc, ◌+◌, ◌<◌, max, ◌≡◌, refl, ◌⊎◌, false, arith, ◌==◌, if◌then◌else◌}
use rimstone.Base.Results.{pos, negsuc, okay, error}
use rimstone.Array.{
  Array, array_inc, negative_size, init_array, new_array, write_array, read, new_max,
}
use rimstone.Array.Access.{IsValid, init_array-IsValid, write_array-read, new_array-IsValid}

abbrev small : Array ℕ
small = init_array 0 300 false

small-IsValid : IsValid 0 small
small-IsValid = init_array-IsValid 0 300 false

small_max : small.max_elem ≡ 300
unfolding init_array new_max
small_max = refl

-- The index 299 makes the block grow to the limit; the elements are handed back themselves.
write_array-read_example :
    (arr' : Array ℕ) × (old : ℕ) × (write_array 0 (λ a. a) small (pos 299) suc ≡ okay arr')
    × (read 0 small (pos 299) ≡ okay old)
    × IsValid 0 arr'
    × (arr'.max_elem ≡ small.max_elem)
    × (arr'.tot_elem ≡ max small.tot_elem (299 + 1))
    × ((i : ℕ)
        → i < small.max_elem
        → read 0 arr' (pos i) ≡ (if i == 299 then okay (suc old) else read 0 small (pos i)))
write_array-read_example =
    write_array-read 0 (λ a. a) small 299 suc small-IsValid (omega (arith, small_max))

new_array-IsValid_example :
    ((n : ℕ) × (arr : Array ℕ) × (pos 0 ≡ pos n)
      × (new_array {A = ℕ} 9 (pos 0) false ≡ okay arr)
      × IsValid 9 arr
      × (arr.tot_elem ≡ 0)
      × (arr.process ≡ false)
      × ((i : ℕ) → i < arr.max_elem → read 9 arr (pos i) ≡ okay 9)
      × (arr.max_elem ≡ (if n == 0 then 1000000 else max n array_inc)))
    ⊎ ((n : ℕ) × (pos 0 ≡ negsuc n) × (new_array {A = ℕ} 9 (pos 0) false ≡ error negative_size))
new_array-IsValid_example = new_array-IsValid 9 (pos 0) false
