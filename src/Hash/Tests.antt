-- ===== src/Hash/Tests.antt =====
-- hash.c: a hash of numbers under the keys "ba" and "ed", which share a bucket.
use rimstone.Base.{
  ℕ, ◌+◌, ◌≤◌, ◌≡◌, refl, true, false, Option, none, some, [], ◌∷◌, arith, length, replicate,
}
use mathlib.Core.Option
use rimstone.Base.Results.{pos}
use rimstone.Base.Words.{Bytes, NulFree, codes, c_string, equal_bytes}
use rimstone.Hash.{
  Status, Hash, bucket_count, rewind, create_hash, del_hash_entry, conclude_find, find_hash,
  conclude_add, add_hash, seek, advance, at_address, yield_entry, read_current, next_hash,
  resize_hash, hash_reads, hash_get,
}
use rimstone.Hash.Create.{create_hash-IsValid}
use rimstone.Hash.Key.{same, compute_hash, fnv, matches}
use rimstone.Hash.Links.{
  Entry, Bucket, lookup, count, after, relink, unlink, search_bucket, replace,
}
use rimstone.Hash.Resize.{read_all, pairs, read_all-view, resize_hash-view}
use rimstone.Hash.Stale.{standing, next_hash-stale}
use rimstone.Hash.Table.{view, bucket, IsValid}
use rimstone.Hash.Update.{add_hash-view}
use rimstone.Hash.Find.{Searched, find_hash-view}

abbrev empty : Hash ℕ
empty = create_hash (pos 0) none false 100

empty-IsValid : IsValid empty
empty-IsValid = create_hash-IsValid (pos 0) false 100

abbrev ba : Bytes
ba = codes "ba"

abbrev ed : Bytes
ed = codes "ed"

ba-NulFree : NulFree ba
ba-NulFree = omega arith

ed-NulFree : NulFree ed
ed-NulFree = omega arith

abbrev one : Hash ℕ
one = (add_hash empty ba 1 false).0

one-IsValid : IsValid one
one-IsValid = (add_hash-view empty ba 1 false empty-IsValid ba-NulFree).valid

abbrev two : Hash ℕ
two = (add_hash one ed 2 false).0

two-IsValid : IsValid two
two-IsValid = (add_hash-view one ed 2 false one-IsValid ed-NulFree).valid

find_hash-view_example : Searched two ba true (find_hash two ba true true)
find_hash-view_example = find_hash-view two ba true true two-IsValid ba-NulFree

read_all-view_example :
    (es : Bucket ℕ) × (read_all (two.tot + 1) (rewind two) ≡ some (pairs es))
    × (length es ≡ two.tot)
    × ((q : Bytes) → count q es ≤ 1)
    × ((q : Bytes) → lookup q es ≡ view two q)
read_all-view_example = read_all-view two two-IsValid

resize_hash-view_example :
    (out : Hash ℕ) × (resize_hash two (pos 300) ≡ some out)
    × IsValid out
    × (out.num_buckets ≡ bucket_count (pos 300))
    × ((q : Bytes) → view out q ≡ view two q)
    × (out.tot ≡ two.tot)
    × (out.hits ≡ two.hits)
    × (out.reads ≡ two.reads)
resize_hash-view_example = resize_hash-view two (pos 300) two-IsValid

program : Unit {0}
unfolding c_string equal_bytes bucket_count rewind create_hash del_hash_entry conclude_find
    find_hash conclude_add add_hash seek advance at_address yield_entry read_current next_hash
    hash_get fnv compute_hash same matches after relink unlink search_bucket replace replicate view
    lookup
program = tt

one-view : view one ba ≡ some 1
unfolding program
one-view = refl

abbrev entry_ba : Entry ℕ
entry_ba = record { address = 100; key = ba; value = 1 }

abbrev entry_ed : Entry ℕ
entry_ed = record { address = 101; key = ed; value = 2 }

shared_bucket : bucket two (compute_hash ed two.num_buckets) ≡ entry_ed ∷ entry_ba ∷ []
unfolding program
shared_bucket = refl

next_hash-stale_example :
    let i = compute_hash ed two.num_buckets in
    let h1 = (find_hash (standing two i entry_ed entry_ba) ed true true).0 in
    (h2 : Hash ℕ) × (next_hash h1 true ≡ some (h2, some (ba, 1), Status.okay))
    × (h2.tot + 2 ≡ two.tot)
    × (bucket h2 i ≡ entry_ba ∷ [])
next_hash-stale_example = next_hash-stale two true entry_ed entry_ba [] two-IsValid shared_bucket

-- The same state, reached by reading one entry.
stands_run :
    Option.map (λ (r : Hash ℕ × Option (Bytes × ℕ) × Status). r.0) (next_hash (rewind two) false)
    ≡ some (standing two 204 entry_ed entry_ba)
unfolding program
stands_run = refl

hash_of_a_run : compute_hash (codes "a") 256 ≡ 44
unfolding program
hash_of_a_run = refl

replaced_run : (add_hash two ba 9 true).1 ≡ some 1
unfolding program
replaced_run = refl

deleted_run : hash_get (find_hash two ed true true).0 ed ≡ none
unfolding program
deleted_run = refl

reads_run : hash_reads (find_hash two ba false true).0 ≡ 200
unfolding program hash_reads
reads_run = refl
