-- ===== src/Hash.antt =====
-- hash.c: hash tables of texts. A bucket is the list of its entries (Hash/Links.antt), a pointer
-- to an entry is its address, and `fresh` is the address that the next allocation returns. What
-- an entry's key and data are counted for is left to the memory.
pub mod Key
pub mod Links
pub mod Search
pub mod Table
pub mod Update
pub mod Find
pub mod Traverse
pub mod Steps
pub mod Flatten
pub mod Create
pub mod Resize
pub mod Lost
pub mod Stale
mod Tests
use rimstone.Base.{
  ℕ, zero, suc, ◌+◌, ◌-◌, ◌*◌, ◌/◌, ◌^◌, Bool, true, false, Option, none, some, List, ◌∷◌, map, ltb,
  ◌==◌, if◌then◌else◌, get_or, set, replicate, [],
}
use mathlib.Core.Option
use rimstone.Base.Results.{ℤ, pos, negsuc}
use rimstone.Base.Words.{Bytes}
use rimstone.Hash.Links.{Entry, Bucket, head_of, after, unlink, search_bucket, replace}
use rimstone.Hash.Key.{compute_hash}

-- RIM_OKAY, RIM_ERR_EXIST and RIM_INFO_EXIST
pub data Status : Type 0 where
  okay err_exist info_exist : Status

-- rim_hash
pub record Hash (V : Type 0) : Type 0 where
  pub num_buckets : ℕ
  pub table : List (Bucket V)
  pub dnext : ℕ
  pub dcurr : Option ℕ
  pub dprev : Option ℕ
  pub tot : ℕ
  pub hits : ℕ
  pub reads : ℕ
  pub process : Bool
  pub fresh : ℕ

-- The size that a new hash gets.
unfoldable pub bucket_count : ℤ → ℕ
bucket_count (pos size) = if ltb size 256 then 256 else size
bucket_count (negsuc _) = 256

module _ {V : Type 0} where
  unfoldable pub rewind : Hash V → Hash V
  rewind h = record h { dnext = 0; dcurr = head_of (get_or h.table 0 []); dprev = none }

  -- `in_h` is the table that the caller has made, or none.
  unfoldable pub create_hash : ℤ → Option (List (Bucket V)) → Bool → ℕ → Hash V
  create_hash size in_h process fresh =
      let n = bucket_count size in
      rewind (record {
        num_buckets = n;
        table = elim in_h [ none ↦ replicate n [] | some table ↦ table ];
        dnext = 0;
        dcurr = none;
        dprev = none;
        tot = 0;
        hits = 0;
        reads = 0;
        process = process;
        fresh = fresh;
      })

  -- rim_delete_hash of a hash that the program goes on using
  unfoldable pub purge : Hash V → Hash V
  purge h = record (create_hash (pos h.num_buckets) none h.process h.fresh) {
    hits = h.hits;
    reads = h.reads;
    process = h.process;
  }

  -- rim_del_hash_entry of the entry `todel` in bucket `i`, which every call knows
  unfoldable pub del_hash_entry : Hash V → ℕ → Option ℕ → ℕ → Hash V
  del_hash_entry h i prev todel =
      let bucket = get_or h.table i [] in
      let is_current : Bool = elim h.dcurr [ none ↦ false | some a ↦ a == todel ] in
      record h {
        table = set h.table i (unlink prev todel bucket);
        dcurr = if is_current then head_of (after todel bucket) else h.dcurr;
        tot = h.tot - 1;
      }

  -- What rim_find_hash does with the result of its loop.
  unfoldable pub conclude_find :
      Hash V → ℕ → Bool → Option (Option ℕ × Entry V) → Hash V × Option V × Status
  conclude_find h i del none = (h, none, err_exist)
  conclude_find h i del (some (prev, e)) =
      (if del then del_hash_entry h i prev e.address else h, some e.value, okay)

  -- The data are none where the function returns the empty string.
  unfoldable pub find_hash : Hash V → Bytes → Bool → Bool → Hash V × Option V × Status
  find_hash h key del is_rim =
      let i = compute_hash key h.num_buckets in
      let (found, n) = search_bucket is_rim key none (get_or h.table i []) in
      conclude_find (record h { hits = h.hits + 1; reads = h.reads + n }) i del found

  -- What rim_add_hash does with the result of its loop; `ask_old` tells that the caller wants the
  -- old data. An empty bucket has no entry to look at and gets its first one the same way.
  unfoldable pub conclude_add :
      Hash V → ℕ → Bytes → V → Bool → Option (V × Bucket V) → Hash V × Option V × Status
  conclude_add h i key v ask_old (some (old, bucket)) = (
    record h { table = set h.table i bucket },
    if ask_old then some old else none,
    if ask_old then info_exist else okay,
  )
  conclude_add h i key v ask_old none =
      let e : Entry V = record { address = h.fresh; key = key; value = v } in
      (
        record h {
          table = set h.table i (e ∷ get_or h.table i []);
          tot = h.tot + 1;
          fresh = h.fresh + 1;
        },
        none,
        okay,
      )

  unfoldable pub add_hash : Hash V → Bytes → V → Bool → Hash V × Option V × Status
  add_hash h key v ask_old =
      let i = compute_hash key h.num_buckets in
      conclude_add h i key v ask_old (replace key v (get_or h.table i []))

  -- The loop of rim_next_hash over the buckets from `i` on, of which `n` are left.
  unfoldable pub seek : ℕ → ℕ → List (Bucket V) → ℕ × Option ℕ
  seek zero i table = (i, none)
  seek (suc n) i table =
      let rest = seek n (i + 1) table in
      elim (head_of (get_or table i [])) [ none ↦ rest | some a ↦ (i, some a) ]

  -- The traversal moved on to an entry, if it stands behind the end of a bucket.
  unfoldable pub advance : Hash V → Hash V
  advance h = elim h.dcurr [
    | some a ↦ h
    | none ↦
        let (i, current) = seek (h.num_buckets - (h.dnext + 1)) (h.dnext + 1) h.table in
        record h { dnext = i; dcurr = current; dprev = none }
  ]

  -- The entry that a pointer leads to, with all behind it.
  unfoldable pub at_address : ℕ → Bucket V → Bucket V
  at_address a [] = []
  at_address a (e ∷ es) = let rest = at_address a es in if e.address == a then e ∷ es else rest

  -- What rim_next_hash does with the entry that it reads.
  unfoldable pub yield_entry :
      Hash V → Bool → Bucket V → Option (Hash V × Option (Bytes × V) × Status)
  yield_entry h del [] = none
  yield_entry h del (e ∷ es) = some (
    if del
        then del_hash_entry h h.dnext h.dprev e.address
        else record h { dprev = some e.address; dcurr = head_of es },
    some (e.key, e.value),
    okay,
  )

  -- rim_next_hash once it stands at an entry, or at the end; none where `dcurr` leads to no entry
  -- of the hash.
  unfoldable pub read_current : Hash V → Bool → Option (Hash V × Option (Bytes × V) × Status)
  read_current h del = elim h.dcurr [
    | none ↦ some (h, none, err_exist)
    | some a ↦ yield_entry h del (at_address a (get_or h.table h.dnext []))
  ]

  unfoldable pub next_hash : Hash V → Bool → Option (Hash V × Option (Bytes × V) × Status)
  next_hash h del =
      if h.dnext == h.num_buckets then some (h, none, err_exist) else read_current (advance h) del

  -- The loop of rim_resize_hash on fuel, from the old hash to the new one.
  unfoldable pub copy_hash : ℕ → Hash V → Hash V → Option (Hash V)
  copy_hash zero old new = none
  copy_hash (suc n) old new = elim (next_hash old false) [
    | none ↦ none
    | some (old', none, _) ↦ some new
    | some (old', some (key, v), _) ↦ copy_hash n old' (add_hash new key v false).0
  ]

  unfoldable pub resize_hash : Hash V → ℤ → Option (Hash V)
  resize_hash h size =
      Option.map (λ (new : Hash V). record new { hits = h.hits; reads = h.reads })
        (copy_hash (h.tot + 1) (rewind h) (create_hash size none h.process h.fresh))

  -- The quotient of two doubles, exact for a hundred times the reads below 2 ^ 52.
  unfoldable pub hash_reads : Hash V → ℕ
  hash_reads h = if h.hits == 0 then 0 else 100 * h.reads / h.hits

  unfoldable pub hash_get : Hash V → Bytes → Option V
  hash_get h key = (find_hash h key false true).1
