-- ===== src/Hash/Create.antt =====
-- hash.c: a new hash, the start of a traversal, and purging.
use rimstone.Base.{
  ℕ, ◌+◌, ◌≤◌, ◌≡◌, refl, sym, ap, ◌∙◌, Bool, none, [], ◌∷◌, ◌++◌, arith, length, drop,
  length-replicate, get_or-replicate, flatten-replicate,
}
use mathlib.Core.List.{flatten}
use rimstone.Base.Results.{ℤ, pos, negsuc}
use rimstone.Base.Words.{Bytes}
use rimstone.Hash.{Hash, bucket_count, rewind, create_hash, purge, at_address}
use rimstone.Hash.Key.{compute_hash}
use rimstone.Hash.Links.{Bucket, head_of, lookup, count}
use rimstone.Hash.Table.{bucket, view, IsValid, beside-IsValid}
use rimstone.Hash.Traverse.{
  remaining, IsTraversed, position-head, at_address-head, drop-get_or, StandsAt,
}

bucket_count_wide : (size : ℤ) → 256 ≤ bucket_count size
unfolding bucket_count
bucket_count_wide (pos size) = ground arith
bucket_count_wide (negsuc n) = omega arith

bucket_count_same : (n : ℕ) → 256 ≤ n → bucket_count (pos n) ≡ n
unfolding bucket_count
bucket_count_same n h = ground arith

no_count : (V : Type 0) (q : Bytes) → count {V = V} q [] ≡ 0
unfolding count
no_count V q = refl

module _ {V : Type 0} where
  -- A new hash is valid and has no entry.
  pub create_hash-IsValid :
      (size : ℤ) (process : Bool) (fresh : ℕ)
      → IsValid {V = V} (create_hash size none process fresh)
  unfolding create_hash rewind
  create_hash-IsValid size process fresh =
      let n = bucket_count size in
      let blank = λ (i : ℕ). get_or-replicate {A = Bucket V} n i [] in
      record {
        width = length-replicate n [];
        wide = bucket_count_wide size;
        total = sym (ap length (flatten-replicate n));
        single = λ q i. rw (blank i) (omega (arith, no_count V q));
        placed = λ q i _. rw (blank i) (no_count V q);
        distinct = λ i. rw (blank i) tt;
        unused = λ i a _. rw (blank i) refl;
        texts = λ i. rw (blank i) tt;
      }

  pub create_hash-view :
      (size : ℤ) (process : Bool) (fresh : ℕ) (q : Bytes)
      → view {V = V} (create_hash size none process fresh) q ≡ none
  unfolding create_hash rewind view lookup
  create_hash-view size process fresh q =
      ap (lookup q) (get_or-replicate (bucket_count size) (compute_hash q (bucket_count size)) [])

  -- Purging a valid hash leaves a valid hash with as many buckets and the same scope and
  -- statistics, in which no key has data.
  pub purge-view :
      (h : Hash V)
      → IsValid h
      → IsValid (purge h)
        × ((q : Bytes) → view (purge h) q ≡ none)
        × ((purge h).tot ≡ 0)
        × ((purge h).num_buckets ≡ h.num_buckets)
        × ((purge h).process ≡ h.process)
        × ((purge h).hits ≡ h.hits)
        × ((purge h).reads ≡ h.reads)
  unfolding purge create_hash rewind view
  purge-view h v =
      let new : Hash V = create_hash (pos h.num_buckets) none h.process h.fresh in
      (
        beside-IsValid new h.hits h.reads new.dnext new.dcurr new.dprev h.process
            (create_hash-IsValid (pos h.num_buckets) h.process h.fresh),
        create_hash-view (pos h.num_buckets) h.process h.fresh,
        refl,
        bucket_count_same h.num_buckets v.wide,
        refl,
        refl,
        refl,
      )

  stands_start :
      (h : Hash V) → IsValid h → (b : Bucket V) → bucket h 0 ≡ b → StandsAt h 0 (head_of b)
  stands_start h v [] e = omega arith
  stands_start h v (x ∷ b) e =
      (omega (arith, v.wide), (x, b, ap (at_address x.address) e ∙ at_address-head x b))

  pub rewind-IsTraversed : (h : Hash V) → IsValid h → IsTraversed (rewind h)
  unfolding rewind
  rewind-IsTraversed h v = record {
    width = v.width;
    distinct = v.distinct;
    stands = stands_start h v (bucket h 0) refl;
  }

  pub rewind-remaining : (h : Hash V) → IsValid h → remaining (rewind h) ≡ flatten h.table
  unfolding rewind remaining flatten
  rewind-remaining h v =
      ap (λ b. b ++ flatten (drop (0 + 1) h.table)) (position-head (bucket h 0))
      ∙ sym (ap flatten (drop-get_or h.table 0 [] (omega (arith, v.width, v.wide))))
