-- ===== src/Hash/Update.antt =====
-- hash.c: additions against the data that a hash stands for.
use rimstone.Base.{
  ℕ, ◌+◌, ◌≡◌, refl, ◌∙◌, inl, inr, Bool, Option, none, some, ◌∷◌, arith, if◌then◌else◌,
}
use rimstone.Base.Words.{Bytes, NulFree}
use rimstone.Hash.{Status, info_exist, Hash, conclude_add, add_hash}
use rimstone.Hash.Key.{same, compute_hash}
use rimstone.Hash.Links.{
  Entry, Bucket, lookup, count, Replaced, replace-cases, count-zero, count-same,
}
use rimstone.Hash.Table.{view, bucket, IsValid, Rewrites, write-IsValid, write-view}

module _ {V : Type 0} where
  -- What rim_add_hash answers, by the data that the key had.
  abbrev pub add_answer : Bool → Option V → Option V × Status
  add_answer ask_old none = (none, Status.okay)
  add_answer ask_old (some old) =
      (if ask_old then some old else none, if ask_old then info_exist else Status.okay)

  -- How many entries a key has.
  abbrev pub entries : Option V → ℕ
  entries none = 0
  entries (some v) = 1

  abbrev pub home : Hash V → Bytes → ℕ
  home h k = compute_hash k h.num_buckets

  abbrev new_entry : Hash V → Bytes → V → Entry V
  new_entry h k v = record { address = h.fresh; key = k; value = v }

  -- What an addition leaves, with its answer.
  pub record Added (h : Hash V) (k : Bytes) (v : V) (ask_old : Bool)
      (out : Hash V × Option V × Status) : Type 0 where
    pub valid : IsValid out.0
    pub reads : (q : Bytes) → view out.0 q ≡ (if same q k then some v else view h q)
    pub total : out.0.tot + entries (view h k) ≡ h.tot + 1
    pub answer : (out.1, out.2) ≡ add_answer ask_old (view h k)
    pub same_size : out.0.num_buckets ≡ h.num_buckets
    pub uncounted : (out.0.hits ≡ h.hits) × (out.0.reads ≡ h.reads)

  insert_Rewrites :
      (h : Hash V) (k : Bytes) (v : V)
      → IsValid h
      → NulFree k
      → count k (bucket h (home h k)) ≡ 0
      → Rewrites k
          (some v)
          h.fresh
          (h.fresh + 1)
          (bucket h (home h k))
          (new_entry h k v ∷ bucket h (home h k))
  unfolding lookup count
  insert_Rewrites h k v valid t new = record {
    reads = λ q. refl;
    counts = λ q. ground (arith, count-same q k (bucket h (home h k)), new);
    distinct = (valid.unused (home h k) h.fresh (omega arith), valid.distinct (home h k));
    later = omega arith;
    unused = λ a m. ground (arith, valid.unused (home h k) a);
    texts = (t, valid.texts (home h k));
  }

  replace_Rewrites :
      (h : Hash V) (k : Bytes) (v : V) (old : V) (c : Bucket V)
      → IsValid h
      → NulFree k
      → Replaced k v (bucket h (home h k)) old c
      → Rewrites k (some v) h.fresh h.fresh (bucket h (home h k)) c
  replace_Rewrites h k v old c valid t r = record {
    reads = r.reads;
    counts = λ q. ground (arith, r.counts q, valid.single q (home h k));
    distinct = r.distinct (valid.distinct (home h k));
    later = omega arith;
    unused = λ a m. r.addresses a ∙ valid.unused (home h k) a m;
    texts = r.texts t (valid.texts (home h k));
  }

  insert_Added :
      (h : Hash V) (k : Bytes) (v : V) (ask_old : Bool)
      → IsValid h
      → NulFree k
      → count k (bucket h (home h k)) ≡ 0
      → Added h k v ask_old (conclude_add h (home h k) k v ask_old none)
  unfolding conclude_add view
  insert_Added h k v ask_old valid t new =
      let c = new_entry h k v ∷ bucket h (home h k) in
      let h' = (conclude_add h (home h k) k v ask_old none).0 in
      let r = insert_Rewrites h k v valid t new in
      let absent = count-zero k (bucket h (home h k)) new in
      record {
        valid = write-IsValid h h' k (some v) c valid refl refl (omega arith) r;
        reads = write-view h h' k (some v) c valid refl refl (omega arith) r;
        total = rw absent (omega arith);
        answer = rw absent refl;
        same_size = refl;
        uncounted = (refl, refl);
      }

  replace_Added :
      (h : Hash V) (k : Bytes) (v : V) (ask_old : Bool) (old : V) (c : Bucket V)
      → IsValid h
      → NulFree k
      → Replaced k v (bucket h (home h k)) old c
      → Added h k v ask_old (conclude_add h (home h k) k v ask_old (some (old, c)))
  unfolding conclude_add view
  replace_Added h k v ask_old old c valid t p =
      let h' = (conclude_add h (home h k) k v ask_old (some (old, c))).0 in
      let r = replace_Rewrites h k v old c valid t p in
      record {
        valid = write-IsValid h h' k (some v) c valid refl refl (omega (arith, p.size)) r;
        reads = write-view h h' k (some v) c valid refl refl (omega (arith, p.size)) r;
        total = rw p.had (omega arith);
        answer = rw p.had refl;
        same_size = refl;
        uncounted = (refl, refl);
      }

  pub add_hash-view :
      (h : Hash V) (k : Bytes) (v : V) (ask_old : Bool)
      → IsValid h
      → NulFree k
      → Added h k v ask_old (add_hash h k v ask_old)
  unfolding add_hash
  add_hash-view h k v ask_old valid t = elim (replace-cases k v (bucket h (home h k))) [
    | inl (e, new) ↦ rw e (insert_Added h k v ask_old valid t new)
    | inr (old, c, e, r) ↦ rw e (replace_Added h k v ask_old old c valid t r)
  ]
