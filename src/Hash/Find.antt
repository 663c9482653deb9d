-- ===== src/Hash/Find.antt =====
-- hash.c: searches and deletions against the data that a hash stands for.
use rimstone.Base.{
  ℕ, ◌+◌, ◌≤◌, ◌≡◌, refl, sym, ap, ◌∙◌, inl, inr, Bool, true, false, ◌&&◌, Option, none, some, [],
  ◌∷◌, arith, ◌==◌, if◌then◌else◌, ==→≡, Bool-cases, length, set,
}
use rimstone.Base.Results.{none≢some}
use rimstone.Base.Words.{Bytes, NulFree}
use rimstone.Hash.{Status, err_exist, Hash, del_hash_entry, conclude_find, find_hash}
use rimstone.Hash.Key.{same, matches-same}
use rimstone.Hash.Links.{
  Entry, Bucket, lookup, count, AreTexts, unlink, count-zero, erase, Erased, erase-Erased,
}
use rimstone.Hash.Search.{Agrees, search-cases}
use rimstone.Hash.Table.{
  view, bucket, IsValid, beside-IsValid, view-same, bucket-le-total, Rewrites, write-IsValid,
  write-view,
}
use rimstone.Hash.Update.{entries, home}

one_left : (n : ℕ) → n ≤ 1 → (n == 0) ≡ false → n ≡ 1
one_left n h e = ground arith

no_entries : (del : Bool) (n : ℕ) → n + (if del then 0 else 0) ≡ n
no_entries del n = ground arith

module _ {V : Type 0} where
  abbrev pub find_answer : Option V → Option V × Status
  find_answer none = (none, err_exist)
  find_answer (some v) = (some v, Status.okay)

  -- What a search leaves, with its answer; `del` tells that the entry is taken out.
  pub record Searched (h : Hash V) (k : Bytes) (del : Bool) (out : Hash V × Option V × Status)
      : Type 0 where
    pub valid : IsValid out.0
    pub reads : (q : Bytes) → view out.0 q ≡ (if del && same q k then none else view h q)
    pub total : out.0.tot + (if del then entries (view h k) else 0) ≡ h.tot
    pub answer : (out.1, out.2) ≡ find_answer (view h k)
    pub counted : (out.0.hits ≡ h.hits + 1) × (out.0.reads ≤ h.reads + length (bucket h (home h k)))

  texts-Agrees :
      (is_rim : Bool) (k : Bytes) (es : Bucket V) → NulFree k → AreTexts es → Agrees is_rim k es
  texts-Agrees is_rim k [] t ts = tt
  texts-Agrees is_rim k (e ∷ es) t (x, ts) =
      (matches-same is_rim k e.key t x, texts-Agrees is_rim k es t ts)

  erase-Rewrites :
      (h : Hash V) (k : Bytes)
      → IsValid h
      → Erased k (bucket h (home h k)) (erase k (bucket h (home h k)))
      → Rewrites k none h.fresh h.fresh (bucket h (home h k)) (erase k (bucket h (home h k)))
  erase-Rewrites h k valid r = record {
    reads = r.reads;
    counts = λ q. ground (arith, r.counts q);
    distinct = r.distinct (valid.distinct (home h k));
    later = omega arith;
    unused = λ a m. r.addresses a (valid.unused (home h k) a m);
    texts = r.texts (valid.texts (home h k));
  }

  -- The statistics are no part of validity and of the data.
  counted_hash : Hash V → ℕ → Hash V
  counted_hash h n = record h { hits = h.hits + 1; reads = h.reads + n }

  counted_hash-IsValid : (h : Hash V) (n : ℕ) → IsValid h → IsValid (counted_hash h n)
  unfolding counted_hash
  counted_hash-IsValid h n v =
      beside-IsValid h (h.hits + 1) (h.reads + n) h.dnext h.dcurr h.dprev h.process v

  pub one_entry :
      (k : Bytes) (es : Bucket V) (v : V) → lookup k es ≡ some v → count k es ≤ 1 → count k es ≡ 1
  one_entry k es v e h = elim (Bool-cases (count k es == 0)) [
    | inl z ↦ absurd (none≢some (sym (count-zero k es (==→≡ (count k es) 0 z)) ∙ e))
    | inr n ↦ one_left (count k es) h n
  ]

  delete_Searched :
      (h : Hash V) (k : Bytes) (p : Option ℕ) (e : Entry V) (n : ℕ)
      → IsValid h
      → lookup k (bucket h (home h k)) ≡ some e.value
      → n ≤ length (bucket h (home h k))
      → unlink p e.address (bucket h (home h k)) ≡ erase k (bucket h (home h k))
      → Searched h k true (conclude_find (counted_hash h n) (home h k) true (some (p, e)))
  unfolding conclude_find del_hash_entry counted_hash view
  delete_Searched h k p e n valid has bound gone =
      let es = bucket h (home h k) in
      let c = erase k es in
      let g = counted_hash h n in
      let h' = (conclude_find g (home h k) true (some (p, e))).0 in
      let erased = erase-Erased k es (one_entry k es e.value has (valid.single k (home h k))) in
      let r = erase-Rewrites h k valid erased in
      let valid' = counted_hash-IsValid h n valid in
      let table = ap (set h.table (home h k)) gone in
      let most = bucket-le-total h k valid in
      let size : h'.tot + length es ≡ h.tot + length c = omega (arith, most, erased.size) in
      record {
        valid = write-IsValid g h' k none c valid' refl table size r;
        reads = write-view g h' k none c valid' refl table size r;
        total = rw has (omega (arith, most, erased.size));
        answer = rw has refl;
        counted = (refl, omega (arith, bound));
      }

  keep_Searched :
      (h : Hash V) (k : Bytes) (p : Option ℕ) (e : Entry V) (n : ℕ)
      → IsValid h
      → lookup k (bucket h (home h k)) ≡ some e.value
      → n ≤ length (bucket h (home h k))
      → Searched h k false (conclude_find (counted_hash h n) (home h k) false (some (p, e)))
  unfolding conclude_find counted_hash view
  keep_Searched h k p e n valid has bound = record {
    valid = counted_hash-IsValid h n valid;
    reads = λ q. refl;
    total = omega arith;
    answer = rw has refl;
    counted = (refl, omega (arith, bound));
  }

  missed_reads :
      (h : Hash V) (k q : Bytes) (del : Bool)
      → view h k ≡ none
      → view h q ≡ (if del && same q k then none else view h q)
  missed_reads h k q false absent = refl
  missed_reads h k q true absent = elim (Bool-cases (same q k)) [
    | inl e ↦ rw e (view-same h q k e ∙ absent)
    | inr e ↦ rw e refl
  ]

  miss_Searched :
      (h : Hash V) (k : Bytes) (del : Bool)
      → IsValid h
      → count k (bucket h (home h k)) ≡ 0
      → Searched h k del
          (conclude_find (counted_hash h (length (bucket h (home h k)))) (home h k) del none)
  unfolding conclude_find counted_hash view
  miss_Searched h k del valid new =
      let absent = count-zero k (bucket h (home h k)) new in
      record {
        valid = counted_hash-IsValid h (length (bucket h (home h k))) valid;
        reads = λ q. missed_reads h k q del absent;
        total = rw absent (no_entries del h.tot);
        answer = rw absent refl;
        counted = (refl, omega arith);
      }

  hit_Searched :
      (h : Hash V) (k : Bytes) (del : Bool) (p : Option ℕ) (e : Entry V) (n : ℕ)
      → IsValid h
      → lookup k (bucket h (home h k)) ≡ some e.value
      → n ≤ length (bucket h (home h k))
      → unlink p e.address (bucket h (home h k)) ≡ erase k (bucket h (home h k))
      → Searched h k del (conclude_find (counted_hash h n) (home h k) del (some (p, e)))
  hit_Searched h k true p e n valid has bound gone = delete_Searched h k p e n valid has bound gone
  hit_Searched h k false p e n valid has bound gone = keep_Searched h k p e n valid has bound

  -- In a valid hash rim_find_hash of a key without a NUL answers with the data of the key, or with
  -- the empty string and the status of a key that is not there; for such a key the comparison as a
  -- C string and the one by length do the same. A deletion takes the key's entry out and no other,
  -- and the count of entries tells so; without one every key keeps its data. One search is
  -- counted and no more comparisons than the key's bucket has entries. The hash stays valid.
  pub find_hash-view :
      (h : Hash V) (k : Bytes) (del is_rim : Bool)
      → IsValid h
      → NulFree k
      → Searched h k del (find_hash h k del is_rim)
  unfolding find_hash counted_hash
  find_hash-view h k del is_rim valid t =
      let es = bucket h (home h k) in
      elim (search-cases is_rim k es (texts-Agrees is_rim k es t (valid.texts (home h k)))
        (valid.distinct (home h k))) [
          | inl (e, new) ↦ rw e (miss_Searched h k del valid new)
          | inr (p, e, n, found, has, bound, gone) ↦
              rw found (hit_Searched h k del p e n valid has bound gone)
        ]
