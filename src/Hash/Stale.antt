-- ===== src/Hash/Stale.antt =====
-- hash.c: a traversal whose last entry was deleted by a search.
use rimstone.Base.{
  ℕ, ◌+◌, ◌-◌, ◌<◌, ◌≡◌, refl, sym, ap, ◌∙◌, subst, Bool, true, false, none, some, [], ◌∷◌, arith,
  ◌==◌, ==-self, ≢→==-false, length, set, length-set, get_or-set_self,
}
use rimstone.Base.Words.{NulFree}
use rimstone.Hash.{
  Status, Hash, del_hash_entry, conclude_find, find_hash, advance, yield_entry, read_current,
  next_hash,
}
use rimstone.Hash.Key.{matches-same, same_refl, compute_hash}
use rimstone.Hash.Links.{
  Entry, Bucket, head_of, after, relink, unlink, search_bucket, has_address, Distinct, AreTexts,
}
use rimstone.Hash.Table.{bucket, IsValid, home-lt, bucket-le-total}
use rimstone.Hash.Traverse.{at_address-head}

module _ {V : Type 0} where
  head_found :
      (is_rim : Bool) (e : Entry V) (es : Bucket V)
      → NulFree e.key
      → search_bucket is_rim e.key none (e ∷ es) ≡ (some (none, e), 1)
  unfolding search_bucket
  head_found is_rim e es t = rw (matches-same is_rim e.key e.key t t ∙ same_refl e.key) refl

  -- No write reaches the bucket through the pointer to an entry that it does not have.
  relink-absent : (p : ℕ) (next es : Bucket V) → has_address p es ≡ false → relink p next es ≡ es
  unfolding relink
  relink-absent p next [] h = refl
  relink-absent p next (e ∷ es) h = ground (arith, h, relink-absent p next es)

  after-head : (e : Entry V) (es : Bucket V) → after e.address (e ∷ es) ≡ es
  unfolding after
  after-head e es = rw (==-self e.address) refl

  unlink-stale : (p a : ℕ) (es : Bucket V) → has_address p es ≡ false → unlink (some p) a es ≡ es
  unfolding unlink
  unlink-stale p a es h = relink-absent p (after a es) es h

  -- The traversal stands at entry `x`, right after it read entry `e` of bucket `i`.
  abbrev pub standing : Hash V → ℕ → Entry V → Entry V → Hash V
  standing h i e x = record h { dnext = i; dcurr = some x.address; dprev = some e.address }

  -- The hash after that entry was deleted by its key.
  abbrev deleted : Hash V → ℕ → ℕ → Entry V → Entry V → Bucket V → Hash V
  deleted h i n e x es = record h {
    table = set h.table i (x ∷ es);
    tot = h.tot - 1;
    hits = h.hits + 1;
    reads = h.reads + n;
    dnext = i;
    dcurr = some x.address;
    dprev = some e.address;
  }

  delete_head :
      (h : Hash V) (i : ℕ) (is_rim : Bool) (e x : Entry V) (es : Bucket V)
      → NulFree e.key
      → bucket h i ≡ e ∷ x ∷ es
      → i ≡ compute_hash e.key h.num_buckets
      → (x.address == e.address) ≡ false
      → find_hash (standing h i e x) e.key true is_rim
        ≡ (deleted h i 1 e x es, some e.value, Status.okay)
  unfolding find_hash conclude_find del_hash_entry unlink
  delete_head h i is_rim e x es t b p d =
      rw (sym p, b, head_found is_rim e (x ∷ es) t, d, b, after-head e (x ∷ es)) refl

  abbrev after_both : Hash V → ℕ → Entry V → Entry V → Bucket V → Hash V
  after_both h i e x es =
      let g = deleted h i 1 e x es in
      record g { table = set g.table i (x ∷ es); dcurr = head_of es; tot = g.tot - 1 }

  next_stale :
      (h : Hash V) (i : ℕ) (e x : Entry V) (es : Bucket V)
      → i < length h.table
      → length h.table ≡ h.num_buckets
      → has_address e.address (x ∷ es) ≡ false
      → next_hash (deleted h i 1 e x es) true
        ≡ some (after_both h i e x es, some (x.key, x.value), Status.okay)
  unfolding next_hash advance read_current yield_entry del_hash_entry
  next_stale h i e x es b w d =
      let here = get_or-set_self h.table i (x ∷ es) [] b in
      rw
        (
          ≢→==-false i h.num_buckets (λ q. absurd {A = ⊥} (omega arith)),
          here,
          at_address-head x es,
          ==-self x.address,
          here,
        )
        (rw (unlink-stale e.address x.address (x ∷ es) d, after-head x es) refl)

  -- In a valid hash, let the traversal have read the first entry of a bucket that has a second,
  -- and let a search delete that first entry. A reading step with deletion then gives the second
  -- entry back and counts it out, but the entry still heads its bucket: the step writes through
  -- the pointer to the first entry, which is no more.
  pub next_hash-stale :
      (h : Hash V) (is_rim : Bool) (e x : Entry V) (es : Bucket V)
      → IsValid h
      → let i = compute_hash e.key h.num_buckets in
        bucket h i ≡ e ∷ x ∷ es
        → let h1 = (find_hash (standing h i e x) e.key true is_rim).0 in
          (h2 : Hash V) × (next_hash h1 true ≡ some (h2, some (x.key, x.value), Status.okay))
          × (h2.tot + 2 ≡ h.tot)
          × (bucket h2 i ≡ x ∷ es)
  next_hash-stale h is_rim e x es v b =
      let i = compute_hash e.key h.num_buckets in
      let inside = home-lt h e.key v in
      let (t, _) = subst AreTexts b (v.texts i) in
      let (d, _) = subst Distinct b (v.distinct i) in
      let found = delete_head h i is_rim e x es t b refl (ground (arith, d)) in
      let most = bucket-le-total h e.key v in
      (
        after_both h i e x es,
        ap (λ g. next_hash g.0 true) found ∙ next_stale h i e x es inside v.width d,
        omega (arith, most, ap length b),
        get_or-set_self (set h.table i (x ∷ es)) i (x ∷ es) []
            (omega (arith, length-set h.table i (x ∷ es), inside)),
      )
