-- ===== src/Hash/Search.antt =====
-- The search of a bucket, and the deletion of what it found.
use rimstone.Base.{
  ℕ, suc, ◌+◌, ◌≤◌, ◌≡◌, refl, sym, ap, ◌∙◌, ◌⊎◌, inl, inr, Bool, true, false, Option, none, some,
  [], ◌∷◌, arith, ◌==◌, ==-self, ==→≡, Bool-cases, length,
}
use mathlib.Core.Bool.{true≢false}
use rimstone.Base.Words.{Bytes}
use rimstone.Hash.Key.{same, matches}
use rimstone.Hash.Links.{
  has_address, Distinct, Entry, Bucket, after, relink, unlink, search_bucket, one_more, lookup,
  count, erase,
}

more_reads : (n : ℕ) → n + 1 ≡ suc n
more_reads n = omega arith

module _ {V : Type 0} where
  -- The comparison asked for is that of C strings, at every key of the bucket.
  abbrev pub Agrees : Bool → Bytes → Bucket V → Type 0
  Agrees is_rim k [] = Unit {0}
  Agrees is_rim k (e ∷ es) = (matches is_rim k e.key ≡ same k e.key) × Agrees is_rim k es

  -- What an entry found means for its deletion: it is the first and `prev` stands, or the pointer
  -- to the one before it is in the bucket.
  abbrev Unlinks : Bytes → Option ℕ → Bucket V → Option ℕ → ℕ → Type 0
  Unlinks k prev es p a =
      ((p ≡ prev) × (after a es ≡ erase k es))
      ⊎ ((x : ℕ) × (p ≡ some x)
          × (has_address x es ≡ true)
          × (relink x (after a es) es ≡ erase k es))

  record Found (is_rim : Bool) (k : Bytes) (prev : Option ℕ) (es : Bucket V) : Type 0 where
    before : Option ℕ
    entry : Entry V
    reads : ℕ
    searched : search_bucket is_rim k prev es ≡ (some (before, entry), reads)
    value : lookup k es ≡ some entry.value
    bound : reads ≤ length es
    inside : has_address entry.address es ≡ true
    unlinks : Unlinks k prev es before entry.address

  Found-here :
      (is_rim : Bool) (k : Bytes) (prev : Option ℕ) (e : Entry V) (es : Bucket V)
      → matches is_rim k e.key ≡ true
      → same k e.key ≡ true
      → Found is_rim k prev (e ∷ es)
  unfolding search_bucket lookup after erase
  Found-here is_rim k prev e es m s = record {
    before = prev;
    entry = e;
    reads = 1;
    searched = rw m refl;
    value = rw s refl;
    bound = omega arith;
    inside = ground arith;
    unlinks = inl (refl, rw s (ground arith));
  }

  other_address :
      (e : Entry V) (a : ℕ) (es : Bucket V)
      → has_address e.address es ≡ false
      → has_address a es ≡ true
      → (e.address == a) ≡ false
  other_address e a es d h = elim (Bool-cases (e.address == a)) [
    | inl q ↦
        absurd (true≢false (sym h ∙ ap (λ x. has_address x es) (sym (==→≡ e.address a q)) ∙ d))
    | inr q ↦ q
  ]

  after-later :
      (e : Entry V) (es : Bucket V) (a : ℕ)
      → (e.address == a) ≡ false
      → after a (e ∷ es) ≡ after a es
  unfolding after
  after-later e es a h = rw h refl

  relink-here :
      (e : Entry V) (es : Bucket V) (a : ℕ)
      → (e.address == a) ≡ false
      → relink e.address (after a (e ∷ es)) (e ∷ es) ≡ e ∷ after a es
  unfolding relink after
  relink-here e es a h = rw (==-self e.address, h) refl

  relink-later :
      (e : Entry V) (es : Bucket V) (x a : ℕ)
      → (e.address == x) ≡ false
      → (e.address == a) ≡ false
      → relink x (after a (e ∷ es)) (e ∷ es) ≡ e ∷ relink x (after a es) es
  unfolding relink
  relink-later e es x a h other = rw h (ap (λ t. e ∷ relink x t es) (after-later e es a other))

  erase-later :
      (k : Bytes) (e : Entry V) (es : Bucket V)
      → same k e.key ≡ false
      → erase k (e ∷ es) ≡ e ∷ erase k es
  unfolding erase
  erase-later k e es s = rw s refl

  Found-later :
      (is_rim : Bool) (k : Bytes) (prev : Option ℕ) (e : Entry V) (es : Bucket V)
      → matches is_rim k e.key ≡ false
      → same k e.key ≡ false
      → has_address e.address es ≡ false
      → Found is_rim k (some e.address) es
      → Found is_rim k prev (e ∷ es)
  unfolding search_bucket lookup
  Found-later is_rim k prev e es m s d f =
      let other = other_address e f.entry.address es d f.inside in
      record {
        before = f.before;
        entry = f.entry;
        reads = f.reads + 1;
        searched = rw m (ap one_more f.searched);
        value = rw s f.value;
        bound = omega (arith, f.bound);
        inside = rw (other, f.inside) refl;
        unlinks = inr (elim f.unlinks [
          | inl (p, q) ↦ (
            e.address,
            p,
            rw (==-self e.address) refl,
            relink-here e es f.entry.address other ∙ ap (◌∷◌ e) q ∙ sym (erase-later k e es s),
          )
          | inr (x, p, i, q) ↦ (
            x,
            p,
            rw (other_address e x es d i, i) refl,
            relink-later e es x f.entry.address (other_address e x es d i) other
                ∙ ap (◌∷◌ e) q
                ∙ sym (erase-later k e es s),
          )
        ]);
      }

  Unlinks-erase :
      (k : Bytes) (es : Bucket V) (p : Option ℕ) (a : ℕ)
      → Unlinks k none es p a
      → unlink p a es ≡ erase k es
  unfolding unlink
  Unlinks-erase k es p a (inl (e, q)) = rw e q
  Unlinks-erase k es p a (inr (x, e, _, q)) = rw e q

  Found-at :
      (is_rim : Bool) (k : Bytes) (prev : Option ℕ) (es : Bucket V)
      → Agrees is_rim k es
      → Distinct es
      → ((search_bucket is_rim k prev es ≡ (none, length es)) × (count k es ≡ 0))
        ⊎ Found is_rim k prev es
  unfolding search_bucket count
  Found-at is_rim k prev [] g d = inl (refl, refl)
  Found-at is_rim k prev (e ∷ es) (m, g) (d, ds) = elim (Bool-cases (same k e.key)) [
    | inl s ↦ inr (Found-here is_rim k prev e es (m ∙ s) s)
    | inr s ↦ elim (Found-at is_rim k (some e.address) es g ds) [
      | inl (p, c) ↦
          inl (rw (m ∙ s) (ap one_more p ∙ ap (λ n. (none, n)) (more_reads (length es))), rw s c)
      | inr f ↦ inr (Found-later is_rim k prev e es (m ∙ s) s d f)
    ]
  ]

  -- A search ends without an entry where the bucket has none with the key; otherwise with the one
  -- that has the key's value, and its deletion leaves the bucket without it.
  pub search-cases :
      (is_rim : Bool) (k : Bytes) (es : Bucket V)
      → Agrees is_rim k es
      → Distinct es
      → ((search_bucket is_rim k none es ≡ (none, length es)) × (count k es ≡ 0))
        ⊎ ((p : Option ℕ) × (e : Entry V) × (n : ℕ) × (search_bucket is_rim k none es
              ≡ (some (p, e), n))
            × (lookup k es ≡ some e.value)
            × (n ≤ length es)
            × (unlink p e.address es ≡ erase k es))
  search-cases is_rim k es g d = elim (Found-at is_rim k none es g d) [
    | inl miss ↦ inl miss
    | inr f ↦ inr (
      f.before,
      f.entry,
      f.reads,
      f.searched,
      f.value,
      f.bound,
      Unlinks-erase k es f.before f.entry.address f.unlinks,
    )
  ]
