-- ===== src/Hash/Links.antt =====
-- One bucket of hash.c: the linked list of its entries, from the head on. An entry's address is
-- what a pointer to it holds.
use rimstone.Base.{
  ℕ, suc, ◌+◌, ◌≡◌, refl, ap, ◌∙◌, ◌⊎◌, inl, inr, Bool, true, false, ◌||◌, Option, none, some, List,
  [], ◌∷◌, arith, ◌==◌, if◌then◌else◌, Bool-cases, length,
}
use rimstone.Base.Words.{Bytes, NulFree}
use rimstone.Hash.Key.{same, matches, same_congr, same_from}

-- rim_hash_table
pub record Entry (V : Type 0) : Type 0 where
  pub address : ℕ
  pub key : Bytes
  pub value : V

abbrev pub Bucket : Type 0 → Type 0
Bucket V = List (Entry V)

module _ {V : Type 0} where
  -- The pointer to the head, none for NULL.
  abbrev pub head_of : Bucket V → Option ℕ
  head_of [] = none
  head_of (e ∷ es) = some e.address

  -- `entry->next` and all behind it
  unfoldable pub after : ℕ → Bucket V → Bucket V
  after a [] = []
  after a (e ∷ es) = let rest = after a es in if e.address == a then es else rest

  -- `prev->next = next`. An address that the bucket does not have is a freed entry's, and the
  -- write leaves the bucket as it is.
  unfoldable pub relink : ℕ → Bucket V → Bucket V → Bucket V
  relink p next [] = []
  relink p next (e ∷ es) =
      let rest = relink p next es in if e.address == p then e ∷ next else e ∷ rest

  -- The bucket after rim_del_hash_entry, for the pointers `prev` and `todel`.
  unfoldable pub unlink : Option ℕ → ℕ → Bucket V → Bucket V
  unlink none todel es = after todel es
  unlink (some p) todel es = relink p (after todel es) es

  abbrev pub one_more : Option (Option ℕ × Entry V) × ℕ → Option (Option ℕ × Entry V) × ℕ
  one_more (found, reads) = (found, reads + 1)

  -- The loop of rim_find_hash: `prev` and `hresult`, and how many comparisons it made.
  unfoldable pub search_bucket :
      Bool → Bytes → Option ℕ → Bucket V → Option (Option ℕ × Entry V) × ℕ
  search_bucket is_rim key prev [] = (none, 0)
  search_bucket is_rim key prev (e ∷ es) =
      let rest = search_bucket is_rim key (some e.address) es in
      if matches is_rim key e.key then (some (prev, e), 1) else one_more rest

  abbrev pub behind : Entry V → Option (V × Bucket V) → Option (V × Bucket V)
  behind e none = none
  behind e (some (old, es)) = some (old, e ∷ es)

  -- The loop of rim_add_hash: the old value, and the bucket with key and value replaced.
  unfoldable pub replace : Bytes → V → Bucket V → Option (V × Bucket V)
  replace key v [] = none
  replace key v (e ∷ es) =
      let rest = replace key v es in
      if same key e.key
      then some (e.value, record e { key = key; value = v } ∷ es)
      else behind e rest

  -- What a bucket means: the value of the first entry with a key, and how many there are.
  unfoldable pub lookup : Bytes → Bucket V → Option V
  lookup q [] = none
  lookup q (e ∷ es) = let rest = lookup q es in if same q e.key then some e.value else rest

  unfoldable pub count : Bytes → Bucket V → ℕ
  count q [] = 0
  count q (e ∷ es) = let rest = count q es in if same q e.key then rest + 1 else rest

  unfoldable pub erase : Bytes → Bucket V → Bucket V
  erase k [] = []
  erase k (e ∷ es) = let rest = erase k es in if same k e.key then es else e ∷ rest

  abbrev pub has_address : ℕ → Bucket V → Bool
  has_address a [] = false
  has_address a (e ∷ es) = (e.address == a) || has_address a es

  -- No two entries are at one address.
  abbrev pub Distinct : Bucket V → Type 0
  Distinct [] = Unit {0}
  Distinct (e ∷ es) = (has_address e.address es ≡ false) × Distinct es

  abbrev pub AreTexts : Bucket V → Type 0
  AreTexts [] = Unit {0}
  AreTexts (e ∷ es) = NulFree e.key × AreTexts es

  pub count-zero : (q : Bytes) (es : Bucket V) → count q es ≡ 0 → lookup q es ≡ none
  unfolding count lookup
  count-zero q [] h = refl
  count-zero q (e ∷ es) h = ground (arith, count-zero q es)

  pub count-same : (q k : Bytes) (es : Bucket V) → same q k ≡ true → count q es ≡ count k es
  unfolding count
  count-same q k [] h = refl
  count-same q k (e ∷ es) h = rw (same_from q k e.key h, count-same q k es h) refl

  pub lookup_congr : (q k : Bytes) (es : Bucket V) → same q k ≡ true → lookup q es ≡ lookup k es
  unfolding lookup
  lookup_congr q k [] h = refl
  lookup_congr q k (e ∷ es) h = rw (same_from q k e.key h, lookup_congr q k es h) refl

  lookup-same :
      (q k : Bytes) (es : Bucket V) → count k es ≡ 0 → same q k ≡ true → lookup q es ≡ none
  lookup-same q k es z h = count-zero q es (count-same q k es h ∙ z)

  -- Replacing: every other key keeps its value, and no key has more entries.
  pub record Replaced (k : Bytes) (v : V) (es : Bucket V) (old : V) (es' : Bucket V) : Type 0 where
    pub had : lookup k es ≡ some old
    pub reads : (q : Bytes) → lookup q es' ≡ (if same q k then some v else lookup q es)
    pub counts : (q : Bytes) → count q es' ≡ count q es
    pub size : length es' ≡ length es
    pub addresses : (a : ℕ) → has_address a es' ≡ has_address a es
    pub distinct : Distinct es → Distinct es'
    pub texts : NulFree k → AreTexts es → AreTexts es'

  replace-none : (k : Bytes) (v : V) (es : Bucket V) → replace k v es ≡ none → count k es ≡ 0
  unfolding replace count
  replace-none k v [] h = refl
  replace-none k v (e ∷ es) h = ground (arith, replace-none k v es)

  Replaced-head :
      (k : Bytes) (v : V) (e : Entry V) (es : Bucket V)
      → same k e.key ≡ true
      → Replaced k v (e ∷ es) e.value (record e { key = k; value = v } ∷ es)
  unfolding lookup count
  Replaced-head k v e es h = record {
    had = rw h;
    reads = λ q. ground (arith, same_congr k e.key q h);
    counts = λ q. rw (same_congr k e.key q h) refl;
    size = refl;
    addresses = λ a. refl;
    distinct = λ d. d;
    texts = λ t (_, ts). (t, ts);
  }

  Replaced-tail :
      (k : Bytes) (v : V) (e : Entry V) (es : Bucket V) (old : V) (es' : Bucket V)
      → same k e.key ≡ false
      → Replaced k v es old es'
      → Replaced k v (e ∷ es) old (e ∷ es')
  unfolding lookup count
  Replaced-tail k v e es old es' h r = record {
    had = rw h r.had;
    reads = λ q. ground (arith, r.reads q, same_from q k e.key);
    counts = λ q. rw (r.counts q);
    size = ap suc r.size;
    addresses = λ a. ap (λ b. (e.address == a) || b) (r.addresses a);
    distinct = λ (d, ds). (r.addresses e.address ∙ d, r.distinct ds);
    texts = λ t (x, ts). (x, r.texts t ts);
  }

  -- Either the key is new to the bucket, or its entry is replaced.
  pub replace-cases :
      (k : Bytes) (v : V) (es : Bucket V)
      → ((replace k v es ≡ none) × (count k es ≡ 0))
        ⊎ ((old : V) × (es' : Bucket V) × (replace k v es ≡ some (old, es'))
            × Replaced k v es old es')
  unfolding replace
  replace-cases k v [] = inl (refl, replace-none k v [] refl)
  replace-cases k v (e ∷ es) = elim (Bool-cases (same k e.key)) [
    | inl h ↦ inr (e.value, record e { key = k; value = v } ∷ es, rw h, Replaced-head k v e es h)
    | inr h ↦ elim (replace-cases k v es) [
      | inl (n, c) ↦
          let p : replace k v (e ∷ es) ≡ none = rw (h, n) refl in
          inl (p, replace-none k v (e ∷ es) p)
      | inr (old, es', p, r) ↦
          inr (old, e ∷ es', rw (h, p) refl, Replaced-tail k v e es old es' h r)
    ]
  ]

  -- Erasing: the key is gone, and every other one keeps its value.
  pub record Erased (k : Bytes) (es es' : Bucket V) : Type 0 where
    pub reads : (q : Bytes) → lookup q es' ≡ (if same q k then none else lookup q es)
    pub counts : (q : Bytes) → count q es' ≡ (if same q k then 0 else count q es)
    pub size : length es ≡ length es' + 1
    pub addresses : (a : ℕ) → has_address a es ≡ false → has_address a es' ≡ false
    pub distinct : Distinct es → Distinct es'
    pub texts : AreTexts es → AreTexts es'

  pub erase-Erased : (k : Bytes) (es : Bucket V) → count k es ≡ 1 → Erased k es (erase k es)
  unfolding erase lookup count
  erase-Erased k [] h = absurd (omega arith)
  erase-Erased k (e ∷ es) h = elim (Bool-cases (same k e.key)) [
    | inl s ↦
        let gone : count k es ≡ 0 = ground (arith, s, h) in
        rw s (record {
          reads = λ q. ground (arith, same_congr k e.key q s, lookup-same q k es gone);
          counts = λ q. ground (arith, same_congr k e.key q s, count-same q k es);
          size = omega arith;
          addresses = λ a h. ground (arith, h);
          distinct = λ (_, ds). ds;
          texts = λ (_, ts). ts;
        })
    | inr s ↦
        let r = erase-Erased k es (ground (arith, s, h)) in
        rw s (record {
          reads = λ q. ground (arith, r.reads q, same_from q k e.key);
          counts = λ q. ground (arith, r.counts q, same_from q k e.key);
          size = omega (arith, r.size);
          addresses = λ a h. ground (arith, h, r.addresses a);
          distinct = λ (d, ds). (r.addresses e.address d, r.distinct ds);
          texts = λ (x, ts). (x, r.texts ts);
        })
  ]
