-- ===== src/Hash/Table.antt =====
-- The table of hash.c: where entries stand, what the table means, and a write to one bucket.
use rimstone.Base.{
  ℕ, ◌+◌, ◌≤◌, ◌<◌, ◌≡◌, refl, sym, ap, ◌∙◌, subst, ◌≢◌, ◌⊎◌, inl, inr, Bool, true, false, Option,
  [], arith, if◌then◌else◌, Bool-cases, length, get_or, set, length-set, get_or-set_cases,
  length-flatten-set,
}
use mathlib.Core.List.{flatten}
use rimstone.Base.Words.{Bytes}
use rimstone.Hash.{Hash}
use rimstone.Hash.Key.{same, compute_hash, compute_hash-lt, compute_hash_congr}
use rimstone.Hash.Links.{Bucket, lookup, lookup_congr, count, has_address, Distinct, AreTexts}

module _ {V : Type 0} where
  abbrev pub bucket : Hash V → ℕ → Bucket V
  bucket h i = get_or h.table i []

  -- What a hash stands for: the data of each key.
  unfoldable pub view : Hash V → Bytes → Option V
  view h q = lookup q (bucket h (compute_hash q h.num_buckets))

  pub record IsValid (h : Hash V) : Type 0 where
    pub width : length h.table ≡ h.num_buckets
    pub wide : 256 ≤ h.num_buckets
    pub total : h.tot ≡ length (flatten h.table)
    pub single : (q : Bytes) (i : ℕ) → count q (bucket h i) ≤ 1
    pub placed : (q : Bytes) (i : ℕ) → compute_hash q h.num_buckets ≢ i → count q (bucket h i) ≡ 0
    pub distinct : (i : ℕ) → Distinct (bucket h i)
    pub unused : (i a : ℕ) → h.fresh ≤ a → has_address a (bucket h i) ≡ false
    pub texts : (i : ℕ) → AreTexts (bucket h i)

  -- The statistics, the traversal and the scope are no part of validity and of the data.
  abbrev pub beside : Hash V → ℕ → ℕ → ℕ → Option ℕ → Option ℕ → Bool → Hash V
  beside h hits reads i c p process = record h {
    hits = hits;
    reads = reads;
    dnext = i;
    dcurr = c;
    dprev = p;
    process = process;
  }

  pub beside-IsValid :
      (h : Hash V) (hits reads i : ℕ) (c p : Option ℕ) (process : Bool)
      → IsValid h
      → IsValid (beside h hits reads i c p process)
  beside-IsValid h hits reads i c p process v = record {
    width = v.width;
    wide = v.wide;
    total = v.total;
    single = v.single;
    placed = v.placed;
    distinct = v.distinct;
    unused = v.unused;
    texts = v.texts;
  }

  pub home-lt : (h : Hash V) (k : Bytes) → IsValid h → compute_hash k h.num_buckets < length h.table
  home-lt h k v =
      omega (arith, v.width, v.wide, compute_hash-lt k h.num_buckets (omega (arith, v.wide)))

  pub bucket-le-total :
      (h : Hash V) (k : Bytes)
      → IsValid h
      → length (bucket h (compute_hash k h.num_buckets)) ≤ h.tot
  bucket-le-total h k v =
      omega (
        arith,
        v.total,
        length-flatten-set h.table (compute_hash k h.num_buckets) [] (home-lt h k v),
      )

  pub view-same : (h : Hash V) (q k : Bytes) → same q k ≡ true → view h q ≡ view h k
  unfolding view
  view-same h q k e =
      lookup_congr q k (bucket h (compute_hash q h.num_buckets)) e
      ∙ ap (λ i. lookup k (bucket h i)) (compute_hash_congr q k h.num_buckets e)

  -- The bucket of a key is replaced by one that differs from it at that key alone.
  pub record Rewrites (k : Bytes) (v : Option V) (fresh fresh' : ℕ) (old new : Bucket V)
      : Type 0 where
    pub reads : (q : Bytes) → lookup q new ≡ (if same q k then v else lookup q old)
    pub counts : (q : Bytes) → count q new ≤ (if same q k then 1 else count q old)
    pub distinct : Distinct new
    pub later : fresh ≤ fresh'
    pub unused : (a : ℕ) → fresh' ≤ a → has_address a new ≡ false
    pub texts : AreTexts new

  module _ (h h' : Hash V) (k : Bytes) (v : Option V) (c : Bucket V) (valid : IsValid h)
      (same_size : h'.num_buckets ≡ h.num_buckets)
      (table : h'.table ≡ set h.table (compute_hash k h.num_buckets) c)
      (total : h'.tot + length (bucket h (compute_hash k h.num_buckets)) ≡ h.tot + length c)
      (r : Rewrites k v h.fresh h'.fresh (bucket h (compute_hash k h.num_buckets)) c) where
    -- The bucket of an index after the write.
    bucket-cases :
        (j : ℕ)
        → ((compute_hash k h.num_buckets ≡ j) × (bucket h' j ≡ c))
          ⊎ ((compute_hash k h.num_buckets ≢ j) × (bucket h' j ≡ bucket h j))
    bucket-cases j =
        rw table
          (get_or-set_cases h.table (compute_hash k h.num_buckets) j c [] (home-lt h k valid))

    -- A property of the buckets holds of all after the write, if it holds of the new one.
    every :
        (P : ℕ → Bucket V → Type 0)
        → ((j : ℕ) → P j (bucket h j))
        → P (compute_hash k h.num_buckets) c
        → (j : ℕ) → P j (bucket h' j)
    every P all new j = elim (bucket-cases j) [
      | inl (e, q) ↦ subst (P j) (sym q) (subst (λ i. P i c) e new)
      | inr (n, q) ↦ subst (P j) (sym q) (all j)
    ]

    homes_apart :
        (q : Bytes) → compute_hash q h.num_buckets ≢ compute_hash k h.num_buckets → same q k ≡ false
    homes_apart q n = elim (Bool-cases (same q k)) [
      | inl e ↦ absurd (n (compute_hash_congr q k h.num_buckets e))
      | inr e ↦ e
    ]

    elsewhere :
        (q : Bytes) → compute_hash q h.num_buckets ≢ compute_hash k h.num_buckets → count q c ≡ 0
    elsewhere q n =
        let old = valid.placed q (compute_hash k h.num_buckets) n in
        ground (arith, r.counts q, homes_apart q n, old)

    pub write-IsValid : IsValid h'
    write-IsValid =
        let home = compute_hash k h.num_buckets in
        record {
          width = ap length table ∙ length-set h.table home c ∙ valid.width ∙ sym same_size;
          wide = omega (arith, valid.wide, same_size);
          total = omega (
            arith,
            total,
            valid.total,
            length-flatten-set h.table home c (home-lt h k valid),
            ap (λ t. length (flatten t)) table,
          );
          single = λ q.
              every (λ j b. count q b ≤ 1) (valid.single q)
                (ground (arith, r.counts q, valid.single q home));
          placed = λ q.
              every (λ j b. compute_hash q h'.num_buckets ≢ j → count q b ≡ 0)
                (λ j n. valid.placed q j (λ e. n (ap (compute_hash q) same_size ∙ e)))
                (λ n. elsewhere q (λ e. n (ap (compute_hash q) same_size ∙ e)));
          distinct = every (λ j b. Distinct b) valid.distinct r.distinct;
          unused = λ j a m.
              every (λ j b. has_address a b ≡ false)
                (λ i. valid.unused i a (omega (arith, r.later, m))) (r.unused a m) j;
          texts = every (λ j b. AreTexts b) valid.texts r.texts;
        }

    pub write-view : (q : Bytes) → view h' q ≡ (if same q k then v else view h q)
    unfolding view
    write-view q = rw same_size (elim (bucket-cases (compute_hash q h.num_buckets)) [
      | inl (e, p) ↦ rw (p, sym e) (r.reads q)
      | inr (n, p) ↦ rw (p, homes_apart q (λ e. n (sym e))) refl
    ])
