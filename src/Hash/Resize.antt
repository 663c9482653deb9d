-- ===== src/Hash/Resize.antt =====
-- hash.c: the whole traversal, and resizing, which copies by it.
use rimstone.Base.{
  ℕ, zero, suc, ◌+◌, ◌≤◌, ◌<◌, ◌≡◌, refl, sym, ap, ◌∙◌, subst, inl, inr, false, Option, none, some,
  List, [], ◌∷◌, arith, if◌then◌else◌, Bool-cases, length,
}
use mathlib.Core.List.{flatten}
use mathlib.Core.Option
use rimstone.Base.Results.{ℤ}
use rimstone.Base.Words.{Bytes}
use rimstone.Hash.{
  Hash, bucket_count, rewind, create_hash, add_hash, next_hash, copy_hash, resize_hash,
}
use rimstone.Hash.Create.{
  create_hash-IsValid, create_hash-view, rewind-IsTraversed, rewind-remaining,
}
use rimstone.Hash.Flatten.{flatten-view, AreTexts-flatten}
use rimstone.Hash.Key.{same, same_refl}
use rimstone.Hash.Links.{Entry, Bucket, lookup, count, count-zero, AreTexts}
use rimstone.Hash.Steps.{step-cases}
use rimstone.Hash.Table.{view, IsValid, beside-IsValid}
use rimstone.Hash.Traverse.{remaining, IsTraversed}
use rimstone.Hash.Update.{entries, Added, add_hash-view}

module _ {V : Type 0} where
  -- The loop of a traversal with `read-hash ... traverse`, on fuel: the keys and data it reads.
  pub read_all : ℕ → Hash V → Option (List (Bytes × V))
  read_all zero h = none
  read_all (suc n) h = elim (next_hash h false) [
    | none ↦ none
    | some (h', none, _) ↦ some []
    | some (h', some e, _) ↦ Option.map (λ es. e ∷ es) (read_all n h')
  ]

  abbrev pub pairs : Bucket V → List (Bytes × V)
  pairs [] = []
  pairs (e ∷ es) = (e.key, e.value) ∷ pairs es

  read_all-remaining :
      (n : ℕ) (h : Hash V)
      → IsTraversed h
      → length (remaining h) < n
      → read_all n h ≡ some (pairs (remaining h))
  unfolding read_all
  read_all-remaining zero h t b = absurd (omega arith)
  read_all-remaining (suc n) h t b = elim (step-cases h t) [
    | inl (left, (h', e, _, _, _)) ↦ rw (e, read_all) (ap (λ r. some (pairs r)) (sym left))
    | inr (x, h', left, e, _, t') ↦
        rw (e, read_all)
          (rw left (
            ap (Option.map (λ (es : List (Bytes × V)). (x.key, x.value) ∷ es))
              (read_all-remaining n h' t' (omega (arith, ap length left)))))
  ]

  -- The traversal of a valid hash from its start, given one round more than its count of entries,
  -- ends by itself and reads as many entries as the hash counts. No two have one key, and each
  -- key has among them the data that a search finds.
  pub read_all-view :
      (h : Hash V)
      → IsValid h
      → (es : Bucket V) × (read_all (h.tot + 1) (rewind h) ≡ some (pairs es))
        × (length es ≡ h.tot)
        × ((q : Bytes) → count q es ≤ 1)
        × ((q : Bytes) → lookup q es ≡ view h q)
  read_all-view h v =
      let all = rewind-remaining h v in
      (
        flatten h.table,
        read_all-remaining (h.tot + 1) (rewind h) (rewind-IsTraversed h v)
              (omega (arith, v.total, ap length all))
            ∙ ap (λ es. some (pairs es)) all,
        sym v.total,
        λ q. (flatten-view h q v).1,
        λ q. (flatten-view h q v).0,
      )

  abbrev or_else : Option V → Option V → Option V
  or_else none b = b
  or_else (some a) b = some a

  record Copied (es : Bucket V) (new out : Hash V) : Type 0 where
    valid : IsValid out
    reads : (q : Bytes) → view out q ≡ or_else (lookup q es) (view new q)
    total : out.tot ≡ new.tot + length es
    same_size : out.num_buckets ≡ new.num_buckets

  Copied-none : (es : Bucket V) (new : Hash V) → es ≡ [] → IsValid new → Copied es new new
  unfolding lookup
  Copied-none es new e v =
      subst (λ t. Copied t new new) (sym e)
        (record { valid = v; reads = λ q. refl; total = omega arith; same_size = refl })

  module _ (x : Entry V) (es : Bucket V) (new : Hash V) (one : (q : Bytes) → count q (x ∷ es) ≤ 1)
      (apart : (q : Bytes) → count q (x ∷ es) ≡ 1 → view new q ≡ none)
      (a : Added new x.key x.value false (add_hash new x.key x.value false)) where
    one_later : (q : Bytes) → count q es ≤ 1
    unfolding count
    one_later q = ground (arith, one q)

    apart_here : view new x.key ≡ none
    unfolding count
    apart_here = apart x.key (ground (arith, one x.key, same_refl x.key))

    apart_later : (q : Bytes) → count q es ≡ 1 → view (add_hash new x.key x.value false).0 q ≡ none
    unfolding count
    apart_later q h = ground (arith, a.reads q, one q, apart q, h)

    more_reads :
        (out : Hash V)
        → Copied es (add_hash new x.key x.value false).0 out
        → (q : Bytes) → view out q ≡ or_else (lookup q (x ∷ es)) (view new q)
    unfolding lookup count
    more_reads out c q = elim (Bool-cases (same q x.key)) [
      | inl e ↦
          let once : count q es ≡ 0 = ground (arith, one q, e) in
          rw e (
            c.reads q
            ∙ ap (λ l. or_else l (view (add_hash new x.key x.value false).0 q))
                (count-zero q es once)
            ∙ a.reads q
            ∙ ap (λ b. if b then some x.value else view new q) e)
      | inr e ↦ rw e (
          c.reads q
          ∙ ap (or_else (lookup q es))
              (a.reads q ∙ ap (λ b. if b then some x.value else view new q) e))
    ]

    Copied-more :
        (out : Hash V)
        → Copied es (add_hash new x.key x.value false).0 out
        → Copied (x ∷ es) new out
    unfolding lookup count
    Copied-more out c = record {
      valid = c.valid;
      reads = λ q. more_reads out c q;
      total = omega (arith, c.total, a.total, ap entries apart_here);
      same_size = c.same_size ∙ a.same_size;
    }

  copy_hash-Copied :
      (n : ℕ) (old new : Hash V)
      → IsTraversed old
      → length (remaining old) < n
      → IsValid new
      → AreTexts (remaining old)
      → ((q : Bytes) → count q (remaining old) ≤ 1)
      → ((q : Bytes) → count q (remaining old) ≡ 1 → view new q ≡ none)
      → (out : Hash V) × (copy_hash n old new ≡ some out) × Copied (remaining old) new out
  unfolding copy_hash
  copy_hash-Copied zero old new t b v ts one apart = absurd (omega arith)
  copy_hash-Copied (suc n) old new t b v ts one apart = elim (step-cases old t) [
    | inl (left, (old', e, _, _, _)) ↦
        (new, rw (e, copy_hash) refl, Copied-none (remaining old) new left v)
    | inr (x, old', left, e, _, t') ↦
        let texts = subst AreTexts left ts in
        let one' = subst (λ es. (q : Bytes) → count q es ≤ 1) left one in
        let apart' = subst (λ es. (q : Bytes) → count q es ≡ 1 → view new q ≡ none) left apart in
        let a = add_hash-view new x.key x.value false v texts.0 in
        let (out, run, c) =
          copy_hash-Copied n old' (add_hash new x.key x.value false).0 t'
            (omega (arith, ap length left)) a.valid texts.1
            (one_later x (remaining old') new one' apart' a)
            (apart_later x (remaining old') new one' apart' a) in
        (
          out,
          rw (e, copy_hash) run,
          subst (λ es. Copied es new out) (sym left)
              (Copied-more x (remaining old') new one' apart' a out c),
        )
  ]

  or_else-none : (a : Option V) → or_else a none ≡ a
  or_else-none none = refl
  or_else-none (some a) = refl

  Copied-whole :
      (h : Hash V) (size : ℤ) (out : Hash V)
      → IsValid h
      → Copied (flatten h.table) (create_hash size none h.process h.fresh) out
      → (out.num_buckets ≡ bucket_count size)
        × ((q : Bytes) → view out q ≡ view h q)
        × (out.tot ≡ h.tot)
  unfolding create_hash rewind
  Copied-whole h size out v c = (
    c.same_size,
    λ q.
        c.reads q
        ∙ ap (or_else (lookup q (flatten h.table))) (create_hash-view size h.process h.fresh q)
        ∙ or_else-none (lookup q (flatten h.table))
        ∙ (flatten-view h q v).0,
    omega (arith, c.total, v.total),
  )

  abbrev Resized : Hash V → ℤ → Type 0
  Resized h size =
      (out : Hash V) × (resize_hash h size ≡ some out)
      × IsValid out
      × (out.num_buckets ≡ bucket_count size)
      × ((q : Bytes) → view out q ≡ view h q)
      × (out.tot ≡ h.tot)
      × (out.hits ≡ h.hits)
      × (out.reads ≡ h.reads)

  resized :
      (h : Hash V) (size : ℤ) (out : Hash V)
      → IsValid h
      → copy_hash (h.tot + 1) (rewind h) (create_hash size none h.process h.fresh) ≡ some out
      → Copied (flatten h.table) (create_hash size none h.process h.fresh) out
      → Resized h size
  unfolding resize_hash view
  resized h size out v run c =
      let (buckets, views, total) = Copied-whole h size out v c in
      (
        record out { hits = h.hits; reads = h.reads },
        ap (Option.map (λ (g : Hash V). record g { hits = h.hits; reads = h.reads })) run,
        beside-IsValid out h.hits h.reads out.dnext out.dcurr out.dprev out.process c.valid,
        buckets,
        views,
        total,
        refl,
        refl,
      )

  -- Resizing a valid hash ends by itself, for every size. The result is valid and has the number
  -- of buckets asked for, and no less than 256; each key has the data that it had, and the count
  -- of entries and the statistics stay.
  pub resize_hash-view :
      (h : Hash V) (size : ℤ)
      → IsValid h
      → (out : Hash V) × (resize_hash h size ≡ some out)
        × IsValid out
        × (out.num_buckets ≡ bucket_count size)
        × ((q : Bytes) → view out q ≡ view h q)
        × (out.tot ≡ h.tot)
        × (out.hits ≡ h.hits)
        × (out.reads ≡ h.reads)
  resize_hash-view h size v =
      let all = rewind-remaining h v in
      let (out, run, c) =
        copy_hash-Copied (h.tot + 1) (rewind h) (create_hash size none h.process h.fresh)
          (rewind-IsTraversed h v) (omega (arith, v.total, ap length all))
          (create_hash-IsValid size h.process h.fresh)
          (subst AreTexts (sym all) (AreTexts-flatten h.table v.texts))
          (λ q. subst (λ es. count q es ≤ 1) (sym all) (flatten-view h q v).1)
          (λ q _. create_hash-view size h.process h.fresh q) in
      resized h size out v run
        (subst (λ es. Copied es (create_hash size none h.process h.fresh) out) all c)
