-- ===== src/Hash/Steps.antt =====
-- hash.c: one step of the traversal, from where it stands.
use rimstone.Base.{
  ℕ, ◌+◌, ◌-◌, ◌≤◌, ◌<◌, ◌≡◌, refl, sym, ap, ◌∙◌, ◌≢◌, ◌⊎◌, inl, inr, false, Option, none, some, [],
  ◌∷◌, ◌++◌, arith, ◌==◌, ==→≡, ==-false, ≢→==-false, ≡→==, Bool-cases, length, drop,
}
use mathlib.Core.List.{flatten}
use rimstone.Hash.{Status, Hash, seek, advance, at_address, yield_entry, read_current, next_hash}
use rimstone.Hash.Links.{Entry, Bucket, head_of, Distinct}
use rimstone.Hash.Table.{bucket}
use rimstone.Hash.Traverse.{
  position-next, position-head, seek-cases, at_entry, StandsAt, IsTraversed, Ends, Reads, remaining,
  drop-all,
}

le_ne : (i n : ℕ) → i ≤ n → i ≢ n → i < n
le_ne i n h k = grind arith

lt_ne : (i n : ℕ) → i < n → i ≢ n
lt_ne i n h = λ e. absurd {A = ⊥} (omega arith)

module _ {V : Type 0} (h : Hash V) (width : length h.table ≡ h.num_buckets)
    (distinct : (i : ℕ) → Distinct (bucket h i)) where
  -- The state after the entry `e` of bucket `i` was read.
  abbrev read_on : ℕ → Entry V → Bucket V → Hash V
  read_on i e es = at_entry h i (head_of es) (some e.address)

  read_on-stands :
      (i a : ℕ) (e : Entry V) (es : Bucket V)
      → i < h.num_buckets
      → at_address a (bucket h i) ≡ e ∷ es
      → StandsAt h i (head_of es)
  read_on-stands i a e [] b q = omega arith
  read_on-stands i a e (x ∷ es) b q =
      (b, (x, es, position-next a (bucket h i) e (x ∷ es) (distinct i) q))

  read_at :
      (i a : ℕ) (p : Option ℕ) (e : Entry V) (es : Bucket V)
      → at_address a (bucket h i) ≡ e ∷ es
      → read_current (at_entry h i (some a) p) false
        ≡ some (read_on i e es, some (e.key, e.value), Status.okay)
  unfolding read_current yield_entry
  read_at i a p e es q = rw q refl

  -- A step at an entry
  step_entry :
      (i a : ℕ) (p : Option ℕ) (e : Entry V) (es : Bucket V)
      → i < h.num_buckets
      → at_address a (bucket h i) ≡ e ∷ es
      → Reads (at_entry h i (some a) p)
  unfolding next_hash advance remaining
  step_entry i a p e es b q = (
    e,
    read_on i e es,
    rw (q, position-next a (bucket h i) e es (distinct i) q) refl,
    rw (≢→==-false i h.num_buckets (lt_ne i h.num_buckets b)) (read_at i a p e es q),
    refl,
    record { width = width; distinct = distinct; stands = read_on-stands i a e es b q },
  )

  advance-seek :
      (i j : ℕ) (c p : Option ℕ)
      → seek (h.num_buckets - (i + 1)) (i + 1) h.table ≡ (j, c)
      → advance (at_entry h i none p) ≡ at_entry h j c none
  unfolding advance
  advance-seek i j c p found = rw found refl

  -- A step behind the end of bucket `i`, with the next entry in bucket `j`
  step_seek :
      (i j : ℕ) (p : Option ℕ) (e : Entry V) (es : Bucket V)
      → i < h.num_buckets
      → j < h.num_buckets
      → bucket h j ≡ e ∷ es
      → seek (h.num_buckets - (i + 1)) (i + 1) h.table ≡ (j, some e.address)
      → flatten (drop (i + 1) h.table) ≡ (e ∷ es) ++ flatten (drop (j + 1) h.table)
      → Reads (at_entry h i none p)
  unfolding next_hash remaining
  step_seek i j p e es b c q found left =
      let here = ap (at_address e.address) q ∙ position-head (e ∷ es) in
      (
        e,
        read_on j e es,
        left
            ∙ ap (λ t. (e ∷ t) ++ flatten (drop (j + 1) h.table))
                (sym (position-next e.address (bucket h j) e es (distinct j) here)),
        rw (≢→==-false i h.num_buckets (lt_ne i h.num_buckets b)) (
            ap (λ g. read_current g false) (advance-seek i j (some e.address) p found)
            ∙ read_at j e.address none e es here),
        refl,
        record {
          width = width;
          distinct = distinct;
          stands = read_on-stands j e.address e es c here;
        },
      )

  -- A step behind the end of bucket `i`, with no entry left
  step_over :
      (i : ℕ) (p : Option ℕ)
      → i < h.num_buckets
      → seek (h.num_buckets - (i + 1)) (i + 1) h.table ≡ (length h.table, none)
      → flatten (drop (i + 1) h.table) ≡ []
      → Ends (at_entry h i none p)
  unfolding next_hash read_current remaining flatten
  step_over i p b found left = (
    left,
    (
      at_entry h (length h.table) none none,
      rw
          (
            ≢→==-false i h.num_buckets (lt_ne i h.num_buckets b),
            advance-seek i (length h.table) none p found,
          )
          refl,
      ap flatten (drop-all h.table (length h.table + 1) (omega arith)),
      refl,
      record { width = width; distinct = distinct; stands = omega (arith, width) },
    ),
  )

  -- A step behind the last bucket
  step_done : (i : ℕ) (p : Option ℕ) → i ≡ h.num_buckets → Ends (at_entry h i none p)
  unfolding next_hash remaining flatten
  step_done i p e =
      let gone = ap flatten (drop-all h.table (i + 1) (omega (arith, width))) in
      (
        gone,
        (
          at_entry h i none p,
          rw (≡→== i h.num_buckets e) refl,
          gone,
          refl,
          record { width = width; distinct = distinct; stands = omega arith },
        ),
      )

  step_at :
      (i : ℕ) (c p : Option ℕ) → StandsAt h i c → Ends (at_entry h i c p) ⊎ Reads (at_entry h i c p)
  step_at i (some a) p (b, (e, es, q)) = inr (step_entry i a p e es b q)
  step_at i none p b = elim (Bool-cases (i == h.num_buckets)) [
    | inl e ↦ inl (step_done i p (==→≡ i h.num_buckets e))
    | inr n ↦
        let below = le_ne i h.num_buckets b (==-false i h.num_buckets n) in
        elim (seek-cases (h.num_buckets - (i + 1)) (i + 1) h.table (omega (arith, width))) [
          | inl (found, left) ↦ inl (step_over i p below found left)
          | inr (j, e, es, found, q, inside, left) ↦
              inr (step_seek i j p e es below (omega (arith, width)) q found left)
        ]
  ]

module _ {V : Type 0} where
  -- A step without deletion ends where nothing is left to read, and reads the first entry that is
  -- left otherwise.
  pub step-cases : (h : Hash V) → IsTraversed h → Ends h ⊎ Reads h
  step-cases h t = step_at h t.width t.distinct h.dnext h.dcurr h.dprev t.stands
