-- ===== src/Hash/Traverse.antt =====
-- hash.c: the traversal reads every entry once, in the order of the table.
use rimstone.Base.{
  ℕ, zero, suc, ◌+◌, ◌≤◌, ◌<◌, ◌≡◌, refl, sym, ap, ◌∙◌, subst, ◌≢◌, ◌⊎◌, inl, inr, Bool, true,
  false, Option, none, some, List, [], ◌∷◌, ◌++◌, arith, ◌==◌, ==-self, ==→≡, Bool-cases, length,
  get_or, drop,
}
use mathlib.Core.Bool.{true≢false}
use mathlib.Core.List.{flatten}
use rimstone.Hash.{Status, err_exist, Hash, seek, at_address, next_hash}
use rimstone.Hash.Links.{Entry, Bucket, head_of, has_address, Distinct}
use rimstone.Hash.Table.{bucket}

suc_index : (i : ℕ) → suc (i + 1) ≡ suc i + 1
suc_index i = omega arith

pub drop-get_or {ℓ} :
    {A : Type ℓ} (xs : List A) (i : ℕ) (d : A)
    → i < length xs
    → drop i xs ≡ get_or xs i d ∷ drop (i + 1) xs
drop-get_or [] i d h = absurd (omega arith)
drop-get_or (x ∷ xs) zero d h = refl
drop-get_or (x ∷ xs) (suc i) d h =
    drop-get_or xs i d (omega arith) ∙ ap (λ k. get_or xs i d ∷ drop k (x ∷ xs)) (suc_index i)

end_index : (i n : ℕ) → i + 0 ≡ n → i ≡ n
end_index i n h = omega arith

pub drop-all {ℓ} : {A : Type ℓ} (xs : List A) (i : ℕ) → length xs ≤ i → drop i xs ≡ []
drop-all [] zero h = refl
drop-all [] (suc i) h = refl
drop-all (x ∷ xs) zero h = absurd (omega arith)
drop-all (x ∷ xs) (suc i) h = drop-all xs i (omega arith)

module _ {V : Type 0} where
  -- The entries from a pointer on.
  abbrev pub position : Option ℕ → Bucket V → Bucket V
  position none es = []
  position (some a) es = at_address a es

  -- The entries that the traversal has still to read.
  unfoldable pub remaining : Hash V → Bucket V
  remaining h = position h.dcurr (bucket h h.dnext) ++ flatten (drop (h.dnext + 1) h.table)

  pub at_address-head : (e : Entry V) (es : Bucket V) → at_address e.address (e ∷ es) ≡ e ∷ es
  unfolding at_address
  at_address-head e es = rw (==-self e.address) refl

  at_address-later :
      (a : ℕ) (e : Entry V) (es : Bucket V)
      → (e.address == a) ≡ false
      → at_address a (e ∷ es) ≡ at_address a es
  unfolding at_address
  at_address-later a e es h = rw h refl

  pub position-head : (es : Bucket V) → position (head_of es) es ≡ es
  position-head [] = refl
  position-head (e ∷ es) = at_address-head e es

  here_address :
      (a : ℕ) (e : Entry V) (es : Bucket V)
      → (e.address == a) ≡ true
      → at_address a (e ∷ es) ≡ e ∷ es
  unfolding at_address
  here_address a e es h = rw h refl

  abbrev tail : Bucket V → Bucket V
  tail [] = []
  tail (e ∷ es) = es

  abbrev is_nil : Bucket V → Bool
  is_nil [] = true
  is_nil (e ∷ es) = false

  cons≢nil : {e : Entry V} {es : Bucket V} → (◌≢◌ {A = Bucket V} (e ∷ es) [])
  cons≢nil h = true≢false (sym (ap is_nil h))

  absent_address : (a : ℕ) (es : Bucket V) → has_address a es ≡ false → at_address a es ≡ []
  unfolding at_address
  absent_address a [] h = refl
  absent_address a (e ∷ es) h = ground (arith, absent_address a es)

  skip_head :
      (x : Entry V) (b : Bucket V)
      → has_address x.address b ≡ false
      → position (head_of b) (x ∷ b) ≡ b
  skip_head x [] d = refl
  skip_head x (y ∷ b) d =
      at_address-later y.address x (y ∷ b) (ground (arith, d)) ∙ at_address-head y b

  skip_other :
      (x : Entry V) (b es : Bucket V)
      → has_address x.address b ≡ false
      → position (head_of es) b ≡ es
      → position (head_of es) (x ∷ b) ≡ es
  skip_other x b [] d h = refl
  skip_other x b (y ∷ es) d h = elim (Bool-cases (x.address == y.address)) [
    | inl e ↦ absurd (
        cons≢nil (
          sym h
          ∙ ap (λ a. at_address a b) (sym (==→≡ x.address y.address e))
          ∙ absent_address x.address b d))
    | inr e ↦ at_address-later y.address x b e ∙ h
  ]

  -- Behind the entry at a pointer, its `next` leads to the rest.
  pub position-next :
      (a : ℕ) (b : Bucket V) (e : Entry V) (es : Bucket V)
      → Distinct b
      → at_address a b ≡ e ∷ es
      → position (head_of es) b ≡ es
  unfolding at_address
  position-next a [] e es d h = cc
  position-next a (x ∷ b) e es (d, ds) h = elim (Bool-cases (x.address == a)) [
    | inl q ↦
        let b≡es : b ≡ es = ap tail (sym (here_address a x b q) ∙ h) in
        subst (λ t. position (head_of t) (x ∷ b) ≡ t) b≡es (skip_head x b d)
    | inr q ↦ skip_other x b es d (position-next a b e es ds (sym (at_address-later a x b q) ∙ h))
  ]

  pub list-cases : (b : Bucket V) → (b ≡ []) ⊎ ((e : Entry V) × (es : Bucket V) × (b ≡ e ∷ es))
  list-cases [] = inl refl
  list-cases (e ∷ es) = inr (e, es, refl)

  -- The loop ends behind the last bucket, and there was nothing to read; or at a bucket that is
  -- not empty, and its entries are the first to read.
  pub seek-cases :
      (n i : ℕ) (table : List (Bucket V))
      → i + n ≡ length table
      → ((seek n i table ≡ (length table, none)) × (flatten (drop i table) ≡ []))
        ⊎ ((j : ℕ) × (e : Entry V) × (es : Bucket V) × (seek n i table ≡ (j, some e.address))
            × (get_or table j [] ≡ e ∷ es)
            × (j < length table)
            × (flatten (drop i table) ≡ (e ∷ es) ++ flatten (drop (j + 1) table)))
  unfolding seek flatten
  seek-cases zero i table h = inl (
    ap (λ k. (k, none)) (end_index i (length table) h),
    ap flatten (drop-all table i (omega arith)),
  )
  seek-cases (suc n) i table h =
      let split = drop-get_or table i [] (omega arith) in
      elim (list-cases (get_or table i [])) [
        | inr (e, es, q) ↦ inr (
          i,
          e,
          es,
          rw (q, seek) refl,
          q,
          omega arith,
          ap flatten split ∙ ap (λ b. b ++ flatten (drop (i + 1) table)) q,
        )
        | inl q ↦
            let skip = ap flatten split ∙ ap (λ b. b ++ flatten (drop (i + 1) table)) q in
            elim (seek-cases n (i + 1) table (omega arith)) [
              | inl (p, none_left) ↦ inl (rw (q, seek) p, skip ∙ none_left)
              | inr (j, e, es, p, b, inside, r) ↦
                  inr (j, e, es, rw (q, seek) p, b, inside, skip ∙ r)
            ]
      ]

  abbrev pub at_entry : Hash V → ℕ → Option ℕ → Option ℕ → Hash V
  at_entry h i c p = record h { dnext = i; dcurr = c; dprev = p }

  -- The traversal stands behind the last bucket, behind the end of one, or at an entry.
  abbrev pub StandsAt : Hash V → ℕ → Option ℕ → Type 0
  StandsAt h i none = i ≤ h.num_buckets
  StandsAt h i (some a) =
      (i < h.num_buckets) × ((e : Entry V) × (es : Bucket V) × (at_address a (bucket h i) ≡ e ∷ es))

  pub record IsTraversed (h : Hash V) : Type 0 where
    pub width : length h.table ≡ h.num_buckets
    pub distinct : (i : ℕ) → Distinct (bucket h i)
    pub stands : StandsAt h h.dnext h.dcurr

  -- What a step of the traversal does: it ends, as nothing is left, or it reads the first entry.
  abbrev pub Ends : Hash V → Type 0
  Ends h =
      (remaining h ≡ [])
      × ((h' : Hash V) × (next_hash h false ≡ some (h', none, err_exist))
          × (remaining h' ≡ [])
          × (h'.table ≡ h.table)
          × IsTraversed h')

  abbrev pub Reads : Hash V → Type 0
  Reads h =
      (e : Entry V) × (h' : Hash V) × (remaining h ≡ e ∷ remaining h')
      × (next_hash h false ≡ some (h', some (e.key, e.value), Status.okay))
      × (h'.table ≡ h.table)
      × IsTraversed h'
