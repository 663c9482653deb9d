-- ===== src/Hash/Flatten.antt =====
-- The table of hash.c as one list of entries.
use rimstone.Base.{
  ℕ, zero, suc, ◌+◌, ◌≤◌, ◌≡◌, refl, sym, ◌∙◌, ◌≢◌, none, List, [], ◌∷◌, ◌++◌, arith, get_or,
}
use mathlib.Core.List.{flatten}
use rimstone.Base.Words.{Bytes}
use rimstone.Hash.{Hash}
use rimstone.Hash.Key.{compute_hash}
use rimstone.Hash.Links.{Bucket, lookup, count, count-zero, AreTexts}
use rimstone.Hash.Table.{view, IsValid}

zero_ne : (n : ℕ) → zero ≢ suc n
zero_ne n = λ e. absurd {A = ⊥} (omega arith)

back_ne : (m n : ℕ) → m ≢ n → suc m ≢ suc n
back_ne m n h = λ e. h (omega arith)

module _ {V : Type 0} where
  count-append : (q : Bytes) (a b : Bucket V) → count q (a ++ b) ≡ count q a + count q b
  unfolding count
  count-append q [] b = omega arith
  count-append q (e ∷ a) b = ground (arith, count-append q a b)

  lookup-append_miss :
      (q : Bytes) (a b : Bucket V) → lookup q a ≡ none → lookup q (a ++ b) ≡ lookup q b
  unfolding lookup
  lookup-append_miss q [] b h = refl
  lookup-append_miss q (e ∷ a) b h = ground (arith, lookup-append_miss q a b)

  lookup-append_last :
      (q : Bytes) (a b : Bucket V) → lookup q b ≡ none → lookup q (a ++ b) ≡ lookup q a
  unfolding lookup
  lookup-append_last q [] b h = h
  lookup-append_last q (e ∷ a) b h = rw (lookup-append_last q a b h) refl

  count-flatten_nowhere :
      (q : Bytes) (table : List (Bucket V))
      → ((i : ℕ) → count q (get_or table i []) ≡ 0)
      → count q (flatten table) ≡ 0
  unfolding flatten count
  count-flatten_nowhere q [] h = refl
  count-flatten_nowhere q (b ∷ table) h =
      omega (
        arith,
        count-append q b (flatten table),
        h 0,
        count-flatten_nowhere q table (λ i. h (suc i)),
      )

  -- A key that only bucket `j` may have is found there.
  flatten_only :
      (q : Bytes) (table : List (Bucket V)) (j : ℕ)
      → ((i : ℕ) → j ≢ i → count q (get_or table i []) ≡ 0)
      → (lookup q (flatten table) ≡ lookup q (get_or table j []))
        × (count q (flatten table) ≡ count q (get_or table j []))
  unfolding flatten
  flatten_only q [] j h = (refl, refl)
  flatten_only q (b ∷ table) zero h =
      let rest = count-flatten_nowhere q table (λ i. h (suc i) (zero_ne i)) in
      (
        lookup-append_last q b (flatten table) (count-zero q (flatten table) rest),
        omega (arith, count-append q b (flatten table), rest),
      )
  flatten_only q (b ∷ table) (suc j) h =
      let here = h 0 (λ e. zero_ne j (sym e)) in
      let (found, counted) = flatten_only q table j (λ i n. h (suc i) (back_ne j i n)) in
      (
        lookup-append_miss q b (flatten table) (count-zero q b here) ∙ found,
        omega (arith, count-append q b (flatten table), here, counted),
      )

  -- The entries of a valid hash have the data of each key, and each key at most once.
  pub flatten-view :
      (h : Hash V) (q : Bytes)
      → IsValid h
      → (lookup q (flatten h.table) ≡ view h q) × (count q (flatten h.table) ≤ 1)
  unfolding view
  flatten-view h q v =
      let (found, counted) = flatten_only q h.table (compute_hash q h.num_buckets) (v.placed q) in
      (found, omega (arith, counted, v.single q (compute_hash q h.num_buckets)))

  AreTexts-append : (a b : Bucket V) → AreTexts a → AreTexts b → AreTexts (a ++ b)
  AreTexts-append [] b x y = y
  AreTexts-append (e ∷ a) b (t, x) y = (t, AreTexts-append a b x y)

  pub AreTexts-flatten :
      (table : List (Bucket V))
      → ((i : ℕ) → AreTexts (get_or table i []))
      → AreTexts (flatten table)
  unfolding flatten
  AreTexts-flatten [] h = tt
  AreTexts-flatten (b ∷ table) h =
      AreTexts-append b (flatten table) (h 0) (AreTexts-flatten table (λ i. h (suc i)))
