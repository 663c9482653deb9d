-- ===== src/Hash/Lost.antt =====
-- hash.c: keys with a NUL inside, which additions and searches compare differently.
use rimstone.Base.{
  ℕ, suc, ◌≡◌, refl, sym, ap, ◌∙◌, inl, inr, true, false, Option, none, some, [], ◌∷◌, ◌++◌, arith,
  Bool-cases, length, set, get_or-set_self,
}
use rimstone.Base.Words.{Bytes, NulFree, equal_bytes, c_string-append_nul, c_string_of_NulFree}
use rimstone.Hash.{err_exist, Hash, add_hash, conclude_add, find_hash, conclude_find}
use rimstone.Hash.Key.{
  same, matches, matches-same, same_from, same_of_c_string, compute_hash, compute_hash_congr,
}
use rimstone.Hash.Links.{Entry, Bucket, count, AreTexts, replace, search_bucket}
use rimstone.Hash.Find.{one_entry}
use rimstone.Hash.Table.{bucket, view, IsValid, home-lt}

nul_differs : (k x : Bytes) → equal_bytes k (k ++ 0 ∷ x) ≡ false
unfolding equal_bytes
nul_differs [] x = refl
nul_differs (c ∷ k) x = ground (arith, nul_differs k x)

matches-nul : (k x : Bytes) → matches true k (k ++ 0 ∷ x) ≡ false
unfolding matches
matches-nul k x = nul_differs k x

same-nul : (k x : Bytes) → NulFree k → same k (k ++ 0 ∷ x) ≡ true
same-nul k x t =
    same_of_c_string k (k ++ 0 ∷ x) (c_string_of_NulFree k t ∙ sym (c_string-append_nul k x t))

module _ {V : Type 0} (k x : Bytes) (t : NulFree k) where
  search_miss :
      (prev : Option ℕ) (es : Bucket V)
      → AreTexts es
      → count k es ≡ 0
      → (search_bucket true k prev es).0 ≡ none
  unfolding search_bucket count
  search_miss prev [] ts z = refl
  search_miss prev (e ∷ es) (s, ts) z =
      let different : same k e.key ≡ false = ground (arith, z) in
      rw (matches-same true k e.key t s ∙ different)
        (search_miss (some e.address) es ts (ground (arith, z)))

  -- The bucket after the key with the NUL took the place of the key.
  replaced_lost :
      (v : V) (prev : Option ℕ) (es : Bucket V)
      → AreTexts es
      → count k es ≡ 1
      → (old : V) × (es' : Bucket V) × (replace (k ++ 0 ∷ x) v es ≡ some (old, es'))
        × ((search_bucket true k prev es').0 ≡ none)
        × (length es' ≡ length es)
  unfolding replace search_bucket count
  replaced_lost v prev [] ts z = absurd (omega arith)
  replaced_lost v prev (e ∷ es) (s, ts) z = elim (Bool-cases (same k e.key)) [
    | inl h ↦
        let e' : Entry V = record e { key = k ++ 0 ∷ x; value = v } in
        let left : count k es ≡ 0 = ground (arith, h, z) in
        (
          e.value,
          e' ∷ es,
          rw (sym (same_from k (k ++ 0 ∷ x) e.key (same-nul k x t)) ∙ h) refl,
          rw (matches-nul k x) (search_miss (some e.address) es ts left),
          refl,
        )
    | inr h ↦
        let (old, es', r, miss, size) =
          replaced_lost v (some e.address) es ts (ground (arith, h, z)) in
        (
          old,
          e ∷ es',
          rw (sym (same_from k (k ++ 0 ∷ x) e.key (same-nul k x t)) ∙ h, r) refl,
          rw (matches-same true k e.key t s ∙ h) miss,
          ap suc size,
        )
  ]

  abbrev lost_in : Hash V → V → Bucket V → Hash V
  lost_in h v es = record h { table = set h.table (compute_hash k h.num_buckets) es }

  find_lost :
      (h : Hash V) (v : V) (es : Bucket V)
      → IsValid h
      → (search_bucket true k none es).0 ≡ none
      → ((find_hash (lost_in h v es) k false true).1 ≡ none)
        × ((find_hash (lost_in h v es) k false true).2 ≡ err_exist)
  unfolding find_hash conclude_find
  find_lost h v es valid miss =
      rw (get_or-set_self h.table (compute_hash k h.num_buckets) es [] (home-lt h k valid), miss)
        (refl, refl)

  -- In a valid hash that has a key, adding data for a longer key with a NUL where the first ends
  -- makes no new entry, and afterwards the first key is not found.
  pub add_hash-nul :
      (h : Hash V) (v w : V)
      → IsValid h
      → view h k ≡ some w
      → let h' = (add_hash h (k ++ 0 ∷ x) v false).0 in
        (h'.tot ≡ h.tot)
        × ((find_hash h' k false true).1 ≡ none)
        × ((find_hash h' k false true).2 ≡ err_exist)
  unfolding add_hash conclude_add view
  add_hash-nul h v w valid has =
      let home = compute_hash k h.num_buckets in
      let once = one_entry k (bucket h home) w has (valid.single k home) in
      let (old, es, r, miss, _) = replaced_lost v none (bucket h home) (valid.texts home) once in
      let (a, b) = find_lost h v es valid miss in
      rw (sym (compute_hash_congr k (k ++ 0 ∷ x) h.num_buckets (same-nul k x t)), r) (refl, a, b)
