-- ===== src/Tree/Purge.antt =====
-- rim_tree_purge_f takes out every entry, in as many rounds as there are entries.
use mathlib.Core.List.{head?}
use rimstone.Base.{ℕ, zero, suc, ◌<◌, List, [], ◌∷◌, none, some, ◌≡◌, refl, ◌∙◌, ap, length, arith}
use rimstone.Tree.Api.{IsValid, delete_f-remove}
use rimstone.Tree.Contents.{to_list}
use rimstone.Tree.Ends.{ends_f}
use rimstone.Tree.Key.{KeyOrder}
use rimstone.Tree.Operations.{Tree, conclude, min_f, delete_f, purge}
use rimstone.Tree.Spec.Sorted.{remove_above}
use rimstone.Tree.Spec.{IsSorted, remove}
use rimstone.Tree.{Cursor, okay, err_exist}

module _ {ℓ} {K V : Type ℓ} ⦃order : KeyOrder K⦄ where
  remove_first :
      (k : K) (v : V) (es : List (K × V)) → IsSorted ((k, v) ∷ es) → remove k ((k, v) ∷ es) ≡ es
  unfolding remove
  remove_first k v es (a, s) = rw (order.compare_refl k, remove) (remove_above k es a)

  module _ (fuel : ℕ) (c : Cursor K V) (t : Tree K V) where
    purge_empty :
        min_f c t ≡ conclude c none → purge (suc fuel) c t ≡ (t, record c { status = err_exist })
    unfolding purge conclude
    purge_empty e = rw (e, purge) (rw e)

    purge-some :
        (k : K) (v : V)
        → min_f c t ≡ conclude c (some (k, v))
        → let c' : Cursor K V = record c { status = okay; current = some (k, v) } in
          purge (suc fuel) c t ≡ purge fuel (delete_f k c' t).1 (delete_f k c' t).0
    unfolding purge conclude
    purge-some k v e = rw (e, purge) (rw e (rw e))

  purge-entries :
      (fuel : ℕ) (c : Cursor K V) (t : Tree K V) (es : List (K × V))
      → IsValid t
      → to_list t.root ≡ es
      → length es < fuel
      → IsValid (purge fuel c t).0
        × (to_list (purge fuel c t).0.root ≡ [])
        × ((purge fuel c t).1.status ≡ err_exist)
  purge-entries zero c t es valid e p = elim p [ ]
  purge-entries (suc fuel) c t [] valid e p =
      rw (purge_empty fuel c t ((ends_f c t valid).0 ∙ ap (λ xs. conclude c (head? xs)) e))
        (valid, e, refl)
  purge-entries (suc fuel) c t ((k, v) ∷ es) valid e p =
      let c' : Cursor K V = record c { status = okay; current = some (k, v) } in
      let (valid', entries, cursor) = delete_f-remove k c' t valid in
      let sorted : IsSorted ((k, v) ∷ es) = rw e at valid.sorted in
      rw (purge-some fuel c t k v ((ends_f c t valid).0 ∙ ap (λ xs. conclude c (head? xs)) e)) (
        purge-entries fuel (delete_f k c' t).1 (delete_f k c' t).0 es valid'
          (entries ∙ ap (remove k) e ∙ remove_first k v es sorted) (omega arith))

  -- With one round more than the tree has entries the purge ends by its own test, and leaves a
  -- valid tree with no entry.
  pub purge-count :
      (fuel : ℕ) (c : Cursor K V) (t : Tree K V)
      → IsValid t
      → t.count < fuel
      → IsValid (purge fuel c t).0
        × (to_list (purge fuel c t).0.root ≡ [])
        × ((purge fuel c t).1.status ≡ err_exist)
  purge-count fuel c t valid p =
      purge-entries fuel c t (to_list t.root) valid refl (omega (arith, valid.counted))
