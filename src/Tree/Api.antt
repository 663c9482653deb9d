-- ===== src/Tree/Api.antt =====
-- The functions that the generated code calls: they keep a tree valid, and do to the sorted list
-- of its entries what the list's own operations do.
use rimstone.Base.{◌+◌, ◌-◌, ◌≤◌, Option, none, some, ◌≡◌, refl, ◌∙◌, length, arith, if◌then◌else◌}
use rimstone.Tree.Balance.{depth, IsLoose}
use rimstone.Tree.Contents.{to_list}
use rimstone.Tree.Delete.Refines.{deleted, delete-remove}
use rimstone.Tree.Delete.{delete-Shrunk}
use rimstone.Tree.Insert.Refines.{inserted, insert-place}
use rimstone.Tree.Insert.{insert-Grown}
use rimstone.Tree.Key.{KeyOrder}
use rimstone.Tree.Operations.{Tree, insert_f, delete_f, delete}
use rimstone.Tree.Spec.Counts.{found, missing, length-place, length-remove}
use rimstone.Tree.Spec.Sorted.{place-IsSorted, remove-IsSorted}
use rimstone.Tree.Spec.{IsSorted, find, place, remove}
use rimstone.Tree.{Node, null, vacant, node, Cursor, is_null, occupy, insert}

module _ {ℓ} {K V : Type ℓ} where
  -- The root is there; it may have no key, and its own height need not be right.
  abbrev pub IsRoot : Node K V → Type 0
  IsRoot null = ⊥
  IsRoot vacant = Unit
  IsRoot (node h k v l g) = IsLoose (node h k v l g)

  module _ ⦃order : KeyOrder K⦄ where
    pub record IsValid (t : Tree K V) : Type ℓ where
      pub balanced : IsRoot t.root
      pub sorted : IsSorted (to_list t.root)
      pub counted : t.count ≡ length (to_list t.root)

    IsLoose-IsRoot : (t : Node K V) → IsLoose t → 1 ≤ depth t → IsRoot t
    IsLoose-IsRoot null a p = elim p [ ]
    IsLoose-IsRoot vacant a p = absurd a
    IsLoose-IsRoot (node h k v l g) a p = a

    insert-IsRoot :
        (k : K) (v : V) (c : Cursor K V) (t : Node K V) → IsRoot t → IsRoot (insert k v c t).0.0
    insert-IsRoot k v c null r = absurd r
    insert-IsRoot k v c vacant r = unfold insert occupy in omega arith
    insert-IsRoot k v c (node h j w l g) r =
        let (loose, leaf, low, high) = insert-Grown k v c (node h j w l g) r in
        IsLoose-IsRoot (insert k v c (node h j w l g)).0.0 loose (omega arith)

    -- An empty root is made where the last node went.
    abbrev pub renewed : Node K V → Node K V
    renewed t = if is_null t then vacant else t

    renewed-IsRoot : (t : Node K V) → IsLoose t → IsRoot (renewed t)
    unfolding is_null
    renewed-IsRoot null a = tt
    renewed-IsRoot vacant a = tt
    renewed-IsRoot (node h k v l g) a = a

    renewed-entries : (t : Node K V) → to_list (renewed t) ≡ to_list t
    unfolding is_null
    renewed-entries null = refl
    renewed-entries vacant = refl
    renewed-entries (node h k v l g) = refl

    delete-IsRoot :
        (k : K) (c : Cursor K V) (t : Node K V) → IsRoot t → IsRoot (renewed (delete k c t).0.0)
    delete-IsRoot k c null r = absurd r
    delete-IsRoot k c vacant r = unfold delete is_null in tt
    delete-IsRoot k c (node h j w l g) r = renewed-IsRoot _ (delete-Shrunk k c (node h j w l g) r).0

    delete-entries :
        (k : K) (c : Cursor K V) (t : Node K V)
        → IsRoot t
        → IsSorted (to_list t)
        → (to_list (delete k c t).0.0 ≡ remove k (to_list t))
          × ((delete k c t).1 ≡ deleted c (find k (to_list t)))
    delete-entries k c null r s = absurd r
    delete-entries k c vacant r s = unfold delete remove find in (refl, refl)
    delete-entries k c (node h j w l g) r s = delete-remove k c (node h j w l g) r s

    inserted-count :
        (k : K) (v : V) (c : Cursor K V) (o : Option V)
        → (inserted k v c o).count ≡ c.count + missing o
    inserted-count k v c none = refl
    inserted-count k v c (some w) = omega arith

    deleted-count : (c : Cursor K V) (o : Option V) → (deleted c o).count ≡ c.count - found o
    deleted-count c none = omega arith
    deleted-count c (some w) = refl

    -- rim_tree_insert_f keeps a tree valid. Its entries become those of the sorted list with the
    -- new one placed in it, so a key that is there keeps its data, and the cursor is told which it
    -- was.
    pub insert_f-place :
        (k : K) (v : V) (c : Cursor K V) (t : Tree K V)
        → IsValid t
        → IsValid (insert_f k v c t).0
          × (to_list (insert_f k v c t).0.root ≡ place k v (to_list t.root))
          × ((insert_f k v c t).1
              ≡ inserted k v (record c { count = t.count }) (find k (to_list t.root)))
    unfolding insert_f
    insert_f-place k v c t valid =
        let c₀ : Cursor K V = record c { count = t.count } in
        let (entries, cursor) = insert-place k v c₀ t.root valid.sorted in
        (
          record {
            balanced = insert-IsRoot k v c₀ t.root valid.balanced;
            sorted = rw entries (place-IsSorted k v (to_list t.root) valid.sorted);
            counted =
                rw
                  (cursor, inserted-count, entries, length-place k v _ valid.sorted, valid.counted);
          },
          entries,
          cursor,
        )

    -- rim_tree_delete_f keeps a tree valid. Its entries become those of the sorted list without the
    -- key, and the cursor has the data that the key had, or the status of a key that is not there.
    pub delete_f-remove :
        (k : K) (c : Cursor K V) (t : Tree K V)
        → IsValid t
        → IsValid (delete_f k c t).0
          × (to_list (delete_f k c t).0.root ≡ remove k (to_list t.root))
          × ((delete_f k c t).1 ≡ deleted (record c { count = t.count }) (find k (to_list t.root)))
    unfolding delete_f
    delete_f-remove k c t valid =
        let c₀ : Cursor K V = record c { count = t.count } in
        let (entries, cursor) = delete-entries k c₀ t.root valid.balanced valid.sorted in
        let list = renewed-entries (delete k c₀ t.root).0.0 ∙ entries in
        (
          record {
            balanced = delete-IsRoot k c₀ t.root valid.balanced;
            sorted = rw list (remove-IsSorted k (to_list t.root) valid.sorted);
            counted =
                rw (cursor, deleted-count, list)
                  (omega (arith, length-remove k (to_list t.root) valid.sorted, valid.counted));
          },
          list,
          cursor,
        )
