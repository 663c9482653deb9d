-- ===== src/Tree/Tests.antt =====
-- The tree at text keys: a run, and the theorems at its trees.
use rimstone.Base.Words.{codes}
use rimstone.Base.{ℕ, ◌<◌, false, [], ◌∷◌, ◌++◌, none, ◌≡◌, refl, arith}
use rimstone.Tree.Api.{IsValid, insert_f-place, delete_f-remove}
use rimstone.Tree.Compare.{TextKey, text_order, tree_compare, str, str_conflates, compare_text}
use rimstone.Tree.Contents.{to_list}
use rimstone.Tree.Delete.Refines.{deleted}
use rimstone.Tree.Insert.Refines.{inserted}
use rimstone.Tree.Operations.{
  Tree, tree_create, insert_f, delete_f, search_f, search_lesser_equal_f, search_greater_equal_f,
  purge, conclude, delete, delete_here, delete_below, find_leaf_del, search_node,
}
use rimstone.Tree.Purge.{purge-count}
use rimstone.Tree.Search.{entry, searches_f}
use rimstone.Tree.Spec.{find, place, remove, last_lesser, first_greater}
use rimstone.Tree.Key.{same}
use rimstone.Tree.{
  Cursor, okay, err_exist, insert, occupy, insert_below, child, link, rebalance, balance, rotate,
  update_height, is_null, lean_left, lean_right, lesser,
}

abbrev cursor : Cursor TextKey ℕ
cursor = record { current = none; status = okay; res = none; count = 0 }

abbrev ka : TextKey
ka = (codes "a", omega arith)

abbrev kb : TextKey
kb = (codes "b", omega arith)

abbrev kc : TextKey
kc = (codes "c", omega arith)

empty-IsValid : IsValid {K = TextKey} {V = ℕ} tree_create
unfolding tree_create
empty-IsValid = record { balanced = tt; sorted = tt; counted = refl }

insert_f-place_example :
    let t : Tree TextKey ℕ = tree_create in
    IsValid (insert_f ka 1 cursor t).0
    × (to_list (insert_f ka 1 cursor t).0.root ≡ place ka 1 (to_list t.root))
    × ((insert_f ka 1 cursor t).1
        ≡ inserted ka 1 (record cursor { count = t.count }) (find ka (to_list t.root)))
insert_f-place_example = insert_f-place ka 1 cursor tree_create empty-IsValid

abbrev one : Tree TextKey ℕ
one = (insert_f ka 1 cursor tree_create).0

abbrev two : Tree TextKey ℕ
two = (insert_f kb 2 cursor one).0

abbrev three : Tree TextKey ℕ
three = (insert_f kc 3 cursor two).0

three-IsValid : IsValid three
three-IsValid =
    (insert_f-place kc 3 cursor two
      (insert_f-place kb 2 cursor one (insert_f-place ka 1 cursor tree_create empty-IsValid).0).0).0

delete_f-remove_example :
    IsValid (delete_f kb cursor three).0
    × (to_list (delete_f kb cursor three).0.root ≡ remove kb (to_list three.root))
    × ((delete_f kb cursor three).1
        ≡ deleted (record cursor { count = three.count }) (find kb (to_list three.root)))
delete_f-remove_example = delete_f-remove kb cursor three three-IsValid

searches_f_example :
    let c : Cursor TextKey ℕ = record cursor { count = three.count } in
    let es = to_list three.root in
    (search_f kb cursor three ≡ conclude c (entry kb (find kb es)))
    × (search_lesser_equal_f false kb cursor three ≡ conclude c (last_lesser false kb none es))
    × (search_greater_equal_f false kb cursor three ≡ conclude c (first_greater false kb es))
searches_f_example = searches_f false kb cursor three three-IsValid.sorted

program : Unit {0}
unfolding text_order compare_text tree_compare tree_create insert_f insert occupy insert_below child
    link rebalance balance rotate update_height is_null delete_f delete delete_here delete_below
    find_leaf_del search_f search_node conclude lean_left lean_right
program = tt

three-count : three.count < 4
unfolding program
three-count = omega arith

-- Three ascending keys are turned into a tree of two levels.
three_rotated : to_list (lesser three.root) ≡ (ka, 1) ∷ []
unfolding program lesser
three_rotated = refl

search_deleted : (search_f kb cursor (delete_f kb cursor three).0).status ≡ err_exist
unfolding program
search_deleted = refl

purge-count_example :
    IsValid (purge 4 cursor three).0
    × (to_list (purge 4 cursor three).0.root ≡ [])
    × ((purge 4 cursor three).1.status ≡ err_exist)
purge-count_example = purge-count 4 cursor three three-IsValid three-count

str_conflates_example : tree_compare str (codes "a") (codes "a" ++ 0 ∷ codes "b") ≡ same
str_conflates_example = str_conflates (codes "a") (codes "b")
