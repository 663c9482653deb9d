-- ===== src/Linked/Tests.antt =====
-- The doubly linked lists on a list of one element, which is current.
use rimstone.Base.{ℕ, ◌≡◌, refl, true, false, none, some, [], ◌∷◌, arith}
use rimstone.Fifo.Chain.{Cell, has}
use rimstone.Linked.{
  Linked, done, list_last, list_delete, list_retrieve, list_store, list_purge, position_list,
}
use rimstone.Linked.Zipper.{Before, After, AreApart, end_of, IsZipper}
use rimstone.Linked.Store.{list_store-IsZipper}
use rimstone.Linked.Delete.{list_delete-IsZipper}
use rimstone.Linked.Position.{position_list-IsZipper, Reaches}
use rimstone.Linked.Purge.{list_purge-IsZipper, list_retrieve-list_store}

abbrev cell : Cell ℕ
cell = record { place = 0; name = 97 ∷ []; value = 7 }

abbrev one : Linked ℕ
one = record {
  first = some 0;
  num_of = 1;
  last = some 0;
  curr = some 0;
  nodes = λ _. record { data_of = 7; name = 97 ∷ []; next = none; prev = none };
  fresh = 1;
}

one-IsZipper : IsZipper [] (cell ∷ []) one
unfolding Before After AreApart end_of has
one-IsZipper = record {
  left = tt;
  right = (refl, tt);
  left_apart = tt;
  right_apart = (refl, tt);
  apart = λ a there. refl;
  starts = refl;
  ends = refl;
  here = refl;
  count = refl;
  new = λ a le. (refl, ground (arith, le));
}

list_store-IsZipper_example :
    (k : Linked ℕ) × (list_store (98 ∷ []) 8 true one ≡ some k)
    × IsZipper (cell ∷ []) (record { place = 1; name = 98 ∷ []; value = 8 } ∷ []) k
list_store-IsZipper_example = list_store-IsZipper (98 ∷ []) 8 true [] (cell ∷ []) one one-IsZipper

list_delete-IsZipper_example : (k : Linked ℕ) × (list_delete one ≡ (done, k)) × IsZipper [] [] k
list_delete-IsZipper_example = list_delete-IsZipper cell [] [] one one-IsZipper

position_list-IsZipper_example : Reaches (position_list list_last one) (done, [], cell ∷ [])
position_list-IsZipper_example = position_list-IsZipper list_last [] (cell ∷ []) one one-IsZipper

list_purge-IsZipper_example : (k : Linked ℕ) × (list_purge 2 one ≡ some k) × IsZipper [] [] k
list_purge-IsZipper_example = list_purge-IsZipper 2 [] (cell ∷ []) one one-IsZipper (omega arith)

list_retrieve-list_store_example :
    (k : Linked ℕ) × (list_store (98 ∷ []) 8 false one ≡ some k)
    × (list_retrieve k ≡ some (98 ∷ [], 8))
list_retrieve-list_store_example =
    list_retrieve-list_store (98 ∷ []) 8 false [] (cell ∷ []) one one-IsZipper
