-- ===== src/Fifo/Tests.antt =====
-- Runs of sequential lists, and the theorems at concrete ones.
use rimstone.Base.{ℕ, ◌≡◌, refl, Option, none, some, [], ◌∷◌, arith}
use rimstone.Base.Words.{Bytes, codes}
use rimstone.Fifo.{Memory, Fifo, Reply, no_more, put, store, store_l, retrieve, fifo_delete, purge}
use rimstone.Fifo.Chain.{Cell, Links, AreBelow, has, last_of}
use rimstone.Fifo.Queue.{Holds, enqueue, new_cell, store-Holds}
use rimstone.Fifo.Retrieve.{Retrieved, retrieve-Holds, store_l-Holds, store-lost}
use rimstone.Fifo.Delete.{fifo_delete-Holds, purge-Holds}

abbrev name : Bytes
name = codes "key"

abbrev memory : Memory ℕ
memory =
    put (put (λ _. none) 5 (record { data_of = 50; name = name; next = some 6 })) 6
      (record { data_of = 60; name = name; next = none })

abbrev five : Cell ℕ
five = record { place = 5; name = name; value = 50 }

abbrev six : Cell ℕ
six = record { place = 6; name = name; value = 60 }

-- Two elements, of which those before `at` were read.
abbrev two : Option ℕ → Fifo ℕ
two at = record {
  first_ptr = some 5;
  num_of = 2;
  last_ptr = some 6;
  retrieve_ptr = at;
  memory = memory;
  fresh = 7;
}

half_read : Holds (five ∷ []) (six ∷ []) (two (some 6))
unfolding Links AreBelow has last_of put
half_read = record {
  links = (refl, refl, (refl, refl, tt));
  first = refl;
  retrieve_at = refl;
  last = refl;
  count = refl;
  below = (omega arith, (omega arith, tt));
}

all_read : Holds (five ∷ six ∷ []) [] (two none)
unfolding Links AreBelow has last_of put
all_read = record {
  links = (refl, refl, (refl, refl, tt));
  first = refl;
  retrieve_at = refl;
  last = refl;
  count = refl;
  below = (omega arith, (omega arith, tt));
}

store-Holds_example :
    (f' : Fifo ℕ) × (store name 70 (two (some 6)) ≡ some f')
    × Holds
        (enqueue (five ∷ []) (six ∷ []) (new_cell name 70 (two (some 6)))).0
        (enqueue (five ∷ []) (six ∷ []) (new_cell name 70 (two (some 6)))).1
        f'
store-Holds_example = store-Holds (five ∷ []) (six ∷ []) name 70 (two (some 6)) half_read

retrieve-Holds_example :
    (r : Reply ℕ) × (f' : Fifo ℕ) × (retrieve (two (some 6)) ≡ some (r, f'))
    × Retrieved (five ∷ []) (six ∷ []) r f'
retrieve-Holds_example = retrieve-Holds (five ∷ []) (six ∷ []) (two (some 6)) half_read

front_of_two :
    Holds [] (new_cell name 70 (two none) ∷ (five ∷ six ∷ [])) (store_l name 70 (two none))
front_of_two = store_l-Holds (five ∷ six ∷ []) [] name 70 (two none) all_read

store-lost_example :
    (f' : Fifo ℕ) × (store name 70 (two none) ≡ some f') × (retrieve f' ≡ some (no_more, f'))
store-lost_example = store-lost five (six ∷ []) name 70 (two none) all_read

fifo_delete-Holds_example :
    (f' : Fifo ℕ) × (fifo_delete (two (some 6)) ≡ some f') × Holds [] (six ∷ []) f'
fifo_delete-Holds_example = fifo_delete-Holds (five ∷ []) (six ∷ []) (two (some 6)) half_read

purge-two : (f' : Fifo ℕ) × (purge (two (some 6)) ≡ some f') × Holds [] [] f'
purge-two = purge-Holds (five ∷ []) (six ∷ []) (two (some 6)) half_read
