-- ===== src/Memory/Examples.antt =====
-- rimmem.c on a table of four entries: an ordinary block at 100, another one at 200, a process
-- block at 300 and a free entry.
use rimstone.Base.{
  ℕ, zero, suc, ◌+◌, ◌<◌, ◌≡◌, refl, Bool, true, false, not, ◌||◌, Option, none, some, List, [],
  ◌∷◌, arith, length,
}
use mathlib.Core.Bool.{true≢false}
use rimstone.Base.Results.{none≢some, okay}
use rimstone.Memory.{Entry, Head, Mem, put, id_at, malloc, free}
use rimstone.Memory.Counting.{add_ref, dec_process}
use rimstone.Memory.Ending.{done}
use rimstone.Memory.Growing.{realloc}
use rimstone.Memory.Chain.{has, Chain, AreDistinct, AreBelow}
use rimstone.Memory.Valid.{IsValid}
use rimstone.Memory.Held.{IsHeld}
use rimstone.Memory.Give.{free-IsValid, free-IsHeld}
use rimstone.Memory.Malloc.{malloc-IsValid}
use rimstone.Memory.Counts.{add_ref-IsValid, dec_process-IsValid, dec_process-add_ref}
use rimstone.Memory.Done.{done-IsValid, done-gone}
use rimstone.Memory.Realloc.{realloc-IsValid}

abbrev block : Option ℕ → Option ℕ → Bool → Bool → ℕ → Entry
block p n free process count = record {
  ptr = p;
  next = n;
  is_free = free;
  is_file = false;
  is_dir = false;
  is_process = process;
  ref = count;
}

abbrev entries : ℕ → Entry
entries =
    put
      (put (put (λ _. block none none true false 0) 0 (block (some 100) none false false 0)) 1
        (block (some 200) (some 0) false false 0))
      2 (block (some 300) none false true 1)

abbrev headers : ℕ → Option Head
headers =
    put
      (put (put (λ _. none) 100 (some (record { id = some 0; len = 8 }))) 200
        (some (record { id = some 1; len = 16 })))
      300 (some (record { id = some 2; len = 24 }))

abbrev table : Mem
table = record {
  vm = entries;
  curr = 4;
  tot = 512;
  first_free = some 3;
  first_ord = some 1;
  process = false;
  heap = headers;
}

one_of_four : (P : ℕ → Type 0) → P 0 → P 1 → P 2 → P 3 → (i : ℕ) → i < 4 → P i
one_of_four P a b c d zero h = a
one_of_four P a b c d (suc zero) h = b
one_of_four P a b c d (suc (suc zero)) h = c
one_of_four P a b c d (suc (suc (suc zero))) h = d
one_of_four P a b c d (suc (suc (suc (suc i)))) h = absurd (omega (arith, h))

table-IsValid : IsValid (1 ∷ 0 ∷ []) (3 ∷ []) table
unfolding Chain AreDistinct AreBelow has put id_at
table-IsValid = record {
  ord_chain = (refl, (refl, refl));
  free_chain = (refl, refl);
  ord_apart = (refl, (refl, tt));
  free_apart = (refl, tt);
  disjoint = λ i h. ground arith;
  ord_below = (omega arith, (omega arith, tt));
  free_below = (omega arith, tt);
  live = λ i le _ out.
      one_of_four (λ i. has i (3 ∷ []) ≡ false → id_at (entries i).ptr headers ≡ some i) (λ _. refl)
        (λ _. refl) (λ _. refl) (λ e. absurd (true≢false e)) i le out;
  processes = λ i le _.
      one_of_four (λ i. (entries i).is_process ≡ not (has i (1 ∷ 0 ∷ []) || has i (3 ∷ []))) refl
        refl refl refl i le;
  frees =
      λ i le _. one_of_four (λ i. (entries i).is_free ≡ has i (3 ∷ [])) refl refl refl refl i le;
  loose_out = λ i e. absurd (none≢some e);
}

first_held : IsHeld none (3 ∷ []) table 100 false 0
unfolding has put
first_held = record {
  index = 0;
  points = refl;
  used = refl;
  inside = omega arith;
  tight = none≢some;
  process = refl;
  reference = refl;
}

second_held : IsHeld none (3 ∷ []) table 200 false 0
unfolding has put
second_held = record {
  index = 1;
  points = refl;
  used = refl;
  inside = omega arith;
  tight = none≢some;
  process = refl;
  reference = refl;
}

process_held : IsHeld none (3 ∷ []) table 300 true 1
unfolding has put
process_held = record {
  index = 2;
  points = refl;
  used = refl;
  inside = omega arith;
  tight = none≢some;
  process = refl;
  reference = refl;
}

free-IsValid_example :
    (g : Mem) × (f : ℕ) × (rest : List ℕ) × (free 100 table ≡ okay g)
    × (◌≡◌ {A = List ℕ} (1 ∷ 0 ∷ []) (f ∷ rest))
    × IsValid rest (f ∷ 3 ∷ []) g
    × (g.heap 100 ≡ none)
free-IsValid_example = free-IsValid 100 (1 ∷ 0 ∷ []) (3 ∷ []) table table-IsValid first_held

free-IsHeld_example :
    (g : Mem) × (f : ℕ) × (free 100 table ≡ okay g) × IsHeld none (f ∷ 3 ∷ []) g 200 false 0
free-IsHeld_example =
    free-IsHeld 100 (1 ∷ 0 ∷ []) (3 ∷ []) table 200 false 0 table-IsValid first_held (omega arith)
      second_held

malloc-IsValid_example :
    (g : Mem) × (r : ℕ) × (left : List ℕ) × (malloc true 32 (some 400) table ≡ okay (400, g))
    × IsValid (r ∷ 1 ∷ 0 ∷ []) left g
    × IsHeld none left g 400 false 0
    × (g.heap 400 ≡ some (record { id = some r; len = 32 }))
unfolding put
malloc-IsValid_example =
    malloc-IsValid 400 32 (1 ∷ 0 ∷ []) (3 ∷ []) table table-IsValid refl (omega arith)

add_ref-IsValid_example :
    (g : Mem) × (ords : List ℕ) × (add_ref 200 true table ≡ okay g)
    × IsValid ords (3 ∷ []) g
    × IsHeld none (3 ∷ []) g 200 true 1
add_ref-IsValid_example =
    add_ref-IsValid 200 (1 ∷ 0 ∷ []) (3 ∷ []) table false 0 table-IsValid second_held (omega arith)

dec_process-IsValid_example :
    (g : Mem) × (ords : List ℕ) × (dec_process 300 table ≡ okay g)
    × IsValid ords (3 ∷ []) g
    × IsHeld none (3 ∷ []) g 300 false 1
dec_process-IsValid_example =
    dec_process-IsValid 300 (1 ∷ 0 ∷ []) (3 ∷ []) table 0 table-IsValid process_held

dec_process-add_ref_example :
    (g k : Mem) × (ords : List ℕ) × (add_ref 100 true table ≡ okay g)
    × (dec_process 100 g ≡ okay k)
    × IsValid ords (3 ∷ []) k
    × IsHeld none (3 ∷ []) k 100 false 1
    × (free 100 k ≡ okay k)
dec_process-add_ref_example =
    dec_process-add_ref 100 (1 ∷ 0 ∷ []) (3 ∷ []) table 0 table-IsValid first_held (omega arith)

done-IsValid_example :
    (g : Mem) × (used : List ℕ) × (done 3 table ≡ some g)
    × IsValid [] used g
    × (length used ≡ 2 + 1)
done-IsValid_example = done-IsValid 3 (1 ∷ 0 ∷ []) (3 ∷ []) table table-IsValid (omega arith)

done-gone_example : (g : Mem) × (done 3 table ≡ some g) × (g.heap 100 ≡ none)
unfolding has put
done-gone_example =
    done-gone 3 (1 ∷ 0 ∷ []) (3 ∷ []) table 100 0 table-IsValid (omega arith) refl refl refl

realloc-IsValid_example :
    (g : Mem) × (ords : List ℕ) × (realloc true (some 0) 64 (some 400) table ≡ okay (400, g))
    × IsValid ords (3 ∷ []) g
    × IsHeld none (3 ∷ []) g 400 false 0
unfolding put first_held
realloc-IsValid_example =
    realloc-IsValid true 100 400 64 (1 ∷ 0 ∷ []) (3 ∷ []) table false 0 table-IsValid first_held
      refl refl
