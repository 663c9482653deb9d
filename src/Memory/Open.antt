-- ===== src/Memory/Open.antt =====
-- rimmem.c: taking an entry out of a list of the table.
use rimstone.Base.{
  ℕ, suc, ◌<◌, ◌≡◌, refl, sym, ap, subst, ◌∙◌, ◌≢◌, inl, inr, Bool, true, false, not, ◌||◌, some,
  List, ◌∷◌, ◌==◌, arith, Bool-cases, ==→≡, ==-false,
}
use mathlib.Core.Bool.{true≢false}
use mathlib.Core.Option.{some-injective}
use rimstone.Memory.{Mem}
use rimstone.Memory.Chain.{
  has, Chain, AreDistinct, AreBelow, has-cons, cons-has, has-here, has-skip, AreBelow-mono,
  has-AreBelow,
}
use rimstone.Memory.Valid.{IsLoose, IsValid}
use rimstone.Memory.Valid.{none_loose}

smaller : (n i : ℕ) → i < suc n → i ≢ n → i < n
smaller n i h apart = elim (Bool-cases (i == n)) [
  | inl e ↦ absurd (apart (==→≡ i n e))
  | inr e ↦ omega (arith, ==-false i n e)
]

neither : (a b : Bool) → not (a || b) ≡ true → (a ≡ false) × (b ≡ false)
neither true b h = absurd (true≢false (sym h))
neither false true h = absurd (true≢false (sym h))
neither false false h = (refl, refl)

pub out_of_ord :
    (r : ℕ) (ord free : List ℕ)
    → ((i : ℕ) → has i ord ≡ true → has i free ≡ false)
    → has r free ≡ true
    → has r ord ≡ false
out_of_ord r ord free apart there = elim (Bool-cases (has r ord)) [
  | inl e ↦ absurd (true≢false (sym there ∙ apart r e))
  | inr e ↦ e
]

-- The first of the free entries, taken from its list.
pub open-free :
    (r : ℕ) (ord free : List ℕ) (m : Mem)
    → IsValid ord (r ∷ free) m
    → IsLoose (some r) ord free (record m { first_free = (m.vm r).next })
unfolding Chain AreDistinct AreBelow
open-free r ord free m h =
    let (_, chain) = h.free_chain in
    let (apart, rest_apart) = h.free_apart in
    let (below, rest_below) = h.free_below in
    record {
      ord_chain = h.ord_chain;
      free_chain = chain;
      ord_apart = h.ord_apart;
      free_apart = rest_apart;
      disjoint = λ i there. (has-cons i r free (h.disjoint i there)).1;
      ord_below = h.ord_below;
      free_below = rest_below;
      live = λ i le loose out.
          h.live i le none_loose (cons-has i r free (λ e. loose (ap some (sym e))) out);
      processes = λ i le loose.
          h.processes i le none_loose
          ∙ ap (λ b. not (has i ord || b)) (has-skip i r free (λ e. loose (ap some (sym e))));
      frees =
          λ i le loose. h.frees i le none_loose ∙ has-skip i r free (λ e. loose (ap some (sym e)));
      loose_out = λ i e.
          subst (λ j. (has j ord ≡ false) × (has j free ≡ false) × (j < m.curr))
            (some-injective r i e)
            (out_of_ord r ord (r ∷ free) h.disjoint (has-here r free), apart, below);
    }

-- An entry that was not used before.
pub open-new :
    (ord free : List ℕ) (m : Mem) (tot : ℕ)
    → IsValid ord free m
    → IsLoose (some m.curr) ord free (record m { curr = suc m.curr; tot = tot })
open-new ord free m tot h = record {
  ord_chain = h.ord_chain;
  free_chain = h.free_chain;
  ord_apart = h.ord_apart;
  free_apart = h.free_apart;
  disjoint = h.disjoint;
  ord_below = AreBelow-mono m.curr (suc m.curr) ord (omega arith) h.ord_below;
  free_below = AreBelow-mono m.curr (suc m.curr) free (omega arith) h.free_below;
  live = λ i le loose out.
      h.live i (smaller m.curr i le (λ e. loose (ap some (sym e)))) none_loose out;
  processes =
      λ i le loose. h.processes i (smaller m.curr i le (λ e. loose (ap some (sym e)))) none_loose;
  frees = λ i le loose. h.frees i (smaller m.curr i le (λ e. loose (ap some (sym e)))) none_loose;
  loose_out = λ i e.
      subst (λ j. (has j ord ≡ false) × (has j free ≡ false) × (j < suc m.curr))
        (some-injective m.curr i e)
        (
          has-AreBelow m.curr m.curr ord h.ord_below (omega arith),
          has-AreBelow m.curr m.curr free h.free_below (omega arith),
          omega arith,
        );
}

-- An entry in no list, that of a process block.
pub open-process :
    (r : ℕ) (ord free : List ℕ) (m : Mem)
    → IsValid ord free m
    → r < m.curr
    → (m.vm r).is_process ≡ true
    → IsLoose (some r) ord free m
open-process r ord free m h below proc = record {
  ord_chain = h.ord_chain;
  free_chain = h.free_chain;
  ord_apart = h.ord_apart;
  free_apart = h.free_apart;
  disjoint = h.disjoint;
  ord_below = h.ord_below;
  free_below = h.free_below;
  live = λ i le _ out. h.live i le none_loose out;
  processes = λ i le _. h.processes i le none_loose;
  frees = λ i le _. h.frees i le none_loose;
  loose_out = λ i e.
      let (a, b) = neither (has r ord) (has r free) (sym (h.processes r below none_loose) ∙ proc) in
      subst (λ j. (has j ord ≡ false) × (has j free ≡ false) × (j < m.curr)) (some-injective r i e)
        (a, b, below);
}
