-- ===== src/Memory/Move.antt =====
-- rimmem.c: a block that libc's realloc moves, in a well-formed table.
use rimstone.Base.{ℕ, ◌<◌, ◌≡◌, refl, sym, ap, ◌∙◌, ◌≢◌, Bool, false, Option, none, some, List}
use mathlib.Core.Option.{some-injective}
use rimstone.Base.Results.{none≢some}
use rimstone.Memory.{Entry, Head, Mem, put, id_at}
use rimstone.Memory.Growing.{move}
use rimstone.Memory.Chain.{has, Chain-same, put_self, put_other}
use rimstone.Memory.Valid.{
  IsValid, IsLive, none_loose, at_or_other, id_at-put, owner-apart, fresh-apart,
}
use rimstone.Memory.Held.{IsHeld}

module _ (x q r : ℕ) (ord unused : List ℕ) (m : Mem) (valid : IsValid ord unused m)
    (points : (m.vm r).ptr ≡ some x) (used : has r unused ≡ false) (inside : r < m.curr)
    (fresh : m.heap q ≡ none) where
  abbrev pub moved : Mem
  moved = record m {
    vm = put m.vm r (record (m.vm r) { ptr = some q });
    heap = put (put m.heap q (m.heap x)) x none;
  }

  pub move-moved : move r q m ≡ moved
  unfolding move
  move-moved = rw (points, move) refl

  -- What the new address does not change.
  move-same :
      {A : Type 0} (f : Entry → A)
      → f (record (m.vm r) { ptr = some q }) ≡ f (m.vm r)
      → (i : ℕ) → f (moved.vm i) ≡ f (m.vm i)
  move-same f same =
      at_or_other (λ i. f (moved.vm i) ≡ f (m.vm i)) r (ap f (put_self m.vm r _) ∙ same)
        (λ i apart. ap f (put_other m.vm r _ i apart))

  live : IsLive m r
  live = valid.live r inside none_loose used

  owner : id_at (some x) m.heap ≡ some r
  owner = ap (λ p. id_at p m.heap) (sym points) ∙ live

  pub apart : q ≢ x
  unfolding id_at
  apart e = none≢some (sym (rw (ap m.heap (sym e) ∙ fresh, id_at) refl) ∙ owner)

  head-moved : id_at (some q) (put m.heap q (m.heap x)) ≡ id_at (some x) m.heap
  unfolding id_at
  head-moved =
      ap (λ (h : Option Head). elim h [ none ↦ none | some d ↦ d.id ])
        (put_self m.heap q (m.heap x))

  pub moved-IsLive : IsLive moved r
  moved-IsLive =
      ap (λ (e : Entry). id_at e.ptr moved.heap) (put_self m.vm r _)
      ∙ id_at-put (some q) (put m.heap q (m.heap x)) x none (λ e. apart (some-injective q x e))
      ∙ head-moved
      ∙ owner

  others-IsLive : (i : ℕ) → i ≢ r → IsLive m i → IsLive moved i
  others-IsLive i other lives =
      ap (λ (e : Entry). id_at e.ptr moved.heap) (put_other m.vm r _ i other)
      ∙ id_at-put (m.vm i).ptr (put m.heap q (m.heap x)) x none
          (owner-apart m x r i owner other lives)
      ∙ id_at-put (m.vm i).ptr m.heap q (m.heap x) (fresh-apart m q i fresh lives)
      ∙ lives

  pub moved-IsValid : IsValid ord unused moved
  moved-IsValid = record {
    ord_chain =
        Chain-same m.vm moved.vm m.first_ord ord (λ i _. move-same (λ e. e.next) refl i)
          valid.ord_chain;
    free_chain =
        Chain-same m.vm moved.vm m.first_free unused (λ i _. move-same (λ e. e.next) refl i)
          valid.free_chain;
    ord_apart = valid.ord_apart;
    free_apart = valid.free_apart;
    disjoint = valid.disjoint;
    ord_below = valid.ord_below;
    free_below = valid.free_below;
    live =
        at_or_other (λ i. i < m.curr → none ≢ some i → has i unused ≡ false → IsLive moved i) r
          (λ _ _ _. moved-IsLive)
          (λ i other le loose out. others-IsLive i other (valid.live i le loose out));
    processes = λ i le loose. move-same (λ e. e.is_process) refl i ∙ valid.processes i le loose;
    frees = λ i le loose. move-same (λ e. e.is_free) refl i ∙ valid.frees i le loose;
    loose_out = valid.loose_out;
  }

  pub moved-points : (moved.vm r).ptr ≡ some q
  moved-points = ap (λ (e : Entry). e.ptr) (put_self m.vm r _)

  pub moved-process : (moved.vm r).is_process ≡ (m.vm r).is_process
  moved-process = move-same (λ e. e.is_process) refl r

  pub moved-kept :
      {p : ℕ} {proc : Bool} {count : ℕ}
      → p ≢ x
      → IsHeld none unused m p proc count
      → IsHeld none unused moved p proc count
  moved-kept {p = p} other h =
      let same : moved.vm h.index ≡ m.vm h.index = put_other m.vm r _ h.index (λ e.
        other
          (sym (some-injective x p (sym points ∙ ap (λ i. (m.vm i).ptr) (sym e) ∙ h.points)))) in
      record {
        index = h.index;
        points = ap (λ (e : Entry). e.ptr) same ∙ h.points;
        used = h.used;
        inside = h.inside;
        tight = none_loose;
        process = ap (λ (e : Entry). e.is_process) same ∙ h.process;
        reference = ap (λ (e : Entry). e.ref) same ∙ h.reference;
      }
