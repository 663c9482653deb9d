-- ===== src/Memory/Give.antt =====
-- rimmem.c: rim_free.
use rimstone.Base.{
  ℕ, ◌≡◌, refl, sym, ap, ◌∙◌, ◌≢◌, Bool, true, false, not, ◌||◌, none, some, List, ◌∷◌, inl, inr,
  Option-cases,
}
use mathlib.Core.Bool.{true≢false}
use mathlib.Core.Option.{some-injective}
use rimstone.Base.Results.{none≢some, okay}
use rimstone.Memory.{Mem, id_at, get_id, release, give_back, free_entry, free, free_int}
use rimstone.Memory.Chain.{has, put_self}
use rimstone.Memory.Valid.{IsValid, none_loose, IsLoose-heap, owner-apart}
use rimstone.Memory.Close.{close-free}
use rimstone.Memory.Held.{IsHeld, held-id, held-release}
use rimstone.Memory.Take.{Deleted, del_ord-Deleted}

pub get_id-some : (x i : ℕ) (m : Mem) → id_at (some x) m.heap ≡ some i → get_id x m ≡ okay (some i)
unfolding id_at get_id
get_id-some x i m h = elim (Option-cases (m.heap x)) [
  | inl e ↦ absurd (none≢some (sym (rw (e, id_at) refl) ∙ h))
  | inr (hd, e) ↦ rw (e, get_id) (ap okay (sym (rw (e, id_at) refl) ∙ h))
]

-- Entries that are neither free nor those of process blocks are ordinary.
pub held-ordinary :
    {x count : ℕ} (ord free : List ℕ) (m : Mem)
    → IsValid ord free m
    → (h : IsHeld none free m x false count) → has h.index ord ≡ true
held-ordinary ord free m valid h =
    of_not (has h.index ord) (has h.index free)
      (sym h.process ∙ valid.processes h.index h.inside none_loose) h.used
  where
    of_not : (a b : Bool) → false ≡ not (a || b) → b ≡ false → a ≡ true
    of_not true b e u = refl
    of_not false true e u = absurd (true≢false u)
    of_not false false e u = absurd (true≢false (sym e))

module _ {x : ℕ} (ord unused : List ℕ) (m : Mem) (valid : IsValid ord unused m)
    (h : IsHeld none unused m x false 0) where
  abbrev pub taken : Deleted h.index ord unused m
  taken = del_ord-Deleted h.index ord unused m valid (held-ordinary ord unused m valid h)

  abbrev pub freed : Mem
  freed = release taken.first (give_back x taken.state)

  entry-freed : free_entry x h.index m ≡ okay freed
  unfolding free_entry
  entry-freed = rw (taken.returns, free_entry) refl

  pub free-freed : free x m ≡ okay freed
  unfolding free
  free-freed =
      rw (get_id-some x h.index m (held-id m ord valid h), free)
        (rw (h.process, h.reference) entry-freed)

  owner : id_at (some x) taken.state.heap ≡ some taken.first
  owner =
      ap (λ p. id_at p taken.state.heap) (sym (taken.detached.ptr ∙ h.points))
      ∙ taken.detached.lives

  pub freed-IsValid : IsValid taken.rest (taken.first ∷ unused) freed
  freed-IsValid = close-free taken.first taken.rest unused (give_back x taken.state) (
      IsLoose-heap taken.first taken.rest unused taken.state x none taken.detached.loose
        (λ i apart lives. owner-apart taken.state x taken.first i owner apart lives))

  pub freed-gone : freed.heap x ≡ none
  unfolding release
  freed-gone = put_self taken.state.heap x none

  pub freed-kept :
      {q : ℕ} {proc : Bool} {count : ℕ}
      → q ≢ x
      → IsHeld none unused m q proc count
      → IsHeld none (taken.first ∷ unused) freed q proc count
  freed-kept {q = q} apart held =
      held-release taken.first (give_back x taken.state)
        (taken.detached.kept (λ e. apart (sym (some-injective x q (sym h.points ∙ e)))) held)

  free_int-freed : free_int (some x) m ≡ okay freed
  unfolding free_int
  free_int-freed = rw (get_id-some x h.index m (held-id m ord valid h), free_int) entry-freed

-- In a well-formed table rim_free of a block that is ordinary and not referenced returns, in a
-- table that is well-formed again: the first of the ordinary entries, into which the block's entry
-- was swapped, is the first of the free ones, and the block is gone.
pub free-IsValid :
    (x : ℕ) (ord unused : List ℕ) (m : Mem)
    → IsValid ord unused m
    → IsHeld none unused m x false 0
    → (g : Mem) × (f : ℕ) × (rest : List ℕ) × (free x m ≡ okay g)
      × (ord ≡ f ∷ rest)
      × IsValid rest (f ∷ unused) g
      × (g.heap x ≡ none)
free-IsValid x ord unused m valid h = (
  freed ord unused m valid h,
  (taken ord unused m valid h).first,
  (taken ord unused m valid h).rest,
  free-freed ord unused m valid h,
  (taken ord unused m valid h).others,
  freed-IsValid ord unused m valid h,
  freed-gone ord unused m valid h,
)

-- In a well-formed table rim_free of a block that is ordinary and not referenced leaves every other
-- block held as it was, with its bit for process memory and its count, although entries have traded
-- places.
pub free-IsHeld :
    (x : ℕ) (ord unused : List ℕ) (m : Mem) (q : ℕ) (proc : Bool) (count : ℕ)
    → IsValid ord unused m
    → IsHeld none unused m x false 0
    → q ≢ x
    → IsHeld none unused m q proc count
    → (g : Mem) × (f : ℕ) × (free x m ≡ okay g) × IsHeld none (f ∷ unused) g q proc count
free-IsHeld x ord unused m q proc count valid h apart held = (
  freed ord unused m valid h,
  (taken ord unused m valid h).first,
  free-freed ord unused m valid h,
  freed-kept ord unused m valid h apart held,
)
