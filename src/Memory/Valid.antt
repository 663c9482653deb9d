-- ===== src/Memory/Valid.antt =====
-- A well-formed table of rimmem.c. A step takes an entry out of its list, so that it is loose, and
-- puts it into another one.
use rimstone.Base.{
  ℕ, ◌<◌, ◌≡◌, refl, sym, ap, subst, ◌∙◌, ◌≢◌, inl, inr, true, false, not, ◌||◌, Option, none, some,
  List, ◌==◌, Bool-cases, ==→≡, ==-false, ≢→==-false,
}
use mathlib.Core.Option.{some-injective}
use rimstone.Base.Results.{none≢some}
use rimstone.Memory.{Entry, Head, Mem, put, id_at, set_entry}
use rimstone.Memory.Chain.{has, Chain, AreDistinct, AreBelow, put_other, Chain-put}

-- `ord` are the ordinary entries and `free` the free ones, in the order of their lists; every other
-- entry is that of a process block, but for the loose one. The entries that are not free lead to
-- blocks whose headers lead back.
pub record IsValidAt (loose : Option ℕ) (ord free : List ℕ) (vm : ℕ → Entry) (curr : ℕ)
    (first_free first_ord : Option ℕ) (heap : ℕ → Option Head) : Type 0 where
  pub ord_chain : Chain vm first_ord ord
  pub free_chain : Chain vm first_free free
  pub ord_apart : AreDistinct ord
  pub free_apart : AreDistinct free
  pub disjoint : (i : ℕ) → has i ord ≡ true → has i free ≡ false
  pub ord_below : AreBelow curr ord
  pub free_below : AreBelow curr free
  pub live :
      (i : ℕ) → i < curr → loose ≢ some i → has i free ≡ false → id_at (vm i).ptr heap ≡ some i
  pub processes :
      (i : ℕ) → i < curr → loose ≢ some i → (vm i).is_process ≡ not (has i ord || has i free)
  pub frees : (i : ℕ) → i < curr → loose ≢ some i → (vm i).is_free ≡ has i free
  pub loose_out : (i : ℕ) → loose ≡ some i → (has i ord ≡ false) × (has i free ≡ false) × (i < curr)

abbrev pub IsLoose : Option ℕ → List ℕ → List ℕ → Mem → Type 0
IsLoose loose ord free m = IsValidAt loose ord free m.vm m.curr m.first_free m.first_ord m.heap

abbrev pub IsValid : List ℕ → List ℕ → Mem → Type 0
IsValid = IsLoose none

-- The entry's block has a header that leads back to it.
abbrev pub IsLive : Mem → ℕ → Type 0
IsLive m i = id_at (m.vm i).ptr m.heap ≡ some i

pub id_at-put :
    (q : Option ℕ) (heap : ℕ → Option Head) (p : ℕ) (h : Option Head)
    → q ≢ some p
    → id_at q (put heap p h) ≡ id_at q heap
unfolding id_at put
id_at-put none heap p h apart = refl
id_at-put (some q) heap p h apart = rw (≢→==-false q p (λ e. apart (ap some e)), id_at) refl

-- An address whose header leads to one entry is the block of no other.
pub owner-apart :
    (m : Mem) (x r i : ℕ)
    → id_at (some x) m.heap ≡ some r
    → i ≢ r
    → IsLive m i
    → (m.vm i).ptr ≢ some x
owner-apart m x r i owner apart live e =
    apart (sym (some-injective r i (sym owner ∙ ap (λ q. id_at q m.heap) (sym e) ∙ live)))

-- An address without a header is the block of no entry.
pub fresh-apart : (m : Mem) (x i : ℕ) → m.heap x ≡ none → IsLive m i → (m.vm i).ptr ≢ some x
unfolding id_at
fresh-apart m x i fresh live e =
    none≢some (sym (rw (fresh, id_at) refl) ∙ ap (λ q. id_at q m.heap) (sym e) ∙ live)

pub at_or_other : (P : ℕ → Type 0) (r : ℕ) → P r → ((i : ℕ) → i ≢ r → P i) → (i : ℕ) → P i
at_or_other P r here there i = elim (Bool-cases (i == r)) [
  | inl e ↦ subst P (sym (==→≡ i r e)) here
  | inr e ↦ there i (==-false i r e)
]

pub not_this : (r i : ℕ) → i ≢ r → (◌≢◌ {A = Option ℕ} (some r) (some i))
not_this r i h e = h (sym (some-injective r i e))

pub none_loose : {i : ℕ} → (◌≢◌ {A = Option ℕ} none (some i))
none_loose = none≢some

module _ (r : ℕ) (ord free : List ℕ) where
  -- The loose entry may be changed at will.
  pub IsLoose-put :
      (m : Mem) (e : Entry)
      → IsLoose (some r) ord free m
      → IsLoose (some r) ord free (set_entry r e m)
  IsLoose-put m e h =
      let (out_ord, out_free, below) = h.loose_out r refl in
      record {
        ord_chain = Chain-put m.vm r e m.first_ord ord out_ord h.ord_chain;
        free_chain = Chain-put m.vm r e m.first_free free out_free h.free_chain;
        ord_apart = h.ord_apart;
        free_apart = h.free_apart;
        disjoint = h.disjoint;
        ord_below = h.ord_below;
        free_below = h.free_below;
        live = λ i le apart out.
            ap (λ (x : Entry). id_at x.ptr m.heap) (kept m e i apart) ∙ h.live i le apart out;
        processes = λ i le apart.
            ap (λ (x : Entry). x.is_process) (kept m e i apart) ∙ h.processes i le apart;
        frees = λ i le apart. ap (λ (x : Entry). x.is_free) (kept m e i apart) ∙ h.frees i le apart;
        loose_out = h.loose_out;
      }
    where
      kept :
          (m : Mem) (e : Entry) (i : ℕ)
          → (◌≢◌ {A = Option ℕ} (some r) (some i))
          → put m.vm r e i ≡ m.vm i
      kept m e i apart = put_other m.vm r e i (λ q. apart (ap some (sym q)))

  pub IsLoose-heap :
      (m : Mem) (x : ℕ) (hd : Option Head)
      → IsLoose (some r) ord free m
      → ((i : ℕ) → i ≢ r → IsLive m i → (m.vm i).ptr ≢ some x)
      → IsLoose (some r) ord free (record m { heap = put m.heap x hd })
  IsLoose-heap m x hd h apart = record {
    ord_chain = h.ord_chain;
    free_chain = h.free_chain;
    ord_apart = h.ord_apart;
    free_apart = h.free_apart;
    disjoint = h.disjoint;
    ord_below = h.ord_below;
    free_below = h.free_below;
    live = λ i le loose out.
        let lives = h.live i le loose out in
        id_at-put (m.vm i).ptr m.heap x hd (apart i (λ e. loose (ap some (sym e))) lives) ∙ lives;
    processes = h.processes;
    frees = h.frees;
    loose_out = h.loose_out;
  }
