-- ===== src/Memory/Detach.antt =====
-- rimmem.c: rim_mem_del_ord, which takes the first of the ordinary entries out of the list, having
-- given it the block to be taken.
use rimstone.Base.{ℕ, ◌≡◌, refl, sym, ap, ◌∙◌, ◌≢◌, inl, inr, Option, none, some, Option-cases}
use mathlib.Core.Option.{some-injective}
use rimstone.Base.Results.{none≢some}
use rimstone.Memory.{Entry, Head, Mem, put, id_at}
use rimstone.Memory.Chain.{put_self, put_other}
use rimstone.Memory.Valid.{IsLive, at_or_other}
use rimstone.Memory.{swap, set_id}
use rimstone.Memory.Valid.{id_at-put}

id_at-some :
    (p : ℕ) (heap : ℕ → Option Head) (hd : Head) → heap p ≡ some hd → id_at (some p) heap ≡ hd.id
unfolding id_at
id_at-some p heap hd e = rw (e, id_at) refl

id_at-none : (p : ℕ) (heap : ℕ → Option Head) → heap p ≡ none → id_at (some p) heap ≡ none
unfolding id_at
id_at-none p heap e = rw (e, id_at) refl

set_id-some :
    (p : ℕ) (id : Option ℕ) (heap : ℕ → Option Head) (hd : Head)
    → heap p ≡ some hd
    → set_id (some p) id heap ≡ put heap p (some (record hd { id = id }))
unfolding set_id
set_id-some p id heap hd e = rw (e, set_id) refl

set_id-none :
    (p : ℕ) (id : Option ℕ) (heap : ℕ → Option Head)
    → heap p ≡ none
    → set_id (some p) id heap ≡ heap
unfolding set_id
set_id-none p id heap e = rw (e, set_id) refl

pub set_id_self :
    (p id : Option ℕ) (heap : ℕ → Option Head) (n : ℕ)
    → id_at p heap ≡ some n
    → id_at p (set_id p id heap) ≡ id
unfolding id_at set_id
set_id_self none id heap n h = absurd (none≢some h)
set_id_self (some p) id heap n h = elim (Option-cases (heap p)) [
  | inl e ↦ absurd (none≢some (sym (id_at-none p heap e) ∙ h))
  | inr (hd, e) ↦
      ap (id_at (some p)) (set_id-some p id heap hd e)
      ∙ id_at-some p (put heap p (some (record hd { id = id }))) (record hd { id = id })
          (put_self heap p (some (record hd { id = id })))
]

pub set_id-other :
    (q p id : Option ℕ) (heap : ℕ → Option Head) → q ≢ p → id_at q (set_id p id heap) ≡ id_at q heap
unfolding set_id
set_id-other q none id heap apart = refl
set_id-other q (some p) id heap apart = elim (Option-cases (heap p)) [
  | inl e ↦ ap (id_at q) (set_id-none p id heap e)
  | inr (hd, e) ↦
      ap (id_at q) (set_id-some p id heap hd e)
      ∙ id_at-put q heap p (some (record hd { id = id })) apart
]

-- Headers with different indices are at different addresses.
pub heads-apart :
    (p q : Option ℕ) (heap : ℕ → Option Head) (i j : ℕ)
    → id_at p heap ≡ some i
    → id_at q heap ≡ some j
    → i ≢ j
    → p ≢ q
heads-apart p q heap i j hp hq apart e =
    apart (some-injective i j (sym hp ∙ ap (λ x. id_at x heap) e ∙ hq))

-- The swap of two entries with blocks, `r` and `f`.
module _ (m : Mem) (r f : ℕ) (apart : r ≢ f) (live_r : IsLive m r) (live_f : IsLive m f) where
  abbrev pub swapped : Mem
  swapped = swap r f m

  pub at_f : (swapped.vm f) ≡ record (m.vm r) { next = (m.vm f).next }
  unfolding swap
  at_f = put_self _ f _

  pub at_r : (swapped.vm r) ≡ record (m.vm f) { next = (m.vm r).next }
  unfolding swap
  at_r = put_other _ f _ r apart ∙ put_self m.vm r _

  pub at_other : (i : ℕ) → i ≢ r → i ≢ f → swapped.vm i ≡ m.vm i
  unfolding swap
  at_other i p q = put_other _ f _ i q ∙ put_other m.vm r _ i p

  pub swapped-next : (i : ℕ) → (swapped.vm i).next ≡ (m.vm i).next
  swapped-next =
      at_or_other (λ i. (swapped.vm i).next ≡ (m.vm i).next) f (ap (λ (x : Entry). x.next) at_f)
        (λ i q.
          at_or_other (λ j. j ≢ f → (swapped.vm j).next ≡ (m.vm j).next) r
            (λ _. ap (λ (x : Entry). x.next) at_r)
            (λ j p q. ap (λ (x : Entry). x.next) (at_other j p q)) i q)

  ptrs_apart : (m.vm r).ptr ≢ (m.vm f).ptr
  ptrs_apart = heads-apart (m.vm r).ptr (m.vm f).ptr m.heap r f live_r live_f apart

  pub IsLive-at_f : IsLive swapped f
  unfolding swap
  IsLive-at_f =
      ap (λ (x : Entry). id_at x.ptr swapped.heap) at_f
      ∙ set_id_self (m.vm r).ptr (id_at (m.vm f).ptr m.heap)
          (set_id (m.vm f).ptr (id_at (m.vm r).ptr m.heap) m.heap) r
          (set_id-other (m.vm r).ptr (m.vm f).ptr _ m.heap ptrs_apart ∙ live_r)
      ∙ live_f

  pub IsLive-at_r : IsLive swapped r
  unfolding swap
  IsLive-at_r =
      ap (λ (x : Entry). id_at x.ptr swapped.heap) at_r
      ∙ set_id-other (m.vm f).ptr (m.vm r).ptr (id_at (m.vm f).ptr m.heap)
          (set_id (m.vm f).ptr (id_at (m.vm r).ptr m.heap) m.heap) (λ e. ptrs_apart (sym e))
      ∙ set_id_self (m.vm f).ptr (id_at (m.vm r).ptr m.heap) m.heap f live_f
      ∙ live_r

  pub same_head :
      (q : Option ℕ) → q ≢ (m.vm r).ptr → q ≢ (m.vm f).ptr → id_at q swapped.heap ≡ id_at q m.heap
  unfolding swap
  same_head q p t =
      set_id-other q (m.vm r).ptr (id_at (m.vm f).ptr m.heap)
        (set_id (m.vm f).ptr (id_at (m.vm r).ptr m.heap) m.heap) p
      ∙ set_id-other q (m.vm f).ptr (id_at (m.vm r).ptr m.heap) m.heap t

  pub IsLive-at_other : (i : ℕ) → i ≢ r → i ≢ f → IsLive m i → IsLive swapped i
  IsLive-at_other i p q live =
      ap (λ (x : Entry). id_at x.ptr swapped.heap) (at_other i p q)
      ∙ same_head (m.vm i).ptr (heads-apart (m.vm i).ptr (m.vm r).ptr m.heap i r live live_r p)
          (heads-apart (m.vm i).ptr (m.vm f).ptr m.heap i f live live_f q)
      ∙ live
