-- ===== src/Memory/Held.antt =====
-- What the C code that holds a block of rimmem.c may rely on: the block has an entry in use, with
-- this bit for process memory and this count of references, whatever the index of the entry.
use rimstone.Base.{
  ℕ, suc, ◌<◌, ◌≡◌, sym, ap, ◌∙◌, ◌≢◌, Bool, false, Option, none, some, List, ◌∷◌, ◌==◌, arith, inl,
  inr, Bool-cases, ==→≡, ==-false,
}
use mathlib.Core.Option.{some-injective}
use rimstone.Memory.{Entry, Mem, put, id_at, add_ord, release, set_entry, swap}
use rimstone.Memory.Chain.{has, put_other, has-cons, cons-has}
use rimstone.Memory.Valid.{IsValid, IsLive, none_loose, not_this}
use rimstone.Memory.Detach.{at_r, at_other}

pub record IsHeldAt (loose : Option ℕ) (free : List ℕ) (vm : ℕ → Entry) (curr x : ℕ) (proc : Bool)
    (count : ℕ) : Type 0 where
  pub index : ℕ
  pub points : (vm index).ptr ≡ some x
  pub used : has index free ≡ false
  pub inside : index < curr
  pub tight : loose ≢ some index
  pub process : (vm index).is_process ≡ proc
  pub reference : (vm index).ref ≡ count

abbrev pub IsHeld : Option ℕ → List ℕ → Mem → ℕ → Bool → ℕ → Type 0
IsHeld loose free m = IsHeldAt loose free m.vm m.curr

-- The header of a held block leads to its entry.
pub held-id :
    {free : List ℕ} {x : ℕ} {proc : Bool} {count : ℕ} (m : Mem) (ord : List ℕ)
    → IsValid ord free m
    → (h : IsHeld none free m x proc count) → id_at (some x) m.heap ≡ some h.index
held-id m ord valid h =
    ap (λ p. id_at p m.heap) (sym h.points) ∙ valid.live h.index h.inside none_loose h.used

module _ {free : List ℕ} {q : ℕ} {proc : Bool} {count : ℕ} where
  -- An entry that stays as it is but for its `next`.
  pub held-same :
      {loose : Option ℕ} (m : Mem) (vm : ℕ → Entry) (e : Entry)
      → (h : IsHeld loose free m q proc count)
      → vm h.index ≡ record (m.vm h.index) { next = e.next }
      → IsHeldAt loose free vm m.curr q proc count
  held-same m vm e h same = record {
    index = h.index;
    points = ap (λ (x : Entry). x.ptr) same ∙ h.points;
    used = h.used;
    inside = h.inside;
    tight = h.tight;
    process = ap (λ (x : Entry). x.is_process) same ∙ h.process;
    reference = ap (λ (x : Entry). x.ref) same ∙ h.reference;
  }

  pub held-put :
      (r : ℕ) (e : Entry) (m : Mem)
      → IsHeld (some r) free m q proc count
      → IsHeld (some r) free (set_entry r e m) q proc count
  held-put r e m h =
      held-same m (put m.vm r e) (m.vm h.index) h
        (put_other m.vm r e h.index (λ e. h.tight (ap some (sym e))))

  -- The loose entry is put back.
  pub held-close :
      (r : ℕ) (m : Mem) → IsHeld (some r) free m q proc count → IsHeld none free m q proc count
  held-close r m h = record {
    index = h.index;
    points = h.points;
    used = h.used;
    inside = h.inside;
    tight = none_loose;
    process = h.process;
    reference = h.reference;
  }

  pub held-add_ord :
      (r : ℕ) (m : Mem)
      → IsHeld (some r) free m q proc count
      → IsHeld none free (add_ord r m) q proc count
  unfolding add_ord
  held-add_ord r m h = held-close r (add_ord r m) (held-put r _ m h)

  pub held-release :
      (r : ℕ) (m : Mem)
      → IsHeld (some r) free m q proc count
      → IsHeld none (r ∷ free) (release r m) q proc count
  unfolding release
  held-release r m h =
      let g = held-put r _ m h in
      record {
        index = g.index;
        points = g.points;
        used = cons-has g.index r free (λ e. g.tight (ap some (sym e))) g.used;
        inside = g.inside;
        tight = none_loose;
        process = g.process;
        reference = g.reference;
      }

  pub held-open-free :
      (r : ℕ) (m : Mem)
      → IsHeld none (r ∷ free) m q proc count
      → IsHeld (some r) free m q proc count
  held-open-free r m h =
      let (apart, used) = has-cons h.index r free h.used in
      record {
        index = h.index;
        points = h.points;
        used = used;
        inside = h.inside;
        tight = not_this r h.index apart;
        process = h.process;
        reference = h.reference;
      }

  -- An entry that is made loose is that of another block.
  pub held-loose :
      (r : ℕ) (m : Mem)
      → (m.vm r).ptr ≢ some q
      → IsHeld none free m q proc count
      → IsHeld (some r) free m q proc count
  held-loose r m apart h = record {
    index = h.index;
    points = h.points;
    used = h.used;
    inside = h.inside;
    tight = λ e. apart (ap (λ i. (m.vm i).ptr) (some-injective r h.index e) ∙ h.points);
    process = h.process;
    reference = h.reference;
  }

  pub held-open-new :
      (m : Mem)
      → IsHeld none free m q proc count
      → IsHeldAt (some m.curr) free m.vm (suc m.curr) q proc count
  held-open-new m h = record {
    index = h.index;
    points = h.points;
    used = h.used;
    inside = omega (arith, h.inside);
    tight = not_this m.curr h.index (λ e. omega (arith, e, h.inside));
    process = h.process;
    reference = h.reference;
  }

  -- The swap moves the entry of the first block to `r`.
  pub held-swap :
      (r f : ℕ) (m : Mem)
      → r ≢ f
      → IsLive m r
      → IsLive m f
      → has r free ≡ false
      → r < m.curr
      → (m.vm r).ptr ≢ some q
      → IsHeld none free m q proc count
      → IsHeld (some f) free (swap r f m) q proc count
  unfolding swap
  held-swap r f m other live_r live_f used below apart h =
      let here : (swap r f m).vm r ≡ record (m.vm f) { next = (m.vm r).next } =
        at_r m r f other live_r live_f in
      elim (Bool-cases (h.index == f)) [
        | inl e ↦
            let there : m.vm f ≡ m.vm h.index = ap m.vm (sym (==→≡ h.index f e)) in
            record {
              index = r;
              points =
                  ap (λ (x : Entry). x.ptr)
                    (here ∙ ap (λ (x : Entry). record x { next = (m.vm r).next }) there)
                  ∙ h.points;
              used = used;
              inside = below;
              tight = not_this f r other;
              process =
                  ap (λ (x : Entry). x.is_process)
                    (here ∙ ap (λ (x : Entry). record x { next = (m.vm r).next }) there)
                  ∙ h.process;
              reference =
                  ap (λ (x : Entry). x.ref)
                    (here ∙ ap (λ (x : Entry). record x { next = (m.vm r).next }) there)
                  ∙ h.reference;
            }
        | inr e ↦
            let same : (swap r f m).vm h.index ≡ m.vm h.index =
              at_other m r f other live_r live_f h.index
                (λ q. apart (ap (λ i. (m.vm i).ptr) (sym q) ∙ h.points)) (==-false h.index f e) in
            record {
              index = h.index;
              points = ap (λ (x : Entry). x.ptr) same ∙ h.points;
              used = h.used;
              inside = h.inside;
              tight = not_this f h.index (==-false h.index f e);
              process = ap (λ (x : Entry). x.is_process) same ∙ h.process;
              reference = ap (λ (x : Entry). x.ref) same ∙ h.reference;
            }
      ]
