-- ===== src/Memory/Process.antt =====
-- rimmem.c: blocks that become process memory and that stop being it.
use rimstone.Base.{
  ℕ, zero, suc, ◌-◌, ◌<◌, ◌≡◌, refl, sym, ap, fun_ext, ◌∙◌, Bool, true, false, none, some, List,
  ◌∷◌, ◌==◌, if◌then◌else◌, arith, ≢→==-false,
}
use rimstone.Base.Results.{okay}
use rimstone.Memory.{Entry, Mem, put, id_at, set_entry, add_ord, place, max_ref}
use rimstone.Memory.Counting.{
  add_ref, add_ref_entry, make_process, dec_process, dec_entry, count_down, retire,
  retire_unreferenced,
}
use rimstone.Memory.Chain.{put_self, put_other}
use rimstone.Memory.Valid.{IsLoose, IsValid, IsLive, at_or_other, none_loose, IsLoose-put}
use rimstone.Memory.Open.{open-process}
use rimstone.Memory.Held.{IsHeld, held-id, held-put, held-loose}
use rimstone.Memory.Take.{del_ord-Deleted}
use rimstone.Memory.Give.{get_id-some, held-ordinary}
use rimstone.Memory.Alloc.{placed, place-IsValid, place-IsHeld, place-kept}
use rimstone.Memory.Refs.{
  with_ref, add_ref-more, Counted, not_this_block, ref-Counted, add_ref-entry,
}

-- A loose entry that stays loose, with another status and count.
module _ (r : ℕ) (ord unused : List ℕ) (m : Mem) (loose : IsLoose (some r) ord unused m) (x : ℕ)
    (points : (m.vm r).ptr ≡ some x) (used : (m.vm r).is_free ≡ false) (lives : IsLive m r)
    (b : Bool) (n : ℕ) where
  abbrev changed : Mem
  changed = set_entry r (record (m.vm r) { is_process = b; ref = n }) m

  here : changed.vm r ≡ record (m.vm r) { is_process = b; ref = n }
  here = put_self m.vm r _

  pub changed-IsValid : IsValid (placed b r ord) unused (place b r changed)
  changed-IsValid =
      place-IsValid r ord unused b changed (IsLoose-put r ord unused m _ loose)
        (ap (λ (e : Entry). e.is_process) here) (ap (λ (e : Entry). e.is_free) here ∙ used)
        (ap (λ (e : Entry). id_at e.ptr m.heap) here ∙ lives)

  pub changed-IsHeld : IsHeld none unused (place b r changed) x b n
  changed-IsHeld =
      let (_, out, inside) = loose.loose_out r refl in
      place-IsHeld r ord unused b b changed out inside (ap (λ (e : Entry). e.ptr) here ∙ points)
        (ap (λ (e : Entry). e.is_process) here) (ap (λ (e : Entry). e.ref) here)

  pub changed-kept :
      {q : ℕ} {proc : Bool} {count : ℕ}
      → IsHeld (some r) unused m q proc count
      → IsHeld none unused (place b r changed) q proc count
  changed-kept held = place-kept r ord unused b changed (held-put r _ m held)

-- Two writes of an entry leave the second.
put_again : (vm : ℕ → Entry) (r : ℕ) (a b : Entry) → put (put vm r a) r b ≡ put vm r b
put_again vm r a b = fun_ext (
    at_or_other (λ i. put (put vm r a) r b i ≡ put vm r b i) r
      (put_self (put vm r a) r b ∙ sym (put_self vm r b))
      (λ i q. put_other (put vm r a) r b i q ∙ put_other vm r a i q ∙ sym (put_other vm r b i q)))

-- Another field of an entry that was just written.
put_field :
    (f : Entry → Entry) (vm : ℕ → Entry) (r : ℕ) (a : Entry)
    → put (put vm r a) r (f (put vm r a r)) ≡ put vm r (f a)
put_field f vm r a = ap (λ e. put (put vm r a) r (f e)) (put_self vm r a) ∙ put_again vm r a (f a)

retire-place :
    (r : ℕ) (m : Mem)
    → retire r m ≡ place false r (set_entry r (record (m.vm r) { is_process = false; ref = 1 }) m)
unfolding retire place add_ord
retire-place r m =
    let old = record (m.vm r) { is_process = false } in
    let linked : Entry → Entry = λ e. record e { next = m.first_ord } in
    let counted : Entry → Entry = λ e. record e { ref = 1 } in
    ap (λ vm. record m { vm = vm; first_ord = some r })
      (ap (λ vm. put vm r (counted (vm r))) (put_field linked m.vm r old)
        ∙ put_field counted m.vm r (linked old)
        ∙ sym (put_field linked m.vm r (counted old)))

unreferenced : (r : ℕ) (m : Mem) → (m.vm r).ref ≡ 0 → retire_unreferenced r m ≡ retire r m
unfolding retire_unreferenced
unreferenced r m e = ap (λ n. if n == 0 then retire r m else m) e

referenced : (r k : ℕ) (m : Mem) → (m.vm r).ref ≡ suc k → retire_unreferenced r m ≡ m
unfolding retire_unreferenced
referenced r k m e =
    ap (λ n. if n == 0 then retire r m else m) e
    ∙ ap (λ b. if b then retire r m else m) (≢→==-false (suc k) 0 (λ q. omega (arith, q)))

-- With `n` references left, whether a block stays process memory, and its count.
abbrev pub stays : ℕ → Bool
stays zero = false
stays (suc n) = true

abbrev pub count_left : ℕ → ℕ
count_left zero = 1
count_left (suc n) = suc n

module _ (x : ℕ) (ord unused : List ℕ) (m : Mem) (valid : IsValid ord unused m) where
  -- An ordinary block becomes process memory.
  make_process-Counted :
      {count : ℕ} → IsHeld none unused m x false count → Counted (add_ref x true) x unused m true 1
  unfolding add_ref_entry make_process place
  make_process-Counted h =
      let t = del_ord-Deleted h.index ord unused m valid (held-ordinary ord unused m valid h) in
      let d = t.detached in
      let points = d.ptr ∙ h.points in
      record {
        ords = t.rest;
        state = changed t.first t.rest unused t.state d.loose x points d.not_free d.lives true 1;
        returns =
            add_ref-entry x ord unused m valid true h
            ∙ rw h.process (rw (t.returns, make_process) refl);
        valid =
            changed-IsValid t.first t.rest unused t.state d.loose x points d.not_free d.lives true
              1;
        held =
            changed-IsHeld t.first t.rest unused t.state d.loose x points d.not_free d.lives true 1;
        kept = λ apart held.
            changed-kept t.first t.rest unused t.state d.loose x points d.not_free d.lives true 1
              (d.kept (not_this_block x ord unused m valid h apart) held);
      }

  pub add_ref-Counted :
      (proc : Bool) {count : ℕ}
      → IsHeld none unused m x proc count
      → count < max_ref
      → Counted (add_ref x true) x unused m true (if proc then suc count else 1)
  add_ref-Counted true h lt = add_ref-more x ord unused m valid h lt
  add_ref-Counted false h lt = make_process-Counted h

  dec_process-entry :
      {n : ℕ}
      → (h : IsHeld none unused m x true (suc n))
      → dec_process x m ≡ okay (retire_unreferenced h.index (with_ref h.index n m))
  unfolding dec_process dec_entry count_down
  dec_process-entry {n = n} h =
      rw (get_id-some x h.index m (held-id m ord valid h), dec_process)
        (ap (λ b. okay (if b then dec_entry h.index m else m)) h.process
          ∙ ap (λ k. okay (retire_unreferenced h.index (with_ref h.index k m)))
              (ap (λ k. k - 1) h.reference ∙ one_less n))
    where
      one_less : (k : ℕ) → suc k - 1 ≡ k
      one_less k = omega arith

  -- A process block whose last reference goes.
  retire-Counted : IsHeld none unused m x true 1 → Counted (dec_process x) x unused m false 1
  retire-Counted h =
      let r = h.index in
      let g = with_ref r 0 m in
      let below = h.inside in
      let loose =
        IsLoose-put r ord unused m _ (open-process r ord unused m valid below h.process) in
      let points = ap (λ (e : Entry). e.ptr) (put_self m.vm r _) ∙ h.points in
      let used =
        ap (λ (e : Entry). e.is_free) (put_self m.vm r _)
        ∙ valid.frees r below none_loose
        ∙ h.used in
      let lives =
        ap (λ (e : Entry). id_at e.ptr m.heap) (put_self m.vm r _)
        ∙ valid.live r below none_loose h.used in
      record {
        ords = r ∷ ord;
        state = place false r (changed r ord unused g loose x points used lives false 1);
        returns =
            dec_process-entry h
            ∙ ap okay (
                unreferenced r g (ap (λ (e : Entry). e.ref) (put_self m.vm r _))
                ∙ retire-place r g);
        valid = changed-IsValid r ord unused g loose x points used lives false 1;
        held = changed-IsHeld r ord unused g loose x points used lives false 1;
        kept = λ apart held.
            changed-kept r ord unused g loose x points used lives false 1
              (held-put r _ m (held-loose r m (not_this_block x ord unused m valid h apart) held));
      }

  pub dec_process-Counted :
      (n : ℕ)
      → IsHeld none unused m x true (suc n)
      → Counted (dec_process x) x unused m (stays n) (count_left n)
  dec_process-Counted zero h = retire-Counted h
  dec_process-Counted (suc k) h = ref-Counted x ord unused m valid (suc k) (dec_process x) h (
      dec_process-entry h
      ∙ ap okay (
          referenced h.index k (with_ref h.index (suc k) m)
            (ap (λ (e : Entry). e.ref) (put_self m.vm h.index _))))
