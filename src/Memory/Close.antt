-- ===== src/Memory/Close.antt =====
-- rimmem.c: putting a loose entry into a list of the table, or leaving it to a process block.
use rimstone.Base.{
  or_true, ℕ, ◌<◌, ◌≡◌, refl, sym, ap, subst, ◌∙◌, ◌≢◌, true, false, not, ◌||◌, none, some, List,
  ◌∷◌,
}
use mathlib.Core.Bool.{true≢false}
use rimstone.Base.Results.{none≢some}
use rimstone.Memory.{Entry, Mem, put, id_at, add_ord, release}
use rimstone.Memory.Chain.{
  has, Chain, AreDistinct, AreBelow, put_self, put_other, has-here, has-skip, Chain-put,
}
use rimstone.Memory.Valid.{IsLoose, IsValid, IsLive, at_or_other, not_this}

module _ (r : ℕ) (ord free : List ℕ) where
  -- The loose entry, of a process block.
  pub close-process :
      (m : Mem)
      → IsLoose (some r) ord free m
      → (m.vm r).is_process ≡ true
      → (m.vm r).is_free ≡ false
      → IsLive m r
      → IsValid ord free m
  close-process m h proc not_free lives =
      let (out_ord, out_free, below) = h.loose_out r refl in
      record {
        ord_chain = h.ord_chain;
        free_chain = h.free_chain;
        ord_apart = h.ord_apart;
        free_apart = h.free_apart;
        disjoint = h.disjoint;
        ord_below = h.ord_below;
        free_below = h.free_below;
        live =
            at_or_other (λ i. i < m.curr → none ≢ some i → has i free ≡ false → IsLive m i) r
              (λ _ _ _. lives) (λ i e le _ out. h.live i le (not_this r i e) out);
        processes =
            at_or_other
              (λ i.
                i < m.curr → none ≢ some i → (m.vm i).is_process ≡ not (has i ord || has i free))
              r (λ _ _. proc ∙ ap not (sym (ap (λ b. b || has r free) out_ord ∙ out_free)))
              (λ i e le _. h.processes i le (not_this r i e));
        frees =
            at_or_other (λ i. i < m.curr → none ≢ some i → (m.vm i).is_free ≡ has i free) r
              (λ _ _. not_free ∙ sym out_free) (λ i e le _. h.frees i le (not_this r i e));
        loose_out = λ i e. absurd (none≢some e);
      }

  -- The loose entry, of a block that is no process block.
  pub close-ordinary :
      (m : Mem)
      → IsLoose (some r) ord free m
      → (m.vm r).is_process ≡ false
      → (m.vm r).is_free ≡ false
      → IsLive m r
      → IsValid (r ∷ ord) free (add_ord r m)
  unfolding add_ord Chain AreDistinct AreBelow has
  close-ordinary m h ordinary not_free lives =
      let (out_ord, out_free, below) = h.loose_out r refl in
      let e : Entry = record (m.vm r) { next = m.first_ord } in
      let vm = put m.vm r e in
      record {
        ord_chain = (
          refl,
          subst (λ p. Chain vm p ord) (sym (ap (λ (x : Entry). x.next) (put_self m.vm r e)))
              (Chain-put m.vm r e m.first_ord ord out_ord h.ord_chain),
        );
        free_chain = Chain-put m.vm r e m.first_free free out_free h.free_chain;
        ord_apart = (out_ord, h.ord_apart);
        free_apart = h.free_apart;
        disjoint =
            at_or_other (λ i. has i (r ∷ ord) ≡ true → has i free ≡ false) r (λ _. out_free)
              (λ i q there. h.disjoint i (sym (has-skip i r ord q) ∙ there));
        ord_below = (below, h.ord_below);
        free_below = h.free_below;
        live =
            at_or_other
              (λ i.
                i < m.curr → none ≢ some i → has i free ≡ false → id_at (vm i).ptr m.heap ≡ some i)
              r (λ _ _ _. ap (λ (x : Entry). id_at x.ptr m.heap) (put_self m.vm r e) ∙ lives)
              (λ i q le _ out.
                ap (λ (x : Entry). id_at x.ptr m.heap) (put_other m.vm r e i q)
                ∙ h.live i le (not_this r i q) out);
        processes =
            at_or_other
              (λ i.
                i < m.curr
                → none ≢ some i
                → (vm i).is_process ≡ not (has i (r ∷ ord) || has i free))
              r
              (λ _ _.
                ap (λ (x : Entry). x.is_process) (put_self m.vm r e)
                ∙ ordinary
                ∙ sym (ap (λ b. not (b || has r free)) (has-here r ord)))
              (λ i q le _.
                ap (λ (x : Entry). x.is_process) (put_other m.vm r e i q)
                ∙ h.processes i le (not_this r i q)
                ∙ sym (ap (λ b. not (b || has i free)) (has-skip i r ord q)));
        frees =
            at_or_other (λ i. i < m.curr → none ≢ some i → (vm i).is_free ≡ has i free) r
              (λ _ _. ap (λ (x : Entry). x.is_free) (put_self m.vm r e) ∙ not_free ∙ sym out_free)
              (λ i q le _.
                ap (λ (x : Entry). x.is_free) (put_other m.vm r e i q)
                ∙ h.frees i le (not_this r i q));
        loose_out = λ i q. absurd (none≢some q);
      }

  -- The loose entry, with its block given back.
  pub close-free : (m : Mem) → IsLoose (some r) ord free m → IsValid ord (r ∷ free) (release r m)
  unfolding release Chain AreDistinct AreBelow has
  close-free m h =
      let (out_ord, out_free, below) = h.loose_out r refl in
      let e : Entry = record (m.vm r) {
        ptr = none;
        is_free = true;
        is_file = false;
        is_dir = false;
        is_process = false;
        next = m.first_free;
      } in
      let vm = put m.vm r e in
      record {
        ord_chain = Chain-put m.vm r e m.first_ord ord out_ord h.ord_chain;
        free_chain = (
          refl,
          subst (λ p. Chain vm p free) (sym (ap (λ (x : Entry). x.next) (put_self m.vm r e)))
              (Chain-put m.vm r e m.first_free free out_free h.free_chain),
        );
        ord_apart = h.ord_apart;
        free_apart = (out_free, h.free_apart);
        disjoint =
            at_or_other (λ i. has i ord ≡ true → has i (r ∷ free) ≡ false) r
              (λ there. absurd (true≢false (sym there ∙ out_ord)))
              (λ i q there. has-skip i r free q ∙ h.disjoint i there);
        ord_below = h.ord_below;
        free_below = (below, h.free_below);
        live =
            at_or_other
              (λ i.
                i < m.curr
                → none ≢ some i
                → has i (r ∷ free) ≡ false
                → id_at (vm i).ptr m.heap ≡ some i)
              r (λ _ _ out. absurd (true≢false (sym (has-here r free) ∙ out)))
              (λ i q le _ out.
                ap (λ (x : Entry). id_at x.ptr m.heap) (put_other m.vm r e i q)
                ∙ h.live i le (not_this r i q) (sym (has-skip i r free q) ∙ out));
        processes =
            at_or_other
              (λ i.
                i < m.curr
                → none ≢ some i
                → (vm i).is_process ≡ not (has i ord || has i (r ∷ free)))
              r
              (λ _ _.
                ap (λ (x : Entry). x.is_process) (put_self m.vm r e)
                ∙ sym (ap not (ap (◌||◌ (has r ord)) (has-here r free) ∙ or_true (has r ord))))
              (λ i q le _.
                ap (λ (x : Entry). x.is_process) (put_other m.vm r e i q)
                ∙ h.processes i le (not_this r i q)
                ∙ sym (ap (λ b. not (has i ord || b)) (has-skip i r free q)));
        frees =
            at_or_other (λ i. i < m.curr → none ≢ some i → (vm i).is_free ≡ has i (r ∷ free)) r
              (λ _ _. ap (λ (x : Entry). x.is_free) (put_self m.vm r e) ∙ sym (has-here r free))
              (λ i q le _.
                ap (λ (x : Entry). x.is_free) (put_other m.vm r e i q)
                ∙ h.frees i le (not_this r i q)
                ∙ sym (has-skip i r free q));
        loose_out = λ i q. absurd (none≢some q);
      }
