-- ===== src/Linked/Purge.antt =====
-- rimrtc.c: rim_list_purge and rim_list_retrieve.
use rimstone.Base.{
  ℕ, zero, suc, ◌+◌, ◌<◌, ◌≡◌, refl, ap, ◌∙◌, Bool, Option, none, some, List, [], ◌∷◌, ◌==◌,
  if◌then◌else◌, arith, length, ≢→==-false,
}
use rimstone.Base.Words.{Bytes}
use rimstone.Fifo.Chain.{Cell, has}
use rimstone.Linked.{
  Node, Linked, Status, list_init, list_delete, list_retrieve, list_store, purge_loop, list_purge,
}
use rimstone.Linked.Zipper.{Before, After, AreApart, end_of, IsZipper, turn, zip-start}
use rimstone.Linked.Store.{list_store-IsZipper}
use rimstone.Linked.Delete.{list_delete-IsZipper, left_before, left_after}

module _ {D : Type 0} where
  left-length :
      (before after : List (Cell D))
      → length (left_before before after) + length (left_after before after)
        ≡ length before + length after
  left-length before (a ∷ after) = refl
  left-length [] [] = refl
  left-length (b ∷ before) [] = omega arith

  -- What the loop gives.
  record Emptied (n : ℕ) (l : Linked D) : Type 0 where
    state : Linked D
    returns : purge_loop n l ≡ some state

  -- One round, from the start of the list on.
  round-Emptied :
      (n : ℕ) (cs : List (Cell D)) (l : Linked D)
      → IsZipper [] cs (record l { curr = l.first })
      → ((before after : List (Cell D)) (k : Linked D)
          → IsZipper before after k
          → suc (length before + length after) ≡ length cs
          → Emptied n k)
      → Emptied (suc n) l
  unfolding purge_loop
  round-Emptied n [] l z rest = record {
    state = l;
    returns =
        ap
          (λ (b : Bool).
            if b then some l else purge_loop n (list_delete (record l { curr = l.first })).1)
          (ap (λ k. k == 0) z.count);
  }
  round-Emptied n (c ∷ cs) l z rest =
      let (k, deleted, left) = list_delete-IsZipper c [] cs (record l { curr = l.first }) z in
      let e =
        rest (left_before [] cs) (left_after [] cs) k left (omega (arith, left-length [] cs)) in
      record {
        state = e.state;
        returns =
            ap
              (λ (b : Bool).
                if b then some l else purge_loop n (list_delete (record l { curr = l.first })).1)
              (≢→==-false l.num_of 0 (λ q. omega (arith, q, z.count)))
            ∙ ap (λ (r : Status × Linked D). purge_loop n r.1) deleted
            ∙ e.returns;
      }

  loop-Emptied :
      (n : ℕ) (before after : List (Cell D)) (l : Linked D)
      → IsZipper before after l
      → length before + length after < n
      → Emptied n l
  loop-Emptied zero before after l h lt = absurd (omega (arith, lt))
  loop-Emptied (suc n) before after l h lt =
      let z = zip-start before after l h in
      round-Emptied n (turn before after) l z
        (λ b a k left short. loop-Emptied n b a k left (omega (arith, short, z.count, h.count, lt)))

  -- A purge with more fuel than the list has elements ends, with an empty list.
  pub list_purge-IsZipper :
      (n : ℕ) (before after : List (Cell D)) (l : Linked D)
      → IsZipper before after l
      → length before + length after < n
      → (k : Linked D) × (list_purge n l ≡ some k) × IsZipper [] [] k
  unfolding list_purge list_init Before After AreApart end_of has
  list_purge-IsZipper n before after l h lt =
      let e = loop-Emptied n before after l h lt in
      (
        list_init e.state.nodes e.state.fresh,
        rw (e.returns, list_purge) refl,
        record {
          left = tt;
          right = tt;
          left_apart = tt;
          right_apart = tt;
          apart = λ a there. refl;
          starts = refl;
          ends = refl;
          here = refl;
          count = refl;
          new = λ a le. (refl, refl);
        },
      )

  retrieve-current :
      (c : Cell D) (before after : List (Cell D)) (l : Linked D)
      → IsZipper before (c ∷ after) l
      → list_retrieve l ≡ some (c.name, c.value)
  unfolding list_retrieve After
  retrieve-current c before after l h =
      ap
        (λ (p : Option ℕ). elim p [
          | none ↦ none
          | some a ↦ some ((l.nodes a).name, (l.nodes a).data_of)
        ])
        h.here
      ∙ ap (λ (n : Node D). some (n.name, n.data_of)) h.right.0

  -- What was stored is read back at once.
  pub list_retrieve-list_store :
      (name : Bytes) (value : D) (append : Bool) (before after : List (Cell D)) (l : Linked D)
      → IsZipper before after l
      → (k : Linked D) × (list_store name value append l ≡ some k)
        × (list_retrieve k ≡ some (name, value))
  list_retrieve-list_store name value append before after l h =
      let (k, stored, z) = list_store-IsZipper name value append before after l h in
      (
        k,
        stored,
        retrieve-current (record { place = l.fresh; name = name; value = value })
            (if append then turn after before else before) (if append then [] else after) k z,
      )
