-- ===== src/Fifo/Delete.antt =====
-- rimrtc.c: deleting the elements of a sequential list that were read, and purging it.
use rimstone.Base.{
  ℕ, zero, suc, ◌-◌, ◌<◌, ◌≡◌, refl, sym, ap, ◌∙◌, false, none, some, List, [], ◌∷◌, ◌++◌, arith,
  length, ==-self, ≢→==-false, append-nil, length-append,
}
use mathlib.Core.Bool.{true≢false}
use rimstone.Fifo.{Item, Fifo, store_init, drop_first, delete_loop, fifo_delete, purge, same}
use rimstone.Fifo.Chain.{
  same_self, Cell, first_of, last_of, has, has-cons, has-last, Links, AreBelow, last-cons,
}
use rimstone.Fifo.Queue.{Holds, of_joined, last-some}

module _ {D : Type 0} where
  has-right : (a : ℕ) (xs ys : List (Cell D)) → has a (xs ++ ys) ≡ false → has a ys ≡ false
  has-right a [] ys h = h
  has-right a (x ∷ xs) ys h = has-right a xs ys (has-cons a x (xs ++ ys) h).1

  same-apart : (a : ℕ) (ys : List (Cell D)) → has a ys ≡ false → same (some a) (first_of ys) ≡ false
  same-apart a [] h = refl
  same-apart a (y ∷ ys) h = ≢→==-false a y.place (has-cons a y ys h).0

  last-apart :
      (a : ℕ) (ys : List (Cell D))
      → 0 < length ys
      → has a ys ≡ false
      → same (some a) (last_of ys) ≡ false
  last-apart a ys some_more h =
      let (b, e) = last-some ys some_more in
      ap (same (some a)) e
      ∙ ≢→==-false a b (λ q. true≢false (sym (has-last b ys e) ∙ ap (λ n. has n ys) (sym q) ∙ h))

  drop_first-some :
      (a : ℕ) (i : Item D) (f : Fifo D)
      → same (some a) f.last_ptr ≡ false
      → f.memory a ≡ some i
      → drop_first a f ≡ some (record f { first_ptr = i.next; num_of = f.num_of - 1 })
  unfolding drop_first
  drop_first-some a i f h e = rw (h, drop_first) (rw e refl)

  drop_first-last :
      (a : ℕ) (f : Fifo D)
      → f.last_ptr ≡ some a
      → drop_first a f
        ≡ some (record f {
          first_ptr = none;
          last_ptr = none;
          retrieve_ptr = none;
          num_of = f.num_of - 1;
        })
  unfolding drop_first
  drop_first-last a f h = rw (h, drop_first) (rw (==-self a) refl)

  drop_first-more :
      (x : Cell D) (past rest : List (Cell D)) (f : Fifo D)
      → Holds (x ∷ past) rest f
      → 0 < length (past ++ rest)
      → (f' : Fifo D) × (drop_first x.place f ≡ some f') × Holds past rest f'
  unfolding Links AreBelow
  drop_first-more x past rest f h some_more =
      let (here, apart, links) = h.links in
      (
        _,
        drop_first-some x.place _ f
            (ap (same (some x.place)) (h.last ∙ last-cons x (past ++ rest) some_more)
              ∙ last-apart x.place (past ++ rest) some_more apart)
            here,
        record {
          links = links;
          first = refl;
          retrieve_at = h.retrieve_at;
          last = h.last ∙ last-cons x (past ++ rest) some_more;
          count = omega (arith, h.count);
          below = h.below.1;
        },
      )

  -- One round takes the first element, which was read.
  drop_first-Holds :
      (x : Cell D) (past rest : List (Cell D)) (f : Fifo D)
      → Holds (x ∷ past) rest f
      → (f' : Fifo D) × (drop_first x.place f ≡ some f') × Holds past rest f'
  unfolding last_of Links AreBelow
  drop_first-Holds x [] [] f h = (
    _,
    drop_first-last x.place f h.last,
    record {
      links = tt;
      first = refl;
      retrieve_at = refl;
      last = refl;
      count = omega (arith, h.count);
      below = tt;
    },
  )
  drop_first-Holds x [] (y ∷ rest) f h = drop_first-more x [] (y ∷ rest) f h (omega arith)
  drop_first-Holds x (y ∷ past) rest f h = drop_first-more x (y ∷ past) rest f h (omega arith)

  stop : (fuel : ℕ) (f : Fifo D) → f.first_ptr ≡ f.retrieve_ptr → delete_loop (suc fuel) f ≡ some f
  unfolding delete_loop
  stop fuel f h =
      rw (ap (λ p. same p f.retrieve_ptr) h ∙ same_self f.retrieve_ptr, delete_loop) refl

  turn :
      (fuel a : ℕ) (f g : Fifo D)
      → f.first_ptr ≡ some a
      → same (some a) f.retrieve_ptr ≡ false
      → drop_first a f ≡ some g
      → delete_loop (suc fuel) f ≡ delete_loop fuel g
  unfolding delete_loop
  turn fuel a f g here apart dropped = rw (here, delete_loop) (rw apart (rw dropped refl))

  delete_loop-Holds :
      (fuel : ℕ) (past rest : List (Cell D)) (f : Fifo D)
      → Holds past rest f
      → length past < fuel
      → (f' : Fifo D) × (delete_loop fuel f ≡ some f') × Holds [] rest f'
  unfolding Links
  delete_loop-Holds zero past rest f h more = absurd (omega arith)
  delete_loop-Holds (suc fuel) [] rest f h more = (f, stop fuel f (h.first ∙ sym h.retrieve_at), h)
  delete_loop-Holds (suc fuel) (x ∷ past) rest f h more =
      let (g, dropped, held) = drop_first-Holds x past rest f h in
      let (f', ended, empty) = delete_loop-Holds fuel past rest g held (omega arith) in
      (
        f',
        turn fuel x.place f g h.first
              (ap (same (some x.place)) h.retrieve_at
                ∙ same-apart x.place rest (has-right x.place past rest h.links.1))
              dropped
            ∙ ended,
        empty,
      )

  -- Deleting ends, and removes the elements that were read.
  pub fifo_delete-Holds :
      (past rest : List (Cell D)) (f : Fifo D)
      → Holds past rest f
      → (f' : Fifo D) × (fifo_delete f ≡ some f') × Holds [] rest f'
  unfolding fifo_delete
  fifo_delete-Holds [] [] f h =
      (f, rw (h.first, fifo_delete) (ap (λ p. some (record f { first_ptr = p })) h.first), h)
  fifo_delete-Holds [] (y ∷ rest) f h =
      let (f', e, held) = delete_loop-Holds (suc f.num_of) [] (y ∷ rest) f h (omega arith) in
      (f', rw (h.first, fifo_delete) e, held)
  fifo_delete-Holds (x ∷ past) rest f h =
      let (f', e, held) =
        delete_loop-Holds (suc f.num_of) (x ∷ past) rest f h
          (omega (arith, h.count, length-append past rest)) in
      (f', rw (h.first, fifo_delete) e, held)

  -- Purging ends, and leaves an empty list.
  pub purge-Holds :
      (past rest : List (Cell D)) (f : Fifo D)
      → Holds past rest f
      → (f' : Fifo D) × (purge f ≡ some f') × Holds [] [] f'
  unfolding purge store_init Links AreBelow last_of
  purge-Holds past rest f h =
      let (g, e, _) =
        fifo_delete-Holds (past ++ rest) [] (record f { retrieve_ptr = none })
          (of_joined (past ++ rest) [] (past ++ rest) _ (append-nil (past ++ rest)) h.links h.first
            refl h.last h.count h.below) in
      (
        store_init g.memory g.fresh,
        rw (e, purge) refl,
        record {
          links = tt;
          first = refl;
          retrieve_at = refl;
          last = refl;
          count = refl;
          below = tt;
        },
      )
