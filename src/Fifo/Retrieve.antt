-- ===== src/Fifo/Retrieve.antt =====
-- rimrtc.c: what retrieving from a sequential list returns.
use rimstone.Base.{
  suc, ◌≡◌, refl, sym, ap, ◌∙◌, inl, inr, none, some, List, [], ◌∷◌, ◌++◌, ◌==◌, arith, length,
  Bool-cases, ==→≡, append_assoc,
}
use rimstone.Base.Words.{Bytes}
use rimstone.Fifo.{Memory, Fifo, Reply, no_more, retrieved, put, store, store_l, retrieve}
use rimstone.Fifo.Chain.{
  Cell, first_of, last_of, has, Links, AreBelow, Links-put, has-AreBelow, AreBelow-suc, last-cons,
  put_self,
}
use rimstone.Fifo.Queue.{Holds, enqueue, new_cell, of_joined, store-Holds, nonempty}

module _ {D : Type 0} where
  -- The reply to a retrieval, and the list that it leaves.
  unfoldable pub Retrieved : List (Cell D) → List (Cell D) → Reply D → Fifo D → Type 0
  Retrieved past [] r f = (r ≡ no_more) × Holds past [] f
  Retrieved past (c ∷ rest) r f = (r ≡ retrieved c.name c.value) × Holds (past ++ c ∷ []) rest f

  Links-at :
      (m : Memory D) (past : List (Cell D)) (c : Cell D) (rest : List (Cell D))
      → Links m (past ++ c ∷ rest)
      → m c.place ≡ some (record { data_of = c.value; name = c.name; next = first_of rest })
  unfolding Links
  Links-at m [] c rest (here, _, _) = here
  Links-at m (x ∷ past) c rest (_, _, l) = Links-at m past c rest l

  nothing_left :
      (past : List (Cell D)) (f : Fifo D) → Holds past [] f → retrieve f ≡ some (no_more, f)
  unfolding retrieve
  nothing_left past f h =
      rw (h.retrieve_at, retrieve)
        (ap (λ p. some (no_more, record f { retrieve_ptr = p })) h.retrieve_at)

  -- Retrieving returns the first element that is still to be read, which then counts as read, and
  -- RIM_ERR_EXIST when there is none.
  pub retrieve-Holds :
      (past rest : List (Cell D)) (f : Fifo D)
      → Holds past rest f
      → (r : Reply D) × (f' : Fifo D) × (retrieve f ≡ some (r, f')) × Retrieved past rest r f'
  unfolding retrieve Retrieved
  retrieve-Holds past [] f h = (no_more, f, nothing_left past f h, (refl, h))
  retrieve-Holds past (c ∷ rest) f h = (
    retrieved c.name c.value,
    record f { retrieve_ptr = first_of rest },
    rw (h.retrieve_at, retrieve) (rw (Links-at f.memory past c rest h.links) refl),
    (
      refl,
      of_joined (past ++ c ∷ []) rest (past ++ c ∷ rest) _ (append_assoc past (c ∷ []) rest) h.links
          h.first refl h.last h.count h.below,
    ),
  )

  store_l-first :
      (past rest : List (Cell D)) (name : Bytes) (value : D) (f : Fifo D)
      → f.num_of ≡ 0
      → length (past ++ rest) ≡ 0
      → Holds [] (new_cell name value f ∷ (past ++ rest)) (record f {
        memory = put f.memory f.fresh (record { data_of = value; name = name; next = none });
        fresh = suc f.fresh;
        first_ptr = some f.fresh;
        last_ptr = some f.fresh;
        retrieve_ptr = some f.fresh;
        num_of = suc f.num_of;
      })
  unfolding Links AreBelow has last_of
  store_l-first [] [] name value f none_yet h = record {
    links = (put_self f.memory f.fresh _, refl, tt);
    first = refl;
    retrieve_at = refl;
    last = refl;
    count = ap suc none_yet;
    below = (omega arith, tt);
  }
  store_l-first [] (y ∷ rest) name value f none_yet h = absurd (omega arith)
  store_l-first (x ∷ past) rest name value f none_yet h = absurd (omega arith)

  -- Adding an element to a LIFO list puts it in front of all others, and all are to be read again.
  pub store_l-Holds :
      (past rest : List (Cell D)) (name : Bytes) (value : D) (f : Fifo D)
      → Holds past rest f
      → Holds [] (new_cell name value f ∷ (past ++ rest)) (store_l name value f)
  unfolding store_l Links AreBelow
  store_l-Holds past rest name value f h = elim (Bool-cases (f.num_of == 0)) [
    | inl e ↦
        rw (e, store_l)
          (store_l-first past rest name value f (==→≡ f.num_of 0 e)
            (sym h.count ∙ ==→≡ f.num_of 0 e))
    | inr e ↦
        let apart = has-AreBelow f.fresh (past ++ rest) h.below in
        rw (e, store_l)
          (record {
            links = (
              put_self _ f.fresh _
                  ∙ ap (λ p. some (record { data_of = value; name = name; next = p })) h.first,
              apart,
              Links-put _ f.fresh _ (past ++ rest) apart
                  (Links-put f.memory f.fresh _ (past ++ rest) apart h.links),
            );
            first = refl;
            retrieve_at = refl;
            last =
                h.last
                ∙ sym (last-cons (new_cell name value f) (past ++ rest) (nonempty _ _ h.count e));
            count = ap suc h.count;
            below = (omega arith, AreBelow-suc f.fresh (past ++ rest) h.below);
          })
  ]

  -- An element that is stored when all elements of a list have been read is not returned by the
  -- retrieval that follows, which finds no more elements.
  pub store-lost :
      (x : Cell D) (past : List (Cell D)) (name : Bytes) (value : D) (f : Fifo D)
      → Holds (x ∷ past) [] f
      → (f' : Fifo D) × (store name value f ≡ some f') × (retrieve f' ≡ some (no_more, f'))
  unfolding enqueue
  store-lost x past name value f h =
      let (f', stored, held) = store-Holds (x ∷ past) [] name value f h in
      (f', stored, nothing_left (x ∷ (past ++ new_cell name value f ∷ [])) f' held)
