-- ===== src/Fifo/Queue.antt =====
-- rimrtc.c: a sequential list as a queue with the elements read and those still to be read, and
-- what storing adds to it.
use rimstone.Base.{
  ℕ, suc, ◌<◌, ◌≡◌, refl, sym, ap, ◌∙◌, inl, inr, subst, false, none, some, List, [], ◌∷◌, ◌++◌,
  ◌==◌, arith, length, Bool-cases, ==→≡, append-nil, append_assoc, length-append,
}
use rimstone.Base.Words.{Bytes}
use rimstone.Fifo.{Item, Memory, Fifo, put, store_init, new_item, link, append_at, store}
use rimstone.Fifo.Chain.{
  Cell, first_of, last_of, has, Links, AreBelow, Links-put, has-AreBelow, AreBelow-suc,
  AreBelow-append, last-append, Links-append, put_self,
}

pub nonempty : (n l : ℕ) → n ≡ l → (n == 0) ≡ false → 0 < l
nonempty n l e h = ground arith

module _ {D : Type 0} where
  -- The list holds the elements `past`, which were read, and behind them `rest`.
  pub record Holds (past rest : List (Cell D)) (f : Fifo D) : Type 0 where
    pub links : Links f.memory (past ++ rest)
    pub first : f.first_ptr ≡ first_of (past ++ rest)
    pub retrieve_at : f.retrieve_ptr ≡ first_of rest
    pub last : f.last_ptr ≡ last_of (past ++ rest)
    pub count : f.num_of ≡ length (past ++ rest)
    pub below : AreBelow f.fresh (past ++ rest)

  pub store_init-Holds : (m : Memory D) (fresh : ℕ) → Holds [] [] (store_init m fresh)
  unfolding store_init Links AreBelow last_of
  store_init-Holds m fresh = record {
    links = tt;
    first = refl;
    retrieve_at = refl;
    last = refl;
    count = refl;
    below = tt;
  }

  -- What storing does to the two: an element that is added when all were read counts as read.
  unfoldable pub enqueue : List (Cell D) → List (Cell D) → Cell D → List (Cell D) × List (Cell D)
  enqueue [] rest c = ([], rest ++ c ∷ [])
  enqueue (x ∷ past) [] c = (x ∷ (past ++ c ∷ []), [])
  enqueue (x ∷ past) (y ∷ rest) c = (x ∷ past, y ∷ (rest ++ c ∷ []))

  abbrev pub new_cell : Bytes → D → Fifo D → Cell D
  new_cell name value f = record { place = f.fresh; name = name; value = value }

  enqueue-append :
      (past rest : List (Cell D)) (c : Cell D)
      → (enqueue past rest c).0 ++ (enqueue past rest c).1 ≡ (past ++ rest) ++ c ∷ []
  unfolding enqueue
  enqueue-append [] rest c = refl
  enqueue-append (x ∷ past) [] c =
      ap (◌∷◌ x) (append-nil (past ++ c ∷ []) ∙ ap (λ xs. xs ++ c ∷ []) (sym (append-nil past)))
  enqueue-append (x ∷ past) (y ∷ rest) c = ap (◌∷◌ x) (sym (append_assoc past (y ∷ rest) (c ∷ [])))

  below_one : (c : Cell D) → AreBelow (suc c.place) (c ∷ [])
  unfolding AreBelow
  below_one c = (omega arith, tt)

  enqueue-first :
      (past rest : List (Cell D)) (c : Cell D)
      → 0 < length (past ++ rest)
      → first_of (enqueue past rest c).1 ≡ first_of rest
  unfolding enqueue
  enqueue-first [] [] c h = absurd (omega arith)
  enqueue-first [] (y ∷ rest) c h = refl
  enqueue-first (x ∷ past) [] c h = refl
  enqueue-first (x ∷ past) (y ∷ rest) c h = refl

  pub of_joined :
      (past rest xs : List (Cell D)) (f : Fifo D)
      → past ++ rest ≡ xs
      → Links f.memory xs
      → f.first_ptr ≡ first_of xs
      → f.retrieve_ptr ≡ first_of rest
      → f.last_ptr ≡ last_of xs
      → f.num_of ≡ length xs
      → AreBelow f.fresh xs
      → Holds past rest f
  of_joined past rest xs f e links first retrieve_at last count below = record {
    links = subst (Links f.memory) (sym e) links;
    first = first ∙ ap first_of (sym e);
    retrieve_at = retrieve_at;
    last = last ∙ ap last_of (sym e);
    count = count ∙ ap length (sym e);
    below = subst (AreBelow f.fresh) (sym e) below;
  }

  pub last-some : (xs : List (Cell D)) → 0 < length xs → (a : ℕ) × (last_of xs ≡ some a)
  unfolding last_of
  last-some [] h = absurd (omega arith)
  last-some (x ∷ []) h = (x.place, refl)
  last-some (x ∷ (y ∷ xs)) h = last-some (y ∷ xs) (omega arith)

  first-append :
      (xs : List (Cell D)) (c : Cell D) → 0 < length xs → first_of (xs ++ c ∷ []) ≡ first_of xs
  first-append [] c h = absurd (omega arith)
  first-append (x ∷ xs) c h = refl

  link-some :
      (a np : ℕ) (m : Memory D) (i : Item D)
      → m a ≡ some i
      → link (some a) np m ≡ some (put m a (record i { next = some np }))
  unfolding link
  link-some a np m i h = rw (h, link) refl

  append_at-some :
      (np : ℕ) (g : Fifo D) (m : Memory D)
      → link g.last_ptr np g.memory ≡ some m
      → append_at np g ≡ some (record g { memory = m; last_ptr = some np; num_of = suc g.num_of })
  unfolding append_at
  append_at-some np g m h = rw (h, append_at) refl

  store-some :
      (past rest : List (Cell D)) (name : Bytes) (value : D) (f : Fifo D)
      → Holds past rest f
      → 0 < length (past ++ rest)
      → (f' : Fifo D) × (append_at f.fresh (new_item name value f) ≡ some f')
        × Holds
            (enqueue past rest (new_cell name value f)).0
            (enqueue past rest (new_cell name value f)).1
            f'
  unfolding new_item
  store-some past rest name value f h some_there =
      let c = new_cell name value f in
      let m = put f.memory f.fresh (record { data_of = value; name = name; next = none }) in
      let (a, e) = last-some (past ++ rest) some_there in
      let apart = has-AreBelow f.fresh (past ++ rest) h.below in
      let (i, mi, links) =
        Links-append m (past ++ rest) a c
          (Links-put f.memory f.fresh _ (past ++ rest) apart h.links) e apart
          (put_self f.memory f.fresh _) in
      (
        record (new_item name value f) {
          memory = put m a (record i { next = some f.fresh });
          last_ptr = some f.fresh;
          num_of = suc f.num_of;
        },
        append_at-some f.fresh (new_item name value f) (put m a (record i { next = some f.fresh }))
            (ap (λ p. link p f.fresh m) (h.last ∙ e) ∙ link-some a f.fresh m i mi),
        of_joined _ _ ((past ++ rest) ++ c ∷ []) _ (enqueue-append past rest c) links
            (h.first ∙ sym (first-append (past ++ rest) c some_there))
            (h.retrieve_at ∙ sym (enqueue-first past rest c some_there))
            (sym (last-append (past ++ rest) c))
            (omega (arith, h.count, length-append (past ++ rest) (c ∷ [])))
            (AreBelow-append (suc f.fresh) (past ++ rest) (c ∷ [])
              (AreBelow-suc f.fresh (past ++ rest) h.below) (below_one c)),
      )

  -- The only element of a list.
  store-first :
      (past rest : List (Cell D)) (name : Bytes) (value : D) (f : Fifo D)
      → f.num_of ≡ 0
      → length (past ++ rest) ≡ 0
      → Holds
          (enqueue past rest (new_cell name value f)).0
          (enqueue past rest (new_cell name value f)).1
          (record (new_item name value f) {
            first_ptr = some f.fresh;
            last_ptr = some f.fresh;
            retrieve_ptr = some f.fresh;
            num_of = suc f.num_of;
          })
  unfolding enqueue new_item Links AreBelow has last_of
  store-first [] [] name value f none_yet h = record {
    links = (put_self f.memory f.fresh _, refl, tt);
    first = refl;
    retrieve_at = refl;
    last = refl;
    count = ap suc none_yet;
    below = (omega arith, tt);
  }
  store-first [] (y ∷ rest) name value f none_yet h = absurd (omega arith)
  store-first (x ∷ past) rest name value f none_yet h = absurd (omega arith)

  -- Storing succeeds. The element is added at the end; it is read after the elements that are still
  -- to be read, and where all the list's elements have been read, it counts as read as well.
  pub store-Holds :
      (past rest : List (Cell D)) (name : Bytes) (value : D) (f : Fifo D)
      → Holds past rest f
      → (f' : Fifo D) × (store name value f ≡ some f')
        × Holds
            (enqueue past rest (new_cell name value f)).0
            (enqueue past rest (new_cell name value f)).1
            f'
  unfolding store
  store-Holds past rest name value f h = elim (Bool-cases (f.num_of == 0)) [
    | inl e ↦ (
      _,
      rw (e, store) refl,
      store-first past rest name value f (==→≡ f.num_of 0 e) (sym h.count ∙ ==→≡ f.num_of 0 e),
    )
    | inr e ↦
        let (f', stored, held) = store-some past rest name value f h (nonempty _ _ h.count e) in
        (f', rw (e, store) stored, held)
  ]
