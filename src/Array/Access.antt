-- ===== src/Array/Access.antt =====
-- arr.c: a valid array is a total function from the indexes to the elements, which a write
-- changes at one index.
use rimstone.Base.{
  ℕ, ◌+◌, ◌-◌, ◌≤◌, ◌<◌, max, ◌≡◌, refl, sym, ap, ◌∙◌, ◌≢◌, ◌↔◌, ◌⊎◌, inl, inr, Bool, arith, leb,
  ◌==◌, if◌then◌else◌, leb→le, leb-false, lt→leb-false, ==→≡, ==-false, Bool-cases, length, get_or,
  set, replicate, take-all, get_or-append_replicate, get_or-past, length-append, length-set,
  length-replicate, get_or-replicate, get_or-set_self, get_or-set_ne,
}
use rimstone.Base.Results.{ℤ, pos, negsuc, error, okay, in_place}
use rimstone.Array.{
  array_inc, Error, negative_size, Array, new_alloc, new_max, init_array, new_array, purge, grow,
  reserve, count_elem, write, assign, write_array, read,
}

-- The element that an index has, also past the end of the block.
abbrev pub value_at : {A : Type 0} → A → Array A → ℕ → A
value_at blank arr key = get_or arr.elems key blank

pub record IsValid {A : Type 0} (blank : A) (arr : Array A) : Type 0 where
  pub sized : length arr.elems ≡ arr.alloc_elem
  pub at_least : array_inc ≤ arr.alloc_elem
  pub at_most : arr.alloc_elem ≤ arr.max_elem
  pub counted : arr.tot_elem ≤ arr.alloc_elem
  pub unset : (i : ℕ) → arr.tot_elem ≤ i → get_or arr.elems i blank ≡ blank

new_alloc-bounds :
    (alloc max_elem key : ℕ)
    → array_inc ≤ alloc
    → alloc ≤ key
    → key < max_elem
    → (key < new_alloc max_elem key) × (new_alloc max_elem key ≤ max_elem)
unfolding new_alloc
new_alloc-bounds alloc max_elem key a b c = ground arith

count_max : (tot key : ℕ) → (if leb tot key then key + 1 else tot) ≡ max tot (key + 1)
count_max tot key = ground arith

new_max-large : (n : ℕ) → array_inc ≤ n → new_max n ≡ n
unfolding new_max
new_max-large n h = ground arith

new_max-cases : (n : ℕ) → new_max n ≡ (if n == 0 then 1000000 else max n array_inc)
unfolding new_max
new_max-cases n = ground arith

module _ {A : Type 0} (blank : A) where
  pub init_array-IsValid : (n : ℕ) (process : Bool) → IsValid blank (init_array blank n process)
  unfolding init_array new_max
  init_array-IsValid n process = record {
    sized = length-replicate array_inc blank;
    at_least = omega arith;
    at_most = ground arith;
    counted = omega arith;
    unset = λ i h. get_or-replicate array_inc i blank;
  }

  grow-value_at :
      (alloc : ℕ) (arr : Array A)
      → length arr.elems ≡ arr.alloc_elem
      → arr.alloc_elem ≤ alloc
      → (length (grow blank alloc arr).elems ≡ alloc)
        × ((i : ℕ) → get_or (grow blank alloc arr).elems i blank ≡ get_or arr.elems i blank)
  unfolding grow
  grow-value_at alloc arr e h = rw (take-all alloc arr.elems (omega arith)) (
    omega (
      arith,
      length-append arr.elems (replicate (alloc - arr.alloc_elem) blank),
      length-replicate (alloc - arr.alloc_elem) blank,
    ),
    λ i. get_or-append_replicate arr.elems (alloc - arr.alloc_elem) i blank,
  )

  -- What `reserve` leaves: the same elements, in a block that has the index.
  record HasRoom (key : ℕ) (arr arr' : Array A) : Type 0 where
    valid : IsValid blank arr'
    room : key < arr'.alloc_elem
    same_max : arr'.max_elem ≡ arr.max_elem
    same_tot : arr'.tot_elem ≡ arr.tot_elem
    same_values : (i : ℕ) → value_at blank arr' i ≡ value_at blank arr i

  grow-HasRoom :
      (key : ℕ) (arr : Array A)
      → IsValid blank arr
      → key < arr.max_elem
      → arr.alloc_elem ≤ key
      → HasRoom key arr (grow blank (new_alloc arr.max_elem key) arr)
  unfolding grow
  grow-HasRoom key arr v h below =
      let (above, most) = new_alloc-bounds arr.alloc_elem arr.max_elem key v.at_least below h in
      let (sized, values) = grow-value_at (new_alloc arr.max_elem key) arr v.sized (omega arith) in
      record {
        valid = record {
          sized = sized;
          at_least = omega (arith, v.at_least);
          at_most = most;
          counted = omega (arith, v.counted);
          unset = λ i past. values i ∙ v.unset i past;
        };
        room = above;
        same_max = refl;
        same_tot = refl;
        same_values = values;
      }

  reserve-HasRoom :
      (key : ℕ) (arr : Array A)
      → IsValid blank arr
      → key < arr.max_elem
      → HasRoom key arr (reserve blank key arr)
  unfolding reserve
  reserve-HasRoom key arr v h = elim (Bool-cases (leb arr.alloc_elem key)) [
    | inl e ↦ rw e (grow-HasRoom key arr v h (leb→le arr.alloc_elem key e))
    | inr e ↦ rw e (record {
      valid = v;
      room = leb-false arr.alloc_elem key e;
      same_max = refl;
      same_tot = refl;
      same_values = λ i. refl;
    })
  ]

  -- What a write leaves behind: every other index has its element, and the array counts the index.
  record Written (key : ℕ) (a : A) (arr arr' : Array A) : Type 0 where
    valid : IsValid blank arr'
    here : value_at blank arr' key ≡ a
    elsewhere : (i : ℕ) → i ≢ key → value_at blank arr' i ≡ value_at blank arr i
    same_max : arr'.max_elem ≡ arr.max_elem
    total : arr'.tot_elem ≡ max arr.tot_elem (key + 1)

  -- The count and the element, set in an array with room for the index.
  store : ℕ → A → Array A → Array A
  store key a arr = let arr' = count_elem key arr in record arr' { elems = set arr'.elems key a }

  store-Written :
      (key : ℕ) (a : A) (arr arr' : Array A)
      → HasRoom key arr arr'
      → Written key a arr (store key a arr')
  unfolding store count_elem
  store-Written key a arr arr' r =
      let tot = count_max arr'.tot_elem key in
      record {
        valid = record {
          sized = length-set arr'.elems key a ∙ r.valid.sized;
          at_least = r.valid.at_least;
          at_most = r.valid.at_most;
          counted = omega (arith, r.valid.counted, r.room, tot);
          unset = λ i past.
              get_or-set_ne arr'.elems key i a blank (λ e. absurd {A = ⊥} (omega arith))
              ∙ r.valid.unset i (omega (arith, past, tot));
        };
        here = get_or-set_self arr'.elems key a blank (omega (arith, r.room, r.valid.sized));
        elsewhere =
            λ i ne. get_or-set_ne arr'.elems key i a blank (λ e. ne (sym e)) ∙ r.same_values i;
        same_max = r.same_max;
        total = tot ∙ ap (λ t. max t (key + 1)) r.same_tot;
      }

  read-value_at :
      (arr : Array A) (key : ℕ)
      → IsValid blank arr
      → key < arr.max_elem
      → read blank arr (pos key) ≡ okay (value_at blank arr key)
  unfolding read
  read-value_at arr key v h =
      rw (lt→leb-false arr.max_elem key h) (elim (Bool-cases (leb arr.alloc_elem key)) [
        | inl e ↦
            let past = leb→le arr.alloc_elem key e in
            rw e (ap okay (sym (get_or-past arr.elems key blank (omega (arith, v.sized)))))
        | inr e ↦ rw e refl
      ])

  write_array-store :
      (hand_back : A → A) (arr : Array A) (key : ℕ) (value : A → A)
      → IsValid blank arr
      → key < arr.max_elem
      → write_array blank hand_back arr (pos key) value
        ≡ okay (store key (value (hand_back (value_at blank arr key))) (reserve blank key arr))
  unfolding write_array write assign store count_elem
  write_array-store hand_back arr key value v h = rw (lt→leb-false arr.max_elem key h) (
      ap (λ a. okay (store key (value (hand_back a)) (reserve blank key arr)))
        ((reserve-HasRoom key arr v h).same_values key))

  read-store :
      (key : ℕ) (a : A) (arr arr' : Array A) (i : ℕ)
      → IsValid blank arr
      → Written key a arr arr'
      → i < arr.max_elem
      → read blank arr' (pos i) ≡ (if i == key then okay a else read blank arr (pos i))
  read-store key a arr arr' i v w h = elim (Bool-cases (i == key)) [
    | inl e ↦
        rw (read-value_at arr' i w.valid (omega (arith, w.same_max)), e)
          (ap okay (ap (value_at blank arr') (==→≡ i key e) ∙ w.here))
    | inr e ↦
        rw (read-value_at arr' i w.valid (omega (arith, w.same_max)), read-value_at arr i v h, e)
          (ap okay (w.elsewhere i (==-false i key e)))
  ]

  -- A write below the limit of a valid array succeeds, its value computed from what is handed back
  -- of the element that a read would have returned before; the array stays valid, keeps its limit
  -- and counts the index, a read of the index returns the new value, and a read of any other index
  -- below the limit returns what it did.
  pub write_array-read :
      (hand_back : A → A) (arr : Array A) (key : ℕ) (value : A → A)
      → IsValid blank arr
      → key < arr.max_elem
      → (arr' : Array A) × (old : A) × (write_array blank hand_back arr (pos key) value ≡ okay arr')
        × (read blank arr (pos key) ≡ okay old)
        × IsValid blank arr'
        × (arr'.max_elem ≡ arr.max_elem)
        × (arr'.tot_elem ≡ max arr.tot_elem (key + 1))
        × ((i : ℕ)
            → i < arr.max_elem
            → read blank arr' (pos i)
              ≡ (if i == key then okay (value (hand_back old)) else read blank arr (pos i)))
  write_array-read hand_back arr key value v h =
      let old = value_at blank arr key in
      let a = value (hand_back old) in
      let arr' = store key a (reserve blank key arr) in
      let w = store-Written key a arr (reserve blank key arr) (reserve-HasRoom key arr v h) in
      (
        arr',
        old,
        write_array-store hand_back arr key value v h,
        read-value_at arr key v h,
        w.valid,
        w.same_max,
        w.total,
        λ i b. read-store key a arr arr' i v w b,
      )

  -- A read of an index reports an error exactly when a write of it does, and it is the same error.
  pub accesses_agree :
      (hand_back : A → A) (arr : Array A) (index : ℤ) (value : A → A) (e : Error)
      → (read blank arr index ≡ error e) ↔ (write_array blank hand_back arr index value ≡ error e)
  unfolding read write_array write assign
  accesses_agree hand_back arr (negsuc _) value e = (ap (in_place arr), ap (in_place blank))
  accesses_agree hand_back arr (pos key) value e = elim (Bool-cases (leb arr.max_elem key)) [
    | inl out ↦ rw out (ap (in_place arr), ap (in_place blank))
    | inr inside ↦ rw inside (elim (Bool-cases (leb arr.alloc_elem key)) [
      | inl past ↦ rw past (ap (in_place _), ap (in_place _))
      | inr below ↦ rw below (ap (in_place _), ap (in_place _))
    ])
  ]

  -- Purging a valid array leaves a valid array with the same limit and scope, which counts no
  -- element, and a read of any index below the limit returns the default.
  pub purge-read :
      (arr : Array A)
      → IsValid blank arr
      → IsValid blank (purge blank arr)
        × ((purge blank arr).max_elem ≡ arr.max_elem)
        × ((purge blank arr).process ≡ arr.process)
        × ((purge blank arr).tot_elem ≡ 0)
        × ((i : ℕ) → i < arr.max_elem → read blank (purge blank arr) (pos i) ≡ okay blank)
  unfolding purge init_array
  purge-read arr v =
      let valid = init_array-IsValid arr.max_elem arr.process in
      let same = new_max-large arr.max_elem (omega (arith, v.at_least, v.at_most)) in
      (
        valid,
        same,
        refl,
        refl,
        λ i h.
            read-value_at (init_array blank arr.max_elem arr.process) i valid (omega (arith, same))
            ∙ ap okay (get_or-replicate array_inc i blank),
      )

  -- A new array is valid for every size that is not negative, counts no element, has the scope that
  -- was asked for, and reads the default at every index below its limit. The limit is a million for
  -- the size 0, 256 for the other sizes below 256, and the size from there on. A negative size is
  -- refused.
  pub new_array-IsValid :
      (size : ℤ) (process : Bool)
      → ((n : ℕ) × (arr : Array A) × (size ≡ pos n)
          × (new_array blank size process ≡ okay arr)
          × IsValid blank arr
          × (arr.tot_elem ≡ 0)
          × (arr.process ≡ process)
          × ((i : ℕ) → i < arr.max_elem → read blank arr (pos i) ≡ okay blank)
          × (arr.max_elem ≡ (if n == 0 then 1000000 else max n array_inc)))
        ⊎ ((n : ℕ) × (size ≡ negsuc n) × (new_array blank size process ≡ error negative_size))
  unfolding new_array init_array
  new_array-IsValid (pos n) process =
      let arr = init_array blank n process in
      let valid = init_array-IsValid n process in
      inl (
        n,
        arr,
        refl,
        refl,
        valid,
        refl,
        refl,
        λ i h. read-value_at arr i valid h ∙ ap okay (get_or-replicate array_inc i blank),
        new_max-cases n,
      )
  new_array-IsValid (negsuc n) process = inr (n, refl, refl)
