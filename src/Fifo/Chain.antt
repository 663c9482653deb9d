-- ===== src/Fifo/Chain.antt =====
-- The items of a list of rimrtc.c along their links.
use rimstone.Base.{
  or_true, ℕ, suc, ◌<◌, ◌≡◌, refl, sym, ap, ◌∙◌, ◌≢◌, inl, inr, Bool, true, false, ◌||◌, Option,
  none, some, List, [], ◌∷◌, ◌++◌, ◌==◌, arith, length, Bool-cases, ==-self, ==-false, ≢→==-false,
  ≡→==, subst,
}
use mathlib.Core.Bool.{true≢false}
use mathlib.Core.Option.{some-injective}
use rimstone.Base.Results.{none≢some}
use rimstone.Base.Words.{Bytes}
use rimstone.Fifo.{Item, Memory, put, same}

pub same_self : (p : Option ℕ) → same p p ≡ true
same_self none = refl
same_self (some a) = ==-self a

-- An item's address, name and data.
pub record Cell (D : Type 0) : Type 0 where
  pub place : ℕ
  pub name : Bytes
  pub value : D

module _ {D : Type 0} where
  abbrev pub first_of : List (Cell D) → Option ℕ
  first_of [] = none
  first_of (c ∷ xs) = some c.place

  unfoldable pub last_of : List (Cell D) → Option ℕ
  last_of [] = none
  last_of (c ∷ []) = some c.place
  last_of (_ ∷ (x ∷ xs)) = last_of (x ∷ xs)

  unfoldable pub has : ℕ → List (Cell D) → Bool
  has a [] = false
  has a (c ∷ xs) = (a == c.place) || has a xs

  -- Each item is in the memory and leads to the next one, at another address than those behind it.
  unfoldable pub Links : Memory D → List (Cell D) → Type 0
  Links m [] = Unit {0}
  Links m (c ∷ xs) =
      (m c.place ≡ some (record { data_of = c.value; name = c.name; next = first_of xs }))
      × (has c.place xs ≡ false)
      × Links m xs

  unfoldable pub AreBelow : ℕ → List (Cell D) → Type 0
  AreBelow n [] = Unit {0}
  AreBelow n (c ∷ xs) = (c.place < n) × AreBelow n xs

  pub put_self : (m : Memory D) (a : ℕ) (i : Item D) → put m a i a ≡ some i
  unfolding put
  put_self m a i = rw (==-self a) refl

  put-other : (m : Memory D) (a b : ℕ) (i : Item D) → b ≢ a → put m a i b ≡ m b
  unfolding put
  put-other m a b i h = rw (≢→==-false b a h) refl

  pub has-cons :
      (a : ℕ) (c : Cell D) (xs : List (Cell D))
      → has a (c ∷ xs) ≡ false
      → (a ≢ c.place) × (has a xs ≡ false)
  unfolding has
  has-cons a c xs h = elim (Bool-cases (a == c.place)) [
    | inl e ↦ absurd (true≢false (sym (ap (λ b. b || has a xs) e) ∙ h))
    | inr e ↦ (==-false a c.place e, sym (ap (λ b. b || has a xs) e) ∙ h)
  ]

  pub cons-has :
      (a : ℕ) (c : Cell D) (xs : List (Cell D))
      → a ≢ c.place
      → has a xs ≡ false
      → has a (c ∷ xs) ≡ false
  unfolding has
  cons-has a c xs h t = rw (≢→==-false a c.place h) t

  -- A change at an address that no item has.
  pub Links-put :
      (m : Memory D) (a : ℕ) (i : Item D) (xs : List (Cell D))
      → has a xs ≡ false
      → Links m xs
      → Links (put m a i) xs
  unfolding Links
  Links-put m a i [] h l = tt
  Links-put m a i (c ∷ xs) h (here, apart, rest) =
      let (other, later) = has-cons a c xs h in
      (put-other m a c.place i (λ e. other (sym e)) ∙ here, apart, Links-put m a i xs later rest)

  pub has-AreBelow : (n : ℕ) (xs : List (Cell D)) → AreBelow n xs → has n xs ≡ false
  unfolding has AreBelow
  has-AreBelow n [] h = refl
  has-AreBelow n (c ∷ xs) (h, t) =
      cons-has n c xs (λ e. absurd {A = ⊥} (omega arith)) (has-AreBelow n xs t)

  pub AreBelow-suc : (n : ℕ) (xs : List (Cell D)) → AreBelow n xs → AreBelow (suc n) xs
  unfolding AreBelow
  AreBelow-suc n [] h = tt
  AreBelow-suc n (c ∷ xs) (h, t) = (omega arith, AreBelow-suc n xs t)

  pub AreBelow-append :
      (n : ℕ) (xs ys : List (Cell D)) → AreBelow n xs → AreBelow n ys → AreBelow n (xs ++ ys)
  unfolding AreBelow
  AreBelow-append n [] ys h t = t
  AreBelow-append n (c ∷ xs) ys (h, hs) t = (h, AreBelow-append n xs ys hs t)

  has-append_one :
      (a : ℕ) (xs : List (Cell D)) (c : Cell D)
      → has a xs ≡ false
      → a ≢ c.place
      → has a (xs ++ c ∷ []) ≡ false
  unfolding has
  has-append_one a [] c h other = rw (≢→==-false a c.place other) refl
  has-append_one a (x ∷ xs) c h other =
      let (apart, later) = has-cons a x xs h in
      cons-has a x (xs ++ c ∷ []) apart (has-append_one a xs c later other)

  pub has-last : (a : ℕ) (xs : List (Cell D)) → last_of xs ≡ some a → has a xs ≡ true
  unfolding has last_of
  has-last a [] h = absurd (none≢some h)
  has-last a (c ∷ []) h = ap (λ b. b || false) (≡→== a c.place (sym (some-injective c.place a h)))
  has-last a (c ∷ (x ∷ xs)) h =
      ap (◌||◌ (a == c.place)) (has-last a (x ∷ xs) h) ∙ or_true (a == c.place)

  pub last-append : (xs : List (Cell D)) (c : Cell D) → last_of (xs ++ c ∷ []) ≡ some c.place
  unfolding last_of
  last-append [] c = refl
  last-append (x ∷ []) c = refl
  last-append (x ∷ (y ∷ xs)) c = last-append (y ∷ xs) c

  link_last :
      (m : Memory D) (x c : Cell D)
      → m x.place ≡ some (record { data_of = x.value; name = x.name; next = none })
      → has c.place (x ∷ []) ≡ false
      → m c.place ≡ some (record { data_of = c.value; name = c.name; next = none })
      → (i : Item D) × (m x.place ≡ some i)
        × Links (put m x.place (record i { next = some c.place })) (x ∷ c ∷ [])
  unfolding Links has
  link_last m x c here fresh there =
      let (other, _) = has-cons c.place x [] fresh in
      (
        record { data_of = x.value; name = x.name; next = none },
        here,
        (
          put_self m x.place _,
          cons-has x.place c [] (λ e. other (sym e)) refl,
          (put-other m x.place c.place _ other ∙ there, refl, tt),
        ),
      )

  pub last-cons : (x : Cell D) (ys : List (Cell D)) → 0 < length ys → last_of (x ∷ ys) ≡ last_of ys
  unfolding last_of
  last-cons x [] h = absurd (omega arith)
  last-cons x (y ∷ ys) h = refl

  -- The last item's link set to a new item behind it.
  pub Links-append :
      (m : Memory D) (xs : List (Cell D)) (a : ℕ) (c : Cell D)
      → Links m xs
      → last_of xs ≡ some a
      → has c.place xs ≡ false
      → m c.place ≡ some (record { data_of = c.value; name = c.name; next = none })
      → (i : Item D) × (m a ≡ some i)
        × Links (put m a (record i { next = some c.place })) (xs ++ c ∷ [])
  unfolding Links last_of
  Links-append m [] a c l e fresh there = absurd (none≢some e)
  Links-append m (x ∷ []) a c (here, _, _) e fresh there =
      subst
        (λ b.
          (i : Item D) × (m b ≡ some i)
          × Links (put m b (record i { next = some c.place })) (x ∷ c ∷ []))
        (some-injective x.place a e) (link_last m x c here fresh there)
  Links-append m (x ∷ (y ∷ xs)) a c (here, apart, rest) e fresh there =
      let (other, later) = has-cons c.place x (y ∷ xs) fresh in
      let (i, mi, links) = Links-append m (y ∷ xs) a c rest e later there in
      (
        i,
        mi,
        (
          put-other m a x.place _ (λ b.
                true≢false (sym (has-last a (y ∷ xs) e) ∙ ap (λ n. has n (y ∷ xs)) (sym b) ∙ apart))
              ∙ here,
          has-append_one x.place (y ∷ xs) c apart (λ b. other (sym b)),
          links,
        ),
      )
