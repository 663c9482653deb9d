-- ===== src/Memory/Chain.antt =====
-- The lists of rimmem.c's table, along the field `next`.
use rimstone.Base.{
  or_true, subst, ℕ, ◌<◌, ◌≤◌, ◌≡◌, refl, sym, ap, ◌∙◌, ◌≢◌, inl, inr, Bool, true, false, ◌||◌,
  Option, none, some, List, [], ◌∷◌, ◌++◌, ◌==◌, arith, Bool-cases, ==-self, ==-false, ≢→==-false,
}
use mathlib.Core.Bool.{true≢false}
use rimstone.Memory.{Entry, put}

unfoldable pub has : ℕ → List ℕ → Bool
has a [] = false
has a (i ∷ is) = (a == i) || has a is

-- From `p` on, the entries `is` are linked in this order, and the last one ends the list.
unfoldable pub Chain : (ℕ → Entry) → Option ℕ → List ℕ → Type 0
Chain vm p [] = p ≡ none
Chain vm p (i ∷ is) = (p ≡ some i) × Chain vm (vm i).next is

unfoldable pub AreDistinct : List ℕ → Type 0
AreDistinct [] = Unit {0}
AreDistinct (i ∷ is) = (has i is ≡ false) × AreDistinct is

unfoldable pub AreBelow : ℕ → List ℕ → Type 0
AreBelow n [] = Unit {0}
AreBelow n (i ∷ is) = (i < n) × AreBelow n is

module _ {A : Type 0} where
  pub put_self : (f : ℕ → A) (i : ℕ) (a : A) → put f i a i ≡ a
  unfolding put
  put_self f i a = rw (==-self i) refl

  pub put_other : (f : ℕ → A) (i : ℕ) (a : A) (j : ℕ) → j ≢ i → put f i a j ≡ f j
  unfolding put
  put_other f i a j h = rw (≢→==-false j i h) refl

pub has-cons : (a i : ℕ) (is : List ℕ) → has a (i ∷ is) ≡ false → (a ≢ i) × (has a is ≡ false)
unfolding has
has-cons a i is h = elim (Bool-cases (a == i)) [
  | inl e ↦ absurd (true≢false (sym (ap (λ b. b || has a is) e) ∙ h))
  | inr e ↦ (==-false a i e, sym (ap (λ b. b || has a is) e) ∙ h)
]

pub cons-has : (a i : ℕ) (is : List ℕ) → a ≢ i → has a is ≡ false → has a (i ∷ is) ≡ false
unfolding has
cons-has a i is h t = rw (≢→==-false a i h) t

pub has-here : (a : ℕ) (is : List ℕ) → has a (a ∷ is) ≡ true
unfolding has
has-here a is = rw (==-self a) refl

pub has-skip : (a i : ℕ) (is : List ℕ) → a ≢ i → has a (i ∷ is) ≡ has a is
unfolding has
has-skip a i is h = rw (≢→==-false a i h) refl

pub has-append : (a : ℕ) (is js : List ℕ) → has a (is ++ js) ≡ (has a is || has a js)
unfolding has
has-append a [] js = refl
has-append a (i ∷ is) js = ground (arith, has-append a is js)

-- Links through entries that keep their `next`.
pub Chain-same :
    (vm vm' : ℕ → Entry) (p : Option ℕ) (is : List ℕ)
    → ((j : ℕ) → has j is ≡ true → (vm' j).next ≡ (vm j).next)
    → Chain vm p is
    → Chain vm' p is
unfolding Chain has
Chain-same vm vm' p [] same c = c
Chain-same vm vm' p (i ∷ is) same (e, c) = (
  e,
  subst (λ q. Chain vm' q is) (sym (same i (has-here i is)))
      (Chain-same vm vm' (vm i).next is (λ j h. same j (ap (◌||◌ (j == i)) h ∙ or_true (j == i)))
        c),
)

pub Chain-put :
    (vm : ℕ → Entry) (r : ℕ) (e : Entry) (p : Option ℕ) (is : List ℕ)
    → has r is ≡ false
    → Chain vm p is
    → Chain (put vm r e) p is
Chain-put vm r e p is out = Chain-same vm (put vm r e) p is (λ j h.
    ap (λ (x : Entry). x.next)
      (put_other vm r e j (λ q. true≢false (sym h ∙ ap (λ k. has k is) q ∙ out))))

pub AreBelow-mono : (n m : ℕ) (is : List ℕ) → n ≤ m → AreBelow n is → AreBelow m is
unfolding AreBelow
AreBelow-mono n m [] le h = tt
AreBelow-mono n m (i ∷ is) le (h, t) = (omega arith, AreBelow-mono n m is le t)

pub has-AreBelow : (n a : ℕ) (is : List ℕ) → AreBelow n is → n ≤ a → has a is ≡ false
unfolding AreBelow has
has-AreBelow n a [] h le = refl
has-AreBelow n a (i ∷ is) (h, t) le = ground (arith, has-AreBelow n a is t)

pub AreBelow-has : (n a : ℕ) (is : List ℕ) → AreBelow n is → has a is ≡ true → a < n
unfolding AreBelow has
AreBelow-has n a [] h e = absurd (true≢false (sym e))
AreBelow-has n a (i ∷ is) (h, t) e = ground (arith, AreBelow-has n a is t)
