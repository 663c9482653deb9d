-- ===== src/Trim.antt =====
-- rimrtc.c: rim_trim, which moves the text, and rim_trim_ptr, which returns a place in it. A text
-- is its bytes without the NUL behind them, as both want it; the result is the text and its length.
mod Tests
use rimstone.Base.{
  ℕ, zero, suc, ◌+◌, ◌-◌, ◌<◌, ◌≤◌, ◌≡◌, refl, sym, ap, ap₂, ◌∙◌, Bool, true, false, List, [], ◌∷◌,
  ltb, if◌then◌else◌, length, get_or, take, drop, arith, inl, inr, Bool-cases, le→ltb-false, lt→ltb,
}
use rimstone.Base.Words.{Bytes}
use rimstone.Message.Fields.{is_space}

-- The leading spaces.
pub lead : Bytes → ℕ
lead [] = 0
lead (b ∷ bs) = let rest = lead bs in if is_space b then suc rest else 0

-- The length of the first `n` bytes without the spaces at their end.
pub back : ℕ → Bytes → ℕ
back zero s = zero
back (suc n) s = let rest = back n s in if is_space (get_or s n 0) then rest else suc n

pub trim : Bytes → Bytes × ℕ
trim s = let moved = drop (lead s) s in let n = back (length s - lead s) moved in (take n moved, n)

-- As `back`, but not further than to the place `f`.
pub back_to : ℕ → ℕ → Bytes → ℕ
back_to f zero s = zero
back_to f (suc n) s =
    let rest = back_to f n s in
    if ltb n f then suc n else if is_space (get_or s n 0) then rest else suc n

pub trim_ptr : Bytes → Bytes × ℕ
trim_ptr s =
    let e = back_to (lead s) (length s) s in
    (drop (lead s) (take e s), (length s - lead s) - (length s - e))

lead-le : (s : Bytes) → lead s ≤ length s
unfolding lead
lead-le [] = omega arith
lead-le (b ∷ bs) = ground (arith, lead-le bs)

back-le : (n : ℕ) (s : Bytes) → back n s ≤ n
unfolding back
back-le zero s = omega arith
back-le (suc n) s = ground (arith, back-le n s)

get_or-drop : (f n : ℕ) (s : Bytes) → get_or (drop f s) n 0 ≡ get_or s (f + n) 0
get_or-drop zero n s = ap (λ k. get_or s k 0) (omega arith)
get_or-drop (suc f) n [] = refl
get_or-drop (suc f) n (b ∷ bs) = get_or-drop f n bs ∙ ap (λ k. get_or (b ∷ bs) k 0) (plus f n)
  where
    plus : (a c : ℕ) → suc (a + c) ≡ suc a + c
    plus a c = omega arith

take-nil : (n : ℕ) → take {A = ℕ} n [] ≡ []
take-nil zero = refl
take-nil (suc n) = refl

drop-take : (f n : ℕ) (s : Bytes) → drop f (take (f + n) s) ≡ take n (drop f s)
drop-take zero n s = ap (λ k. take k s) (omega arith)
drop-take (suc f) n [] = ap (drop (suc f)) (take-nil (suc f + n)) ∙ sym (take-nil n)
drop-take (suc f) n (b ∷ bs) =
    ap (λ k. drop (suc f) (take k (b ∷ bs))) (plus f n) ∙ drop-take f n bs
  where
    plus : (a c : ℕ) → suc a + c ≡ suc (a + c)
    plus a c = omega arith

back_to_self : (f : ℕ) (s : Bytes) → back_to f f s ≡ f
unfolding back_to
back_to_self zero s = refl
back_to_self (suc g) s =
    ap
      (λ (b : Bool).
        if b then suc g else if is_space (get_or s g 0) then back_to (suc g) g s else suc g)
      (lt→ltb g (suc g) (omega arith))

back_to-back : (f n : ℕ) (s : Bytes) → back_to f (f + n) s ≡ f + back n (drop f s)
unfolding back_to back
back_to-back f zero s = ap (λ k. back_to f k s) (plus_zero f) ∙ back_to_self f s ∙ sym (plus_zero f)
  where
    plus_zero : (a : ℕ) → a + 0 ≡ a
    plus_zero a = omega arith
back_to-back f (suc n) s =
    ap (λ k. back_to f k s) (plus_suc f n)
    ∙ ap
        (λ (b : Bool).
          if b
          then suc (f + n)
          else if is_space (get_or s (f + n) 0)
          then back_to f (f + n) s
          else suc (f + n))
        (le→ltb-false (f + n) f (omega arith))
    ∙ ap (λ (c : ℕ). if is_space c then back_to f (f + n) s else suc (f + n))
        (sym (get_or-drop f n s))
    ∙ either (is_space (get_or (drop f s) n 0)) (back_to f (f + n) s) (back n (drop f s))
        (back_to-back f n s)
  where
    plus_suc : (a c : ℕ) → a + suc c ≡ suc (a + c)
    plus_suc a c = omega arith

    either :
        (b : Bool) (x y : ℕ)
        → x ≡ f + y
        → (if b then x else suc (f + n)) ≡ f + (if b then y else suc n)
    either true x y e = e
    either false x y e = sym (plus_suc f n)

-- rim_trim and rim_trim_ptr give the same text, with the same length, for every text.
pub trim-trim_ptr : (s : Bytes) → trim s ≡ trim_ptr s
unfolding trim trim_ptr
trim-trim_ptr s =
    let f = lead s in
    let n = length s - f in
    let moved = drop f s in
    let ends : back_to f (length s) s ≡ f + back n moved =
      ap (λ k. back_to f k s) (omega (arith, lead-le s)) ∙ back_to-back f n s in
    ap₂ (λ (t : Bytes) (k : ℕ). (t, k))
      (sym (ap (λ k. drop f (take k s)) ends ∙ drop-take f (back n moved) s))
      (sym (ap (λ k. n - (length s - k)) ends ∙ omega (arith, back-le n moved, lead-le s)))
