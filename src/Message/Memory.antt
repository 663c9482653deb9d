-- ===== src/Message/Memory.antt =====
-- What writing into a block of memory leaves in its other places.
use rimstone.Base.{
  ℕ, zero, suc, ◌+◌, ◌-◌, ◌≤◌, ◌≡◌, refl, ap, ◌∙◌, List, [], ◌∷◌, ◌++◌, arith, length, take, drop,
  length-append, append-nil,
}
use rimstone.Base.Words.{Bytes}
use rimstone.Message.Fields.{put}

abbrev pub slice : ℕ → ℕ → Bytes → Bytes
slice at n d = take n (drop at d)

drop-none {ℓ} : {A : Type ℓ} (i : ℕ) → drop {A = A} i [] ≡ []
drop-none zero = refl
drop-none (suc i) = refl

suc_add : (i j : ℕ) → suc i + j ≡ suc (i + j)
suc_add i j = omega arith

pub drop-drop {ℓ} : {A : Type ℓ} (i j : ℕ) (xs : List A) → drop (i + j) xs ≡ drop j (drop i xs)
drop-drop zero j xs = ap (λ n. drop n xs) (omega arith)
drop-drop (suc i) zero [] = drop-none (suc i + 0)
drop-drop (suc i) (suc j) [] = drop-none (suc i + suc j)
drop-drop (suc i) j (x ∷ xs) = ap (λ n. drop n (x ∷ xs)) (suc_add i j) ∙ drop-drop i j xs

pub drop-append {ℓ} : {A : Type ℓ} (xs ys : List A) → drop (length xs) (xs ++ ys) ≡ ys
drop-append [] ys = refl
drop-append (x ∷ xs) ys = drop-append xs ys

pub take-append {ℓ} : {A : Type ℓ} (xs ys : List A) → take (length xs) (xs ++ ys) ≡ xs
take-append [] ys = refl
take-append (x ∷ xs) ys = ap (◌∷◌ x) (take-append xs ys)

pub length-drop {ℓ} : {A : Type ℓ} (i : ℕ) (xs : List A) → length (drop i xs) ≡ length xs - i
length-drop zero xs = omega arith
length-drop (suc i) [] = omega arith
length-drop (suc i) (x ∷ xs) = omega (arith, length-drop i xs)

drop-overlay :
    (new d : Bytes) (j : ℕ)
    → length new ≤ j
    → length new ≤ length d
    → drop j (new ++ drop (length new) d) ≡ drop j d
drop-overlay [] d j h fits = refl
drop-overlay (x ∷ new) [] j h fits = absurd (omega arith)
drop-overlay (x ∷ new) (y ∷ d) zero h fits = absurd (omega arith)
drop-overlay (x ∷ new) (y ∷ d) (suc j) h fits = drop-overlay new d j (omega arith) (omega arith)

-- What is behind the new bytes stays.
pub drop-put :
    (d : Bytes) (i : ℕ) (new : Bytes) (j : ℕ)
    → i + length new ≤ j
    → i + length new ≤ length d
    → drop j (put d i new) ≡ drop j d
unfolding put
drop-put d zero new j h fits = drop-overlay new d j (omega arith) (omega arith)
drop-put [] (suc i) new j h fits = absurd (omega arith)
drop-put (x ∷ d) (suc i) new zero h fits = absurd (omega arith)
drop-put (x ∷ d) (suc i) new (suc j) h fits = drop-put d i new j (omega arith) (omega arith)

take-put :
    (d : Bytes) (i : ℕ) (new : Bytes) (n : ℕ)
    → n ≤ i
    → i ≤ length d
    → take n (put d i new) ≡ take n d
unfolding put
take-put d i new zero h fits = refl
take-put d zero new (suc n) h fits = absurd (omega arith)
take-put [] (suc i) new (suc n) h fits = absurd (omega arith)
take-put (x ∷ d) (suc i) new (suc n) h fits =
    ap (◌∷◌ x) (take-put d i new n (omega arith) (omega arith))

-- What is in front of the new bytes stays.
pub slice-put :
    (d : Bytes) (i : ℕ) (new : Bytes) (at n : ℕ)
    → at + n ≤ i
    → i ≤ length d
    → slice at n (put d i new) ≡ slice at n d
unfolding put
slice-put d i new zero n h fits = take-put d i new n (omega arith) fits
slice-put d zero new (suc at) n h fits = absurd (omega arith)
slice-put [] (suc i) new (suc at) n h fits = absurd (omega arith)
slice-put (x ∷ d) (suc i) new (suc at) n h fits = slice-put d i new at n (omega arith) (omega arith)

pub length-put :
    (d : Bytes) (i : ℕ) (new : Bytes) → i + length new ≤ length d → length (put d i new) ≡ length d
unfolding put
length-put d zero new h =
    omega (arith, length-append new (drop (length new) d), length-drop (length new) d)
length-put [] (suc i) new h = absurd (omega arith)
length-put (x ∷ d) (suc i) new h = ap suc (length-put d i new (omega arith))

-- Bytes added where the text ends.
pub put_end : (d new : Bytes) → put d (length d) new ≡ d ++ new
unfolding put
put_end [] new = ap (◌++◌ new) (drop-none (length new)) ∙ append-nil new
put_end (x ∷ d) new = ap (◌∷◌ x) (put_end d new)
