-- ===== src/Number/Digits.antt =====
-- rimrtc.c: the text of a number, read back.
use rimstone.Base.{
  ℕ, zero, suc, ◌+◌, ◌-◌, ◌*◌, ◌^◌, ◌<◌, ◌≤◌, ◌≡◌, refl, sym, ap, subst, ◌∙◌, Bool, true, false,
  ◌||◌, ◌&&◌, Option, none, some, List, [], ◌∷◌, ltb, leb, lt→ltb, ◌==◌, if◌then◌else◌, length,
  arith, inl, inr, Bool-cases, ==→≡, ≢→==-false,
}
use native.Mathlib.Nat.{mul_comm}
use mathlib.Core.Option
use mathlib.Core.Option.{some-injective}
use rimstone.Base.Results.{ℤ, pos, negsuc, none≢some}
use rimstone.Base.Words.{Bytes}
use rimstone.Number.{
  Outcome, refused, undefined, text, number_length, digit_char, magnitude, is_negative, mods_of,
  fill_in, signed, written, write_digits, num2str,
}
use rimstone.Number.Mods.{value, AreDigits, IsLed, mods_of-Digits}

-- The digit that a character is in a base, `none` for a character that is no digit of it.
unfoldable pub digit_of : ℕ → ℕ → Option ℕ
digit_of base c =
    let d = if ltb c 58 then c - 48 else c - 87 in
    if leb 48 c && ((ltb c 58 || leb 97 c) && ltb d base) then some d else none

unfoldable pub read_from : ℕ → ℕ → Bytes → Option ℕ
read_from base a [] = some a
read_from base a (c ∷ cs) = elim (digit_of base c) [
  | none ↦ none
  | some d ↦ read_from base (a * base + d) cs
]

-- One digit, or more of which the first is not 0.
unfoldable pub read_digits : ℕ → Bytes → Option ℕ
read_digits base [] = none
read_digits base (c ∷ []) = read_from base 0 (c ∷ [])
read_digits base (c ∷ d ∷ cs) = if c == 48 then none else read_from base 0 (c ∷ d ∷ cs)

abbrev pub negated : ℕ → ℤ
negated zero = pos zero
negated (suc n) = negsuc n

-- The number that a text stands for: digits of the base, behind a minus sign or none.
unfoldable pub number_of : ℕ → Bytes → Option ℤ
number_of base [] = none
number_of base (c ∷ cs) =
    if c == 45
    then Option.map negated (read_digits base cs)
    else Option.map pos (read_digits base (c ∷ cs))

digit_of-digit_char : (base d : ℕ) → d < base → base ≤ 36 → digit_of base (digit_char d) ≡ some d
unfolding digit_of digit_char
digit_of-digit_char base d h le = ground arith

-- Filling in and reading.
fill_in-read :
    (base : ℕ) (ds : List ℕ) (tail : Bytes)
    → base ≤ 36
    → AreDigits base ds
    → read_from base 0 (fill_in ds tail) ≡ read_from base (value base ds) tail
unfolding AreDigits fill_in read_from
fill_in-read base [] tail le h = refl
fill_in-read base (d ∷ ds) tail le (lt, h) =
    fill_in-read base ds (digit_char d ∷ tail) le h
    ∙ rw (digit_of-digit_char base d lt le, read_from)
        (ap (λ a. read_from base a tail) (omega (arith, mul_comm base (value base ds))))

fill_in-length : (ds : List ℕ) (tail : Bytes) → length (fill_in ds tail) ≡ length ds + length tail
unfolding fill_in
fill_in-length [] tail = omega arith
fill_in-length (d ∷ ds) tail = omega (arith, fill_in-length ds (digit_char d ∷ tail))

-- A text that starts with neither a minus sign nor a 0.
unfoldable IsPlain : Bytes → Type 0
IsPlain [] = ⊥
IsPlain (c ∷ cs) = ((c == 45) ≡ false) × ((c == 48) ≡ false)

digit_char-IsPlain : (d : ℕ) (cs : Bytes) → 0 < d → IsPlain (digit_char d ∷ cs)
unfolding digit_char IsPlain
digit_char-IsPlain d cs h = (
  ≢→==-false (digit_char d) 45 (λ e. omega (arith, e, above d h)),
  ≢→==-false (digit_char d) 48 (λ e. omega (arith, e, above d h)),
)
  where
    above : (k : ℕ) → 0 < k → 48 < digit_char k
    above k h = ground arith

fill_in-IsPlain : (ds : List ℕ) (tail : Bytes) → IsLed ds → IsPlain (fill_in ds tail)
unfolding fill_in IsLed
fill_in-IsPlain [] tail h = absurd h
fill_in-IsPlain (d ∷ []) tail h = digit_char-IsPlain d tail h
fill_in-IsPlain (d ∷ e ∷ ds) tail h = fill_in-IsPlain (e ∷ ds) (digit_char d ∷ tail) h

read_digits-IsPlain :
    (base : ℕ) (cs : Bytes) → IsPlain cs → read_digits base cs ≡ read_from base 0 cs
unfolding read_digits IsPlain
read_digits-IsPlain base [] h = absurd h
read_digits-IsPlain base (c ∷ []) h = refl
read_digits-IsPlain base (c ∷ d ∷ cs) (_, h) =
    ap (λ (b : Bool). if b then none else read_from base 0 (c ∷ d ∷ cs)) h

-- The number with a sign.
abbrev with_sign : Bool → ℕ → ℤ
with_sign true a = negated a
with_sign false a = pos a

signed-number :
    (negative : Bool) (base : ℕ) (cs : Bytes)
    → IsPlain cs
    → number_of base (signed negative cs) ≡ Option.map (with_sign negative) (read_from base 0 cs)
unfolding signed number_of IsPlain
signed-number negative base [] h = absurd h
signed-number true base (c ∷ cs) h = ap (Option.map negated) (read_digits-IsPlain base (c ∷ cs) h)
signed-number false base (c ∷ cs) (h, k) =
    ap
      (λ (b : Bool).
        if b
        then Option.map negated (read_digits base cs)
        else Option.map pos (read_digits base (c ∷ cs)))
      h
    ∙ ap (Option.map pos) (read_digits-IsPlain base (c ∷ cs) (h, k))

signed-length :
    (negative : Bool) (cs : Bytes)
    → length (signed negative cs) ≡ (if negative then 1 else 0) + length cs
unfolding signed
signed-length true cs = omega arith
signed-length false cs = omega arith

-- What a text that rim_num2str writes is: of this length, and read as the number.
abbrev pub IsText : ℤ → ℕ → Outcome → Type 0
IsText al base o =
    (t : Bytes) × (o ≡ text t (length t))
    × (number_of base t ≡ some al)
    × (length t ≤ suc number_length)

digits-IsText :
    (negative : Bool) (base a : ℕ)
    → 2 ≤ base
    → base ≤ 36
    → a < 2 ^ number_length
    → (a == 0) ≡ false
    → IsText (with_sign negative a) base (written negative (mods_of number_length base a))
unfolding written read_from
digits-IsText negative base a le ge h positive =
    let d = mods_of-Digits number_length base a le h in
    let filled = fill_in-length d.digits [] in
    let long = signed-length negative (fill_in d.digits []) in
    (
      signed negative (fill_in d.digits []),
      ap (written negative) d.returns
          ∙ ap (text (signed negative (fill_in d.digits []))) (sym (long ∙ omega (arith, filled))),
      signed-number negative base (fill_in d.digits [])
            (fill_in-IsPlain d.digits [] (d.led positive))
          ∙ ap (Option.map (with_sign negative))
              (fill_in-read base d.digits [] ge d.below ∙ ap some d.stands),
      short negative (length d.digits) _ d.fits (long ∙ omega (arith, filled)),
    )
  where
    short :
        (b : Bool) (n k : ℕ)
        → n ≤ number_length
        → k ≡ (if b then 1 else 0) + n
        → k ≤ suc number_length
    short true n k fits e = omega (arith, fits, e)
    short false n k fits e = omega (arith, fits, e)

read_zero : (base : ℕ) → 0 < base → read_from base 0 (48 ∷ []) ≡ some 0
unfolding read_from digit_of
read_zero base h = rw (lt→ltb 0 base h, read_from) (ap some (omega arith))

write_digits-IsText :
    (negative : Bool) (base a : ℕ)
    → 2 ≤ base
    → base ≤ 36
    → a < 2 ^ number_length
    → IsText (with_sign negative a) base (write_digits negative base a)
unfolding write_digits number_of read_digits
write_digits-IsText negative base a le ge h = elim (Bool-cases (a == 0)) [
  | inl e ↦ (
    48 ∷ [],
    ap
        (λ (b : Bool).
          if b then text (48 ∷ []) 1 else written negative (mods_of number_length base a))
        e,
    ap (Option.map pos) (read_zero base (omega (arith, le)))
        ∙ ap some (sym (ap (with_sign negative) (==→≡ a 0 e) ∙ no_sign negative)),
    omega arith,
  )
  | inr e ↦
      subst
        (λ (b : Bool).
          IsText (with_sign negative a) base
            (if b then text (48 ∷ []) 1 else written negative (mods_of number_length base a)))
        (sym e) (digits-IsText negative base a le ge h e)
]
  where
    no_sign : (b : Bool) → with_sign b 0 ≡ pos 0
    no_sign true = refl
    no_sign false = refl

sign-magnitude : (al : ℤ) (a : ℕ) → magnitude al ≡ some a → with_sign (is_negative al) a ≡ al
unfolding magnitude is_negative
sign-magnitude (pos n) a e = ap pos (some-injective a n (sym e))
sign-magnitude (negsuc n) a e = elim (Bool-cases (ltb (suc n) (2 ^ 63))) [
  | inl q ↦ ap negated (
      sym (
        some-injective (suc n) a (sym (ap (λ (b : Bool). if b then some (suc n) else none) q) ∙ e)))
  | inr q ↦ absurd (none≢some (sym (ap (λ (b : Bool). if b then some (suc n) else none) q) ∙ e))
]

-- The text that rim_num2str writes for a 64-bit number above - 2 ^ 63 in a base from 2 to 36 has
-- the length that it returns, is made of digits below the base, of which the first is not 0 where
-- there are more, behind a minus sign or none, stands for the number in that base, and has at most
-- one character more than the array of its digits has room for, which no digit passes.
pub num2str-IsText :
    (al : ℤ) (a base : ℕ)
    → magnitude al ≡ some a
    → a < 2 ^ 63
    → 2 ≤ base
    → base ≤ 36
    → IsText al base (num2str al base)
unfolding num2str
num2str-IsText al a base e small le ge =
    subst
      (λ (b : Bool). IsText al base (
        if b then refused else elim (magnitude al) [
          | none ↦ undefined
          | some n ↦ write_digits (is_negative al) base n
        ]))
      (sym (in_range base le ge))
      (subst
        (λ (p : Option ℕ).
          IsText al base
            (elim p [ none ↦ undefined | some n ↦ write_digits (is_negative al) base n ]))
        (sym e)
        (subst (λ n. IsText n base (write_digits (is_negative al) base a)) (sign-magnitude al a e)
          (write_digits-IsText (is_negative al) base a le ge (omega (arith, small)))))
  where
    in_range : (b : ℕ) → 2 ≤ b → b ≤ 36 → (ltb b 2 || ltb 36 b) ≡ false
    in_range b le ge = ground arith
