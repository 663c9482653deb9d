-- ===== src/Number/Mods.antt =====
-- rimrtc.c: the digits of a number that rim_num2str collects in `mods`, the last one first.
use rimstone.Base.{
  ℕ, zero, suc, ◌+◌, ◌*◌, ◌/◌, ◌%◌, ◌^◌, ◌<◌, ◌≤◌, ◌≡◌, refl, sym, ap, subst, ◌∙◌, Bool, true,
  false, none, some, List, [], ◌∷◌, ==-false, ◌==◌, if◌then◌else◌, length, arith, inl, inr,
  Bool-cases, ==→≡,
}
use native.Mathlib.Nat.{div-add-mod, mod-lt, mul-le-mul_right, mul_comm, pow-suc}
use mathlib.Core.Bool.{true≢false}
use rimstone.Number.{with_digit, mods_of}

abbrev pub value : ℕ → List ℕ → ℕ
value base [] = 0
value base (d ∷ ds) = d + base * value base ds

unfoldable pub AreDigits : ℕ → List ℕ → Type 0
AreDigits base [] = Unit {0}
AreDigits base (d ∷ ds) = (d < base) × AreDigits base ds

-- The last digit, which is the first one of the text, is not 0.
unfoldable pub IsLed : List ℕ → Type 0
IsLed [] = ⊥
IsLed (d ∷ []) = 0 < d
IsLed (_ ∷ d ∷ ds) = IsLed (d ∷ ds)

pub record Digits (room base a : ℕ) : Type 0 where
  pub digits : List ℕ
  pub returns : mods_of room base a ≡ some digits
  pub stands : value base digits ≡ a
  pub below : AreDigits base digits
  pub fits : length digits ≤ room
  pub empty : (a == 0) ≡ true → digits ≡ []
  pub led : (a == 0) ≡ false → IsLed digits

half : (base a m : ℕ) → 2 ≤ base → a < m * 2 → a / base < m
half base a m le h =
    omega (arith, div-add-mod a base, mul_comm base (a / base), twice (a / base), h)
  where
    twice : (q : ℕ) → q * 2 ≤ base * q
    twice q = omega (arith, mul-le-mul_right q le)

IsLed-cons : (d : ℕ) (ds : List ℕ) → IsLed ds → IsLed (d ∷ ds)
unfolding IsLed
IsLed-cons d [] h = absurd h
IsLed-cons d (e ∷ es) h = h

IsLed-with_digit :
    (base a : ℕ) (ds : List ℕ)
    → (a == 0) ≡ false
    → ((a / base == 0) ≡ true → ds ≡ [])
    → ((a / base == 0) ≡ false → IsLed ds)
    → IsLed (a % base ∷ ds)
unfolding IsLed
IsLed-with_digit base a ds positive empty led = elim (Bool-cases (a / base == 0)) [
  | inl e ↦
      subst (λ es. IsLed (a % base ∷ es)) (sym (empty e))
        (rest (a / base) (==→≡ (a / base) 0 e) (div-add-mod a base))
  | inr e ↦ IsLed-cons (a % base) ds (led e)
]
  where
    rest : (q : ℕ) → q ≡ 0 → base * q + a % base ≡ a → 0 < a % base
    rest q e f = omega (arith, ==-false a 0 positive, ap (λ n. base * n) e, f)

pub mods_of-Digits : (room base a : ℕ) → 2 ≤ base → a < 2 ^ room → Digits room base a
unfolding mods_of with_digit AreDigits
mods_of-Digits zero base a le h =
    let none_left : a ≡ 0 = omega (arith, h) in
    record {
      digits = [];
      returns = ap (λ n. if n == 0 then some [] else none) none_left;
      stands = sym none_left;
      below = tt;
      fits = omega arith;
      empty = λ _. refl;
      led = λ f. absurd (==-false a 0 f none_left);
    }
mods_of-Digits (suc room) base a le h =
    let rest =
      mods_of-Digits room base (a / base) le
        (half base a (2 ^ room) le (subst (λ n. a < n) (pow-suc 2 room) h)) in
    elim (Bool-cases (a == 0)) [
      | inl e ↦ record {
        digits = [];
        returns =
            ap
              (λ (b : Bool).
                if b then some [] else with_digit (a % base) (mods_of room base (a / base)))
              e;
        stands = sym (==→≡ a 0 e);
        below = tt;
        fits = omega arith;
        empty = λ _. refl;
        led = λ f. absurd (true≢false (sym e ∙ f));
      }
      | inr e ↦ record {
        digits = a % base ∷ rest.digits;
        returns =
            ap
              (λ (b : Bool).
                if b then some [] else with_digit (a % base) (mods_of room base (a / base)))
              e
            ∙ ap (with_digit (a % base)) rest.returns;
        stands = ap (λ v. a % base + base * v) rest.stands ∙ omega (arith, div-add-mod a base);
        below = (mod-lt a (omega (arith, le)), rest.below);
        fits = omega (arith, rest.fits);
        empty = λ t. absurd (true≢false (sym t ∙ e));
        led = λ _. IsLed-with_digit base a rest.digits e rest.empty rest.led;
      }
    ]
