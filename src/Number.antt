-- ===== src/Number.antt =====
-- rimrtc.c: rim_num2str, a number's text in a base. The array `mods` has room for
-- RIM_NUMBER_LENGTH digits. A base below 0, which is refused as 0 and 1 are, is left out.
mod Mods
mod Digits
mod Tests
use rimstone.Base.{
  ℕ, zero, suc, ◌+◌, ◌/◌, ◌%◌, ◌^◌, Bool, true, false, ◌||◌, Option, none, some, List, ◌∷◌, ltb,
  ◌==◌, if◌then◌else◌, length, [],
}
use rimstone.Base.Results.{ℤ, pos, negsuc}
use rimstone.Base.Words.{Bytes}

-- `refused` is the result NULL, and `undefined` what the C language leaves undefined: the negation
-- of the least number, and a write past the array.
pub data Outcome : Type 0 where
  refused : Outcome
  undefined : Outcome
  text : Bytes → ℕ → Outcome

abbrev pub number_length : ℕ
number_length = 70

-- "0123456789abcdefghijklmnopqrstuvwxyz"[d]
unfoldable pub digit_char : ℕ → ℕ
digit_char d = if ltb d 10 then 48 + d else 87 + d

-- The number without its sign, for one above - 2 ^ 63.
unfoldable pub magnitude : ℤ → Option ℕ
magnitude (pos n) = some n
magnitude (negsuc n) = if ltb (suc n) (2 ^ 63) then some (suc n) else none

unfoldable pub is_negative : ℤ → Bool
is_negative (pos n) = false
is_negative (negsuc n) = true

unfoldable pub with_digit : ℕ → Option (List ℕ) → Option (List ℕ)
with_digit d none = none
with_digit d (some ds) = some (d ∷ ds)

-- The digits, the last one first; the first argument is the room that `mods` has left.
unfoldable pub mods_of : ℕ → ℕ → ℕ → Option (List ℕ)
mods_of zero base a = if a == 0 then some [] else none
mods_of (suc room) base a =
    let rest = mods_of room base (a / base) in
    if a == 0 then some [] else with_digit (a % base) rest

-- Filling in from the end, in front of `tail`.
unfoldable pub fill_in : List ℕ → Bytes → Bytes
fill_in [] tail = tail
fill_in (d ∷ ds) tail = fill_in ds (digit_char d ∷ tail)

unfoldable pub signed : Bool → Bytes → Bytes
signed true digits = 45 ∷ digits
signed false digits = digits

unfoldable pub written : Bool → Option (List ℕ) → Outcome
written negative none = undefined
written negative (some ds) =
    text (signed negative (fill_in ds [])) ((if negative then 1 else 0) + length ds)

unfoldable pub write_digits : Bool → ℕ → ℕ → Outcome
write_digits negative base a =
    if a == 0 then text (48 ∷ []) 1 else written negative (mods_of number_length base a)

unfoldable pub num2str : ℤ → ℕ → Outcome
num2str al base =
    if ltb base 2 || ltb 36 base
    then refused
    else elim (magnitude al) [ none ↦ undefined | some a ↦ write_digits (is_negative al) base a ]
