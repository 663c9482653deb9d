-- ===== src/Number/Tests.antt =====
-- A number's text, for minus 255 in base 16.
use rimstone.Base.{◌≡◌, refl, [], ◌∷◌, arith}
use rimstone.Base.Results.{negsuc}
use rimstone.Number.{
  num2str, text, magnitude, digit_char, fill_in, signed, written, write_digits, mods_of, with_digit,
  is_negative,
}
use rimstone.Number.Digits.{num2str-IsText, IsText}

num2str-IsText_example : IsText (negsuc 254) 16 (num2str (negsuc 254) 16)
unfolding magnitude
num2str-IsText_example =
    num2str-IsText (negsuc 254) 255 16 refl (omega arith) (omega arith) (omega arith)

num2str_test : num2str (negsuc 254) 16 ≡ text (45 ∷ 102 ∷ 102 ∷ []) 3
unfolding num2str magnitude write_digits written mods_of with_digit fill_in digit_char signed
    is_negative
num2str_test = refl
