-- ===== src/Utf.antt =====
-- utf.c: Unicode numbers from and to UTF-8 bytes, surrogates, and the hexadecimal digits of
-- escapes. Bytes are numbers below 256 (the library is built with -funsigned-char), reading past
-- the end of a string gives the null byte. A shift right by k is the division by 2 ^ k, and the
-- mask of the k lowest bits is the remainder; the 32-bit numbers stay in range, but for
-- `to_num32`.
use rimstone.Base.{
  ℕ, zero, suc, ◌+◌, ◌-◌, ◌*◌, ◌/◌, ◌%◌, bit_and, Bool, false, not, ◌&&◌, ◌||◌, Option, none, some,
  ◌∷◌, ltb, leb, ◌==◌, if◌then◌else◌, get_or, drop, [],
}
pub mod Masks
pub mod Encode
pub mod Surrogates
pub mod Digits
pub mod Hex
mod Tests
use rimstone.Base.Words.{Bytes}
use rimstone.Base.Results.{ℤ, pos, negsuc, Result, error, okay, bind}

-- The texts of the errors: RIM_UTF_ERR_SECOND_BYTE and so on
pub data Error : Type 0 where
  second_byte : Error
  third_byte : Error
  fourth_byte : Error
  invalid : Error
  illegal_feff : Error
  out_of_range : Error
  bad_utf : Error
  surrogate_missing : Error

-- `(b & mask) == mask`
abbrev pub has : ℕ → ℕ → Bool
has mask b = bit_and b mask == mask

-- One continuation byte: its six bits at their place, or the error.
unfoldable pub add_bits : ℕ → ℕ → Error → ℕ → Result Error ℕ
add_bits b place e u = if has 128 b then okay (u + b % 64 * place) else error e

-- rim_encode_utf: the Unicode number and how many bytes it takes.
unfoldable pub encode_utf : Bytes → Result Error (ℕ × ℕ)
encode_utf r =
    let r0 = get_or r 0 0 in
    let r1 = get_or r 1 0 in
    let r2 = get_or r 2 0 in
    let r3 = get_or r 3 0 in
    if bit_and r0 128 == 0
    then okay (r0, 1)
    else if has 240 r0
    then bind (add_bits r1 4096 second_byte (r0 % 8 * 262144)) (λ u.
      bind (add_bits r2 64 third_byte u)
        (λ u'. bind (add_bits r3 1 fourth_byte u') (λ u''. okay (u'', 4))))
    else if has 224 r0
    then bind (add_bits r1 64 second_byte (r0 % 16 * 4096))
        (λ u. bind (add_bits r2 1 third_byte u) (λ u'. okay (u', 3)))
    else if has 192 r0
    then bind (add_bits r1 1 second_byte (r0 % 32 * 64)) (λ u. okay (u, 2))
    else error invalid

-- rim_decode_utf: the bytes of a signed 32-bit number. One below 0 passes the first test and
-- leaves its lowest byte.
unfoldable pub decode_utf : ℤ → Result Error Bytes
decode_utf (negsuc n) = okay ((255 - n % 256) ∷ [])
decode_utf (pos u) =
    if leb u 127
    then okay (u ∷ [])
    else if leb 128 u && leb u 2047
    then okay ((192 + u / 64) ∷ (128 + u % 64) ∷ [])
    else if leb 2048 u && leb u 65535
    then if u == 65279
      then error illegal_feff
      else okay ((224 + u / 4096) ∷ (128 + u / 64 % 64) ∷ (128 + u % 64) ∷ [])
    else if leb 65536 u && leb u 1114111
    then okay
        ((240 + u / 262144) ∷ (128 + u / 4096 % 64) ∷ (128 + u / 64 % 64) ∷ (128 + u % 64) ∷ [])
    else error out_of_range

-- rim_get_utf_surrogate
unfoldable pub get_utf_surrogate : ℕ → ℕ × ℕ
get_utf_surrogate u = (55296 - 65536 / 1024 + u / 1024, 56320 + u % 1024)

-- rim_make_from_utf_surrogate, for `u0` in the range of surrogates: the constant is below 0, and
-- what it is taken from is larger.
unfoldable pub make_from_utf_surrogate : ℕ → ℕ → ℕ
make_from_utf_surrogate u0 u1 = u0 * 1024 + u1 + 65536 - (55296 * 1024 + 56320)

-- rim_topower
unfoldable pub topower : ℕ → ℕ → ℕ
topower b zero = 1
topower b (suc p) = topower b p * b

-- The value of a hexadecimal digit.
unfoldable pub hex_digit : ℕ → Option ℕ
hex_digit v =
    if leb 48 v && leb v 57
    then some (v - 48)
    else if leb 97 v && leb v 102
    then some (v - 97 + 10)
    else if leb 65 v && leb v 70
    then some (v - 65 + 10)
    else none

-- The loop of rim_get_hex over the places `bytes - 1 - k`, with its running value.
unfoldable pub get_hex_from : ℕ → ℕ → Bytes → Result Error ℕ
get_hex_from r zero v = okay r
get_hex_from r (suc place) v = elim (hex_digit (get_or v 0 0)) [
  | none ↦ error bad_utf
  | some d ↦ get_hex_from (r + d * topower 16 place) place (drop 1 v)
]

-- The conversion of a number below 2 ^ 32 to a signed 32-bit one.
unfoldable pub to_num32 : ℕ → ℤ
to_num32 r = if ltb r 2147483648 then pos r else negsuc (4294967295 - r)

unfoldable pub get_hex : ℕ → Bytes → Result Error ℤ
get_hex bytes v = bind (get_hex_from 0 bytes v) (λ r. okay (to_num32 r))

unfoldable pub is_surrogate : ℤ → Bool
is_surrogate (pos r) = leb 55296 r && leb r 57343
is_surrogate (negsuc _) = false

-- rim_utf_get_code8: the code after `\U`, and the length of the escape.
unfoldable pub utf_get_code8 : Bytes → Result Error (ℤ × ℕ)
utf_get_code8 v = bind (get_hex 8 v) (λ r. if is_surrogate r then error invalid else okay (r, 10))

-- The second half of an escape with surrogates, which starts with `\u`.
unfoldable pub second_surrogate : ℤ → Bytes → Result Error (ℤ × ℕ)
second_surrogate (pos r) v =
    if not (get_or v 0 0 == 92) || not (get_or v 1 0 == 117)
    then error surrogate_missing
    else bind (get_hex_from 0 4 (drop 2 v)) (λ r1. okay (pos (make_from_utf_surrogate r r1), 12))
second_surrogate (negsuc n) v = okay (negsuc n, 6)

-- rim_utf_get_code: the code after `\u`, and the length of the escape.
unfoldable pub utf_get_code : Bytes → Result Error (ℤ × ℕ)
utf_get_code v =
    bind (get_hex 4 v) (λ r. if is_surrogate r then second_surrogate r (drop 4 v) else okay (r, 6))
