-- ===== src/Encoding.antt =====
-- rimrt.c: rim_bin2hex and rim_hex2bin. A length is `none` for -1, which is all of the string;
-- lengths below -1 are left out.
pub mod Hex
pub mod Codec
pub mod Url
pub mod Web
mod Tests
use rimstone.Base.{
  ℕ, zero, suc, ◌+◌, ◌-◌, ◌*◌, ◌&&◌, Option, none, some, ◌∷◌, ◌++◌, ltb, leb, if◌then◌else◌, length,
  get_or, take, drop, [],
}
use rimstone.Base.Words.{Bytes}
use rimstone.Base.Results.{Result, error, okay, bind}
use rimstone.Utf.Digits.{hex_from_byte}

pub data Error : Type 0 where
  read_too_long : Error

-- URLDIG
unfoldable pub url_digit : ℕ → Option ℕ
url_digit x =
    if leb 65 x && leb x 70
    then some (x - 65 + 10)
    else if leb 97 x && leb x 102
    then some (x - 97 + 10)
    else if leb 48 x && leb x 57
    then some (x - 48)
    else none

-- The byte of two digits, unless one of them is none and the loop breaks.
unfoldable pub url_byte : ℕ → ℕ → Option ℕ
url_byte x y = elim (url_digit x) [
  | none ↦ none
  | some h ↦ elim (url_digit y) [ none ↦ none | some l ↦ some (h * 16 + l) ]
]

-- How many bytes are read: the check at the start of both functions.
unfoldable pub read_length : Bytes → Option ℕ → Result Error ℕ
read_length src none = okay (length src)
read_length src (some ilen) = if ltb (length src) ilen then error read_too_long else okay ilen

-- The loop of rim_hex2bin from index i on, `ilen - i` and the string from there; the byte past
-- the end is the null byte.
unfoldable pub hex2bin_from : ℕ → Bytes → Bytes
hex2bin_from zero src = []
hex2bin_from (suc zero) src = elim (url_byte (get_or src 0 0) (get_or src 1 0)) [
  | none ↦ []
  | some b ↦ b ∷ []
]
hex2bin_from (suc (suc n)) src = elim (url_byte (get_or src 0 0) (get_or src 1 0)) [
  | none ↦ []
  | some b ↦ b ∷ hex2bin_from n (drop 2 src)
]

unfoldable pub hex2bin : Bytes → Option ℕ → Result Error Bytes
hex2bin src ilen = bind (read_length src ilen) (λ n. okay (hex2bin_from n src))

-- The loop of rim_bin2hex, on the bytes that are read.
unfoldable pub bin2hex_from : Bytes → Bytes
bin2hex_from [] = []
bin2hex_from (b ∷ bs) = hex_from_byte b ++ bin2hex_from bs

abbrev pub prefix : Option Bytes → Bytes
prefix none = []
prefix (some p) = p

unfoldable pub bin2hex : Bytes → Option ℕ → Option Bytes → Result Error Bytes
bin2hex src ilen pref =
    bind (read_length src ilen) (λ n. okay (prefix pref ++ bin2hex_from (take n src)))
