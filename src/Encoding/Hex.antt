-- ===== src/Encoding/Hex.antt =====
-- rimrt.c: hexadecimal text and the bytes it stands for.
use rimstone.Base.{
  ℕ, zero, suc, ◌+◌, ◌*◌, ◌/◌, ◌%◌, ◌≤◌, ◌<◌, ◌≡◌, refl, ap, ◌∙◌, ◌⊎◌, inl, inr, Option, none, some,
  [], ◌∷◌, ◌++◌, arith, ltb, ltb→lt, le→ltb-false, ltb-false, Bool-cases, Option-cases, length,
  get_or, take, drop,
}
use rimstone.Base.Words.{AreBytes, Bytes}
use rimstone.Base.Results.{error, okay}
use rimstone.Utf.Digits.{to_hex, hex_from_byte}
use rimstone.Encoding.{
  read_too_long, url_digit, url_byte, read_length, hex2bin_from, hex2bin, bin2hex_from, bin2hex,
  prefix,
}

url_digit-to_hex : (x : ℕ) → x < 16 → url_digit (to_hex x) ≡ some x
unfolding url_digit to_hex
url_digit-to_hex x h = ground arith

digits_of : (x : ℕ) → x < 256 → x / 16 % 16 * 16 + x % 16 ≡ x
digits_of x h = omega arith

url_byte-to_hex : (x : ℕ) → x < 256 → url_byte (to_hex (x / 16 % 16)) (to_hex (x % 16)) ≡ some x
unfolding url_byte
url_byte-to_hex x h =
    rw (url_digit-to_hex (x / 16 % 16) (omega arith), url_byte)
      (rw (url_digit-to_hex (x % 16) (omega arith), url_byte) (ap some (digits_of x h)))

length-bin2hex_from : (bs : Bytes) → length (bin2hex_from bs) ≡ 2 * length bs
unfolding bin2hex_from hex_from_byte
length-bin2hex_from [] = refl
length-bin2hex_from (b ∷ bs) = omega (arith, length-bin2hex_from bs)

hex2bin_from-pair :
    (n b : ℕ) (v : Bytes)
    → b < 256
    → hex2bin_from (suc (suc n)) (hex_from_byte b ++ v) ≡ b ∷ hex2bin_from n v
unfolding hex2bin_from hex_from_byte
hex2bin_from-pair n b v h = rw (url_byte-to_hex b h, hex2bin_from) refl

double-suc : (n : ℕ) → 2 * suc n ≡ suc (suc (2 * n))
double-suc n = omega arith

hex2bin_from-bin2hex :
    (bs : Bytes) → AreBytes bs → hex2bin_from (2 * length bs) (bin2hex_from bs) ≡ bs
unfolding bin2hex_from AreBytes hex2bin_from
hex2bin_from-bin2hex [] h = refl
hex2bin_from-bin2hex (b ∷ bs) (first, rest) =
    ap (λ n. hex2bin_from n (hex_from_byte b ++ bin2hex_from bs)) (double-suc (length bs))
    ∙ hex2bin_from-pair (2 * length bs) b (bin2hex_from bs) first
    ∙ ap (◌∷◌ b) (hex2bin_from-bin2hex bs rest)

pub AreBytes-take : (n : ℕ) (bs : Bytes) → AreBytes bs → AreBytes (take n bs)
unfolding AreBytes
AreBytes-take zero bs h = tt
AreBytes-take (suc n) [] h = tt
AreBytes-take (suc n) (b ∷ bs) (first, rest) = (first, AreBytes-take n bs rest)

-- The hexadecimal text of the first bytes of a string, which are as many as are asked for, stands
-- behind the prefix and has two digits for each byte; reading all of the text back gives those
-- bytes.
pub bin2hex-hex2bin :
    (src : Bytes) (n : ℕ) (pref : Option Bytes)
    → AreBytes src
    → n ≤ length src
    → (text : Bytes) × (bin2hex src (some n) pref ≡ okay (prefix pref ++ text))
      × (length text ≡ 2 * length (take n src))
      × (hex2bin text none ≡ okay (take n src))
unfolding bin2hex hex2bin read_length
bin2hex-hex2bin src n pref bytes h =
    let bs = take n src in
    (
      bin2hex_from bs,
      rw (le→ltb-false (length src) n h) refl,
      length-bin2hex_from bs,
      ap (λ k. okay (hex2bin_from k (bin2hex_from bs))) (length-bin2hex_from bs)
          ∙ ap okay (hex2bin_from-bin2hex bs (AreBytes-take n src bytes)),
    )

half-bound : (n : ℕ) (src : Bytes) → length (hex2bin_from n src) ≤ (n + 1) / 2
unfolding hex2bin_from
half-bound zero src = omega arith
half-bound (suc zero) src = elim (Option-cases (url_byte (get_or src 0 0) (get_or src 1 0))) [
  | inl e ↦ rw (e, hex2bin_from) (omega arith)
  | inr (b, e) ↦ rw (e, hex2bin_from) (omega arith)
]
half-bound (suc (suc n)) src =
    let more = half-bound n (drop 2 src) in
    elim (Option-cases (url_byte (get_or src 0 0) (get_or src 1 0))) [
      | inl e ↦ rw (e, hex2bin_from) (omega arith)
      | inr (b, e) ↦ rw (e, hex2bin_from) (omega (arith, more))
    ]

-- A reading of more bytes than the string has is refused by both directions, and every other one
-- ends in a result by both; the bytes read from hexadecimal text and the null byte behind them
-- fit the block that is allocated for them, of half the length and two bytes.
pub hex2bin-fits :
    (src : Bytes) (n : ℕ)
    → ((length src < n)
        × (hex2bin src (some n) ≡ error read_too_long)
        × (bin2hex src (some n) none ≡ error read_too_long))
      ⊎ ((n ≤ length src)
          × (out : Bytes) × (text : Bytes) × (hex2bin src (some n) ≡ okay out)
          × (bin2hex src (some n) none ≡ okay text)
          × (length out + 1 ≤ n / 2 + 2))
unfolding hex2bin bin2hex read_length
hex2bin-fits src n = elim (Bool-cases (ltb (length src) n)) [
  | inl long ↦ inl (ltb→lt (length src) n long, rw long refl, rw long refl)
  | inr short ↦
      let bound = half-bound n src in
      inr (
        ltb-false (length src) n short,
        hex2bin_from n src,
        bin2hex_from (take n src),
        rw short refl,
        rw short refl,
        omega (arith, bound),
      )
]
