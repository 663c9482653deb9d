-- ===== src/Encoding/Codec.antt =====
-- rimrtc.c: rim_encode_base, and the half of rimrt.c's rim_decode for URLs. The decoding writes
-- in place, at an index that is never past the one it reads at, so its result is a list here.
-- isalnum is that of the C locale.
use rimstone.Base.{
  ℕ, zero, suc, ◌+◌, ◌-◌, ◌*◌, ◌/◌, ◌%◌, Bool, ◌||◌, Option, none, some, ◌∷◌, ◌++◌, leb, ◌==◌,
  if◌then◌else◌, get_or, take, drop, [], ◌≤◌, ◌≡◌, refl, sym, ap, arith, length, append-nil,
}
use rimstone.Base.Words.{Bytes, codes, is_alnum}
use rimstone.Base.Results.{Result, error, okay}
use rimstone.Encoding.{url_digit}

-- `out_of_bounds` stands for a read past the null byte of the string.
pub data EncodeError : Type 0 where
  unknown_type : EncodeError
  out_of_bounds : EncodeError

abbrev pub type_url : ℕ
type_url = 1

abbrev pub type_web : ℕ
type_web = 2

-- RIM_MAX_ENC_BLOWUP
abbrev pub max_enc_blowup : ℕ → ℕ
max_enc_blowup x = x * 6 + 1

unfoldable pub encode_web_byte : ℕ → Bytes
encode_web_byte b =
    if b == 38
    then codes "&amp;"
    else if b == 34
    then codes "&quot;"
    else if b == 39
    then codes "&apos;"
    else if b == 60
    then codes "&lt;"
    else if b == 62
    then codes "&gt;"
    else if b == 0
    then []
    else b ∷ []

-- The characters that a URL keeps.
unfoldable pub is_kept : ℕ → Bool
is_kept b = is_alnum b || ((b == 45) || ((b == 46) || ((b == 95) || (b == 126))))

unfoldable pub upper_digit : ℕ → ℕ
upper_digit h = if leb 10 h then 65 + h - 10 else 48 + h

unfoldable pub encode_url_byte : ℕ → Bytes
encode_url_byte b =
    if is_kept b then b ∷ [] else 37 ∷ upper_digit (b / 16) ∷ upper_digit (b % 16) ∷ []

-- What the bytes of a string become, one after the other.
unfoldable pub encode_with : (ℕ → Bytes) → Bytes → Bytes
encode_with encode [] = []
encode_with encode (b ∷ bs) = encode b ++ encode_with encode bs

-- The loops, over the `len` bytes from the start of a string on, behind which there is its null
-- byte and nothing that may be read; they do not stop at that byte.
unfoldable pub encode_loop : (ℕ → Bytes) → Bytes → ℕ → Result EncodeError Bytes
encode_loop encode v zero = okay []
encode_loop encode [] (suc zero) = okay (encode 0)
encode_loop encode [] (suc (suc len)) = error out_of_bounds
encode_loop encode (b ∷ bs) (suc len) = elim (encode_loop encode bs len) [
  | error e ↦ error e
  | okay out ↦ okay (encode b ++ out)
]

unfoldable pub encode_base : ℕ → Bytes → ℕ → Result EncodeError Bytes
encode_base enc_type v len =
    if enc_type == type_web
    then encode_loop encode_web_byte v len
    else if enc_type == type_url
    then encode_loop encode_url_byte v len
    else error unknown_type

-- What is encoded in all: bytes of the string and, behind them, its null byte.
pub encode_loop-take :
    (encode : ℕ → Bytes) (v : Bytes) (n : ℕ)
    → n ≤ length v + 1
    → encode_loop encode v n ≡ okay (encode_with encode (take n (v ++ 0 ∷ [])))
unfolding encode_loop encode_with
encode_loop-take encode v zero h = refl
encode_loop-take encode [] (suc zero) h = ap okay (sym (append-nil (encode 0)))
encode_loop-take encode [] (suc (suc n)) h = absurd (omega (arith, h))
encode_loop-take encode (b ∷ bs) (suc n) h =
    rw (encode_loop-take encode bs n (omega (arith, h)), encode_loop) refl

abbrev pub before : ℕ → Bytes × ℕ → Bytes × ℕ
before b (bs, i) = (b ∷ bs, i)

-- The body of the loop at index `i`, given the results of going on behind one character and
-- behind an escape; a digit that is none breaks the loop where it stands.
unfoldable pub decode_url_at : ℕ → Bytes → Bytes × ℕ → Bytes × ℕ → Bytes × ℕ
decode_url_at i v plain escaped =
    if get_or v 0 0 == 37
    then elim (url_digit (get_or v 1 0)) [
      | none ↦ ([], i + 1)
      | some h ↦ elim (url_digit (get_or v 2 0)) [
        | none ↦ ([], i + 2)
        | some l ↦ before (h * 16 + l) escaped
      ]
    ]
    else before (if get_or v 0 0 == 43 then 32 else get_or v 0 0) plain

-- The loop from index `i` on, with `inlen - i` and the string from there; with the result comes
-- the index at its end.
unfoldable pub decode_url_from : ℕ → ℕ → Bytes → Bytes × ℕ
decode_url_from zero i v = ([], i)
decode_url_from (suc zero) i v = decode_url_at i v ([], i + 1) ([], i + 3)
decode_url_from (suc (suc zero)) i v =
    decode_url_at i v (decode_url_from (suc zero) (i + 1) (drop 1 v)) ([], i + 3)
decode_url_from (suc (suc (suc n))) i v =
    decode_url_at i v (decode_url_from (suc (suc n)) (i + 1) (drop 1 v))
      (decode_url_from n (i + 3) (drop 3 v))

-- The decoded bytes, and the status: `none` for RIM_OKAY.
unfoldable pub with_status : ℕ → Bytes × ℕ → Bytes × Option ℕ
with_status inlen (out, i) = (out, if i == inlen then none else some i)

unfoldable pub decode_url : Bytes → ℕ → Bytes × Option ℕ
decode_url v inlen = with_status inlen (decode_url_from inlen 0 v)
