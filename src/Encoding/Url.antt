-- ===== src/Encoding/Url.antt =====
-- rimrtc.c and rimrt.c: URL encoding and decoding.
use rimstone.Base.{
  ==-self, ℕ, zero, suc, ◌+◌, ◌*◌, ◌/◌, ◌%◌, ◌≤◌, ◌<◌, ◌≡◌, refl, sym, ap, ap₂, ◌∙◌, ◌≢◌, ◌⊎◌, inl,
  inr, true, none, some, [], ◌∷◌, ◌++◌, append_assoc, append-nil, arith, ◌==◌, if◌then◌else◌,
  ==-false, ≢→==-false, Bool-cases, length, take, length-append,
}
use rimstone.Base.Words.{is_alnum, AreBytes, Bytes}
use rimstone.Base.Results.{error, okay}
use mathlib.Core.Bool.{true≢false}
use rimstone.Encoding.Hex.{AreBytes-take}
use rimstone.Encoding.{url_digit}
use rimstone.Encoding.Codec.{
  is_kept, upper_digit, encode_url_byte, encode_with, encode_base, encode_loop-take, before,
  decode_url_at, decode_url_from, decode_url, with_status, type_url, type_web, encode_web_byte,
  max_enc_blowup, unknown_type,
}

kept-plain : (b : ℕ) → is_kept b ≡ true → (b ≢ 37) × (b ≢ 43)
unfolding is_kept is_alnum
kept-plain b h = (λ e. true≢false (sym h ∙ ap is_kept e), λ e. true≢false (sym h ∙ ap is_kept e))

url_digit-upper_digit : (x : ℕ) → x < 16 → url_digit (upper_digit x) ≡ some x
unfolding url_digit upper_digit
url_digit-upper_digit x h = ground arith

digits_of : (b : ℕ) → b < 256 → b / 16 * 16 + b % 16 ≡ b
digits_of b h = omega arith

-- One kept character
decode-kept :
    (n i b : ℕ) (v : Bytes)
    → b ≢ 37
    → b ≢ 43
    → decode_url_from (suc n) i (b ∷ v) ≡ before b (decode_url_from n (i + 1) v)
unfolding decode_url_from decode_url_at
decode-kept zero i b v p q = rw (≢→==-false b 37 p, ≢→==-false b 43 q) refl
decode-kept (suc zero) i b v p q = rw (≢→==-false b 37 p, ≢→==-false b 43 q) refl
decode-kept (suc (suc n)) i b v p q = rw (≢→==-false b 37 p, ≢→==-false b 43 q) refl

-- One escape
decode-escape :
    (n i b : ℕ) (v : Bytes)
    → b < 256
    → decode_url_from (suc (suc (suc n))) i (37 ∷ upper_digit (b / 16) ∷ upper_digit (b % 16) ∷ v)
      ≡ before b (decode_url_from n (i + 3) v)
unfolding decode_url_from decode_url_at
decode-escape n i b v h =
    rw (url_digit-upper_digit (b / 16) (omega arith), url_digit-upper_digit (b % 16) (omega arith))
      (ap (λ c. before c (decode_url_from n (i + 3) v)) (digits_of b h))

one_more : (n : ℕ) → 1 + n ≡ suc n
one_more n = omega arith

three_more : (n : ℕ) → 3 + n ≡ suc (suc (suc n))
three_more n = omega arith

zero_more : (n : ℕ) → 0 + n ≡ n
zero_more n = omega arith

more_zero : (n : ℕ) → n + 0 ≡ n
more_zero n = omega arith

sums : (n : ℕ) (xs ys : Bytes) → length (xs ++ ys) + n ≡ length xs + (length ys + n)
sums n xs ys = omega (arith, length-append xs ys)

sum_index : (i : ℕ) (xs ys : Bytes) → i + length xs + length ys ≡ i + length (xs ++ ys)
sum_index i xs ys = omega (arith, length-append xs ys)

decode-byte :
    (n i b : ℕ) (w : Bytes)
    → b < 256
    → decode_url_from (length (encode_url_byte b) + n) i (encode_url_byte b ++ w)
      ≡ before b (decode_url_from n (i + length (encode_url_byte b)) w)
unfolding encode_url_byte
decode-byte n i b w h = elim (Bool-cases (is_kept b)) [
  | inl kept ↦
      let (p, q) = kept-plain b kept in
      rw kept (ap (λ k. decode_url_from k i (b ∷ w)) (one_more n) ∙ decode-kept n i b w p q)
  | inr out ↦ rw out (
      ap (λ k. decode_url_from k i (37 ∷ upper_digit (b / 16) ∷ upper_digit (b % 16) ∷ w))
        (three_more n)
      ∙ decode-escape n i b w h)
]

-- What was decoded before the rest.
behind : Bytes → Bytes × ℕ → Bytes × ℕ
behind v (out, i) = (v ++ out, i)

decode-encode_with :
    (v w : Bytes) (n i : ℕ)
    → AreBytes v
    → decode_url_from
        (length (encode_with encode_url_byte v) + n)
        i
        (encode_with encode_url_byte v ++ w)
      ≡ behind v (decode_url_from n (i + length (encode_with encode_url_byte v)) w)
unfolding encode_with behind AreBytes
decode-encode_with [] w n i h = ap₂ (λ k j. decode_url_from k j w) (zero_more n) (sym (more_zero i))
decode-encode_with (b ∷ bs) w n i (first, rest) =
    let e = encode_url_byte b in
    let es = encode_with encode_url_byte bs in
    ap₂ (λ k x. decode_url_from k i x) (sums n e es) (append_assoc e es w)
    ∙ decode-byte (length es + n) i b (es ++ w) first
    ∙ ap (before b) (decode-encode_with bs w n (i + length e) rest)
    ∙ ap (λ j. before b (behind bs (decode_url_from n j w))) (sum_index i e es)

whole : (v out : Bytes) (n i : ℕ) → out ≡ v → i ≡ n → with_status n (out, i) ≡ (v, none)
unfolding with_status
whole v out n i e f =
    ap₂ (λ x k. (x, if k == n then none else some k)) e f
    ∙ ap (λ t. (v, if t then none else some n)) (==-self n)

decode-all :
    (v : Bytes)
    → AreBytes v
    → let text = encode_with encode_url_byte v in decode_url text (length text) ≡ (v, none)
unfolding decode_url decode_url_from behind
decode-all v h =
    let text = encode_with encode_url_byte v in
    let n = length text in
    ap (with_status n) (
      ap₂ (λ k x. decode_url_from k 0 x) (sym (more_zero n)) (sym (append-nil text))
      ∙ decode-encode_with v [] 0 0 h)
    ∙ whole v (v ++ []) n (0 + n) (append-nil v) (zero_more n)

AreBytes-terminated : (v : Bytes) → AreBytes v → AreBytes (v ++ 0 ∷ [])
unfolding AreBytes
AreBytes-terminated [] _ = (omega arith, tt)
AreBytes-terminated (b ∷ bs) (first, rest) = (first, AreBytes-terminated bs rest)

-- URL encoding of the first `n` bytes of a string, and the decoding of all of its text, give those
-- bytes back, with the status that all was decoded. `n` is at most the length of the string, or one
-- more: then the null byte behind the string is encoded, and given back, as well.
pub encode_base-decode_url :
    (v : Bytes) (n : ℕ)
    → AreBytes v
    → n ≤ length v + 1
    → (text : Bytes) × (encode_base type_url v n ≡ okay text)
      × (decode_url text (length text) ≡ (take n (v ++ 0 ∷ []), none))
unfolding encode_base
encode_base-decode_url v n h le = (
  encode_with encode_url_byte (take n (v ++ 0 ∷ [])),
  encode_loop-take encode_url_byte v n le,
  decode-all (take n (v ++ 0 ∷ [])) (AreBytes-take n (v ++ 0 ∷ []) (AreBytes-terminated v h)),
)

-- Text that ends in a percent sign with no digits behind it is decoded up to there, and the status
-- is that all was decoded.
pub decode_url-cut :
    (v : Bytes)
    → AreBytes v
    → let text = encode_with encode_url_byte v ++ (37 ∷ []) in
      decode_url text (length text) ≡ (v, none)
unfolding decode_url decode_url_from decode_url_at url_digit behind
decode_url-cut v h =
    let e = encode_with encode_url_byte v in
    let n = length (e ++ (37 ∷ [])) in
    ap (with_status n) (
      ap (λ k. decode_url_from k 0 (e ++ (37 ∷ []))) (length-append e (37 ∷ []))
      ∙ decode-encode_with v (37 ∷ []) 1 0 h)
    ∙ whole v (v ++ []) n (0 + length e + 1) (append-nil v)
        (omega (arith, length-append e (37 ∷ [])))

length-encode_url_byte : (b : ℕ) → length (encode_url_byte b) ≤ 6
unfolding encode_url_byte
length-encode_url_byte b = ground arith

length-encode_web_byte : (b : ℕ) → length (encode_web_byte b) ≤ 6
unfolding encode_web_byte
length-encode_web_byte b = ground arith

length-encode_with :
    (encode : ℕ → Bytes)
    → ((b : ℕ) → length (encode b) ≤ 6)
    → (v : Bytes) → length (encode_with encode v) ≤ length v * 6
unfolding encode_with
length-encode_with encode h [] = omega arith
length-encode_with encode h (b ∷ bs) =
    omega
      (arith, h b, length-encode_with encode h bs, length-append (encode b) (encode_with encode bs))

length-take : (n : ℕ) (v : Bytes) → length (take n v) ≤ n
length-take zero v = omega arith
length-take (suc n) [] = omega arith
length-take (suc n) (b ∷ v) = omega (arith, length-take n v)

encoded-fits :
    (encode : ℕ → Bytes)
    → ((b : ℕ) → length (encode b) ≤ 6)
    → (n : ℕ) (v : Bytes) → length (encode_with encode (take n v)) + 1 ≤ max_enc_blowup n
encoded-fits encode h n v = omega (arith, length-encode_with encode h (take n v), length-take n v)

-- Web or URL encoding of `n` bytes of a string, its null byte counted among those it has, ends in a
-- text that, with the null byte behind it, fits the RIM_MAX_ENC_BLOWUP(n) bytes that are allocated
-- for it; any other encoding is refused.
pub encode_base-fits :
    (enc_type n : ℕ) (v : Bytes)
    → n ≤ length v + 1
    → ((out : Bytes) × (encode_base enc_type v n ≡ okay out) × (length out + 1 ≤ max_enc_blowup n))
      ⊎ ((enc_type ≢ type_web)
          × (enc_type ≢ type_url)
          × (encode_base enc_type v n ≡ error unknown_type))
unfolding encode_base
encode_base-fits enc_type n v le = elim (Bool-cases (enc_type == type_web)) [
  | inl web ↦ inl (
    encode_with encode_web_byte (take n (v ++ 0 ∷ [])),
    rw web (encode_loop-take encode_web_byte v n le),
    encoded-fits encode_web_byte length-encode_web_byte n (v ++ 0 ∷ []),
  )
  | inr other ↦ elim (Bool-cases (enc_type == type_url)) [
    | inl url ↦ inl (
      encode_with encode_url_byte (take n (v ++ 0 ∷ [])),
      rw (other, url) (encode_loop-take encode_url_byte v n le),
      encoded-fits encode_url_byte length-encode_url_byte n (v ++ 0 ∷ []),
    )
    | inr neither ↦ inr (
      ==-false enc_type type_web other,
      ==-false enc_type type_url neither,
      rw (other, neither) refl,
    )
  ]
]
