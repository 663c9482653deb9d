-- ===== src/Encoding/Web.antt =====
-- rimrt.c: the half of rim_decode for web text, and its round trip with rim_encode_base. The
-- decoding writes in place, at an index that is never past the one it reads at, so its result is a
-- list here.
use rimstone.Base.{
  ℕ, zero, suc, ◌+◌, ◌≤◌, ◌≡◌, refl, sym, ap, subst, ◌∙◌, ◌≢◌, inl, inr, Bool, true, false, ◌&&◌,
  [], ◌∷◌, ◌++◌, arith, ◌==◌, if◌then◌else◌, ==-false, ≢→==-false, ==→≡, Bool-cases, length, take,
  drop, get_or, length-append,
}
use rimstone.Base.Words.{Bytes, codes, NulFree}
use rimstone.Base.Results.{okay}
use rimstone.Encoding.Codec.{encode_web_byte, encode_with, encode_base, encode_loop-take, type_web}

-- strncmp with the length of the first string.
unfoldable pub starts_with : Bytes → Bytes → Bool
starts_with [] v = true
starts_with (b ∷ bs) v = (get_or v 0 0 == b) && starts_with bs (drop 1 v)

-- The character that the text behind an ampersand stands for, and how much of that text it takes.
unfoldable pub entity : Bytes → ℕ × ℕ
entity v =
    if starts_with (codes "amp;") v
    then (38, 4)
    else if starts_with (codes "quot;") v
    then (34, 5)
    else if starts_with (codes "apos;") v
    then (39, 5)
    else if starts_with (codes "lt;") v
    then (60, 3)
    else if starts_with (codes "gt;") v
    then (62, 3)
    else (38, 0)

unfoldable pub web_character : Bytes → ℕ × ℕ
web_character v = if get_or v 0 0 == 38 then entity (drop 1 v) else (get_or v 0 0, 0)

-- The loop with `inlen - i` characters left, of which `skip` are passed over first.
unfoldable pub decode_web_from : ℕ → ℕ → Bytes → Bytes
decode_web_from zero skip v = []
decode_web_from (suc n) zero v =
    let (b, skip) = web_character v in b ∷ decode_web_from n skip (drop 1 v)
decode_web_from (suc n) (suc skip) v = decode_web_from n skip (drop 1 v)

-- This half sets no status.
unfoldable pub decode_web : Bytes → ℕ → Bytes
decode_web v inlen = decode_web_from inlen 0 v

plain :
    (n b : ℕ) (w : Bytes) → b ≢ 38 → decode_web_from (suc n) 0 (b ∷ w) ≡ b ∷ decode_web_from n 0 w
unfolding decode_web_from web_character
plain n b w h = rw (≢→==-false b 38 h) refl

one : (n : ℕ) → 1 + n ≡ suc n
one n = omega arith

four : (n : ℕ) → 4 + n ≡ suc (suc (suc (suc n)))
four n = omega arith

five : (n : ℕ) → 5 + n ≡ suc (suc (suc (suc (suc n))))
five n = omega arith

six : (n : ℕ) → 6 + n ≡ suc (suc (suc (suc (suc (suc n)))))
six n = omega arith

-- An escaped character, or one that stands for itself, in front of the rest.
Decodes : ℕ → Type 0
Decodes b =
    (n : ℕ) (w : Bytes)
    → decode_web_from (length (encode_web_byte b) + n) 0 (encode_web_byte b ++ w)
      ≡ b ∷ decode_web_from n 0 w

escapes : Decodes 38 × Decodes 34 × Decodes 39 × Decodes 60 × Decodes 62
unfolding Decodes decode_web_from web_character entity starts_with encode_web_byte
escapes = (
  λ n w. ap (λ k. decode_web_from k 0 (codes "&amp;" ++ w)) (five n),
  λ n w. ap (λ k. decode_web_from k 0 (codes "&quot;" ++ w)) (six n),
  λ n w. ap (λ k. decode_web_from k 0 (codes "&apos;" ++ w)) (six n),
  λ n w. ap (λ k. decode_web_from k 0 (codes "&lt;" ++ w)) (four n),
  λ n w. ap (λ k. decode_web_from k 0 (codes "&gt;" ++ w)) (four n),
)

-- A character that stands for itself.
stands :
    (b : ℕ)
    → b ≢ 0
    → (b == 38) ≡ false
    → (b == 34) ≡ false
    → (b == 39) ≡ false
    → (b == 60) ≡ false
    → (b == 62) ≡ false
    → Decodes b
unfolding Decodes encode_web_byte
stands b h p q r s t n w =
    rw (p, q, r, s, t, ≢→==-false b 0 h)
      (ap (λ k. decode_web_from k 0 (b ∷ w)) (one n) ∙ plain n b w (==-false b 38 p))

escaped : (a b : ℕ) → (b == a) ≡ true → Decodes a → Decodes b
escaped a b e h = subst Decodes (sym (==→≡ b a e)) h

decodes : (b : ℕ) → b ≢ 0 → Decodes b
decodes b h = elim (Bool-cases (b == 38)) [
  | inl e ↦ escaped 38 b e escapes.0
  | inr p ↦ elim (Bool-cases (b == 34)) [
    | inl e ↦ escaped 34 b e escapes.1
    | inr q ↦ elim (Bool-cases (b == 39)) [
      | inl e ↦ escaped 39 b e escapes.2
      | inr r ↦ elim (Bool-cases (b == 60)) [
        | inl e ↦ escaped 60 b e escapes.3
        | inr s ↦ elim (Bool-cases (b == 62)) [
          | inl e ↦ escaped 62 b e escapes.4
          | inr t ↦ stands b h p q r s t
        ]
      ]
    ]
  ]
]

sums : (xs ys : Bytes) → length (xs ++ ys) ≡ length xs + length ys
sums xs ys = length-append xs ys

decode-encode :
    (v : Bytes)
    → NulFree v
    → decode_web (encode_with encode_web_byte v) (length (encode_with encode_web_byte v)) ≡ v
unfolding decode_web encode_with decode_web_from Decodes
decode-encode [] h = refl
decode-encode (b ∷ bs) (first, rest) =
    let es = encode_with encode_web_byte bs in
    ap (λ k. decode_web_from k 0 (encode_web_byte b ++ es)) (sums (encode_web_byte b) es)
    ∙ decodes b (λ e. absurd {A = ⊥} (omega arith)) (length es) es
    ∙ ap (◌∷◌ b) (decode-encode bs rest)

NulFree-take : (n : ℕ) (v : Bytes) → NulFree v → NulFree (take n v)
NulFree-take zero v h = tt
NulFree-take (suc n) [] h = tt
NulFree-take (suc n) (b ∷ bs) (first, rest) = (first, NulFree-take n bs rest)

-- The null byte behind a text is encoded as nothing.
encode-terminated :
    (v : Bytes) (n : ℕ)
    → n ≤ length v + 1
    → encode_with encode_web_byte (take n (v ++ 0 ∷ [])) ≡ encode_with encode_web_byte (take n v)
unfolding encode_with encode_web_byte
encode-terminated v zero h = refl
encode-terminated [] (suc zero) h = refl
encode-terminated [] (suc (suc n)) h = absurd (omega (arith, h))
encode-terminated (b ∷ bs) (suc n) h =
    ap (λ w. encode_web_byte b ++ w) (encode-terminated bs n (omega (arith, h)))

-- Web encoding of the first `n` bytes of a text without a NUL, and the decoding of all of the
-- result, give those bytes back. `n` is at most the length of the text, or one more: then the null
-- byte behind the text is read as well, and nothing is written for it.
pub encode_base-decode_web :
    (v : Bytes) (n : ℕ)
    → NulFree v
    → n ≤ length v + 1
    → (text : Bytes) × (encode_base type_web v n ≡ okay text)
      × (decode_web text (length text) ≡ take n v)
unfolding encode_base
encode_base-decode_web v n h le = (
  encode_with encode_web_byte (take n v),
  encode_loop-take encode_web_byte v n le ∙ ap okay (encode-terminated v n le),
  decode-encode (take n v) (NulFree-take n v h),
)
