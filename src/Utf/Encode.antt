-- ===== src/Utf/Encode.antt =====
-- utf.c: the UTF-8 bytes of a Unicode number, and the number read back from them.
use rimstone.Base.{
  ℕ, ◌+◌, ◌*◌, ◌/◌, ◌%◌, ◌≤◌, ◌<◌, ◌≡◌, refl, sym, ap, ◌∙◌, ◌≢◌, ◌↔◌, ◌⊎◌, inl, inr, [], ◌∷◌, ◌++◌,
  arith, leb, ◌==◌, lt→ltb, leb→le, le→leb, leb-false, lt→leb-false, le→ltb-false, ==→≡, ==-false,
  ≢→==-false, Bool-cases, length,
}
use rimstone.Base.Words.{Bytes, AreBytes}
use rimstone.Base.Results.{ℤ, pos, negsuc, error, okay, okay≢error, negsuc≢pos}
use rimstone.Utf.{
  Error, out_of_range, illegal_feff, add_bits, encode_utf, decode_utf, second_byte, third_byte,
  fourth_byte,
}
use rimstone.Utf.Masks.{is_ascii, has-four, has-three, has-two, has-continuation}

add_bits-continuation :
    (b place u : ℕ) (e : Error)
    → 128 ≤ b
    → b < 256
    → add_bits b place e u ≡ okay (u + b % 64 * place)
unfolding add_bits
add_bits-continuation b place u e h k = rw (has-continuation b k, le→leb 128 b h) refl

encode_one : (r0 : ℕ) (rest : Bytes) → r0 < 128 → encode_utf (r0 ∷ rest) ≡ okay (r0, 1)
unfolding encode_utf
encode_one r0 rest h = rw (is_ascii r0 (omega arith), lt→ltb r0 128 h) refl

encode_two :
    (r0 r1 : ℕ) (rest : Bytes)
    → 192 ≤ r0
    → r0 < 224
    → 128 ≤ r1
    → r1 < 256
    → encode_utf (r0 ∷ r1 ∷ rest) ≡ okay (r0 % 32 * 64 + r1 % 64 * 1, 2)
unfolding encode_utf
encode_two r0 r1 rest a b c d =
    rw
      (
        is_ascii r0 (omega arith),
        le→ltb-false r0 128 (omega arith),
        has-four r0 (omega arith),
        lt→leb-false 240 r0 (omega arith),
        has-three r0 (omega arith),
        lt→leb-false 224 r0 b,
        has-two r0 (omega arith),
        le→leb 192 r0 a,
        add_bits-continuation r1 1 (r0 % 32 * 64) second_byte c d,
      )
      refl

encode_three :
    (r0 r1 r2 : ℕ) (rest : Bytes)
    → 224 ≤ r0
    → r0 < 240
    → 128 ≤ r1
    → r1 < 256
    → 128 ≤ r2
    → r2 < 256
    → encode_utf (r0 ∷ r1 ∷ r2 ∷ rest) ≡ okay (r0 % 16 * 4096 + r1 % 64 * 64 + r2 % 64 * 1, 3)
unfolding encode_utf
encode_three r0 r1 r2 rest a b c d e f =
    rw
      (
        is_ascii r0 (omega arith),
        le→ltb-false r0 128 (omega arith),
        has-four r0 (omega arith),
        lt→leb-false 240 r0 b,
        has-three r0 (omega arith),
        le→leb 224 r0 a,
        add_bits-continuation r1 64 (r0 % 16 * 4096) second_byte c d,
      )
      (rw (add_bits-continuation r2 1 (r0 % 16 * 4096 + r1 % 64 * 64) third_byte e f) refl)

encode_four :
    (r0 r1 r2 r3 : ℕ) (rest : Bytes)
    → 240 ≤ r0
    → r0 < 256
    → 128 ≤ r1
    → r1 < 256
    → 128 ≤ r2
    → r2 < 256
    → 128 ≤ r3
    → r3 < 256
    → encode_utf (r0 ∷ r1 ∷ r2 ∷ r3 ∷ rest)
      ≡ okay (r0 % 8 * 262144 + r1 % 64 * 4096 + r2 % 64 * 64 + r3 % 64 * 1, 4)
unfolding encode_utf
encode_four r0 r1 r2 r3 rest a b c d e f g h =
    rw
      (
        is_ascii r0 b,
        le→ltb-false r0 128 (omega arith),
        has-four r0 b,
        le→leb 240 r0 a,
        add_bits-continuation r1 4096 (r0 % 8 * 262144) second_byte c d,
      )
      (rw (add_bits-continuation r2 64 (r0 % 8 * 262144 + r1 % 64 * 4096) third_byte e f) (
        rw
          (add_bits-continuation r3 1 (r0 % 8 * 262144 + r1 % 64 * 4096 + r2 % 64 * 64) fourth_byte
            g h)
          refl))

-- The bytes of a number, and what reading them back gives.
abbrev ReadsBack : ℕ → Type 0
ReadsBack u =
    (bs : Bytes) × (decode_utf (pos u) ≡ okay bs)
    × AreBytes bs
    × (length bs ≤ 4)
    × ((rest : Bytes) → encode_utf (bs ++ rest) ≡ okay (u, length bs))

one_back : (u : ℕ) → u < 128 → ReadsBack u
unfolding decode_utf AreBytes
one_back u h =
    rw (le→leb u 127 (omega arith))
      (u ∷ [], refl, (omega arith, tt), omega arith, λ rest. encode_one u rest h)

two_sum : (u : ℕ) → u < 2048 → (192 + u / 64) % 32 * 64 + (128 + u % 64) % 64 * 1 ≡ u
two_sum u h = omega arith

three_sum :
    (u : ℕ)
    → u < 65536
    → (224 + u / 4096) % 16 * 4096 + (128 + u / 64 % 64) % 64 * 64 + (128 + u % 64) % 64 * 1 ≡ u
three_sum u h = omega arith

four_sum :
    (u : ℕ)
    → u < 1114112
    → (240 + u / 262144) % 8 * 262144
        + (128 + u / 4096 % 64) % 64 * 4096
        + (128 + u / 64 % 64) % 64 * 64
        + (128 + u % 64) % 64 * 1
      ≡ u
four_sum u h = omega arith

two_back : (u : ℕ) → 127 < u → u < 2048 → ReadsBack u
unfolding decode_utf AreBytes
two_back u a b =
    rw (lt→leb-false u 127 a, le→leb 128 u (omega arith), le→leb u 2047 (omega arith))
      (
        (192 + u / 64) ∷ (128 + u % 64) ∷ [],
        refl,
        (omega arith, (omega arith, tt)),
        omega arith,
        λ rest.
            encode_two (192 + u / 64) (128 + u % 64) rest (omega arith) (omega arith) (omega arith)
              (omega arith)
            ∙ ap (λ v. okay (v, 2)) (two_sum u b),
      )

three_back : (u : ℕ) → 2047 < u → u < 65536 → u ≢ 65279 → ReadsBack u
unfolding decode_utf AreBytes
three_back u a b ne =
    rw
      (
        lt→leb-false u 127 (omega arith),
        lt→leb-false u 2047 (omega arith),
        le→leb 128 u (omega arith),
        le→leb 2048 u (omega arith),
        le→leb u 65535 (omega arith),
        ≢→==-false u 65279 ne,
      )
      (
        (224 + u / 4096) ∷ (128 + u / 64 % 64) ∷ (128 + u % 64) ∷ [],
        refl,
        (omega arith, (omega arith, (omega arith, tt))),
        omega arith,
        λ rest.
            encode_three (224 + u / 4096) (128 + u / 64 % 64) (128 + u % 64) rest (omega arith)
              (omega arith) (omega arith) (omega arith) (omega arith) (omega arith)
            ∙ ap (λ v. okay (v, 3)) (three_sum u b),
      )

four_back : (u : ℕ) → 65535 < u → u < 1114112 → ReadsBack u
unfolding decode_utf AreBytes
four_back u a b =
    rw
      (
        lt→leb-false u 127 (omega arith),
        lt→leb-false u 2047 (omega arith),
        lt→leb-false u 65535 (omega arith),
        le→leb 128 u (omega arith),
        le→leb 2048 u (omega arith),
        le→leb 65536 u (omega arith),
        le→leb u 1114111 (omega arith),
      )
      (
        (240 + u / 262144) ∷ (128 + u / 4096 % 64) ∷ (128 + u / 64 % 64) ∷ (128 + u % 64) ∷ [],
        refl,
        (omega arith, (omega arith, (omega arith, (omega arith, tt)))),
        omega arith,
        λ rest.
            encode_four (240 + u / 262144) (128 + u / 4096 % 64) (128 + u / 64 % 64) (128 + u % 64)
              rest (omega arith) (omega arith) (omega arith) (omega arith) (omega arith)
              (omega arith) (omega arith) (omega arith)
            ∙ ap (λ v. okay (v, 4)) (four_sum u b),
      )

range-cases :
    (u : ℕ)
    → u < 1114112
    → (u < 128) ⊎ ((127 < u) × (u < 2048)) ⊎ ((2047 < u) × (u < 65536)) ⊎ (65535 < u)
range-cases u h = grind arith

-- Every Unicode number but 0xFEFF has at most four UTF-8 bytes, and reading the bytes back in
-- front of any others gives the number and their count.
pub decode_utf-encode_utf :
    (u : ℕ)
    → u ≤ 1114111
    → u ≢ 65279
    → (bs : Bytes) × (decode_utf (pos u) ≡ okay bs)
      × AreBytes bs
      × (length bs ≤ 4)
      × ((rest : Bytes) → encode_utf (bs ++ rest) ≡ okay (u, length bs))
decode_utf-encode_utf u h ne = elim (range-cases u (omega arith)) [
  | inl a ↦ one_back u a
  | inr (inl (a, b)) ↦ two_back u a b
  | inr (inr (inl (a, b))) ↦ three_back u a b ne
  | inr (inr (inr a)) ↦ four_back u a (omega arith)
]

number-cases : (u : ℕ) → (u ≡ 65279) ⊎ (1114111 < u) ⊎ ((u ≤ 1114111) × (u ≢ 65279))
number-cases u = elim (Bool-cases (u == 65279)) [
  | inl e ↦ inl (==→≡ u 65279 e)
  | inr e ↦ elim (Bool-cases (leb u 1114111)) [
    | inl below ↦ inr (inr (leb→le u 1114111 below, ==-false u 65279 e))
    | inr above ↦ inr (inl (leb-false u 1114111 above))
  ]
]

large_refused : (u : ℕ) → 1114111 < u → decode_utf (pos u) ≡ error out_of_range
unfolding decode_utf
large_refused u h =
    rw
      (
        lt→leb-false u 127 (omega arith),
        lt→leb-false u 2047 (omega arith),
        lt→leb-false u 65535 (omega arith),
        le→leb 128 u (omega arith),
        le→leb 2048 u (omega arith),
        le→leb 65536 u (omega arith),
        lt→leb-false u 1114111 h,
      )
      refl

-- A number is refused exactly when it is 0xFEFF or above 0x10FFFF; a number below 0 is never
-- refused.
pub decode_utf-refused :
    (z : ℤ)
    → ((e : Error) × (decode_utf z ≡ error e))
      ↔ ((z ≡ pos 65279) ⊎ ((u : ℕ) × (z ≡ pos u) × (1114111 < u)))
unfolding decode_utf
decode_utf-refused (negsuc n) = (
  λ (e, h). absurd (okay≢error h),
  λ h. elim h [ inl q ↦ absurd (negsuc≢pos q) | inr (u, q, b) ↦ absurd (negsuc≢pos q) ],
)
decode_utf-refused (pos u) = (
  λ (e, h). elim (number-cases u) [
    | inl q ↦ inl (ap pos q)
    | inr (inl above) ↦ inr (u, refl, above)
    | inr (inr (below, ne)) ↦
        let (bs, q, _, _, _) = decode_utf-encode_utf u below ne in absurd (okay≢error (sym q ∙ h))
  ],
  λ h. elim h [
    | inl q ↦ (illegal_feff, ap decode_utf q)
    | inr (w, q, above) ↦ (out_of_range, ap decode_utf q ∙ large_refused w above)
  ],
)
