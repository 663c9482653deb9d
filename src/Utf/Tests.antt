-- ===== src/Utf/Tests.antt =====
-- utf.c: the euro sign (0x20AC), a face (0x1F600) and numbers out of range.
use rimstone.Base.{◌≤◌, ◌≡◌, refl, [], ◌∷◌, ◌++◌, arith, length}
use rimstone.Base.Words.{AreBytes, Bytes, codes}
use rimstone.Base.Results.{pos, error, okay}
use rimstone.Utf.{
  decode_utf, encode_utf, get_utf_surrogate, make_from_utf_surrogate, utf_get_code, add_bits,
  get_hex, get_hex_from, hex_digit, topower, to_num32, is_surrogate, second_surrogate, third_byte,
  surrogate_missing,
}
use rimstone.Utf.Digits.{hex_from_int16}
use rimstone.Utf.Encode.{decode_utf-encode_utf}
use rimstone.Utf.Hex.{utf_get_code-surrogates}

decode_utf-encode_utf_example :
    (bs : Bytes) × (decode_utf (pos 8364) ≡ okay bs)
    × AreBytes bs
    × (length bs ≤ 4)
    × ((rest : Bytes) → encode_utf (bs ++ rest) ≡ okay (8364, length bs))
decode_utf-encode_utf_example =
    decode_utf-encode_utf 8364 (omega arith) (λ e. absurd {A = ⊥} (omega arith))

utf_get_code-surrogates_example :
    let (u0, u1) = get_utf_surrogate 128512 in
    utf_get_code (hex_from_int16 u0 ++ 92 ∷ 117 ∷ hex_from_int16 u1 ++ []) ≡ okay (pos 128512, 12)
utf_get_code-surrogates_example = utf_get_code-surrogates 128512 [] (omega arith) (omega arith)

euro_run : decode_utf (pos 8364) ≡ okay (226 ∷ 130 ∷ 172 ∷ [])
unfolding decode_utf
euro_run = refl

euro_read_run : encode_utf (226 ∷ 130 ∷ 172 ∷ 33 ∷ []) ≡ okay (8364, 3)
unfolding encode_utf add_bits
euro_read_run = refl

euro_cut_run : encode_utf (226 ∷ 130 ∷ []) ≡ error third_byte
unfolding encode_utf add_bits
euro_cut_run = refl

escape_run : utf_get_code (codes "d83d\\uDE00") ≡ okay (pos 128512, 12)
unfolding utf_get_code get_hex get_hex_from hex_digit topower to_num32 is_surrogate second_surrogate
    make_from_utf_surrogate
escape_run = refl

half_run : utf_get_code (codes "d83d!") ≡ error surrogate_missing
unfolding utf_get_code get_hex get_hex_from hex_digit topower to_num32 is_surrogate second_surrogate
half_run = refl
