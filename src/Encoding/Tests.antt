-- ===== src/Encoding/Tests.antt =====
-- rimrt.c and rimrtc.c: codings of short texts.
use rimstone.Base.{
  ◌+◌, ◌*◌, ◌≤◌, ◌≡◌, refl, ◌≢◌, ◌⊎◌, none, some, [], ◌∷◌, ◌++◌, arith, length, take,
}
use rimstone.Base.Words.{is_alnum, AreBytes, Bytes, NulFree, codes}
use rimstone.Base.Results.{okay, error}
use rimstone.Encoding.Hex.{bin2hex-hex2bin}
use rimstone.Encoding.{
  bin2hex, hex2bin, bin2hex_from, hex2bin_from, read_length, url_byte, url_digit,
}
use rimstone.Encoding.Codec.{
  encode_base, decode_url, type_url, type_web, encode_url_byte, max_enc_blowup, unknown_type,
  out_of_bounds, encode_loop, encode_web_byte, is_kept, upper_digit, with_status, decode_url_from,
  decode_url_at,
}
use rimstone.Encoding.Web.{
  starts_with, entity, web_character, decode_web_from, decode_web, encode_base-decode_web,
}
use rimstone.Encoding.Url.{encode_base-decode_url, encode_base-fits}
use rimstone.Utf.Digits.{to_hex, hex_from_byte}

abbrev three : Bytes
three = 0 ∷ 171 ∷ 255 ∷ []

three-AreBytes : AreBytes three
unfolding AreBytes
three-AreBytes = (omega arith, (omega arith, (omega arith, tt)))

bin2hex-hex2bin_example :
    (text : Bytes) × (bin2hex three (some 2) (some (codes "0x")) ≡ okay (codes "0x" ++ text))
    × (length text ≡ 2 * length (take 2 three))
    × (hex2bin text none ≡ okay (take 2 three))
bin2hex-hex2bin_example = bin2hex-hex2bin three 2 (some (codes "0x")) three-AreBytes (omega arith)

three_run : bin2hex three none none ≡ okay (codes "00abff")
unfolding bin2hex read_length bin2hex_from hex_from_byte to_hex
three_run = refl

-- The reading stops at the first character that is no digit.
stop_run : hex2bin (codes "00AFx1") none ≡ okay (0 ∷ 175 ∷ [])
unfolding hex2bin read_length hex2bin_from url_byte url_digit
stop_run = refl

encode_base-decode_url_example :
    (text : Bytes) × (encode_base type_url three 4 ≡ okay text)
    × (decode_url text (length text) ≡ (take 4 (three ++ 0 ∷ []), none))
encode_base-decode_url_example = encode_base-decode_url three 4 three-AreBytes (omega arith)

encode_base-fits_example :
    ((out : Bytes) × (encode_base type_web three 3 ≡ okay out)
      × (length out + 1 ≤ max_enc_blowup 3))
    ⊎ ((type_web ≢ type_web)
        × (type_web ≢ type_url)
        × (encode_base type_web three 3 ≡ error unknown_type))
encode_base-fits_example = encode_base-fits type_web 3 three (omega arith)

url_run : encode_base type_url (codes "a b-c") 5 ≡ okay (codes "a%20b-c")
unfolding encode_base encode_loop encode_url_byte is_kept is_alnum upper_digit
url_run = refl

web_run : encode_base type_web (codes "<&>") 3 ≡ okay (codes "&lt;&amp;&gt;")
unfolding encode_base encode_loop encode_web_byte
web_run = refl

-- A length past the end of the string has its null byte encoded, and a longer one reads behind it.
past_run :
    (encode_base type_url (codes "a") 2 ≡ okay (codes "a%00"))
    × (encode_base type_url (codes "a") 3 ≡ error out_of_bounds)
unfolding encode_base encode_loop encode_url_byte is_kept is_alnum upper_digit
past_run = (refl, refl)

-- A digit that is none stops the decoding, which tells where.
broken_run : decode_url (codes "a+%4g%20") 8 ≡ (codes "a ", some 4)
unfolding decode_url with_status decode_url_from decode_url_at url_digit
broken_run = refl

abbrev markup : Bytes
markup = codes "a<&>"

markup-NulFree : NulFree markup
markup-NulFree = (omega arith, (omega arith, (omega arith, (omega arith, tt))))

encode_base-decode_web_example :
    (text : Bytes) × (encode_base type_web markup 3 ≡ okay text)
    × (decode_web text (length text) ≡ take 3 markup)
encode_base-decode_web_example = encode_base-decode_web markup 3 markup-NulFree (omega arith)

-- An escape that goes on past the length is decoded, an unknown one stays.
cut_web_run : decode_web (codes "&nbsp;&lt;") 8 ≡ codes "&nbsp;<"
unfolding decode_web decode_web_from web_character entity starts_with
cut_web_run = refl
