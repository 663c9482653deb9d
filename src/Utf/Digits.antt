-- ===== src/Utf/Digits.antt =====
-- rim.h: the macros that write hexadecimal digits.
use rimstone.Base.{ℕ, ◌+◌, ◌-◌, ◌/◌, ◌%◌, [], ◌∷◌, ◌++◌, leb, if◌then◌else◌}
use rimstone.Base.Words.{Bytes}

-- RIM_TO_HEX
unfoldable pub to_hex : ℕ → ℕ
to_hex x = if leb x 9 then 48 + x else 97 - 10 + x

-- RIM_HEX_FROM_BYTE
unfoldable pub hex_from_byte : ℕ → Bytes
hex_from_byte x = to_hex (x / 16 % 16) ∷ to_hex (x % 16) ∷ []

-- RIM_HEX_FROM_INT16
unfoldable pub hex_from_int16 : ℕ → Bytes
hex_from_int16 x = hex_from_byte (x / 256 % 256) ++ hex_from_byte (x % 256)

-- RIM_HEX_FROM_INT32
unfoldable pub hex_from_int32 : ℕ → Bytes
hex_from_int32 x =
    hex_from_byte (x / 16777216 % 256)
    ++ hex_from_byte (x / 65536 % 256)
    ++ hex_from_byte (x / 256 % 256)
    ++ hex_from_byte (x % 256)
