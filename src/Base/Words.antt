-- ===== src/Base/Words.antt =====
-- Bytes and machine words. A byte string is the list of its bytes, without the terminating NUL.
use Prim.Native.Char.{code}
use Prim.Native.Nat.{ℕ, ◌<◌}
use Prim.Native.String.{String}
use mathlib.Core.List.{List, [], ◌∷◌, ◌++◌}
use mathlib.Core.Bool.{Bool, true, false, ◌&&◌, ◌||◌}
use mathlib.Core.Path.{◌≡◌, refl}
use native.Mathlib.Omega.{arith}
use rimstone.Base.Tests.{leb, ◌==◌, if◌then◌else◌}

abbrev pub Bytes : Type 0
Bytes = List ℕ

-- The code points of a literal: its bytes, where the text is ASCII.
abbrev pub codes : String → Bytes
codes String.[] = []
codes (String.◌∷◌ c s) = code c ∷ codes s

unfoldable pub AreBytes : Bytes → Type 0
AreBytes [] = Unit {0}
AreBytes (b ∷ bs) = (b < 256) × AreBytes bs

-- isalnum of the C locale.
unfoldable pub is_alnum : ℕ → Bool
is_alnum b = (leb 48 b && leb b 57) || ((leb 65 b && leb b 90) || (leb 97 b && leb b 122))

-- A text with no NUL inside.
abbrev pub NulFree : Bytes → Type 0
NulFree [] = Unit
NulFree (x ∷ a) = (0 < x) × NulFree a

-- What the functions of the C library take for the string: the bytes before the first NUL.
unfoldable pub c_string : Bytes → Bytes
c_string [] = []
c_string (x ∷ a) = if x == 0 then [] else x ∷ c_string a

unfoldable pub equal_bytes : Bytes → Bytes → Bool
equal_bytes [] [] = true
equal_bytes [] (y ∷ b) = false
equal_bytes (x ∷ a) [] = false
equal_bytes (x ∷ a) (y ∷ b) = (x == y) && equal_bytes a b

pub ≡-of-equal_bytes : (a b : Bytes) → equal_bytes a b ≡ true → a ≡ b
unfolding equal_bytes
≡-of-equal_bytes [] [] h = refl
≡-of-equal_bytes [] (y ∷ b) h = cc
≡-of-equal_bytes (x ∷ a) [] h = cc
≡-of-equal_bytes (x ∷ a) (y ∷ b) h = ground (arith, ≡-of-equal_bytes a b)

pub equal_bytes_refl : (a : Bytes) → equal_bytes a a ≡ true
unfolding equal_bytes
equal_bytes_refl [] = refl
equal_bytes_refl (x ∷ a) = ground (arith, equal_bytes_refl a)

pub c_string_of_NulFree : (a : Bytes) → NulFree a → c_string a ≡ a
unfolding c_string
c_string_of_NulFree [] h = refl
c_string_of_NulFree (x ∷ a) (first, rest) = ground (arith, c_string_of_NulFree a rest)

pub c_string-append_nul : (a b : Bytes) → NulFree a → c_string (a ++ 0 ∷ b) ≡ a
unfolding c_string
c_string-append_nul [] b h = refl
c_string-append_nul (x ∷ a) b (first, rest) = ground (arith, c_string-append_nul a b rest)
