-- ===== src/Message/Fields.antt =====
-- The pieces of an item of msg.c: its key, the bytes of its length, and writes into its memory.
use rimstone.Base.{
  ℕ, zero, suc, ◌+◌, ◌*◌, ◌/◌, ◌%◌, ◌^◌, ◌≤◌, ◌<◌, ◌≡◌, refl, ap, Bool, true, ◌&&◌, ◌||◌, Option,
  none, some, [], ◌∷◌, ◌++◌, leb, ◌==◌, if◌then◌else◌, length, take, drop, arith,
}
use rimstone.Base.Words.{Bytes, is_alnum}

-- memcpy of `new` to index `i`.
unfoldable pub put : Bytes → ℕ → Bytes → Bytes
put d i new = take i d ++ new ++ drop (length new) (drop i d)

-- isspace of the C locale.
unfoldable pub is_space : ℕ → Bool
is_space b = (leb 9 b && leb b 13) || (b == 32)

unfoldable pub is_key_byte : ℕ → Bool
is_key_byte b = is_alnum b || (is_space b || ((b == 45) || (b == 95)))

unfoldable pub all_bytes : (ℕ → Bool) → Bytes → Bool
all_bytes p [] = true
all_bytes p (b ∷ bs) = p b && all_bytes p bs

-- strstr for `=`, which a NUL ends.
unfoldable pub find_separator : Bytes → Option ℕ
find_separator [] = none
find_separator (b ∷ bs) =
    let later = find_separator bs in
    if b == 0
    then none
    else if b == 61
    then some 0
    else elim later [ none ↦ none | some i ↦ some (suc i) ]

unfoldable pub trim_left : Bytes → Bytes
trim_left [] = []
trim_left (b ∷ bs) = if is_space b then trim_left bs else b ∷ bs

-- A byte in front of what is kept of those behind it.
unfoldable pub keep : ℕ → Bytes → Bytes
keep b [] = if is_space b then [] else b ∷ []
keep b (c ∷ cs) = b ∷ c ∷ cs

unfoldable pub trim_right : Bytes → Bytes
trim_right [] = []
trim_right (b ∷ bs) = keep b (trim_right bs)

-- The low `n` bytes of a number, the highest one first, and the number that bytes are.
unfoldable pub be_bytes : ℕ → ℕ → Bytes
be_bytes zero x = []
be_bytes (suc n) x = (x / 256 ^ n % 256) ∷ be_bytes n x

unfoldable pub from_be : Bytes → ℕ
from_be [] = 0
from_be (b ∷ bs) = b * 256 ^ length bs + from_be bs

unfoldable pub le_bytes : ℕ → ℕ → Bytes
le_bytes zero x = []
le_bytes (suc n) x = (x % 256) ∷ le_bytes n (x / 256)

pub length-be_bytes : (n x : ℕ) → length (be_bytes n x) ≡ n
unfolding be_bytes
length-be_bytes zero x = refl
length-be_bytes (suc n) x = ap suc (length-be_bytes n x)

pub from_be-be_bytes : (x : ℕ) → x < 2 ^ 64 → from_be (be_bytes 8 x) ≡ x
unfolding be_bytes from_be
from_be-be_bytes x h = omega arith

pub find_separator-key :
    (k rest : Bytes)
    → all_bytes is_key_byte k ≡ true
    → find_separator (k ++ 61 ∷ rest) ≡ some (length k)
unfolding find_separator is_key_byte is_alnum is_space all_bytes
find_separator-key [] rest h = refl
find_separator-key (b ∷ k) rest h = ground (arith, find_separator-key k rest)

pub length-trim_left : (k : Bytes) → length (trim_left k) ≤ length k
unfolding trim_left
length-trim_left [] = omega arith
length-trim_left (b ∷ k) = ground (arith, length-trim_left k)

length-keep : (b : ℕ) (k : Bytes) → length (keep b k) ≤ suc (length k)
unfolding keep
length-keep b [] = ground arith
length-keep b (c ∷ cs) = omega arith

pub length-trim_right : (k : Bytes) → length (trim_right k) ≤ length k
unfolding trim_right
length-trim_right [] = omega arith
length-trim_right (b ∷ k) = omega (arith, length-keep b (trim_right k), length-trim_right k)

pub length-le_bytes : (n x : ℕ) → length (le_bytes n x) ≡ n
unfolding le_bytes
length-le_bytes zero x = refl
length-le_bytes (suc n) x = ap suc (length-le_bytes n (x / 256))
