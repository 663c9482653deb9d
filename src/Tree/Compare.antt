-- ===== src/Tree/Compare.antt =====
-- rim_tree_compare: the two orders of keys, over the bytes of a key and the NUL behind them.
use mathlib.Core.HLevel.{Σ_prop_path}
use rimstone.Base.{
  ℕ, suc, zero, ◌+◌, min, [], ◌∷◌, ◌++◌, ◌≡◌, refl, sym, ◌∙◌, ltb, arith, length, length-append,
  take, if◌then◌else◌,
}
use native.Mathlib.Bridge.{le_prop}
use rimstone.Base.Words.{Bytes, NulFree}
use rimstone.Tree.Key.{Sign, minus, same, plus, KeyOrder}

-- RIM_TREE_TYPE_NUM and RIM_TREE_TYPE_STR
pub data KeyType : Type 0 where
  num str : KeyType

-- memcmp over as many bytes as the first argument has
unfoldable pub memcmp : Bytes → Bytes → Sign
memcmp [] b = same
memcmp (x ∷ a) [] = plus
memcmp (x ∷ a) (y ∷ b) =
    let rest = memcmp a b in if ltb x y then minus else if ltb y x then plus else rest

-- A key in memory: the bytes and the NUL.
abbrev pub capped : Bytes → Bytes
capped a = a ++ 0 ∷ []

unfoldable pub tree_compare : KeyType → Bytes → Bytes → Sign
unfolding memcmp
tree_compare num a b =
    if ltb (length a) (length b)
    then minus
    else if ltb (length b) (length a)
    then plus
    else memcmp a b
tree_compare str a b =
    let l = min (length a) (length b) + 1 in memcmp (take l (capped a)) (take l (capped b))

-- The order of words: the shorter of two that agree comes first.
unfoldable pub lex : Bytes → Bytes → Sign
lex [] [] = same
lex [] (y ∷ b) = minus
lex (x ∷ a) [] = plus
lex (x ∷ a) (y ∷ b) =
    let rest = lex a b in if ltb x y then minus else if ltb y x then plus else rest

memcmp-capped :
    (l : ℕ) (a b : Bytes)
    → NulFree a
    → NulFree b
    → l ≡ min (length a) (length b)
    → memcmp (take (suc l) (capped a)) (take (suc l) (capped b)) ≡ lex a b
unfolding memcmp lex
memcmp-capped zero [] [] p q e = refl
memcmp-capped (suc l) [] [] p q e = absurd (omega arith)
memcmp-capped zero [] (y ∷ b) p q e = ground arith
memcmp-capped (suc l) [] (y ∷ b) p q e = absurd (omega arith)
memcmp-capped zero (x ∷ a) [] p q e = ground arith
memcmp-capped (suc l) (x ∷ a) [] p q e = absurd (omega arith)
memcmp-capped zero (x ∷ a) (y ∷ b) p q e = absurd (omega arith)
memcmp-capped (suc l) (x ∷ a) (y ∷ b) (_, p) (_, q) e = rw (memcmp-capped l a b p q (omega arith))

-- On keys with no NUL inside, a string tree compares words.
tree_compare-lex : (a b : Bytes) → NulFree a → NulFree b → tree_compare str a b ≡ lex a b
unfolding tree_compare
tree_compare-lex a b p q =
    let e : min (length a) (length b) + 1 ≡ suc (min (length a) (length b)) = omega arith in
    rw e (memcmp-capped (min (length a) (length b)) a b p q refl)

lex_refl : (a : Bytes) → lex a a ≡ same
unfolding lex
lex_refl [] = refl
lex_refl (x ∷ a) = ground (arith, lex_refl a)

eq_of_lex : (a b : Bytes) → lex a b ≡ same → a ≡ b
unfolding lex
eq_of_lex [] [] e = refl
eq_of_lex [] (y ∷ b) e = cc
eq_of_lex (x ∷ a) [] e = cc
eq_of_lex (x ∷ a) (y ∷ b) e = ground (arith, eq_of_lex a b)

plus_of_lex : (a b : Bytes) → lex a b ≡ minus → lex b a ≡ plus
unfolding lex
plus_of_lex [] [] e = cc
plus_of_lex [] (y ∷ b) e = refl
plus_of_lex (x ∷ a) [] e = cc
plus_of_lex (x ∷ a) (y ∷ b) e = ground (arith, plus_of_lex a b)

minus_of_lex : (a b : Bytes) → lex a b ≡ plus → lex b a ≡ minus
unfolding lex
minus_of_lex [] [] e = cc
minus_of_lex [] (y ∷ b) e = cc
minus_of_lex (x ∷ a) [] e = refl
minus_of_lex (x ∷ a) (y ∷ b) e = ground (arith, minus_of_lex a b)

lex_trans : (a b c : Bytes) → lex a b ≡ minus → lex b c ≡ minus → lex a c ≡ minus
unfolding lex
lex_trans [] [] c e f = f
lex_trans [] (y ∷ b) [] e f = cc
lex_trans [] (y ∷ b) (z ∷ c) e f = refl
lex_trans (x ∷ a) [] c e f = cc
lex_trans (x ∷ a) (y ∷ b) [] e f = cc
lex_trans (x ∷ a) (y ∷ b) (z ∷ c) e f = ground (arith, lex_trans a b c)

NulFree-prop : (a : Bytes) → IsProp (NulFree a)
NulFree-prop [] = hlevel
NulFree-prop (x ∷ a) = hlevel (le_prop, NulFree-prop a)

-- The keys of a string tree for which the comparison is an order.
abbrev pub TextKey : Type 0
TextKey = (a : Bytes) × NulFree a

unfoldable pub compare_text : TextKey → TextKey → Sign
compare_text a b = tree_compare str a.0 b.0

text-lex : (a b : TextKey) → compare_text a b ≡ lex a.0 b.0
unfolding compare_text
text-lex a b = tree_compare-lex a.0 b.0 a.1 b.1

pub text_refl : (a : TextKey) → compare_text a a ≡ same
text_refl a = text-lex a a ∙ lex_refl a.0

pub eq_of_text : (a b : TextKey) → compare_text a b ≡ same → a ≡ b
eq_of_text a b e = Σ_prop_path NulFree-prop (eq_of_lex a.0 b.0 (sym (text-lex a b) ∙ e))

pub plus_of_text : (a b : TextKey) → compare_text a b ≡ minus → compare_text b a ≡ plus
plus_of_text a b e = text-lex b a ∙ plus_of_lex a.0 b.0 (sym (text-lex a b) ∙ e)

pub minus_of_text : (a b : TextKey) → compare_text a b ≡ plus → compare_text b a ≡ minus
minus_of_text a b e = text-lex b a ∙ minus_of_lex a.0 b.0 (sym (text-lex a b) ∙ e)

pub text_trans :
    (a b c : TextKey)
    → compare_text a b ≡ minus
    → compare_text b c ≡ minus
    → compare_text a c ≡ minus
text_trans a b c e f =
    text-lex a c ∙ lex_trans a.0 b.0 c.0 (sym (text-lex a b) ∙ e) (sym (text-lex b c) ∙ f)

instance unfoldable pub text_order : KeyOrder TextKey
text_order = record {
  compare = compare_text;
  compare_refl = text_refl;
  eq_of_compare = eq_of_text;
  plus_of_minus = plus_of_text;
  minus_of_plus = minus_of_text;
  minus_trans = text_trans;
}

memcmp_conflates :
    (a b : Bytes)
    → memcmp (take (suc (length a)) (capped a)) (take (suc (length a)) (capped (a ++ 0 ∷ b))) ≡ same
unfolding memcmp
memcmp_conflates [] b = refl
memcmp_conflates (x ∷ a) b = ground (arith, memcmp_conflates a b)

-- A string tree takes a key and any longer key that has a NUL where the first one ends for one key.
pub str_conflates : (a b : Bytes) → tree_compare str a (a ++ 0 ∷ b) ≡ same
unfolding tree_compare
str_conflates a b =
    let e : min (length a) (length (a ++ 0 ∷ b)) + 1 ≡ suc (length a) =
      omega (arith, length-append a (0 ∷ b)) in
    rw e (memcmp_conflates a b)
