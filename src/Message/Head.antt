-- ===== src/Message/Head.antt =====
-- msg.c: rim_parse_item up to the length of the value.
use rimstone.Base.{
  ℕ, suc, ◌+◌, ◌-◌, ◌≤◌, ◌≡◌, sym, ap, ◌∙◌, true, some, ◌∷◌, ◌++◌, arith, le→ltb-false, length,
  take, drop, replicate, take-all, length-append, length-replicate,
}
use rimstone.Base.Words.{Bytes}
use rimstone.Message.{
  Parsed, parse_value, parse_length, end_key, parse_key, parse_from, parse_item, cap,
}
use rimstone.Message.Fields.{
  put, find_separator, trim_left, trim_right, from_be, is_key_byte, all_bytes, find_separator-key,
  length-trim_left, length-trim_right,
}
use rimstone.Message.Memory.{drop-drop, drop-append, take-append, length-drop, drop-put, length-put}

abbrev pub trim : Bytes → Bytes
trim key = trim_right (trim_left key)

-- Where the key without its white space ends.
abbrev pub key_end : ℕ → Bytes → ℕ
key_end curr key = curr + (length key - length (trim_left key)) + length (trim key)

abbrev pub blanks : ℕ → Bytes → Bytes
blanks curr key = replicate (curr + length key + 1 - key_end curr key) 0

-- The message's memory when the key has been ended.
abbrev pub ended : Bytes → ℕ → Bytes → Bytes
ended d curr key = put d (key_end curr key) (blanks curr key)

abbrev pub value_place : ℕ → Bytes → ℕ
value_place curr key = curr + length key + 1 + 16

pub key_end_le : (curr : ℕ) (key : Bytes) → key_end curr key ≤ curr + length key
key_end_le curr key = omega (arith, length-trim_left key, length-trim_right (trim_left key))

pub key_end_reach :
    (curr : ℕ) (key : Bytes) → key_end curr key + length (blanks curr key) ≡ curr + length key + 1
key_end_reach curr key = omega (
  arith,
  key_end_le curr key,
  length-replicate {A = ℕ} (curr + length key + 1 - key_end curr key) 0,
)

pub behind : (a : ℕ) → suc a ≡ a + 1
behind a = omega arith

sum : (a b : ℕ) → a + b + 1 ≡ a + (b + 1)
sum a b = omega arith

rest_length : (len after : ℕ) → len ≡ after + 8 → len - 16 ≡ after - 8
rest_length len after e = omega arith

take-fit : {n : ℕ} {xs : Bytes} (ys : Bytes) → length xs ≡ n → take n (xs ++ ys) ≡ xs
take-fit {xs} ys h = ap (λ n. take n (xs ++ ys)) (sym h) ∙ take-append xs ys

drop-fit : {n : ℕ} (xs ys : Bytes) → length xs ≡ n → drop n (xs ++ ys) ≡ ys
drop-fit xs ys h = ap (λ n. drop n (xs ++ ys)) (sym h) ∙ drop-append xs ys

-- A message that holds from `curr` on a key, the separator, 8 bytes of a length, and `after`.
module _ (d : Bytes) (curr : ℕ) (key lengths after : Bytes)
    (at_key : drop curr d ≡ key ++ (61 ∷ (lengths ++ after))) (eight : length lengths ≡ 8) where
  long_enough : curr + length key + 9 + length after ≡ length d
  long_enough = omega (
    arith,
    length-drop curr d,
    ap length at_key,
    length-append key (61 ∷ (lengths ++ after)),
    length-append lengths after,
  )

  at_length : drop (curr + length key + 1) d ≡ lengths ++ after
  at_length =
      ap (λ n. drop n d) (sum curr (length key))
      ∙ drop-drop curr (length key + 1) d
      ∙ ap (drop (length key + 1)) at_key
      ∙ drop-drop (length key) 1 (key ++ 61 ∷ (lengths ++ after))
      ∙ ap (drop 1) (drop-append key (61 ∷ (lengths ++ after)))

  at_length-ended : drop (curr + length key + 1) (ended d curr key) ≡ lengths ++ after
  at_length-ended =
      drop-put d (key_end curr key) (blanks curr key) (curr + length key + 1)
        (omega (arith, key_end_reach curr key)) (omega (arith, key_end_reach curr key, long_enough))
      ∙ at_length

  length_bytes : take 8 (drop (curr + length key + 1) (ended d curr key)) ≡ lengths
  length_bytes = rw at_length-ended (take-fit after eight)

  pub at_padding :
      (n : ℕ) → drop (curr + length key + 1 + (8 + n)) (ended d curr key) ≡ drop n after
  at_padding n =
      drop-drop (curr + length key + 1) (8 + n) (ended d curr key)
      ∙ ap (drop (8 + n)) at_length-ended
      ∙ drop-drop 8 n (lengths ++ after)
      ∙ ap (drop n) (drop-fit lengths after eight)

  pub at_value : drop (value_place curr key) (ended d curr key) ≡ drop 8 after
  at_value = at_padding 8

  pub length-ended : length (ended d curr key) ≡ length d
  length-ended =
      length-put d (key_end curr key) (blanks curr key)
        (omega (arith, key_end_reach curr key, long_enough))

  module _ (proper : all_bytes is_key_byte key ≡ true) (room : 8 ≤ length after) where
    abbrev head : Parsed
    head =
        parse_value (ended d curr key) (trim key) (value_place curr key) (length after - 8)
          (from_be lengths)

    found : find_separator (take (length d - curr) (drop curr d)) ≡ some (length key)
    found =
        rw (take-all (length d - curr) (drop curr d) (omega (arith, length-drop curr d)), at_key)
          (find_separator-key key (lengths ++ after) proper)

    parse_length-head :
        (len : ℕ)
        → len ≡ length after + 8
        → parse_length (ended d curr key) (trim key) (curr + length key) len ≡ head
    unfolding parse_length
    parse_length-head len e =
        rw (le→ltb-false len 16 (omega arith), length_bytes)
          (ap
            (λ n.
              parse_value (ended d curr key) (trim key) (value_place curr key) n (from_be lengths))
            (rest_length len (length after) e))

    parse_key-head : parse_key d curr (length key) (length d - curr) ≡ head
    unfolding parse_key end_key
    parse_key-head =
        ap (λ k. end_key d curr (length key) (length d - curr) (trim_left k))
          (rw at_key (take-append key (61 ∷ (lengths ++ after))))
        ∙ parse_length-head (length d - curr - (length key + 1)) (omega (arith, long_enough))

    parse_from-head : parse_from d curr (length d - curr) ≡ head
    unfolding parse_from
    parse_from-head = rw (found, parse_from) parse_key-head

    -- Parsing comes to the length that the bytes stand for.
    pub parse_item-head : parse_item d curr (length d) ≡ head
    unfolding parse_item cap
    parse_item-head =
        rw
          (
            le→ltb-false (length d) curr (omega (arith, long_enough)),
            le→ltb-false (length d) (length d) (omega arith),
          )
          parse_from-head
