-- ===== src/Message/Item.antt =====
-- msg.c: what rim_parse_item takes from a written item, and what it leaves of the message.
use rimstone.Base.{
  ℕ, suc, ◌+◌, ◌-◌, ◌^◌, ◌≤◌, ◌<◌, ◌≡◌, refl, ap, ◌∙◌, true, [], ◌∷◌, ◌++◌, append_assoc, arith,
  lt→ltb, le→ltb-false, length, drop, replicate, length-append,
}
use rimstone.Base.Results.{ℤ, pos}
use rimstone.Base.Words.{Bytes}
use rimstone.Message.{okay_read, Parsed, item, close_item, parse_value, parse_item}
use rimstone.Message.Fields.{
  put, be_bytes, is_key_byte, all_bytes, length-be_bytes, from_be-be_bytes,
}
use rimstone.Message.Memory.{
  slice, drop-drop, drop-append, take-append, length-drop, drop-put, slice-put, length-put,
}
use rimstone.Message.Head.{
  trim, key_end, blanks, ended, value_place, key_end_le, behind, at_value, length-ended,
  parse_item-head,
}

abbrev pub parsed : Bytes → ℕ → Bytes → Bytes → Parsed
parsed d curr key value = record {
  status = okay_read;
  key = trim key;
  value_at = value_place curr key;
  value_len = pos (length value);
  next = suc (value_place curr key + length value);
  marked = put (ended d curr key) (value_place curr key + length value) (0 ∷ []);
}

pub length-item : (key value : Bytes) → length (item key value) ≡ length key + length value + 18
unfolding item replicate
length-item key value = omega (
  arith,
  length-append key (61 ∷ (be_bytes 8 (length value) ++ (replicate 8 0 ++ (value ++ 10 ∷ [])))),
  length-append (be_bytes 8 (length value)) (replicate 8 0 ++ (value ++ 10 ∷ [])),
  length-be_bytes 8 (length value),
  length-append value (10 ∷ []),
)

close-newline :
    (d key : Bytes) (at : ℕ) (l : ℤ) (ends : ℕ) (rest : Bytes)
    → drop ends d ≡ 10 ∷ rest
    → close_item d key at l ends ≡ record {
      status = okay_read;
      key = key;
      value_at = at;
      value_len = l;
      next = suc ends;
      marked = put d ends (0 ∷ []);
    }
unfolding close_item
close-newline d key at l ends rest h = rw (h, close_item) refl

parse_value-fits :
    (d key : Bytes) (at len vl : ℕ)
    → vl < 2 ^ 63
    → vl ≤ len
    → parse_value d key at len vl ≡ close_item d key at (pos vl) (at + vl)
unfolding parse_value
parse_value-fits d key at len vl small fits =
    rw (lt→ltb vl (2 ^ 63) small, le→ltb-false len vl fits) refl

-- What the item at `curr` of the message holds.
module _ (d : Bytes) (curr : ℕ) (key value rest : Bytes)
    (here : drop curr d ≡ item key value ++ rest) where
  at_key :
      drop curr d
      ≡ key ++ (61 ∷ (be_bytes 8 (length value) ++ (replicate 8 0 ++ (value ++ 10 ∷ rest))))
  at_key = here ∙ unfold item in rw (append_assoc, append_assoc, append_assoc, append_assoc) refl

  pub long_enough : curr + length key + length value + 18 + length rest ≡ length d
  long_enough = omega (
    arith,
    length-drop curr d,
    ap length here,
    length-append (item key value) rest,
    length-item key value,
  )

  at_text : drop (value_place curr key) (ended d curr key) ≡ value ++ 10 ∷ rest
  unfolding replicate
  at_text =
      at_value d curr key (be_bytes 8 (length value)) (replicate 8 0 ++ (value ++ 10 ∷ rest)) at_key
        (length-be_bytes 8 (length value))

  same_length : length (ended d curr key) ≡ length d
  same_length =
      length-ended d curr key (be_bytes 8 (length value)) (replicate 8 0 ++ (value ++ 10 ∷ rest))
        at_key (length-be_bytes 8 (length value))

  at_end : drop (value_place curr key + length value) (ended d curr key) ≡ 10 ∷ rest
  at_end =
      drop-drop (value_place curr key) (length value) (ended d curr key)
      ∙ ap (drop (length value)) at_text
      ∙ drop-append value (10 ∷ rest)

  length-after : length (replicate 8 0 ++ (value ++ 10 ∷ rest)) ≡ 9 + length value + length rest
  unfolding replicate
  length-after = omega (arith, length-append value (10 ∷ rest))

  pub parse_item-parsed :
      length value < 2 ^ 63
      → all_bytes is_key_byte key ≡ true
      → parse_item d curr (length d) ≡ parsed d curr key value
  parse_item-parsed small proper =
      parse_item-head d curr key (be_bytes 8 (length value)) (replicate 8 0 ++ (value ++ 10 ∷ rest))
        at_key (length-be_bytes 8 (length value)) proper (omega (arith, length-after))
      ∙ rw (from_be-be_bytes (length value) (omega arith)) (
          parse_value-fits (ended d curr key) (trim key) (value_place curr key)
            (length (replicate 8 0 ++ (value ++ 10 ∷ rest)) - 8) (length value) small
            (omega (arith, length-after))
          ∙ close-newline (ended d curr key) (trim key) (value_place curr key) (pos (length value))
              (value_place curr key + length value) rest at_end)

  -- What the parsed item leaves.
  abbrev pub left_over : Bytes
  left_over = put (ended d curr key) (value_place curr key + length value) (0 ∷ [])

  pub length-left_over : length left_over ≡ length d
  length-left_over =
      length-put (ended d curr key) (value_place curr key + length value) (0 ∷ [])
        (omega (arith, same_length, long_enough))
      ∙ same_length

  pub next-left_over : drop (suc (value_place curr key + length value)) left_over ≡ rest
  next-left_over =
      drop-put (ended d curr key) (value_place curr key + length value) (0 ∷ [])
        (suc (value_place curr key + length value)) (omega arith)
        (omega (arith, same_length, long_enough))
      ∙ ap (λ n. drop n (ended d curr key)) (behind (value_place curr key + length value))
      ∙ drop-drop (value_place curr key + length value) 1 (ended d curr key)
      ∙ ap (drop 1) at_end

  pub value-left_over : slice (value_place curr key) (length value) left_over ≡ value
  value-left_over =
      slice-put (ended d curr key) (value_place curr key + length value) (0 ∷ [])
        (value_place curr key) (length value) (omega arith)
        (omega (arith, same_length, long_enough))
      ∙ rw at_text (take-append value (10 ∷ rest))

  pub earlier-left_over : (at n : ℕ) → at + n ≤ curr → slice at n left_over ≡ slice at n d
  earlier-left_over at n h =
      slice-put (ended d curr key) (value_place curr key + length value) (0 ∷ []) at n (omega arith)
        (omega (arith, same_length, long_enough))
      ∙ slice-put d (key_end curr key) (blanks curr key) at n (omega arith)
          (omega (arith, key_end_le curr key, long_enough))
