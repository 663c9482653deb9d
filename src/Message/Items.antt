-- ===== src/Message/Items.antt =====
-- msg.c: reading a message that was written, item by item.
use rimstone.Base.{
  ℕ, zero, suc, ◌+◌, ◌-◌, ◌^◌, ◌≤◌, ◌<◌, ◌≡◌, refl, sym, ap, subst, ◌∙◌, inl, inr, true, false,
  some, List, [], ◌∷◌, ◌++◌, arith, length, take, drop, replicate, le→ltb-false, if◌then◌else◌,
  Bool-cases,
}
use rimstone.Base.Results.{pos}
use rimstone.Base.Words.{Bytes, equal_bytes}
use rimstone.Message.{
  okay_read, err_format, Parsed, Msg, Reading, failed, text, comment, item, parse_from, parse_item,
  cap, skip, judge, deliver, header, read_items, no_value,
}
use rimstone.Message.Fields.{put, find_separator, is_key_byte, all_bytes, length-le_bytes}
use rimstone.Message.Memory.{slice, drop-put, length-put}
use rimstone.Message.Head.{trim, value_place}
use rimstone.Message.Item.{
  parsed, left_over, parse_item-parsed, length-left_over, next-left_over, value-left_over,
  long_enough,
}

-- The text that writing keys and values makes.
unfoldable pub written : List (Bytes × Bytes) → Bytes
written [] = []
written ((key, value) ∷ items) = item key value ++ written items

-- What a reader is to get: the keys without white space around them, and no comments.
unfoldable pub visible : List (Bytes × Bytes) → List (Bytes × Bytes)
visible [] = []
visible ((key, value) ∷ items) =
    if equal_bytes (trim key) comment then visible items else (trim key, value) ∷ visible items

abbrev pub IsWritable : Bytes → Bytes → Type 0
IsWritable key value = (all_bytes is_key_byte key ≡ true) × (length value < 2 ^ 63)

unfoldable pub AreWritable : List (Bytes × Bytes) → Type 0
AreWritable [] = Unit {0}
AreWritable ((key, value) ∷ items) = IsWritable key value × AreWritable items

-- The message holds `items` from its place on.
pub record Holds (items : List (Bytes × Bytes)) (m : Msg) : Type 0 where
  pub holds : drop m.curr (text m.data_of) ≡ written items
  pub whole : m.len ≡ length (text m.data_of)
  pub within : m.curr ≤ m.len
  pub writable : AreWritable items

-- A reading that returns the key and the value, and leaves a message that holds `items`.
pub record Delivered (key value : Bytes) (items : List (Bytes × Bytes)) (m : Msg) (r : Reading)
    : Type 0 where
  pub status : r.status ≡ okay_read
  pub key_read : r.key ≡ key
  pub value_len : r.value_len ≡ pos (length value)
  pub value_read : slice r.value_at (length value) (text r.msg.data_of) ≡ value
  pub mode : r.msg.mode ≡ m.mode
  pub left : Holds items r.msg

pub data Outcome (items : List (Bytes × Bytes)) (m : Msg) (r : Reading) : Type 0 where
  no_more : r.status ≡ err_format → visible items ≡ [] → Outcome items m r
  next :
      (key value : Bytes) (later : List (Bytes × Bytes))
      → visible items ≡ (key, value) ∷ visible later
      → length later < length items
      → Delivered key value later m r
      → Outcome items m r

take-none : (n : ℕ) → take {A = ℕ} n [] ≡ []
take-none zero = refl
take-none (suc n) = refl

parse_from-none :
    (d : Bytes) (curr len : ℕ) → drop curr d ≡ [] → parse_from d curr len ≡ failed err_format d
unfolding parse_from find_separator
parse_from-none d curr len h = rw (h, parse_from) (rw (take-none len, find_separator) refl)

length-header : (n : ℕ) → length (header (pos n)) ≡ 16
unfolding header replicate
length-header n = omega (arith, length-le_bytes 8 (n + 1))

parse_item-none :
    (d : Bytes) (curr : ℕ)
    → drop curr d ≡ []
    → curr ≤ length d
    → parse_item d curr (length d) ≡ failed err_format d
unfolding parse_item cap
parse_item-none d curr h fits =
    rw (le→ltb-false (length d) curr fits, le→ltb-false (length d) (length d) (omega arith))
      (parse_from-none d curr _ h)

module _ (key value : Bytes) (items : List (Bytes × Bytes)) (m : Msg) where
  abbrev here : Parsed
  here = parsed (text m.data_of) m.curr key value

  parse-Holds : Holds ((key, value) ∷ items) m → parse_item (text m.data_of) m.curr m.len ≡ here
  unfolding written AreWritable
  parse-Holds h =
      rw h.whole
        (parse_item-parsed _ m.curr key value (written items) h.holds h.writable.0.1 h.writable.0.0)

  -- What the item takes, and what is left of it.
  module _ (h : Holds ((key, value) ∷ items) m) where
    at_item : drop m.curr (text m.data_of) ≡ item key value ++ written items
    unfolding written
    at_item = h.holds

    later : AreWritable items
    unfolding AreWritable
    later = h.writable.1

    abbrev place : ℕ
    place = value_place m.curr key

    abbrev rest_of : Bytes
    rest_of = left_over (text m.data_of) m.curr key value (written items) at_item

    room : suc (place + length value) ≤ length (text m.data_of)
    room = omega (arith, long_enough (text m.data_of) m.curr key value (written items) at_item)

    skip-Holds : Holds items (skip m here)
    unfolding skip
    skip-Holds = record {
      holds = next-left_over _ m.curr key value _ at_item;
      whole = h.whole ∙ sym (length-left_over _ m.curr key value _ at_item);
      within = rw h.whole room;
      writable = later;
    }

    abbrev marked : Bytes
    marked = put rest_of (place - 16) (header (pos (length value)))

    reach : place - 16 + length (header (pos (length value))) ≡ place
    reach = omega (arith, length-header (length value))

    fits : place - 16 + length (header (pos (length value))) ≤ length rest_of
    fits = omega (arith, reach, room, length-left_over _ m.curr key value _ at_item)

    deliver-Delivered : Delivered (trim key) value items m (deliver m here)
    unfolding deliver
    deliver-Delivered = record {
      status = refl;
      key_read = refl;
      value_len = refl;
      value_read =
          ap (take (length value)) (
            drop-put rest_of (place - 16) (header (pos (length value))) place (omega (arith, reach))
              fits)
          ∙ value-left_over _ m.curr key value _ at_item;
      mode = refl;
      left = record {
        holds =
            drop-put rest_of (place - 16) (header (pos (length value))) (suc (place + length value))
              (omega (arith, reach)) fits
            ∙ next-left_over _ m.curr key value _ at_item;
        whole =
            h.whole
            ∙ sym (
                length-put rest_of (place - 16) (header (pos (length value))) fits
                ∙ length-left_over _ m.curr key value _ at_item);
        within = rw h.whole room;
        writable = later;
      };
    }

parse-none :
    (m : Msg)
    → Holds [] m
    → parse_item (text m.data_of) m.curr m.len ≡ failed err_format (text m.data_of)
unfolding written
parse-none m h =
    rw h.whole (parse_item-none (text m.data_of) m.curr h.holds (omega (arith, h.within, h.whole)))

round-none :
    (fuel : ℕ) (m : Msg)
    → Holds [] m
    → read_items (suc fuel) m ≡ no_value err_format (record m { data_of = some (text m.data_of) })
unfolding read_items judge failed written
round-none fuel m h = ap (λ p. judge m p (read_items fuel (skip m p))) (parse-none m h)

module _ (key value : Bytes) (items : List (Bytes × Bytes)) (m : Msg) where
  round-item :
      (fuel : ℕ)
      → Holds ((key, value) ∷ items) m
      → read_items (suc fuel) m ≡ (
          if equal_bytes (trim key) comment
          then read_items fuel (skip m (here key value items m))
          else deliver m (here key value items m))
  unfolding read_items judge
  round-item fuel h =
      ap (λ p. judge m p (read_items fuel (skip m p))) (parse-Holds key value items m h)

  -- A comment is passed over.
  pass :
      (p : Parsed) (r : Reading)
      → equal_bytes (trim key) comment ≡ true
      → Outcome items (skip m p) r
      → Outcome ((key, value) ∷ items) m r
  unfolding visible skip
  pass p r e (no_more s v) = no_more s (rw e v)
  pass p r e (next k v left shown shorter d) = next k v left (rw e shown) (omega arith) (record {
    status = d.status;
    key_read = d.key_read;
    value_len = d.value_len;
    value_read = d.value_read;
    mode = d.mode;
    left = d.left;
  })

  take-this :
      Holds ((key, value) ∷ items) m
      → equal_bytes (trim key) comment ≡ false
      → Outcome ((key, value) ∷ items) m (deliver m (here key value items m))
  unfolding visible
  take-this h e =
      next (trim key) value items (rw e refl) (omega arith) (deliver-Delivered key value items m h)

pub read_items-Outcome :
    (fuel : ℕ) (items : List (Bytes × Bytes)) (m : Msg)
    → Holds items m
    → length items < fuel
    → Outcome items m (read_items fuel m)
unfolding visible
read_items-Outcome zero items m h more = absurd (omega arith)
read_items-Outcome (suc fuel) [] m h more =
    subst (Outcome [] m) (sym (round-none fuel m h)) (no_more refl refl)
read_items-Outcome (suc fuel) ((key, value) ∷ items) m h more =
    subst (Outcome ((key, value) ∷ items) m) (sym (round-item key value items m fuel h))
      (elim (Bool-cases (equal_bytes (trim key) comment)) [
        | inl e ↦ rw e (
            pass key value items m (here key value items m) _ e (
              read_items-Outcome fuel items (skip m (here key value items m))
                (skip-Holds key value items m h) (omega arith)))
        | inr e ↦ rw e (take-this key value items m h e)
      ])
