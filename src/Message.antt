-- ===== src/Message.antt =====
-- msg.c as the server compiles it (without RIM_MSG_CLI): the message that write-message builds and
-- read-message takes apart, an item being a key, `=`, the length of the value in 8 bytes from the
-- highest on, 8 bytes of 0, the value and a newline. A message's text is the bytes before the NUL
-- that ends it; `none` stands for RIM_EMPTY_STRING. Reading writes into the text it reads, which
-- is modelled as well, and is asked for key and value.
pub mod Fields
pub mod Memory
pub mod Head
pub mod Item
pub mod Items
pub mod Writing
pub mod Reads
pub mod RoundTrip
pub mod Faults
mod Tests
use rimstone.Base.{
  ℕ, zero, suc, ◌+◌, ◌-◌, ◌*◌, ◌/◌, ◌^◌, not, ◌||◌, Option, none, some, ◌∷◌, ◌++◌, ltb, leb, ◌==◌,
  if◌then◌else◌, length, take, drop, replicate, [],
}
use rimstone.Base.Results.{Result, error, okay, ℤ, pos, negsuc}
use rimstone.Base.Words.{Bytes, codes, equal_bytes}
use rimstone.Message.Fields.{
  put, find_separator, trim_left, trim_right, be_bytes, from_be, le_bytes, is_key_byte, all_bytes,
}

pub data Mode : Type 0 where
  mode_none : Mode
  mode_read : Mode
  mode_write : Mode

pub record Msg : Type 0 where
  data_of : Option Bytes
  len : ℕ
  tot : ℕ
  addinc : ℕ
  curr : ℕ
  mode : Mode

-- The calls of rim_report_error.
pub data Error : Type 0 where
  read_before_write : Error
  too_short : Error
  invalid_key : Error

-- What a read returns. `outside` stands for a read of memory before the message, `unfinished` for
-- a loop that has not ended in the rounds given.
pub data Status : Type 0 where
  okay_read : Status
  err_length : Status
  err_format : Status
  outside : Status
  unfinished : Status

abbrev pub buff_len : ℕ
buff_len = 1024

abbrev pub add_len : ℕ
add_len = 30

abbrev pub align : ℕ
align = 16

abbrev pub text : Option Bytes → Bytes
text none = []
text (some bs) = bs

-- rim_init_msg leaves `tot`.
unfoldable pub init_msg : Msg → Msg
init_msg m = record m { data_of = none; len = 0; curr = 0; addinc = buff_len; mode = mode_none }

-- `from` is `none` where the C code is given NULL; `tot` is what the new memory holds there.
abbrev pub blank_msg : ℕ → Msg
blank_msg tot =
    init_msg (record { data_of = none; len = 0; tot = tot; addinc = 0; curr = 0; mode = mode_none })

unfoldable pub new_msg : ℕ → Option (Option Bytes) → Msg
new_msg tot none = blank_msg tot
new_msg tot (some from) = record (blank_msg tot) {
  data_of = from;
  len = length (text from);
  mode = mode_read;
}

unfoldable pub get_msg_len : Msg → ℕ
get_msg_len m = elim m.data_of [ none ↦ 0 | some _ ↦ m.len ]

-- The text that get-message takes out, the message's memory cut to its length, and what is left.
unfoldable pub get_msg : Msg → Bytes × Msg
get_msg m = elim m.data_of [ none ↦ ([], m) | some bs ↦ (take m.len bs, init_msg m) ]

-- Writing

unfoldable pub start_writing : Msg → Result Error Msg
start_writing m = elim m.mode [
  | mode_none ↦ okay (record (init_msg m) { mode = mode_write })
  | mode_read ↦ error read_before_write
  | mode_write ↦ okay m
]

unfoldable pub next_addinc : ℕ → ℕ → ℕ
next_addinc tot addinc =
    if leb addinc 4096 then addinc * 2 else if ltb (8 * addinc) tot then tot / 4 else addinc

-- `size` is the length of the key and the value.
unfoldable pub reserve : ℕ → Msg → Msg
reserve size m =
    if m.curr == 0
    then record m { addinc = buff_len; tot = size + add_len + buff_len; data_of = some [] }
    else let inc = next_addinc m.tot m.addinc in
      let wanted = m.len + size + add_len in
      record m { addinc = inc; tot = if ltb m.tot wanted then wanted + inc else m.tot }

unfoldable pub item : Bytes → Bytes → Bytes
item key value = key ++ 61 ∷ (be_bytes 8 (length value) ++ (replicate 8 0 ++ (value ++ 10 ∷ [])))

unfoldable pub append_item : Bytes → Msg → Msg
append_item new m =
    let len' = m.len + length new in
    record m {
      data_of = some (take len' (put (text m.data_of) m.curr new));
      len = len';
      curr = len';
    }

unfoldable pub write_ready : Bytes → Bytes → Msg → Result Error Msg
write_ready key value m =
    if ltb (length (text m.data_of)) m.len
    then error too_short
    else if not (all_bytes is_key_byte key)
    then error invalid_key
    else okay (append_item (item key value) (reserve (length key + length value) m))

unfoldable pub write_msg : Bytes → Bytes → Msg → Result Error Msg
write_msg key value m = elim (start_writing m) [
  | error e ↦ error e
  | okay m' ↦ write_ready key value m'
]

-- Reading

-- The key and the place and length of the value that one item holds, and where the next one
-- starts.
pub record Parsed : Type 0 where
  status : Status
  key : Bytes
  value_at : ℕ
  value_len : ℤ
  next : ℕ
  marked : Bytes

unfoldable pub failed : Status → Bytes → Parsed
failed s d = record { status = s; key = []; value_at = 0; value_len = pos 0; next = 0; marked = d }

-- The end of an item, at `ends`, which has to be a newline or a NUL.
unfoldable pub close_item : Bytes → Bytes → ℕ → ℤ → ℕ → Parsed
close_item d key value_at value_len ends = elim (drop ends d) [
  | [] ↦ record {
    status = okay_read;
    key = key;
    value_at = value_at;
    value_len = value_len;
    next = suc ends;
    marked = d;
  }
  | b ∷ _ ↦
      if (b == 10) || (b == 0)
      then record {
        status = okay_read;
        key = key;
        value_at = value_at;
        value_len = value_len;
        next = suc ends;
        marked = put d ends (0 ∷ []);
      }
      else failed err_length d
]

-- The value of `vl` bytes from `value_at` on, where `vl` turns into a signed number. The byte
-- behind a value of a length below 0 is in front of it.
unfoldable pub parse_value : Bytes → Bytes → ℕ → ℕ → ℕ → Parsed
parse_value d key value_at len vl =
    if ltb vl (2 ^ 63)
    then if ltb len vl
      then failed err_length d
      else close_item d key value_at (pos vl) (value_at + vl)
    else if ltb value_at (2 ^ 64 - vl)
    then failed outside d
    else close_item d key value_at (negsuc (2 ^ 64 - vl - 1)) (value_at - (2 ^ 64 - vl))

-- What follows the separator at `sep`, with `len` bytes behind it.
unfoldable pub parse_length : Bytes → Bytes → ℕ → ℕ → Parsed
parse_length d key sep len =
    if ltb len align
    then failed err_format d
    else parse_value d key (sep + 1 + align) (len - align) (from_be (take 8 (drop (sep + 1) d)))

-- `left` is the key without the white space in front. It loses the white space behind; the NUL that
-- ends it takes the place of that and of the separator.
unfoldable pub end_key : Bytes → ℕ → ℕ → ℕ → Bytes → Parsed
end_key d curr eq len left =
    let key = trim_right left in
    let ends = curr + (eq - length left) + length key in
    parse_length (put d ends (replicate (curr + eq + 1 - ends) 0)) key (curr + eq) (len - (eq + 1))

unfoldable pub parse_key : Bytes → ℕ → ℕ → ℕ → Parsed
parse_key d curr eq len = end_key d curr eq len (trim_left (take eq (drop curr d)))

-- The NUL that is written behind the message, where the message's memory does not end there.
unfoldable pub cap : Bytes → ℕ → Bytes
cap d end = if ltb end (length d) then put d end (0 ∷ []) else d

-- `len` is the length of what is left of the message.
unfoldable pub parse_from : Bytes → ℕ → ℕ → Parsed
parse_from d curr len = elim (find_separator (take len (drop curr d))) [
  | none ↦ failed err_format d
  | some eq ↦ parse_key d curr eq len
]

-- A message that is read behind its end, where its memory need not go on.
unfoldable pub parse_item : Bytes → ℕ → ℕ → Parsed
parse_item d curr end =
    if ltb end curr then failed outside d else parse_from (cap d end) curr (end - curr)

abbrev pub comment : Bytes
comment = codes "comment"

-- What reading returns: a status, the key, and the value as a place in the message's memory.
pub record Reading : Type 0 where
  status : Status
  key : Bytes
  value_at : ℕ
  value_len : ℤ
  msg : Msg

abbrev pub no_value : Status → Msg → Reading
no_value s m = record { status = s; key = []; value_at = 0; value_len = pos 0; msg = m }

-- The header that rim_mem_add_const writes in front of a value, the number -1 and the length,
-- lowest byte first.
unfoldable pub header : ℤ → Bytes
header (pos n) = replicate 8 255 ++ le_bytes 8 (n + 1)
header (negsuc n) = replicate 8 255 ++ le_bytes 8 (2 ^ 64 - n)

unfoldable pub deliver : Msg → Parsed → Reading
deliver m p = record {
  status = okay_read;
  key = p.key;
  value_at = p.value_at;
  value_len = p.value_len;
  msg = record m {
    data_of = some (put p.marked (p.value_at - align) (header p.value_len));
    curr = p.next;
  };
}

-- The message behind a parsed item.
unfoldable pub skip : Msg → Parsed → Msg
skip m p = record m { data_of = some p.marked; curr = p.next }

-- What a round returns, `later` being what the following rounds do: a key `comment` is skipped.
unfoldable pub judge : Msg → Parsed → Reading → Reading
judge m p later = elim p.status [
  | okay_read ↦ if equal_bytes p.key comment then later else deliver m p
  | s ↦ no_value s (record m { data_of = some p.marked })
]

unfoldable pub read_items : ℕ → Msg → Reading
read_items zero m = no_value unfinished m
read_items (suc fuel) m =
    let p = parse_item (text m.data_of) m.curr m.len in judge m p (read_items fuel (skip m p))

unfoldable pub start_reading : Msg → Msg
start_reading m = elim m.mode [ mode_read ↦ m | _ ↦ record m { curr = 0; mode = mode_read } ]

unfoldable pub read_ready : Msg → Reading
read_ready m =
    if ltb (length (text m.data_of)) m.len
    then no_value err_length m
    else if leb m.len m.curr
    then no_value err_length m
    else read_items (suc (length (text m.data_of))) m

unfoldable pub read_msg : Msg → Reading
read_msg m = read_ready (start_reading m)
