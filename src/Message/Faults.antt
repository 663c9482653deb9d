-- ===== src/Message/Faults.antt =====
-- msg.c: messages that reading takes for something else, and refused writes.
use rimstone.Base.{
  ℕ, suc, ◌-◌, ◌≡◌, refl, sym, ap, ◌≢◌, ◌∙◌, inl, inr, true, false, List, [], ◌∷◌, ◌++◌, arith,
  replicate, length, le→ltb-false,
}
use rimstone.Base.Results.{error, okay, negsuc}
use rimstone.Base.Words.{Bytes}
use rimstone.Message.{
  okay_read, err_format, Msg, mode_read, read_before_write, invalid_key, text, start_writing,
  write_ready, write_msg, read_msg, start_reading,
}
use rimstone.Message.Fields.{put, is_key_byte, all_bytes}
use rimstone.Message.Items.{visible, Holds, no_more, next}
use rimstone.Message.{Parsed}
use rimstone.Message.Head.{trim, value_place, ended}
use rimstone.Message.Writing.{IsWriting, IsOpen, start-IsWriting}
use rimstone.Message.Reads.{read_ready-Outcome}

pub cons_left : {x : Bytes × Bytes} {xs : List (Bytes × Bytes)} → x ∷ xs ≢ []
cons_left {x} {xs} e = absurd {A = ⊥} (omega (arith, ap length e))

-- A message that holds items, all of them comments, is read with the status of a message of bad
-- format, and not with that of a message that has been read to its end.
pub read_msg-comments :
    (items : List (Bytes × Bytes)) (m : Msg)
    → Holds items (start_reading m)
    → items ≢ []
    → visible items ≡ []
    → (read_msg m).status ≡ err_format
unfolding read_msg
read_msg-comments items m h some_left none_shown =
    elim (read_ready-Outcome items (start_reading m) h) [
      | inl (none_left, _) ↦ absurd (some_left none_left)
      | inr (no_more e _) ↦ e
      | inr (next key value later shown _ _) ↦ absurd (cons_left (sym shown ∙ none_shown))
    ]

refused :
    (m m' : Msg) (t key value : Bytes)
    → start_writing m ≡ okay m'
    → IsWriting t m'
    → all_bytes is_key_byte key ≡ false
    → write_msg key value m ≡ error invalid_key
unfolding write_msg write_ready
refused m m' t key value started h improper =
    rw (started, write_msg)
      (rw
        (
          le→ltb-false (length (text m'.data_of)) m'.len
              (omega (arith, ap length h.contents, h.len)),
          improper,
        )
        refl)

-- Writing to a message that is being read ends in an error, and so does, for a message that may be
-- written to, a key that has another byte than a key may have.
pub write_msg-refused :
    (t key value : Bytes) (m m' : Msg)
    → m.mode ≡ mode_read
    → IsOpen t m'
    → all_bytes is_key_byte key ≡ false
    → (write_msg key value m ≡ error read_before_write)
      × (write_msg key value m' ≡ error invalid_key)
unfolding write_msg start_writing
write_msg-refused t key value m m' reading h improper =
    let (m0, started, writing) = start-IsWriting t m' h in
    (rw reading refl, refused m' m0 t key value started writing improper)

-- The text of a message whose only key has the length -1.
abbrev pub negative : Bytes → Bytes → Bytes
negative key rest = key ++ 61 ∷ (replicate 8 255 ++ (replicate 8 0 ++ rest))

module _ (key rest : Bytes) (proper : all_bytes is_key_byte key ≡ true) where
  abbrev d : Bytes
  d = negative key rest

  abbrev place : ℕ
  place = value_place 0 key

  abbrev taken : Parsed
  taken = record {
    status = okay_read;
    key = trim key;
    value_at = place;
    value_len = negsuc 0;
    next = suc (place - 1);
    marked = put (ended d 0 key) (place - 1) (0 ∷ []);
  }
