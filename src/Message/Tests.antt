-- ===== src/Message/Tests.antt =====
-- Runs of messages, and the theorems at concrete ones.
use rimstone.Base.{◌≡◌, refl, ap, false, none, some, List, [], ◌∷◌, arith, length}
use rimstone.Base.Results.{okay}
use rimstone.Base.Words.{Bytes, codes, equal_bytes, is_alnum}
use rimstone.Message.{Msg, mode_read, new_msg, get_msg}
use rimstone.Message.Fields.{is_key_byte, all_bytes, is_space, trim_left, trim_right, keep}
use rimstone.Message.Items.{visible, AreWritable}
use rimstone.Message.Writing.{writes}
use rimstone.Message.Reads.{reads}
use rimstone.Message.RoundTrip.{writes-reads}

abbrev name : Bytes
name = codes " name "

abbrev remark : Bytes
remark = codes "comment"

-- A value that holds the separator, a newline and a NUL.
abbrev value : Bytes
value = 61 ∷ 10 ∷ 0 ∷ 200 ∷ []

abbrev entries : List (Bytes × Bytes)
entries = (name, value) ∷ (remark, value) ∷ (codes "id", []) ∷ []

entries-AreWritable : AreWritable entries
unfolding AreWritable all_bytes is_key_byte is_space is_alnum
entries-AreWritable = ((refl, omega arith), ((refl, omega arith), ((refl, omega arith), tt)))

entries-visible : visible entries ≡ (codes "name", value) ∷ (codes "id", []) ∷ []
unfolding visible equal_bytes trim_left trim_right is_space keep
entries-visible = refl

separator-improper : all_bytes is_key_byte (61 ∷ []) ≡ false
unfolding all_bytes is_key_byte is_space is_alnum
separator-improper = refl

received : (new_msg 7 (some none)).mode ≡ mode_read
unfolding new_msg
received = refl

writes-reads_example :
    (m : Msg) × (writes entries (new_msg 7 none) ≡ okay m)
    × (reads 3 m ≡ visible entries)
    × (reads 3 (new_msg 9 (some (some (get_msg m).0))) ≡ visible entries)
writes-reads_example =
    writes-reads 7 9 3 entries entries-AreWritable (omega (arith, ap length entries-visible))

abbrev remarks : List (Bytes × Bytes)
remarks = (remark, value) ∷ []

remarks-AreWritable : AreWritable remarks
unfolding AreWritable all_bytes is_key_byte is_space is_alnum
remarks-AreWritable = ((refl, omega arith), tt)

remarks-hidden : visible remarks ≡ []
unfolding visible equal_bytes trim_left trim_right is_space keep
remarks-hidden = refl
