-- ===== src/Message/RoundTrip.antt =====
-- msg.c: what is written into a message is read from it.
use rimstone.Base.{
  ℕ, ◌<◌, ◌≡◌, refl, sym, ap, subst, ◌≢◌, ◌∙◌, inl, inr, Bool, true, false, none, some, List, [],
  arith, length, take-all, Option-cases,
}
use mathlib.Core.Bool.{true≢false}
use rimstone.Base.Results.{okay}
use rimstone.Base.Words.{Bytes}
use rimstone.Message.{Msg, Mode, mode_read, text, new_msg, init_msg, get_msg, start_reading}
use rimstone.Message.Items.{written, visible, AreWritable, Holds}
use rimstone.Message.Writing.{writes, IsOpen, writes-IsOpen}
use rimstone.Message.Reads.{reads, reads-visible, mode_cases}

start-rewind :
    (m : Msg) → m.mode ≢ mode_read → start_reading m ≡ record m { curr = 0; mode = mode_read }
unfolding start_reading
start-rewind m other = elim (mode_cases m.mode) [
  | inl e ↦ rw e refl
  | inr (inl e) ↦ absurd (other e)
  | inr (inr e) ↦ rw e refl
]

is_reading : Mode → Bool
is_reading mode_read = true
is_reading _ = false

-- A message that may be written to is not being read, and holds its text.
pub open-text :
    (t : Bytes) (m : Msg)
    → IsOpen t m
    → (m.mode ≢ mode_read) × (text m.data_of ≡ t) × (m.len ≡ length t)
unfolding IsOpen is_reading
open-text t m (inl h) = (λ e. true≢false (ap is_reading (sym e ∙ h.mode)), h.contents, h.len)
open-text t m (inr (fresh, empty, bare, none_yet)) =
    (λ e. true≢false (ap is_reading (sym e ∙ fresh)), bare ∙ sym empty, none_yet ∙ rw empty refl)

pub open-Holds :
    (items : List (Bytes × Bytes)) (m : Msg)
    → IsOpen (written items) m
    → AreWritable items
    → Holds items (start_reading m)
open-Holds items m h ok =
    let (mode, contents, len) = open-text (written items) m h in
    subst (Holds items) (sym (start-rewind m mode)) (record {
      holds = contents;
      whole = len ∙ ap length (sym contents);
      within = omega arith;
      writable = ok;
    })

get_msg-text : (t : Bytes) (m : Msg) → text m.data_of ≡ t → m.len ≡ length t → (get_msg m).0 ≡ t
unfolding get_msg
get_msg-text t m h e = elim (Option-cases m.data_of) [
  | inl none_there ↦ rw none_there (ap text (sym none_there) ∙ h)
  | inr (bs, there) ↦ rw there (
      take-all m.len bs (omega (arith, ap length (ap text (sym there) ∙ h)))
      ∙ ap text (sym there)
      ∙ h)
]

pub received-Holds :
    (tot : ℕ) (items : List (Bytes × Bytes)) (t : Bytes)
    → t ≡ written items
    → AreWritable items
    → Holds items (start_reading (new_msg tot (some (some t))))
unfolding new_msg init_msg start_reading
received-Holds tot items t h ok = record {
  holds = h;
  whole = refl;
  within = omega arith;
  writable = ok;
}

pub new-IsOpen : (tot : ℕ) → IsOpen [] (new_msg tot none)
unfolding IsOpen new_msg init_msg
new-IsOpen tot = inr (refl, refl, refl, refl)

-- Where keys and values are written to a new message, the keys having no other bytes than a key may
-- have and the values being shorter than 2 ^ 63, every write succeeds; and the reads that follow
-- return the values written, in order, under their keys without the white space around them,
-- except those with the key `comment`, and then fail. The same is read from a message that is
-- made of the text that get-message takes out.
pub writes-reads :
    (tot tot' n : ℕ) (items : List (Bytes × Bytes))
    → AreWritable items
    → length (visible items) < n
    → (m : Msg) × (writes items (new_msg tot none) ≡ okay m)
      × (reads n m ≡ visible items)
      × (reads n (new_msg tot' (some (some (get_msg m).0))) ≡ visible items)
writes-reads tot tot' n items ok more =
    let (m, e, h) = writes-IsOpen items [] (new_msg tot none) (new-IsOpen tot) ok in
    let (_, contents, len) = open-text (written items) m h in
    (
      m,
      e,
      reads-visible n items m (open-Holds items m h ok) more,
      reads-visible n items (new_msg tot' (some (some (get_msg m).0)))
          (received-Holds tot' items (get_msg m).0 (get_msg-text (written items) m contents len) ok)
          more,
    )
