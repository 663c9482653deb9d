-- ===== src/Message/Reads.antt =====
-- msg.c: a sequence of reads of a message.
use rimstone.Base.{
  ℕ, zero, suc, ◌≤◌, ◌<◌, ◌≡◌, refl, sym, ap, ap₂, subst, ◌∙◌, ◌⊎◌, inl, inr, List, [], ◌∷◌, arith,
  length, length-append, leb, le→ltb-false, Bool-cases, leb→le,
}
use rimstone.Base.Results.{pos, negsuc}
use rimstone.Base.Words.{Bytes}
use rimstone.Message.{
  okay_read, err_length, err_format, Msg, Mode, Reading, mode_none, mode_read, mode_write, text,
  item, read_ready, read_msg, start_reading,
}
use rimstone.Message.Memory.{slice, length-drop}
use rimstone.Message.Item.{length-item}
use rimstone.Message.Items.{
  written, visible, Holds, Delivered, Outcome, no_more, next, read_items-Outcome,
}

-- The value that a reading hands out, a value of a length below 0 being none.
abbrev pub value_of : Reading → Bytes
value_of r = elim r.value_len [ pos n ↦ slice r.value_at n (text r.msg.data_of) | negsuc _ ↦ [] ]

-- What a reading adds to those that follow it.
unfoldable pub collect : Reading → List (Bytes × Bytes) → List (Bytes × Bytes)
collect r later = elim r.status [ okay_read ↦ (r.key, value_of r) ∷ later | _ ↦ [] ]

-- `n` reads, up to the first that fails.
unfoldable pub reads : ℕ → Msg → List (Bytes × Bytes)
reads zero m = []
reads (suc n) m = let r = read_msg m in collect r (reads n r.msg)

length-written : (items : List (Bytes × Bytes)) → length items ≤ length (written items)
unfolding written
length-written [] = omega arith
length-written ((key, value) ∷ items) = omega (
  arith,
  length-append (item key value) (written items),
  length-item key value,
  length-written items,
)

at_end-none : (items : List (Bytes × Bytes)) (m : Msg) → Holds items m → m.len ≤ m.curr → items ≡ []
at_end-none [] m h e = refl
at_end-none (i ∷ items) m h e = absurd (
    omega (
      arith,
      length-written (i ∷ items),
      ap length h.holds,
      length-drop m.curr (text m.data_of),
      h.whole,
      e,
    ))

-- Reading at a place where the message holds `items`.
pub read_ready-Outcome :
    (items : List (Bytes × Bytes)) (m : Msg)
    → Holds items m
    → ((items ≡ []) × ((read_ready m).status ≡ err_length)) ⊎ Outcome items m (read_ready m)
unfolding read_ready
read_ready-Outcome items m h =
    rw (le→ltb-false (length (text m.data_of)) m.len (omega (arith, h.whole)))
      (elim (Bool-cases (leb m.len m.curr)) [
        | inl e ↦ rw e (inl (at_end-none items m h (leb→le m.len m.curr e), refl))
        | inr e ↦ rw e (
            inr (
              read_items-Outcome (suc (length (text m.data_of))) items m h (
                omega (
                  arith,
                  length-written items,
                  ap length h.holds,
                  length-drop m.curr (text m.data_of),
                ))))
      ])

collect-length :
    (r : Reading) (later : List (Bytes × Bytes)) → r.status ≡ err_length → collect r later ≡ []
unfolding collect
collect-length r later e = rw e refl

collect-format :
    (r : Reading) (later : List (Bytes × Bytes)) → r.status ≡ err_format → collect r later ≡ []
unfolding collect
collect-format r later e = rw e refl

collect-Delivered :
    {key value : Bytes} {items : List (Bytes × Bytes)} {m : Msg} (r : Reading)
    (later : List (Bytes × Bytes))
    → Delivered key value items m r
    → collect r later ≡ (key, value) ∷ later
unfolding collect
collect-Delivered {key} {value} r later d =
    rw d.status (ap₂ (λ k v. (k, v) ∷ later) d.key_read (rw d.value_len d.value_read))

pub start-read : (m : Msg) → m.mode ≡ mode_read → start_reading m ≡ m
unfolding start_reading
start-read m e = rw e refl

pub mode_cases : (x : Mode) → (x ≡ mode_none) ⊎ ((x ≡ mode_read) ⊎ (x ≡ mode_write))
mode_cases mode_none = inl refl
mode_cases mode_read = inr (inl refl)
mode_cases mode_write = inr (inr refl)

pub start-mode : (m : Msg) → (start_reading m).mode ≡ mode_read
unfolding start_reading
start-mode m = elim (mode_cases m.mode) [
  | inl e ↦ rw e refl
  | inr (inl e) ↦ rw e refl
  | inr (inr e) ↦ rw e refl
]

pub reads-visible :
    (n : ℕ) (items : List (Bytes × Bytes)) (m : Msg)
    → Holds items (start_reading m)
    → length (visible items) < n
    → reads n m ≡ visible items
unfolding reads read_msg visible
reads-visible zero items m h more = absurd (omega arith)
reads-visible (suc n) items m h more = elim (read_ready-Outcome items (start_reading m) h) [
  | inl (none_left, e) ↦ collect-length (read_msg m) _ e ∙ rw none_left refl
  | inr (no_more e none_left) ↦ collect-format (read_msg m) _ e ∙ sym none_left
  | inr (next key value later shown shorter d) ↦
      collect-Delivered (read_msg m) _ d
      ∙ ap (◌∷◌ (key, value)) (
          reads-visible n later (read_msg m).msg
            (subst (Holds later) (sym (start-read _ (d.mode ∙ start-mode m))) d.left)
            (omega (arith, ap length shown)))
      ∙ sym shown
]
