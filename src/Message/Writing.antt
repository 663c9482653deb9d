-- ===== src/Message/Writing.antt =====
-- msg.c: what writing adds to a message, and that it fits the memory.
use rimstone.Base.{
  ℕ, ◌+◌, ◌<◌, ◌≡◌, refl, sym, ap, ap₂, subst, ◌∙◌, ◌⊎◌, inl, inr, true, List, [], ◌∷◌, ◌++◌, arith,
  length, take, length-append, append_assoc, append-nil, take-all, ltb, ◌==◌, le→ltb-false,
  if◌then◌else◌, Bool-cases, ==→≡,
}
use rimstone.Base.Results.{Result, okay, bind}
use rimstone.Base.Words.{Bytes}
use rimstone.Message.{
  Msg, Error, mode_none, mode_write, text, item, init_msg, start_writing, reserve, append_item,
  write_ready, write_msg,
}
use rimstone.Message.Fields.{put, is_key_byte, all_bytes}
use rimstone.Message.Memory.{put_end}
use rimstone.Message.Item.{length-item}
use rimstone.Message.Items.{written, AreWritable}

-- A message being written that holds the text `t`.
pub record IsWriting (t : Bytes) (m : Msg) : Type 0 where
  pub mode : m.mode ≡ mode_write
  pub contents : text m.data_of ≡ t
  pub len : m.len ≡ length t
  pub curr : m.curr ≡ m.len

unfoldable pub writes : List (Bytes × Bytes) → Msg → Result Error Msg
writes [] m = okay m
writes ((key, value) ∷ items) m = bind (write_msg key value m) (writes items)

no_text : (t : Bytes) → length t ≡ 0 → [] ≡ t
no_text [] h = refl
no_text (b ∷ t) h = absurd (omega arith)

enough :
    (tot wanted inc : ℕ) → wanted + 18 < (if ltb tot (wanted + 30) then wanted + 30 + inc else tot)
enough tot wanted inc = ground arith

reserved :
    (t : Bytes) (size : ℕ) (m : Msg)
    → IsWriting t m
    → IsWriting t (reserve size m) × (m.len + size + 18 < (reserve size m).tot)
unfolding reserve
reserved t size m h = elim (Bool-cases (m.curr == 0)) [
  | inl e ↦
      let none_yet : m.len ≡ 0 = sym h.curr ∙ ==→≡ m.curr 0 e in
      rw e (
        record {
          mode = h.mode;
          contents = no_text t (sym h.len ∙ none_yet);
          len = h.len;
          curr = h.curr;
        },
        omega (arith, none_yet),
      )
  | inr e ↦ rw e (
    record { mode = h.mode; contents = h.contents; len = h.len; curr = h.curr },
    enough m.tot (m.len + size) _,
  )
]

appended :
    (t : Bytes) (m : Msg) (new : Bytes) → IsWriting t m → IsWriting (t ++ new) (append_item new m)
unfolding append_item
appended t m new h = record {
  mode = h.mode;
  contents =
      ap (take (m.len + length new))
        (ap₂ (λ d i. put d i new) h.contents (h.curr ∙ h.len) ∙ put_end t new)
      ∙ take-all (m.len + length new) (t ++ new) (omega (arith, length-append t new, h.len));
  len = omega (arith, length-append t new, h.len);
  curr = refl;
}

fits :
    (key value : Bytes) (m : Msg)
    → m.len + (length key + length value) + 18 < (reserve (length key + length value) m).tot
    → (reserve (length key + length value) m).len ≡ m.len
    → (append_item (item key value) (reserve (length key + length value) m)).len
      < (append_item (item key value) (reserve (length key + length value) m)).tot
unfolding append_item
fits key value m room same = omega (arith, length-item key value)

write_ready-IsWriting :
    (t key value : Bytes) (m : Msg)
    → IsWriting t m
    → all_bytes is_key_byte key ≡ true
    → (m' : Msg) × (write_ready key value m ≡ okay m')
      × IsWriting (t ++ item key value) m'
      × (m'.len < m'.tot)
unfolding write_ready
write_ready-IsWriting t key value m h proper =
    let (writing, room) = reserved t (length key + length value) m h in
    (
      append_item (item key value) (reserve (length key + length value) m),
      rw
          (
            le→ltb-false (length (text m.data_of)) m.len
                (omega (arith, ap length h.contents, h.len)),
            proper,
          )
          refl,
      appended t (reserve (length key + length value) m) (item key value) writing,
      fits key value m room (writing.len ∙ sym h.len),
    )

-- A message that holds the text `t` and may be written to.
unfoldable pub IsOpen : Bytes → Msg → Type 0
IsOpen t m = IsWriting t m ⊎ ((m.mode ≡ mode_none) × (t ≡ []) × (text m.data_of ≡ []) × (m.len ≡ 0))

pub IsOpen-writing : {t : Bytes} {m : Msg} → IsWriting t m → IsOpen t m
unfolding IsOpen
IsOpen-writing h = inl h

pub start-IsWriting :
    (t : Bytes) (m : Msg) → IsOpen t m → (m' : Msg) × (start_writing m ≡ okay m') × IsWriting t m'
unfolding start_writing IsOpen init_msg
start-IsWriting t m (inl h) = (m, rw h.mode refl, h)
start-IsWriting t m (inr (fresh, empty, _, _)) = (
  record (init_msg m) { mode = mode_write },
  rw fresh refl,
  record { mode = refl; contents = sym empty; len = rw empty refl; curr = refl },
)

pub write_msg-IsWriting :
    (t key value : Bytes) (m : Msg)
    → IsOpen t m
    → all_bytes is_key_byte key ≡ true
    → (m' : Msg) × (write_msg key value m ≡ okay m')
      × IsWriting (t ++ item key value) m'
      × (m'.len < m'.tot)
unfolding write_msg
write_msg-IsWriting t key value m h proper =
    let (m0, started, writing) = start-IsWriting t m h in
    let (m', e, written, room) = write_ready-IsWriting t key value m0 writing proper in
    (m', rw (started, write_msg) e, written, room)

pub writes-IsOpen :
    (items : List (Bytes × Bytes)) (t : Bytes) (m : Msg)
    → IsOpen t m
    → AreWritable items
    → (m' : Msg) × (writes items m ≡ okay m') × IsOpen (t ++ written items) m'
unfolding writes AreWritable written
writes-IsOpen [] t m h ok = (m, refl, subst (λ s. IsOpen s m) (sym (append-nil t)) h)
writes-IsOpen ((key, value) ∷ items) t m h ((proper, small), ok) =
    let (m1, e1, writing, _) = write_msg-IsWriting t key value m h proper in
    let (m', e, rest) = writes-IsOpen items (t ++ item key value) m1 (IsOpen-writing writing) ok in
    (
      m',
      rw (e1, writes) e,
      subst (λ s. IsOpen s m') (append_assoc t (item key value) (written items)) rest,
    )
