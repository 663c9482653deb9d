-- ===== src/Memory/Realloc.antt =====
-- rimmem.c: rim_realloc, in a well-formed table.
use rimstone.Base.{
  ℕ, ◌≡◌, refl, sym, ap, subst, fun_ext, ◌∙◌, ◌≢◌, Bool, true, false, ◌||◌, none, some, List,
  if◌then◌else◌, ≢→==-false, or_true,
}
use mathlib.Core.Option.{some-injective}
use rimstone.Base.Results.{okay}
use rimstone.Memory.{set_len, Entry, Mem, put, id_at, release}
use rimstone.Memory.Growing.{
  move, get_process, set_status, is_at, take_out, make_status, put_in, after_take_out, move_entry,
  realloc,
}
use rimstone.Memory.Chain.{put_self, put_other}
use rimstone.Memory.Valid.{IsLoose, IsValid, IsLive, none_loose, at_or_other, owner-apart}
use rimstone.Memory.Open.{open-free, open-process}
use rimstone.Memory.Close.{close-free}
use rimstone.Memory.Held.{IsHeld, held-id, held-loose, held-release, held-open-free}
use rimstone.Memory.Take.{del_ord-Deleted}
use rimstone.Memory.Give.{held-ordinary}
use rimstone.Memory.Alloc.{placed, filled, filled-IsValid, filled-IsHeld, filled-kept, filled-head}
use rimstone.Memory.Malloc.{add_mem-free}
use rimstone.Memory.Refs.{with_ref, ref-IsValid, ref-IsHeld, ref-kept}
use rimstone.Memory.Move.{moved, move-moved, apart, moved-IsValid, moved-kept}

-- A status that an entry has already.
make_status_self :
    (proc : Bool) (r : ℕ) (m : Mem) → (m.vm r).is_process ≡ proc → make_status proc r m ≡ m
unfolding make_status set_status
make_status_self false r m e = refl
make_status_self true r m e =
    ap (λ vm. record m { vm = vm })
      (fun_ext (
        at_or_other (λ i. put m.vm r _ i ≡ m.vm i) r (put_self m.vm r _ ∙ same)
          (λ i other. put_other m.vm r _ i other)))
  where
    or_false : (b : Bool) → (b || false) ≡ b
    or_false true = refl
    or_false false = refl

    same :
        record (m.vm r) {
          is_file = (m.vm r).is_file || false;
          is_dir = (m.vm r).is_dir || false;
          is_process = (m.vm r).is_process || true;
        }
        ≡ m.vm r
    same =
        ap
          (λ b. record (m.vm r) {
            is_file = b;
            is_dir = (m.vm r).is_dir || false;
            is_process = (m.vm r).is_process || true;
          })
          (or_false (m.vm r).is_file)
        ∙ ap (λ b. record (m.vm r) { is_dir = b; is_process = (m.vm r).is_process || true })
            (or_false (m.vm r).is_dir)
        ∙ ap (λ b. record (m.vm r) { is_process = b }) (or_true (m.vm r).is_process ∙ sym e)

-- What putting a block in again gives.
pub record Placed (grows : Bool) (q size count : ℕ) (rest unused : List ℕ) (m : Mem) (f : ℕ)
    : Type 0 where
  pub state : Mem
  pub returns : put_in grows m.process count size q (release f m) ≡ okay (q, state)
  pub valid : IsValid (placed m.process f rest) unused state
  pub held : IsHeld none unused state q m.process count
  pub kept :
      {p : ℕ} {proc : Bool} {number : ℕ}
      → p ≢ q
      → IsHeld (some f) unused m p proc number
      → IsHeld none unused state p proc number

-- The entry `f` is out of every list and leads to the block at `q`, which is to get an entry again.
module _ (grows : Bool) (f q size count : ℕ) (rest unused : List ℕ) (m : Mem)
    (loose : IsLoose (some f) rest unused m) (points : (m.vm f).ptr ≡ some q)
    (lives : IsLive m f) where
  open_again : Mem
  unfolding release
  open_again = record (release f m) { first_free = ((release f m).vm f).next }

  again-IsLoose : IsLoose (some f) rest unused open_again
  unfolding open_again release
  again-IsLoose = open-free f rest unused (release f m) (close-free f rest unused m loose)

  new : (i : ℕ) → i ≢ f → IsLive open_again i → (open_again.vm i).ptr ≢ some q
  unfolding open_again release
  new i other live_i =
      owner-apart open_again q f i (ap (λ p. id_at p m.heap) (sym points) ∙ lives) other live_i

  abbrev again : Mem
  again = filled f rest unused q size open_again again-IsLoose new

  abbrev back : Mem
  back = with_ref f count again

  again-held : IsHeld none unused again q m.process 0
  unfolding open_again release
  again-held = filled-IsHeld f rest unused q size open_again again-IsLoose new

  again-IsValid : IsValid (placed m.process f rest) unused again
  unfolding open_again release
  again-IsValid = filled-IsValid f rest unused q size open_again again-IsLoose new

  again-index : again-held.index ≡ f
  unfolding id_at
  again-index = some-injective again-held.index f (
      sym (held-id again (placed m.process f rest) again-IsValid again-held)
      ∙ rw (filled-head f rest unused q size open_again again-IsLoose new, id_at) refl)

  back-IsValid : IsValid (placed m.process f rest) unused back
  back-IsValid = ref-IsValid f count (placed m.process f rest) unused again again-IsValid

  back-IsHeld : IsHeld none unused back q m.process count
  back-IsHeld =
      subst (λ i. IsHeld none unused (with_ref i count again) q m.process count) again-index
        (ref-IsHeld count unused again again-held)

  back-kept :
      {p : ℕ} {proc : Bool} {number : ℕ}
      → p ≢ q
      → IsHeld (some f) unused m p proc number
      → IsHeld none unused back p proc number
  unfolding open_again release
  back-kept {p = p} other held =
      ref-kept f count unused again
        (λ e. other (
          sym (
            some-injective q p
              (sym (ap (λ i. (again.vm i).ptr) (sym again-index) ∙ again-held.points) ∙ e))))
        (filled-kept f rest unused q size open_again again-IsLoose new
          (held-open-free f (release f m) (held-release f m held)))

  put_in-back : put_in grows m.process count size q (release f m) ≡ okay (q, back)
  unfolding put_in release open_again
  put_in-back =
      rw (add_mem-free grows q f (release f m) refl, put_in)
        (ap (λ k. okay (q, with_ref f count k))
          (make_status_self m.process f again
            (ap (λ i. (again.vm i).is_process) (sym again-index) ∙ again-held.process)))

  pub put_in-Placed : Placed grows q size count rest unused m f
  put_in-Placed = record {
    state = back;
    returns = put_in-back;
    valid = back-IsValid;
    held = back-IsHeld;
    kept = λ other held. back-kept other held;
  }

-- The entry of a block that moved, out of its list.
record Out (proc : Bool) (r q : ℕ) (unused : List ℕ) (m : Mem) : Type 0 where
  first : ℕ
  rest : List ℕ
  state : Mem
  returns : take_out proc r m ≡ okay (first, state)
  loose : IsLoose (some first) rest unused state
  points : (state.vm first).ptr ≡ some q
  lives : IsLive state first
  mode : state.process ≡ m.process
  kept :
      {p : ℕ} {process : Bool} {count : ℕ}
      → p ≢ q
      → IsHeld none unused m p process count
      → IsHeld (some first) unused state p process count

take_out-Out :
    (proc : Bool) {count : ℕ} (q : ℕ) (ord unused : List ℕ) (m : Mem)
    → IsValid ord unused m
    → (h : IsHeld none unused m q proc count) → Out proc h.index q unused m
unfolding take_out
take_out-Out true q ord unused m valid h = record {
  first = h.index;
  rest = ord;
  state = m;
  returns = refl;
  loose = open-process h.index ord unused m valid h.inside h.process;
  points = h.points;
  lives = valid.live h.index h.inside none_loose h.used;
  mode = refl;
  kept = λ {p} other held.
      held-loose h.index m (λ e. other (sym (some-injective q p (sym h.points ∙ e)))) held;
}
take_out-Out false q ord unused m valid h =
    let t = del_ord-Deleted h.index ord unused m valid (held-ordinary ord unused m valid h) in
    record {
      first = t.first;
      rest = t.rest;
      state = t.state;
      returns = t.returns;
      loose = t.detached.loose;
      points = t.detached.ptr ∙ h.points;
      lives = t.detached.lives;
      mode = t.detached.mode;
      kept = λ {p} other held.
          t.detached.kept (λ e. other (sym (some-injective q p (sym h.points ∙ e)))) held;
    }

module _ {x : ℕ} (grows : Bool) (q size : ℕ) (ord unused : List ℕ) (m : Mem) {proc : Bool}
    {count : ℕ} (valid : IsValid ord unused m) (h : IsHeld none unused m x proc count)
    (fresh : m.heap q ≡ none) (mode : m.process ≡ proc) where
  abbrev there : Mem
  there = moved x q h.index ord unused m valid h.points h.used h.inside fresh

  abbrev there_held : IsHeld none unused there q proc count
  there_held = record {
    index = h.index;
    points = ap (λ (e : Entry). e.ptr) (put_self m.vm h.index _);
    used = h.used;
    inside = h.inside;
    tight = none_loose;
    process = ap (λ (e : Entry). e.is_process) (put_self m.vm h.index _) ∙ h.process;
    reference = ap (λ (e : Entry). e.ref) (put_self m.vm h.index _) ∙ h.reference;
  }

  abbrev out : Out proc h.index q unused there
  out =
      take_out-Out proc q ord unused there
        (moved-IsValid x q h.index ord unused m valid h.points h.used h.inside fresh) there_held

  abbrev home : Placed grows q size count out.rest unused out.state out.first
  home =
      put_in-Placed grows out.first q size count out.rest unused out.state out.loose out.points
        out.lives

  move_entry-home : move_entry grows h.index size q m ≡ okay (q, home.state)
  unfolding move_entry get_process after_take_out
  move_entry-home =
      ap
        (λ b.
          after_take_out grows b (m.vm h.index).ref size q (take_out b h.index (move h.index q m)))
        h.process
      ∙ ap (λ n. after_take_out grows proc n size q (take_out proc h.index (move h.index q m)))
          h.reference
      ∙ ap (λ g. after_take_out grows proc count size q (take_out proc h.index g))
          (move-moved x q h.index ord unused m valid h.points h.used h.inside fresh)
      ∙ ap (after_take_out grows proc count size q) out.returns
      ∙ ap (λ b. put_in grows b count size q (release out.first out.state)) (sym (out.mode ∙ mode))
      ∙ home.returns

  realloc-home : realloc grows (some h.index) size (some q) m ≡ okay (q, home.state)
  unfolding realloc is_at
  realloc-home =
      ap (λ b. if b then okay (q, set_len q size m) else move_entry grows h.index size q m)
        (ap (λ p. is_at p q) h.points
          ∙ ≢→==-false x q
              (λ e. apart x q h.index ord unused m valid h.points h.used h.inside fresh (sym e)))
      ∙ move_entry-home

-- In a well-formed table rim_realloc of a block that libc moves to a new address returns that
-- address, in a table that is well-formed again and in which the block keeps its bit for process
-- memory and its count, provided that rim_mem_process says what kind of block it is.
pub realloc-IsValid :
    (grows : Bool) (x q size : ℕ) (ord unused : List ℕ) (m : Mem) (proc : Bool) (count : ℕ)
    → IsValid ord unused m
    → (h : IsHeld none unused m x proc count) → m.heap q ≡ none
    → m.process ≡ proc
    → (g : Mem) × (ords : List ℕ) × (realloc grows (some h.index) size (some q) m ≡ okay (q, g))
      × IsValid ords unused g
      × IsHeld none unused g q proc count
realloc-IsValid grows x q size ord unused m proc count valid h fresh mode =
    let o = out grows q size ord unused m valid h fresh mode in
    let a = home grows q size ord unused m valid h fresh mode in
    (
      a.state,
      placed o.state.process o.first o.rest,
      realloc-home grows q size ord unused m valid h fresh mode,
      a.valid,
      subst (λ b. IsHeld none unused a.state q b count) (o.mode ∙ mode) a.held,
    )

-- In a well-formed table rim_realloc of a block that libc moves to a new address, where
-- rim_mem_process says what kind of block it is, leaves every other block held as it was.
pub realloc-IsHeld :
    (grows : Bool) (x q size : ℕ) (ord unused : List ℕ) (m : Mem) (proc : Bool) (count p : ℕ)
    (other : Bool) (number : ℕ)
    → IsValid ord unused m
    → (h : IsHeld none unused m x proc count) → m.heap q ≡ none
    → m.process ≡ proc
    → p ≢ x
    → p ≢ q
    → IsHeld none unused m p other number
    → (g : Mem) × (realloc grows (some h.index) size (some q) m ≡ okay (q, g))
      × IsHeld none unused g p other number
realloc-IsHeld grows x q size ord unused m proc count p other number valid h fresh mode not_x not_q
      held =
    let o = out grows q size ord unused m valid h fresh mode in
    let a = home grows q size ord unused m valid h fresh mode in
    (
      a.state,
      realloc-home grows q size ord unused m valid h fresh mode,
      a.kept not_q (
          o.kept not_q
            (moved-kept x q h.index ord unused m valid h.points h.used h.inside fresh not_x held)),
    )
