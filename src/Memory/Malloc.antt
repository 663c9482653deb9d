-- ===== src/Memory/Malloc.antt =====
-- rimmem.c: rim_malloc, in a well-formed table.
use rimstone.Base.{
  ℕ, suc, ◌+◌, ◌-◌, ◌<◌, ◌≤◌, ◌≡◌, refl, sym, ap, subst, ◌≢◌, Bool, true, false, none, some, List,
  [], ◌∷◌, ltb, leb, if◌then◌else◌, arith, length, inl, inr, Bool-cases,
}
use rimstone.Base.Results.{okay}
use rimstone.Memory.{Mem, fill, extend, add_mem, vmset, malloc, free, mem_size, max_mem}
use rimstone.Memory.Chain.{Chain}
use rimstone.Memory.Valid.{IsValid, IsLive, fresh-apart}
use rimstone.Memory.Open.{open-free, open-new}
use rimstone.Memory.Held.{IsHeld, held-open-free, held-open-new}
use rimstone.Memory.Give.{free-IsValid}
use rimstone.Memory.Alloc.{
  placed, filled, filled-IsValid, filled-IsHeld, filled-kept, filled-head, filled-size,
}

-- Room for another entry, where no free one is left.
record Extended (m : Mem) : Type 0 where
  tot : ℕ
  returns : extend true m ≡ okay (record m { curr = suc m.curr; tot = tot })
  within : m.curr ≤ m.tot → suc m.curr ≤ tot

extend-Extended : (m : Mem) → m.tot + mem_size < max_mem - 1 → Extended m
unfolding extend
extend-Extended m room = elim (Bool-cases (ltb (suc m.curr) m.tot)) [
  | inl e ↦ record { tot = m.tot; returns = rw e refl; within = λ _. ground (arith, e) }
  | inr e ↦ record {
    tot = m.tot + mem_size;
    returns = rw e (rw (not_full m.tot room) refl);
    within = λ le. omega (arith, le);
  }
]
  where
    not_full : (n : ℕ) → n + mem_size < max_mem - 1 → leb (max_mem - 1) (n + mem_size) ≡ false
    not_full n h = ground arith

-- What rim_malloc of the block at `p` gives.
pub record Allocated (p size : ℕ) (ord unused : List ℕ) (m : Mem) : Type 0 where
  pub entry : ℕ
  pub left : List ℕ
  pub state : Mem
  pub returns : malloc true size (some p) m ≡ okay (p, state)
  pub valid : IsValid (placed m.process entry ord) left state
  pub held : IsHeld none left state p m.process 0
  pub grows : state.curr + length unused ≡ suc (m.curr + length left)
  pub within : m.curr ≤ m.tot → state.curr ≤ state.tot
  pub head : state.heap p ≡ some (record { id = some entry; len = size })
  pub kept :
      {q : ℕ} {proc : Bool} {count : ℕ}
      → IsHeld none unused m q proc count
      → IsHeld none left state q proc count

malloc-filled :
    (p size r : ℕ) (m g : Mem)
    → add_mem true p m ≡ okay (r, fill p r g)
    → malloc true size (some p) m ≡ okay (p, vmset p r size (fill p r g))
unfolding malloc
malloc-filled p size r m g e = rw (e, malloc) refl

pub add_mem-free :
    (grows : Bool) (p r : ℕ) (m : Mem)
    → m.first_free ≡ some r
    → add_mem grows p m ≡ okay (r, fill p r (record m { first_free = (m.vm r).next }))
unfolding add_mem
add_mem-free grows p r m e = rw (e, add_mem) refl

add_mem-new :
    (p : ℕ) (m g : Mem)
    → m.first_free ≡ none
    → extend true m ≡ okay g
    → add_mem true p m ≡ okay (m.curr, fill p m.curr g)
unfolding add_mem
add_mem-new p m g e x = rw (e, add_mem) (rw (x, add_mem) refl)

malloc-Allocated :
    (p size : ℕ) (ord unused : List ℕ) (m : Mem)
    → IsValid ord unused m
    → m.heap p ≡ none
    → m.tot + mem_size < max_mem - 1
    → Allocated p size ord unused m
unfolding Chain
malloc-Allocated p size ord (r ∷ left) m h fresh room =
    let opened = record m { first_free = (m.vm r).next } in
    let loose = open-free r ord left m h in
    let new : (i : ℕ) → i ≢ r → IsLive opened i → (opened.vm i).ptr ≢ some p =
      λ i _ lives. fresh-apart opened p i fresh lives in
    record {
      entry = r;
      left = left;
      state = filled r ord left p size opened loose new;
      returns = malloc-filled p size r m opened (add_mem-free true p r m h.free_chain.0);
      valid = filled-IsValid r ord left p size opened loose new;
      held = filled-IsHeld r ord left p size opened loose new;
      head = filled-head r ord left p size opened loose new;
      grows = omega (arith, (filled-size r ord left p size opened loose new).0);
      within = λ le. omega (
        arith,
        le,
        (filled-size r ord left p size opened loose new).0,
        (filled-size r ord left p size opened loose new).1,
      );
      kept = λ held. filled-kept r ord left p size opened loose new (held-open-free r m held);
    }
malloc-Allocated p size ord [] m h fresh room =
    let grown = extend-Extended m room in
    let opened = record m { curr = suc m.curr; tot = grown.tot } in
    let loose = open-new ord [] m grown.tot h in
    let new : (i : ℕ) → i ≢ m.curr → IsLive opened i → (opened.vm i).ptr ≢ some p =
      λ i _ lives. fresh-apart opened p i fresh lives in
    record {
      entry = m.curr;
      left = [];
      state = filled m.curr ord [] p size opened loose new;
      returns =
          malloc-filled p size m.curr m opened (add_mem-new p m opened h.free_chain grown.returns);
      valid = filled-IsValid m.curr ord [] p size opened loose new;
      held = filled-IsHeld m.curr ord [] p size opened loose new;
      head = filled-head m.curr ord [] p size opened loose new;
      grows = omega (arith, (filled-size m.curr ord [] p size opened loose new).0);
      within = λ le. omega (
        arith,
        grown.within le,
        (filled-size m.curr ord [] p size opened loose new).0,
        (filled-size m.curr ord [] p size opened loose new).1,
      );
      kept = λ held. filled-kept m.curr ord [] p size opened loose new (held-open-new m held);
    }

-- In a well-formed table that has not come to its limit of entries, rim_malloc of a new block
-- returns it, provided that libc's realloc does not return NULL if the table has to grow, and the
-- table is well-formed again: the block has an entry that no other block has, to which its header
-- leads, with the bit of rim_mem_process and no reference; the entry is the first of the ordinary
-- ones, unless it is that of process memory.
pub malloc-IsValid :
    (p size : ℕ) (ord unused : List ℕ) (m : Mem)
    → IsValid ord unused m
    → m.heap p ≡ none
    → m.tot + mem_size < max_mem - 1
    → (g : Mem) × (r : ℕ) × (left : List ℕ) × (malloc true size (some p) m ≡ okay (p, g))
      × IsValid (if m.process then ord else r ∷ ord) left g
      × IsHeld none left g p m.process 0
      × (g.heap p ≡ some (record { id = some r; len = size }))
malloc-IsValid p size ord unused m h fresh room =
    let a = malloc-Allocated p size ord unused m h fresh room in
    (a.state, a.entry, a.left, a.returns, a.valid, a.held, a.head)

-- In such a table rim_malloc of a new block leaves every other block held as it was.
pub malloc-IsHeld :
    (p size : ℕ) (ord unused : List ℕ) (m : Mem) (q : ℕ) (proc : Bool) (count : ℕ)
    → IsValid ord unused m
    → m.heap p ≡ none
    → m.tot + mem_size < max_mem - 1
    → IsHeld none unused m q proc count
    → (g : Mem) × (left : List ℕ) × (malloc true size (some p) m ≡ okay (p, g))
      × IsHeld none left g q proc count
malloc-IsHeld p size ord unused m q proc count h fresh room held =
    let a = malloc-Allocated p size ord unused m h fresh room in
    (a.state, a.left, a.returns, a.kept held)

-- In such a table an ordinary block that rim_malloc returns and that rim_free then gets is gone,
-- and the ordinary entries are those of before.
pub malloc-free :
    (p size : ℕ) (ord unused : List ℕ) (m : Mem)
    → IsValid ord unused m
    → m.heap p ≡ none
    → m.tot + mem_size < max_mem - 1
    → m.process ≡ false
    → (g k : Mem) × (r : ℕ) × (left : List ℕ) × (malloc true size (some p) m ≡ okay (p, g))
      × (free p g ≡ okay k)
      × IsValid ord (r ∷ left) k
      × (k.heap p ≡ none)
malloc-free p size ord unused m h fresh room ordinary =
    let a = malloc-Allocated p size ord unused m h fresh room in
    let valid = subst (λ b. IsValid (placed b a.entry ord) a.left a.state) ordinary a.valid in
    let held = subst (λ b. IsHeld none a.left a.state p b 0) ordinary a.held in
    let (k, f, rest, returns, same, valid_k, gone) =
      free-IsValid p (a.entry ∷ ord) a.left a.state valid held in
    (
      a.state,
      k,
      f,
      a.left,
      a.returns,
      returns,
      subst (λ is. IsValid is (f ∷ a.left) k) (sym (ap behind same)) valid_k,
      gone,
    )
  where
    behind : List ℕ → List ℕ
    behind [] = []
    behind (_ ∷ is) = is

-- In such a table rim_malloc of a new block uses one entry more than before, and the table has
-- room for all of its entries if it had.
pub malloc-bounds :
    (p size : ℕ) (ord unused : List ℕ) (m : Mem)
    → IsValid ord unused m
    → m.heap p ≡ none
    → m.tot + mem_size < max_mem - 1
    → m.curr ≤ m.tot
    → (g : Mem) × (r : ℕ) × (left : List ℕ) × (malloc true size (some p) m ≡ okay (p, g))
      × IsValid (if m.process then ord else r ∷ ord) left g
      × (g.curr + length unused ≡ suc (m.curr + length left))
      × (g.curr ≤ g.tot)
malloc-bounds p size ord unused m h fresh room le =
    let a = malloc-Allocated p size ord unused m h fresh room in
    (a.state, a.entry, a.left, a.returns, a.valid, a.grows, a.within le)
