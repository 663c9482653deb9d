-- ===== src/Linked.antt =====
-- The doubly linked lists of rimrtc.c (rim_list), with the statements of v1.c on them. An element
-- is at an address, the place of its rim_list_item, at which `nodes` has the item; `fresh` is the
-- address that the next allocation returns. The outcome `none` of a step is an access through NULL.
mod Zipper
mod Insert
mod Store
mod Delete
mod Position
mod Purge
mod Tests
use rimstone.Base.{ℕ, zero, suc, ◌-◌, Bool, Option, none, some, ◌==◌, if◌then◌else◌}
use rimstone.Base.Words.{Bytes}
use rimstone.Fifo.{same}

pub record Node (D : Type 0) : Type 0 where
  pub data_of : D
  pub name : Bytes
  pub next : Option ℕ
  pub prev : Option ℕ

abbrev pub Nodes : Type 0 → Type 0
Nodes D = ℕ → Node D

pub record Linked (D : Type 0) : Type 0 where
  pub first : Option ℕ
  pub num_of : ℕ
  pub last : Option ℕ
  pub curr : Option ℕ
  pub nodes : Nodes D
  pub fresh : ℕ

-- RIM_OKAY and RIM_ERR_EXIST
pub data Status : Type 0 where
  done : Status
  no_more : Status

pub data Where : Type 0 where
  list_first : Where
  list_last : Where
  list_end : Where
  list_prev : Where
  list_next : Where

module _ {D : Type 0} where
  unfoldable pub set : Nodes D → ℕ → Node D → Nodes D
  set m a n b = if b == a then n else m b

  -- `p->next = q`
  unfoldable pub set_next : Option ℕ → Option ℕ → Nodes D → Option (Nodes D)
  set_next none q m = none
  set_next (some a) q m = some (set m a (record (m a) { next = q }))

  -- `p->prev = q`
  unfoldable pub set_prev : Option ℕ → Option ℕ → Nodes D → Option (Nodes D)
  set_prev none q m = none
  set_prev (some a) q m = some (set m a (record (m a) { prev = q }))

  unfoldable pub list_init : Nodes D → ℕ → Linked D
  list_init m fresh = record {
    first = none;
    num_of = 0;
    last = none;
    curr = none;
    nodes = m;
    fresh = fresh;
  }

  unfoldable pub new_node : Bytes → D → Linked D → Linked D
  new_node name value l = record l {
    nodes = set l.nodes l.fresh (record { data_of = value; name = name; next = none; prev = none });
    fresh = suc l.fresh;
  }

  -- At the very end.
  unfoldable pub insert_end : ℕ → Linked D → Option (Linked D)
  insert_end np l = elim (set_next l.last (some np) l.nodes) [
    | none ↦ none
    | some m ↦ some (record l {
      nodes = set m np (record (m np) { prev = l.last });
      last = some np;
      curr = some np;
    })
  ]

  -- In front of the first element.
  unfoldable pub insert_first : ℕ → Linked D → Option (Linked D)
  insert_first np l =
      elim (set_prev l.first (some np) (set l.nodes np (record (l.nodes np) { next = l.first }))) [
        | none ↦ none
        | some m ↦ some (record l { nodes = m; first = some np; curr = some np })
      ]

  -- In front of the element `c`, behind another one.
  unfoldable pub insert_before : ℕ → ℕ → Linked D → Option (Linked D)
  insert_before c np l = elim (set_next (l.nodes c).prev (some np) l.nodes) [
    | none ↦ none
    | some m ↦
        let before = (m c).prev in
        let linked = set m np (record (m np) { prev = before; next = some c }) in
        some
          (record l { nodes = set linked c (record (linked c) { prev = some np }); curr = some np })
  ]

  -- The new node `np` is linked where `p` is current.
  unfoldable pub insert_at : Option ℕ → ℕ → Linked D → Option (Linked D)
  insert_at none np l = insert_end np l
  insert_at (some c) np l =
      if same (some c) l.first then insert_first np l else insert_before c np l

  unfoldable pub count_up : Option (Linked D) → Option (Linked D)
  count_up none = none
  count_up (some l) = some (record l { num_of = suc l.num_of })

  unfoldable pub list_store : Bytes → D → Bool → Linked D → Option (Linked D)
  list_store name value append l =
      let np = l.fresh in
      let g = new_node name value l in
      count_up (
        if l.num_of == 0
        then some (record g { first = some np; last = some np; curr = some np })
        else insert_at (if append then none else l.curr) np g)

  -- Nothing where no element is current: the C code leaves the variables as they are.
  unfoldable pub list_retrieve : Linked D → Option (Bytes × D)
  list_retrieve l = elim l.curr [
    | none ↦ none
    | some c ↦ some ((l.nodes c).name, (l.nodes c).data_of)
  ]

  unfoldable pub unlink_next : Node D → Linked D → Linked D
  unlink_next e l = elim e.next [
    | some n ↦ record l {
      nodes = set l.nodes n (record (l.nodes n) { prev = e.prev });
      curr = e.next;
    }
    | none ↦ record l { last = e.prev; curr = e.prev }
  ]

  unfoldable pub unlink_prev : Node D → Linked D → Linked D
  unlink_prev e l = elim e.prev [
    | some p ↦ record l { nodes = set l.nodes p (record (l.nodes p) { next = e.next }) }
    | none ↦ record l { first = e.next; curr = e.next }
  ]

  unfoldable pub unlink : Node D → Linked D → Linked D
  unlink e l = let g = unlink_prev e (unlink_next e l) in record g { num_of = g.num_of - 1 }

  unfoldable pub list_delete : Linked D → Status × Linked D
  list_delete l = elim l.curr [ none ↦ (no_more, l) | some t ↦ (done, unlink (l.nodes t) l) ]

  -- The loop of rim_list_purge, `none` where the fuel runs out.
  unfoldable pub purge_loop : ℕ → Linked D → Option (Linked D)
  purge_loop zero l = none
  purge_loop (suc n) l =
      let rest = purge_loop n (list_delete (record l { curr = l.first })).1 in
      if l.num_of == 0 then some l else rest

  unfoldable pub list_purge : ℕ → Linked D → Option (Linked D)
  list_purge fuel l = elim (purge_loop fuel l) [
    | none ↦ none
    | some g ↦ some (list_init g.nodes g.fresh)
  ]

  -- The statement position-list.
  unfoldable pub move_to : Where → Linked D → Status × Linked D
  move_to list_first l = (done, record l { curr = l.first })
  move_to list_last l = (done, record l { curr = l.last })
  move_to list_end l = (done, record l { curr = none })
  move_to list_prev l =
      if same l.curr l.first
      then (no_more, l)
      else (done, record l { curr = elim l.curr [ none ↦ l.last | some c ↦ (l.nodes c).prev ] })
  move_to list_next l = elim l.curr [
    | none ↦ (no_more, l)
    | some c ↦ (done, record l { curr = (l.nodes c).next })
  ]

  unfoldable pub position_list : Where → Linked D → Status × Linked D
  position_list place l = if l.num_of == 0 then (no_more, l) else move_to place l
