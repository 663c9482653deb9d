-- ===== src/Fifo.antt =====
-- The sequential lists of rimrtc.c (rim_fifo), as the statements on FIFO and LIFO lists use them.
-- An element is at an address, the place of its rim_fifo_item, which `memory` maps to the item;
-- `fresh` is the address that the next allocation returns. The outcome `none` of a step is a read
-- of an address that holds no item. Deleted items stay in the memory, as they do up to the end of a
-- request.
pub mod Chain
mod Queue
mod Retrieve
mod Delete
mod Tests
use rimstone.Base.{ℕ, zero, suc, ◌-◌, Bool, true, false, Option, none, some, ◌==◌, if◌then◌else◌}
use rimstone.Base.Words.{Bytes}

pub record Item (D : Type 0) : Type 0 where
  pub data_of : D
  pub name : Bytes
  pub next : Option ℕ

abbrev pub Memory : Type 0 → Type 0
Memory D = ℕ → Option (Item D)

pub record Fifo (D : Type 0) : Type 0 where
  pub first_ptr : Option ℕ
  pub num_of : ℕ
  pub last_ptr : Option ℕ
  pub retrieve_ptr : Option ℕ
  pub memory : Memory D
  pub fresh : ℕ

-- What a retrieval returns: the status RIM_ERR_EXIST, or a name and its data.
pub data Reply (D : Type 0) : Type 0 where
  no_more : Reply D
  retrieved : Bytes → D → Reply D

unfoldable pub put : {D : Type 0} → Memory D → ℕ → Item D → Memory D
put m a i b = if b == a then some i else m b

abbrev pub same : Option ℕ → Option ℕ → Bool
same none none = true
same none (some b) = false
same (some a) none = false
same (some a) (some b) = a == b

module _ {D : Type 0} where
  unfoldable pub store_init : Memory D → ℕ → Fifo D
  store_init m fresh = record {
    first_ptr = none;
    num_of = 0;
    last_ptr = none;
    retrieve_ptr = none;
    memory = m;
    fresh = fresh;
  }

  -- The new item at its address, before it is linked.
  unfoldable pub new_item : Bytes → D → Fifo D → Fifo D
  new_item name value f = record f {
    memory = put f.memory f.fresh (record { data_of = value; name = name; next = none });
    fresh = suc f.fresh;
  }

  -- `(*p).next = np`
  unfoldable pub link : Option ℕ → ℕ → Memory D → Option (Memory D)
  link none np m = none
  link (some a) np m = elim (m a) [
    | none ↦ none
    | some i ↦ some (put m a (record i { next = some np }))
  ]

  unfoldable pub append_at : ℕ → Fifo D → Option (Fifo D)
  append_at np f = elim (link f.last_ptr np f.memory) [
    | none ↦ none
    | some m ↦ some (record f { memory = m; last_ptr = some np; num_of = suc f.num_of })
  ]

  unfoldable pub store : Bytes → D → Fifo D → Option (Fifo D)
  store name value f =
      let np = f.fresh in
      let g = new_item name value f in
      if f.num_of == 0
      then some (record g {
        first_ptr = some np;
        last_ptr = some np;
        retrieve_ptr = some np;
        num_of = suc f.num_of;
      })
      else append_at np g

  unfoldable pub store_l : Bytes → D → Fifo D → Fifo D
  store_l name value f =
      let np = f.fresh in
      let m = put f.memory np (record { data_of = value; name = name; next = none }) in
      if f.num_of == 0
      then record f {
        memory = m;
        fresh = suc np;
        first_ptr = some np;
        last_ptr = some np;
        retrieve_ptr = some np;
        num_of = suc f.num_of;
      }
      else record f {
        memory = put m np (record { data_of = value; name = name; next = f.first_ptr });
        fresh = suc np;
        first_ptr = some np;
        retrieve_ptr = some np;
        num_of = suc f.num_of;
      }

  unfoldable pub retrieve : Fifo D → Option (Reply D × Fifo D)
  retrieve f = elim f.retrieve_ptr [
    | none ↦ some (no_more, f)
    | some a ↦ elim (f.memory a) [
      | none ↦ none
      | some i ↦ some (retrieved i.name i.data_of, record f { retrieve_ptr = i.next })
    ]
  ]

  unfoldable pub rewind : Fifo D → Fifo D
  rewind f = record f { retrieve_ptr = f.first_ptr }

  -- One round of the deletion, of the first item, which is at `temp`.
  unfoldable pub drop_first : ℕ → Fifo D → Option (Fifo D)
  drop_first temp f =
      if same (some temp) f.last_ptr
      then some (record f {
        first_ptr = none;
        last_ptr = none;
        retrieve_ptr = none;
        num_of = f.num_of - 1;
      })
      else elim (f.memory temp) [
        | none ↦ none
        | some i ↦ some (record f { first_ptr = i.next; num_of = f.num_of - 1 })
      ]

  unfoldable pub delete_loop : ℕ → Fifo D → Option (Fifo D)
  delete_loop zero f = none
  delete_loop (suc fuel) f = if same f.first_ptr f.retrieve_ptr then some f else elim f.first_ptr [
    | none ↦ none
    | some temp ↦ elim (drop_first temp f) [ none ↦ none | some g ↦ delete_loop fuel g ]
  ]

  unfoldable pub fifo_delete : Fifo D → Option (Fifo D)
  fifo_delete f = elim f.first_ptr [ none ↦ some f | some _ ↦ delete_loop (suc f.num_of) f ]

  unfoldable pub purge : Fifo D → Option (Fifo D)
  purge f = elim (fifo_delete (record f { retrieve_ptr = none })) [
    | none ↦ none
    | some g ↦ some (store_init g.memory g.fresh)
  ]
