-- ===== src/ValueItemList.antt =====
-- value_item_list.c and its structs in redis.h: the doubly linked list that carries the results of
-- a command. Nodes are addresses, 0 is NULL, and `nodes` is the memory they stand in. An operation
-- that allocates takes the address that zmalloc returned, 0 where it failed. `Double` is C's double.
pub mod Spine
pub mod Push
pub mod Calls
pub mod Pop
pub mod Walk
pub mod Heap
pub mod Drops
pub mod Release
mod Examples
use libredis_a.Common.{
  ℕ, zero, suc, ◌+◌, ◌-◌, Bool, true, false, ◌&&◌, ◌||◌, Option, none, some, List, [], ◌∷◌, update,
  ◌==◌, if◌then◌else◌,
}
use libredis_a.Common.Int.{ℤ, pos, negsuc}
use libredis_a.Common.Bytes.{of_word}

abbrev pub node_type_robj : ℕ
node_type_robj = 0

abbrev pub node_type_buffer : ℕ
node_type_buffer = 1

abbrev pub node_type_longlong : ℕ
node_type_longlong = 2

abbrev pub node_type_double : ℕ
node_type_double = 3

-- The union `_obj`, with the member that was written last.
pub data Obj (Double : Type 0) : Type 0 where
  obj : ℕ → Obj Double
  dnum : Double → Obj Double
  llnum : ℤ → Obj Double

pub record Node (Double : Type 0) : Type 0 where
  pub pre : ℕ
  pub next : ℕ
  pub type : ℕ
  pub size : ℕ
  pub value : Obj Double

pub record ValueItemList : Type 0 where
  pub head : ℕ
  pub tail : ℕ
  pub len : ℕ

pub record Iterator : Type 0 where
  pub next : ℕ
  pub now : ℕ

abbrev pub Memory : Type 0 → Type 0
Memory Double = ℕ → Node Double

abbrev pub State : Type 0 → Type 0
State Double = Memory Double × ValueItemList

-- `createValueItemList`.
unfoldable pub create_list : ValueItemList
create_list = record { head = 0; tail = 0; len = 0 }

module _ {Double : Type 0} where
  unfoldable pub create_double : Memory Double → ℕ → Double → Memory Double
  create_double m p score =
      update m p
        (record { pre = 0; next = 0; type = node_type_double; size = 0; value = dnum score })

  unfoldable pub create_long_long : Memory Double → ℕ → ℤ → Memory Double
  create_long_long m p n =
      update m p
        (record { pre = 0; next = 0; type = node_type_longlong; size = 0; value = llnum n })

  -- For any other type the union keeps what the allocated memory held.
  unfoldable pub create_generic : Memory Double → ℕ → ℕ → ℕ → ℕ → Memory Double
  create_generic m p buffer size type = update m p (record {
    pre = 0;
    next = 0;
    type = type;
    size = size;
    value =
        if (type == node_type_robj) || (type == node_type_buffer)
        then obj buffer
        else if type == node_type_longlong
        then llnum (of_word 8 buffer)
        else (m p).value;
  })

  -- A new node at the end, as all the rpush functions do it.
  unfoldable pub link_last : State Double → ℕ → State Double
  link_last (m, list) p =
      if list.head == 0
      then (m, record list { head = p; tail = p; len = list.len + 1 })
      else (let m1 = update m p (record (m p) { pre = list.tail }) in
          (
            update m1 list.tail (record (m1 list.tail) { next = p }),
            record list { tail = p; len = list.len + 1 },
          ))

  -- A new node at the front, as all the lpush functions do it.
  unfoldable pub link_first : State Double → ℕ → State Double
  link_first (m, list) p =
      if list.head == 0
      then (m, record list { head = p; tail = p; len = list.len + 1 })
      else (let m1 = update m p (record (m p) { next = list.head }) in
          (
            update m1 list.head (record (m1 list.head) { pre = p }),
            record list { head = p; len = list.len + 1 },
          ))

  -- A push answers with the length, and with 0 where the list is NULL.
  abbrev pub answer : State Double → Option (State Double) × ℕ
  answer s = (some s, s.1.len)

  unfoldable pub rpush_double : Option (State Double) → ℕ → Double → Option (State Double) × ℕ
  rpush_double none p score = (none, 0)
  rpush_double (some s) p score =
      if p == 0 then answer s else answer (link_last (create_double s.0 p score, s.1) p)

  unfoldable pub rpush_long_long : Option (State Double) → ℕ → ℤ → Option (State Double) × ℕ
  rpush_long_long none p n = (none, 0)
  rpush_long_long (some s) p n =
      if p == 0 then answer s else answer (link_last (create_long_long s.0 p n, s.1) p)

  unfoldable pub rpush_generic : Option (State Double) → ℕ → ℕ → ℕ → ℕ → Option (State Double) × ℕ
  rpush_generic none p buffer size type = (none, 0)
  rpush_generic (some s) p buffer size type =
      if p == 0 then answer s else answer (link_last (create_generic s.0 p buffer size type, s.1) p)

  -- `rpushValueItemNode`.
  unfoldable pub rpush : Option (State Double) → ℕ → ℕ → Option (State Double) × ℕ
  rpush s p robj = rpush_generic s p robj 0 node_type_robj

  unfoldable pub lpush_double : Option (State Double) → ℕ → Double → Option (State Double) × ℕ
  lpush_double none p score = (none, 0)
  lpush_double (some s) p score =
      if p == 0 then answer s else answer (link_first (create_double s.0 p score, s.1) p)

  -- The node is created by createDoubleValueItemNode, from the conversion of the integer.
  unfoldable pub lpush_long_long :
      (ℤ → Double) → Option (State Double) → ℕ → ℤ → Option (State Double) × ℕ
  lpush_long_long to_double none p n = (none, 0)
  lpush_long_long to_double (some s) p n =
      if p == 0 then answer s else answer (link_first (create_double s.0 p (to_double n), s.1) p)

  unfoldable pub lpush_generic : Option (State Double) → ℕ → ℕ → ℕ → ℕ → Option (State Double) × ℕ
  lpush_generic none p buffer size type = (none, 0)
  lpush_generic (some s) p buffer size type =
      if p == 0
      then answer s
      else answer (link_first (create_generic s.0 p buffer size type, s.1) p)

  -- `lpushValueItemNode`.
  unfoldable pub lpush : Option (State Double) → ℕ → ℕ → Option (State Double) × ℕ
  lpush s p robj = lpush_generic s p robj 0 node_type_robj

  -- `removeValueItemNode`.
  unfoldable pub remove_node : Memory Double → ℕ → Memory Double
  remove_node m p =
      if p == 0
      then m
      else (let pre = (m p).pre in
          let m1 : Memory Double =
            if pre == 0 then m else update m pre (record (m pre) { next = (m p).next }) in
          let next = (m1 p).next in
          if next == 0 then m1 else update m1 next (record (m1 next) { pre = (m1 p).pre }))

  -- `lpopValueItemNode`: none where it reads through NULL, and else the list and the node.
  unfoldable pub lpop : Option (State Double) → Option (Option (State Double) × ℕ)
  lpop none = some (none, 0)
  lpop (some (m, list)) =
      let m1 = remove_node m list.head in
      if list.head == 0
      then none
      else some
          (some (m1, record list { head = (m1 list.head).next; len = list.len - 1 }), list.head)

  -- `rpopValueItemNode`.
  unfoldable pub rpop : Option (State Double) → Option (Option (State Double) × ℕ)
  rpop none = some (none, 0)
  rpop (some (m, list)) =
      let m1 = remove_node m list.tail in
      if list.tail == 0
      then none
      else some (some (m1, record list { tail = (m1 list.tail).pre }), list.tail)

  -- `createValueItemIterator`.
  unfoldable pub create_iterator : Option (State Double) → Option Iterator
  create_iterator none = none
  create_iterator (some (m, list)) =
      if list.head == 0 then none else some (record { next = list.head; now = 0 })

  -- `nextValueItemNode`.
  unfoldable pub next_node : Memory Double → Iterator → Iterator × ℕ
  next_node m it =
      if it.next == 0
      then (it, 0)
      else (record { next = (m it.next).next; now = it.now + 1 }, it.next)

  -- `getValueItemNodeType` and `getValueItemNodeSize`.
  unfoldable pub node_type : Memory Double → ℕ → ℤ
  node_type m p = if p == 0 then negsuc 0 else pos (m p).type

  unfoldable pub node_size : Memory Double → ℕ → ℕ
  node_size m p = if p == 0 then 0 else (m p).size
