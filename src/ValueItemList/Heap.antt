-- ===== src/ValueItemList/Heap.antt =====
-- freeValueItemList and freeValueItemNode of value_item_list.c, with the references that they give
-- back (decrRefCount of object.c). `live` tells which addresses hold a node that zfree has not
-- taken: a step that reads or releases any other one has no result, and neither has a panic.
use libredis_a.Common.{
  ℕ, zero, suc, ◌-◌, Bool, true, false, not, Option, none, some, update, ◌==◌, if◌then◌else◌, ◌>>=◌,
}
use libredis_a.ValueItemList.{Obj, obj, dnum, llnum, Memory, ValueItemList, node_type_robj}

pub record Heap (Double : Type 0) : Type 0 where
  pub nodes : Memory Double
  pub live : ℕ → Bool
  pub references : ℕ → ℕ

-- The count in `decrRefCount`, which panics at 0; at 0 the object is released.
unfoldable pub decr_ref : (ℕ → ℕ) → ℕ → Option (ℕ → ℕ)
decr_ref references o =
    if references o == 0 then none else some (update references o (references o - 1))

-- A pointer that is not NULL loses a reference.
unfoldable pub drop_object : (ℕ → ℕ) → ℕ → Option (ℕ → ℕ)
drop_object references o = if o == 0 then some references else decr_ref references o

module _ {Double : Type 0} where
  -- The object that a node refers to, if its type says that it holds one.
  unfoldable pub held : Bool → Obj Double → ℕ
  held false value = 0
  held true (obj o) = o
  held true (dnum x) = 0
  held true (llnum x) = 0

  -- `freeValueItemNode`.
  unfoldable pub free_node : Heap Double → ℕ → Option (Heap Double)
  free_node h p =
      if p == 0
      then some h
      else if not (h.live p)
      then none
      else (drop_object h.references (held ((h.nodes p).type == node_type_robj) ((h.nodes p).value))
          >>= λ references. some (record {
            nodes = update h.nodes p (record (h.nodes p) { value = obj 0; pre = 0; next = 0 });
            live = update h.live p false;
            references = references;
          }))

  -- The loop of `freeValueItemList`, in at most `fuel` rounds.
  unfoldable pub free_loop : ℕ → Heap Double → ValueItemList → Option (Heap Double × ValueItemList)
  free_loop zero h list = none
  free_loop (suc fuel) h list =
      let tmp = (h.nodes list.head).next in
      let rest = λ (after : Heap Double).
        free_loop fuel after (record list { head = tmp; len = list.len - 1 }) in
      if list.head == 0
      then some (h, list)
      else if not (h.live list.head)
      then none
      else free_node h list.head >>= rest

  -- `freeValueItemList`; the list's own struct is released at the end.
  unfoldable pub free_list : ℕ → Heap Double → Option ValueItemList → Option (Heap Double)
  free_list fuel h none = some h
  free_list fuel h (some list) = free_loop fuel h list >>= λ r. some (r.0)
