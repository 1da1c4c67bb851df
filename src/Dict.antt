-- ===== src/Dict.antt =====
-- dict.c and dict.h: a hash table with chaining that grows and shrinks by incremental rehashing.
-- `ht[0]` is the table in use; during a rehash `ht[1]` is the new one, and each call moves one
-- bucket. A table's array is a function from indices, all of them below its size; `none` for
-- `rehashidx` is the source's -1. Memory is not exhausted, and no counter passes its C type.
pub mod Chains
pub mod Tables
pub mod Valid
pub mod Rehash
pub mod Expand
pub mod Find
pub mod Add
pub mod Shrink
pub mod Delete
pub mod Write
pub mod Replace
pub mod History
mod Examples
use libredis_a.Common.{
  ℕ, zero, suc, ◌+◌, ◌-◌, ◌*◌, ◌/◌, ◌%◌, ◌^◌, ◌≡◌, Bool, true, false, ◌&&◌, ◌||◌, Option, none,
  some, List, [], ◌∷◌, length, update, ltb, leb, ◌==◌, if◌then◌else◌, is_some, not,
}
use Prim.Native.Nat.{bit_and}
use mathlib.Core.Option

-- What a dictionary asks of its keys: the callbacks of the C struct dictType, and sds.c's
-- sdsversion_change, which dict.c calls on keys.
pub record DictType {ℓ} (K : Type ℓ) : Type ℓ where
  pub hash_function : K → ℕ
  pub key_compare : K → K → Bool
  pub change_version : K → K → K
  pub compare_refl : (a : K) → key_compare a a ≡ true
  pub compare_trans : (a b c : K) → key_compare a b ≡ true → key_compare a c ≡ key_compare b c
  pub compare_sym : (a b : K) → key_compare a b ≡ key_compare b a
  pub compare_hash : (a b : K) → key_compare a b ≡ true → hash_function a ≡ hash_function b
  pub change_compare : (a b : K) → key_compare (change_version a b) a ≡ true

pub record Ht {ℓ κ} (K : Type ℓ) (V : Type κ) : Type (ℓ ⊔ κ) where
  pub table : ℕ → List (K × V)
  pub size : ℕ
  pub sizemask : ℕ
  pub used : ℕ

pub record Dict {ℓ κ} (K : Type ℓ) (V : Type κ) : Type (ℓ ⊔ κ) where
  pub ht0 : Ht K V
  pub ht1 : Ht K V
  pub rehashidx : Option ℕ
  pub iterators : ℕ

abbrev pub initial_size : ℕ
initial_size = 4

abbrev pub force_resize_ratio : ℕ
force_resize_ratio = 5

-- LONG_MAX on a 64-bit machine, and the range of unsigned long.
abbrev pub long_max : ℕ
long_max = 2 ^ 63 - 1

abbrev pub ulong : ℕ
ulong = 2 ^ 64

-- `_dictNextPower`: doubling from the initial size; 64 rounds reach every long.
unfoldable pub next_power_loop : ℕ → ℕ → ℕ → ℕ
next_power_loop zero i size = i
next_power_loop (suc fuel) i size =
    let more = next_power_loop fuel (i * 2 % ulong) size in if leb size i then i else more

unfoldable pub next_power : ℕ → ℕ
next_power size = if leb long_max size then long_max else next_power_loop 64 initial_size size

module _ {ℓ κ} {K : Type ℓ} {V : Type κ} where
  -- `_dictReset`.
  unfoldable pub reset_ht : Ht K V
  reset_ht = record { table = λ i. []; size = 0; sizemask = 0; used = 0 }

  -- `dictCreate` with `_dictInit`.
  unfoldable pub create : Dict K V
  create = record { ht0 = reset_ht; ht1 = reset_ht; rehashidx = none; iterators = 0 }

  abbrev pub is_rehashing : Dict K V → Bool
  is_rehashing d = is_some d.rehashidx

  -- The macro dictSize.
  unfoldable pub dict_size : Dict K V → ℕ
  dict_size d = d.ht0.used + d.ht1.used

  -- `dictExpand`: the dictionary, and whether it is DICT_OK.
  unfoldable pub expand : Dict K V → ℕ → Dict K V × Bool
  expand d size =
      let realsize = next_power size in
      let n : Ht K V = record {
        table = λ i. [];
        size = realsize;
        sizemask = realsize - 1;
        used = 0;
      } in
      if is_rehashing d || ltb size d.ht0.used
      then (d, false)
      else if d.ht0.size == 0
      then (record d { ht0 = n }, true)
      else (record d { ht1 = n; rehashidx = some 0 }, true)

  -- `while (table[rehashidx] == NULL) rehashidx++`, which ends before the table does.
  unfoldable pub scan : ℕ → (ℕ → List (K × V)) → ℕ → ℕ
  scan zero t i = i
  scan (suc fuel) t i = elim (t i) [ [] ↦ scan fuel t (i + 1) | e ∷ es ↦ i ]

  -- `_dictClear` on both tables, and the reset of the fields: `dictEmpty`.
  unfoldable pub empty : Dict K V → Dict K V
  empty d = create

  module _ (type : DictType K) where
    -- The bucket of a key.
    abbrev pub index : Ht K V → K → ℕ
    index ht key = bit_and (type.hash_function key) ht.sizemask

    -- The walk along a chain.
    unfoldable pub find_in : K → List (K × V) → Option (K × V)
    find_in key [] = none
    find_in key ((k, v) ∷ es) = if type.key_compare key k then some (k, v) else find_in key es

    -- An entry at the head of its bucket.
    unfoldable pub push : Ht K V → ℕ → K × V → Ht K V
    push ht i e = record ht { table = update ht.table i (e ∷ ht.table i); used = ht.used + 1 }

    -- The inner loop of `dictRehash`: each entry of the bucket goes to the new table.
    unfoldable pub move_chain : List (K × V) → Ht K V → Ht K V
    move_chain [] ht = ht
    move_chain ((k, v) ∷ es) ht = move_chain es (push ht (index ht k) (k, v))

    -- One round of `dictRehash` while entries are left, from bucket `i`.
    unfoldable pub rehash_bucket : ℕ → Dict K V → Dict K V
    rehash_bucket i d =
        let at = scan d.ht0.size d.ht0.table i in
        let chain = d.ht0.table at in
        record d {
          ht0 = record d.ht0 { table = update d.ht0.table at []; used = d.ht0.used - length chain };
          ht1 = move_chain chain d.ht1;
          rehashidx = some (at + 1);
        }

    -- `dictRehash`, and whether entries are left.
    unfoldable pub rehash : ℕ → Dict K V → Dict K V × Bool
    rehash zero d = (d, is_rehashing d)
    rehash (suc n) d = elim d.rehashidx [
      | none ↦ (d, false)
      | some i ↦ elim (d.ht0.used == 0) [
        | true ↦ (record d { ht0 = d.ht1; ht1 = reset_ht; rehashidx = none }, false)
        | false ↦ rehash n (rehash_bucket i d)
      ]
    ]

    -- `if (dictIsRehashing(d)) _dictRehashStep(d)`, the first line of each operation.
    unfoldable pub rehash_step : Dict K V → Dict K V
    rehash_step d = if is_rehashing d && (d.iterators == 0) then (rehash 1 d).0 else d

    -- `dictFind`: the entry, and the dictionary after the step.
    unfoldable pub find : Dict K V → K → Dict K V × Option (K × V)
    find d key =
        if d.ht0.size == 0
        then (d, none)
        else (let d1 = rehash_step d in
            elim (find_in key (d1.ht0.table (index d1.ht0 key))) [
              | some e ↦ (d1, some e)
              | none ↦
                  if is_rehashing d1
                  then (d1, find_in key (d1.ht1.table (index d1.ht1 key)))
                  else (d1, none)
            ])

    unfoldable pub fetch_value : Dict K V → K → Dict K V × Option V
    fetch_value d key =
        let (d1, found) = find d key in
        elim found [ some (k, v) ↦ (d1, some v) | none ↦ (d1, none) ]

    -- The first entry with the key becomes `f` of it.
    unfoldable pub change_in : K → (K × V → K × V) → List (K × V) → List (K × V)
    change_in key f [] = []
    change_in key f (e ∷ es) =
        if type.key_compare key (e.0) then f e ∷ es else e ∷ change_in key f es

    -- A write through the pointer that `dictFind` returned on this dictionary.
    unfoldable pub write_found : Dict K V → K → (K × V → K × V) → Dict K V
    write_found d key f =
        let i0 = index d.ht0 key in
        let i1 = index d.ht1 key in
        elim (find_in key (d.ht0.table i0)) [
          | some e ↦ record d {
            ht0 = record d.ht0 { table = update d.ht0.table i0 (change_in key f (d.ht0.table i0)) };
          }
          | none ↦ record d {
            ht1 = record d.ht1 { table = update d.ht1.table i1 (change_in key f (d.ht1.table i1)) };
          }
        ]

    -- The unlinking walk of `dictGenericDelete`: none where the key is not in the chain.
    unfoldable pub unlink : K → List (K × V) → Option (List (K × V))
    unlink key [] = none
    unlink key (e ∷ es) =
        if type.key_compare key (e.0) then some es else Option.map (λ r. e ∷ r) (unlink key es)

    -- `dictGenericDelete`: the dictionary, and whether it is DICT_OK.
    unfoldable pub delete : Dict K V → K → Dict K V × Bool
    delete d key =
        if d.ht0.size == 0
        then (d, false)
        else (let d1 = rehash_step d in
            let i0 = index d1.ht0 key in
            let i1 = index d1.ht1 key in
            elim (unlink key (d1.ht0.table i0)) [
              | some es ↦ (
                record d1 {
                  ht0 = record d1.ht0 { table = update d1.ht0.table i0 es; used = d1.ht0.used - 1 };
                },
                true,
              )
              | none ↦
                  if is_rehashing d1
                  then (elim (unlink key (d1.ht1.table i1)) [
                    | some es ↦ (
                      record d1 {
                        ht1 = record d1.ht1 {
                          table = update d1.ht1.table i1 es;
                          used = d1.ht1.used - 1;
                        };
                      },
                      true,
                    )
                    | none ↦ (d1, false)
                  ])
                  else (d1, false)
            ])

    -- The rest of `dictAdd`, after `_dictKeyIndex`: the entry goes to the table that is filled.
    unfoldable pub add_at : K → V → Dict K V × Option ℕ → Dict K V × Bool
    add_at key val (d1, none) = (d1, false)
    add_at key val (d1, some i) =
        if is_rehashing d1
        then (record d1 { ht1 = push d1.ht1 i (key, val) }, true)
        else (record d1 { ht0 = push d1.ht0 i (key, val) }, true)

    -- The global `dict_can_resize`.
    module _ (can_resize : Bool) where
      -- `dictResize`.
      unfoldable pub resize : Dict K V → Dict K V × Bool
      resize d =
          if not can_resize || is_rehashing d
          then (d, false)
          else expand d (if ltb d.ht0.used initial_size then initial_size else d.ht0.used)

      -- `_dictExpandIfNeeded`.
      unfoldable pub expand_if_needed : Dict K V → Dict K V × Bool
      expand_if_needed d =
          if is_rehashing d
          then (d, true)
          else if d.ht0.size == 0
          then expand d initial_size
          else if leb d.ht0.size d.ht0.used
              && (can_resize || ltb force_resize_ratio (d.ht0.used / d.ht0.size))
          then expand d ((if ltb d.ht0.used d.ht0.size then d.ht0.size else d.ht0.used) * 2)
          else (d, true)

      -- `_dictKeyIndex`: none is -1.
      unfoldable pub key_index : Dict K V → K → Dict K V × Option ℕ
      key_index d key =
          let (d1, ok) = expand_if_needed d in
          if not ok || is_some (find_in key (d1.ht0.table (index d1.ht0 key)))
          then (d1, none)
          else if not (is_rehashing d1)
          then (d1, some (index d1.ht0 key))
          else if is_some (find_in key (d1.ht1.table (index d1.ht1 key)))
          then (d1, none)
          else (d1, some (index d1.ht1 key))

      -- `dictAdd`: the dictionary, and whether it is DICT_OK.
      unfoldable pub add : Dict K V → K → V → Dict K V × Bool
      add d key val = add_at key val (key_index (rehash_step d) key)

      -- `dictReplace`: whether the key was added from scratch.
      unfoldable pub replace : Dict K V → K → V → Dict K V × Bool
      replace d key val =
          let (d1, added) = add d key val in
          if added then (d1, true) else (write_found (find d1 key).0 key (λ e. (e.0, val)), false)

      -- `dictSuperReplace`: the stored key takes the version of the new one too.
      unfoldable pub super_replace : Dict K V → K → V → Dict K V × Bool
      super_replace d key val =
          let (d1, added) = add d key val in
          if added
          then (d1, true)
          else (write_found (find d1 key).0 key (λ e. (type.change_version (e.0) key, val)), false)

    -- `dictUpdateKey`.
    unfoldable pub update_key : Dict K V → K → Dict K V × Bool
    update_key d key =
        let (d1, found) = find d key in
        if is_some found
        then (write_found d1 key (λ e. (type.change_version (e.0) key, e.1)), true)
        else (d1, false)
