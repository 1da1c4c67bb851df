-- ===== src/IntSet.antt =====
-- intset.c and intset.h: a sorted array of integers, all of one width, in one block of bytes.
-- The width is the least that holds every element ever added. `contents` is the flexible array
-- at the end of the struct, `size` the bytes that the allocator gave it. Indices and lengths are
-- C's uint32_t and int.
pub mod Values
pub mod Search
pub mod Splice
pub mod Upgrade
pub mod Shift
pub mod Members
pub mod History
mod Examples
use libredis_a.Common.{
  ℕ, zero, suc, ◌+◌, ◌-◌, ◌*◌, ◌/◌, ◌%◌, ◌^◌, Bool, true, false, ◌&&◌, ◌||◌, Option, none, some,
  ltb, leb, ◌==◌, if◌then◌else◌,
}
use libredis_a.Common.Int.{ℤ, pos, negsuc, ltb_ℤ, eqb_ℤ}
use libredis_a.Common.Bytes.{Bytes, load_int, store_int, memmove, Allocator}

pub record IntSet : Type 0 where
  pub encoding : ℕ
  pub length : ℕ
  pub size : ℕ
  pub contents : Bytes

abbrev pub enc_int16 : ℕ
enc_int16 = 2

abbrev pub enc_int32 : ℕ
enc_int32 = 4

abbrev pub enc_int64 : ℕ
enc_int64 = 8

abbrev pub uint32 : ℕ
uint32 = 2 ^ 32

-- INT32_MIN, INT32_MAX, INT16_MIN and INT16_MAX.
unfoldable pub value_encoding : ℤ → ℕ
value_encoding v =
    if ltb_ℤ v (negsuc 2147483647) || ltb_ℤ (pos 2147483647) v
    then enc_int64
    else if ltb_ℤ v (negsuc 32767) || ltb_ℤ (pos 32767) v
    then enc_int32
    else enc_int16

unfoldable pub get_encoded : IntSet → ℕ → ℕ → ℤ
get_encoded is i enc =
    if enc == enc_int64
    then load_int 8 (i * 8) is.contents
    else if enc == enc_int32
    then load_int 4 (i * 4) is.contents
    else load_int 2 (i * 2) is.contents

-- `_intsetGet`.
unfoldable pub get : IntSet → ℕ → ℤ
get is i = get_encoded is i is.encoding

-- `_intsetSet`.
unfoldable pub set : IntSet → ℕ → ℤ → IntSet
set is i v = record is {
  contents =
      if is.encoding == enc_int64
      then store_int 8 (i * 8) v is.contents
      else if is.encoding == enc_int32
      then store_int 4 (i * 4) v is.contents
      else store_int 2 (i * 2) v is.contents;
}

-- The loop variables of `intsetSearch`. `above` is its `max + 1`, so that `max = -1` is 0; `mid`
-- is what a cast to uint32_t makes of it.
pub record Window : Type 0 where
  pub low : ℕ
  pub above : ℕ
  pub mid : ℕ
  pub cur : ℤ

-- `while (max >= min)`, one unit of fuel a round.
unfoldable pub search_loop : ℕ → IntSet → ℤ → Window → Window
search_loop zero is v w = w
search_loop (suc fuel) is v w = elim (ltb w.low w.above) [
  | true ↦
      let mid = (w.low + (w.above - 1)) / 2 in
      let cur = get is mid in
      elim (ltb_ℤ cur v) [
        | true ↦ search_loop fuel is v (record w { low = mid + 1; mid = mid; cur = cur })
        | false ↦ elim (ltb_ℤ v cur) [
          | true ↦ search_loop fuel is v (record w { above = mid; mid = mid; cur = cur })
          | false ↦ record w { mid = mid; cur = cur }
        ]
      ]
  | false ↦ w
]

abbrev pub search_end : ℤ → Window → Bool × ℕ
search_end v w = if eqb_ℤ v w.cur then (true, w.mid) else (false, w.low)

-- `intsetSearch`: whether the value is there, and what is stored at `pos`. Each round of the loop
-- narrows the window, so as many rounds as there are elements suffice.
unfoldable pub search : IntSet → ℤ → Bool × ℕ
search is v =
    if is.length == 0
    then (false, 0)
    else if ltb_ℤ (get is (is.length - 1)) v
    then (false, is.length)
    else if ltb_ℤ v (get is 0)
    then (false, 0)
    else search_end v (
        search_loop (is.length + 1) is v
          (record { low = 0; above = is.length; mid = uint32 - 1; cur = negsuc 0 }))

-- `intsetMoveTail`, with its arithmetic modulo 2^32.
unfoldable pub move_tail : IntSet → ℕ → ℕ → IntSet
move_tail is from to =
    let count = (is.length + uint32 - from) % uint32 in
    record is {
      contents =
          if is.encoding == enc_int64
          then memmove (to * 8) (from * 8) (count * 8 % uint32) is.contents
          else if is.encoding == enc_int32
          then memmove (to * 4) (from * 4) (count * 4 % uint32) is.contents
          else memmove (to * 2) (from * 2) (count * 2 % uint32) is.contents;
    }

-- `while (length--)` of `intsetUpgradeAndAdd`, from the last element to the first.
unfoldable pub upgrade_loop : ℕ → ℕ → ℕ → IntSet → IntSet
upgrade_loop zero prepend curenc is = is
upgrade_loop (suc n) prepend curenc is =
    upgrade_loop n prepend curenc (set is (n + prepend) (get_encoded is n curenc))

-- `intsetGet`: none where the source returns 0.
unfoldable pub get_at : IntSet → ℕ → Option ℤ
get_at is i = if ltb i is.length then some (get is i) else none

-- `intsetRandom`, over the value that rand() returned.
unfoldable pub random : IntSet → ℕ → ℤ
random is rand = get is (rand % is.length)

-- `intsetFind`.
unfoldable pub find : IntSet → ℤ → Bool
find is v = leb (value_encoding v) is.encoding && (search is v).0

unfoldable pub len : IntSet → ℕ
len is = is.length

module _ (a : Allocator) where
  -- `intsetNew`.
  unfoldable pub new : IntSet
  new = record { encoding = enc_int16; length = 0; size = 0; contents = a.fresh }

  -- `intsetResize`.
  unfoldable pub resize : IntSet → ℕ → IntSet
  resize is n =
      let size = n * is.encoding % uint32 in
      record is { size = size; contents = a.realloc is.contents is.size size }

  -- `intsetUpgradeAndAdd`.
  unfoldable pub upgrade_and_add : IntSet → ℤ → IntSet
  upgrade_and_add is v =
      let prepend : ℕ = if ltb_ℤ v (pos 0) then 1 else 0 in
      let wide = resize (record is { encoding = value_encoding v }) ((is.length + 1) % uint32) in
      let moved = upgrade_loop is.length prepend is.encoding wide in
      let done = if prepend == 1 then set moved 0 v else set moved moved.length v in
      record done { length = (done.length + 1) % uint32 }

  -- `intsetAdd`: the set and `*success`.
  unfoldable pub add : IntSet → ℤ → IntSet × Bool
  add is v =
      if ltb is.encoding (value_encoding v)
      then (upgrade_and_add is v, true)
      else let (found, at) = search is v in
        if found
        then (is, false)
        else let room = resize is ((is.length + 1) % uint32) in
          let moved = if ltb at room.length then move_tail room at (at + 1) else room in
          let done = set moved at v in (record done { length = (done.length + 1) % uint32 }, true)

  -- `intsetRemove`: the set and `*success`.
  unfoldable pub remove : IntSet → ℤ → IntSet × Bool
  remove is v =
      let (found, at) = search is v in
      if leb (value_encoding v) is.encoding && found
      then (let moved =
            if ltb at ((is.length + uint32 - 1) % uint32) then move_tail is (at + 1) at else is in
          let less = resize moved ((moved.length + uint32 - 1) % uint32) in
          (record less { length = (less.length + uint32 - 1) % uint32 }, true))
      else (is, false)
