-- ===== src/Sds/Shape.antt =====
-- The functions of Sds/Buffer on numbers without bounds, to which they come down on short strings.
use libredis_a.Common.{
  ℕ, zero, suc, ◌+◌, ◌-◌, ◌*◌, ◌&&◌, not, List, [], ◌∷◌, ◌++◌, length, ◌==◌, ltb, leb,
  if◌then◌else◌,
}
use libredis_a.Common.Int.{ℤ, pos, negsuc}
use libredis_a.Common.Blocks.{write_at, move}

-- A buffer by its numbers.
pub record Shape : Type 0 where
  pub len : ℕ
  pub free : ℕ
  pub buf : List ℕ

-- `sdsnewlen`, without clock and version.
abbrev pub new_shape : List ℕ → Shape
new_shape init = record { len = length init; free = 0; buf = init ++ (0 ∷ []) }

abbrev pub zeros : ℕ → List ℕ
zeros zero = []
zeros (suc n) = 0 ∷ zeros n

-- An index of `sdsrange`: a negative one counts from the end, and stops at 0.
abbrev pub from_end : ℕ → ℤ → ℕ
from_end len (pos n) = n
from_end len (negsuc n) = len - (n + 1)

-- The length of the range, or 0.
abbrev pub span : ℕ → ℕ → ℕ
span start end = if ltb end start then 0 else (end - start) + 1

-- Where the range starts and how long it is.
abbrev pub range_of : ℕ → ℤ → ℤ → ℕ × ℕ
range_of len a b =
    let start = from_end len a in
    let end = from_end len b in
    if span start end == 0
    then (0, 0)
    else if leb len start
    then (start, 0)
    else (start, span start (if leb len end then len - 1 else end))

-- The end of `sdsrange`: the range comes to the front.
unfoldable pub cut_to : Shape → ℕ → ℕ → Shape
cut_to s start newlen =
    let moved =
      if not (start == 0) && not (newlen == 0) then move 0 start newlen s.buf else s.buf in
    record { len = newlen; free = s.free + (s.len - newlen); buf = write_at newlen (0 ∷ []) moved }

-- `sdsrange`.
unfoldable pub range : Shape → ℤ → ℤ → Shape
range s a b = if s.len == 0 then s else (let r = range_of s.len a b in cut_to s (r.0) (r.1))

module _ (realloc : List ℕ → ℕ → List ℕ) where
  -- `sdsMakeRoomFor`.
  unfoldable pub make_room : Shape → ℕ → Shape
  make_room s addlen =
      if leb addlen s.free
      then s
      else (let newlen = (s.len + addlen) * 2 in
          record { len = s.len; free = newlen - s.len; buf = realloc s.buf (newlen + 1) })

  -- `sdsgrowzero`.
  unfoldable pub grow_zero : Shape → ℕ → Shape
  grow_zero s len =
      if leb len s.len
      then s
      else (let room = make_room s (len - s.len) in
          let totlen = room.len + room.free in
          record {
            len = len;
            free = totlen - len;
            buf = write_at s.len (zeros (len - s.len + 1)) room.buf;
          })

  -- `sdscatlen`.
  unfoldable pub cat_len : Shape → List ℕ → Shape
  cat_len s t =
      let room = make_room s (length t) in
      record {
        len = s.len + length t;
        free = room.free - length t;
        buf = write_at (s.len + length t) (0 ∷ []) (write_at s.len t room.buf);
      }

  -- `sdscpylen`.
  unfoldable pub copy_len : Shape → List ℕ → Shape
  copy_len s t =
      let room = if ltb (s.free + s.len) (length t) then make_room s (length t - s.len) else s in
      record {
        len = length t;
        free = (room.free + room.len) - length t;
        buf = write_at (length t) (0 ∷ []) (write_at 0 t room.buf);
      }
