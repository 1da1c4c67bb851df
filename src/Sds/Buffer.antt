-- ===== src/Sds/Buffer.antt =====
-- sds.c: the buffer of a string, with its unused bytes. The functions that change a string in place
-- leave its clock and version alone, which are not part of this model. `len` and `free` are ints;
-- a size_t is a number below 2^64. `realloc` stands for zrealloc.
use libredis_a.Common.{
  ℕ, zero, suc, ◌+◌, ◌-◌, ◌*◌, ◌%◌, ◌^◌, ◌&&◌, not, List, [], ◌∷◌, ◌++◌, length, ◌==◌, ltb, leb,
  if◌then◌else◌,
}
use libredis_a.Common.Int.{ℤ, pos, negsuc, ltb_ℤ, ◌+ℤ◌, minus}
use libredis_a.Common.Bytes.{to_word, of_word}
use libredis_a.Common.Blocks.{write_at, move}

-- struct sdshdr.
pub record Buffer : Type 0 where
  pub len : ℤ
  pub free : ℤ
  pub buf : List ℕ

-- The size of the fields before `buf`.
abbrev pub header : ℕ
header = 12

-- Conversions between int and size_t, and sums and differences of a size_t. A sum of ints wraps
-- here, where C leaves it undefined.
unfoldable pub size_of : ℤ → ℕ
size_of v = to_word 8 v

unfoldable pub int_of : ℕ → ℤ
int_of n = of_word 4 (n % 2 ^ 32)

unfoldable pub add_int : ℤ → ℤ → ℤ
add_int a b = of_word 4 (to_word 4 (a +ℤ b))

unfoldable pub add_size : ℕ → ℕ → ℕ
add_size a b = (a + b) % 2 ^ 64

unfoldable pub sub_size : ℕ → ℕ → ℕ
sub_size a b = (a + (2 ^ 64 - b)) % 2 ^ 64

-- `sdsnewlen`, without clock and version.
unfoldable pub new_buffer : List ℕ → Buffer
new_buffer init = record { len = int_of (length init); free = pos 0; buf = init ++ (0 ∷ []) }

abbrev pub zeros : ℕ → List ℕ
zeros zero = []
zeros (suc n) = 0 ∷ zeros n

-- An index of `sdsrange`: a negative one counts from the end, and stops at 0.
unfoldable pub from_end : ℕ → ℤ → ℤ
from_end len (pos n) = pos n
from_end len (negsuc n) =
    let at = int_of (add_size len (size_of (negsuc n))) in if ltb_ℤ at (pos 0) then pos 0 else at

-- The length of the range, or 0.
unfoldable pub span : ℤ → ℤ → ℕ
span start end =
    if ltb_ℤ end start then 0 else size_of (add_int (add_int end (minus start)) (pos 1))

-- Where the range starts and how long it is.
unfoldable pub range_of : ℕ → ℤ → ℤ → ℕ × ℕ
range_of len a b =
    let start = from_end len a in
    let end = from_end len b in
    if span start end == 0
    then (0, 0)
    else if not (ltb_ℤ start (int_of len))
    then (size_of start, 0)
    else if not (ltb_ℤ end (int_of len))
    then (size_of start, span start (int_of (sub_size len 1)))
    else (size_of start, span start end)

-- The end of `sdsrange`: the range comes to the front.
unfoldable pub cut_to : Buffer → ℕ → ℕ → Buffer
cut_to s start newlen =
    let moved =
      if not (start == 0) && not (newlen == 0) then move 0 start newlen s.buf else s.buf in
    record {
      len = int_of newlen;
      free = int_of (add_size (size_of s.free) (sub_size (size_of s.len) newlen));
      buf = write_at newlen (0 ∷ []) moved;
    }

-- `sdsrange`.
unfoldable pub range : Buffer → ℤ → ℤ → Buffer
range s a b =
    if size_of s.len == 0 then s else (let r = range_of (size_of s.len) a b in cut_to s (r.0) (r.1))

module _ (realloc : List ℕ → ℕ → List ℕ) where
  -- `sdsMakeRoomFor`.
  unfoldable pub make_room : Buffer → ℕ → Buffer
  make_room s addlen =
      let len = size_of s.len in
      let newlen = add_size len addlen * 2 % 2 ^ 64 in
      if leb addlen (size_of s.free) then s else record {
        len = s.len;
        free = int_of (sub_size newlen len);
        buf = realloc s.buf ((header + newlen + 1) % 2 ^ 64 - header);
      }

  -- `sdsgrowzero`.
  unfoldable pub grow_zero : Buffer → ℕ → Buffer
  grow_zero s len =
      let curlen = size_of s.len in
      let room = make_room s (len - curlen) in
      let totlen = size_of (add_int room.len room.free) in
      if leb len curlen then s else record {
        len = int_of len;
        free = int_of (sub_size totlen (size_of (int_of len)));
        buf = write_at curlen (zeros (add_size (len - curlen) 1)) room.buf;
      }

  -- `sdscatlen`.
  unfoldable pub cat_len : Buffer → List ℕ → Buffer
  cat_len s t =
      let curlen = size_of s.len in
      let room = make_room s (length t) in
      record {
        len = int_of (add_size curlen (length t));
        free = int_of (sub_size (size_of room.free) (length t));
        buf = write_at (add_size curlen (length t)) (0 ∷ []) (write_at curlen t room.buf);
      }

  -- `sdscpylen`.
  unfoldable pub copy_len : Buffer → List ℕ → Buffer
  copy_len s t =
      let room =
        if ltb (size_of (add_int s.free s.len)) (length t)
        then make_room s (sub_size (length t) (size_of s.len))
        else s in
      let totlen = size_of (add_int room.free room.len) in
      record {
        len = int_of (length t);
        free = int_of (sub_size totlen (length t));
        buf = write_at (length t) (0 ∷ []) (write_at 0 t room.buf);
      }
