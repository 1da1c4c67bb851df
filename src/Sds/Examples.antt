-- ===== src/Sds/Examples.antt =====
-- Runs of sds.c, and its theorem at concrete changes.
use libredis_a.Common.{◌^◌, ◌-◌, ◌≡◌, refl, List, [], ◌∷◌, arith}
use libredis_a.Common.Int.{pos, negsuc, ◌+ℤ◌}
use libredis_a.Common.Bytes.{to_word, of_word}
use libredis_a.Common.Blocks.{take, drop, write_at, move}
use libredis_a.Common.Realloc.{realloc, realloc-IsRealloc}
use libredis_a.Sds.Buffer.{
  size_of, int_of, add_int, add_size, sub_size, new_buffer, from_end, span, range_of, cut_to, range,
  make_room, grow_zero, cat_len, copy_len,
}
use libredis_a.Sds.Slice.{pick}
use libredis_a.Sds.Edits.{Edit, append_edit, grow_edit, range_edit, meaning}
use libredis_a.Sds.History.{IsShort, Carries, run, run-Carries}

-- "ab" and "cd", of which the last three are kept; two zeros follow.
abbrev edits : List Edit
edits = grow_edit 5 ∷ range_edit (negsuc 2) (negsuc 0) ∷ append_edit (99 ∷ 100 ∷ []) ∷ []

five : (run realloc (97 ∷ 98 ∷ []) edits).len ≡ pos 5
unfolding take drop write_at move realloc to_word of_word ◌+ℤ◌ size_of int_of add_int add_size
    sub_size new_buffer from_end span range_of cut_to range make_room grow_zero cat_len copy_len run
five = refl

edits-IsShort : IsShort (97 ∷ 98 ∷ []) edits
unfolding IsShort meaning
edits-IsShort = (omega arith, (omega arith, omega arith, (omega arith, omega arith)))

run-Carries_example : Carries (run realloc (97 ∷ 98 ∷ []) edits) (98 ∷ 99 ∷ 100 ∷ 0 ∷ 0 ∷ [])
unfolding pick meaning
run-Carries_example = run-Carries realloc realloc-IsRealloc (97 ∷ 98 ∷ []) edits edits-IsShort

-- With 2^30 bytes of string and as many unused ones, the sum of the two ints is negative.
overflow : add_int (pos (2 ^ 30)) (pos (2 ^ 30)) ≡ negsuc (2 ^ 31 - 1)
unfolding add_int to_word of_word ◌+ℤ◌
overflow = refl
