-- ===== src/Zipmap/Examples.antt =====
-- Runs of zipmap.c, and its theorems at a concrete sequence of calls.
use libredis_a.Common.{◌≡◌, refl, some, List, [], ◌∷◌, arith}
use libredis_a.Common.Realloc.{realloc, realloc-IsRealloc}
use libredis_a.Common.Blocks.{take, drop, write_at, move, word_bytes, word_value}
use libredis_a.Util.{same_bytes}
use libredis_a.Zipmap.{
  decode_length, encode_length, raw_key_length, raw_value_length, raw_entry_length, key_matches,
  value_step, lookup_loop, lookup_raw, value_from, get, required_length, next, count_loop,
  entry_count, entry_bytes, resize, place_new, place_old, fill, set, delete,
}
use libredis_a.Zipmap.History.{
  Call, set_call, delete_call, bytes_for, meaning, step, run, Holds, run-Holds,
}

program : Unit {0}
unfolding take drop write_at move word_bytes word_value same_bytes decode_length encode_length
    raw_key_length raw_value_length raw_entry_length key_matches value_step lookup_loop lookup_raw
    value_from get required_length next count_loop entry_count entry_bytes resize place_new
    place_old fill set delete step run
program = tt

-- "k" is set to "ab", then "j" to "c", then "k" to "abcdef" and to "x"; "j" goes.
abbrev calls : List Call
calls =
    delete_call (106 ∷ [])
    ∷ set_call (107 ∷ []) (120 ∷ [])
    ∷ set_call (107 ∷ []) (97 ∷ 98 ∷ 99 ∷ 100 ∷ 101 ∷ 102 ∷ [])
    ∷ set_call (106 ∷ []) (99 ∷ [])
    ∷ set_call (107 ∷ []) (97 ∷ 98 ∷ [])
    ∷ []

-- The large place is given back.
one_left : run realloc calls ≡ some (1 ∷ 1 ∷ 107 ∷ 1 ∷ 0 ∷ 120 ∷ 255 ∷ [])
unfolding program realloc
one_left = refl

run-Holds_example : Holds (run realloc calls) (meaning calls) (bytes_for calls)
unfolding encode_length
run-Holds_example = run-Holds realloc realloc-IsRealloc calls (omega arith)
