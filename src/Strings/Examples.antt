-- ===== src/Strings/Examples.antt =====
-- The theorems on the string commands at concrete clients.
use libredis_a.Common.{◌≡◌, refl, true, false, none, some, [], ◌∷◌, arith}
use libredis_a.Common.Int.{pos, ◌+ℤ◌}
use libredis_a.Common.Bytes.{of_word, to_word}
use libredis_a.Util.{same_bytes}
use libredis_a.Util.Strtoll.{strtoll, strtoll-IsStrtoll}
use libredis_a.Sds.{sds_key_compare}
use libredis_a.Object.{
  Robj, create_string_object, create_string_object_from_long_long, get_long, get_long_long,
}
use libredis_a.Db.Writes.{updated}
use libredis_a.Db.Init.{nothing, new_db-Stands}
use libredis_a.Db.Sample.{
  Nothing, dicts, times, key, word, seven, clocks, one_view, one_db-Stands, real,
}
use libredis_a.Client.{Client, redis_ok}
use libredis_a.Client.Outcome.{Leaves, seen}
use libredis_a.Client.Sample.{client, new_client}
use libredis_a.Strings.{set_generic, set_command, get_generic, incr_decr}
use libredis_a.Strings.Set.{TimedOutcome, set_generic_lem}
use libredis_a.Strings.Storing.{set_time, revalued}
use libredis_a.Strings.Get.{Returns, set_get}
use libredis_a.Strings.Incr.{Counts, incr_decr_lem, counted}

-- The client's version 4 is the stored one; the key's next version is 5. With "7" as seconds the
-- key gets a time, and with "hi" nothing is set.
set_generic_lem_example :
    Leaves (set_generic strtoll (λ s. false) clocks client false word none) redis_ok 1 (
      set_time none
        (pos 0)
        (updated
          (revalued (record key { version = 5 }) word)
          (seen clocks one_view key)
          (record key { version = 5 }))
        (record key { version = 5 }))
    × ((expire : Robj Nothing)
        → TimedOutcome clocks client one_view false word
            (get_long strtoll (λ s. false) (some expire))
            (set_generic strtoll (λ s. false) clocks client false word (some expire)))
unfolding sds_key_compare same_bytes
set_generic_lem_example =
    set_generic_lem clocks client one_view one_db-Stands real false word strtoll (λ s. false)

set_for_seconds :
    Leaves (set_generic strtoll (λ s. false) clocks client false word (some seven)) redis_ok 1 (
      set_time
        (some (pos 7))
        (pos 0)
        (updated
          (revalued (record key { version = 5 }) word)
          (seen clocks one_view key)
          (record key { version = 5 }))
        (record key { version = 5 }))
unfolding sds_key_compare same_bytes get_long get_long_long
set_for_seconds =
    (set_generic_lem clocks client one_view one_db-Stands real false word strtoll (λ s. false)).1
      seven

-- "-7" is stored as an integer, and read as that.
set_get_example :
    (a : Client dicts times) × (set_command strtoll
        (λ s. false)
        clocks
        new_client
        false
        (create_string_object 0 (45 ∷ 55 ∷ []) 0 0)
      ≡ some a)
    × Returns clocks new_client nothing
        (get_generic clocks (record new_client { db = a.db }))
        (45 ∷ 55 ∷ [])
set_get_example =
    set_get strtoll strtoll-IsStrtoll (λ s. false) clocks new_client nothing 0 (45 ∷ 55 ∷ []) 0 0
      false (new_db-Stands true) real (omega arith) refl refl

-- 7 and 5 make 12.
incr_decr_lem_example :
    Counts (incr_decr strtoll (λ s. false) clocks client (pos 0) (pos 5)) (pos 12) 1 (
      counted
        (pos 0)
        (seen clocks one_view key)
        (record key { version = 5 })
        (create_string_object_from_long_long 9 (pos 12)))
unfolding sds_key_compare same_bytes get_long_long ◌+ℤ◌ of_word to_word
incr_decr_lem_example =
    incr_decr_lem strtoll (λ s. false) clocks client one_view (pos 0) (pos 5) one_db-Stands real
