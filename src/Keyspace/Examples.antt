-- ===== src/Keyspace/Examples.antt =====
-- The theorems on the commands of db.c at concrete clients.
use libredis_a.Common.{◌≡◌, refl, some, [], ◌∷◌, arith}
use libredis_a.Common.Int.{pos, ◌+ℤ◌}
use libredis_a.Util.{same_bytes}
use libredis_a.Sds.{sds_key_compare}
use libredis_a.Db.Writes.{timed}
use libredis_a.Db.Sample.{dicts, times, key, other_key, seven, clocks, one_view, one_db-Stands}
use libredis_a.Client.{Client, redis_ok}
use libredis_a.Client.Outcome.{Leaves}
use libredis_a.Client.Sample.{client}
use libredis_a.Keyspace.{expire_command, ttl_command, del_command}
use libredis_a.Keyspace.Del.{del_command-Leaves, without_all}
use libredis_a.Keyspace.Ttl.{Times, expire_ttl}

-- Two keys, one of them twice; one is held.
del_command-Leaves_example :
    Leaves
      (some (del_command client (key ∷ other_key ∷ key ∷ [])))
      redis_ok
      1
      (without_all one_view (key ∷ other_key ∷ key ∷ []))
unfolding sds_key_compare same_bytes
del_command-Leaves_example =
    del_command-Leaves client one_view (key ∷ other_key ∷ key ∷ []) one_db-Stands

-- Thirty seconds from the second 100 on.
expire_ttl_example :
    (a : Client dicts times) × (expire_command clocks client (some (pos 30)) ≡ some a)
    × Times
        (ttl_command clocks (record client { db = a.db }))
        redis_ok
        (pos 30)
        0
        (timed one_view key (some (pos 130)))
unfolding sds_key_compare same_bytes ◌+ℤ◌
expire_ttl_example =
    expire_ttl clocks client one_view (key, seven) 100 30 one_db-Stands refl refl (omega arith)
