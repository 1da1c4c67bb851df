-- ===== src/Db/Examples.antt =====
-- The theorems on db.c at concrete databases.
use libredis_a.Common.{refl, true, false, some}
use libredis_a.Util.{same_bytes}
use libredis_a.Sds.{version_change, sds_key_compare}
use libredis_a.Db.{Db, expire_if_needed, lookup_key, db_super_replace}
use libredis_a.Db.View.{View, Stands, Returns, Yields, without}
use libredis_a.Db.Writes.{updated, db_super_replace-Returns}
use libredis_a.Db.Reads.{touched, lookup_key-Yields}
use libredis_a.Db.Expiry.{expire_if_needed-Yields}
use libredis_a.Db.Sample.{
  Nothing, dicts, times, key, seven, word, clocks, one_db, one_view, one_db-Stands, real,
}

-- The database once its logical clock has passed the key's.
abbrev late_db : Db dicts times
late_db = record one_db { logiclock = 2 }

abbrev late_view : View Nothing
late_view = record one_view { clock = 2 }

late_db-Stands : Stands late_db late_view
late_db-Stands =
    let s = one_db-Stands in
    record {
      entries = s.entries;
      expiring = s.expiring;
      clock = refl;
      clocked = s.clocked;
      held = s.held;
    }

expire_if_needed-Yields_example :
    Yields (expire_if_needed clocks late_db key) true (without late_view key)
unfolding sds_key_compare same_bytes
expire_if_needed-Yields_example =
    expire_if_needed-Yields clocks key late_db late_view late_db-Stands

lookup_key-Yields_example :
    Yields
      (lookup_key clocks one_db key)
      (some (record seven { lru = 9 }, 4))
      (touched clocks one_view key)
unfolding sds_key_compare same_bytes
lookup_key-Yields_example = lookup_key-Yields clocks key one_db one_view one_db-Stands

db_super_replace-Returns_example :
    Returns
      (db_super_replace one_db key word)
      false
      (updated (λ e. (version_change (e.0) 4, word)) one_view key)
unfolding sds_key_compare same_bytes
db_super_replace-Returns_example =
    db_super_replace-Returns one_db one_view one_db-Stands key word real
