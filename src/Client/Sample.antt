-- ===== src/Client/Sample.antt =====
-- Clients for the examples.
use libredis_a.Common.{true, []}
use libredis_a.Common.Int.{pos}
use libredis_a.Client.{Client}
use libredis_a.Db.Sample.{dicts, times, key, empty_db, one_db}

-- A client that cares for versions and sets no time, and the same on a database without keys.
abbrev pub client : Client dicts times
client = record {
  db = one_db;
  key = key;
  version_care = true;
  version = 0;
  expiretime = pos 0;
  returncode = pos 0;
  retvalue = pos 0;
  return_value = [];
  dirty = 0;
}

abbrev pub new_client : Client dicts times
new_client = record client { db = empty_db }
