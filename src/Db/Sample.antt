-- ===== src/Db/Sample.antt =====
-- Databases with one key, for the examples.
use libredis_a.Common.{◌≢◌, true, [], ◌∷◌, arith}
use libredis_a.Common.Int.{ℤ, pos}
use libredis_a.Sds.{Sds}
use libredis_a.Object.{Robj, create_string_object, create_string_object_from_long_long}
use libredis_a.Store.{Store}
use libredis_a.Store.FromDict.{from_dict}
use libredis_a.Db.{Clocks, Db, db_add}
use libredis_a.Db.View.{View, Stands}
use libredis_a.Db.Writes.{inserted, db_add-Returns}
use libredis_a.Db.Init.{new_db, nothing, new_db-Stands}

-- Other objects hold nothing here.
abbrev pub Nothing : Type 0
Nothing = Unit

abbrev pub dicts : Store (Robj Nothing)
dicts = from_dict true

abbrev pub times : Store ℤ
times = from_dict true

-- The key "k" with the logical clock 1 and version 4, and the string 7 as an integer.
abbrev pub key : Sds
key = record { logiclock = 1; version = 4; bytes = 107 ∷ [] }

abbrev pub other_key : Sds
other_key = record { logiclock = 1; version = 0; bytes = 108 ∷ [] }

abbrev pub seven : Robj Nothing
seven = create_string_object_from_long_long 0 (pos 7)

abbrev pub word : Robj Nothing
word = create_string_object 0 (104 ∷ 105 ∷ []) 0 0

abbrev pub clocks : Clocks
clocks = record { lruclock = 9; now = pos 100 }

abbrev pub empty_db : Db dicts times
empty_db = new_db true

abbrev pub one_view : View Nothing
one_view = inserted nothing key seven

abbrev pub one_db : Db dicts times
one_db = (db_add empty_db key seven).0

pub real : key.logiclock ≢ 0
real = omega arith

pub one_db-Stands : Stands one_db one_view
one_db-Stands = (db_add-Returns empty_db nothing (new_db-Stands true) key seven real).stands
