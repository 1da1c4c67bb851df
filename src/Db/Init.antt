-- ===== src/Db/Init.antt =====
-- The databases that initServer of redis.c makes.
use libredis_a.Common.{refl, ap, Bool, none}
use libredis_a.Common.Int.{ℤ}
use libredis_a.Object.{Robj}
use libredis_a.Store.FromDict.{from_dict, new_map, new_map_view}
use libredis_a.Db.{Db}
use libredis_a.Db.View.{View, when_of, Stands}

-- A database of `initServer`, where the flag dict_can_resize has the given value.
unfoldable pub new_db :
    {O : Type 0} (can_resize : Bool)
    → Db (from_dict {V = Robj O} can_resize) (from_dict {V = ℤ} can_resize)
new_db {O} can_resize = record {
  dict = new_map (Robj O) can_resize;
  expires = new_map ℤ can_resize;
  stat_expiredkeys = 0;
  stat_keyspace_hits = 0;
  stat_keyspace_misses = 0;
  logiclock = 1;
  need_remove_key = 0;
}

abbrev pub nothing : {O : Type 0} → View O
nothing = record { entries = λ q. none; times = λ q. none; clock = 1 }

-- A new database has no key.
pub new_db-Stands : {O : Type 0} (can_resize : Bool) → Stands (new_db {O = O} can_resize) nothing
unfolding new_db
new_db-Stands {O} can_resize = record {
  entries = new_map_view (Robj O) can_resize;
  expiring = λ q. ap when_of (new_map_view ℤ can_resize q);
  clock = refl;
  clocked = λ q k x h. absurd (cc);
  held = λ q h. refl;
}
