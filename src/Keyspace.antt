-- ===== src/Keyspace.antt =====
-- The commands of db.c on keys of any type. The arguments after argv[0] of delCommand are a list; the
-- object of a number argument is given by what `getLongFromObject` reads from it.
pub mod Del
pub mod Ttl
mod Examples
use libredis_a.Common.{
  ℕ, zero, suc, ◌+◌, ◌≡◌, Bool, true, false, ◌&&◌, ◌||◌, not, Option, none, some, List, [], ◌∷◌,
  ◌==◌, ltb, if◌then◌else◌, ◌>>=◌, is_some,
}
use libredis_a.Common.Int.{ℤ, pos, negsuc, ltb_ℤ, eqb_ℤ, ◌+ℤ◌, minus}
use libredis_a.Sds.{Sds}
use libredis_a.Object.{
  Robj, redis_string, redis_list, redis_set, redis_zset, redis_hash, redis_none, redis_unknown,
}
use libredis_a.Store.{Store}
use libredis_a.Db.{
  Clocks, Db, expire_if_needed, db_delete, db_exists, set_expire, get_expire, remove_expire,
}
use libredis_a.Client.{
  Client, redis_ok, redis_err, ok_not_exist, err_is_not_integer, err_namespace, returns, looked_up,
}

-- `selectDb`: the number of the database, or the error.
abbrev pub select_db : ℕ → ℤ → Option ℕ
select_db dbnum (pos id) = if ltb id dbnum then some id else none
select_db dbnum (negsuc id) = none

-- What typeCommand answers for an object.
abbrev pub type_answer : {O : Type 0} → Option (Robj O) → ℤ
type_answer none = pos redis_none
type_answer (some o) = if ltb o.type 5 then pos o.type else pos redis_unknown

-- `when` of `expireXGenericCommand` for positive seconds.
abbrev pub expire_when : Clocks → ℤ → ℤ
expire_when t seconds = if ltb_ℤ t.now seconds then seconds else t.now +ℤ seconds

-- The answer of ttlCommand: -1 is answered as 0.
abbrev pub ttl_answer : ℤ → ℤ
ttl_answer ttl = if ltb_ℤ ttl (pos 0) then pos 0 else ttl

module _ {O : Type 0} {dicts : Store (Robj O)} {times : Store ℤ} where
  -- The loop of `delCommand`: the database and how many keys it deleted.
  unfoldable pub del_loop : Db dicts times → List Sds → Db dicts times × ℕ
  del_loop db [] = (db, 0)
  del_loop db (key ∷ keys) =
      let (db1, deleted) = db_delete db key in
      let (db2, n) = del_loop db1 keys in (db2, (if deleted then 1 else 0) + n)

  unfoldable pub del_command : Client dicts times → List Sds → Client dicts times
  del_command c keys =
      let (db, deleted) = del_loop c.db keys in
      if deleted == 0 then record c { db = db; returncode = ok_not_exist } else record c {
        db = db;
        dirty = c.dirty + deleted;
        retvalue = pos deleted;
        returncode = redis_ok;
      }

  unfoldable pub exists_command : Clocks → Client dicts times → Option (Client dicts times)
  exists_command t c = expire_if_needed t c.db c.key >>= λ r.
      let (db, there) = db_exists (r.0) c.key in
      some (record c { db = db; returncode = if there then redis_ok else ok_not_exist })

  unfoldable pub type_command : Clocks → Client dicts times → Option (Client dicts times)
  type_command t c = looked_up t c >>= λ r. some (record (r.0) {
    retvalue = type_answer (r.1);
    returncode = if is_some (r.1) then redis_ok else ok_not_exist;
  })

  -- The end of `expireXGenericCommand`, for a key that is there.
  unfoldable pub expire_found : Clocks → ℤ → Client dicts times → Option (Client dicts times)
  expire_found t seconds c =
      if ltb_ℤ (pos 0) seconds
      then (set_expire c.db c.key (expire_when t seconds) >>= λ db.
          some (record c { db = db; dirty = c.dirty + 1; returncode = redis_ok }))
      else if eqb_ℤ seconds (pos 0)
      then (remove_expire c.db c.key >>= λ r.
          some (record c {
            db = r.0;
            dirty = c.dirty + (if r.1 then 1 else 0);
            returncode = redis_ok;
          }))
      else some (returns c redis_ok)

  -- `expireXGenericCommand`; no number is REDIS_ERR_IS_NOT_INTEGER.
  unfoldable pub expire_command :
      Clocks → Client dicts times → Option ℤ → Option (Client dicts times)
  expire_command t c none = some (returns c err_is_not_integer)
  expire_command t c (some seconds) =
      let (db, there) = db_exists c.db c.key in
      if there
      then expire_found t seconds (record c { db = db })
      else some (record c { db = db; returncode = ok_not_exist })

  -- `ttlCommand` after `getExpire`.
  unfoldable pub ttl_from : Clocks → Client dicts times → Db dicts times × ℤ → Client dicts times
  ttl_from t c (db, expire) =
      let (db1, there) = db_exists db c.key in
      if not (eqb_ℤ expire (negsuc 0))
      then record c {
        db = db;
        retvalue = ttl_answer (expire +ℤ minus t.now);
        returncode = redis_ok;
      }
      else record c {
        db = db1;
        retvalue = pos 0;
        returncode = if there then redis_ok else ok_not_exist;
      }

  unfoldable pub ttl_command : Clocks → Client dicts times → Option (Client dicts times)
  ttl_command t c = get_expire c.db c.key >>= λ r. some (ttl_from t c r)

  unfoldable pub persist_command : Client dicts times → Option (Client dicts times)
  persist_command c =
      let (db, there) = db_exists c.db c.key in
      if there
      then (remove_expire db c.key >>= λ r.
          some (record c {
            db = r.0;
            dirty = c.dirty + (if r.1 then 1 else 0);
            returncode = redis_ok;
          }))
      else some (record c { db = db; returncode = ok_not_exist })
