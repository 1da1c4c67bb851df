-- ===== src/Db.antt =====
-- db.c: the keyspace with its expiry times and logical clock. A database holds two dictionaries, from
-- keys to objects and from keys to times, each of a store. The steps that assert something return
-- `none` where the assertion fails. time(NULL) is one value during a call. `*version` and the result
-- of a lookup come back together.
pub mod View
pub mod Reads
pub mod Expiry
pub mod Writes
pub mod Times
pub mod Init
pub mod Sample
mod Examples
use libredis_a.Common.{
  ℕ, ◌+◌, ◌-◌, ◌%◌, ◌^◌, ◌≡◌, Bool, true, false, ◌&&◌, ◌||◌, not, Option, none, some, ◌==◌, ltb,
  leb, if◌then◌else◌, is_some, ◌>>=◌,
}
use libredis_a.Common.Int.{ℤ, pos, negsuc, ltb_ℤ, eqb_ℤ}
use libredis_a.Sds.{Sds, dup}
use libredis_a.Object.{Robj}
use libredis_a.Store.{Store}

-- shared.lruclock and time(NULL).
pub record Clocks : Type 0 where
  pub lruclock : ℕ
  pub now : ℤ

pub record Db {O : Type 0} (dicts : Store (Robj O)) (times : Store ℤ) : Type 0 where
  pub dict : dicts.Map
  pub expires : times.Map
  pub stat_expiredkeys : ℕ
  pub stat_keyspace_hits : ℕ
  pub stat_keyspace_misses : ℕ
  pub logiclock : ℕ
  pub need_remove_key : ℕ

abbrev pub size_t : ℕ
size_t = 2 ^ 64

module _ {O : Type 0} {dicts : Store (Robj O)} {times : Store ℤ} where
  -- `lookupKeyWithVersion`: the object, with its clock set, and the version of its key.
  unfoldable pub lookup_with_version :
      Clocks → Db dicts times → Sds → Db dicts times × Option (Robj O × ℕ)
  lookup_with_version c db key =
      let (d, de) = dicts.find db.dict key in
      elim de [
        | some (k, val) ↦ (
          record db {
            dict = dicts.write d key (λ o. record o { lru = c.lruclock });
            stat_keyspace_hits = db.stat_keyspace_hits + 1;
          },
          some (record val { lru = c.lruclock }, k.version),
        )
        | none ↦ (record db { dict = d; stat_keyspace_misses = db.stat_keyspace_misses + 1 }, none)
      ]

  unfoldable pub db_add : Db dicts times → Sds → Robj O → Db dicts times × Bool
  db_add db key val =
      let (d, de) = dicts.find db.dict key in
      if is_some de
      then (record db { dict = d }, false)
      else (record db { dict = (dicts.add d (dup key) val).0 }, true)

  unfoldable pub db_update_key : Db dicts times → Sds → Db dicts times × Bool
  db_update_key db key =
      let (d, de) = dicts.find db.dict key in
      if not (is_some de)
      then (record db { dict = d }, false)
      else (let (d1, updated) = dicts.update_key d key in (record db { dict = d1 }, updated))

  unfoldable pub db_super_replace : Db dicts times → Sds → Robj O → Db dicts times × Bool
  db_super_replace db key val =
      let (d, de) = dicts.find db.dict key in
      if not (is_some de)
      then (record db { dict = (dicts.add d (dup key) val).0 }, true)
      else (record db { dict = (dicts.super_replace d key val).0 }, false)

  unfoldable pub db_replace : Db dicts times → Sds → Robj O → Db dicts times × Bool
  db_replace db key val =
      let (d, de) = dicts.find db.dict key in
      if not (is_some de)
      then (record db { dict = (dicts.add d (dup key) val).0 }, true)
      else (record db { dict = (dicts.replace d key val).0 }, false)

  unfoldable pub db_exists : Db dicts times → Sds → Db dicts times × Bool
  db_exists db key = let (d, de) = dicts.find db.dict key in (record db { dict = d }, is_some de)

  unfoldable pub db_delete : Db dicts times → Sds → Db dicts times × Bool
  db_delete db key =
      let e =
        if ltb 0 (times.size db.expires) then (times.delete db.expires key).0 else db.expires in
      let (d, deleted) = dicts.delete db.dict key in (record db { dict = d; expires = e }, deleted)

  -- The round of `emptyDb` for one database.
  unfoldable pub empty_db : Db dicts times → Db dicts times × ℕ
  empty_db db = (
    record db { dict = dicts.empty db.dict; expires = times.empty db.expires },
    dicts.size db.dict,
  )

  unfoldable pub remove_expire : Db dicts times → Sds → Option (Db dicts times × Bool)
  remove_expire db key =
      let (d, de) = dicts.find db.dict key in
      let (e, deleted) = times.delete db.expires key in
      if is_some de then some (record db { dict = d; expires = e }, deleted) else none

  -- `removeXExpire`; DICT_ERR is 1, as is a deletion.
  unfoldable pub remove_x_expire : Db dicts times → Sds → Db dicts times × Bool
  remove_x_expire db key =
      let (d, de) = dicts.find db.dict key in
      let (e, deleted) = times.delete db.expires key in
      if is_some de
      then (record db { dict = d; expires = e }, deleted)
      else (record db { dict = d }, true)

  unfoldable pub set_expire : Db dicts times → Sds → ℤ → Option (Db dicts times)
  set_expire db key when =
      let (d, de) = dicts.find db.dict key in
      elim de [
        | none ↦ none
        | some (k, val) ↦
            some (record db { dict = d; expires = (times.replace db.expires k when).0 })
      ]

  unfoldable pub set_x_expire : Db dicts times → Sds → ℤ → Db dicts times
  set_x_expire db key when =
      let (d, de) = dicts.find db.dict key in
      elim de [
        | none ↦ record db { dict = d }
        | some (k, val) ↦ record db { dict = d; expires = (times.replace db.expires k when).0 }
      ]

  unfoldable pub get_expire : Db dicts times → Sds → Option (Db dicts times × ℤ)
  get_expire db key =
      if times.size db.expires == 0
      then some (db, negsuc 0)
      else (let (e, de) = times.find db.expires key in
          elim de [
            | none ↦ some (record db { expires = e }, negsuc 0)
            | some (k, when) ↦
                (let (d, there) = dicts.find db.dict key in
                  if is_some there then some (record db { dict = d; expires = e }, when) else none)
          ])

  unfoldable pub get_logiclock : Db dicts times → Sds → Option (Db dicts times × ℕ)
  get_logiclock db key =
      let (d, de) = dicts.find db.dict key in
      elim de [
        | none ↦ some (record db { dict = d }, 0)
        | some (k, val) ↦
            if k.logiclock == 0 then none else some (record db { dict = d }, k.logiclock)
      ]

  -- The test of the expiry time, at the end of `expireIfNeeded`.
  unfoldable pub expire_at : Clocks → Sds → Db dicts times × ℤ → Db dicts times × Bool
  expire_at c key (db, when) =
      if ltb_ℤ when (pos 0)
      then (db, false)
      else if not (ltb_ℤ when c.now)
      then (db, false)
      else db_delete (record db { stat_expiredkeys = db.stat_expiredkeys + 1 }) key

  -- The test of the logical clock.
  unfoldable pub expire_by_clock :
      Clocks → Sds → Db dicts times × ℕ → Option (Db dicts times × Bool)
  expire_by_clock c key (db, logiclock) =
      if logiclock == 0
      then some (db, false)
      else if ltb logiclock db.logiclock
      then some (
          db_delete
            (record db {
              need_remove_key = (db.need_remove_key + size_t - 1) % size_t;
              stat_expiredkeys = db.stat_expiredkeys + 1;
            })
            key)
      else (get_expire db key >>= λ r. some (expire_at c key r))

  unfoldable pub expire_if_needed : Clocks → Db dicts times → Sds → Option (Db dicts times × Bool)
  expire_if_needed c db key = get_logiclock db key >>= expire_by_clock c key

  -- `lookupKeyReadWithVersion`, and `lookupKeyWriteWithVersion`, which does the same.
  unfoldable pub lookup_key :
      Clocks → Db dicts times → Sds → Option (Db dicts times × Option (Robj O × ℕ))
  lookup_key c db key = expire_if_needed c db key >>= λ r. some (lookup_with_version c (r.0) key)

  unfoldable pub db_size : Db dicts times → ℕ
  db_size db = dicts.size db.dict
