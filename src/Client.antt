-- ===== src/Client.antt =====
-- The struct redisClient and the return codes of redis.h: what a command reads and writes. `key` is
-- argv[1]->ptr, which the commands stamp with a version; `dirty` is the server's count of changes,
-- and `return_value` the items of the returned list.
pub mod Outcome
pub mod Sample
use libredis_a.Common.{
  ℕ, ◌+◌, ◌%◌, ◌≡◌, Bool, true, false, ◌&&◌, not, Option, none, some, List, ◌==◌, ltb,
  if◌then◌else◌, ◌>>=◌,
}
use libredis_a.Common.Int.{ℤ, pos, negsuc, ltb_ℤ, eqb_ℤ}
use libredis_a.Sds.{Sds, version_change, version_add}
use libredis_a.Object.{Robj}
use libredis_a.Store.{Store}
use libredis_a.Db.{Clocks, Db, lookup_key, set_x_expire, remove_x_expire}

abbrev pub redis_ok : ℤ
redis_ok = pos 0

abbrev pub redis_err : ℤ
redis_err = negsuc 0

abbrev pub ok_not_exist : ℤ
ok_not_exist = pos 3

abbrev pub ok_but_already_exist : ℤ
ok_but_already_exist = pos 5

abbrev pub err_version : ℤ
err_version = negsuc 10

abbrev pub err_wrong_type : ℤ
err_wrong_type = negsuc 12

abbrev pub err_is_not_integer : ℤ
err_is_not_integer = negsuc 16

abbrev pub err_namespace : ℤ
err_namespace = negsuc 21

pub data Reply (O : Type 0) : Type 0 where
  integer_item : ℤ → Reply O
  object_item : Robj O → Reply O

pub record Client {O : Type 0} (dicts : Store (Robj O)) (times : Store ℤ) : Type 0 where
  pub db : Db dicts times
  pub key : Sds
  pub version_care : Bool
  pub version : ℕ
  pub expiretime : ℤ
  pub returncode : ℤ
  pub retvalue : ℤ
  pub return_value : List (Reply O)
  pub dirty : ℕ

abbrev pub version_of : {O : Type 0} → Option (Robj O × ℕ) → ℕ
version_of none = 0
version_of (some o) = o.1

abbrev pub object_of : {O : Type 0} → Option (Robj O × ℕ) → Option (Robj O)
object_of none = none
object_of (some o) = some (o.0)

module _ {O : Type 0} {dicts : Store (Robj O)} {times : Store ℤ} where
  abbrev pub returns : Client dicts times → ℤ → Client dicts times
  returns c code = record c { returncode = code }

  -- The test for a version conflict: the argument's version against the stored one, in `version`.
  abbrev pub version_conflict : Client dicts times → Bool
  version_conflict c =
      c.version_care && not (c.key.version == 0) && not (c.key.version == c.version)

  -- The key stamped with the stored version, or with 0 where nothing is stored, and with the next
  -- version if the client cares for versions.
  abbrev pub stamp : Client dicts times → Bool → Sds
  stamp c there =
      let key = version_change c.key (if there then c.version else 0) in
      if c.version_care then version_add key 1 else key

  abbrev pub stamped : Client dicts times → Bool → Client dicts times
  stamped c there = record c { key = stamp c there }

  -- The macro EXPIRE_OR_NOT.
  unfoldable pub expire_or_not : Client dicts times → Client dicts times
  expire_or_not c =
      if ltb_ℤ (pos 0) c.expiretime
      then record c { db = set_x_expire c.db c.key c.expiretime }
      else if eqb_ℤ c.expiretime (pos 0)
      then record c { db = (remove_x_expire c.db c.key).0 }
      else c

  -- The lookup of a command, with `&(c->version)`.
  unfoldable pub looked_up :
      Clocks → Client dicts times → Option (Client dicts times × Option (Robj O))
  looked_up t c = lookup_key t c.db c.key >>= λ r.
      some (record c { db = r.0; version = version_of (r.1) }, object_of (r.1))
