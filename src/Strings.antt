-- ===== src/Strings.antt =====
-- t_string.c: the string commands. A command returns `none` where an assertion fails. Objects are
-- values here, and no memory runs out; `shared` says that an argument's reference count is above 1.
pub mod Storing
pub mod Set
pub mod Get
pub mod Incr
mod Examples
use libredis_a.Common.{
  ℕ, zero, suc, ◌+◌, ◌≡◌, Bool, true, false, ◌&&◌, ◌||◌, not, Option, none, some, List, [], ◌∷◌,
  ◌==◌, if◌then◌else◌, ◌>>=◌, is_some,
}
use libredis_a.Common.Int.{ℤ, pos, negsuc, ltb_ℤ, eqb_ℤ, ◌+ℤ◌, minus}
use libredis_a.Common.Bytes.{to_word, of_word}
use libredis_a.Sds.{Sds, version_change, version_add}
use libredis_a.Object.{
  Robj, Ptr, long_ptr, sds_ptr, other_ptr, redis_string, encoding_int, check_type,
  try_object_encoding, get_long, get_long_long, create_string_object_from_long_long,
}
use libredis_a.Store.{Store}
use libredis_a.Db.{
  Clocks, Db, lookup_key, db_add, db_super_replace, db_replace, set_expire, remove_expire,
  remove_x_expire,
}
use libredis_a.Client.{
  Client, Reply, integer_item, object_item, redis_ok, redis_err, ok_not_exist, ok_but_already_exist,
  err_version, err_wrong_type, err_is_not_integer, returns, version_conflict, stamped,
  expire_or_not, version_of, object_of, looked_up,
}

-- What `getGenericCommand` returns of an object; one that is encoded as an integer holds a long.
abbrev pub reply_of : {O : Type 0} → Robj O → Reply O
reply_of o =
    if o.encoding == encoding_int
    then (elim o.ptr [
      | long_ptr n ↦ integer_item n
      | sds_ptr s ↦ object_item o
      | other_ptr x ↦ object_item o
    ])
    else object_item o

module _ {O : Type 0} {dicts : Store (Robj O)} {times : Store ℤ} where
  -- The end of `setGenericCommand`, once the value is stored.
  unfoldable pub set_finish : Option ℤ → Client dicts times → Option (Client dicts times)
  set_finish (some seconds) c = set_expire c.db c.key seconds >>= λ db.
      some (record c { db = db; dirty = c.dirty + 1; returncode = redis_ok })
  set_finish none c = some (record c {
    db = if eqb_ℤ c.expiretime (pos 0) then (remove_x_expire c.db c.key).0 else c.db;
    dirty = c.dirty + 1;
    returncode = redis_ok;
  })

  -- From `dbAdd` on.
  unfoldable pub set_store :
      Bool → Robj O → Option ℤ → Client dicts times → Option (Client dicts times)
  set_store nx val expire c =
      let (db, added) = db_add c.db c.key val in
      if added
      then set_finish expire (record c { db = db })
      else if not nx
      then set_finish expire (record c { db = (db_super_replace db c.key val).0 })
      else some (record c { db = db; returncode = ok_but_already_exist })

  -- From the lookup on: the client has the new database and the stored version.
  unfoldable pub set_checked :
      Bool → Robj O → Option ℤ → Client dicts times → Option (Robj O) → Option (Client dicts times)
  set_checked nx val expire c none = set_store nx val expire (stamped c false)
  set_checked nx val expire c (some old) =
      if check_type old redis_string
      then some (returns c err_wrong_type)
      else if version_conflict c
      then some (returns c err_version)
      else set_store nx val expire (stamped c true)

  -- `setGenericCommand` from the lookup on, with the seconds that it read.
  unfoldable pub set_looked_up :
      Clocks → Client dicts times → Bool → Robj O → Option ℤ → Option (Client dicts times)
  set_looked_up t c nx val seconds = looked_up t c >>= λ r. set_checked nx val seconds (r.0) (r.1)

  -- What `getLongFromObject` made of the argument with the seconds: nothing, or a long.
  unfoldable pub set_timed :
      Clocks → Client dicts times → Bool → Robj O → Option ℤ → Option (Client dicts times)
  set_timed t c nx val none = some (returns c err_is_not_integer)
  set_timed t c nx val (some seconds) = set_looked_up t c nx val (some seconds)

  unfoldable pub get_found :
      Client dicts times → Option (Robj O) → Option (Client dicts times × Bool)
  get_found c none = some (returns c ok_not_exist, true)
  get_found c (some o) =
      if not (o.type == redis_string)
      then some (returns c err_wrong_type, false)
      else some (record c { return_value = reply_of o ∷ []; returncode = redis_ok }, true)

  -- `getGenericCommand`, and whether it returns REDIS_OK.
  unfoldable pub get_generic : Clocks → Client dicts times → Option (Client dicts times × Bool)
  get_generic t c = looked_up t (returns c redis_err) >>= λ r. get_found (r.0) (r.1)

  unfoldable pub get_command : Clocks → Client dicts times → Option (Client dicts times)
  get_command t c = get_generic t c >>= λ r. some (r.0)

  -- The end of `incrDecrCommand`: the sum, cut to int32_t, is stored.
  unfoldable pub incr_store : Clocks → ℤ → ℤ → Client dicts times → Client dicts times
  incr_store t value incr c =
      let sum = of_word 4 (to_word 4 (value +ℤ incr)) in
      let o = create_string_object_from_long_long t.lruclock sum in
      let done =
        expire_or_not (record c { db = (db_super_replace c.db c.key o).0; dirty = c.dirty + 1 }) in
      record done { retvalue = sum; returncode = redis_ok }

  module _ (strtoll : List ℕ → ℤ × List ℕ) (erange : List ℕ → Bool) where
    -- `setGenericCommand`; `expire` is the object with the seconds, or none where it is NULL.
    unfoldable pub set_generic :
        Clocks → Client dicts times → Bool → Robj O → Option (Robj O) → Option (Client dicts times)
    set_generic t c nx val none = set_looked_up t (returns c redis_err) nx val none
    set_generic t c nx val (some expire) =
        get_long strtoll erange (some expire) >>= set_timed t (returns c redis_err) nx val

    unfoldable pub set_command :
        Clocks → Client dicts times → Bool → Robj O → Option (Client dicts times)
    set_command t c shared val =
        try_object_encoding strtoll shared val >>= λ o. set_generic t c false o none

    unfoldable pub setnx_command :
        Clocks → Client dicts times → Bool → Robj O → Option (Client dicts times)
    setnx_command t c shared val =
        try_object_encoding strtoll shared val >>= λ o. set_generic t c true o none

    -- `setexCommand`, and with nx `setnxexCommand`.
    unfoldable pub setex_command :
        Clocks → Client dicts times → Bool → Bool → Robj O → Robj O → Option (Client dicts times)
    setex_command t c nx shared val expire =
        try_object_encoding strtoll shared val >>= λ o. set_generic t c nx o (some expire)

    unfoldable pub getset_store : Client dicts times × Bool → Robj O → Option (Client dicts times)
    getset_store (c, false) o = some c
    getset_store (c, true) o = remove_expire (db_replace c.db c.key o).0 c.key >>= λ r.
        some (record c { db = r.0; dirty = c.dirty + 1 })

    unfoldable pub getset_command :
        Clocks → Client dicts times → Bool → Robj O → Option (Client dicts times)
    getset_command t c shared val = get_generic t c >>= λ r.
        if r.1 then (try_object_encoding strtoll shared val >>= getset_store r) else some (r.0)

    -- After the version check: the value is read from the object, or is `init_value`.
    unfoldable pub incr_read :
        Clocks → ℤ → ℤ → Client dicts times → Option (Robj O) → Option (Client dicts times)
    incr_read t init_value incr c none = some (incr_store t init_value incr c)
    incr_read t init_value incr c (some o) = get_long_long strtoll erange (some o) >>= λ r. elim r [
      | none ↦ some (returns c err_is_not_integer)
      | some value ↦ some (incr_store t value incr c)
    ]

    unfoldable pub incr_checked :
        Clocks → ℤ → ℤ → Client dicts times → Option (Robj O) → Option (Client dicts times)
    incr_checked t init_value incr c none = incr_read t init_value incr (stamped c false) none
    incr_checked t init_value incr c (some o) =
        if check_type o redis_string
        then some (returns c err_wrong_type)
        else if version_conflict c
        then some (returns c err_version)
        else incr_read t init_value incr (stamped c true) (some o)

    -- `incrDecrCommand`.
    unfoldable pub incr_decr : Clocks → Client dicts times → ℤ → ℤ → Option (Client dicts times)
    incr_decr t c init_value incr =
        looked_up t (returns c redis_err) >>= λ r. incr_checked t init_value incr (r.0) (r.1)

    unfoldable pub incr_command : Clocks → Client dicts times → Option (Client dicts times)
    incr_command t c = incr_decr t c (pos 0) (pos 1)

    unfoldable pub decr_command : Clocks → Client dicts times → Option (Client dicts times)
    decr_command t c = incr_decr t c (pos 0) (negsuc 0)

    -- An argument that is no integer: REDIS_ERR_IS_NOT_INTEGER, with the answer 0 for incrbyCommand.
    unfoldable pub decrby_from :
        Clocks → Client dicts times → Option ℤ → Option (Client dicts times)
    decrby_from t c none = some (returns c err_is_not_integer)
    decrby_from t c (some incr) = incr_decr t c (pos 0) (minus incr)

    unfoldable pub decrby_command :
        Clocks → Client dicts times → Robj O → Option (Client dicts times)
    decrby_command t c arg = get_long_long strtoll erange (some arg) >>= decrby_from t c

    unfoldable pub incrby_from :
        Clocks → Client dicts times → ℤ → Option ℤ → Option (Client dicts times)
    incrby_from t c init_value none =
        some (record c { returncode = err_is_not_integer; retvalue = pos 0 })
    incrby_from t c init_value (some incr) = incr_decr t c init_value incr

    unfoldable pub incrby_with :
        Clocks → Client dicts times → Robj O → Option ℤ → Option (Client dicts times)
    incrby_with t c arg none = some (record c { returncode = err_is_not_integer; retvalue = pos 0 })
    incrby_with t c arg (some init_value) =
        get_long_long strtoll erange (some arg) >>= incrby_from t c init_value

    unfoldable pub incrby_command :
        Clocks → Client dicts times → Robj O → Robj O → Option (Client dicts times)
    incrby_command t c init arg = get_long_long strtoll erange (some init) >>= incrby_with t c arg
