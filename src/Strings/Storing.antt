-- ===== src/Strings/Storing.antt =====
-- The end of `setGenericCommand`: the value is stored, with its time.
use libredis_a.Common.{
  ◌+◌, ◌≡◌, ◌≢◌, refl, ◌∙◌, Bool, true, false, Option, none, some, if◌then◌else◌, Bool-cases, inl,
  inr,
}
use libredis_a.Common.Int.{ℤ, pos, eqb_ℤ}
use libredis_a.Sds.{Sds}
use libredis_a.Sds.Keys.{db_dict_type}
use libredis_a.Object.{Robj}
use libredis_a.Store.{Store}
use libredis_a.Db.{db_add, db_super_replace, remove_x_expire}
use libredis_a.Db.View.{View, Stands}
use libredis_a.Db.Writes.{timed, updated, inserted, db_add-Returns, db_super_replace-Returns}
use libredis_a.Db.Times.{set_expire_lem, remove_x_expire-Returns}
use libredis_a.Client.{Client, redis_ok, ok_but_already_exist}
use libredis_a.Client.Outcome.{Leaves}
use libredis_a.Strings.{set_finish, set_store}

-- The time of a key after a set: the given one, or none where the client's time is 0.
abbrev pub set_time : {O : Type 0} → Option ℤ → ℤ → View O → Sds → View O
set_time (some seconds) expiretime w key = timed w key (some seconds)
set_time none expiretime w key = if eqb_ℤ expiretime (pos 0) then timed w key none else w

-- The stored version becomes the key's.
abbrev pub revalued : {O : Type 0} → Sds → Robj O → Sds × Robj O → Sds × Robj O
revalued key val e = (record (e.0) { version = key.version }, val)

module _ {O : Type 0} {dicts : Store (Robj O)} {times : Store ℤ} where
  set_finish-Leaves :
      (expire : Option ℤ) (c : Client dicts times) (w : View O) (e : Sds × Robj O)
      → Stands c.db w
      → w.entries c.key ≡ some e
      → Leaves (set_finish expire c) redis_ok (c.dirty + 1) (set_time expire c.expiretime w c.key)
  unfolding set_finish
  set_finish-Leaves (some seconds) c w e s there =
      let (db, is, stands) = set_expire_lem c.db w s c.key e seconds there in
      rw is (record {
        after = record c { db = db; dirty = c.dirty + 1; returncode = redis_ok };
        is = refl;
        code_is = refl;
        dirty_is = refl;
        stands = stands;
      })
  set_finish-Leaves none c w e s there = elim (Bool-cases (eqb_ℤ c.expiretime (pos 0))) [
    | inl f ↦ rw f (record {
      after = record c {
        db = (remove_x_expire c.db c.key).0;
        dirty = c.dirty + 1;
        returncode = redis_ok;
      };
      is = refl;
      code_is = refl;
      dirty_is = refl;
      stands = rw there at ((remove_x_expire-Returns c.db w s c.key).stands);
    })
    | inr f ↦ rw f (record {
      after = record c { dirty = c.dirty + 1; returncode = redis_ok };
      is = refl;
      code_is = refl;
      dirty_is = refl;
      stands = s;
    })
  ]

  module _ (nx : Bool) (val : Robj O) (expire : Option ℤ) (c : Client dicts times) (w : View O)
      (s : Stands c.db w) (real : c.key.logiclock ≢ 0) where
    pub set_store_new :
        w.entries c.key ≡ none
        → Leaves
            (set_store nx val expire c)
            redis_ok
            (c.dirty + 1)
            (set_time expire c.expiretime (inserted w c.key val) c.key)
    unfolding set_store
    set_store_new n =
        let added = db_add-Returns c.db w s c.key val real in
        let ok : (db_add c.db c.key val).1 ≡ true = added.is ∙ rw n refl in
        let stands : Stands (db_add c.db c.key val).0 (inserted w c.key val) =
          rw n at added.stands in
        rw ok (
          set_finish-Leaves expire (record c { db = (db_add c.db c.key val).0 })
            (inserted w c.key val) (c.key, val) stands (rw (db_dict_type.compare_refl c.key) refl))

    pub set_store_old :
        (e : Sds × Robj O)
        → w.entries c.key ≡ some e
        → (if nx
            then Leaves (set_store nx val expire c) ok_but_already_exist c.dirty w
            else Leaves
                (set_store nx val expire c)
                redis_ok
                (c.dirty + 1)
                (set_time expire c.expiretime (updated (revalued c.key val) w c.key) c.key))
    unfolding set_store
    set_store_old e n =
        let added = db_add-Returns c.db w s c.key val real in
        let no : (db_add c.db c.key val).1 ≡ false = added.is ∙ rw n refl in
        let kept : Stands (db_add c.db c.key val).0 w = rw n at added.stands in
        elim (Bool-cases nx) [
          | inl x ↦
              rw (no, x)
                (record {
                  after = record c {
                    db = (db_add c.db c.key val).0;
                    returncode = ok_but_already_exist;
                  };
                  is = refl;
                  code_is = refl;
                  dirty_is = refl;
                  stands = kept;
                })
          | inr x ↦
              let replaced =
                db_super_replace-Returns (db_add c.db c.key val).0 w kept c.key val real in
              let db1 = (db_super_replace (db_add c.db c.key val).0 c.key val).0 in
              let stands : Stands db1 (updated (revalued c.key val) w c.key) =
                rw n at replaced.stands in
              rw (no, x)
                (set_finish-Leaves expire (record c { db = db1 })
                  (updated (revalued c.key val) w c.key) (revalued c.key val e) stands
                  (rw (db_dict_type.compare_refl c.key, n) refl))
        ]
