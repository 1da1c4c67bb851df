-- ===== src/Strings/Incr.antt =====
-- `incrDecrCommand`: every way it ends.
use libredis_a.Common.{
  ℕ, ◌+◌, ◌≡◌, ◌≢◌, refl, sym, ap, ◌∙◌, Bool, true, false, Option, none, some, List, if◌then◌else◌,
  is_some, Bool-cases, Option-cases, inl, inr,
}
use libredis_a.Common.Int.{ℤ, ◌+ℤ◌}
use libredis_a.Common.Bytes.{to_word, of_word}
use libredis_a.Sds.{Sds}
use libredis_a.Sds.Keys.{db_dict_type}
use libredis_a.Object.{
  Robj, redis_string, check_type, get_long_long, create_string_object_from_long_long,
}
use libredis_a.Store.{Store}
use libredis_a.Db.{Clocks, Db, db_super_replace}
use libredis_a.Db.View.{View, Stands}
use libredis_a.Db.Writes.{put, db_super_replace-Returns}
use libredis_a.Db.Reads.{used, answer_of}
use libredis_a.Client.{
  Client, redis_ok, redis_err, err_version, err_wrong_type, err_is_not_integer, returns,
  version_conflict, stamp, stamped, version_of, object_of,
}
use libredis_a.Client.Outcome.{
  live, seen, time_set, Leaves, stamp_clock, looked_up_lem, expire_or_not_lem,
}
use libredis_a.Strings.{incr_store, incr_read, incr_checked, incr_decr}
use libredis_a.Strings.Storing.{revalued}

-- The number that is stored: the sum cut to 32 bits.
abbrev pub int32_sum : ℤ → ℤ → ℤ
int32_sum value incr = of_word 4 (to_word 4 (value +ℤ incr))

-- The view with a key's value set, and its time set by the client.
abbrev pub counted : {O : Type 0} → ℤ → View O → Sds → Robj O → View O
counted expiretime w key o = time_set expiretime (put (revalued key o) w key o) key

abbrev pub sum_object : {O : Type 0} → Clocks → ℤ → ℤ → Robj O
sum_object t value incr = create_string_object_from_long_long t.lruclock (int32_sum value incr)

put_there :
    {O : Type 0} (w : View O) (key : Sds) (o : Robj O)
    → is_some ((put (revalued key o) w key o).entries key) ≡ true
put_there w key o = elim (Option-cases (w.entries key)) [
  | inl n ↦ rw (n, db_dict_type.compare_refl key) refl
  | inr (e, n) ↦ rw (n, db_dict_type.compare_refl key, n) refl
]

module _ {O : Type 0} {dicts : Store (Robj O)} {times : Store ℤ} where
  -- A count that is stored and returned.
  pub record Counts (r : Option (Client dicts times)) (value : ℤ) (dirty : ℕ) (w : View O)
      : Type 0 where
    pub leaves : Leaves r redis_ok dirty w
    pub value_is : leaves.after.retvalue ≡ value

  module _ (t : Clocks) (value incr : ℤ) where
    incr_store-Counts :
        (c : Client dicts times) (w : View O)
        → Stands c.db w
        → c.key.logiclock ≢ 0
        → Counts
            (some (incr_store t value incr c))
            (int32_sum value incr)
            (c.dirty + 1)
            (counted c.expiretime w c.key (sum_object t value incr))
    incr_store-Counts c w s real =
        let replaced = db_super_replace-Returns c.db w s c.key (sum_object t value incr) real in
        let c1 = record c {
          db = (db_super_replace c.db c.key (sum_object t value incr)).0;
          dirty = c.dirty + 1;
        } in
        let (db, is, stands) =
          expire_or_not_lem c1 _ replaced.stands (put_there w c.key (sum_object t value incr)) in
        record {
          leaves = record {
            after = incr_store t value incr c;
            is = refl;
            code_is = unfold incr_store in refl;
            dirty_is = unfold incr_store in ap (λ (x : Client dicts times). x.dirty) is;
            stands = unfold incr_store in rw (incr_store, is) stands;
          };
          value_is = unfold incr_store in refl;
        }

  module _ (strtoll : List ℕ → ℤ × List ℕ) (erange : List ℕ → Bool) (t : Clocks)
      (c : Client dicts times) (v : View O) (init incr : ℤ) where
    -- With what `getLongLongFromObject` reads from a present object.
    abbrev pub ReadOutcome : Option (Client dicts times) → Sds → Option (Option ℤ) → Type 0
    ReadOutcome r key none = r ≡ none
    ReadOutcome r key (some none) = Leaves r err_is_not_integer c.dirty (seen t v c.key)
    ReadOutcome r key (some (some value)) =
        Counts r (int32_sum value incr) (c.dirty + 1)
          (counted c.expiretime (seen t v c.key) key (sum_object t value incr))

    -- How `incrDecrCommand` ends, by the live entry of the key.
    abbrev pub IncrOutcome : Option (Client dicts times) → Option (Sds × Robj O) → Type 0
    IncrOutcome r none =
        Counts r (int32_sum init incr) (c.dirty + 1)
          (counted c.expiretime (seen t v c.key) (stamp c false) (sum_object t init incr))
    IncrOutcome r (some e) =
        let c1 = record c { version = (e.0).version } in
        if check_type (e.1) redis_string
        then Leaves r err_wrong_type c.dirty (seen t v c.key)
        else if version_conflict c1
        then Leaves r err_version c.dirty (seen t v c.key)
        else ReadOutcome r (stamp c1 true) (get_long_long strtoll erange (some ((used t e).1)))

    module _ (s : Stands c.db v) (real : c.key.logiclock ≢ 0) where
      from_read :
          (c1 : Client dicts times) (o : Robj O)
          → Stands c1.db (seen t v c.key)
          → c1.key.logiclock ≢ 0
          → c1.dirty ≡ c.dirty
          → c1.expiretime ≡ c.expiretime
          → ReadOutcome
              (incr_read strtoll erange t init incr c1 (some o))
              c1.key
              (get_long_long strtoll erange (some o))
      unfolding incr_read
      from_read c1 o s1 real1 d x = elim (Option-cases (get_long_long strtoll erange (some o))) [
        | inl n ↦ rw n refl
        | inr (none, n) ↦ rw n (record {
          after = returns c1 err_is_not_integer;
          is = refl;
          code_is = refl;
          dirty_is = d;
          stands = s1;
        })
        | inr (some value, n) ↦
            rw (n, ← d, ← x) (incr_store-Counts t value incr c1 (seen t v c.key) s1 real1)
      ]

      from_lookup :
          (db : Db dicts times) (o : Option (Sds × Robj O))
          → Stands db (seen t v c.key)
          → IncrOutcome
              (incr_checked strtoll erange t init incr
                (record c { db = db; version = version_of (answer_of t o); returncode = redis_err })
                (object_of (answer_of t o)))
              o
      unfolding incr_checked
      from_lookup db none s1 =
          let c1 = record c { db = db; version = 0; returncode = redis_err } in
          let real1 : (stamp c1 false).logiclock ≢ 0 = λ z. real (sym (stamp_clock c1 false) ∙ z) in
          unfold incr_read in
          incr_store-Counts t init incr (stamped c1 false) (seen t v c.key) s1 real1
      from_lookup db (some e) s1 =
          let c1 = record c { db = db; version = (e.0).version; returncode = redis_err } in
          let real1 : (stamp c1 true).logiclock ≢ 0 = λ z. real (sym (stamp_clock c1 true) ∙ z) in
          elim (Bool-cases (check_type (e.1) redis_string)) [
            | inl f ↦ rw f (record {
              after = returns c1 err_wrong_type;
              is = refl;
              code_is = refl;
              dirty_is = refl;
              stands = s1;
            })
            | inr f ↦ elim (Bool-cases (version_conflict c1)) [
              | inl g ↦
                  rw (f, g)
                    (record {
                      after = returns c1 err_version;
                      is = refl;
                      code_is = refl;
                      dirty_is = refl;
                      stands = s1;
                    })
              | inr g ↦ rw (f, g) (from_read (stamped c1 true) ((used t e).1) s1 real1 refl refl)
            ]
          ]

      -- On a database that stands for a view, with a key that has a logical clock, incrDecrCommand
      -- reports an entry of another type, a version conflict or a value that is no integer, and
      -- otherwise stores and returns the sum of the value, or of the initial one of a missing key,
      -- and the increment, cut to 32 bits; it asserts nothing but what getLongLongFromObject
      -- asserts of the object.
      pub incr_decr_lem : IncrOutcome (incr_decr strtoll erange t c init incr) (live t v c.key)
      incr_decr_lem =
          let (db, is, stands) = looked_up_lem t (returns c redis_err) v s in
          unfold incr_decr in rw (incr_decr, is) (from_lookup db (live t v c.key) stands)
