-- ===== src/Strings/Set.antt =====
-- `setGenericCommand`: every way it ends.
use libredis_a.Common.{
  ◌+◌, ◌≡◌, ◌≢◌, refl, sym, ap, ◌∙◌, Bool, true, false, Option, none, some, if◌then◌else◌,
  Bool-cases, inl, inr, ℕ, zero, suc, ◌%◌, ◌^◌, not, ◌&&◌, ◌==◌, arith, subst, List, ◌>>=◌,
}
use mathlib.Core.Option
use libredis_a.Common.Int.{ℤ}
use libredis_a.Sds.{Sds}
use libredis_a.Object.{Robj, redis_string, get_long}
use libredis_a.Store.{Store}
use libredis_a.Db.{Clocks, Db}
use libredis_a.Db.View.{View, Stands}
use libredis_a.Db.Writes.{updated, inserted, Stands_cong}
use libredis_a.Db.Reads.{used, answer_of}
use libredis_a.Client.{
  Client, redis_ok, redis_err, ok_but_already_exist, err_version, err_wrong_type,
  err_is_not_integer, returns, version_conflict, stamp, stamped, version_of, object_of,
}
use libredis_a.Client.Outcome.{
  live, seen, seen_entry, Leaves, stamp_clock, stamp_compare, looked_up_lem,
}
use libredis_a.Strings.Storing.{set_time, revalued, set_store_new, set_store_old}
use libredis_a.Strings.{set_store, set_checked, set_looked_up, set_timed, set_generic}

-- A version is refused where the client cares for versions and gives one that is not 0 and not
-- the stored one.
abbrev pub refused : Bool → ℕ → ℕ → Bool
refused false given stored = false
refused true zero stored = false
refused true (suc given) stored = not (suc given == stored)

-- The version after one that is stored: the next one, of 16 bits, where the client cares.
abbrev pub next_version : Bool → ℕ → ℕ
next_version false stored = stored
next_version true stored = (stored + 1) % 2 ^ 16

refused_lem :
    (care : Bool) (given stored : ℕ)
    → (care && not (given == 0) && not (given == stored)) ≡ refused care given stored
refused_lem false given stored = refl
refused_lem true zero stored = refl
refused_lem true (suc given) stored = let z : (suc given == 0) ≡ false = ground arith in rw z refl

module _ {O : Type 0} {dicts : Store (Robj O)} {times : Store ℤ} where
  -- The key of the argument with the version that follows the stored one.
  abbrev pub keyed : Client dicts times → ℕ → Sds
  keyed c stored = record c.key { version = next_version c.version_care stored }

  stamp-keyed :
      (c : Client dicts times) (there : Bool)
      → stamp c there ≡ keyed c (if there then c.version else 0)
  stamp-keyed c there = elim (Bool-cases c.version_care) [ inl e ↦ rw e refl | inr e ↦ rw e refl ]

  -- How `setGenericCommand` ends, by the live entry of the key, once it knows the seconds.
  abbrev pub SetOutcome :
      Clocks
      → Client dicts times
      → View O
      → Bool
      → Robj O
      → Option ℤ
      → Option (Client dicts times)
      → Option (Sds × Robj O)
      → Type 0
  SetOutcome t c v nx val seconds r none =
      let key = keyed c 0 in
      Leaves r redis_ok (c.dirty + 1)
        (set_time seconds c.expiretime (inserted (seen t v c.key) key val) key)
  SetOutcome t c v nx val seconds r (some e) =
      let key = keyed c ((e.0).version) in
      if not ((e.1).type == redis_string)
      then Leaves r err_wrong_type c.dirty (seen t v c.key)
      else if refused c.version_care c.key.version ((e.0).version)
      then Leaves r err_version c.dirty (seen t v c.key)
      else if nx
      then Leaves r ok_but_already_exist c.dirty (seen t v c.key)
      else Leaves r redis_ok (c.dirty + 1)
          (set_time seconds c.expiretime (updated (revalued key val) (seen t v c.key) key) key)

  -- By what `getLongFromObject` makes of an argument with seconds: an assertion, an error, a long.
  abbrev pub TimedOutcome :
      Clocks
      → Client dicts times
      → View O
      → Bool
      → Robj O
      → Option (Option ℤ)
      → Option (Client dicts times)
      → Type 0
  TimedOutcome t c v nx val none r = r ≡ none
  TimedOutcome t c v nx val (some none) r = Leaves r err_is_not_integer c.dirty v
  TimedOutcome t c v nx val (some (some seconds)) r =
      SetOutcome t c v nx val (some seconds) r (live t v c.key)

  module _ (t : Clocks) (c : Client dicts times) (v : View O) (s : Stands c.db v)
      (real : c.key.logiclock ≢ 0) (nx : Bool) (val : Robj O) where
    stamped_entry :
        (c1 : Client dicts times) (there : Bool) (o : Option (Sds × Robj O))
        → Stands c1.db (seen t v c.key)
        → c1.key ≡ c.key
        → live t v c.key ≡ o
        → (seen t v c.key).entries (stamp c1 there) ≡ Option.map (used t) o
    stamped_entry c1 there o s1 same n =
        sym (
          Stands_cong c1.db (seen t v c.key) s1 c1.key c1.key (stamp c1 there)
            (stamp_compare c1 there))
        ∙ ap (seen t v c.key).entries same
        ∙ seen_entry t v c.key
        ∙ ap (Option.map (used t)) n

    from_lookup :
        (expire : Option ℤ) (db : Db dicts times) (o : Option (Sds × Robj O))
        → Stands db (seen t v c.key)
        → live t v c.key ≡ o
        → SetOutcome t c v nx val expire
            (set_checked nx val expire
              (record c { db = db; version = version_of (answer_of t o); returncode = redis_err })
              (object_of (answer_of t o)))
            o
    unfolding set_checked
    from_lookup expire db none s1 n =
        let c1 = record c { db = db; version = 0; returncode = redis_err } in
        let real1 : (stamp c1 false).logiclock ≢ 0 = λ z. real (sym (stamp_clock c1 false) ∙ z) in
        subst
          (λ key.
            Leaves (set_store nx val expire (stamped c1 false)) redis_ok (c.dirty + 1)
              (set_time expire c.expiretime (inserted (seen t v c.key) key val) key))
          (stamp-keyed c1 false)
          (set_store_new nx val expire (stamped c1 false) (seen t v c.key) s1 real1
            (stamped_entry c1 false none s1 refl n))
    from_lookup expire db (some e) s1 n =
        let c1 = record c { db = db; version = (e.0).version; returncode = redis_err } in
        let real1 : (stamp c1 true).logiclock ≢ 0 = λ z. real (sym (stamp_clock c1 true) ∙ z) in
        let same = refused_lem c.version_care c.key.version ((e.0).version) in
        elim (Bool-cases ((e.1).type == redis_string)) [
          | inr f ↦ rw f (record {
            after = returns c1 err_wrong_type;
            is = refl;
            code_is = refl;
            dirty_is = refl;
            stands = s1;
          })
          | inl f ↦ elim (Bool-cases (version_conflict c1)) [
            | inl g ↦
                rw (f, sym same ∙ g, g)
                  (record {
                    after = returns c1 err_version;
                    is = refl;
                    code_is = refl;
                    dirty_is = refl;
                    stands = s1;
                  })
            | inr g ↦
                rw (f, sym same ∙ g, g)
                  (subst
                    (λ key.
                      if nx
                      then Leaves (set_store nx val expire (stamped c1 true)) ok_but_already_exist
                          c.dirty (seen t v c.key)
                      else Leaves (set_store nx val expire (stamped c1 true)) redis_ok (c.dirty + 1)
                          (set_time expire c.expiretime
                            (updated (revalued key val) (seen t v c.key) key) key))
                    (stamp-keyed c1 true)
                    (set_store_old nx val expire (stamped c1 true) (seen t v c.key) s1 real1
                      (used t e) (stamped_entry c1 true (some e) s1 refl n)))
          ]
        ]

    set_looked_up_lem :
        (expire : Option ℤ)
        → SetOutcome t c v nx val expire
            (set_looked_up t (returns c redis_err) nx val expire)
            (live t v c.key)
    set_looked_up_lem expire =
        let (db, is, stands) = looked_up_lem t (returns c redis_err) v s in
        unfold set_looked_up in
        rw (set_looked_up, is) (from_lookup expire db (live t v c.key) stands refl)

    set_timed_lem :
        (seconds : Option (Option ℤ))
        → TimedOutcome t c v nx val seconds (seconds >>= set_timed t (returns c redis_err) nx val)
    unfolding set_timed
    set_timed_lem none = refl
    set_timed_lem (some none) = record {
      after = returns c err_is_not_integer;
      is = refl;
      code_is = refl;
      dirty_is = refl;
      stands = s;
    }
    set_timed_lem (some (some seconds)) = set_looked_up_lem (some seconds)

    -- On a database that stands for a view, with a key that has a logical clock, setGenericCommand
    -- ends in one of six ways, unless getLongFromObject fails an assertion on the object with the
    -- seconds. Where that reads no long, it returns REDIS_ERR_IS_NOT_INTEGER and changes nothing.
    -- Otherwise it reports an entry of another type, a version conflict (the client cares for
    -- versions, and the given one is neither 0 nor the stored one) or, with nx, a present key, and
    -- changes then nothing but the removal of an expired key and the clock of the object; or it
    -- stores the value under a new key with version 0 or a present one with its version, one more
    -- of 16 bits where the client cares for versions, sets, removes or keeps the time as asked,
    -- and counts one change.
    pub set_generic_lem :
        (strtoll : List ℕ → ℤ × List ℕ) (erange : List ℕ → Bool)
        → SetOutcome t c v nx val none (set_generic strtoll erange t c nx val none) (live t v c.key)
          × ((expire : Robj O)
              → TimedOutcome t c v nx val
                  (get_long strtoll erange (some expire))
                  (set_generic strtoll erange t c nx val (some expire)))
    unfolding set_generic
    set_generic_lem strtoll erange =
        (set_looked_up_lem none, λ expire. set_timed_lem (get_long strtoll erange (some expire)))
