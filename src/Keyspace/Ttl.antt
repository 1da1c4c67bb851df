-- ===== src/Keyspace/Ttl.antt =====
-- What expireCommand, ttlCommand and persistCommand leave.
use libredis_a.Common.{
  ℕ, zero, suc, ◌+◌, ◌-◌, ◌<◌, ◌≡◌, refl, ap, Bool, true, false, Option, none, some, ltb,
  if◌then◌else◌, ◌>>=◌, is_some, Bool-cases, Option-cases, inl, inr, arith,
}
use libredis_a.Common.Int.{ℤ, pos, negsuc, ltb_ℤ, eqb_ℤ, ◌+ℤ◌, minus}
use libredis_a.Sds.{Sds}
use libredis_a.Sds.Keys.{db_dict_type}
use libredis_a.Object.{Robj}
use libredis_a.Store.{Store}
use libredis_a.Db.{Clocks, Db, remove_expire, db_exists}
use libredis_a.Db.View.{View, Stands, time_or}
use libredis_a.Db.Expiry.{get_expire_lem}
use libredis_a.Db.Reads.{db_exists-Returns}
use libredis_a.Db.Writes.{timed}
use libredis_a.Db.Times.{set_expire_lem, remove_expire-Yields}
use libredis_a.Client.{Client, redis_ok, ok_not_exist, returns}
use libredis_a.Client.Outcome.{Leaves}
use libredis_a.Keyspace.{
  expire_when, expire_found, expire_command, ttl_answer, ttl_from, ttl_command, persist_command,
}

-- What ttlCommand answers for the time of a key, and its code.
abbrev pub answer : ℤ → ℤ → ℤ
answer now when = if eqb_ℤ when (negsuc 0) then pos 0 else ttl_answer (when +ℤ minus now)

-- The seconds that are left of a time that expireCommand sets.
abbrev pub left : ℕ → ℕ → ℕ
left now seconds = if ltb now seconds then seconds - now else seconds

when_lem :
    (now seconds : ℕ) (t : Clocks)
    → t.now ≡ pos now
    → 0 < seconds
    → answer t.now (expire_when t (pos seconds)) ≡ pos (left now seconds)
unfolding ◌+ℤ◌
when_lem zero seconds t n h = rw n (ground arith)
when_lem (suc m) seconds t n h = rw n (ground arith)

-- The counter's change of `removeExpire`.
abbrev pub had_time : {O : Type 0} → View O → Sds → ℕ
had_time v key = if is_some (v.times key) then 1 else 0

module _ {O : Type 0} {dicts : Store (Robj O)} {times : Store ℤ} where
  removed-Leaves :
      (c : Client dicts times) (v : View O) (e : Sds × Robj O)
      → Stands c.db v
      → v.entries c.key ≡ some e
      → Leaves
          (remove_expire c.db c.key >>= λ r. some (record c {
            db = r.0;
            dirty = c.dirty + (if r.1 then 1 else 0);
            returncode = redis_ok;
          }))
          redis_ok
          (c.dirty + had_time v c.key)
          (timed v c.key none)
  removed-Leaves c v e s n =
      let gone = remove_expire-Yields c.db v s c.key e n in
      rw gone.is (record {
        after = record c {
          db = gone.after;
          dirty = c.dirty + had_time v c.key;
          returncode = redis_ok;
        };
        is = refl;
        code_is = refl;
        dirty_is = refl;
        stands = gone.stands;
      })

  -- How `expireXGenericCommand` ends, by the entry of the key.
  abbrev pub ExpireOutcome :
      Clocks
      → Client dicts times
      → View O
      → ℤ
      → Option (Client dicts times)
      → Option (Sds × Robj O)
      → Type 0
  ExpireOutcome t c v seconds r none = Leaves r ok_not_exist c.dirty v
  ExpireOutcome t c v seconds r (some e) =
      if ltb_ℤ (pos 0) seconds
      then Leaves r redis_ok (c.dirty + 1) (timed v c.key (some (expire_when t seconds)))
      else if eqb_ℤ seconds (pos 0)
      then Leaves r redis_ok (c.dirty + had_time v c.key) (timed v c.key none)
      else Leaves r redis_ok c.dirty v

  expire_found-Leaves :
      (t : Clocks) (c : Client dicts times) (v : View O) (seconds : ℤ) (e : Sds × Robj O)
      → Stands c.db v
      → v.entries c.key ≡ some e
      → ExpireOutcome t c v seconds (expire_found t seconds c) (some e)
  unfolding expire_found
  expire_found-Leaves t c v seconds e s n = elim (Bool-cases (ltb_ℤ (pos 0) seconds)) [
    | inl f ↦
        let (db, is, stands) = set_expire_lem c.db v s c.key e (expire_when t seconds) n in
        rw (f, is)
          (record {
            after = record c { db = db; dirty = c.dirty + 1; returncode = redis_ok };
            is = refl;
            code_is = refl;
            dirty_is = refl;
            stands = stands;
          })
    | inr f ↦ elim (Bool-cases (eqb_ℤ seconds (pos 0))) [
      | inl g ↦ rw (f, g) (removed-Leaves c v e s n)
      | inr g ↦
          rw (f, g)
            (record {
              after = returns c redis_ok;
              is = refl;
              code_is = refl;
              dirty_is = refl;
              stands = s;
            })
    ]
  ]

  module _ (t : Clocks) (c : Client dicts times) (v : View O) (s : Stands c.db v) where
    exists_is : (db_exists c.db c.key).1 ≡ is_some (v.entries c.key)
    exists_is = (db_exists-Returns t c.key c.db v s).is

    exists_stands : Stands (db_exists c.db c.key).0 v
    exists_stands = (db_exists-Returns t c.key c.db v s).stands

    -- `expireXGenericCommand` with a number sets the time of a key that is there if the number is
    -- positive, removes it if it is zero, and reports a missing key.
    pub expire_command_lem :
        (seconds : ℤ)
        → ExpireOutcome t c v seconds (expire_command t c (some seconds)) (v.entries c.key)
    unfolding expire_command
    expire_command_lem seconds = elim (Option-cases (v.entries c.key)) [
      | inl n ↦
          rw (exists_is, n)
            (record {
              after = record c { db = (db_exists c.db c.key).0; returncode = ok_not_exist };
              is = refl;
              code_is = refl;
              dirty_is = refl;
              stands = exists_stands;
            })
      | inr (e, n) ↦
          rw (exists_is, n)
            (expire_found-Leaves t (record c { db = (db_exists c.db c.key).0 }) v seconds e
              exists_stands n)
    ]

    -- `persistCommand` removes the time of a key that is there.
    pub persist_command_lem :
        Leaves
          (persist_command c)
          (if is_some (v.entries c.key) then redis_ok else ok_not_exist)
          (if is_some (v.entries c.key) then c.dirty + had_time v c.key else c.dirty)
          (if is_some (v.entries c.key) then timed v c.key none else v)
    unfolding persist_command
    persist_command_lem = elim (Option-cases (v.entries c.key)) [
      | inl n ↦
          rw (exists_is, n)
            (record {
              after = record c { db = (db_exists c.db c.key).0; returncode = ok_not_exist };
              is = refl;
              code_is = refl;
              dirty_is = refl;
              stands = exists_stands;
            })
      | inr (e, n) ↦
          rw (exists_is, n)
            (removed-Leaves (record c { db = (db_exists c.db c.key).0 }) v e exists_stands n)
    ]

  -- What `ttlCommand` leaves, and its answer.
  pub record Times (r : Option (Client dicts times)) (code value : ℤ) (dirty : ℕ) (w : View O)
      : Type 0 where
    pub leaves : Leaves r code dirty w
    pub value_is : leaves.after.retvalue ≡ value

  has_time :
      (db : Db dicts times) (v : View O) (key : Sds)
      → Stands db v
      → eqb_ℤ (time_or (v.times key)) (negsuc 0) ≡ false
      → is_some (v.entries key) ≡ true
  has_time db v key s f = elim (Option-cases (v.entries key)) [
    | inl n ↦ absurd (cc (rw (s.held key n) at f))
    | inr (e, n) ↦ ap is_some n
  ]

  -- `ttlCommand` answers the seconds that are left of the time of a key, and 0 for a key without a
  -- time, or whose time has passed.
  pub ttl_command-Times :
      (t : Clocks) (c : Client dicts times) (v : View O)
      → Stands c.db v
      → Times
          (ttl_command t c)
          (if is_some (v.entries c.key) then redis_ok else ok_not_exist)
          (answer t.now (time_or (v.times c.key)))
          c.dirty
          v
  unfolding ttl_command ttl_from
  ttl_command-Times t c v s =
      let g = get_expire_lem c.db v s c.key in
      let when = time_or (v.times c.key) in
      let there = db_exists-Returns t c.key g.after v g.stands in
      elim (Bool-cases (eqb_ℤ when (negsuc 0))) [
        | inl f ↦
            rw (ttl_command, g.is, f)
              (record {
                leaves = record {
                  after = record c {
                    db = (db_exists g.after c.key).0;
                    retvalue = pos 0;
                    returncode = if (db_exists g.after c.key).1 then redis_ok else ok_not_exist;
                  };
                  is = refl;
                  code_is = ap (λ (b : Bool). if b then redis_ok else ok_not_exist) (there.is);
                  dirty_is = refl;
                  stands = there.stands;
                };
                value_is = refl;
              })
        | inr f ↦
            rw (ttl_command, g.is, f)
              (rw (has_time c.db v c.key s f) (record {
                leaves = record {
                  after = record c {
                    db = g.after;
                    retvalue = ttl_answer (when +ℤ minus t.now);
                    returncode = redis_ok;
                  };
                  is = refl;
                  code_is = refl;
                  dirty_is = refl;
                  stands = g.stands;
                };
                value_is = refl;
              }))
      ]

  expire_positive :
      (t : Clocks) (c : Client dicts times) (v : View O) (e : Sds × Robj O) (seconds : ℕ)
      → Stands c.db v
      → v.entries c.key ≡ some e
      → 0 < seconds
      → Leaves
          (expire_command t c (some (pos seconds)))
          redis_ok
          (c.dirty + 1)
          (timed v c.key (some (expire_when t (pos seconds))))
  expire_positive t c v e seconds s n positive =
      let p : ltb_ℤ (pos 0) (pos seconds) ≡ true = ground arith in
      rw (n, p) at (expire_command_lem t c v s (pos seconds))

  -- On a database that stands for a view with the key, expireXGenericCommand with positive seconds
  -- succeeds, and ttlCommand in the same second answers those seconds, or, where they exceed the
  -- time of day, what is left until then.
  pub expire_ttl :
      (t : Clocks) (c : Client dicts times) (v : View O) (e : Sds × Robj O) (now seconds : ℕ)
      → Stands c.db v
      → v.entries c.key ≡ some e
      → t.now ≡ pos now
      → 0 < seconds
      → (a : Client dicts times) × (expire_command t c (some (pos seconds)) ≡ some a)
        × Times
            (ttl_command t (record c { db = a.db }))
            redis_ok
            (pos (left now seconds))
            c.dirty
            (timed v c.key (some (expire_when t (pos seconds))))
  expire_ttl t c v e now seconds s n clock positive =
      let set = expire_positive t c v e seconds s n positive in
      let w = timed v c.key (some (expire_when t (pos seconds))) in
      let same : w.times c.key ≡ some (expire_when t (pos seconds)) =
        rw (db_dict_type.compare_refl c.key) refl in
      let got = ttl_command-Times t (record c { db = set.after.db }) w set.stands in
      (set.after, set.is, rw (n, same, when_lem now seconds t clock positive) at got)
