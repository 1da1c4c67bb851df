-- ===== src/Db/Expiry.antt =====
-- Times of expiry and the logical clock: what db.c reads of them, and which keys it removes.
use libredis_a.Common.{
  ◌+◌, ◌-◌, ◌%◌, ◌≡◌, ◌≢◌, refl, sym, ap, ◌∙◌, inl, inr, true, false, none, some, ◌==◌, ==_iff, ltb,
  if◌then◌else◌, is_some, Bool-cases, Option-cases, arith,
}
use libredis_a.Common.Int.{ℤ, pos, ltb_ℤ}
use libredis_a.Sds.{Sds, sds_key_compare}
use libredis_a.Object.{Robj}
use libredis_a.Store.{Store}
use libredis_a.Db.{
  Clocks, Db, size_t, db_delete, get_expire, get_logiclock, expire_at, expire_by_clock,
  expire_if_needed,
}
use libredis_a.Db.View.{
  View, late, expired, purged, when_of, Stands, Returns, Yields, same_times, found, after_find,
  same_stats, without, clock_of, time_or,
}

clocked_without :
    {O : Type 0} (v : View O) (key : Sds)
    → ((q k : Sds) (x : Robj O) → v.entries q ≡ some (k, x) → k.logiclock ≢ 0)
    → (q k : Sds) (x : Robj O) → (without v key).entries q ≡ some (k, x)
    → k.logiclock ≢ 0
clocked_without v key h q k x e = elim (Bool-cases (sds_key_compare key q)) [
  | inl c ↦ absurd (cc (rw c at e))
  | inr c ↦ h q k x (rw c at e)
]

clocked_there :
    {O : Type 0} (v : View O) (key : Sds)
    → (clock_of (v.entries key) == 0) ≡ false
    → is_some (v.entries key) ≡ true
clocked_there v key z = elim (Option-cases (v.entries key)) [
  | inl n ↦ absurd (cc (rw n at z))
  | inr (x, n) ↦ ap is_some n
]

module _ {O : Type 0} {dicts : Store (Robj O)} {times : Store ℤ} where
  module _ (db : Db dicts times) (v : View O) (s : Stands db v) (key : Sds) where
    get_logiclock_lem : Yields (get_logiclock db key) (clock_of (v.entries key)) v
    get_logiclock_lem = elim (Option-cases (v.entries key)) [
      | inl n ↦
          let e = found db v s key ∙ n in
          record {
            after = record db { dict = (dicts.find db.dict key).0 };
            is = unfold get_logiclock in rw (get_logiclock, e, n) refl;
            stands = after_find db v s key;
          }
      | inr ((k, x), n) ↦
          let e = found db v s key ∙ n in
          let z : (k.logiclock == 0) ≡ false = ground (arith, s.clocked key k x n) in
          record {
            after = record db { dict = (dicts.find db.dict key).0 };
            is = unfold get_logiclock in rw (get_logiclock, e, n, z) refl;
            stands = after_find db v s key;
          }
    ]

    timed : (times.find db.expires key).1 ≡ times.view db.expires key
    timed = times.find_result db.expires key

    there_is : (t : ℤ) → v.times key ≡ some t → is_some (v.entries key) ≡ true
    there_is t e = elim (Option-cases (v.entries key)) [
      | inl n ↦ absurd (cc (sym (s.held key n) ∙ e))
      | inr (x, n) ↦ rw n refl
    ]

    pub get_expire_lem : Yields (get_expire db key) (time_or (v.times key)) v
    get_expire_lem = elim (Bool-cases (times.size db.expires == 0)) [
      | inl z ↦
          let n : v.times key ≡ none =
            sym (s.expiring key) ∙ ap when_of (times.size_zero db.expires key ((==_iff _ _).0 z)) in
          record { after = db; is = unfold get_expire in rw (z, n) refl; stands = s }
      | inr z ↦ elim (Option-cases (times.view db.expires key)) [
        | inl n ↦
            let e = timed ∙ n in
            let m : v.times key ≡ none = sym (s.expiring key) ∙ ap when_of n in
            record {
              after = record db { expires = (times.find db.expires key).0 };
              is = unfold get_expire in rw (z, e, m) refl;
              stands = same_times db v s _ (times.find_view db.expires key);
            }
        | inr ((k, t), n) ↦
            let e = timed ∙ n in
            let m : v.times key ≡ some t = sym (s.expiring key) ∙ ap when_of n in
            let i : is_some (dicts.find db.dict key).1 ≡ true =
              ap is_some (found db v s key) ∙ there_is t m in
            record {
              after = record db {
                expires = (times.find db.expires key).0;
                dict = (dicts.find db.dict key).0;
              };
              is = unfold get_expire in rw (z, e, m, i) refl;
              stands = same_times _ v (after_find db v s key) _ (times.find_view db.expires key);
            }
      ]
    ]

  -- The expiry times after `dbDelete`.
  abbrev expires_without : Db dicts times → Sds → times.Map
  expires_without db key =
      if ltb 0 (times.size db.expires) then (times.delete db.expires key).0 else db.expires

  when_without :
      (db : Db dicts times) (v : View O) (key : Sds)
      → Stands db v
      → (q : Sds)
      → when_of (times.view (expires_without db key) q)
        ≡ (if sds_key_compare key q then none else v.times q)
  when_without db v key s q = elim (Bool-cases (ltb 0 (times.size db.expires))) [
    | inl z ↦
        rw (z, times.delete_view db.expires key q)
          (elim (Bool-cases (sds_key_compare key q)) [
            | inl c ↦ rw c refl
            | inr c ↦ rw c (s.expiring q)
          ])
    | inr z ↦
        let n = times.size_zero db.expires q (ground arith) in
        let m : none ≡ v.times q = ap when_of (sym n) ∙ s.expiring q in
        rw z (
          ap when_of n
          ∙ elim (Bool-cases (sds_key_compare key q)) [ inl c ↦ rw c refl | inr c ↦ rw c m ])
  ]

  -- `dbDelete` removes the key with its time, and says whether it was there.
  pub db_delete-Returns :
      (db : Db dicts times) (v : View O) (key : Sds)
      → Stands db v
      → Returns (db_delete db key) (is_some (v.entries key)) (without v key)
  unfolding db_delete
  db_delete-Returns db v key s = record {
    is = dicts.delete_result db.dict key ∙ ap is_some (s.entries key);
    stands = record {
      entries = λ q.
          dicts.delete_view db.dict key q
          ∙ ap (λ o. if sds_key_compare key q then none else o) (s.entries q);
      expiring = when_without db v key s;
      clock = s.clock;
      clocked = clocked_without v key s.clocked;
      held = λ q e. elim (Bool-cases (sds_key_compare key q)) [
        | inl c ↦ rw c refl
        | inr c ↦ rw c (s.held q (rw c at e))
      ];
    };
  }

  module _ (c : Clocks) (key : Sds) where
    expire_at-Returns :
        (db : Db dicts times) (v : View O) (when : ℤ)
        → Stands db v
        → is_some (v.entries key) ≡ true
        → Returns
            (expire_at c key (db, when))
            (late c when)
            (if late c when then without v key else v)
    unfolding expire_at
    expire_at-Returns db v when s there = elim (Bool-cases (ltb_ℤ when (pos 0))) [
      | inl n ↦ rw n (record { is = refl; stands = s })
      | inr n ↦ elim (Bool-cases (ltb_ℤ when c.now)) [
        | inr l ↦ rw (n, l) (record { is = refl; stands = s })
        | inl l ↦
            let counted : Db dicts times = record db {
              stat_expiredkeys = db.stat_expiredkeys + 1;
            } in
            let gone = db_delete-Returns counted v key (same_stats db v _ _ _ _ s) in
            rw (n, l) (record { is = gone.is ∙ there; stands = gone.stands })
      ]
    ]

    expire_by_clock-Yields :
        (db : Db dicts times) (v : View O)
        → Stands db v
        → Yields
            (expire_by_clock c key (db, clock_of (v.entries key)))
            (expired c v key)
            (purged c v key)
    unfolding expire_by_clock
    expire_by_clock-Yields db v s = elim (Bool-cases (clock_of (v.entries key) == 0)) [
      | inl z ↦ rw (expire_by_clock, z) (record { after = db; is = refl; stands = s })
      | inr z ↦ elim (Bool-cases (ltb (clock_of (v.entries key)) v.clock)) [
        | inl l ↦
            let l' : ltb (clock_of (v.entries key)) db.logiclock ≡ true =
              ap (ltb (clock_of (v.entries key))) s.clock ∙ l in
            let counted : Db dicts times = record db {
              need_remove_key = (db.need_remove_key + size_t - 1) % size_t;
              stat_expiredkeys = db.stat_expiredkeys + 1;
            } in
            let gone = db_delete-Returns counted v key (same_stats db v _ _ _ _ s) in
            rw (expire_by_clock, z, l, l')
              (record {
                after = (db_delete counted key).0;
                is =
                    ap (λ b. some ((db_delete counted key).0, b)) (gone.is ∙ clocked_there v key z);
                stands = gone.stands;
              })
        | inr l ↦
            let l' : ltb (clock_of (v.entries key)) db.logiclock ≡ false =
              ap (ltb (clock_of (v.entries key))) s.clock ∙ l in
            let g = get_expire_lem db v s key in
            let when = time_or (v.times key) in
            let gone = expire_at-Returns g.after v when g.stands (clocked_there v key z) in
            rw (expire_by_clock, z, l, l', g.is)
              (record {
                after = (expire_at c key (g.after, when)).0;
                is = ap (λ b. some ((expire_at c key (g.after, when)).0, b)) gone.is;
                stands = gone.stands;
              })
      ]
    ]

    -- On a database that stands for a view, expireIfNeeded fails no assertion, and it removes the
    -- key with its time, and says so, exactly when the clock of the database has passed the clock
    -- of the key or its time has passed; otherwise every key sees what it saw.
    pub expire_if_needed-Yields :
        (db : Db dicts times) (v : View O)
        → Stands db v
        → Yields (expire_if_needed c db key) (expired c v key) (purged c v key)
    unfolding expire_if_needed
    expire_if_needed-Yields db v s =
        let first = get_logiclock_lem db v s key in
        rw (expire_if_needed, first.is) (expire_by_clock-Yields first.after v first.stands)
