-- ===== src/Db/Times.antt =====
-- How db.c sets and removes the time of a key.
use libredis_a.Common.{
  ◌≡◌, ◌≢◌, refl, sym, ap, ◌∙◌, inl, inr, true, Option, none, some, if◌then◌else◌, is_some,
  Bool-cases, Option-cases,
}
use libredis_a.Common.Int.{ℤ}
use libredis_a.Sds.{Sds, sds_key_compare}
use libredis_a.Sds.Keys.{db_dict_type}
use libredis_a.Object.{Robj}
use libredis_a.Store.{Store}
use libredis_a.Db.{Db, remove_expire, remove_x_expire, set_expire, set_x_expire}
use libredis_a.Db.View.{View, when_of, Stands, Returns, Yields, found, after_find}
use libredis_a.Db.Writes.{timed, timed-Stands}

is_some-when_of : (o : Option (Sds × ℤ)) → is_some (when_of o) ≡ is_some o
is_some-when_of none = refl
is_some-when_of (some e) = refl

module _ {O : Type 0} {dicts : Store (Robj O)} {times : Store ℤ} (db : Db dicts times) (v : View O)
    (s : Stands db v) (key : Sds) where
  -- The time replaced under the key's own copy of its string.
  replaced :
      (k q : Sds) (when : ℤ)
      → sds_key_compare key k ≡ true
      → when_of (times.view (times.replace db.expires k when).0 q)
        ≡ (if sds_key_compare key q then some when else when_of (times.view db.expires q))
  replaced k q when c =
      let same : sds_key_compare key q ≡ sds_key_compare k q =
        db_dict_type.compare_trans key k q c in
      let turn : sds_key_compare q k ≡ sds_key_compare k q = db_dict_type.compare_sym q k in
      elim (Option-cases (times.view db.expires k)) [
        | inl n ↦
            rw (times.replace_new db.expires k when q n, same, turn)
              (elim (Bool-cases (sds_key_compare k q)) [ inl e ↦ rw e refl | inr e ↦ rw e refl ])
        | inr (x, n) ↦
            rw (times.replace_view db.expires k when x q n, same)
              (elim (Bool-cases (sds_key_compare k q)) [
                | inl e ↦
                    let there : times.view db.expires q ≡ some x =
                      sym (times.view_cong db.expires k q e) ∙ n in
                    rw (e, there) refl
                | inr e ↦ rw e refl
              ])
      ]

  own : (e : Sds × Robj O) → v.entries key ≡ some e → sds_key_compare key (e.0) ≡ true
  own e n = dicts.view_key db.dict key e (s.entries key ∙ n)

  there : (e : Sds × Robj O) → v.entries key ≡ some e → v.entries key ≢ none
  there e n m = cc

  -- `setExpire` sets the time of a key that is there, on which its assertion holds.
  pub set_expire_lem :
      (e : Sds × Robj O) (when : ℤ)
      → v.entries key ≡ some e
      → (after : Db dicts times) × (set_expire db key when ≡ some after)
        × Stands after (timed v key (some when))
  set_expire_lem (k, x) when n = (
    record db { dict = (dicts.find db.dict key).0; expires = (times.replace db.expires k when).0 },
    (unfold set_expire in rw (set_expire, found db v s key, n) refl),
    timed-Stands (record db { dict = (dicts.find db.dict key).0 }) v (after_find db v s key) key
        (some when) _ (inr (there (k, x) n)) (λ q. replaced k q when (own (k, x) n)),
  )

  -- `setXExpire` does the same, and nothing to a missing key.
  pub set_x_expire_lem :
      (when : ℤ)
      → Stands
          (set_x_expire db key when)
          (if is_some (v.entries key) then timed v key (some when) else v)
  set_x_expire_lem when = elim (Option-cases (v.entries key)) [
    | inl n ↦ unfold set_x_expire in rw (set_x_expire, found db v s key, n) (after_find db v s key)
    | inr ((k, x), n) ↦
        unfold set_x_expire in
        rw (set_x_expire, found db v s key, n)
          (timed-Stands (record db { dict = (dicts.find db.dict key).0 }) v (after_find db v s key)
            key (some when) _ (inr (there (k, x) n)) (λ q. replaced k q when (own (k, x) n)))
  ]

  removed :
      Stands
        (record db { dict = (dicts.find db.dict key).0; expires = (times.delete db.expires key).0 })
        (timed v key none)
  removed =
      timed-Stands (record db { dict = (dicts.find db.dict key).0 }) v (after_find db v s key) key
        none _ (inl refl)
        (λ q.
          ap when_of (times.delete_view db.expires key q)
          ∙ elim (Bool-cases (sds_key_compare key q)) [ inl e ↦ rw e refl | inr e ↦ rw e refl ])

  had_time : (times.delete db.expires key).1 ≡ is_some (v.times key)
  had_time =
      times.delete_result db.expires key ∙ sym (is_some-when_of _) ∙ ap is_some (s.expiring key)

  -- `removeExpire` removes the time of a key that is there, and says whether it had one.
  pub remove_expire-Yields :
      (e : Sds × Robj O)
      → v.entries key ≡ some e
      → Yields (remove_expire db key) (is_some (v.times key)) (timed v key none)
  remove_expire-Yields e n = record {
    after = record db {
      dict = (dicts.find db.dict key).0;
      expires = (times.delete db.expires key).0;
    };
    is = unfold remove_expire in rw (remove_expire, found db v s key, n, had_time) refl;
    stands = removed;
  }

  -- `removeXExpire` does the same, and nothing to a missing key, for which it answers DICT_ERR.
  pub remove_x_expire-Returns :
      Returns
        (remove_x_expire db key)
        (if is_some (v.entries key) then is_some (v.times key) else true)
        (if is_some (v.entries key) then timed v key none else v)
  remove_x_expire-Returns = elim (Option-cases (v.entries key)) [
    | inl n ↦
        unfold remove_x_expire in
        rw (remove_x_expire, found db v s key, n)
          (record { is = refl; stands = after_find db v s key })
    | inr (e, n) ↦
        unfold remove_x_expire in
        rw (remove_x_expire, found db v s key, n) (record { is = had_time; stands = removed })
  ]
