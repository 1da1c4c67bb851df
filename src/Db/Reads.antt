-- ===== src/Db/Reads.antt =====
-- The lookups of db.c.
use libredis_a.Common.{
  ℕ, ◌≡◌, refl, sym, ap, ◌∙◌, inl, inr, Option, none, some, if◌then◌else◌, is_some, Bool-cases,
  Option-cases,
}
use mathlib.Core.Option
use libredis_a.Common.Int.{ℤ}
use libredis_a.Sds.{Sds, sds_key_compare}
use libredis_a.Object.{Robj}
use libredis_a.Store.{Store}
use libredis_a.Db.{Clocks, Db, lookup_with_version, lookup_key, db_exists}
use libredis_a.Db.View.{View, Stands, Returns, Yields, purged, found, after_find, same_stats}
use libredis_a.Db.Writes.{updated, updated-Stands, Stands_cong}
use libredis_a.Db.Expiry.{expire_if_needed-Yields}

-- A lookup sets the clock of the object that it returns.
abbrev pub used : {O : Type 0} → Clocks → Sds × Robj O → Sds × Robj O
used c e = (e.0, record (e.1) { lru = c.lruclock })

abbrev pub touched : {O : Type 0} → Clocks → View O → Sds → View O
touched c v key = updated (used c) v key

-- The object and the version that a lookup returns.
abbrev pub answer_of : {O : Type 0} → Clocks → Option (Sds × Robj O) → Option (Robj O × ℕ)
answer_of c none = none
answer_of c (some e) = some (record (e.1) { lru = c.lruclock }, (e.0).version)

module _ {O : Type 0} {dicts : Store (Robj O)} {times : Store ℤ} (c : Clocks) (key : Sds) where
  nothing_touched :
      (db : Db dicts times) (v : View O)
      → Stands db v
      → v.entries key ≡ none
      → (q : Sds)
      → dicts.view db.dict q ≡ (
          if sds_key_compare key q
          then Option.map (used c) (dicts.view db.dict q)
          else dicts.view db.dict q)
  nothing_touched db v s n q = elim (Bool-cases (sds_key_compare key q)) [
    | inl e ↦
        let missing : dicts.view db.dict q ≡ none =
          s.entries q ∙ sym (Stands_cong db v s key key q e) ∙ n in
        rw (e, missing) refl
    | inr e ↦ rw e refl
  ]

  -- `lookupKeyWithVersion` returns the object of the key and its version, and sets its clock.
  pub lookup_with_version-Returns :
      (db : Db dicts times) (v : View O)
      → Stands db v
      → Returns (lookup_with_version c db key) (answer_of c (v.entries key)) (touched c v key)
  lookup_with_version-Returns db v s = elim (Option-cases (v.entries key)) [
    | inl n ↦
        let stood =
          updated-Stands db v s key (used c) (λ e. refl) (dicts.find db.dict key).0
            (λ q. dicts.find_view db.dict key q ∙ nothing_touched db v s n q) in
        unfold lookup_with_version in
        rw (lookup_with_version, found db v s key, n)
          (record { is = refl; stands = same_stats _ (touched c v key) _ _ _ _ stood })
    | inr ((k, x), n) ↦
        let d = (dicts.find db.dict key).0 in
        let here = dicts.find_view db.dict key key ∙ s.entries key ∙ n in
        let stood =
          updated-Stands db v s key (used c) (λ e. refl)
            (dicts.write d key (λ o. record o { lru = c.lruclock }))
            (λ q.
              dicts.write_view d key (λ o. record o { lru = c.lruclock }) (k, x) q here
              ∙ ap (λ o. if sds_key_compare key q then Option.map (used c) o else o)
                  (dicts.find_view db.dict key q)) in
        unfold lookup_with_version in
        rw (lookup_with_version, found db v s key, n)
          (record { is = refl; stands = same_stats _ (touched c v key) _ _ _ _ stood })
  ]

  -- On a database that stands for a view, lookupKeyReadWithVersion first removes an expired key,
  -- and then returns the object of the key and its version if it is there, and sets the clock of
  -- that object; no assertion fails.
  pub lookup_key-Yields :
      (db : Db dicts times) (v : View O)
      → Stands db v
      → Yields
          (lookup_key c db key)
          (answer_of c ((purged c v key).entries key))
          (touched c (purged c v key) key)
  lookup_key-Yields db v s =
      let first = expire_if_needed-Yields c key db v s in
      let then_ = lookup_with_version-Returns first.after (purged c v key) first.stands in
      unfold lookup_key in
      rw (lookup_key, first.is)
        (record {
          after = (lookup_with_version c first.after key).0;
          is = ap (λ r. some ((lookup_with_version c first.after key).0, r)) then_.is;
          stands = then_.stands;
        })

  -- `dbExists` says whether the key is there.
  pub db_exists-Returns :
      (db : Db dicts times) (v : View O)
      → Stands db v
      → Returns (db_exists db key) (is_some (v.entries key)) v
  unfolding db_exists
  db_exists-Returns db v s = record {
    is = ap is_some (found db v s key);
    stands = after_find db v s key;
  }
