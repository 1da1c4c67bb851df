-- ===== src/Client/Outcome.antt =====
-- What a command leaves, in terms of what the database stands for.
use libredis_a.Common.{
  ℕ, ◌≡◌, refl, sym, Bool, true, Option, none, some, if◌then◌else◌, is_some, Bool-cases, inl, inr,
}
use mathlib.Core.Option
use libredis_a.Common.Int.{ℤ, pos, ltb_ℤ, eqb_ℤ}
use libredis_a.Sds.{Sds, sds_key_compare}
use libredis_a.Sds.Keys.{compare_iff, db_dict_type}
use libredis_a.Object.{Robj}
use libredis_a.Store.{Store}
use libredis_a.Db.{Clocks, Db, remove_x_expire, set_x_expire}
use libredis_a.Db.View.{View, Stands, purged}
use libredis_a.Db.Writes.{timed}
use libredis_a.Db.Times.{set_x_expire_lem, remove_x_expire-Returns}
use libredis_a.Db.Reads.{touched, used, answer_of, lookup_key-Yields}
use libredis_a.Client.{Client, stamp, version_of, object_of, looked_up, expire_or_not}

-- The entry of a key once an expired one is removed, and the view after a lookup of it.
abbrev pub live : {O : Type 0} → Clocks → View O → Sds → Option (Sds × Robj O)
live t v key = (purged t v key).entries key

abbrev pub seen : {O : Type 0} → Clocks → View O → Sds → View O
seen t v key = touched t (purged t v key) key

-- The effect of EXPIRE_OR_NOT on a view with the key.
abbrev pub time_set : {O : Type 0} → ℤ → View O → Sds → View O
time_set expiretime w key =
    if ltb_ℤ (pos 0) expiretime
    then timed w key (some expiretime)
    else if eqb_ℤ expiretime (pos 0)
    then timed w key none
    else w

pub seen_entry :
    {O : Type 0} (t : Clocks) (v : View O) (key : Sds)
    → (seen t v key).entries key ≡ Option.map (used t) (live t v key)
seen_entry t v key = rw (db_dict_type.compare_refl key) refl

module _ {O : Type 0} {dicts : Store (Robj O)} {times : Store ℤ} where
  -- A command whose assertions hold: its return code, the changes that it counts, and the view.
  pub record Leaves (r : Option (Client dicts times)) (code : ℤ) (dirty : ℕ) (w : View O)
      : Type 0 where
    pub after : Client dicts times
    pub is : r ≡ some after
    pub code_is : after.returncode ≡ code
    pub dirty_is : after.dirty ≡ dirty
    pub stands : Stands after.db w

  pub stamp_bytes : (c : Client dicts times) (there : Bool) → (stamp c there).bytes ≡ c.key.bytes
  stamp_bytes c there = elim (Bool-cases c.version_care) [ inl e ↦ rw e refl | inr e ↦ rw e refl ]

  pub stamp_clock :
      (c : Client dicts times) (there : Bool) → (stamp c there).logiclock ≡ c.key.logiclock
  stamp_clock c there = elim (Bool-cases c.version_care) [ inl e ↦ rw e refl | inr e ↦ rw e refl ]

  pub stamp_compare :
      (c : Client dicts times) (there : Bool) → sds_key_compare c.key (stamp c there) ≡ true
  stamp_compare c there = (compare_iff c.key (stamp c there)).1 (sym (stamp_bytes c there))

  -- The lookup at the start of a command.
  pub looked_up_lem :
      (t : Clocks) (c : Client dicts times) (v : View O)
      → Stands c.db v
      → (db : Db dicts times) × (looked_up t c
          ≡ some (
            record c { db = db; version = version_of (answer_of t (live t v c.key)) },
            object_of (answer_of t (live t v c.key)),
          ))
        × Stands db (seen t v c.key)
  looked_up_lem t c v s =
      let found = lookup_key-Yields t c.key c.db v s in
      (found.after, (unfold looked_up in rw (looked_up, found.is) refl), found.stands)

  -- EXPIRE_OR_NOT on a key that is there.
  pub expire_or_not_lem :
      (c : Client dicts times) (w : View O)
      → Stands c.db w
      → is_some (w.entries c.key) ≡ true
      → (db : Db dicts times) × (expire_or_not c ≡ record c { db = db })
        × Stands db (time_set c.expiretime w c.key)
  unfolding expire_or_not
  expire_or_not_lem c w s there = elim (Bool-cases (ltb_ℤ (pos 0) c.expiretime)) [
    | inl e ↦ rw e (
      set_x_expire c.db c.key c.expiretime,
      refl,
      rw there at (set_x_expire_lem c.db w s c.key c.expiretime),
    )
    | inr e ↦ elim (Bool-cases (eqb_ℤ c.expiretime (pos 0))) [
      | inl f ↦
          rw (e, f)
            (
              (remove_x_expire c.db c.key).0,
              refl,
              rw there at ((remove_x_expire-Returns c.db w s c.key).stands),
            )
      | inr f ↦ rw (e, f) (c.db, refl, s)
    ]
  ]
