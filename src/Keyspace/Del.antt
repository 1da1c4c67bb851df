-- ===== src/Keyspace/Del.antt =====
-- What delCommand, existsCommand and typeCommand leave.
use libredis_a.Common.{
  ℕ, ◌+◌, ◌≡◌, refl, sym, ap, ◌∙◌, Bool, false, ◌||◌, Option, none, some, List, [], ◌∷◌, ◌==◌,
  if◌then◌else◌, is_some, Bool-cases, inl, inr, arith,
}
use libredis_a.Common.Int.{ℤ, pos}
use libredis_a.Sds.{Sds, sds_key_compare}
use libredis_a.Object.{Robj}
use libredis_a.Store.{Store}
use libredis_a.Db.{Clocks, Db, db_delete, db_exists}
use libredis_a.Db.View.{View, Stands, Returns, without, purged}
use libredis_a.Db.Expiry.{db_delete-Returns, expire_if_needed-Yields}
use libredis_a.Db.Reads.{db_exists-Returns}
use libredis_a.Client.{Client, redis_ok, ok_not_exist}
use libredis_a.Client.Outcome.{Leaves, live}
use libredis_a.Keyspace.{del_loop, del_command, exists_command}

-- Whether a key is one of the listed ones, and the view without those.
abbrev pub listed : List Sds → Sds → Bool
listed [] q = false
listed (key ∷ keys) q = sds_key_compare key q || listed keys q

abbrev pub without_all : {O : Type 0} → View O → List Sds → View O
without_all v keys = record v {
  entries = λ q. if listed keys q then none else v.entries q;
  times = λ q. if listed keys q then none else v.times q;
}

-- How many of the listed keys are held, each one counted once.
abbrev pub held_count : {O : Type 0} → View O → List Sds → ℕ
held_count v [] = 0
held_count v (key ∷ keys) =
    (if is_some (v.entries key) then 1 else 0) + held_count (without v key) keys

peel :
    {A : Type 0} (a b : Bool) (o : Option A)
    → (if b then none else if a then none else o) ≡ (if a || b then none else o)
peel a b o = elim (Bool-cases a) [
  | inl e ↦ rw e (elim (Bool-cases b) [ inl f ↦ rw f refl | inr f ↦ rw f refl ])
  | inr e ↦ rw e refl
]

module _ {O : Type 0} {dicts : Store (Robj O)} {times : Store ℤ} where
  same_view :
      (db : Db dicts times) (v w : View O)
      → Stands db v
      → ((q : Sds) → v.entries q ≡ w.entries q)
      → ((q : Sds) → v.times q ≡ w.times q)
      → v.clock ≡ w.clock
      → Stands db w
  same_view db v w s e t c = record {
    entries = λ q. s.entries q ∙ e q;
    expiring = λ q. s.expiring q ∙ t q;
    clock = s.clock ∙ c;
    clocked = λ q k x h. s.clocked q k x (e q ∙ h);
    held = λ q h. sym (t q) ∙ s.held q (e q ∙ h);
  }

  del_loop-Returns :
      (db : Db dicts times) (v : View O) (keys : List Sds)
      → Stands db v
      → Returns (del_loop db keys) (held_count v keys) (without_all v keys)
  unfolding del_loop
  del_loop-Returns db v [] s = record { is = refl; stands = s }
  del_loop-Returns db v (key ∷ keys) s =
      let gone = db_delete-Returns db v key s in
      let rest = del_loop-Returns (db_delete db key).0 (without v key) keys gone.stands in
      record {
        is = rw (gone.is, rest.is) refl;
        stands =
            same_view _ (without_all (without v key) keys) (without_all v (key ∷ keys)) rest.stands
              (λ q. peel (sds_key_compare key q) (listed keys q) (v.entries q))
              (λ q. peel (sds_key_compare key q) (listed keys q) (v.times q)) refl;
      }

  -- On a database that stands for a view, delCommand removes every listed key with its time and
  -- keeps the others, counts each held key once, and reports when it held none of them.
  pub del_command-Leaves :
      (c : Client dicts times) (v : View O) (keys : List Sds)
      → Stands c.db v
      → Leaves
          (some (del_command c keys))
          (if held_count v keys == 0 then ok_not_exist else redis_ok)
          (c.dirty + held_count v keys)
          (without_all v keys)
  unfolding del_command
  del_command-Leaves c v keys s =
      let gone = del_loop-Returns c.db v keys s in
      let n : (del_loop c.db keys).1 ≡ held_count v keys = gone.is in
      elim (Bool-cases (held_count v keys == 0)) [
        | inl z ↦
            rw (n, z)
              (record {
                after = record c { db = (del_loop c.db keys).0; returncode = ok_not_exist };
                is = refl;
                code_is = refl;
                dirty_is = ground arith;
                stands = gone.stands;
              })
        | inr z ↦
            rw (n, z)
              (record {
                after = record c {
                  db = (del_loop c.db keys).0;
                  dirty = c.dirty + held_count v keys;
                  retvalue = pos (held_count v keys);
                  returncode = redis_ok;
                };
                is = refl;
                code_is = refl;
                dirty_is = refl;
                stands = gone.stands;
              })
      ]

  -- `existsCommand` removes an expired key and then says whether the key is there.
  pub exists_command-Leaves :
      (t : Clocks) (c : Client dicts times) (v : View O)
      → Stands c.db v
      → Leaves
          (exists_command t c)
          (if is_some (live t v c.key) then redis_ok else ok_not_exist)
          c.dirty
          (purged t v c.key)
  unfolding exists_command
  exists_command-Leaves t c v s =
      let first = expire_if_needed-Yields t c.key c.db v s in
      let there = db_exists-Returns t c.key first.after (purged t v c.key) first.stands in
      rw (exists_command, first.is)
        (record {
          after = record c {
            db = (db_exists first.after c.key).0;
            returncode = if (db_exists first.after c.key).1 then redis_ok else ok_not_exist;
          };
          is = refl;
          code_is = ap (λ (b : Bool). if b then redis_ok else ok_not_exist) there.is;
          dirty_is = refl;
          stands = there.stands;
        })
