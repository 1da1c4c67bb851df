-- ===== src/Db/Writes.antt =====
-- How db.c changes entries and times.
use libredis_a.Common.{
  ◌≡◌, ◌≢◌, refl, sym, ap, ◌∙◌, ◌⊎◌, inl, inr, true, not, Option, none, some, if◌then◌else◌,
  is_some, Bool-cases, Option-cases,
}
use mathlib.Core.Option
use mathlib.Core.Option.{some-injective}
use libredis_a.Common.Int.{ℤ}
use libredis_a.Sds.{Sds, dup, version_change, sds_key_compare}
use libredis_a.Object.{Robj}
use libredis_a.Store.{Store}
use libredis_a.Db.{Db, db_add, db_update_key, db_super_replace, db_replace}
use libredis_a.Db.View.{View, when_of, Stands, Returns, found, after_find}

-- The entry of a key rewritten, a new entry, and the time of a key set or removed.
abbrev pub updated : {O : Type 0} → (Sds × Robj O → Sds × Robj O) → View O → Sds → View O
updated f v key = record v {
  entries = λ q. if sds_key_compare key q then Option.map f (v.entries q) else v.entries q;
}

abbrev pub inserted : {O : Type 0} → View O → Sds → Robj O → View O
inserted v key val = record v {
  entries = λ q. if sds_key_compare q key then some (key, val) else v.entries q;
}

-- A new entry, or the old one rewritten.
abbrev pub put : {O : Type 0} → (Sds × Robj O → Sds × Robj O) → View O → Sds → Robj O → View O
put f v key val = if is_some (v.entries key) then updated f v key else inserted v key val

abbrev pub timed : {O : Type 0} → View O → Sds → Option ℤ → View O
timed v key when = record v { times = λ q. if sds_key_compare key q then when else v.times q }

map-is_none : {A B : Type 0} (f : A → B) (o : Option A) → Option.map f o ≡ none → o ≡ none
map-is_none f none h = refl
map-is_none f (some a) h = absurd (cc)

map-is_some :
    {A B : Type 0} (f : A → B) (o : Option A) (b : B)
    → Option.map f o ≡ some b
    → (a : A) × (o ≡ some a) × (f a ≡ b)
map-is_some f none b h = absurd (cc)
map-is_some f (some a) b h = (a, refl, some-injective _ _ h)

module _ {O : Type 0} {dicts : Store (Robj O)} {times : Store ℤ} where
  module _ (db : Db dicts times) (v : View O) (s : Stands db v) (key : Sds) where
    pub Stands_cong : (a b : Sds) → sds_key_compare a b ≡ true → v.entries a ≡ v.entries b
    Stands_cong a b c = sym (s.entries a) ∙ dicts.view_cong db.dict a b c ∙ s.entries b

    pub updated-Stands :
        (f : Sds × Robj O → Sds × Robj O)
        → ((e : Sds × Robj O) → ((f e).0).logiclock ≡ (e.0).logiclock)
        → (d : dicts.Map)
        → ((q : Sds)
            → dicts.view d q ≡ (
                if sds_key_compare key q
                then Option.map f (dicts.view db.dict q)
                else dicts.view db.dict q))
        → Stands (record db { dict = d }) (updated f v key)
    updated-Stands f same d seen = record {
      entries =
          λ q. seen q ∙ ap (λ o. if sds_key_compare key q then Option.map f o else o) (s.entries q);
      expiring = s.expiring;
      clock = s.clock;
      clocked = λ q k x e. elim (Bool-cases (sds_key_compare key q)) [
        | inr c ↦ s.clocked q k x (rw c at e)
        | inl c ↦
            let ((k0, x0), there, fe) = map-is_some f (v.entries q) (k, x) (rw c at e) in
            λ z.
              s.clocked q k0 x0 there
                (sym (same (k0, x0)) ∙ ap (λ (y : Sds × Robj O). (y.0).logiclock) fe ∙ z)
      ];
      held = λ q e. elim (Bool-cases (sds_key_compare key q)) [
        | inr c ↦ s.held q (rw c at e)
        | inl c ↦ s.held q (map-is_none f (v.entries q) (rw c at e))
      ];
    }

    pub inserted-Stands :
        (val : Robj O)
        → key.logiclock ≢ 0
        → (d : dicts.Map)
        → ((q : Sds)
            → dicts.view d q
              ≡ (if sds_key_compare q key then some (key, val) else dicts.view db.dict q))
        → Stands (record db { dict = d }) (inserted v key val)
    inserted-Stands val real d seen = record {
      entries = λ q.
          seen q ∙ ap (λ o. if sds_key_compare q key then some (key, val) else o) (s.entries q);
      expiring = s.expiring;
      clock = s.clock;
      clocked = λ q k x e. elim (Bool-cases (sds_key_compare q key)) [
        | inr c ↦ s.clocked q k x (rw c at e)
        | inl c ↦
            let same : (key, val) ≡ (k, x) = some-injective _ _ (rw c at e) in
            λ z. real (ap (λ (y : Sds × Robj O). (y.0).logiclock) same ∙ z)
      ];
      held = λ q e. elim (Bool-cases (sds_key_compare q key)) [
        | inr c ↦ s.held q (rw c at e)
        | inl c ↦ absurd (cc (rw c at e))
      ];
    }

    pub timed-Stands :
        (when : Option ℤ) (e : times.Map)
        → ((when ≡ none) ⊎ (v.entries key ≢ none))
        → ((q : Sds)
            → when_of (times.view e q)
              ≡ (if sds_key_compare key q then when else when_of (times.view db.expires q)))
        → Stands (record db { expires = e }) (timed v key when)
    timed-Stands when e allowed seen = record {
      entries = s.entries;
      expiring = λ q. seen q ∙ ap (λ o. if sds_key_compare key q then when else o) (s.expiring q);
      clock = s.clock;
      clocked = s.clocked;
      held = λ q n. elim (Bool-cases (sds_key_compare key q)) [
        | inr c ↦ rw c (s.held q n)
        | inl c ↦
            rw c (elim allowed [ inl h ↦ h | inr there ↦ absurd (there (Stands_cong key q c ∙ n)) ])
      ];
    }

    absent : v.entries key ≡ none → dicts.view (dicts.find db.dict key).0 key ≡ none
    absent n = dicts.find_view db.dict key key ∙ s.entries key ∙ n

    present :
        (e : Sds × Robj O)
        → v.entries key ≡ some e
        → dicts.view (dicts.find db.dict key).0 key ≡ some e
    present e n = dicts.find_view db.dict key key ∙ s.entries key ∙ n

    -- The entry is new.
    added :
        (val : Robj O)
        → key.logiclock ≢ 0
        → v.entries key ≡ none
        → Stands
            (record db { dict = (dicts.add (dicts.find db.dict key).0 (dup key) val).0 })
            (inserted v key val)
    added val real n = inserted-Stands val real _ (λ q.
        dicts.add_view (dicts.find db.dict key).0 key val q (absent n)
        ∙ ap (λ o. if sds_key_compare q key then some (key, val) else o)
            (dicts.find_view db.dict key q))

    -- `dbAdd` adds a key that is not there, and otherwise changes nothing.
    pub db_add-Returns :
        (val : Robj O)
        → key.logiclock ≢ 0
        → Returns
            (db_add db key val)
            (not (is_some (v.entries key)))
            (if is_some (v.entries key) then v else inserted v key val)
    unfolding db_add
    db_add-Returns val real = elim (Option-cases (v.entries key)) [
      | inl n ↦ rw (found db v s key, n) (record { is = refl; stands = added val real n })
      | inr (e, n) ↦ rw (found db v s key, n) (record { is = refl; stands = after_find db v s key })
    ]

    seen_after :
        (f : Sds × Robj O → Sds × Robj O) (q : Sds)
        → (if sds_key_compare key q
            then Option.map f (dicts.view (dicts.find db.dict key).0 q)
            else dicts.view (dicts.find db.dict key).0 q)
          ≡ (if sds_key_compare key q
              then Option.map f (dicts.view db.dict q)
              else dicts.view db.dict q)
    seen_after f q =
        ap (λ o. if sds_key_compare key q then Option.map f o else o)
          (dicts.find_view db.dict key q)

    -- On a database that stands for a view, with a key that has a logical clock, dbSuperReplace
    -- adds a missing key, and gives a present one the version of the argument and the value; it
    -- says whether the key is new.
    pub db_super_replace-Returns :
        (val : Robj O)
        → key.logiclock ≢ 0
        → Returns
            (db_super_replace db key val)
            (not (is_some (v.entries key)))
            (put (λ e. (version_change (e.0) key.version, val)) v key val)
    unfolding db_super_replace
    db_super_replace-Returns val real = elim (Option-cases (v.entries key)) [
      | inl n ↦ rw (found db v s key, n) (record { is = refl; stands = added val real n })
      | inr (e, n) ↦
          rw (found db v s key, n)
            (record {
              is = refl;
              stands =
                  updated-Stands (λ e. (version_change (e.0) key.version, val)) (λ e. refl) _
                    (λ q.
                      dicts.super_replace_view (dicts.find db.dict key).0 key val e q (present e n)
                      ∙ seen_after _ q);
            })
    ]

    -- `dbReplace` does the same but for the version.
    pub db_replace-Returns :
        (val : Robj O)
        → key.logiclock ≢ 0
        → Returns
            (db_replace db key val)
            (not (is_some (v.entries key)))
            (put (λ e. (e.0, val)) v key val)
    unfolding db_replace
    db_replace-Returns val real = elim (Option-cases (v.entries key)) [
      | inl n ↦ rw (found db v s key, n) (record { is = refl; stands = added val real n })
      | inr (e, n) ↦
          rw (found db v s key, n)
            (record {
              is = refl;
              stands =
                  updated-Stands (λ e. (e.0, val)) (λ e. refl) _
                    (λ q.
                      dicts.replace_view (dicts.find db.dict key).0 key val e q (present e n)
                      ∙ seen_after _ q);
            })
    ]

    -- `dbUpdateKey` gives a present key the version of the argument.
    pub db_update_key-Returns : Returns (db_update_key db key) (is_some (v.entries key)) (
        if is_some (v.entries key)
        then updated (λ e. (version_change (e.0) key.version, e.1)) v key
        else v)
    unfolding db_update_key
    db_update_key-Returns = elim (Option-cases (v.entries key)) [
      | inl n ↦ rw (found db v s key, n) (record { is = refl; stands = after_find db v s key })
      | inr (e, n) ↦
          rw (found db v s key, n)
            (record {
              is =
                  dicts.update_key_result (dicts.find db.dict key).0 key ∙ ap is_some (present e n);
              stands =
                  updated-Stands (λ e. (version_change (e.0) key.version, e.1)) (λ e. refl) _
                    (λ q.
                      dicts.update_key_view (dicts.find db.dict key).0 key e q (present e n)
                      ∙ seen_after _ q);
            })
    ]
