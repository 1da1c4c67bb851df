-- ===== src/Db/View.antt =====
-- What a database stands for: the entry, the time of expiry and the logical clock that each key sees.
use libredis_a.Common.{
  ℕ, ◌≡◌, ◌≢◌, ap, ◌∙◌, Bool, true, false, ◌&&◌, not, Option, none, some, ◌==◌, ltb, if◌then◌else◌,
}
use libredis_a.Common.Int.{ℤ, pos, negsuc, ltb_ℤ}
use libredis_a.Sds.{Sds, sds_key_compare}
use libredis_a.Object.{Robj}
use libredis_a.Store.{Store}
use libredis_a.Db.{Clocks, Db}

pub record View (O : Type 0) : Type 0 where
  pub entries : Sds → Option (Sds × Robj O)
  pub times : Sds → Option ℤ
  pub clock : ℕ

abbrev pub when_of : Option (Sds × ℤ) → Option ℤ
when_of none = none
when_of (some e) = some (e.1)

-- The view without a key.
abbrev pub without : {O : Type 0} → View O → Sds → View O
without v key = record v {
  entries = λ q. if sds_key_compare key q then none else v.entries q;
  times = λ q. if sds_key_compare key q then none else v.times q;
}

abbrev pub clock_of : {O : Type 0} → Option (Sds × Robj O) → ℕ
clock_of none = 0
clock_of (some e) = (e.0).logiclock

abbrev pub time_or : Option ℤ → ℤ
time_or none = negsuc 0
time_or (some t) = t

-- Whether a key has passed its time, or the logical clock has passed the key's.
abbrev pub late : Clocks → ℤ → Bool
late c when = not (ltb_ℤ when (pos 0)) && ltb_ℤ when c.now

abbrev pub expired : {O : Type 0} → Clocks → View O → Sds → Bool
expired c v key =
    if clock_of (v.entries key) == 0
    then false
    else if ltb (clock_of (v.entries key)) v.clock
    then true
    else late c (time_or (v.times key))

-- The view after `expireIfNeeded`.
abbrev pub purged : {O : Type 0} → Clocks → View O → Sds → View O
purged c v key = if expired c v key then without v key else v

module _ {O : Type 0} {dicts : Store (Robj O)} {times : Store ℤ} where
  -- The database sees what the view says, every key that it holds has a logical clock, and only keys
  -- that it holds have a time.
  pub record Stands (db : Db dicts times) (v : View O) : Type 0 where
    pub entries : (q : Sds) → dicts.view db.dict q ≡ v.entries q
    pub expiring : (q : Sds) → when_of (times.view db.expires q) ≡ v.times q
    pub clock : db.logiclock ≡ v.clock
    pub clocked : (q k : Sds) (x : Robj O) → v.entries q ≡ some (k, x) → k.logiclock ≢ 0
    pub held : (q : Sds) → v.entries q ≡ none → v.times q ≡ none

  -- A step that asserts nothing, its result, and the view after it.
  pub record Returns {A : Type 0} (r : Db dicts times × A) (a : A) (v : View O) : Type 0 where
    pub is : r.1 ≡ a
    pub stands : Stands r.0 v

  -- A step whose assertions hold.
  pub record Yields {A : Type 0} (r : Option (Db dicts times × A)) (a : A) (v : View O)
      : Type 0 where
    pub after : Db dicts times
    pub is : r ≡ some (after, a)
    pub stands : Stands after v

  module _ (db : Db dicts times) (v : View O) (s : Stands db v) where
    -- Other maps that see the same.
    pub same_dict :
        (d : dicts.Map)
        → ((q : Sds) → dicts.view d q ≡ dicts.view db.dict q)
        → Stands (record db { dict = d }) v
    same_dict d e = record {
      entries = λ q. e q ∙ s.entries q;
      expiring = s.expiring;
      clock = s.clock;
      clocked = s.clocked;
      held = s.held;
    }

    pub same_times :
        (e : times.Map)
        → ((q : Sds) → times.view e q ≡ times.view db.expires q)
        → Stands (record db { expires = e }) v
    same_times e h = record {
      entries = s.entries;
      expiring = λ q. ap when_of (h q) ∙ s.expiring q;
      clock = s.clock;
      clocked = s.clocked;
      held = s.held;
    }

    pub found : (key : Sds) → (dicts.find db.dict key).1 ≡ v.entries key
    found key = dicts.find_result db.dict key ∙ s.entries key

    pub after_find : (key : Sds) → Stands (record db { dict = (dicts.find db.dict key).0 }) v
    after_find key = same_dict (dicts.find db.dict key).0 (dicts.find_view db.dict key)

  -- Statistics are no part of the view.
  pub same_stats :
      (db : Db dicts times) (v : View O) (expired hits misses need : ℕ)
      → Stands db v
      → Stands
          (record db {
            stat_expiredkeys = expired;
            stat_keyspace_hits = hits;
            stat_keyspace_misses = misses;
            need_remove_key = need;
          })
          v
  same_stats db v expired hits misses need s = record {
    entries = s.entries;
    expiring = s.expiring;
    clock = s.clock;
    clocked = s.clocked;
    held = s.held;
  }
