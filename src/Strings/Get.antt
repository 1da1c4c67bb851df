-- ===== src/Strings/Get.antt =====
-- `getGenericCommand`, and what it returns after a set.
use libredis_a.Common.{
  ◌+◌, ◌≤◌, ◌≡◌, ◌≢◌, refl, ap, ◌∙◌, Bool, true, false, not, Option, none, some, List, [], ◌∷◌,
  if◌then◌else◌, Bool-cases, inl, inr, ◌==◌, ltb, ==_iff, arith, sym, subst, ℕ,
}
use libredis_a.Common.Int.{ℤ, pos}
use libredis_a.Sds.{Sds, sds_key_compare}
use libredis_a.Sds.Keys.{compare_iff, db_dict_type}
use libredis_a.Util.{string_as_long}
use libredis_a.Util.Canonical.{Prints, IsStrtoll, string_as_long_lem, ll2string_lem}
use libredis_a.Object.{
  Robj, redis_string, encoding_raw, create_string_object, encode, try_object_encoding,
}
use libredis_a.Object.Encoding.{bytes_of}
use libredis_a.Store.{Store}
use libredis_a.Db.{Clocks, Db}
use libredis_a.Db.View.{View, Stands, expired, purged, without}
use libredis_a.Db.Writes.{inserted}
use libredis_a.Db.Reads.{used, answer_of}
use libredis_a.Client.{
  Client, Reply, integer_item, object_item, redis_ok, redis_err, ok_not_exist, err_wrong_type,
  returns, version_of, object_of,
}
use libredis_a.Client.Outcome.{live, seen, Leaves, looked_up_lem}
use libredis_a.Strings.{get_found, get_generic, reply_of, set_generic, set_command}
use libredis_a.Strings.Set.{set_generic_lem, keyed}
use libredis_a.Strings.Storing.{set_time}

purged_clock : {O : Type 0} (t : Clocks) (v : View O) (key : Sds) → (purged t v key).clock ≡ v.clock
purged_clock t v key = elim (Bool-cases (expired t v key)) [ inl e ↦ rw e refl | inr e ↦ rw e refl ]

live_fresh :
    {O : Type 0} (t : Clocks) (w : View O) (key : Sds)
    → expired t w key ≡ false
    → live t w key ≡ w.entries key
live_fresh t w key e = ap (λ (b : Bool). (if b then without w key else w).entries key) e

-- What a client reads in an item: the decimal of an integer, or the characters of a raw string.
abbrev pub Reads : {O : Type 0} → Reply O → List ℕ → Type 0
Reads (integer_item n) s = Prints n s
Reads (object_item o) s = (o.type ≡ redis_string) × (o.encoding ≡ encoding_raw) × (bytes_of o ≡ s)

module _ {O : Type 0} {dicts : Store (Robj O)} {times : Store ℤ} where
  -- What `getGenericCommand` leaves: its return code, whether it returns REDIS_OK, the list, and the view.
  pub record Gets (r : Option (Client dicts times × Bool)) (code : ℤ) (ok : Bool)
      (items : List (Reply O)) (w : View O) : Type 0 where
    pub after : Client dicts times
    pub is : r ≡ some (after, ok)
    pub code_is : after.returncode ≡ code
    pub items_are : after.return_value ≡ items
    pub stands : Stands after.db w

  abbrev pub GetOutcome :
      Clocks
      → Client dicts times
      → View O
      → Option (Client dicts times × Bool)
      → Option (Sds × Robj O)
      → Type 0
  GetOutcome t c v r none = Gets r ok_not_exist true c.return_value (seen t v c.key)
  GetOutcome t c v r (some e) =
      if not ((e.1).type == redis_string)
      then Gets r err_wrong_type false c.return_value (seen t v c.key)
      else Gets r redis_ok true (reply_of ((used t e).1) ∷ []) (seen t v c.key)

  from_lookup :
      (t : Clocks) (c : Client dicts times) (v : View O) (db : Db dicts times)
      (o : Option (Sds × Robj O))
      → Stands db (seen t v c.key)
      → GetOutcome t c v
          (get_found
            (record c { db = db; version = version_of (answer_of t o); returncode = redis_err })
            (object_of (answer_of t o)))
          o
  unfolding get_found
  from_lookup t c v db none s = record {
    after = record c { db = db; version = 0; returncode = ok_not_exist };
    is = refl;
    code_is = refl;
    items_are = refl;
    stands = s;
  }
  from_lookup t c v db (some e) s =
      let c1 = record c { db = db; version = (e.0).version; returncode = redis_err } in
      elim (Bool-cases ((e.1).type == redis_string)) [
        | inl f ↦ rw f (record {
          after = record c1 { return_value = reply_of ((used t e).1) ∷ []; returncode = redis_ok };
          is = refl;
          code_is = refl;
          items_are = refl;
          stands = s;
        })
        | inr f ↦ rw f (record {
          after = returns c1 err_wrong_type;
          is = refl;
          code_is = refl;
          items_are = refl;
          stands = s;
        })
      ]

  pub get_generic_lem :
      (t : Clocks) (c : Client dicts times) (v : View O)
      → Stands c.db v
      → GetOutcome t c v (get_generic t c) (live t v c.key)
  get_generic_lem t c v s =
      let (db, is, stands) = looked_up_lem t (returns c redis_err) v s in
      unfold get_generic in rw (get_generic, is) (from_lookup t c v db (live t v c.key) stands)

  module _ (t : Clocks) (c : Client dicts times) (v : View O) (val : Robj O) where
    abbrev pub stored : View O
    stored = set_time none (pos 0) (inserted (seen t v c.key) (keyed c 0) val) (keyed c 0)

    -- The new entry is found, and has not expired.
    live-stored :
        c.key.logiclock ≢ 0
        → v.clock ≤ c.key.logiclock
        → live t stored c.key ≡ some (keyed c 0, val)
    live-stored real fresh =
        let hit : sds_key_compare c.key (keyed c 0) ≡ true =
          (compare_iff c.key (keyed c 0)).1 refl in
        let back : sds_key_compare (keyed c 0) c.key ≡ true =
          db_dict_type.compare_sym (keyed c 0) c.key ∙ hit in
        let z : (c.key.logiclock == 0) ≡ false = ground arith in
        let l : ltb c.key.logiclock stored.clock ≡ false =
          rw (purged_clock t v c.key) (ground arith) in
        let e : expired t stored c.key ≡ false = rw (hit, back, z, l) refl in
        live_fresh t stored c.key e ∙ rw hit refl

  -- A get that succeeds with one item that reads as `s`, from a database that holds `object`.
  pub record Returns (t : Clocks) (c : Client dicts times) (v : View O)
      (r : Option (Client dicts times × Bool)) (s : List ℕ) : Type 0 where
    pub object : Robj O
    pub item : Reply O
    pub got : Gets r redis_ok true (item ∷ []) (seen t (stored t c v object) c.key)
    pub reads : Reads item s

  set_get_object :
      (strtoll : List ℕ → ℤ × List ℕ) (erange : List ℕ → Bool) (t : Clocks) (c : Client dicts times)
      (v : View O) (val : Robj O) (s : List ℕ)
      → Stands c.db v
      → c.key.logiclock ≢ 0
      → v.clock ≤ c.key.logiclock
      → live t v c.key ≡ none
      → c.expiretime ≡ pos 0
      → val.type ≡ redis_string
      → Reads (reply_of (record val { lru = t.lruclock })) s
      → (a : Client dicts times) × (set_generic strtoll erange t c false val none ≡ some a)
        × Returns t c v (get_generic t (record c { db = a.db })) s
  set_get_object strtoll erange t c v val s stands real fresh missing forever string reads =
      let set : Leaves (set_generic strtoll erange t c false val none) redis_ok (c.dirty + 1)
          (set_time none c.expiretime (inserted (seen t v c.key) (keyed c 0) val) (keyed c 0)) =
        rw missing at ((set_generic_lem t c v stands real false val strtoll erange).0) in
      let after : Stands set.after.db (stored t c v val) =
        subst
          (λ time.
            Stands set.after.db
              (set_time none time (inserted (seen t v c.key) (keyed c 0) val) (keyed c 0)))
          forever set.stands in
      let got = get_generic_lem t (record c { db = set.after.db }) (stored t c v val) after in
      let f : (val.type == redis_string) ≡ true = (==_iff _ _).1 string in
      (
        set.after,
        set.is,
        record {
          object = val;
          item = reply_of (record val { lru = t.lruclock });
          got = rw (live-stored t c v val real fresh, f) at got;
          reads = reads;
        },
      )

  module _ (strtoll : List ℕ → ℤ × List ℕ) (library : IsStrtoll strtoll) (erange : List ℕ → Bool)
      (t : Clocks) (c : Client dicts times) (v : View O) (lru : ℕ) (s : List ℕ)
      (clock ver : ℕ) where
    abbrev string : Robj O
    string = create_string_object lru s clock ver

    encode-Reads :
        (o : Option ℤ)
        → string_as_long strtoll s ≡ o
        → ((encode string o).type ≡ redis_string)
          × Reads (reply_of (record (encode string o) { lru = t.lruclock })) s
    unfolding encode
    encode-Reads none e = (refl, (refl, refl, refl))
    encode-Reads (some n) e =
        let (accepts, agree) = string_as_long_lem strtoll library s in
        let (fits, printed) = (accepts n).0 (sym agree ∙ e) in
        (
          refl,
          (elim ((ll2string_lem 32 n fits (omega arith)).0) [
            | inl p ↦ subst (Prints n) printed p
            | inr h ↦ absurd (omega (arith, h))
          ]),
        )

    -- With a strtoll whose values are long longs and which reads decimal numerals to their end, on
    -- a database that stands for a view without a live entry of the key, for a client that sets no
    -- time and a key whose logical clock is not 0 and not behind the database, setCommand of a
    -- string succeeds, and getGenericCommand then returns one item, which reads as that string: an
    -- integer whose decimal print the string is, or a raw string object with its characters.
    pub set_get :
        (shared : Bool)
        → Stands c.db v
        → c.key.logiclock ≢ 0
        → v.clock ≤ c.key.logiclock
        → live t v c.key ≡ none
        → c.expiretime ≡ pos 0
        → (a : Client dicts times) × (set_command strtoll erange t c shared string ≡ some a)
          × Returns t c v (get_generic t (record c { db = a.db })) s
    unfolding set_command try_object_encoding
    set_get true stands real fresh missing forever =
        set_get_object strtoll erange t c v string s stands real fresh missing forever refl
          (refl, refl, refl)
    set_get false stands real fresh missing forever =
        let (type, reads) = encode-Reads (string_as_long strtoll s) refl in
        set_get_object strtoll erange t c v (encode string (string_as_long strtoll s)) s stands real
          fresh missing forever type reads
