-- ===== src/Store/FromDict.antt =====
-- dict.c gives what the keyspace asks: its well-formed dictionaries over strings.
use libredis_a.Common.{
  ◌≡◌, ◌≢◌, refl, sym, ap, subst, ◌∙◌, inl, inr, Bool, true, Option, none, some, arith, is_some,
  length, if◌then◌else◌, Bool-cases, Option-cases, List-cases, ◌==◌,
}
use mathlib.Core.Option
use mathlib.Core.Option.{some-injective}
use libredis_a.Dict.Chains.{find_in-some}
use libredis_a.Sds.{Sds, version_change, sds_key_compare}
use libredis_a.Sds.Keys.{db_dict_type}
use libredis_a.Dict.{
  Ht, Dict, create, find_in, index, dict_size, empty, find, write_found, add, replace,
  super_replace, update_key, delete,
}
use libredis_a.Dict.Tables.{HtValid, chain, length-le-total, index-lt}
use libredis_a.Dict.Valid.{Valid, lookup}
use libredis_a.Dict.Find.{find-lookup}
use libredis_a.Dict.Add.{Gains, lookup_cong}
use libredis_a.Dict.Delete.{delete-Deletes}
use libredis_a.Dict.Write.{Maps, write_found-Maps}
use libredis_a.Dict.Replace.{
  Replaces, add-Adds, replace-Replaces, super_replace-Replaces, update_key-Maps,
}
use libredis_a.Dict.History.{create-Valid, lookup-create}
use libredis_a.Store.{Store}

-- A well-formed dictionary.
pub record Sound (V : Type 0) : Type 0 where
  pub dict : Dict Sds V
  pub valid : Valid db_dict_type dict

is_some_of : {A : Type 0} (o : Option A) → o ≢ none → is_some o ≡ true
is_some_of none n = absurd (n refl)
is_some_of (some a) n = refl

module _ {V : Type 0} (can_resize : Bool) where
  abbrev sees : Dict Sds V → Sds → Option (Sds × V)
  sees d q = lookup db_dict_type d q

  add_valid :
      (d : Dict Sds V) (k : Sds) (v : V)
      → Valid db_dict_type d
      → Valid db_dict_type (add db_dict_type can_resize d k v).0
  add_valid d k v h = elim (add-Adds db_dict_type can_resize d k v h) [
    | inl (n, ok, g) ↦ g.valid
    | inr (n, ok, g) ↦ g.valid
  ]

  replaced_valid :
      (f : Sds × V → Sds × V) (d : Dict Sds V) (k : Sds) (v : V) (r : Dict Sds V × Bool)
      → Replaces db_dict_type f d k v r
      → Valid db_dict_type r.0
  replaced_valid f d k v r (inl (n, ok, g)) = g.valid
  replaced_valid f d k v r (inr (n, ok, g)) = g.valid

  new_entry :
      (f : Sds × V → Sds × V) (d : Dict Sds V) (k : Sds) (v : V) (r : Dict Sds V × Bool) (q : Sds)
      → Replaces db_dict_type f d k v r
      → sees d k ≡ none
      → sees r.0 q ≡ (if sds_key_compare q k then some (k, v) else sees d q)
  new_entry f d k v r q (inl (n, ok, g)) e = g.entries q
  new_entry f d k v r q (inr (n, ok, g)) e = absurd (n e)

  changed_entry :
      (f : Sds × V → Sds × V) (d : Dict Sds V) (k : Sds) (v : V) (r : Dict Sds V × Bool)
      (e : Sds × V) (q : Sds)
      → Replaces db_dict_type f d k v r
      → sees d k ≡ some e
      → sees r.0 q ≡ (if sds_key_compare k q then Option.map f (sees d q) else sees d q)
  changed_entry f d k v r e q (inl (n, ok, g)) h = absurd (cc (sym n ∙ h))
  changed_entry f d k v r e q (inr (n, ok, g)) h = g.entries q

  delete_valid :
      (d : Dict Sds V) (k : Sds)
      → Valid db_dict_type d
      → Valid db_dict_type (delete db_dict_type d k).0
  delete_valid d k h = elim (delete-Deletes db_dict_type d k h) [
    | inl (n, ok, g) ↦ g.valid
    | inr (n, ok, g) ↦ g.valid
  ]

  update_valid :
      (d : Dict Sds V) (k : Sds)
      → Valid db_dict_type d
      → Valid db_dict_type (update_key db_dict_type d k).0
  update_valid d k h = elim (update_key-Maps db_dict_type d k h) [
    | inl (n, ok, g) ↦ g.valid
    | inr (n, ok, g) ↦ g.valid
  ]

  written : (V → V) → Sds × V → Sds × V
  written f e = (e.0, f (e.1))

  -- A write through the value pointer of a found entry; without an entry there is no such pointer.
  write_value : Dict Sds V → Sds → (V → V) → Option (Sds × V) → Dict Sds V
  write_value d k f none = d
  write_value d k f (some e) = write_found db_dict_type d k (written f)

  write-Maps :
      (d : Dict Sds V) (k : Sds) (f : V → V) (e : Sds × V)
      → Valid db_dict_type d
      → sees d k ≡ some e
      → Maps db_dict_type (written f) d k (write_found db_dict_type d k (written f))
  unfolding written
  write-Maps d k f e h there =
      write_found-Maps db_dict_type (written f) (λ x. db_dict_type.compare_refl (x.0)) d k h e there

  write_valid :
      (d : Dict Sds V) (k : Sds) (f : V → V) (o : Option (Sds × V))
      → Valid db_dict_type d
      → sees d k ≡ o
      → Valid db_dict_type (write_value d k f o)
  unfolding write_value
  write_valid d k f none h e = h
  write_valid d k f (some x) h e = (write-Maps d k f x h e).valid

  no_entries :
      (h : Ht Sds V) (q : Sds)
      → HtValid db_dict_type h
      → h.used ≡ 0
      → find_in db_dict_type q (chain db_dict_type h q) ≡ none
  no_entries h q valid u = elim (Bool-cases (h.size == 0)) [
    | inl z ↦ rw (valid.beyond (index db_dict_type h q) (ground arith)) (unfold find_in in refl)
    | inr z ↦
        let i = index-lt db_dict_type h q valid (ground arith) in
        elim (List-cases (chain db_dict_type h q)) [
          | inl e ↦ rw e (unfold find_in in refl)
          | inr (x, r, e) ↦ absurd (
              omega (
                arith,
                ap length e,
                valid.counted,
                u,
                length-le-total h.size h.table (index db_dict_type h q) i,
              ))
        ]
  ]

  own_key :
      (d : Dict Sds V) (k : Sds) (e : Sds × V) → sees d k ≡ some e → sds_key_compare k (e.0) ≡ true
  own_key d k e h = elim (Option-cases (find_in db_dict_type k (chain db_dict_type d.ht0 k))) [
    | inl n ↦ (find_in-some db_dict_type k _ e (rw n at h)).1
    | inr (x, n) ↦
        let same : x ≡ e = some-injective _ _ (rw n at h) in
        subst (λ (y : Sds × V). sds_key_compare k (y.0) ≡ true) same
          ((find_in-some db_dict_type k _ x n).1)
  ]

  nothing : (d : Dict Sds V) (q : Sds) → Valid db_dict_type d → dict_size d ≡ 0 → sees d q ≡ none
  unfolding dict_size
  nothing d q h z =
      rw (no_entries d.ht0 q h.valid0 (omega arith), no_entries d.ht1 q h.valid1 (omega arith)) refl

  module _ (d : Dict Sds V) (k : Sds) (h : Valid db_dict_type d) where
    add_new :
        (v : V)
        → sees d k ≡ none
        → ((add db_dict_type can_resize d k v).1 ≡ true)
          × Gains db_dict_type d k v (add db_dict_type can_resize d k v).0
    add_new v n = elim (add-Adds db_dict_type can_resize d k v h) [
      | inl (e, ok, g) ↦ (ok, g)
      | inr (e, ok, g) ↦ absurd (e n)
    ]

    updated :
        (e : Sds × V) (q : Sds)
        → sees d k ≡ some e
        → sees (update_key db_dict_type d k).0 q ≡ (
            if sds_key_compare k q
            then Option.map (λ x. (version_change (x.0) k.version, x.1)) (sees d q)
            else sees d q)
    updated e q n = elim (update_key-Maps db_dict_type d k h) [
      | inl (m, ok, g) ↦ g.entries q
      | inr (m, ok, g) ↦ absurd (cc (sym m ∙ n))
    ]

    updates : (update_key db_dict_type d k).1 ≡ is_some (sees d k)
    updates = elim (update_key-Maps db_dict_type d k h) [
      | inl (m, ok, g) ↦ ok ∙ sym (is_some_of _ m)
      | inr (m, ok, g) ↦ ok ∙ ap is_some (sym m)
    ]

    deleted :
        (q : Sds)
        → sees (delete db_dict_type d k).0 q ≡ (if sds_key_compare k q then none else sees d q)
    deleted q = elim (delete-Deletes db_dict_type d k h) [
      | inl (m, ok, g) ↦ g.entries q
      | inr (m, ok, g) ↦ elim (Bool-cases (sds_key_compare k q)) [
        | inl c ↦ rw c (g.same q ∙ sym (lookup_cong db_dict_type d k q c) ∙ m)
        | inr c ↦ rw c (g.same q)
      ]
    ]

    deletes : (delete db_dict_type d k).1 ≡ is_some (sees d k)
    deletes = elim (delete-Deletes db_dict_type d k h) [
      | inl (m, ok, g) ↦ ok ∙ sym (is_some_of _ m)
      | inr (m, ok, g) ↦ ok ∙ ap is_some (sym m)
    ]

  -- The dictionaries of dict.c, with the flag dict_can_resize as it is, are a store.
  pub from_dict : Store V
  unfolding write_value write_found written
  from_dict = record {
    Map = Sound V;
    view = λ m q. sees m.dict q;
    size = λ m. dict_size m.dict;
    find = λ m k.
        let r = find db_dict_type m.dict k in
        (record { dict = r.0; valid = (find-lookup db_dict_type m.dict m.valid k).0.valid }, r.1);
    write = λ m k f. record {
      dict = write_value m.dict k f (sees m.dict k);
      valid = write_valid m.dict k f (sees m.dict k) m.valid refl;
    };
    add = λ m k v.
        let r = add db_dict_type can_resize m.dict k v in
        (record { dict = r.0; valid = add_valid m.dict k v m.valid }, r.1);
    replace = λ m k v.
        let r = replace db_dict_type can_resize m.dict k v in
        (
          record {
            dict = r.0;
            valid =
                replaced_valid _ m.dict k v r
                  (replace-Replaces db_dict_type can_resize m.dict k v m.valid);
          },
          r.1,
        );
    super_replace = λ m k v.
        let r = super_replace db_dict_type can_resize m.dict k v in
        (
          record {
            dict = r.0;
            valid =
                replaced_valid _ m.dict k v r
                  (super_replace-Replaces db_dict_type can_resize m.dict k v m.valid);
          },
          r.1,
        );
    update_key = λ m k.
        let r = update_key db_dict_type m.dict k in
        (record { dict = r.0; valid = update_valid m.dict k m.valid }, r.1);
    delete = λ m k.
        let r = delete db_dict_type m.dict k in
        (record { dict = r.0; valid = delete_valid m.dict k m.valid }, r.1);
    empty = λ m. record { dict = empty m.dict; valid = unfold empty in create-Valid db_dict_type };
    view_cong = λ m a b h. lookup_cong db_dict_type m.dict a b h;
    view_key = λ m k e h. own_key m.dict k e h;
    size_zero = λ m q z. nothing m.dict q m.valid z;
    find_result = λ m k. (find-lookup db_dict_type m.dict m.valid k).1;
    find_view = λ m k q. (find-lookup db_dict_type m.dict m.valid k).0.same q;
    write_view = λ m k f e q h. rw h ((write-Maps m.dict k f e m.valid h).entries q);
    add_result = λ m k v h. (add_new m.dict k m.valid v h).0;
    add_view = λ m k v q h. (add_new m.dict k m.valid v h).1.entries q;
    replace_new = λ m k v q h.
        new_entry _ m.dict k v _ q (replace-Replaces db_dict_type can_resize m.dict k v m.valid) h;
    replace_view = λ m k v e q h.
        changed_entry _ m.dict k v _ e q
          (replace-Replaces db_dict_type can_resize m.dict k v m.valid) h;
    super_replace_view = λ m k v e q h.
        changed_entry _ m.dict k v _ e q
          (super_replace-Replaces db_dict_type can_resize m.dict k v m.valid) h;
    update_key_view = λ m k e q h. updated m.dict k m.valid e q h;
    update_key_result = λ m k. updates m.dict k m.valid;
    delete_view = λ m k q. deleted m.dict k m.valid q;
    delete_result = λ m k. deletes m.dict k m.valid;
    empty_view = λ m q. unfold empty in lookup-create db_dict_type q;
  }

-- What dictCreate makes.
unfoldable pub new_map : (V : Type 0) (can_resize : Bool) → (from_dict {V = V} can_resize).Map
unfolding from_dict
new_map V can_resize = record { dict = create; valid = create-Valid db_dict_type }

pub new_map_view :
    (V : Type 0) (can_resize : Bool) (q : Sds)
    → (from_dict {V = V} can_resize).view (new_map V can_resize) q ≡ none
unfolding from_dict new_map
new_map_view V can_resize q = lookup-create db_dict_type q
