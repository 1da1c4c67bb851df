-- ===== src/Dict/Replace.antt =====
-- `dictReplace`, `dictSuperReplace` and `dictUpdateKey` against the map.
use libredis_a.Common.{
  ◌≡◌, ◌≢◌, refl, ◌∙◌, ◌⊎◌, inl, inr, Bool, true, false, none, some, Option-cases,
}
use libredis_a.Dict.{DictType, Dict, find, write_found, add, replace, super_replace, update_key}
use libredis_a.Dict.Valid.{Valid, lookup, Keeps}
use libredis_a.Dict.Find.{find-lookup}
use libredis_a.Dict.Add.{Gains, add_present, add_absent}
use libredis_a.Dict.Write.{Maps, Maps-Keeps, find_write}

module _ {ℓ κ} {K : Type ℓ} {V : Type κ} (type : DictType K) where
  -- What the replacing calls promise: a missing key is added, and a present one is rewritten.
  abbrev pub Replaces : (f : K × V → K × V) → Dict K V → K → V → Dict K V × Bool → Type (ℓ ⊔ κ)
  Replaces f d key val r =
      (lookup type d key ≡ none) × (r.1 ≡ true) × Gains type d key val r.0
      ⊎ (lookup type d key ≢ none) × (r.1 ≡ false) × Maps type f d key r.0

  abbrev pub with_value : V → K × V → K × V
  with_value val e = (e.0, val)

  abbrev pub with_version : K → V → K × V → K × V
  with_version key val e = (type.change_version (e.0) key, val)

  abbrev pub new_version : K → K × V → K × V
  new_version key e = (type.change_version (e.0) key, e.1)

  not_none :
      (d : Dict K V) (key : K) (e : K × V) → lookup type d key ≡ some e → lookup type d key ≢ none
  not_none d key e there n = cc

  module _ (can_resize : Bool) (d : Dict K V) (key : K) (val : V) (valid : Valid type d) where
    -- The rewriting branch, after `dictAdd` has found the key.
    rewritten :
        (f : K × V → K × V)
        → ((e : K × V) → type.key_compare (f e).0 (e.0) ≡ true)
        → (e : K × V) → lookup type d key ≡ some e
        → Maps type f d key
            (write_found type (find type (add type can_resize d key val).0 key).0 key f)
    rewritten f same e there =
        let (ok, keeps) = add_present type can_resize d key val valid e there in
        let t = (add type can_resize d key val).0 in
        Maps-Keeps type f same d t _ key keeps
          (find_write type f same t key e keeps.valid (keeps.same key ∙ there))

    replace_added :
        (add type can_resize d key val).1 ≡ true
        → replace type can_resize d key val ≡ ((add type can_resize d key val).0, true)
    unfolding replace
    replace_added e = rw e refl

    replace_rewritten :
        (add type can_resize d key val).1 ≡ false
        → replace type can_resize d key val ≡ (
          write_found type (find type (add type can_resize d key val).0 key).0 key (with_value val),
          false,
        )
    unfolding replace
    replace_rewritten e = rw e refl

    super_added :
        (add type can_resize d key val).1 ≡ true
        → super_replace type can_resize d key val ≡ ((add type can_resize d key val).0, true)
    unfolding super_replace
    super_added e = rw e refl

    super_rewritten :
        (add type can_resize d key val).1 ≡ false
        → super_replace type can_resize d key val ≡ (
          write_found type
              (find type (add type can_resize d key val).0 key).0
              key
              (with_version key val),
          false,
        )
    unfolding super_replace
    super_rewritten e = rw e refl

    -- On a well-formed dictionary dictAdd adds a key that is not there and succeeds, and fails on
    -- a key that is there, which changes no entry; the invariant is kept in both cases.
    pub add-Adds :
        (lookup type d key ≡ none)
          × ((add type can_resize d key val).1 ≡ true)
          × Gains type d key val (add type can_resize d key val).0
        ⊎ (lookup type d key ≢ none)
          × ((add type can_resize d key val).1 ≡ false)
          × Keeps type d (add type can_resize d key val).0
    add-Adds = elim (Option-cases (lookup type d key)) [
      | inl n ↦ let (ok, g) = add_absent type can_resize d key val valid n in inl (n, ok, g)
      | inr (e, n) ↦
          let (ok, k) = add_present type can_resize d key val valid e n in
          inr (not_none d key e n, ok, k)
    ]

    -- On a well-formed dictionary dictReplace adds a missing key and reports so, and overwrites
    -- only the value of a key that is there, which keeps its stored key.
    pub replace-Replaces : Replaces (with_value val) d key val (replace type can_resize d key val)
    replace-Replaces = elim (Option-cases (lookup type d key)) [
      | inl n ↦
          let (ok, g) = add_absent type can_resize d key val valid n in
          inl (rw (replace_added ok) (n, refl, g))
      | inr (e, n) ↦
          let (ok, k) = add_present type can_resize d key val valid e n in
          inr (
            rw (replace_rewritten ok) (
              not_none d key e n,
              refl,
              rewritten (with_value val) (λ x. type.compare_refl (x.0)) e n,
            ))
    ]

    -- On a well-formed dictionary dictSuperReplace adds a missing key, and gives the stored key of
    -- a present one the new version and its value the new value.
    pub super_replace-Replaces :
        Replaces (with_version key val) d key val (super_replace type can_resize d key val)
    super_replace-Replaces = elim (Option-cases (lookup type d key)) [
      | inl n ↦
          let (ok, g) = add_absent type can_resize d key val valid n in
          inl (rw (super_added ok) (n, refl, g))
      | inr (e, n) ↦
          let (ok, k) = add_present type can_resize d key val valid e n in
          inr (
            rw (super_rewritten ok) (
              not_none d key e n,
              refl,
              rewritten (with_version key val) (λ x. type.change_compare (x.0) key) e n,
            ))
    ]

  module _ (d : Dict K V) (key : K) (valid : Valid type d) where
    update_found :
        (e : K × V)
        → (find type d key).1 ≡ some e
        → update_key type d key ≡ (write_found type (find type d key).0 key (new_version key), true)
    unfolding update_key
    update_found e f = rw f refl

    update_missing :
        (find type d key).1 ≡ none → update_key type d key ≡ ((find type d key).0, false)
    unfolding update_key
    update_missing f = rw f refl

    -- On a well-formed dictionary dictUpdateKey gives the stored key the new version if there is
    -- one, and otherwise reports so and changes no entry.
    pub update_key-Maps :
        (lookup type d key ≢ none)
          × ((update_key type d key).1 ≡ true)
          × Maps type (new_version key) d key (update_key type d key).0
        ⊎ (lookup type d key ≡ none)
          × ((update_key type d key).1 ≡ false)
          × Keeps type d (update_key type d key).0
    update_key-Maps =
        let (keeps, found) = find-lookup type d valid key in
        elim (Option-cases (lookup type d key)) [
          | inr (e, n) ↦ inl (
              rw (update_found e (found ∙ n)) (
                not_none d key e n,
                refl,
                find_write type (new_version key) (λ x. type.change_compare (x.0) key) d key e valid
                    n,
              ))
          | inl n ↦ inr (rw (update_missing (found ∙ n)) (n, refl, keeps))
        ]
