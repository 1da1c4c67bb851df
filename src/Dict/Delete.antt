-- ===== src/Dict/Delete.antt =====
-- `dictGenericDelete` against the map.
use libredis_a.Common.{
  ◌+◌, ◌≤◌, ◌≡◌, ◌≢◌, refl, sym, ap, ◌∙◌, ◌⊎◌, inl, inr, true, false, List, none, some, arith, ◌==◌,
  if◌then◌else◌, Bool-cases, Option-cases, ==_iff,
}
use libredis_a.Dict.{DictType, Dict, find_in, unlink, is_rehashing, rehash_step, delete}
use libredis_a.Dict.Chains.{count_in, count_in-zero, find_in-none, unlink-none}
use libredis_a.Dict.Tables.{chain}
use libredis_a.Dict.Valid.{Valid, lookup, Keeps, Keeps-refl}
use libredis_a.Dict.Rehash.{rehash_step-Keeps}
use libredis_a.Dict.Find.{idle_of, idle_lookup, bare_lookup}
use libredis_a.Dict.Add.{absent_chains}
use libredis_a.Dict.Shrink.{
  Drops, nonempty_pos, shrunk, left, shrunk-Shrunk, first_shrinks, second_shrinks,
}

module _ {ℓ κ} {K : Type ℓ} {V : Type κ} (type : DictType K) where
  module _ (d : Dict K V) (key : K) (valid : Valid type d) where
    stepped : Keeps type d (rehash_step type d)
    stepped = rehash_step-Keeps type d valid

    abbrev s : Dict K V
    s = rehash_step type d

    delete_bare : (d.ht0.size == 0) ≡ true → delete type d key ≡ (d, false)
    unfolding delete
    delete_bare z = rw z refl

    delete_first :
        (es : List (K × V))
        → (d.ht0.size == 0) ≡ false
        → unlink type key (chain type s.ht0 key) ≡ some es
        → delete type d key ≡ (record s { ht0 = shrunk type s.ht0 key es }, true)
    unfolding delete
    delete_first es z u = rw (z, u) refl

    delete_second :
        (es : List (K × V))
        → (d.ht0.size == 0) ≡ false
        → unlink type key (chain type s.ht0 key) ≡ none
        → is_rehashing s ≡ true
        → unlink type key (chain type s.ht1 key) ≡ some es
        → delete type d key ≡ (record s { ht1 = shrunk type s.ht1 key es }, true)
    unfolding delete
    delete_second es z n r u = rw (z, n, r, u) refl

    delete_missing :
        (d.ht0.size == 0) ≡ false
        → unlink type key (chain type s.ht0 key) ≡ none
        → (is_rehashing s ≡ false) ⊎ (unlink type key (chain type s.ht1 key) ≡ none)
        → delete type d key ≡ (s, false)
    unfolding delete
    delete_missing z n (inl r) = rw (z, n, r) refl
    delete_missing z n (inr u) = elim (Bool-cases (is_rehashing s)) [
      | inl r ↦ rw (z, n, r, u) refl
      | inr r ↦ rw (z, n, r) refl
    ]

    Drops-Keeps : (t : Dict K V) → Drops type s key t → Drops type d key t
    Drops-Keeps t g = record {
      valid = g.valid;
      entries =
          λ q. g.entries q ∙ ap (λ o. if type.key_compare key q then none else o) (stepped.same q);
      sized = g.sized ∙ stepped.sized;
    }

    -- Either the key is there, `delete` is DICT_OK and the map loses it, or it is DICT_ERR and no
    -- entry changes.
    abbrev pub Deletes : Type (ℓ ⊔ κ)
    Deletes =
        (lookup type d key ≢ none)
          × ((delete type d key).1 ≡ true)
          × Drops type d key (delete type d key).0
        ⊎ (lookup type d key ≡ none)
          × ((delete type d key).1 ≡ false)
          × Keeps type d (delete type d key).0

    missing_both :
        find_in type key (chain type s.ht0 key) ≡ none
        → (is_rehashing s ≡ false) ⊎ (unlink type key (chain type s.ht1 key) ≡ none)
        → lookup type d key ≡ none
    missing_both a (inl r) =
        sym (stepped.same key)
        ∙ idle_lookup type s stepped.valid (idle_of type s stepped.valid r) key
        ∙ a
    missing_both a (inr u) =
        let b = count_in-zero type key (chain type s.ht1 key) (unlink-none type key _ u) in
        sym (stepped.same key) ∙ rw (a, b) refl

    counted_there :
        1 ≤ count_in type key (chain type s.ht0 key) + count_in type key (chain type s.ht1 key)
        → lookup type d key ≢ none
    counted_there h n =
        let (a, b) = absent_chains type s key (stepped.same key ∙ n) in
        omega (arith, h, find_in-none type key _ a, find_in-none type key _ b)

    deletes_missing :
        (d.ht0.size == 0) ≡ false
        → unlink type key (chain type s.ht0 key) ≡ none
        → (is_rehashing s ≡ false) ⊎ (unlink type key (chain type s.ht1 key) ≡ none)
        → Deletes
    deletes_missing z n m =
        let a = count_in-zero type key (chain type s.ht0 key) (unlink-none type key _ n) in
        inr (rw (delete_missing z n m) (missing_both a m, refl, stepped))

    deletes_first :
        (es : List (K × V))
        → (d.ht0.size == 0) ≡ false
        → unlink type key (chain type s.ht0 key) ≡ some es
        → Deletes
    deletes_first es z u =
        let one =
          (left type s.ht0 key es stepped.valid.valid0 u).counted key (type.compare_refl key) in
        let t = shrunk type s.ht0 key es in
        let there = counted_there (omega (arith, one)) in
        inl (
          rw (delete_first es z u) (
            there,
            refl,
            Drops-Keeps (record s { ht0 = t })
                (first_shrinks type s key stepped.valid t
                  (shrunk-Shrunk type s.ht0 key es stepped.valid.valid0 u) (omega (arith, one))),
          ))

    deletes_second :
        (es : List (K × V))
        → (d.ht0.size == 0) ≡ false
        → unlink type key (chain type s.ht0 key) ≡ none
        → is_rehashing s ≡ true
        → unlink type key (chain type s.ht1 key) ≡ some es
        → Deletes
    deletes_second es z n r u =
        let valid1 = stepped.valid.valid1 in
        let one = (left type s.ht1 key es valid1 u).counted key (type.compare_refl key) in
        let pos =
          nonempty_pos type s.ht1 key valid1
            (omega (arith, (left type s.ht1 key es valid1 u).shorter)) in
        let t = shrunk type s.ht1 key es in
        let there = counted_there (omega (arith, one)) in
        inl (
          rw (delete_second es z n r u) (
            there,
            refl,
            Drops-Keeps (record s { ht1 = t })
                (second_shrinks type s key stepped.valid t
                  (shrunk-Shrunk type s.ht1 key es valid1 u) (unlink-none type key _ n) pos),
          ))

    -- On a well-formed dictionary dictDelete removes the entry of the key and reports DICT_OK if
    -- there is one, reports DICT_ERR otherwise, and keeps every other entry and the invariant.
    pub delete-Deletes : Deletes
    delete-Deletes = elim (Bool-cases (d.ht0.size == 0)) [
      | inl z ↦ inr (
          rw (delete_bare z)
            (bare_lookup type d valid ((==_iff _ _).0 z) key, refl, Keeps-refl type d valid))
      | inr z ↦ elim (Option-cases (unlink type key (chain type s.ht0 key))) [
        | inr (es, u) ↦ deletes_first es z u
        | inl n ↦ elim (Bool-cases (is_rehashing s)) [
          | inr r ↦ deletes_missing z n (inl r)
          | inl r ↦ elim (Option-cases (unlink type key (chain type s.ht1 key))) [
            | inl m ↦ deletes_missing z n (inr m)
            | inr (es, u) ↦ deletes_second es z n r u
          ]
        ]
      ]
    ]
