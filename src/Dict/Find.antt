-- ===== src/Dict/Find.antt =====
-- `dictFind` against the map.
use libredis_a.Common.{
  ℕ, ◌≡◌, refl, ap, subst, ◌∙◌, inl, inr, false, [], none, some, arith, ◌==◌, Bool-cases,
  Option-cases, ==_iff,
}
use libredis_a.Dict.{DictType, Dict, find_in, index, rehash_step, is_rehashing, find}
use libredis_a.Dict.Tables.{chain, total_zero}
use libredis_a.Dict.Valid.{or_else, Phase, Valid, lookup, Keeps, Keeps-refl}
use libredis_a.Dict.Rehash.{rehash_step-Keeps, or_else-none}

module _ {ℓ κ} {K : Type ℓ} {V : Type κ} (type : DictType K) (d : Dict K V)
    (valid : Valid type d) where
  -- Outside a rehash the second table is empty.
  pub idle_empty : d.rehashidx ≡ none → (i : ℕ) → d.ht1.table i ≡ []
  idle_empty e i =
      let p : Phase type none d.ht0 d.ht1 = subst (λ o. Phase type o d.ht0 d.ht1) e valid.phase in
      valid.valid1.beyond i (omega arith)

  pub idle_used : d.rehashidx ≡ none → d.ht1.used ≡ 0
  idle_used e =
      omega (arith, valid.valid1.counted, total_zero d.ht1.size d.ht1.table (λ i h. idle_empty e i))

  -- Without a first table there is no rehash and no entry.
  pub bare_idle : d.ht0.size ≡ 0 → d.rehashidx ≡ none
  bare_idle z = elim (Option-cases d.rehashidx) [
    | inl e ↦ e
    | inr (r, e) ↦
        let p : Phase type (some r) d.ht0 d.ht1 =
          subst (λ o. Phase type o d.ht0 d.ht1) e valid.phase in
        absurd (omega (arith, p.0))
  ]

  pub bare_lookup : d.ht0.size ≡ 0 → (q : K) → lookup type d q ≡ none
  unfolding find_in
  bare_lookup z q =
      rw
        (
          valid.valid0.beyond (index type d.ht0 q) (omega arith),
          idle_empty (bare_idle z) (index type d.ht1 q),
        )
        refl

  pub bare_used : d.ht0.size ≡ 0 → d.ht0.used ≡ 0
  bare_used z =
      omega (
        arith,
        valid.valid0.counted,
        total_zero d.ht0.size d.ht0.table (λ i h. absurd (omega arith)),
      )

  pub idle_lookup :
      d.rehashidx ≡ none → (q : K) → lookup type d q ≡ find_in type q (chain type d.ht0 q)
  idle_lookup e q =
      ap (λ c. or_else (find_in type q (chain type d.ht0 q)) (find_in type q c))
        (idle_empty e (index type d.ht1 q))
      ∙ (let n : find_in {V = V} type q [] ≡ none = (unfold find_in in refl) in
          rw n (or_else-none _))

  pub idle_of : is_rehashing d ≡ false → d.rehashidx ≡ none
  idle_of h = ground arith

module _ {ℓ κ} {K : Type ℓ} {V : Type κ} (type : DictType K) (d : Dict K V)
    (valid : Valid type d) where
  stepped : Keeps type d (rehash_step type d)
  stepped = rehash_step-Keeps type d valid

  find_stepped :
      (key : K)
      → (d.ht0.size == 0) ≡ false
      → find type d key ≡ (rehash_step type d, lookup type (rehash_step type d) key)
  unfolding find
  find_stepped key z =
      let d1 : Dict K V = rehash_step type d in
      elim (Option-cases (find_in type key (chain type d1.ht0 key))) [
        | inr (e, f) ↦ rw (z, f) refl
        | inl n ↦ elim (Bool-cases (is_rehashing d1)) [
          | inl r ↦ rw (z, n, r) refl
          | inr r ↦
              let same : lookup type d1 key ≡ none =
                idle_lookup type d1 stepped.valid (idle_of type d1 stepped.valid r) key ∙ n in
              rw same (rw (z, n, r) refl)
        ]
      ]

  -- On a well-formed dictionary dictFind returns the entry of the key if there is one, in either
  -- table, and changes no entry.
  pub find-lookup :
      (key : K) → Keeps type d (find type d key).0 × ((find type d key).1 ≡ lookup type d key)
  find-lookup key = elim (Bool-cases (d.ht0.size == 0)) [
    | inl z ↦
        let none_there = bare_lookup type d valid ((==_iff _ _).0 z) key in
        unfold find in rw (z, none_there) (Keeps-refl type d valid, refl)
    | inr z ↦ rw (find_stepped key z) (stepped, stepped.same key)
  ]
