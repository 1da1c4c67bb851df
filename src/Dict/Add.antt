-- ===== src/Dict/Add.antt =====
-- `_dictKeyIndex` and `dictAdd` against the map.
use libredis_a.Common.{
  ℕ, ◌+◌, ◌<◌, ◌≡◌, refl, sym, ap, ap₂, subst, ◌∙◌, inl, inr, Bool, true, false, none, some, arith,
  if◌then◌else◌, Bool-cases, Option-cases, is_some,
}
use libredis_a.Dict.{
  DictType, Ht, Dict, find_in, index, push, dict_size, is_rehashing, rehash_step, expand_if_needed,
  key_index, add_at, add,
}
use libredis_a.Dict.Chains.{count_in, find_in-none, find_in_cong}
use libredis_a.Dict.Tables.{chain, index_cong, push-HtValid, find-push, count-push}
use libredis_a.Dict.Valid.{or_else, Phase, Valid, lookup, Keeps, Keeps-trans}
use libredis_a.Dict.Rehash.{rehash_step-Keeps}
use libredis_a.Dict.Find.{idle_lookup, idle_of}
use libredis_a.Dict.Expand.{expand_if_needed_lem}

-- What `dictAdd` promises of a key that is not there: the map gains one entry.
pub record Gains {ℓ κ} {K : Type ℓ} {V : Type κ} (type : DictType K) (d : Dict K V) (key : K)
    (val : V) (t : Dict K V) : Type (ℓ ⊔ κ) where
  pub valid : Valid type t
  pub entries :
      (q : K)
      → lookup type t q ≡ (if type.key_compare q key then some (key, val) else lookup type d q)
  pub sized : dict_size t ≡ dict_size d + 1

module _ {ℓ κ} {K : Type ℓ} {V : Type κ} (type : DictType K) where
  find-chain_cong :
      (h : Ht K V) (a b : K)
      → type.key_compare a b ≡ true
      → find_in type a (chain type h a) ≡ find_in type b (chain type h b)
  find-chain_cong h a b c =
      ap (λ i. find_in type a (h.table i)) (index_cong type h a b c) ∙ find_in_cong type a b _ c

  pub lookup_cong :
      (d : Dict K V) (a b : K) → type.key_compare a b ≡ true → lookup type d a ≡ lookup type d b
  lookup_cong d a b c = ap₂ or_else (find-chain_cong d.ht0 a b c) (find-chain_cong d.ht1 a b c)

  pub absent_chains :
      (d : Dict K V) (q : K)
      → lookup type d q ≡ none
      → (find_in type q (chain type d.ht0 q) ≡ none) × (find_in type q (chain type d.ht1 q) ≡ none)
  absent_chains d q h = elim (Option-cases (find_in type q (chain type d.ht0 q))) [
    | inl n ↦ (n, rw n at h)
    | inr (e, n) ↦ absurd (cc (rw n at h))
  ]

  module _ (d : Dict K V) (key : K) (val : V) (valid : Valid type d)
      (absent : lookup type d key ≡ none) where
    absent_like :
        (q : K)
        → type.key_compare q key ≡ true
        → (find_in type q (chain type d.ht0 q) ≡ none)
          × (find_in type q (chain type d.ht1 q) ≡ none)
    absent_like q c = absent_chains d q (lookup_cong d q key c ∙ absent)

    absent_count :
        (q : K)
        → type.key_compare q key ≡ true
        → count_in type q (chain type d.ht0 q) + count_in type q (chain type d.ht1 q) ≡ 0
    absent_count q c =
        let (a, b) = absent_like q c in
        omega (arith, find_in-none type q _ a, find_in-none type q _ b)

    -- The entry goes to the first table outside a rehash, and to the second during one.
    into_first :
        d.rehashidx ≡ none
        → 0 < d.ht0.size
        → Gains type d key val
            (record d { ht0 = push type d.ht0 (index type d.ht0 key) (key, val) })
    unfolding dict_size
    into_first idle pos = record {
      valid = record {
        valid0 = push-HtValid type d.ht0 key val valid.valid0 pos;
        valid1 = valid.valid1;
        unique = λ q.
            rw (count-push type d.ht0 key val q) (elim (Bool-cases (type.key_compare q key)) [
              | inl c ↦ rw c (omega (arith, absent_count q c))
              | inr c ↦ rw c (omega (arith, valid.unique q))
            ]);
        phase =
            subst (λ o. Phase type o (push type d.ht0 (index type d.ht0 key) (key, val)) d.ht1)
              (sym idle) (subst (λ o. Phase type o d.ht0 d.ht1) idle valid.phase);
      };
      entries = λ q.
          rw (find-push type d.ht0 key val q)
            (elim (Bool-cases (type.key_compare q key)) [ inl c ↦ rw c refl | inr c ↦ rw c refl ]);
      sized = unfold push in omega arith;
    }

    into_second :
        (r : ℕ)
        → d.rehashidx ≡ some r
        → Gains type d key val
            (record d { ht1 = push type d.ht1 (index type d.ht1 key) (key, val) })
    unfolding dict_size
    into_second r busy =
        let phase : Phase type (some r) d.ht0 d.ht1 =
          subst (λ o. Phase type o d.ht0 d.ht1) busy valid.phase in
        record {
          valid = record {
            valid0 = valid.valid0;
            valid1 = push-HtValid type d.ht1 key val valid.valid1 phase.1;
            unique = λ q.
                rw (count-push type d.ht1 key val q) (elim (Bool-cases (type.key_compare q key)) [
                  | inl c ↦ rw c (omega (arith, absent_count q c))
                  | inr c ↦ rw c (omega (arith, valid.unique q))
                ]);
            phase =
                subst (λ o. Phase type o d.ht0 (push type d.ht1 (index type d.ht1 key) (key, val)))
                  (sym busy) (phase.0, (unfold push in phase.1), phase.2);
          };
          entries = λ q.
              rw (find-push type d.ht1 key val q) (elim (Bool-cases (type.key_compare q key)) [
                | inl c ↦ rw (c, (absent_like q c).0) refl
                | inr c ↦ rw c refl
              ]);
          sized = unfold push in omega arith;
        }

  module _ (can_resize : Bool) (d : Dict K V) (key : K) where
    -- The dictionary after the check for room.
    abbrev ready : Dict K V
    ready = (expand_if_needed type can_resize d).0

    module _ (valid : Valid type d) where
      ready_lem :
          Keeps type d ready
          × ((expand_if_needed type can_resize d).1 ≡ true)
          × (0 < ready.ht0.size)
      ready_lem = expand_if_needed_lem type can_resize d valid

      key_index_present :
          (e : K × V) → lookup type d key ≡ some e → key_index type can_resize d key ≡ (ready, none)
      unfolding key_index
      key_index_present e there =
          let (keeps, ok, pos) = ready_lem in
          let here : lookup type ready key ≡ some e = keeps.same key ∙ there in
          elim (Option-cases (find_in type key (chain type ready.ht0 key))) [
            | inr (x, f) ↦ rw (ok, f) refl
            | inl n ↦ elim (Bool-cases (is_rehashing ready)) [
              | inl r ↦
                  let second : find_in type key (chain type ready.ht1 key) ≡ some e =
                    rw n at here in
                  rw (ok, n, r, second) refl
              | inr r ↦ absurd (
                  cc (
                    sym here
                    ∙ idle_lookup type ready keeps.valid (idle_of type ready keeps.valid r) key
                    ∙ n))
            ]
          ]

      key_index_absent :
          lookup type d key ≡ none
          → key_index type can_resize d key ≡ (
            ready,
            some
                (if is_rehashing ready then index type ready.ht1 key else index type ready.ht0 key),
          )
      unfolding key_index
      key_index_absent missing =
          let (keeps, ok, pos) = ready_lem in
          let (a, b) = absent_chains ready key (keeps.same key ∙ missing) in
          elim (Bool-cases (is_rehashing ready)) [
            | inl r ↦ rw (ok, a, r, b) refl
            | inr r ↦ rw (ok, a, r) refl
          ]

  Gains-Keeps :
      (d t u : Dict K V) (key : K) (val : V)
      → Keeps type d t
      → Gains type t key val u
      → Gains type d key val u
  Gains-Keeps d t u key val k g = record {
    valid = g.valid;
    entries = λ q.
        g.entries q ∙ ap (λ o. if type.key_compare q key then some (key, val) else o) (k.same q);
    sized = omega (arith, g.sized, k.sized);
  }

  module _ (can_resize : Bool) (d : Dict K V) (key : K) (val : V) (valid : Valid type d) where
    stepped : Keeps type d (rehash_step type d)
    stepped = rehash_step-Keeps type d valid

    -- What `dictAdd` does with the answer of `_dictKeyIndex`.
    add-none :
        (t : Dict K V)
        → key_index type can_resize (rehash_step type d) key ≡ (t, none)
        → add type can_resize d key val ≡ (t, false)
    add-none t e = unfold add add_at in ap (add_at type key val) e

    add_second :
        (t : Dict K V) (i : ℕ)
        → key_index type can_resize (rehash_step type d) key ≡ (t, some i)
        → is_rehashing t ≡ true
        → add type can_resize d key val ≡ (record t { ht1 = push type t.ht1 i (key, val) }, true)
    add_second t i e r = unfold add add_at in ap (add_at type key val) e ∙ rw r refl

    add_first :
        (t : Dict K V) (i : ℕ)
        → key_index type can_resize (rehash_step type d) key ≡ (t, some i)
        → is_rehashing t ≡ false
        → add type can_resize d key val ≡ (record t { ht0 = push type t.ht0 i (key, val) }, true)
    add_first t i e r = unfold add add_at in ap (add_at type key val) e ∙ rw r refl

    -- A key that is there stops `dictAdd`, which changes nothing.
    pub add_present :
        (e : K × V)
        → lookup type d key ≡ some e
        → ((add type can_resize d key val).1 ≡ false)
          × Keeps type d (add type can_resize d key val).0
    add_present e there =
        let s = rehash_step type d in
        let (keeps, ok, pos) = ready_lem can_resize s key stepped.valid in
        rw
          (add-none _
            (key_index_present can_resize s key stepped.valid e (stepped.same key ∙ there)))
          (refl, Keeps-trans type d s (ready can_resize s key) stepped keeps)

    -- Any other key is added.
    pub add_absent :
        lookup type d key ≡ none
        → ((add type can_resize d key val).1 ≡ true)
          × Gains type d key val (add type can_resize d key val).0
    add_absent missing =
        let s = rehash_step type d in
        let t = ready can_resize s key in
        let (keeps, ok, pos) = ready_lem can_resize s key stepped.valid in
        let both = Keeps-trans type d s t stepped keeps in
        let gone : lookup type t key ≡ none = both.same key ∙ missing in
        let e = key_index_absent can_resize s key stepped.valid (stepped.same key ∙ missing) in
        elim (Option-cases t.rehashidx) [
          | inl idle ↦
              let r : is_rehashing t ≡ false = ap is_some idle in
              let at =
                e
                ∙ ap (λ b. (t, some (if b then index type t.ht1 key else index type t.ht0 key)))
                    r in
              rw (add_first t _ at r) (
                refl,
                Gains-Keeps d t _ key val both (into_first t key val both.valid gone idle pos),
              )
          | inr (i, busy) ↦
              let r : is_rehashing t ≡ true = ap is_some busy in
              let at =
                e
                ∙ ap (λ b. (t, some (if b then index type t.ht1 key else index type t.ht0 key)))
                    r in
              rw (add_second t _ at r) (
                refl,
                Gains-Keeps d t _ key val both (into_second t key val both.valid gone i busy),
              )
        ]
