-- ===== src/Dict/Write.antt =====
-- Writes through the pointer that `dictFind` returned, against the map.
use libredis_a.Common.{
  ℕ, ◌≤◌, ◌<◌, ◌≡◌, refl, sym, ap, subst, ◌∙◌, inl, inr, true, false, [], none, some, arith, ◌==◌,
  if◌then◌else◌, Bool-cases, Option-cases, ==_iff,
}
use mathlib.Core.Option
use libredis_a.Dict.{DictType, Ht, Dict, find_in, index, change_in, dict_size, find, write_found}
use libredis_a.Dict.Chains.{
  count_in, count_in-zero, find_in-none, find_in-some, length-change_in, count-change_in,
  find-change_in_same, find-change_in_other, change_in-All,
}
use libredis_a.Dict.Tables.{
  HtValid, chain, index_cong, index-lt, replace_chain, replace_chain-HtValid, chain-replaced_same,
  chain-replaced_other,
}
use libredis_a.Dict.Valid.{Phase, Valid, lookup, Keeps}
use libredis_a.Dict.Find.{find-lookup}
use libredis_a.Dict.Shrink.{count-chain_cong}

-- What a write to the entry of a key promises.
pub record Maps {ℓ κ} {K : Type ℓ} {V : Type κ} (type : DictType K) (f : K × V → K × V)
    (d : Dict K V) (key : K) (t : Dict K V) : Type (ℓ ⊔ κ) where
  pub valid : Valid type t
  pub entries :
      (q : K)
      → lookup type t q
        ≡ (if type.key_compare key q then Option.map f (lookup type d q) else lookup type d q)
  pub sized : dict_size t ≡ dict_size d

module _ {ℓ κ} {K : Type ℓ} {V : Type κ} (type : DictType K) (f : K × V → K × V)
    (same : (e : K × V) → type.key_compare (f e).0 (e.0) ≡ true) where
  record Changed (key : K) (h t : Ht K V) : Type (ℓ ⊔ κ) where
    pub valid : HtValid type t
    pub size : t.size ≡ h.size
    pub used : t.used ≡ h.used
    pub counted : (q : K) → count_in type q (chain type t q) ≡ count_in type q (chain type h q)
    pub found_same :
        (q : K)
        → type.key_compare key q ≡ true
        → find_in type q (chain type t q) ≡ Option.map f (find_in type q (chain type h q))
    pub found_other :
        (q : K)
        → type.key_compare key q ≡ false
        → find_in type q (chain type t q) ≡ find_in type q (chain type h q)
    pub emptied : (i : ℕ) → h.table i ≡ [] → t.table i ≡ []

  abbrev changed : Ht K V → K → Ht K V
  changed h key =
      replace_chain type h (index type h key) (change_in type key f (chain type h key)) h.used

  changed-Changed :
      (h : Ht K V) (key : K) → HtValid type h → 0 < h.size → Changed key h (changed h key)
  changed-Changed h key valid pos =
      let i = index type h key in
      let c = change_in type key f (chain type h key) in
      record {
        valid =
            replace_chain-HtValid type h i c h.used valid (index-lt type h key valid pos)
              (change_in-All type f same (λ e. index type h (e.0) ≡ i)
                (λ e p. index_cong type h _ _ (same e) ∙ p) key _ (valid.placed i))
              (omega (arith, length-change_in type f same key (chain type h key)));
        size = refl;
        used = refl;
        counted = λ q.
            chain-replaced_other type h key c h.used (count_in type q) q
              (count-change_in type f same key q (chain type h key));
        found_same = λ q e.
            ap (find_in type q) (chain-replaced_same type h key c h.used q e)
            ∙ find-change_in_same type f same key q (chain type h key) e
            ∙ ap (λ j. Option.map f (find_in type q (h.table j))) (index_cong type h key q e);
        found_other = λ q e.
            chain-replaced_other type h key c h.used (find_in type q) q
              (find-change_in_other type f same key q (chain type h key) e);
        emptied = λ j e. elim (Bool-cases (i == j)) [
          | inl s ↦
              let n : chain type h key ≡ [] = ap h.table ((==_iff _ _).0 s) ∙ e in
              rw (s, n) (unfold change_in in refl)
          | inr s ↦ rw s e
        ];
      }

  found_pos :
      (h : Ht K V) (key : K) (e : K × V)
      → HtValid type h
      → find_in type key (chain type h key) ≡ some e
      → 0 < h.size
  found_pos h key e valid n = elim (Bool-cases (h.size == 0)) [
    | inl z ↦
        let empty_chain : chain type h key ≡ [] = valid.beyond (index type h key) (ground arith) in
        let found_none : find_in type key (chain type h key) ≡ none =
          rw empty_chain (unfold find_in in refl) in
        absurd (cc (sym n ∙ found_none))
    | inr z ↦ ground arith
  ]

  module _ (d : Dict K V) (key : K) (valid : Valid type d) where
    first_changes :
        (t : Ht K V)
        → Changed key d.ht0 t
        → 1 ≤ count_in type key (chain type d.ht0 key)
        → Maps type f d key (record d { ht0 = t })
    unfolding dict_size
    first_changes t s there = record {
      valid = record {
        valid0 = s.valid;
        valid1 = valid.valid1;
        unique = λ q. rw (s.counted q) (valid.unique q);
        phase = elim (Option-cases d.rehashidx) [
          | inl e ↦
              subst (λ o. Phase type o t d.ht1) (sym e)
                (subst (λ o. Phase type o d.ht0 d.ht1) e valid.phase)
          | inr (r, e) ↦
              let p : Phase type (some r) d.ht0 d.ht1 =
                subst (λ o. Phase type o d.ht0 d.ht1) e valid.phase in
              subst (λ o. Phase type o t d.ht1) (sym e)
                (omega (arith, p.0, s.size), p.1, λ i l. s.emptied i (p.2 i l))
        ];
      };
      entries = λ q. elim (Bool-cases (type.key_compare key q)) [
        | inl c ↦
            let one = count-chain_cong type d.ht0 key q c in
            let b =
              count_in-zero type q (chain type d.ht1 q)
                (omega (arith, there, one, valid.unique q)) in
            elim (Option-cases (find_in type q (chain type d.ht0 q))) [
              | inl n ↦ absurd (omega (arith, find_in-none type q _ n, there, one))
              | inr (e, n) ↦ rw (s.found_same q c, n, c) refl
            ]
        | inr c ↦ rw (s.found_other q c, c) refl
      ];
      sized = omega (arith, s.used);
    }

    second_changes :
        (t : Ht K V)
        → Changed key d.ht1 t
        → find_in type key (chain type d.ht0 key) ≡ none
        → 0 < d.ht1.size
        → Maps type f d key (record d { ht1 = t })
    unfolding dict_size
    second_changes t s absent pos = record {
      valid = record {
        valid0 = valid.valid0;
        valid1 = s.valid;
        unique = λ q. rw (s.counted q) (valid.unique q);
        phase = elim (Option-cases d.rehashidx) [
          | inl e ↦
              let p : Phase type none d.ht0 d.ht1 =
                subst (λ o. Phase type o d.ht0 d.ht1) e valid.phase in
              absurd (omega (arith, p.0, pos))
          | inr (r, e) ↦
              let p : Phase type (some r) d.ht0 d.ht1 =
                subst (λ o. Phase type o d.ht0 d.ht1) e valid.phase in
              subst (λ o. Phase type o d.ht0 t) (sym e) (p.0, omega (arith, pos, s.size), p.2)
        ];
      };
      entries = λ q. elim (Bool-cases (type.key_compare key q)) [
        | inl c ↦
            let zero_there = count-chain_cong type d.ht0 key q c in
            let n =
              count_in-zero type q (chain type d.ht0 q)
                (omega (arith, find_in-none type key _ absent, zero_there)) in
            rw (n, s.found_same q c, c) refl
        | inr c ↦ rw (s.found_other q c, c) refl
      ];
      sized = omega (arith, s.used);
    }

    write_first :
        (e : K × V)
        → find_in type key (chain type d.ht0 key) ≡ some e
        → write_found type d key f ≡ record d { ht0 = changed d.ht0 key }
    unfolding write_found
    write_first e n = rw (write_found, n) refl

    write_second :
        find_in type key (chain type d.ht0 key) ≡ none
        → write_found type d key f ≡ record d { ht1 = changed d.ht1 key }
    unfolding write_found
    write_second n = rw (write_found, n) refl

    -- A write through the pointer that `dictFind` returned changes that entry and nothing else.
    pub write_found-Maps :
        (e : K × V) → lookup type d key ≡ some e → Maps type f d key (write_found type d key f)
    write_found-Maps e there = elim (Option-cases (find_in type key (chain type d.ht0 key))) [
      | inr (x, n) ↦
          let one = (find_in-some type key _ x n).0 in
          let pos = found_pos d.ht0 key x valid.valid0 n in
          rw (write_first x n)
            (first_changes (changed d.ht0 key) (changed-Changed d.ht0 key valid.valid0 pos) one)
      | inl n ↦
          let second : find_in type key (chain type d.ht1 key) ≡ some e = rw n at there in
          let pos = found_pos d.ht1 key e valid.valid1 second in
          rw (write_second n)
            (second_changes (changed d.ht1 key) (changed-Changed d.ht1 key valid.valid1 pos) n pos)
    ]

  pub Maps-Keeps :
      (d t u : Dict K V) (key : K) → Keeps type d t → Maps type f t key u → Maps type f d key u
  Maps-Keeps d t u key k m = record {
    valid = m.valid;
    entries = λ q.
        m.entries q ∙ ap (λ o. if type.key_compare key q then Option.map f o else o) (k.same q);
    sized = m.sized ∙ k.sized;
  }

  -- `dictFind` and a write through what it returns.
  pub find_write :
      (d : Dict K V) (key : K) (e : K × V)
      → Valid type d
      → lookup type d key ≡ some e
      → Maps type f d key (write_found type (find type d key).0 key f)
  find_write d key e valid there =
      let (keeps, found) = find-lookup type d valid key in
      let t = (find type d key).0 in
      Maps-Keeps d t (write_found type t key f) key keeps
        (write_found-Maps t key keeps.valid e (keeps.same key ∙ there))
