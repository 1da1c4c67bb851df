-- ===== src/Dict/Shrink.antt =====
-- One table of a dictionary without an entry, and what that makes of the map.
use libredis_a.Common.{
  ℕ, ◌+◌, ◌-◌, ◌≤◌, ◌<◌, ◌≡◌, refl, sym, ap, subst, ◌∙◌, inl, inr, true, false, List, [], none,
  some, arith, length, ◌==◌, if◌then◌else◌, Bool-cases, Option-cases, ==_iff,
}
use libredis_a.Dict.{DictType, Ht, Dict, find_in, index, unlink, dict_size}
use libredis_a.Dict.Chains.{
  count_in, count_in-zero, count_in_cong, unlink-All, unlink-Unlinked, Unlinked,
}
use libredis_a.Dict.Tables.{
  HtValid, chain, index_cong, index-lt, replace_chain, replace_chain-HtValid, chain-replaced_same,
  chain-replaced_other, length-le-total,
}
use libredis_a.Dict.Valid.{Phase, Valid, lookup}

-- What a deletion promises of a key that is there: the map loses the entry.
pub record Drops {ℓ κ} {K : Type ℓ} {V : Type κ} (type : DictType K) (d : Dict K V) (key : K)
    (t : Dict K V) : Type (ℓ ⊔ κ) where
  pub valid : Valid type t
  pub entries :
      (q : K) → lookup type t q ≡ (if type.key_compare key q then none else lookup type d q)
  pub sized : dict_size t + 1 ≡ dict_size d

module _ {ℓ κ} {K : Type ℓ} {V : Type κ} (type : DictType K) where
  pub nonempty_pos :
      (h : Ht K V) (q : K) → HtValid type h → 0 < length (chain type h q) → 0 < h.size
  nonempty_pos h q valid n = elim (Bool-cases (h.size == 0)) [
    | inl z ↦
        let e : chain type h q ≡ [] = valid.beyond (index type h q) (ground arith) in
        absurd (omega (arith, ap length e))
    | inr z ↦ ground arith
  ]

  pub count-chain_cong :
      (h : Ht K V) (a b : K)
      → type.key_compare a b ≡ true
      → count_in type a (chain type h a) ≡ count_in type b (chain type h b)
  count-chain_cong h a b c =
      ap (λ i. count_in type a (h.table i)) (index_cong type h a b c) ∙ count_in_cong type a b _ c

  -- One table without the first entry of a key.
  pub record Shrunk (key : K) (h t : Ht K V) : Type (ℓ ⊔ κ) where
    pub valid : HtValid type t
    pub size : t.size ≡ h.size
    pub used : t.used + 1 ≡ h.used
    pub same :
        (q : K)
        → type.key_compare key q ≡ true
        → count_in type q (chain type t q) + 1 ≡ count_in type q (chain type h q)
    pub others :
        (q : K)
        → type.key_compare key q ≡ false
        → (count_in type q (chain type t q) ≡ count_in type q (chain type h q))
          × (find_in type q (chain type t q) ≡ find_in type q (chain type h q))
    pub emptied : (i : ℕ) → h.table i ≡ [] → t.table i ≡ []

  abbrev pub shrunk : Ht K V → K → List (K × V) → Ht K V
  shrunk h key es = replace_chain type h (index type h key) es (h.used - 1)

  module _ (h : Ht K V) (key : K) (es : List (K × V)) (valid : HtValid type h)
      (u : unlink type key (chain type h key) ≡ some es) where
    pub left : Unlinked type key (chain type h key) es
    left = unlink-Unlinked type key (chain type h key) es u

    inside : index type h key < h.size
    inside = index-lt type h key valid (nonempty_pos h key valid (omega (arith, left.shorter)))

    pub shrunk-Shrunk : Shrunk key h (shrunk h key es)
    shrunk-Shrunk = record {
      valid =
          replace_chain-HtValid type h (index type h key) es (h.used - 1) valid inside
            (unlink-All type _ key (chain type h key) es u (valid.placed (index type h key)))
            (omega (
              arith,
              left.shorter,
              valid.counted,
              length-le-total h.size h.table (index type h key) inside,
            ));
      size = refl;
      used = omega (
        arith,
        left.shorter,
        valid.counted,
        length-le-total h.size h.table (index type h key) inside,
      );
      same = λ q c.
          let e = chain-replaced_same type h key es (h.used - 1) q c in
          rw e
            (left.counted q c ∙ ap (λ i. count_in type q (h.table i)) (index_cong type h key q c));
      others = λ q c. (
        chain-replaced_other type h key es (h.used - 1) (count_in type q) q (left.others q c).0,
        chain-replaced_other type h key es (h.used - 1) (find_in type q) q (left.others q c).1,
      );
      emptied = λ i e. elim (Bool-cases (index type h key == i)) [
        | inl s ↦
            let n : chain type h key ≡ [] = ap h.table ((==_iff _ _).0 s) ∙ e in
            absurd (omega (arith, left.shorter, ap length n))
        | inr s ↦ rw s e
      ];
    }

  module _ (d : Dict K V) (key : K) (valid : Valid type d) where
    -- What either table's loss does to the whole.
    pub first_shrinks :
        (t : Ht K V)
        → Shrunk key d.ht0 t
        → 1 ≤ count_in type key (chain type d.ht0 key)
        → Drops type d key (record d { ht0 = t })
    unfolding dict_size
    first_shrinks t s some_there = record {
      valid = record {
        valid0 = s.valid;
        valid1 = valid.valid1;
        unique = λ q. elim (Bool-cases (type.key_compare key q)) [
          | inl c ↦ omega (arith, s.same q c, valid.unique q)
          | inr c ↦ rw ((s.others q c).0) (valid.unique q)
        ];
        phase = elim (Option-cases d.rehashidx) [
          | inl e ↦
              subst (λ o. Phase type o t d.ht1) (sym e)
                (subst (λ o. Phase type o d.ht0 d.ht1) e valid.phase)
          | inr (r, e) ↦
              let p : Phase type (some r) d.ht0 d.ht1 =
                subst (λ o. Phase type o d.ht0 d.ht1) e valid.phase in
              subst (λ o. Phase type o t d.ht1) (sym e)
                (omega (arith, p.0, s.size), p.1, λ i l. s.emptied i (p.2 i l))
        ];
      };
      entries = λ q. elim (Bool-cases (type.key_compare key q)) [
        | inl c ↦
            let one = count-chain_cong d.ht0 key q c in
            let a =
              count_in-zero type q (chain type t q) (omega (arith, s.same q c, valid.unique q)) in
            let b =
              count_in-zero type q (chain type d.ht1 q)
                (omega (arith, some_there, one, valid.unique q)) in
            rw (a, b, c) refl
        | inr c ↦ rw ((s.others q c).1, c) refl
      ];
      sized = omega (arith, s.used);
    }

    pub second_shrinks :
        (t : Ht K V)
        → Shrunk key d.ht1 t
        → count_in type key (chain type d.ht0 key) ≡ 0
        → 0 < d.ht1.size
        → Drops type d key (record d { ht1 = t })
    unfolding dict_size
    second_shrinks t s none_there pos = record {
      valid = record {
        valid0 = valid.valid0;
        valid1 = s.valid;
        unique = λ q. elim (Bool-cases (type.key_compare key q)) [
          | inl c ↦ omega (arith, s.same q c, valid.unique q)
          | inr c ↦ rw ((s.others q c).0) (valid.unique q)
        ];
        phase = elim (Option-cases d.rehashidx) [
          | inl e ↦
              let p : Phase type none d.ht0 d.ht1 =
                subst (λ o. Phase type o d.ht0 d.ht1) e valid.phase in
              absurd (omega (arith, p.0, pos))
          | inr (r, e) ↦
              let p : Phase type (some r) d.ht0 d.ht1 =
                subst (λ o. Phase type o d.ht0 d.ht1) e valid.phase in
              subst (λ o. Phase type o d.ht0 t) (sym e) (p.0, omega (arith, pos, s.size), p.2)
        ];
      };
      entries = λ q. elim (Bool-cases (type.key_compare key q)) [
        | inl c ↦
            let zero_there = count-chain_cong d.ht0 key q c in
            let a =
              count_in-zero type q (chain type t q) (omega (arith, s.same q c, valid.unique q)) in
            let b =
              count_in-zero type q (chain type d.ht0 q) (omega (arith, none_there, zero_there)) in
            rw (a, b, c) refl
        | inr c ↦ rw ((s.others q c).1, c) refl
      ];
      sized = omega (arith, s.used);
    }
