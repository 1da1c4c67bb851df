-- ===== src/Dict/Valid.antt =====
-- The invariant of a dictionary, and the map from keys to entries that it stands for.
use libredis_a.Common.{
  ℕ, ◌+◌, ◌≤◌, ◌<◌, ◌≡◌, refl, ◌∙◌, inl, inr, List, [], ◌∷◌, Option, none, some, arith, length,
  Bool-cases,
}
use libredis_a.Dict.{DictType, Ht, Dict, find_in, index, push, move_chain, dict_size}
use libredis_a.Dict.Chains.{count_in, count_in-zero, count_in-cons, find_in-cons}
use libredis_a.Dict.Tables.{HtValid, chain, push-HtValid, find-push, count-push}

-- The first table has precedence.
abbrev pub or_else {ℓ} : {A : Type ℓ} → Option A → Option A → Option A
or_else none y = y
or_else (some x) y = some x

module _ {ℓ κ} {K : Type ℓ} {V : Type κ} (type : DictType K) where
  -- Without a rehash the second table has no array. During one both tables exist, and the buckets
  -- before `rehashidx` are empty.
  abbrev pub Phase : Option ℕ → Ht K V → Ht K V → Type (ℓ ⊔ κ)
  Phase none h0 h1 = (h1.size ≡ 0) × Unit {ℓ ⊔ κ}
  Phase (some r) h0 h1 = (0 < h0.size) × (0 < h1.size) × ((i : ℕ) → i < r → h0.table i ≡ [])

  pub record Valid (d : Dict K V) : Type (ℓ ⊔ κ) where
    pub valid0 : HtValid type d.ht0
    pub valid1 : HtValid type d.ht1
    pub unique :
        (q : K) → count_in type q (chain type d.ht0 q) + count_in type q (chain type d.ht1 q) ≤ 1
    pub phase : Phase d.rehashidx d.ht0 d.ht1

  -- The entry with a key, wherever it stands.
  abbrev pub lookup : Dict K V → K → Option (K × V)
  lookup d q = or_else (find_in type q (chain type d.ht0 q)) (find_in type q (chain type d.ht1 q))

  -- What a call that changes no entry promises.
  pub record Keeps (d t : Dict K V) : Type (ℓ ⊔ κ) where
    pub valid : Valid t
    pub same : (q : K) → lookup t q ≡ lookup d q
    pub sized : dict_size t ≡ dict_size d

  pub Keeps-refl : (d : Dict K V) → Valid d → Keeps d d
  Keeps-refl d valid = record { valid = valid; same = λ q. refl; sized = refl }

  pub Keeps-trans : (d t u : Dict K V) → Keeps d t → Keeps t u → Keeps d u
  Keeps-trans d t u a b = record {
    valid = b.valid;
    same = λ q. b.same q ∙ a.same q;
    sized = b.sized ∙ a.sized;
  }

  -- A whole chain moved to another table.
  pub record Moved (es : List (K × V)) (h t : Ht K V) : Type (ℓ ⊔ κ) where
    pub valid : HtValid type t
    pub size : t.size ≡ h.size
    pub used : t.used ≡ h.used + length es
    pub count :
        (q : K)
        → count_in type q (chain type t q) ≡ count_in type q es + count_in type q (chain type h q)
    pub found :
        (q : K)
        → count_in type q es + count_in type q (chain type h q) ≤ 1
        → find_in type q (chain type t q)
          ≡ or_else (find_in type q es) (find_in type q (chain type h q))

  push_size :
      (h : Ht K V) (k : K) (v : V) → 0 < h.size → 0 < (push type h (index type h k) (k, v)).size
  unfolding push
  push_size h k v p = p

  push_used : (h : Ht K V) (k : K) (v : V) → (push type h (index type h k) (k, v)).used ≡ h.used + 1
  unfolding push
  push_used h k v = refl

  found_cons :
      (h : Ht K V) (k : K) (v : V) (es : List (K × V)) (q : K)
      → count_in type q es + count_in type q (chain type (push type h (index type h k) (k, v)) q)
        ≤ 1
      → or_else
          (find_in type q es)
          (find_in type q (chain type (push type h (index type h k) (k, v)) q))
        ≡ or_else (find_in type q ((k, v) ∷ es)) (find_in type q (chain type h q))
  found_cons h k v es q u =
      rw (find-push type h k v q, find_in-cons type q k v es)
        (elim (Bool-cases (type.key_compare q k)) [
          | inl c ↦
              let n : count_in type q es ≡ 0 =
                omega (arith, rw (count-push type h k v q, c) at u) in
              rw (c, count_in-zero type q es n) refl
          | inr c ↦ rw c refl
        ])

  pub move_chain-Moved :
      (es : List (K × V)) (h : Ht K V)
      → HtValid type h
      → 0 < h.size
      → Moved es h (move_chain type es h)
  unfolding move_chain
  move_chain-Moved [] h valid pos = record {
    valid = valid;
    size = refl;
    used = omega arith;
    count = λ q. unfold count_in in omega arith;
    found = λ q u. unfold find_in in refl;
  }
  move_chain-Moved ((k, v) ∷ es) h valid pos =
      let p : Ht K V = push type h (index type h k) (k, v) in
      let ih = move_chain-Moved es p (push-HtValid type h k v valid pos) (push_size h k v pos) in
      record {
        valid = ih.valid;
        size = ih.size ∙ (unfold push in refl);
        used = omega (arith, ih.used, push_used h k v);
        count =
            λ q. omega (arith, ih.count q, count-push type h k v q, count_in-cons type q k v es);
        found = λ q u.
            let u' : count_in type q es + count_in type q (chain type p q) ≤ 1 =
              omega (arith, u, count-push type h k v q, count_in-cons type q k v es) in
            ih.found q u' ∙ found_cons h k v es q u';
      }
