-- ===== src/Dict/Tables.antt =====
-- One hash table: every entry stands in the bucket of its key, and `used` counts the entries.
use libredis_a.Common.{
  ℕ, zero, suc, ◌+◌, ◌≤◌, ◌<◌, ◌≡◌, ◌≢◌, refl, sym, ap, ◌∙◌, ◌⊎◌, inl, inr, true, false, List, [],
  ◌∷◌, some, arith, length, ◌==◌, if◌then◌else◌, Bool-cases, All, update, ==_iff,
}
use native.Mathlib.Decide.{ℕ_discrete}
use Prim.Native.Nat.{bit_and}
use libredis_a.Common.Bits.{bit_and-le}
use libredis_a.Dict.{DictType, Ht, find_in, index, push}
use libredis_a.Dict.Chains.{count_in, count_in-cons, find_in-cons}

module _ {ℓ} {A : Type ℓ} where
  -- The entries of the first `n` buckets.
  unfoldable pub total : ℕ → (ℕ → List A) → ℕ
  total zero t = 0
  total (suc n) t = total n t + length (t n)

  total_outside :
      (n : ℕ) (t : ℕ → List A) (i : ℕ) (c : List A) → n ≤ i → total n (update t i c) ≡ total n t
  unfolding total
  total_outside zero t i c h = refl
  total_outside (suc n) t i c h = ground (arith, total_outside n t i c)

  pub total-update :
      (n : ℕ) (t : ℕ → List A) (i : ℕ) (c : List A)
      → i < n
      → total n (update t i c) + length (t i) ≡ total n t + length c
  unfolding total
  total-update zero t i c h = elim h [ ]
  total-update (suc n) t i c h = elim (Bool-cases (i == n)) [
    | inl e ↦
        let same : i ≡ n = (==_iff i n).0 e in
        rw (same, (==_iff n n).1 refl) (omega (arith, total_outside n t n c (omega arith)))
    | inr e ↦ rw e (omega (arith, total-update n t i c (ground arith)))
  ]

  pub length-le-total : (n : ℕ) (t : ℕ → List A) (i : ℕ) → i < n → length (t i) ≤ total n t
  unfolding total
  length-le-total zero t i h = elim h [ ]
  length-le-total (suc n) t i h = elim (ℕ_discrete i n) [
    | yes e ↦ rw e (omega arith)
    | no e ↦ omega (arith, length-le-total n t i (omega arith))
  ]

  pub total_zero : (n : ℕ) (t : ℕ → List A) → ((i : ℕ) → i < n → t i ≡ []) → total n t ≡ 0
  unfolding total
  total_zero zero t h = refl
  total_zero (suc n) t h = rw (h n (omega arith), total_zero n t (λ i p. h i (omega arith)))

module _ {ℓ κ} {K : Type ℓ} {V : Type κ} (type : DictType K) where
  pub record HtValid (ht : Ht K V) : Type (ℓ ⊔ κ) where
    pub masked : (ht.size ≡ 0) ⊎ (ht.size ≡ ht.sizemask + 1)
    pub beyond : (i : ℕ) → ht.size ≤ i → ht.table i ≡ []
    pub placed : (i : ℕ) → All (λ e. index type ht (e.0) ≡ i) (ht.table i)
    pub counted : ht.used ≡ total ht.size ht.table

  -- The bucket where a key belongs.
  abbrev pub chain : Ht K V → K → List (K × V)
  chain ht key = ht.table (index type ht key)

  pub index-lt : (ht : Ht K V) (key : K) → HtValid ht → 0 < ht.size → index type ht key < ht.size
  index-lt ht key valid h =
      omega (arith, bit_and-le (type.hash_function key) ht.sizemask, valid.masked)

  pub index_cong :
      (ht : Ht K V) (a b : K) → type.key_compare a b ≡ true → index type ht a ≡ index type ht b
  index_cong ht a b c = ap (λ h. bit_and h ht.sizemask) (type.compare_hash a b c)

  -- The bucket `i` with another chain in it.
  abbrev pub replace_chain : (ht : Ht K V) → ℕ → List (K × V) → ℕ → Ht K V
  replace_chain ht i c n = record ht { table = update ht.table i c; used = n }

  pub replace_chain-HtValid :
      (ht : Ht K V) (i : ℕ) (c : List (K × V)) (n : ℕ)
      → HtValid ht
      → i < ht.size
      → All (λ e. index type ht (e.0) ≡ i) c
      → n + length (ht.table i) ≡ ht.used + length c
      → HtValid (replace_chain ht i c n)
  replace_chain-HtValid ht i c n valid h p u = record {
    masked = valid.masked;
    beyond = λ j q. elim (Bool-cases (i == j)) [
      | inl e ↦ absurd (ground arith)
      | inr e ↦ rw e (valid.beyond j q)
    ];
    placed = λ j. elim (Bool-cases (i == j)) [
      | inl e ↦ rw (e, ← (==_iff i j).0 e) p
      | inr e ↦ rw e (valid.placed j)
    ];
    counted = omega (arith, total-update ht.size ht.table i c h, valid.counted);
  }

  module _ (ht : Ht K V) (k : K) (v : V) where
    -- The table with the entry pushed where its key belongs.
    abbrev pushed : Ht K V
    pushed = push type ht (index type ht k) (k, v)

    pub push-HtValid : HtValid ht → 0 < ht.size → HtValid pushed
    unfolding push
    push-HtValid valid h =
        replace_chain-HtValid ht (index type ht k) ((k, v) ∷ chain ht k) (ht.used + 1) valid
          (index-lt ht k valid h) (refl, valid.placed (index type ht k)) (omega arith)

    chain-push_same :
        (q : K) → index type ht k ≡ index type ht q → chain pushed q ≡ (k, v) ∷ chain ht q
    unfolding push
    chain-push_same q e = rw ((==_iff _ _).1 e) (ap (λ i. (k, v) ∷ ht.table i) e)

    chain-push_other : (q : K) → index type ht k ≢ index type ht q → chain pushed q ≡ chain ht q
    unfolding push
    chain-push_other q n =
        let e : (index type ht k == index type ht q) ≡ false = ground arith in rw e

    other_key : (q : K) → index type ht k ≢ index type ht q → type.key_compare q k ≡ false
    other_key q n = elim (Bool-cases (type.key_compare q k)) [
      | inl c ↦ absurd (n (sym (index_cong ht q k c)))
      | inr c ↦ c
    ]

    pub find-push :
        (q : K)
        → find_in type q (chain pushed q)
          ≡ (if type.key_compare q k then some (k, v) else find_in type q (chain ht q))
    find-push q = elim (ℕ_discrete (index type ht k) (index type ht q)) [
      | yes e ↦ ap (find_in type q) (chain-push_same q e) ∙ find_in-cons type q k v (chain ht q)
      | no n ↦ rw (other_key q n) (ap (find_in type q) (chain-push_other q n))
    ]

    pub count-push :
        (q : K)
        → count_in type q (chain pushed q)
          ≡ (if type.key_compare q k then 1 else 0) + count_in type q (chain ht q)
    count-push q = elim (ℕ_discrete (index type ht k) (index type ht q)) [
      | yes e ↦ ap (count_in type q) (chain-push_same q e) ∙ count_in-cons type q k v (chain ht q)
      | no n ↦ rw (other_key q n) (ap (count_in type q) (chain-push_other q n) ∙ omega arith)
    ]

  module _ (ht : Ht K V) (key : K) (c : List (K × V)) (n : ℕ) where
    abbrev replaced : Ht K V
    replaced = replace_chain ht (index type ht key) c n

    -- With the key's bucket replaced, the key and its equals see the new chain.
    pub chain-replaced_same : (q : K) → type.key_compare key q ≡ true → chain replaced q ≡ c
    chain-replaced_same q e =
        rw (index_cong ht key q e, (==_iff (index type ht q) (index type ht q)).1 refl)

    -- What does not tell the new chain from the old one does not tell the tables apart.
    pub chain-replaced_other {μ} :
        {X : Type μ} (f : List (K × V) → X) (q : K)
        → f c ≡ f (chain ht key)
        → f (chain replaced q) ≡ f (chain ht q)
    chain-replaced_other f q e = elim (Bool-cases (index type ht key == index type ht q)) [
      | inl s ↦ rw s (e ∙ ap (λ i. f (ht.table i)) ((==_iff _ _).0 s))
      | inr s ↦ rw s refl
    ]
