-- ===== src/Dict/Chains.antt =====
-- One bucket of a dictionary: what its walks find, count, change and unlink.
use libredis_a.Common.{
  ℕ, suc, ◌+◌, ◌≤◌, ◌≡◌, refl, sym, ◌∙◌, ◌⊎◌, inl, inr, true, false, List, [], ◌∷◌, none, some,
  arith, length, if◌then◌else◌, Bool-cases, All, Option-cases,
}
use mathlib.Core.Option.{some-injective}
use mathlib.Core.Option
use libredis_a.Dict.{DictType, find_in, change_in, unlink}

pub compare_eq {ℓ} :
    {K : Type ℓ} (type : DictType K) (a b c : K)
    → type.key_compare a b ≡ true
    → type.key_compare c a ≡ type.key_compare c b
compare_eq type a b c h = type.compare_sym c a ∙ type.compare_trans a b c h ∙ type.compare_sym b c

module _ {ℓ κ} {K : Type ℓ} {V : Type κ} (type : DictType K) where
  -- How many entries of a chain have the key.
  unfoldable pub count_in : K → List (K × V) → ℕ
  count_in key [] = 0
  count_in key ((k, v) ∷ es) =
      if type.key_compare key k then suc (count_in key es) else count_in key es

  pub count_in-cons :
      (key k : K) (v : V) (es : List (K × V))
      → count_in key ((k, v) ∷ es) ≡ (if type.key_compare key k then 1 else 0) + count_in key es
  unfolding count_in
  count_in-cons key k v es = ground arith

  pub find_in-cons :
      (key k : K) (v : V) (es : List (K × V))
      → find_in type key ((k, v) ∷ es)
        ≡ (if type.key_compare key k then some (k, v) else find_in type key es)
  unfolding find_in
  find_in-cons key k v es = refl

  pub count_in-zero :
      (key : K) (es : List (K × V)) → count_in key es ≡ 0 → find_in type key es ≡ none
  unfolding count_in find_in
  count_in-zero key [] h = refl
  count_in-zero key ((k, v) ∷ es) h = ground (arith, count_in-zero key es)

  pub find_in-none :
      (key : K) (es : List (K × V)) → find_in type key es ≡ none → count_in key es ≡ 0
  unfolding count_in find_in
  find_in-none key [] h = refl
  find_in-none key ((k, v) ∷ es) h = ground (arith, find_in-none key es)

  pub find_in-some :
      (key : K) (es : List (K × V)) (e : K × V)
      → find_in type key es ≡ some e
      → (1 ≤ count_in key es) × (type.key_compare key (e.0) ≡ true)
  unfolding count_in find_in
  find_in-some key [] e h = cc
  find_in-some key ((k, v) ∷ es) e h = ground (arith, find_in-some key es e)

  -- Keys that compare equal find and count the same entries.
  pub find_in_cong :
      (a b : K) (es : List (K × V))
      → type.key_compare a b ≡ true
      → find_in type a es ≡ find_in type b es
  unfolding find_in
  find_in_cong a b [] h = refl
  find_in_cong a b ((k, v) ∷ es) h = rw (type.compare_trans a b k h, find_in_cong a b es h)

  pub count_in_cong :
      (a b : K) (es : List (K × V)) → type.key_compare a b ≡ true → count_in a es ≡ count_in b es
  unfolding count_in
  count_in_cong a b [] h = refl
  count_in_cong a b ((k, v) ∷ es) h = rw (type.compare_trans a b k h, count_in_cong a b es h)

  pub unlink-none : (key : K) (es : List (K × V)) → unlink type key es ≡ none → count_in key es ≡ 0
  unfolding count_in unlink
  unlink-none key [] h = refl
  unlink-none key ((k, v) ∷ es) h = ground (arith, unlink-none key es)

  -- What is left of a chain after the first entry with a key is unlinked.
  pub record Unlinked (key : K) (es r : List (K × V)) : Type (ℓ ⊔ κ) where
    pub shorter : length r + 1 ≡ length es
    pub counted : (k : K) → type.key_compare key k ≡ true → count_in k r + 1 ≡ count_in k es
    pub others :
        (k : K)
        → type.key_compare key k ≡ false
        → (count_in k r ≡ count_in k es) × (find_in type k r ≡ find_in type k es)

  unlink-Unlinked_head :
      (key : K) (e : K × V) (es : List (K × V))
      → type.key_compare key (e.0) ≡ true
      → Unlinked key (e ∷ es) es
  unfolding count_in find_in
  unlink-Unlinked_head key e es h = record {
    shorter = omega arith;
    counted = λ k c. rw (sym (type.compare_trans key k (e.0) c) ∙ h) (omega arith);
    others = λ k c.
        rw (type.compare_sym k (e.0) ∙ sym (type.compare_trans key (e.0) k h) ∙ c) (refl, refl);
  }

  unlink-Unlinked_tail :
      (key : K) (e : K × V) (es r : List (K × V))
      → type.key_compare key (e.0) ≡ false
      → Unlinked key es r
      → Unlinked key (e ∷ es) (e ∷ r)
  unfolding count_in find_in
  unlink-Unlinked_tail key e es r h u = record {
    shorter = omega (arith, u.shorter);
    counted = λ k c. rw (sym (type.compare_trans key k (e.0) c) ∙ h) (u.counted k c);
    others = λ k c. ground (arith, u.others k c);
  }

  unlink_inv :
      (key : K) (e : K × V) (es r : List (K × V))
      → unlink type key (e ∷ es) ≡ some r
      → ((type.key_compare key (e.0) ≡ true) × (r ≡ es))
        ⊎ ((s : List (K × V)) × (type.key_compare key (e.0) ≡ false)
            × (unlink type key es ≡ some s)
            × (r ≡ e ∷ s))
  unfolding unlink
  unlink_inv key e es r h = elim (Bool-cases (type.key_compare key (e.0))) [
    | inl c ↦ inl (c, sym (some-injective _ _ (rw c at h)))
    | inr c ↦ elim (Option-cases (unlink type key es)) [
      | inl n ↦ absurd (cc (rw (c, n) at h))
      | inr (s, n) ↦ inr (s, c, n, sym (some-injective _ _ (rw (c, n) at h)))
    ]
  ]

  pub unlink-Unlinked :
      (key : K) (es r : List (K × V)) → unlink type key es ≡ some r → Unlinked key es r
  unlink-Unlinked key [] r h = unfold unlink in absurd (cc)
  unlink-Unlinked key (e ∷ es) r h = elim (unlink_inv key e es r h) [
    | inl (c, q) ↦ rw q (unlink-Unlinked_head key e es c)
    | inr (s, c, u, q) ↦ rw q (unlink-Unlinked_tail key e es s c (unlink-Unlinked key es s u))
  ]

  pub unlink-All {μ} :
      (P : K × V → Type μ) (key : K) (es r : List (K × V))
      → unlink type key es ≡ some r
      → All P es
      → All P r
  unlink-All P key [] r h p = unfold unlink in absurd (cc)
  unlink-All P key (e ∷ es) r h (p, ps) = elim (unlink_inv key e es r h) [
    | inl (c, q) ↦ rw q ps
    | inr (s, c, u, q) ↦ rw q (p, unlink-All P key es s u ps)
  ]

  -- A write that keeps the key the same for the comparison.
  module _ (f : K × V → K × V) (same : (e : K × V) → type.key_compare (f e).0 (e.0) ≡ true) where
    pub length-change_in :
        (key : K) (es : List (K × V)) → length (change_in type key f es) ≡ length es
    unfolding change_in
    length-change_in key [] = refl
    length-change_in key (e ∷ es) = ground (arith, length-change_in key es)

    pub count-change_in :
        (key k : K) (es : List (K × V)) → count_in k (change_in type key f es) ≡ count_in k es
    unfolding change_in count_in
    count-change_in key k [] = refl
    count-change_in key k (e ∷ es) =
        ground (arith, compare_eq type (f e).0 (e.0) k (same e), count-change_in key k es)

    pub find-change_in_same :
        (key k : K) (es : List (K × V))
        → type.key_compare key k ≡ true
        → find_in type k (change_in type key f es) ≡ Option.map f (find_in type k es)
    unfolding change_in find_in
    find-change_in_same key k [] c = refl
    find-change_in_same key k (e ∷ es) c = ground (
      arith,
      compare_eq type (f e).0 (e.0) k (same e),
      type.compare_trans key k (e.0) c,
      find-change_in_same key k es c,
    )

    pub find-change_in_other :
        (key k : K) (es : List (K × V))
        → type.key_compare key k ≡ false
        → find_in type k (change_in type key f es) ≡ find_in type k es
    unfolding change_in find_in
    find-change_in_other key k [] c = refl
    find-change_in_other key k (e ∷ es) c = ground (
      arith,
      compare_eq type (f e).0 (e.0) k (same e),
      compare_eq type k (e.0) key,
      type.compare_sym key k,
      find-change_in_other key k es c,
      type.compare_trans key (e.0) k,
      type.compare_sym k (e.0),
    )

    pub change_in-All {μ} :
        (P : K × V → Type μ) (keep : (e : K × V) → P e → P (f e)) (key : K) (es : List (K × V))
        → All P es
        → All P (change_in type key f es)
    unfolding change_in
    change_in-All P keep key [] p = p
    change_in-All P keep key (e ∷ es) (p, ps) = elim (Bool-cases (type.key_compare key (e.0))) [
      | inl c ↦ rw c (keep e p, ps)
      | inr c ↦ rw c (p, change_in-All P keep key es ps)
    ]
