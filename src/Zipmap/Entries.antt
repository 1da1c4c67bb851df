-- ===== src/Zipmap/Entries.antt =====
-- Well-formed zipmaps, the entry of a key, and what zipmapGet and zipmapExists answer.
use libredis_a.Common.{
  ℕ, ◌+◌, ◌^◌, ◌≤◌, ◌<◌, ◌≡◌, refl, sym, ap, ◌∙◌, ◌⊎◌, true, false, Option, none, some, List, [],
  ◌∷◌, ◌++◌, length, length-append, ◌==◌, ==_iff, All, if◌then◌else◌, Bool-cases, is_some, inl, inr,
  arith,
}
use mathlib.Core.List.{append_assoc}
use native.Mathlib.Nat.{mod-eq_of_lt}
use libredis_a.Common.Blocks.{drop, drop-append}
use libredis_a.Util.Canonical.{same_bytes_self, same_bytes_eq}
use libredis_a.Zipmap.{end_mark, lookup_raw, get, exists}
use libredis_a.Zipmap.Layout.{
  Entry, Small, encoded, same_string, value_from_lem, length-encoded, length-value_part,
}
use libredis_a.Zipmap.Lookup.{flat, place_of, found_first, lookup_total, lookup_first}

-- No entry has the key.
abbrev pub Absent : List ℕ → List Entry → Type 0
Absent key es = All (λ e. same_string e.key key ≡ false) es

abbrev pub Distinct : List Entry → Type 0
Distinct [] = Unit
Distinct (e ∷ es) = Absent e.key es × Distinct es

-- The value of a key.
abbrev pub value_of : List ℕ → List Entry → Option (List ℕ)
value_of key [] = none
value_of key (e ∷ es) = if same_string e.key key then some e.val else value_of key es

-- The block holds the entries one after the other, each key once. Its first byte counts them, or is
-- 254 or more.
pub record IsZipmap (zm : List ℕ) (es : List Entry) : Type 0 where
  pub count : ℕ
  pub is : zm ≡ count ∷ (flat es ++ (end_mark ∷ []))
  pub sized : length zm < 2 ^ 32
  pub distinct : Distinct es
  pub counted : (count ≡ length es) ⊎ (254 ≤ count)

pub same_string_iff : (a b : List ℕ) → same_string a b ≡ true → a ≡ b
same_string_iff a b h = elim (Bool-cases (length a == length b)) [
  | inl e ↦ same_bytes_eq a b (rw e at h)
  | inr e ↦ absurd (cc (rw e at h))
]

pub same_string_self : (a : List ℕ) → same_string a a ≡ true
same_string_self a = rw ((==_iff (length a) (length a)).1 refl, same_bytes_self a) refl

pub flat-append : (l r : List Entry) → flat (l ++ r) ≡ flat l ++ flat r
flat-append [] r = refl
flat-append (e ∷ l) r =
    ap (λ q. encoded e ++ q) (flat-append l r) ∙ sym (append_assoc (encoded e) (flat l) (flat r))

pub bounded_entries : (es : List Entry) → length (flat es) < 2 ^ 32 → All Small es
bounded_entries [] h = tt
bounded_entries (e ∷ es) h =
    let l = length-append (encoded e) (flat es) in
    (omega (arith, h, l), bounded_entries es (omega (arith, h, l)))

pub length-flat : (es : List Entry) → length es ≤ length (flat es)
length-flat [] = omega arith
length-flat (e ∷ es) = omega (
  arith,
  length-flat es,
  length-append (encoded e) (flat es),
  length-encoded e,
  length-value_part e,
)

-- Where the entry of a key stands, if there is one.
abbrev pub Split : List ℕ → ℕ → List Entry → Type 0
Split key p es =
    ((place_of key p es ≡ none) × Absent key es × (value_of key es ≡ none))
    ⊎ ((l : List Entry) × (e : Entry) × (r : List Entry) × (es ≡ l ++ (e ∷ r))
        × (e.key ≡ key)
        × Absent key l
        × (place_of key p es ≡ some (p + length (flat l)))
        × (value_of key es ≡ some e.val))

pub split : (key : List ℕ) (p : ℕ) (es : List Entry) → Split key p es
split key p [] = inl (refl, tt, refl)
split key p (e ∷ es) = elim (Bool-cases (same_string e.key key)) [
  | inl f ↦ inr (
    [],
    e,
    es,
    refl,
    same_string_iff e.key key f,
    tt,
    rw f (ap (λ n. some n) (omega arith)),
    rw f refl,
  )
  | inr f ↦ elim (split key (p + length (encoded e)) es) [
    | inl (n, a, v) ↦ inl (rw f n, (f, a), rw f v)
    | inr (l, x, r, same, k, a, n, v) ↦ inr (
      e ∷ l,
      x,
      r,
      ap (λ q. e ∷ q) same,
      k,
      (f, a),
      rw f (n ∙ ap (λ s. some s) (omega (arith, length-append (encoded e) (flat l)))),
      rw f v,
    )
  ]
]

-- The block around an entry.
pub around :
    (c : ℕ) (l : List Entry) (e : Entry) (r : List Entry)
    → c ∷ (flat (l ++ (e ∷ r)) ++ (end_mark ∷ []))
      ≡ (c ∷ flat l) ++ (encoded e ++ (flat r ++ (end_mark ∷ [])))
around c l e r =
    ap (λ q. c ∷ (q ++ (end_mark ∷ []))) (flat-append l (e ∷ r))
    ∙ ap (λ q. c ∷ q)
        (append_assoc (flat l) (encoded e ++ flat r) (end_mark ∷ [])
          ∙ ap (λ q. flat l ++ q) (append_assoc (encoded e) (flat r) (end_mark ∷ [])))

module _ (zm : List ℕ) (es : List Entry) (z : IsZipmap zm es) where
  pub total_length : length zm ≡ length (flat es) + 2
  total_length = omega (arith, ap length z.is, length-append (flat es) (end_mark ∷ []))

  pub smalls : All Small es
  smalls = bounded_entries es (omega (arith, z.sized, total_length))

  enough : length es < length zm
  enough = omega (arith, total_length, length-flat es)

  after_count : drop 1 zm ≡ flat es ++ (end_mark ∷ [])
  unfolding drop
  after_count = ap (drop 1) z.is

  pub lookup_first_lem :
      (key : List ℕ)
      → lookup_raw zm key false ≡ some (found_first 1 (place_of key 1 es) (length (flat es)))
  unfolding lookup_raw
  lookup_first_lem key =
      rw (lookup_raw, after_count) (lookup_first key [] es (length zm) 1 smalls enough)

  pub lookup_total_lem :
      (key : List ℕ) → lookup_raw zm key true ≡ some (place_of key 1 es, length zm)
  unfolding lookup_raw
  lookup_total_lem key =
      rw (lookup_raw, after_count)
        (lookup_total key [] es (length zm) 1 none smalls enough
          ∙ ap (λ n. some (place_of key 1 es, n))
              (mod-eq_of_lt (omega (arith, z.sized, total_length)) ∙ omega (arith, total_length)))

  -- zipmapGet returns the value of the key, if there is one.
  pub get_lem : (key : List ℕ) → get zm key ≡ some (value_of key es)
  get_lem key = elim (split key 1 es) [
    | inl (n, a, v) ↦ unfold get in rw (get, lookup_first_lem key, n, v) refl
    | inr (l, e, r, same, k, a, n, v) ↦
        let here : drop (1 + length (flat l)) zm ≡ encoded e ++ (flat r ++ (end_mark ∷ [])) =
          ap (drop (1 + length (flat l)))
            (z.is ∙ ap (λ q. z.count ∷ (flat q ++ (end_mark ∷ []))) same ∙ around z.count l e r)
          ∙ drop-append _ (z.count ∷ flat l) _ (omega arith) in
        let small : Small e = omega (
          arith,
          z.sized,
          total_length,
          ap (λ q. length (flat q)) same,
          length-append (flat l) (encoded e ++ flat r),
          ap length (flat-append l (e ∷ r)),
          length-append (encoded e) (flat r),
        ) in
        unfold get in
        rw (get, lookup_first_lem key, n, v, here)
          (ap (λ x. some (some x)) (value_from_lem e small _))
  ]

  -- zipmapExists says whether there is one.
  pub exists_lem : (key : List ℕ) → exists zm key ≡ some (is_some (value_of key es))
  exists_lem key = elim (split key 1 es) [
    | inl (n, a, v) ↦ unfold exists in rw (exists, lookup_first_lem key, n, v) refl
    | inr (l, e, r, same, k, a, n, v) ↦
        unfold exists in rw (exists, lookup_first_lem key, n, v) refl
  ]
