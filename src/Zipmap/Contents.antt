-- ===== src/Zipmap/Contents.antt =====
-- The contents of a zipmap when an entry goes, comes or changes.
use libredis_a.Common.{
  ℕ, ◌≡◌, refl, sym, ap, ◌∙◌, subst, false, none, some, List, [], ◌∷◌, ◌++◌, if◌then◌else◌,
  Bool-cases, inl, inr,
}
use libredis_a.Zipmap.Layout.{Entry, same_string}
use libredis_a.Zipmap.Entries.{Absent, Distinct, value_of, same_string_iff, same_string_self}

pub Absent-append :
    (key : List ℕ) (l r : List Entry) → Absent key l → Absent key r → Absent key (l ++ r)
Absent-append key [] r a b = b
Absent-append key (e ∷ l) r (a, as1) b = (a, Absent-append key l r as1 b)

pub Absent-parts :
    (key : List ℕ) (l r : List Entry) → Absent key (l ++ r) → Absent key l × Absent key r
Absent-parts key [] r a = (tt, a)
Absent-parts key (e ∷ l) r (a, as1) = let (x, y) = Absent-parts key l r as1 in ((a, x), y)

pub value_of_missing : (key : List ℕ) (es : List Entry) → Absent key es → value_of key es ≡ none
value_of_missing key [] a = refl
value_of_missing key (e ∷ es) (a, as1) = rw a (value_of_missing key es as1)

value_of_past :
    (q : List ℕ) (l r s : List Entry)
    → value_of q r ≡ value_of q s
    → value_of q (l ++ r) ≡ value_of q (l ++ s)
value_of_past q [] r s h = h
value_of_past q (e ∷ l) r s h =
    ap (λ o. if same_string e.key q then some e.val else o) (value_of_past q l r s h)

value_of_after : (q : List ℕ) (l r : List Entry) → Absent q l → value_of q (l ++ r) ≡ value_of q r
value_of_after q [] r a = refl
value_of_after q (e ∷ l) r (a, as1) = rw a (value_of_after q l r as1)

Distinct-parts : (l r : List Entry) → Distinct (l ++ r) → Distinct r
Distinct-parts [] r d = d
Distinct-parts (e ∷ l) r (a, d) = Distinct-parts l r d

other_key : (a b : List ℕ) → same_string a b ≡ false → same_string b a ≡ false
other_key a b h = elim (Bool-cases (same_string b a)) [
  | inl e ↦
      absurd
        (cc (sym h ∙ ap (λ x. same_string x b) (sym (same_string_iff b a e)) ∙ same_string_self b))
  | inr e ↦ e
]

-- Without the entry of a key.
pub Distinct-removed :
    (l : List Entry) (e : Entry) (r : List Entry) → Distinct (l ++ (e ∷ r)) → Distinct (l ++ r)
Distinct-removed [] e r (a, d) = d
Distinct-removed (x ∷ l) e r (a, d) =
    let (b, (c, s)) = Absent-parts x.key l (e ∷ r) a in
    (Absent-append x.key l r b s, Distinct-removed l e r d)

-- With another value for a key.
pub Distinct-changed :
    (l : List Entry) (e f : Entry) (r : List Entry)
    → f.key ≡ e.key
    → Distinct (l ++ (e ∷ r))
    → Distinct (l ++ (f ∷ r))
Distinct-changed [] e f r k (a, d) = (subst (λ x. Absent x r) (sym k) a, d)
Distinct-changed (x ∷ l) e f r k (a, d) =
    let (b, (c, s)) = Absent-parts x.key l (e ∷ r) a in
    (Absent-append x.key l (f ∷ r) b (rw k c, s), Distinct-changed l e f r k d)

-- With a new entry at the end.
pub Distinct-added :
    (es : List Entry) (f : Entry) → Absent f.key es → Distinct es → Distinct (es ++ (f ∷ []))
Distinct-added [] f a d = (tt, tt)
Distinct-added (e ∷ es) f (a, as1) (b, d) =
    (Absent-append e.key es (f ∷ []) b (other_key e.key f.key a, tt), Distinct-added es f as1 d)

module _ (l : List Entry) (e : Entry) (r : List Entry) (key q : List ℕ) (k : e.key ≡ key) where
  pub value_of_removed :
      Absent key l
      → Distinct (l ++ (e ∷ r))
      → value_of q (l ++ r) ≡ (if same_string key q then none else value_of q (l ++ (e ∷ r)))
  value_of_removed a d = elim (Bool-cases (same_string key q)) [
    | inl f ↦
        let gone : Absent key r = subst (λ x. Absent x r) k (Distinct-parts l (e ∷ r) d).0 in
        rw (f, ← same_string_iff key q f)
          (value_of_missing key (l ++ r) (Absent-append key l r a gone))
    | inr f ↦ rw f (value_of_past q l r (e ∷ r) (rw (k, f) refl))
  ]

  pub value_of_changed :
      (x : Entry)
      → x.key ≡ key
      → Absent key l
      → value_of q (l ++ (x ∷ r))
        ≡ (if same_string key q then some x.val else value_of q (l ++ (e ∷ r)))
  value_of_changed x kx a = elim (Bool-cases (same_string key q)) [
    | inl f ↦
        let here : Absent q l = subst (λ s. Absent s l) (same_string_iff key q f) a in
        rw f (value_of_after q l (x ∷ r) here ∙ rw (kx, f) refl)
    | inr f ↦ rw f (value_of_past q l (x ∷ r) (e ∷ r) (rw (kx, k, f) refl))
  ]

pub value_of_added :
    (es : List Entry) (x : Entry) (q : List ℕ)
    → Absent x.key es
    → value_of q (es ++ (x ∷ [])) ≡ (if same_string x.key q then some x.val else value_of q es)
value_of_added [] x q a = refl
value_of_added (e ∷ es) x q (a, as1) = elim (Bool-cases (same_string x.key q)) [
  | inl f ↦
      let other : same_string e.key q ≡ false =
        ap (same_string e.key) (sym (same_string_iff x.key q f)) ∙ a in
      rw (f, other) (value_of_added es x q as1 ∙ rw f refl)
  | inr f ↦ rw f (
      ap (λ o. if same_string e.key q then some e.val else o)
        (value_of_added es x q as1 ∙ rw f refl))
]
