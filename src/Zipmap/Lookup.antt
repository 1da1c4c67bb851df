-- ===== src/Zipmap/Lookup.antt =====
-- What `zipmapLookupRaw` finds in a block that holds entries one after the other.
use libredis_a.Common.{
  ℕ, zero, suc, ◌+◌, ◌<◌, ◌≡◌, refl, ap, ◌∙◌, Bool, true, false, ◌&&◌, not, Option, none, some,
  List, [], ◌∷◌, ◌++◌, length, length-append, All, if◌then◌else◌, Bool-cases, is_some, inl, inr,
  arith,
}
use mathlib.Core.List.{append_assoc}
use libredis_a.Zipmap.{end_mark, wrap, lookup_loop}
use libredis_a.Zipmap.Layout.{
  Entry, Small, encoded, same_string, length-encoded, raw_key_length_lem, value_step_lem, past_key,
  past_value, key_matches_lem, first_byte_lem,
}

abbrev pub flat : List Entry → List ℕ
flat [] = []
flat (e ∷ es) = encoded e ++ flat es

-- The offset of the first entry with the key.
abbrev pub place_of : List ℕ → ℕ → List Entry → Option ℕ
place_of key p [] = none
place_of key p (e ∷ es) =
    if same_string e.key key then some p else place_of key (p + length (encoded e)) es

abbrev pub or_place : Option ℕ → Option ℕ → Option ℕ
or_place none o = o
or_place (some p) o = some p

-- The answer to a caller that wants the total length, and to one that does not.
abbrev pub found_total : ℕ → Option ℕ → Option ℕ → ℕ → Option ℕ × ℕ
found_total p k o size = (or_place k o, wrap (p + size + 1))

abbrev pub found_first : ℕ → Option ℕ → ℕ → Option ℕ × ℕ
found_first p none size = (none, wrap (p + size + 1))
found_first p (some at) size = (some at, 0)

module _ (key : List ℕ) (rest : List ℕ) where
  -- One round at an entry.
  round :
      (n : ℕ) (total : Bool) (p : ℕ) (e : Entry) (small : Small e) (q : List ℕ) (k : Option ℕ)
      → lookup_loop (suc n) key total p (encoded e ++ q) k ≡ (
          if (not (is_some k) && same_string e.key key) && not total
          then some (some p, 0)
          else lookup_loop n key total
              (p + length (encoded e))
              q
              (if not (is_some k) && same_string e.key key then some p else k))
  unfolding lookup_loop
  round n total p e small q k =
      rw
        (
          first_byte_lem e small q,
          key_matches_lem e small q key,
          raw_key_length_lem e small q,
          past_key e small q,
          value_step_lem e small q,
          past_value e small q,
        )
        (ap
          (λ s.
            if (not (is_some k) && same_string e.key key) && not total
            then some (some p, 0)
            else lookup_loop n key total s q
                (if not (is_some k) && same_string e.key key then some p else k))
          (omega (arith, length-encoded e)))

  regroup :
      (e : Entry) (es : List Entry)
      → flat (e ∷ es) ++ (end_mark ∷ rest) ≡ encoded e ++ (flat es ++ (end_mark ∷ rest))
  regroup e es = append_assoc (encoded e) (flat es) (end_mark ∷ rest)

  at_end :
      (n : ℕ) (total : Bool) (p : ℕ) (k : Option ℕ)
      → lookup_loop (suc n) key total p (end_mark ∷ rest) k ≡ some (k, wrap (p + 1))
  unfolding lookup_loop
  at_end n total p k = refl

  size :
      (p : ℕ) (e : Entry) (es : List Entry)
      → p + length (encoded e) + length (flat es) + 1 ≡ p + length (flat (e ∷ es)) + 1
  size p e es = omega (arith, length-append (encoded e) (flat es))

  same_end : (p : ℕ) (k : Option ℕ) → some (k, wrap (p + 1)) ≡ some (found_total p k none 0)
  same_end p none = let e : p + 0 + 1 ≡ p + 1 = omega arith in rw e refl
  same_end p (some x) = let e : p + 0 + 1 ≡ p + 1 = omega arith in rw e refl

  pub lookup_total :
      (es : List Entry) (n p : ℕ) (k : Option ℕ)
      → All Small es
      → length es < n
      → lookup_loop n key true p (flat es ++ (end_mark ∷ rest)) k
        ≡ some (found_total p k (place_of key p es) (length (flat es)))
  lookup_total [] zero p k small h = absurd (omega (arith, h))
  lookup_total [] (suc n) p k small h = at_end n true p k ∙ same_end p k
  lookup_total (e ∷ es) zero p k small h = absurd (omega (arith, h))
  lookup_total (e ∷ es) (suc n) p (some x) (small, smalls) h =
      rw
        (
          regroup e es,
          round n true p e small (flat es ++ (end_mark ∷ rest)) (some x),
          ← size p e es,
        )
        (lookup_total es n (p + length (encoded e)) (some x) smalls (omega (arith, h)))
  lookup_total (e ∷ es) (suc n) p none (small, smalls) h =
      rw (regroup e es, round n true p e small (flat es ++ (end_mark ∷ rest)) none, ← size p e es)
        (elim (Bool-cases (same_string e.key key)) [
          | inl f ↦
              rw f (lookup_total es n (p + length (encoded e)) (some p) smalls (omega (arith, h)))
          | inr f ↦ rw f (lookup_total es n (p + length (encoded e)) none smalls (omega (arith, h)))
        ])

  same_size :
      (p q a b : ℕ) (o : Option ℕ) → p + a + 1 ≡ q + b + 1 → found_first p o a ≡ found_first q o b
  same_size p q a b none h = rw h refl
  same_size p q a b (some at) h = refl

  pub lookup_first :
      (es : List Entry) (n p : ℕ)
      → All Small es
      → length es < n
      → lookup_loop n key false p (flat es ++ (end_mark ∷ rest)) none
        ≡ some (found_first p (place_of key p es) (length (flat es)))
  lookup_first [] zero p small h = absurd (omega (arith, h))
  lookup_first [] (suc n) p small h = at_end n false p none ∙ same_end p none
  lookup_first (e ∷ es) zero p small h = absurd (omega (arith, h))
  lookup_first (e ∷ es) (suc n) p (small, smalls) h =
      let next = lookup_first es n (p + length (encoded e)) smalls (omega (arith, h)) in
      rw (regroup e es, round n false p e small (flat es ++ (end_mark ∷ rest)) none)
        (elim (Bool-cases (same_string e.key key)) [
          | inl f ↦ rw f refl
          | inr f ↦ rw f (
              next
              ∙ ap (λ s. some s)
                  (same_size _ _ _ _ (place_of key (p + length (encoded e)) es) (size p e es)))
        ])
