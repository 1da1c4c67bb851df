-- ===== src/Sds/Slice.antt =====
-- The part of a string that sdsrange keeps, position by position and as a cut.
use libredis_a.Common.{
  ℕ, zero, suc, ◌+◌, ◌-◌, ◌≤◌, ◌≡◌, refl, sym, ap, ◌∙◌, inl, inr, Bool, true, false, ◌&&◌, ◌||◌,
  List, [], ◌∷◌, length, ◌==◌, leb, if◌then◌else◌, Bool-cases, arith,
}
use libredis_a.Common.Int.{ℤ, pos, negsuc}
use libredis_a.Common.Blocks.{take, drop}
use libredis_a.Sds.Shape.{from_end}

-- Whether a position of a string of that length is at or behind an index, and at or before one. The
-- last character has the index -1; an end before the first character stands for the first.
abbrev pub at_least : ℕ → ℤ → ℕ → Bool
at_least len (pos n) i = leb n i
at_least len (negsuc n) i = leb len (i + n + 1)

abbrev pub at_most : ℕ → ℤ → ℕ → Bool
at_most len (pos n) i = leb i n
at_most len (negsuc n) i = leb (i + n + 1) len || (i == 0)

-- The characters whose positions pass a test; the first one has the position `i`.
unfoldable pub pick : (ℕ → Bool) → ℕ → List ℕ → List ℕ
pick keep i [] = []
pick keep i (c ∷ s) = let rest = pick keep (suc i) s in if keep i then c ∷ rest else rest

abbrev pub between : List ℕ → ℤ → ℤ → List ℕ
between s a b = pick (λ i. at_least (length s) a i && at_most (length s) b i) 0 s

-- The same by the offsets of the indices.
abbrev pub slice : List ℕ → ℤ → ℤ → List ℕ
slice s a b =
    take ((from_end (length s) b + 1) - from_end (length s) a) (drop (from_end (length s) a) s)

pub take_nothing : (n : ℕ) → take {A = ℕ} n [] ≡ []
unfolding take
take_nothing zero = refl
take_nothing (suc n) = refl

pub drop_all : (n : ℕ) (s : List ℕ) → length s ≤ n → drop n s ≡ []
unfolding drop
drop_all zero [] h = refl
drop_all zero (c ∷ s) h = absurd (omega (arith, h))
drop_all (suc n) [] h = refl
drop_all (suc n) (c ∷ s) h = drop_all n s (omega (arith, h))

pub take_all : (n : ℕ) (s : List ℕ) → length s ≤ n → take n s ≡ s
unfolding take
take_all zero [] h = refl
take_all zero (c ∷ s) h = absurd (omega (arith, h))
take_all (suc n) [] h = refl
take_all (suc n) (c ∷ s) h = ap (λ q. c ∷ q) (take_all n s (omega (arith, h)))

pub drop_zero : (n : ℕ) (s : List ℕ) → n ≡ 0 → drop n s ≡ s
unfolding drop
drop_zero zero s h = refl
drop_zero (suc n) s h = absurd (omega (arith, h))

at_least_lem : (len : ℕ) (a : ℤ) (i : ℕ) → at_least len a i ≡ leb (from_end len a) i
at_least_lem len (pos n) i = refl
at_least_lem len (negsuc n) i = ground arith

at_most_lem : (len : ℕ) (b : ℤ) (i : ℕ) → at_most len b i ≡ leb i (from_end len b)
at_most_lem len (pos n) i = refl
at_most_lem len (negsuc n) i = ground arith

module _ (keep : ℕ → Bool) (lo hi : ℕ) (same : (i : ℕ) → keep i ≡ (leb lo i && leb i hi)) where
  pick_lem :
      (i : ℕ) (s : List ℕ) → pick keep i s ≡ take ((hi + 1) - (i + (lo - i))) (drop (lo - i) s)
  unfolding pick
  pick_lem i [] = sym (ap (take _) (drop_all (lo - i) [] (omega arith)) ∙ take_nothing _)
  pick_lem i (c ∷ s) = elim (Bool-cases (leb lo i)) [
    | inr e ↦
        let no : keep i ≡ false = same i ∙ rw e refl in
        let past : lo - i ≡ suc (lo - suc i) = ground (arith, e) in
        let at : i + (lo - i) ≡ suc i + (lo - suc i) = ground (arith, e) in
        rw no (
          pick_lem (suc i) s
          ∙ ap (λ q. take ((hi + 1) - q) (drop (lo - suc i) s)) (sym at)
          ∙ ap (take _) (unfold drop in ap (λ q. drop q (c ∷ s)) (sym past)))
    | inl e ↦
        let here : lo - i ≡ 0 = ground (arith, e) in
        let next : lo - suc i ≡ 0 = ground (arith, e) in
        let ih : pick keep (suc i) s ≡ take (hi - i) s =
          pick_lem (suc i) s
          ∙ ap (take _) (drop_zero (lo - suc i) s next)
          ∙ ap (λ q. take q s) (omega (arith, next)) in
        let whole : take ((hi + 1) - (i + (lo - i))) (drop (lo - i) (c ∷ s))
            ≡ take ((hi + 1) - i) (c ∷ s) =
          ap (take _) (drop_zero (lo - i) (c ∷ s) here)
          ∙ ap (λ q. take q (c ∷ s)) (omega (arith, here)) in
        elim (Bool-cases (leb i hi)) [
          | inl f ↦
              let yes : keep i ≡ true = same i ∙ rw (e, f) refl in
              let more : (hi + 1) - i ≡ suc (hi - i) = ground (arith, f) in
              rw (yes, ih) (unfold take in sym (whole ∙ ap (λ q. take q (c ∷ s)) more))
          | inr f ↦
              let no : keep i ≡ false = same i ∙ rw (e, f) refl in
              let done : (hi + 1) - i ≡ 0 = ground (arith, f) in
              let none_left : hi - i ≡ 0 = ground (arith, f) in
              rw (no, ih)
                (unfold take in
                  (ap (λ q. take q s) none_left ∙ sym (whole ∙ ap (λ q. take q (c ∷ s)) done)))
        ]
  ]

pub length-pick : (keep : ℕ → Bool) (i : ℕ) (s : List ℕ) → length (pick keep i s) ≤ length s
unfolding pick
length-pick keep i [] = omega arith
length-pick keep i (c ∷ s) = elim (Bool-cases (keep i)) [
  | inl e ↦ rw e (omega (arith, length-pick keep (suc i) s))
  | inr e ↦ rw e (omega (arith, length-pick keep (suc i) s))
]

pub between-slice : (s : List ℕ) (a b : ℤ) → between s a b ≡ slice s a b
between-slice s a b =
    let lo = from_end (length s) a in
    let start : lo - 0 ≡ lo = omega arith in
    let none_before : 0 + lo ≡ lo = omega arith in
    pick_lem _ lo (from_end (length s) b)
      (λ i. rw (at_least_lem (length s) a i, at_most_lem (length s) b i) refl) 0 s
    ∙ ap (λ q. take ((from_end (length s) b + 1) - (0 + q)) (drop q s)) start
    ∙ ap (λ q. take ((from_end (length s) b + 1) - q) (drop lo s)) none_before
