-- ===== src/Util/Decimal.antt =====
-- What ll2string prints is the decimal numeral of the integer, without leading zeros.
use libredis_a.Common.{
  ℕ, zero, suc, ◌+◌, ◌-◌, ◌*◌, ◌/◌, ◌%◌, ◌^◌, ◌≤◌, ◌<◌, ◌≡◌, ◌≢◌, refl, ap, ◌∙◌, ◌⊎◌, inl, inr,
  true, false, List, [], ◌∷◌, arith, length, All, ◌==◌, Bool-cases, ==_iff,
}
use native.Mathlib.Nat.{pow-suc}
use libredis_a.Util.{digits_loop}

-- The value of decimal digits, after a number that stands before them.
abbrev pub decimal : ℕ → List ℕ → ℕ
decimal a [] = a
decimal a (c ∷ cs) = decimal (10 * a + (c - 48)) cs

abbrev pub IsDigits : List ℕ → Type 0
IsDigits cs = All (λ c. (48 ≤ c) × (c ≤ 57)) cs

abbrev pub LeadsWith : (ℕ → Type 0) → List ℕ → Type 0
LeadsWith P [] = ⊥
LeadsWith P (c ∷ cs) = P c

-- The decimal numeral of a number: 0 is one digit, any other starts with a digit that is not 0.
pub record Numeral (v : ℕ) (cs : List ℕ) : Type 0 where
  pub digits : IsDigits cs
  pub value : decimal 0 cs ≡ v
  pub leads : (cs ≡ 48 ∷ []) ⊎ LeadsWith (λ c. c ≢ 48) cs

record Extends (fuel v : ℕ) (buf cs : List ℕ) : Type 0 where
  digits : IsDigits cs
  value : decimal 0 cs ≡ decimal v buf
  leads : ((v ≡ 0) × (cs ≡ 48 ∷ buf)) ⊎ ((v ≢ 0) × LeadsWith (λ c. c ≢ 48) cs)
  short : length cs ≤ fuel + length buf

digits_last :
    (fuel v : ℕ) (buf : List ℕ)
    → (v / 10 == 0) ≡ true
    → digits_loop (suc fuel) v buf ≡ (48 + v % 10) ∷ buf
unfolding digits_loop
digits_last fuel v buf e = rw e refl

digits_more :
    (fuel v : ℕ) (buf : List ℕ)
    → (v / 10 == 0) ≡ false
    → digits_loop (suc fuel) v buf ≡ digits_loop fuel (v / 10) ((48 + v % 10) ∷ buf)
unfolding digits_loop
digits_more fuel v buf e = rw e refl

last-Extends :
    (fuel v : ℕ) (buf : List ℕ)
    → v < 10
    → IsDigits buf
    → Extends (suc fuel) v buf ((48 + v % 10) ∷ buf)
last-Extends fuel v buf h d =
    let one : v % 10 ≡ v = omega arith in
    record {
      digits = ((omega arith, omega arith), d);
      value = ap (λ a. decimal a buf) (omega arith);
      leads = elim (Bool-cases (v == 0)) [
        | inl z ↦ inl ((==_iff v 0).0 z, ap (λ c. c ∷ buf) (ground (arith, one)))
        | inr z ↦ inr (ground arith, ground (arith, one))
      ];
      short = omega arith;
    }

digits_loop-Extends :
    (fuel v : ℕ) (buf : List ℕ)
    → v < 10 ^ suc fuel
    → IsDigits buf
    → Extends (suc fuel) v buf (digits_loop (suc fuel) v buf)
digits_loop-Extends zero v buf h d =
    let small : v < 10 = omega arith in
    let e : (v / 10 == 0) ≡ true = ground arith in
    rw (digits_last zero v buf e) (last-Extends zero v buf small d)
digits_loop-Extends (suc fuel) v buf h d = elim (Bool-cases (v / 10 == 0)) [
  | inl e ↦
      let small : v < 10 = omega (arith, (==_iff (v / 10) 0).0 e) in
      rw (digits_last (suc fuel) v buf e) (last-Extends (suc fuel) v buf small d)
  | inr e ↦
      let buf1 : List ℕ = (48 + v % 10) ∷ buf in
      let ih =
        digits_loop-Extends fuel (v / 10) buf1 (omega (arith, pow-suc 10 (suc fuel)))
          ((omega arith, omega arith), d) in
      let big : v / 10 ≢ 0 = ground arith in
      rw (digits_more (suc fuel) v buf e) (record {
        digits = ih.digits;
        value = ih.value ∙ ap (λ a. decimal a buf) (omega arith);
        leads = elim ih.leads [ inl (z, q) ↦ absurd (big z) | inr (z, q) ↦ inr (ground arith, q) ];
        short = omega (arith, ih.short);
      })
]

-- The digits of `ll2string` are the numeral of the magnitude, and fit its buffer.
pub digits_loop-Numeral :
    (v : ℕ) → v < 10 ^ 20 → Numeral v (digits_loop 20 v []) × (length (digits_loop 20 v []) ≤ 20)
digits_loop-Numeral v h =
    let e = digits_loop-Extends 19 v [] h tt in
    (
      record {
        digits = e.digits;
        value = e.value;
        leads = elim e.leads [ inl (z, q) ↦ inl q | inr (z, q) ↦ inr q ];
      },
      omega (arith, e.short),
    )
