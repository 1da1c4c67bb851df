-- ===== src/Util/Strtoll.antt =====
-- A strtoll, for the runs and the examples.
use libredis_a.Common.{
  ℕ, ◌+◌, ◌-◌, ◌*◌, ◌^◌, if◌then◌else◌, ltb, ◌==◌, Bool-cases, ◌<◌, ◌≡◌, refl, ap, ◌∙◌, inl, inr,
  true, false, List, [], ◌∷◌, arith,
}
use libredis_a.Common.Int.{ℤ, pos, negsuc}
use libredis_a.Common.Bytes.{Fits}
use libredis_a.Util.Canonical.{Prints, IsStrtoll}
use libredis_a.Util.Decimal.{decimal}

abbrev clamp : ℕ → ℕ
clamp n = if ltb n (2 ^ 63) then n else 2 ^ 63 - 1

-- A strtoll for strings of digits with a sign, which saturates like the C library's.
abbrev pub strtoll : List ℕ → ℤ × List ℕ
strtoll [] = (pos 0, [])
strtoll (c ∷ s) =
    if c == 45
    then (if decimal 0 s == 0 then (pos 0, []) else (negsuc (clamp (decimal 0 s - 1)), []))
    else (pos (clamp (decimal 0 (c ∷ s))), [])

clamp-lt : (n : ℕ) → 2 * clamp n < 256 ^ 8
clamp-lt n = elim (Bool-cases (ltb n (2 ^ 63))) [
  | inl e ↦ rw e (ground arith)
  | inr e ↦ rw e (omega arith)
]

clamp_id : (n : ℕ) → 2 * n < 256 ^ 8 → clamp n ≡ n
clamp_id n h = let e : ltb n (2 ^ 63) ≡ true = ground arith in rw e refl

strtoll_range : (s : List ℕ) → Fits 8 (strtoll s).0
strtoll_range [] = omega arith
strtoll_range (c ∷ s) = elim (Bool-cases (c == 45)) [
  | inl e ↦ rw e (elim (Bool-cases (decimal 0 s == 0)) [
    | inl z ↦ rw z (omega arith)
    | inr z ↦ rw z (clamp-lt (decimal 0 s - 1))
  ])
  | inr e ↦ rw e (clamp-lt (decimal 0 (c ∷ s)))
]

strtoll_negative :
    (n : ℕ) (ds : List ℕ)
    → 2 * n < 256 ^ 8
    → decimal 0 ds ≡ n + 1
    → strtoll (45 ∷ ds) ≡ (negsuc n, [])
strtoll_negative n ds h e =
    let z : (decimal 0 ds == 0) ≡ false = ground arith in
    let less : decimal 0 ds - 1 ≡ n = omega (arith, e) in
    rw z (ap (λ x. (negsuc x, [])) (ap clamp less ∙ clamp_id n h))

strtoll_reads : (v : ℤ) (s : List ℕ) → Fits 8 v → Prints v s → strtoll s ≡ (v, [])
strtoll_reads (pos n) [] h p = elim p.leads [ inl e ↦ absurd (cc) | inr e ↦ absurd e ]
strtoll_reads (pos n) (c ∷ s) h p =
    let ((lo, hi), ds) = p.digits in
    let digit : (c == 45) ≡ false = ground arith in
    rw digit (ap (λ x. (pos x, [])) (ap clamp p.value ∙ clamp_id n h))
strtoll_reads (negsuc n) s h (ds, e, p) = ap strtoll e ∙ strtoll_negative n ds h p.value

pub strtoll-IsStrtoll : IsStrtoll strtoll
strtoll-IsStrtoll = record { in_range = strtoll_range; reads = strtoll_reads }
