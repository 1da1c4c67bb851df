-- ===== src/Util/Canonical.antt =====
-- ll2string prints numerals, and isStringRepresentableAsLongLong accepts its prints and no other string.
use libredis_a.Common.{
  ℕ, zero, suc, ◌+◌, ◌⊎◌, ◌-◌, ◌^◌, ◌≤◌, ◌<◌, ◌≡◌, refl, sym, ap, ap₂, ◌∙◌, ◌↔◌, inl, inr, true,
  false, ◌||◌, not, subst, none, some, List, [], ◌∷◌, arith, length, ltb, ◌==◌, if◌then◌else◌,
  Bool-cases, Option-cases, ==_iff,
}
use mathlib.Core.Option.{some-injective}
use libredis_a.Common.Int.{ℤ, pos, negsuc, ltb_ℤ}
use libredis_a.Common.Bytes.{Fits}
use libredis_a.Util.{
  digits_loop, text, copy, ll2string, same_bytes, at_nul, string_as_long_long, long_of,
  string_as_long,
}
use libredis_a.Util.Decimal.{Numeral, digits_loop-Numeral}

-- The string is the integer in decimal, with a minus sign before a negative one.
abbrev pub Prints : ℤ → List ℕ → Type 0
Prints (pos n) s = Numeral n s
Prints (negsuc n) s = (ds : List ℕ) × (s ≡ 45 ∷ ds) × Numeral (n + 1) ds

text_pos : (n : ℕ) → text (pos n) ≡ digits_loop 20 n []
unfolding text
text_pos n = let e : ltb (n + 0) 0 ≡ false = ground arith in rw e refl

text_negsuc : (n : ℕ) → text (negsuc n) ≡ 45 ∷ digits_loop 20 (n + 1) []
unfolding text
text_negsuc n = let e : ltb 0 (0 + suc n) ≡ true = ground arith in rw e refl

text-Prints : (v : ℤ) → Fits 8 v → Prints v (text v) × (length (text v) ≤ 21)
unfolding text
text-Prints (pos n) h =
    let (e, s) = digits_loop-Numeral n (omega arith) in rw (text_pos n) (e, omega (arith, s))
text-Prints (negsuc n) h =
    let (e, s) = digits_loop-Numeral (n + 1) (omega arith) in
    rw (text_negsuc n) ((digits_loop 20 (n + 1) [], refl, e), omega (arith, s))

copy_all : (s : List ℕ) → copy (length s) s ≡ s
unfolding copy
copy_all [] = refl
copy_all (c ∷ s) = ap (λ t. c ∷ t) (copy_all s)

length-copy : (n : ℕ) (s : List ℕ) → n ≤ length s → length (copy n s) ≡ n
unfolding copy
length-copy zero s h = refl
length-copy (suc n) [] h = omega (arith, h)
length-copy (suc n) (c ∷ s) h = ap suc (length-copy n s (omega (arith, h)))

ll2string_room :
    (len : ℕ) (v : ℤ) → length (text v) < len → ll2string len v ≡ (text v, length (text v))
unfolding ll2string
ll2string_room len v h =
    let z : (len == 0) ≡ false = ground arith in
    let e : ltb len (length (text v) + 1) ≡ false = ground arith in
    rw (z, e) (ap (λ s. (s, length (text v))) (copy_all (text v)))

ll2string_cut :
    (len : ℕ) (v : ℤ)
    → 0 < len
    → len ≤ length (text v)
    → ll2string len v ≡ (copy (len - 1) (text v), len - 1)
unfolding ll2string
ll2string_cut len v p h =
    let z : (len == 0) ≡ false = ground arith in
    let e : ltb len (length (text v) + 1) ≡ true = ground arith in rw (z, e) refl

-- ll2string prints a long long in decimal without leading zeros, or the buffer has less than 22
-- bytes; in any buffer that is not empty it writes less than the buffer holds and returns how
-- much.
pub ll2string_lem :
    (len : ℕ) (v : ℤ)
    → Fits 8 v
    → 0 < len
    → (Prints v (ll2string len v).0 ⊎ (len < 22))
      × ((ll2string len v).1 < len)
      × (length (ll2string len v).0 ≡ (ll2string len v).1)
ll2string_lem len v h p =
    let (prints, short) = text-Prints v h in
    elim (Bool-cases (ltb (length (text v)) len)) [
      | inl e ↦ rw (ll2string_room len v (ground arith)) (inl prints, ground arith, refl)
      | inr e ↦ rw (ll2string_cut len v p (ground arith)) (
        inr (ground (arith, short)),
        omega (arith, p),
        length-copy (len - 1) (text v) (ground arith),
      )
    ]

pub same_bytes_self : (s : List ℕ) → same_bytes s s ≡ true
unfolding same_bytes
same_bytes_self [] = refl
same_bytes_self (c ∷ s) = rw ((==_iff c c).1 refl, same_bytes_self s) refl

pub same_bytes_eq : (s t : List ℕ) → same_bytes s t ≡ true → s ≡ t
unfolding same_bytes
same_bytes_eq [] [] h = refl
same_bytes_eq [] (c ∷ t) h = absurd (cc)
same_bytes_eq (c ∷ s) [] h = absurd (cc)
same_bytes_eq (c ∷ s) (b ∷ t) h = elim (Bool-cases (c == b)) [
  | inl e ↦ ap₂ (λ x y. x ∷ y) ((==_iff c b).0 e) (same_bytes_eq s t (rw e at h))
  | inr e ↦ absurd (cc (rw e at h))
]

in_long : (v : ℤ) → Fits 8 v → (ltb_ℤ v (negsuc (2 ^ 63 - 1)) || ltb_ℤ (pos (2 ^ 63 - 1)) v) ≡ false
in_long (pos n) h = ground arith
in_long (negsuc n) h = ground arith

-- What the C library says of strtoll: its value is a long long, and it reads a whole print.
pub record IsStrtoll (strtoll : List ℕ → ℤ × List ℕ) : Type 0 where
  pub in_range : (s : List ℕ) → Fits 8 (strtoll s).0
  pub reads : (v : ℤ) (s : List ℕ) → Fits 8 v → Prints v s → strtoll s ≡ (v, [])

module _ (strtoll : List ℕ → ℤ × List ℕ) (library : IsStrtoll strtoll) (s : List ℕ) where
  abbrev read : ℤ
  read = (strtoll s).0

  printed : ll2string 32 read ≡ (text read, length (text read))
  printed = ll2string_room 32 read (omega (arith, (text-Prints read (library.in_range s)).1))

  -- The answer, with the print of what strtoll read.
  answer_lem : string_as_long_long strtoll s ≡ (
      if not (at_nul (strtoll s).1)
      then none
      else if not (length s == length (text read)) || not (same_bytes (text read) s)
      then none
      else some read)
  unfolding string_as_long_long
  answer_lem = rw printed refl

  accepted : (v : ℤ) → string_as_long_long strtoll s ≡ some v → Fits 8 v × (text v ≡ s)
  accepted v h =
      let h' = sym answer_lem ∙ h in
      elim (Bool-cases (at_nul (strtoll s).1)) [
        | inr e ↦ absurd (cc (rw e at h'))
        | inl e ↦ elim (Bool-cases (length s == length (text read))) [
          | inr f ↦ absurd (cc (rw (e, f) at h'))
          | inl f ↦ elim (Bool-cases (same_bytes (text read) s)) [
            | inr g ↦ absurd (cc (rw (e, f, g) at h'))
            | inl g ↦
                let same : read ≡ v = some-injective _ _ (rw (e, f, g) at h') in
                (subst (Fits 8) same (library.in_range s), ap text (sym same) ∙ same_bytes_eq _ _ g)
          ]
        ]
      ]

  accepts : (v : ℤ) → Fits 8 v → text v ≡ s → string_as_long_long strtoll s ≡ some v
  accepts v w e =
      let r = library.reads v s w (subst (Prints v) e (text-Prints v w).0) in
      let at_v : read ≡ v = ap (λ (x : ℤ × List ℕ). x.0) r in
      let nul : at_nul (strtoll s).1 ≡ true = ap (λ (x : ℤ × List ℕ). at_nul x.1) r in
      let same : text read ≡ s = ap text at_v ∙ e in
      let f : (length s == length (text read)) ≡ true = (==_iff _ _).1 (ap length (sym same)) in
      let g : same_bytes (text read) s ≡ true = ap (λ t. same_bytes t s) same ∙ same_bytes_self s in
      answer_lem ∙ rw (nul, f, g) (ap some at_v)

  -- With a strtoll whose values are long longs and which reads decimal numerals to their end,
  -- isStringRepresentableAsLongLong succeeds with an integer exactly on the string that ll2string
  -- prints for it in 32 bytes, and isStringRepresentableAsLong gives the same answer.
  pub string_as_long_lem :
      ((v : ℤ) → (string_as_long_long strtoll s ≡ some v) ↔ (Fits 8 v × ((ll2string 32 v).0 ≡ s)))
      × (string_as_long strtoll s ≡ string_as_long_long strtoll s)
  string_as_long_lem = ((λ v. (to v, λ h. accepts v (h.0) (sym (print v (h.0)) ∙ h.1))), narrow)
    where
      print : (v : ℤ) → Fits 8 v → (ll2string 32 v).0 ≡ text v
      print v w =
          ap (λ (x : List ℕ × ℕ). x.0) (ll2string_room 32 v (omega (arith, (text-Prints v w).1)))

      to : (v : ℤ) → string_as_long_long strtoll s ≡ some v → Fits 8 v × ((ll2string 32 v).0 ≡ s)
      to v h = let (w, e) = accepted v h in (w, print v w ∙ e)

      narrow : string_as_long strtoll s ≡ string_as_long_long strtoll s
      narrow = elim (Option-cases (string_as_long_long strtoll s)) [
        | inl n ↦ unfold string_as_long long_of in (ap long_of n ∙ sym n)
        | inr (v, n) ↦
            unfold string_as_long long_of in
            (ap long_of n ∙ (rw (in_long v ((accepted v n).0)) refl) ∙ sym n)
      ]
