-- ===== src/IntSet/Splice.antt =====
-- The abstract view of an IntSet, its elements, and what an insertion or a removal at a position
-- does to order and membership, whatever code performs it.
use libredis_a.Common.{
  ℕ, ◌+◌, ◌-◌, ◌*◌, ◌≤◌, ◌<◌, ◌≡◌, ◌≢◌, sym, ap, ◌∙◌, ◌⊎◌, ◌↔◌, inl, inr, false, arith,
}
use libredis_a.Common.Int.{ℤ, ◌<ℤ◌, parts_of_eq}
use mathlib.Core.Logic.{ite, if_pos, if_neg}
use native.Mathlib.Decide.{dec_lt, ℕ_discrete}
use libredis_a.IntSet.{IntSet, get}
use libredis_a.IntSet.Values.{IsEncoding, max_length}
use libredis_a.IntSet.Search.{IsAscending, Answers}

pub record IsValid (is : IntSet) : Type 0 where
  pub encoded : IsEncoding is.encoding
  pub sized : is.size ≡ is.length * is.encoding
  pub short : is.length < max_length
  pub ascending : IsAscending is

abbrev pub Member : IntSet → ℤ → Type 0
Member is x = (i : ℕ) × (i < is.length) × (get is i ≡ x)

pub record InsertedAt (is : IntSet) (v : ℤ) (p : ℕ) (t : IntSet) : Type 0 where
  pub longer : t.length ≡ is.length + 1
  pub inside : p ≤ is.length
  pub before : (i : ℕ) → i < p → get t i ≡ get is i
  pub placed : get t p ≡ v
  pub after : (i : ℕ) → p ≤ i → i < is.length → get t (i + 1) ≡ get is i

pub record RemovedAt (is : IntSet) (p : ℕ) (t : IntSet) : Type 0 where
  pub shorter : t.length + 1 ≡ is.length
  pub inside : p < is.length
  pub before : (i : ℕ) → i < p → get t i ≡ get is i
  pub after : (i : ℕ) → p ≤ i → i < t.length → get t i ≡ get is (i + 1)

lt_of_eq : (a b c d : ℤ) → a ≡ c → b ≡ d → c <ℤ d → a <ℤ b
lt_of_eq a b c d p q h = omega (arith, parts_of_eq a c p, parts_of_eq b d q)

-- Elements at different indices of an ascending set differ.
pub distinct :
    (is : IntSet)
    → IsAscending is
    → (i j : ℕ) → i < is.length
    → j < is.length
    → i ≢ j
    → get is i ≢ get is j
distinct is asc i j a b n e = grind (arith, asc i j, asc j i, parts_of_eq (get is i) (get is j) e)

module _ (is t : IntSet) (v : ℤ) (p : ℕ) (ins : InsertedAt is v p t) where
  -- Where the element at index `j` comes from.
  data Source (j : ℕ) : Type 0 where
    old_before : j < p → get t j ≡ get is j → Source j
    new : j ≡ p → get t j ≡ v → Source j
    old_after : (k : ℕ) → j ≡ k + 1 → p ≤ k → k < is.length → get t j ≡ get is k → Source j

  source : (j : ℕ) → j < t.length → Source j
  source j h = elim (dec_lt j p) [
    | yes q ↦ old_before q (ins.before j q)
    | no q ↦ elim (ℕ_discrete j p) [
      | yes e ↦ new e (rw e ins.placed)
      | no n ↦
          let e : j ≡ j - 1 + 1 = omega arith in
          old_after (j - 1) e (omega arith) (omega (arith, ins.longer))
            (ap (get t) e ∙ ins.after (j - 1) (omega arith) (omega (arith, ins.longer)))
    ]
  ]

  -- An insertion at the position that `search` reports keeps the set ascending.
  pub InsertedAt-IsAscending : IsAscending is → Answers is v (false, p) → IsAscending t
  InsertedAt-IsAscending asc split i j h k = ordered (source i (omega arith)) (source j k)
    where
      ordered : Source i → Source j → get t i <ℤ get t j
      ordered (old_before a e) (old_before b f) =
          lt_of_eq _ _ _ _ e f (asc i j h (omega (arith, ins.inside)))
      ordered (old_before a e) (new b f) = lt_of_eq _ _ _ _ e f (split.1 i a)
      ordered (old_before a e) (old_after n d b c f) =
          lt_of_eq _ _ _ _ e f (asc i n (omega arith) c)
      ordered (new a e) (old_before b f) = absurd (omega arith)
      ordered (new a e) (new b f) = absurd (omega arith)
      ordered (new a e) (old_after n d b c f) = lt_of_eq _ _ _ _ e f (split.2 n b c)
      ordered (old_after m d a c e) (old_before b f) = absurd (omega arith)
      ordered (old_after m d a c e) (new b f) = absurd (omega arith)
      ordered (old_after m d a c e) (old_after n d' b c' f) =
          lt_of_eq _ _ _ _ e f (asc m n (omega arith) c')

  pub Member-InsertedAt : (x : ℤ) → Member t x ↔ ((x ≡ v) ⊎ Member is x)
  Member-InsertedAt x = (from, to)
    where
      came : (j : ℕ) → get t j ≡ x → Source j → (x ≡ v) ⊎ Member is x
      came j e (old_before q f) = inr (j, omega (arith, ins.inside), sym f ∙ e)
      came j e (new q f) = inl (sym e ∙ f)
      came j e (old_after k q a b f) = inr (k, b, sym f ∙ e)

      from : Member t x → (x ≡ v) ⊎ Member is x
      from (j, h, e) = came j e (source j h)

      to : (x ≡ v) ⊎ Member is x → Member t x
      to (inl e) = (p, omega (arith, ins.longer, ins.inside), ins.placed ∙ sym e)
      to (inr (i, h, e)) = elim (dec_lt i p) [
        | yes q ↦ (i, omega (arith, ins.longer), ins.before i q ∙ e)
        | no q ↦ (i + 1, omega (arith, ins.longer), ins.after i (omega arith) h ∙ e)
      ]

module _ (is t : IntSet) (p : ℕ) (rem : RemovedAt is p t) where
  -- The index in the old set of the element at `j` in the new one.
  origin : ℕ → ℕ
  origin j = ite (dec_lt j p) j (j + 1)

  origin_lem :
      (j : ℕ)
      → j < t.length
      → (get t j ≡ get is (origin j)) × (origin j < is.length) × (origin j ≢ p)
  unfolding origin
  origin_lem j h = elim (dec_lt j p) [
    | yes q ↦ rw (if_pos _ q) (rem.before j q, omega (arith, rem.inside), omega arith)
    | no q ↦ rw (if_neg _ q) (rem.after j (omega arith) h, omega (arith, rem.shorter), omega arith)
  ]

  origin_mono : (i j : ℕ) → i < j → origin i < origin j
  unfolding origin
  origin_mono i j h = ground arith

  pub RemovedAt-IsAscending : IsAscending is → IsAscending t
  RemovedAt-IsAscending asc i j h k =
      let (e, a, n) = origin_lem i (omega arith) in
      let (f, b, m) = origin_lem j k in
      lt_of_eq _ _ _ _ e f (asc (origin i) (origin j) (origin_mono i j h) b)

  -- On an ascending set a removal takes away one value and no other.
  pub Member-RemovedAt : IsAscending is → (x : ℤ) → Member t x ↔ ((x ≢ get is p) × Member is x)
  Member-RemovedAt asc x = (from, to)
    where
      from : Member t x → (x ≢ get is p) × Member is x
      from (j, h, e) =
          let (f, b, n) = origin_lem j h in
          (
            λ same. distinct is asc (origin j) p b rem.inside n (sym f ∙ e ∙ same),
            (origin j, b, sym f ∙ e),
          )

      to : (x ≢ get is p) × Member is x → Member t x
      to (n, (i, h, e)) = elim (dec_lt i p) [
        | yes q ↦ (i, omega (arith, rem.shorter, rem.inside), rem.before i q ∙ e)
        | no q ↦ elim (ℕ_discrete i p) [
          | yes d ↦ absurd (n (sym e ∙ ap (get is) d))
          | no d ↦
              let s : i ≡ i - 1 + 1 = omega arith in
              (
                i - 1,
                omega (arith, rem.shorter),
                rem.after (i - 1) (omega arith) (omega (arith, rem.shorter))
                    ∙ sym (ap (get is) s)
                    ∙ e,
              )
        ]
      ]
