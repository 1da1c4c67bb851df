-- ===== src/IntSet/Search.antt =====
-- `intsetSearch` on an ascending set: the binary search ends, and its answer is the position of the
-- value, or the only one where it can be inserted.
use libredis_a.Common.{
  ℕ, zero, suc, ◌+◌, ◌-◌, ◌/◌, ◌≤◌, ◌<◌, ◌≡◌, refl, ◌⊎◌, inl, inr, Bool, true, false, arith, ltb,
  ◌==◌, Bool-cases, ltb→lt, ltb→le,
}
use libredis_a.Common.Int.{ℤ, negsuc, ◌<ℤ◌, ltb_ℤ, eqb_ℤ, eq_of_parts}
use libredis_a.IntSet.{IntSet, Window, get, search_loop, search_end, search, uint32}

abbrev pub IsAscending : IntSet → Type 0
IsAscending is = (i j : ℕ) → i < j → j < is.length → get is i <ℤ get is j

-- The value stands at the position, or the position splits the set into smaller and larger values.
abbrev pub Answers : IntSet → ℤ → Bool × ℕ → Type 0
Answers is v (true, p) = (p < is.length) × (get is p ≡ v)
Answers is v (false, p) =
    (p ≤ is.length)
    × ((i : ℕ) → i < p → get is i <ℤ v)
    × ((i : ℕ) → p ≤ i → i < is.length → v <ℤ get is i)

record Inv (is : IntSet) (v : ℤ) (w : Window) : Type 0 where
  ordered : w.low ≤ w.above
  inside : w.above ≤ is.length
  below : (i : ℕ) → i < w.low → get is i <ℤ v
  beyond : (i : ℕ) → w.above ≤ i → i < is.length → v <ℤ get is i
  read : (w.low < w.above) ⊎ ((w.cur <ℤ v) ⊎ (v <ℤ w.cur))

module _ (is : IntSet) (v : ℤ) (ascending : IsAscending is) where
  module _ {w : Window} (inv : Inv is v w) (more : w.low < w.above) where
    abbrev middle : ℕ
    middle = (w.low + (w.above - 1)) / 2

    upper-Inv :
        get is middle <ℤ v
        → Inv is v (record w { low = middle + 1; mid = middle; cur = get is middle })
    upper-Inv c = record {
      ordered = omega arith;
      inside = inv.inside;
      below = λ i p. grind (arith, ascending i middle);
      beyond = inv.beyond;
      read = inr (inl c);
    }

    lower-Inv :
        v <ℤ get is middle
        → Inv is v (record w { above = middle; mid = middle; cur = get is middle })
    lower-Inv c = record {
      ordered = omega arith;
      inside = omega (arith, inv.inside);
      below = inv.below;
      beyond = λ i p q. grind (arith, ascending middle i);
      read = inr (inr c);
    }

    middle-lt : middle < is.length
    middle-lt = omega (arith, inv.inside)

  -- The two ways out: the window is empty, or the value has been read.
  ended : {w : Window} → Inv is v w → w.above ≤ w.low → Answers is v (search_end v w)
  ended {w} inv h =
      let e : eqb_ℤ v w.cur ≡ false = ground (arith, inv.read) in
      rw e
        (omega (arith, inv.ordered, inv.inside), inv.below, λ i p q. inv.beyond i (omega arith) q)

  hit :
      (w : Window)
      → w.mid < is.length
      → get is w.mid ≡ v
      → w.cur ≡ get is w.mid
      → Answers is v (search_end v w)
  hit w p q r = let e : eqb_ℤ v w.cur ≡ true = ground arith in rw e (p, q)

  start-Inv :
      0 < is.length
      → Inv is v (record { low = 0; above = is.length; mid = uint32 - 1; cur = negsuc 0 })
  start-Inv h = record {
    ordered = omega arith;
    inside = omega arith;
    below = λ i p. elim p [ ];
    beyond = λ i p q. absurd (omega arith);
    read = inl h;
  }

  search_loop-Answers :
      (fuel : ℕ) (w : Window)
      → Inv is v w
      → w.above - w.low < fuel
      → Answers is v (search_end v (search_loop fuel is v w))
  unfolding search_loop
  search_loop-Answers zero w inv h = elim h [ ]
  search_loop-Answers (suc fuel) w inv h = elim (Bool-cases (ltb w.low w.above)) [
    | inr e ↦ rw (e, search_loop) (ended inv (ltb→le _ _ e))
    | inl e ↦
        let more : w.low < w.above = ltb→lt _ _ e in
        let mid : ℕ = (w.low + (w.above - 1)) / 2 in
        rw (e, search_loop)
          (elim (Bool-cases (ltb_ℤ (get is mid) v)) [
            | inl c ↦
                rw c (search_loop-Answers fuel _ (upper-Inv inv more (ltb→lt _ _ c)) (omega arith))
            | inr c ↦ rw c (elim (Bool-cases (ltb_ℤ v (get is mid))) [
              | inl d ↦
                  rw d
                    (search_loop-Answers fuel _ (lower-Inv inv more (ltb→lt _ _ d)) (omega arith))
              | inr d ↦ rw d (
                  hit (record w { mid = mid; cur = get is mid }) (middle-lt inv more)
                    (eq_of_parts _ _ (omega (arith, ltb→le _ _ c, ltb→le _ _ d))) refl)
            ])
          ])
  ]

  -- On ascending contents intsetSearch finds a position of the value if it is there, and otherwise
  -- the position that splits the set into smaller and larger values.
  pub search-Answers : Answers is v (search is v)
  unfolding search
  search-Answers = elim (Bool-cases (is.length == 0)) [
    | inl e ↦ rw e (omega arith, λ i p. elim p [ ], λ i p q. absurd (ground arith))
    | inr e ↦ rw e (elim (Bool-cases (ltb_ℤ (get is (is.length - 1)) v)) [
      | inl c ↦ rw c (
        omega arith,
        λ i p. grind (arith, ascending i (is.length - 1)),
        λ i p q. absurd (omega arith),
      )
      | inr c ↦ rw c (elim (Bool-cases (ltb_ℤ v (get is 0))) [
        | inl d ↦ rw d (omega arith, λ i p. elim p [ ], λ i p q. grind (arith, ascending 0 i))
        | inr d ↦
            rw d (search_loop-Answers (is.length + 1) _ (start-Inv (ground arith)) (omega arith))
      ])
    ])
  ]
