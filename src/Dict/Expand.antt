-- ===== src/Dict/Expand.antt =====
-- `_dictNextPower`, `dictExpand`, `_dictExpandIfNeeded` and `dictResize`: a dictionary gets room, and
-- keeps its entries.
use libredis_a.Common.{
  ℕ, zero, suc, ◌+◌, ◌-◌, ◌*◌, ◌^◌, ◌%◌, ◌/◌, ◌≤◌, ◌<◌, ◌≡◌, refl, sym, ap, subst, ◌∙◌, ◌⊎◌, inl,
  inr, Bool, true, false, ◌&&◌, ◌||◌, not, [], none, some, arith, ltb, leb, ◌==◌, if◌then◌else◌,
  Bool-cases, Option-cases, ==_iff,
}
use native.Mathlib.Nat.{pow-suc}
use native.Mathlib.Numerals.{towards_suc}
use libredis_a.Dict.{
  DictType, Ht, Dict, find_in, index, dict_size, is_rehashing, expand, resize, expand_if_needed,
  next_power, next_power_loop, long_max, ulong, initial_size, force_resize_ratio,
}
use libredis_a.Dict.Chains.{count_in}
use libredis_a.Dict.Tables.{HtValid, total_zero}
use libredis_a.Dict.Valid.{Phase, Valid, Keeps, Keeps-refl}
use libredis_a.Dict.Rehash.{or_else-none}
use libredis_a.Dict.Find.{idle_empty, idle_used, bare_lookup, bare_used, idle_lookup, idle_of}

-- What the doubling loop returns: the start doubled some times, big enough, and no more than that.
record Doubled (i size r : ℕ) : Type 0 where
  times : ℕ
  power : r ≡ i * 2 ^ times
  enough : size ≤ r
  least : (r ≡ i) ⊎ (r < 2 * size)

next_power_loop-Doubled :
    (fuel i size : ℕ)
    → size ≤ i * 2 ^ fuel
    → size < long_max
    → 0 < i
    → Doubled i size (next_power_loop fuel i size)
unfolding next_power_loop
next_power_loop-Doubled zero i size h s p = record {
  times = 0;
  power = omega arith;
  enough = omega arith;
  least = inl refl;
}
next_power_loop-Doubled (suc fuel) i size h s p = elim (Bool-cases (leb size i)) [
  | inl e ↦
      rw e (record { times = 0; power = omega arith; enough = ground arith; least = inl refl })
  | inr e ↦ rw e (
      let small : i < size = ground arith in
      let w : i * 2 % ulong ≡ i * 2 = omega arith in
      let ih =
        next_power_loop-Doubled fuel (i * 2) size
          (omega (arith, h, ap (λ (t : ℕ). i * t) (pow-suc 2 fuel))) s (omega arith) in
      rw w (record {
        times = suc ih.times;
        power = omega (arith, ih.power, ap (λ (t : ℕ). i * t) (pow-suc 2 ih.times));
        enough = ih.enough;
        least = inr (omega (arith, ih.least));
      }))
]

four_pow : (k : ℕ) → 2 ^ (k + 2) ≡ 4 * 2 ^ k
four_pow k = simp towards_suc (omega arith)

-- For a size below LONG_MAX, _dictNextPower is a power of two, at least the size, and less than
-- twice the size unless it is the initial size.
pub next_power_lem :
    (size : ℕ)
    → size < long_max
    → (size ≤ next_power size)
      × ((k : ℕ) × (next_power size ≡ 2 ^ (k + 2)))
      × ((next_power size ≡ initial_size) ⊎ (next_power size < 2 * size))
unfolding next_power
next_power_lem size h =
    let e : leb long_max size ≡ false = ground arith in
    let d = next_power_loop-Doubled 64 initial_size size (omega arith) h (omega arith) in
    rw e (d.enough, (d.times, omega (arith, d.power, four_pow d.times)), d.least)

pub next_power_pos : (size : ℕ) → 0 < next_power size
unfolding next_power
next_power_pos size = elim (Bool-cases (leb long_max size)) [
  | inl e ↦ rw e (omega arith)
  | inr e ↦
      let d =
        next_power_loop-Doubled 64 initial_size size (ground arith) (ground arith) (omega arith) in
      rw e (omega (arith, d.least, d.enough))
]

or_false : (a b : Bool) → (a || b) ≡ false → a ≡ false
or_false true b h = h
or_false false b h = refl

module _ {ℓ κ} {K : Type ℓ} {V : Type κ} (type : DictType K) where
  abbrev fresh : ℕ → Ht K V
  fresh n = record { table = λ i. []; size = next_power n; sizemask = next_power n - 1; used = 0 }

  fresh-HtValid : (n : ℕ) → HtValid type (fresh n)
  fresh-HtValid n = record {
    masked = inr (omega (arith, next_power_pos n));
    beyond = λ i h. refl;
    placed = λ i. tt;
    counted = sym (total_zero (next_power n) (λ i. []) (λ i h. refl));
  }

  module _ (d : Dict K V) (valid : Valid type d) (idle : d.rehashidx ≡ none) (n : ℕ) where
    -- The two ways in which `dictExpand` succeeds.
    first-Keeps : d.ht0.size ≡ 0 → Keeps type d (record d { ht0 = fresh n })
    unfolding count_in find_in dict_size
    first-Keeps z = record {
      valid = record {
        valid0 = fresh-HtValid n;
        valid1 = valid.valid1;
        unique = λ q. omega (arith, valid.unique q);
        phase =
            subst (λ o. Phase type o (fresh n) d.ht1) (sym idle)
              (subst (λ o. Phase type o d.ht0 d.ht1) idle valid.phase);
      };
      same = λ q.
          ap (find_in type q) (idle_empty type d valid idle (index type d.ht1 q))
          ∙ sym (bare_lookup type d valid z q);
      sized = omega (arith, bare_used type d valid z);
    }

    second-Keeps : 0 < d.ht0.size → Keeps type d (record d { ht1 = fresh n; rehashidx = some 0 })
    unfolding count_in find_in dict_size
    second-Keeps p = record {
      valid = record {
        valid0 = valid.valid0;
        valid1 = fresh-HtValid n;
        unique = λ q. omega (arith, valid.unique q);
        phase = (p, next_power_pos n, λ i h. elim h [ ]);
      };
      same = λ q. or_else-none _ ∙ sym (idle_lookup type d valid idle q);
      sized = omega (arith, idle_used type d valid idle);
    }

  idle_test : (d : Dict K V) → d.rehashidx ≡ none → is_rehashing d ≡ false
  idle_test d e = rw e refl

  -- dictExpand keeps a dictionary well formed, its size and the entry found under each key.
  pub expand-Keeps : (d : Dict K V) (n : ℕ) → Valid type d → Keeps type d (expand d n).0
  unfolding expand
  expand-Keeps d n valid = elim (Bool-cases (is_rehashing d || ltb n d.ht0.used)) [
    | inl e ↦ rw e (Keeps-refl type d valid)
    | inr e ↦
        let idle : d.rehashidx ≡ none = idle_of type d valid (or_false _ _ e) in
        elim (Bool-cases (d.ht0.size == 0)) [
          | inl z ↦ rw (e, z) (first-Keeps d valid idle n ((==_iff _ _).0 z))
          | inr z ↦ rw (e, z) (second-Keeps d valid idle n (ground arith))
        ]
  ]

  pub expand_succeeds :
      (d : Dict K V) (n : ℕ)
      → d.rehashidx ≡ none
      → d.ht0.used ≤ n
      → ((expand d n).1 ≡ true) × (0 < (expand d n).0.ht0.size)
  unfolding expand
  expand_succeeds d n idle h =
      let e : (is_rehashing d || ltb n d.ht0.used) ≡ false = ground arith in
      elim (Bool-cases (d.ht0.size == 0)) [
        | inl z ↦ rw (e, z) (refl, next_power_pos n)
        | inr z ↦ rw (e, z) (refl, ground arith)
      ]

  -- `dictResize` keeps every entry.
  pub resize-Keeps :
      (can_resize : Bool) (d : Dict K V) → Valid type d → Keeps type d (resize type can_resize d).0
  unfolding resize
  resize-Keeps can_resize d valid = elim (Bool-cases (not can_resize || is_rehashing d)) [
    | inl e ↦ rw e (Keeps-refl type d valid)
    | inr e ↦ rw e (expand-Keeps d _ valid)
  ]

  -- After `_dictExpandIfNeeded` there is a table, and it never fails.
  pub expand_if_needed_lem :
      (can_resize : Bool) (d : Dict K V)
      → Valid type d
      → Keeps type d (expand_if_needed type can_resize d).0
        × ((expand_if_needed type can_resize d).1 ≡ true)
        × (0 < (expand_if_needed type can_resize d).0.ht0.size)
  unfolding expand_if_needed
  expand_if_needed_lem can_resize d valid = elim (Option-cases d.rehashidx) [
    | inr (r, e) ↦
        let busy : is_rehashing d ≡ true = rw e refl in
        let p : Phase type (some r) d.ht0 d.ht1 =
          subst (λ o. Phase type o d.ht0 d.ht1) e valid.phase in
        rw busy (Keeps-refl type d valid, refl, p.0)
    | inl e ↦ elim (Bool-cases (d.ht0.size == 0)) [
      | inl z ↦
          let (a, b) =
            expand_succeeds d initial_size e
              (omega (arith, bare_used type d valid ((==_iff _ _).0 z))) in
          rw (idle_test d e, z) (expand-Keeps d initial_size valid, a, b)
      | inr z ↦
          elim (Bool-cases (
            leb d.ht0.size d.ht0.used
            && (can_resize || ltb force_resize_ratio (d.ht0.used / d.ht0.size)))) [
              | inl f ↦
                  let n : ℕ = (if ltb d.ht0.used d.ht0.size then d.ht0.size else d.ht0.used) * 2 in
                  let (a, b) = expand_succeeds d n e (ground arith) in
                  rw (idle_test d e, z, f) (expand-Keeps d n valid, a, b)
              | inr f ↦ rw (idle_test d e, z, f) (Keeps-refl type d valid, refl, ground arith)
            ]
    ]
  ]
