-- ===== src/Dict/Rehash.antt =====
-- `dictRehash` and the step that every operation begins with: entries move, and the map stays.
use libredis_a.Common.{
  ℕ, zero, suc, ◌+◌, ◌-◌, ◌≤◌, ◌<◌, ◌≡◌, ◌≢◌, refl, sym, ap, subst, ◌∙◌, inl, inr, true, false,
  ◌&&◌, List, [], ◌∷◌, Option, none, some, arith, length, ◌==◌, Bool-cases, Option-cases,
  List-cases, All, ==_iff,
}
use native.Mathlib.Decide.{ℕ_discrete, dec_lt}
use libredis_a.Dict.{
  DictType, Ht, Dict, find_in, index, move_chain, dict_size, reset_ht, scan, rehash_bucket, rehash,
  rehash_step, is_rehashing,
}
use libredis_a.Dict.Chains.{count_in, count_in-zero}
use libredis_a.Dict.Tables.{
  HtValid, chain, total, length-le-total, index_cong, replace_chain, replace_chain-HtValid,
}
use libredis_a.Dict.Valid.{
  or_else, Phase, Valid, lookup, Keeps, Keeps-refl, Keeps-trans, Moved, move_chain-Moved,
}

module _ {ℓ} {A : Type ℓ} where
  -- A table that counts entries has a bucket with one.
  occupied : (n : ℕ) (t : ℕ → List A) → 0 < total n t → (m : ℕ) × (m < n) × (0 < length (t m))
  unfolding total
  occupied zero t h = elim h [ ]
  occupied (suc n) t h = elim (ℕ_discrete (length (t n)) 0) [
    | yes e ↦ let (m, lt, ne) = occupied n t (omega arith) in (m, omega arith, ne)
    | no e ↦ (n, omega arith, omega arith)
  ]

pub or_else-none {ℓ} : {A : Type ℓ} (o : Option A) → or_else o none ≡ o
or_else-none none = refl
or_else-none (some x) = refl

module _ {ℓ κ} {K : Type ℓ} {V : Type κ} (type : DictType K) where
  -- The scan stops at the first occupied bucket.
  scan_lem :
      (fuel : ℕ) (t : ℕ → List (K × V)) (i m : ℕ)
      → i ≤ m
      → m < i + fuel
      → 0 < length (t m)
      → ((j : ℕ) → j < i → t j ≡ [])
      → (scan fuel t i ≤ m)
        × (0 < length (t (scan fuel t i)))
        × ((j : ℕ) → j < scan fuel t i → t j ≡ [])
  unfolding scan
  scan_lem zero t i m p q ne e = absurd (omega arith)
  scan_lem (suc fuel) t i m p q ne e = elim (List-cases (t i)) [
    | inl z ↦ rw (z, scan) (scan_lem fuel t (i + 1) m (next z) (omega arith) ne (cleared z))
    | inr (x, xs, z) ↦ rw (z, scan) (p, rw z (omega arith), e)
  ]
    where
      cleared : t i ≡ [] → (j : ℕ) → j < i + 1 → t j ≡ []
      cleared z j h = elim (ℕ_discrete j i) [ yes s ↦ rw s z | no n ↦ e j (omega arith) ]

      next : t i ≡ [] → i + 1 ≤ m
      next z = elim (ℕ_discrete i m) [
        | yes s ↦ absurd (omega (arith, ap length (ap t (sym s) ∙ z)))
        | no n ↦ omega arith
      ]

  count_misplaced :
      (h : Ht K V) (q : K) (at : ℕ) (es : List (K × V))
      → All (λ e. index type h (e.0) ≡ at) es
      → index type h q ≢ at
      → count_in type q es ≡ 0
  unfolding count_in
  count_misplaced h q at [] p n = refl
  count_misplaced h q at ((k, v) ∷ es) (p, ps) n = elim (Bool-cases (type.key_compare q k)) [
    | inl c ↦ absurd (n (index_cong type h q k c ∙ p))
    | inr c ↦ rw c (count_misplaced h q at es ps n)
  ]

  module _ (d : Dict K V) (r : ℕ) (valid : Valid type d) (phase : Phase type (some r) d.ht0 d.ht1)
      (left : 0 < d.ht0.used) where
    abbrev at : ℕ
    at = scan d.ht0.size d.ht0.table r

    abbrev bucket : List (K × V)
    bucket = d.ht0.table at

    abbrev old : Ht K V
    old = replace_chain type d.ht0 at [] (d.ht0.used - length bucket)

    abbrev new : Ht K V
    new = move_chain type bucket d.ht1

    scanned : (at < d.ht0.size) × (0 < length bucket) × ((j : ℕ) → j < at → d.ht0.table j ≡ [])
    scanned =
        let (m, lt, ne) = occupied d.ht0.size d.ht0.table (omega (arith, valid.valid0.counted)) in
        let later : r ≤ m = elim (dec_lt m r) [
          | yes q ↦ absurd (omega (arith, ap length (phase.2 m q)))
          | no q ↦ omega arith
        ] in
        let (a, b, c) = scan_lem d.ht0.size d.ht0.table r m later (omega arith) ne phase.2 in
        (omega arith, b, c)

    moved : Moved type bucket d.ht1 new
    moved = move_chain-Moved type bucket d.ht1 valid.valid1 phase.1

    bucket-le : length bucket ≤ d.ht0.used
    bucket-le =
        omega (arith, length-le-total d.ht0.size d.ht0.table at scanned.0, valid.valid0.counted)

    -- Where a key that belongs to the moved bucket, or to another, is found and counted.
    old_here : (q : K) → index type d.ht0 q ≡ at → chain type old q ≡ []
    old_here q e = rw (e, (==_iff at at).1 refl) refl

    old_elsewhere : (q : K) → index type d.ht0 q ≢ at → chain type old q ≡ chain type d.ht0 q
    old_elsewhere q n = let e : (at == index type d.ht0 q) ≡ false = ground arith in rw e

    bucket_count : (q : K) → index type d.ht0 q ≢ at → count_in type q bucket ≡ 0
    bucket_count q n = count_misplaced d.ht0 q at bucket (valid.valid0.placed at) n

    here_count :
        (q : K)
        → index type d.ht0 q ≡ at
        → count_in type q (chain type d.ht0 q) ≡ count_in type q bucket
    here_count q e = ap (λ i. count_in type q (d.ht0.table i)) e

    empty_count : (q : K) → count_in {V = V} type q [] ≡ 0
    unfolding count_in
    empty_count q = refl

    empty_find : (q : K) (o : Option (K × V)) → or_else (find_in type q []) o ≡ o
    unfolding find_in
    empty_find q o = refl

    -- Every key is counted as often as before, and found where it was or in the new table.
    moved_count :
        (q : K)
        → count_in type q (chain type old q) + count_in type q (chain type new q)
          ≡ count_in type q (chain type d.ht0 q) + count_in type q (chain type d.ht1 q)
    moved_count q = elim (ℕ_discrete (index type d.ht0 q) at) [
      | yes e ↦
          omega (
            arith,
            moved.count q,
            ap (count_in type q) (old_here q e),
            here_count q e,
            empty_count q,
          )
      | no n ↦ rw (old_elsewhere q n) (omega (arith, moved.count q, bucket_count q n))
    ]

    moved_lookup :
        (q : K)
        → or_else (find_in type q (chain type old q)) (find_in type q (chain type new q))
          ≡ lookup type d q
    moved_lookup q = elim (ℕ_discrete (index type d.ht0 q) at) [
      | yes e ↦
          let f : find_in type q (chain type d.ht0 q) ≡ find_in type q bucket =
            ap (λ i. find_in type q (d.ht0.table i)) e in
          let u : count_in type q bucket + count_in type q (chain type d.ht1 q) ≤ 1 =
            omega (arith, here_count q e, valid.unique q) in
          ap (λ c. or_else (find_in type q c) (find_in type q (chain type new q))) (old_here q e)
          ∙ empty_find q (find_in type q (chain type new q))
          ∙ moved.found q u
          ∙ ap (λ o. or_else o (find_in type q (chain type d.ht1 q))) (sym f)
      | no n ↦
          let z : count_in type q bucket ≡ 0 = bucket_count q n in
          rw
            (
              old_elsewhere q n,
              moved.found q (omega (arith, valid.unique q)),
              count_in-zero type q bucket z,
            )
            refl
    ]

    bucket-Phase : Phase type (some (at + 1)) old new
    bucket-Phase = (
      phase.0,
      omega (arith, moved.size, phase.1),
      λ j h. elim (Bool-cases (at == j)) [
        | inl e ↦ rw e refl
        | inr e ↦ rw e (scanned.2 j (ground arith))
      ],
    )

    rehash_bucket-Keeps : Keeps type d (rehash_bucket type r d)
    unfolding rehash_bucket dict_size
    rehash_bucket-Keeps = record {
      valid = record {
        valid0 =
            replace_chain-HtValid type d.ht0 at [] (d.ht0.used - length bucket) valid.valid0
              scanned.0 tt (omega (arith, bucket-le));
        valid1 = moved.valid;
        unique = λ q. rw (moved_count q) (valid.unique q);
        phase = bucket-Phase;
      };
      same = moved_lookup;
      sized = omega (arith, bucket-le, moved.used);
    }

    -- Each round takes entries out of the old table.
    rehash_bucket_progress : (rehash_bucket type r d).ht0.used < d.ht0.used
    unfolding rehash_bucket
    rehash_bucket_progress = omega (arith, scanned.1, left)

  reset-HtValid : HtValid {V = V} type reset_ht
  unfolding reset_ht total
  reset-HtValid = record {
    masked = inl refl;
    beyond = λ i h. refl;
    placed = λ i. tt;
    counted = refl;
  }

  -- A table that counts no entry has none.
  unused : (h : Ht K V) → HtValid type h → h.used ≡ 0 → (i : ℕ) → h.table i ≡ []
  unused h valid z i = elim (List-cases (h.table i)) [
    | inl e ↦ e
    | inr (x, xs, e) ↦ elim (dec_lt i h.size) [
      | yes lt ↦
          absurd (omega (arith, ap length e, length-le-total h.size h.table i lt, valid.counted))
      | no ge ↦ valid.beyond i (omega arith)
    ]
  ]

  -- The end of a rehash: the new table takes the place of the old one.
  finish-Keeps :
      (d : Dict K V)
      → Valid type d
      → d.ht0.used ≡ 0
      → Keeps type d (record d { ht0 = d.ht1; ht1 = reset_ht; rehashidx = none })
  unfolding dict_size reset_ht find_in count_in
  finish-Keeps d valid z = record {
    valid = record {
      valid0 = valid.valid1;
      valid1 = reset-HtValid;
      unique = λ q. omega (arith, valid.unique q);
      phase = (refl, tt);
    };
    same = λ q.
        or_else-none (find_in type q (chain type d.ht1 q))
        ∙ sym (
            ap (λ c. or_else (find_in type q c) (find_in type q (chain type d.ht1 q)))
              (unused d.ht0 valid.valid0 z (index type d.ht0 q)));
    sized = omega arith;
  }

  Phase-of :
      (d : Dict K V) (r : ℕ) → Valid type d → d.rehashidx ≡ some r → Phase type (some r) d.ht0 d.ht1
  Phase-of d r valid e = subst (λ o. Phase type o d.ht0 d.ht1) e valid.phase

  rehash_idle : (n : ℕ) (d : Dict K V) → d.rehashidx ≡ none → rehash type (suc n) d ≡ (d, false)
  unfolding rehash
  rehash_idle n d e = ground arith

  rehash_last :
      (n r : ℕ) (d : Dict K V)
      → d.rehashidx ≡ some r
      → (d.ht0.used == 0) ≡ true
      → rehash type (suc n) d ≡ (record d { ht0 = d.ht1; ht1 = reset_ht; rehashidx = none }, false)
  unfolding rehash
  rehash_last n r d e z = ground arith

  rehash_more :
      (n r : ℕ) (d : Dict K V)
      → d.rehashidx ≡ some r
      → (d.ht0.used == 0) ≡ false
      → rehash type (suc n) d ≡ rehash type n (rehash_bucket type r d)
  unfolding rehash
  rehash_more n r d e z = ground arith

  -- Any number of rounds of dictRehash keeps a dictionary well formed, its size and the entry
  -- found under each key.
  pub rehash-Keeps : (n : ℕ) (d : Dict K V) → Valid type d → Keeps type d (rehash type n d).0
  rehash-Keeps zero d valid = unfold rehash in Keeps-refl type d valid
  rehash-Keeps (suc n) d valid = elim (Option-cases d.rehashidx) [
    | inl e ↦ rw (rehash_idle n d e) (Keeps-refl type d valid)
    | inr (r, e) ↦ elim (Bool-cases (d.ht0.used == 0)) [
      | inl z ↦ rw (rehash_last n r d e z) (finish-Keeps d valid ((==_iff _ _).0 z))
      | inr z ↦
          let once = rehash_bucket-Keeps d r valid (Phase-of d r valid e) (ground arith) in
          rw (rehash_more n r d e z) (
            Keeps-trans type d (rehash_bucket type r d) _ once
              (rehash-Keeps n (rehash_bucket type r d) once.valid))
    ]
  ]

  -- On a well-formed dictionary dictRehash with more rounds than the first table has entries ends
  -- the rehash.
  pub rehash_finishes :
      (n : ℕ) (d : Dict K V)
      → Valid type d
      → d.ht0.used < n
      → ((rehash type n d).1 ≡ false) × ((rehash type n d).0.rehashidx ≡ none)
  rehash_finishes zero d valid h = elim h [ ]
  rehash_finishes (suc n) d valid h = elim (Option-cases d.rehashidx) [
    | inl e ↦ rw (rehash_idle n d e) (refl, e)
    | inr (r, e) ↦ elim (Bool-cases (d.ht0.used == 0)) [
      | inl z ↦ rw (rehash_last n r d e z) (refl, refl)
      | inr z ↦
          let phase = Phase-of d r valid e in
          let left : 0 < d.ht0.used = ground arith in
          rw (rehash_more n r d e z) (
            rehash_finishes n (rehash_bucket type r d)
              (rehash_bucket-Keeps d r valid phase left).valid
              (omega (arith, rehash_bucket_progress d r valid phase left)))
    ]
  ]

  -- So does the step that begins each operation.
  pub rehash_step-Keeps : (d : Dict K V) → Valid type d → Keeps type d (rehash_step type d)
  unfolding rehash_step
  rehash_step-Keeps d valid = elim (Bool-cases (is_rehashing d && (d.iterators == 0))) [
    | inl e ↦ rw e (rehash-Keeps 1 d valid)
    | inr e ↦ rw e (Keeps-refl type d valid)
  ]
