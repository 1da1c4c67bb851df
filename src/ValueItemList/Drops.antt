-- ===== src/ValueItemList/Drops.antt =====
-- The references that a node of a value item list holds, and their return.
use libredis_a.Common.{
  ℕ, zero, suc, ◌+◌, ◌-◌, ◌≤◌, ◌≡◌, refl, subst, inl, inr, false, ◌&&◌, not, Option, some, List, [],
  ◌∷◌, arith, update, ◌==◌, if◌then◌else◌, Bool-cases, ==_iff,
}
use libredis_a.ValueItemList.{Obj, obj, dnum, llnum, node_type_robj}
use libredis_a.ValueItemList.Heap.{decr_ref, held, drop_object}

module _ {Double : Type 0} where
  -- How often a node, and a row of them, refers to an object: by a pointer in a node of type 0.
  unfoldable pub uses : ℕ × ℕ × Obj Double → ℕ → ℕ
  uses (zero, size, obj b) o = if (b == o) && not (o == 0) then 1 else 0
  uses (zero, size, dnum x) o = 0
  uses (zero, size, llnum x) o = 0
  uses (suc type, size, value) o = 0

  unfoldable pub all_uses : List (ℕ × ℕ × Obj Double) → ℕ → ℕ
  all_uses [] o = 0
  all_uses (n ∷ ns) o = uses n o + all_uses ns o

  pub record Drops (n : ℕ × ℕ × Obj Double) (references : ℕ → ℕ) (r : Option (ℕ → ℕ)) : Type 0 where
    pub after : ℕ → ℕ
    pub is : r ≡ some after
    pub counts : (o : ℕ) → after o + uses n o ≡ references o

  nothing_dropped :
      (n : ℕ × ℕ × Obj Double) (references : ℕ → ℕ)
      → ((o : ℕ) → uses n o ≡ 0)
      → Drops n references (drop_object references 0)
  unfolding drop_object
  nothing_dropped n references h = record {
    after = references;
    is = refl;
    counts = λ o. let e = h o in omega (arith, e);
  }

  drop_obj :
      (size b : ℕ) (references : ℕ → ℕ)
      → ((o : ℕ) → uses (0, size, obj b) o ≤ references o)
      → Drops (0, size, obj b) references (drop_object references b)
  unfolding drop_object decr_ref uses
  drop_obj size b references h = elim (Bool-cases (b == 0)) [
    | inl z ↦ rw z (record { after = references; is = refl; counts = λ o. ground arith })
    | inr z ↦
        let self = (==_iff b b).1 refl in
        let times : ℕ = if (b == b) && not (b == 0) then 1 else 0 in
        let one : times ≡ 1 = rw (self, z) refl in
        let some_left : (references b == 0) ≡ false = let k = h b in ground (arith, k, one) in
        rw (z, some_left)
          (record {
            after = update references b (references b - 1);
            is = refl;
            counts = λ o. elim (Bool-cases (b == o)) [
              | inl e ↦
                  let same : b ≡ o = (==_iff b o).0 e in
                  subst
                    (λ q.
                      update references b (references b - 1) q
                        + (if (b == q) && not (q == 0) then 1 else 0)
                      ≡ references q)
                    same (rw (self, z) (ground (arith, some_left)))
              | inr e ↦ rw e (omega arith)
            ];
          })
  ]

  pub drop_lem :
      (type size : ℕ) (value : Obj Double) (references : ℕ → ℕ)
      → ((o : ℕ) → uses (type, size, value) o ≤ references o)
      → Drops
          (type, size, value)
          references
          (drop_object references (held (type == node_type_robj) value))
  unfolding held
  drop_lem zero size (obj b) references h = drop_obj size b references h
  drop_lem zero size (dnum x) references h =
      nothing_dropped (0, size, dnum x) references (λ o. unfold uses in refl)
  drop_lem zero size (llnum x) references h =
      nothing_dropped (0, size, llnum x) references (λ o. unfold uses in refl)
  drop_lem (suc type) size value references h =
      let z : (suc type == node_type_robj) ≡ false = ground arith in
      rw z (nothing_dropped (suc type, size, value) references (λ o. unfold uses in refl))
