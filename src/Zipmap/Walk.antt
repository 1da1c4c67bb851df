-- ===== src/Zipmap/Walk.antt =====
-- zipmapNext and zipmapLen on a well-formed zipmap.
use libredis_a.Common.{
  ℕ, zero, suc, ◌^◌, ◌<◌, ◌≡◌, refl, ap, ◌∙◌, some, List, [], ◌∷◌, ◌++◌, length, ltb, All,
  Bool-cases, inl, inr, arith,
}
use mathlib.Core.List.{append_assoc}
use native.Mathlib.Nat.{mod-eq_of_lt}
use libredis_a.Common.Blocks.{drop, write_at}
use libredis_a.Zipmap.{big_len, end_mark, first_byte, next, count_loop, entry_count}
use libredis_a.Zipmap.Layout.{
  Entry, Small, encoded, key_from_lem, value_from_lem, raw_key_length_lem, raw_value_length_lem,
  past_key, past_value, first_byte_lem,
}
use libredis_a.Zipmap.Lookup.{flat}
use libredis_a.Zipmap.Entries.{IsZipmap, total_length, smalls, length-flat}
use libredis_a.Zipmap.Delete.{recount}

-- `zipmapNext` returns the entry and the pointer past it.
pub next_lem : (e : Entry) (x : List ℕ) → Small e → next (encoded e ++ x) ≡ some (e.key, e.val, x)
unfolding next
next_lem e x small =
    rw
      (
        first_byte_lem e small x,
        key_from_lem e small x,
        value_from_lem e small x,
        raw_key_length_lem e small x,
        past_key e small x,
        raw_value_length_lem e small x,
        past_value e small x,
      )
      refl

count_loop_lem :
    (es : List Entry) (n : ℕ)
    → All Small es
    → length es < n
    → length es < 2 ^ 32
    → count_loop n (flat es ++ (end_mark ∷ [])) ≡ some (length es)
unfolding count_loop
count_loop_lem [] zero s h b = absurd (omega (arith, h))
count_loop_lem [] (suc n) s h b = unfold next in refl
count_loop_lem (e ∷ es) zero s h b = absurd (omega (arith, h))
count_loop_lem (e ∷ es) (suc n) (small, s) h b =
    let rest = count_loop_lem es n s (omega (arith, h)) (omega (arith, b)) in
    rw
      (
        append_assoc (encoded e) (flat es) (end_mark ∷ []),
        count_loop,
        next_lem e (flat es ++ (end_mark ∷ [])) small,
        rest,
      )
      (ap (λ c. some c) (mod-eq_of_lt (omega (arith, b)) ∙ omega arith))

-- What `zipmapLen` answers and leaves.
pub record Counted (zm : List ℕ) (es : List Entry) : Type 0 where
  pub after : List ℕ
  pub is : entry_count zm ≡ some (after, length es)
  pub valid : IsZipmap after es

module _ (zm : List ℕ) (es : List Entry) (z : IsZipmap zm es) where
  first_is : first_byte zm ≡ z.count
  first_is = ap first_byte z.is

  looped : count_loop (length zm) (drop 1 zm) ≡ some (length es)
  unfolding drop
  looped =
      let total = total_length zm es z in
      let l = length-flat es in
      ap (λ q. count_loop (length zm) (drop 1 q)) z.is
      ∙ count_loop_lem es (length zm) (smalls zm es z) (omega (arith, total, l))
          (omega (arith, total, l, z.sized))

  -- `zipmapLen` answers the number of entries, whatever the counter says, and keeps them.
  pub entry_count-Counted : Counted zm es
  unfolding entry_count
  entry_count-Counted = elim (Bool-cases (ltb z.count big_len)) [
    | inl f ↦
        let n : z.count ≡ length es = elim z.counted [
          | inl h ↦ h
          | inr h ↦ absurd (ground arith)
        ] in
        record {
          after = zm;
          is = rw (entry_count, first_is, f) (ap (λ c. some (zm, c)) n);
          valid = z;
        }
    | inr f ↦ elim (Bool-cases (ltb (length es) big_len)) [
      | inl g ↦ record {
        after = length es ∷ (flat es ++ (end_mark ∷ []));
        is =
            rw (entry_count, first_is, f, looped, g)
              (ap (λ q. some (q, length es))
                (ap (write_at 0 (length es ∷ [])) z.is ∙ recount z.count (length es) _));
        valid = record {
          count = length es;
          is = refl;
          sized = omega (arith, z.sized, ap length z.is);
          distinct = z.distinct;
          counted = inl refl;
        };
      }
      | inr g ↦ record { after = zm; is = rw (entry_count, first_is, f, looped, g) refl; valid = z }
    ]
  ]
