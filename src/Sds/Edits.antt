-- ===== src/Sds/Edits.antt =====
-- sdsgrowzero and sdsrange, and any sequence of changes of a string, on Sds/Shape.
use libredis_a.Common.{
  ℕ, zero, suc, ◌+◌, ◌-◌, ◌≤◌, ◌≡◌, refl, sym, ap, ◌∙◌, ◌⊎◌, subst, false, ◌&&◌, not, List, [], ◌∷◌,
  ◌++◌, length, length-append, ◌==◌, leb, if◌then◌else◌, Bool-cases, inl, inr, arith,
}
use mathlib.Core.List.{append_assoc, append-nil}
use libredis_a.Common.Int.{ℤ}
use libredis_a.Common.Blocks.{
  IsRealloc, take, drop, drop-append, length-take, length-drop, cut_parts, write_at, write_over,
  move, move_lem,
}
use libredis_a.Sds.Shape.{
  Shape, new_shape, zeros, from_end, span, range_of, range, cut_to, grow_zero, cat_len, copy_len,
}
use libredis_a.Sds.Slice.{
  between, slice, take_nothing, drop_all, take_all, drop_zero, between-slice,
}
use libredis_a.Sds.Strings.{
  Contains, ended, make_room-Contains, cat_len-Contains, copy_len-Contains,
}

pub length-zeros : (n : ℕ) → length (zeros n) ≡ n
length-zeros zero = refl
length-zeros (suc n) = ap suc (length-zeros n)

-- The last zero of a row is the nul.
zeros_last : (n : ℕ) (y : List ℕ) → zeros (suc n) ++ y ≡ zeros n ++ (0 ∷ y)
zeros_last zero y = refl
zeros_last (suc n) y = ap (λ q. 0 ∷ q) (zeros_last n y)

-- The range is inside the string, and it is the slice.
pub record Ranges (s : List ℕ) (a b : ℤ) (start n : ℕ) : Type 0 where
  pub inside : (n ≡ 0) ⊎ (start + n ≤ length s)
  pub same : take n (drop start s) ≡ slice s a b

range_of-Ranges :
    (s : List ℕ) (a b : ℤ) → Ranges s a b (range_of (length s) a b).0 (range_of (length s) a b).1
unfolding take
range_of-Ranges s a b =
    let start = from_end (length s) a in
    let end = from_end (length s) b in
    elim (Bool-cases (span start end == 0)) [
      | inl e ↦
          let none_left : (end + 1) - start ≡ 0 = ground arith in
          rw e (record { inside = inl refl; same = rw none_left refl })
      | inr e ↦ elim (Bool-cases (leb (length s) start)) [
        | inl f ↦
            let past = drop_all start s (ground arith) in
            rw (e, f) (record { inside = inl refl; same = rw past (sym (take_nothing _)) })
        | inr f ↦ elim (Bool-cases (leb (length s) end)) [
          | inl g ↦
              let n : span start (length s - 1) ≡ length s - start = ground arith in
              let size = length-drop start s in
              rw (e, f, g, n)
                (record {
                  inside = inr (ground arith);
                  same =
                      take_all _ (drop start s) (omega (arith, size))
                      ∙ sym (take_all _ (drop start s) (ground (arith, size)));
                })
          | inr g ↦
              let n : span start end ≡ (end + 1) - start = ground arith in
              rw (e, f, g, n) (record { inside = inr (ground arith); same = refl })
        ]
      ]
    ]

-- `sdsrange` cuts the string to the slice.
module _ (b : Shape) (s : List ℕ) (c : Contains b s) where
  whole : length b.buf ≡ length s + 1 + length c.rest
  whole = omega (arith, ap length c.is, length-append s (0 ∷ c.rest))

  -- The slice in front.
  in_front :
      (start n : ℕ)
      → (n ≡ 0) ⊎ (start + n ≤ length s)
      → (y : List ℕ) × ((if not (start == 0) && not (n == 0) then move 0 start n b.buf else b.buf)
          ≡ take n (drop start s) ++ y)
        × (length (take n (drop start s)) ≡ n)
        × (n + length y ≡ length b.buf)
  unfolding take
  in_front start zero h =
      let same : (not (start == 0) && not (0 == 0)) ≡ false = ground arith in
      (b.buf, rw same refl, refl, omega arith)
  in_front start (suc n) h =
      let d = drop start s in
      let fits : start + suc n ≤ length s = elim h [
        | inl e ↦ absurd (omega (arith, e))
        | inr e ↦ e
      ] in
      let size = length-drop start s in
      let k = length-take (suc n) d (omega (arith, size, fits)) in
      let m = take (suc n) d in
      let t = drop (suc n) d ++ (0 ∷ c.rest) in
      let after : d ++ (0 ∷ c.rest) ≡ m ++ t =
        ap (λ q. q ++ (0 ∷ c.rest)) (sym (cut_parts (suc n) d))
        ∙ append_assoc m (drop (suc n) d) (0 ∷ c.rest) in
      elim (Bool-cases (start == 0)) [
        | inl e ↦
            let zero_start : start ≡ 0 = ground arith in
            let here : b.buf ≡ m ++ t =
              c.is ∙ ap (λ q. q ++ (0 ∷ c.rest)) (sym (drop_zero start s zero_start)) ∙ after in
            (t, rw e here, k, omega (arith, k, ap length here, length-append m t))
        | inr e ↦
            let f : (suc n == 0) ≡ false = ground arith in
            let past : drop start b.buf ≡ m ++ t =
              ap (drop start) (
                c.is
                ∙ ap (λ q. q ++ (0 ∷ c.rest)) (sym (cut_parts start s))
                ∙ append_assoc (take start s) d (0 ∷ c.rest))
              ∙ drop-append start (take start s) (d ++ (0 ∷ c.rest))
                  (sym (length-take start s (omega (arith, fits))))
              ∙ after in
            let (y, is, l) = write_over 0 m [] b.buf refl (omega (arith, k, whole, fits)) in
            (
              y,
              rw (e, f) (move_lem 0 start (suc n) b.buf m t past (sym k) ∙ is),
              k,
              omega (arith, l, k),
            )
      ]

  cut_to-Contains :
      (start n : ℕ)
      → (n ≡ 0) ⊎ (start + n ≤ length s)
      → Contains (cut_to b start n) (take n (drop start s))
  unfolding cut_to
  cut_to-Contains start n h =
      let (y, same, k, l) = in_front start n h in
      let short : n ≤ length s = elim h [ inl e ↦ omega (arith, e) | inr e ↦ omega (arith, e) ] in
      ended _ (take n (drop start s)) y n _ same (sym k)
        (omega (arith, l, whole, c.free_is, c.len_is, short))

  range-Slice : (x z : ℤ) → Contains (range b x z) (slice s x z)
  unfolding range
  range-Slice x z = elim (Bool-cases (b.len == 0)) [
    | inl e ↦
        let none_there : length s ≡ 0 = ground (arith, c.len_is) in
        let empty : slice s x z ≡ s =
          ap (take _) (drop_all _ s (omega (arith, none_there)))
          ∙ take_nothing _
          ∙ sym (drop_all 0 s (omega (arith, none_there)))
          ∙ drop_zero 0 s refl in
        rw (e, empty) c
    | inr e ↦
        let r : Ranges s x z (range_of b.len x z).0 (range_of b.len x z).1 =
          subst (λ n. Ranges s x z (range_of n x z).0 (range_of n x z).1) (sym c.len_is)
            (range_of-Ranges s x z) in
        rw e (
          subst (Contains (cut_to b (range_of b.len x z).0 (range_of b.len x z).1)) r.same
            (cut_to-Contains _ _ r.inside))
  ]

  pub range-Contains : (x z : ℤ) → Contains (range b x z) (between s x z)
  range-Contains x z = subst (Contains (range b x z)) (sym (between-slice s x z)) (range-Slice x z)

-- Changes of a string.
pub data Edit : Type 0 where
  append_edit : List ℕ → Edit
  copy_edit : List ℕ → Edit
  grow_edit : ℕ → Edit
  range_edit : ℤ → ℤ → Edit

unfoldable pub meaning : List ℕ → List Edit → List ℕ
meaning init [] = init
meaning init (append_edit t ∷ es) = meaning init es ++ t
meaning init (copy_edit t ∷ es) = t
meaning init (grow_edit n ∷ es) = meaning init es ++ zeros (n - length (meaning init es))
meaning init (range_edit a b ∷ es) = between (meaning init es) a b

module _ (realloc : List ℕ → ℕ → List ℕ) where
  -- The last change stands first.
  unfoldable pub shape_run : List ℕ → List Edit → Shape
  shape_run init [] = new_shape init
  shape_run init (append_edit t ∷ es) = cat_len realloc (shape_run init es) t
  shape_run init (copy_edit t ∷ es) = copy_len realloc (shape_run init es) t
  shape_run init (grow_edit n ∷ es) = grow_zero realloc (shape_run init es) n
  shape_run init (range_edit a b ∷ es) = range (shape_run init es) a b

  module _ (library : IsRealloc realloc) where
    -- `sdsgrowzero` appends zeros up to the length.
    pub grow_zero-Contains :
        (b : Shape) (s : List ℕ) (c : Contains b s) (n : ℕ)
        → Contains (grow_zero realloc b n) (s ++ zeros (n - length s))
    unfolding grow_zero
    grow_zero-Contains b s c n = elim (Bool-cases (leb n b.len)) [
      | inl e ↦
          let none_new : n - length s ≡ 0 = ground (arith, c.len_is) in
          rw (e, none_new, append-nil s) c
      | inr e ↦
          let (r, enough) = make_room-Contains realloc library b s c (n - b.len) in
          let size = length-zeros (n - b.len + 1) in
          let (y, is, l) =
            write_over b.len (zeros (n - b.len + 1)) s (0 ∷ r.rest) c.len_is
              (omega (arith, size, enough, r.free_is)) in
          let more : n - b.len + 1 ≡ suc (n - length s) = ground (arith, c.len_is) in
          let k = length-append s (zeros (n - length s)) in
          let z = length-zeros (n - length s) in
          rw e (record {
            rest = y;
            is =
                ap (write_at b.len (zeros (n - b.len + 1))) r.is
                ∙ is
                ∙ ap (λ m. s ++ (zeros m ++ y)) more
                ∙ ap (λ q. s ++ q) (zeros_last (n - length s) y)
                ∙ sym (append_assoc s (zeros (n - length s)) (0 ∷ y));
            len_is = ground (arith, k, z, c.len_is);
            free_is = ground (arith, l, size, r.free_is, r.len_is, c.len_is);
          })
    ]

    -- The buffer after any sequence of changes, by its numbers.
    pub shape_run-Contains :
        (init : List ℕ) (es : List Edit) → Contains (shape_run init es) (meaning init es)
    unfolding shape_run meaning
    shape_run-Contains init [] = record { rest = []; is = refl; len_is = refl; free_is = refl }
    shape_run-Contains init (append_edit t ∷ es) =
        cat_len-Contains realloc library (shape_run init es) (meaning init es)
          (shape_run-Contains init es) t
    shape_run-Contains init (copy_edit t ∷ es) =
        copy_len-Contains realloc library (shape_run init es) (meaning init es)
          (shape_run-Contains init es) t
    shape_run-Contains init (grow_edit n ∷ es) =
        grow_zero-Contains (shape_run init es) (meaning init es) (shape_run-Contains init es) n
    shape_run-Contains init (range_edit a b ∷ es) =
        range-Contains (shape_run init es) (meaning init es) (shape_run-Contains init es) a b
