-- ===== src/Sds/Agree.antt =====
-- The functions of sds.c on ints agree with the ones on numbers, while strings are short.
use libredis_a.Common.{
  ℕ, ◌+◌, ◌-◌, ◌*◌, ◌%◌, ◌^◌, ◌≤◌, ◌<◌, ◌≡◌, refl, inl, inr, false, true, List, length, arith, ltb,
  leb, ◌==◌, Bool-cases,
}
use libredis_a.Common.Int.{ℤ, pos, negsuc, ltb_ℤ}
use libredis_a.Common.Bytes.{Fits}
use libredis_a.Sds.Buffer.{
  Buffer, header, from_end, span, range_of, cut_to, range, make_room, grow_zero, cat_len, copy_len,
}
use libredis_a.Sds.Ints.{
  size_of_pos, int_of_pos, add_int_pos, add_size_small, sub_size_small, from_end_negsuc,
  sub_int_pos,
}
use libredis_a.Sds.Shape
use libredis_a.Sds.Shape.{Shape}

abbrev pub embed : Shape → Buffer
embed s = record { len = pos s.len; free = pos s.free; buf = s.buf }

abbrev pub Small : Shape → Type 0
Small s = s.len + s.free < 2 ^ 31

module _ (realloc : List ℕ → ℕ → List ℕ) (s : Shape) (small : Small s) where
  make_room_agrees :
      (n : ℕ)
      → s.len + n < 2 ^ 30
      → (make_room realloc (embed s) n ≡ embed (Shape.make_room realloc s n))
        × Small (Shape.make_room realloc s n)
        × ((Shape.make_room realloc s n).len ≡ s.len)
        × (n ≤ (Shape.make_room realloc s n).free)
  unfolding make_room Shape.make_room
  make_room_agrees n h =
      let l = size_of_pos s.len (omega (arith, small)) in
      let f = size_of_pos s.free (omega (arith, small)) in
      let a = add_size_small s.len n (omega (arith, h)) in
      let m : (s.len + n) * 2 % 2 ^ 64 ≡ (s.len + n) * 2 = omega (arith, h) in
      let d = sub_size_small ((s.len + n) * 2) s.len (omega arith) (omega (arith, h)) in
      let i = int_of_pos ((s.len + n) * 2 - s.len) (omega (arith, h)) in
      let r : (header + (s.len + n) * 2 + 1) % 2 ^ 64 - header ≡ (s.len + n) * 2 + 1 =
        omega (arith, h) in
      elim (Bool-cases (leb n s.free)) [
        | inl e ↦ rw (l, f, e) (refl, small, refl, ground arith)
        | inr e ↦ rw (l, f, e, a, m, d, i, r) (refl, omega (arith, h), refl, omega arith)
      ]

  pub cat_len_agrees :
      (t : List ℕ)
      → s.len + length t < 2 ^ 30
      → (cat_len realloc (embed s) t ≡ embed (Shape.cat_len realloc s t))
        × Small (Shape.cat_len realloc s t)
  unfolding cat_len Shape.cat_len
  cat_len_agrees t h =
      let (same, fits, kept, room) = make_room_agrees (length t) h in
      let l = size_of_pos s.len (omega (arith, small)) in
      let a = add_size_small s.len (length t) (omega (arith, h)) in
      let i = int_of_pos (s.len + length t) (omega (arith, h)) in
      let free = (Shape.make_room realloc s (length t)).free in
      let f = size_of_pos free (omega (arith, fits)) in
      let d = sub_size_small free (length t) room (omega (arith, fits)) in
      let j = int_of_pos (free - length t) (omega (arith, fits)) in
      rw (same, l, a, i, f, d, j) (refl, omega (arith, fits, kept, room))

  pub grow_zero_agrees :
      (n : ℕ)
      → n < 2 ^ 30
      → (grow_zero realloc (embed s) n ≡ embed (Shape.grow_zero realloc s n))
        × Small (Shape.grow_zero realloc s n)
  unfolding grow_zero Shape.grow_zero
  grow_zero_agrees n h =
      let l = size_of_pos s.len (omega (arith, small)) in
      elim (Bool-cases (leb n s.len)) [
        | inl e ↦ rw (l, e) (refl, small)
        | inr e ↦
            let (same, fits, kept, room) = make_room_agrees (n - s.len) (ground (arith, h, e)) in
            let r = Shape.make_room realloc s (n - s.len) in
            let t = add_int_pos r.len r.free fits in
            let k = size_of_pos (r.len + r.free) fits in
            let i = int_of_pos n (omega (arith, h)) in
            let j = size_of_pos n (omega (arith, h)) in
            let d =
              sub_size_small (r.len + r.free) n (ground (arith, kept, room, e))
                (omega (arith, fits)) in
            let f = int_of_pos (r.len + r.free - n) (omega (arith, fits)) in
            let z = add_size_small (n - s.len) 1 (omega (arith, h)) in
            rw (l, e, same, t, k, i, j, d, f, z) (refl, ground (arith, fits, kept, room, e))
      ]

  pub copy_len_agrees :
      (t : List ℕ)
      → length t < 2 ^ 30
      → (copy_len realloc (embed s) t ≡ embed (Shape.copy_len realloc s t))
        × Small (Shape.copy_len realloc s t)
  unfolding copy_len Shape.copy_len
  copy_len_agrees t h =
      let l = size_of_pos s.len (omega (arith, small)) in
      let a = add_int_pos s.free s.len (omega (arith, small)) in
      let k = size_of_pos (s.free + s.len) (omega (arith, small)) in
      let i = int_of_pos (length t) (omega (arith, h)) in
      elim (Bool-cases (ltb (s.free + s.len) (length t))) [
        | inl e ↦
            let m = sub_size_small (length t) s.len (ground (arith, e)) (omega (arith, h)) in
            let (same, fits, kept, room) =
              make_room_agrees (length t - s.len) (ground (arith, h, e)) in
            let r = Shape.make_room realloc s (length t - s.len) in
            let b = add_int_pos r.free r.len (omega (arith, fits)) in
            let j = size_of_pos (r.free + r.len) (omega (arith, fits)) in
            let d =
              sub_size_small (r.free + r.len) (length t) (ground (arith, kept, room, e))
                (omega (arith, fits)) in
            let f = int_of_pos (r.free + r.len - length t) (omega (arith, fits)) in
            rw (a, k, e, l, m, same, b, j, i, d, f) (refl, ground (arith, fits, kept, room, e))
        | inr e ↦
            let d =
              sub_size_small (s.free + s.len) (length t) (ground (arith, e))
                (omega (arith, small)) in
            let f = int_of_pos (s.free + s.len - length t) (omega (arith, small)) in
            rw (a, k, e, i, a, k, d, f) (refl, ground (arith, small, e))
      ]

-- An index of sdsrange that is less than 2^30 away from the start or the end.
abbrev pub IsIndex : ℤ → Type 0
IsIndex (pos n) = n < 2 ^ 30
IsIndex (negsuc n) = n < 2 ^ 30

IsIndex-Fits : (a : ℤ) → IsIndex a → Fits 4 a
IsIndex-Fits (pos n) h = omega (arith, h)
IsIndex-Fits (negsuc n) h = omega (arith, h)

module _ (len : ℕ) (short : len < 2 ^ 30) where
  end_is_small : (a : ℤ) → Fits 4 a → Shape.from_end len a < 2 ^ 31
  end_is_small (pos n) h = omega (arith, h)
  end_is_small (negsuc n) h = omega (arith, short)

  end_below : (a : ℤ) → IsIndex a → Shape.from_end len a < 2 ^ 30
  end_below (pos n) h = h
  end_below (negsuc n) h = omega (arith, short)

  from_end_agrees : (a : ℤ) → Fits 4 a → from_end len a ≡ pos (Shape.from_end len a)
  unfolding from_end
  from_end_agrees (pos n) h = refl
  from_end_agrees (negsuc n) h =
      let at = from_end_negsuc len n (omega (arith, short)) (omega (arith, h)) in
      rw at (ground arith)

  span_agrees : (a b : ℕ) → b < 2 ^ 31 - 1 → span (pos a) (pos b) ≡ Shape.span a b
  unfolding span
  span_agrees a b h = elim (Bool-cases (ltb b a)) [
    | inl e ↦ let f : ltb_ℤ (pos b) (pos a) ≡ true = ground (arith, e) in rw (f, e) refl
    | inr e ↦
        let f : ltb_ℤ (pos b) (pos a) ≡ false = ground (arith, e) in
        let d = sub_int_pos a b (ground (arith, e)) (omega (arith, h)) in
        let i = add_int_pos (b - a) 1 (omega (arith, h)) in
        let k = size_of_pos (b - a + 1) (omega (arith, h)) in rw (f, e, d, i, k) refl
  ]

  range_of_agrees :
      (a b : ℤ)
      → IsIndex a
      → IsIndex b
      → (range_of len a b ≡ Shape.range_of len a b) × ((Shape.range_of len a b).1 ≤ len)
  unfolding range_of
  range_of_agrees a b ha hb =
      let start = Shape.from_end len a in
      let end = Shape.from_end len b in
      let fa = from_end_agrees a (IsIndex-Fits a ha) in
      let fb = from_end_agrees b (IsIndex-Fits b hb) in
      let sa = end_is_small a (IsIndex-Fits a ha) in
      let sb = end_below b hb in
      let n = span_agrees start end (omega (arith, sb)) in
      let k = size_of_pos start sa in
      let i = int_of_pos len (omega (arith, short)) in
      elim (Bool-cases (Shape.span start end == 0)) [
        | inl e ↦ rw (fa, fb, n, e) (refl, omega arith)
        | inr e ↦ elim (Bool-cases (leb len start)) [
          | inl f ↦
              let g : ltb_ℤ (pos start) (pos len) ≡ false = ground (arith, f) in
              rw (fa, fb, n, e, i, g, f, k) (refl, omega arith)
          | inr f ↦
              let g : ltb_ℤ (pos start) (pos len) ≡ true = ground (arith, f) in
              elim (Bool-cases (leb len end)) [
                | inl x ↦
                    let y : ltb_ℤ (pos end) (pos len) ≡ false = ground (arith, x) in
                    let d = sub_size_small len 1 (ground (arith, f)) (omega (arith, short)) in
                    let j = int_of_pos (len - 1) (omega (arith, short)) in
                    let m = span_agrees start (len - 1) (omega (arith, short)) in
                    rw (fa, fb, n, e, i, g, f, y, x, d, j, k, m) (refl, ground (arith, f))
                | inr x ↦
                    let y : ltb_ℤ (pos end) (pos len) ≡ true = ground (arith, x) in
                    rw (fa, fb, n, e, i, g, f, y, x, k) (refl, ground (arith, f, x))
              ]
        ]
      ]

pub range_agrees :
    (s : Shape)
    → Small s
    → s.len < 2 ^ 30
    → (a b : ℤ) → IsIndex a
    → IsIndex b
    → (range (embed s) a b ≡ embed (Shape.range s a b)) × Small (Shape.range s a b)
unfolding range Shape.range cut_to Shape.cut_to
range_agrees s small short a b ha hb =
    let l = size_of_pos s.len (omega (arith, short)) in
    let f = size_of_pos s.free (omega (arith, small)) in
    let (same, inside) = range_of_agrees s.len short a b ha hb in
    let n = (Shape.range_of s.len a b).1 in
    let i = int_of_pos n (omega (arith, inside, short)) in
    let d = sub_size_small s.len n inside (omega (arith, short)) in
    let c = add_size_small s.free (s.len - n) (omega (arith, small)) in
    let j = int_of_pos (s.free + (s.len - n)) (omega (arith, small)) in
    elim (Bool-cases (s.len == 0)) [
      | inl e ↦ rw (l, e) (refl, small)
      | inr e ↦ rw (l, e, same, i, f, d, c, j) (refl, omega (arith, small, inside))
    ]
