-- ===== src/Sds/Strings.antt =====
-- What a buffer holds after each function of Sds/Shape.
use libredis_a.Common.{
  ℕ, ◌+◌, ◌-◌, ◌*◌, ◌≤◌, ◌≡◌, refl, sym, ap, ◌∙◌, List, [], ◌∷◌, ◌++◌, length, length-append, ltb,
  leb, Bool-cases, inl, inr, arith,
}
use mathlib.Core.List.{append_assoc}
use libredis_a.Common.Blocks.{IsRealloc, write_at, write_over}
use libredis_a.Sds.Shape.{Shape, make_room, cat_len, copy_len}

-- The buffer holds a string, its nul and as many unused bytes as it says.
pub record Contains (b : Shape) (s : List ℕ) : Type 0 where
  pub rest : List ℕ
  pub is : b.buf ≡ s ++ (0 ∷ rest)
  pub len_is : b.len ≡ length s
  pub free_is : b.free ≡ length rest

-- A string put in front of bytes that are left over, with its nul.
pub ended :
    (m : List ℕ) (t y : List ℕ) (n free : ℕ)
    → m ≡ t ++ y
    → n ≡ length t
    → length y ≡ 1 + free
    → Contains (record { len = n; free = free; buf = write_at n (0 ∷ []) m }) t
ended m t y n free same h l =
    let (rest, is, k) = write_over n (0 ∷ []) t y h (omega (arith, l)) in
    record {
      rest = rest;
      is = ap (write_at n (0 ∷ [])) same ∙ is;
      len_is = h;
      free_is = omega (arith, l, k);
    }

module _ (realloc : List ℕ → ℕ → List ℕ) (library : IsRealloc realloc) (b : Shape) (s : List ℕ)
    (c : Contains b s) where
  -- `sdsMakeRoomFor` keeps the string and makes the room.
  pub make_room-Contains :
      (n : ℕ) → Contains (make_room realloc b n) s × (n ≤ (make_room realloc b n).free)
  unfolding make_room
  make_room-Contains n = elim (Bool-cases (leb n b.free)) [
    | inl e ↦ rw e (c, ground arith)
    | inr e ↦
        let (g, is, l) =
          library.keeps (s ++ (0 ∷ [])) c.rest ((b.len + n) * 2 + 1)
            (omega (arith, c.len_is, length-append s (0 ∷ []))) in
        let k = length-append s (0 ∷ []) in
        rw e (
          record {
            rest = g;
            is =
                ap (λ q. realloc q ((b.len + n) * 2 + 1))
                  (c.is ∙ sym (append_assoc s (0 ∷ []) c.rest))
                ∙ is
                ∙ append_assoc s (0 ∷ []) g;
            len_is = c.len_is;
            free_is = omega (arith, c.len_is, l, k);
          },
          omega arith,
        )
  ]

  -- `sdscatlen` appends the bytes.
  pub cat_len-Contains : (t : List ℕ) → Contains (cat_len realloc b t) (s ++ t)
  unfolding cat_len
  cat_len-Contains t =
      let (r, enough) = make_room-Contains (length t) in
      let (y, is, l) =
        write_over b.len t s (0 ∷ r.rest) c.len_is (omega (arith, enough, r.free_is)) in
      ended _ (s ++ t) y (b.len + length t) _
        (ap (write_at b.len t) r.is ∙ is ∙ sym (append_assoc s t y))
        (omega (arith, c.len_is, length-append s t)) (omega (arith, l, r.free_is, enough))

  -- `sdscpylen` replaces the string.
  pub copy_len-Contains : (t : List ℕ) → Contains (copy_len realloc b t) t
  unfolding copy_len
  copy_len-Contains t = elim (Bool-cases (ltb (b.free + b.len) (length t))) [
    | inl e ↦
        let (r, enough) = make_room-Contains (length t - b.len) in
        let size = length-append s (0 ∷ r.rest) in
        let (y, is, l) =
          write_over 0 t [] (s ++ (0 ∷ r.rest)) refl
            (omega (arith, enough, r.free_is, size, c.len_is)) in
        rw e (
          ended _ t y (length t) _ (ap (write_at 0 t) r.is ∙ is) refl
            (omega (arith, l, size, r.free_is, r.len_is, enough, c.len_is)))
    | inr e ↦
        let size = length-append s (0 ∷ c.rest) in
        let fits : length t ≤ b.free + b.len = ground arith in
        let (y, is, l) =
          write_over 0 t [] (s ++ (0 ∷ c.rest)) refl
            (omega (arith, c.free_is, size, c.len_is, fits)) in
        rw e (
          ended _ t y (length t) _ (ap (write_at 0 t) c.is ∙ is) refl
            (omega (arith, l, size, c.free_is, c.len_is, fits)))
  ]
