-- ===== src/Zipmap/Surgery.antt =====
-- How the writes, moves and resizes of zipmap.c change a block that is cut into parts.
use libredis_a.Common.{
  ℕ, ◌+◌, ◌-◌, ◌<◌, ◌≡◌, refl, sym, ap, ◌∙◌, List, [], ◌∷◌, ◌++◌, length, length-append, arith,
}
use mathlib.Core.List.{append_assoc, append-nil}
use libredis_a.Common.Blocks.{IsRealloc, cut, write_at, write_at-append}
use libredis_a.Zipmap.{end_mark, resize}

pub no_bytes : (g : List ℕ) → length g ≡ 0 → g ≡ []
no_bytes [] h = refl
no_bytes (b ∷ g) h = absurd (omega (arith, h))

module _ (realloc : List ℕ → ℕ → List ℕ) (library : IsRealloc realloc) where
  -- A resized block keeps a first part, and ends with the mark.
  pub resize_lem :
      (x y : List ℕ) (n : ℕ)
      → length x < n
      → (g : List ℕ) × (resize realloc (x ++ y) n ≡ x ++ (g ++ (end_mark ∷ [])))
        × (length x + length g + 1 ≡ n)
  unfolding resize
  resize_lem x y n h =
      let (g, is, l) = library.keeps x y n (omega (arith, h)) in
      let (g0, last, same, k) = cut (length g - 1) g (omega arith) in
      let one : length last ≡ 1 = omega (arith, k, h, l, ap length same, length-append g0 last) in
      let whole : realloc (x ++ y) n ≡ (x ++ g0) ++ (last ++ []) =
        is
        ∙ ap (λ r. x ++ r) same
        ∙ sym (append_assoc x g0 last)
        ∙ ap (λ r. (x ++ g0) ++ r) (sym (append-nil last)) in
      (
        g0,
        ap (write_at (n - 1) (end_mark ∷ [])) whole
            ∙ write_at-append (n - 1) (end_mark ∷ []) (x ++ g0) last []
                (omega (arith, length-append x g0, k, h, l)) (sym one)
            ∙ append_assoc x g0 (end_mark ∷ []),
        omega (arith, k, h, l),
      )

  -- A resize to the first part and the mark.
  pub resize_exact :
      (x y : List ℕ) (n : ℕ) → n ≡ length x + 1 → resize realloc (x ++ y) n ≡ x ++ (end_mark ∷ [])
  resize_exact x y n h =
      let (g, is, l) = resize_lem x y n (omega (arith, h)) in
      is ∙ ap (λ r. x ++ (r ++ (end_mark ∷ []))) (no_bytes g (omega (arith, h, l)))
