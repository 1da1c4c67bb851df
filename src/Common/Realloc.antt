-- ===== src/Common/Realloc.antt =====
-- A zrealloc, for the runs and the examples.
use Prim.Native.Nat.{ℕ, zero, suc, ◌+◌, ◌-◌}
use mathlib.Core.Path.{◌≡◌, refl, ap, ◌∙◌}
use mathlib.Core.List.{List, [], ◌∷◌, ◌++◌, append_assoc}
use native.Mathlib.Omega.{arith}
use libredis_a.Common.Lists.{length, length-append}
use libredis_a.Common.Blocks.{IsRealloc, take, length-take}

-- A zrealloc whose new bytes are 0.
abbrev zeros : ℕ → List ℕ
zeros zero = []
zeros (suc n) = 0 ∷ zeros n

unfoldable pub realloc : List ℕ → ℕ → List ℕ
realloc m n = take n (m ++ zeros n)

length-zeros : (n : ℕ) → length (zeros n) ≡ n
length-zeros zero = refl
length-zeros (suc n) = ap suc (length-zeros n)

take_past : (x z : List ℕ) (n k : ℕ) → n ≡ length x + k → take n (x ++ z) ≡ x ++ take k z
unfolding take
take_past [] z n k h = let e : n ≡ k = omega (arith, h) in rw e refl
take_past (b ∷ x) z zero k h = absurd (omega (arith, h))
take_past (b ∷ x) z (suc n) k h = ap (λ q. b ∷ q) (take_past x z n k (omega (arith, h)))

pub realloc-IsRealloc : IsRealloc realloc
unfolding realloc
realloc-IsRealloc = record {
  keeps = λ x y n h.
      let k = n - length x in
      (
        take k (y ++ zeros n),
        ap (take n) (append_assoc x y (zeros n))
            ∙ take_past x (y ++ zeros n) n k (omega (arith, h)),
        omega (
          arith,
          h,
          length-take k (y ++ zeros n) (omega (arith, length-append y (zeros n), length-zeros n)),
        ),
      );
}
