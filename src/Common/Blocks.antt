-- ===== src/Common/Blocks.antt =====
-- A block of memory as the list of its bytes, for structures that are read and written in sequence.
-- A pointer into it is an offset, or the bytes from there on.
use Prim.Native.Nat.{ℕ, zero, suc, ◌+◌, ◌-◌, ◌*◌, ◌/◌, ◌%◌, ◌^◌, ◌≤◌, ◌<◌}
use mathlib.Core.Path.{◌≡◌, refl, sym, ap, ap₂, ◌∙◌}
use mathlib.Core.List.{List, [], ◌∷◌, ◌++◌, append_assoc}
use native.Mathlib.Nat.{pow-suc}
use native.Mathlib.Omega.{arith}
use libredis_a.Common.Lists.{length, length-append}

module _ {ℓ} {A : Type ℓ} where
  unfoldable pub take : ℕ → List A → List A
  take zero xs = []
  take (suc n) [] = []
  take (suc n) (x ∷ xs) = x ∷ take n xs

  unfoldable pub drop : ℕ → List A → List A
  drop zero xs = xs
  drop (suc n) [] = []
  drop (suc n) (x ∷ xs) = drop n xs

  pub take-append : (n : ℕ) (a b : List A) → n ≡ length a → take n (a ++ b) ≡ a
  unfolding take
  take-append zero [] b h = refl
  take-append zero (x ∷ a) b h = absurd (omega (arith, h))
  take-append (suc n) [] b h = absurd (omega (arith, h))
  take-append (suc n) (x ∷ a) b h = ap (λ r. x ∷ r) (take-append n a b (omega (arith, h)))

  pub drop-append : (n : ℕ) (a b : List A) → n ≡ length a → drop n (a ++ b) ≡ b
  unfolding drop
  drop-append zero [] b h = refl
  drop-append zero (x ∷ a) b h = absurd (omega (arith, h))
  drop-append (suc n) [] b h = absurd (omega (arith, h))
  drop-append (suc n) (x ∷ a) b h = drop-append n a b (omega (arith, h))

  -- A list is a first part of any length that it has and the rest.
  pub cut_parts : (n : ℕ) (a : List A) → take n a ++ drop n a ≡ a
  unfolding take drop
  cut_parts zero a = refl
  cut_parts (suc n) [] = refl
  cut_parts (suc n) (x ∷ a) = ap (λ r. x ∷ r) (cut_parts n a)

  pub length-take : (n : ℕ) (a : List A) → n ≤ length a → length (take n a) ≡ n
  unfolding take
  length-take zero a h = refl
  length-take (suc n) [] h = absurd (omega (arith, h))
  length-take (suc n) (x ∷ a) h = omega (arith, length-take n a (omega (arith, h)))

  pub length-drop : (n : ℕ) (a : List A) → length (drop n a) ≡ length a - n
  unfolding drop
  length-drop zero a = omega arith
  length-drop (suc n) [] = omega arith
  length-drop (suc n) (x ∷ a) = omega (arith, length-drop n a)

  -- A write of `bytes` at an offset: memcpy.
  unfoldable pub write_at : ℕ → List A → List A → List A
  write_at at bytes m = take at m ++ (bytes ++ drop (at + length bytes) m)

  -- memmove(m + dst, m + src, n).
  unfoldable pub move : ℕ → ℕ → ℕ → List A → List A
  move dst src n m = write_at dst (take n (drop src m)) m

  pub write_at-append :
      (at : ℕ) (bytes a old b : List A)
      → at ≡ length a
      → length bytes ≡ length old
      → write_at at bytes (a ++ (old ++ b)) ≡ a ++ (bytes ++ b)
  unfolding write_at
  write_at-append at bytes a old b h l =
      let past : at + length bytes ≡ length (a ++ old) = omega (arith, h, l, length-append a old) in
      ap₂ (λ x y. x ++ (bytes ++ y)) (take-append at a (old ++ b) h)
        (ap (drop (at + length bytes)) (sym (append_assoc a old b))
          ∙ drop-append _ (a ++ old) b past)

module _ {ℓ} {A : Type ℓ} where
  -- A list cut in two.
  pub cut :
      (n : ℕ) (a : List A)
      → n ≤ length a
      → (x : List A) × (y : List A) × (a ≡ x ++ y) × (length x ≡ n)
  cut n a h = (take n a, drop n a, sym (cut_parts n a), length-take n a h)

  -- A write over the start of the bytes from an offset on.
  pub write_over :
      (at : ℕ) (bytes a z : List A)
      → at ≡ length a
      → length bytes ≤ length z
      → (y : List A) × (write_at at bytes (a ++ z) ≡ a ++ (bytes ++ y))
        × (length bytes + length y ≡ length z)
  write_over at bytes a z h l =
      let (old, y, same, n) = cut (length bytes) z l in
      (
        y,
        ap (λ r. write_at at bytes (a ++ r)) same ∙ write_at-append at bytes a old y h (sym n),
        omega (arith, n, ap length same, length-append old y),
      )

  -- A move of `mid` down or up.
  pub move_lem :
      (dst src n : ℕ) (m mid t : List A)
      → drop src m ≡ mid ++ t
      → n ≡ length mid
      → move dst src n m ≡ write_at dst mid m
  unfolding move
  move_lem dst src n m mid t e h =
      ap (λ r. write_at dst r m) (ap (take n) e ∙ take-append n mid t h)

-- The word of `w` bytes, lowest first, and its value.
unfoldable pub word_bytes : ℕ → ℕ → List ℕ
word_bytes zero v = []
word_bytes (suc w) v = v % 256 ∷ word_bytes w (v / 256)

unfoldable pub word_value : ℕ → List ℕ → ℕ
word_value zero q = 0
word_value (suc w) [] = 0
word_value (suc w) (b ∷ q) = b + 256 * word_value w q

pub length-word_bytes : (w v : ℕ) → length (word_bytes w v) ≡ w
unfolding word_bytes
length-word_bytes zero v = refl
length-word_bytes (suc w) v = ap suc (length-word_bytes w (v / 256))

pub word_value-word_bytes :
    (w v : ℕ) (q : List ℕ) → v < 256 ^ w → word_value w (word_bytes w v ++ q) ≡ v
unfolding word_bytes word_value
word_value-word_bytes zero v q h = omega (arith, h)
word_value-word_bytes (suc w) v q h =
    omega (arith, word_value-word_bytes w (v / 256) q (omega (arith, h, pow-suc 256 w)))

-- What is assumed of zrealloc: it keeps a first part that fits the new size, and has that size.
pub record IsRealloc (realloc : List ℕ → ℕ → List ℕ) : Type 0 where
  pub keeps :
      (x y : List ℕ) (n : ℕ)
      → length x ≤ n
      → (g : List ℕ) × (realloc (x ++ y) n ≡ x ++ g) × (length x + length g ≡ n)
