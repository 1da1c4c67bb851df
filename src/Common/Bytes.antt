-- ===== src/Common/Bytes.antt =====
-- Raw memory: a block of bytes addressed from 0, with little-endian words of any width, the C
-- library's memmove, and the allocator that the containers stand on.
use Prim.Native.Nat.{ℕ, zero, suc, ◌+◌, ◌-◌, ◌*◌, ◌/◌, ◌%◌, ◌^◌, ◌≤◌, ◌<◌}
use mathlib.Core.Path.{◌≡◌, refl, ap}
use mathlib.Core.Bool.{◌&&◌}
use mathlib.Core.Logic.{◌⊎◌, inl, inr}
use native.Mathlib.Nat.{pow-suc, mod-eq_of_lt}
use native.Mathlib.Omega.{arith}
use libredis_a.Common.Int.{ℤ, pos, negsuc}
use libredis_a.Common.Tests.{ltb, leb, ◌==◌, if◌then◌else◌, Bool-cases, ltb→lt, ltb→le}

-- A byte is read modulo 256.
abbrev pub Bytes : Type 0
Bytes = ℕ → ℕ

-- The word of `w` bytes at offset `o`, lowest byte first.
unfoldable pub load : ℕ → ℕ → Bytes → ℕ
load zero o m = 0
load (suc w) o m = m o % 256 + 256 * load w (o + 1) m

unfoldable pub store : ℕ → ℕ → ℕ → Bytes → Bytes
store zero o v m = m
store (suc w) o v m = store w (o + 1) (v / 256) (λ i. if i == o then v % 256 else m i)

-- memmove(dst, src, n) inside one block: the source is read as it stood before.
unfoldable pub memmove : ℕ → ℕ → ℕ → Bytes → Bytes
memmove dst src n m = λ i. if leb dst i && ltb i (dst + n) then m (src + (i - dst)) else m i

-- The two's complement of an integer in `w` bytes, and the integer that a word stands for.
unfoldable pub to_word : ℕ → ℤ → ℕ
to_word w (pos n) = n % 256 ^ w
to_word w (negsuc n) = 256 ^ w - 1 - n % 256 ^ w

unfoldable pub of_word : ℕ → ℕ → ℤ
of_word w u = if ltb (2 * u) (256 ^ w) then pos u else negsuc (256 ^ w - 1 - u)

-- The integers of `w` bytes: -2^(8w-1) up to 2^(8w-1) - 1.
abbrev pub Fits : ℕ → ℤ → Type 0
Fits w (pos n) = 2 * n < 256 ^ w
Fits w (negsuc n) = 2 * n < 256 ^ w

-- A signed load and store.
unfoldable pub load_int : ℕ → ℕ → Bytes → ℤ
load_int w o m = of_word w (load w o m)

unfoldable pub store_int : ℕ → ℕ → ℤ → Bytes → Bytes
store_int w o v m = store w o (to_word w v) m

-- What a container asks of the C library's allocator. A block that grows or shrinks keeps the
-- bytes that the old and the new size share; nothing is said of the others.
pub record Allocator : Type 0 where
  pub fresh : Bytes
  pub realloc : Bytes → ℕ → ℕ → Bytes
  pub realloc_keeps : (m : Bytes) (old new i : ℕ) → i < old → i < new → realloc m old new i ≡ m i

-- Bytes outside the stored word keep their values.
pub store_outside : (w o v : ℕ) (m : Bytes) (i : ℕ) → (i < o) ⊎ (o + w ≤ i) → store w o v m i ≡ m i
unfolding store
store_outside zero o v m i h = refl
store_outside (suc w) o v m i h =
    ground (arith, store_outside w (o + 1) (v / 256) (λ j. if j == o then v % 256 else m j) i)

-- A word depends on its own bytes only.
pub load_cong :
    (w o o' : ℕ) (m m' : Bytes)
    → ((k : ℕ) → k < w → m (o + k) ≡ m' (o' + k))
    → load w o m ≡ load w o' m'
unfolding load
load_cong zero o o' m m' h = refl
load_cong (suc w) o o' m m' h = ground (
  arith,
  rw ((let e : o + 0 ≡ o = omega arith in e), (let e : o' + 0 ≡ o' = omega arith in e)) at
      (h 0 (omega arith)),
  load_cong w (o + 1) (o' + 1) m m' (λ k lt. tail k lt),
)
  where
    tail : (k : ℕ) → k < w → m (o + 1 + k) ≡ m' (o' + 1 + k)
    tail k lt =
        let e : o + suc k ≡ o + 1 + k = omega arith in
        let e' : o' + suc k ≡ o' + 1 + k = omega arith in rw (e, e') at (h (suc k) (omega arith))

-- A store is read back when the value fits the word.
pub load-store : (w o v : ℕ) (m : Bytes) → v < 256 ^ w → load w o (store w o v m) ≡ v
unfolding load store
load-store zero o v m h = omega arith
load-store (suc w) o v m h = ground (
  arith,
  store_outside w (o + 1) (v / 256) (λ j. if j == o then v % 256 else m j) o,
  load-store w (o + 1) (v / 256) (λ j. if j == o then v % 256 else m j)
      (omega (arith, pow-suc 256 w)),
)

-- A store beside a word leaves it alone.
pub load-store_outside :
    (w o w' o' v : ℕ) (m : Bytes)
    → (o + w ≤ o') ⊎ (o' + w' ≤ o)
    → load w o (store w' o' v m) ≡ load w o m
load-store_outside w o w' o' v m h =
    load_cong w o o (store w' o' v m) m (λ k lt. store_outside w' o' v m (o + k) (omega arith))

pub load-lt : (w o : ℕ) (m : Bytes) → load w o m < 256 ^ w
unfolding load
load-lt zero o m = omega arith
load-lt (suc w) o m = omega (arith, pow-suc 256 w, load-lt w (o + 1) m)

pow-pos_256 : (w : ℕ) → 0 < 256 ^ w
pow-pos_256 zero = omega arith
pow-pos_256 (suc w) = omega (arith, pow-suc 256 w, pow-pos_256 w)

even_256 : (w : ℕ) → 256 ^ suc w % 2 ≡ 0
even_256 w = omega (arith, pow-suc 256 w)

pub to_word-lt : (w : ℕ) (v : ℤ) → to_word w v < 256 ^ w
unfolding to_word
to_word-lt w (pos n) = omega (arith, pow-pos_256 w)
to_word-lt w (negsuc n) = omega (arith, pow-pos_256 w)

-- An integer that fits survives the trip through its word.
pub of_word-to_word : (w : ℕ) (v : ℤ) → Fits (suc w) v → of_word (suc w) (to_word (suc w) v) ≡ v
unfolding to_word of_word
of_word-to_word w (pos n) h = ground (arith, mod-eq_of_lt {n = n} {m = 256 ^ suc w} (omega arith))
of_word-to_word w (negsuc n) h =
    ground (arith, even_256 w, mod-eq_of_lt {n = n} {m = 256 ^ suc w} (omega arith))

pub of_word-Fits : (w u : ℕ) → u < 256 ^ suc w → Fits (suc w) (of_word (suc w) u)
unfolding of_word
of_word-Fits w u h = elim (Bool-cases (ltb (2 * u) (256 ^ suc w))) [
  | inl e ↦ rw e (ltb→lt _ _ e)
  | inr e ↦ rw e (omega (arith, ltb→le _ _ e))
]

-- A narrower integer fits a wider word.
pub Fits-mono : (w w' : ℕ) (v : ℤ) → 256 ^ w ≤ 256 ^ w' → Fits w v → Fits w' v
Fits-mono w w' (pos n) h f = omega arith
Fits-mono w w' (negsuc n) h f = omega arith

pub load_int-Fits : (w o : ℕ) (m : Bytes) → 0 < w → Fits w (load_int w o m)
unfolding load_int
load_int-Fits zero o m h = elim h [ ]
load_int-Fits (suc w) o m h = of_word-Fits w _ (load-lt (suc w) o m)

pub load_int-store_int :
    (w o : ℕ) (v : ℤ) (m : Bytes) → 0 < w → Fits w v → load_int w o (store_int w o v m) ≡ v
unfolding load_int store_int
load_int-store_int zero o v m p h = elim p [ ]
load_int-store_int (suc w) o v m p h =
    rw (load-store (suc w) o (to_word (suc w) v) m (to_word-lt (suc w) v)) (of_word-to_word w v h)

pub load_int-store_int_outside :
    (w o w' o' : ℕ) (v : ℤ) (m : Bytes)
    → (o + w ≤ o') ⊎ (o' + w' ≤ o)
    → load_int w o (store_int w' o' v m) ≡ load_int w o m
unfolding load_int store_int
load_int-store_int_outside w o w' o' v m h =
    ap (of_word w) (load-store_outside w o w' o' (to_word w' v) m h)

pub load_int_cong :
    (w o o' : ℕ) (m m' : Bytes)
    → ((k : ℕ) → k < w → m (o + k) ≡ m' (o' + k))
    → load_int w o m ≡ load_int w o' m'
unfolding load_int
load_int_cong w o o' m m' h = ap (of_word w) (load_cong w o o' m m' h)

pub memmove_inside :
    (dst src n i : ℕ) (m : Bytes)
    → dst ≤ i
    → i < dst + n
    → memmove dst src n m i ≡ m (src + (i - dst))
unfolding memmove
memmove_inside dst src n i m p q = ground arith

pub memmove_outside :
    (dst src n i : ℕ) (m : Bytes) → (i < dst) ⊎ (dst + n ≤ i) → memmove dst src n m i ≡ m i
unfolding memmove
memmove_outside dst src n i m p = ground arith
