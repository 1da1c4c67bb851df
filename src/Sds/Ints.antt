-- ===== src/Sds/Ints.antt =====
-- The ints and sizes of sds.c below 2^31: no conversion and no sum changes them.
use libredis_a.Common.{
  ℕ, zero, suc, ◌+◌, ◌-◌, ◌*◌, ◌%◌, ◌^◌, ◌≤◌, ◌<◌, ◌≡◌, refl, true, arith, ltb, leb, if◌then◌else◌,
}
use libredis_a.Common.Int.{pos, negsuc, ◌+ℤ◌, minus}
use libredis_a.Common.Bytes.{to_word, of_word}
use libredis_a.Sds.Buffer.{size_of, int_of, add_int, add_size, sub_size}

pub size_of_pos : (n : ℕ) → n < 2 ^ 31 → size_of (pos n) ≡ n
unfolding size_of to_word
size_of_pos n h = omega (arith, h)

pub int_of_pos : (n : ℕ) → n < 2 ^ 31 → int_of n ≡ pos n
unfolding int_of of_word
int_of_pos n h =
    let small : n % 2 ^ 32 ≡ n = omega (arith, h) in
    let e : ltb (2 * n) (256 ^ 4) ≡ true = ground (arith, h) in rw small (rw e refl)

pub add_int_pos : (a b : ℕ) → a + b < 2 ^ 31 → add_int (pos a) (pos b) ≡ pos (a + b)
unfolding add_int of_word to_word ◌+ℤ◌
add_int_pos a b h = ground (arith, h)

pub add_size_small : (a b : ℕ) → a + b < 2 ^ 64 → add_size a b ≡ a + b
unfolding add_size
add_size_small a b h = omega (arith, h)

pub sub_size_small : (a b : ℕ) → b ≤ a → a < 2 ^ 64 → sub_size a b ≡ a - b
unfolding sub_size
sub_size_small a b h k = omega (arith, h, k)

-- A negative index of a string, as sdsrange computes it.
pub from_end_negsuc :
    (len n : ℕ)
    → len < 2 ^ 31
    → n < 2 ^ 31
    → int_of (add_size len (size_of (negsuc n)))
      ≡ (if leb (n + 1) len then pos (len - (n + 1)) else negsuc (n - len))
unfolding int_of add_size size_of of_word to_word
from_end_negsuc len n h k = ground (arith, h, k)

pub sub_int_pos : (a b : ℕ) → a ≤ b → b < 2 ^ 31 → add_int (pos b) (minus (pos a)) ≡ pos (b - a)
unfolding add_int of_word to_word ◌+ℤ◌
sub_int_pos zero b h k = ground (arith, h, k)
sub_int_pos (suc a) b h k = ground (arith, h, k)
