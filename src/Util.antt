-- ===== src/Util.antt =====
-- util.c: how long long integers are printed, and which strings are such prints. Characters are
-- bytes. strtoll is the C library's, a parameter that returns the value and what is left at endptr.
pub mod Decimal
pub mod Canonical
pub mod Strtoll
mod Examples
use libredis_a.Common.{
  ℕ, zero, suc, ◌+◌, ◌-◌, ◌*◌, ◌/◌, ◌%◌, ◌^◌, Bool, true, false, ◌&&◌, ◌||◌, not, Option, none,
  some, List, [], ◌∷◌, ltb, ◌==◌, if◌then◌else◌, length,
}
use libredis_a.Common.Int.{ℤ, pos, negsuc, ltb_ℤ}

-- `v = (value < 0) ? -value : value`.
abbrev pub magnitude : ℤ → ℕ
magnitude (pos n) = n
magnitude (negsuc n) = n + 1

-- `do … while (v)`, from the last digit to the first.
unfoldable pub digits_loop : ℕ → ℕ → List ℕ → List ℕ
digits_loop zero v buf = buf
digits_loop (suc fuel) v buf =
    let buf1 = (48 + v % 10) ∷ buf in
    let more = digits_loop fuel (v / 10) buf1 in if v / 10 == 0 then buf1 else more

-- What stands in `buf` from `p` on; a long long has at most 19 digits.
unfoldable pub text : ℤ → List ℕ
text value =
    let digits = digits_loop 20 (magnitude value) [] in
    if ltb_ℤ value (pos 0) then 45 ∷ digits else digits

-- The first `n` characters, as memcpy copies them.
unfoldable pub copy : ℕ → List ℕ → List ℕ
copy zero s = []
copy (suc n) [] = []
copy (suc n) (c ∷ s) = c ∷ copy n s

-- `ll2string` into a buffer of `len` bytes: what it writes before the nul, and what it returns.
unfoldable pub ll2string : ℕ → ℤ → List ℕ × ℕ
ll2string len value =
    let p = text value in
    let l : ℕ = if ltb len (length p + 1) then len - 1 else length p in
    if len == 0 then ([], 0) else (copy l p, l)

-- memcmp over strings of one length.
unfoldable pub same_bytes : List ℕ → List ℕ → Bool
same_bytes [] [] = true
same_bytes [] (c ∷ t) = false
same_bytes (c ∷ s) [] = false
same_bytes (c ∷ s) (b ∷ t) = (c == b) && same_bytes s t

-- `endptr[0] == '\0'`: an sds string has a nul after its last byte.
abbrev pub at_nul : List ℕ → Bool
at_nul [] = true
at_nul (c ∷ s) = c == 0

-- `isStringRepresentableAsLongLong`: none is REDIS_ERR.
unfoldable pub string_as_long_long : (List ℕ → ℤ × List ℕ) → List ℕ → Option ℤ
string_as_long_long strtoll s =
    let (value, rest) = strtoll s in
    let (buf, slen) = ll2string 32 value in
    if not (at_nul rest)
    then none
    else if not (length s == slen) || not (same_bytes buf s)
    then none
    else some value

-- The range check of `isStringRepresentableAsLong`, where LONG_MIN and LONG_MAX are those of 64 bits.
unfoldable pub long_of : Option ℤ → Option ℤ
long_of none = none
long_of (some ll) =
    if ltb_ℤ ll (negsuc (2 ^ 63 - 1)) || ltb_ℤ (pos (2 ^ 63 - 1)) ll then none else some ll

unfoldable pub string_as_long : (List ℕ → ℤ × List ℕ) → List ℕ → Option ℤ
string_as_long strtoll s = long_of (string_as_long_long strtoll s)
