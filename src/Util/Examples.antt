-- ===== src/Util/Examples.antt =====
-- Runs of util.c, and its theorems at concrete inputs.
use libredis_a.Common.{◌<◌, ◌≡◌, refl, ◌↔◌, ◌⊎◌, none, some, [], ◌∷◌, arith, length}
use libredis_a.Common.Int.{ℤ, negsuc}
use libredis_a.Common.Bytes.{Fits}
use libredis_a.Util.{
  digits_loop, text, copy, ll2string, same_bytes, string_as_long_long, string_as_long,
}
use libredis_a.Util.Canonical.{Prints, ll2string_lem, string_as_long_lem}
use libredis_a.Util.Strtoll.{strtoll, strtoll-IsStrtoll}

program : Unit {0}
unfolding digits_loop text copy ll2string same_bytes string_as_long_long string_as_long
program = tt

-- "-120", and its first two characters where the buffer has three bytes.
print_negative : ll2string 32 (negsuc 119) ≡ (45 ∷ 49 ∷ 50 ∷ 48 ∷ [], 4)
unfolding program
print_negative = refl

print_short : ll2string 3 (negsuc 119) ≡ (45 ∷ 49 ∷ [], 2)
unfolding program
print_short = refl

ll2string_lem_example :
    (Prints (negsuc 119) (ll2string 32 (negsuc 119)).0 ⊎ (32 < 22))
    × ((ll2string 32 (negsuc 119)).1 < 32)
    × (length (ll2string 32 (negsuc 119)).0 ≡ (ll2string 32 (negsuc 119)).1)
ll2string_lem_example = ll2string_lem 32 (negsuc 119) (omega arith) (omega arith)

string_as_long_lem_example :
    ((v : ℤ)
      → (string_as_long_long strtoll (45 ∷ 55 ∷ []) ≡ some v)
        ↔ (Fits 8 v × ((ll2string 32 v).0 ≡ 45 ∷ 55 ∷ [])))
    × (string_as_long strtoll (45 ∷ 55 ∷ []) ≡ string_as_long_long strtoll (45 ∷ 55 ∷ []))
string_as_long_lem_example = string_as_long_lem strtoll strtoll-IsStrtoll (45 ∷ 55 ∷ [])

-- "-7" is the print of an integer, "007" is not.
reads_seven : string_as_long_long strtoll (45 ∷ 55 ∷ []) ≡ some (negsuc 6)
unfolding program
reads_seven = refl

zeros_refused : string_as_long_long strtoll (48 ∷ 48 ∷ 55 ∷ []) ≡ none
unfolding program
zeros_refused = refl
