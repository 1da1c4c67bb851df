-- ===== src/IntSet/Examples.antt =====
-- Runs of intset.c, and its theorems at concrete inputs.
use libredis_a.Common.{ℕ, ◌+◌, ◌≤◌, ◌<◌, ◌≡◌, ◌≢◌, refl, ◌↔◌, ◌⊎◌, true, [], ◌∷◌, none, some, arith}
use libredis_a.Common.Int.{ℤ, pos, negsuc, ◌<ℤ◌}
use libredis_a.Common.Bytes.{Allocator, load, store, memmove, to_word, of_word, load_int, store_int}
use libredis_a.IntSet.{
  IntSet, value_encoding, get_encoded, get, set, search_loop, search, move_tail, upgrade_loop,
  get_at, random, find, len, new, resize, upgrade_and_add, add, remove,
}
use libredis_a.IntSet.Search.{Answers, search-Answers}
use libredis_a.IntSet.Splice.{IsValid, Member}
use libredis_a.IntSet.Members.{Becomes, add-Becomes, remove-Becomes, find-Member}
use libredis_a.IntSet.History.{insert, delete, Holds, run, run-Becomes, get_at_lem}

-- An allocator that copies nothing more than it must.
abbrev plain : Allocator
plain = record { fresh = λ i. 7; realloc = λ m old new. m; realloc_keeps = λ m old new i p q. refl }

program : Unit {0}
unfolding load store memmove to_word of_word load_int store_int value_encoding get_encoded get set
    search_loop search move_tail upgrade_loop get_at random find len new resize upgrade_and_add add
    remove run
program = tt

-- 5, -70000 (which widens the set), 6, and 5 again.
four_adds : IntSet
four_adds =
    run plain (insert (pos 5) ∷ insert (pos 6) ∷ insert (negsuc 69999) ∷ insert (pos 5) ∷ [])

four_adds-len : len four_adds ≡ 3
unfolding program four_adds
four_adds-len = refl

four_adds_first : get_at four_adds 0 ≡ some (negsuc 69999)
unfolding program four_adds
four_adds_first = refl

four_adds_last : get_at four_adds 2 ≡ some (pos 6)
unfolding program four_adds
four_adds_last = refl

four_adds-IsValid : IsValid four_adds
unfolding four_adds
four_adds-IsValid = (run-Becomes plain _ (omega arith) (omega arith)).valid

run-Becomes_example :
    Becomes
      (run plain (delete (pos 5) ∷ insert (negsuc 69999) ∷ insert (pos 5) ∷ []))
      3
      (Holds (delete (pos 5) ∷ insert (negsuc 69999) ∷ insert (pos 5) ∷ []))
run-Becomes_example =
    run-Becomes plain (delete (pos 5) ∷ insert (negsuc 69999) ∷ insert (pos 5) ∷ []) (omega arith)
      (omega arith)

search-Answers_example : Answers four_adds (pos 6) (search four_adds (pos 6))
search-Answers_example = search-Answers four_adds (pos 6) (four_adds-IsValid.ascending)

find-Member_example : (find four_adds (pos 7) ≡ true) ↔ Member four_adds (pos 7)
find-Member_example = find-Member four_adds (pos 7) four_adds-IsValid

add-Becomes_example :
    Becomes
      (add plain four_adds (pos 4_000_000_000)).0
      (four_adds.length + 1)
      (λ x. (x ≡ pos 4_000_000_000) ⊎ Member four_adds x)
    × (((add plain four_adds (pos 4_000_000_000)).1 ≡ true)
        ↔ (¬ Member four_adds (pos 4_000_000_000)))
unfolding program four_adds
add-Becomes_example =
    add-Becomes plain four_adds (pos 4_000_000_000) four_adds-IsValid (omega arith) (omega arith)

remove-Becomes_example :
    Becomes
      (remove plain four_adds (pos 5)).0
      four_adds.length
      (λ x. (x ≢ pos 5) × Member four_adds x)
    × (((remove plain four_adds (pos 5)).1 ≡ true) ↔ Member four_adds (pos 5))
remove-Becomes_example = remove-Becomes plain four_adds (pos 5) four_adds-IsValid

get_at_lem_example :
    ((i : ℕ) → (get_at four_adds i ≡ none) ↔ (len four_adds ≤ i))
    × ((x : ℤ) → Member four_adds x ↔ ((i : ℕ) × (get_at four_adds i ≡ some x)))
    × ((i j : ℕ) (x y : ℤ)
        → get_at four_adds i ≡ some x
        → get_at four_adds j ≡ some y
        → i < j
        → x <ℤ y)
get_at_lem_example = get_at_lem four_adds four_adds-IsValid
