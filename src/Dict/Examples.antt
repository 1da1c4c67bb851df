-- ===== src/Dict/Examples.antt =====
-- Runs of dict.c over numbers, and its theorems at concrete inputs.
use libredis_a.Common.{
  ℕ, ◌+◌, ◌≤◌, ◌<◌, ◌≡◌, ◌≢◌, refl, ◌⊎◌, true, false, List, [], ◌∷◌, none, some, arith, ◌==◌,
  ==_iff, ◌*◌, ◌^◌,
}
use libredis_a.Dict.{
  DictType, Dict, initial_size, next_power_loop, next_power, reset_ht, create, dict_size, expand,
  scan, empty, find_in, push, move_chain, rehash_bucket, rehash, rehash_step, find, fetch_value,
  change_in, write_found, unlink, delete, add_at, resize, expand_if_needed, key_index, add, replace,
  super_replace, update_key,
}
use libredis_a.Dict.Valid.{Valid, Keeps, lookup}
use libredis_a.Dict.Rehash.{rehash-Keeps, rehash_finishes}
use libredis_a.Dict.Expand.{expand-Keeps, next_power_lem}
use libredis_a.Dict.Find.{find-lookup}
use libredis_a.Dict.Delete.{Deletes, delete-Deletes}
use libredis_a.Dict.Add.{Gains}
use libredis_a.Dict.Write.{Maps}
use libredis_a.Dict.Replace.{
  Replaces, with_value, with_version, new_version, add-Adds, replace-Replaces,
  super_replace-Replaces, update_key-Maps,
}
use libredis_a.Dict.History.{Call, add_call, delete_call, step, run, meaning, Stands, run-Stands}

-- Keys with a version: the first number is the key, the second its version.
abbrev numbers : DictType (ℕ × ℕ)
numbers = record {
  hash_function = λ a. a.0;
  key_compare = λ a b. a.0 == b.0;
  change_version = λ a b. (a.0, b.1);
  compare_refl = λ a. (==_iff (a.0) (a.0)).1 refl;
  compare_trans = λ a b c h. ground arith;
  compare_sym = λ a b. ground arith;
  compare_hash = λ a b h. ground arith;
  change_compare = λ a b. (==_iff (a.0) (a.0)).1 refl;
}

program : Unit {0}
unfolding next_power_loop next_power reset_ht create dict_size expand scan empty find_in push
    move_chain rehash_bucket rehash rehash_step find fetch_value change_in write_found unlink delete
    add_at resize expand_if_needed key_index add replace super_replace update_key step run
program = tt

-- Five additions to the four buckets of the first table, the last of which starts a rehash.
abbrev five : List (Call (ℕ × ℕ) ℕ)
five =
    add_call true (9, 0) 90
    ∷ add_call true (5, 0) 50
    ∷ add_call true (3, 0) 30
    ∷ add_call true (2, 0) 20
    ∷ add_call true (1, 0) 10
    ∷ []

five_dict : Dict (ℕ × ℕ) ℕ
five_dict = run numbers five

five_rehashes : five_dict.rehashidx ≡ some 0
unfolding program five_dict
five_rehashes = refl

five_find : (find numbers five_dict (5, 7)).1 ≡ some ((5, 0), 50)
unfolding program five_dict
five_find = refl

five_delete :
    ((delete numbers five_dict (5, 7)).1 ≡ true)
    × (dict_size (delete numbers five_dict (5, 7)).0 ≡ 4)
unfolding program five_dict
five_delete = (refl, refl)

five_replace : (fetch_value numbers (replace numbers true five_dict (3, 4) 31).0 (3, 0)).1 ≡ some 31
unfolding program five_dict
five_replace = refl

five_update : (find numbers (update_key numbers five_dict (3, 4)).0 (3, 0)).1 ≡ some ((3, 4), 30)
unfolding program five_dict
five_update = refl

five_empty : dict_size (empty five_dict) ≡ 0
unfolding program
five_empty = refl

five-Valid : Valid numbers five_dict
unfolding five_dict
five-Valid = (run-Stands numbers five).valid

run-Stands_example :
    Stands numbers
      (run numbers (delete_call (5, 0) ∷ five))
      (meaning numbers (delete_call (5, 0) ∷ five))
run-Stands_example = run-Stands numbers (delete_call (5, 0) ∷ five)

next_power_lem_example :
    (100 ≤ next_power 100)
    × ((k : ℕ) × (next_power 100 ≡ 2 ^ (k + 2)))
    × ((next_power 100 ≡ initial_size) ⊎ (next_power 100 < 2 * 100))
next_power_lem_example = next_power_lem 100 (omega arith)

rehash-Keeps_example : Keeps numbers five_dict (rehash numbers 2 five_dict).0
rehash-Keeps_example = rehash-Keeps numbers 2 five_dict five-Valid

five_used : five_dict.ht0.used < 5
unfolding program five_dict
five_used = omega arith

rehash_finishes_example :
    ((rehash numbers 5 five_dict).1 ≡ false) × ((rehash numbers 5 five_dict).0.rehashidx ≡ none)
rehash_finishes_example = rehash_finishes numbers 5 five_dict five-Valid five_used

expand-Keeps_example : Keeps numbers five_dict (expand five_dict 12).0
expand-Keeps_example = expand-Keeps numbers five_dict 12 five-Valid

find-lookup_example :
    Keeps numbers five_dict (find numbers five_dict (5, 0)).0
    × ((find numbers five_dict (5, 0)).1 ≡ lookup numbers five_dict (5, 0))
find-lookup_example = find-lookup numbers five_dict five-Valid (5, 0)

delete-Deletes_example : Deletes numbers five_dict (5, 0) five-Valid
delete-Deletes_example = delete-Deletes numbers five_dict (5, 0) five-Valid

add-Adds_example :
    (lookup numbers five_dict (4, 0) ≡ none)
      × ((add numbers true five_dict (4, 0) 40).1 ≡ true)
      × Gains numbers five_dict (4, 0) 40 (add numbers true five_dict (4, 0) 40).0
    ⊎ (lookup numbers five_dict (4, 0) ≢ none)
      × ((add numbers true five_dict (4, 0) 40).1 ≡ false)
      × Keeps numbers five_dict (add numbers true five_dict (4, 0) 40).0
add-Adds_example = add-Adds numbers true five_dict (4, 0) 40 five-Valid

replace-Replaces_example :
    Replaces numbers
      (with_value numbers 31)
      five_dict
      (3, 1)
      31
      (replace numbers true five_dict (3, 1) 31)
replace-Replaces_example = replace-Replaces numbers true five_dict (3, 1) 31 five-Valid

super_replace-Replaces_example :
    Replaces numbers
      (with_version numbers (3, 1) 31)
      five_dict
      (3, 1)
      31
      (super_replace numbers true five_dict (3, 1) 31)
super_replace-Replaces_example = super_replace-Replaces numbers true five_dict (3, 1) 31 five-Valid

update_key-Maps_example :
    (lookup numbers five_dict (3, 1) ≢ none)
      × ((update_key numbers five_dict (3, 1)).1 ≡ true)
      × Maps numbers
          (new_version numbers (3, 1))
          five_dict
          (3, 1)
          (update_key numbers five_dict (3, 1)).0
    ⊎ (lookup numbers five_dict (3, 1) ≡ none)
      × ((update_key numbers five_dict (3, 1)).1 ≡ false)
      × Keeps numbers five_dict (update_key numbers five_dict (3, 1)).0
update_key-Maps_example = update_key-Maps numbers five_dict (3, 1) five-Valid
