-- ===== src/IntSet/History.antt =====
-- intset.c over its life: whatever calls a client makes on a new set, the set holds what the calls
-- say. The list has the latest call first.
use libredis_a.Common.{
  ℕ, ◌+◌, ◌≤◌, ◌<◌, ◌≡◌, ◌≢◌, ap, ◌∙◌, ◌⊎◌, ◌↔◌, inl, inr, List, [], ◌∷◌, none, some, arith, length,
}
use libredis_a.Common.Int.{ℤ, ◌<ℤ◌}
use libredis_a.Common.Bytes.{Fits, Allocator}
use libredis_a.IntSet.{IntSet, get, new, add, remove, get_at, len}
use libredis_a.IntSet.Values.{max_length}
use libredis_a.IntSet.Splice.{IsValid, Member}
use libredis_a.IntSet.Members.{Becomes, new-IsValid, add-Becomes, remove-Becomes}

pub data Call : Type 0 where
  insert : ℤ → Call
  delete : ℤ → Call

abbrev pub IsInt64 : List Call → Type 0
IsInt64 [] = Unit {0}
IsInt64 (insert v ∷ calls) = Fits 8 v × IsInt64 calls
IsInt64 (delete v ∷ calls) = IsInt64 calls

-- Inserted, and not deleted since.
abbrev pub Holds : List Call → ℤ → Type 0
Holds [] x = ⊥
Holds (insert v ∷ calls) x = (x ≡ v) ⊎ Holds calls x
Holds (delete v ∷ calls) x = (x ≢ v) × Holds calls x

map_right : {A B C : Type 0} → (B → C) → A ⊎ B → A ⊎ C
map_right f (inl x) = inl x
map_right f (inr y) = inr (f y)

module _ (a : Allocator) where
  unfoldable pub run : List Call → IntSet
  run [] = new a
  run (insert v ∷ calls) = (add a (run calls) v).0
  run (delete v ∷ calls) = (remove a (run calls) v).0

  -- After fewer than 2^29 - 1 insertions and deletions of 64-bit integers on a new intset, the set
  -- is well formed and its members are the values inserted and not deleted since.
  pub run-Becomes :
      (calls : List Call)
      → IsInt64 calls
      → length calls + 1 < max_length
      → Becomes (run calls) (length calls) (Holds calls)
  unfolding run
  run-Becomes [] w h = record {
    valid = (new-IsValid a).0;
    limited = unfold new in omega arith;
    members = λ x. ((new-IsValid a).1 x, λ n. absurd n);
  }
  run-Becomes (insert v ∷ calls) (w, ws) h =
      let ih = run-Becomes calls ws (omega arith) in
      let after = (add-Becomes a (run calls) v ih.valid w (omega (arith, ih.limited))).0 in
      record {
        valid = after.valid;
        limited = omega (arith, after.limited, ih.limited);
        members = λ x. (
          λ m. map_right (ih.members x).0 ((after.members x).0 m),
          λ m. (after.members x).1 (map_right (ih.members x).1 m),
        );
      }
  run-Becomes (delete v ∷ calls) ws h =
      let ih = run-Becomes calls ws (omega arith) in
      let after = (remove-Becomes a (run calls) v ih.valid).0 in
      record {
        valid = after.valid;
        limited = omega (arith, after.limited, ih.limited);
        members = λ x. (
          λ m. (((after.members x).0 m).0, (ih.members x).0 ((after.members x).0 m).1),
          λ m. (after.members x).1 (m.0, (ih.members x).1 m.1),
        );
      }

get_at-some : (is : IntSet) (i : ℕ) → i < is.length → get_at is i ≡ some (get is i)
unfolding get_at
get_at-some is i h = ground arith

get_at_inv : (is : IntSet) (i : ℕ) (x : ℤ) → get_at is i ≡ some x → (i < is.length) × (get is i ≡ x)
unfolding get_at
get_at_inv is i x h = ground arith

-- On a well-formed set intsetGet returns an element exactly at the indices below intsetLen, the
-- elements it returns are the members, and they ascend strictly with the index.
pub get_at_lem :
    (is : IntSet)
    → IsValid is
    → ((i : ℕ) → (get_at is i ≡ none) ↔ (len is ≤ i))
      × ((x : ℤ) → Member is x ↔ ((i : ℕ) × (get_at is i ≡ some x)))
      × ((i j : ℕ) (x y : ℤ) → get_at is i ≡ some x → get_at is j ≡ some y → i < j → x <ℤ y)
unfolding len
get_at_lem is valid = (absent, (λ x. (from x, to x)), ordered)
  where
    absent : (i : ℕ) → (get_at is i ≡ none) ↔ (is.length ≤ i)
    absent i = unfold get_at in (ground arith, ground arith)

    from : (x : ℤ) → Member is x → (i : ℕ) × (get_at is i ≡ some x)
    from x (i, h, e) = (i, get_at-some is i h ∙ ap some e)

    to : (x : ℤ) → (i : ℕ) × (get_at is i ≡ some x) → Member is x
    to x (i, e) = let (p, f) = get_at_inv is i x e in (i, p, f)

    ordered : (i j : ℕ) (x y : ℤ) → get_at is i ≡ some x → get_at is j ≡ some y → i < j → x <ℤ y
    ordered i j x y e f h =
        let (p, e') = get_at_inv is i x e in
        let (q, f') = get_at_inv is j y f in rw (← e', ← f') (valid.ascending i j h q)
