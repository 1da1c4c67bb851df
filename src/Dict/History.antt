-- ===== src/Dict/History.antt =====
-- Any sequence of calls on a new dictionary, against a map that is a list of the calls.
use libredis_a.Common.{
  ℕ, ◌≡◌, ◌≢◌, refl, sym, ap, ◌∙◌, inl, inr, Bool, true, false, List, [], ◌∷◌, Option, none, some,
  arith, if◌then◌else◌, Bool-cases, is_some,
}
use mathlib.Core.Option
use libredis_a.Dict.{
  DictType, Dict, find_in, reset_ht, create, find, rehash, resize, add, replace, delete,
}
use libredis_a.Dict.Chains.{count_in}
use libredis_a.Dict.Tables.{total}
use libredis_a.Dict.Valid.{Valid, lookup, Keeps}
use libredis_a.Dict.Rehash.{rehash-Keeps}
use libredis_a.Dict.Expand.{resize-Keeps}
use libredis_a.Dict.Find.{find-lookup}
use libredis_a.Dict.Add.{Gains, lookup_cong}
use libredis_a.Dict.Delete.{delete-Deletes}
use libredis_a.Dict.Replace.{with_value, add-Adds, replace-Replaces}

-- The calls of dict.h that change a dictionary, `find_call` through its rehashing step. The flags
-- are the state of `dict_can_resize` at the call.
pub data Call {ℓ κ} (K : Type ℓ) (V : Type κ) : Type (ℓ ⊔ κ) where
  add_call : Bool → K → V → Call K V
  replace_call : Bool → K → V → Call K V
  delete_call : K → Call K V
  find_call : K → Call K V
  rehash_call : ℕ → Call K V
  resize_call : Bool → Call K V

module _ {ℓ κ} {K : Type ℓ} {V : Type κ} (type : DictType K) where
  unfoldable pub step : Call K V → Dict K V → Dict K V
  step (add_call b k v) d = (add type b d k v).0
  step (replace_call b k v) d = (replace type b d k v).0
  step (delete_call k) d = (delete type d k).0
  step (find_call k) d = (find type d k).0
  step (rehash_call n) d = (rehash type n d).0
  step (resize_call b) d = (resize type b d).0

  -- The last call stands first.
  unfoldable pub run : List (Call K V) → Dict K V
  run [] = create
  run (c ∷ cs) = step c (run cs)

  -- The map after a call: the entry that each key finds.
  unfoldable pub effect : Call K V → (K → Option (K × V)) → K → Option (K × V)
  effect (add_call b k v) m q =
      if is_some (m k) then m q else if type.key_compare q k then some (k, v) else m q
  effect (replace_call b k v) m q =
      if is_some (m k)
      then if type.key_compare k q then Option.map (with_value type v) (m q) else m q
      else if type.key_compare q k
      then some (k, v)
      else m q
  effect (delete_call k) m q = if type.key_compare k q then none else m q
  effect (find_call k) m q = m q
  effect (rehash_call n) m q = m q
  effect (resize_call b) m q = m q

  unfoldable pub meaning : List (Call K V) → K → Option (K × V)
  meaning [] q = none
  meaning (c ∷ cs) q = effect c (meaning cs) q

  -- A dictionary that stands for a map.
  pub record Stands (d : Dict K V) (m : K → Option (K × V)) : Type (ℓ ⊔ κ) where
    pub valid : Valid type d
    pub agrees : (q : K) → lookup type d q ≡ m q

  pub create-Valid : Valid type (create {K = K} {V = V})
  unfolding create reset_ht count_in total
  create-Valid = record {
    valid0 = record { masked = inl refl; beyond = λ i h. refl; placed = λ i. tt; counted = refl };
    valid1 = record { masked = inl refl; beyond = λ i h. refl; placed = λ i. tt; counted = refl };
    unique = λ q. omega arith;
    phase = (refl, tt);
  }

  pub lookup-create : (q : K) → lookup type (create {K = K} {V = V}) q ≡ none
  unfolding create reset_ht find_in
  lookup-create q = refl

  is_some-none : (o : Option (K × V)) → o ≢ none → is_some o ≡ true
  is_some-none none h = absurd (h refl)
  is_some-none (some x) h = refl

  module _ (d : Dict K V) (m : K → Option (K × V)) (s : Stands d m) where
    -- A call that keeps the entries keeps the map.
    kept : (t : Dict K V) → Keeps type d t → Stands t m
    kept t k = record { valid = k.valid; agrees = λ q. k.same q ∙ s.agrees q }

    gained :
        (t : Dict K V) (k : K) (v : V)
        → Gains type d k v t
        → (q : K) → lookup type t q ≡ (if type.key_compare q k then some (k, v) else m q)
    gained t k v g q =
        g.entries q ∙ ap (λ o. if type.key_compare q k then some (k, v) else o) (s.agrees q)

    missing : (k : K) → lookup type d k ≡ none → is_some (m k) ≡ false
    missing k n = ap is_some (sym (s.agrees k) ∙ n)

    present : (k : K) → lookup type d k ≢ none → is_some (m k) ≡ true
    present k n = is_some-none (m k) (λ e. n (s.agrees k ∙ e))

    step-Stands : (c : Call K V) → Stands (step c d) (effect c m)
    unfolding step effect
    step-Stands (add_call b k v) = elim (add-Adds type b d k v s.valid) [
      | inl (n, ok, g) ↦ record {
        valid = g.valid;
        agrees = λ q. rw (missing k n) (gained _ k v g q);
      }
      | inr (n, ok, e) ↦ record {
        valid = e.valid;
        agrees = λ q. rw (present k n) (e.same q ∙ s.agrees q);
      }
    ]
    step-Stands (replace_call b k v) = elim (replace-Replaces type b d k v s.valid) [
      | inl (n, ok, g) ↦ record {
        valid = g.valid;
        agrees = λ q. rw (missing k n) (gained _ k v g q);
      }
      | inr (n, ok, e) ↦ record {
        valid = e.valid;
        agrees = λ q. rw (present k n) (
            e.entries q
            ∙ ap (λ o. if type.key_compare k q then Option.map (with_value type v) o else o)
                (s.agrees q));
      }
    ]
    step-Stands (delete_call k) = elim (delete-Deletes type d k s.valid) [
      | inl (n, ok, g) ↦ record {
        valid = g.valid;
        agrees = λ q. g.entries q ∙ ap (λ o. if type.key_compare k q then none else o) (s.agrees q);
      }
      | inr (n, ok, e) ↦ record {
        valid = e.valid;
        agrees = λ q. elim (Bool-cases (type.key_compare k q)) [
          | inl c ↦ rw c (e.same q ∙ lookup_cong type d q k (type.compare_sym q k ∙ c) ∙ n)
          | inr c ↦ rw c (e.same q ∙ s.agrees q)
        ];
      }
    ]
    step-Stands (find_call k) = kept _ (find-lookup type d s.valid k).0
    step-Stands (rehash_call n) = kept _ (rehash-Keeps type n d s.valid)
    step-Stands (resize_call b) = kept _ (resize-Keeps type b d s.valid)

  -- Whatever sequence of additions, replacements, deletions, searches, rehashing rounds and
  -- resizes is made on a new dictionary, it stays well formed and each key finds the entry that
  -- the map of those calls has.
  pub run-Stands : (cs : List (Call K V)) → Stands (run cs) (meaning cs)
  unfolding run meaning
  run-Stands [] = record { valid = create-Valid; agrees = lookup-create }
  run-Stands (c ∷ cs) = step-Stands (run cs) (meaning cs) (run-Stands cs) c
