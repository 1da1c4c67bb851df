-- ===== src/Store.antt =====
-- What the keyspace asks of dict.c: a dictionary from strings, by the calls that db.c makes, and what
-- each call does to the entries that a dictionary has. `view` is the entry that a key finds.
pub mod FromDict
use libredis_a.Common.{ℕ, ◌≡◌, ◌≢◌, Bool, true, false, Option, none, some, is_some, if◌then◌else◌}
use mathlib.Core.Option
use libredis_a.Sds.{Sds, version_change, sds_key_compare}

pub record Store (V : Type 0) : Type 1 where
  pub Map : Type 0
  pub view : Map → Sds → Option (Sds × V)
  pub size : Map → ℕ
  pub find : Map → Sds → Map × Option (Sds × V)
  pub write : Map → Sds → (V → V) → Map
  pub add : Map → Sds → V → Map × Bool
  pub replace : Map → Sds → V → Map × Bool
  pub super_replace : Map → Sds → V → Map × Bool
  pub update_key : Map → Sds → Map × Bool
  pub delete : Map → Sds → Map × Bool
  pub empty : Map → Map
  pub view_cong : (m : Map) (a b : Sds) → sds_key_compare a b ≡ true → view m a ≡ view m b
  pub view_key :
      (m : Map) (k : Sds) (e : Sds × V) → view m k ≡ some e → sds_key_compare k (e.0) ≡ true
  pub size_zero : (m : Map) (q : Sds) → size m ≡ 0 → view m q ≡ none
  pub find_result : (m : Map) (k : Sds) → (find m k).1 ≡ view m k
  pub find_view : (m : Map) (k q : Sds) → view (find m k).0 q ≡ view m q
  -- A write through the pointer to the value of an entry that is there.
  pub write_view :
      (m : Map) (k : Sds) (f : V → V) (e : Sds × V) (q : Sds)
      → view m k ≡ some e
      → view (write m k f) q
        ≡ (if sds_key_compare k q then Option.map (λ x. (x.0, f (x.1))) (view m q) else view m q)
  pub add_result : (m : Map) (k : Sds) (v : V) → view m k ≡ none → (add m k v).1 ≡ true
  pub add_view :
      (m : Map) (k : Sds) (v : V) (q : Sds)
      → view m k ≡ none
      → view (add m k v).0 q ≡ (if sds_key_compare q k then some (k, v) else view m q)
  pub replace_new :
      (m : Map) (k : Sds) (v : V) (q : Sds)
      → view m k ≡ none
      → view (replace m k v).0 q ≡ (if sds_key_compare q k then some (k, v) else view m q)
  pub replace_view :
      (m : Map) (k : Sds) (v : V) (e : Sds × V) (q : Sds)
      → view m k ≡ some e
      → view (replace m k v).0 q
        ≡ (if sds_key_compare k q then Option.map (λ x. (x.0, v)) (view m q) else view m q)
  pub super_replace_view :
      (m : Map) (k : Sds) (v : V) (e : Sds × V) (q : Sds)
      → view m k ≡ some e
      → view (super_replace m k v).0 q ≡ (
          if sds_key_compare k q
          then Option.map (λ x. (version_change (x.0) k.version, v)) (view m q)
          else view m q)
  pub update_key_view :
      (m : Map) (k : Sds) (e : Sds × V) (q : Sds)
      → view m k ≡ some e
      → view (update_key m k).0 q ≡ (
          if sds_key_compare k q
          then Option.map (λ x. (version_change (x.0) k.version, x.1)) (view m q)
          else view m q)
  pub update_key_result : (m : Map) (k : Sds) → (update_key m k).1 ≡ is_some (view m k)
  pub delete_view :
      (m : Map) (k q : Sds)
      → view (delete m k).0 q ≡ (if sds_key_compare k q then none else view m q)
  pub delete_result : (m : Map) (k : Sds) → (delete m k).1 ≡ is_some (view m k)
  pub empty_view : (m : Map) (q : Sds) → view (empty m) q ≡ none
