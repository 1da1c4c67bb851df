-- ===== src/Sds.antt =====
-- sds.c and sds.h: the strings that serve as keys, with their logical clock and version, and the
-- callbacks of redis.c and dict.c that make them keys of a dictionary. Only `len` bytes of the
-- buffer are kept; both clocks are uint16_t.
pub mod Keys
pub mod Buffer
pub mod Shape
pub mod Ints
pub mod Agree
pub mod Slice
pub mod Strings
pub mod Edits
pub mod History
mod Examples
use libredis_a.Common.{
  ℕ, zero, suc, ◌+◌, ◌*◌, ◌%◌, ◌^◌, ◌≡◌, Bool, true, false, ◌&&◌, List, [], ◌∷◌, length, ◌==◌,
}
use libredis_a.Util.{same_bytes}

pub record Sds : Type 0 where
  pub logiclock : ℕ
  pub version : ℕ
  pub bytes : List ℕ

abbrev pub uint16 : ℕ
uint16 = 2 ^ 16

-- `sdsnewlen`.
abbrev pub new_len : List ℕ → ℕ → ℕ → Sds
new_len init logiclock version = record { logiclock = logiclock; version = version; bytes = init }

-- `sdsversion_change`.
abbrev pub version_change : Sds → ℕ → Sds
version_change s version = record s { version = version }

-- `sdsversion_add`.
abbrev pub version_add : Sds → ℕ → Sds
version_add s version = record s { version = (s.version + version) % uint16 }

-- `sdslogiclock_update`.
abbrev pub logiclock_update : Sds → ℕ → Sds
logiclock_update s logiclock = record s { logiclock = logiclock }

-- `sdsdup`.
abbrev pub dup : Sds → Sds
dup s = new_len s.bytes s.logiclock s.version

-- `dictSdsKeyCompare`.
unfoldable pub sds_key_compare : Sds → Sds → Bool
sds_key_compare a b = (length a.bytes == length b.bytes) && same_bytes a.bytes b.bytes

-- `dictGenHashFunction`.
unfoldable pub gen_hash : List ℕ → ℕ → ℕ
gen_hash [] hash = hash
gen_hash (c ∷ buf) hash = gen_hash buf ((hash * 32 + hash + c) % 2 ^ 32)

-- `dictSdsHash`.
unfoldable pub sds_hash : Sds → ℕ
sds_hash s = gen_hash s.bytes 5381
