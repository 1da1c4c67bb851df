-- ===== src/Object.antt =====
-- object.c and the struct redisObject of redis.h, for strings: how they are created, encoded as
-- integers and read as integers. Reference counts are left out, but for the test that an object is
-- shared. An outer `none` is a failed redisAssert or a redisPanic. `O` is what the other types hold.
pub mod Encoding
mod Examples
use libredis_a.Common.{
  ℕ, ◌+◌, ◌-◌, ◌*◌, ◌^◌, ◌≡◌, Bool, true, false, ◌&&◌, ◌||◌, not, Option, none, some, List, [], ◌∷◌,
  length, ◌==◌, ltb, leb, if◌then◌else◌, ◌>>=◌,
}
use libredis_a.Common.Int.{ℤ, pos, negsuc, ltb_ℤ, eqb_ℤ}
use libredis_a.Util.{at_nul, ll2string, string_as_long}
use libredis_a.Sds.{Sds, new_len}

abbrev pub redis_string : ℕ
redis_string = 0

abbrev pub redis_list : ℕ
redis_list = 1

abbrev pub redis_set : ℕ
redis_set = 2

abbrev pub redis_zset : ℕ
redis_zset = 3

abbrev pub redis_hash : ℕ
redis_hash = 4

abbrev pub redis_none : ℕ
redis_none = 16

abbrev pub redis_unknown : ℕ
redis_unknown = 32

abbrev pub encoding_raw : ℕ
encoding_raw = 0

abbrev pub encoding_int : ℕ
encoding_int = 1

pub data Ptr (O : Type 0) : Type 0 where
  long_ptr : ℤ → Ptr O
  sds_ptr : Sds → Ptr O
  other_ptr : O → Ptr O

pub record Robj (O : Type 0) : Type 0 where
  pub type : ℕ
  pub encoding : ℕ
  pub lru : ℕ
  pub ptr : Ptr O

-- The bounds of long and of long long.
abbrev pub long_min : ℤ
long_min = negsuc (2 ^ 63 - 1)

abbrev pub long_max : ℤ
long_max = pos (2 ^ 63 - 1)

abbrev pub clock_max : ℕ
clock_max = 2 ^ 21 - 1

abbrev pub clock_resolution : ℕ
clock_resolution = 10

-- The number of bytes before the first nul: C's strlen.
unfoldable pub strlen : List ℕ → ℕ
strlen [] = 0
strlen (c ∷ s) = if c == 0 then 0 else strlen s + 1

-- `getLongLongFromObject` for a raw string; `erange` says whether errno is ERANGE after strtoll.
unfoldable pub long_long_of_bytes : (List ℕ → ℤ × List ℕ) → (List ℕ → Bool) → List ℕ → Option ℤ
long_long_of_bytes strtoll erange s =
    let (value, rest) = strtoll s in
    if not (length s == strlen s) || not (at_nul rest)
    then none
    else if erange s && (eqb_ℤ value long_min || eqb_ℤ value long_max)
    then none
    else some value

module _ {O : Type 0} where
  -- `createObject`, at the time of shared.lruclock.
  abbrev pub create_object : ℕ → ℕ → Ptr O → Robj O
  create_object lruclock type ptr = record {
    type = type;
    encoding = encoding_raw;
    lru = lruclock;
    ptr = ptr;
  }

  -- `createStringObject`.
  abbrev pub create_string_object : ℕ → List ℕ → ℕ → ℕ → Robj O
  create_string_object lruclock s logiclock version =
      create_object lruclock redis_string (sds_ptr (new_len s logiclock version))

  -- `createStringObjectFromLongLong`: the shared integers are such objects too, and every long long
  -- is a long.
  abbrev pub create_string_object_from_long_long : ℕ → ℤ → Robj O
  create_string_object_from_long_long lruclock value =
      record (create_object lruclock redis_string (long_ptr value)) { encoding = encoding_int }

  -- `checkType`, without the return code: whether the type is another one.
  abbrev pub check_type : Robj O → ℕ → Bool
  check_type o type = not (o.type == type)

  -- The body of `tryObjectEncoding` for a string in `s`.
  unfoldable pub encode : Robj O → Option ℤ → Robj O
  encode o none = o
  encode o (some value) = record o { encoding = encoding_int; ptr = long_ptr value }

  module _ (strtoll : List ℕ → ℤ × List ℕ) where
    -- `tryObjectEncoding`; `shared` is refcount > 1.
    unfoldable pub try_object_encoding : Bool → Robj O → Option (Robj O)
    try_object_encoding shared o =
        if not (o.encoding == encoding_raw) || shared
        then some o
        else if not (o.type == redis_string)
        then none
        else elim o.ptr [
          | sds_ptr s ↦ some (encode o (string_as_long strtoll s.bytes))
          | long_ptr n ↦ none
          | other_ptr x ↦ none
        ]

    -- `getLongLongFromObject`: an inner `none` is REDIS_ERR.
    unfoldable pub get_long_long : (List ℕ → Bool) → Option (Robj O) → Option (Option ℤ)
    get_long_long erange none = some (some (pos 0))
    get_long_long erange (some o) = if not (o.type == redis_string) then none else elim o.ptr [
      | sds_ptr s ↦
          if o.encoding == encoding_raw
          then some (long_long_of_bytes strtoll erange s.bytes)
          else none
      | long_ptr n ↦ if o.encoding == encoding_int then some (some n) else none
      | other_ptr x ↦ none
    ]

    -- `getLongFromObject`.
    unfoldable pub get_long : (List ℕ → Bool) → Option (Robj O) → Option (Option ℤ)
    get_long erange o = get_long_long erange o >>= λ r. elim r [
      | none ↦ some none
      | some value ↦
          if ltb_ℤ value long_min || ltb_ℤ long_max value then some none else some (some value)
    ]

  -- `stringObjectLen`.
  unfoldable pub string_object_len : Robj O → Option ℕ
  string_object_len o = if not (o.type == redis_string) then none else elim o.ptr [
    | sds_ptr s ↦ some (length s.bytes)
    | long_ptr n ↦ some (ll2string 32 n).1
    | other_ptr x ↦ none
  ]

  -- `getDecodedObject`.
  unfoldable pub get_decoded : ℕ → Robj O → Option (Robj O)
  get_decoded lruclock o =
      if o.encoding == encoding_raw
      then some o
      else if (o.type == redis_string) && (o.encoding == encoding_int)
      then (elim o.ptr [
        | long_ptr n ↦ some (create_string_object lruclock (ll2string 32 n).0 0 0)
        | sds_ptr s ↦ none
        | other_ptr x ↦ none
      ])
      else none

  -- `estimateObjectIdleTime`.
  unfoldable pub idle_time : ℕ → Robj O → ℕ
  idle_time lruclock o =
      if leb o.lru lruclock
      then (lruclock - o.lru) * clock_resolution
      else ((clock_max - o.lru) + lruclock) * clock_resolution
