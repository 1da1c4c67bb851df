-- ===== src/Object/Encoding.antt =====
-- Encoding a string as an integer loses nothing.
use libredis_a.Common.{ℕ, ◌≡◌, refl, sym, ◌∙◌, Bool, true, false, Option, none, some, List, []}
use libredis_a.Common.Int.{ℤ}
use libredis_a.Util.{ll2string, string_as_long}
use libredis_a.Util.Canonical.{IsStrtoll, string_as_long_lem}
use libredis_a.Sds.{Sds}
use libredis_a.Object.{
  sds_ptr, long_ptr, other_ptr, Robj, redis_string, encoding_raw, encoding_int,
  create_string_object, encode, try_object_encoding, get_decoded,
}

-- The characters of a string object that is not encoded.
abbrev pub bytes_of : {O : Type 0} → Robj O → List ℕ
bytes_of o = elim o.ptr [ sds_ptr s ↦ s.bytes | long_ptr n ↦ [] | other_ptr x ↦ [] ]

-- What an object reads as after encoding and decoding.
pub record Decodes (O : Type 0) (lruclock : ℕ) (r : Option (Robj O)) (s : List ℕ) : Type 0 where
  pub encoded : Robj O
  pub is : r ≡ some encoded
  pub decoded : Robj O
  pub reads : get_decoded lruclock encoded ≡ some decoded
  pub raw : (decoded.type ≡ redis_string) × (decoded.encoding ≡ encoding_raw)
  pub same : bytes_of decoded ≡ s

module _ {O : Type 0} (strtoll : List ℕ → ℤ × List ℕ) (library : IsStrtoll strtoll) (lruclock : ℕ)
    (s : Sds) (clock : ℕ) where
  abbrev whole : Robj O
  whole = create_string_object clock s.bytes s.logiclock s.version

  not_encoded : Decodes O lruclock (some whole) s.bytes
  unfolding get_decoded
  not_encoded = record {
    encoded = whole;
    is = refl;
    decoded = whole;
    reads = refl;
    raw = (refl, refl);
    same = refl;
  }

  as_integer :
      (o : Option ℤ)
      → string_as_long strtoll s.bytes ≡ o
      → Decodes O lruclock (some (encode whole o)) s.bytes
  unfolding encode get_decoded
  as_integer none e = not_encoded
  as_integer (some v) e =
      let (accepts, agree) = string_as_long_lem strtoll library s.bytes in
      let printed = ((accepts v).0 (sym agree ∙ e)).1 in
      record {
        encoded = record whole { encoding = encoding_int; ptr = long_ptr v };
        is = refl;
        decoded = create_string_object lruclock (ll2string 32 v).0 0 0;
        reads = refl;
        raw = (refl, refl);
        same = printed;
      }

  -- With a strtoll whose values are long longs and which reads decimal numerals to their end, a
  -- string object reads the same after tryObjectEncoding as before: getDecodedObject of the result
  -- is a raw string with the same bytes.
  pub try_object_encoding_lem :
      (shared : Bool) → Decodes O lruclock (try_object_encoding strtoll shared whole) s.bytes
  unfolding try_object_encoding
  try_object_encoding_lem true = not_encoded
  try_object_encoding_lem false = as_integer _ refl
