-- ===== src/Zipmap.antt =====
-- zipmap.c: a map from strings to strings in one block of bytes. The block is a list, a pointer is the
-- offset, or the bytes from there on; unsigned ints wrap at 2^32. `realloc` stands for zrealloc. The
-- loops have fuel, and `none` is its end.
pub mod Layout
pub mod Lookup
pub mod Surgery
pub mod Entries
pub mod Contents
pub mod Delete
pub mod Set
pub mod Update
pub mod Walk
pub mod History
mod Examples
use libredis_a.Common.{
  ℕ, zero, suc, ◌+◌, ◌-◌, ◌%◌, ◌^◌, ◌≡◌, Bool, true, false, ◌&&◌, not, Option, none, some, List, [],
  ◌∷◌, ◌++◌, length, ◌==◌, ltb, leb, if◌then◌else◌, ◌>>=◌, is_some,
}
use libredis_a.Common.Blocks.{take, drop, write_at, move, word_bytes, word_value}
use libredis_a.Util.{same_bytes}

abbrev pub big_len : ℕ
big_len = 254

abbrev pub end_mark : ℕ
end_mark = 255

abbrev pub value_max_free : ℕ
value_max_free = 4

abbrev pub wrap : ℕ → ℕ
wrap n = n % 2 ^ 32

-- The byte at an offset; past the block nothing is read in a well-formed map.
abbrev pub first_byte : List ℕ → ℕ
first_byte [] = 0
first_byte (b ∷ q) = b

abbrev pub byte_at : ℕ → List ℕ → ℕ
byte_at n q = first_byte (drop n q)

-- `ZIPMAP_LEN_BYTES`, and `zipmapEncodeLength` of NULL.
abbrev pub len_bytes : ℕ → ℕ
len_bytes l = if ltb l big_len then 1 else 5

-- `zipmapNew`.
abbrev pub new : List ℕ
new = 0 ∷ end_mark ∷ []

-- `zipmapDecodeLength`.
unfoldable pub decode_length : List ℕ → ℕ
decode_length q = if ltb (first_byte q) big_len then first_byte q else word_value 4 (drop 1 q)

-- The bytes that `zipmapEncodeLength` writes.
unfoldable pub encode_length : ℕ → List ℕ
encode_length entry_count =
    if ltb entry_count big_len then entry_count ∷ [] else big_len ∷ word_bytes 4 entry_count

-- `zipmapRawKeyLength`, `zipmapRawValueLength` and `zipmapRawEntryLength`.
unfoldable pub raw_key_length : List ℕ → ℕ
raw_key_length q = let l = decode_length q in wrap (len_bytes l + l)

unfoldable pub raw_value_length : List ℕ → ℕ
raw_value_length q =
    let l = decode_length q in let used = len_bytes l in wrap (used + (byte_at used q + 1 + l))

unfoldable pub raw_entry_length : List ℕ → ℕ
raw_entry_length q = let l = raw_key_length q in wrap (l + raw_value_length (drop l q))

-- Whether the entry at `q` has the key.
unfoldable pub key_matches : List ℕ → List ℕ → Bool
key_matches key q =
    let l = decode_length q in (l == length key) && same_bytes (take l (drop (len_bytes l) q)) key

-- The step of `zipmapLookupRaw` over a value.
unfoldable pub value_step : List ℕ → ℕ
value_step q = let l = decode_length q in len_bytes l + wrap (l + 1 + byte_at (len_bytes l) q)

-- The loop of `zipmapLookupRaw` from the pointer `p`, where the bytes `q` are; `total` says that the
-- caller wants the length too. It steps over the key and then over the value.
unfoldable pub lookup_loop : ℕ → List ℕ → Bool → ℕ → List ℕ → Option ℕ → Option (Option ℕ × ℕ)
lookup_loop zero key total p q k = none
lookup_loop (suc n) key total p q k =
    let hit = not (is_some k) && key_matches key q in
    let l = raw_key_length q in
    let v = value_step (drop l q) in
    let rest =
      lookup_loop n key total (p + l + v) (drop v (drop l q)) (if hit then some p else k) in
    if first_byte q == end_mark
    then some (k, wrap (p + 1))
    else if hit && not total
    then some (some p, 0)
    else rest

-- `zipmapLookupRaw`.
unfoldable pub lookup_raw : List ℕ → List ℕ → Bool → Option (Option ℕ × ℕ)
lookup_raw zm key total = lookup_loop (length zm) key total 1 (drop 1 zm) none

-- What `zipmapGet` finds at the entry.
unfoldable pub value_from : List ℕ → List ℕ
value_from q =
    let v = drop (raw_key_length q) q in
    let vlen = decode_length v in take vlen (drop (len_bytes vlen + 1) v)

-- `zipmapGet`: the value, if there is one.
unfoldable pub get : List ℕ → List ℕ → Option (Option (List ℕ))
get zm key = lookup_raw zm key false >>= λ r. elim r.0 [
  | none ↦ some none
  | some p ↦ some (some (value_from (drop p zm)))
]

-- `zipmapExists`.
unfoldable pub exists : List ℕ → List ℕ → Option Bool
exists zm key = lookup_raw zm key false >>= λ r. some (is_some (r.0))

-- `zipmapRequiredLength`.
unfoldable pub required_length : ℕ → ℕ → ℕ
required_length klen vlen =
    wrap
      (klen + vlen + 3 + (if leb big_len klen then 4 else 0) + (if leb big_len vlen then 4 else 0))

-- `zipmapNext`: the key, the value and the pointer to the next entry.
unfoldable pub next : List ℕ → Option (List ℕ × List ℕ × List ℕ)
next q =
    if first_byte q == end_mark
    then none
    else (let klen = decode_length q in
        let key = take klen (drop (len_bytes klen) q) in
        let v = drop (raw_key_length q) q in some (key, value_from q, drop (raw_value_length v) v))

-- The loop of `zipmapLen`.
unfoldable pub count_loop : ℕ → List ℕ → Option ℕ
count_loop zero q = none
count_loop (suc n) q = elim (next q) [
  | none ↦ some 0
  | some e ↦ (count_loop n (e.2) >>= λ c. some (wrap (c + 1)))
]

-- `zipmapLen`, and the block that it leaves.
unfoldable pub entry_count : List ℕ → Option (List ℕ × ℕ)
entry_count zm =
    if ltb (first_byte zm) big_len
    then some (zm, first_byte zm)
    else (count_loop (length zm) (drop 1 zm) >>= λ n.
        some (if ltb n big_len then write_at 0 (n ∷ []) zm else zm, n))

-- What `zipmapSet` writes: the key and the value, with `free` unused bytes after it.
unfoldable pub entry_bytes : List ℕ → List ℕ → ℕ → List ℕ
entry_bytes key val free =
    encode_length (length key) ++ (key ++ (encode_length (length val) ++ (free ∷ val)))

-- A block for the entry: the pointer to it, the length of the map and that of the place.
pub record Place : Type 0 where
  pub zm : List ℕ
  pub at : ℕ
  pub zmlen : ℕ
  pub freelen : ℕ

-- Too much free space is given back; what stays is written into the entry.
module _ (realloc : List ℕ → ℕ → List ℕ) where
  -- `zipmapResize`.
  unfoldable pub resize : List ℕ → ℕ → List ℕ
  resize zm entry_count = write_at (entry_count - 1) (end_mark ∷ []) (realloc zm entry_count)

  -- The place of a new key.
  unfoldable pub place_new : ℕ → List ℕ → ℕ → Place
  place_new reqlen zm zmlen =
      let room = resize zm (wrap (zmlen + reqlen)) in
      record {
        zm =
            if ltb (first_byte room) big_len
            then write_at 0 ((first_byte room + 1) ∷ []) room
            else room;
        at = zmlen - 1;
        zmlen = wrap (zmlen + reqlen);
        freelen = reqlen;
      }

  -- The place of a present key.
  unfoldable pub place_old : ℕ → List ℕ → ℕ → ℕ → Place
  place_old reqlen zm zmlen at =
      let freelen = raw_entry_length (drop at zm) in
      if ltb freelen reqlen
      then (let grown = wrap (zmlen - freelen + reqlen) in
          record {
            zm = move (at + reqlen) (at + freelen) (zmlen - (at + freelen + 1)) (resize zm grown);
            at = at;
            zmlen = grown;
            freelen = reqlen;
          })
      else record { zm = zm; at = at; zmlen = zmlen; freelen = freelen }

  unfoldable pub fill : ℕ → List ℕ → List ℕ → Place → List ℕ
  fill reqlen key val s =
      let empty = s.freelen - reqlen in
      if leb value_max_free empty
      then (let moved =
            move (s.at + reqlen) (s.at + s.freelen) (s.zmlen - (s.at + s.freelen + 1)) s.zm in
          write_at s.at (entry_bytes key val 0) (resize moved (s.zmlen - empty)))
      else write_at s.at (entry_bytes key val empty) s.zm

  -- `zipmapSet`, and whether the key was there.
  unfoldable pub set : List ℕ → List ℕ → List ℕ → Option (List ℕ × Bool)
  set zm key val =
      let reqlen = required_length (length key) (length val) in
      lookup_raw zm key true >>= λ r. elim r.0 [
        | none ↦ some (fill reqlen key val (place_new reqlen zm (r.1)), false)
        | some at ↦ some (fill reqlen key val (place_old reqlen zm (r.1) at), true)
      ]

  -- `zipmapDel`, and whether the key was there.
  unfoldable pub delete : List ℕ → List ℕ → Option (List ℕ × Bool)
  delete zm key = lookup_raw zm key true >>= λ r. elim r.0 [
    | none ↦ some (zm, false)
    | some at ↦
        (let freelen = raw_entry_length (drop at zm) in
          let moved = move at (at + freelen) (r.1 - (at + freelen + 1)) zm in
          let room = resize moved (r.1 - freelen) in
          some (
            if ltb (first_byte room) big_len
                then write_at 0 ((first_byte room - 1) ∷ []) room
                else room,
            true,
          ))
  ]
