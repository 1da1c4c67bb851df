-- ===== src/IntSet/Values.antt =====
-- What `get` reads after `set`, `move_tail` and `resize`, element by element, and which integers
-- an encoding holds.
use libredis_a.Common.{
  ℕ, ◌+◌, ◌-◌, ◌*◌, ◌%◌, ◌^◌, ◌≤◌, ◌<◌, ◌≡◌, ◌≢◌, refl, sym, ap, ◌∙◌, ◌⊎◌, inl, arith,
}
use libredis_a.Common.Int.{ℤ, pos, negsuc}
use libredis_a.Common.Bytes.{
  Bytes, Fits, Allocator, load_int, store_int, memmove, load_int-store_int, load_int_cong,
  load_int-store_int_outside, load_int-Fits, memmove_inside, memmove_outside,
}
use native.Mathlib.Nat.{mul-le-mul_right}
use libredis_a.IntSet.{IntSet, get_encoded, get, set, value_encoding, move_tail, resize, uint32}

abbrev pub IsEncoding : ℕ → Type 0
IsEncoding e = (e ≡ 2) ⊎ (e ≡ 4) ⊎ (e ≡ 8)

pub value_encoding-IsEncoding : (v : ℤ) → IsEncoding (value_encoding v)
unfolding value_encoding
value_encoding-IsEncoding v = ground arith

-- An encoding holds exactly the integers whose own encoding is no wider.
pub value_encoding-Fits :
    (v : ℤ) (e : ℕ) → IsEncoding e → Fits 8 v → value_encoding v ≤ e → Fits e v
unfolding value_encoding
value_encoding-Fits (pos n) e k h p = ground arith
value_encoding-Fits (negsuc n) e k h p = ground arith

pub Fits-value_encoding : (v : ℤ) (e : ℕ) → IsEncoding e → Fits e v → value_encoding v ≤ e
unfolding value_encoding
Fits-value_encoding (pos n) e k h = ground arith
Fits-value_encoding (negsuc n) e k h = ground arith

pub get_encoded_lem :
    (is : IntSet) (i e : ℕ) → IsEncoding e → get_encoded is i e ≡ load_int e (i * e) is.contents
unfolding get_encoded
get_encoded_lem is i e k = ground arith

pub set_lem :
    (is : IntSet) (i : ℕ) (v : ℤ)
    → IsEncoding is.encoding
    → set is i v ≡ record is { contents = store_int is.encoding (i * is.encoding) v is.contents }
unfolding set
set_lem is i v k = ground arith

pub slot-le : (e i j : ℕ) → i < j → i * e + e ≤ j * e
slot-le e i j h = grind arith

slots_apart : (e i j : ℕ) → i ≢ j → (i * e + e ≤ j * e) ⊎ (j * e + e ≤ i * e)
slots_apart e i j h = grind (arith, slot-le)

-- Slot `i` of width `e`, in a block that holds nothing but slots.
abbrev pub slot : ℕ → Bytes → ℕ → ℤ
slot e m i = load_int e (i * e) m

slot-memmove :
    (e to from count d : ℕ) (m : Bytes)
    → d < count
    → slot e (memmove (to * e) (from * e) (count * e) m) (to + d) ≡ slot e m (from + d)
slot-memmove e to from count d m h = load_int_cong e ((to + d) * e) ((from + d) * e) _ m λ k lt.
    memmove_inside (to * e) (from * e) (count * e) ((to + d) * e + k) m (omega arith)
      (omega (arith, slot-le e d count h))
    ∙ ap m (omega arith)

slot-memmove_outside :
    (e to from count i : ℕ) (m : Bytes)
    → (i < to) ⊎ (to + count ≤ i)
    → slot e (memmove (to * e) (from * e) (count * e) m) i ≡ slot e m i
slot-memmove_outside e to from count i m h = load_int_cong e (i * e) (i * e) _ m λ k lt.
    memmove_outside (to * e) (from * e) (count * e) (i * e + k) m
      (grind (arith, slot-le e i to, mul-le-mul_right {m = to + count} {n = i} e))

slot-store_self :
    (e i : ℕ) (v : ℤ) (m : Bytes) → IsEncoding e → Fits e v → slot e (store_int e (i * e) v m) i ≡ v
slot-store_self e i v m k h = load_int-store_int e (i * e) v m (omega arith) h

slot-store_ne :
    (e i j : ℕ) (v : ℤ) (m : Bytes) → i ≢ j → slot e (store_int e (i * e) v m) j ≡ slot e m j
slot-store_ne e i j v m h =
    load_int-store_int_outside e (j * e) e (i * e) v m (omega (arith, slots_apart e i j h))

-- Within the sizes that the allocator keeps, a resize changes no slot.
pub slot-realloc :
    (a : Allocator) (e old new i : ℕ) (m : Bytes)
    → i * e + e ≤ old
    → i * e + e ≤ new
    → slot e (a.realloc m old new) i ≡ slot e m i
slot-realloc a e old new i m p q =
    load_int_cong e (i * e) (i * e) _ m
      (λ k lt. a.realloc_keeps m old new (i * e + k) (omega arith) (omega arith))

-- Lengths for which no size in bytes wraps.
abbrev pub max_length : ℕ
max_length = 2 ^ 29

pub size_exact : (e n : ℕ) → IsEncoding e → n < max_length → n * e % uint32 ≡ n * e
size_exact e n k h = ground arith

pub get_lem :
    (is : IntSet) → IsEncoding is.encoding → (i : ℕ) → get is i ≡ slot is.encoding is.contents i
unfolding get
get_lem is enc i = get_encoded_lem is i is.encoding enc

pub get-length : (is : IntSet) (n i : ℕ) → get (record is { length = n }) i ≡ get is i
unfolding get get_encoded
get-length is n i = refl

-- A write leaves the header alone.
pub set_header :
    (is : IntSet) (i : ℕ) (v : ℤ)
    → ((set is i v).encoding ≡ is.encoding)
      × ((set is i v).length ≡ is.length)
      × ((set is i v).size ≡ is.size)
unfolding set
set_header is i v = (refl, refl, refl)

pub get_encoded-Fits : (is : IntSet) (i e : ℕ) → IsEncoding e → Fits e (get_encoded is i e)
get_encoded-Fits is i e k =
    rw (get_encoded_lem is i e k) (load_int-Fits e (i * e) is.contents (omega arith))

module _ (is : IntSet) (enc : IsEncoding is.encoding) where
  -- The elements of another block under the same header.
  get_contents :
      (n size : ℕ) (m : Bytes) (i : ℕ)
      → get (record is { length = n; size = size; contents = m }) i ≡ slot is.encoding m i
  get_contents n size m i = get_lem (record is { length = n; size = size; contents = m }) enc i

  pub get-set_self : (i : ℕ) (v : ℤ) → Fits is.encoding v → get (set is i v) i ≡ v
  get-set_self i v h =
      rw (set_lem is i v enc)
        (get_contents is.length is.size _ i ∙ slot-store_self is.encoding i v is.contents enc h)

  pub get-set_ne : (i j : ℕ) (v : ℤ) → i ≢ j → get (set is i v) j ≡ get is j
  get-set_ne i j v h = rw (set_lem is i v enc) (
      get_contents is.length is.size _ j
      ∙ slot-store_ne is.encoding i j v is.contents h
      ∙ sym (get_lem is enc j))

  move_tail_lem :
      (from to : ℕ)
      → from ≤ is.length
      → is.length < max_length
      → move_tail is from to ≡ record is {
        contents =
            memmove
              (to * is.encoding)
              (from * is.encoding)
              ((is.length - from) * is.encoding)
              is.contents;
      }
  unfolding move_tail
  move_tail_lem from to p q = ground arith

  -- Moving the tail shifts the elements from `from` on to `to` on, and keeps those before both.
  pub get-move_tail :
      (from to d : ℕ)
      → from ≤ is.length
      → is.length < max_length
      → d < is.length - from
      → get (move_tail is from to) (to + d) ≡ get is (from + d)
  get-move_tail from to d p q h = rw (move_tail_lem from to p q) (
      get_contents is.length is.size _ (to + d)
      ∙ slot-memmove is.encoding to from (is.length - from) d is.contents h
      ∙ sym (get_lem is enc (from + d)))

  pub get-move_tail_before :
      (from to i : ℕ)
      → from ≤ is.length
      → is.length < max_length
      → i < to
      → get (move_tail is from to) i ≡ get is i
  get-move_tail_before from to i p q h = rw (move_tail_lem from to p q) (
      get_contents is.length is.size _ i
      ∙ slot-memmove_outside is.encoding to from (is.length - from) i is.contents (inl h)
      ∙ sym (get_lem is enc i))

  fits_old :
      {i : ℕ}
      → is.size ≡ is.length * is.encoding
      → i < is.length
      → i * is.encoding + is.encoding ≤ is.size
  fits_old {i} sized r = omega (arith, slot-le is.encoding i is.length r)

  fits_new :
      {n i : ℕ} → n < max_length → i < n → i * is.encoding + is.encoding ≤ n * is.encoding % uint32
  fits_new {n} {i} p q = omega (arith, slot-le is.encoding i n q, size_exact is.encoding n enc p)

  -- A resize to `n` elements keeps those that both blocks hold.
  pub get-resize :
      (a : Allocator) (n i : ℕ)
      → is.size ≡ is.length * is.encoding
      → n < max_length
      → i < n
      → i < is.length
      → get (resize a is n) i ≡ get is i
  unfolding resize
  get-resize a n i sized p q r =
      get_contents is.length _ _ i
      ∙ slot-realloc a is.encoding is.size _ i is.contents (fits_old sized r) (fits_new p q)
      ∙ sym (get_lem is enc i)
