-- ===== src/IntSet/Upgrade.antt =====
-- `intsetUpgradeAndAdd`: the elements are rewritten to a wider encoding inside the block that holds
-- them, from the last to the first, and none is overwritten before it is read.
use libredis_a.Common.{
  ℕ, zero, suc, ◌+◌, ◌*◌, ◌%◌, ◌≤◌, ◌<◌, ◌≡◌, ◌≢◌, refl, sym, ap, subst, ◌∙◌, inl, inr, true, false,
  arith, Bool-cases,
}
use libredis_a.Common.Int.{ℤ, pos, negsuc, ◌<ℤ◌, ltb_ℤ}
use libredis_a.Common.Bytes.{Fits, Allocator, load_int-store_int_outside}
use native.Mathlib.Decide.{ℕ_discrete}
use libredis_a.IntSet.{
  IntSet, get_encoded, get, set, value_encoding, upgrade_loop, upgrade_and_add, resize, uint32,
}
use libredis_a.IntSet.Values.{
  IsEncoding, max_length, slot-realloc, get_encoded_lem, set_lem, get_lem, get-set_self, get-set_ne,
  value_encoding-IsEncoding, value_encoding-Fits, size_exact, slot-le, get-length, set_header,
  get_encoded-Fits,
}
use libredis_a.IntSet.Search.{Answers}
use libredis_a.IntSet.Splice.{IsValid, InsertedAt}

-- An integer that needs a wider encoding lies outside the range of a narrower one, on the side
-- that its sign tells.
out_of_range :
    (v x : ℤ) (e : ℕ)
    → IsEncoding e
    → e < value_encoding v
    → Fits e x
    → (ltb_ℤ v (pos 0) ≡ true → v <ℤ x) × (ltb_ℤ v (pos 0) ≡ false → x <ℤ v)
unfolding value_encoding
out_of_range (pos m) (pos n) e k h f = ground arith
out_of_range (pos m) (negsuc n) e k h f = ground arith
out_of_range (negsuc m) (pos n) e k h f = ground arith
out_of_range (negsuc m) (negsuc n) e k h f = ground arith

Fits-encoding : (e e' : ℕ) (v : ℤ) → IsEncoding e → IsEncoding e' → e ≤ e' → Fits e v → Fits e' v
Fits-encoding e e' (pos n) k k' h f = ground arith
Fits-encoding e e' (negsuc n) k k' h f = ground arith

module _ (cur p : ℕ) (narrow : IsEncoding cur) where
  get_encoded-set :
      (w : IntSet)
      → IsEncoding w.encoding
      → (i j : ℕ) (v : ℤ) → j * cur + cur ≤ i * w.encoding
      → get_encoded (set w i v) j cur ≡ get_encoded w j cur
  get_encoded-set w enc i j v h = rw (set_lem w i v enc) (
      get_encoded_lem _ j cur narrow
      ∙ load_int-store_int_outside cur (j * cur) w.encoding (i * w.encoding) v w.contents (inl h)
      ∙ sym (get_encoded_lem w j cur narrow))

  slots_grow : (j n e : ℕ) → cur ≤ e → j < n → j * cur + cur ≤ (n + p) * e
  slots_grow j n e h k = grind (arith, slot-le)

  pub upgrade_loop_header :
      (n : ℕ) (w : IntSet)
      → ((upgrade_loop n p cur w).encoding ≡ w.encoding)
        × ((upgrade_loop n p cur w).length ≡ w.length)
        × ((upgrade_loop n p cur w).size ≡ w.size)
  unfolding upgrade_loop
  upgrade_loop_header zero w = (refl, refl, refl)
  upgrade_loop_header (suc n) w =
      let v = get_encoded w n cur in
      let (a, b, c) = upgrade_loop_header n (set w (n + p) v) in
      let (a', b', c') = set_header w (n + p) v in (a ∙ a', b ∙ b', c ∙ c')

  upgrade_loop_beyond :
      (n : ℕ) (w : IntSet)
      → IsEncoding w.encoding
      → (i : ℕ) → n + p ≤ i
      → get (upgrade_loop n p cur w) i ≡ get w i
  unfolding upgrade_loop
  upgrade_loop_beyond zero w enc i h = refl
  upgrade_loop_beyond (suc n) w enc i h =
      let v = get_encoded w n cur in
      upgrade_loop_beyond n (set w (n + p) v) (rw ((set_header w (n + p) v).0) enc) i (omega arith)
      ∙ get-set_ne w enc (n + p) i v (omega arith)

  -- The loop moves each element to its place in the wider encoding.
  pub get-upgrade_loop :
      (n : ℕ) (w : IntSet)
      → IsEncoding w.encoding
      → cur ≤ w.encoding
      → (j : ℕ) → j < n
      → get (upgrade_loop n p cur w) (j + p) ≡ get_encoded w j cur
  unfolding upgrade_loop
  get-upgrade_loop zero w enc h j k = elim k [ ]
  get-upgrade_loop (suc n) w enc h j k =
      let v = get_encoded w n cur in
      let e = (set_header w (n + p) v).0 in
      elim (ℕ_discrete j n) [
        | yes last ↦ rw last (
            upgrade_loop_beyond n (set w (n + p) v) (rw e enc) (n + p) (omega arith)
            ∙ get-set_self w enc (n + p) v
                (Fits-encoding cur w.encoding v narrow enc h (get_encoded-Fits w n cur narrow)))
        | no other ↦
            get-upgrade_loop n (set w (n + p) v) (rw e enc) (rw e h) j (omega arith)
            ∙ get_encoded-set w enc (n + p) j v (slots_grow j n w.encoding h (omega arith))
      ]

module _ (a : Allocator) (is : IntSet) (v : ℤ) (valid : IsValid is) (int64 : Fits 8 v)
    (wider : is.encoding < value_encoding v) (room : is.length + 1 < max_length) where
  abbrev wide : IntSet
  wide = resize a (record is { encoding = value_encoding v }) ((is.length + 1) % uint32)

  wide_header :
      (wide.encoding ≡ value_encoding v)
      × (wide.length ≡ is.length)
      × (wide.size ≡ (is.length + 1) * value_encoding v)
  unfolding resize
  wide_header =
      let e : (is.length + 1) % uint32 ≡ is.length + 1 = omega arith in
      (
        refl,
        refl,
        rw e (size_exact (value_encoding v) (is.length + 1) (value_encoding-IsEncoding v) room),
      )

  get_encoded-wide : (j : ℕ) → j < is.length → get_encoded wide j is.encoding ≡ get is j
  unfolding resize
  get_encoded-wide j h =
      get_encoded_lem wide j is.encoding valid.encoded
      ∙ slot-realloc a is.encoding is.size _ j is.contents
          (omega (arith, slot-le is.encoding j is.length h, valid.sized))
          (rw (wide_header.2) (grind (arith, slot-le is.encoding j is.length h, valid.sized)))
      ∙ sym (get_lem is valid.encoded j)

  -- The set after the loop and the write of the new element at `q`.
  abbrev moved : ℕ → IntSet
  moved p = upgrade_loop is.length p is.encoding wide

  abbrev upgraded : ℕ → ℕ → IntSet
  upgraded p q = let done = set (moved p) q v in record done { length = (done.length + 1) % uint32 }

  moved_header :
      (p : ℕ)
      → ((moved p).encoding ≡ value_encoding v)
        × ((moved p).length ≡ is.length)
        × ((moved p).size ≡ (is.length + 1) * value_encoding v)
  moved_header p =
      let (x, y, z) = upgrade_loop_header is.encoding p valid.encoded is.length wide in
      let (x', y', z') = wide_header in (x ∙ x', y ∙ y', z ∙ z')

  moved-IsEncoding : (p : ℕ) → IsEncoding (moved p).encoding
  moved-IsEncoding p = rw ((moved_header p).0) (value_encoding-IsEncoding v)

  upgraded_header :
      (p q : ℕ)
      → ((upgraded p q).encoding ≡ value_encoding v)
        × ((upgraded p q).length ≡ is.length + 1)
        × ((upgraded p q).size ≡ (is.length + 1) * value_encoding v)
  upgraded_header p q =
      let (x, y, z) = set_header (moved p) q v in
      let (x', y', z') = moved_header p in (x ∙ x', rw (y ∙ y') (omega arith), z ∙ z')

  get-upgraded_new : (p q : ℕ) → get (upgraded p q) q ≡ v
  get-upgraded_new p q =
      get-length (set (moved p) q v) _ q
      ∙ get-set_self (moved p) (moved-IsEncoding p) q v (
          rw ((moved_header p).0)
            (value_encoding-Fits v _ (value_encoding-IsEncoding v) int64 (omega arith)))

  get-upgraded_old : (p q j : ℕ) → j < is.length → q ≢ j + p → get (upgraded p q) (j + p) ≡ get is j
  get-upgraded_old p q j h n =
      get-length (set (moved p) q v) _ (j + p)
      ∙ get-set_ne (moved p) (moved-IsEncoding p) q (j + p) v n
      ∙ get-upgrade_loop is.encoding p valid.encoded is.length wide
          (rw (wide_header.0) (value_encoding-IsEncoding v)) (rw (wide_header.0) (omega arith)) j h
      ∙ get_encoded-wide j h

  -- A negative integer becomes the first element, any other the last.
  prepended : InsertedAt is v 0 (upgraded 1 0)
  prepended = record {
    longer = (upgraded_header 1 0).1;
    inside = omega arith;
    before = λ i h. elim h [ ];
    placed = get-upgraded_new 1 0;
    after = λ i p h. get-upgraded_old 1 0 i h (omega arith);
  }

  appended : InsertedAt is v is.length (upgraded 0 is.length)
  appended = record {
    longer = (upgraded_header 0 is.length).1;
    inside = omega arith;
    before = λ i h.
        let e : i + 0 ≡ i = omega arith in
        ap (get (upgraded 0 is.length)) (sym e) ∙ get-upgraded_old 0 is.length i h (omega arith);
    placed = get-upgraded_new 0 is.length;
    after = λ i p h. absurd (omega arith);
  }

  pub record Upgrades (t : IntSet) : Type 0 where
    pub at : ℕ
    pub inserted : InsertedAt is v at t
    pub split : Answers is v (false, at)
    pub encoding : t.encoding ≡ value_encoding v
    pub size : t.size ≡ (is.length + 1) * value_encoding v

  element_side :
      (j : ℕ) → (ltb_ℤ v (pos 0) ≡ true → v <ℤ get is j) × (ltb_ℤ v (pos 0) ≡ false → get is j <ℤ v)
  element_side j =
      out_of_range v (get is j) is.encoding valid.encoded wider
        (unfold get in get_encoded-Fits is j is.encoding valid.encoded)

  pub upgrade_and_add-Upgrades : Upgrades (upgrade_and_add a is v)
  unfolding upgrade_and_add
  upgrade_and_add-Upgrades = elim (Bool-cases (ltb_ℤ v (pos 0))) [
    | inl e ↦ rw e (record {
      at = 0;
      inserted = prepended;
      split = (omega arith, λ i h. elim h [ ], λ i p h. (element_side i).0 e);
      encoding = (upgraded_header 1 0).0;
      size = (upgraded_header 1 0).2;
    })
    | inr e ↦ rw e (
        subst (λ q. Upgrades (upgraded 0 q)) (sym (moved_header 0).1)
          (record {
            at = is.length;
            inserted = appended;
            split = (omega arith, λ i h. (element_side i).1 e, λ i p h. absurd (omega arith));
            encoding = (upgraded_header 0 is.length).0;
            size = (upgraded_header 0 is.length).2;
          }))
  ]
