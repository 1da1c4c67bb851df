-- ===== src/IntSet/Shift.antt =====
-- The other paths of `intsetAdd` and `intsetRemove`: a gap is opened, or closed, in place.
use libredis_a.Common.{
  ℕ, ◌+◌, ◌-◌, ◌*◌, ◌%◌, ◌≤◌, ◌<◌, ◌≡◌, refl, ap, ◌∙◌, inl, inr, true, arith, ltb, if◌then◌else◌,
  Bool-cases, lt→ltb,
}
use libredis_a.Common.Int.{ℤ}
use libredis_a.Common.Bytes.{Fits, Allocator}
use libredis_a.IntSet.{IntSet, get, set, move_tail, resize, uint32}
use libredis_a.IntSet.Values.{
  IsEncoding, max_length, get-set_self, get-set_ne, get-move_tail, get-move_tail_before, get-resize,
  size_exact, get-length,
}
use libredis_a.IntSet.Splice.{IsValid, InsertedAt, RemovedAt}

module _ (a : Allocator) (is : IntSet) (valid : IsValid is) where
  module _ (v : ℤ) (p : ℕ) (fits : Fits is.encoding v) (inside : p ≤ is.length)
      (short : is.length + 1 < max_length) where
    -- The block of `intsetAdd` after the resize, after the move, and after the write.
    abbrev room : IntSet
    room = resize a is ((is.length + 1) % uint32)

    abbrev gap : IntSet
    gap = if ltb p room.length then move_tail room p (p + 1) else room

    abbrev pub inserted : IntSet
    inserted = let done = set gap p v in record done { length = (done.length + 1) % uint32 }

    get-room : (i : ℕ) → i < is.length → get room i ≡ get is i
    get-room i h =
        let e : (is.length + 1) % uint32 ≡ is.length + 1 = omega arith in
        rw e (get-resize is valid.encoded a (is.length + 1) i valid.sized short (omega arith) h)

    room_header :
        (room.encoding ≡ is.encoding)
        × (room.length ≡ is.length)
        × (room.size ≡ (is.length + 1) * is.encoding)
    unfolding resize
    room_header =
        let e : (is.length + 1) % uint32 ≡ is.length + 1 = omega arith in
        (refl, refl, rw e (size_exact is.encoding (is.length + 1) valid.encoded short))

    gap_header :
        (gap.encoding ≡ is.encoding)
        × (gap.length ≡ is.length)
        × (gap.size ≡ (is.length + 1) * is.encoding)
    unfolding move_tail
    gap_header = elim (Bool-cases (ltb p room.length)) [
      | inl e ↦ rw e room_header
      | inr e ↦ rw e room_header
    ]

    gap-IsEncoding : IsEncoding gap.encoding
    gap-IsEncoding = rw (gap_header.0) valid.encoded

    pub inserted_header :
        (inserted.encoding ≡ is.encoding)
        × (inserted.length ≡ is.length + 1)
        × (inserted.size ≡ (is.length + 1) * is.encoding)
    unfolding set
    inserted_header = (gap_header.0, rw (gap_header.1) (omega arith), gap_header.2)

    get-gap_before : (i : ℕ) → i < p → get gap i ≡ get is i
    unfolding resize
    get-gap_before i h = elim (Bool-cases (ltb p room.length)) [
      | inl e ↦ rw e (
          get-move_tail_before room valid.encoded p (p + 1) i inside (omega arith) (omega arith)
          ∙ get-room i (omega arith))
      | inr e ↦ rw e (get-room i (omega arith))
    ]

    get-gap_after : (i : ℕ) → p ≤ i → i < is.length → get gap (i + 1) ≡ get is i
    unfolding resize
    get-gap_after i h k =
        let there : ltb p room.length ≡ true = lt→ltb p room.length (omega arith) in
        let e : i + 1 ≡ p + 1 + (i - p) = omega arith in
        let e' : p + (i - p) ≡ i = omega arith in
        rw there (
          ap (get (move_tail room p (p + 1))) e
          ∙ get-move_tail room valid.encoded p (p + 1) (i - p) inside (omega arith) (omega arith)
          ∙ ap (get room) e'
          ∙ get-room i k)

    pub inserted-InsertedAt : InsertedAt is v p inserted
    inserted-InsertedAt = record {
      longer = inserted_header.1;
      inside = inside;
      before = λ i h.
          get-length (set gap p v) _ i
          ∙ get-set_ne gap gap-IsEncoding p i v (omega arith)
          ∙ get-gap_before i h;
      placed =
          get-length (set gap p v) _ p
          ∙ get-set_self gap gap-IsEncoding p v (rw (gap_header.0) fits);
      after = λ i h k.
          get-length (set gap p v) _ (i + 1)
          ∙ get-set_ne gap gap-IsEncoding p (i + 1) v (omega arith)
          ∙ get-gap_after i h k;
    }

  module _ (p : ℕ) (inside : p < is.length) where
    -- The block of `intsetRemove` after the move and after the resize.
    abbrev closed : IntSet
    closed = if ltb p ((is.length + uint32 - 1) % uint32) then move_tail is (p + 1) p else is

    abbrev pub removed : IntSet
    removed =
        let less = resize a closed ((closed.length + uint32 - 1) % uint32) in
        record less { length = (less.length + uint32 - 1) % uint32 }

    closed_header :
        (closed.encoding ≡ is.encoding) × (closed.length ≡ is.length) × (closed.size ≡ is.size)
    unfolding move_tail
    closed_header = elim (Bool-cases (ltb p ((is.length + uint32 - 1) % uint32))) [
      | inl e ↦ rw e (refl, refl, refl)
      | inr e ↦ rw e (refl, refl, refl)
    ]

    one_less : (is.length + uint32 - 1) % uint32 ≡ is.length - 1
    one_less = omega (arith, valid.short)

    pub removed_header :
        (removed.encoding ≡ is.encoding)
        × (removed.length + 1 ≡ is.length)
        × (removed.size ≡ removed.length * removed.encoding)
    unfolding resize
    removed_header =
        rw (closed_header.1, closed_header.0, one_less)
          (
            refl,
            omega arith,
            size_exact is.encoding (is.length - 1) valid.encoded (omega (arith, valid.short)),
          )

    get-removed : (i : ℕ) → i < is.length - 1 → get removed i ≡ get closed i
    get-removed i h =
        let (x, y, z) = closed_header in
        let e : (closed.length + uint32 - 1) % uint32 ≡ is.length - 1 = rw y one_less in
        get-length (resize a closed ((closed.length + uint32 - 1) % uint32)) _ i
        ∙ rw e (
            get-resize closed (rw x valid.encoded) a (is.length - 1) i (cc (x, y, z, valid.sized))
              (omega (arith, valid.short)) h (omega arith))

    get-closed_before : (i : ℕ) → i < p → get closed i ≡ get is i
    get-closed_before i h = elim (Bool-cases (ltb p ((is.length + uint32 - 1) % uint32))) [
      | inl e ↦ rw e (get-move_tail_before is valid.encoded (p + 1) p i (omega arith) valid.short h)
      | inr e ↦ rw e refl
    ]

    get-closed_after : (i : ℕ) → p ≤ i → i < is.length - 1 → get closed i ≡ get is (i + 1)
    get-closed_after i h k =
        let there : ltb p ((is.length + uint32 - 1) % uint32) ≡ true =
          lt→ltb p _ (omega (arith, one_less)) in
        let e : i ≡ p + (i - p) = omega arith in
        let e' : p + 1 + (i - p) ≡ i + 1 = omega arith in
        rw there (
          ap (get (move_tail is (p + 1) p)) e
          ∙ get-move_tail is valid.encoded (p + 1) p (i - p) (omega arith) valid.short (omega arith)
          ∙ ap (get is) e')

    pub removed-RemovedAt : RemovedAt is p removed
    removed-RemovedAt = record {
      shorter = removed_header.1;
      inside = inside;
      before = λ i h. get-removed i (omega arith) ∙ get-closed_before i h;
      after = λ i h k.
          let k' : i < is.length - 1 = omega (arith, removed_header.1) in
          get-removed i k' ∙ get-closed_after i h k';
    }
