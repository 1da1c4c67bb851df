-- ===== src/Zipmap/Set.antt =====
-- zipmapSet on a well-formed zipmap.
use libredis_a.Common.{
  ℕ, ◌+◌, ◌-◌, ◌≤◌, ◌<◌, ◌^◌, ◌≡◌, sym, ap, ◌∙◌, false, List, [], ◌∷◌, ◌++◌, length, length-append,
  leb, if◌then◌else◌, Bool-cases, inl, inr, arith,
}
use mathlib.Core.List.{append_assoc}
use native.Mathlib.Nat.{mod-eq_of_lt}
use libredis_a.Common.Blocks.{
  cut, move_lem, IsRealloc, drop, drop-append, write_at, move, write_at-append,
}
use libredis_a.Zipmap.{
  big_len, end_mark, value_max_free, wrap, len_bytes, encode_length, required_length, entry_bytes,
  resize, fill,
}
use libredis_a.Zipmap.Layout.{encoded, length-encoded, length-value_part, length-encode_length}
use libredis_a.Zipmap.Surgery.{resize_lem}
use libredis_a.Zipmap.Delete.{closed}

-- The size of an entry without unused bytes.
abbrev pub entry_size : List ℕ → List ℕ → ℕ
entry_size key val = length (encoded (record { key = key; val = val; spare = [] }))

entry_size_parts :
    (key val : List ℕ)
    → entry_size key val
      ≡ len_bytes (length key) + length key + (len_bytes (length val) + (1 + length val))
entry_size_parts key val = omega (
  arith,
  length-encoded (record { key = key; val = val; spare = [] }),
  length-value_part (record { key = key; val = val; spare = [] }),
)

pub required_length_lem :
    (key val : List ℕ)
    → entry_size key val < 2 ^ 32
    → required_length (length key) (length val) ≡ entry_size key val
unfolding required_length
required_length_lem key val h =
    let e : length key
          + length val
          + 3
          + (if leb big_len (length key) then 4 else 0)
          + (if leb big_len (length val) then 4 else 0)
        ≡ entry_size key val =
      ground (arith, entry_size_parts key val) in
    ap wrap e ∙ mod-eq_of_lt h

-- What is written, with the bytes that stay after it, is an entry.
entry_bytes_lem :
    (key val s x : List ℕ)
    → entry_bytes key val (length s) ++ (s ++ x)
      ≡ encoded (record { key = key; val = val; spare = s }) ++ x
unfolding entry_bytes
entry_bytes_lem key val s x =
    let front = encode_length (length key) in
    let back = encode_length (length val) ++ (length s ∷ val) in
    sym (append_assoc (front ++ (key ++ back)) s x)
    ∙ ap (λ q. q ++ x)
        (append_assoc front (key ++ back) s
          ∙ ap (λ q. front ++ q)
              (append_assoc key back s
                ∙ ap (λ q. key ++ q)
                    (append_assoc (encode_length (length val)) (length s ∷ val) s)))

length-entry_bytes :
    (key val : List ℕ) (n : ℕ) → length (entry_bytes key val n) ≡ entry_size key val
unfolding entry_bytes
length-entry_bytes key val n = omega (
  arith,
  entry_size_parts key val,
  length-append (encode_length (length key)) (key ++ (encode_length (length val) ++ (n ∷ val))),
  length-append key (encode_length (length val) ++ (n ∷ val)),
  length-append (encode_length (length val)) (n ∷ val),
  length-encode_length (length key),
  length-encode_length (length val),
)

module _ (realloc : List ℕ → ℕ → List ℕ) (library : IsRealloc realloc) (key val : List ℕ) (req : ℕ)
    (fits : req ≡ entry_size key val) where
  abbrev pub ended : List ℕ → List ℕ
  ended m = m ++ (end_mark ∷ [])

  -- A place of the exact size is overwritten.
  pub filled_exactly :
      (a w m s : List ℕ) (at zmlen : ℕ)
      → s ≡ a ++ (w ++ ended m)
      → at ≡ length a
      → length w ≡ req
      → fill realloc req key val (record { zm = s; at = at; zmlen = zmlen; freelen = req })
        ≡ a ++ (encoded (record { key = key; val = val; spare = [] }) ++ ended m)
  unfolding fill
  filled_exactly a w m s at zmlen block h l =
      let z : leb value_max_free (req - req) ≡ false = ground arith in
      let none_left : req - req ≡ 0 = omega arith in
      rw (z, none_left)
        (ap (write_at at (entry_bytes key val 0)) block
          ∙ write_at-append at (entry_bytes key val 0) a w (ended m) h
              (length-entry_bytes key val 0 ∙ sym fits ∙ sym l)
          ∙ ap (λ q. a ++ q) (entry_bytes_lem key val [] (ended m)))

  -- The place of a present entry that is large enough.
  module _ (a b m s : List ℕ) (at zmlen : ℕ) (block : s ≡ a ++ (b ++ ended m)) (h : at ≡ length a)
      (large : req ≤ length b) (whole : zmlen ≡ length s) where
    pub filled_in :
        (spare : List ℕ) × (fill realloc req key val
            (record { zm = s; at = at; zmlen = zmlen; freelen = length b })
          ≡ a ++ (encoded (record { key = key; val = val; spare = spare }) ++ ended m))
        × (length spare + req ≤ length b)
    unfolding fill
    filled_in =
        let (w, w2, same, n) = cut req b large in
        let sizes : length b ≡ req + length w2 =
          omega (arith, n, ap length same, length-append w w2) in
        let size : zmlen ≡ length a + length b + length m + 1 = omega (
          arith,
          whole,
          ap length block,
          length-append a (b ++ ended m),
          length-append b (ended m),
          length-append m (end_mark ∷ []),
        ) in
        let parts : s ≡ a ++ (w ++ (w2 ++ ended m)) =
          block
          ∙ ap (λ q. a ++ (q ++ ended m)) same
          ∙ ap (λ q. a ++ q) (append_assoc w w2 (ended m)) in
        let exact : length (entry_bytes key val (length w2)) ≡ length w =
          length-entry_bytes key val (length w2) ∙ sym fits ∙ sym n in
        elim (Bool-cases (leb value_max_free (length b - req))) [
          | inl f ↦
              let cut_off =
                closed realloc library (a ++ w) w2 m s (at + req) (at + length b)
                  (zmlen - (at + length b + 1)) (zmlen - (length b - req))
                  (parts ∙ sym (append_assoc a w (w2 ++ ended m)))
                  (omega (arith, h, n, length-append a w))
                  (omega (arith, h, n, sizes, length-append a w)) (omega (arith, size, h))
                  (omega (arith, size, sizes, n, length-append a w)) in
              (
                [],
                rw f (
                    ap (write_at at (entry_bytes key val 0)) (cut_off ∙ append_assoc a w (ended m))
                    ∙ write_at-append at (entry_bytes key val 0) a w (ended m) h
                        (length-entry_bytes key val 0 ∙ sym fits ∙ sym n)
                    ∙ ap (λ q. a ++ q) (entry_bytes_lem key val [] (ended m))),
                omega (arith, large),
              )
          | inr f ↦
              let rest : length b - req ≡ length w2 = omega (arith, sizes) in
              (
                w2,
                rw (f, rest)
                    (ap (write_at at (entry_bytes key val (length w2))) parts
                      ∙ write_at-append at (entry_bytes key val (length w2)) a w (w2 ++ ended m) h
                          exact
                      ∙ ap (λ q. a ++ q) (entry_bytes_lem key val w2 (ended m))),
                omega (arith, sizes),
              )
        ]

  -- The place of a present entry that is too small: the block grows and the tail moves up.
  module _ (a b m s : List ℕ) (at : ℕ) (block : s ≡ a ++ (b ++ ended m)) (h : at ≡ length a)
      (small : length b < req) where
    pub grown :
        (n : ℕ)
        → n ≡ length s - length b + req
        → (w : List ℕ) × (move
              (at + req)
              (at + length b)
              (length s - (at + length b + 1))
              (resize realloc s n)
            ≡ a ++ (w ++ ended m))
          × (length w ≡ req)
    grown n e =
        let size : length s ≡ length a + length b + length m + 1 = omega (
          arith,
          ap length block,
          length-append a (b ++ ended m),
          length-append b (ended m),
          length-append m (end_mark ∷ []),
        ) in
        let x = a ++ (b ++ m) in
        let length_x : length x ≡ length a + length b + length m =
          omega (arith, length-append a (b ++ m), length-append b m) in
        let whole : s ≡ x ++ (end_mark ∷ []) =
          block
          ∙ ap (λ q. a ++ q) (sym (append_assoc b m (end_mark ∷ [])))
          ∙ sym (append_assoc a (b ++ m) (end_mark ∷ [])) in
        let (g, is, l) =
          resize_lem realloc library x (end_mark ∷ []) n
            (omega (arith, e, size, length_x, small)) in
        let long : length (b ++ (m ++ g)) ≡ req + length m =
          omega (arith, length-append b (m ++ g), length-append m g, l, e, size, length_x, small) in
        let (w, old, same, k) = cut req (b ++ (m ++ g)) (omega (arith, long)) in
        let old_size : length old ≡ length m =
          omega (arith, long, k, ap length same, length-append w old) in
        let room : resize realloc s n ≡ a ++ (b ++ (m ++ ended g)) =
          ap (λ q. resize realloc q n) whole
          ∙ is
          ∙ append_assoc a (b ++ m) (ended g)
          ∙ ap (λ q. a ++ q) (append_assoc b m (ended g)) in
        let past : drop (at + length b) (a ++ (b ++ (m ++ ended g))) ≡ m ++ ended g =
          ap (drop (at + length b)) (sym (append_assoc a b (m ++ ended g)))
          ∙ drop-append _ (a ++ b) (m ++ ended g) (omega (arith, h, length-append a b)) in
        let cut_room : a ++ (b ++ (m ++ ended g)) ≡ (a ++ w) ++ (old ++ (end_mark ∷ [])) =
          ap (λ q. a ++ q)
            (ap (λ q. b ++ q) (sym (append_assoc m g (end_mark ∷ [])))
              ∙ sym (append_assoc b (m ++ g) (end_mark ∷ []))
              ∙ ap (λ q. q ++ (end_mark ∷ [])) same
              ∙ append_assoc w old (end_mark ∷ []))
          ∙ sym (append_assoc a w (old ++ (end_mark ∷ []))) in
        (
          w,
          ap (move (at + req) (at + length b) (length s - (at + length b + 1))) room
              ∙ move_lem (at + req) (at + length b) _ (a ++ (b ++ (m ++ ended g))) m (ended g) past
                  (omega (arith, h, size))
              ∙ ap (write_at (at + req) m) cut_room
              ∙ write_at-append (at + req) m (a ++ w) old (end_mark ∷ [])
                  (omega (arith, h, k, length-append a w)) (sym old_size)
              ∙ append_assoc a w (ended m),
          k,
        )
