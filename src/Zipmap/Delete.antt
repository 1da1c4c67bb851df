-- ===== src/Zipmap/Delete.antt =====
-- zipmapDel on a well-formed zipmap.
use libredis_a.Common.{
  ℕ, suc, ◌+◌, ◌-◌, ◌≤◌, ◌≡◌, refl, sym, ap, ◌∙◌, ◌⊎◌, subst, Bool, true, false, Option, none, some,
  List, [], ◌∷◌, ◌++◌, length, length-append, ltb, if◌then◌else◌, Bool-cases, is_some, inl, inr,
  arith,
}
use mathlib.Core.List.{append_assoc}
use libredis_a.Common.Blocks.{
  move_lem, write_over, IsRealloc, drop, drop-append, write_at, move, write_at-append,
}
use libredis_a.Zipmap.{big_len, end_mark, raw_entry_length, resize, delete}
use libredis_a.Zipmap.Layout.{Entry, Small, encoded, same_string, raw_entry_length_lem}
use libredis_a.Zipmap.Lookup.{flat, place_of}
use libredis_a.Zipmap.Surgery.{resize_exact}
use libredis_a.Zipmap.Entries.{
  Absent, IsZipmap, value_of, same_string_iff, flat-append, around, split, lookup_total_lem,
}
use libredis_a.Zipmap.Contents.{Distinct-removed, value_of_removed}

-- A call that leaves a zipmap with these values in a block of bounded size, and its answer.
pub record Becomes (r : Option (List ℕ × Bool)) (answer : Bool) (bound : ℕ)
    (m : List ℕ → Option (List ℕ)) : Type 0 where
  pub after : List ℕ
  pub entries : List Entry
  pub is : r ≡ some (after, answer)
  pub valid : IsZipmap after entries
  pub bounded : length after ≤ bound
  pub values : (q : List ℕ) → value_of q entries ≡ m q

-- The first byte rewritten.
pub recount : (c d : ℕ) (q : List ℕ) → write_at 0 (d ∷ []) (c ∷ q) ≡ d ∷ q
recount c d q = write_at-append 0 (d ∷ []) [] (c ∷ []) q refl refl

module _ (realloc : List ℕ → ℕ → List ℕ) (library : IsRealloc realloc) where
  -- The tail is moved over the entry, and the block cut.
  pub closed :
      (a b m s : List ℕ) (at src n size : ℕ)
      → s ≡ a ++ (b ++ (m ++ (end_mark ∷ [])))
      → at ≡ length a
      → src ≡ length a + length b
      → n ≡ length m
      → size ≡ length a + length m + 1
      → resize realloc (move at src n s) size ≡ a ++ (m ++ (end_mark ∷ []))
  closed a b m s at src n size block h1 h2 h3 h4 =
      let rest = m ++ (end_mark ∷ []) in
      let past : drop src (a ++ (b ++ rest)) ≡ m ++ (end_mark ∷ []) =
        ap (drop src) (sym (append_assoc a b rest))
        ∙ drop-append src (a ++ b) rest (h2 ∙ sym (length-append a b)) in
      let (y, over, l) =
        write_over at m a (b ++ rest) h1
          (omega (arith, length-append b rest, length-append m (end_mark ∷ []))) in
      ap (λ t. resize realloc (move at src n t) size) block
      ∙ ap (λ t. resize realloc t size)
          (move_lem at src n (a ++ (b ++ rest)) m (end_mark ∷ []) past h3
            ∙ over
            ∙ sym (append_assoc a m y))
      ∙ resize_exact realloc library (a ++ m) y size (omega (arith, h4, length-append a m))
      ∙ append_assoc a m (end_mark ∷ [])

  -- The counter after a deletion.
  abbrev pub count_down : ℕ → ℕ
  count_down c = if ltb c big_len then c - 1 else c

  recounted :
      (c : ℕ) (q : List ℕ)
      → (if ltb c big_len then write_at 0 ((c - 1) ∷ []) (c ∷ q) else c ∷ q) ≡ count_down c ∷ q
  recounted c q = elim (Bool-cases (ltb c big_len)) [
    | inl e ↦ rw e (recount c (c - 1) q)
    | inr e ↦ rw e refl
  ]

  counted_down :
      (c : ℕ) (n m : ℕ)
      → ((c ≡ n) ⊎ (254 ≤ c))
      → n ≡ suc m
      → (count_down c ≡ m) ⊎ (254 ≤ count_down c)
  counted_down c n m (inl h) e = elim (Bool-cases (ltb c big_len)) [
    | inl f ↦ rw f (inl (omega (arith, h, e)))
    | inr f ↦ rw f (inr (ground arith))
  ]
  counted_down c n m (inr h) e = let f : ltb c big_len ≡ false = ground arith in rw f (inr h)

  module _ (zm : List ℕ) (key : List ℕ) where
    present :
        (l : List Entry) (e : Entry) (r : List Entry)
        → IsZipmap zm (l ++ (e ∷ r))
        → e.key ≡ key
        → Absent key l
        → place_of key 1 (l ++ (e ∷ r)) ≡ some (1 + length (flat l))
        → value_of key (l ++ (e ∷ r)) ≡ some e.val
        → Becomes
            (delete realloc zm key)
            (is_some (value_of key (l ++ (e ∷ r))))
            (length zm)
            (λ q. if same_string key q then none else value_of q (l ++ (e ∷ r)))
    present l e r z k a n v =
        let block = z.is ∙ around z.count l e r in
        let tail = flat r ++ (end_mark ∷ []) in
        let size : length zm ≡ 1 + length (flat l) + length (encoded e) + length (flat r) + 1 =
          omega (
            arith,
            ap length block,
            length-append (flat l) (encoded e ++ tail),
            length-append (encoded e) tail,
            length-append (flat r) (end_mark ∷ []),
          ) in
        let small : Small e = omega (arith, z.sized, size) in
        let free : raw_entry_length (drop (1 + length (flat l)) zm) ≡ length (encoded e) =
          ap raw_entry_length (
            ap (drop (1 + length (flat l))) block
            ∙ drop-append _ (z.count ∷ flat l) _ (omega arith))
          ∙ raw_entry_length_lem e small tail in
        let at = 1 + length (flat l) in
        let free_length = length (encoded e) in
        let room : resize realloc
              (move at (at + free_length) (length zm - (at + free_length + 1)) zm)
              (length zm - free_length)
            ≡ z.count ∷ (flat l ++ tail) =
          closed (z.count ∷ flat l) (encoded e) (flat r) zm at (at + free_length) _ _ block
            (omega arith) (omega arith) (omega (arith, size)) (omega (arith, size)) in
        let joined : flat l ++ tail ≡ flat (l ++ r) ++ (end_mark ∷ []) =
          sym (append_assoc (flat l) (flat r) (end_mark ∷ []))
          ∙ ap (λ q. q ++ (end_mark ∷ [])) (sym (flat-append l r)) in
        record {
          after = count_down z.count ∷ (flat l ++ tail);
          entries = l ++ r;
          is =
              unfold delete in
              rw (delete, lookup_total_lem zm (l ++ (e ∷ r)) z key, n, v, free, room)
                (ap (λ q. some (q, true)) (recounted z.count (flat l ++ tail)));
          valid = record {
            count = count_down z.count;
            is = ap (λ q. count_down z.count ∷ q) joined;
            sized = omega (
              arith,
              z.sized,
              size,
              length-append (flat l) tail,
              length-append (flat r) (end_mark ∷ []),
            );
            distinct = Distinct-removed l e r z.distinct;
            counted =
                counted_down z.count (length (l ++ (e ∷ r))) (length (l ++ r)) z.counted
                  (omega (arith, length-append l (e ∷ r), length-append l r));
          };
          bounded =
              omega
                (arith, size, length-append (flat l) tail, length-append (flat r) (end_mark ∷ []));
          values = λ q. value_of_removed l e r key q k a z.distinct;
        }

    -- `zipmapDel` removes the entry of the key and keeps the others, and says whether there was one.
    pub delete-Becomes :
        (es : List Entry)
        → IsZipmap zm es
        → Becomes
            (delete realloc zm key)
            (is_some (value_of key es))
            (length zm)
            (λ q. if same_string key q then none else value_of q es)
    delete-Becomes es z = elim (split key 1 es) [
      | inl (n, a, v) ↦ rw v (record {
        after = zm;
        entries = es;
        is = unfold delete in rw (delete, lookup_total_lem zm es z key, n) refl;
        valid = z;
        bounded = omega arith;
        values = λ q. elim (Bool-cases (same_string key q)) [
          | inl f ↦ rw (f, ← same_string_iff key q f) v
          | inr f ↦ rw f refl
        ];
      })
      | inr (l, e, r, same, k, a, n, v) ↦
          rw same (present l e r (subst (IsZipmap zm) same z) k a (rw same at n) (rw same at v))
    ]
