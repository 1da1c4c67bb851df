-- ===== src/Zipmap/Update.antt =====
-- What zipmapSet leaves of a well-formed zipmap.
use libredis_a.Common.{
  ℕ, ◌+◌, ◌-◌, ◌≤◌, ◌<◌, ◌^◌, ◌≡◌, refl, sym, ap, ◌∙◌, ◌⊎◌, subst, true, false, none, some, List,
  [], ◌∷◌, ◌++◌, length, length-append, ltb, if◌then◌else◌, Bool-cases, is_some, inl, inr, arith,
}
use native.Mathlib.Nat.{mod-eq_of_lt}
use libredis_a.Common.Blocks.{IsRealloc, drop, drop-append, write_at}
use libredis_a.Zipmap.{
  big_len, end_mark, wrap, raw_entry_length, required_length, resize, place_new, place_old, fill,
  set,
}
use libredis_a.Zipmap.Layout.{
  Entry, Small, encoded, same_string, length-encoded, length-value_part, raw_entry_length_lem,
}
use libredis_a.Zipmap.Lookup.{flat, place_of}
use libredis_a.Zipmap.Surgery.{resize_lem}
use libredis_a.Zipmap.Entries.{
  Absent, IsZipmap, value_of, around, split, total_length, lookup_total_lem,
}
use libredis_a.Zipmap.Contents.{Distinct-changed, Distinct-added, value_of_changed, value_of_added}
use libredis_a.Zipmap.Delete.{Becomes, recount}
use libredis_a.Zipmap.Set.{entry_size, required_length_lem, filled_exactly, filled_in, grown}

-- The counter after an insertion.
abbrev count_up : ℕ → ℕ
count_up c = if ltb c big_len then c + 1 else c

recounted :
    (c : ℕ) (q : List ℕ)
    → (if ltb c big_len then write_at 0 ((c + 1) ∷ []) (c ∷ q) else c ∷ q) ≡ count_up c ∷ q
recounted c q = elim (Bool-cases (ltb c big_len)) [
  | inl e ↦ rw e (recount c (c + 1) q)
  | inr e ↦ rw e refl
]

counted_up : (c n m : ℕ) → ((c ≡ n) ⊎ (254 ≤ c)) → m ≡ n + 1 → (count_up c ≡ m) ⊎ (254 ≤ count_up c)
counted_up c n m (inl h) e = elim (Bool-cases (ltb c big_len)) [
  | inl f ↦ rw f (inl (omega (arith, h, e)))
  | inr f ↦ rw f (inr (ground arith))
]
counted_up c n m (inr h) e = let f : ltb c big_len ≡ false = ground arith in rw f (inr h)

module _ (realloc : List ℕ → ℕ → List ℕ) (library : IsRealloc realloc) (zm key val : List ℕ)
    (room : length zm + entry_size key val < 2 ^ 32) where
  abbrev req : ℕ
  req = entry_size key val

  abbrev fresh : Entry
  fresh = record { key = key; val = val; spare = [] }

  needs : required_length (length key) (length val) ≡ req
  needs = required_length_lem key val (omega (arith, room))

  added :
      (es : List Entry) (z : IsZipmap zm es)
      → fill realloc req key val (place_new realloc req zm (length zm))
        ≡ count_up z.count ∷ (flat (es ++ (fresh ∷ [])) ++ (end_mark ∷ []))
  unfolding place_new
  added es z =
      let total = total_length zm es z in
      let n : wrap (length zm + req) ≡ length zm + req = mod-eq_of_lt (omega (arith, room)) in
      let (g, is, l) =
        resize_lem realloc library (z.count ∷ flat es) (end_mark ∷ []) (length zm + req)
          (omega (arith, total)) in
      let whole : resize realloc zm (length zm + req)
          ≡ z.count ∷ (flat es ++ (g ++ (end_mark ∷ []))) =
        ap (λ q. resize realloc q (length zm + req)) z.is ∙ is in
      rw (n, whole, recounted z.count (flat es ++ (g ++ (end_mark ∷ []))))
        (filled_exactly realloc library key val req refl (count_up z.count ∷ flat es) g [] _
            (length zm - 1) (length zm + req) refl (omega (arith, total)) (omega (arith, total, l))
          ∙ sym (around (count_up z.count) es fresh []))

  absent :
      (es : List Entry) (z : IsZipmap zm es)
      → Absent key es
      → place_of key 1 es ≡ none
      → value_of key es ≡ none
      → Becomes
          (set realloc zm key val)
          (is_some (value_of key es))
          (length zm + req)
          (λ q. if same_string key q then some val else value_of q es)
  absent es z a n v = record {
    after = count_up z.count ∷ (flat (es ++ (fresh ∷ [])) ++ (end_mark ∷ []));
    entries = es ++ (fresh ∷ []);
    is = unfold set in rw (set, lookup_total_lem zm es z key, n, v, needs, added es z) refl;
    valid = record {
      count = count_up z.count;
      is = refl;
      sized = omega (
        arith,
        room,
        total_length zm es z,
        ap length (around (count_up z.count) es fresh []),
        length-append (flat es) (encoded fresh ++ (end_mark ∷ [])),
        length-append (encoded fresh) (end_mark ∷ []),
      );
      distinct = Distinct-added es fresh a z.distinct;
      counted =
          counted_up z.count (length es) _ z.counted (omega (arith, length-append es (fresh ∷ [])));
    };
    bounded = omega (
      arith,
      total_length zm es z,
      ap length (around (count_up z.count) es fresh []),
      length-append (flat es) (encoded fresh ++ (end_mark ∷ [])),
      length-append (encoded fresh) (end_mark ∷ []),
    );
    values = λ q. value_of_added es fresh q a;
  }

  -- The entry of a present key rewritten, in its place or in a larger one.
  module _ (l : List Entry) (e : Entry) (r : List Entry) (z : IsZipmap zm (l ++ (e ∷ r))) where
    abbrev Rewritten : List ℕ → Type 0
    Rewritten t =
        (spare : List ℕ) × (t
          ≡ (z.count ∷ flat l)
            ++ (encoded (record { key = key; val = val; spare = spare })
                ++ (flat r ++ (end_mark ∷ []))))
        × (length spare ≤ length (encoded e))

    size : length zm ≡ 1 + length (flat l) + length (encoded e) + length (flat r) + 1
    size =
        let tail = flat r ++ (end_mark ∷ []) in
        omega (
          arith,
          ap length (z.is ∙ around z.count l e r),
          length-append (flat l) (encoded e ++ tail),
          length-append (encoded e) tail,
          length-append (flat r) (end_mark ∷ []),
        )

    free : raw_entry_length (drop (1 + length (flat l)) zm) ≡ length (encoded e)
    free =
        let small : Small e = omega (arith, z.sized, size) in
        ap raw_entry_length (
          ap (drop (1 + length (flat l))) (z.is ∙ around z.count l e r)
          ∙ drop-append _ (z.count ∷ flat l) _ (omega arith))
        ∙ raw_entry_length_lem e small _

    rewritten :
        Rewritten
          (fill realloc req key val (place_old realloc req zm (length zm) (1 + length (flat l))))
    unfolding place_old
    rewritten =
        let at = 1 + length (flat l) in
        let block = z.is ∙ around z.count l e r in
        elim (Bool-cases (ltb (length (encoded e)) req)) [
          | inr f ↦
              rw (free, f)
                (let (spare, is, small) =
                    filled_in realloc library key val req refl (z.count ∷ flat l) (encoded e)
                      (flat r) zm at (length zm) block (omega arith) (ground arith) refl in
                  (spare, is, omega (arith, small)))
          | inl f ↦
              rw (free, f)
                (let n : wrap (length zm - length (encoded e) + req)
                      ≡ length zm - length (encoded e) + req =
                    mod-eq_of_lt (omega (arith, room)) in
                  let (w, is, k) =
                    grown realloc library key val req refl (z.count ∷ flat l) (encoded e) (flat r)
                      zm at block (omega arith) (ground arith) _ n in
                  (
                    [],
                    filled_exactly realloc library key val req refl (z.count ∷ flat l) w (flat r) _
                        at _ is (omega arith) k,
                    omega arith,
                  ))
        ]

    present :
        e.key ≡ key
        → Absent key l
        → place_of key 1 (l ++ (e ∷ r)) ≡ some (1 + length (flat l))
        → value_of key (l ++ (e ∷ r)) ≡ some e.val
        → Becomes
            (set realloc zm key val)
            (is_some (value_of key (l ++ (e ∷ r))))
            (length zm + req)
            (λ q. if same_string key q then some val else value_of q (l ++ (e ∷ r)))
    present k a n v =
        let (spare, is, small) = rewritten in
        let new : Entry = record { key = key; val = val; spare = spare } in
        let tail = flat r ++ (end_mark ∷ []) in
        let bytes : length (encoded new) ≡ req + length spare = omega (
          arith,
          length-encoded new,
          length-value_part new,
          length-encoded fresh,
          length-value_part fresh,
        ) in
        record {
          after = z.count ∷ (flat (l ++ (new ∷ r)) ++ (end_mark ∷ []));
          entries = l ++ (new ∷ r);
          is =
              unfold set in
              rw (set, lookup_total_lem zm (l ++ (e ∷ r)) z key, n, v, needs, is)
                (ap (λ q. some (q, true)) (sym (around z.count l new r)));
          valid = record {
            count = z.count;
            is = refl;
            sized = omega (
              arith,
              room,
              size,
              ap length (around z.count l new r),
              length-append (flat l) (encoded new ++ tail),
              length-append (encoded new) tail,
              length-append (flat r) (end_mark ∷ []),
              bytes,
              small,
            );
            distinct = Distinct-changed l e new r (sym k) z.distinct;
            counted =
                subst (λ c. (z.count ≡ c) ⊎ (254 ≤ z.count))
                  (omega (arith, length-append l (e ∷ r), length-append l (new ∷ r))) z.counted;
          };
          bounded = omega (
            arith,
            size,
            ap length (around z.count l new r),
            length-append (flat l) (encoded new ++ tail),
            length-append (encoded new) tail,
            length-append (flat r) (end_mark ∷ []),
            bytes,
            small,
          );
          values = λ q. value_of_changed l e r key q k new refl a;
        }

  -- `zipmapSet` stores the value under the key, keeps every other value, and says whether the key was
  -- there.
  pub set-Becomes :
      (es : List Entry)
      → IsZipmap zm es
      → Becomes
          (set realloc zm key val)
          (is_some (value_of key es))
          (length zm + req)
          (λ q. if same_string key q then some val else value_of q es)
  set-Becomes es z = elim (split key 1 es) [
    | inl (n, a, v) ↦ absent es z a n v
    | inr (l, e, r, same, k, a, n, v) ↦
        rw same (present l e r (subst (IsZipmap zm) same z) k a (rw same at n) (rw same at v))
  ]
