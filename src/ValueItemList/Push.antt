-- ===== src/ValueItemList/Push.antt =====
-- The pushes of value_item_list.c append and prepend.
use libredis_a.Common.{
  ℕ, ◌+◌, ◌≡◌, ◌≢◌, refl, sym, ap, ap₂, ◌∙◌, inl, inr, false, List, [], ◌∷◌, ◌++◌, map, arith,
  length, length-append, update, ◌==◌, Bool-cases, ==_iff,
}
use libredis_a.ValueItemList.{Node, Obj, Memory, State, ValueItemList, link_last, link_first}
use libredis_a.ValueItemList.Spine.{
  last, NotIn, TailIs-snoc, NotIn-last, IsDistinct-snoc, Spine, update_self, update_other,
  Spine-update, Spine-snoc, Spine-redirect, Spine-reroot, payload, Threads, contents, map_snoc,
}

module _ {Double : Type 0} where
  -- A list that threads the addresses, with the contents, and that knows its length.
  pub record Holds (t : State Double) (ys : List ℕ) (cs : List (ℕ × ℕ × Obj Double)) : Type 0 where
    pub threads : Threads t ys
    pub contains : contents t ys ≡ cs
    pub counted : t.1.len ≡ length ys

  contents_update :
      (m : Memory Double) (p : ℕ) (n : Node Double) (xs : List ℕ)
      → NotIn p xs
      → map (λ a. payload (update m p n a)) xs ≡ map (λ a. payload (m a)) xs
  contents_update m p n [] h = refl
  contents_update m p n (a ∷ xs) (h, hs) =
      rw (update_other m p a n h, contents_update m p n xs hs) refl

  -- A rewrite of a node that keeps its payload changes no contents.
  pub contents_relink :
      (m : Memory Double) (q : ℕ) (n : Node Double) (xs : List ℕ)
      → payload n ≡ payload (m q)
      → map (λ a. payload (update m q n a)) xs ≡ map (λ a. payload (m a)) xs
  contents_relink m q n [] h = refl
  contents_relink m q n (a ∷ xs) h =
      ap₂ (λ x y. x ∷ y)
        (elim (Bool-cases (q == a)) [
          | inl e ↦ rw e (h ∙ ap (λ i. payload (m i)) ((==_iff q a).0 e))
          | inr e ↦ rw e refl
        ])
        (contents_relink m q n xs h)

  -- A fresh node in memory, not yet linked.
  module _ (m : Memory Double) (list : ValueItemList) (p : ℕ) (n : Node Double)
      (alone : (n.pre ≡ 0) × (n.next ≡ 0)) (real : p ≢ 0) where
    abbrev fresh : Memory Double
    fresh = update m p n

    alone_lem : (fresh p) ≡ n
    alone_lem = update_self m p n

    single : Spine fresh 0 (p ∷ []) 0
    single = (
      real,
      ap (λ (k : Node Double). k.pre) alone_lem ∙ alone.0,
      ap (λ (k : Node Double). k.next) alone_lem ∙ alone.1,
      tt,
    )

    -- The node linked behind and before an address, and that address linked to it.
    abbrev back_node : ℕ → Memory Double
    back_node t = update fresh p (record (fresh p) { pre = t })

    abbrev back : ℕ → Memory Double
    back t = update (back_node t) t (record (back_node t t) { next = p })

    abbrev front_node : ℕ → Memory Double
    front_node a = update fresh p (record (fresh p) { next = a })

    abbrev front : ℕ → Memory Double
    front a = update (front_node a) a (record (front_node a a) { pre = p })

    module _ (a : ℕ) (xs : List ℕ) (new : NotIn p (a ∷ xs))
        (holds : Threads (m, list) (a ∷ xs)) where
      abbrev with_pre : Memory Double
      with_pre = back_node (last a xs)

      abbrev with_next : Memory Double
      with_next = back (last a xs)

      ne : p ≢ last a xs
      ne = NotIn-last p a xs (new.0) (new.1)

      appended : Spine with_next 0 (a ∷ (xs ++ (p ∷ []))) 0
      appended =
          let s1 = Spine-update m 0 (a ∷ xs) 0 p n holds.spine new in
          let s2 =
            Spine-update fresh 0 (a ∷ xs) 0 p (record (fresh p) { pre = last a xs }) s1 new in
          let s3 = Spine-redirect with_pre 0 a xs 0 p holds.distinct s2 in
          let same =
            update_other with_pre (last a xs) p (record (with_pre (last a xs)) { next = p })
              (λ e. ne (sym e)) in
          let self = update_self fresh p (record (fresh p) { pre = last a xs }) in
          Spine-snoc with_next 0 (a ∷ xs) 0 p s3 real
            (ap (λ (k : Node Double). k.pre) (same ∙ self))
            (ap (λ (k : Node Double). k.next)
                (same ∙ self ∙ ap (λ (k : Node Double). record k { pre = last a xs }) alone_lem)
              ∙ alone.1)

      appended_contents :
          map (λ x. payload (with_next x)) (a ∷ (xs ++ (p ∷ [])))
          ≡ contents (m, list) (a ∷ xs) ++ (payload n ∷ [])
      appended_contents =
          contents_relink with_pre (last a xs) (record (with_pre (last a xs)) { next = p })
            (a ∷ (xs ++ (p ∷ []))) refl
          ∙ contents_relink fresh p (record (fresh p) { pre = last a xs }) (a ∷ (xs ++ (p ∷ [])))
              refl
          ∙ map_snoc (λ x. payload (fresh x)) (a ∷ xs) p
          ∙ ap₂ (λ u v. u ++ (v ∷ [])) (contents_update m p n (a ∷ xs) new) (ap payload alone_lem)

      prepended : Spine (front a) 0 (p ∷ a ∷ xs) 0
      prepended =
          let rec = record (fresh p) { next = a } in
          let s1 = Spine-update m 0 (a ∷ xs) 0 p n holds.spine new in
          let s2 = Spine-update fresh 0 (a ∷ xs) 0 p rec s1 new in
          let s3 = Spine-reroot (front_node a) 0 a xs 0 p (holds.distinct.0) s2 in
          let same =
            update_other (front_node a) a p (record (front_node a a) { pre = p })
              (λ e. new.0 (sym e)) in
          let self = update_self fresh p rec in
          (
            real,
            ap (λ (k : Node Double). k.pre) (same ∙ self)
                ∙ ap (λ (k : Node Double). k.pre) alone_lem
                ∙ alone.0,
            ap (λ (k : Node Double). k.next) (same ∙ self),
            s3,
          )

      prepended_contents :
          map (λ x. payload (front a x)) (p ∷ a ∷ xs) ≡ payload n ∷ contents (m, list) (a ∷ xs)
      prepended_contents =
          contents_relink (front_node a) a (record (front_node a a) { pre = p }) (p ∷ a ∷ xs) refl
          ∙ contents_relink fresh p (record (fresh p) { next = a }) (p ∷ a ∷ xs) refl
          ∙ ap₂ (λ u v. v ∷ u) (contents_update m p n (a ∷ xs) new) (ap payload alone_lem)

    link_last_empty :
        list.head ≡ 0
        → link_last (fresh, list) p
          ≡ (fresh, record list { head = p; tail = p; len = list.len + 1 })
    unfolding link_last
    link_last_empty h = let e = (==_iff list.head 0).1 h in rw e refl

    link_first_empty :
        list.head ≡ 0
        → link_first (fresh, list) p
          ≡ (fresh, record list { head = p; tail = p; len = list.len + 1 })
    unfolding link_first
    link_first_empty h = let e = (==_iff list.head 0).1 h in rw e refl

    link_last_more :
        (t : ℕ)
        → list.head ≢ 0
        → list.tail ≡ t
        → link_last (fresh, list) p ≡ (back t, record list { tail = p; len = list.len + 1 })
    unfolding link_last
    link_last_more t h e =
        let f : (list.head == 0) ≡ false = ground arith in
        rw f (ap (λ u. (back u, record list { tail = p; len = list.len + 1 })) e)

    link_first_more :
        (a : ℕ)
        → a ≢ 0
        → list.head ≡ a
        → link_first (fresh, list) p ≡ (front a, record list { head = p; len = list.len + 1 })
    unfolding link_first
    link_first_more a h e =
        let f : (list.head == 0) ≡ false = ground arith in
        rw f (ap (λ u. (front u, record list { head = p; len = list.len + 1 })) e)

    pub link_last-Holds :
        (xs : List ℕ)
        → NotIn p xs
        → Threads (m, list) xs
        → list.len ≡ length xs
        → Holds
            (link_last (fresh, list) p)
            (xs ++ (p ∷ []))
            (contents (m, list) xs ++ (payload n ∷ []))
    link_last-Holds [] new holds len = rw (link_last_empty holds.head) (record {
      threads = record { spine = single; head = refl; tail = refl; distinct = (tt, tt) };
      contains = ap (λ k. payload k ∷ []) alone_lem;
      counted = omega (arith, len);
    })
    link_last-Holds (a ∷ xs) new holds len =
        let (z, x, y, s) = holds.spine in
        rw (link_last_more (last a xs) (λ e. z (sym holds.head ∙ e)) holds.tail) (record {
          threads = record {
            spine = appended a xs new holds;
            head = holds.head;
            tail = TailIs-snoc (a ∷ xs) p;
            distinct = IsDistinct-snoc (a ∷ xs) p holds.distinct new;
          };
          contains = appended_contents a xs new holds;
          counted = omega (arith, len, length-append xs (p ∷ []));
        })

    pub link_first-Holds :
        (xs : List ℕ)
        → NotIn p xs
        → Threads (m, list) xs
        → list.len ≡ length xs
        → Holds (link_first (fresh, list) p) (p ∷ xs) (payload n ∷ contents (m, list) xs)
    link_first-Holds [] new holds len = rw (link_first_empty holds.head) (record {
      threads = record { spine = single; head = refl; tail = refl; distinct = (tt, tt) };
      contains = ap (λ k. payload k ∷ []) alone_lem;
      counted = omega (arith, len);
    })
    link_first-Holds (a ∷ xs) new holds len =
        let (z, x, y, s) = holds.spine in
        rw (link_first_more a z holds.head) (record {
          threads = record {
            spine = prepended a xs new holds;
            head = refl;
            tail = holds.tail;
            distinct = (new, holds.distinct);
          };
          contains = prepended_contents a xs new holds;
          counted = omega (arith, len);
        })
