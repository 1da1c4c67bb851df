-- ===== src/ValueItemList/Pop.antt =====
-- The pops of value_item_list.c take a node from either end.
use libredis_a.Common.{
  ℕ, ◌-◌, ◌≡◌, ◌≢◌, refl, sym, ap, ap₂, ◌∙◌, true, false, Option, some, List, [], ◌∷◌, ◌++◌, arith,
  update, ◌==◌, ==_iff,
}
use libredis_a.ValueItemList.{Node, Obj, Memory, State, ValueItemList, remove_node, lpop, rpop}
use libredis_a.ValueItemList.Spine.{
  last, NotIn, IsDistinct, Spine, update_other, Spine-redirect, Spine-reroot, Threads, contents,
}
use libredis_a.ValueItemList.Push.{Holds, contents_relink}

rest_of {ℓ} : {A : Type ℓ} → List A → List A
rest_of [] = []
rest_of (x ∷ xs) = xs

tail_eq {ℓ} : {A : Type ℓ} {x y : A} {xs ys : List A} → (x ∷ xs) ≡ (y ∷ ys) → xs ≡ ys
unfolding rest_of
tail_eq e = ap rest_of e

IsDistinct-unsnoc :
    (a : ℕ) (xs : List ℕ) (p : ℕ)
    → IsDistinct (a ∷ (xs ++ (p ∷ [])))
    → IsDistinct (a ∷ xs) × (p ≢ last a xs)
IsDistinct-unsnoc a [] p (n, d) = ((tt, tt), λ e. n.0 (sym e))
IsDistinct-unsnoc a (c ∷ xs) p (n, d) =
    let (d', ne) = IsDistinct-unsnoc c xs p d in ((NotIn-unsnoc a (c ∷ xs) p n, d'), ne)
  where
    NotIn-unsnoc : (q : ℕ) (ys : List ℕ) (p : ℕ) → NotIn q (ys ++ (p ∷ [])) → NotIn q ys
    NotIn-unsnoc q [] p n = tt
    NotIn-unsnoc q (y ∷ ys) p (n, ns) = (n, NotIn-unsnoc q ys p ns)

last-snoc_tail : (a : ℕ) (xs : List ℕ) (p : ℕ) → last a (xs ++ (p ∷ [])) ≡ p
last-snoc_tail a [] p = refl
last-snoc_tail a (c ∷ xs) p = last-snoc_tail c xs p

module _ {Double : Type 0} where
  module _ (m : Memory Double) (a : ℕ) (real : a ≢ 0) where
    some_node : (a == 0) ≡ false
    some_node = ground arith

    remove_alone : (m a).pre ≡ 0 → (m a).next ≡ 0 → remove_node m a ≡ m
    remove_alone x y =
        let p : ((m a).pre == 0) ≡ true = (==_iff _ _).1 x in
        let n : ((m a).next == 0) ≡ true = (==_iff _ _).1 y in
        unfold remove_node in rw (some_node, p, n) refl

    remove_front :
        (c : ℕ)
        → c ≢ 0
        → (m a).pre ≡ 0
        → (m a).next ≡ c
        → remove_node m a ≡ update m c (record (m c) { pre = 0 })
    remove_front c h x y =
        let p : ((m a).pre == 0) ≡ true = (==_iff _ _).1 x in
        let n : ((m a).next == 0) ≡ false = ground arith in
        unfold remove_node in
        rw (some_node, p, n) (ap₂ (λ u v. update m u (record (m u) { pre = v })) y x)

    remove_back :
        (b : ℕ)
        → b ≢ 0
        → a ≢ b
        → (m a).pre ≡ b
        → (m a).next ≡ 0
        → remove_node m a ≡ update m b (record (m b) { next = 0 })
    remove_back b h ne x y =
        let p : ((m a).pre == 0) ≡ false = ground arith in
        let ne' : (m a).pre ≢ a = λ e. ne (sym e ∙ x) in
        let same = update_other m ((m a).pre) a (record (m (m a).pre) { next = (m a).next }) ne' in
        let n : ((update m ((m a).pre) (record (m (m a).pre) { next = (m a).next }) a).next == 0)
            ≡ true =
          (==_iff _ _).1 (ap (λ (k : Node Double). k.next) same ∙ y) in
        unfold remove_node in
        rw (some_node, p, n) (ap₂ (λ u v. update m u (record (m u) { next = v })) x y)

  -- A list that has lost its first node, and the node.
  pub record Popped (r : Option (Option (State Double) × ℕ)) (a : ℕ) (xs : List ℕ)
      (cs : List (ℕ × ℕ × Obj Double)) : Type 0 where
    pub state : State Double
    pub is : r ≡ some (some state, a)
    pub holds : Holds state xs cs

  popped :
      (m : Memory Double) (list : ValueItemList) (t : Memory Double) (a h : ℕ)
      → list.head ≡ a
      → a ≢ 0
      → remove_node m a ≡ t
      → (t a).next ≡ h
      → lpop (some (m, list)) ≡ some (some (t, record list { head = h; len = list.len - 1 }), a)
  popped m list t a h e real r n =
      let p : (list.head == 0) ≡ false = ground arith in
      let r' : remove_node m list.head ≡ t = ap (remove_node m) e ∙ r in
      let n' : (remove_node m list.head list.head).next ≡ h =
        ap₂ (λ (u : Memory Double) v. (u v).next) r' e ∙ n in
      unfold lpop in
      rw p (
        ap₂
          (λ (u : Memory Double × ℕ) v.
            some (some (u.0, record list { head = v; len = list.len - 1 }), u.1))
          (ap₂ (λ u v. (u, v)) r' e) n')

  -- lpopValueItemNode on a well-formed list that is not empty returns the first node and leaves
  -- the others with their contents and the length one less.
  pub lpop-Popped :
      (m : Memory Double) (list : ValueItemList) (a : ℕ) (xs : List ℕ) (c : ℕ × ℕ × Obj Double)
      (cs : List (ℕ × ℕ × Obj Double))
      → Holds (m, list) (a ∷ xs) (c ∷ cs)
      → Popped (lpop (some (m, list))) a xs cs
  lpop-Popped m list a [] c cs h =
      let (z, x, y, s) = h.threads.spine in
      record {
        state = (m, record list { head = 0; len = list.len - 1 });
        is = popped m list m a 0 h.threads.head z (remove_alone m a z x y) y;
        holds = record {
          threads = record { spine = tt; head = refl; tail = tt; distinct = tt };
          contains = tail_eq h.contains;
          counted = omega (arith, h.counted);
        };
      }
  lpop-Popped m list a (b ∷ xs) c cs h =
      let (z, x, y, s) = h.threads.spine in
      let ((ne, nes), (d, ds)) = h.threads.distinct in
      let t : Memory Double = update m b (record (m b) { pre = 0 }) in
      let same = update_other m b a (record (m b) { pre = 0 }) (λ e. ne (sym e)) in
      record {
        state = (t, record list { head = b; len = list.len - 1 });
        is =
            popped m list t a b h.threads.head z (remove_front m a z b (s.0) x y)
              (ap (λ (k : Node Double). k.next) same ∙ y);
        holds = record {
          threads = record {
            spine = Spine-reroot m a b xs 0 0 d s;
            head = refl;
            tail = h.threads.tail;
            distinct = (d, ds);
          };
          contains =
              contents_relink m b (record (m b) { pre = 0 }) (b ∷ xs) refl ∙ tail_eq h.contains;
          counted = omega (arith, h.counted);
        };
      }

  -- The last node of a spine, taken off.
  Spine-unsnoc :
      (m : Memory Double) (b a : ℕ) (xs : List ℕ) (p e : ℕ)
      → Spine m b (a ∷ (xs ++ (p ∷ []))) e
      → Spine m b (a ∷ xs) p
        × (p ≢ 0)
        × (last a xs ≢ 0)
        × ((m p).pre ≡ last a xs)
        × ((m p).next ≡ e)
  Spine-unsnoc m b a [] p e (z, x, y, (zp, xp, yp, s)) = ((z, x, y, tt), zp, z, xp, yp)
  Spine-unsnoc m b a (c ∷ xs) p e (z, x, y, s) =
      let (s', zp, zl, xp, yp) = Spine-unsnoc m a c xs p e s in ((z, x, y, s'), zp, zl, xp, yp)

  rpopped :
      (m : Memory Double) (list : ValueItemList) (t : Memory Double) (p h : ℕ)
      → list.tail ≡ p
      → p ≢ 0
      → remove_node m p ≡ t
      → (t p).pre ≡ h
      → rpop (some (m, list)) ≡ some (some (t, record list { tail = h }), p)
  rpopped m list t p h e real r n =
      let q : (list.tail == 0) ≡ false = ground arith in
      let r' : remove_node m list.tail ≡ t = ap (remove_node m) e ∙ r in
      let n' : (remove_node m list.tail list.tail).pre ≡ h =
        ap₂ (λ (u : Memory Double) v. (u v).pre) r' e ∙ n in
      unfold rpop in
      rw q (
        ap₂ (λ (u : Memory Double × ℕ) v. some (some (u.0, record list { tail = v }), u.1))
          (ap₂ (λ u v. (u, v)) r' e) n')

  -- What `rpopValueItemNode` leaves: the list without its last node, and the old length.
  pub record RightPopped (list : ValueItemList) (r : Option (Option (State Double) × ℕ)) (p : ℕ)
      (ys : List ℕ) (cs : List (ℕ × ℕ × Obj Double)) : Type 0 where
    pub state : State Double
    pub is : r ≡ some (some state, p)
    pub threads : Threads state ys
    pub contains : contents state ys ≡ cs
    pub stale : state.1.len ≡ list.len

  -- rpopValueItemNode on a well-formed list of at least two nodes returns the last node and leaves
  -- the others with their contents, but leaves the length as it was.
  pub rpop-RightPopped :
      (m : Memory Double) (list : ValueItemList) (a : ℕ) (xs : List ℕ) (p : ℕ)
      → Threads (m, list) (a ∷ (xs ++ (p ∷ [])))
      → RightPopped list (rpop (some (m, list))) p (a ∷ xs) (contents (m, list) (a ∷ xs))
  rpop-RightPopped m list a xs p h =
      let l = last a xs in
      let (s, zp, zl, xp, yp) = Spine-unsnoc m 0 a xs p 0 h.spine in
      let (d, ne) = IsDistinct-unsnoc a xs p h.distinct in
      let n : Node Double = record (m l) { next = 0 } in
      let same = update_other m l p n (λ e. ne (sym e)) in
      record {
        state = (update m l n, record list { tail = l });
        is =
            rpopped m list (update m l n) p l (h.tail ∙ last-snoc_tail a xs p) zp
              (remove_back m p zp l zl ne xp yp) (ap (λ (k : Node Double). k.pre) same ∙ xp);
        threads = record {
          spine = Spine-redirect m 0 a xs p 0 d s;
          head = h.head;
          tail = refl;
          distinct = d;
        };
        contains = contents_relink m l n (a ∷ xs) refl;
        stale = refl;
      }
