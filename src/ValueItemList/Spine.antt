-- ===== src/ValueItemList/Spine.antt =====
-- What it means that a list's pointers thread a sequence of addresses, forwards and backwards, and
-- how writes to the memory keep that.
use libredis_a.Common.{
  ℕ, ◌≡◌, ◌≢◌, refl, sym, ap, ◌∙◌, false, List, [], ◌∷◌, ◌++◌, map, arith, update, All, ◌==◌,
  ==_iff,
}
use libredis_a.ValueItemList.{Node, Obj, Memory, State}

-- The first and the last of some addresses, and what stands in for them where there are none.
abbrev pub first : List ℕ → ℕ → ℕ
first [] e = e
first (a ∷ xs) e = a

abbrev pub last : ℕ → List ℕ → ℕ
last b [] = b
last b (a ∷ xs) = last a xs

abbrev pub NotIn : ℕ → List ℕ → Type 0
NotIn p xs = All (λ a. p ≢ a) xs

abbrev pub IsDistinct : List ℕ → Type 0
IsDistinct [] = Unit {0}
IsDistinct (a ∷ xs) = NotIn a xs × IsDistinct xs

abbrev pub TailIs : List ℕ → ℕ → Type 0
TailIs [] t = Unit {0}
TailIs (a ∷ xs) t = t ≡ last a xs

pub last_snoc : (b : ℕ) (xs : List ℕ) (p : ℕ) → last b (xs ++ (p ∷ [])) ≡ p
last_snoc b [] p = refl
last_snoc b (a ∷ xs) p = last_snoc a xs p

pub TailIs-snoc : (xs : List ℕ) (p : ℕ) → TailIs (xs ++ (p ∷ [])) p
TailIs-snoc [] p = refl
TailIs-snoc (a ∷ xs) p = sym (last_snoc a xs p)

pub NotIn-last : (p a : ℕ) (xs : List ℕ) → p ≢ a → NotIn p xs → p ≢ last a xs
NotIn-last p a [] h n = h
NotIn-last p a (c ∷ xs) h (n, ns) = NotIn-last p c xs n ns

NotIn-snoc : (q : ℕ) (xs : List ℕ) (p : ℕ) → NotIn q xs → q ≢ p → NotIn q (xs ++ (p ∷ []))
NotIn-snoc q [] p n h = (h, tt)
NotIn-snoc q (a ∷ xs) p (n, ns) h = (n, NotIn-snoc q xs p ns h)

pub IsDistinct-snoc :
    (xs : List ℕ) (p : ℕ) → IsDistinct xs → NotIn p xs → IsDistinct (xs ++ (p ∷ []))
IsDistinct-snoc [] p d n = (tt, tt)
IsDistinct-snoc (a ∷ xs) p (d, ds) (n, ns) =
    (NotIn-snoc a xs p d (λ e. n (sym e)), IsDistinct-snoc xs p ds ns)

module _ {Double : Type 0} where
  -- From the address `b` before them to the address `e` after them.
  abbrev pub Spine : Memory Double → ℕ → List ℕ → ℕ → Type 0
  Spine m b [] e = Unit {0}
  Spine m b (a ∷ xs) e = (a ≢ 0) × ((m a).pre ≡ b) × ((m a).next ≡ first xs e) × Spine m a xs e

  pub update_self : (m : Memory Double) (p : ℕ) (n : Node Double) → update m p n p ≡ n
  update_self m p n = rw ((==_iff p p).1 refl) refl

  pub update_other : (m : Memory Double) (p q : ℕ) (n : Node Double) → p ≢ q → update m p n q ≡ m q
  update_other m p q n h = let e : (p == q) ≡ false = ground arith in rw e refl

  -- A write elsewhere keeps a spine.
  pub Spine-update :
      (m : Memory Double) (b : ℕ) (xs : List ℕ) (e p : ℕ) (n : Node Double)
      → Spine m b xs e
      → NotIn p xs
      → Spine (update m p n) b xs e
  Spine-update m b [] e p n s h = tt
  Spine-update m b (a ∷ xs) e p n (z, x, y, s) (h, hs) =
      let same = update_other m p a n h in
      (
        z,
        ap (λ (k : Node Double). k.pre) same ∙ x,
        ap (λ (k : Node Double). k.next) same ∙ y,
        Spine-update m a xs e p n s hs,
      )

  -- One more node at the end.
  pub Spine-snoc :
      (m : Memory Double) (b : ℕ) (xs : List ℕ) (e p : ℕ)
      → Spine m b xs p
      → p ≢ 0
      → (m p).pre ≡ last b xs
      → (m p).next ≡ e
      → Spine m b (xs ++ (p ∷ [])) e
  Spine-snoc m b [] e p s z x y = (z, x, y, tt)
  Spine-snoc m b (a ∷ []) e p (za, xa, ya, s) z x y = (za, xa, ya, (z, x, y, tt))
  Spine-snoc m b (a ∷ c ∷ xs) e p (za, xa, ya, s) z x y =
      (za, xa, ya, Spine-snoc m a (c ∷ xs) e p s z x y)

  -- The end of a spine leads to another address once its last node does.
  pub Spine-redirect :
      (m : Memory Double) (b a : ℕ) (xs : List ℕ) (e p : ℕ)
      → IsDistinct (a ∷ xs)
      → Spine m b (a ∷ xs) e
      → Spine (update m (last a xs) (record (m (last a xs)) { next = p })) b (a ∷ xs) p
  Spine-redirect m b a [] e p d (z, x, y, s) =
      let self = update_self m a (record (m a) { next = p }) in
      (z, ap (λ (k : Node Double). k.pre) self ∙ x, ap (λ (k : Node Double). k.next) self, tt)
  Spine-redirect m b a (c ∷ xs) e p ((h, hs), ds) (z, x, y, s) =
      let l = last c xs in
      let n : Node Double = record (m l) { next = p } in
      let ne : a ≢ l = NotIn-last a c xs h hs in
      let same = update_other m l a n (λ q. ne (sym q)) in
      (
        z,
        ap (λ (k : Node Double). k.pre) same ∙ x,
        ap (λ (k : Node Double). k.next) same ∙ y,
        Spine-redirect m a c xs e p ds s,
      )

  -- The start of a spine leads back to another address once its first node does.
  pub Spine-reroot :
      (m : Memory Double) (b a : ℕ) (xs : List ℕ) (e p : ℕ)
      → NotIn a xs
      → Spine m b (a ∷ xs) e
      → Spine (update m a (record (m a) { pre = p })) p (a ∷ xs) e
  Spine-reroot m b a xs e p h (z, x, y, s) =
      let n : Node Double = record (m a) { pre = p } in
      let self = update_self m a n in
      (
        z,
        ap (λ (k : Node Double). k.pre) self,
        ap (λ (k : Node Double). k.next) self ∙ y,
        Spine-update m a xs e a n s h,
      )

  -- What a node carries.
  abbrev pub payload : Node Double → ℕ × ℕ × Obj Double
  payload n = (n.type, n.size, n.value)

  -- The invariant of a list: its pointers thread the addresses, each once.
  pub record Threads (s : State Double) (xs : List ℕ) : Type 0 where
    pub spine : Spine s.0 0 xs 0
    pub head : s.1.head ≡ first xs 0
    pub tail : TailIs xs s.1.tail
    pub distinct : IsDistinct xs

  abbrev pub contents : State Double → List ℕ → List (ℕ × ℕ × Obj Double)
  contents s xs = map (λ a. payload (s.0 a)) xs

  -- Writes that change no payload on the addresses change no contents.
  pub contents_cong :
      (m t : Memory Double) (xs : List ℕ)
      → All (λ a. payload (t a) ≡ payload (m a)) xs
      → map (λ a. payload (t a)) xs ≡ map (λ a. payload (m a)) xs
  contents_cong m t [] h = refl
  contents_cong m t (a ∷ xs) (h, hs) = rw (h, contents_cong m t xs hs) refl

  pub map_snoc :
      (f : ℕ → ℕ × ℕ × Obj Double) (xs : List ℕ) (p : ℕ)
      → map f (xs ++ (p ∷ [])) ≡ map f xs ++ (f p ∷ [])
  map_snoc f [] p = refl
  map_snoc f (a ∷ xs) p = rw (map_snoc f xs p) refl
