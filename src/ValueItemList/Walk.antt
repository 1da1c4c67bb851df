-- ===== src/ValueItemList/Walk.antt =====
-- The iterator of value_item_list.c visits the nodes in order.
use libredis_a.Common.{
  ℕ, zero, suc, ◌+◌, ◌<◌, ◌≡◌, ◌≢◌, refl, ap, ◌∙◌, false, Option, none, some, List, [], ◌∷◌, arith,
  length, ◌==◌, if◌then◌else◌, ==_iff,
}
use libredis_a.ValueItemList.{Memory, State, Iterator, create_iterator, next_node}
use libredis_a.ValueItemList.Spine.{first, Spine, Threads}

module _ {Double : Type 0} where
  -- What a client sees who calls nextValueItemNode until it returns NULL, at most `fuel` times.
  unfoldable pub visit : ℕ → Memory Double → Iterator → List ℕ
  visit zero m it = []
  visit (suc fuel) m it =
      let (after, node) = next_node m it in
      let rest = visit fuel m after in if node == 0 then [] else node ∷ rest

  -- The same from an iterator that may be NULL, and for a list.
  unfoldable pub visit_from : ℕ → Memory Double → Option Iterator → List ℕ
  visit_from fuel m none = []
  visit_from fuel m (some it) = visit fuel m it

  unfoldable pub visit_list : ℕ → State Double → List ℕ
  visit_list fuel s = visit_from fuel s.0 (create_iterator (some s))

  next_end : (m : Memory Double) (it : Iterator) → it.next ≡ 0 → next_node m it ≡ (it, 0)
  unfolding next_node
  next_end m it e = let z = (==_iff it.next 0).1 e in rw z refl

  next_more :
      (m : Memory Double) (it : Iterator) (a : ℕ)
      → a ≢ 0
      → it.next ≡ a
      → next_node m it ≡ (record { next = (m a).next; now = it.now + 1 }, a)
  unfolding next_node
  next_more m it a real e =
      let z : (it.next == 0) ≡ false = ground arith in
      rw z (ap (λ (p : ℕ). (record { next = (m p).next; now = it.now + 1 }, p)) e)

  visit-Spine :
      (fuel : ℕ) (m : Memory Double) (it : Iterator) (b : ℕ) (xs : List ℕ)
      → Spine m b xs 0
      → it.next ≡ first xs 0
      → length xs < fuel
      → visit fuel m it ≡ xs
  unfolding visit
  visit-Spine zero m it b xs s e h = elim h [ ]
  visit-Spine (suc fuel) m it b [] s e h = rw (next_end m it e) refl
  visit-Spine (suc fuel) m it b (a ∷ xs) (z, x, y, s) e h =
      let f : (a == 0) ≡ false = ground arith in
      let ih =
        visit-Spine fuel m (record { next = (m a).next; now = it.now + 1 }) a xs s y
          (omega arith) in
      rw (next_more m it a z e, f, ih) refl

  create_none : (s : State Double) → s.1.head ≡ 0 → create_iterator (some s) ≡ none
  unfolding create_iterator
  create_none s e = let z = (==_iff s.1.head 0).1 e in rw z refl

  create_some :
      (s : State Double) (a : ℕ)
      → a ≢ 0
      → s.1.head ≡ a
      → create_iterator (some s) ≡ some (record { next = a; now = 0 })
  unfolding create_iterator
  create_some s a real e =
      let z : (s.1.head == 0) ≡ false = ground arith in
      rw z (ap (λ p. some (record { next = p; now = 0 })) e)

  -- A client that calls nextValueItemNode from the iterator of a well-formed list until it returns
  -- NULL, with room for one call more than there are nodes, sees every node once and in order.
  pub visit_list_lem :
      (s : State Double) (xs : List ℕ) (fuel : ℕ)
      → Threads s xs
      → length xs < fuel
      → visit_list fuel s ≡ xs
  visit_list_lem s [] fuel t h =
      unfold visit_list visit_from in ap (visit_from fuel s.0) (create_none s t.head)
  visit_list_lem s (a ∷ xs) fuel t h =
      let (z, x, y, r) = t.spine in
      unfold visit_list visit_from in
      ap (visit_from fuel s.0) (create_some s a z t.head)
      ∙ (visit-Spine fuel s.0 (record { next = a; now = 0 }) 0 (a ∷ xs) t.spine refl h)
