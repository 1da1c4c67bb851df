-- ===== src/ValueItemList/Release.antt =====
-- What freeValueItemList leaves of a list, of the rest of the heap and of the objects' references.
use libredis_a.Common.{
  ℕ, zero, suc, ◌+◌, ◌-◌, ◌<◌, ◌≤◌, ◌≡◌, ◌≢◌, refl, sym, ap, ◌∙◌, subst, Bool, true, false, not,
  Option, none, some, List, [], ◌∷◌, arith, length, update, All, map, ◌==◌, if◌then◌else◌, ◌>>=◌,
  ==_iff,
}
use libredis_a.ValueItemList.{obj, Node, Memory, ValueItemList}
use libredis_a.ValueItemList.Spine.{
  first, NotIn, IsDistinct, Spine, Spine-update, Threads, payload, contents, update_other,
}
use libredis_a.ValueItemList.Drops.{uses, all_uses, drop_lem}
use libredis_a.ValueItemList.Heap.{Heap, free_node, free_loop, free_list}

live_other :
    (live live1 : ℕ → Bool) (a : ℕ) (xs : List ℕ)
    → ((q : ℕ) → a ≢ q → live1 q ≡ live q)
    → NotIn a xs
    → All (λ x. live x ≡ true) xs
    → All (λ x. live1 x ≡ true) xs
live_other live live1 a [] same n l = tt
live_other live live1 a (x ∷ xs) same (n, ns) (l, ls) =
    (same x n ∙ l, live_other live live1 a xs same ns ls)

module _ {Double : Type 0} where
  -- The nodes are gone, all else is as before, and each object lost the references of the nodes.
  pub record Freed (h : Heap Double) (xs : List ℕ) (after : Heap Double) : Type 0 where
    pub gone : All (λ a. after.live a ≡ false) xs
    pub kept : (a : ℕ) → NotIn a xs → (after.live a ≡ h.live a) × (after.nodes a ≡ h.nodes a)
    pub counts :
        (o : ℕ)
        → after.references o + all_uses (map (λ a. payload (h.nodes a)) xs) o ≡ h.references o

  -- `freeValueItemNode` on a node that is there, with its references.
  pub record NodeFreed (h : Heap Double) (a : ℕ) (r : Option (Heap Double)) : Type 0 where
    pub after : Heap Double
    pub is : r ≡ some after
    pub gone : after.live a ≡ false
    pub live_elsewhere : (q : ℕ) → a ≢ q → after.live q ≡ h.live q
    pub value : Node Double
    pub nodes_are : after.nodes ≡ update h.nodes a value
    pub counts : (o : ℕ) → after.references o + uses (payload (h.nodes a)) o ≡ h.references o

  free_node-NodeFreed :
      (h : Heap Double) (a : ℕ)
      → a ≢ 0
      → h.live a ≡ true
      → ((o : ℕ) → uses (payload (h.nodes a)) o ≤ h.references o)
      → NodeFreed h a (free_node h a)
  unfolding free_node
  free_node-NodeFreed h a real there enough =
      let z : (a == 0) ≡ false = ground arith in
      let self = (==_iff a a).1 refl in
      let n = h.nodes a in
      let dropped = drop_lem n.type n.size n.value h.references enough in
      let cleared : Node Double = record n { value = obj 0; pre = 0; next = 0 } in
      let after : Heap Double = record {
        nodes = update h.nodes a cleared;
        live = update h.live a false;
        references = dropped.after;
      } in
      record {
        after = after;
        is = rw (z, there, dropped.is) refl;
        gone = rw self refl;
        live_elsewhere = λ q ne. let e : (a == q) ≡ false = ground arith in rw e refl;
        value = cleared;
        nodes_are = refl;
        counts = dropped.counts;
      }

  free_end :
      (fuel : ℕ) (h : Heap Double) (list : ValueItemList)
      → list.head ≡ 0
      → free_loop (suc fuel) h list ≡ some (h, list)
  unfolding free_loop
  free_end fuel h list e = let z = (==_iff list.head 0).1 e in rw z refl

  free_more :
      (fuel : ℕ) (h after : Heap Double) (list : ValueItemList) (a : ℕ)
      → a ≢ 0
      → list.head ≡ a
      → h.live a ≡ true
      → free_node h a ≡ some after
      → free_loop (suc fuel) h list
        ≡ free_loop fuel after (record list { head = (h.nodes a).next; len = list.len - 1 })
  unfolding free_loop
  free_more fuel h after list a real e there is =
      let z : (a == 0) ≡ false = ground arith in
      ap
        (λ (p : ℕ).
          if p == 0
          then some (h, list)
          else if not (h.live p)
          then none
          else free_node h p >>= λ (t : Heap Double).
              free_loop fuel t (record list { head = (h.nodes p).next; len = list.len - 1 }))
        e
      ∙ rw (z, there, is) refl

  uses_cong :
      (m : Memory Double) (a : ℕ) (value : Node Double) (xs : List ℕ)
      → NotIn a xs
      → map (λ p. payload (update m a value p)) xs ≡ map (λ p. payload (m p)) xs
  uses_cong m a value [] n = refl
  uses_cong m a value (x ∷ xs) (n, ns) = rw (uses_cong m a value xs ns) (
      ap (λ (k : Node Double). payload k ∷ map (λ p. payload (m p)) xs)
        (update_other m a x value n))

  free_loop-Freed :
      (fuel : ℕ) (h : Heap Double) (list : ValueItemList) (b : ℕ) (xs : List ℕ)
      → Spine h.nodes b xs 0
      → IsDistinct xs
      → list.head ≡ first xs 0
      → All (λ a. h.live a ≡ true) xs
      → ((o : ℕ) → all_uses (map (λ a. payload (h.nodes a)) xs) o ≤ h.references o)
      → length xs < fuel
      → (after : Heap Double) × (l : ValueItemList) × (free_loop fuel h list ≡ some (after, l))
        × Freed h xs after
  unfolding all_uses
  free_loop-Freed zero h list b xs s d e live enough short = absurd (omega (arith, short))
  free_loop-Freed (suc fuel) h list b [] s d e live enough short = (
    h,
    list,
    free_end fuel h list e,
    record { gone = tt; kept = λ a n. (refl, refl); counts = λ o. omega arith },
  )
  free_loop-Freed (suc fuel) h list b (a ∷ xs) (z, x, y, s) (n, d) e (l, ls) enough short =
      let first_uses = λ (o : ℕ). uses (payload (h.nodes a)) o in
      let node = free_node-NodeFreed h a z l (λ o. let k = enough o in omega (arith, k)) in
      let h1 = node.after in
      let same : map (λ p. payload (h1.nodes p)) xs ≡ map (λ p. payload (h.nodes p)) xs =
        ap (λ (m : Memory Double). map (λ p. payload (m p)) xs) node.nodes_are
        ∙ uses_cong h.nodes a node.value xs n in
      let fewer : (o : ℕ) → all_uses (map (λ p. payload (h1.nodes p)) xs) o ≤ h1.references o = λ o.
        let k = enough o in
        let j = node.counts o in
        let i : all_uses (map (λ p. payload (h1.nodes p)) xs) o
            ≡ all_uses (map (λ p. payload (h.nodes p)) xs) o =
          ap (λ ns. all_uses ns o) same in
        omega (arith, k, j, i) in
      let spine : Spine h1.nodes a xs 0 =
        subst (λ (m : Memory Double). Spine m a xs 0) (sym node.nodes_are)
          (Spine-update h.nodes a xs 0 a node.value s n) in
      let (after, end, is, freed) =
        free_loop-Freed fuel h1 (record list { head = (h.nodes a).next; len = list.len - 1 }) a xs
          spine d y (live_other h.live h1.live a xs node.live_elsewhere n ls) fewer
          (omega (arith, short)) in
      (
        after,
        end,
        free_more fuel h h1 list a z e l node.is ∙ is,
        record {
          gone = ((freed.kept a n).0 ∙ node.gone, freed.gone);
          kept = λ q (ne, ns). (
            (freed.kept q ns).0 ∙ node.live_elsewhere q (λ r. ne (sym r)),
            (freed.kept q ns).1
                ∙ ap (λ (m : Memory Double). m q) node.nodes_are
                ∙ update_other h.nodes a q node.value (λ r. ne (sym r)),
          );
          counts = λ o.
              let j = node.counts o in
              let k = freed.counts o in
              let i : all_uses (map (λ p. payload (h1.nodes p)) xs) o
                  ≡ all_uses (map (λ p. payload (h.nodes p)) xs) o =
                ap (λ ns. all_uses ns o) same in
              omega (arith, k, j, i);
        },
      )

  -- freeValueItemList of a well-formed list, given as many rounds as there are nodes and one more,
  -- where no node has been released and every object has the references that the nodes hold, ends
  -- without reading or releasing a node that is gone; then every node of the list is released, the
  -- rest of the memory is as before, and each object has lost one reference for each node that
  -- refers to it.
  pub free_list-Freed :
      (h : Heap Double) (list : ValueItemList) (xs : List ℕ) (fuel : ℕ)
      → Threads (h.nodes, list) xs
      → All (λ a. h.live a ≡ true) xs
      → ((o : ℕ) → all_uses (contents (h.nodes, list) xs) o ≤ h.references o)
      → length xs < fuel
      → (after : Heap Double) × (free_list fuel h (some list) ≡ some after) × Freed h xs after
  unfolding free_list
  free_list-Freed h list xs fuel t live enough short =
      let (after, end, is, freed) =
        free_loop-Freed fuel h list 0 xs t.spine t.distinct t.head live enough short in
      (after, rw is refl, freed)
