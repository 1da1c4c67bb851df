-- ===== src/ValueItemList/Calls.antt =====
-- The push functions of value_item_list.c, with the nodes that they create.
use libredis_a.Common.{
  ℕ, ◌≡◌, ◌≢◌, refl, ap, ◌∙◌, false, Option, some, List, [], ◌∷◌, ◌++◌, arith, length, update, ◌==◌,
}
use libredis_a.Common.Int.{ℤ}
use libredis_a.ValueItemList.{
  Node, Obj, obj, dnum, llnum, Memory, State, ValueItemList, create_list, node_type_robj,
  node_type_buffer, node_type_longlong, node_type_double, create_double, create_long_long,
  create_generic, link_last, link_first, answer, rpush_double, rpush_long_long, rpush_generic,
  rpush, lpush_double, lpush_long_long, lpush_generic, lpush,
}
use libredis_a.ValueItemList.Spine.{NotIn, payload}
use libredis_a.ValueItemList.Push.{Holds, link_last-Holds, link_first-Holds}

module _ {Double : Type 0} where
  -- A call that leaves a list with the addresses and the contents, and answers with its length.
  pub record Answers (r : Option (State Double) × ℕ) (ys : List ℕ) (cs : List (ℕ × ℕ × Obj Double))
      : Type 0 where
    pub state : State Double
    pub is : r ≡ (some state, length ys)
    pub holds : Holds state ys cs

  answered :
      (t : State Double) (ys : List ℕ) (cs : List (ℕ × ℕ × Obj Double))
      → Holds t ys cs
      → Answers (answer t) ys cs
  answered t ys cs h = record { state = t; is = ap (λ n. (some t, n)) h.counted; holds = h }

  -- A new list holds nothing.
  pub create_list-Holds : (m : Memory Double) → Holds (m, create_list) [] []
  unfolding create_list
  create_list-Holds m = record {
    threads = record { spine = tt; head = refl; tail = tt; distinct = tt };
    contains = refl;
    counted = refl;
  }

  module _ (m : Memory Double) (list : ValueItemList) (xs : List ℕ) (cs : List (ℕ × ℕ × Obj Double))
      (before : Holds (m, list) xs cs) (p : ℕ) (real : p ≢ 0) (new : NotIn p xs) where
    last_answer :
        (n : Node Double)
        → (n.pre ≡ 0) × (n.next ≡ 0)
        → Answers
            (answer (link_last (update m p n, list) p))
            (xs ++ (p ∷ []))
            (cs ++ (payload n ∷ []))
    last_answer n alone =
        let h = link_last-Holds m list p n alone real xs new before.threads before.counted in
        answered _ _ _ (record {
          threads = h.threads;
          contains = h.contains ∙ ap (λ c. c ++ (payload n ∷ [])) before.contains;
          counted = h.counted;
        })

    first_answer :
        (n : Node Double)
        → (n.pre ≡ 0) × (n.next ≡ 0)
        → Answers (answer (link_first (update m p n, list) p)) (p ∷ xs) (payload n ∷ cs)
    first_answer n alone =
        let h = link_first-Holds m list p n alone real xs new before.threads before.counted in
        answered _ _ _ (record {
          threads = h.threads;
          contains = h.contains ∙ ap (λ c. payload n ∷ c) before.contains;
          counted = h.counted;
        })

    usable : (p == 0) ≡ false
    usable = ground arith

    -- With a fresh node, each rpush function puts its payload after the contents of a well-formed
    -- list and answers with the new length: a double, an integer, a buffer with its size, or an
    -- object.
    pub rpush-Answers :
        (score : Double) (n : ℤ) (buffer size : ℕ)
        → Answers
            (rpush_double (some (m, list)) p score)
            (xs ++ (p ∷ []))
            (cs ++ ((node_type_double, 0, dnum score) ∷ []))
          × Answers
              (rpush_long_long (some (m, list)) p n)
              (xs ++ (p ∷ []))
              (cs ++ ((node_type_longlong, 0, llnum n) ∷ []))
          × Answers
              (rpush_generic (some (m, list)) p buffer size node_type_buffer)
              (xs ++ (p ∷ []))
              (cs ++ ((node_type_buffer, size, obj buffer) ∷ []))
          × Answers
              (rpush (some (m, list)) p buffer)
              (xs ++ (p ∷ []))
              (cs ++ ((node_type_robj, 0, obj buffer) ∷ []))
    unfolding rpush_double rpush_long_long rpush_generic rpush create_double create_long_long
        create_generic
    rpush-Answers score n buffer size = rw usable (
      last_answer _ (refl, refl),
      last_answer _ (refl, refl),
      last_answer _ (refl, refl),
      last_answer _ (refl, refl),
    )

    -- With a fresh node, each lpush function puts its payload before the contents of a well-formed
    -- list and answers with the new length; the one for integers puts a node of the double type
    -- with the integer converted to a double.
    pub lpush-Answers :
        (score : Double) (to_double : ℤ → Double) (n : ℤ) (buffer size : ℕ)
        → Answers
            (lpush_double (some (m, list)) p score)
            (p ∷ xs)
            ((node_type_double, 0, dnum score) ∷ cs)
          × Answers
              (lpush_long_long to_double (some (m, list)) p n)
              (p ∷ xs)
              ((node_type_double, 0, dnum (to_double n)) ∷ cs)
          × Answers
              (lpush_generic (some (m, list)) p buffer size node_type_buffer)
              (p ∷ xs)
              ((node_type_buffer, size, obj buffer) ∷ cs)
          × Answers
              (lpush (some (m, list)) p buffer)
              (p ∷ xs)
              ((node_type_robj, 0, obj buffer) ∷ cs)
    unfolding lpush_double lpush_long_long lpush_generic lpush create_double create_long_long
        create_generic
    lpush-Answers score to_double n buffer size = rw usable (
      first_answer _ (refl, refl),
      first_answer _ (refl, refl),
      first_answer _ (refl, refl),
      first_answer _ (refl, refl),
    )
