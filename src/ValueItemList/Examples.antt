-- ===== src/ValueItemList/Examples.antt =====
-- Runs of value_item_list.c, and its theorems at concrete inputs.
use libredis_a.Common.{subst, sym, ℕ, ◌≤◌, true, ◌>>=◌, ◌≡◌, refl, none, some, [], ◌∷◌, arith}
use libredis_a.Common.Int.{ℤ, pos}
use libredis_a.ValueItemList.{
  obj, dnum, llnum, Memory, create_list, node_type_buffer, create_double, create_long_long,
  create_generic, link_last, link_first, rpush_double, rpush_long_long, rpush_generic, rpush,
  lpush_double, lpush_long_long, lpush_generic, lpush, lpop, rpop, remove_node, create_iterator,
  next_node, node_type, node_size,
}
use libredis_a.ValueItemList.Spine.{contents}
use libredis_a.ValueItemList.Calls.{Answers, create_list-Holds, rpush-Answers, lpush-Answers}
use libredis_a.ValueItemList.Pop.{Popped, lpop-Popped, RightPopped, rpop-RightPopped}
use libredis_a.ValueItemList.Walk.{visit, visit_from, visit_list, visit_list_lem}
use libredis_a.ValueItemList.Heap.{
  Heap, decr_ref, held, drop_object, free_node, free_loop, free_list,
}
use libredis_a.ValueItemList.Drops.{uses, all_uses}
use libredis_a.ValueItemList.Release.{Freed, free_list-Freed}

program : Unit {0}
unfolding create_list create_double create_long_long create_generic link_last link_first
    rpush_double rpush_long_long rpush_generic rpush lpush_double lpush_long_long lpush_generic
    lpush lpop rpop remove_node create_iterator next_node free_node free_loop free_list decr_ref
    held drop_object node_type node_size visit visit_from visit_list uses all_uses
program = tt

-- Doubles are integers here; memory holds rubbish at first.
abbrev rubbish : Memory ℤ
rubbish = λ a. record { pre = 7; next = 9; type = 5; size = 3; value = obj 1 }

-- The object 40 at address 100, and the integer 5 at 200 behind it.
one : Answers (rpush (some (rubbish, create_list)) 100 40) (100 ∷ []) ((0, 0, obj 40) ∷ [])
one =
    (rpush-Answers rubbish create_list [] [] (create_list-Holds rubbish) 100 (omega arith) tt
      (pos 1) (pos 5) 40 0).3

two :
    Answers
      (rpush_long_long (some one.state) 200 (pos 5))
      (100 ∷ 200 ∷ [])
      ((0, 0, obj 40) ∷ (2, 0, llnum (pos 5)) ∷ [])
two =
    (rpush-Answers (one.state.0) (one.state.1) (100 ∷ []) _ one.holds 200 (omega arith)
      (omega arith, tt) (pos 1) (pos 5) 40 0).1

rpush-Answers_example :
    Answers
      (rpush_double (some (rubbish, create_list)) 100 (pos 1))
      (100 ∷ [])
      ((3, 0, dnum (pos 1)) ∷ [])
    × Answers
        (rpush_long_long (some (rubbish, create_list)) 100 (pos 5))
        (100 ∷ [])
        ((2, 0, llnum (pos 5)) ∷ [])
    × Answers
        (rpush_generic (some (rubbish, create_list)) 100 40 8 node_type_buffer)
        (100 ∷ [])
        ((1, 8, obj 40) ∷ [])
    × Answers (rpush (some (rubbish, create_list)) 100 40) (100 ∷ []) ((0, 0, obj 40) ∷ [])
rpush-Answers_example =
    rpush-Answers rubbish create_list [] [] (create_list-Holds rubbish) 100 (omega arith) tt (pos 1)
      (pos 5) 40 8

lpush-Answers_example :
    Answers
      (lpush_double (some two.state) 300 (pos 1))
      (300 ∷ 100 ∷ 200 ∷ [])
      ((3, 0, dnum (pos 1)) ∷ (0, 0, obj 40) ∷ (2, 0, llnum (pos 5)) ∷ [])
    × Answers
        (lpush_long_long (λ i. i) (some two.state) 300 (pos 6))
        (300 ∷ 100 ∷ 200 ∷ [])
        ((3, 0, dnum (pos 6)) ∷ (0, 0, obj 40) ∷ (2, 0, llnum (pos 5)) ∷ [])
    × Answers
        (lpush_generic (some two.state) 300 40 8 node_type_buffer)
        (300 ∷ 100 ∷ 200 ∷ [])
        ((1, 8, obj 40) ∷ (0, 0, obj 40) ∷ (2, 0, llnum (pos 5)) ∷ [])
    × Answers
        (lpush (some two.state) 300 40)
        (300 ∷ 100 ∷ 200 ∷ [])
        ((0, 0, obj 40) ∷ (0, 0, obj 40) ∷ (2, 0, llnum (pos 5)) ∷ [])
lpush-Answers_example =
    lpush-Answers (two.state.0) (two.state.1) (100 ∷ 200 ∷ []) _ two.holds 300 (omega arith)
      (omega arith, (omega arith, tt)) (pos 1) (λ i. i) (pos 6) 40 8

lpop-Popped_example : Popped (lpop (some two.state)) 100 (200 ∷ []) ((2, 0, llnum (pos 5)) ∷ [])
lpop-Popped_example =
    lpop-Popped (two.state.0) (two.state.1) 100 (200 ∷ []) (0, 0, obj 40)
      ((2, 0, llnum (pos 5)) ∷ []) two.holds

rpop-RightPopped_example :
    RightPopped two.state.1 (rpop (some two.state)) 200 (100 ∷ []) (contents two.state (100 ∷ []))
rpop-RightPopped_example = rpop-RightPopped (two.state.0) (two.state.1) 100 [] 200 two.holds.threads

visit_list_lem_example : visit_list 9 two.state ≡ 100 ∷ 200 ∷ []
visit_list_lem_example = visit_list_lem two.state (100 ∷ 200 ∷ []) 9 two.holds.threads (omega arith)

-- Every address is live, and every object is referred to twice.
abbrev heap : Heap ℤ
heap = record { nodes = two.state.0; live = λ a. true; references = λ o. 2 }

literal_uses : (o : ℕ) → all_uses {Double = ℤ} ((0, 0, obj 40) ∷ (2, 0, llnum (pos 5)) ∷ []) o ≤ 2
unfolding uses all_uses
literal_uses o = ground arith

two_uses : (o : ℕ) → all_uses (contents two.state (100 ∷ 200 ∷ [])) o ≤ 2
two_uses o = subst (λ cs. all_uses cs o ≤ 2) (sym two.holds.contains) (literal_uses o)

free_list-Freed_example :
    (after : Heap ℤ) × (free_list 3 heap (some two.state.1) ≡ some after)
    × Freed heap (100 ∷ 200 ∷ []) after
free_list-Freed_example =
    free_list-Freed heap two.state.1 (100 ∷ 200 ∷ []) 3 two.holds.threads (refl, (refl, tt))
      two_uses (omega arith)

-- A node that is released twice.
abbrev rubbish_heap : Heap ℤ
rubbish_heap = record { nodes = rubbish; live = λ a. true; references = λ o. 0 }

free_twice : (free_node rubbish_heap 200 >>= λ h. free_node h 200) ≡ none
unfolding program
free_twice = refl

-- On an empty list lpopValueItemNode reads through NULL.
lpop_empty : lpop (some (rubbish, create_list)) ≡ none
unfolding program
lpop_empty = refl
