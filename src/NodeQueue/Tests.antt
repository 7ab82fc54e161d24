-- ===== src/NodeQueue/Tests.antt =====
-- The node queue of src/common.c at concrete queues.
use microbus.Common.{
  ◌≡◌, refl, inr, true, false, ◌⊎◌, [], ◌∷◌, none, some, contains, if◌then◌else◌, arith,
}
use microbus.NodeQueue.{
  NodeQueue, node_queue_add, node_queue_remove_if_exists, node_queue_remove, queue_reached_end,
  get_next_node_in_queue, ids,
}
use microbus.NodeQueue.Laws.{IsValid, queue_add_refines, queue_remove_refines}
use microbus.NodeQueue.Rotation.{nexts, after_calls, round_robin}

-- The ids 7, 3 and 9; 3 is next.
abbrev three : NodeQueue
three = record {
  node_ids = λ i. if◌then◌else◌ (contains i (0 ∷ [])) 7 (if◌then◌else◌ (contains i (1 ∷ [])) 3 9);
  num_nodes = 3;
  last_index = 1;
}

three-IsValid : IsValid three
three-IsValid = record {
  fits = omega arith;
  last = inr (omega arith);
  distinct = (refl, (refl, (refl, tt)));
}

ids-three : ids three ≡ 7 ∷ 3 ∷ 9 ∷ []
ids-three = refl

next_of_three : (get_next_node_in_queue three).0 ≡ 3
unfolding get_next_node_in_queue
next_of_three = refl

end_of_three : queue_reached_end three ≡ false
unfolding queue_reached_end
end_of_three = refl

remove_absent : node_queue_remove three 8 ≡ none
unfolding node_queue_remove node_queue_remove_if_exists
remove_absent = refl

queue_add_refines_example :
    (r : NodeQueue) × (node_queue_add three 5 ≡ some r)
    × (ids r ≡ 7 ∷ 3 ∷ 9 ∷ 5 ∷ [])
    × (r.last_index ≡ 1)
queue_add_refines_example = queue_add_refines three 5 (omega arith)

queue_remove_refines_example :
    (ids (node_queue_remove_if_exists three 3) ≡ 7 ∷ 9 ∷ [])
    × (((true ≡ false) × (node_queue_remove_if_exists three 3 ≡ three))
        ⊎ ((true ≡ true) × ((node_queue_remove_if_exists three 3).last_index ≡ 1)))
queue_remove_refines_example = queue_remove_refines three 3

round_robin_example : (nexts 3 three ≡ 3 ∷ 9 ∷ 7 ∷ []) × (after_calls 3 three ≡ three)
round_robin_example = round_robin three three-IsValid (omega arith)
