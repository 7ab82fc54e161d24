-- ===== src/Scheduler/Tests.antt =====
-- The scheduler of src/scheduler.c at a concrete state.
use microbus.Common.{
  ℕ, ◌+◌, ◌*◌, ◌≤◌, ◌<◌, ◌≡◌, refl, inl, inr, none, some, cells, ◌-◌, ◌==◌, if◌then◌else◌,
  Bool-cases, arith,
}
use microbus.Packet.{master_node_id, unallocated_node_id}
use microbus.NodeQueue.{NodeQueue, zero_queue}
use microbus.NodeQueue.Laws.{IsValid}
use microbus.Scheduler.{Scheduler, master_rx_ack}
use microbus.Scheduler.Slots.{schedule_next_node, scheduler_update_and_calc_next_tx_nodes}
use microbus.Scheduler.Total.{IsReady, schedule_next_returns}
use microbus.Scheduler.Picks.{Chosen}
use microbus.Scheduler.Chosen.{schedule_next-Chosen}
use microbus.Scheduler.Schedule.{schedule_refines}
use microbus.Scheduler.Unallocated.{
  IsPaced, Traffic, HasValidQueue, set_traffic, schedule_times, join_slot_comes,
  schedule_next-IsPaced,
}

-- Three slots, of which the next but two is left to nodes that want to join; the master sends to the
-- nodes 2, …, 6, three of which it has sent to.
abbrev busy_queue : NodeQueue
busy_queue = record { node_ids = λ i. i + 2; num_nodes = 5; last_index = 0 }

abbrev busy : Scheduler
busy = record {
  state = record {
    num_tx_nodes_scheduled = 3;
    max_slots_between_unallocated = 64;
    unallocated_slot_gap_update_count = 127;
    unallocated_slot_gap = 8;
    count_till_next_allocation = 2;
    count_till_next_service = 3;
    rx_ack_end_count = 0;
    next_turn = master_rx_ack;
    next_service_node = 2;
    next_master_rx_ack_node = 2;
    next_node_tx_node = 2;
    recent_scheduled_nodes = λ i. i + 2;
    node_tx_buffer_level = λ i. 0;
  };
  active_nodes = busy_queue;
  active_tx_nodes = some busy_queue;
  node_tx_nodes = zero_queue;
}

busy_queue-IsValid : IsValid busy_queue
busy_queue-IsValid = record {
  fits = omega arith;
  last = inl refl;
  distinct = (refl, (refl, (refl, (refl, (refl, tt)))));
}

busy-IsReady : IsReady busy
busy-IsReady = record { turn = λ e. cc; queue = inr (busy_queue, refl, busy_queue-IsValid) }

schedule_refines_example :
    (nodes' : ℕ → ℕ) × (s' : Scheduler) × (scheduler_update_and_calc_next_tx_nodes busy (λ i. i) 4
      ≡ some (nodes', s'))
    × IsReady s'
    × (cells nodes' 0 2 ≡ cells (λ i. i) 1 2)
    × ((j : ℕ) × (j < 3) × (nodes' j ≡ master_node_id))
schedule_refines_example = schedule_refines busy (λ i. i) 4 busy-IsReady (omega arith)

schedule_next_returns_example :
    (x : ℕ × Scheduler) × (schedule_next_node busy 4 ≡ some x) × IsReady x.1
schedule_next_returns_example = schedule_next_returns busy 4 busy-IsReady

-- Before the first of two slots nothing is left to send, before the second a node has packets again.
abbrev changing : ℕ → Traffic
changing k = record {
  level = k;
  active_nodes = busy_queue;
  active_tx_nodes = if k == 1 then none else some busy_queue;
  node_tx_nodes = if k == 1 then zero_queue else busy_queue;
  node_tx_buffer_level = λ i. 1 - k;
}

changing-HasValidQueue : (k : ℕ) → HasValidQueue (changing k)
changing-HasValidQueue k = elim (Bool-cases (k == 1)) [
  | inl idle ↦ inl (rw idle refl)
  | inr active ↦ inr (busy_queue, rw active refl, busy_queue-IsValid)
]

join_slot_comes_example :
    (s' next : Scheduler) × (schedule_times 2 changing busy ≡ some s')
    × (schedule_next_node (set_traffic s' (changing 5)) 5 ≡ some (unallocated_node_id, next))
join_slot_comes_example =
    join_slot_comes busy changing (changing 5) busy-IsReady changing-HasValidQueue

-- The slot that is left to nodes that want to join has come, and the gap doubles.
abbrev doubling : Scheduler
doubling = record busy { state = record (busy.state) { count_till_next_allocation = 0 } }

doubling-IsPaced : IsPaced doubling
doubling-IsPaced = record {
  some_gap = omega arith;
  gap_bound = omega arith;
  bound = omega arith;
  left_bound = omega arith;
}

abbrev doubled : Scheduler
doubled = record doubling {
  state = record (doubling.state) {
    unallocated_slot_gap_update_count = 128;
    unallocated_slot_gap = 16;
    count_till_next_allocation = 15;
  };
}

schedule_next-IsPaced_example : IsPaced doubled × (8 ≤ 16)
unfolding schedule_next_node
schedule_next-IsPaced_example =
    schedule_next-IsPaced doubling doubled 0 unallocated_node_id doubling-IsPaced refl

-- Six nodes are on the network, and two have packets to send.
abbrev crowded : Scheduler
crowded = record busy {
  active_nodes = record { node_ids = λ i. i + 2; num_nodes = 6; last_index = 5 };
  node_tx_nodes = record { node_ids = λ i. 2 * i + 2; num_nodes = 2; last_index = 0 };
}

crowded-IsReady : IsReady crowded
crowded-IsReady = record { turn = busy-IsReady.turn; queue = busy-IsReady.queue }

schedule_next-Chosen_example :
    (x : ℕ × Scheduler) × (schedule_next_node crowded 4 ≡ some x) × Chosen crowded x.0
schedule_next-Chosen_example =
    schedule_next-Chosen crowded 4 crowded-IsReady
      (record { fits = omega arith; last = inr (omega arith); distinct = ground arith })
      (record { fits = omega arith; last = inl refl; distinct = ground arith })
