-- ===== src/Scheduler.antt =====
-- src/scheduler.c and src/scheduler.h: the scheduler's state, and the node that each of its concerns
-- would have next.
pub mod Slots
pub mod Schedule
pub mod RxAck
pub mod Pace
pub mod Total
pub mod Turned
pub mod Queues
pub mod Picks
pub mod Chosen
pub mod Unallocated
mod Tests
use microbus.Common.{
  ℕ, zero, suc, ◌+◌, ◌-◌, Bool, true, false, ◌&&◌, ◌||◌, ltb, ◌==◌, if◌then◌else◌, Option, none,
  some, ◌>>=◌, update,
}
use microbus.Packet.{first_node_id, invalid_node_id}
use microbus.NodeQueue.{NodeQueue, node_queue_add, node_queue_remove, get_next_node_in_queue}
use microbus.NetworkManager.{max_slots_between_servicing}

-- `MAX_MASTER_SLOTS_BETWEEN_ACKS`
abbrev pub max_master_slots_between_acks : ℕ
max_master_slots_between_acks = 4

-- `MIN_SLOTS_BETWEEN_UNALLOCATED`
abbrev pub min_slots_between_unallocated : ℕ
min_slots_between_unallocated = 2

-- `eSchedulerTurn`
pub data Turn : Type 0 where
  master_tx master_rx_ack node_tx max_turn : Turn

-- `tSchedulerState` without its three pointers
pub record SchedulerState : Type 0 where
  pub num_tx_nodes_scheduled : ℕ
  pub max_slots_between_unallocated : ℕ
  pub unallocated_slot_gap_update_count : ℕ
  pub unallocated_slot_gap : ℕ
  pub count_till_next_allocation : ℕ
  pub count_till_next_service : ℕ
  pub rx_ack_end_count : ℕ
  pub next_turn : Turn
  pub next_service_node : ℕ
  pub next_master_rx_ack_node : ℕ
  pub next_node_tx_node : ℕ
  pub recent_scheduled_nodes : ℕ → ℕ
  pub node_tx_buffer_level : ℕ → ℕ

-- `tSchedulerState` with the queues that its pointers point to, which other components share.
pub record Scheduler : Type 0 where
  pub state : SchedulerState
  pub active_nodes : NodeQueue
  pub active_tx_nodes : Option NodeQueue
  pub node_tx_nodes : NodeQueue

-- `NEW_NODE_HEARD_UPDATE_SCHEDULER`
unfoldable pub new_node_heard_update_scheduler : SchedulerState → SchedulerState
new_node_heard_update_scheduler s = record s {
  unallocated_slot_gap = min_slots_between_unallocated;
  count_till_next_allocation = min_slots_between_unallocated;
}

-- The loop of `nodeRecentlySent`, with the rounds left and the index.
pub recent_from : (ℕ → ℕ) → ℕ → ℕ → ℕ → Bool
recent_from recent node zero i = false
recent_from recent node (suc n) i = node == recent i || recent_from recent node n (i + 1)

-- `nodeRecentlySent`
unfoldable pub node_recently_sent : SchedulerState → ℕ → Bool
unfolding recent_from
node_recently_sent s node =
    recent_from s.recent_scheduled_nodes node (max_master_slots_between_acks - 1) 0

-- The loop of `getNextMasterRxAckNode`, with the rounds left and the index.
unfoldable pub rx_ack_from : SchedulerState → ℕ → ℕ → NodeQueue → Option (ℕ × NodeQueue)
rx_ack_from s zero i q = some (invalid_node_id, q)
rx_ack_from s (suc n) i q =
    let r = get_next_node_in_queue q in
    elim (node_recently_sent s r.0) [
      | false ↦ some r
      | true ↦ elim (ltb i max_master_slots_between_acks) [
        | true ↦ rx_ack_from s n (i + 1) r.1
        | false ↦ none
      ]
    ]

-- `getNextMasterRxAckNode`
unfoldable pub get_next_master_rx_ack_node : Scheduler → Option (ℕ × Scheduler)
unfolding rx_ack_from
get_next_master_rx_ack_node s = elim s.active_tx_nodes [
  | none ↦ some (invalid_node_id, s)
  | some q ↦ do
    r ← rx_ack_from s.state q.num_nodes 0 q
    some (r.0, record s { active_tx_nodes = some (r.1) })
]

-- `getNextNodeTxNode`
unfoldable pub get_next_node_tx_node : Scheduler → ℕ × Scheduler
get_next_node_tx_node s =
    if ltb 0 s.node_tx_nodes.num_nodes
    then (let r = get_next_node_in_queue s.node_tx_nodes in (r.0, record s { node_tx_nodes = r.1 }))
    else (invalid_node_id, s)

-- `getNextServiceNode`
unfoldable pub get_next_service_node : Scheduler → Bool → ℕ × Scheduler
get_next_service_node s avoid_recently_scheduled =
    let counted = record s {
      state = record (s.state) { count_till_next_service = max_slots_between_servicing };
    } in
    if ltb 0 s.active_nodes.num_nodes
    then (let r = get_next_node_in_queue s.active_nodes in
        let moved = record counted { active_nodes = r.1 } in
        if avoid_recently_scheduled && node_recently_sent s.state r.0
        then (invalid_node_id, moved)
        else (r.0, moved))
    else (invalid_node_id, counted)

-- `schedulerUpdateNodeTxBufferLevel`
unfoldable pub scheduler_update_node_tx_buffer_level : Scheduler → ℕ → ℕ → Option Scheduler
scheduler_update_node_tx_buffer_level s src_node_id buffer_level = do
  let before = s.state.node_tx_buffer_level src_node_id
  queue ←
      (if before == 0 && ltb 0 buffer_level
        then node_queue_add s.node_tx_nodes src_node_id
        else if ltb 0 before && (buffer_level == 0)
        then node_queue_remove s.node_tx_nodes src_node_id
        else some s.node_tx_nodes)
  some (record s {
    node_tx_nodes = queue;
    state = record (s.state) {
      node_tx_buffer_level = update s.state.node_tx_buffer_level src_node_id buffer_level;
    };
  })

-- `schedulerInit`
unfoldable pub scheduler_init : ℕ → ℕ → SchedulerState
unfolding new_node_heard_update_scheduler
scheduler_init num_tx_nodes_scheduled max_slots_between_unallocated =
    new_node_heard_update_scheduler (record {
      num_tx_nodes_scheduled = num_tx_nodes_scheduled;
      max_slots_between_unallocated = max_slots_between_unallocated;
      unallocated_slot_gap_update_count = 0;
      unallocated_slot_gap = 0;
      count_till_next_allocation = 0;
      count_till_next_service = 0;
      rx_ack_end_count = 0;
      next_turn = master_tx;
      next_service_node = first_node_id;
      next_master_rx_ack_node = first_node_id;
      next_node_tx_node = first_node_id;
      recent_scheduled_nodes = λ i. 0;
      node_tx_buffer_level = λ i. 0;
    })
