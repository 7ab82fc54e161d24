-- ===== src/Scheduler/Slots.antt =====
-- src/scheduler.c: the choice of the node for the next slot, and the schedule of the next few slots.
use microbus.Common.{
  ℕ, zero, suc, ◌+◌, ◌-◌, ◌*◌, Bool, true, false, ◌&&◌, ltb, ◌==◌, if◌then◌else◌, Option, none,
  some, ◌>>=◌, ◌>>◌, assert, update, u8,
}
use microbus.Packet.{master_node_id, unallocated_node_id, invalid_node_id}
use microbus.Scheduler.{
  Turn, master_tx, master_rx_ack, node_tx, max_turn, SchedulerState, Scheduler,
  max_master_slots_between_acks, get_next_master_rx_ack_node, get_next_node_tx_node,
  get_next_service_node,
}

-- `NUM_SLOTS_BEFORE_ALLOCATION_CHANGED`
abbrev pub num_slots_before_allocation_changed : ℕ
num_slots_before_allocation_changed = 128

-- `scheduler->nextTurn++` with its wrap
abbrev pub turn_after : Turn → Turn
turn_after master_tx = master_rx_ack
turn_after master_rx_ack = node_tx
turn_after node_tx = master_tx
turn_after max_turn = max_turn

-- The `switch` of `scheduleNextAllocatedNode`: the node, what is left of the local
-- `masterTxBufferLevel`, and the scheduler.
unfoldable pub take_turn : Scheduler → Turn → ℕ → Option (ℕ × ℕ × Scheduler)
take_turn s master_tx level =
    if ltb 1 s.state.num_tx_nodes_scheduled && ltb 0 level
    then some (master_node_id, level - 1, s)
    else some (invalid_node_id, level, s)
take_turn s master_rx_ack level = do r ← get_next_master_rx_ack_node s; some (r.0, level, r.1)
take_turn s node_tx level = let r = get_next_node_tx_node s in some (r.0, level, r.1)
take_turn s max_turn level = none

-- The loop of `scheduleNextAllocatedNode`, with the rounds left, and what follows it.
unfoldable pub turns : ℕ → ℕ → Scheduler → Option (ℕ × Scheduler)
turns zero level s = some (get_next_service_node s false)
turns (suc n) level s = elim (take_turn s s.state.next_turn level) [
  | none ↦ none
  | some r ↦
      let moved = record (r.2) {
        state = record (r.2.state) { next_turn = turn_after r.2.state.next_turn };
      } in
      elim (r.0 == invalid_node_id) [ false ↦ some (r.0, moved) | true ↦ turns n r.1 moved ]
]

-- `scheduleNextAllocatedNode`. `MAX_TURN` is 3.
unfoldable pub schedule_next_allocated_node : Scheduler → ℕ → Option (ℕ × Scheduler)
unfolding turns
schedule_next_allocated_node s level =
    if s.state.count_till_next_service == 0
    then (let r = get_next_service_node s true in
        if r.0 == invalid_node_id then turns 3 level r.1 else some r)
    else turns 3 level s

-- The update of the gap between unallocated slots in `scheduleNextNode`.
unfoldable pub update_gap : SchedulerState → SchedulerState
update_gap s =
    if s.unallocated_slot_gap == s.max_slots_between_unallocated
    then s
    else (let count = u8 (s.unallocated_slot_gap_update_count + 1) in
        let doubled = u8 (s.unallocated_slot_gap * 2) in
        record s {
          unallocated_slot_gap_update_count = count;
          unallocated_slot_gap =
              if count == num_slots_before_allocation_changed
              then if ltb s.max_slots_between_unallocated doubled
                then s.max_slots_between_unallocated
                else doubled
              else s.unallocated_slot_gap;
        })

-- The shift of the recently scheduled nodes in `scheduleNextNode`
abbrev pub shift_recent : (ℕ → ℕ) → ℕ → ℕ → ℕ
shift_recent recent node i =
    if ltb i (max_master_slots_between_acks - 1)
    then recent (i + 1)
    else if i == max_master_slots_between_acks - 1
    then node
    else recent i

-- `scheduleNextNode`
unfoldable pub schedule_next_node : Scheduler → ℕ → Option (ℕ × Scheduler)
unfolding update_gap
schedule_next_node s level =
    if s.state.count_till_next_allocation == 0
    then (let gapped = update_gap s.state in
        some (
          unallocated_node_id,
          record s {
            state = record gapped {
              count_till_next_allocation = u8 (gapped.unallocated_slot_gap + 255);
            };
          },
        ))
    else do
      r ← schedule_next_allocated_node s level
      let state = r.1.state
      assert (ltb 0 state.count_till_next_allocation)
      assert (ltb 0 state.count_till_next_service)
      some (
        (if r.0 == invalid_node_id then unallocated_node_id else r.0),
        record (r.1) {
          state = record state {
            count_till_next_allocation = state.count_till_next_allocation - 1;
            count_till_next_service = state.count_till_next_service - 1;
            recent_scheduled_nodes = shift_recent state.recent_scheduled_nodes r.0;
          };
        },
      )

-- What the loop of `schedulerUpdateAndCalcNextTxNodes` changes.
pub record Shifted : Type 0 where
  pub nodes_to_tx : ℕ → ℕ
  pub level : ℕ
  pub one_master_tx : Bool

-- The loop of `schedulerUpdateAndCalcNextTxNodes`, with the rounds left and the index.
unfoldable pub shift_schedule : ℕ → ℕ → Shifted → Shifted
shift_schedule zero i s = s
shift_schedule (suc n) i s =
    let node = s.nodes_to_tx (i + 1) in
    shift_schedule n (i + 1) (record {
      nodes_to_tx = update s.nodes_to_tx i node;
      level = if node == master_node_id then s.level - 1 else s.level;
      one_master_tx = if node == master_node_id then true else s.one_master_tx;
    })

-- `schedulerUpdateAndCalcNextTxNodes`
unfoldable pub scheduler_update_and_calc_next_tx_nodes :
    Scheduler → (ℕ → ℕ) → ℕ → Option ((ℕ → ℕ) × Scheduler)
unfolding shift_schedule
scheduler_update_and_calc_next_tx_nodes s nodes_to_tx level =
    let num = s.state.num_tx_nodes_scheduled in
    if num == 1
    then (do r ← schedule_next_node s 0; some (update nodes_to_tx 0 r.0, r.1))
    else (let shifted =
          shift_schedule (num - 1) 0
            (record { nodes_to_tx = nodes_to_tx; level = level; one_master_tx = false }) in
        if shifted.one_master_tx
        then (do
          r ← schedule_next_node s shifted.level
          some (update shifted.nodes_to_tx (num - 1) r.0, r.1))
        else some (update shifted.nodes_to_tx (num - 1) master_node_id, s))
