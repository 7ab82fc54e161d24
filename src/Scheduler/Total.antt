-- ===== src/Scheduler/Total.antt =====
-- scheduleNextNode of src/scheduler.c: its assertions.
use microbus.Common.{
  ℕ, zero, suc, ◌+◌, ◌-◌, ◌<◌, ◌≡◌, ◌≢◌, ◌⊎◌, inl, inr, refl, ◌∙◌, sym, Bool, true, false, ltb,
  ◌==◌, ◌&&◌, if◌then◌else◌, none, some, u8, Bool-cases, arith,
}
use microbus.Packet.{unallocated_node_id, invalid_node_id, master_node_id}
use microbus.NodeQueue.{NodeQueue}
use microbus.NodeQueue.Laws.{IsValid}
use microbus.Scheduler.{
  Scheduler, Turn, master_tx, master_rx_ack, node_tx, max_turn, get_next_master_rx_ack_node,
  get_next_node_tx_node, get_next_service_node,
}
use microbus.Scheduler.Slots.{
  take_turn, turns, turn_after, schedule_next_allocated_node, update_gap, shift_recent,
  schedule_next_node,
}
use microbus.Scheduler.RxAck.{finds}
use microbus.Scheduler.Pace.{allocated_pace}

-- A scheduler whose turn is one of the three, with a valid queue of the nodes that are sent to.
pub record IsReady (s : Scheduler) : Type 0 where
  pub turn : s.state.next_turn ≢ max_turn
  pub queue :
      (s.active_tx_nodes ≡ none) ⊎ (q : NodeQueue) × (s.active_tx_nodes ≡ some q) × IsValid q

-- The time until the next service is not over.
abbrev Waits : Scheduler → Type 0
Waits s = IsReady s × (0 < s.state.count_till_next_service)

service_ready : (s : Scheduler) (avoid : Bool) → IsReady s → Waits (get_next_service_node s avoid).1
unfolding get_next_service_node
service_ready s avoid h =
    let turn : (get_next_service_node s avoid).1.state.next_turn ≡ s.state.next_turn =
      ground arith in
    let queue : (get_next_service_node s avoid).1.active_tx_nodes ≡ s.active_tx_nodes =
      ground arith in
    (record { turn = λ e. h.turn (sym turn ∙ e); queue = rw queue h.queue }, ground arith)

rx_ack_ready :
    (s : Scheduler)
    → Waits s
    → (x : ℕ × Scheduler) × (get_next_master_rx_ack_node s ≡ some x) × Waits x.1
unfolding get_next_master_rx_ack_node
rx_ack_ready s h = elim h.0.queue [
  | inl idle ↦ ((invalid_node_id, s), rw idle refl, h)
  | inr (q, is, v) ↦
      let (x, found, v') = finds s.state q.num_nodes q v refl in
      (
        (x.0, record s { active_tx_nodes = some (x.1) }),
        rw (is, found, get_next_master_rx_ack_node) refl,
        (record { turn = h.0.turn; queue = inr (x.1, refl, v') }, h.1),
      )
]

take_turn_ready :
    (s : Scheduler) (t : Turn) (level : ℕ)
    → t ≢ max_turn
    → Waits s
    → (x : ℕ × ℕ × Scheduler) × (take_turn s t level ≡ some x) × Waits x.2
unfolding take_turn
take_turn_ready s master_tx level ne h =
    elim (Bool-cases (ltb 1 s.state.num_tx_nodes_scheduled && ltb 0 level)) [
      | inl some_left ↦ ((master_node_id, level - 1, s), rw some_left refl, h)
      | inr none_left ↦ ((invalid_node_id, level, s), rw none_left refl, h)
    ]
take_turn_ready s master_rx_ack level ne h =
    let (x, found, h') = rx_ack_ready s h in ((x.0, level, x.1), rw found refl, h')
take_turn_ready s node_tx level ne h =
    let same : (get_next_node_tx_node s).1.state ≡ s.state =
      unfold get_next_node_tx_node in ground arith in
    let queue : (get_next_node_tx_node s).1.active_tx_nodes ≡ s.active_tx_nodes =
      unfold get_next_node_tx_node in ground arith in
    (
      ((get_next_node_tx_node s).0, level, (get_next_node_tx_node s).1),
      refl,
      (record { turn = rw same h.0.turn; queue = rw queue h.0.queue }, rw same h.1),
    )
take_turn_ready s max_turn level ne h = absurd (ne refl)

turn_after-ne : (t : Turn) → t ≢ max_turn → turn_after t ≢ max_turn
turn_after-ne master_tx ne = λ e. cc
turn_after-ne master_rx_ack ne = λ e. cc
turn_after-ne node_tx ne = λ e. cc
turn_after-ne max_turn ne = absurd (ne refl)

turns_ready :
    (n level : ℕ) (s : Scheduler)
    → Waits s
    → (x : ℕ × Scheduler) × (turns n level s ≡ some x) × Waits x.1
unfolding turns
turns_ready zero level s h = (get_next_service_node s false, refl, service_ready s false h.0)
turns_ready (suc n) level s h =
    let (r, took, h') = take_turn_ready s s.state.next_turn level h.0.turn h in
    let moved : Scheduler = record (r.2) {
      state = record (r.2.state) { next_turn = turn_after r.2.state.next_turn };
    } in
    let hm : Waits moved =
      (record { turn = turn_after-ne r.2.state.next_turn h'.0.turn; queue = h'.0.queue }, h'.1) in
    elim (Bool-cases (r.0 == invalid_node_id)) [
      | inr found ↦ ((r.0, moved), rw (took, found, turns) refl, hm)
      | inl next ↦
          let (x, ok, hx) = turns_ready n r.1 moved hm in (x, rw (took, next, turns) ok, hx)
    ]

allocated_ready :
    (s : Scheduler) (level : ℕ)
    → IsReady s
    → (x : ℕ × Scheduler) × (schedule_next_allocated_node s level ≡ some x) × Waits x.1
unfolding schedule_next_allocated_node
allocated_ready s level h = elim (Bool-cases (s.state.count_till_next_service == 0)) [
  | inr later ↦ let (x, ok, hx) = turns_ready 3 level s (h, ground arith) in (x, rw later ok, hx)
  | inl due ↦
      let served = service_ready s true h in
      elim (Bool-cases ((get_next_service_node s true).0 == invalid_node_id)) [
        | inl none_found ↦
            let (x, ok, hx) = turns_ready 3 level (get_next_service_node s true).1 served in
            (x, rw (due, none_found) ok, hx)
        | inr found ↦ (get_next_service_node s true, rw (due, found) refl, served)
      ]
]

-- scheduleNextNode does not stop: its assertions hold, and so do those of the functions that it calls.
pub schedule_next_returns :
    (s : Scheduler) (level : ℕ)
    → IsReady s
    → (x : ℕ × Scheduler) × (schedule_next_node s level ≡ some x) × IsReady x.1
unfolding schedule_next_node
schedule_next_returns s level h = elim (Bool-cases (s.state.count_till_next_allocation == 0)) [
  | inl due ↦
      let turn : (update_gap s.state).next_turn ≡ s.state.next_turn =
        unfold update_gap in ground arith in
      (
        (
          unallocated_node_id,
          record s {
            state = record (update_gap s.state) {
              count_till_next_allocation = u8 ((update_gap s.state).unallocated_slot_gap + 255);
            };
          },
        ),
        rw due refl,
        record { turn = rw turn h.turn; queue = h.queue },
      )
  | inr later ↦
      let (r, ok, ready) = allocated_ready s level h in
      let kept = allocated_pace s level {x = r} ok in
      let some_slots : ltb 0 r.1.state.count_till_next_allocation ≡ true = ground arith in
      let waiting : ltb 0 r.1.state.count_till_next_service ≡ true = ground arith in
      (
        (
          (if r.0 == invalid_node_id then unallocated_node_id else r.0),
          record (r.1) {
            state = record (r.1.state) {
              count_till_next_allocation = r.1.state.count_till_next_allocation - 1;
              count_till_next_service = r.1.state.count_till_next_service - 1;
              recent_scheduled_nodes = shift_recent r.1.state.recent_scheduled_nodes r.0;
            };
          },
        ),
        rw (later, ok, some_slots, waiting) refl,
        record { turn = ready.0.turn; queue = ready.0.queue },
      )
]
