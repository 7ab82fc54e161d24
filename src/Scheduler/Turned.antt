-- ===== src/Scheduler/Turned.antt =====
-- src/scheduler.c: the scheduler only turns the queue of active nodes.
use microbus.Common.{
  ℕ, zero, suc, ◌-◌, true, false, ltb, Bool, ◌==◌, ◌&&◌, Option, assert, Option-cases, Ensures,
  Ensures-some, Ensures-none, Ensures-if, Ensures-bind, Ensures-elim, Bool-cases, inl, inr,
}
use microbus.Packet.{invalid_node_id}
use microbus.NodeQueue.{NodeQueue, get_next_node_in_queue}
use microbus.Scheduler.{
  Turn, master_tx, master_rx_ack, node_tx, max_turn, Scheduler, node_recently_sent, rx_ack_from,
  get_next_master_rx_ack_node, get_next_node_tx_node, get_next_service_node,
}
use microbus.Scheduler.Slots.{
  take_turn, turns, turn_after, schedule_next_allocated_node, schedule_next_node, shift_schedule,
  scheduler_update_and_calc_next_tx_nodes,
}

-- Any number of calls of getNextNodeInQueue.
pub data Turned (q : NodeQueue) : NodeQueue → Type 0 where
  still : Turned q q
  turned : {r : NodeQueue} → Turned q r → Turned q (get_next_node_in_queue r).1

Turned-trans : {p q r : NodeQueue} → Turned p q → Turned q r → Turned p r
Turned-trans a still = a
Turned-trans a (turned b) = turned (Turned-trans a b)

-- The queue of active nodes after it.
abbrev Turns : Scheduler → Scheduler → Type 0
Turns s s' = Turned s.active_nodes s'.active_nodes

Ensures-then :
    (s t : Scheduler) {out : Option (ℕ × Scheduler)}
    → Turns s t
    → Ensures (λ x. Turns t x.1) out
    → Ensures (λ x. Turns s x.1) out
Ensures-then s t before h = record { ensured = λ x e. Turned-trans before (h.ensured x e) }

service-Turns : (s : Scheduler) (avoid : Bool) → Turns s (get_next_service_node s avoid).1
unfolding get_next_service_node
service-Turns s avoid = elim (Bool-cases (ltb 0 s.active_nodes.num_nodes)) [
  | inr alone ↦ rw (alone, get_next_service_node) still
  | inl some_node ↦
      elim (Bool-cases
        (avoid && node_recently_sent s.state (get_next_node_in_queue s.active_nodes).0)) [
          | inl recent ↦ rw (some_node, recent, get_next_service_node) (turned still)
          | inr other ↦ rw (some_node, other, get_next_service_node) (turned still)
        ]
]

rx_ack-Turns : (s : Scheduler) → Ensures (λ x. Turns s x.1) (get_next_master_rx_ack_node s)
unfolding get_next_master_rx_ack_node
rx_ack-Turns s = elim (Option-cases s.active_tx_nodes) [
  | inl idle ↦ rw (idle, get_next_master_rx_ack_node) (Ensures-some still)
  | inr (q, active) ↦
      rw (active, get_next_master_rx_ack_node)
        (Ensures-bind (rx_ack_from s.state q.num_nodes 0 q) (λ r _. Ensures-some still))
]

node_tx-Turns : (s : Scheduler) → Turns s (get_next_node_tx_node s).1
unfolding get_next_node_tx_node
node_tx-Turns s = elim (Bool-cases (ltb 0 s.node_tx_nodes.num_nodes)) [
  | inl some_node ↦ rw (some_node, get_next_node_tx_node) still
  | inr quiet ↦ rw (quiet, get_next_node_tx_node) still
]

take_turn-Turns :
    (s : Scheduler) (t : Turn) (level : ℕ) → Ensures (λ x. Turns s x.2) (take_turn s t level)
unfolding take_turn
take_turn-Turns s master_tx level =
    Ensures-if (ltb 1 s.state.num_tx_nodes_scheduled && ltb 0 level) (λ _. Ensures-some still)
      (λ _. Ensures-some still)
take_turn-Turns s master_rx_ack level =
    Ensures-bind (get_next_master_rx_ack_node s)
      (λ r ok. Ensures-some ((rx_ack-Turns s).ensured r ok))
take_turn-Turns s node_tx level = Ensures-some (node_tx-Turns s)
take_turn-Turns s max_turn level = Ensures-none

turns-Turns : (n level : ℕ) (s : Scheduler) → Ensures (λ x. Turns s x.1) (turns n level s)
unfolding turns
turns-Turns zero level s = Ensures-some (service-Turns s false)
turns-Turns (suc n) level s = Ensures-elim (take_turn s s.state.next_turn level) (λ r ok.
    let before = (take_turn-Turns s s.state.next_turn level).ensured r ok in
    let moved = record (r.2) {
      state = record (r.2.state) { next_turn = turn_after r.2.state.next_turn };
    } in
    elim (Bool-cases (r.0 == invalid_node_id)) [
      | inr chosen ↦ rw chosen (Ensures-some before)
      | inl none_yet ↦ rw none_yet (Ensures-then s moved before (turns-Turns n r.1 moved))
    ])

allocated-Turns :
    (s : Scheduler) (level : ℕ) → Ensures (λ x. Turns s x.1) (schedule_next_allocated_node s level)
unfolding schedule_next_allocated_node
allocated-Turns s level =
    Ensures-if (s.state.count_till_next_service == 0)
      (λ _.
        Ensures-if ((get_next_service_node s true).0 == invalid_node_id)
          (λ _.
            Ensures-then s (get_next_service_node s true).1 (service-Turns s true)
              (turns-Turns 3 level (get_next_service_node s true).1))
          (λ _. Ensures-some (service-Turns s true)))
      (λ _. turns-Turns 3 level s)

next-Turns : (s : Scheduler) (level : ℕ) → Ensures (λ x. Turns s x.1) (schedule_next_node s level)
unfolding schedule_next_node
next-Turns s level =
    Ensures-if (s.state.count_till_next_allocation == 0) (λ _. Ensures-some still)
      (λ _. Ensures-bind (schedule_next_allocated_node s level) (λ r ok.
        Ensures-bind (assert (ltb 0 r.1.state.count_till_next_allocation)) (λ _ _.
          Ensures-bind (assert (ltb 0 r.1.state.count_till_next_service))
            (λ _ _. Ensures-some ((allocated-Turns s level).ensured r ok)))))

pub schedule-Turned :
    (s : Scheduler) (nodes_to_tx : ℕ → ℕ) (level : ℕ)
    → Ensures
        (λ x. Turned s.active_nodes x.1.active_nodes)
        (scheduler_update_and_calc_next_tx_nodes s nodes_to_tx level)
unfolding scheduler_update_and_calc_next_tx_nodes
schedule-Turned s nodes_to_tx level =
    let shifted =
      shift_schedule (s.state.num_tx_nodes_scheduled - 1) 0
        (record { nodes_to_tx = nodes_to_tx; level = level; one_master_tx = false }) in
    Ensures-if (s.state.num_tx_nodes_scheduled == 1)
      (λ _.
        Ensures-bind (schedule_next_node s 0)
          (λ r ok. Ensures-some ((next-Turns s 0).ensured r ok)))
      (λ _.
        Ensures-if shifted.one_master_tx
          (λ _.
            Ensures-bind (schedule_next_node s shifted.level)
              (λ r ok. Ensures-some ((next-Turns s shifted.level).ensured r ok)))
          (λ _. Ensures-some still))
