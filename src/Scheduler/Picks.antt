-- ===== src/Scheduler/Picks.antt =====
-- src/scheduler.c: the nodes that the concerns of the scheduler would have next.
use microbus.Common.{
  ℕ, zero, suc, ◌≡◌, ◌⊎◌, refl, true, false, ltb, Bool, ◌==◌, ◌&&◌, some, contains, Ensures,
  Ensures-some, Ensures-none, Ensures-if, Ensures-bind, Ensures-elim, Bool-cases, inl, inr, arith,
}
use microbus.Packet.{invalid_node_id, master_node_id, unallocated_node_id}
use microbus.NodeQueue.{NodeQueue, ids, get_next_node_in_queue}
use microbus.Scheduler.{
  Turn, master_tx, master_rx_ack, node_tx, max_turn, Scheduler, node_recently_sent, rx_ack_from,
  get_next_master_rx_ack_node, get_next_node_tx_node, get_next_service_node,
}
use microbus.Scheduler.Slots.{take_turn, turns, turn_after, schedule_next_allocated_node}
use microbus.Scheduler.Queues.{next-Rotates, next_known, Keeps, rx_ack_from_lem}

-- A node that the scheduler may give a slot to: the master; none, for nodes that want to join; or a
-- node of one of the three queues.
pub data Chosen (s : Scheduler) (node : ℕ) : Type 0 where
  the_master : node ≡ master_node_id → Chosen s node
  joining : node ≡ unallocated_node_id → Chosen s node
  active : contains node (ids s.active_nodes) ≡ true → Chosen s node
  sends : contains node (ids s.node_tx_nodes) ≡ true → Chosen s node
  sent_to :
      (q : NodeQueue) → s.active_tx_nodes ≡ some q → contains node (ids q) ≡ true → Chosen s node

-- A node or none, and the scheduler after it.
abbrev pub Picks : Scheduler → ℕ → Scheduler → Type 0
Picks s node t = ((node ≡ invalid_node_id) ⊎ Chosen s node) × Keeps s t

service-Picks :
    (s t : Scheduler) (avoid : Bool)
    → Keeps s t
    → Picks s (get_next_service_node t avoid).0 (get_next_service_node t avoid).1
unfolding get_next_service_node
service-Picks s t avoid h =
    let served = next-Rotates s.active_nodes t.active_nodes h.actives in
    elim (Bool-cases (ltb 0 t.active_nodes.num_nodes)) [
      | inr alone ↦
          rw (alone, get_next_service_node)
            (inl refl, record { actives = h.actives; senders = h.senders; receivers = h.receivers })
      | inl some_node ↦
          let known = next_known s.active_nodes t.active_nodes h.actives (ground arith) in
          elim (Bool-cases
            (avoid && node_recently_sent t.state (get_next_node_in_queue t.active_nodes).0)) [
              | inl recent ↦
                  rw (some_node, recent, get_next_service_node)
                    (
                      inl refl,
                      record { actives = served; senders = h.senders; receivers = h.receivers },
                    )
              | inr other ↦
                  rw (some_node, other, get_next_service_node)
                    (
                      inr (active known),
                      record { actives = served; senders = h.senders; receivers = h.receivers },
                    )
            ]
    ]

rx_ack-Picks :
    (s t : Scheduler) → Keeps s t → Ensures (λ x. Picks s x.0 x.1) (get_next_master_rx_ack_node t)
unfolding get_next_master_rx_ack_node
rx_ack-Picks s t h = elim h.receivers [
  | inl idle ↦ rw (idle, get_next_master_rx_ack_node) (Ensures-some (inl refl, h))
  | inr (q, r, before, after, turned) ↦
      rw (after, get_next_master_rx_ack_node)
        (Ensures-bind (rx_ack_from t.state r.num_nodes 0 r) (λ x found.
          let (which, rotated) =
            (rx_ack_from_lem t.state q r.num_nodes 0 r turned (omega arith)).ensured x found in
          Ensures-some (
            elim which [ inl nobody ↦ inl nobody | inr known ↦ inr (sent_to q before known) ],
            record {
              actives = h.actives;
              senders = h.senders;
              receivers = inr (q, x.1, before, refl, rotated);
            },
          )))
]

node_tx-Picks :
    (s t : Scheduler) → Keeps s t → Picks s (get_next_node_tx_node t).0 (get_next_node_tx_node t).1
unfolding get_next_node_tx_node
node_tx-Picks s t h = elim (Bool-cases (ltb 0 t.node_tx_nodes.num_nodes)) [
  | inr quiet ↦ rw (quiet, get_next_node_tx_node) (inl refl, h)
  | inl some_node ↦
      rw (some_node, get_next_node_tx_node)
        (
          inr (sends (next_known s.node_tx_nodes t.node_tx_nodes h.senders (ground arith))),
          record {
            actives = h.actives;
            senders = next-Rotates s.node_tx_nodes t.node_tx_nodes h.senders;
            receivers = h.receivers;
          },
        )
]

take_turn-Picks :
    (s t : Scheduler) (turn : Turn) (level : ℕ)
    → Keeps s t
    → Ensures (λ x. Picks s x.0 x.2) (take_turn t turn level)
unfolding take_turn
take_turn-Picks s t master_tx level h =
    Ensures-if (ltb 1 t.state.num_tx_nodes_scheduled && ltb 0 level)
      (λ _. Ensures-some (inr (the_master refl), h)) (λ _. Ensures-some (inl refl, h))
take_turn-Picks s t master_rx_ack level h =
    Ensures-bind (get_next_master_rx_ack_node t)
      (λ r ok. Ensures-some ((rx_ack-Picks s t h).ensured r ok))
take_turn-Picks s t node_tx level h = Ensures-some (node_tx-Picks s t h)
take_turn-Picks s t max_turn level h = Ensures-none

turns-Picks :
    (s : Scheduler) (n level : ℕ) (t : Scheduler)
    → Keeps s t
    → Ensures (λ x. Picks s x.0 x.1) (turns n level t)
unfolding turns
turns-Picks s zero level t h = Ensures-some (service-Picks s t false h)
turns-Picks s (suc n) level t h = Ensures-elim (take_turn t t.state.next_turn level) (λ r ok.
    let (which, kept) = (take_turn-Picks s t t.state.next_turn level h).ensured r ok in
    let moved = record (r.2) {
      state = record (r.2.state) { next_turn = turn_after r.2.state.next_turn };
    } in
    let kept' : Keeps s moved = record {
      actives = kept.actives;
      senders = kept.senders;
      receivers = kept.receivers;
    } in
    elim (Bool-cases (r.0 == invalid_node_id)) [
      | inr found ↦ rw found (Ensures-some (which, kept'))
      | inl none_yet ↦ rw none_yet (turns-Picks s n r.1 moved kept')
    ])

pub allocated-Picks :
    (s : Scheduler) (level : ℕ)
    → Keeps s s
    → Ensures (λ x. Picks s x.0 x.1) (schedule_next_allocated_node s level)
unfolding schedule_next_allocated_node
allocated-Picks s level h =
    let served = service-Picks s s true h in
    Ensures-if (s.state.count_till_next_service == 0)
      (λ _.
        Ensures-if ((get_next_service_node s true).0 == invalid_node_id)
          (λ _. turns-Picks s 3 level (get_next_service_node s true).1 served.1)
          (λ _. Ensures-some served))
      (λ _. turns-Picks s 3 level s h)
