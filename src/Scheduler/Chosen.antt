-- ===== src/Scheduler/Chosen.antt =====
-- src/scheduler.c: which nodes the scheduler gives a slot to.
use microbus.Common.{
  ℕ, ◌≡◌, ◌⊎◌, refl, ltb, ◌==◌, some, assert, if◌then◌else◌, Ensures, Ensures-some, Ensures-if,
  Ensures-bind, Bool-cases, inl, inr, arith,
}
use microbus.Packet.{invalid_node_id, unallocated_node_id}
use microbus.NodeQueue.{NodeQueue}
use microbus.NodeQueue.Laws.{IsValid}
use microbus.Scheduler.{Scheduler}
use microbus.Scheduler.Total.{IsReady, schedule_next_returns}
use microbus.Scheduler.Slots.{schedule_next_allocated_node, schedule_next_node}
use microbus.Scheduler.Queues.{Rotates, Keeps}
use microbus.Scheduler.Picks.{Chosen, joining, allocated-Picks}

next-Chosen :
    (s : Scheduler) (level : ℕ)
    → Keeps s s
    → Ensures (λ x. Chosen s x.0) (schedule_next_node s level)
unfolding schedule_next_node
next-Chosen s level h =
    Ensures-if (s.state.count_till_next_allocation == 0) (λ _. Ensures-some (joining refl))
      (λ _. Ensures-bind (schedule_next_allocated_node s level) (λ r ok.
        Ensures-bind (assert (ltb 0 r.1.state.count_till_next_allocation)) (λ _ _.
          Ensures-bind (assert (ltb 0 r.1.state.count_till_next_service))
            (λ _ _. Ensures-some (named r.0 ((allocated-Picks s level h).ensured r ok).0)))))
  where
    named :
        (node : ℕ)
        → (node ≡ invalid_node_id) ⊎ Chosen s node
        → Chosen s (if node == invalid_node_id then unallocated_node_id else node)
    named node which = elim (Bool-cases (node == invalid_node_id)) [
      | inl nobody ↦ rw nobody (joining refl)
      | inr found ↦
          rw found (elim which [ inl nobody ↦ absurd (ground arith) | inr chosen ↦ chosen ])
    ]

self-Rotates : (q : NodeQueue) → IsValid q → Rotates q q
self-Rotates q v = record { same = refl; valid = v }

-- scheduleNextNode with three valid queues does not stop, and the node that it gives the slot to is
-- the master, or none, so that nodes that want to join can use the slot, or a node of one of the
-- queues.
pub schedule_next-Chosen :
    (s : Scheduler) (level : ℕ)
    → IsReady s
    → IsValid s.active_nodes
    → IsValid s.node_tx_nodes
    → (x : ℕ × Scheduler) × (schedule_next_node s level ≡ some x) × Chosen s x.0
schedule_next-Chosen s level ready actives senders =
    let (x, ok, _) = schedule_next_returns s level ready in
    let keeps : Keeps s s = record {
      actives = self-Rotates s.active_nodes actives;
      senders = self-Rotates s.node_tx_nodes senders;
      receivers = elim ready.queue [
        | inl idle ↦ inl idle
        | inr (q, is, v) ↦ inr (q, q, is, is, self-Rotates q v)
      ];
    } in
    (x, ok, (next-Chosen s level keeps).ensured x ok)
