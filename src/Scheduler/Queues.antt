-- ===== src/Scheduler/Queues.antt =====
-- src/scheduler.c: the queues of the scheduler turn, and keep their nodes.
use microbus.Common.{
  ℕ, zero, suc, ◌+◌, ◌≤◌, ◌<◌, ◌≡◌, ◌⊎◌, refl, sym, ap, ◌∙◌, true, ltb, none, some, contains,
  Ensures, Ensures-some, Ensures-none, Bool-cases, inl, inr, arith,
}
use microbus.Packet.{invalid_node_id}
use microbus.NodeQueue.{NodeQueue, ids, get_next_node_in_queue}
use microbus.NodeQueue.Laws.{IsValid}
use microbus.Scheduler.{
  Scheduler, SchedulerState, node_recently_sent, rx_ack_from, max_master_slots_between_acks,
}
use microbus.Scheduler.RxAck.{contains_cell}

-- The nodes of a queue are those of another, and it is valid.
pub record Rotates (q r : NodeQueue) : Type 0 where
  pub same : ids r ≡ ids q
  pub valid : IsValid r

pub next-Rotates : (q r : NodeQueue) → Rotates q r → Rotates q (get_next_node_in_queue r).1
unfolding get_next_node_in_queue
next-Rotates q r h = record {
  same = h.same;
  valid = record {
    fits = h.valid.fits;
    last = ground (arith, h.valid.last, h.valid.fits);
    distinct = h.valid.distinct;
  };
}

pub next_known :
    (q r : NodeQueue)
    → Rotates q r
    → 0 < r.num_nodes
    → contains (get_next_node_in_queue r).0 (ids q) ≡ true
unfolding get_next_node_in_queue
next_known q r h pos =
    let last : r.last_index < r.num_nodes = omega (arith, h.valid.last) in
    ap (contains (r.node_ids r.last_index)) (sym h.same)
    ∙ contains_cell r.node_ids r.num_nodes 0 r.last_index (omega arith) (omega arith)

-- The queues of a scheduler are those of another, turned.
pub record Keeps (s t : Scheduler) : Type 0 where
  pub actives : Rotates s.active_nodes t.active_nodes
  pub senders : Rotates s.node_tx_nodes t.node_tx_nodes
  pub receivers :
      (t.active_tx_nodes ≡ none)
      ⊎ (q : NodeQueue) × (r : NodeQueue) × (s.active_tx_nodes ≡ some q)
        × (t.active_tx_nodes ≡ some r)
        × Rotates q r

pub rx_ack_from_lem :
    (s : SchedulerState) (q : NodeQueue) (n i : ℕ) (r : NodeQueue)
    → Rotates q r
    → n ≤ r.num_nodes
    → Ensures
        (λ x. ((x.0 ≡ invalid_node_id) ⊎ (contains x.0 (ids q) ≡ true)) × Rotates q x.1)
        (rx_ack_from s n i r)
unfolding rx_ack_from
rx_ack_from_lem s q zero i r h le = Ensures-some (inl refl, h)
rx_ack_from_lem s q (suc n) i r h le =
    let known = next_known q r h (omega arith) in
    let moved = next-Rotates q r h in
    elim (Bool-cases (node_recently_sent s (get_next_node_in_queue r).0)) [
      | inr other ↦ rw (other, rx_ack_from) (Ensures-some (inr known, moved))
      | inl recent ↦ elim (Bool-cases (ltb i max_master_slots_between_acks)) [
        | inl more ↦
            rw (recent, more, rx_ack_from)
              (rx_ack_from_lem s q n (i + 1) (get_next_node_in_queue r).1 moved
                (unfold get_next_node_in_queue in omega arith))
        | inr last ↦ rw (recent, last, rx_ack_from) Ensures-none
      ]
    ]
