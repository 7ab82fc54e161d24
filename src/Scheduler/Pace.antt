-- ===== src/Scheduler/Pace.antt =====
-- The choice of a node in src/scheduler.c, and the counts until the next slot that is left to nodes
-- that are not on the network yet.
use microbus.Common.{
  ℕ, zero, suc, ◌-◌, ◌<◌, ◌≡◌, ap, ◌∙◌, sym, Bool, true, false, ◌==◌, some, Bool-cases,
  Option-cases, inl, inr, arith,
}
use microbus.Packet.{invalid_node_id}
use microbus.Scheduler.{
  Scheduler, Turn, master_tx, master_rx_ack, node_tx, max_turn, rx_ack_from,
  get_next_master_rx_ack_node, get_next_node_tx_node, get_next_service_node,
}
use microbus.Scheduler.Slots.{
  take_turn, turns, turn_after, schedule_next_allocated_node, schedule_next_node,
}

-- How many slots are left before the next one that is left to nodes that want to join.
abbrev pub slots_left : Scheduler → ℕ
slots_left s = s.state.count_till_next_allocation

-- What the choice of a node does not change: this count, and the gap with its bound.
pub record Pace : Type 0 where
  pub left : ℕ
  pub gap : ℕ
  pub most : ℕ
  pub updates : ℕ

abbrev pub pace : Scheduler → Pace
pace s = record {
  left = s.state.count_till_next_allocation;
  gap = s.state.unallocated_slot_gap;
  most = s.state.max_slots_between_unallocated;
  updates = s.state.unallocated_slot_gap_update_count;
}

service_pace : (s : Scheduler) (avoid : Bool) → pace (get_next_service_node s avoid).1 ≡ pace s
unfolding get_next_service_node
service_pace s avoid = ground arith

rx_ack_pace :
    (s : Scheduler) {x : ℕ × Scheduler} → get_next_master_rx_ack_node s ≡ some x → pace x.1 ≡ pace s
unfolding get_next_master_rx_ack_node
rx_ack_pace s {x} e = elim (Option-cases s.active_tx_nodes) [
  | inl idle ↦ ground (arith, e)
  | inr (q, some_queue) ↦ elim (Option-cases (rx_ack_from s.state q.num_nodes 0 q)) [
    | inl stops ↦ absurd (ground arith)
    | inr (r, goes) ↦ ground arith
  ]
]

take_turn-pace :
    (s : Scheduler) (t : Turn) (level : ℕ) {x : ℕ × ℕ × Scheduler}
    → take_turn s t level ≡ some x
    → pace x.2 ≡ pace s
unfolding take_turn
take_turn-pace s master_tx level {x} e = ground (arith, e)
take_turn-pace s master_rx_ack level {x} e = elim (Option-cases (get_next_master_rx_ack_node s)) [
  | inl stops ↦ absurd (ground arith)
  | inr (r, goes) ↦
      let kept = rx_ack_pace s {x = r} goes in
      let same : x.2 ≡ r.1 = ground arith in ap pace same ∙ kept
]
take_turn-pace s node_tx level {x} e = unfold get_next_node_tx_node in ground (arith, e)
take_turn-pace s max_turn level {x} e = cc

turns-pace :
    (n level : ℕ) (s : Scheduler) {x : ℕ × Scheduler} → turns n level s ≡ some x → pace x.1 ≡ pace s
unfolding turns
turns-pace zero level s {x} e =
    let same : get_next_service_node s false ≡ x = cc in
    ap (λ y. pace y.1) (sym same) ∙ service_pace s false
turns-pace (suc n) level s {x} e = elim (Option-cases (take_turn s s.state.next_turn level)) [
  | inl stops ↦ absurd (ground arith)
  | inr (r, goes) ↦
      let moved : Scheduler = record (r.2) {
        state = record (r.2.state) { next_turn = turn_after r.2.state.next_turn };
      } in
      let kept : pace moved ≡ pace s = take_turn-pace s s.state.next_turn level {x = r} goes in
      elim (Bool-cases (r.0 == invalid_node_id)) [
        | inl next ↦ turns-pace n r.1 moved {x = x} (ground arith) ∙ kept
        | inr found ↦ let same : moved ≡ x.1 = ground arith in ap pace (sym same) ∙ kept
      ]
]

pub allocated_pace :
    (s : Scheduler) (level : ℕ) {x : ℕ × Scheduler}
    → schedule_next_allocated_node s level ≡ some x
    → pace x.1 ≡ pace s
unfolding schedule_next_allocated_node
allocated_pace s level {x} e = elim (Bool-cases (s.state.count_till_next_service == 0)) [
  | inr later ↦ turns-pace 3 level s {x = x} (ground arith)
  | inl due ↦ elim (Bool-cases ((get_next_service_node s true).0 == invalid_node_id)) [
    | inl none_found ↦
        turns-pace 3 level (get_next_service_node s true).1 {x = x} (ground arith)
        ∙ service_pace s true
    | inr found ↦
        let same : get_next_service_node s true ≡ x = ground arith in
        ap (λ y. pace y.1) (sym same) ∙ service_pace s true
  ]
]

-- A slot before the next one that is left to nodes that want to join: the count goes down by one.
pub next_before :
    (s s' : Scheduler) (level node : ℕ)
    → 0 < slots_left s
    → schedule_next_node s level ≡ some (node, s')
    → pace s' ≡ record (pace s) { left = slots_left s - 1 }
unfolding schedule_next_node
next_before s s' level node left e = elim (Option-cases (schedule_next_allocated_node s level)) [
  | inl stops ↦ absurd (ground arith)
  | inr (r, goes) ↦ let kept = allocated_pace s level {x = r} goes in ground (arith, kept)
]
