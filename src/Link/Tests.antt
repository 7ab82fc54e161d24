-- ===== src/Link/Tests.antt =====
-- A link from the node 3 to the master, with one packet that arrives and is acknowledged.
use microbus.Common.{
  ℕ, ◌≡◌, refl, ap, fun_ext, ◌+◌, ◌≤◌, false, none, some, Option, List, [], ◌∷◌, ◌++◌, length,
  arith, inr,
}
use microbus.Packet.{
  zero_entry, node_data_packet, set_protocol_version_and_packet_type, set_packet_data_size,
}
use microbus.PacketStore.{first_from, find_packet_entry, allocate_packet_entry, free_packet}
use microbus.TxManager.{
  TxManager, zero_tx_manager, init_tx_manager, incr_sequence_num, allocate_tx_packet,
  store_allocated, submitted_packet, submit_allocated_tx_packet,
}
use microbus.TxManager.Stored.{send_bytes}
use microbus.TxManager.Transmit.{get_next_tx_packet_for_node}
use microbus.TxManager.Ack.{
  rx_ack_seq_num, ack_valid, free_acked, rx_packet_check_and_update_seq_num, get_num_in_tx_buffer,
}
use microbus.Link.{
  Link, Reachable, start, later, submit, arrive, lose, acknowledge, Steps, done, next, Ends,
  initial, receive,
}
use microbus.Link.Recovery.{Finishes, delivers}
use microbus.Link.Stall.{first_lost_stalls}
use microbus.Link.Delivery.{in_order, no_assertion_fails, submit_succeeds}

abbrev quiet : Link
quiet = initial zero_tx_manager zero_tx_manager (λ i. zero_entry) 2 1 255 none none

abbrev manager_or : {A : Type 0} → Option (A × TxManager) → TxManager
manager_or (some r) = r.1
manager_or none = zero_tx_manager

abbrev after_send : TxManager
after_send = elim (send_bytes quiet.sender false 3 0 node_data_packet 1 (λ i. i + 7)) [
  | some m ↦ m
  | none ↦ zero_tx_manager
]

abbrev queued : Link
queued = record quiet { sender = after_send; submitted = (λ i. 10 + i + 7) ∷ [] }

abbrev arrived : Link
arrived =
    receive
      (record queued { sender = manager_or (get_next_tx_packet_for_node queued.sender false 0) }) 3
      (queued.sender.packet_store.entries 0).packet

abbrev acknowledged : Link
acknowledged = record arrived {
  sender = elim (rx_ack_seq_num arrived.sender 0 (arrived.receiver.rx_seq_num 3) false 0) [
    | some r ↦ r.2
    | none ↦ zero_tx_manager
  ];
}

ends : Ends false 0 3
ends = record { from = omega arith; to = omega arith; to_master = refl }

reached : Reachable false 0 3 queued
unfolding init_tx_manager send_bytes allocate_tx_packet allocate_packet_entry first_from
    submit_allocated_tx_packet store_allocated get_num_in_tx_buffer
reached =
    later
      (start zero_tx_manager zero_tx_manager (λ i. zero_entry) 2 1 255 none none (omega arith)
        (omega arith) refl)
      (submit node_data_packet 1 0 (λ i. i + 7)
        {taken = manager_or (allocate_tx_packet quiet.sender)} refl (omega arith) refl refl)

arrived-Reachable : Reachable false 0 3 arrived
unfolding init_tx_manager send_bytes allocate_tx_packet allocate_packet_entry first_from
    submit_allocated_tx_packet store_allocated get_next_tx_packet_for_node find_packet_entry
    incr_sequence_num
arrived-Reachable =
    later reached
      (arrive 0 {m = manager_or (get_next_tx_packet_for_node queued.sender false 0)} refl)

acknowledged-Reachable : Reachable false 0 3 acknowledged
unfolding init_tx_manager send_bytes allocate_tx_packet allocate_packet_entry first_from
    submit_allocated_tx_packet store_allocated get_next_tx_packet_for_node find_packet_entry
    rx_ack_seq_num ack_valid free_acked free_packet rx_packet_check_and_update_seq_num
    submitted_packet incr_sequence_num
acknowledged-Reachable = later arrived-Reachable (acknowledge 0 1 0 {m = acknowledged.sender} refl)

in_order_example :
    (left : List (ℕ → ℕ)) × (acknowledged.submitted ≡ acknowledged.accepted ++ left)
    × (length left ≤ 254)
in_order_example = in_order false 0 3 ends acknowledged-Reachable

no_assertion_fails_example :
    ((x : Option ℕ × TxManager) × (get_next_tx_packet_for_node acknowledged.sender false 0
        ≡ some x))
    × ((x : ℕ × ℕ × TxManager) × (rx_ack_seq_num acknowledged.sender 0
            (acknowledged.receiver.rx_seq_num 3)
            false
            4
          ≡ some x))
no_assertion_fails_example = no_assertion_fails false 0 3 4 ends acknowledged-Reachable

submit_succeeds_example :
    (m : TxManager) × (send_bytes queued.sender false 3 0 node_data_packet 5 (λ i. i) ≡ some m)
unfolding init_tx_manager send_bytes allocate_tx_packet allocate_packet_entry first_from
    submit_allocated_tx_packet store_allocated get_num_in_tx_buffer incr_sequence_num
submit_succeeds_example =
    submit_succeeds false 0 3 node_data_packet 5 (λ i. i) ends reached refl refl (omega arith)

abbrev lost : Link
lost = record queued { sender = manager_or (get_next_tx_packet_for_node queued.sender false 0) }

abbrev told : Link
told = record lost {
  sender = elim (rx_ack_seq_num lost.sender 0 (lost.receiver.rx_seq_num 3) false 0) [
    | some r ↦ r.2
    | none ↦ zero_tx_manager
  ];
}

lost-Reachable : Reachable false 0 3 lost
unfolding init_tx_manager send_bytes allocate_tx_packet allocate_packet_entry first_from
    submit_allocated_tx_packet store_allocated get_next_tx_packet_for_node find_packet_entry
    incr_sequence_num
lost-Reachable =
    later reached (lose 0 {m = manager_or (get_next_tx_packet_for_node queued.sender false 0)} refl)

told-Steps : Steps false 0 3 lost told
unfolding init_tx_manager send_bytes allocate_tx_packet allocate_packet_entry first_from
    submit_allocated_tx_packet store_allocated get_next_tx_packet_for_node find_packet_entry
    rx_ack_seq_num ack_valid free_acked free_packet incr_sequence_num
told-Steps = next done (acknowledge 0 0 0 {m = told.sender} refl)

first_lost_stalls_example : told.accepted ≡ []
unfolding init_tx_manager send_bytes allocate_tx_packet allocate_packet_entry first_from
    submit_allocated_tx_packet store_allocated get_next_tx_packet_for_node find_packet_entry
    incr_sequence_num
first_lost_stalls_example =
    first_lost_stalls false 0 3 {l = lost} {l' = told} ends lost-Reachable refl (ground arith)
      told-Steps

delivers_example : Finishes false 0 3 queued
unfolding init_tx_manager send_bytes allocate_tx_packet allocate_packet_entry first_from
    submit_allocated_tx_packet store_allocated
delivers_example = delivers false 0 3 ends reached (inr (refl, refl))

-- The packet has arrived.
accepted_one : acknowledged.accepted ≡ (λ i. 10 + i + 7) ∷ []
unfolding init_tx_manager send_bytes allocate_tx_packet allocate_packet_entry first_from
    submit_allocated_tx_packet store_allocated get_next_tx_packet_for_node find_packet_entry
    rx_packet_check_and_update_seq_num submitted_packet incr_sequence_num
    set_protocol_version_and_packet_type set_packet_data_size
accepted_one = fun_list (λ i. ground arith)
  where
    fun_list : {f g : ℕ → ℕ} → ((i : ℕ) → f i ≡ g i) → f ∷ [] ≡ g ∷ []
    fun_list h = ap (λ f. f ∷ []) (fun_ext h)
