-- ===== src/TxManager/Tests.antt =====
-- The window of src/txManager.c at a concrete manager.
use microbus.Common.{
  false, ℕ, ◌%◌, ◌<◌, ◌≡◌, ◌⊎◌, refl, true, none, some, ◌==◌, if◌then◌else◌, ap, ◌∙◌, arith,
}
use microbus.Packet.{Packet, zero_packet, master_data_packet, dst_node_id_at}
use microbus.PacketStore.{first_from, find_packet_entry}
use microbus.TxManager.{TxManager, zero_tx_manager}
use microbus.TxManager.Window.{Sends, Receives, accept_next, last_accepted}
use microbus.TxManager.Transmit.{get_next_tx_packet_for_node}
use microbus.TxManager.Ack.{rx_ack_seq_num, rx_packet_check_and_update_seq_num}
use microbus.TxManager.Next.{
  get_next_refines, window_unlimited, window_closes, IsClosed, paused, advanced,
}
use microbus.TxManager.AckSeqNum.{AcksTo, ack_refines}
use microbus.TxManager.Stored.{send_bytes}
use microbus.TxManager.Submit.{Submits, submit_refines}
use microbus.TxManager.Buffer.{level_lem, lost_entry}
use microbus.TxManager.{
  allocate_tx_packet, submit_allocated_tx_packet, master_tx_manager_remove_node,
}
use microbus.TxManager.Ack.{get_num_in_tx_buffer}
use microbus.PacketStore.{allocate_packet_entry, free_packets_to}
use microbus.NodeQueue.{node_queue_remove_if_exists}
use microbus.Packet.{set_in_use}

-- A packet of the master's for node 7 with the number 251, in the second of four entries, and none
-- else. The node has been sent 251 others.
abbrev only_packet : Packet
only_packet = record zero_packet {
  body = λ i. if i == dst_node_id_at then 7 else 0;
  tx_seq_num = 251;
}

abbrev one_waits : TxManager
one_waits = record zero_tx_manager {
  packet_store = record {
    entries = λ i. record { in_use = i == 1; packet = only_packet };
    max_entries = 4;
    num_stored = 252;
    num_freed = 251;
  };
  tx_seq_num_start = λ i. if i == 7 then 251 else 0;
  tx_seq_num_next = λ i. if i == 7 then 251 else 0;
  tx_seq_num_end = λ i. if i == 7 then 252 else 0;
  active_tx_nodes = some (record { node_ids = λ i. 7; num_nodes = 1; last_index = 0 });
}

found_second :
    (k : ℕ) → k ≡ 251 → find_packet_entry one_waits.packet_store 7 (k % 255) true ≡ some 1
unfolding find_packet_entry first_from
found_second k e = ap (λ (x : ℕ). find_packet_entry one_waits.packet_store 7 (x % 255) true) e

one_waits-Sends : Sends one_waits true 7 251 251 252 (λ k. only_packet)
one_waits-Sends = record {
  start = refl;
  next = refl;
  end = refl;
  started = omega arith;
  bounded = omega arith;
  keeps = record {
    ordered = omega arith;
    few = omega arith;
    held = λ k lo hi. (1, found_second k (omega arith), refl);
    only = λ j hj used. (
      251,
      omega arith,
      omega arith,
      found_second 251 refl ∙ ap (λ (x : ℕ). some x) (ground arith),
    );
  };
}

get_next_refines_example :
    ((◌≡◌ {A = ℕ} 251 252)
      × (get_next_tx_packet_for_node one_waits true 7 ≡ some (none, one_waits)))
    ⊎ ((251 < 252)
        × ((◌≡◌ {A = ℕ} 251 252) ⊎ IsClosed 251 251)
        × (get_next_tx_packet_for_node one_waits true 7 ≡ some (none, paused one_waits 7)))
    ⊎ ((251 < 252)
        × (¬ IsClosed 251 251)
        × (e : ℕ) × (get_next_tx_packet_for_node one_waits true 7
            ≡ some (some e, advanced one_waits 7 251))
        × ((one_waits.packet_store.entries e).packet ≡ only_packet)
        × Sends (advanced one_waits 7 251) true 7 251 252 252 (λ k. only_packet))
get_next_refines_example =
    get_next_refines one_waits true 7 251 251 252 (λ k. only_packet) one_waits-Sends refl

window_unlimited_example :
    (e : ℕ) × (get_next_tx_packet_for_node one_waits true 7
      ≡ some (some e, advanced one_waits 7 251))
    × ((one_waits.packet_store.entries e).packet ≡ only_packet)
    × Sends (advanced one_waits 7 251) true 7 251 252 252 (λ k. only_packet)
window_unlimited_example =
    window_unlimited one_waits true 7 251 251 252 (λ k. only_packet) one_waits-Sends refl refl
      (omega arith)

ack_refines_example :
    AcksTo one_waits true 7 251 251 252 252
      (λ k. only_packet)
      (rx_ack_seq_num one_waits 7 (last_accepted 252) true 0)
ack_refines_example =
    ack_refines one_waits true 7 251 251 252 252 0 (λ k. only_packet) one_waits-Sends (omega arith)
      (omega arith) (λ t lt e. refl)

submit_refines_example :
    ((send_bytes one_waits true 0 7 master_data_packet 2 (λ i. i) ≡ some one_waits)
      × ((j : ℕ) → j < 4 → (one_waits.packet_store.entries j).in_use ≡ true))
    ⊎ Submits one_waits true 7 251 251 252
        (λ k. only_packet)
        (λ i. i)
        (send_bytes one_waits true 0 7 master_data_packet 2 (λ i. i))
submit_refines_example =
    submit_refines one_waits true 0 7 master_data_packet 2 251 251 252 (λ i. i) (λ k. only_packet)
      one_waits-Sends refl (omega arith) (omega arith) (omega arith) (omega arith) refl refl

-- A receiver that has taken 300 packets from node 3.
abbrev taken_300 : TxManager
taken_300 = record zero_tx_manager { rx_seq_num = λ i. 44 }

accept_next_example :
    ((rx_packet_check_and_update_seq_num taken_300 3 (300 % 255)).0 ≡ true)
    × Receives (rx_packet_check_and_update_seq_num taken_300 3 (300 % 255)).1 3 301
accept_next_example =
    accept_next taken_300 3 300 300 (record { last = refl }) (omega arith) (omega arith)

-- The same with the number 252: the packet is sent.
abbrev next_number : TxManager
next_number = record one_waits {
  packet_store = record (one_waits.packet_store) {
    entries = λ i. record { in_use = i == 1; packet = record only_packet { tx_seq_num = 252 } };
  };
  tx_seq_num_start = λ i. if i == 7 then 252 else 0;
  tx_seq_num_next = λ i. if i == 7 then 252 else 0;
  tx_seq_num_end = λ i. if i == 7 then 253 else 0;
}

found_next :
    (k : ℕ) → k ≡ 252 → find_packet_entry next_number.packet_store 7 (k % 255) true ≡ some 1
unfolding find_packet_entry first_from
found_next k e = ap (λ (x : ℕ). find_packet_entry next_number.packet_store 7 (x % 255) true) e

next_number-Sends :
    Sends next_number true 7 252 252 253 (λ k. record only_packet { tx_seq_num = 252 })
next_number-Sends = record {
  start = refl;
  next = refl;
  end = refl;
  started = omega arith;
  bounded = omega arith;
  keeps = record {
    ordered = omega arith;
    few = omega arith;
    held = λ k lo hi. (1, found_next k (omega arith), refl);
    only = λ j hj used. (
      252,
      omega arith,
      omega arith,
      found_next 252 refl ∙ ap (λ (x : ℕ). some x) (ground arith),
    );
  };
}

window_closes_example :
    ((◌≡◌ {A = ℕ} 252 255)
      × (get_next_tx_packet_for_node next_number true 7 ≡ some (none, paused next_number 7)))
    ⊎ ((¬ (◌≡◌ {A = ℕ} 252 255))
        × ((e : ℕ) × (get_next_tx_packet_for_node next_number true 7
              ≡ some (some e, advanced next_number 7 252))
            × ((next_number.packet_store.entries e).packet
                ≡ record only_packet { tx_seq_num = 252 })
            × Sends
                (advanced next_number 7 252)
                true
                7
                252
                253
                253
                (λ k. record only_packet { tx_seq_num = 252 })))
window_closes_example =
    window_closes next_number true 7 252 252 253 (λ k. record only_packet { tx_seq_num = 252 })
      next_number-Sends refl (λ e. omega arith) (omega arith)

level_lem_example : get_num_in_tx_buffer one_waits 7 ≡ 1
level_lem_example = level_lem one_waits true 7 251 251 252 (λ k. only_packet) one_waits-Sends

-- The entry 0 of the above is allocated, and node 9 is removed.
abbrev first_taken : TxManager
first_taken = record one_waits {
  packet_store = record (one_waits.packet_store) {
    entries = set_in_use one_waits.packet_store.entries 0 true;
    num_stored = 253;
  };
  allocated_packet = some 0;
}

abbrev nine_removed : TxManager
nine_removed = elim (master_tx_manager_remove_node first_taken 9 0) [
  | some r ↦ r.1
  | none ↦ first_taken
]

lost_entry_example :
    (m3 : TxManager) × (submit_allocated_tx_packet nine_removed true 0 0 0 9 master_data_packet 4
      ≡ some m3)
    × (m3.allocated_packet ≡ none)
    × ((one_waits.packet_store.entries 0).in_use ≡ false)
    × ((m3.packet_store.entries 0).in_use ≡ true)
unfolding allocate_tx_packet allocate_packet_entry first_from master_tx_manager_remove_node
    node_queue_remove_if_exists free_packets_to
lost_entry_example =
    lost_entry one_waits 0 0 0 0 0 9 master_data_packet 4 {m1 = first_taken} {m2 = nine_removed}
      refl refl
