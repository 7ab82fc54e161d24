-- ===== src/RxManager/Tests.antt =====
-- The receive buffer of src/rxManager.c at concrete buffers.
use microbus.Common.{
  ◌≤◌, ◌≡◌, refl, inl, inr, false, [], ◌∷◌, none, some, ◌==◌, if◌then◌else◌, arith,
}
use microbus.Packet.{zero_entry, set_in_use}
use microbus.Ring.{circular_buffer_length}
use microbus.RxManager.{
  RxPacketManager, add_rx_data_packet, pop_next_data_packet, peek_next_rx_data_packet,
  rx_manager_remove_all_packets,
}
use microbus.RxManager.Queue.{
  IsValid, slots, queue_length, rx_add_refines, rx_pop_refines, rx_pop_faults,
}
use microbus.RxManager.Peek.{rx_peek_refines}
use microbus.RxManager.Remove.{remove_all_hangs}
use microbus.RxManager.Cleared.{remove_all_refines}

-- Five slots, from index 3 round to index 0: entry 2, and a slot that was cleared.
abbrev wrapped : RxPacketManager
wrapped = record {
  max_rx_packet_entries = 5;
  rx_packet_entries = λ i. zero_entry;
  rx_packet_queue = λ i. if i == 3 then some 2 else none;
  start = 3;
  end = 0;
  rx_buffer_level = 1;
}

wrapped-IsValid : IsValid wrapped
wrapped-IsValid = omega arith

slots-wrapped : slots wrapped ≡ some 2 ∷ none ∷ []
unfolding circular_buffer_length
slots-wrapped = refl

abbrev cleared : RxPacketManager
cleared = record wrapped { start = 4 }

cleared-IsValid : IsValid cleared
cleared-IsValid = omega arith

rx_add_refines_example :
    (r : RxPacketManager) × (add_rx_data_packet wrapped 4 ≡ some r)
    × (slots r ≡ some 2 ∷ none ∷ some 4 ∷ [])
    × IsValid r
    × (queue_length r ≤ r.rx_buffer_level)
unfolding circular_buffer_length
rx_add_refines_example = rx_add_refines wrapped 4 wrapped-IsValid (omega arith)

rx_pop_refines_example :
    (r : RxPacketManager) × (pop_next_data_packet wrapped ≡ some r)
    × (slots r ≡ none ∷ [])
    × IsValid r
    × (r.rx_packet_entries ≡ set_in_use wrapped.rx_packet_entries 2 false)
unfolding circular_buffer_length
rx_pop_refines_example = rx_pop_refines wrapped (none ∷ []) wrapped-IsValid refl

rx_pop_faults_example : pop_next_data_packet cleared ≡ none
unfolding circular_buffer_length
rx_pop_faults_example = rx_pop_faults cleared cleared-IsValid (inr ([], refl))

rx_peek_refines_example :
    (r : RxPacketManager) × (peek_next_rx_data_packet cleared ≡ some (none, r))
    × (slots r ≡ [])
    × IsValid r
    × (r.rx_packet_entries ≡ cleared.rx_packet_entries)
unfolding circular_buffer_length
rx_peek_refines_example = rx_peek_refines cleared cleared-IsValid

remove_all_hangs_example : rx_manager_remove_all_packets 1000 wrapped 7 ≡ none
remove_all_hangs_example = remove_all_hangs 1000 7 wrapped refl (omega arith)

-- The queue ends at index 1 instead, and the packet is from the node 0.
abbrev past_zero : RxPacketManager
past_zero = record wrapped { end = 1 }

past_zero-IsValid : IsValid past_zero
past_zero-IsValid = omega arith

remove_all_refines_example :
    (r : RxPacketManager) × (rx_manager_remove_all_packets 5 past_zero 0 ≡ some r)
    × (slots r ≡ none ∷ none ∷ none ∷ [])
    × IsValid r
unfolding circular_buffer_length
remove_all_refines_example =
    remove_all_refines 5 0 past_zero past_zero-IsValid (inl (omega arith)) (omega arith)
