-- ===== src/Master/Tests.antt =====
-- A master of src/master.c that a node with the unique id 77 asks to join.
use microbus.Common.{ℕ, ◌≡◌, refl, false, none, some, [], ◌∷◌, arith}
use microbus.Packet.{
  TxPacket, no_packet, zero_entry, zero_packet, set_packet, set_protocol_version_and_packet_type,
  get_protocol_version, get_packet_type, get_packet_data_size,
}
use microbus.Ring.{circular_buffer_full}
use microbus.Stats.{zero_stats}
use microbus.NodeQueue.{zero_queue, ids, node_queue_add}
use microbus.RxManager.{find_free_rx_packet, rx_manager_init, zero_rx_manager}
use microbus.TxManager.{zero_tx_manager}
use microbus.NetworkManager.{network_manager_register_new_node, register_as, get_next_free_node_id}
use microbus.NetworkManager.Join.{tx_new_node_request, rx_new_node_packet_request, get_bytes}
use microbus.NetworkManager.Members.{no_members, Reachable, IsNetwork}
use microbus.Scheduler.{scheduler_init}
use microbus.Master.{Master}
use microbus.Master.Membership.{members_of}
use microbus.Master.Tx.{master_tx_init, master_process_tx, master_quick_update_tx_packet}
use microbus.Master.Rx.{
  master_quick_process_prev_rx, record_heard, take_next_memory, master_process_rx, process_packet,
  process_request, finish_rx,
}
use microbus.Master.User.{master_init, master_rx_init}
use microbus.Master.Slot.{
  master_update_schedule, master_dual_channel_pipelined_pre_process,
  master_dual_channel_pipelined_post_process, master_remove_any_timeout_nodes,
  remove_timed_out_from,
}
use microbus.Master.Request.{Answers, request_stops}
use microbus.Master.Run.{Runs, begin, next, arrives, pre_process, post_process}
use microbus.Master.Served.{master-IsNetwork}

abbrev blank : Master
blank = record {
  scheduler = scheduler_init 4 80;
  nw_manager = no_members.nw;
  rx = record {
    rx_packet_manager = zero_rx_manager;
    next_rx_packet_entry = 0;
    prev_rx_packet_entry = none;
    valid_rx_packet = false;
    valid_rx_seq_num = false;
  };
  tx = record {
    next_tx_packet = no_packet;
    tmp_packet_cycle = 0;
    tmp_empty_packet_header = λ i. zero_packet;
    tmp_packet = zero_packet;
    master_reset_cycles = 0;
    tx_manager = zero_tx_manager;
  };
  stats = zero_stats;
  current_tx_node_id = 0;
  next_tx_node_id = λ i. 0;
  master_node_time_to_live = λ i. 0;
  node_tx_nodes = zero_queue;
}

abbrev started : Master
started = elim (master_init 4 8 (λ i. zero_entry) 8) [ some m ↦ m | none ↦ blank ]

abbrev asked : Master
asked = record started {
  rx = record (started.rx) {
    rx_packet_manager = record (started.rx.rx_packet_manager) {
      rx_packet_entries =
          set_packet started.rx.rx_packet_manager.rx_packet_entries started.rx.next_rx_packet_entry
            (tx_new_node_request zero_packet 77);
    };
  };
}

abbrev received : TxPacket × ℕ × Master
received = elim (master_dual_channel_pipelined_pre_process asked false) [
  | some x ↦ x
  | none ↦ (no_packet, 0, blank)
]

abbrev joined : ℕ × Master
joined = elim (master_dual_channel_pipelined_post_process received.2) [
  | some x ↦ x
  | none ↦ (0, blank)
]

started-Runs : Runs started
unfolding master_init master_rx_init find_free_rx_packet rx_manager_init circular_buffer_full
started-Runs = begin 4 8 (λ i. zero_entry) 8 (omega arith) refl

received-Runs : Runs received.2
unfolding master_init master_rx_init find_free_rx_packet rx_manager_init circular_buffer_full
    master_dual_channel_pipelined_pre_process master_update_schedule master_quick_process_prev_rx
    tx_new_node_request set_protocol_version_and_packet_type get_protocol_version get_packet_type
    get_packet_data_size record_heard
received-Runs =
    next (next started-Runs (arrives (tx_new_node_request zero_packet 77)))
      (pre_process false {x = received} refl)

joined-Runs : Runs joined.1
unfolding master_init master_rx_init find_free_rx_packet rx_manager_init circular_buffer_full
    master_dual_channel_pipelined_pre_process master_update_schedule master_quick_process_prev_rx
    tx_new_node_request set_protocol_version_and_packet_type get_protocol_version get_packet_type
    get_packet_data_size record_heard take_next_memory master_quick_update_tx_packet
    master_dual_channel_pipelined_post_process master_process_rx process_packet process_request
    rx_new_node_packet_request get_bytes network_manager_register_new_node register_as
    get_next_free_node_id node_queue_add finish_rx master_process_tx master_remove_any_timeout_nodes
    remove_timed_out_from master_tx_init
joined-Runs = next received-Runs (post_process {x = joined} refl)

master-IsNetwork_example : Reachable (members_of joined.1) × IsNetwork (members_of joined.1)
master-IsNetwork_example = master-IsNetwork {m = joined.1} joined-Runs

-- The node has joined with the id 1.
joined_ids : ids joined.1.nw_manager.active_nodes ≡ 1 ∷ []
unfolding master_init master_rx_init find_free_rx_packet rx_manager_init circular_buffer_full
    master_dual_channel_pipelined_pre_process master_update_schedule master_quick_process_prev_rx
    tx_new_node_request set_protocol_version_and_packet_type get_protocol_version get_packet_type
    get_packet_data_size record_heard take_next_memory master_quick_update_tx_packet
    master_dual_channel_pipelined_post_process master_process_rx process_packet process_request
    rx_new_node_packet_request get_bytes network_manager_register_new_node register_as
    get_next_free_node_id node_queue_add finish_rx master_process_tx master_remove_any_timeout_nodes
    remove_timed_out_from master_tx_init
joined_ids = refl

request_stops_example : Answers received.2 0 (master_process_rx received.2)
unfolding master_init master_rx_init find_free_rx_packet rx_manager_init circular_buffer_full
    master_dual_channel_pipelined_pre_process master_update_schedule master_quick_process_prev_rx
    tx_new_node_request set_protocol_version_and_packet_type get_protocol_version get_packet_type
    get_packet_data_size record_heard master_quick_update_tx_packet master_tx_init
request_stops_example = request_stops {m = received.2} 0 received-Runs refl refl refl
