-- ===== src/Master/Rx.antt =====
-- src/masterRx.c: what the master does with the packet of a slot.
use microbus.Common.{
  ℕ, Bool, true, false, not, ◌||◌, ltb, leb, ◌==◌, if◌then◌else◌, Option, none, some, ◌>>=◌, ◌>>◌,
  assert,
}
use microbus.Packet.{
  Packet, max_nodes, microbus_version, node_data_packet, node_empty_packet, new_node_request_packet,
  packet_data_size, ack_seq_num_at, src_node_id_at, buffer_level_at, get_protocol_version,
  get_packet_type, get_packet_data_size, set_in_use,
}
use microbus.Stats.{incr64, incr32}
use microbus.RxManager.{find_free_rx_packet, add_rx_data_packet}
use microbus.TxManager.Ack.{rx_ack_seq_num, rx_packet_check_and_update_seq_num}
use microbus.NetworkManager.{network_manager_record_rx_packet}
use microbus.NetworkManager.Join.{rx_new_node_packet_request}
use microbus.Scheduler.{new_node_heard_update_scheduler, scheduler_update_node_tx_buffer_level}
use microbus.Master.{Master, scheduler_of, with_scheduler, with_tx_manager, with_rx_manager}

-- `masterQuickProcessPrevRx`: the record that a node was heard. A source id that is no index of the
-- array of the times to live is `none`: the code reads outside of it there.
unfoldable pub record_heard : Master → Packet → Option Master
record_heard m p =
    let packet_type = get_packet_type p in
    let src_node_id = p.body src_node_id_at in
    if packet_type == node_data_packet || packet_type == node_empty_packet
    then (do
      assert (ltb src_node_id max_nodes)
      if ltb 0 (m.master_node_time_to_live src_node_id)
          then (do
            r ← network_manager_record_rx_packet m.nw_manager m.master_node_time_to_live src_node_id
            some (record m { nw_manager = r.0; master_node_time_to_live = r.1 }))
          else some m)
    else some m

-- `masterQuickProcessPrevRx`: the memory for the next packet, and the check of the sequence number.
-- A source id that is no index of the array of the sequence numbers is `none`: the code reads and
-- writes outside of it there.
unfoldable pub take_next_memory : Master → Packet → Option Master
take_next_memory m p =
    let found = find_free_rx_packet m.rx.rx_packet_manager in
    elim found.0 [
      | none ↦ some (record m {
        stats = record (m.stats) { rx_buffer_full = incr64 m.stats.rx_buffer_full };
        rx = record (m.rx) { rx_packet_manager = found.1; valid_rx_packet = false };
      })
      | some e ↦
          let moved = record m {
            rx = record (m.rx) { rx_packet_manager = found.1; next_rx_packet_entry = e };
          } in
          if get_packet_type p == node_data_packet
          then (do
            assert (ltb (p.body src_node_id_at) max_nodes)
            let r =
                rx_packet_check_and_update_seq_num m.tx.tx_manager (p.body src_node_id_at)
                  p.tx_seq_num
            some (record (with_tx_manager moved r.1) {
              rx = record (moved.rx) { valid_rx_seq_num = r.0 };
            }))
          else some moved
    ]

-- `masterQuickProcessPrevRx`
unfoldable pub master_quick_process_prev_rx : Master → Bool → Option Master
unfolding record_heard take_next_memory
master_quick_process_prev_rx m rx_crc_error =
    let m' = record m {
      rx = record (m.rx) {
        prev_rx_packet_entry = some m.rx.next_rx_packet_entry;
        valid_rx_packet = false;
      };
    } in
    let p = (m.rx.rx_packet_manager.rx_packet_entries m.rx.next_rx_packet_entry).packet in
    let first = p.protocol_version_and_packet_type in
    let stats = m.stats in
    if first == 0 || first == 255
    then some (record m' { stats = record stats { empty_rx = incr64 stats.empty_rx } })
    else if rx_crc_error
    then some
        (record m' { stats = record stats { rx_crc_failures = incr64 stats.rx_crc_failures } })
    else if not (get_protocol_version p == microbus_version)
    then some (record m' {
      stats = record stats { rx_invalid_protocol = incr64 stats.rx_invalid_protocol };
    })
    else if leb packet_data_size (get_packet_data_size p)
    then some (record m' {
      stats = record stats { rx_invalid_data_size = incr64 stats.rx_invalid_data_size };
    })
    else do
      heard ←
          record_heard
            (record m' {
              stats = record stats { rx_valid = incr64 stats.rx_valid };
              rx = record (m'.rx) { valid_rx_packet = true };
            })
            p
      take_next_memory heard p

-- `masterProcessRx`: `numTxPacketsFreed` and the acknowledgement that a node sent. A source id that is
-- no index of the transmit manager's arrays is `none`.
unfoldable pub process_ack : Master → Packet → Option (ℕ × Master)
process_ack m p = do
  assert (ltb (p.body src_node_id_at) max_nodes)
  r ←
      rx_ack_seq_num m.tx.tx_manager (p.body src_node_id_at) (p.body ack_seq_num_at) true
        m.stats.tx_window_restarts
  some (
    r.0,
    record (with_tx_manager m r.2) { stats = record (m.stats) { tx_window_restarts = r.1 } },
  )

-- `masterProcessRx`: the case of a data packet with the expected sequence number
unfoldable pub process_data : Master → ℕ → Packet → Option Master
process_data m e p = do
  assert (ltb 0 p.data_size1 || ltb 0 p.data_size2)
  scheduled ←
      scheduler_update_node_tx_buffer_level (scheduler_of m) (p.body src_node_id_at)
        (p.body buffer_level_at)
  let m' = with_scheduler m scheduled
  rpm ← add_rx_data_packet m'.rx.rx_packet_manager e
  some (record (with_rx_manager m' rpm) {
    stats = record (m'.stats) { rx_data_packets = incr64 m'.stats.rx_data_packets };
  })

-- `masterProcessRx`: the case of a request to join
unfoldable pub process_request : Master → Packet → Option Master
process_request m p = do
  r ←
      rx_new_node_packet_request m.nw_manager m.master_node_time_to_live p
        m.stats.network_full_count
  some (record m {
    nw_manager = r.manager;
    master_node_time_to_live = r.ttl;
    stats = record (m.stats) {
      network_full_count = r.network_full_count;
      new_node_request_rx = incr32 m.stats.new_node_request_rx;
    };
    scheduler = new_node_heard_update_scheduler m.scheduler;
  })

-- `masterProcessRx`: what comes after the switch
unfoldable pub finish_rx : Master → ℕ → Bool → Master
finish_rx m e packet_stored =
    let rpm = m.rx.rx_packet_manager in
    record m {
      rx = record (m.rx) {
        rx_packet_manager =
            if packet_stored
            then rpm
            else record rpm { rx_packet_entries = set_in_use rpm.rx_packet_entries e false };
        valid_rx_packet = false;
        valid_rx_seq_num = false;
      };
    }

-- `masterProcessRx`: the switch, with whether the packet was stored
unfoldable pub process_packet : Master → ℕ → Packet → Option (ℕ × Bool × Master)
unfolding process_ack process_data process_request
process_packet m e p =
    let packet_type = get_packet_type p in
    if packet_type == node_empty_packet
    then (do r ← process_ack m p; some (r.0, false, r.1))
    else if packet_type == node_data_packet
    then (do
      r ← process_ack m p
      if r.1.rx.valid_rx_seq_num
          then (do stored ← process_data r.1 e p; some (r.0, true, stored))
          else some (r.0, false, r.1))
    else if packet_type == new_node_request_packet
    then (do joined ← process_request m p; some (0, false, joined))
    else some (
      0,
      false,
      record m {
        stats = record (m.stats) { rx_invalid_packet_type = incr64 m.stats.rx_invalid_packet_type };
      },
    )

-- `masterProcessRx`: the packets freed, and the master after it
unfoldable pub master_process_rx : Master → Option (ℕ × Master)
unfolding process_packet finish_rx
master_process_rx m = if not m.rx.valid_rx_packet then some (0, m) else do
  e ← m.rx.prev_rx_packet_entry
  let counted = record m {
    stats = record (m.stats) { rx_packet_entries = incr64 m.stats.rx_packet_entries };
  }
  r ← process_packet counted e (m.rx.rx_packet_manager.rx_packet_entries e).packet
  some (r.0, finish_rx r.2 e r.1)
