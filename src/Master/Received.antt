-- ===== src/Master/Received.antt =====
-- src/masterRx.c: what the packet of a slot does to the network, as steps of NetworkManager/Members.
use microbus.Common.{
  ℕ, ◌≡◌, Bool, true, not, ◌&&◌, ◌||◌, ltb, leb, ◌==◌, if◌then◌else◌, some, assert, Ensures,
  Ensures-some, Ensures-if, Ensures-bind, Option-cases, inl, inr, arith,
}
use microbus.Packet.{
  Packet, max_nodes, microbus_version, node_data_packet, node_empty_packet, new_node_request_packet,
  packet_data_size, src_node_id_at, ack_seq_num_at, buffer_level_at, get_protocol_version,
  get_packet_type, get_packet_data_size, data_at,
}
use microbus.Stats.{incr64}
use microbus.NodeQueue.{node_queue_add, node_queue_remove}
use microbus.RxManager.{find_free_rx_packet, add_rx_data_packet}
use microbus.TxManager.Ack.{rx_ack_seq_num}
use microbus.NetworkManager.{network_manager_record_rx_packet, network_manager_register_new_node}
use microbus.NetworkManager.Join.{rx_new_node_packet_request, get_bytes}
use microbus.NetworkManager.Members.{later, request, heard}
use microbus.Scheduler.{scheduler_update_node_tx_buffer_level}
use microbus.Master.{Master, scheduler_of, with_scheduler}
use microbus.Master.Membership.{IsServed}
use microbus.Master.Rx.{
  record_heard, take_next_memory, master_quick_process_prev_rx, process_ack, process_data,
  process_request, process_packet, finish_rx, master_process_rx,
}

record_heard-IsServed : (m : Master) (p : Packet) → IsServed m → Ensures IsServed (record_heard m p)
unfolding record_heard
record_heard-IsServed m p h =
    let src = p.body src_node_id_at in
    let says = get_packet_type p == node_data_packet || get_packet_type p == node_empty_packet in
    Ensures-if says
      (λ _. Ensures-bind (assert (ltb src max_nodes)) (λ _ _.
        Ensures-if (ltb 0 (m.master_node_time_to_live src))
          (λ alive.
            Ensures-bind
              (network_manager_record_rx_packet m.nw_manager m.master_node_time_to_live src)
              (λ r ok. Ensures-some (later h (heard src {nw = r.0} {ttl = r.1} (ground arith) ok))))
          (λ _. Ensures-some h)))
      (λ _. Ensures-some h)

take_next_memory-IsServed :
    (m : Master) (p : Packet) → IsServed m → Ensures IsServed (take_next_memory m p)
unfolding take_next_memory
take_next_memory-IsServed m p h =
    elim (Option-cases (find_free_rx_packet m.rx.rx_packet_manager).0) [
      | inl full ↦ rw (full, take_next_memory) (Ensures-some h)
      | inr (e, free) ↦
          rw (free, take_next_memory)
            (Ensures-if (get_packet_type p == node_data_packet)
              (λ _.
                Ensures-bind (assert (ltb (p.body src_node_id_at) max_nodes))
                  (λ _ _. Ensures-some h))
              (λ _. Ensures-some h))
    ]

pub quick_process-IsServed :
    (m : Master) (crc_error : Bool)
    → IsServed m
    → Ensures IsServed (master_quick_process_prev_rx m crc_error)
unfolding master_quick_process_prev_rx
quick_process-IsServed m crc_error h =
    let m' = record m {
      rx = record (m.rx) {
        prev_rx_packet_entry = some m.rx.next_rx_packet_entry;
        valid_rx_packet = true;
      };
      stats = record (m.stats) { rx_valid = incr64 m.stats.rx_valid };
    } in
    let p = (m.rx.rx_packet_manager.rx_packet_entries m.rx.next_rx_packet_entry).packet in
    let first = p.protocol_version_and_packet_type in
    Ensures-if (first == 0 || first == 255) (λ _. Ensures-some h)
      (λ _.
        Ensures-if crc_error (λ _. Ensures-some h)
          (λ _.
            Ensures-if (not (get_protocol_version p == microbus_version)) (λ _. Ensures-some h)
              (λ _.
                Ensures-if (leb packet_data_size (get_packet_data_size p)) (λ _. Ensures-some h)
                  (λ _. Ensures-bind (record_heard m' p) (λ r ok.
                    take_next_memory-IsServed r p ((record_heard-IsServed m' p h).ensured r ok))))))

process_ack-IsServed :
    (m : Master) (p : Packet) → IsServed m → Ensures (λ x. IsServed x.1) (process_ack m p)
unfolding process_ack
process_ack-IsServed m p h = Ensures-bind (assert (ltb (p.body src_node_id_at) max_nodes)) (λ _ _.
    Ensures-bind
      (rx_ack_seq_num m.tx.tx_manager (p.body src_node_id_at) (p.body ack_seq_num_at) true
        m.stats.tx_window_restarts)
      (λ r _. Ensures-some h))

buffer_level_keeps :
    (m : Master) (node_id level : ℕ)
    → IsServed m
    → Ensures
        (λ s. IsServed (with_scheduler m s))
        (scheduler_update_node_tx_buffer_level (scheduler_of m) node_id level)
unfolding scheduler_update_node_tx_buffer_level
buffer_level_keeps m node_id level h =
    let before = m.scheduler.node_tx_buffer_level node_id in
    Ensures-bind
      (if before == 0 && ltb 0 level
        then node_queue_add m.node_tx_nodes node_id
        else if ltb 0 before && (level == 0)
        then node_queue_remove m.node_tx_nodes node_id
        else some m.node_tx_nodes)
      (λ queue _. Ensures-some h)

process_data-IsServed :
    (m : Master) (e : ℕ) (p : Packet) → IsServed m → Ensures IsServed (process_data m e p)
unfolding process_data
process_data-IsServed m e p h =
    let node_id = p.body src_node_id_at in
    let level = p.body buffer_level_at in
    Ensures-bind (assert (ltb 0 p.data_size1 || ltb 0 p.data_size2)) (λ _ _.
      Ensures-bind (scheduler_update_node_tx_buffer_level (scheduler_of m) node_id level) (λ s ok.
        Ensures-bind (add_rx_data_packet (with_scheduler m s).rx.rx_packet_manager e)
          (λ rpm _. Ensures-some ((buffer_level_keeps m node_id level h).ensured s ok))))

request_registers :
    (m : Master) (p : Packet)
    → Ensures
        (λ r.
          network_manager_register_new_node m.nw_manager m.master_node_time_to_live
            (get_bytes 8 (data_at 0) p.body)
            m.stats.network_full_count
          ≡ some r)
        (rx_new_node_packet_request m.nw_manager m.master_node_time_to_live p
          m.stats.network_full_count)
unfolding rx_new_node_packet_request
request_registers m p =
    Ensures-bind (assert (p.data_size2 == 9)) (λ _ _. record { ensured = λ r e. e })

process_request-IsServed :
    (m : Master) (p : Packet) → IsServed m → Ensures IsServed (process_request m p)
unfolding process_request
process_request-IsServed m p h =
    Ensures-bind
      (rx_new_node_packet_request m.nw_manager m.master_node_time_to_live p
        m.stats.network_full_count)
      (λ r ok. Ensures-some (
        later h (
          request (get_bytes 8 (data_at 0) p.body) m.stats.network_full_count {r = r}
            ((request_registers m p).ensured r ok))))

process_packet-IsServed :
    (m : Master) (e : ℕ) (p : Packet)
    → IsServed m
    → Ensures (λ x. IsServed x.2) (process_packet m e p)
unfolding process_packet
process_packet-IsServed m e p h =
    let acked = process_ack-IsServed m p h in
    Ensures-if (get_packet_type p == node_empty_packet)
      (λ _. Ensures-bind (process_ack m p) (λ r ok. Ensures-some (acked.ensured r ok)))
      (λ _.
        Ensures-if (get_packet_type p == node_data_packet)
          (λ _. Ensures-bind (process_ack m p) (λ r ok.
            Ensures-if r.1.rx.valid_rx_seq_num
              (λ _. Ensures-bind (process_data r.1 e p) (λ stored done.
                Ensures-some
                  ((process_data-IsServed r.1 e p (acked.ensured r ok)).ensured stored done)))
              (λ _. Ensures-some (acked.ensured r ok))))
          (λ _.
            Ensures-if (get_packet_type p == new_node_request_packet)
              (λ _.
                Ensures-bind (process_request m p)
                  (λ joined ok. Ensures-some ((process_request-IsServed m p h).ensured joined ok)))
              (λ _. Ensures-some h)))

pub process_rx-IsServed :
    (m : Master) → IsServed m → Ensures (λ x. IsServed x.1) (master_process_rx m)
unfolding master_process_rx finish_rx
process_rx-IsServed m h =
    let counted = record m {
      stats = record (m.stats) { rx_packet_entries = incr64 m.stats.rx_packet_entries };
    } in
    Ensures-if (not m.rx.valid_rx_packet) (λ _. Ensures-some h)
      (λ _. Ensures-bind m.rx.prev_rx_packet_entry (λ e _.
        let p = (m.rx.rx_packet_manager.rx_packet_entries e).packet in
        Ensures-bind (process_packet counted e p)
          (λ r ok. Ensures-some ((process_packet-IsServed counted e p h).ensured r ok))))
