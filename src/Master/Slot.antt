-- ===== src/Master/Slot.antt =====
-- src/master.c: what the master runs in each slot, by the interrupt, and when its timer ticks.
use microbus.Common.{
  ℕ, zero, suc, ◌+◌, ◌-◌, Bool, true, ltb, leb, ◌==◌, if◌then◌else◌, ◌&&◌, Option, none, some,
  ◌>>=◌, update, u8,
}
use microbus.Packet.{TxPacket, max_nodes, master_node_id, first_node_id}
use microbus.NodeQueue.{node_queue_remove_if_exists}
use microbus.PacketStore.{get_num_all_buffered_tx_packets}
use microbus.RxManager.{rx_manager_remove_all_packets}
use microbus.TxManager.{master_tx_manager_remove_node}
use microbus.NetworkManager.{
  remove_node_ttl, network_manager_remove_new_node_request, network_manager_update_time_us,
}
use microbus.Scheduler.Slots.{scheduler_update_and_calc_next_tx_nodes}
use microbus.Master.{Master, scheduler_of, with_scheduler, with_tx_manager, with_rx_manager}
use microbus.Master.Rx.{master_quick_process_prev_rx, master_process_rx}
use microbus.Master.Tx.{master_quick_update_tx_packet, master_process_tx}

-- `masterUpdateSchedule`
unfoldable pub master_update_schedule : Master → Option Master
master_update_schedule m =
    if ltb 0 m.tx.master_reset_cycles
    then some (record m {
      current_tx_node_id = master_node_id;
      next_tx_node_id = λ i.
          if leb 1 i && ltb i (m.scheduler.num_tx_nodes_scheduled + 1)
          then master_node_id
          else m.next_tx_node_id i;
    })
    else do
      let level = get_num_all_buffered_tx_packets m.tx.tx_manager.packet_store
      r ← scheduler_update_and_calc_next_tx_nodes (scheduler_of m) m.next_tx_node_id level
      some (record (with_scheduler m r.1) {
        current_tx_node_id = m.next_tx_node_id 0;
        next_tx_node_id = r.0;
      })

-- The rounds granted to the loop of `rxManagerRemoveAllPackets`, more than it takes where it ends.
abbrev pub remove_rounds : ℕ
remove_rounds = 512

-- The body of the loop of `masterRemoveAnyTimeoutNodes` for a node that is marked for removal
unfoldable pub remove_node : Master → ℕ → ℕ → Option (ℕ × Master)
remove_node m node_id num_freed = do
  request ← network_manager_remove_new_node_request m.nw_manager node_id
  let nw = request.1
  freed ← master_tx_manager_remove_node m.tx.tx_manager node_id num_freed
  rpm ← rx_manager_remove_all_packets remove_rounds m.rx.rx_packet_manager node_id
  some (
    freed.0,
    record (with_rx_manager (with_tx_manager m freed.1) rpm) {
      master_node_time_to_live = update m.master_node_time_to_live node_id 0;
      nw_manager = record nw { active_nodes = node_queue_remove_if_exists nw.active_nodes node_id };
      node_tx_nodes = node_queue_remove_if_exists m.node_tx_nodes node_id;
    },
  )

-- The loop of `masterRemoveAnyTimeoutNodes`, with the rounds left, the node id and the counter
unfoldable pub remove_timed_out_from : ℕ → ℕ → ℕ → Master → Option (ℕ × Master)
unfolding remove_node
remove_timed_out_from zero node_id num_freed m = some (num_freed, m)
remove_timed_out_from (suc n) node_id num_freed m =
    elim (m.master_node_time_to_live node_id == remove_node_ttl) [
      | true ↦ elim (remove_node m node_id num_freed) [
        | none ↦ none
        | some r ↦ remove_timed_out_from n (node_id + 1) r.0 r.1
      ]
      | _ ↦ remove_timed_out_from n (node_id + 1) num_freed m
    ]

-- `masterRemoveAnyTimeoutNodes`
unfoldable pub master_remove_any_timeout_nodes : Master → Option (ℕ × Master)
unfolding remove_timed_out_from
master_remove_any_timeout_nodes m =
    remove_timed_out_from (max_nodes - first_node_id) first_node_id 0 m

-- `masterDualChannelPipelinedPreProcess`: the packet to send, the memory for the next packet, and the
-- master after it
unfoldable pub master_dual_channel_pipelined_pre_process :
    Master → Bool → Option (TxPacket × ℕ × Master)
master_dual_channel_pipelined_pre_process m crc_error = do
  scheduled ← master_update_schedule m
  received ← master_quick_process_prev_rx scheduled crc_error
  let updated = master_quick_update_tx_packet received
  some (updated.tx.next_tx_packet, updated.rx.next_rx_packet_entry, updated)

-- `masterDualChannelPipelinedPostProcess`
unfoldable pub master_dual_channel_pipelined_post_process : Master → Option (ℕ × Master)
master_dual_channel_pipelined_post_process m = do
  received ← master_process_rx m
  prepared ← master_process_tx received.1
  removed ← master_remove_any_timeout_nodes prepared
  some (u8 (received.0 + removed.0), removed.1)

-- `masterNoDelaySingleChannelProcessRx`
unfoldable pub master_no_delay_single_channel_process_rx : Master → Bool → Option (ℕ × Master)
master_no_delay_single_channel_process_rx m crc_error = do
  scheduled ← master_update_schedule m
  received ← master_quick_process_prev_rx scheduled crc_error
  master_process_rx received

-- `masterNoDelaySingleChannelProcessTx`
unfoldable pub master_no_delay_single_channel_process_tx : Master → Option (ℕ × TxPacket × Master)
master_no_delay_single_channel_process_tx m = do
  prepared ← master_process_tx m
  scheduled ← master_update_schedule prepared
  let updated = master_quick_update_tx_packet scheduled
  removed ← master_remove_any_timeout_nodes updated
  some (removed.0, updated.tx.next_tx_packet, removed.1)

-- `masterUpdateTimeUs`
unfoldable pub master_update_time_us : Master → ℕ → Master
master_update_time_us m us_incr =
    let r = network_manager_update_time_us m.nw_manager m.master_node_time_to_live us_incr in
    record m { nw_manager = r.0; master_node_time_to_live = r.1 }
