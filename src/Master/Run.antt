-- ===== src/Master/Run.antt =====
-- src/master.c: the calls of the master's functions, in any order, with packets that arrive in between.
use microbus.Common.{ℕ, ◌≤◌, ◌<◌, ◌≡◌, Bool, Option, some}
use microbus.Packet.{
  max_nodes, max_tx_nodes_scheduled, Packet, PacketEntry, TxPacket, entry, set_packet,
}
use microbus.Master.{Master, put_tx_packet}
use microbus.Master.Slot.{
  master_dual_channel_pipelined_pre_process, master_dual_channel_pipelined_post_process,
  master_no_delay_single_channel_process_rx, master_no_delay_single_channel_process_tx,
  master_update_time_us,
}
use microbus.Master.User.{
  master_init, get_connected_nodes_bit_field, master_reset_tx_credits,
  master_peek_next_rx_data_packet, master_pop_next_data_packet, master_allocate_tx_packet,
  master_submit_allocated_tx_packet,
}

-- The calls of the master's functions, each as a whole; and a packet that arrives, of which the bytes
-- are in the memory for the next packet. The user fills entries of its buffer and submits to ids that
-- are indices of the arrays.
pub data Step (m : Master) : Master → Type 0 where
  arrives :
      (p : Packet)
      → Step m (record m {
        rx = record (m.rx) {
          rx_packet_manager = record (m.rx.rx_packet_manager) {
            rx_packet_entries =
                set_packet m.rx.rx_packet_manager.rx_packet_entries m.rx.next_rx_packet_entry p;
          };
        };
      })
  pre_process :
      (crc_error : Bool) {x : TxPacket × ℕ × Master}
      → master_dual_channel_pipelined_pre_process m crc_error ≡ some x
      → Step m x.2
  post_process :
      {x : ℕ × Master} → master_dual_channel_pipelined_post_process m ≡ some x → Step m x.1
  single_channel_rx :
      (crc_error : Bool) {x : ℕ × Master}
      → master_no_delay_single_channel_process_rx m crc_error ≡ some x
      → Step m x.1
  single_channel_tx :
      {x : ℕ × TxPacket × Master}
      → master_no_delay_single_channel_process_tx m ≡ some x
      → Step m x.2
  update_time : (us_incr : ℕ) → Step m (master_update_time_us m us_incr)
  connected_nodes :
      (bits : ℕ → ℕ) {x : (ℕ → ℕ) × Master}
      → get_connected_nodes_bit_field m bits ≡ some x
      → Step m x.1
  reset_credits : Step m (master_reset_tx_credits m)
  peek : {x : Option (ℕ × ℕ × ℕ) × Master} → master_peek_next_rx_data_packet m ≡ some x → Step m x.1
  pop : {m' : Master} → master_pop_next_data_packet m ≡ some m' → Step m m'
  allocate : {x : Option ℕ × Master} → master_allocate_tx_packet m ≡ some x → Step m x.1
  fill :
      (e : ℕ) (p : Packet)
      → e < m.tx.tx_manager.packet_store.max_entries
      → Step m (record m { tx = put_tx_packet m.tx (entry e) p })
  submit :
      (dst_node_id num_bytes ttl_after : ℕ) {m' : Master}
      → dst_node_id < max_nodes
      → master_submit_allocated_tx_packet m dst_node_id num_bytes ttl_after ≡ some m'
      → Step m m'

pub data Runs : Master → Type 0 where
  begin :
      (num_tx_nodes_scheduled max_tx_packet_entries : ℕ) (tx_packet_entries : ℕ → PacketEntry)
      (max_rx_packet_entries : ℕ) {m : Master}
      → num_tx_nodes_scheduled ≤ max_tx_nodes_scheduled
      → master_init num_tx_nodes_scheduled max_tx_packet_entries tx_packet_entries
          max_rx_packet_entries
        ≡ some m
      → Runs m
  next : {m m' : Master} → Runs m → Step m m' → Runs m'
