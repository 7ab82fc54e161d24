-- ===== src/Master/Tx.antt =====
-- src/masterTx.c: the packet that the master sends next.
use microbus.Common.{
  ℕ, zero, suc, ◌+◌, ◌-◌, ◌*◌, ◌%◌, ◌&&◌, ltb, leb, ◌==◌, if◌then◌else◌, Option, none, some, ◌>>=◌,
  ◌>>◌, assert, update, u8,
}
use microbus.Packet.{
  PacketEntry, max_nodes, microbus_version, invalid_node_id, master_empty_packet,
  master_reset_packet, packet_data_size, next_tx_node_id_at, next_tx_node_ack_seq_num_at,
  dst_node_id_at, put_byte, set_protocol_version_and_packet_type, get_packet_data_size, tmp, entry,
  empty_header,
}
use microbus.Stats.{incr64, incr32}
use microbus.NodeQueue.{NodeQueue}
use microbus.TxManager.{init_tx_manager}
use microbus.TxManager.Transmit.{master_get_next_tx_data_packet}
use microbus.NetworkManager.Join.{tx_new_node_response}
use microbus.Master.{MasterTx, Master, with_tx_manager, tx_packet_at, put_tx_packet}

-- The loop of `masterQuickUpdateTxPacket`, with the rounds left and the index: the schedule and the
-- acknowledgements in the body of the packet. `rxSeqNum` is read at every scheduled id, also at
-- `UNALLOCATED_NODE_ID`, which lies outside the array.
unfoldable pub fill_schedule : (ℕ → ℕ) → (ℕ → ℕ) → ℕ → ℕ → (ℕ → ℕ) → ℕ → ℕ
fill_schedule schedule rx_seq_num zero i body = body
fill_schedule schedule rx_seq_num (suc n) i body = fill_schedule schedule rx_seq_num n (i + 1) (
    update (update body (next_tx_node_id_at i) (schedule i)) (next_tx_node_ack_seq_num_at i)
      (rx_seq_num (schedule i)))

-- `masterQuickUpdateTxPacket`
unfoldable pub master_quick_update_tx_packet : Master → Master
unfolding fill_schedule
master_quick_update_tx_packet m = elim (tx_packet_at m.tx m.tx.next_tx_packet) [
  | none ↦ m
  | some p ↦ record m {
    tx = put_tx_packet m.tx m.tx.next_tx_packet (record p {
      body =
          fill_schedule m.next_tx_node_id m.tx.tx_manager.rx_seq_num
            m.scheduler.num_tx_nodes_scheduled 0 p.body;
    });
    stats = record (m.stats) { tx_packets = incr64 m.stats.tx_packets };
  }
]

-- `masterProcessTx`: the response to nodes that ask to join
unfoldable pub respond : Master → Master
respond m = record m {
  stats = record (m.stats) { new_node_allocated = incr32 m.stats.new_node_allocated };
  tx = record (m.tx) {
    tmp_packet = tx_new_node_response m.nw_manager m.tx.tmp_packet;
    next_tx_packet = tmp;
  };
}

-- `masterProcessTx`: an empty packet in one of two headers
unfoldable pub send_empty : Master → Master
send_empty m =
    let i = m.tx.tmp_packet_cycle % 2 in
    let headed =
      put_byte
        (set_protocol_version_and_packet_type (m.tx.tmp_empty_packet_header i) master_empty_packet)
        dst_node_id_at invalid_node_id in
    record m {
      tx = record (m.tx) {
        tmp_empty_packet_header =
            update m.tx.tmp_empty_packet_header i
              (record headed { data_size1 = 0; data_size2 = 0 });
        next_tx_packet = empty_header i;
      };
    }

-- `masterProcessTx`: a data packet, or an empty one
unfoldable pub send_data : Master → Option Master
unfolding send_empty
send_data m = do
  r ← master_get_next_tx_data_packet m.tx.tx_manager 1
  let m' = with_tx_manager m r.1
  elim r.0 [
    | none ↦ some (send_empty m')
    | some e ↦ do
      assert (ltb (get_packet_data_size (r.1.packet_store.entries e).packet) packet_data_size)
      some (record m' {
        stats = record (m'.stats) { tx_data_packets = incr64 m'.stats.tx_data_packets };
        tx = record (m'.tx) { next_tx_packet = entry e };
      })
  ]

-- `masterProcessTx`
unfoldable pub master_process_tx : Master → Option Master
unfolding respond send_data
master_process_tx m =
    let tx = m.tx in
    if ltb 0 tx.master_reset_cycles
    then some (record m {
      tx = record tx {
        master_reset_cycles = tx.master_reset_cycles - 1;
        tmp_packet = set_protocol_version_and_packet_type tx.tmp_packet master_reset_packet;
        next_tx_packet = tmp;
      };
    })
    else (let cycle = u8 (tx.tmp_packet_cycle + 1) in
        let cycled = if leb 4 cycle then 0 else cycle in
        let m' = record m { tx = record tx { tmp_packet_cycle = cycled } } in
        if ltb 0 m.nw_manager.num_new_nodes && (cycled == 1)
        then some (respond m')
        else send_data m')

-- `masterTxInit`, on a `tMasterTx` with the given contents before
unfoldable pub master_tx_init : MasterTx → Option NodeQueue → ℕ → (ℕ → PacketEntry) → MasterTx
master_tx_init tx active_tx_nodes max_tx_packet_entries tx_packet_entries =
    let headed =
      put_byte
        (record (tx.tmp_packet) {
          protocol_version_and_packet_type = master_empty_packet + microbus_version * 16;
          data_size1 = 0;
          data_size2 = 0;
        })
        dst_node_id_at invalid_node_id in
    record tx {
      tx_manager =
          init_tx_manager tx.tx_manager max_nodes active_tx_nodes max_tx_packet_entries
            tx_packet_entries;
      next_tx_packet = tmp;
      tmp_packet = headed;
    }
