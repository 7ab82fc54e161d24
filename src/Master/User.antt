-- ===== src/Master/User.antt =====
-- src/master.c: what the user's thread calls on the master.
use Prim.Native.Nat.{bit_and, bit_or}
use microbus.Common.{
  ℕ, zero, suc, ◌+◌, ◌-◌, ◌/◌, ◌%◌, ◌^◌, true, false, ltb, leb, ◌==◌, if◌then◌else◌, Option, none,
  some, ◌>>=◌, ◌>>◌, assert, update,
}
use microbus.Packet.{
  PacketEntry, max_nodes, master_node_id, packet_data_size, master_data_packet,
  get_packet_data_size, zero_packet, no_packet,
}
use microbus.Stats.{zero_stats, incr64}
use microbus.NodeQueue.{zero_queue}
use microbus.RxManager.{
  src_node_id, find_free_rx_packet, peek_next_rx_data_packet, pop_next_data_packet, rx_manager_init,
  zero_rx_manager,
}
use microbus.TxManager.{
  allocate_tx_packet, submit_allocated_tx_packet, master_tx_clear_buffers, zero_tx_manager,
}
use microbus.Scheduler.{scheduler_init}
use microbus.Master.{MasterRx, MasterTx, Master, with_tx_manager, with_rx_manager}
use microbus.Master.Tx.{master_tx_init}

-- `masterRxInit` on a `tMasterRx` that is zero
unfoldable pub master_rx_init : ℕ → Option MasterRx
master_rx_init max_rx_packet_entries = do
  assert (ltb 2 max_rx_packet_entries)
  let found = find_free_rx_packet (rx_manager_init zero_rx_manager max_rx_packet_entries)
  e ← found.0
  some (record {
    rx_packet_manager = found.1;
    next_rx_packet_entry = e;
    prev_rx_packet_entry = none;
    valid_rx_packet = false;
    valid_rx_seq_num = false;
  })

-- `masterInit`
unfoldable pub master_init : ℕ → ℕ → (ℕ → PacketEntry) → ℕ → Option Master
master_init num_tx_nodes_scheduled max_tx_packet_entries tx_packet_entries max_rx_packet_entries =
    do
      rx ← master_rx_init max_rx_packet_entries
      let zero_tx : MasterTx = record {
        next_tx_packet = no_packet;
        tmp_packet_cycle = 0;
        tmp_empty_packet_header = λ i. zero_packet;
        tmp_packet = zero_packet;
        master_reset_cycles = 0;
        tx_manager = zero_tx_manager;
      }
      let tx = master_tx_init zero_tx (some zero_queue) max_tx_packet_entries tx_packet_entries
      some (record {
        scheduler = scheduler_init num_tx_nodes_scheduled 80;
        nw_manager = record {
          new_node_unique_id = λ i. 0;
          new_node_id = λ i. 0;
          num_new_nodes = 0;
          active_nodes = zero_queue;
          time_to_live_time_us = 0;
        };
        rx = rx;
        tx = record tx { master_reset_cycles = 20 };
        stats = zero_stats;
        current_tx_node_id = 0;
        next_tx_node_id = λ i. 0;
        master_node_time_to_live = λ i. 0;
        node_tx_nodes = zero_queue;
      })

-- The bit of a node in its byte of the bit field
abbrev pub node_bit : ℕ → ℕ
node_bit node = 2 ^ (7 - node % 8)

-- The first loop of `getConnectedNodesBitField`, with the rounds left and the node
pub set_bits : (ℕ → ℕ) → ℕ → ℕ → (ℕ → ℕ) → ℕ → ℕ
set_bits ttl zero node bits = bits
set_bits ttl (suc n) node bits = set_bits ttl n (node + 1) (
    if ltb 0 (ttl node)
    then update bits (node / 8) (bit_or (bits (node / 8)) (node_bit node))
    else bits)

-- The second loop, with the rounds left and the index
pub clear_bits : (ℕ → ℕ) → ℕ → ℕ → (ℕ → ℕ) → Option (ℕ → ℕ)
clear_bits new_node_id zero i bits = some bits
clear_bits new_node_id (suc n) i bits =
    let node = new_node_id i in
    let rest =
      clear_bits new_node_id n (i + 1)
        (update bits (node / 8) (bit_and (bits (node / 8)) (255 - node_bit node))) in
    if node == 0 then none else rest

-- `getConnectedNodesBitField`, on the bytes that the caller passes in
unfoldable pub get_connected_nodes_bit_field : Master → (ℕ → ℕ) → Option ((ℕ → ℕ) × Master)
unfolding set_bits clear_bits
get_connected_nodes_bit_field m bits = do
  let ttl = update m.master_node_time_to_live 0 1
  cleared ←
      clear_bits m.nw_manager.new_node_id m.nw_manager.num_new_nodes 0
        (set_bits ttl max_nodes 0 bits)
  some (cleared, record m { master_node_time_to_live = ttl })

-- `masterResetTxCredits`
unfoldable pub master_reset_tx_credits : Master → Master
master_reset_tx_credits m = with_tx_manager m (master_tx_clear_buffers m.tx.tx_manager)

-- `masterPeekNextRxDataPacket`: the entry with its size and its source
unfoldable pub master_peek_next_rx_data_packet : Master → Option (Option (ℕ × ℕ × ℕ) × Master)
master_peek_next_rx_data_packet m = do
  r ← peek_next_rx_data_packet m.rx.rx_packet_manager
  some (
    elim r.0 [
      | none ↦ none
      | some e ↦ some (e, get_packet_data_size (r.1.rx_packet_entries e).packet, src_node_id r.1 e)
    ],
    with_rx_manager m r.1,
  )

-- `masterPopNextDataPacket`
unfoldable pub master_pop_next_data_packet : Master → Option Master
master_pop_next_data_packet m = do
  rpm ← pop_next_data_packet m.rx.rx_packet_manager
  some (with_rx_manager m rpm)

-- `masterAllocateTxPacket`
unfoldable pub master_allocate_tx_packet : Master → Option (Option ℕ × Master)
master_allocate_tx_packet m = do
  r ← allocate_tx_packet m.tx.tx_manager
  let m' = with_tx_manager m r.1
  some (elim r.0 [
    | some e ↦ (some e, m')
    | none ↦ (
      none,
      record m' { stats = record (m'.stats) { tx_buffer_full = incr64 m'.stats.tx_buffer_full } },
    )
  ])

-- `masterSubmitAllocatedTxPacket`, with the node's time to live as it is read the second time
unfoldable pub master_submit_allocated_tx_packet : Master → ℕ → ℕ → ℕ → Option Master
master_submit_allocated_tx_packet m dst_node_id num_bytes ttl_after = do
  assert (leb num_bytes packet_data_size)
  _ ← m.tx.tx_manager.allocated_packet
  manager ←
      submit_allocated_tx_packet m.tx.tx_manager true (m.master_node_time_to_live dst_node_id)
        ttl_after master_node_id dst_node_id master_data_packet num_bytes
  some (with_tx_manager m manager)
