-- ===== src/TxManager.antt =====
-- src/txManager.c and src/txManager.h: the sliding window. Of the arrays by node id each is a
-- function; `activeTxNodes` is `none` where the pointer is null, as it is on a node. This file has
-- the state and what fills and empties it.
pub mod Window
pub mod Next
pub mod Acked
pub mod AckSeqNum
pub mod Stored
pub mod Buffer
pub mod Submit
mod Tests
pub mod Transmit
pub mod Ack
use microbus.Common.{
  ℕ, zero, suc, ◌+◌, ◌-◌, ◌<◌, Bool, true, false, not, ◌&&◌, ◌||◌, ltb, leb, ◌==◌, if◌then◌else◌,
  Option, none, some, ◌>>=◌, ◌>>◌, assert, update, u8, u64, sub8, max,
}
use microbus.Packet.{
  Packet, PacketEntry, max_nodes, master_node_id, sliding_window_size, master_data_packet,
  null_sequence_num, max_sequence_num, dst_node_id_at, src_node_id_at, zero_entry, ack_seq_num_at,
  put_byte, set_packet, set_protocol_version_and_packet_type, set_packet_data_size,
}
use microbus.NodeQueue.{NodeQueue, node_queue_add, node_queue_remove, node_queue_remove_if_exists}
use microbus.PacketStore.{
  PacketStore, find_packet_entry, allocate_packet_entry, free_packet, free_packets_to,
  free_all_packets,
}

-- `tTxManager`
pub record TxManager : Type 0 where
  pub allocated_packet : Option ℕ
  pub packet_store : PacketStore
  pub tx_seq_num_start : ℕ → ℕ
  pub tx_seq_num_end : ℕ → ℕ
  pub tx_seq_num_next : ℕ → ℕ
  pub tx_seq_num_pause_count : ℕ → ℕ
  pub rx_seq_num : ℕ → ℕ
  pub max_tx_nodes : ℕ
  pub max_tx_buffer_level : ℕ
  pub tx_buffer_level : ℕ
  pub active_tx_nodes : Option NodeQueue
  pub last_tx_queue_index : ℕ
  pub last_tx_queue_count : ℕ

-- `INCR_SEQUENCE_NUM`
unfoldable pub incr_sequence_num : ℕ → ℕ
incr_sequence_num seq_num =
    let next = u8 (seq_num + 1) in if leb max_sequence_num next then 0 else next

-- `allocateTxPacket`. The entry is taken before the two later checks.
unfoldable pub allocate_tx_packet : TxManager → Option (Option ℕ × TxManager)
allocate_tx_packet manager =
    let (packet, store) = allocate_packet_entry manager.packet_store in
    let taken = record manager { packet_store = store } in
    elim packet [
      | none ↦ some (none, taken)
      | some e ↦ elim manager.allocated_packet [
        | some _ ↦ none
        | none ↦
            if elim manager.active_tx_nodes [ some q ↦ leb max_nodes q.num_nodes | none ↦ false ]
            then some (none, taken)
            else some (some e, record taken { allocated_packet = some e })
      ]
    ]

-- `masterTxManagerRemoveNode`, with the counter that it is given
unfoldable pub master_tx_manager_remove_node : TxManager → ℕ → ℕ → Option (ℕ × TxManager)
master_tx_manager_remove_node manager node_id num_freed = do
  q ← manager.active_tx_nodes
  let freed = free_packets_to manager.packet_store node_id num_freed
  some (
    freed.1,
    record manager {
      active_tx_nodes = some (node_queue_remove_if_exists q node_id);
      packet_store = freed.0;
      tx_seq_num_start = update manager.tx_seq_num_start node_id 0;
      tx_seq_num_end = update manager.tx_seq_num_end node_id 0;
      tx_seq_num_next = update manager.tx_seq_num_next node_id 0;
      tx_seq_num_pause_count = update manager.tx_seq_num_pause_count node_id 0;
      rx_seq_num = update manager.rx_seq_num node_id null_sequence_num;
    },
  )

-- `masterTxClearBuffers`
unfoldable pub master_tx_clear_buffers : TxManager → TxManager
master_tx_clear_buffers manager = record manager {
  packet_store = free_all_packets manager.packet_store;
}

-- The header that `submitAllocatedTxPacket` writes.
unfoldable pub submitted_packet : Packet → Bool → ℕ → ℕ → ℕ → ℕ → ℕ → Packet
submitted_packet p is_master src_node_id dst_node_id packet_type data_size seq_num =
    let headed =
      set_packet_data_size (set_protocol_version_and_packet_type p packet_type) data_size in
    record (if is_master
      then put_byte headed dst_node_id_at dst_node_id
      else put_byte headed src_node_id_at src_node_id) { tx_seq_num = seq_num }

-- `submitAllocatedTxPacket` from its first assertion on to where it clears `allocatedPacket`
unfoldable pub store_allocated : TxManager → Bool → ℕ → ℕ → ℕ → ℕ → Option TxManager
unfolding submitted_packet
store_allocated manager is_master src_node_id dst_node_id packet_type data_size = do
  assert (ltb src_node_id max_nodes && ltb dst_node_id max_nodes)
  e ← manager.allocated_packet
  assert (is_master || dst_node_id == 0)
  assert (is_master || not (packet_type == master_data_packet))
  let store = manager.packet_store
  let seq_num = manager.tx_seq_num_end dst_node_id
  let end = incr_sequence_num seq_num
  let start = manager.tx_seq_num_start dst_node_id
  queue ←
      (if is_master && (seq_num == start)
        then (do q ← manager.active_tx_nodes; r ← node_queue_add q dst_node_id; some (some r))
        else some manager.active_tx_nodes)
  let level = sub8 end start
  some (record manager {
    packet_store = record store {
      entries = set_packet store.entries e (
          submitted_packet (store.entries e).packet is_master src_node_id dst_node_id packet_type
            data_size seq_num);
    };
    tx_seq_num_end = update manager.tx_seq_num_end dst_node_id end;
    active_tx_nodes = queue;
    tx_buffer_level = level;
    max_tx_buffer_level = max manager.max_tx_buffer_level level;
    allocated_packet = none;
  })

-- `submitAllocatedTxPacket`. `ttl` and `ttl_after` are what its two reads of `*masterDstNodeTTL`
-- give; another thread may write it in between. A node does not read it.
unfoldable pub submit_allocated_tx_packet :
    TxManager → Bool → ℕ → ℕ → ℕ → ℕ → ℕ → ℕ → Option TxManager
submit_allocated_tx_packet manager is_master ttl ttl_after src_node_id dst_node_id packet_type
      data_size =
    if is_master && (ttl == 0) then some (record manager { allocated_packet = none }) else do
      submitted ← store_allocated manager is_master src_node_id dst_node_id packet_type data_size
      if is_master && (ttl_after == 0)
          then (do removed ← master_tx_manager_remove_node submitted dst_node_id 0; some removed.1)
          else some submitted

-- The array after the loop of `initTxManager` over the first `n` nodes
abbrev pub fill_first : ℕ → ℕ → (ℕ → ℕ) → ℕ → ℕ
fill_first n v f i = if ltb i n then v else f i

-- `initTxManager`, with what the arrays and the packets hold before
unfoldable pub init_tx_manager :
    TxManager → ℕ → Option NodeQueue → ℕ → (ℕ → PacketEntry) → TxManager
init_tx_manager before max_tx_nodes active_tx_nodes max_entries entries = record {
  allocated_packet = none;
  packet_store = record {
    entries = λ i. if ltb i max_entries then record (entries i) { in_use = false } else entries i;
    max_entries = max_entries;
    num_stored = 0;
    num_freed = 0;
  };
  tx_seq_num_start = fill_first max_tx_nodes 0 before.tx_seq_num_start;
  tx_seq_num_end = fill_first max_tx_nodes 0 before.tx_seq_num_end;
  tx_seq_num_next = fill_first max_tx_nodes 0 before.tx_seq_num_next;
  tx_seq_num_pause_count = fill_first max_tx_nodes 0 before.tx_seq_num_pause_count;
  rx_seq_num = fill_first max_tx_nodes null_sequence_num before.rx_seq_num;
  max_tx_nodes = max_tx_nodes;
  max_tx_buffer_level = 0;
  tx_buffer_level = 0;
  active_tx_nodes = active_tx_nodes;
  last_tx_queue_index = 0;
  last_tx_queue_count = 0;
}

-- What `memset` to 0 leaves.
abbrev pub zero_tx_manager : TxManager
zero_tx_manager = record {
  allocated_packet = none;
  packet_store = record {
    entries = λ i. zero_entry;
    max_entries = 0;
    num_stored = 0;
    num_freed = 0;
  };
  tx_seq_num_start = λ i. 0;
  tx_seq_num_end = λ i. 0;
  tx_seq_num_next = λ i. 0;
  tx_seq_num_pause_count = λ i. 0;
  rx_seq_num = λ i. 0;
  max_tx_nodes = 0;
  max_tx_buffer_level = 0;
  tx_buffer_level = 0;
  active_tx_nodes = none;
  last_tx_queue_index = 0;
  last_tx_queue_count = 0;
}
