-- ===== src/Node.antt =====
-- src/node.h, and of src/node.c how a node starts and how it leaves the network. The file's `seed` is
-- a field of the state.
pub mod Rx
pub mod Tx
pub mod Slot
pub mod User
use Prim.Native.Nat.{bit_xor}
use microbus.Common.{
  ℕ, ◌+◌, ◌*◌, ◌/◌, ◌%◌, Bool, true, false, ltb, ◌==◌, if◌then◌else◌, Option, none, some, ◌>>=◌,
  ◌>>◌, assert, update, u32,
}
use microbus.Packet.{
  Packet, PacketEntry, unallocated_node_id, src_node_id_at, put_byte, set_packet, zero_packet,
  TxPacket, no_packet, tmp, entry, empty_header,
}
use microbus.Stats.{NodeStats, zero_stats, incr32}
use microbus.RxManager.{RxPacketManager, find_free_rx_packet, rx_manager_init, zero_rx_manager}
use microbus.TxManager.{TxManager, init_tx_manager, zero_tx_manager}
use microbus.NetworkManager.NodeSide.{node_nw_has_node_timed_out}

-- `tNode`
pub record Node : Type 0 where
  pub initialised : Bool
  pub tx_manager : TxManager
  pub rx_packet_manager : RxPacketManager
  pub unique_id : ℕ
  pub node_id : ℕ
  pub current_tx_node_id : ℕ
  pub next_tx_node_id : ℕ → ℕ
  pub time_to_live : ℕ
  pub sent_new_node_request : Bool
  pub next_new_node_response_countdown : ℕ
  pub next_rx_packet_entry : ℕ
  pub prev_rx_packet_entry : Option ℕ
  pub next_tx_packet : TxPacket
  pub saved_rx_ack_valid : Bool
  pub saved_rx_ack : ℕ
  pub valid_rx_seq_num : Bool
  pub valid_rx_packet : Bool
  pub stats : NodeStats
  pub tmp_packet_cycle : ℕ
  pub tmp_empty_packet_header : ℕ → Packet
  pub tmp_packet : Packet
  pub seed : ℕ

-- A read and a write through `nextTxPacket`; `none` is a null pointer.
abbrev pub tx_packet_at : Node → TxPacket → Option Packet
tx_packet_at node no_packet = none
tx_packet_at node tmp = some node.tmp_packet
tx_packet_at node (entry e) = some (node.tx_manager.packet_store.entries e).packet
tx_packet_at node (empty_header i) = some (node.tmp_empty_packet_header i)

abbrev pub put_tx_packet : Node → TxPacket → Packet → Node
put_tx_packet node no_packet p = node
put_tx_packet node tmp p = record node { tmp_packet = p }
put_tx_packet node (entry e) p = record node {
  tx_manager = record (node.tx_manager) {
    packet_store = record (node.tx_manager.packet_store) {
      entries = set_packet node.tx_manager.packet_store.entries e p;
    };
  };
}
put_tx_packet node (empty_header i) p = record node {
  tmp_empty_packet_header = update node.tmp_empty_packet_header i p;
}

-- `customSrand`
unfoldable pub custom_srand : ℕ → ℕ
custom_srand s = if s == 0 then 1 else s

-- `customRand`: the number and the new seed
unfoldable pub custom_rand : ℕ → ℕ × ℕ
custom_rand seed = let next = u32 (seed * 1103515245 + 12345) in (next / 65536 % 32768, next)

-- `nodeInit`
unfoldable pub node_init : ℕ → ℕ → (ℕ → PacketEntry) → ℕ → Option Node
unfolding custom_srand
node_init unique_id max_tx_packet_entries tx_packet_entries max_rx_packet_entries = do
  assert (ltb 2 max_rx_packet_entries)
  let found = find_free_rx_packet (rx_manager_init zero_rx_manager max_rx_packet_entries)
  e ← found.0
  some (record {
    initialised = true;
    tx_manager = init_tx_manager zero_tx_manager 1 none max_tx_packet_entries tx_packet_entries;
    rx_packet_manager = found.1;
    unique_id = unique_id;
    node_id = unallocated_node_id;
    current_tx_node_id = 0;
    next_tx_node_id = λ i. 0;
    time_to_live = 0;
    sent_new_node_request = false;
    next_new_node_response_countdown = 0;
    next_rx_packet_entry = e;
    prev_rx_packet_entry = none;
    next_tx_packet = tmp;
    saved_rx_ack_valid = false;
    saved_rx_ack = 0;
    valid_rx_seq_num = false;
    valid_rx_packet = false;
    stats = zero_stats;
    tmp_packet_cycle = 0;
    tmp_empty_packet_header = λ i. zero_packet;
    tmp_packet = zero_packet;
    seed = custom_srand (bit_xor (unique_id % 4294967296) (unique_id / 4294967296));
  })

-- `nodeReset`
unfoldable pub node_reset : Node → Option Node
node_reset node =
    node_init node.unique_id node.tx_manager.packet_store.max_entries
      node.tx_manager.packet_store.entries node.rx_packet_manager.max_rx_packet_entries

-- `nodeRemoveFromNetwork`
unfoldable pub node_remove_from_network : Node → Option Node
node_remove_from_network node = if node.node_id == unallocated_node_id then some node else do
  reset ← node_reset node
  some (record reset {
    stats = record (reset.stats) {
      node_left_nw = incr32 node.stats.node_left_nw;
      node_joined_nw = node.stats.node_joined_nw;
    };
  })

-- `nodeCheckIfTimedOut`
unfoldable pub node_check_if_timed_out : Node → Option Node
node_check_if_timed_out node =
    if node_nw_has_node_timed_out node.time_to_live
    then node_remove_from_network node
    else some node
