-- ===== src/Node/User.antt =====
-- src/node.c: what the user's thread calls on a node.
use microbus.Common.{ℕ, false, ltb, leb, if◌then◌else◌, Option, none, some, ◌>>=◌, ◌>>◌, assert}
use microbus.Packet.{master_node_id, node_data_packet, packet_data_size, get_packet_data_size}
use microbus.Stats.{incr64}
use microbus.Ring.{circular_buffer_empty}
use microbus.RxManager.{pop_next_data_packet}
use microbus.TxManager.{allocate_tx_packet, submit_allocated_tx_packet}
use microbus.Node.{Node}

-- `nodeAllocateTxPacketFull`
unfoldable pub node_allocate_tx_packet_full : Node → Option (Option ℕ × Node)
node_allocate_tx_packet_full node = do
  r ← allocate_tx_packet node.tx_manager
  let node' = record node { tx_manager = r.1 }
  some (elim r.0 [
    | some e ↦ (some e, node')
    | none ↦ (
      none,
      record node' {
        stats = record (node.stats) { tx_buffer_full = incr64 node.stats.tx_buffer_full };
      },
    )
  ])

-- `nodeSubmitAllocatedTxPacket`
unfoldable pub node_submit_allocated_tx_packet : Node → ℕ → Option Node
node_submit_allocated_tx_packet node num_bytes = do
  assert (leb num_bytes packet_data_size)
  _ ← node.tx_manager.allocated_packet
  manager ←
      submit_allocated_tx_packet node.tx_manager false 0 0 node.node_id master_node_id
        node_data_packet num_bytes
  some (record node { tx_manager = manager })

-- `nodePeekNextRxDataPacketFull`
unfoldable pub node_peek_next_rx_data_packet_full : Node → Option (Option ℕ)
node_peek_next_rx_data_packet_full node =
    let rpm = node.rx_packet_manager in
    if circular_buffer_empty rpm.start rpm.end rpm.max_rx_packet_entries
    then some none
    else do e ← rpm.rx_packet_queue rpm.start; some (some e)

-- `nodePeekNextRxDataPacket`: the entry with its size and its source
unfoldable pub node_peek_next_rx_data_packet : Node → Option (Option (ℕ × ℕ × ℕ))
node_peek_next_rx_data_packet node = do
  found ← node_peek_next_rx_data_packet_full node
  elim found [
    | none ↦ some none
    | some e ↦ do
      let size = get_packet_data_size (node.rx_packet_manager.rx_packet_entries e).packet
      assert (ltb 0 size)
      some (some (e, size, master_node_id))
  ]

-- `nodePopNextDataPacket`, whose body is that of `popNextDataPacket`
unfoldable pub node_pop_next_data_packet : Node → Option Node
node_pop_next_data_packet node = do
  rpm ← pop_next_data_packet node.rx_packet_manager
  some (record node { rx_packet_manager = rpm })
