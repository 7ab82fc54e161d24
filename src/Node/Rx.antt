-- ===== src/Node/Rx.antt =====
-- src/node.c: what a node does with a packet of the master.
use microbus.Common.{
  ℕ, zero, suc, ◌+◌, Bool, true, false, not, ◌&&◌, ◌||◌, ltb, ◌==◌, if◌then◌else◌, Option, none,
  some, ◌>>=◌, ◌>>◌, assert,
}
use microbus.Packet.{
  Packet, microbus_version, master_node_id, unallocated_node_id, max_tx_nodes_scheduled,
  master_data_packet, new_node_response_packet, master_reset_packet, next_tx_node_id_at,
  next_tx_node_ack_seq_num_at, dst_node_id_at, get_protocol_version, get_packet_type, set_in_use,
}
use microbus.Stats.{incr64, incr32}
use microbus.RxManager.{find_free_rx_packet, add_rx_data_packet}
use microbus.TxManager.Ack.{rx_ack_seq_num, rx_packet_check_and_update_seq_num}
use microbus.NetworkManager.Join.{rx_new_node_packet_response}
use microbus.Node.{Node, node_remove_from_network}

-- The loop of `nodeQuickProcessPrevRx` over the acknowledgements, with the rounds left and the index:
-- the last one for the node
pub saved_ack_from : (ℕ → ℕ) → ℕ → ℕ → ℕ → Option ℕ → Option ℕ
saved_ack_from body node_id zero i saved = saved
saved_ack_from body node_id (suc n) i saved = saved_ack_from body node_id n (i + 1) (
    if body (next_tx_node_id_at i) == node_id
    then some (body (next_tx_node_ack_seq_num_at i))
    else saved)

-- `nodeQuickProcessPrevRx`: the record of the master's schedule and of the acknowledgement
unfoldable pub record_schedule : Node → Packet → Node
unfolding saved_ack_from
record_schedule node p =
    let scheduled = record node {
      next_tx_node_id = λ i.
          if ltb i max_tx_nodes_scheduled
          then p.body (next_tx_node_id_at i)
          else node.next_tx_node_id i;
    } in
    if node.node_id == unallocated_node_id
    then scheduled
    else elim (saved_ack_from p.body node.node_id max_tx_nodes_scheduled 0 none) [
      | none ↦ scheduled
      | some ack ↦ record scheduled { saved_rx_ack_valid = true; saved_rx_ack = ack }
    ]

-- `nodeQuickProcessPrevRx`: a packet for this node
unfoldable pub take_packet : Node → Packet → Node
take_packet node p =
    let counted = record node {
      valid_rx_packet = true;
      stats = record (node.stats) { rx_valid = incr64 node.stats.rx_valid };
    } in
    let found = find_free_rx_packet node.rx_packet_manager in
    elim found.0 [
      | none ↦ record counted {
        stats = record (counted.stats) { rx_buffer_full = incr64 counted.stats.rx_buffer_full };
        rx_packet_manager = found.1;
        valid_rx_packet = false;
      }
      | some e ↦
          let moved = record counted {
            rx_packet_manager = found.1;
            next_rx_packet_entry = e;
            valid_rx_seq_num = true;
          } in
          if not (node.node_id == unallocated_node_id) && (get_packet_type p == master_data_packet)
          then (let r =
                rx_packet_check_and_update_seq_num node.tx_manager master_node_id p.tx_seq_num in
              record moved { tx_manager = r.1; valid_rx_seq_num = r.0 })
          else moved
    ]

-- `nodeQuickProcessPrevRx`. Its last assertion, that there is memory for the next packet, holds of
-- every node that `nodeInit` made.
unfoldable pub node_quick_process_prev_rx : Node → Bool → Option Node
unfolding record_schedule take_packet
node_quick_process_prev_rx node rx_crc_error =
    let node' = record node {
      prev_rx_packet_entry = some node.next_rx_packet_entry;
      valid_rx_packet = false;
      saved_rx_ack_valid = false;
    } in
    let p = (node.rx_packet_manager.rx_packet_entries node.next_rx_packet_entry).packet in
    let first = p.protocol_version_and_packet_type in
    let stats = node.stats in
    if not node.initialised
    then some node
    else if rx_crc_error
    then some
        (record node' { stats = record stats { rx_crc_failures = incr64 stats.rx_crc_failures } })
    else if first == 0 || first == 255
    then some node'
    else if not (get_protocol_version p == microbus_version)
    then some (record node' {
      stats = record stats { rx_invalid_protocol = incr64 stats.rx_invalid_protocol };
    })
    else if get_packet_type p == master_reset_packet
    then node_remove_from_network node'
    else if p.body dst_node_id_at == node.node_id
    then some (take_packet (record_schedule node' p) p)
    else some (record_schedule node' p)

-- `nodeProcessRxData`: the answer to a request to join
unfoldable pub process_response : Node → Packet → Node
process_response node p =
    if (get_packet_type p == new_node_response_packet) && node.sent_new_node_request
    then (let joined = rx_new_node_packet_response p node.unique_id (record {
      node_id = node.node_id;
      time_to_live = node.time_to_live;
      node_joined = node.stats.node_joined_nw;
    }) in
        record node {
          node_id = joined.node_id;
          time_to_live = joined.time_to_live;
          stats = record (node.stats) {
            new_node_allocated_rx = incr32 node.stats.new_node_allocated_rx;
            node_joined_nw = joined.node_joined;
          };
        })
    else node

-- `nodeProcessRxData`: a packet for a node that has joined, with whether it was stored
unfoldable pub process_for_us : Node → ℕ → Packet → Option (Bool × Node)
process_for_us node e p =
    if not (p.body dst_node_id_at == node.node_id)
    then some (false, node)
    else if get_packet_type p == master_data_packet
    then (do
      assert (ltb 0 p.data_size1 || ltb 0 p.data_size2)
      if node.valid_rx_seq_num
          then (do
            rpm ← add_rx_data_packet node.rx_packet_manager e
            some (
              true,
              record node {
                rx_packet_manager = rpm;
                stats = record (node.stats) { rx_data_packets = incr64 node.stats.rx_data_packets };
              },
            ))
          else some (false, node))
    else some (
      false,
      record node {
        stats = record (node.stats) {
          rx_invalid_packet_type = incr64 node.stats.rx_invalid_packet_type;
        };
      },
    )

-- `nodeProcessRxData`
unfoldable pub node_process_rx_data : Node → ℕ → Option Node
unfolding process_response process_for_us
node_process_rx_data node e = do
  let p = (node.rx_packet_manager.rx_packet_entries e).packet
  let counted = record node {
    stats = record (node.stats) { rx_packet_entries = incr64 node.stats.rx_packet_entries };
  }
  r ←
      (if node.node_id == unallocated_node_id
        then some (false, process_response counted p)
        else process_for_us counted e p)
  let rpm = r.1.rx_packet_manager
  some (
      if r.0 then r.1 else record (r.1) {
        rx_packet_manager = record rpm {
          rx_packet_entries = set_in_use rpm.rx_packet_entries e false;
        };
      })

-- `nodeProcessRx`: the acknowledgement that was saved
unfoldable pub process_saved_ack : Node → Option Node
process_saved_ack node =
    if node.saved_rx_ack_valid
    then (do
      r ←
          rx_ack_seq_num node.tx_manager master_node_id node.saved_rx_ack false
            node.stats.tx_window_restarts
      some (record node {
        tx_manager = r.2;
        stats = record (node.stats) { tx_window_restarts = r.1 };
      }))
    else some node

-- `nodeProcessRx`
unfoldable pub node_process_rx : Node → Option Node
unfolding process_saved_ack node_process_rx_data
node_process_rx node = do
  acked ← process_saved_ack node
  if acked.valid_rx_packet
      then (do e ← acked.prev_rx_packet_entry; node_process_rx_data acked e)
      else some acked
