-- ===== src/Node/Tx.antt =====
-- src/node.c: what a node sends.
use microbus.Common.{
  ℕ, ◌+◌, ◌-◌, ◌/◌, ◌%◌, Bool, true, false, ◌||◌, leb, ◌==◌, if◌then◌else◌, Option, none, some,
  ◌>>=◌, update, u8,
}
use microbus.Packet.{
  Packet, max_nodes, master_node_id, unallocated_node_id, null_sequence_num, node_data_packet,
  node_empty_packet, new_node_request_packet, ack_seq_num_at, src_node_id_at, buffer_level_at,
  put_byte, set_protocol_version_and_packet_type, set_packet_data_size, get_packet_type, TxPacket,
  no_packet, tmp, entry, empty_header,
}
use microbus.Stats.{incr64, incr32}
use microbus.TxManager.Transmit.{node_get_next_tx_data_packet}
use microbus.TxManager.Ack.{get_num_in_tx_buffer}
use microbus.NetworkManager.NodeSide.{node_nw_record_tx_packet_sent}
use microbus.NetworkManager.Join.{tx_new_node_request}
use microbus.Node.{Node, tx_packet_at, put_tx_packet, custom_rand}

-- `MAX_NEW_NODE_BACKOFF`
abbrev pub max_new_node_backoff : ℕ
max_new_node_backoff = max_nodes / 2

-- `nodeProcessTx`: an empty packet in one of two headers
unfoldable pub empty_packet : Node → TxPacket × Node
empty_packet node =
    let next = u8 (node.tmp_packet_cycle + 1) in
    let cycle = if leb 2 next then 0 else next in
    let headed =
      set_packet_data_size
        (set_protocol_version_and_packet_type (node.tmp_empty_packet_header cycle)
          node_empty_packet)
        0 in
    let p =
      record (put_byte (put_byte headed src_node_id_at node.node_id) ack_seq_num_at
        (node.tx_manager.rx_seq_num master_node_id)) { tx_seq_num = null_sequence_num } in
    (
      empty_header cycle,
      record node {
        tmp_packet_cycle = cycle;
        tmp_empty_packet_header = update node.tmp_empty_packet_header cycle p;
      },
    )

-- `nodeProcessTx`: the packet of a node that has joined
unfoldable pub prepare_packet : Node → Option Node
unfolding empty_packet
prepare_packet node = do
  r ← node_get_next_tx_data_packet node.tx_manager
  let got = record node { tx_manager = r.1 }
  let chosen : TxPacket × Node = elim r.0 [ some e ↦ (entry e, got) | none ↦ empty_packet got ]
  let (packet, node') = chosen
  p ← tx_packet_at node' packet
  some
      (record (put_tx_packet node' packet
        (put_byte p buffer_level_at (get_num_in_tx_buffer node'.tx_manager master_node_id))) {
          next_tx_packet = packet;
        })

-- `nodeProcessTx`: the request of a node that has not joined, or one slot less to wait for it
unfoldable pub prepare_request : Node → Node
unfolding custom_rand
prepare_request node =
    if node.next_new_node_response_countdown == 0
    then (let (random, seed) = custom_rand node.seed in
        record node {
          stats = record (node.stats) { new_node_request = incr32 node.stats.new_node_request };
          sent_new_node_request = true;
          tmp_packet = tx_new_node_request node.tmp_packet node.unique_id;
          next_new_node_response_countdown = random % max_new_node_backoff;
          seed = seed;
          next_tx_packet = tmp;
        })
    else record node {
      next_new_node_response_countdown = node.next_new_node_response_countdown - 1;
      next_tx_packet = no_packet;
    }

-- `nodeProcessTx`: the packet that waits is one to keep trying
abbrev pub keeps_trying : Option Packet → Bool
keeps_trying none = false
keeps_trying (some p) =
    get_packet_type p == node_data_packet || get_packet_type p == new_node_request_packet

-- `nodeProcessTx`
unfoldable pub node_process_tx : Node → Option Node
unfolding prepare_packet prepare_request
node_process_tx node =
    if keeps_trying (tx_packet_at node node.next_tx_packet)
    then some node
    else if node.node_id == unallocated_node_id
    then some (prepare_request node)
    else prepare_packet node

-- `nodeQuickUpdateTxPacket`
unfoldable pub node_quick_update_tx_packet : Node → Node
node_quick_update_tx_packet node = elim (tx_packet_at node node.next_tx_packet) [
  | none ↦ node
  | some p ↦
      put_tx_packet node node.next_tx_packet
        (put_byte p ack_seq_num_at (node.tx_manager.rx_seq_num master_node_id))
]

-- `nodeGetTxPacket`: the packet that goes out
unfoldable pub send_packet : Node → Packet → TxPacket × Node
unfolding node_quick_update_tx_packet
send_packet node p =
    let updated = node_quick_update_tx_packet node in
    (
      node.next_tx_packet,
      record updated {
        next_tx_packet = no_packet;
        time_to_live = node_nw_record_tx_packet_sent;
        stats = record (node.stats) {
          tx_packets = incr64 node.stats.tx_packets;
          tx_data_packets =
              if get_packet_type p == node_data_packet
              then incr64 node.stats.tx_data_packets
              else node.stats.tx_data_packets;
        };
      },
    )

-- `nodeGetTxPacket`
unfoldable pub node_get_tx_packet : Node → TxPacket × Node
unfolding send_packet custom_rand
node_get_tx_packet node = elim (tx_packet_at node node.next_tx_packet) [
  | none ↦ (no_packet, node)
  | some p ↦
      if node.node_id == unallocated_node_id
      then if node.next_new_node_response_countdown == 0
        then (let (random, seed) = custom_rand node.seed in
            send_packet
              (record node {
                stats = record (node.stats) {
                  new_node_request = incr32 node.stats.new_node_request;
                };
                next_new_node_response_countdown = random % max_new_node_backoff;
                seed = seed;
              })
              p)
        else (
          no_packet,
          record node {
            next_new_node_response_countdown = node.next_new_node_response_countdown - 1;
          },
        )
      else send_packet node p
]
