-- ===== src/TxManager/Transmit.antt =====
-- src/txManager.c: which packet to send next, to one node, by a node and by the master.
use microbus.Common.{
  ℕ, zero, suc, ◌+◌, ◌-◌, Bool, true, false, ◌&&◌, ◌||◌, ltb, leb, ◌==◌, if◌then◌else◌, Option,
  none, some, ◌>>=◌, ◌>>◌, assert, update, u8,
}
use microbus.Packet.{master_node_id, sliding_window_size, ack_seq_num_at, put_byte, set_packet}
use microbus.NodeQueue.{NodeQueue}
use microbus.PacketStore.{find_packet_entry}
use microbus.TxManager.{TxManager, incr_sequence_num}

-- The assertion of `getNextTxPacketForNode`
abbrev pub next_in_range : ℕ → ℕ → ℕ → Bool
next_in_range start end next =
    if leb start end then leb start next && leb next end else leb start next || leb next end

-- `getNextTxPacketForNode`
unfoldable pub get_next_tx_packet_for_node : TxManager → Bool → ℕ → Option (Option ℕ × TxManager)
get_next_tx_packet_for_node manager is_master dst_node_id =
    let start = manager.tx_seq_num_start dst_node_id in
    let end = manager.tx_seq_num_end dst_node_id in
    let next = manager.tx_seq_num_next dst_node_id in
    if ltb 0 (manager.tx_seq_num_pause_count dst_node_id)
    then some (none, manager)
    else if start == end
    then some (none, manager)
    else do
      assert (next_in_range start end next)
      if next == end || next == u8 (start + sliding_window_size)
          then some (
            none,
            record manager {
              tx_seq_num_pause_count = update manager.tx_seq_num_pause_count dst_node_id 2;
            },
          )
          else do
            e ← find_packet_entry manager.packet_store dst_node_id next is_master
            some (
              some e,
              record manager {
                tx_seq_num_next =
                    update manager.tx_seq_num_next dst_node_id (incr_sequence_num next);
              },
            )

-- `nodeGetNextTxDataPacket`
unfoldable pub node_get_next_tx_data_packet : TxManager → Option (Option ℕ × TxManager)
node_get_next_tx_data_packet manager =
    if manager.tx_seq_num_start master_node_id == manager.tx_seq_num_end master_node_id
    then some (none, manager)
    else do
      r ← get_next_tx_packet_for_node manager false master_node_id
      some (elim r.0 [
        | none ↦ r
        | some e ↦
            let store = r.1.packet_store in
            (
              some e,
              record (r.1) {
                packet_store = record store {
                  entries = set_packet store.entries e (
                      put_byte (store.entries e).packet ack_seq_num_at
                        (manager.rx_seq_num master_node_id));
                };
              },
            )
      ])

-- The do-while loop of `masterGetNextTxDataPacket`, with the rounds left and the index. It comes
-- back to `last` after as many rounds as the queue has nodes.
pub next_from : NodeQueue → ℕ → ℕ → ℕ → TxManager → Option (ℕ × Option ℕ × TxManager)
next_from q last zero i manager = none
next_from q last (suc n) i manager =
    let at = if leb q.num_nodes (i + 1) then 0 else i + 1 in
    do
      r ← get_next_tx_packet_for_node manager true (q.node_ids at)
      elim r.0 [
        | some e ↦ some (at, some e, r.1)
        | none ↦ elim (at == last) [
          | true ↦ some (at, none, r.1)
          | false ↦ next_from q last n at r.1
        ]
      ]

-- `masterGetNextTxDataPacket` from where it leaves the burst
unfoldable pub next_round : TxManager → NodeQueue → ℕ → Option (Option ℕ × TxManager)
unfolding next_from
next_round manager q last = do
  r ← next_from q last q.num_nodes last manager
  let moved = record (r.2) { last_tx_queue_index = u8 r.0 }
  some (elim r.1 [
    | some e ↦ (some e, record moved { last_tx_queue_count = 1 })
    | none ↦ (none, moved)
  ])

-- `masterGetNextTxDataPacket`
unfoldable pub master_get_next_tx_data_packet : TxManager → ℕ → Option (Option ℕ × TxManager)
master_get_next_tx_data_packet manager burst_size = do
  q ← manager.active_tx_nodes
  let last =
      if leb q.num_nodes manager.last_tx_queue_index
      then q.num_nodes - 1
      else manager.last_tx_queue_index
  if q.num_nodes == 0
      then some (none, manager)
      else if ltb 1 burst_size && ltb manager.last_tx_queue_count burst_size
      then (do
        r ← get_next_tx_packet_for_node manager true (q.node_ids last)
        elim r.0 [
          | some e ↦
              some (
                some e,
                record (r.1) { last_tx_queue_count = u8 (manager.last_tx_queue_count + 1) },
              )
          | none ↦ next_round r.1 q last
        ])
      else next_round manager q last
