-- ===== src/Node/Slot.antt =====
-- src/node.c: what a node runs in each slot, by the interrupt, and when its timer ticks.
use microbus.Common.{ℕ, ◌+◌, ◌-◌, Bool, false, not, ltb, ◌==◌, if◌then◌else◌, Option, some, ◌>>=◌}
use microbus.Packet.{max_tx_nodes_scheduled, invalid_node_id, TxPacket, no_packet}
use microbus.NetworkManager.NodeSide.{node_nw_update_time_us}
use microbus.Node.{Node, node_check_if_timed_out}
use microbus.Node.Rx.{node_quick_process_prev_rx, node_process_rx}
use microbus.Node.Tx.{node_process_tx, node_get_tx_packet}

-- `nodeUpdateSchedule`
unfoldable pub node_update_schedule : Node → Node
node_update_schedule node = record node {
  current_tx_node_id = node.next_tx_node_id 0;
  next_tx_node_id = λ i.
      if ltb i (max_tx_nodes_scheduled - 1)
      then node.next_tx_node_id (i + 1)
      else if i == max_tx_nodes_scheduled - 1
      then invalid_node_id
      else node.next_tx_node_id i;
}

-- `nodeDualChannelPipelinedPreProcess`. Where the source leaves `*txPacket` as the caller set it,
-- which the callers set to null, the packet is `no_packet`.
unfoldable pub node_dual_channel_pipelined_pre_process : Node → Bool → Option (TxPacket × Node)
unfolding node_update_schedule
node_dual_channel_pipelined_pre_process node crc_error =
    if not node.initialised then some (no_packet, node) else do
      received ← node_quick_process_prev_rx node crc_error
      let scheduled = node_update_schedule received
      some (
          if scheduled.current_tx_node_id == scheduled.node_id
          then node_get_tx_packet scheduled
          else (no_packet, scheduled))

-- `nodeDualChannelPipelinedPostProcess`
unfoldable pub node_dual_channel_pipelined_post_process : Node → Option Node
node_dual_channel_pipelined_post_process node = if not node.initialised then some node else do
  checked ← node_check_if_timed_out node
  received ← node_process_rx checked
  node_process_tx received

-- `nodeIsTxMode`
unfoldable pub node_is_tx_mode : Node → Option (Bool × Node)
unfolding node_update_schedule
node_is_tx_mode node = if not node.initialised then some (false, node) else do
  checked ← node_check_if_timed_out node
  some (node.current_tx_node_id == node.node_id, node_update_schedule checked)

-- `nodeNoDelaySingleChannelProcessRx`
unfoldable pub node_no_delay_single_channel_process_rx : Node → Bool → Option Node
node_no_delay_single_channel_process_rx node crc_error =
    if not node.initialised
    then some node
    else do received ← node_quick_process_prev_rx node crc_error; node_process_rx received

-- `nodeNoDelaySingleChannelProcessTx`
unfoldable pub node_no_delay_single_channel_process_tx : Node → Option (TxPacket × Node)
node_no_delay_single_channel_process_tx node =
    if not node.initialised
    then some (no_packet, node)
    else do prepared ← node_process_tx node; some (node_get_tx_packet prepared)

-- `nodeUpdateTimeUs`
unfoldable pub node_update_time_us : Node → ℕ → Node
node_update_time_us node us_incr = record node {
  time_to_live = node_nw_update_time_us node.time_to_live us_incr;
}
