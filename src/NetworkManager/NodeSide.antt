-- ===== src/NetworkManager/NodeSide.antt =====
-- src/networkManager.c, the node's part: its own time to live, an `int32_t` as its bit pattern.
use microbus.Common.{ℕ, ◌+◌, ◌-◌, Bool, ◌&&◌, ◌||◌, ltb, leb, ◌==◌, if◌then◌else◌, u32}
use microbus.NetworkManager.{node_timeout_us}

-- `nodeNwRecordTxPacketSent`
abbrev pub node_nw_record_tx_packet_sent : ℕ
node_nw_record_tx_packet_sent = node_timeout_us

-- `nodeNwHasNodeTimedOut`: zero or negative
unfoldable pub node_nw_has_node_timed_out : ℕ → Bool
node_nw_has_node_timed_out time_to_live = time_to_live == 0 || leb 2147483648 time_to_live

-- `nodeNwUpdateTimeUs`
unfoldable pub node_nw_update_time_us : ℕ → ℕ → ℕ
node_nw_update_time_us time_to_live us_incr =
    if ltb 0 time_to_live && ltb time_to_live 2147483648
    then u32 (time_to_live + 4294967296 - us_incr)
    else time_to_live
