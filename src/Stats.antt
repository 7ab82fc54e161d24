-- ===== src/Stats.antt =====
-- src/microbus.h: the counters of a node or of the master.
use microbus.Common.{ℕ, ◌+◌, u32, u64}

-- `tNodeStats`
pub record NodeStats : Type 0 where
  pub tx_packets : ℕ
  pub tx_data_packets : ℕ
  pub empty_rx : ℕ
  pub rx_valid : ℕ
  pub rx_packet_entries : ℕ
  pub rx_node_packets : ℕ
  pub rx_data_packets : ℕ
  pub rx_crc_failures : ℕ
  pub rx_invalid_protocol : ℕ
  pub rx_invalid_data_size : ℕ
  pub rx_invalid_packet_type : ℕ
  pub rx_buffer_full : ℕ
  pub tx_buffer_full : ℕ
  pub tx_window_restarts : ℕ
  pub node_left_nw : ℕ
  pub node_joined_nw : ℕ
  pub network_full_count : ℕ
  pub new_node_request : ℕ
  pub new_node_request_rx : ℕ
  pub new_node_allocated : ℕ
  pub new_node_allocated_rx : ℕ

-- `++` on a `uint64_t` and on a `uint32_t` counter
abbrev pub incr64 : ℕ → ℕ
incr64 n = u64 (n + 1)

abbrev pub incr32 : ℕ → ℕ
incr32 n = u32 (n + 1)

abbrev pub zero_stats : NodeStats
zero_stats = record {
  tx_packets = 0;
  tx_data_packets = 0;
  empty_rx = 0;
  rx_valid = 0;
  rx_packet_entries = 0;
  rx_node_packets = 0;
  rx_data_packets = 0;
  rx_crc_failures = 0;
  rx_invalid_protocol = 0;
  rx_invalid_data_size = 0;
  rx_invalid_packet_type = 0;
  rx_buffer_full = 0;
  tx_buffer_full = 0;
  tx_window_restarts = 0;
  node_left_nw = 0;
  node_joined_nw = 0;
  network_full_count = 0;
  new_node_request = 0;
  new_node_request_rx = 0;
  new_node_allocated = 0;
  new_node_allocated_rx = 0;
}
