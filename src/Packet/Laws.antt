-- ===== src/Packet/Laws.antt =====
-- The header macros of src/microbus.h read back what they write.
use microbus.Common.{ℕ, ◌<◌, ◌≡◌, arith}
use microbus.Packet.{
  Packet, microbus_version, set_protocol_version_and_packet_type, set_packet_data_size,
  get_protocol_version, get_packet_type, get_packet_data_size,
}

-- After a packet type below 16 and a size below 2 ^ 16 are set, in this order, the version read is
-- MICROBUS_VERSION, the type and the size are those set, and the sequence number and the body are
-- unchanged.
pub header_roundtrip :
    (p : Packet) (packet_type data_size : ℕ)
    → packet_type < 16
    → data_size < 65536
    → let q = set_packet_data_size (set_protocol_version_and_packet_type p packet_type) data_size in
      (get_protocol_version q ≡ microbus_version)
      × (get_packet_type q ≡ packet_type)
      × (get_packet_data_size q ≡ data_size)
      × (q.tx_seq_num ≡ p.tx_seq_num)
      × (q.body ≡ p.body)
unfolding set_protocol_version_and_packet_type set_packet_data_size get_protocol_version
    get_packet_type get_packet_data_size
header_roundtrip p packet_type data_size ht hs = ground arith
