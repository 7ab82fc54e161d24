-- ===== src/Packet.antt =====
-- src/microbus.h: the constants, the packet with its union of a master and a node layout, the macros
-- that read and write its header, and the packet entry.
pub mod Laws
use microbus.Common.{ℕ, ◌+◌, ◌*◌, ◌/◌, ◌%◌, ◌≤◌, ◌<◌, Bool, false, u8, update}

abbrev pub max_nodes : ℕ
max_nodes = 64

abbrev pub mb_packet_size : ℕ
mb_packet_size = 192

abbrev pub slot_time_us : ℕ
slot_time_us = 8 * mb_packet_size * 10 / 45

abbrev pub sliding_window_size : ℕ
sliding_window_size = 4

abbrev pub microbus_version : ℕ
microbus_version = 1

abbrev pub master_node_id : ℕ
master_node_id = 0

abbrev pub first_node_id : ℕ
first_node_id = 1

abbrev pub unallocated_node_id : ℕ
unallocated_node_id = 0xfe

abbrev pub invalid_node_id : ℕ
invalid_node_id = 0xff

-- `tPacketType`
abbrev pub null_packet : ℕ
null_packet = 0

abbrev pub master_data_packet : ℕ
master_data_packet = 1

abbrev pub node_data_packet : ℕ
node_data_packet = 2

abbrev pub master_empty_packet : ℕ
master_empty_packet = 3

abbrev pub node_empty_packet : ℕ
node_empty_packet = 4

abbrev pub new_node_request_packet : ℕ
new_node_request_packet = 5

abbrev pub new_node_response_packet : ℕ
new_node_response_packet = 6

abbrev pub master_reset_packet : ℕ
master_reset_packet = 7

abbrev pub max_tx_nodes_scheduled : ℕ
max_tx_nodes_scheduled = 4

-- `MB_PACKET_SIZE - MB_HEADER_SIZE`, of 192 and 6 + 2 * 4 bytes
abbrev pub packet_data_size : ℕ
packet_data_size = 178

-- `INVALID_SEQUENCE_NUM` and `NULL_SEQUENCE_NUM` are both 255, as is `MAX_SEQUENCE_NUM`.
abbrev pub null_sequence_num : ℕ
null_sequence_num = 255

abbrev pub max_sequence_num : ℕ
max_sequence_num = 255

-- `tPacket`. The union is its bytes: byte `i` of `body` is byte `i` of `tMasterPacket` and of
-- `tNodePacket`, both packed structs of bytes.
pub record Packet : Type 0 where
  pub protocol_version_and_packet_type : ℕ
  pub tx_seq_num : ℕ
  pub data_size1 : ℕ
  pub data_size2 : ℕ
  pub body : ℕ → ℕ

-- The offsets of the fields of `tMasterPacket`: `nextTxNodeId[4]`, `nextTxNodeAckSeqNum[4]`,
-- `dstNodeId`, `wirelessDstNodeId`, `data`.
abbrev pub next_tx_node_id_at : ℕ → ℕ
next_tx_node_id_at i = i

abbrev pub next_tx_node_ack_seq_num_at : ℕ → ℕ
next_tx_node_ack_seq_num_at i = 4 + i

abbrev pub dst_node_id_at : ℕ
dst_node_id_at = 8

-- The offsets of the fields of `tNodePacket`: `ackSeqNum`, `srcNodeId`, `srcWirelessNodeId`,
-- `bufferLevel`, `spare[6]`, `data`.
abbrev pub ack_seq_num_at : ℕ
ack_seq_num_at = 0

abbrev pub src_node_id_at : ℕ
src_node_id_at = 1

abbrev pub buffer_level_at : ℕ
buffer_level_at = 3

-- `data` starts at the same offset in both.
abbrev pub data_at : ℕ → ℕ
data_at i = 10 + i

abbrev pub put_byte : Packet → ℕ → ℕ → Packet
put_byte p i v = record p { body = update p.body i v }

-- `SET_PROTOCOL_VERSION_AND_PACKET_TYPE`. The two halves of the byte do not overlap, so `|` is `+`.
unfoldable pub set_protocol_version_and_packet_type : Packet → ℕ → Packet
set_protocol_version_and_packet_type p packet_type = record p {
  protocol_version_and_packet_type = u8 (microbus_version * 16 + packet_type % 16);
}

-- `SET_PACKET_DATA_SIZE`, of a `uint16_t`
unfoldable pub set_packet_data_size : Packet → ℕ → Packet
set_packet_data_size p data_size = record p {
  data_size1 = u8 (data_size / 256);
  data_size2 = u8 (data_size % 256);
}

unfoldable pub get_protocol_version : Packet → ℕ
get_protocol_version p = p.protocol_version_and_packet_type / 16 % 16

unfoldable pub get_packet_type : Packet → ℕ
get_packet_type p = p.protocol_version_and_packet_type % 16

unfoldable pub get_packet_data_size : Packet → ℕ
get_packet_data_size p = p.data_size1 * 256 + p.data_size2

-- `tPacketEntry`
pub record PacketEntry : Type 0 where
  pub in_use : Bool
  pub packet : Packet

-- A write of the `inUse` flag of one entry, and of its packet.
abbrev pub set_in_use : (ℕ → PacketEntry) → ℕ → Bool → ℕ → PacketEntry
set_in_use entries e b = update entries e (record (entries e) { in_use = b })

abbrev pub set_packet : (ℕ → PacketEntry) → ℕ → Packet → ℕ → PacketEntry
set_packet entries e p = update entries e (record (entries e) { packet = p })

-- What `memset` to 0 leaves.
abbrev pub zero_packet : Packet
zero_packet = record {
  protocol_version_and_packet_type = 0;
  tx_seq_num = 0;
  data_size1 = 0;
  data_size2 = 0;
  body = λ i. 0;
}

abbrev pub zero_entry : PacketEntry
zero_entry = record { in_use = false; packet = zero_packet }

-- What `nextTxPacket` of the master or of a node points to: nothing, the packet `tmpPacket`, a packet
-- of the store, or one of the headers `tmpEmptyPacketHeader`.
pub data TxPacket : Type 0 where
  no_packet tmp : TxPacket
  entry empty_header : ℕ → TxPacket
