-- ===== src/Ring/Tests.antt =====
-- The circular buffer and the packet header of src/microbus.h at concrete values.
use microbus.Common.{◌+◌, ◌<◌, ◌≡◌, ◌↔◌, refl, true, none, arith}
use microbus.Packet.{
  set_protocol_version_and_packet_type, set_packet_data_size, get_packet_type, get_packet_data_size,
  get_protocol_version, zero_packet,
}
use microbus.Packet.Laws.{header_roundtrip}
use microbus.Ring.{
  incr_and_wrap, decr_and_wrap, circular_buffer_full, circular_buffer_empty, circular_buffer_length,
  append_tail,
}
use microbus.Ring.Laws.{wrap_is_mod, length_lem}

full_refuses : append_tail 0 4 5 ≡ none
unfolding append_tail
full_refuses = refl

wrap_is_mod_example : (incr_and_wrap 4 1 5 ≡ 0) × (decr_and_wrap 4 1 5 ≡ 3)
wrap_is_mod_example = wrap_is_mod 4 1 5 (omega arith) (omega arith)

length_lem_example :
    (circular_buffer_length 4 2 5 ≡ 3)
    × (circular_buffer_length 4 2 5 < 5)
    × ((circular_buffer_empty 4 2 5 ≡ true) ↔ (circular_buffer_length 4 2 5 ≡ 0))
    × ((circular_buffer_full 4 2 5 ≡ true) ↔ (circular_buffer_length 4 2 5 + 1 ≡ 5))
length_lem_example = length_lem 4 2 5 (omega arith) (omega arith)

header_roundtrip_example :
    let q = set_packet_data_size (set_protocol_version_and_packet_type zero_packet 2) 177 in
    (get_protocol_version q ≡ 1)
    × (get_packet_type q ≡ 2)
    × (get_packet_data_size q ≡ 177)
    × (q.tx_seq_num ≡ 0)
    × (q.body ≡ zero_packet.body)
header_roundtrip_example = header_roundtrip zero_packet 2 177 (omega arith) (omega arith)
