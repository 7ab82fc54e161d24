-- ===== src/NetworkManager/Request.antt =====
-- The request to join of src/networkManager.c: what a node writes and what the master reads.
use microbus.Common.{ℕ, zero, suc, ◌+◌, ◌*◌, ◌/◌, ◌%◌, ◌<◌, ◌≡◌, refl, ap, ◌∙◌, update, arith}
use microbus.Packet.{
  Packet, data_at, src_node_id_at, put_byte, unallocated_node_id, new_node_request_packet,
  set_protocol_version_and_packet_type,
}
use microbus.NetworkManager.{NetworkManager, network_manager_register_new_node}
use microbus.NetworkManager.Join.{
  put_bytes, get_bytes, tx_new_node_request, rx_new_node_packet_request,
}

-- The first number that `n` bytes do not hold.
abbrev pub byte_limit : ℕ → ℕ
byte_limit zero = 1
byte_limit (suc n) = 256 * byte_limit n

pub put_bytes_below : (n at v j : ℕ) (body : ℕ → ℕ) → j < at → put_bytes n at v body j ≡ body j
unfolding put_bytes
put_bytes_below zero at v j body lt = refl
put_bytes_below (suc n) at v j body lt =
    put_bytes_below n (at + 1) (v / 256) j (update body at (v % 256)) (omega arith) ∙ ground arith

pub get_bytes-put_bytes :
    (n at v : ℕ) (body : ℕ → ℕ) → v < byte_limit n → get_bytes n at (put_bytes n at v body) ≡ v
unfolding put_bytes get_bytes
get_bytes-put_bytes zero at v body lt = omega arith
get_bytes-put_bytes (suc n) at v body lt =
    let low : put_bytes n (at + 1) (v / 256) (update body at (v % 256)) at ≡ v % 256 =
      put_bytes_below n (at + 1) (v / 256) at (update body at (v % 256)) (omega arith)
      ∙ ground arith in
    let high = get_bytes-put_bytes n (at + 1) (v / 256) (update body at (v % 256)) (omega arith) in
    omega (arith, low, high)

-- rxNewNodePacketRequest of what txNewNodeRequest wrote registers the node with the unique id that it
-- was called with, whatever the packet held before.
pub request_roundtrip :
    (nw : NetworkManager) (ttl : ℕ → ℕ) (p : Packet) (unique_id network_full_count : ℕ)
    → unique_id < 18446744073709551616
    → rx_new_node_packet_request nw ttl (tx_new_node_request p unique_id) network_full_count
      ≡ network_manager_register_new_node nw ttl unique_id network_full_count
unfolding tx_new_node_request rx_new_node_packet_request
request_roundtrip nw ttl p unique_id network_full_count lt =
    ap (λ v. network_manager_register_new_node nw ttl v network_full_count)
      (get_bytes-put_bytes 8 (data_at 0) unique_id
        (put_byte (set_protocol_version_and_packet_type p new_node_request_packet) src_node_id_at
          unallocated_node_id).body
        lt)
