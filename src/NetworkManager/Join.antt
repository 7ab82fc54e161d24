-- ===== src/NetworkManager/Join.antt =====
-- src/networkManager.c: the packets by which nodes join. `memcpy` of a `uint64_t` copies its bytes
-- lowest first, as on the little-endian controllers that the code is for.
use microbus.Common.{
  ℕ, zero, suc, ◌+◌, ◌*◌, ◌/◌, ◌%◌, true, false, ltb, ◌==◌, if◌then◌else◌, Option, none, some, ◌>>◌,
  assert, update, u8, u32, min,
}
use microbus.Packet.{
  Packet, unallocated_node_id, packet_data_size, new_node_request_packet, new_node_response_packet,
  src_node_id_at, dst_node_id_at, data_at, put_byte, set_protocol_version_and_packet_type,
  set_packet_data_size, get_packet_data_size,
}
use microbus.NetworkManager.{
  NetworkManager, Registered, max_nodes_allocated_at_once, node_timeout_us,
  network_manager_register_new_node,
}

-- `NEW_NODE_RESPONSE_ENTRY_SIZE`
abbrev pub new_node_response_entry_size : ℕ
new_node_response_entry_size = 9

-- `memcpy` of the `n` low bytes of a number to a place in the body of a packet, and back.
unfoldable pub put_bytes : ℕ → ℕ → ℕ → (ℕ → ℕ) → ℕ → ℕ
put_bytes zero at v body = body
put_bytes (suc n) at v body = put_bytes n (at + 1) (v / 256) (update body at (v % 256))

unfoldable pub get_bytes : ℕ → ℕ → (ℕ → ℕ) → ℕ
get_bytes zero at body = 0
get_bytes (suc n) at body = body at + 256 * get_bytes n (at + 1) body

-- `txNewNodeRequest`
unfoldable pub tx_new_node_request : Packet → ℕ → Packet
unfolding put_bytes set_protocol_version_and_packet_type
tx_new_node_request p unique_id =
    let headed =
      put_byte (set_protocol_version_and_packet_type p new_node_request_packet) src_node_id_at
        unallocated_node_id in
    record headed {
      data_size1 = 0;
      data_size2 = 9;
      body = put_bytes 8 (data_at 0) unique_id headed.body;
    }

-- `rxNewNodePacketRequest`
unfoldable pub rx_new_node_packet_request :
    NetworkManager → (ℕ → ℕ) → Packet → ℕ → Option Registered
unfolding get_bytes
rx_new_node_packet_request nw ttl p network_full_count = do
  assert (p.data_size2 == 9)
  network_manager_register_new_node nw ttl (get_bytes 8 (data_at 0) p.body) network_full_count

-- One entry of the response: the unique id and the node id.
abbrev pub put_entry : ℕ → ℕ → ℕ → (ℕ → ℕ) → ℕ → ℕ
put_entry num unique_id node_id body =
    let at = num * new_node_response_entry_size in
    update (put_bytes 8 (data_at at) unique_id body) (data_at (8 + at)) node_id

-- The loop of `txNewNodeResponse`, with the rounds left and the index: the body and `num`.
unfoldable pub entries_from : NetworkManager → ℕ → ℕ → ℕ → ℕ → (ℕ → ℕ) → (ℕ → ℕ) × ℕ
entries_from nw max_num zero i num body = (body, num)
entries_from nw max_num (suc n) i num body =
    let unique_id = nw.new_node_unique_id i in
    let body' = put_entry num unique_id (nw.new_node_id i) body in
    elim (ltb 0 unique_id) [
      | true ↦ elim (num + 1 == max_num) [
        | true ↦ (body', num + 1)
        | false ↦ entries_from nw max_num n (i + 1) (num + 1) body'
      ]
      | false ↦ entries_from nw max_num n (i + 1) num body
    ]

-- `txNewNodeResponse`
unfoldable pub tx_new_node_response : NetworkManager → Packet → Packet
unfolding entries_from put_bytes set_protocol_version_and_packet_type set_packet_data_size
tx_new_node_response nw p =
    let headed =
      put_byte (set_protocol_version_and_packet_type p new_node_response_packet) dst_node_id_at
        unallocated_node_id in
    let max_num = min nw.num_new_nodes (packet_data_size / new_node_response_entry_size) in
    let filled = entries_from nw max_num max_nodes_allocated_at_once 0 0 headed.body in
    set_packet_data_size (record headed { body = filled.0 })
      (filled.1 * new_node_response_entry_size)

-- The loop of `rxNewNodePacketResponse`, with the rounds left and the index: the node id of the
-- first entry for the unique id.
unfoldable pub id_from : (ℕ → ℕ) → ℕ → ℕ → ℕ → Option ℕ
id_from body unique_id zero i = none
id_from body unique_id (suc n) i =
    let at = i * new_node_response_entry_size in
    if get_bytes 8 (data_at at) body == unique_id
    then some (body (data_at (at + 8)))
    else id_from body unique_id n (i + 1)

-- What `rxNewNodePacketResponse` writes through its pointers.
pub record Joined : Type 0 where
  pub node_id : ℕ
  pub time_to_live : ℕ
  pub node_joined : ℕ

-- `rxNewNodePacketResponse`
unfoldable pub rx_new_node_packet_response : Packet → ℕ → Joined → Joined
unfolding id_from get_bytes get_packet_data_size
rx_new_node_packet_response p unique_id before =
    elim (id_from p.body unique_id (u8 (get_packet_data_size p / new_node_response_entry_size)) 0) [
      | some node_id ↦ record {
        node_id = node_id;
        time_to_live = node_timeout_us;
        node_joined = u32 (before.node_joined + 1);
      }
      | none ↦ before
    ]
