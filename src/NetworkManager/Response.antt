-- ===== src/NetworkManager/Response.antt =====
-- The response of src/networkManager.c to nodes that ask to join: what the master writes and what a
-- node reads.
use microbus.Common.{
  ℕ, zero, suc, ◌+◌, ◌/◌, ◌≤◌, ◌<◌, ◌≡◌, refl, ap, ◌∙◌, ◌==◌, Bool-cases, inl, inr, Option-cases,
  none, some, update, u8, u32, min, arith,
}
use microbus.Packet.{
  Packet, data_at, dst_node_id_at, put_byte, unallocated_node_id, new_node_response_packet,
  next_tx_node_id_at, next_tx_node_ack_seq_num_at, max_tx_nodes_scheduled, set_packet_data_size,
  get_packet_data_size, set_protocol_version_and_packet_type,
}
use microbus.NetworkManager.{
  NetworkManager, index_from, node_timeout_us, max_nodes_allocated_at_once,
}
use microbus.NetworkManager.Table.{IsTable}
use microbus.NetworkManager.Join.{
  entries_from, id_from, Joined, tx_new_node_response, rx_new_node_packet_response,
}
use microbus.Master.Tx.{fill_schedule}
use microbus.NetworkManager.Entries.{Holds, Holds-eq, entries_from-Fills}

-- The search of the node in such entries is one in the table.
id_from_lem :
    (body ids numbers : ℕ → ℕ) (unique_id n i : ℕ)
    → ((k : ℕ) → i ≤ k → k < i + n → Holds body k (ids k) (numbers k))
    → id_from body unique_id n i
      ≡ elim (index_from ids unique_id n i) [ none ↦ none | some k ↦ some (numbers k) ]
unfolding id_from index_from
id_from_lem body ids numbers unique_id zero i holds = refl
id_from_lem body ids numbers unique_id (suc n) i holds =
    let (named, numbered) = holds i (omega arith) (omega arith) in
    let rest =
      id_from_lem body ids numbers unique_id n (i + 1)
        (λ k lo hi. holds k (omega arith) (omega arith)) in
    elim (Bool-cases (ids i == unique_id)) [
      | inl here ↦ rw (named, here, numbered) refl
      | inr there ↦ rw (named, there) rest
    ]

-- The schedule and the acknowledgements lie before the data.
fill_schedule_above :
    (schedule rx_seq_num : ℕ → ℕ) (n i : ℕ) (body : ℕ → ℕ) (j : ℕ)
    → i + n ≤ max_tx_nodes_scheduled
    → data_at 0 ≤ j
    → fill_schedule schedule rx_seq_num n i body j ≡ body j
unfolding fill_schedule
fill_schedule_above schedule rx_seq_num zero i body j le lo = refl
fill_schedule_above schedule rx_seq_num (suc n) i body j le lo =
    fill_schedule_above schedule rx_seq_num n (i + 1)
      (update (update body (next_tx_node_id_at i) (schedule i)) (next_tx_node_ack_seq_num_at i)
        (rx_seq_num (schedule i)))
      j (omega arith) lo
    ∙ ground arith

-- What a node with a unique id has after a response from a table: the node id of the first entry for
-- its unique id, and the whole time to live, or what it had.
unfoldable pub answered : NetworkManager → ℕ → Joined → Joined
answered nw unique_id before =
    elim (index_from nw.new_node_unique_id unique_id nw.num_new_nodes 0) [
      | none ↦ before
      | some k ↦ record {
        node_id = nw.new_node_id k;
        time_to_live = node_timeout_us;
        node_joined = u32 (before.node_joined + 1);
      }
    ]

read_entries :
    (nw : NetworkManager) (q : Packet) (unique_id : ℕ) (before : Joined)
    → nw.num_new_nodes ≤ max_nodes_allocated_at_once
    → get_packet_data_size q / 9 ≡ nw.num_new_nodes
    → ((k : ℕ) → k < nw.num_new_nodes → Holds q.body k (nw.new_node_unique_id k) (nw.new_node_id k))
    → rx_new_node_packet_response q unique_id before ≡ answered nw unique_id before
unfolding rx_new_node_packet_response answered
read_entries nw q unique_id before few size holds =
    let all : u8 (get_packet_data_size q / 9) ≡ nw.num_new_nodes = ap u8 size ∙ omega arith in
    let found =
      ap (λ n. id_from q.body unique_id n 0) all
      ∙ id_from_lem q.body nw.new_node_unique_id nw.new_node_id unique_id nw.num_new_nodes 0
          (λ k lo hi. holds k (omega arith)) in
    elim (Option-cases (index_from nw.new_node_unique_id unique_id nw.num_new_nodes 0)) [
      | inl absent ↦
          let missing : id_from q.body unique_id (u8 (get_packet_data_size q / 9)) 0 ≡ none =
            found ∙ rw absent refl in
          rw (missing, absent, rx_new_node_packet_response, answered) refl
      | inr (k, present) ↦
          let known : id_from q.body unique_id (u8 (get_packet_data_size q / 9)) 0
              ≡ some (nw.new_node_id k) =
            found ∙ rw present refl in
          rw (known, present, rx_new_node_packet_response, answered) refl
    ]

-- The response to a table that is not empty, of unique ids of 64 bits, with any schedule of at most MAX_TX_NODES_SCHEDULED slots
-- and acknowledgements written into it, as it is sent: from it a node whose unique id is in the table
-- takes the node id that the table has for it, and another node nothing, whatever the packet held
-- before.
pub response_roundtrip :
    (nw : NetworkManager) (p : Packet) (unique_id : ℕ) (before : Joined)
    (schedule rx_seq_num : ℕ → ℕ) (slots : ℕ)
    → IsTable nw
    → ((i : ℕ) → i < nw.num_new_nodes → nw.new_node_unique_id i < 18446744073709551616)
    → 0 < nw.num_new_nodes
    → slots ≤ max_tx_nodes_scheduled
    → rx_new_node_packet_response
        (record (tx_new_node_response nw p) {
          body = fill_schedule schedule rx_seq_num slots 0 (tx_new_node_response nw p).body;
        })
        unique_id
        before
      ≡ answered nw unique_id before
unfolding tx_new_node_response set_packet_data_size get_packet_data_size
    set_protocol_version_and_packet_type
response_roundtrip nw p unique_id before schedule rx_seq_num slots h short pos fits =
    let capped : min nw.num_new_nodes 19 ≡ nw.num_new_nodes = ground (arith, h.few) in
    let headed =
      put_byte (set_protocol_version_and_packet_type p new_node_response_packet) dst_node_id_at
        unallocated_node_id in
    let fills = entries_from-Fills nw h short max_nodes_allocated_at_once 0 headed.body pos h.few in
    let body = (entries_from nw nw.num_new_nodes max_nodes_allocated_at_once 0 0 headed.body).0 in
    read_entries nw
      (record (tx_new_node_response nw p) {
        body = fill_schedule schedule rx_seq_num slots 0 (tx_new_node_response nw p).body;
      })
      unique_id before h.few (rw (capped, fills.count) (omega (arith, h.few)))
      (λ k lt. rw capped (
        Holds-eq (fill_schedule schedule rx_seq_num slots 0 body) body k (nw.new_node_unique_id k)
          (nw.new_node_id k)
          (λ j low top.
            fill_schedule_above schedule rx_seq_num slots 0 body j (omega arith) (omega arith))
          (fills.filled k (omega arith) lt)))
