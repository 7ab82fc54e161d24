-- ===== src/NetworkManager/Welcome.antt =====
-- How a node joins, src/networkManager.c: its request, what the master makes of it, and the response.
use microbus.Common.{
  ℕ, ◌+◌, ◌-◌, ◌≤◌, ◌<◌, ◌≡◌, ◌⊎◌, inl, inr, refl, ap, ◌∙◌, true, ◌==◌, none, some, u32, contains,
  Bool-cases, Option-cases, arith,
}
use microbus.Packet.{Packet, max_nodes, first_node_id, max_tx_nodes_scheduled}
use microbus.NodeQueue.{ids}
use microbus.NetworkManager.{
  Registered, index_from, node_timeout_us, max_nodes_allocated_at_once, get_next_free_node_id,
  invalid_node_id,
}
use microbus.NetworkManager.Join.{
  Joined, tx_new_node_request, rx_new_node_packet_request, tx_new_node_response,
  rx_new_node_packet_response,
}
use microbus.NetworkManager.Table.{search_misses, search_finds}
use microbus.NetworkManager.Register.{Refuses, Adds, free_id_from_crowded}
use microbus.NetworkManager.Request.{request_roundtrip}
use microbus.NetworkManager.Response.{answered, response_roundtrip}
use microbus.NetworkManager.Members.{Members, Reachable, IsNetwork}
use microbus.NetworkManager.Joining.{registers, request-IsNetwork}
use microbus.NetworkManager.Network.{Reachable-IsNetwork}
use microbus.Master.Tx.{fill_schedule}

-- Every node id has a time to live.
abbrev pub IsTaken : (ℕ → ℕ) → Type 0
IsTaken ttl = (j : ℕ) → first_node_id ≤ j → j < max_nodes → 0 < ttl j

-- What comes of a request: the node has an id of the network; or the table of new nodes or the network
-- is full, and the node has what it had, with a response to others or without one.
pub data Welcomes (m : Members) (after : Registered) (before heard : Joined) : Type 0 where
  joins :
      (id : ℕ)
      → first_node_id ≤ id
      → id < max_nodes
      → contains id (ids after.manager.active_nodes) ≡ true
      → 0 < after.ttl id
      → heard ≡ record {
        node_id = id;
        time_to_live = node_timeout_us;
        node_joined = u32 (before.node_joined + 1);
      }
      → Welcomes m after before heard
  refused :
      after.manager ≡ m.nw
      → heard ≡ before
      → (m.nw.num_new_nodes ≡ max_nodes_allocated_at_once) ⊎ IsTaken m.ttl
      → Welcomes m after before heard
  unanswered : after.manager.num_new_nodes ≡ 0 → IsTaken m.ttl → Welcomes m after before heard

taken : (ttl : ℕ → ℕ) → get_next_free_node_id ttl ≡ invalid_node_id → IsTaken ttl
unfolding get_next_free_node_id
taken ttl e j lo hi =
    free_id_from_crowded ttl (max_nodes - first_node_id) first_node_id (omega arith) e j lo
      (omega arith)

-- The table has no entry after a registration.
empty_after :
    (m : Members) (unique_id : ℕ) (after : Registered)
    → IsNetwork m
    → Refuses m.nw m.ttl unique_id after ⊎ Adds m.nw m.ttl unique_id after
    → after.manager.num_new_nodes ≡ 0
    → IsTaken m.ttl
empty_after m unique_id after h (inr a) empty = absurd (omega (arith, a.number, h.table.few))
empty_after m unique_id after h (inl same) empty =
    let num = ap (λ w. w.num_new_nodes) same.same_manager in
    elim same.reason [
      | inl table_full ↦ absurd (omega (arith, num))
      | inr (inl (i, listed)) ↦ absurd (
          omega (
            arith,
            num,
            search_finds m.nw.new_node_unique_id unique_id m.nw.num_new_nodes 0 {p = i} listed,
          ))
      | inr (inr crowded) ↦ taken m.ttl crowded
    ]

-- The table has no entry for the unique id after its registration.
missing_after :
    (m : Members) (unique_id : ℕ) (after : Registered)
    → IsNetwork m
    → Refuses m.nw m.ttl unique_id after ⊎ Adds m.nw m.ttl unique_id after
    → index_from after.manager.new_node_unique_id unique_id after.manager.num_new_nodes 0 ≡ none
    → (after.manager ≡ m.nw) × ((m.nw.num_new_nodes ≡ max_nodes_allocated_at_once) ⊎ IsTaken m.ttl)
missing_after m unique_id after h (inr a) missing =
    let last =
      search_misses after.manager.new_node_unique_id unique_id after.manager.num_new_nodes 0 missing
        m.nw.num_new_nodes (omega arith) (omega (arith, a.number, h.table.few)) in
    absurd (ground (arith, last, ap (λ f. f m.nw.num_new_nodes) a.named))
missing_after m unique_id after h (inl same) missing = (
  same.same_manager,
  elim same.reason [
    | inl table_full ↦ inl table_full
    | inr (inl (i, listed)) ↦
        let still =
          ap (λ w. index_from w.new_node_unique_id unique_id w.num_new_nodes 0) same.same_manager in
        absurd cc
    | inr (inr crowded) ↦ inr (taken m.ttl crowded)
  ],
)

short_after :
    (m : Members) (unique_id : ℕ) (after : Registered)
    → IsNetwork m
    → Refuses m.nw m.ttl unique_id after ⊎ Adds m.nw m.ttl unique_id after
    → unique_id < 18446744073709551616
    → ((i : ℕ) → i < m.nw.num_new_nodes → m.nw.new_node_unique_id i < 18446744073709551616)
    → (i : ℕ) → i < after.manager.num_new_nodes
    → after.manager.new_node_unique_id i < 18446744073709551616
short_after m unique_id after h (inr a) lt short i hi =
    ground (arith, a.number, h.table.few, short i, ap (λ f. f i) a.named)
short_after m unique_id after h (inl same) lt short i hi =
    let num = ap (λ w. w.num_new_nodes) same.same_manager in
    let name = ap (λ w. w.new_node_unique_id i) same.same_manager in
    ground (arith, num, name, short i)

-- In every state that the master's network reaches, for a node with a unique id of 64 bits other than
-- 0, as are those of the table: the request that it writes is taken without a failed assertion, and
-- from the response that the master writes then, as it is sent with the schedule, either it takes a
-- node id that is in the queue of active nodes with a time to live; or it takes nothing, and the
-- table of new nodes is full or no node id is free. Only where no node id is free and the table is
-- empty there is nothing to respond to.
pub node_joins :
    {m : Members} (p q : Packet) (unique_id full : ℕ) (before : Joined)
    (schedule rx_seq_num : ℕ → ℕ) (slots : ℕ)
    → Reachable m
    → 0 < unique_id
    → unique_id < 18446744073709551616
    → ((i : ℕ) → i < m.nw.num_new_nodes → m.nw.new_node_unique_id i < 18446744073709551616)
    → slots ≤ max_tx_nodes_scheduled
    → (r : Registered) × (rx_new_node_packet_request m.nw m.ttl
          (tx_new_node_request p unique_id)
          full
        ≡ some r)
      × Welcomes m r before (
          rx_new_node_packet_response
            (record (tx_new_node_response r.manager q) {
              body =
                  fill_schedule schedule rx_seq_num slots 0 (tx_new_node_response r.manager q).body;
            })
            unique_id
            before)
unfolding answered
node_joins {m} p q unique_id full before schedule rx_seq_num slots reached pos lt short fits =
    let h = Reachable-IsNetwork {m = m} reached in
    let x = registers m unique_id full pos h in
    let net = request-IsNetwork m unique_id full x.returns h in
    let nw = x.after.manager in
    (
      x.after,
      request_roundtrip m.nw m.ttl p unique_id full lt ∙ x.returns,
      elim (Bool-cases (nw.num_new_nodes == 0)) [
        | inl empty ↦
            unanswered (ground arith) (empty_after m unique_id x.after h x.change (ground arith))
        | inr entries ↦
            let response =
              response_roundtrip nw q unique_id before schedule rx_seq_num slots net.table
                (short_after m unique_id x.after h x.change lt short) (ground arith) fits in
            elim (Option-cases (index_from nw.new_node_unique_id unique_id nw.num_new_nodes 0)) [
              | inl missing ↦
                  let (same, why) = missing_after m unique_id x.after h x.change missing in
                  refused same (response ∙ rw (missing, answered) refl) why
              | inr (k, found) ↦
                  let (_, below, _) =
                    search_finds nw.new_node_unique_id unique_id nw.num_new_nodes 0 {p = k} found in
                  let (low, high, alive) = net.listed k (omega arith) in
                  joins (nw.new_node_id k) low high (ground (arith, net.members (nw.new_node_id k)))
                    alive (response ∙ rw (found, answered) refl)
            ]
      ],
    )
