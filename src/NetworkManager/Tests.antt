-- ===== src/NetworkManager/Tests.antt =====
-- The network manager of src/networkManager.c at a concrete network.
use microbus.Common.{
  ℕ, zero, suc, true, List, [], ◌∷◌, ◌+◌, ◌*◌, ◌<◌, ◌≡◌, refl, Bool, inl, if◌then◌else◌, ◌==◌, none,
  some, arith,
}
use microbus.Packet.{zero_packet}
use microbus.NodeQueue.{node_queue_add}
use microbus.Master.Tx.{fill_schedule}
use microbus.NetworkManager.{
  NetworkManager, Registered, remove_node_ttl, time_to_live_update_time_us, node_timeout_us,
  network_manager_update_time_us, register_as, get_next_free_node_id, free_id_from, index_from,
  network_manager_register_new_node, network_manager_remove_new_node_request,
  network_manager_record_rx_packet,
}
use microbus.NetworkManager.Join.{
  Joined, tx_new_node_request, rx_new_node_packet_request, tx_new_node_response,
  rx_new_node_packet_response,
}
use microbus.NetworkManager.Request.{request_roundtrip}
use microbus.NetworkManager.Register.{IsConsistent, Registers, register_refines}
use microbus.NetworkManager.Table.{IsTable, Removed, remove_request_refines}
use microbus.NetworkManager.Response.{answered, response_roundtrip}
use microbus.NetworkManager.Members.{
  Members, no_members, Reachable, start, later, request, IsNetwork,
}
use microbus.NetworkManager.Network.{Reachable-IsNetwork, network_never_stops}
use microbus.NetworkManager.Welcome.{Welcomes, node_joins}
use microbus.NetworkManager.NodeSide.{node_nw_has_node_timed_out}
use microbus.NetworkManager.Leaves.{node_after, AreShort, leaves_first}
use microbus.NetworkManager.TimeToLive.{master_after, AreBrief, times_out}

-- One node, with the id 5; it was heard of a while ago.
abbrev one_node : NetworkManager
one_node = record {
  new_node_unique_id = λ i. 0;
  new_node_id = λ i. 0;
  num_new_nodes = 0;
  active_nodes = record { node_ids = λ i. 5; num_nodes = 1; last_index = 0 };
  time_to_live_time_us = 100;
}

abbrev nearly_gone : ℕ → ℕ
nearly_gone j = if j == 5 then 2 else 0

one_node-IsConsistent : IsConsistent one_node nearly_gone
one_node-IsConsistent = record {
  queue = record { fits = omega arith; last = inl refl; distinct = (refl, tt) };
  alive = λ j there. ground arith;
}

request_roundtrip_example :
    rx_new_node_packet_request one_node nearly_gone
      (tx_new_node_request zero_packet 72623859790382856)
      0
    ≡ network_manager_register_new_node one_node nearly_gone 72623859790382856 0
request_roundtrip_example =
    request_roundtrip one_node nearly_gone zero_packet 72623859790382856 0 (omega arith)

register_refines_example :
    Registers one_node nearly_gone 77 (network_manager_register_new_node one_node nearly_gone 77 0)
register_refines_example =
    register_refines one_node nearly_gone 77 0 one_node-IsConsistent (omega arith) (omega arith)

-- As many calls, each after the time of one update.
abbrev updates : ℕ → List ℕ
updates zero = []
updates (suc n) = time_to_live_update_time_us ∷ updates n

updates-AreBrief : (n : ℕ) → AreBrief (updates n)
updates-AreBrief zero = tt
updates-AreBrief (suc n) = (omega arith, updates-AreBrief n)

-- As many calls after half of that.
abbrev halves : ℕ → List ℕ
halves zero = []
halves (suc n) = 2179 ∷ halves n

halves-AreBrief : (n : ℕ) → AreBrief (halves n)
halves-AreBrief zero = tt
halves-AreBrief (suc n) = (omega arith, halves-AreBrief n)

times_out_example : (master_after (halves 3) one_node nearly_gone).1 5 ≡ 1
times_out_example =
    times_out (halves 3) 5 2 one_node nearly_gone (halves-AreBrief 3) (omega arith) (omega arith)
      (omega arith) refl (omega arith) (omega arith)

times_out_marks : (master_after (updates 3) one_node nearly_gone).1 5 ≡ remove_node_ttl
times_out_marks =
    times_out (updates 3) 5 2 one_node nearly_gone (updates-AreBrief 3) (omega arith) (omega arith)
      (omega arith) refl (omega arith) (omega arith)

-- Two nodes that were let in, with the ids 5 and 9.
abbrev two_new : NetworkManager
two_new = record one_node {
  new_node_unique_id = λ i. 770 + i;
  new_node_id = λ i. 5 + 4 * i;
  num_new_nodes = 2;
}

two_new-IsTable : IsTable two_new
two_new-IsTable = record {
  few = omega arith;
  named = λ i lt. omega arith;
  one_name = λ i j less lt. omega arith;
  one_number = λ i j less lt. omega arith;
}

abbrev unjoined : Joined
unjoined = record { node_id = 254; time_to_live = 0; node_joined = 0 }

response_roundtrip_example :
    rx_new_node_packet_response
      (record (tx_new_node_response two_new zero_packet) {
        body =
            fill_schedule (λ i. 5) (λ i. 255) 3 0 (tx_new_node_response two_new zero_packet).body;
      })
      771
      unjoined
    ≡ answered two_new 771 unjoined
response_roundtrip_example =
    response_roundtrip two_new zero_packet 771 unjoined (λ i. 5) (λ i. 255) 3 two_new-IsTable
      (λ i lt. omega arith) (omega arith) (omega arith)

-- The node has the id 9 then.
answered_second : (answered two_new 771 unjoined).node_id ≡ 9
unfolding answered index_from
answered_second = refl

remove_request_refines_example :
    (found : Bool) × (after : NetworkManager) × (network_manager_remove_new_node_request two_new 5
      ≡ some (found, after))
    × Removed two_new 5 found after
remove_request_refines_example = remove_request_refines two_new 5 two_new-IsTable

abbrev joined_one : Members
joined_one = elim (network_manager_register_new_node no_members.nw no_members.ttl 77 0) [
  | some r ↦ record { nw = r.manager; ttl = r.ttl }
  | none ↦ no_members
]

joined_one-Reachable : Reachable joined_one
unfolding network_manager_register_new_node register_as get_next_free_node_id free_id_from
    index_from node_queue_add
joined_one-Reachable = later start (
    request 77 0
      {r = record { manager = joined_one.nw; ttl = joined_one.ttl; network_full_count = 0 }} refl)

Reachable-IsNetwork_example : IsNetwork joined_one
Reachable-IsNetwork_example = Reachable-IsNetwork {m = joined_one} joined_one-Reachable

network_never_stops_example :
    ((r : Registered) × (network_manager_register_new_node joined_one.nw joined_one.ttl 78 0
        ≡ some r))
    × ((x : NetworkManager × (ℕ → ℕ)) × (network_manager_record_rx_packet joined_one.nw
            joined_one.ttl 1
          ≡ some x))
    × ((x : Bool × NetworkManager) × (network_manager_remove_new_node_request joined_one.nw 1
          ≡ some x))
    × (joined_one.nw.active_nodes.num_nodes < 64)
network_never_stops_example =
    network_never_stops {m = joined_one} 78 0 1 joined_one-Reachable (omega arith) (omega arith)

node_joins_example :
    (r : Registered) × (rx_new_node_packet_request joined_one.nw joined_one.ttl
        (tx_new_node_request zero_packet 78)
        0
      ≡ some r)
    × Welcomes joined_one r unjoined (
        rx_new_node_packet_response
          (record (tx_new_node_response r.manager zero_packet) {
            body =
                fill_schedule
                  (λ i. 5)
                  (λ i. 255)
                  3
                  0
                  (tx_new_node_response r.manager zero_packet).body;
          })
          78
          unjoined)
unfolding network_manager_register_new_node register_as get_next_free_node_id free_id_from
    index_from node_queue_add
node_joins_example =
    node_joins {m = joined_one} zero_packet zero_packet 78 0 unjoined (λ i. 5) (λ i. 255) 3
      joined_one-Reachable (omega arith) (omega arith) (λ i lt. ground arith) (omega arith)

updates-AreShort : (n : ℕ) → AreShort (updates n)
updates-AreShort zero = tt
updates-AreShort (suc n) = (omega arith, updates-AreShort n)

abbrev just_heard : ℕ → ℕ
just_heard j = if j == 5 then 128 else 0

-- The count of one_node, 100, is what the one call before left.
abbrev not_begun : NetworkManager
not_begun = record one_node { time_to_live_time_us = 0 }

leaves_first_example : node_nw_has_node_timed_out (node_after (updates 128) node_timeout_us) ≡ true
unfolding master_after network_manager_update_time_us
leaves_first_example =
    leaves_first (100 ∷ []) (updates 128) not_begun one_node just_heard just_heard 5 refl
      (omega arith, tt) refl (updates-AreShort 128) (omega arith) (omega arith) refl
      (times_out (updates 128) 5 128 one_node just_heard (updates-AreBrief 128) (omega arith)
        (omega arith) (omega arith) refl (omega arith) (omega arith))
