-- ===== src/NetworkManager/Network.antt =====
-- Every step of the membership, src/networkManager.c, keeps the network consistent, and none stops.
use microbus.Common.{
  ℕ, ◌+◌, ◌-◌, ◌≤◌, ◌<◌, ◌≡◌, ◌⊎◌, inl, inr, refl, Bool, ltb, leb, some, u32, update, Bool-cases,
  arith,
}
use microbus.Packet.{max_nodes, first_node_id}
use microbus.NodeQueue.{NodeQueue, get_next_node_in_queue}
use microbus.NodeQueue.Laws.{IsValid, length-ids}
use microbus.NetworkManager.{
  NetworkManager, Registered, master_max_time_to_live, remove_node_ttl,
  network_manager_register_new_node, network_manager_remove_new_node_request,
  network_manager_record_rx_packet, network_manager_update_time_us, tick_ttl, tick_writes, stored,
  tick_from, time_to_live_update_time_us,
}
use microbus.NetworkManager.Table.{remove_request_refines}
use microbus.NetworkManager.TimeToLive.{tick_from_lem}
use microbus.NetworkManager.Members.{
  Members, Step, request, heard, timer, remove, mark, turn, Reachable, start, later, no_members,
  IsNetwork, members_few, same_times,
}
use microbus.NetworkManager.Joining.{registers, request-IsNetwork}
use microbus.NetworkManager.Hearing.{heard_returns, heard-IsNetwork}
use microbus.NetworkManager.Leaving.{remove-IsNetwork}

tick_keeps :
    (v : ℕ)
    → (v ≤ master_max_time_to_live) ⊎ (v ≡ remove_node_ttl)
    → (ltb 0 (tick_ttl v) ≡ ltb 0 v)
      × ((tick_ttl v ≤ master_max_time_to_live) ⊎ (tick_ttl v ≡ remove_node_ttl))
unfolding tick_ttl tick_writes stored
tick_keeps v b = ground arith

-- The timer's count alone.
time-IsNetwork :
    (m : Members) (time : ℕ)
    → IsNetwork m
    → IsNetwork (record m { nw = record (m.nw) { time_to_live_time_us = time } })
time-IsNetwork m time h = record {
  queue = h.queue;
  members = h.members;
  bounded = h.bounded;
  table = record {
    few = h.table.few;
    named = h.table.named;
    one_name = h.table.one_name;
    one_number = h.table.one_number;
  };
  listed = h.listed;
}

timer-IsNetwork :
    (m : Members) (us_incr : ℕ)
    → IsNetwork m
    → IsNetwork (record {
      nw = (network_manager_update_time_us m.nw m.ttl us_incr).0;
      ttl = (network_manager_update_time_us m.nw m.ttl us_incr).1;
    })
unfolding network_manager_update_time_us
timer-IsNetwork m us_incr h =
    let ticked = tick_from_lem (max_nodes - first_node_id) first_node_id in
    let time = u32 (m.nw.time_to_live_time_us + us_incr) in
    elim (Bool-cases (leb time_to_live_update_time_us time)) [
      | inr early ↦ rw (early, network_manager_update_time_us) (time-IsNetwork m time h)
      | inl due ↦
          rw (due, network_manager_update_time_us)
            (time-IsNetwork
              (record m { ttl = tick_from (max_nodes - first_node_id) first_node_id m.ttl })
              (time - time_to_live_update_time_us)
              (same_times {m = m} (tick_from (max_nodes - first_node_id) first_node_id m.ttl)
                (λ j. ground (arith, ticked j m.ttl, tick_keeps (m.ttl j), h.bounded j))
                (λ j below. ground (arith, ticked j m.ttl, tick_keeps (m.ttl j), h.bounded j)) h))
    ]

turn-IsValid : (q : NodeQueue) → IsValid q → IsValid (get_next_node_in_queue q).1
unfolding get_next_node_in_queue
turn-IsValid q v = record {
  fits = v.fits;
  last = ground (arith, v.last, v.fits);
  distinct = v.distinct;
}

turn-IsNetwork :
    {m : Members}
    → IsNetwork m
    → IsNetwork (record m {
      nw = record (m.nw) { active_nodes = (get_next_node_in_queue m.nw.active_nodes).1 };
    })
unfolding get_next_node_in_queue
turn-IsNetwork {m} h = record {
  queue = turn-IsValid m.nw.active_nodes h.queue;
  members = h.members;
  bounded = h.bounded;
  table = record {
    few = h.table.few;
    named = h.table.named;
    one_name = h.table.one_name;
    one_number = h.table.one_number;
  };
  listed = h.listed;
}

-- The master itself does not join the queue.
mark-IsNetwork : (m : Members) → IsNetwork m → IsNetwork (record m { ttl = update m.ttl 0 1 })
mark-IsNetwork m h = record {
  queue = h.queue;
  members = λ j. ground (arith, h.members j);
  bounded = λ j lt. ground (arith, h.bounded j);
  table = h.table;
  listed = λ i hi. ground (arith, h.listed i hi);
}

Step-IsNetwork : (m m' : Members) → Step m m' → IsNetwork m → IsNetwork m'
Step-IsNetwork m m' (request unique_id full e) h = request-IsNetwork m unique_id full e h
Step-IsNetwork m m' (heard node_id alive e) h = heard-IsNetwork m node_id alive e h
Step-IsNetwork m m' (timer us_incr) h = timer-IsNetwork m us_incr h
Step-IsNetwork m m' (remove node_id found lo hi marked e) h =
    remove-IsNetwork m node_id found lo e h
Step-IsNetwork m m' mark h = mark-IsNetwork m h
Step-IsNetwork m m' turn h = turn-IsNetwork {m = m} h

no_members-IsNetwork : IsNetwork no_members
no_members-IsNetwork = record {
  queue = record { fits = omega arith; last = inl refl; distinct = tt };
  members = λ j. ground arith;
  bounded = λ j lt. inl (omega arith);
  table = record {
    few = omega arith;
    named = λ i lt. absurd (omega arith);
    one_name = λ i j less lt. absurd (omega arith);
    one_number = λ i j less lt. absurd (omega arith);
  };
  listed = λ i lt. absurd (omega arith);
}

-- In every state that the master's network reaches from an empty one: the queue of active nodes is
-- valid and has exactly the nodes other than the master with a time to live; a time to live is at most
-- the whole one, or the mark for removal; and the table of new nodes has at most
-- MAX_NODES_ALLOCATED_AT_ONCE entries, each of a node other than the master that has a time to live,
-- with no unique id and no node id twice.
pub Reachable-IsNetwork : {m : Members} → Reachable m → IsNetwork m
Reachable-IsNetwork start = no_members-IsNetwork
Reachable-IsNetwork (later {m = m} {m' = m'} reached step) =
    Step-IsNetwork m m' step (Reachable-IsNetwork reached)

-- In every state that the master's network reaches from an empty one, no assertion fails: not when a
-- node with a unique id other than 0 asks to join, not when a node of the network is heard of, and not
-- when its request is taken out of the table; and room is left for a node in the queue of active
-- nodes.
pub network_never_stops :
    {m : Members} (unique_id full node_id : ℕ)
    → Reachable m
    → 0 < unique_id
    → node_id < max_nodes
    → ((r : Registered) × (network_manager_register_new_node m.nw m.ttl unique_id full ≡ some r))
      × ((x : NetworkManager × (ℕ → ℕ)) × (network_manager_record_rx_packet m.nw m.ttl node_id
            ≡ some x))
      × ((x : Bool × NetworkManager) × (network_manager_remove_new_node_request m.nw node_id
            ≡ some x))
      × (m.nw.active_nodes.num_nodes < max_nodes)
network_never_stops {m} unique_id full node_id reached pos lt =
    let h = Reachable-IsNetwork {m = m} reached in
    let joined = registers m unique_id full pos h in
    let (nw, ttl, told, _) = heard_returns m node_id lt h.table in
    let (found, after, removed, _) = remove_request_refines m.nw node_id h.table in
    (
      (joined.after, joined.returns),
      ((nw, ttl), told),
      ((found, after), removed),
      omega (arith, members_few {m = m} h, length-ids m.nw.active_nodes),
    )
