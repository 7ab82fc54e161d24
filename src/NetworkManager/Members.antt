-- ===== src/NetworkManager/Members.antt =====
-- src/networkManager.c with the calls of src/masterRx.c, src/master.c and src/scheduler.c that change
-- who is on the network: the steps of the membership, one for each of them.
use microbus.Common.{
  ℕ, zero, suc, ◌≤◌, ◌<◌, ◌≡◌, ◌⊎◌, inl, inr, Bool, true, ◌==◌, ◌&&◌, ltb, some, update, contains,
  length, List, [], ◌∷◌, Nodup, erase, Nodup-erase, length-erase, contains-erase_ne,
  contains-erase_self, Bool-cases, arith,
}
use microbus.Packet.{max_nodes, first_node_id}
use microbus.NodeQueue.{zero_queue, ids, node_queue_remove_if_exists, get_next_node_in_queue}
use microbus.NodeQueue.Laws.{IsValid}
use microbus.NetworkManager.{
  NetworkManager, Registered, master_max_time_to_live, remove_node_ttl,
  network_manager_register_new_node, network_manager_remove_new_node_request,
  network_manager_record_rx_packet, network_manager_update_time_us,
}
use microbus.NetworkManager.Table.{IsTable}

-- The network manager and the time to live of the nodes.
pub record Members : Type 0 where
  pub nw : NetworkManager
  pub ttl : ℕ → ℕ

-- The steps: a request to join; a packet of a node that has a time to live, as
-- masterQuickProcessPrevRx tests; the timer; the removal of a node that is marked, by
-- masterRemoveAnyTimeoutNodes; the time to live that getConnectedNodesBitField gives to the master; and
-- a turn of the queue of active nodes, by the scheduler.
pub data Step (m : Members) : Members → Type 0 where
  request :
      (unique_id full : ℕ) {r : Registered}
      → network_manager_register_new_node m.nw m.ttl unique_id full ≡ some r
      → Step m (record { nw = r.manager; ttl = r.ttl })
  heard :
      (node_id : ℕ) {nw : NetworkManager} {ttl : ℕ → ℕ}
      → 0 < m.ttl node_id
      → network_manager_record_rx_packet m.nw m.ttl node_id ≡ some (nw, ttl)
      → Step m (record { nw = nw; ttl = ttl })
  timer :
      (us_incr : ℕ)
      → Step m (record {
        nw = (network_manager_update_time_us m.nw m.ttl us_incr).0;
        ttl = (network_manager_update_time_us m.nw m.ttl us_incr).1;
      })
  remove :
      (node_id : ℕ) (found : Bool) {nw : NetworkManager}
      → first_node_id ≤ node_id
      → node_id < max_nodes
      → m.ttl node_id ≡ remove_node_ttl
      → network_manager_remove_new_node_request m.nw node_id ≡ some (found, nw)
      → Step m (record {
        nw = record nw { active_nodes = node_queue_remove_if_exists nw.active_nodes node_id };
        ttl = update m.ttl node_id 0;
      })
  mark : Step m (record m { ttl = update m.ttl 0 1 })
  turn : Step m (record m {
    nw = record (m.nw) { active_nodes = (get_next_node_in_queue m.nw.active_nodes).1 };
  })

-- masterInit clears the whole master.
abbrev pub no_members : Members
no_members = record {
  nw = record {
    new_node_unique_id = λ i. 0;
    new_node_id = λ i. 0;
    num_new_nodes = 0;
    active_nodes = zero_queue;
    time_to_live_time_us = 0;
  };
  ttl = λ j. 0;
}

pub data Reachable : Members → Type 0 where
  start : Reachable no_members
  later : {m m' : Members} → Reachable m → Step m m' → Reachable m'

-- The queue of active nodes has the nodes with a time to live, but not the master; these times are at most the whole one,
-- or the mark; and the nodes of the table of new nodes are among them.
pub record IsNetwork (m : Members) : Type 0 where
  pub queue : IsValid m.nw.active_nodes
  pub members :
      (j : ℕ) → contains j (ids m.nw.active_nodes) ≡ (ltb 0 j && ltb j max_nodes && ltb 0 (m.ttl j))
  pub bounded :
      (j : ℕ) → j < max_nodes → (m.ttl j ≤ master_max_time_to_live) ⊎ (m.ttl j ≡ remove_node_ttl)
  pub table : IsTable m.nw
  pub listed :
      (i : ℕ)
      → i < m.nw.num_new_nodes
      → (0 < m.nw.new_node_id i)
        × (m.nw.new_node_id i < max_nodes)
        × (0 < m.ttl (m.nw.new_node_id i))

-- Distinct numbers from 1 to `n` are at most `n`.
pigeonhole :
    (n : ℕ) (xs : List ℕ)
    → Nodup xs
    → ((j : ℕ) → contains j xs ≡ true → (0 < j) × (j ≤ n))
    → length xs ≤ n
pigeonhole zero [] d within = omega arith
pigeonhole zero (x ∷ xs) d within = absurd (ground (arith, within x))
pigeonhole (suc n) xs d within =
    let fewer = pigeonhole n (erase (suc n) xs) (Nodup-erase (suc n) xs d) (λ j there.
      elim (Bool-cases (j == suc n)) [
        | inl last ↦ absurd (ground (arith, contains-erase_self (suc n) xs d))
        | inr other ↦ ground (arith, contains-erase_ne (suc n) j xs, within j)
      ]) in
    ground (arith, length-erase (suc n) xs, fewer)

-- There is always room for one more node.
pub members_few : {m : Members} → IsNetwork m → length (ids m.nw.active_nodes) < max_nodes
members_few {m} h =
    let few =
      pigeonhole 63 (ids m.nw.active_nodes) h.queue.distinct
        (λ j there. ground (arith, h.members j)) in
    omega (arith, few)

-- The same nodes have a time to live.
pub same_times :
    {m : Members} (ttl : ℕ → ℕ)
    → ((j : ℕ) → ltb 0 (ttl j) ≡ ltb 0 (m.ttl j))
    → ((j : ℕ) → j < max_nodes → (ttl j ≤ master_max_time_to_live) ⊎ (ttl j ≡ remove_node_ttl))
    → IsNetwork m
    → IsNetwork (record m { ttl = ttl })
same_times {m} ttl same bounded h = record {
  queue = h.queue;
  members = λ j. rw (same j) (h.members j);
  bounded = bounded;
  table = h.table;
  listed = λ i hi. ground (arith, h.listed i hi, same (m.nw.new_node_id i));
}
