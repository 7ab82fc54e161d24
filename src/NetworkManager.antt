-- ===== src/NetworkManager.antt =====
-- src/networkManager.c and src/networkManager.h: which nodes are on the network. The time to live of
-- the nodes is an array of the master that is passed in and returned.
pub mod Join
mod Tests
pub mod Register
pub mod Table
pub mod Request
pub mod Entries
pub mod Response
pub mod Members
pub mod Joining
pub mod Hearing
pub mod Leaving
pub mod Network
pub mod Welcome
pub mod Leaves
pub mod TimeToLive
pub mod NodeSide
use microbus.Common.{
  ℕ, zero, suc, ◌+◌, ◌-◌, ◌*◌, ◌/◌, Bool, true, false, not, ◌&&◌, ltb, leb, ◌==◌, if◌then◌else◌,
  Option, none, some, ◌>>=◌, ◌>>◌, assert, update, u8, u32, List, [], ◌∷◌,
}
use microbus.Packet.{max_nodes, slot_time_us, first_node_id, invalid_node_id}
use microbus.NodeQueue.{NodeQueue, node_queue_add}

abbrev pub max_slots_between_servicing : ℕ
max_slots_between_servicing = 6

-- `NODE_TIMEOUT_US`
abbrev pub node_timeout_us : ℕ
node_timeout_us = 2 * 2 * max_slots_between_servicing * max_nodes * slot_time_us

-- `MASTER_TIMEOUT_US`
abbrev pub master_timeout_us : ℕ
master_timeout_us = node_timeout_us + 100 * slot_time_us

-- `MASTER_MAX_TIME_TO_LIVE`
abbrev pub master_max_time_to_live : ℕ
master_max_time_to_live = 128

-- `TIME_TO_LIVE_UPDATE_TIME_US`
abbrev pub time_to_live_update_time_us : ℕ
time_to_live_update_time_us = master_timeout_us / master_max_time_to_live

-- `MAX_NODES_ALLOCATED_AT_ONCE`
abbrev pub max_nodes_allocated_at_once : ℕ
max_nodes_allocated_at_once = 10

-- `REMOVE_NODE_TTL`
abbrev pub remove_node_ttl : ℕ
remove_node_ttl = 0xff

-- `tNetworkManager`
pub record NetworkManager : Type 0 where
  pub new_node_unique_id : ℕ → ℕ
  pub new_node_id : ℕ → ℕ
  pub num_new_nodes : ℕ
  pub active_nodes : NodeQueue
  pub time_to_live_time_us : ℕ

-- The loop of `getNextFreeNodeId`, with the rounds left and the node id.
pub free_id_from : (ℕ → ℕ) → ℕ → ℕ → ℕ
free_id_from ttl zero node_id = invalid_node_id
free_id_from ttl (suc n) node_id =
    if ttl node_id == 0 then node_id else free_id_from ttl n (node_id + 1)

-- `getNextFreeNodeId`
unfoldable pub get_next_free_node_id : (ℕ → ℕ) → ℕ
unfolding free_id_from
get_next_free_node_id ttl = free_id_from ttl (max_nodes - first_node_id) first_node_id

-- A search loop of the table of new nodes, with the rounds left and the index.
pub index_from : (ℕ → ℕ) → ℕ → ℕ → ℕ → Option ℕ
index_from table value zero i = none
index_from table value (suc n) i =
    if table i == value then some i else index_from table value n (i + 1)

-- What `networkManagerRegisterNewNode` leaves: the manager, the time to live and the count of nodes
-- that found the network full.
pub record Registered : Type 0 where
  pub manager : NetworkManager
  pub ttl : ℕ → ℕ
  pub network_full_count : ℕ

-- The rest of `networkManagerRegisterNewNode` with the free id found.
unfoldable pub register_as : NetworkManager → (ℕ → ℕ) → ℕ → ℕ → ℕ → Option Registered
register_as nw ttl unique_id network_full_count node_id =
    if node_id == invalid_node_id
    then some
        (record { manager = nw; ttl = ttl; network_full_count = u32 (network_full_count + 1) })
    else do
      active ← node_queue_add nw.active_nodes node_id
      some (record {
        manager = record nw {
          new_node_unique_id = update nw.new_node_unique_id nw.num_new_nodes unique_id;
          new_node_id = update nw.new_node_id nw.num_new_nodes node_id;
          num_new_nodes = u8 (nw.num_new_nodes + 1);
          active_nodes = active;
        };
        ttl = update ttl node_id master_max_time_to_live;
        network_full_count = network_full_count;
      })

-- `networkManagerRegisterNewNode`
unfoldable pub network_manager_register_new_node :
    NetworkManager → (ℕ → ℕ) → ℕ → ℕ → Option Registered
unfolding index_from register_as
network_manager_register_new_node nw ttl unique_id network_full_count =
    let unchanged : Registered = record {
      manager = nw;
      ttl = ttl;
      network_full_count = network_full_count;
    } in
    if unique_id == 0
    then none
    else if nw.num_new_nodes == max_nodes_allocated_at_once
    then some unchanged
    else elim (index_from nw.new_node_unique_id unique_id nw.num_new_nodes 0) [
      | some i ↦ some unchanged
      | none ↦ register_as nw ttl unique_id network_full_count (get_next_free_node_id ttl)
    ]

-- The loop that shifts one of the two tables down by 1, with the rounds left and the index.
pub shift_table : ℕ → ℕ → (ℕ → ℕ) → ℕ → ℕ
shift_table zero j table = table
shift_table (suc n) j table = shift_table n (j + 1) (update table j (table (j + 1)))

-- `networkManagerRemoveNewNodeRequest`
unfoldable pub network_manager_remove_new_node_request :
    NetworkManager → ℕ → Option (Bool × NetworkManager)
unfolding index_from shift_table
network_manager_remove_new_node_request nw rx_node_id =
    elim (index_from nw.new_node_id rx_node_id nw.num_new_nodes 0) [
      | none ↦ some (false, nw)
      | some i ↦
          let num = nw.num_new_nodes - 1 in
          do
            assert (ltb 0 (nw.new_node_unique_id i))
            some (
              true,
              record nw {
                new_node_unique_id = shift_table (num - i) i nw.new_node_unique_id;
                new_node_id = shift_table (num - i) i nw.new_node_id;
                num_new_nodes = num;
              },
            )
    ]

-- `networkManagerRecordRxPacket`
unfoldable pub network_manager_record_rx_packet :
    NetworkManager → (ℕ → ℕ) → ℕ → Option (NetworkManager × (ℕ → ℕ))
network_manager_record_rx_packet nw ttl rx_node_id = do
  assert (ltb rx_node_id max_nodes)
  let heard = update ttl rx_node_id master_max_time_to_live
  if ltb 0 nw.num_new_nodes
      then (do r ← network_manager_remove_new_node_request nw rx_node_id; some (r.1, heard))
      else some (nw, heard)

-- The body of the loop of `networkManagerUpdateTimeUs` at one node: what it stores in the array, in
-- order. Of the time to live 1 it stores 0 and then the mark for removal.
unfoldable pub tick_writes : ℕ → List ℕ
tick_writes ttl =
    if ltb 0 ttl && not (ttl == remove_node_ttl)
    then (let left = ttl - 1 in left ∷ (if left == 0 then remove_node_ttl ∷ [] else []))
    else []

-- What is in a cell after stores to it, if no other thread stores in between.
unfoldable pub stored : ℕ → List ℕ → ℕ
stored v [] = v
stored v (w ∷ ws) = stored w ws

-- What the body of the loop of `networkManagerUpdateTimeUs` leaves at one node.
unfoldable pub tick_ttl : ℕ → ℕ
unfolding tick_writes stored
tick_ttl ttl = stored ttl (tick_writes ttl)

-- The loop of `networkManagerUpdateTimeUs`, with the rounds left and the node id.
unfoldable pub tick_from : ℕ → ℕ → (ℕ → ℕ) → ℕ → ℕ
tick_from zero node_id ttl = ttl
tick_from (suc n) node_id ttl =
    tick_from n (node_id + 1) (update ttl node_id (tick_ttl (ttl node_id)))

-- `networkManagerUpdateTimeUs`
unfoldable pub network_manager_update_time_us :
    NetworkManager → (ℕ → ℕ) → ℕ → NetworkManager × (ℕ → ℕ)
unfolding tick_from
network_manager_update_time_us nw ttl us_incr =
    let time = u32 (nw.time_to_live_time_us + us_incr) in
    if leb time_to_live_update_time_us time
    then (
      record nw { time_to_live_time_us = time - time_to_live_update_time_us },
      tick_from (max_nodes - first_node_id) first_node_id ttl,
    )
    else (record nw { time_to_live_time_us = time }, ttl)
