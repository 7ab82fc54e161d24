-- ===== src/NetworkManager/Register.antt =====
-- networkManagerRegisterNewNode of src/networkManager.c.
use microbus.Common.{
  ℕ, zero, suc, ◌+◌, ◌-◌, ◌≤◌, ◌<◌, ◌≡◌, ◌≢◌, ◌⊎◌, inl, inr, refl, true, false, ◌==◌, [], ◌∷◌, ◌++◌,
  Option, some, none, update, u8, u32, contains, contains-append, Bool-cases, Option-cases, arith,
}
use microbus.Packet.{max_nodes, first_node_id, invalid_node_id}
use microbus.NodeQueue.{ids}
use microbus.NodeQueue.Laws.{IsValid, queue_add_refines, queue_add-IsValid}
use microbus.NetworkManager.{
  NetworkManager, Registered, master_max_time_to_live, max_nodes_allocated_at_once, free_id_from,
  get_next_free_node_id, index_from, register_as, network_manager_register_new_node,
}

pub free_id_from_crowded :
    (ttl : ℕ → ℕ) (n i : ℕ)
    → i + n ≤ max_nodes
    → free_id_from ttl n i ≡ invalid_node_id
    → (j : ℕ) → i ≤ j
    → j < i + n
    → 0 < ttl j
unfolding free_id_from
free_id_from_crowded ttl zero i few e j lo hi = absurd (omega arith)
free_id_from_crowded ttl (suc n) i few e j lo hi = elim (Bool-cases (ttl i == 0)) [
  | inl free ↦ absurd (ground arith)
  | inr used ↦ elim (Bool-cases (j == i)) [
    | inl here ↦ ground arith
    | inr later ↦
        free_id_from_crowded ttl n (i + 1) (omega arith) (ground arith) j (ground arith)
          (omega arith)
  ]
]

free_id_from_lem :
    (ttl : ℕ → ℕ) (n i : ℕ)
    → (free_id_from ttl n i ≡ invalid_node_id)
      ⊎ ((i ≤ free_id_from ttl n i)
          × (free_id_from ttl n i < i + n)
          × (ttl (free_id_from ttl n i) ≡ 0))
unfolding free_id_from
free_id_from_lem ttl zero i = inl refl
free_id_from_lem ttl (suc n) i = elim (Bool-cases (ttl i == 0)) [
  | inl free ↦ inr (ground arith)
  | inr used ↦ elim (free_id_from_lem ttl n (i + 1)) [
    | inl crowded ↦ inl (rw (used, free_id_from) crowded)
    | inr (lo, hi, free) ↦ inr (ground arith)
  ]
]

-- The queue of active nodes is valid, and its nodes have a time to live.
pub record IsConsistent (nw : NetworkManager) (ttl : ℕ → ℕ) : Type 0 where
  pub queue : IsValid nw.active_nodes
  pub alive : (j : ℕ) → contains j (ids nw.active_nodes) ≡ true → 0 < ttl j

-- Nothing but counting: the table is full, the unique id is in it, or no node id is free.
pub record Refuses (nw : NetworkManager) (ttl : ℕ → ℕ) (unique_id : ℕ) (after : Registered)
    : Type 0 where
  pub same_manager : after.manager ≡ nw
  pub same_ttl : after.ttl ≡ ttl
  pub reason :
      (nw.num_new_nodes ≡ max_nodes_allocated_at_once)
      ⊎ ((i : ℕ) × (index_from nw.new_node_unique_id unique_id nw.num_new_nodes 0 ≡ some i))
      ⊎ (get_next_free_node_id ttl ≡ invalid_node_id)

-- One node more: an id that had no time to live has the whole of it, is the last of the queue, and is
-- the last of the table with the unique id, which was not in the table.
pub record Adds (nw : NetworkManager) (ttl : ℕ → ℕ) (unique_id : ℕ) (after : Registered)
    : Type 0 where
  pub id : ℕ
  pub low : first_node_id ≤ id
  pub high : id < max_nodes
  pub free : ttl id ≡ 0
  pub alive : after.ttl ≡ update ttl id master_max_time_to_live
  pub queued : ids after.manager.active_nodes ≡ ids nw.active_nodes ++ (id ∷ [])
  pub room : nw.num_new_nodes ≢ max_nodes_allocated_at_once
  pub unlisted : index_from nw.new_node_unique_id unique_id nw.num_new_nodes 0 ≡ none
  pub number : after.manager.num_new_nodes ≡ u8 (nw.num_new_nodes + 1)
  pub named :
      after.manager.new_node_unique_id ≡ update nw.new_node_unique_id nw.num_new_nodes unique_id
  pub numbered : after.manager.new_node_id ≡ update nw.new_node_id nw.num_new_nodes id

-- What a call that returns has done: nothing but counting, or one node more.
pub record Registers (nw : NetworkManager) (ttl : ℕ → ℕ) (unique_id : ℕ) (out : Option Registered)
    : Type 0 where
  pub after : Registered
  pub returns : out ≡ some after
  pub consistent : IsConsistent after.manager after.ttl
  pub change : Refuses nw ttl unique_id after ⊎ Adds nw ttl unique_id after

register_as_lem :
    (nw : NetworkManager) (ttl : ℕ → ℕ) (unique_id full id : ℕ)
    → IsConsistent nw ttl
    → nw.active_nodes.num_nodes < max_nodes
    → first_node_id ≤ id
    → id < max_nodes
    → ttl id ≡ 0
    → nw.num_new_nodes ≢ max_nodes_allocated_at_once
    → index_from nw.new_node_unique_id unique_id nw.num_new_nodes 0 ≡ none
    → Registers nw ttl unique_id (register_as nw ttl unique_id full id)
unfolding register_as
register_as_lem nw ttl unique_id full id h room lo hi free places unlisted =
    let (q, ok, content, _) = queue_add_refines nw.active_nodes id room in
    let new : contains id (ids nw.active_nodes) ≡ false =
      elim (Bool-cases (contains id (ids nw.active_nodes))) [
        | inr absent ↦ absent
        | inl known ↦ absurd (omega (arith, h.alive id known))
      ] in
    let real : (id == invalid_node_id) ≡ false = ground arith in
    let appended : ids q ≡ ids nw.active_nodes ++ (id ∷ []) = rw content (rw new refl) in
    record {
      after = record {
        manager = record nw {
          new_node_unique_id = update nw.new_node_unique_id nw.num_new_nodes unique_id;
          new_node_id = update nw.new_node_id nw.num_new_nodes id;
          num_new_nodes = u8 (nw.num_new_nodes + 1);
          active_nodes = q;
        };
        ttl = update ttl id master_max_time_to_live;
        network_full_count = full;
      };
      returns = rw (real, ok) refl;
      consistent = record {
        queue = queue_add-IsValid nw.active_nodes id {r = q} room h.queue ok;
        alive = λ j there. elim (Bool-cases (j == id)) [
          | inl same ↦ ground arith
          | inr other ↦
              let earlier : contains j (ids nw.active_nodes) ≡ true =
                ground (arith, contains-append j id (ids nw.active_nodes)) in
              let some_time = h.alive j earlier in rw other some_time
        ];
      };
      change = inr (record {
        id = id;
        low = lo;
        high = hi;
        free = free;
        alive = refl;
        queued = appended;
        room = places;
        unlisted = unlisted;
        number = refl;
        named = refl;
        numbered = refl;
      });
    }

-- networkManagerRegisterNewNode of a unique id that is not 0, with room in the queue of active nodes:
-- it does not stop, and it leaves a valid queue in which all nodes have a time to live. Either all but
-- the count of refused nodes is as it was, or a node id that had no time to live has the whole of it
-- now, and is the last of the queue, and of the table of new nodes with the unique id, which was not
-- in the table before.
pub register_refines :
    (nw : NetworkManager) (ttl : ℕ → ℕ) (unique_id full : ℕ)
    → IsConsistent nw ttl
    → nw.active_nodes.num_nodes < max_nodes
    → 0 < unique_id
    → Registers nw ttl unique_id (network_manager_register_new_node nw ttl unique_id full)
unfolding network_manager_register_new_node register_as get_next_free_node_id
register_refines nw ttl unique_id full h room real =
    let named : (unique_id == 0) ≡ false = ground arith in
    elim (Bool-cases (nw.num_new_nodes == max_nodes_allocated_at_once)) [
      | inl busy ↦ unchanged full (inl (ground arith)) (rw (named, busy) refl)
      | inr places ↦
          elim (Option-cases (index_from nw.new_node_unique_id unique_id nw.num_new_nodes 0)) [
            | inr (i, listed) ↦
                unchanged full (inr (inl (i, listed))) (rw (named, places, listed) refl)
            | inl unlisted ↦ elim (free_id_from_lem ttl (max_nodes - first_node_id) first_node_id) [
              | inl crowded ↦
                  unchanged (u32 (full + 1)) (inr (inr crowded))
                    (rw (named, places, unlisted, crowded) refl)
              | inr (lo, hi, free) ↦
                  rw (named, places, unlisted)
                    (register_as_lem nw ttl unique_id full (get_next_free_node_id ttl) h room lo
                      (omega arith) free (ground arith) unlisted)
            ]
          ]
    ]
  where
    unchanged :
        (count : ℕ)
        → (nw.num_new_nodes ≡ max_nodes_allocated_at_once)
          ⊎ ((i : ℕ) × (index_from nw.new_node_unique_id unique_id nw.num_new_nodes 0 ≡ some i))
          ⊎ (get_next_free_node_id ttl ≡ invalid_node_id)
        → network_manager_register_new_node nw ttl unique_id full
          ≡ some (record { manager = nw; ttl = ttl; network_full_count = count })
        → Registers nw ttl unique_id (network_manager_register_new_node nw ttl unique_id full)
    unchanged count why e = record {
      after = record { manager = nw; ttl = ttl; network_full_count = count };
      returns = e;
      consistent = h;
      change = inl (record { same_manager = refl; same_ttl = refl; reason = why });
    }
