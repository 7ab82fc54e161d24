-- ===== src/NetworkManager/Table.antt =====
-- src/networkManager.c: the table of the nodes that the master has let in and not heard of since.
use microbus.Common.{
  ℕ, zero, suc, ◌+◌, ◌-◌, ◌≤◌, ◌<◌, ◌≡◌, ◌≢◌, refl, ◌∙◌, Bool, true, false, ◌==◌, if◌then◌else◌,
  ltb, leb, ◌&&◌, none, some, update, Bool-cases, Option-cases, inl, inr, arith,
}
use microbus.NetworkManager.{
  NetworkManager, index_from, shift_table, max_nodes_allocated_at_once,
  network_manager_remove_new_node_request,
}

-- The unique ids of the table are not 0 and are in it once, as are the node ids.
pub record IsTable (nw : NetworkManager) : Type 0 where
  pub few : nw.num_new_nodes ≤ max_nodes_allocated_at_once
  pub named : (i : ℕ) → i < nw.num_new_nodes → 0 < nw.new_node_unique_id i
  pub one_name :
      (i j : ℕ) → i < j → j < nw.num_new_nodes → nw.new_node_unique_id i ≢ nw.new_node_unique_id j
  pub one_number : (i j : ℕ) → i < j → j < nw.num_new_nodes → nw.new_node_id i ≢ nw.new_node_id j

-- What the search finds.
pub search_misses :
    (table : ℕ → ℕ) (value n i : ℕ)
    → index_from table value n i ≡ none
    → (k : ℕ) → i ≤ k
    → k < i + n
    → table k ≢ value
unfolding index_from
search_misses table value zero i e k lo hi = absurd (omega arith)
search_misses table value (suc n) i e k lo hi = elim (Bool-cases (table i == value)) [
  | inl here ↦ absurd (ground arith)
  | inr there ↦ elim (Bool-cases (k == i)) [
    | inl first ↦ ground arith
    | inr later ↦ search_misses table value n (i + 1) (ground arith) k (ground arith) (omega arith)
  ]
]

pub search_finds :
    (table : ℕ → ℕ) (value n i : ℕ) {p : ℕ}
    → index_from table value n i ≡ some p
    → (i ≤ p) × (p < i + n) × (table p ≡ value)
unfolding index_from
search_finds table value zero i e = cc
search_finds table value (suc n) i {p} e =
    ground (arith, search_finds table value n (i + 1) {p = p})

shift_table_lem :
    (n i : ℕ) (f : ℕ → ℕ) (j : ℕ)
    → shift_table n i f j ≡ (if leb i j && ltb j (i + n) then f (j + 1) else f j)
unfolding shift_table
shift_table_lem zero i f j = ground arith
shift_table_lem (suc n) i f j = ground (arith, shift_table_lem n (i + 1) (update f i (f (i + 1))) j)

-- Where entry `j` of the table was before the entry `p` was taken out.
abbrev pub kept : ℕ → ℕ → ℕ
kept p j = if ltb j p then j else j + 1

-- The table with the entry `p` taken out.
pub record Without (nw : NetworkManager) (p : ℕ) (after : NetworkManager) : Type 0 where
  pub queue : after.active_nodes ≡ nw.active_nodes
  pub number : after.num_new_nodes ≡ nw.num_new_nodes - 1
  pub names :
      (j : ℕ)
      → j < nw.num_new_nodes - 1
      → after.new_node_unique_id j ≡ nw.new_node_unique_id (kept p j)
  pub numbers : (j : ℕ) → j < nw.num_new_nodes - 1 → after.new_node_id j ≡ nw.new_node_id (kept p j)

-- What networkManagerRemoveNewNodeRequest does: the entry of the node, if there is one, is taken out.
pub data Removed (nw : NetworkManager) (node_id : ℕ) (found : Bool) (after : NetworkManager)
    : Type 0 where
  absent :
      found ≡ false
      → after ≡ nw
      → ((k : ℕ) → k < nw.num_new_nodes → nw.new_node_id k ≢ node_id)
      → Removed nw node_id found after
  taken :
      (p : ℕ)
      → p < nw.num_new_nodes
      → nw.new_node_id p ≡ node_id
      → found ≡ true
      → Without nw p after
      → Removed nw node_id found after

-- networkManagerRemoveNewNodeRequest on a table does not stop. It returns whether the node has an
-- entry; then that entry is taken out and the others keep their order, else nothing changes.
pub remove_request_refines :
    (nw : NetworkManager) (node_id : ℕ)
    → IsTable nw
    → (found : Bool) × (after : NetworkManager) × (network_manager_remove_new_node_request nw
          node_id
        ≡ some (found, after))
      × Removed nw node_id found after
unfolding network_manager_remove_new_node_request
remove_request_refines nw node_id h =
    elim (Option-cases (index_from nw.new_node_id node_id nw.num_new_nodes 0)) [
      | inl none_there ↦ (
        false,
        nw,
        rw (none_there, network_manager_remove_new_node_request) refl,
        absent refl refl (λ k lt.
            search_misses nw.new_node_id node_id nw.num_new_nodes 0 none_there k (omega arith)
              (omega arith)),
      )
      | inr (p, there) ↦
          let (_, lt, same) = search_finds nw.new_node_id node_id nw.num_new_nodes 0 there in
          let named : ltb 0 (nw.new_node_unique_id p) ≡ true = ground (arith, h.named p) in
          let num = nw.num_new_nodes - 1 in
          (
            true,
            record nw {
              new_node_unique_id = shift_table (num - p) p nw.new_node_unique_id;
              new_node_id = shift_table (num - p) p nw.new_node_id;
              num_new_nodes = num;
            },
            rw (there, named, network_manager_remove_new_node_request) refl,
            taken p (omega arith) same refl (record {
              queue = refl;
              number = refl;
              names = λ j below. shift_table_lem (num - p) p nw.new_node_unique_id j ∙ ground arith;
              numbers = λ j below. shift_table_lem (num - p) p nw.new_node_id j ∙ ground arith;
            }),
          )
    ]

-- A table without an entry is a table.
pub Without-IsTable :
    {nw after : NetworkManager} {p : ℕ}
    → p < nw.num_new_nodes
    → Without nw p after
    → IsTable nw
    → IsTable after
Without-IsTable {nw} {after} {p} lt w h = record {
  few = omega (arith, w.number, h.few);
  named = λ i hi. ground (arith, w.number, w.names i, h.named (kept p i));
  one_name = λ i j less hi.
      ground (arith, w.number, w.names i, w.names j, h.one_name (kept p i) (kept p j));
  one_number = λ i j less hi.
      ground (arith, w.number, w.numbers i, w.numbers j, h.one_number (kept p i) (kept p j));
}
