-- ===== src/NodeQueue.antt =====
-- src/common.c: the queue of node ids. `tNodeQueue.nodeIds` is an array; its first `numNodes` cells
-- are the queue.
pub mod Laws
pub mod Rotation
mod Tests
use microbus.Common.{
  ℕ, zero, suc, ◌+◌, ◌-◌, ◌≤◌, ◌<◌, Bool, true, false, List, ltb, leb, ◌==◌, if◌then◌else◌, Option,
  none, some, ◌>>=◌, ◌>>◌, assert, update, cells, u8,
}
use microbus.Packet.{max_nodes}

-- `tNodeQueue`
pub record NodeQueue : Type 0 where
  pub node_ids : ℕ → ℕ
  pub num_nodes : ℕ
  pub last_index : ℕ

-- The search loop, with the rounds left and the index: the first index that holds the id.
pub find_from : (ℕ → ℕ) → ℕ → ℕ → ℕ → Option ℕ
find_from ids node_id zero i = none
find_from ids node_id (suc n) i =
    if ids i == node_id then some i else find_from ids node_id n (i + 1)

-- `nodeQueueAdd`: the assertion and what `false` would tell its caller are the `none`.
unfoldable pub node_queue_add : NodeQueue → ℕ → Option NodeQueue
unfolding find_from
node_queue_add q node_id =
    if ltb q.num_nodes max_nodes
    then elim (find_from q.node_ids node_id q.num_nodes 0) [
      | some i ↦ some q
      | none ↦ some (record q {
        node_ids = update q.node_ids q.num_nodes node_id;
        num_nodes = u8 (q.num_nodes + 1);
      })
    ]
    else none

-- The loop that shifts the entries down by 1, with the rounds left and the index.
pub shift_from : ℕ → ℕ → (ℕ → ℕ) → ℕ → ℕ
shift_from zero j ids = ids
shift_from (suc n) j ids = shift_from n (j + 1) (update ids j (ids (j + 1)))

-- What happens at the index found.
pub remove_at : NodeQueue → ℕ → NodeQueue
unfolding shift_from
remove_at q i =
    let num = q.num_nodes - 1 in
    record q {
      node_ids = shift_from (num - i) i q.node_ids;
      num_nodes = num;
      last_index = if leb num q.last_index then 0 else q.last_index;
    }

-- `nodeQueueRemoveIfExists`
unfoldable pub node_queue_remove_if_exists : NodeQueue → ℕ → NodeQueue
unfolding find_from remove_at
node_queue_remove_if_exists q node_id =
    if ltb 0 q.num_nodes
    then elim (find_from q.node_ids node_id q.num_nodes 0) [ some i ↦ remove_at q i | none ↦ q ]
    else q

-- `nodeQueueRemove`
unfoldable pub node_queue_remove : NodeQueue → ℕ → Option NodeQueue
node_queue_remove q node_id = do
  assert (ltb 0 q.num_nodes)
  let r = node_queue_remove_if_exists q node_id
  assert (q.num_nodes == r.num_nodes + 1)
  some r

-- `queueReachedEnd`
unfoldable pub queue_reached_end : NodeQueue → Bool
queue_reached_end q = leb q.num_nodes (q.last_index + 1)

-- `getNextNodeInQueue`
unfoldable pub get_next_node_in_queue : NodeQueue → ℕ × NodeQueue
get_next_node_in_queue q =
    let next = u8 (q.last_index + 1) in
    (q.node_ids q.last_index, record q { last_index = if leb q.num_nodes next then 0 else next })

-- The queue that the array stands for.
abbrev pub ids : NodeQueue → List ℕ
ids q = cells q.node_ids 0 q.num_nodes

-- What `memset` to 0 leaves.
abbrev pub zero_queue : NodeQueue
zero_queue = record { node_ids = λ i. 0; num_nodes = 0; last_index = 0 }
