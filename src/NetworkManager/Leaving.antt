-- ===== src/NetworkManager/Leaving.antt =====
-- The removal of a node by masterRemoveAnyTimeoutNodes of src/master.c, the part in
-- src/networkManager.c, on a consistent network.
use microbus.Common.{
  ℕ, ◌≤◌, ◌<◌, ◌≡◌, inl, inr, sym, ap, ◌∙◌, Bool, ◌==◌, some, update, contains, contains-erase_ne,
  contains-erase_self, Bool-cases, arith,
}
use mathlib.Core.Path.{subst}
use microbus.Packet.{max_nodes, first_node_id}
use microbus.NodeQueue.{ids, node_queue_remove_if_exists}
use microbus.NodeQueue.Laws.{ids-remove, queue_remove-IsValid}
use microbus.NetworkManager.{NetworkManager, network_manager_remove_new_node_request}
use microbus.NetworkManager.Table.{
  IsTable, Without-IsTable, Removed, absent, taken, remove_request_refines, kept,
}
use microbus.NetworkManager.Members.{Members, IsNetwork}

-- The node that is removed is not in the table any more.
Removed-listed :
    (m : Members) (node_id : ℕ) (found : Bool) (after : NetworkManager)
    → Removed m.nw node_id found after
    → IsNetwork m
    → (i : ℕ) → i < after.num_new_nodes
    → (0 < after.new_node_id i)
      × (after.new_node_id i < max_nodes)
      × (0 < update m.ttl node_id 0 (after.new_node_id i))
Removed-listed m node_id found after (absent missing same others) h i hi =
    let number = ap (λ w. w.new_node_id i) same in
    let num = ap (λ w. w.num_new_nodes) same in ground (arith, number, num, others i, h.listed i)
Removed-listed m node_id found after (taken p below here there w) h i hi = ground (
  arith,
  w.number,
  w.numbers i,
  h.listed (kept p i),
  h.table.one_number (kept p i) p,
  h.table.one_number p (kept p i),
)

Removed-IsTable :
    {nw after : NetworkManager} {node_id : ℕ} {found : Bool}
    → Removed nw node_id found after
    → IsTable nw
    → IsTable after × (after.active_nodes ≡ nw.active_nodes)
Removed-IsTable (absent missing same others) h =
    (subst IsTable (sym same) h, ap (λ w. w.active_nodes) same)
Removed-IsTable (taken p below here there w) h = (Without-IsTable below w h, w.queue)

Removed-IsNetwork :
    (m : Members) (node_id : ℕ) (found : Bool) (after : NetworkManager)
    → first_node_id ≤ node_id
    → Removed m.nw node_id found after
    → IsNetwork m
    → IsNetwork (record {
      nw = record after { active_nodes = node_queue_remove_if_exists after.active_nodes node_id };
      ttl = update m.ttl node_id 0;
    })
Removed-IsNetwork m node_id found after lo done h =
    let (table, queue) = Removed-IsTable done h.table in
    let erased = λ (j : ℕ). ap (contains j) (ids-remove m.nw.active_nodes node_id) in
    record {
      queue = rw queue (queue_remove-IsValid m.nw.active_nodes node_id h.queue);
      members = λ j. rw queue (
          erased j ∙ elim (Bool-cases (j == node_id)) [
            | inl same ↦
                ground (arith, contains-erase_self node_id (ids m.nw.active_nodes) h.queue.distinct)
            | inr other ↦
                ground (arith, contains-erase_ne node_id j (ids m.nw.active_nodes), h.members j)
          ]);
      bounded = λ j lt. ground (arith, h.bounded j);
      table = record {
        few = table.few;
        named = table.named;
        one_name = table.one_name;
        one_number = table.one_number;
      };
      listed = Removed-listed m node_id found after done h;
    }

pub remove-IsNetwork :
    (m : Members) (node_id : ℕ) (found : Bool) {nw : NetworkManager}
    → first_node_id ≤ node_id
    → network_manager_remove_new_node_request m.nw node_id ≡ some (found, nw)
    → IsNetwork m
    → IsNetwork (record {
      nw = record nw { active_nodes = node_queue_remove_if_exists nw.active_nodes node_id };
      ttl = update m.ttl node_id 0;
    })
remove-IsNetwork m node_id found {nw} lo e h =
    let (found', after, ok, done) = remove_request_refines m.nw node_id h.table in
    let same : after ≡ nw = cc in
    subst
      (λ w. IsNetwork (record {
        nw = record w { active_nodes = node_queue_remove_if_exists w.active_nodes node_id };
        ttl = update m.ttl node_id 0;
      }))
      same (Removed-IsNetwork m node_id found' after lo done h)
