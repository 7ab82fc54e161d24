-- ===== src/NodeQueue/Rotation.antt =====
-- getNextNodeInQueue of src/common.c, called again and again.
use microbus.Common.{
  ℕ, zero, suc, ◌+◌, ◌-◌, ◌≤◌, ◌<◌, ◌≡◌, refl, sym, ap, ap₂, ◌∙◌, List, [], ◌∷◌, ◌++◌, cells, arith,
}
use microbus.Packet.{max_nodes}
use microbus.NodeQueue.{NodeQueue, get_next_node_in_queue}
use microbus.NodeQueue.Laws.{IsValid}

-- The nodes that `n` calls return, and the queue after them.
pub nexts : ℕ → NodeQueue → List ℕ
nexts zero q = []
nexts (suc n) q = (get_next_node_in_queue q).0 ∷ nexts n (get_next_node_in_queue q).1

pub after_calls : ℕ → NodeQueue → NodeQueue
after_calls zero q = q
after_calls (suc n) q = after_calls n (get_next_node_in_queue q).1

abbrev at_index : NodeQueue → ℕ → NodeQueue
at_index q i = record q { last_index = i }

next_inside :
    (q : NodeQueue) (i : ℕ)
    → q.num_nodes ≤ max_nodes
    → i + 1 < q.num_nodes
    → get_next_node_in_queue (at_index q i) ≡ (q.node_ids i, at_index q (i + 1))
unfolding get_next_node_in_queue
next_inside q i h k = ground arith

next_last :
    (q : NodeQueue) (i : ℕ)
    → q.num_nodes ≤ max_nodes
    → i + 1 ≡ q.num_nodes
    → get_next_node_in_queue (at_index q i) ≡ (q.node_ids i, at_index q 0)
unfolding get_next_node_in_queue
next_last q i h k = ground arith

module _ (q : NodeQueue) (fits : q.num_nodes ≤ max_nodes) where
  up :
      (n i : ℕ)
      → i + n < q.num_nodes
      → (nexts n (at_index q i) ≡ cells q.node_ids i n)
        × (after_calls n (at_index q i) ≡ at_index q (i + n))
  unfolding nexts after_calls
  up zero i h = (refl, ap (at_index q) (omega arith))
  up (suc n) i h =
      let e : i + 1 + n ≡ i + suc n = omega arith in
      let (out, aft) = up n (i + 1) (omega arith) in
      rw (next_inside q i fits (omega arith))
        (ap (λ l. q.node_ids i ∷ l) out, aft ∙ ap (at_index q) e)

  to_end :
      (n i : ℕ)
      → i + suc n ≡ q.num_nodes
      → (nexts (suc n) (at_index q i) ≡ cells q.node_ids i (suc n))
        × (after_calls (suc n) (at_index q i) ≡ at_index q 0)
  unfolding nexts after_calls
  to_end zero i h =
      let e = next_last q i fits (omega arith) in (ap (λ r. r.0 ∷ []) e, ap (λ r. r.1) e)
  to_end (suc n) i h =
      let (out, aft) = to_end n (i + 1) (omega arith) in
      rw (next_inside q i fits (omega arith)) (ap (λ l. q.node_ids i ∷ l) out, aft)

split_calls :
    (n m : ℕ) (q : NodeQueue)
    → (nexts (n + m) q ≡ nexts n q ++ nexts m (after_calls n q))
      × (after_calls (n + m) q ≡ after_calls m (after_calls n q))
unfolding nexts after_calls
split_calls zero m q = let e : zero + m ≡ m = omega arith in rw e (refl, refl)
split_calls (suc n) m q =
    let e : suc n + m ≡ suc (n + m) = omega arith in
    let (out, aft) = split_calls n m (get_next_node_in_queue q).1 in
    rw e (ap (λ l. (get_next_node_in_queue q).0 ∷ l) out, aft)

-- Round robin: from a valid queue that is not empty, as many calls of getNextNodeInQueue as there
-- are nodes return every node of the queue once, those from the current position on first, then
-- those before it, and leave the queue as it was.
pub round_robin :
    (q : NodeQueue)
    → IsValid q
    → 0 < q.num_nodes
    → (nexts q.num_nodes q
        ≡ cells q.node_ids q.last_index (q.num_nodes - q.last_index)
          ++ cells q.node_ids 0 q.last_index)
      × (after_calls q.num_nodes q ≡ q)
round_robin q v pos =
    let n : ℕ = q.num_nodes - q.last_index - 1 in
    let e : suc n ≡ q.num_nodes - q.last_index = omega arith in
    let all : suc n + q.last_index ≡ q.num_nodes = omega arith in
    let (out, aft) = to_end q v.fits n q.last_index (omega arith) in
    let (out', aft') = up q v.fits q.last_index 0 (omega arith) in
    let (outs, afts) = split_calls (suc n) q.last_index q in
    (
      ap (λ k. nexts k q) (sym all)
          ∙ outs
          ∙ ap₂ ◌++◌ (out ∙ ap (cells q.node_ids q.last_index) e)
              (ap (nexts q.last_index) aft ∙ out'),
      ap (λ k. after_calls k q) (sym all)
          ∙ afts
          ∙ ap (after_calls q.last_index) aft
          ∙ aft'
          ∙ ap (at_index q) (omega arith),
    )
