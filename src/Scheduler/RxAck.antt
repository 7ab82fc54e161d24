-- ===== src/Scheduler/RxAck.antt =====
-- The loop of getNextMasterRxAckNode of src/scheduler.c.
use microbus.Common.{
  ℕ, zero, suc, ◌+◌, ◌≤◌, ◌<◌, ◌≡◌, ◌≢◌, inl, inr, refl, ap, sym, true, false, ltb, ◌==◌,
  if◌then◌else◌, some, contains, cells, Nodup, Bool-cases, arith,
}
use microbus.Packet.{invalid_node_id}
use microbus.NodeQueue.{NodeQueue, get_next_node_in_queue}
use microbus.NodeQueue.Laws.{IsValid}
use microbus.Scheduler.{SchedulerState, recent_from, rx_ack_from, node_recently_sent}

-- Cells of a list without duplicates differ.
pub contains_cell :
    (f : ℕ → ℕ) (n i j : ℕ) → i ≤ j → j < i + n → contains (f j) (cells f i n) ≡ true
contains_cell f zero i j lo hi = absurd (omega arith)
contains_cell f (suc n) i j lo hi = ground (arith, contains_cell f n (i + 1) j)

cells_differ :
    (f : ℕ → ℕ) (n i j k : ℕ) → Nodup (cells f i n) → i ≤ j → j < k → k < i + n → f j ≢ f k
cells_differ f zero i j k d lo lt hi = absurd (omega arith)
cells_differ f (suc n) i j k d lo lt hi = elim (Bool-cases (i == j)) [
  | inl here ↦
      let at : i ≡ j = ground arith in
      let later = contains_cell f n (i + 1) k (omega arith) (omega arith) in
      λ e. absurd (ground (arith, d.0, ap f at))
  | inr other ↦ cells_differ f n (i + 1) j k d.1 (ground arith) lt (omega arith)
]

nodes_differ :
    (q : NodeQueue) (j k : ℕ)
    → IsValid q
    → j < q.num_nodes
    → k < q.num_nodes
    → j ≢ k
    → q.node_ids j ≢ q.node_ids k
nodes_differ q j k v hj hk ne = elim (Bool-cases (ltb j k)) [
  | inl lt ↦
      cells_differ q.node_ids q.num_nodes 0 j k v.distinct (omega arith) (ground arith)
        (omega arith)
  | inr ge ↦ λ e.
      cells_differ q.node_ids q.num_nodes 0 k j v.distinct (omega arith) (ground arith)
        (omega arith) (sym e)
]

-- Of four different nodes one was not sent to in the last three slots that the code looks at.
recent_few :
    (s : SchedulerState) (w x y z : ℕ)
    → w ≢ x
    → w ≢ y
    → w ≢ z
    → x ≢ y
    → x ≢ z
    → y ≢ z
    → node_recently_sent s w ≡ true
    → node_recently_sent s x ≡ true
    → node_recently_sent s y ≡ true
    → node_recently_sent s z ≡ false
unfolding node_recently_sent recent_from
recent_few s w x y z a b c d e f g h k = ground arith

-- The node after the next in the round.
abbrev after : NodeQueue → NodeQueue
after q = (get_next_node_in_queue q).1

after_lem :
    (q : NodeQueue)
    → IsValid q
    → 0 < q.num_nodes
    → IsValid (after q)
      × (q.last_index < q.num_nodes)
      × ((after q).last_index ≡ (if q.last_index + 1 == q.num_nodes then 0 else q.last_index + 1))
unfolding get_next_node_in_queue
after_lem q v some_node = (
  record { fits = v.fits; last = ground (arith, v.last, v.fits); distinct = v.distinct },
  ground (arith, v.last),
  ground (arith, v.last, v.fits),
)

abbrev current : NodeQueue → ℕ
current q = q.node_ids q.last_index

-- A result of the loop, with a valid queue.
abbrev Finds : SchedulerState → ℕ → ℕ → NodeQueue → Type 0
Finds s n i q = (x : ℕ × NodeQueue) × (rx_ack_from s n i q ≡ some x) × IsValid x.1

Finds-here :
    (s : SchedulerState) (n i : ℕ) (q : NodeQueue)
    → IsValid q
    → 0 < q.num_nodes
    → node_recently_sent s (current q) ≡ false
    → Finds s (suc n) i q
unfolding rx_ack_from
Finds-here s n i q v some_node new =
    let new' : node_recently_sent s (get_next_node_in_queue q).0 ≡ false =
      (unfold get_next_node_in_queue in new) in
    (get_next_node_in_queue q, rw (new', rx_ack_from) refl, (after_lem q v some_node).0)

Finds-later :
    (s : SchedulerState) (n i : ℕ) (q : NodeQueue)
    → i < 4
    → node_recently_sent s (current q) ≡ true
    → Finds s n (i + 1) (after q)
    → Finds s (suc n) i q
unfolding rx_ack_from
Finds-later s n i q small recent (x, found, v) =
    let recent' : node_recently_sent s (get_next_node_in_queue q).0 ≡ true =
      (unfold get_next_node_in_queue in recent) in
    let on : ltb i 4 ≡ true = ground arith in (x, rw (recent', on, rx_ack_from) found, v)

Finds-few :
    (s : SchedulerState) (n i : ℕ) (q : NodeQueue)
    → IsValid q
    → n ≤ q.num_nodes
    → n + i ≤ 4
    → Finds s n i q
unfolding rx_ack_from
Finds-few s zero i q v le few = ((invalid_node_id, q), refl, v)
Finds-few s (suc n) i q v le few = elim (Bool-cases (node_recently_sent s (current q))) [
  | inr new ↦ Finds-here s n i q v (omega arith) new
  | inl recent ↦ Finds-later s n i q (omega arith) recent (
      Finds-few s n (i + 1) (after q) (after_lem q v (omega arith)).0
        (unfold get_next_node_in_queue in omega arith) (omega arith))
]

-- Four places in a row of a queue of four or more differ.
abbrev following : ℕ → ℕ → ℕ
following n p = if p + 1 == n then 0 else p + 1

places_differ :
    (n p0 p1 p2 p3 : ℕ)
    → 4 ≤ n
    → p0 < n
    → p1 ≡ following n p0
    → p2 ≡ following n p1
    → p3 ≡ following n p2
    → (p0 ≢ p1) × (p0 ≢ p2) × (p0 ≢ p3) × (p1 ≢ p2) × (p1 ≢ p3) × (p2 ≢ p3)
places_differ n p0 p1 p2 p3 many lt e1 e2 e3 = (
  λ e. ground arith,
  λ e. ground arith,
  λ e. ground arith,
  λ e. ground arith,
  λ e. ground arith,
  λ e. ground arith,
)

-- Of four nodes in a row of a queue of four or more, one is new.
module _ (s : SchedulerState) (q0 : NodeQueue) (v0 : IsValid q0) (many : 4 ≤ q0.num_nodes) where
  abbrev q1 : NodeQueue
  q1 = after q0

  abbrev q2 : NodeQueue
  q2 = after q1

  abbrev q3 : NodeQueue
  q3 = after q2

  same_nodes :
      (q : NodeQueue) → ((after q).node_ids ≡ q.node_ids) × ((after q).num_nodes ≡ q.num_nodes)
  unfolding get_next_node_in_queue
  same_nodes q = (refl, refl)

  differs : (j k : ℕ) → j < q0.num_nodes → k < q0.num_nodes → j ≢ k → q0.node_ids j ≢ q0.node_ids k
  differs j k = nodes_differ q0 j k v0

  Finds-fourth : (m : ℕ) → Finds s (suc (suc (suc (suc m)))) 0 q0
  unfolding get_next_node_in_queue
  Finds-fourth m =
      let (v1, in0, at1) = after_lem q0 v0 (omega arith) in
      let (v2, in1, at2) = after_lem q1 v1 (omega arith) in
      let (v3, in2, at3) = after_lem q2 v2 (omega arith) in
      let (_, in3, _) = after_lem q3 v3 (omega arith) in
      let (d01, d02, d03, d12, d13, d23) =
        places_differ q0.num_nodes q0.last_index q1.last_index q2.last_index q3.last_index many in0
          at1 at2 at3 in
      elim (Bool-cases (node_recently_sent s (current q0))) [
        | inr new ↦ Finds-here s (suc (suc (suc m))) 0 q0 v0 (omega arith) new
        | inl r0 ↦
            Finds-later s (suc (suc (suc m))) 0 q0 (omega arith) r0
              (elim (Bool-cases (node_recently_sent s (current q1))) [
                | inr new ↦ Finds-here s (suc (suc m)) 1 q1 v1 (omega arith) new
                | inl r1 ↦
                    Finds-later s (suc (suc m)) 1 q1 (omega arith) r1
                      (elim (Bool-cases (node_recently_sent s (current q2))) [
                        | inr new ↦ Finds-here s (suc m) 2 q2 v2 (omega arith) new
                        | inl r2 ↦ Finds-later s (suc m) 2 q2 (omega arith) r2 (
                            Finds-here s m 3 q3 v3 (omega arith) (
                              recent_few s (current q0) (current q1) (current q2) (current q3)
                                (differs q0.last_index q1.last_index in0 in1 d01)
                                (differs q0.last_index q2.last_index in0 in2 d02)
                                (differs q0.last_index q3.last_index in0 in3 d03)
                                (differs q1.last_index q2.last_index in1 in2 d12)
                                (differs q1.last_index q3.last_index in1 in3 d13)
                                (differs q2.last_index q3.last_index in2 in3 d23) r0 r1 r2))
                      ])
              ])
      ]

pub finds :
    (s : SchedulerState) (n : ℕ) (q : NodeQueue) → IsValid q → n ≡ q.num_nodes → Finds s n 0 q
finds s zero q v e = Finds-few s zero 0 q v (omega arith) (omega arith)
finds s (suc zero) q v e = Finds-few s (suc zero) 0 q v (omega arith) (omega arith)
finds s (suc (suc zero)) q v e = Finds-few s (suc (suc zero)) 0 q v (omega arith) (omega arith)
finds s (suc (suc (suc zero))) q v e =
    Finds-few s (suc (suc (suc zero))) 0 q v (omega arith) (omega arith)
finds s (suc (suc (suc (suc m)))) q v e = Finds-fourth s q v (omega arith) m
