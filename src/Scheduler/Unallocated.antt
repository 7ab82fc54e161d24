-- ===== src/Scheduler/Unallocated.antt =====
-- The slots that src/scheduler.c leaves to nodes that are not on the network yet.
use microbus.Common.{
  ℕ, zero, suc, ◌+◌, ◌-◌, ◌≤◌, ◌<◌, ◌≡◌, refl, true, ◌==◌, Option, some, ◌>>=◌, u8, Bool-cases,
  Option-cases, ◌⊎◌, inl, inr, none, arith,
}
use microbus.Packet.{unallocated_node_id}
use microbus.NodeQueue.{NodeQueue}
use microbus.NodeQueue.Laws.{IsValid}
use microbus.Scheduler.{Scheduler, SchedulerState}
use microbus.Scheduler.Slots.{update_gap, schedule_next_node}
use microbus.Scheduler.Pace.{slots_left, pace, next_before}
use microbus.Scheduler.Total.{IsReady, schedule_next_returns}

-- What the rest of the master sets for a slot: the level of the master's buffer, the queues, and the
-- levels of the nodes' buffers.
pub record Traffic : Type 0 where
  pub level : ℕ
  pub active_nodes : NodeQueue
  pub active_tx_nodes : Option NodeQueue
  pub node_tx_nodes : NodeQueue
  pub node_tx_buffer_level : ℕ → ℕ

abbrev pub set_traffic : Scheduler → Traffic → Scheduler
set_traffic s t = record {
  state = record (s.state) { node_tx_buffer_level = t.node_tx_buffer_level };
  active_nodes = t.active_nodes;
  active_tx_nodes = t.active_tx_nodes;
  node_tx_nodes = t.node_tx_nodes;
}

-- The queue of the nodes that are sent to is a valid one, where there is one.
abbrev pub HasValidQueue : Traffic → Type 0
HasValidQueue t =
    (t.active_tx_nodes ≡ none) ⊎ (q : NodeQueue) × (t.active_tx_nodes ≡ some q) × IsValid q

-- As many calls of scheduleNextNode as there are slots, each with what is set before it.
unfoldable pub schedule_times : ℕ → (ℕ → Traffic) → Scheduler → Option Scheduler
schedule_times zero traffic s = some s
schedule_times (suc n) traffic s = do
  r ← schedule_next_node (set_traffic s (traffic n)) (traffic n).level
  schedule_times n traffic r.1

after_times :
    (n : ℕ) (traffic : ℕ → Traffic) (s s' : Scheduler)
    → n ≤ slots_left s
    → schedule_times n traffic s ≡ some s'
    → pace s' ≡ record (pace s) { left = slots_left s - n }
unfolding schedule_times
after_times zero traffic s s' le e = ground arith
after_times (suc n) traffic s s' le e =
    let set = set_traffic s (traffic n) in
    elim (Option-cases (schedule_next_node set (traffic n).level)) [
      | inl stops ↦ absurd (ground arith)
      | inr (r, goes) ↦
          let step = next_before set r.1 (traffic n).level r.0 (omega arith) (ground arith) in
          let rest = after_times n traffic r.1 s' (ground arith) (ground arith) in ground arith
    ]

set_traffic-IsReady :
    (s : Scheduler) (t : Traffic) → IsReady s → HasValidQueue t → IsReady (set_traffic s t)
set_traffic-IsReady s t h queue = record { turn = h.turn; queue = queue }

times_return :
    (n : ℕ) (traffic : ℕ → Traffic) (s : Scheduler)
    → IsReady s
    → ((k : ℕ) → HasValidQueue (traffic k))
    → (s' : Scheduler) × (schedule_times n traffic s ≡ some s')
unfolding schedule_times
times_return zero traffic s h queues = (s, refl)
times_return (suc n) traffic s h queues =
    let (x, ok, ready) =
      schedule_next_returns (set_traffic s (traffic n)) (traffic n).level
        (set_traffic-IsReady s (traffic n) h (queues n)) in
    let (s', rest) = times_return n traffic x.1 ready queues in (s', rw (ok, schedule_times) rest)

-- As many calls of scheduleNextNode as the scheduler counts return, and the next one leaves its slot to
-- nodes that want to join, whatever the buffer levels and the queues are set to before each of the
-- calls, with a valid queue of the nodes that are sent to, as long as no new node is heard in between.
pub join_slot_comes :
    (s : Scheduler) (traffic : ℕ → Traffic) (last : Traffic)
    → IsReady s
    → ((k : ℕ) → HasValidQueue (traffic k))
    → (s' next : Scheduler) × (schedule_times (slots_left s) traffic s ≡ some s')
      × (schedule_next_node (set_traffic s' last) last.level ≡ some (unallocated_node_id, next))
unfolding schedule_next_node
join_slot_comes s traffic last h queues =
    let (s', e) = times_return (slots_left s) traffic s h queues in
    let counted = after_times (slots_left s) traffic s s' (omega arith) e in
    let due : (s'.state.count_till_next_allocation == 0) ≡ true = ground arith in
    let set = set_traffic s' last in
    (
      s',
      record set {
        state = record (update_gap set.state) {
          count_till_next_allocation = u8 ((update_gap set.state).unallocated_slot_gap + 255);
        };
      },
      e,
      rw due refl,
    )

-- The gap between such slots is within its bound, and a byte holds its double.
pub record IsPaced (s : Scheduler) : Type 0 where
  pub some_gap : 0 < s.state.unallocated_slot_gap
  pub gap_bound : s.state.unallocated_slot_gap ≤ s.state.max_slots_between_unallocated
  pub bound : s.state.max_slots_between_unallocated ≤ 128
  pub left_bound : slots_left s ≤ s.state.max_slots_between_unallocated

gap_grows :
    (s : SchedulerState)
    → 0 < s.unallocated_slot_gap
    → s.unallocated_slot_gap ≤ s.max_slots_between_unallocated
    → s.max_slots_between_unallocated ≤ 128
    → (s.unallocated_slot_gap ≤ (update_gap s).unallocated_slot_gap)
      × ((update_gap s).unallocated_slot_gap ≤ s.max_slots_between_unallocated)
      × ((update_gap s).max_slots_between_unallocated ≡ s.max_slots_between_unallocated)
unfolding update_gap
gap_grows s h k l = ground arith

-- scheduleNextNode keeps the gap between the slots that are left to nodes that want to join, and the
-- count of slots until the next one, within MAX_SLOTS_BETWEEN_UNALLOCATED, if that is at most 128, and
-- never makes the gap smaller.
pub schedule_next-IsPaced :
    (s s' : Scheduler) (level node : ℕ)
    → IsPaced s
    → schedule_next_node s level ≡ some (node, s')
    → IsPaced s' × (s.state.unallocated_slot_gap ≤ s'.state.unallocated_slot_gap)
unfolding schedule_next_node
schedule_next-IsPaced s s' level node h e = elim (Bool-cases (slots_left s == 0)) [
  | inl due ↦
      let grows = gap_grows s.state h.some_gap h.gap_bound h.bound in
      let gap : s'.state.unallocated_slot_gap ≡ (update_gap s.state).unallocated_slot_gap =
        ground arith in
      let most : s'.state.max_slots_between_unallocated
          ≡ (update_gap s.state).max_slots_between_unallocated =
        ground arith in
      let left : slots_left s' ≡ u8 ((update_gap s.state).unallocated_slot_gap + 255) =
        ground arith in
      (
        record {
          some_gap = omega (arith, h.some_gap);
          gap_bound = omega arith;
          bound = omega (arith, h.bound);
          left_bound = omega (arith, h.bound, h.some_gap);
        },
        omega arith,
      )
  | inr later ↦
      let step = next_before s s' level node (ground arith) e in
      (
        record {
          some_gap = ground (arith, h.some_gap);
          gap_bound = ground (arith, h.gap_bound);
          bound = ground (arith, h.bound);
          left_bound = ground (arith, h.left_bound);
        },
        ground arith,
      )
]
