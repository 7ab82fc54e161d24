-- ===== src/Scheduler/Schedule.antt =====
-- schedulerUpdateAndCalcNextTxNodes of src/scheduler.c: what it makes of the schedule.
use microbus.Common.{
  cells, cells-eq, ℕ, zero, suc, ◌+◌, ◌-◌, ◌≤◌, ◌<◌, ◌≡◌, ◌⊎◌, inl, inr, refl, ◌∙◌, true, false,
  ltb, leb, ◌==◌, ◌&&◌, if◌then◌else◌, some, >>=-eq-some, update, Bool-cases, arith,
}
use microbus.Packet.{master_node_id}
use microbus.Scheduler.{Scheduler}
use microbus.Scheduler.Total.{IsReady, schedule_next_returns}
use microbus.Scheduler.Slots.{
  Shifted, shift_schedule, schedule_next_node, scheduler_update_and_calc_next_tx_nodes,
}

shift_schedule_lem :
    (n i : ℕ) (s : Shifted) (j : ℕ)
    → (shift_schedule n i s).nodes_to_tx j
      ≡ (if leb i j && ltb j (i + n) then s.nodes_to_tx (j + 1) else s.nodes_to_tx j)
unfolding shift_schedule
shift_schedule_lem zero i s j = ground arith
shift_schedule_lem (suc n) i s j =
    shift_schedule_lem n (i + 1)
      (record {
        nodes_to_tx = update s.nodes_to_tx i (s.nodes_to_tx (i + 1));
        level = if s.nodes_to_tx (i + 1) == master_node_id then s.level - 1 else s.level;
        one_master_tx = if s.nodes_to_tx (i + 1) == master_node_id then true else s.one_master_tx;
      })
      j
    ∙ ground arith

-- The loop says truly whether the master has one of the slots that it shifts.
shift_schedule_master :
    (n i : ℕ) (s : Shifted)
    → (shift_schedule n i s).one_master_tx ≡ true
    → (s.one_master_tx ≡ true)
      ⊎ ((j : ℕ) × (i ≤ j) × (j < i + n) × (s.nodes_to_tx (j + 1) ≡ master_node_id))
unfolding shift_schedule
shift_schedule_master zero i s h = inl h
shift_schedule_master (suc n) i s h =
    elim (shift_schedule_master n (i + 1)
      (record {
        nodes_to_tx = update s.nodes_to_tx i (s.nodes_to_tx (i + 1));
        level = if s.nodes_to_tx (i + 1) == master_node_id then s.level - 1 else s.level;
        one_master_tx = if s.nodes_to_tx (i + 1) == master_node_id then true else s.one_master_tx;
      })
      h) [
        | inl before ↦ elim (Bool-cases (s.nodes_to_tx (i + 1) == master_node_id)) [
          | inl here ↦ inr (i, omega arith, omega arith, ground arith)
          | inr other ↦ inl (ground arith)
        ]
        | inr (j, lo, hi, at) ↦ inr (j, omega arith, omega arith, ground arith)
      ]

module _ (s : Scheduler) (nodes : ℕ → ℕ) (level : ℕ)
    (many : 1 < s.state.num_tx_nodes_scheduled) where
  abbrev before : Shifted
  before = record { nodes_to_tx = nodes; level = level; one_master_tx = false }

  abbrev shifted : Shifted
  shifted = shift_schedule (s.state.num_tx_nodes_scheduled - 1) 0 before

  moved_by_one :
      (v j : ℕ)
      → j + 1 < s.state.num_tx_nodes_scheduled
      → update shifted.nodes_to_tx (s.state.num_tx_nodes_scheduled - 1) v j ≡ nodes (j + 1)
  moved_by_one v j lt =
      let inner : (j == s.state.num_tx_nodes_scheduled - 1) ≡ false = ground arith in
      let inside : (leb 0 j && ltb j (0 + (s.state.num_tx_nodes_scheduled - 1))) ≡ true =
        ground arith in
      rw inner (shift_schedule_lem (s.state.num_tx_nodes_scheduled - 1) 0 before j ∙ rw inside refl)

  rest_moved :
      (v : ℕ)
      → cells
          (update shifted.nodes_to_tx (s.state.num_tx_nodes_scheduled - 1) v)
          0
          (s.state.num_tx_nodes_scheduled - 1)
        ≡ cells nodes 1 (s.state.num_tx_nodes_scheduled - 1)
  rest_moved v =
      cells-eq (update shifted.nodes_to_tx (s.state.num_tx_nodes_scheduled - 1) v) nodes 1 0
        (s.state.num_tx_nodes_scheduled - 1) (λ j lo hi. moved_by_one v j (omega arith))

  has_master :
      (v : ℕ)
      → (shifted.one_master_tx ≡ true) ⊎ (v ≡ master_node_id)
      → (j : ℕ) × (j < s.state.num_tx_nodes_scheduled)
        × (update shifted.nodes_to_tx (s.state.num_tx_nodes_scheduled - 1) v j ≡ master_node_id)
  has_master v (inr last) = (s.state.num_tx_nodes_scheduled - 1, omega arith, ground arith)
  has_master v (inl one) =
      elim (shift_schedule_master (s.state.num_tx_nodes_scheduled - 1) 0 before one) [
        | inl never ↦ absurd (ground arith)
        | inr (j, lo, hi, at) ↦ (j, omega arith, moved_by_one v j (omega arith) ∙ at)
      ]

schedule_moves :
    (s s' : Scheduler) (nodes nodes' : ℕ → ℕ) (level : ℕ)
    → 1 < s.state.num_tx_nodes_scheduled
    → scheduler_update_and_calc_next_tx_nodes s nodes level ≡ some (nodes', s')
    → (cells nodes' 0 (s.state.num_tx_nodes_scheduled - 1)
        ≡ cells nodes 1 (s.state.num_tx_nodes_scheduled - 1))
      × ((j : ℕ) × (j < s.state.num_tx_nodes_scheduled) × (nodes' j ≡ master_node_id))
unfolding scheduler_update_and_calc_next_tx_nodes
schedule_moves s s' nodes nodes' level many e =
    let result : (ℕ → ℕ) × Scheduler = (nodes', s') in
    let several : (s.state.num_tx_nodes_scheduled == 1) ≡ false = ground arith in
    elim (Bool-cases (shifted s nodes level many).one_master_tx) [
      | inl one ↦
          let (r, ok, same) =
            >>=-eq-some (schedule_next_node s (shifted s nodes level many).level)
              (λ r. some (
                update (shifted s nodes level many).nodes_to_tx (s.state.num_tx_nodes_scheduled - 1)
                    r.0,
                r.1,
              ))
              {b = result} (ground arith) in
          let eq : update (shifted s nodes level many).nodes_to_tx
                (s.state.num_tx_nodes_scheduled - 1) r.0
              ≡ nodes' =
            ground arith in
          rw (← eq) (rest_moved s nodes level many r.0, has_master s nodes level many r.0 (inl one))
      | inr none_left ↦
          let eq : update (shifted s nodes level many).nodes_to_tx
                (s.state.num_tx_nodes_scheduled - 1) master_node_id
              ≡ nodes' =
            ground arith in
          rw (← eq) (
            rest_moved s nodes level many master_node_id,
            has_master s nodes level many master_node_id (inr refl),
          )
    ]

-- With two slots or more in the schedule, schedulerUpdateAndCalcNextTxNodes does not stop: the schedule
-- moves on by one slot, all but its end, and the master has one of its slots.
pub schedule_refines :
    (s : Scheduler) (nodes : ℕ → ℕ) (level : ℕ)
    → IsReady s
    → 1 < s.state.num_tx_nodes_scheduled
    → (nodes' : ℕ → ℕ) × (s' : Scheduler) × (scheduler_update_and_calc_next_tx_nodes s nodes level
        ≡ some (nodes', s'))
      × IsReady s'
      × (cells nodes' 0 (s.state.num_tx_nodes_scheduled - 1)
          ≡ cells nodes 1 (s.state.num_tx_nodes_scheduled - 1))
      × ((j : ℕ) × (j < s.state.num_tx_nodes_scheduled) × (nodes' j ≡ master_node_id))
unfolding scheduler_update_and_calc_next_tx_nodes
schedule_refines s nodes level h many =
    let (nodes', s', e, ready) = returns in
    let (moved, master) = schedule_moves s s' nodes nodes' level many e in
    (nodes', s', e, ready, moved, master)
  where
    returns :
        (nodes' : ℕ → ℕ) × (s' : Scheduler) × (scheduler_update_and_calc_next_tx_nodes s nodes level
          ≡ some (nodes', s'))
        × IsReady s'
    returns =
        let several : (s.state.num_tx_nodes_scheduled == 1) ≡ false = ground arith in
        elim (Bool-cases (shifted s nodes level many).one_master_tx) [
          | inl one ↦
              let (x, ok, ready) = schedule_next_returns s (shifted s nodes level many).level h in
              (
                update (shifted s nodes level many).nodes_to_tx (s.state.num_tx_nodes_scheduled - 1)
                    x.0,
                x.1,
                rw (several, one, ok) refl,
                ready,
              )
          | inr none_left ↦ (
            update (shifted s nodes level many).nodes_to_tx (s.state.num_tx_nodes_scheduled - 1)
                master_node_id,
            s,
            rw (several, none_left) refl,
            h,
          )
        ]
