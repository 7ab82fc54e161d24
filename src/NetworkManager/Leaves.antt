-- ===== src/NetworkManager/Leaves.antt =====
-- The two clocks of src/networkManager.c: the node's own time to live and the master's for the node.
use microbus.Common.{
  ℕ, ◌+◌, ◌-◌, ◌*◌, ◌≤◌, ◌<◌, ◌≡◌, ◌⊎◌, refl, ap, ◌∙◌, true, ◌==◌, ltb, leb, List, [], ◌∷◌, u32,
  Bool-cases, inl, inr, arith,
}
use microbus.Packet.{max_nodes, first_node_id}
use microbus.NetworkManager.{
  NetworkManager, master_max_time_to_live, remove_node_ttl, time_to_live_update_time_us,
  node_timeout_us, tick_ttl, network_manager_update_time_us,
}
use microbus.NetworkManager.TimeToLive.{
  tick_from_lem, tick_lem, master_after, total, AreBrief, brief_calls,
}
use microbus.NetworkManager.NodeSide.{node_nw_update_time_us, node_nw_has_node_timed_out}

-- The calls of the timer of the node, each with the time that passed.
unfoldable pub node_after : List ℕ → ℕ → ℕ
node_after [] time_to_live = time_to_live
node_after (d ∷ ds) time_to_live = node_after ds (node_nw_update_time_us time_to_live d)

-- Each is less than 2 ^ 31.
abbrev pub AreShort : List ℕ → Type 0
AreShort [] = Unit
AreShort (d ∷ ds) = (d < 2147483648) × AreShort ds

stays_out :
    (ds : List ℕ) (v : ℕ)
    → node_nw_has_node_timed_out v ≡ true
    → node_nw_has_node_timed_out (node_after ds v) ≡ true
unfolding node_after
stays_out [] v out = out
stays_out (d ∷ ds) v out =
    let still : node_nw_update_time_us v d ≡ v =
      unfold node_nw_update_time_us node_nw_has_node_timed_out in ground arith in
    ap (λ w. node_nw_has_node_timed_out (node_after ds w)) still ∙ stays_out ds v out

runs_out :
    (ds : List ℕ) (v : ℕ)
    → AreShort ds
    → v < 2147483648
    → v ≤ total ds
    → node_nw_has_node_timed_out (node_after ds v) ≡ true
unfolding node_after
runs_out [] v short small le = unfold node_nw_has_node_timed_out in ground arith
runs_out (d ∷ ds) v short small le = elim (Bool-cases (v == 0)) [
  | inl over ↦ stays_out (d ∷ ds) v (unfold node_nw_has_node_timed_out in ground arith)
  | inr alive ↦ elim (Bool-cases (leb d v)) [
    | inl in_time ↦
        let left : node_nw_update_time_us v d ≡ v - d =
          unfold node_nw_update_time_us in ground (arith, short.0) in
        ap (λ w. node_nw_has_node_timed_out (node_after ds w)) left
        ∙ runs_out ds (v - d) short.1 (omega arith) (ground arith)
    | inr late ↦
        stays_out ds (node_nw_update_time_us v d)
          (unfold node_nw_update_time_us node_nw_has_node_timed_out in ground (arith, short.0))
  ]
]

-- One call of the master's timer: the time that is counted, and one update at most.
one_call :
    (nw : NetworkManager) (ttl : ℕ → ℕ) (d j : ℕ)
    → first_node_id ≤ j
    → j < max_nodes
    → (((network_manager_update_time_us nw ttl d).0.time_to_live_time_us
            + time_to_live_update_time_us
          ≤ nw.time_to_live_time_us + d)
        × ((network_manager_update_time_us nw ttl d).1 j ≡ tick_ttl (ttl j)))
      ⊎ (((network_manager_update_time_us nw ttl d).0.time_to_live_time_us
            ≤ nw.time_to_live_time_us + d)
          × ((network_manager_update_time_us nw ttl d).1 j ≡ ttl j))
unfolding network_manager_update_time_us
one_call nw ttl d j lo hi =
    let time = u32 (nw.time_to_live_time_us + d) in
    elim (Bool-cases (leb time_to_live_update_time_us time)) [
      | inl due ↦
          let enough : time_to_live_update_time_us ≤ time = ground arith in
          inl (
            rw (due, network_manager_update_time_us)
              (
                omega arith,
                tick_from_lem (max_nodes - first_node_id) first_node_id j ttl ∙ ground arith,
              ))
      | inr early ↦ inr (rw (early, network_manager_update_time_us) (omega arith, refl))
    ]

time_of_removal :
    (ds : List ℕ) (nw : NetworkManager) (ttl : ℕ → ℕ) (j : ℕ)
    → first_node_id ≤ j
    → j < max_nodes
    → 0 < ttl j
    → ttl j < remove_node_ttl
    → (master_after ds nw ttl).1 j ≡ remove_node_ttl
    → time_to_live_update_time_us * ttl j ≤ nw.time_to_live_time_us + total ds
unfolding master_after
time_of_removal [] nw ttl j lo hi pos lt gone = absurd (omega arith)
time_of_removal (d ∷ ds) nw ttl j lo hi pos lt gone =
    let r = network_manager_update_time_us nw ttl d in
    elim (one_call nw ttl d j lo hi) [
      | inr (time, same) ↦
          let later =
            time_of_removal ds r.0 r.1 j lo hi (omega (arith, same)) (omega (arith, same)) gone in
          omega (arith, later, ap (λ w. time_to_live_update_time_us * w) same)
      | inl (time, ticked) ↦
          let tick = ticked ∙ tick_lem (ttl j) pos lt in
          elim (Bool-cases (ltb 1 (ttl j))) [
            | inr last ↦ ground arith
            | inl more ↦
                let one_less : r.1 j ≡ ttl j - 1 = ground (arith, tick) in
                let many : 1 < ttl j = ground arith in
                let later =
                  time_of_removal ds r.0 r.1 j lo hi (omega (arith, one_less))
                    (omega (arith, one_less)) gone in
                omega (arith, later, one_less)
          ]
    ]

-- For a node that has just sent when the master has just heard of it, and the timers of both called
-- with the same times from then on, each less than 2 ^ 31 microseconds: when the master has marked the
-- node for removal, the node's own time to live is over. The calls of the master's timer before that,
-- from the count 0 on, are for at most the time of one update each, so that none of it is left over.
pub leaves_first :
    (earlier ds : List ℕ) (nw0 nw : NetworkManager) (ttl0 ttl : ℕ → ℕ) (j : ℕ)
    → nw0.time_to_live_time_us ≡ 0
    → AreBrief earlier
    → nw.time_to_live_time_us ≡ (master_after earlier nw0 ttl0).0.time_to_live_time_us
    → AreShort ds
    → first_node_id ≤ j
    → j < max_nodes
    → ttl j ≡ master_max_time_to_live
    → (master_after ds nw ttl).1 j ≡ remove_node_ttl
    → node_nw_has_node_timed_out (node_after ds node_timeout_us) ≡ true
leaves_first earlier ds nw0 nw ttl0 ttl j begun brief history short lo hi whole gone =
    let early = brief_calls earlier nw0 ttl0 brief (omega arith) in
    let passed = time_of_removal ds nw ttl j lo hi (omega arith) (omega arith) gone in
    let full = ap (λ w. time_to_live_update_time_us * w) whole in
    runs_out ds node_timeout_us short (omega arith) (omega (arith, passed, full, history, early))
