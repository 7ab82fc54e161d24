-- ===== src/NetworkManager/TimeToLive.antt =====
-- The time to live of the nodes in src/networkManager.c.
use microbus.Common.{
  ℕ, zero, suc, ◌+◌, ◌-◌, ◌/◌, ◌≤◌, ◌<◌, ◌≡◌, ◌⊎◌, refl, ap, ◌∙◌, Bool-cases, inl, inr, ◌&&◌, ltb,
  leb, List, [], ◌∷◌, if◌then◌else◌, update, Bool-cases, inl, inr, arith,
}
use microbus.Packet.{max_nodes, first_node_id}
use microbus.NetworkManager.{
  NetworkManager, remove_node_ttl, time_to_live_update_time_us, tick_ttl, tick_writes, stored,
  tick_from, network_manager_update_time_us,
}

pub tick_from_lem :
    (n i j : ℕ) (ttl : ℕ → ℕ)
    → tick_from n i ttl j ≡ (if leb i j && ltb j (i + n) then tick_ttl (ttl j) else ttl j)
unfolding tick_from
tick_from_lem zero i j ttl = ground arith
tick_from_lem (suc n) i j ttl =
    tick_from_lem n (i + 1) j (update ttl i (tick_ttl (ttl i))) ∙ ground arith

-- Calls of networkManagerUpdateTimeUs, each with the time that passed.
unfoldable pub master_after : List ℕ → NetworkManager → (ℕ → ℕ) → NetworkManager × (ℕ → ℕ)
master_after [] nw ttl = (nw, ttl)
master_after (d ∷ ds) nw ttl =
    let r = network_manager_update_time_us nw ttl d in master_after ds r.0 r.1

abbrev pub total : List ℕ → ℕ
total [] = 0
total (d ∷ ds) = d + total ds

-- Each is at most the time of one update.
abbrev pub AreBrief : List ℕ → Type 0
AreBrief [] = Unit
AreBrief (d ∷ ds) = (d ≤ time_to_live_update_time_us) × AreBrief ds

brief_call :
    (nw : NetworkManager) (ttl : ℕ → ℕ) (d : ℕ)
    → nw.time_to_live_time_us < time_to_live_update_time_us
    → d ≤ time_to_live_update_time_us
    → (network_manager_update_time_us nw ttl d).0.time_to_live_time_us < time_to_live_update_time_us
unfolding network_manager_update_time_us
brief_call nw ttl d lt brief = ground arith

-- Calls of at most the time of one update each leave less than that in the count.
pub brief_calls :
    (ds : List ℕ) (nw : NetworkManager) (ttl : ℕ → ℕ)
    → AreBrief ds
    → nw.time_to_live_time_us < time_to_live_update_time_us
    → (master_after ds nw ttl).0.time_to_live_time_us < time_to_live_update_time_us
unfolding master_after
brief_calls [] nw ttl brief lt = lt
brief_calls (d ∷ ds) nw ttl brief lt =
    let r = network_manager_update_time_us nw ttl d in
    brief_calls ds r.0 r.1 brief.1 (brief_call nw ttl d lt brief.0)

call_at :
    (nw : NetworkManager) (ttl : ℕ → ℕ) (d j : ℕ)
    → nw.time_to_live_time_us < time_to_live_update_time_us
    → d ≤ time_to_live_update_time_us
    → first_node_id ≤ j
    → j < max_nodes
    → (((network_manager_update_time_us nw ttl d).0.time_to_live_time_us
            + time_to_live_update_time_us
          ≡ nw.time_to_live_time_us + d)
        × ((network_manager_update_time_us nw ttl d).1 j ≡ tick_ttl (ttl j)))
      ⊎ (((network_manager_update_time_us nw ttl d).0.time_to_live_time_us
            ≡ nw.time_to_live_time_us + d)
          × ((network_manager_update_time_us nw ttl d).1 j ≡ ttl j))
unfolding network_manager_update_time_us
call_at nw ttl d j lt brief lo hi =
    elim (Bool-cases (leb time_to_live_update_time_us (nw.time_to_live_time_us + d))) [
      | inl due ↦ inl (
        ground arith,
        ground (arith, tick_from_lem (max_nodes - first_node_id) first_node_id j ttl),
      )
      | inr early ↦ inr (ground arith, ground arith)
    ]

pub tick_lem :
    (v : ℕ)
    → 0 < v
    → v < remove_node_ttl
    → tick_ttl v ≡ (if ltb 1 v then v - 1 else remove_node_ttl)
unfolding tick_ttl tick_writes stored
tick_lem v lo hi = ground arith

tick_removed : tick_ttl remove_node_ttl ≡ remove_node_ttl
unfolding tick_ttl tick_writes stored
tick_removed = refl

stays_removed :
    (ds : List ℕ) (j : ℕ) (nw : NetworkManager) (ttl : ℕ → ℕ)
    → AreBrief ds
    → nw.time_to_live_time_us < time_to_live_update_time_us
    → first_node_id ≤ j
    → j < max_nodes
    → ttl j ≡ remove_node_ttl
    → (master_after ds nw ttl).1 j ≡ remove_node_ttl
unfolding master_after
stays_removed [] j nw ttl brief lt lo hi e = e
stays_removed (d ∷ ds) j nw ttl brief lt lo hi e =
    let r = network_manager_update_time_us nw ttl d in
    let kept : r.1 j ≡ remove_node_ttl = elim (call_at nw ttl d j lt brief.0 lo hi) [
      | inl (_, ticked) ↦ ticked ∙ ap tick_ttl e ∙ tick_removed
      | inr (_, same) ↦ same ∙ e
    ] in
    stays_removed ds j r.0 r.1 brief.1 (brief_call nw ttl d lt brief.0) lo hi kept

-- The updates that calls for the time `t` make, from a count of less than one.
abbrev pub num_updates : ℕ → ℕ
num_updates t = t / time_to_live_update_time_us

-- A node with the time to live `v` of which nothing is heard, after any calls of
-- networkManagerUpdateTimeUs, each taken as a whole and for at most the time of one update, where
-- less than that is counted before: the time to live went down by one for every update time that the
-- count and the calls come to, and from `v` of them on the node is marked for removal.
pub times_out :
    (ds : List ℕ) (j v : ℕ) (nw : NetworkManager) (ttl : ℕ → ℕ)
    → AreBrief ds
    → nw.time_to_live_time_us < time_to_live_update_time_us
    → first_node_id ≤ j
    → j < max_nodes
    → ttl j ≡ v
    → 0 < v
    → v < remove_node_ttl
    → (master_after ds nw ttl).1 j ≡ (
        if ltb (num_updates (nw.time_to_live_time_us + total ds)) v
        then v - num_updates (nw.time_to_live_time_us + total ds)
        else remove_node_ttl)
unfolding master_after
times_out [] j v nw ttl brief lt lo hi e pos small =
    let none_due : num_updates (nw.time_to_live_time_us + 0) ≡ 0 = omega arith in
    rw none_due (e ∙ ground arith)
times_out (d ∷ ds) j v nw ttl brief lt lo hi e pos small =
    let r = network_manager_update_time_us nw ttl d in
    let left = brief_call nw ttl d lt brief.0 in
    elim (call_at nw ttl d j lt brief.0 lo hi) [
      | inr (time, same) ↦
          let sum : r.0.time_to_live_time_us + total ds ≡ nw.time_to_live_time_us + total (d ∷ ds) =
            omega arith in
          times_out ds j v r.0 r.1 brief.1 left lo hi (same ∙ e) pos small
          ∙ ap (λ t. if ltb (num_updates t) v then v - num_updates t else remove_node_ttl) sum
      | inl (time, ticked) ↦
          let one_more : num_updates (nw.time_to_live_time_us + total (d ∷ ds))
              ≡ num_updates (r.0.time_to_live_time_us + total ds) + 1 =
            omega arith in
          let new = ticked ∙ ap tick_ttl e ∙ tick_lem v pos small in
          elim (Bool-cases (ltb 1 v)) [
            | inl more ↦
                times_out ds j (v - 1) r.0 r.1 brief.1 left lo hi (ground arith) (ground arith)
                  (omega arith)
                ∙ ground arith
            | inr last ↦ stays_removed ds j r.0 r.1 brief.1 left lo hi (ground arith) ∙ ground arith
          ]
    ]
