-- ===== src/Master/Membership.antt =====
-- src/master.c: the removal of nodes and the schedule, as steps of NetworkManager/Members.
use microbus.Common.{
  ℕ, zero, suc, ◌+◌, ◌-◌, ◌≤◌, ◌<◌, ◌≡◌, ltb, ◌==◌, Ensures, Ensures-some, Ensures-if, Ensures-bind,
  Ensures-elim, Bool-cases, inl, inr, arith,
}
use microbus.Packet.{max_nodes, first_node_id}
use microbus.NodeQueue.{NodeQueue}
use microbus.NetworkManager.{remove_node_ttl, network_manager_remove_new_node_request}
use microbus.TxManager.{master_tx_manager_remove_node}
use microbus.RxManager.{rx_manager_remove_all_packets}
use microbus.PacketStore.{get_num_all_buffered_tx_packets}
use microbus.Scheduler.Slots.{scheduler_update_and_calc_next_tx_nodes}
use microbus.Scheduler.Turned.{Turned, still, turned, schedule-Turned}
use microbus.NetworkManager.Members.{Members, Reachable, later, remove, turn}
use microbus.Master.{Master, scheduler_of}
use microbus.Master.Slot.{
  remove_rounds, remove_node, remove_timed_out_from, master_remove_any_timeout_nodes,
  master_update_schedule,
}

-- The part of the master that is the network.
abbrev pub members_of : Master → Members
members_of m = record { nw = m.nw_manager; ttl = m.master_node_time_to_live }

-- The steps reach the network of a master.
abbrev pub IsServed : Master → Type 0
IsServed m = Reachable (members_of m)

remove_node-IsServed :
    (m : Master) (node_id num_freed : ℕ)
    → first_node_id ≤ node_id
    → node_id < max_nodes
    → m.master_node_time_to_live node_id ≡ remove_node_ttl
    → IsServed m
    → Ensures (λ x. IsServed x.1) (remove_node m node_id num_freed)
unfolding remove_node
remove_node-IsServed m node_id num_freed lo hi marked h =
    Ensures-bind (network_manager_remove_new_node_request m.nw_manager node_id) (λ r requested.
      Ensures-bind (master_tx_manager_remove_node m.tx.tx_manager node_id num_freed) (λ freed _.
        Ensures-bind (rx_manager_remove_all_packets remove_rounds m.rx.rx_packet_manager node_id)
          (λ rpm _. Ensures-some (later h (remove node_id r.0 {nw = r.1} lo hi marked requested)))))

remove_from-IsServed :
    (n node_id num_freed : ℕ) (m : Master)
    → first_node_id ≤ node_id
    → node_id + n ≤ max_nodes
    → IsServed m
    → Ensures (λ x. IsServed x.1) (remove_timed_out_from n node_id num_freed m)
unfolding remove_timed_out_from
remove_from-IsServed zero node_id num_freed m lo hi h = Ensures-some h
remove_from-IsServed (suc n) node_id num_freed m lo hi h =
    elim (Bool-cases (m.master_node_time_to_live node_id == remove_node_ttl)) [
      | inr kept ↦
          rw (kept, remove_timed_out_from)
            (remove_from-IsServed n (node_id + 1) num_freed m (omega arith) (omega arith) h)
      | inl marked ↦
          rw (marked, remove_timed_out_from)
            (Ensures-elim (remove_node m node_id num_freed) (λ r ok.
              remove_from-IsServed n (node_id + 1) r.0 r.1 (omega arith) (omega arith) (
                (remove_node-IsServed m node_id num_freed lo (omega arith) (ground arith) h).ensured
                  r ok)))
    ]

pub remove_timed_out-IsServed :
    (m : Master) → IsServed m → Ensures (λ x. IsServed x.1) (master_remove_any_timeout_nodes m)
unfolding master_remove_any_timeout_nodes
remove_timed_out-IsServed m h =
    remove_from-IsServed (max_nodes - first_node_id) first_node_id 0 m (omega arith) (omega arith) h

Turned-IsServed :
    (m : Master) {q : NodeQueue}
    → Turned m.nw_manager.active_nodes q
    → IsServed m
    → Reachable (record {
      nw = record (m.nw_manager) { active_nodes = q };
      ttl = m.master_node_time_to_live;
    })
Turned-IsServed m still h = h
Turned-IsServed m (turned before) h = later (Turned-IsServed m before h) turn

pub update_schedule-IsServed :
    (m : Master) → IsServed m → Ensures IsServed (master_update_schedule m)
unfolding master_update_schedule
update_schedule-IsServed m h =
    Ensures-if (ltb 0 m.tx.master_reset_cycles) (λ _. Ensures-some h)
      (λ _.
        Ensures-bind
          (scheduler_update_and_calc_next_tx_nodes (scheduler_of m) m.next_tx_node_id
            (get_num_all_buffered_tx_packets m.tx.tx_manager.packet_store))
          (λ r ok. Ensures-some (
            Turned-IsServed m
              ((schedule-Turned (scheduler_of m) m.next_tx_node_id
                  (get_num_all_buffered_tx_packets m.tx.tx_manager.packet_store)).ensured
                r ok)
              h)))
