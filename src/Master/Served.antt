-- ===== src/Master/Served.antt =====
-- src/master.c: the network that the master's functions keep, called in any order.
use microbus.Common.{
  ℕ, Bool, leb, true, assert, update, Ensures, Ensures-some, Ensures-bind, Option-cases, inl, inr,
}
use microbus.Packet.{PacketEntry, packet_data_size, master_node_id, master_data_packet, max_nodes}
use microbus.TxManager.{allocate_tx_packet, submit_allocated_tx_packet}
use microbus.RxManager.{peek_next_rx_data_packet, pop_next_data_packet}
use microbus.NetworkManager.Members.{Reachable, start, later, timer, mark, IsNetwork}
use microbus.NetworkManager.Network.{Reachable-IsNetwork}
use microbus.Master.{Master}
use microbus.Master.Tx.{master_quick_update_tx_packet, master_process_tx}
use microbus.Master.Slot.{
  master_update_schedule, master_remove_any_timeout_nodes,
  master_dual_channel_pipelined_pre_process, master_dual_channel_pipelined_post_process,
  master_no_delay_single_channel_process_rx, master_no_delay_single_channel_process_tx,
  master_update_time_us,
}
use microbus.Master.Rx.{master_quick_process_prev_rx, master_process_rx}
use microbus.Master.User.{
  master_init, master_rx_init, set_bits, clear_bits, get_connected_nodes_bit_field,
  master_reset_tx_credits, master_peek_next_rx_data_packet, master_pop_next_data_packet,
  master_allocate_tx_packet, master_submit_allocated_tx_packet,
}
use microbus.Master.Membership.{
  members_of, IsServed, update_schedule-IsServed, remove_timed_out-IsServed,
}
use microbus.Master.Received.{quick_process-IsServed, process_rx-IsServed}
use microbus.Master.Run.{
  Step, arrives, pre_process, post_process, single_channel_rx, single_channel_tx, update_time,
  connected_nodes, reset_credits, peek, pop, allocate, fill, submit, Runs, begin, next,
}
use microbus.Master.Sent.{quick_update-IsServed, process_tx-IsServed}

pre_process-IsServed :
    (m : Master) (crc_error : Bool)
    → IsServed m
    → Ensures (λ x. IsServed x.2) (master_dual_channel_pipelined_pre_process m crc_error)
unfolding master_dual_channel_pipelined_pre_process
pre_process-IsServed m crc_error h = Ensures-bind (master_update_schedule m) (λ s scheduled.
    let hs = (update_schedule-IsServed m h).ensured s scheduled in
    Ensures-bind (master_quick_process_prev_rx s crc_error) (λ r received.
      Ensures-some
        (quick_update-IsServed r ((quick_process-IsServed s crc_error hs).ensured r received))))

post_process-IsServed :
    (m : Master)
    → IsServed m
    → Ensures (λ x. IsServed x.1) (master_dual_channel_pipelined_post_process m)
unfolding master_dual_channel_pipelined_post_process
post_process-IsServed m h = Ensures-bind (master_process_rx m) (λ r received.
    let hr = (process_rx-IsServed m h).ensured r received in
    Ensures-bind (master_process_tx r.1) (λ p prepared.
      let hp = (process_tx-IsServed r.1 hr).ensured p prepared in
      Ensures-bind (master_remove_any_timeout_nodes p)
        (λ x removed. Ensures-some ((remove_timed_out-IsServed p hp).ensured x removed))))

single_channel_rx-IsServed :
    (m : Master) (crc_error : Bool)
    → IsServed m
    → Ensures (λ x. IsServed x.1) (master_no_delay_single_channel_process_rx m crc_error)
unfolding master_no_delay_single_channel_process_rx
single_channel_rx-IsServed m crc_error h = Ensures-bind (master_update_schedule m) (λ s scheduled.
    let hs = (update_schedule-IsServed m h).ensured s scheduled in
    Ensures-bind (master_quick_process_prev_rx s crc_error) (λ r received.
      process_rx-IsServed r ((quick_process-IsServed s crc_error hs).ensured r received)))

single_channel_tx-IsServed :
    (m : Master)
    → IsServed m
    → Ensures (λ x. IsServed x.2) (master_no_delay_single_channel_process_tx m)
unfolding master_no_delay_single_channel_process_tx
single_channel_tx-IsServed m h = Ensures-bind (master_process_tx m) (λ p prepared.
    let hp = (process_tx-IsServed m h).ensured p prepared in
    Ensures-bind (master_update_schedule p) (λ s scheduled.
      let hs = (update_schedule-IsServed p hp).ensured s scheduled in
      let updated = master_quick_update_tx_packet s in
      Ensures-bind (master_remove_any_timeout_nodes updated) (λ x removed.
        Ensures-some
          ((remove_timed_out-IsServed updated (quick_update-IsServed s hs)).ensured x removed))))

connected_nodes-IsServed :
    (m : Master) (bits : ℕ → ℕ)
    → IsServed m
    → Ensures (λ x. IsServed x.1) (get_connected_nodes_bit_field m bits)
unfolding get_connected_nodes_bit_field
connected_nodes-IsServed m bits h =
    Ensures-bind
      (clear_bits m.nw_manager.new_node_id m.nw_manager.num_new_nodes 0
        (set_bits (update m.master_node_time_to_live 0 1) max_nodes 0 bits))
      (λ cleared _. Ensures-some (later h mark))

peek-IsServed :
    (m : Master) → IsServed m → Ensures (λ x. IsServed x.1) (master_peek_next_rx_data_packet m)
unfolding master_peek_next_rx_data_packet
peek-IsServed m h =
    Ensures-bind (peek_next_rx_data_packet m.rx.rx_packet_manager) (λ r _. Ensures-some h)

pop-IsServed : (m : Master) → IsServed m → Ensures IsServed (master_pop_next_data_packet m)
unfolding master_pop_next_data_packet
pop-IsServed m h =
    Ensures-bind (pop_next_data_packet m.rx.rx_packet_manager) (λ r _. Ensures-some h)

allocate-IsServed :
    (m : Master) → IsServed m → Ensures (λ x. IsServed x.1) (master_allocate_tx_packet m)
unfolding master_allocate_tx_packet
allocate-IsServed m h = Ensures-bind (allocate_tx_packet m.tx.tx_manager) (λ r _.
    elim (Option-cases r.0) [
      | inl full ↦ rw full (Ensures-some h)
      | inr (e, free) ↦ rw free (Ensures-some h)
    ])

submit-IsServed :
    (m : Master) (dst_node_id num_bytes ttl_after : ℕ)
    → IsServed m
    → Ensures IsServed (master_submit_allocated_tx_packet m dst_node_id num_bytes ttl_after)
unfolding master_submit_allocated_tx_packet
submit-IsServed m dst_node_id num_bytes ttl_after h =
    Ensures-bind (assert (leb num_bytes packet_data_size)) (λ _ _.
      Ensures-bind m.tx.tx_manager.allocated_packet (λ _ _.
        Ensures-bind
          (submit_allocated_tx_packet m.tx.tx_manager true (m.master_node_time_to_live dst_node_id)
            ttl_after master_node_id dst_node_id master_data_packet num_bytes)
          (λ manager _. Ensures-some h)))

Step-IsServed : (m m' : Master) → Step m m' → IsServed m → IsServed m'
unfolding master_update_time_us master_reset_tx_credits
Step-IsServed m m' (arrives p) h = h
Step-IsServed m m' (update_time us_incr) h = later h (timer us_incr)
Step-IsServed m m' reset_credits h = h
Step-IsServed m m' (fill e p inside) h = h
Step-IsServed m m' (pre_process crc_error {x = x} ok) h =
    (pre_process-IsServed m crc_error h).ensured x ok
Step-IsServed m m' (post_process {x = x} ok) h = (post_process-IsServed m h).ensured x ok
Step-IsServed m m' (single_channel_rx crc_error {x = x} ok) h =
    (single_channel_rx-IsServed m crc_error h).ensured x ok
Step-IsServed m m' (single_channel_tx {x = x} ok) h = (single_channel_tx-IsServed m h).ensured x ok
Step-IsServed m m' (connected_nodes bits {x = x} ok) h =
    (connected_nodes-IsServed m bits h).ensured x ok
Step-IsServed m m' (peek {x = x} ok) h = (peek-IsServed m h).ensured x ok
Step-IsServed m m' (pop ok) h = (pop-IsServed m h).ensured m' ok
Step-IsServed m m' (allocate {x = x} ok) h = (allocate-IsServed m h).ensured x ok
Step-IsServed m m' (submit dst_node_id num_bytes ttl_after inside ok) h =
    (submit-IsServed m dst_node_id num_bytes ttl_after h).ensured m' ok

master_init-IsServed :
    (num_tx_nodes_scheduled max_tx_packet_entries : ℕ) (tx_packet_entries : ℕ → PacketEntry)
    (max_rx_packet_entries : ℕ)
    → Ensures IsServed (
        master_init num_tx_nodes_scheduled max_tx_packet_entries tx_packet_entries
          max_rx_packet_entries)
unfolding master_init
master_init-IsServed num_tx_nodes_scheduled max_tx_packet_entries tx_packet_entries
      max_rx_packet_entries =
    Ensures-bind (master_rx_init max_rx_packet_entries) (λ rx _. Ensures-some start)

Runs-IsServed : {m : Master} → Runs m → IsServed m
Runs-IsServed
      (begin num_tx_nodes_scheduled max_tx_packet_entries tx_packet_entries max_rx_packet_entries
        {m = m} few ok) =
    (master_init-IsServed num_tx_nodes_scheduled max_tx_packet_entries tx_packet_entries
        max_rx_packet_entries).ensured
      m ok
Runs-IsServed (next {m = m} {m' = m'} before step) = Step-IsServed m m' step (Runs-IsServed before)

-- Whatever the calls of the master's functions from its initialisation on, with at most
-- MAX_TX_NODES_SCHEDULED slots scheduled, each taken as a whole, in any order, whatever packets
-- arrive, whatever the user writes to the entries of its buffer and submits to ids below MAX_NODES,
-- as long as no call with a packet of a source id from MAX_NODES on leaves an array, where the model
-- stops: the network of the master is one that the steps of the membership reach, so that its queue
-- of active nodes is valid and has exactly the nodes other than the master with a time to live, and
-- the nodes of the table of new nodes, each in it once, are among them.
pub master-IsNetwork : {m : Master} → Runs m → Reachable (members_of m) × IsNetwork (members_of m)
master-IsNetwork {m} runs =
    let served = Runs-IsServed {m = m} runs in
    (served, Reachable-IsNetwork {m = members_of m} served)
