-- ===== src/Master/Sent.antt =====
-- src/masterTx.c: sending changes nothing of the network.
use microbus.Common.{
  ◌+◌, ltb, leb, ◌==◌, ◌&&◌, if◌then◌else◌, assert, u8, Ensures, Ensures-some, Ensures-if,
  Ensures-bind, Option-cases, inl, inr,
}
use microbus.Packet.{packet_data_size, get_packet_data_size}
use microbus.TxManager.Transmit.{master_get_next_tx_data_packet}
use microbus.Master.{Master, tx_packet_at}
use microbus.Master.Tx.{
  master_quick_update_tx_packet, respond, send_empty, send_data, master_process_tx,
}
use microbus.Master.Membership.{IsServed}

pub quick_update-IsServed : (m : Master) → IsServed m → IsServed (master_quick_update_tx_packet m)
unfolding master_quick_update_tx_packet
quick_update-IsServed m h = elim (Option-cases (tx_packet_at m.tx m.tx.next_tx_packet)) [
  | inl nothing ↦ rw (nothing, master_quick_update_tx_packet) h
  | inr (p, there) ↦ rw (there, master_quick_update_tx_packet) h
]

send_data-IsServed : (m : Master) → IsServed m → Ensures IsServed (send_data m)
unfolding send_data send_empty
send_data-IsServed m h = Ensures-bind (master_get_next_tx_data_packet m.tx.tx_manager 1) (λ r _.
    elim (Option-cases r.0) [
      | inl idle ↦ rw idle (Ensures-some h)
      | inr (e, chosen) ↦ rw chosen (
          Ensures-bind
            (assert
              (ltb (get_packet_data_size (r.1.packet_store.entries e).packet) packet_data_size))
            (λ _ _. Ensures-some h))
    ])

pub process_tx-IsServed : (m : Master) → IsServed m → Ensures IsServed (master_process_tx m)
unfolding master_process_tx respond
process_tx-IsServed m h =
    let cycle = u8 (m.tx.tmp_packet_cycle + 1) in
    let cycled = if leb 4 cycle then 0 else cycle in
    let m' = record m { tx = record (m.tx) { tmp_packet_cycle = cycled } } in
    Ensures-if (ltb 0 m.tx.master_reset_cycles) (λ _. Ensures-some h)
      (λ _.
        Ensures-if (ltb 0 m.nw_manager.num_new_nodes && (cycled == 1)) (λ _. Ensures-some h)
          (λ _. send_data-IsServed m' h))
