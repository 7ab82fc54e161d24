-- ===== src/TxManager/Buffer.antt =====
-- The level of the transmit buffer and its entries in src/txManager.c.
use microbus.Common.{
  ℕ, ◌+◌, ◌-◌, ◌%◌, ◌≤◌, ◌≡◌, refl, Bool, true, false, not, ◌==◌, ltb, leb, if◌then◌else◌, none,
  some, sub8, Bool-cases, Option-cases, inl, inr, ap, ◌∙◌, arith,
}
use microbus.Packet.{Packet, max_nodes, dst_node_id_at}
use microbus.PacketStore.{PacketStore, allocate_packet_entry, free_packets_to}
use microbus.PacketStore.Freed.{freed_entry}
use microbus.PacketStore.Put.{allocate_lem}
use microbus.TxManager.{
  TxManager, allocate_tx_packet, submit_allocated_tx_packet, master_tx_manager_remove_node,
}
use microbus.TxManager.Ack.{get_num_in_tx_buffer}
use microbus.TxManager.Window.{Sends}

-- getNumInTxBuffer is the number of packets that wait, or, where the sequence number of the last has
-- wrapped and that of the first has not, one more.
pub level_lem :
    (m : TxManager) (b : Bool) (d a n s : ℕ) (log : ℕ → Packet)
    → Sends m b d a n s log
    → get_num_in_tx_buffer m d ≡ (if ltb (s % 255) (a % 255) then s - a + 1 else s - a)
unfolding get_num_in_tx_buffer
level_lem m b d a n s log h =
    ap (λ e. sub8 e (m.tx_seq_num_start d)) h.end
    ∙ ap (λ f. sub8 (s % 255) f) h.start
    ∙ level_counted a s h.keeps.ordered h.keeps.few
  where
    level_counted :
        (a s : ℕ)
        → a ≤ s
        → s ≤ a + 254
        → sub8 (s % 255) (a % 255) ≡ (if ltb (s % 255) (a % 255) then s - a + 1 else s - a)
    level_counted a s le few = ground arith

taken_entry :
    (m : TxManager) (e : ℕ) {m1 : TxManager}
    → allocate_tx_packet m ≡ some (some e, m1)
    → (allocate_packet_entry m.packet_store ≡ (some e, (allocate_packet_entry m.packet_store).1))
      × (m1.packet_store ≡ (allocate_packet_entry m.packet_store).1)
unfolding allocate_tx_packet
taken_entry m e {m1} got = elim (Option-cases (allocate_packet_entry m.packet_store).0) [
  | inl full ↦ absurd (ground arith)
  | inr (e', found) ↦ elim (Option-cases m.allocated_packet) [
    | inr (e2, busy) ↦ absurd (ground arith)
    | inl ready ↦
        elim (Bool-cases
          (elim m.active_tx_nodes [ some q ↦ leb max_nodes q.num_nodes | none ↦ false ])) [
            | inl crowded ↦ absurd (ground arith)
            | inr few ↦ (ground arith, ground arith)
          ]
  ]
]

-- A packet is allocated, the node is removed, and the packet is submitted to it: it is lost. None is
-- allocated any more, and the entry, free before, stays in use, but where the header that its last
-- packet left in it is for the same node.
pub lost_entry :
    (m : TxManager) (e freed freed_after ttl_after src d packet_type size : ℕ) {m1 m2 : TxManager}
    → allocate_tx_packet m ≡ some (some e, m1)
    → master_tx_manager_remove_node m1 d freed ≡ some (freed_after, m2)
    → (m3 : TxManager) × (submit_allocated_tx_packet m2 true 0 ttl_after src d packet_type size
        ≡ some m3)
      × (m3.allocated_packet ≡ none)
      × ((m.packet_store.entries e).in_use ≡ false)
      × ((m3.packet_store.entries e).in_use
          ≡ not ((m.packet_store.entries e).packet.body dst_node_id_at == d))
unfolding master_tx_manager_remove_node submit_allocated_tx_packet
lost_entry m e freed freed_after ttl_after src d packet_type size {m1} {m2} got removed =
    let (entry, kept) = taken_entry m e {m1 = m1} got in
    let (free, inside, store) =
      allocate_lem m.packet_store e (allocate_packet_entry m.packet_store).1 entry in
    let stored = kept ∙ store in
    let size_same : m1.packet_store.max_entries ≡ m.packet_store.max_entries =
      ap (λ (t : PacketStore). t.max_entries) stored in
    let taken : m1.packet_store.entries e ≡ record (m.packet_store.entries e) { in_use = true } =
      ap (λ (t : PacketStore). t.entries e) stored ∙ ground arith in
    elim (Option-cases m1.active_tx_nodes) [
      | inl no_queue ↦ absurd (ground arith)
      | inr (q, queue) ↦
          let after : m2.packet_store ≡ (free_packets_to m1.packet_store d freed).0 =
            ground arith in
          (
            record m2 { allocated_packet = none },
            refl,
            refl,
            free,
            ap (λ (t : PacketStore). (t.entries e).in_use) after
                ∙ freed_entry m1.packet_store d freed e (omega arith)
                ∙ ground arith,
          )
    ]
