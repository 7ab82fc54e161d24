-- ===== src/Link/Submission.antt =====
-- The sender of a link when its user submits data: what a call of the two functions leaves.
use microbus.Common.{
  ℕ, ◌+◌, ◌%◌, ◌≤◌, ◌<◌, ◌≡◌, inl, inr, Bool, true, false, not, ◌||◌, leb, ◌==◌, Option, none, some,
  update, sub8, Bool-cases, Option-cases, arith,
}
use mathlib.Core.Path.{subst}
use microbus.Packet.{Packet, max_nodes, master_data_packet}
use microbus.NodeQueue.{NodeQueue}
use microbus.PacketStore.{PacketStore, allocate_packet_entry}
use microbus.TxManager.{TxManager, allocate_tx_packet}
use microbus.TxManager.Window.{Sends}
use microbus.TxManager.Acked.{IsActive}
use microbus.TxManager.Submit.{Submits, submit_refines}
use microbus.PacketStore.Put.{allocate_lem}
use microbus.TxManager.Stored.{HasRoom, send_bytes}
use microbus.TxManager.Ack.{get_num_in_tx_buffer}
use microbus.Link.{HasQueue}
use microbus.Link.Sender.{Serves}

IsActive-HasQueue :
    (active : Option NodeQueue) (b : Bool) (d : ℕ) → IsActive active d → HasQueue active b
IsActive-HasQueue none b d h = absurd h
IsActive-HasQueue (some q) b d h = tt

-- A user who was given an entry had room in the queue of active nodes.
room_of_queue :
    (active : Option NodeQueue) (b : Bool)
    → HasQueue active b
    → elim active [ some q ↦ leb max_nodes q.num_nodes | none ↦ false ] ≡ false
    → HasRoom active b
room_of_queue none b h few = h
room_of_queue (some q) b h few = ground arith

allocated_room :
    (m : TxManager) (e : ℕ) {taken : TxManager}
    → allocate_tx_packet m ≡ some (some e, taken)
    → (elim m.active_tx_nodes [ some q ↦ leb max_nodes q.num_nodes | none ↦ false ] ≡ false)
      × ((store : PacketStore) × (allocate_packet_entry m.packet_store ≡ (some e, store)))
unfolding allocate_tx_packet
allocated_room m e {taken} got = elim (Option-cases (allocate_packet_entry m.packet_store).0) [
  | inl full ↦ absurd (ground arith)
  | inr (e', found) ↦ elim (Option-cases m.allocated_packet) [
    | inr (e2, busy) ↦ absurd (ground arith)
    | inl ready ↦
        elim (Bool-cases
          (elim m.active_tx_nodes [ some q ↦ leb max_nodes q.num_nodes | none ↦ false ])) [
            | inl crowded ↦ absurd (ground arith)
            | inr few ↦ (few, ((allocate_packet_entry m.packet_store).1, ground arith))
          ]
  ]
]

-- There is room in the window where the level of the buffer says so.
pub few_waiting :
    (m : TxManager) (b : Bool) (d a n s : ℕ) (log : ℕ → Packet)
    → Sends m b d a n s log
    → get_num_in_tx_buffer m d < 254
    → s < a + 254
unfolding get_num_in_tx_buffer
few_waiting m b d a n s log h few =
    few_counted a s h.keeps.ordered h.keeps.few (rw (← h.start, ← h.end) few)
  where
    few_counted : (a s : ℕ) → a ≤ s → s ≤ a + 254 → sub8 (s % 255) (a % 255) < 254 → s < a + 254
    few_counted a s le most lt = ground arith

module _ (m : TxManager) (b : Bool) (d own packet_type size a n s e : ℕ) (bytes : ℕ → ℕ)
    (log : ℕ → Packet) {m' taken : TxManager} (h : Serves m b d a n s log) (from : own < max_nodes)
    (to : d < max_nodes) (to_master : (b || d == 0) ≡ true)
    (plain : (b || not (packet_type == master_data_packet)) ≡ true)
    (level : get_num_in_tx_buffer m d < 254) (got : allocate_tx_packet m ≡ some (some e, taken))
    (ok : send_bytes m b own d packet_type size bytes ≡ some m') where
  submits : Submits m b d a n s log bytes (send_bytes m b own d packet_type size bytes)
  submits =
      let (crowded, (store, entry)) = allocated_room m e got in
      elim (submit_refines m b own d packet_type size a n s bytes log h.sends h.idle
        (room_of_queue m.active_tx_nodes b h.queue crowded)
        (few_waiting m b d a n s log h.sends level) from to to_master plain) [
          | inr done ↦ done
          | inl (_, used) ↦
              let (free, inside, _) = allocate_lem m.packet_store e store entry in
              absurd (ground (arith, used e inside))
        ]

  -- And after a user's call that submitted data.
  pub after_submit :
      (p : Packet) × ((i : ℕ) → p.body (10 + i) ≡ bytes (10 + i))
      × Serves m' b d a n (s + 1) (update log s p)
  after_submit =
      let sub = submits in
      let same : sub.manager ≡ m' = ground (arith, sub.returns) in
      (
        sub.packet,
        sub.content,
        subst (λ k. Serves k b d a n (s + 1) (update log s sub.packet)) same
            (record {
              sends = sub.sends;
              idle = sub.free_again;
              queue = elim sub.queue [
                | inl (_, same) ↦ rw same h.queue
                | inr (_, _, fresh) ↦ IsActive-HasQueue sub.manager.active_tx_nodes b d fresh
              ];
              active = λ t lt. elim sub.queue [
                | inl (earlier, same) ↦ rw same (h.active t (ground arith))
                | inr (_, _, fresh) ↦ fresh
              ];
            }),
      )
