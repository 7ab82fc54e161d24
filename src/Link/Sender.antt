-- ===== src/Link/Sender.antt =====
-- The sender of a link through every step: its window, and its queue of active nodes.
use microbus.Common.{
  ℕ, ◌+◌, ◌≤◌, ◌<◌, ◌≡◌, ◌⊎◌, inl, inr, refl, sym, ap, ◌∙◌, Bool, true, false, ◌&&◌, ltb, ◌==◌,
  Option, none, some, Bool-cases, arith,
}
use mathlib.Core.Path.{subst}
use microbus.Packet.{Packet}
use microbus.NodeQueue.{NodeQueue}
use microbus.TxManager.{TxManager}
use microbus.TxManager.Window.{Sends, last_accepted}
use microbus.TxManager.Next.{get_next_refines, paused, advanced}
use microbus.TxManager.Acked.{IsActive, without}
use microbus.TxManager.AckSeqNum.{AcksTo, Progress, ack_refines}
use microbus.TxManager.Ack.{rx_ack_seq_num}
use microbus.TxManager.Transmit.{get_next_tx_packet_for_node}
use microbus.Link.{HasQueue}

-- The sender and its queue of active nodes.
pub record Serves (m : TxManager) (b : Bool) (d a n s : ℕ) (log : ℕ → Packet) : Type 0 where
  pub sends : Sends m b d a n s log
  pub idle : m.allocated_packet ≡ none
  pub queue : HasQueue m.active_tx_nodes b
  pub active : b ≡ true → a < s → IsActive m.active_tx_nodes d

without-HasQueue :
    (active : Option NodeQueue) (b : Bool) (d : ℕ)
    → HasQueue active b
    → HasQueue (without active d) b
without-HasQueue none b d h = h
without-HasQueue (some q) b d h = tt

no_queue : (active : Option NodeQueue) (b : Bool) → b ≡ false → HasQueue active b
no_queue none b e = e
no_queue (some q) b e = tt

-- getNextTxPacketForNode on every branch, when the sender waits for acknowledgements included.
pub next_cases :
    (m : TxManager) (b : Bool) (d a n s : ℕ) (log : ℕ → Packet)
    → Sends m b d a n s log
    → (get_next_tx_packet_for_node m b d ≡ some (none, m))
      ⊎ (get_next_tx_packet_for_node m b d ≡ some (none, paused m d))
      ⊎ ((e : ℕ) × (n < s)
          × (get_next_tx_packet_for_node m b d ≡ some (some e, advanced m d n))
          × ((m.packet_store.entries e).packet ≡ log n)
          × Sends (advanced m d n) b d a (n + 1) s log)
unfolding get_next_tx_packet_for_node
next_cases m b d a n s log h = elim (Bool-cases (ltb 0 (m.tx_seq_num_pause_count d))) [
  | inl waits ↦ inl (rw (waits, get_next_tx_packet_for_node) refl)
  | inr ready ↦ elim (get_next_refines m b d a n s log h (ground arith)) [
    | inl (_, e) ↦ inl e
    | inr (inl (_, _, e)) ↦ inr (inl e)
    | inr (inr (lt, _, e, sent, packet, sends)) ↦ inr (inr (e, lt, sent, packet, sends))
  ]
]

-- What the sender is after a call that gave an entry, or gave none.
pub after_sent :
    (m : TxManager) (b : Bool) (d a n s e : ℕ) (log : ℕ → Packet) {m' : TxManager}
    → Serves m b d a n s log
    → get_next_tx_packet_for_node m b d ≡ some (some e, m')
    → (n < s) × ((m.packet_store.entries e).packet ≡ log n) × Serves m' b d a (n + 1) s log
after_sent m b d a n s e log {m'} h sent = elim (next_cases m b d a n s log h.sends) [
  | inl nothing ↦ absurd (ground arith)
  | inr (inl nothing) ↦ absurd (ground arith)
  | inr (inr (e', lt, ok, packet, sends)) ↦
      let same : e' ≡ e = ground arith in
      let moved : advanced m d n ≡ m' = ground arith in
      (
        lt,
        ap (λ j. (m.packet_store.entries j).packet) (sym same) ∙ packet,
        subst (λ k. Serves k b d a (n + 1) s log) moved
            (record { sends = sends; idle = h.idle; queue = h.queue; active = h.active }),
      )
]

paused-Serves :
    (m : TxManager) (b : Bool) (d a n s : ℕ) (log : ℕ → Packet)
    → Serves m b d a n s log
    → Serves (paused m d) b d a n s log
paused-Serves m b d a n s log h = record {
  sends = record {
    start = h.sends.start;
    next = h.sends.next;
    end = h.sends.end;
    started = h.sends.started;
    bounded = h.sends.bounded;
    keeps = h.sends.keeps;
  };
  idle = h.idle;
  queue = h.queue;
  active = h.active;
}

pub after_silent :
    (m : TxManager) (b : Bool) (d a n s : ℕ) (log : ℕ → Packet) {m' : TxManager}
    → Serves m b d a n s log
    → get_next_tx_packet_for_node m b d ≡ some (none, m')
    → Serves m' b d a n s log
after_silent m b d a n s log {m'} h e = elim (next_cases m b d a n s log h.sends) [
  | inl same ↦ subst (λ k. Serves k b d a n s log) (ground arith) h
  | inr (inl waits) ↦
      subst (λ k. Serves k b d a n s log) (ground arith) (paused-Serves m b d a n s log h)
  | inr (inr (e', lt, ok, packet, sends)) ↦ absurd (ground arith)
]

-- And after a call that took the acknowledgement of `r` packets.
pub after_ack :
    (m : TxManager) (b : Bool) (d a n s r restarts freed restarts_after : ℕ) (log : ℕ → Packet)
    {m' : TxManager}
    → Serves m b d a n s log
    → a ≤ r
    → r ≤ s
    → rx_ack_seq_num m d (last_accepted r) b restarts ≡ some (freed, restarts_after, m')
    → (n' : ℕ) × Serves m' b d r n' s log × Progress m m' d a n r n'
after_ack m b d a n s r restarts freed restarts_after log {m'} h lo hi ok =
    let acks =
      ack_refines m b d a n s r restarts log h.sends lo hi (λ t lt e. h.active t (omega arith)) in
    let same : acks.manager ≡ m' = ap (λ x. x) (ground (arith, acks.returns)) in
    (
      acks.sent,
      subst (λ k. Serves k b d r acks.sent s log) same
          (record {
            sends = acks.sends;
            idle = acks.allocated ∙ h.idle;
            queue = queue_after_ack acks;
            active = λ t lt. active_after_ack acks t lt;
          }),
      subst (λ k. Progress m k d a n r acks.sent) same acks.progress,
    )
  where
    queue_after_ack :
        (acks : AcksTo m b d a n s r log (rx_ack_seq_num m d (last_accepted r) b restarts))
        → HasQueue acks.manager.active_tx_nodes b
    queue_after_ack acks = elim (Bool-cases (ltb a r && (r == s) && b)) [
      | inl last ↦
          let eq : acks.manager.active_tx_nodes ≡ without m.active_tx_nodes d =
            ground (arith, acks.queue) in
          rw eq (without-HasQueue m.active_tx_nodes b d h.queue)
      | inr more ↦
          let eq : acks.manager.active_tx_nodes ≡ m.active_tx_nodes = ground (arith, acks.queue) in
          rw eq h.queue
    ]

    active_after_ack :
        (acks : AcksTo m b d a n s r log (rx_ack_seq_num m d (last_accepted r) b restarts))
        → b ≡ true
        → r < s
        → IsActive acks.manager.active_tx_nodes d
    active_after_ack acks t lt =
        let eq : acks.manager.active_tx_nodes ≡ m.active_tx_nodes = ground (arith, acks.queue) in
        rw eq (h.active t (omega arith))
