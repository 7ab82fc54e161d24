-- ===== src/Link/Delivery.antt =====
-- What the two users of a link see.
use microbus.Common.{
  ℕ, ◌-◌, ◌≤◌, ◌<◌, ◌≡◌, inl, inr, refl, sym, ap, ◌∙◌, Bool, true, not, ◌||◌, ◌==◌, Option, none,
  some, List, ◌++◌, cells, cells-split, length, length-cells, arith,
}
use microbus.Packet.{Packet, PacketEntry, zero_entry, master_data_packet}
use microbus.NodeQueue.{NodeQueue}
use microbus.TxManager.{TxManager, init_tx_manager}
use microbus.TxManager.Window.{Sends}
use microbus.TxManager.Next.{paused, advanced}
use microbus.TxManager.AckSeqNum.{ack_refines}
use microbus.TxManager.Submit.{submit_refines}
use microbus.TxManager.Stored.{HasRoom, send_bytes}
use microbus.TxManager.Ack.{rx_ack_seq_num, get_num_in_tx_buffer}
use microbus.TxManager.Transmit.{get_next_tx_packet_for_node}
use microbus.Link.{Link, Reachable, start, later, Ends, HasQueue, user_data, initial}
use microbus.Link.Sender.{next_cases}
use microbus.Link.Submission.{few_waiting}
use microbus.Link.Invariant.{IsRelated, Step-IsRelated}

-- initTxManager leaves an empty window, and a receiver that has accepted nothing.
init-Sends :
    (before : TxManager) (b : Bool) (d nodes max_entries : ℕ) (active : Option NodeQueue)
    (entries : ℕ → PacketEntry) (log : ℕ → Packet)
    → d < nodes
    → Sends (init_tx_manager before nodes active max_entries entries) b d 0 0 0 log
unfolding init_tx_manager
init-Sends before b d nodes max_entries active entries log lt = record {
  start = ground arith;
  next = ground arith;
  end = ground arith;
  started = omega arith;
  bounded = omega arith;
  keeps = record {
    ordered = omega arith;
    few = omega arith;
    held = λ k lo hi. absurd (omega arith);
    only = λ j hj used. absurd (ground arith);
  };
}

initial-IsRelated :
    (b : Bool) (d own : ℕ) (before before' : TxManager) (entries : ℕ → PacketEntry)
    (max_entries nodes nodes' : ℕ) (active active' : Option NodeQueue)
    → d < nodes
    → own < nodes'
    → HasQueue active b
    → IsRelated b d own (initial before before' entries max_entries nodes nodes' active active')
unfolding init_tx_manager
initial-IsRelated b d own before before' entries max_entries nodes nodes' active active' hd ho
      queue =
    (
      0,
      0,
      0,
      0,
      λ _. zero_entry.packet,
      record {
        serves = record {
          sends =
              init-Sends before b d nodes max_entries active entries (λ _. zero_entry.packet) hd;
          idle = refl;
          queue = queue;
          active = λ t lt. absurd (omega arith);
        };
        receives = record { last = ground arith };
        lower = omega arith;
        upper = omega arith;
        submitted = refl;
        accepted = refl;
      },
    )

pub Reachable-IsRelated :
    (b : Bool) (d own : ℕ) {l : Link} → Ends b d own → Reachable b d own l → IsRelated b d own l
Reachable-IsRelated b d own ends
      (start before before' entries max_entries nodes nodes' active active' hd ho queue) =
    initial-IsRelated b d own before before' entries max_entries nodes nodes' active active' hd ho
      queue
Reachable-IsRelated b d own ends (later before step) =
    Step-IsRelated b d own ends step (Reachable-IsRelated b d own ends before)

-- In every state that a link reaches between two ids below MAX_NODES, where a node sends to the master
-- only, and however packets and acknowledgements were lost: the receiver's user has got the data that
-- the sender's user submitted, in order, each once, up to some point, and at most 254 are still to come.
pub in_order :
    (b : Bool) (d own : ℕ) {l : Link}
    → Ends b d own
    → Reachable b d own l
    → (left : List (ℕ → ℕ)) × (l.submitted ≡ l.accepted ++ left) × (length left ≤ 254)
in_order b d own {l} ends reached =
    let (a, n, s, r, log, h) = Reachable-IsRelated b d own ends reached in
    let f : ℕ → ℕ → ℕ = λ k. user_data (log k) in
    (
      cells f r (s - r),
      h.submitted
          ∙ cells-split f 0 r (s - r) s r (omega (arith, h.upper)) (omega arith)
          ∙ ap (λ x. x ++ cells f r (s - r)) (sym h.accepted),
      rw (length-cells f r (s - r)) (omega (arith, h.serves.sends.keeps.few, h.lower)),
    )

-- In no state that such a link reaches does an assertion fail in the call for the next packet, nor in
-- that for the number that the receiver sends back.
pub no_assertion_fails :
    (b : Bool) (d own restarts : ℕ) {l : Link}
    → Ends b d own
    → Reachable b d own l
    → ((x : Option ℕ × TxManager) × (get_next_tx_packet_for_node l.sender b d ≡ some x))
      × ((x : ℕ × ℕ × TxManager) × (rx_ack_seq_num l.sender d (l.receiver.rx_seq_num own) b restarts
            ≡ some x))
no_assertion_fails b d own restarts {l} ends reached =
    let (a, n, s, r, log, h) = Reachable-IsRelated b d own ends reached in
    let sends = h.serves.sends in
    let acks =
      ack_refines l.sender b d a n s r restarts log sends h.lower h.upper
        (λ t lt e. h.serves.active t (omega arith)) in
    (
      elim (next_cases l.sender b d a n s log sends) [
        | inl e ↦ ((none, l.sender), e)
        | inr (inl e) ↦ ((none, paused l.sender d), e)
        | inr (inr (e, _, ok, _, _)) ↦ ((some e, advanced l.sender d n), ok)
      ],
      (
        (r - a, acks.restarts, acks.manager),
        ap (λ k. rx_ack_seq_num l.sender d k b restarts) h.receives.last ∙ acks.returns,
      ),
    )

-- Nor, in such a state, in the two calls of a user who sends data, with room in the queue of active
-- nodes and fewer than 254 packets that wait.
pub submit_succeeds :
    (b : Bool) (d own packet_type size : ℕ) (bytes : ℕ → ℕ) {l : Link}
    → Ends b d own
    → Reachable b d own l
    → (b || not (packet_type == master_data_packet)) ≡ true
    → HasRoom l.sender.active_tx_nodes b
    → get_num_in_tx_buffer l.sender d < 254
    → (m : TxManager) × (send_bytes l.sender b own d packet_type size bytes ≡ some m)
submit_succeeds b d own packet_type size bytes {l} ends reached plain room level =
    let (a, n, s, r, log, h) = Reachable-IsRelated b d own ends reached in
    let sends = h.serves.sends in
    elim (submit_refines l.sender b own d packet_type size a n s bytes log sends h.serves.idle room
      (few_waiting l.sender b d a n s log sends level) ends.from ends.to ends.to_master plain) [
        | inl (ok, _) ↦ (l.sender, ok)
        | inr done ↦ (done.manager, done.returns)
      ]
