-- ===== src/TxManager/Acked.antt =====
-- rxAckSeqNum of src/txManager.c by the window's counters, where it frees packets.
use microbus.Common.{
  ℕ, zero, suc, ◌+◌, ◌-◌, ◌%◌, ◌≤◌, ◌<◌, ◌≡◌, inl, inr, refl, ◌∙◌, Bool, true, false, ◌&&◌, leb,
  ◌==◌, if◌then◌else◌, Option, none, some, ◌>>=◌, update, u8, contains, Bool-cases, ==_refl, arith,
}
use microbus.Packet.{Packet}
use microbus.NodeQueue.{NodeQueue, node_queue_remove, node_queue_remove_if_exists, ids}
use microbus.NodeQueue.Laws.{queue_remove_present}
use microbus.PacketStore.Laws.{Keeps, free_packet-Keeps, freed_store}
use microbus.TxManager.{TxManager, incr_sequence_num}
use microbus.TxManager.Ack.{Freed, free_acked, ack_valid}
use microbus.TxManager.Window.{Sends, incr_counter}

-- The number of the next packet to send, once those before `r` are acknowledged.
abbrev pub at_least : ℕ → ℕ → ℕ
at_least r n = if leb r n then n else r

-- What the loop has done when it ends.
record Ran (b : Bool) (d r n s count : ℕ) (log : ℕ → Packet) (out : Option Freed) : Type 0 where
  freed : Freed
  returns : out ≡ some freed
  keeps : Keeps freed.store b d r s log
  next : freed.next ≡ at_least r n % 255
  counted : freed.packets_freed ≡ count

free_acked-Ran :
    (c fuel : ℕ) (b : Bool) (d a r n s count : ℕ) (log : ℕ → Packet) (f : Freed)
    → a + c ≡ r
    → c < fuel
    → r ≤ s
    → a ≤ n
    → n ≤ s
    → count + c < 256
    → f.next ≡ n % 255
    → f.packets_freed ≡ count
    → Keeps f.store b d a s log
    → Ran b d r n s (count + c) log (free_acked fuel d b (r % 255) (a % 255) f)
unfolding free_acked
free_acked-Ran c zero b d a r n s count log f e lt rs an ns small fn fc h = absurd (omega arith)
free_acked-Ran zero (suc fuel) b d a r n s count log f e lt rs an ns small fn fc h =
    let same : (a % 255 == r % 255) ≡ true = ground arith in
    let eq : a ≡ r = omega arith in
    record {
      freed = f;
      returns = rw (same, free_acked) refl;
      keeps = rw (← eq) h;
      next = ground arith;
      counted = ground arith;
    }
free_acked-Ran (suc c) (suc fuel) b d a r n s count log f e lt rs an ns small fn fc h =
    let more : (a % 255 == r % 255) ≡ false = ground (arith, h.few) in
    let (i, ok, kept) = free_packet-Keeps f.store b d a s log h (omega arith) in
    let n' : ℕ = if n == a then r else n in
    let f' : Freed = record {
      store = freed_store f.store i;
      next = if a % 255 == f.next then r % 255 else f.next;
      packets_freed = u8 (f.packets_freed + 1);
    } in
    let ran =
      free_acked-Ran c fuel b d (a + 1) r n' s (count + 1) log f' (omega arith) (omega arith) rs
        (ground arith) (ground arith) (omega arith) (ground (arith, h.few)) (ground arith) kept in
    record {
      freed = ran.freed;
      returns = rw (more, ok, incr_counter a, free_acked) ran.returns;
      keeps = ran.keeps;
      next = ran.next ∙ ground arith;
      counted = ran.counted ∙ omega arith;
    }

-- The queue of active nodes once a node's packets are all acknowledged.
abbrev pub without : Option NodeQueue → ℕ → Option NodeQueue
without none d = none
without (some q) d = some (node_queue_remove_if_exists q d)

abbrev pub IsActive : Option NodeQueue → ℕ → Type 0
IsActive none d = ⊥
IsActive (some q) d = contains d (ids q) ≡ true

remove_active :
    (active : Option NodeQueue) (d : ℕ)
    → IsActive active d
    → (active >>= λ q. node_queue_remove q d >>= λ r. some (some r)) ≡ some (without active d)
remove_active none d h = absurd h
remove_active (some q) d h = rw (queue_remove_present q d, h) refl

-- The manager after the packets before `r` are acknowledged.
abbrev pub released : TxManager → Bool → ℕ → ℕ → ℕ → Freed → TxManager
released m b d r s f = record m {
  packet_store = f.store;
  tx_seq_num_next = update m.tx_seq_num_next d f.next;
  tx_seq_num_start = update m.tx_seq_num_start d (r % 255);
  tx_seq_num_pause_count = update m.tx_seq_num_pause_count d 0;
  active_tx_nodes = if (r == s) && b then without m.active_tx_nodes d else m.active_tx_nodes;
}

module _ (m : TxManager) (b : Bool) (d a n s r : ℕ) (log : ℕ → Packet) (h : Sends m b d a n s log)
    (upto : r ≤ s) where
  ack_queue :
      a < r
      → (b ≡ true → r ≡ s → IsActive m.active_tx_nodes d)
      → (if (r % 255 == m.tx_seq_num_end d) && b
          then (do q ← m.active_tx_nodes; r' ← node_queue_remove q d; some (some r'))
          else some m.active_tx_nodes)
        ≡ some (if (r == s) && b then without m.active_tx_nodes d else m.active_tx_nodes)
  ack_queue lt active =
      let same : (r % 255 == m.tx_seq_num_end d) ≡ (r == s) = ground (arith, h.end, h.keeps.few) in
      rw same (elim (Bool-cases ((r == s) && b)) [
        | inl last ↦
            rw last (remove_active m.active_tx_nodes d (active (ground arith) (ground arith)))
        | inr left ↦ rw left refl
      ])

  ack_freed :
      (f : Freed)
      → a < r
      → (b ≡ true → r ≡ s → IsActive m.active_tx_nodes d)
      → free_acked 256 d b
          (r % 255)
          (a % 255)
          (record { store = m.packet_store; next = m.tx_seq_num_next d; packets_freed = 0 })
        ≡ some f
      → f.packets_freed ≡ r - a
      → ack_valid m d ((r + 254) % 255) b ≡ some (r - a, released m b d r s f)
  unfolding ack_valid
  ack_freed f lt active ran count =
      let next : incr_sequence_num ((r + 254) % 255) ≡ r % 255 =
        incr_counter (r + 254) ∙ omega arith in
      rw (h.start, next, ran, ack_queue lt active, count) refl

  released-Sends :
      (f : Freed)
      → a ≤ r
      → Keeps f.store b d r s log
      → f.next ≡ at_least r n % 255
      → Sends (released m b d r s f) b d r (at_least r n) s log
  released-Sends f lt keeps next = record {
    start = refl_at;
    next = next_at;
    end = h.end;
    started = ground arith;
    bounded = ground (arith, h.bounded);
    keeps = keeps;
  }
    where
      refl_at : update m.tx_seq_num_start d (r % 255) d ≡ r % 255
      refl_at = rw (==_refl d) refl

      next_at : update m.tx_seq_num_next d f.next d ≡ at_least r n % 255
      next_at = rw (==_refl d) next

  pub ack_new :
      a < r
      → (b ≡ true → r ≡ s → IsActive m.active_tx_nodes d)
      → (f : Freed) × (ack_valid m d ((r + 254) % 255) b ≡ some (r - a, released m b d r s f))
        × Sends (released m b d r s f) b d r (at_least r n) s log
  ack_new lt active =
      let ran =
        free_acked-Ran (r - a) 256 b d a r n s 0 log
          (record { store = m.packet_store; next = m.tx_seq_num_next d; packets_freed = 0 })
          (omega arith) (omega (arith, h.keeps.few)) upto h.started h.bounded
          (omega (arith, h.keeps.few)) h.next refl h.keeps in
      (
        ran.freed,
        ack_freed ran.freed lt active ran.returns (omega (arith, ran.counted)),
        released-Sends ran.freed (omega arith) ran.keeps ran.next,
      )
