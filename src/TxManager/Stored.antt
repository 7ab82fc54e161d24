-- ===== src/TxManager/Stored.antt =====
-- submitAllocatedTxPacket of src/txManager.c by the window's counters: the header that it writes, the
-- queue of active nodes and the manager that it leaves.
use microbus.Common.{
  ◌⊎◌, inl, inr, ℕ, ◌+◌, ◌%◌, ◌<◌, ◌≡◌, refl, ap, ◌∙◌, Bool, true, false, not, ◌&&◌, ◌||◌, ltb,
  ◌==◌, if◌then◌else◌, Option, none, some, ◌>>=◌, update, contains-append, max, sub8, ==_refl,
  arith,
}
use microbus.Packet.{
  Packet, max_nodes, master_data_packet, dst_node_id_at, set_packet,
  set_protocol_version_and_packet_type, set_packet_data_size,
}
use microbus.NodeQueue.{NodeQueue, node_queue_add, ids}
use microbus.NodeQueue.Laws.{queue_add_refines}
use microbus.PacketStore.Put.{put-Keeps}
use microbus.TxManager.{
  TxManager, incr_sequence_num, allocate_tx_packet, submitted_packet, store_allocated,
  submit_allocated_tx_packet,
}
use microbus.TxManager.Window.{Sends, incr_counter}
use microbus.TxManager.Acked.{IsActive}

-- The user writes the data of the packet that it was given, which starts at byte 10.
abbrev pub write_data : Packet → (ℕ → ℕ) → Packet
write_data p bytes = record p { body = λ i. if ltb i 10 then p.body i else bytes i }

abbrev pub filled : TxManager → ℕ → (ℕ → ℕ) → TxManager
filled m e bytes = record m {
  packet_store = record (m.packet_store) {
    entries =
        set_packet m.packet_store.entries e (write_data (m.packet_store.entries e).packet bytes);
  };
}

-- What a user's thread does to send: it allocates, writes, and submits at once. Without a free entry
-- it gives up. The time to live of a master's node is not 0.
unfoldable pub send_bytes : TxManager → Bool → ℕ → ℕ → ℕ → ℕ → (ℕ → ℕ) → Option TxManager
send_bytes m b src dst packet_type size bytes = do
  r ← allocate_tx_packet m
  elim r.0 [
    | none ↦ some r.1
    | some e ↦ submit_allocated_tx_packet (filled r.1 e bytes) b 1 1 src dst packet_type size
  ]

-- The queue of active nodes has room, and on a node there is none.
abbrev pub HasRoom : Option NodeQueue → Bool → Type 0
HasRoom none b = b ≡ false
HasRoom (some q) b = q.num_nodes < max_nodes

pub queue_after :
    (active : Option NodeQueue) (b : Bool) (d : ℕ) (empty : Bool)
    → HasRoom active b
    → (queue : Option NodeQueue) × ((if b && empty
          then (do q ← active; r ← node_queue_add q d; some (some r))
          else some active)
        ≡ some queue)
      × ((((b && empty) ≡ false) × (queue ≡ active)) ⊎ (((b && empty) ≡ true) × IsActive queue d))
queue_after none b d empty room = (none, rw room refl, inl (rw room refl, refl))
queue_after (some q) false d empty room = (some q, refl, inl (refl, refl))
queue_after (some q) true d false room = (some q, refl, inl (refl, refl))
queue_after (some q) true d true room =
    let (r, ok, content, _) = queue_add_refines q d room in
    (some r, rw ok refl, inr (refl, rw content (ground (arith, contains-append d d (ids q)))))

-- The manager that `submitAllocatedTxPacket` leaves.
abbrev pub stored : TxManager → ℕ → ℕ → Packet → Option NodeQueue → TxManager
stored m e d p queue =
    let end = incr_sequence_num (m.tx_seq_num_end d) in
    let level = sub8 end (m.tx_seq_num_start d) in
    record m {
      packet_store = record (m.packet_store) { entries = set_packet m.packet_store.entries e p };
      tx_seq_num_end = update m.tx_seq_num_end d end;
      active_tx_nodes = queue;
      tx_buffer_level = level;
      max_tx_buffer_level = max m.max_tx_buffer_level level;
      allocated_packet = none;
    }

pub store_lem :
    (m : TxManager) (b : Bool) (src d packet_type size e : ℕ) (queue : Option NodeQueue)
    → m.allocated_packet ≡ some e
    → src < max_nodes
    → d < max_nodes
    → (b || d == 0) ≡ true
    → (b || not (packet_type == master_data_packet)) ≡ true
    → (if b && (m.tx_seq_num_end d == m.tx_seq_num_start d)
        then (do q ← m.active_tx_nodes; r ← node_queue_add q d; some (some r))
        else some m.active_tx_nodes)
      ≡ some queue
    → store_allocated m b src d packet_type size
      ≡ some (
          stored m e d
            (submitted_packet
              (m.packet_store.entries e).packet
              b
              src
              d
              packet_type
              size
              (m.tx_seq_num_end d))
            queue)
unfolding store_allocated
store_lem m b src d packet_type size e queue alloc hs hd ha ht hq =
    let both : (ltb src max_nodes && ltb d max_nodes) ≡ true = ground arith in
    rw (both, alloc, ha, ht, hq) refl

pub submit_live :
    (m : TxManager) (b : Bool) (src d packet_type size : ℕ) {m' : TxManager}
    → store_allocated m b src d packet_type size ≡ some m'
    → submit_allocated_tx_packet m b 1 1 src d packet_type size ≡ some m'
unfolding submit_allocated_tx_packet
submit_live m true src d packet_type size e = rw (e, submit_allocated_tx_packet) refl
submit_live m false src d packet_type size e = rw (e, submit_allocated_tx_packet) refl

pub submitted_header :
    (p : Packet) (b : Bool) (src d packet_type size seq : ℕ)
    → ((submitted_packet p b src d packet_type size seq).tx_seq_num ≡ seq)
      × (b ≡ true → (submitted_packet p b src d packet_type size seq).body dst_node_id_at ≡ d)
      × ((i : ℕ)
          → (submitted_packet p b src d packet_type size seq).body (10 + i) ≡ p.body (10 + i))
unfolding submitted_packet set_protocol_version_and_packet_type set_packet_data_size
submitted_header p true src d packet_type size seq = (refl, λ t. refl, λ i. ground arith)
submitted_header p false src d packet_type size seq = (refl, λ t. cc, λ i. ground arith)

pub stored-Sends :
    (m m1 : TxManager) (b : Bool) (d a n s e : ℕ) (log : ℕ → Packet) (p : Packet)
    (queue : Option NodeQueue)
    → Sends m b d a n s log
    → s < a + 254
    → (m.packet_store.entries e).in_use ≡ false
    → e < m.packet_store.max_entries
    → m1.packet_store.max_entries ≡ m.packet_store.max_entries
    → ((j : ℕ)
        → set_packet m1.packet_store.entries e p j
          ≡ (if j == e then record { in_use = true; packet = p } else m.packet_store.entries j))
    → p.tx_seq_num ≡ s % 255
    → (b ≡ true → p.body dst_node_id_at ≡ d)
    → m1.tx_seq_num_start ≡ m.tx_seq_num_start
    → m1.tx_seq_num_end ≡ m.tx_seq_num_end
    → m1.tx_seq_num_next ≡ m.tx_seq_num_next
    → Sends (stored m1 e d p queue) b d a n (s + 1) (update log s p)
stored-Sends m m1 b d a n s e log p queue h room free inside size put seq to_d st en ne = record {
  start = ap (λ f. f d) st ∙ h.start;
  next = ap (λ f. f d) ne ∙ h.next;
  end =
      rw (==_refl d)
        (ap (λ f. incr_sequence_num (f d)) en ∙ ap incr_sequence_num h.end ∙ incr_counter s);
  started = h.started;
  bounded = omega (arith, h.bounded);
  keeps =
      put-Keeps m.packet_store (stored m1 e d p queue).packet_store b d e p free inside size put a s
        log seq to_d room h.keeps;
}
