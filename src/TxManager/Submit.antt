-- ===== src/TxManager/Submit.antt =====
-- allocateTxPacket and submitAllocatedTxPacket of src/txManager.c by the window's counters, called one
-- after the other as a user's thread does.
use microbus.Common.{
  ℕ, ◌+◌, ◌<◌, ◌≡◌, ◌⊎◌, inl, inr, refl, ap, ◌∙◌, Bool, true, false, not, ◌||◌, leb, ◌==◌, Option,
  none, some, update, Option-cases, arith,
}
use mathlib.Core.Path.{subst}
use microbus.Packet.{Packet, max_nodes, master_data_packet}
use microbus.PacketStore.{PacketStore, allocate_packet_entry}
use microbus.PacketStore.Put.{allocate_lem, allocate_cases}
use microbus.TxManager.{TxManager, allocate_tx_packet, submitted_packet}
use microbus.TxManager.Window.{Sends}
use microbus.TxManager.Acked.{IsActive}
use microbus.TxManager.Stored.{
  filled, send_bytes, HasRoom, queue_after, stored, store_lem, submit_live, submitted_header,
  stored-Sends,
}

-- What a call of `send_bytes` leaves.
pub record Submits (m : TxManager) (b : Bool) (d a n s : ℕ) (log : ℕ → Packet) (bytes : ℕ → ℕ)
    (out : Option TxManager) : Type 0 where
  pub packet : Packet
  pub manager : TxManager
  pub returns : out ≡ some manager
  pub sends : Sends manager b d a n (s + 1) (update log s packet)
  pub content : (i : ℕ) → packet.body (10 + i) ≡ bytes (10 + i)
  pub free_again : manager.allocated_packet ≡ none
  pub pause : manager.tx_seq_num_pause_count ≡ m.tx_seq_num_pause_count
  pub queue :
      (((b ≡ false) ⊎ (a < s)) × (manager.active_tx_nodes ≡ m.active_tx_nodes))
      ⊎ (b ≡ true) × (a ≡ s) × IsActive manager.active_tx_nodes d

module _ (m : TxManager) (b : Bool) (src d packet_type size a n s : ℕ) (bytes : ℕ → ℕ)
    (log : ℕ → Packet) (h : Sends m b d a n s log) (ready : m.allocated_packet ≡ none)
    (room : HasRoom m.active_tx_nodes b) (few : s < a + 254) (hs : src < max_nodes)
    (hd : d < max_nodes) (ha : (b || d == 0) ≡ true)
    (ht : (b || not (packet_type == master_data_packet)) ≡ true) where
  not_full : elim m.active_tx_nodes [ some q ↦ leb max_nodes q.num_nodes | none ↦ false ] ≡ false
  not_full = elim (Option-cases m.active_tx_nodes) [
    | inl e ↦ rw e refl
    | inr (q, e) ↦ rw e (ground (arith, subst (λ o. HasRoom o b) e room))
  ]

  counters_eq : (m.tx_seq_num_end d == m.tx_seq_num_start d) ≡ true → a ≡ s
  counters_eq e = ground (arith, h.start, h.end, h.keeps.few, h.keeps.ordered)

  abbrev taken : ℕ → PacketStore → TxManager
  taken e store = filled (record m { packet_store = store; allocated_packet = some e }) e bytes

  allocate_some :
      (e : ℕ) (store : PacketStore)
      → allocate_packet_entry m.packet_store ≡ (some e, store)
      → allocate_tx_packet m
        ≡ some (some e, record m { packet_store = store; allocated_packet = some e })
  unfolding allocate_tx_packet
  allocate_some e store found =
      let entry : (allocate_packet_entry m.packet_store).0 ≡ some e = ap (λ r. r.0) found in
      rw (entry, ready, not_full, allocate_tx_packet)
        (ap
          (λ (t : PacketStore).
            some (some e, record m { packet_store = t; allocated_packet = some e }))
          (ap (λ r. r.1) found))

  send_some :
      (e : ℕ) (store : PacketStore)
      → allocate_packet_entry m.packet_store ≡ (some e, store)
      → Submits m b d a n s log bytes (send_bytes m b src d packet_type size bytes)
  unfolding send_bytes
  send_some e store found =
      let (free, inside, eq) = allocate_lem m.packet_store e store found in
      let (queue, joined, change) =
        queue_after m.active_tx_nodes b d (m.tx_seq_num_end d == m.tx_seq_num_start d) room in
      let p : Packet =
        submitted_packet ((taken e store).packet_store.entries e).packet b src d packet_type size
          (m.tx_seq_num_end d) in
      let (seq, to_d, content) =
        submitted_header ((taken e store).packet_store.entries e).packet b src d packet_type size
          (m.tx_seq_num_end d) in
      let ok = store_lem (taken e store) b src d packet_type size e queue refl hs hd ha ht joined in
      record {
        packet = p;
        manager = stored (taken e store) e d p queue;
        returns =
            rw (allocate_some e store found, send_bytes)
              (submit_live (taken e store) b src d packet_type size ok);
        sends =
            stored-Sends m (taken e store) b d a n s e log p queue h few free inside
              (ap (λ (t : PacketStore). t.max_entries) eq) (λ j. rw eq (ground arith)) (seq ∙ h.end)
              to_d refl refl refl;
        content = λ i. content i ∙ ground arith;
        free_again = refl;
        pause = refl;
        queue = elim change [
          | inl (same, kept) ↦ inl (ground (arith, h.start, h.end, h.keeps.ordered), kept)
          | inr (fresh, active) ↦ inr (ground arith, counters_eq (ground arith), active)
        ];
      }

-- allocateTxPacket and submitAllocatedTxPacket, one after the other: while fewer than 254 packets
-- for the destination wait for an acknowledgement, no packet is allocated already and the queue of
-- active nodes has room, they do not stop. Either all entries are in use, and nothing changes, or
-- the packet with the user's bytes is the next one of the window; the master's queue then has the
-- destination, if the window was empty, and is unchanged if not.
pub submit_refines :
    (m : TxManager) (b : Bool) (src d packet_type size a n s : ℕ) (bytes : ℕ → ℕ) (log : ℕ → Packet)
    → Sends m b d a n s log
    → m.allocated_packet ≡ none
    → HasRoom m.active_tx_nodes b
    → s < a + 254
    → src < max_nodes
    → d < max_nodes
    → (b || d == 0) ≡ true
    → (b || not (packet_type == master_data_packet)) ≡ true
    → ((send_bytes m b src d packet_type size bytes ≡ some m)
        × ((j : ℕ) → j < m.packet_store.max_entries → (m.packet_store.entries j).in_use ≡ true))
      ⊎ Submits m b d a n s log bytes (send_bytes m b src d packet_type size bytes)
unfolding send_bytes allocate_tx_packet
submit_refines m b src d packet_type size a n s bytes log h ready room few hs hd ha ht =
    elim (allocate_cases m.packet_store) [
      | inl (full, used) ↦
          let no_entry : (allocate_packet_entry m.packet_store).0 ≡ none = ap (λ r. r.0) full in
          let same : (allocate_packet_entry m.packet_store).1 ≡ m.packet_store =
            ap (λ r. r.1) full in
          inl (
            rw (no_entry, send_bytes, allocate_tx_packet)
                (ap (λ (t : PacketStore). some (record m { packet_store = t })) same),
            used,
          )
      | inr (e, store, found) ↦ inr (
          send_some m b src d packet_type size a n s bytes log h ready room few hs hd ha ht e store
            found)
    ]
