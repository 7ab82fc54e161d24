-- ===== src/TxManager/Next.antt =====
-- getNextTxPacketForNode of src/txManager.c by the window's counters.
use microbus.Common.{
  if◌then◌else◌, leb, ◌≢◌, ℕ, ◌+◌, ◌%◌, ◌≤◌, ◌<◌, ◌≡◌, ◌⊎◌, ◌↔◌, inl, inr, refl, Bool, false, ◌||◌,
  ◌==◌, none, some, update, u8, Bool-cases, arith,
}
use microbus.Packet.{Packet, sliding_window_size}
use microbus.TxManager.{TxManager, incr_sequence_num}
use microbus.TxManager.Transmit.{get_next_tx_packet_for_node}
use microbus.TxManager.Window.{Sends, incr_counter, counter_in_range}

-- What the code takes for the end of the window.
abbrev pub IsClosed : ℕ → ℕ → Type 0
IsClosed a n = n % 255 ≡ u8 (a % 255 + sliding_window_size)

abbrev pub paused : TxManager → ℕ → TxManager
paused m d = record m { tx_seq_num_pause_count = update m.tx_seq_num_pause_count d 2 }

abbrev pub advanced : TxManager → ℕ → ℕ → TxManager
advanced m d n = record m {
  tx_seq_num_next = update m.tx_seq_num_next d (incr_sequence_num (n % 255));
}

module _ (m : TxManager) (b : Bool) (d a n s : ℕ) (log : ℕ → Packet) (h : Sends m b d a n s log)
    (ready : m.tx_seq_num_pause_count d ≡ 0) where
  next_idle : a ≡ s → get_next_tx_packet_for_node m b d ≡ some (none, m)
  unfolding get_next_tx_packet_for_node
  next_idle e = ground (arith, h.start, h.end)

  next_pause :
      a < s → (n ≡ s) ⊎ IsClosed a n → get_next_tx_packet_for_node m b d ≡ some (none, paused m d)
  unfolding get_next_tx_packet_for_node
  next_pause lt closed =
      let few = h.keeps.few in
      let inside = counter_in_range a n s h.started h.bounded few in
      rw (ready, h.start, h.end, h.next, inside) (ground arith)

  next_send :
      n < s
      → ¬ IsClosed a n
      → (e : ℕ) × (get_next_tx_packet_for_node m b d ≡ some (some e, advanced m d n))
        × ((m.packet_store.entries e).packet ≡ log n)
        × Sends (advanced m d n) b d a (n + 1) s log
  unfolding get_next_tx_packet_for_node
  next_send lt ne =
      let few = h.keeps.few in
      let (e, found, packet) = h.keeps.held n h.started lt in
      let inside = counter_in_range a n s h.started h.bounded few in
      let busy : (a % 255 == s % 255) ≡ false = ground (arith, h.started) in
      let more : (n % 255 == s % 255) ≡ false = ground (arith, h.started) in
      let wider : (n % 255 == u8 (a % 255 + sliding_window_size)) ≡ false = ground arith in
      (
        e,
        rw (ready, h.start, h.end, h.next, inside, busy, more, wider, found) refl,
        packet,
        record {
          start = h.start;
          next = ground (arith, incr_counter n);
          end = h.end;
          started = omega (arith, h.started);
          bounded = omega arith;
          keeps = h.keeps;
        },
      )

-- getNextTxPacketForNode, when it is not waiting for acknowledgements: with nothing submitted it
-- returns null and changes nothing; at the last packet submitted or at what the code takes for the
-- end of the window it returns null and waits for two acknowledgements; at any other, and only there,
-- it returns the entry of the next packet and moves on by one. It never stops.
pub get_next_refines :
    (m : TxManager) (b : Bool) (d a n s : ℕ) (log : ℕ → Packet)
    → Sends m b d a n s log
    → m.tx_seq_num_pause_count d ≡ 0
    → ((a ≡ s) × (get_next_tx_packet_for_node m b d ≡ some (none, m)))
      ⊎ ((a < s)
          × ((n ≡ s) ⊎ IsClosed a n)
          × (get_next_tx_packet_for_node m b d ≡ some (none, paused m d)))
      ⊎ ((n < s)
          × (¬ IsClosed a n)
          × (e : ℕ) × (get_next_tx_packet_for_node m b d ≡ some (some e, advanced m d n))
          × ((m.packet_store.entries e).packet ≡ log n)
          × Sends (advanced m d n) b d a (n + 1) s log)
get_next_refines m b d a n s log h ready = elim (Bool-cases (a == s)) [
  | inl idle ↦ inl (ground arith, next_idle m b d a n s log h ready (ground arith))
  | inr busy ↦ elim (Bool-cases (n == s || n % 255 == u8 (a % 255 + sliding_window_size))) [
    | inl stop ↦
        let closed : (n ≡ s) ⊎ IsClosed a n = ground arith in
        let left : a < s = ground (arith, h.started, h.bounded) in
        inr (inl (left, closed, next_pause m b d a n s log h ready left closed))
    | inr go ↦
        let lt : n < s = ground (arith, h.bounded) in
        let unclosed : ¬ IsClosed a n = ground arith in
        let (e, sent, packet, sends) = next_send m b d a n s log h ready lt unclosed in
        inr (inr (lt, unclosed, e, sent, packet, sends))
  ]
]

-- How many packets the code sends ahead of the acknowledgements, unless the first packet that is not
-- acknowledged has the number 251.
abbrev pub window_size : ℕ → ℕ
window_size a = if leb (a % 255) 250 then 4 else 3

IsClosed-at :
    (a n : ℕ) → a ≤ n → n ≤ a + 254 → a % 255 ≢ 251 → IsClosed a n ↔ (n ≡ a + window_size a)
IsClosed-at a n h near other = grind arith

-- Unless the first packet that is not acknowledged has the number 251 modulo 255, the window is closed
-- at exactly one distance of the next packet from it, which is four, or, at 252, 253 and 254, three:
-- there getNextTxPacketForNode returns null and waits; at any other, further ones included, it
-- returns the next packet, where one is left.
pub window_closes :
    (m : TxManager) (b : Bool) (d a n s : ℕ) (log : ℕ → Packet)
    → Sends m b d a n s log
    → m.tx_seq_num_pause_count d ≡ 0
    → a % 255 ≢ 251
    → n < s
    → ((n ≡ a + window_size a) × (get_next_tx_packet_for_node m b d ≡ some (none, paused m d)))
      ⊎ ((n ≢ a + window_size a)
          × ((e : ℕ) × (get_next_tx_packet_for_node m b d ≡ some (some e, advanced m d n))
              × ((m.packet_store.entries e).packet ≡ log n)
              × Sends (advanced m d n) b d a (n + 1) s log))
window_closes m b d a n s log h ready other lt =
    let (to, from) = IsClosed-at a n h.started (omega (arith, h.keeps.few)) other in
    elim (Bool-cases (n == a + window_size a)) [
      | inl full ↦
          let at : n ≡ a + window_size a = ground arith in
          inl (at, next_pause m b d a n s log h ready (omega (arith, h.started)) (inr (from at)))
      | inr room ↦
          let beside : n ≢ a + window_size a = ground arith in
          inr (beside, next_send m b d a n s log h ready lt (λ closed. beside (to closed)))
    ]

-- Where the first packet that is not acknowledged has the number 251 modulo 255, the window has no
-- end: as long as a packet is left that was submitted and not sent, getNextTxPacketForNode sends it,
-- however many of those before it are not acknowledged.
pub window_unlimited :
    (m : TxManager) (b : Bool) (d a n s : ℕ) (log : ℕ → Packet)
    → Sends m b d a n s log
    → m.tx_seq_num_pause_count d ≡ 0
    → a % 255 ≡ 251
    → n < s
    → (e : ℕ) × (get_next_tx_packet_for_node m b d ≡ some (some e, advanced m d n))
      × ((m.packet_store.entries e).packet ≡ log n)
      × Sends (advanced m d n) b d a (n + 1) s log
window_unlimited m b d a n s log h ready at lt =
    next_send m b d a n s log h ready lt (λ closed. omega arith)
