-- ===== src/Link/Rounds.antt =====
-- Rounds of a link on which nothing is lost: the sender sends if it has a packet to send, and the
-- receiver sends back the number of the last packet that it accepted.
use microbus.Common.{
  ℕ, zero, suc, ◌+◌, ◌-◌, ◌<◌, ◌≡◌, ◌⊎◌, inl, inr, refl, ap, ◌∙◌, Bool, ltb, ◌==◌, if◌then◌else◌,
  Option, none, some, ◌>>=◌, Bool-cases, ==_refl, arith,
}
use microbus.Packet.{Packet}
use microbus.TxManager.{TxManager}
use microbus.TxManager.Next.{get_next_refines, IsClosed, paused, advanced}
use microbus.TxManager.AckSeqNum.{Progress, ack_refines}
use microbus.TxManager.Ack.{rx_ack_seq_num}
use microbus.TxManager.Transmit.{get_next_tx_packet_for_node}
use microbus.Link.{Link, Ends, receive}
use microbus.Link.Sender.{after_silent, after_ack}
use microbus.Link.Invariant.{Related, moved, arrive-Related}

-- The next packet, if there is one, arrives.
unfoldable pub transmit : Bool → ℕ → ℕ → Link → Option Link
transmit b d own l = do
  r ← get_next_tx_packet_for_node l.sender b d
  some (elim r.0 [
    | none ↦ record l { sender = r.1 }
    | some e ↦ receive (record l { sender = r.1 }) own (l.sender.packet_store.entries e).packet
  ])

-- The receiver's number arrives.
unfoldable pub send_back : Bool → ℕ → ℕ → Link → Option Link
send_back b d own l = do
  r ← rx_ack_seq_num l.sender d (l.receiver.rx_seq_num own) b 0
  some (record l { sender = r.2 })

unfoldable pub rounds : Bool → ℕ → ℕ → ℕ → Link → Option Link
rounds b d own zero l = some l
rounds b d own (suc n) l = do
  sent ← transmit b d own l
  acked ← send_back b d own sent
  rounds b d own n acked

abbrev pub pause : Link → ℕ → ℕ
pause l d = l.sender.tx_seq_num_pause_count d

-- What the call for the next packet comes to.
pub data Sent (l l' : Link) (d a n s r n' r' : ℕ) : Type 0 where
  waits :
      (0 < pause l d) ⊎ (a ≡ s)
      → n' ≡ n
      → r' ≡ r
      → pause l' d ≡ pause l d
      → Sent l l' d a n s r n' r'
  pauses :
      pause l d ≡ 0
      → (n ≡ s) ⊎ IsClosed a n
      → n' ≡ n
      → r' ≡ r
      → pause l' d ≡ 2
      → Sent l l' d a n s r n' r'
  sends :
      pause l d ≡ 0
      → n < s
      → n' ≡ n + 1
      → r' ≡ (if n == r then r + 1 else r)
      → pause l' d ≡ 0
      → Sent l l' d a n s r n' r'

-- A state that is left, with its counters.
pub record After (b : Bool) (d own : ℕ) (l : Link) (a s : ℕ) (log : ℕ → Packet) (out : Option Link)
    : Type 0 where
  pub link : Link
  pub number : ℕ
  pub count : ℕ
  pub returns : out ≡ some link
  pub related : Related b d own link a number s count log
  pub same : link.submitted ≡ l.submitted

module _ (b : Bool) (d own : ℕ) (ends : Ends b d own) (l : Link) (a n s r : ℕ) (log : ℕ → Packet)
    (h : Related b d own l a n s r log) where
  silent_step :
      {m : TxManager}
      → get_next_tx_packet_for_node l.sender b d ≡ some (none, m)
      → (transmit b d own l ≡ some (record l { sender = m }))
        × Related b d own (record l { sender = m }) a n s r log
  unfolding transmit
  silent_step {m} e = (
    rw e refl,
    moved b d own ends l a n s r log h m a n
        (after_silent l.sender b d a n s log {m' = m} h.serves e) h.lower,
  )

  waiting_next : 0 < pause l d → get_next_tx_packet_for_node l.sender b d ≡ some (none, l.sender)
  unfolding get_next_tx_packet_for_node
  waiting_next lt = ground arith

  pub transmit_cases :
      (x : After b d own l a s log (transmit b d own l)) × Sent l x.link d a n s r x.number x.count
  unfolding transmit
  transmit_cases = elim (Bool-cases (ltb 0 (pause l d))) [
    | inl busy ↦
        let lt : 0 < pause l d = ground arith in
        let (ok, h') = silent_step {m = l.sender} (waiting_next lt) in
        (
          record { link = l; number = n; count = r; returns = ok; related = h'; same = refl },
          waits (inl lt) refl refl refl,
        )
    | inr ready ↦
        let idle : pause l d ≡ 0 = ground arith in
        elim (get_next_refines l.sender b d a n s log h.serves.sends idle) [
          | inl (none_left, e) ↦
              let (ok, h') = silent_step {m = l.sender} e in
              (
                record { link = l; number = n; count = r; returns = ok; related = h'; same = refl },
                waits (inr none_left) refl refl refl,
              )
          | inr (inl (_, closed, e)) ↦
              let (ok, h') = silent_step {m = paused l.sender d} e in
              (
                record {
                  link = record l { sender = paused l.sender d };
                  number = n;
                  count = r;
                  returns = ok;
                  related = h';
                  same = refl;
                },
                pauses idle closed refl refl (rw (==_refl d) refl),
              )
          | inr (inr (lt, _, e, ok, _, _)) ↦ (
            record {
              link =
                  receive (record l { sender = advanced l.sender d n }) own
                    (l.sender.packet_store.entries e).packet;
              number = n + 1;
              count = if n == r then r + 1 else r;
              returns = rw ok refl;
              related =
                  arrive-Related b d own ends l a n s r log h e {m = advanced l.sender d n} ok;
              same = refl;
            },
            sends idle lt refl refl idle,
          )
        ]
  ]

  pub send_back_cases :
      (x : After b d own l r s log (send_back b d own l)) × (x.count ≡ r)
      × Progress l.sender x.link.sender d a n r x.number
  unfolding send_back
  send_back_cases =
      let acks =
        ack_refines l.sender b d a n s r 0 log h.serves.sends h.lower h.upper
          (λ t lt e. h.serves.active t (omega arith)) in
      let (n', serves, progress) =
        after_ack l.sender b d a n s r 0 (r - a) acks.restarts log {m' = acks.manager} h.serves
          h.lower h.upper acks.returns in
      let at : rx_ack_seq_num l.sender d (l.receiver.rx_seq_num own) b 0
          ≡ some (r - a, acks.restarts, acks.manager) =
        ap (λ k. rx_ack_seq_num l.sender d k b 0) h.receives.last ∙ acks.returns in
      (
        record {
          link = record l { sender = acks.manager };
          number = n';
          count = r;
          returns = rw at refl;
          related = moved b d own ends l a n s r log h acks.manager r n' serves (omega arith);
          same = refl;
        },
        refl,
        progress,
      )
