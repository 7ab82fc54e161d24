-- ===== src/TxManager/AckSeqNum.antt =====
-- rxAckSeqNum of src/txManager.c by the window's counters, on every branch.
use microbus.Common.{
  ℕ, ◌+◌, ◌-◌, ◌%◌, ◌≤◌, ◌<◌, ◌≡◌, ◌⊎◌, inl, inr, refl, ap, ◌∙◌, Bool, true, false, ◌&&◌, ltb, ◌==◌,
  if◌then◌else◌, Option, some, update, u64, Bool-cases, ==_refl, lt→ltb, arith,
}
use mathlib.Core.Path.{subst}
use microbus.Packet.{Packet}
use microbus.TxManager.{TxManager}
use microbus.TxManager.Ack.{ack_invalid, rx_ack_seq_num, valid_seq_num}
use microbus.TxManager.Window.{Sends, last_accepted}
use microbus.TxManager.Acked.{at_least, without, IsActive, released, ack_new}

-- Where `sent` is and how long it waits: packets are newly acknowledged; nothing was ever accepted, or
-- it is not waiting; it waits for one more, and starts again; it waits for more.
pub data Progress (m m' : TxManager) (d a n r sent : ℕ) : Type 0 where
  newly : a < r → sent ≡ at_least r n → m'.tx_seq_num_pause_count d ≡ 0 → Progress m m' d a n r sent
  unchanged :
      a ≡ r
      → (a ≡ 0) ⊎ (m.tx_seq_num_pause_count d ≡ 0)
      → sent ≡ n
      → m'.tx_seq_num_pause_count d ≡ m.tx_seq_num_pause_count d
      → Progress m m' d a n r sent
  again :
      a ≡ r
      → 0 < a
      → m.tx_seq_num_pause_count d ≡ 1
      → sent ≡ a
      → m'.tx_seq_num_pause_count d ≡ 0
      → Progress m m' d a n r sent
  wait :
      a ≡ r
      → 0 < a
      → 1 < m.tx_seq_num_pause_count d
      → sent ≡ n
      → m'.tx_seq_num_pause_count d + 1 ≡ m.tx_seq_num_pause_count d
      → Progress m m' d a n r sent

-- What rxAckSeqNum returns: how many packets it freed, and a sender whose first packet without an
-- acknowledgement is `r`.
pub record AcksTo (m : TxManager) (b : Bool) (d a n s r : ℕ) (log : ℕ → Packet)
    (out : Option (ℕ × ℕ × TxManager)) : Type 0 where
  pub restarts : ℕ
  pub manager : TxManager
  pub sent : ℕ
  pub returns : out ≡ some (r - a, restarts, manager)
  pub sends : Sends manager b d r sent s log
  pub progress : Progress m manager d a n r sent
  pub allocated : manager.allocated_packet ≡ m.allocated_packet
  pub queue :
      manager.active_tx_nodes
      ≡ (if ltb a r && (r == s) && b then without m.active_tx_nodes d else m.active_tx_nodes)

-- The manager while it waits for acknowledgements, and where it starts the window again.
abbrev waiting : TxManager → ℕ → TxManager
waiting m d = record m {
  tx_seq_num_pause_count = update m.tx_seq_num_pause_count d (m.tx_seq_num_pause_count d - 1);
}

abbrev restarted : TxManager → ℕ → TxManager
restarted m d = record (waiting m d) {
  tx_seq_num_next = update m.tx_seq_num_next d (m.tx_seq_num_start d);
}

invalid_cases :
    (m : TxManager) (d restarts : ℕ)
    → ((m.tx_seq_num_pause_count d ≡ 0) × (ack_invalid m d restarts ≡ (restarts, m)))
      ⊎ ((1 < m.tx_seq_num_pause_count d) × (ack_invalid m d restarts ≡ (restarts, waiting m d)))
      ⊎ ((m.tx_seq_num_pause_count d ≡ 1)
          × (ack_invalid m d restarts ≡ (u64 (restarts + 1), restarted m d)))
unfolding ack_invalid
invalid_cases m d restarts =
    let pause : ℕ = m.tx_seq_num_pause_count d in
    elim (Bool-cases (ltb 0 pause)) [
      | inr idle ↦ inl (ground arith, rw idle refl)
      | inl some_left ↦ elim (Bool-cases (pause - 1 == 0)) [
        | inl last ↦ inr (inr (ground arith, rw (some_left, last) refl))
        | inr left ↦ inr (inl (ground arith, rw (some_left, left) refl))
      ]
    ]

restarted-Sends :
    (m : TxManager) (b : Bool) (d a n s : ℕ) (log : ℕ → Packet)
    → Sends m b d a n s log
    → Sends (restarted m d) b d a a s log
restarted-Sends m b d a n s log h = record {
  start = h.start;
  next = rw (==_refl d) h.start;
  end = h.end;
  started = omega arith;
  bounded = h.keeps.ordered;
  keeps = h.keeps;
}

accepted_some : (a r : ℕ) → a < r → (r == 0) ≡ false
accepted_some a r lt = ground arith

not_null : (r : ℕ) → ((r + 254) % 255 == 255) ≡ false
not_null r = ground arith

valid_new :
    (a r s : ℕ)
    → a < r
    → r ≤ s
    → s ≤ a + 254
    → valid_seq_num (a % 255) (s % 255) ((r + 254) % 255) ≡ true
valid_new a r s lt upto few = ground arith

module _ (m : TxManager) (b : Bool) (d a n s restarts : ℕ) (log : ℕ → Packet)
    (h : Sends m b d a n s log) where
  ack_nothing :
      (re : ℕ)
      → (m' : TxManager) (n' : ℕ)
      → rx_ack_seq_num m d (last_accepted a) b restarts ≡ some (0, re, m')
      → Sends m' b d a n' s log
      → Progress m m' d a n a n'
      → m'.active_tx_nodes ≡ m.active_tx_nodes
      → m'.allocated_packet ≡ m.allocated_packet
      → AcksTo m b d a n s a log (rx_ack_seq_num m d (last_accepted a) b restarts)
  ack_nothing re m' n' ok sends at same alloc = record {
    restarts = re;
    manager = m';
    sent = n';
    returns = ok ∙ ap (λ (k : ℕ). some (k, re, m')) (omega arith);
    sends = sends;
    progress = at;
    allocated = alloc;
    queue = ground arith;
  }

  old_invalid :
      {re : ℕ} {m' : TxManager}
      → ack_invalid m d restarts ≡ (re, m')
      → (a ≡ 0 → ⊥)
      → rx_ack_seq_num m d (last_accepted a) b restarts ≡ some (0, re, m')
  unfolding rx_ack_seq_num
  old_invalid {re} {m'} e pos =
      let some_yet : (a == 0) ≡ false = ground arith in
      let real : ((a + 254) % 255 == 255) ≡ false = ground arith in
      let outside : valid_seq_num (a % 255) (s % 255) ((a + 254) % 255) ≡ false =
        ground (arith, h.keeps.few, h.keeps.ordered) in
      rw (some_yet, real, h.start, h.end, outside, e) refl

  ack_old : AcksTo m b d a n s a log (rx_ack_seq_num m d (last_accepted a) b restarts)
  ack_old = elim (Bool-cases (a == 0)) [
    | inl none_yet ↦
        let zero_yet : a ≡ 0 = ground arith in
        ack_nothing restarts m n (unfold rx_ack_seq_num in rw none_yet refl) h
          (unchanged refl (inl zero_yet) refl refl) refl refl
    | inr pos ↦
        let nz : a ≡ 0 → ⊥ = λ e. ground arith in
        elim (invalid_cases m d restarts) [
          | inl (idle, e) ↦
              ack_nothing restarts m n (old_invalid e nz) h (unchanged refl (inr idle) refl refl)
                refl refl
          | inr (inl (long, e)) ↦
              ack_nothing restarts (waiting m d) n (old_invalid e nz)
                (record {
                  start = h.start;
                  next = h.next;
                  end = h.end;
                  started = h.started;
                  bounded = h.bounded;
                  keeps = h.keeps;
                })
                (wait refl (ground arith) long refl (rw (==_refl d) (omega arith))) refl refl
          | inr (inr (one, e)) ↦
              ack_nothing (u64 (restarts + 1)) (restarted m d) a (old_invalid e nz)
                (restarted-Sends m b d a n s log h)
                (again refl (ground arith) one refl (rw (==_refl d) (omega arith))) refl refl
        ]
  ]

  ack_some :
      (r : ℕ)
      → a < r
      → r ≤ s
      → (b ≡ true → a < r → r ≡ s → IsActive m.active_tx_nodes d)
      → AcksTo m b d a n s r log (rx_ack_seq_num m d (last_accepted r) b restarts)
  unfolding rx_ack_seq_num
  ack_some r lt upto active =
      let (f, ok, sends) = ack_new m b d a n s r log h upto lt (λ t e. active t lt e) in
      let some_yet = accepted_some a r lt in
      let real = not_null r in
      let inside = valid_new a r s lt upto h.keeps.few in
      let grew = lt→ltb a r lt in
      record {
        restarts = restarts;
        manager = released m b d r s f;
        sent = at_least r n;
        returns = rw (some_yet, real, h.start, h.end, inside, ok) refl;
        sends = sends;
        progress = newly lt refl (rw (==_refl d) refl);
        allocated = refl;
        queue = rw grew refl;
      }

-- rxAckSeqNum of what a receiver that has accepted `r` packets sends back, where `r` counts some of
-- those submitted and all of those acknowledged before: it does not stop, frees exactly the packets
-- that are newly acknowledged and keeps the others. If there are such, it goes on with the next
-- packet not sent and not acknowledged, and waits no longer. If not, and none was ever accepted or it
-- does not wait, nothing changes; if it waits, it waits for one less, and after the last goes on with
-- the first packet again. The master takes the node from its queue of active nodes if it has emptied.
pub ack_refines :
    (m : TxManager) (b : Bool) (d a n s r restarts : ℕ) (log : ℕ → Packet)
    → Sends m b d a n s log
    → a ≤ r
    → r ≤ s
    → (b ≡ true → a < r → r ≡ s → IsActive m.active_tx_nodes d)
    → AcksTo m b d a n s r log (rx_ack_seq_num m d (last_accepted r) b restarts)
ack_refines m b d a n s r restarts log h lo hi active = elim (Bool-cases (a == r)) [
  | inl same ↦
      let eq : a ≡ r = ground arith in
      subst (λ k. AcksTo m b d a n s k log (rx_ack_seq_num m d (last_accepted k) b restarts)) eq
        (ack_old m b d a n s restarts log h)
  | inr more ↦ ack_some m b d a n s restarts log h r (ground arith) hi active
]
