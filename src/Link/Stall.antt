-- ===== src/Link/Stall.antt =====
-- A link whose first packet is lost.
use microbus.Common.{
  ℕ, ◌+◌, ◌%◌, ◌<◌, ◌≡◌, ◌≢◌, ap, ◌∙◌, sym, Bool, false, ◌==◌, if◌then◌else◌, some, [], length,
  length-cells, Bool-cases, inl, inr, arith,
}
use mathlib.Core.Path.{subst}
use microbus.Packet.{Packet}
use microbus.TxManager.{TxManager}
use microbus.TxManager.Window.{last_accepted}
use microbus.TxManager.AckSeqNum.{Progress, newly, unchanged, again, wait}
use microbus.TxManager.Ack.{rx_ack_seq_num}
use microbus.Link.{
  Link, Step, submit, arrive, lose, silent, acknowledge, Steps, done, next, Reachable, Ends,
  user_data, receive,
}
use microbus.Link.Sender.{after_sent, after_silent, after_ack}
use microbus.Link.Invariant.{Related, moved, submit-Related, arrive-Related}
use microbus.Link.Delivery.{Reachable-IsRelated}

-- Nothing is accepted, and the packet to send next is not the first.
abbrev IsStalled : Bool → ℕ → ℕ → Link → Type 0
IsStalled b d own l = (n s : ℕ) × (log : ℕ → Packet) × (0 < n) × Related b d own l 0 n s 0 log

-- An acknowledgement of nothing leaves the packet to send next.
ack_of_none : {m m' : TxManager} {d n n' : ℕ} → Progress m m' d 0 n 0 n' → n' ≡ n
ack_of_none (newly lt e p) = absurd (omega arith)
ack_of_none (unchanged same idle e p) = e
ack_of_none (again same pos one e p) = absurd (omega arith)
ack_of_none (wait same pos long e p) = absurd (omega arith)

Step-IsStalled :
    (b : Bool) (d own : ℕ) {l l' : Link}
    → Ends b d own
    → Step b d own l l'
    → IsStalled b d own l
    → IsStalled b d own l'
Step-IsStalled b d own {l} ends
      (submit packet_type size e bytes {m = m} {taken = taken} plain level got ok)
      (n, s, log, lt, h) =
    let (log', h') =
      submit-Related b d own ends l 0 n s 0 log h packet_type size e bytes {m = m} {taken = taken}
        plain level got ok in
    (n, s + 1, log', lt, h')
Step-IsStalled b d own {l} ends (arrive e {m = m} sent) (n, s, log, lt, h) =
    let other : (n == 0) ≡ false = ground arith in
    (
      n + 1,
      s,
      log,
      omega arith,
      subst
          (λ c.
            Related b d own
              (receive (record l { sender = m }) own (l.sender.packet_store.entries e).packet) 0
              (n + 1) s (if c then 0 + 1 else 0) log)
          other (arrive-Related b d own ends l 0 n s 0 log h e {m = m} sent),
    )
Step-IsStalled b d own {l} ends (lose e {m = m} sent) (n, s, log, lt, h) =
    let (_, _, serves) = after_sent l.sender b d 0 n s e log {m' = m} h.serves sent in
    (n + 1, s, log, omega arith, moved b d own ends l 0 n s 0 log h m 0 (n + 1) serves h.lower)
Step-IsStalled b d own {l} ends (silent {m = m} none_left) (n, s, log, lt, h) = (
  n,
  s,
  log,
  lt,
  moved b d own ends l 0 n s 0 log h m 0 n
      (after_silent l.sender b d 0 n s log {m' = m} h.serves none_left) h.lower,
)
Step-IsStalled b d own {l} ends (acknowledge restarts freed restarts_after {m = m} ok)
      (n, s, log, lt, h) =
    let at : rx_ack_seq_num l.sender d (last_accepted 0) b restarts
        ≡ some (freed, restarts_after, m) =
      ap (λ k. rx_ack_seq_num l.sender d k b restarts) (sym h.receives.last) ∙ ok in
    let (n', serves, progress) =
      after_ack l.sender b d 0 n s 0 restarts freed restarts_after log {m' = m} h.serves h.lower
        h.upper at in
    (
      n',
      s,
      log,
      omega (arith, ack_of_none progress),
      moved b d own ends l 0 n s 0 log h m 0 n' serves (omega arith),
    )

Steps-IsStalled :
    (b : Bool) (d own : ℕ) {l l' : Link}
    → Ends b d own
    → Steps b d own l l'
    → IsStalled b d own l
    → IsStalled b d own l'
Steps-IsStalled b d own ends done h = h
Steps-IsStalled b d own ends (next before step) h =
    Step-IsStalled b d own ends step (Steps-IsStalled b d own ends before h)

-- If a link between two such ends reaches a state in which no packet was accepted and the packet to
-- send next is not the first, so that the first was lost, then no packet is ever accepted after it,
-- whatever is sent, arrives and is acknowledged from then on.
pub first_lost_stalls :
    (b : Bool) (d own : ℕ) {l l' : Link}
    → Ends b d own
    → Reachable b d own l
    → l.accepted ≡ []
    → l.sender.tx_seq_num_next d ≢ 0
    → Steps b d own l l'
    → l'.accepted ≡ []
first_lost_stalls b d own {l} {l'} ends reached empty sent steps =
    let (a, n, s, r, log, h) = Reachable-IsRelated b d own ends reached in
    let none_accepted : r ≡ 0 =
      sym (length-cells (λ k. user_data (log k)) 0 r) ∙ ap length (sym h.accepted ∙ empty) in
    let none_acked : a ≡ 0 = omega (arith, h.lower) in
    let later : 0 < n = pos h.serves.sends.next in
    let (_, _, _, _, h') = Steps-IsStalled b d own {l = l} {l' = l'} ends steps (
      n,
      s,
      log,
      later,
      subst (λ k. Related b d own l 0 n s k log) none_accepted
          (subst (λ k. Related b d own l k n s r log) none_acked h),
    ) in
    h'.accepted
  where
    pos : {n : ℕ} → l.sender.tx_seq_num_next d ≡ n % 255 → 0 < n
    pos {n} e = elim (Bool-cases (n == 0)) [
      | inl first ↦ absurd (sent (e ∙ ground arith))
      | inr later ↦ ground arith
    ]
