-- ===== src/Link/Invariant.antt =====
-- The invariant of a link.
use microbus.Common.{
  suc, ℕ, ◌+◌, ◌%◌, ◌≤◌, ◌<◌, ◌≡◌, inl, inr, sym, ap, ap₂, ◌∙◌, fun_ext, Bool, true, false, not,
  ◌||◌, ◌==◌, if◌then◌else◌, some, [], ◌∷◌, ◌++◌, cells, cells-eq, cells-suc, update, Bool-cases,
  ==_refl, arith,
}
use mathlib.Core.Path.{subst}
use microbus.Packet.{Packet, master_data_packet}
use microbus.PacketStore.Laws.{found_entry}
use microbus.TxManager.{TxManager, allocate_tx_packet}
use microbus.TxManager.Window.{Sends, Receives, accept_next, last_accepted}
use microbus.TxManager.Stored.{send_bytes}
use microbus.TxManager.Ack.{
  rx_ack_seq_num, rx_packet_check_and_update_seq_num, get_num_in_tx_buffer,
}
use microbus.TxManager.Transmit.{get_next_tx_packet_for_node}
use microbus.Link.{Link, Step, submit, arrive, lose, silent, acknowledge, Ends, user_data, receive}
use microbus.Link.Sender.{Serves, after_sent, after_silent, after_ack}
use microbus.Link.Submission.{after_submit}

-- The receiver has accepted the first `r` of the `s` packets that the sender has had to send.
pub record Related (b : Bool) (d own : ℕ) (l : Link) (a n s r : ℕ) (log : ℕ → Packet) : Type 0 where
  pub serves : Serves l.sender b d a n s log
  pub receives : Receives l.receiver own r
  pub lower : a ≤ r
  pub upper : r ≤ s
  pub submitted : l.submitted ≡ cells (λ k. user_data (log k)) 0 s
  pub accepted : l.accepted ≡ cells (λ k. user_data (log k)) 0 r

next_number :
    (m : TxManager) (b : Bool) (d a n s k : ℕ) (log : ℕ → Packet)
    → Sends m b d a n s log
    → a ≤ k
    → k < s
    → (log k).tx_seq_num ≡ k % 255
next_number m b d a n s k log h lo hi =
    let (e, found, packet) = h.keeps.held k lo hi in
    let (_, number, _) = found_entry m.packet_store d (k % 255) b {e = e} found in
    ap (λ (p : Packet). p.tx_seq_num) (sym packet) ∙ number

-- The data of the first packets is not changed by one that comes later.
cells-update :
    (log : ℕ → Packet) (s k : ℕ) (p : Packet)
    → k ≤ s
    → cells (λ j. user_data (update log s p j)) 0 k ≡ cells (λ j. user_data (log j)) 0 k
cells-update log s k p le =
    cells-eq (λ j. user_data (update log s p j)) (λ j. user_data (log j)) 0 0 k
      (λ j lo hi.
        let other : (j == s) ≡ false = ground arith in
        rw other (ap (λ (x : ℕ). user_data (log x)) (omega arith)))

cells-next : {A : Type 0} (f : ℕ → A) (n : ℕ) → cells f 0 (n + 1) ≡ cells f 0 n ++ (f n ∷ [])
cells-next f n =
    ap (λ k. cells f 0 k) one ∙ cells-suc f 0 n ∙ ap (λ k. cells f 0 n ++ (f k ∷ [])) none_before
  where
    one : n + 1 ≡ suc n
    one = omega arith

    none_before : 0 + n ≡ n
    none_before = omega arith

-- The invariant, with its counters.
abbrev pub IsRelated : Bool → ℕ → ℕ → Link → Type 0
IsRelated b d own l = (a n s r : ℕ) × (log : ℕ → Packet) × Related b d own l a n s r log

module _ (b : Bool) (d own : ℕ) (ends : Ends b d own) (l : Link) (a n s r : ℕ) (log : ℕ → Packet)
    (h : Related b d own l a n s r log) where
  -- The sender alone has moved, to the packet `n'`, with those before `a'` acknowledged.
  pub moved :
      (m : TxManager) (a' n' : ℕ)
      → Serves m b d a' n' s log
      → a' ≤ r
      → Related b d own (record l { sender = m }) a' n' s r log
  moved m a' n' serves le = record {
    serves = serves;
    receives = record { last = h.receives.last };
    lower = le;
    upper = h.upper;
    submitted = h.submitted;
    accepted = h.accepted;
  }

  pub submit-Related :
      (packet_type size e : ℕ) (bytes : ℕ → ℕ) {m taken : TxManager}
      → (b || not (packet_type == master_data_packet)) ≡ true
      → get_num_in_tx_buffer l.sender d < 254
      → allocate_tx_packet l.sender ≡ some (some e, taken)
      → send_bytes l.sender b own d packet_type size bytes ≡ some m
      → (log' : ℕ → Packet) × Related b d own
          (record l { sender = m; submitted = l.submitted ++ ((λ i. bytes (10 + i)) ∷ []) })
          a
          n
          (s + 1)
          r
          log'
  submit-Related packet_type size e bytes {m} {taken} plain level got ok =
      let (p, content, serves) =
        after_submit l.sender b d own packet_type size a n s e bytes log {m' = m} {taken = taken}
          h.serves ends.from ends.to ends.to_master plain level got ok in
      let log' : ℕ → Packet = update log s p in
      let newest : user_data (log' s) ≡ (λ i. bytes (10 + i)) = rw (==_refl s) (fun_ext content) in
      (
        log',
        record {
          serves = serves;
          receives = record { last = h.receives.last };
          lower = h.lower;
          upper = omega (arith, h.upper);
          submitted =
              ap₂ ◌++◌ (h.submitted ∙ sym (cells-update log s s p (omega arith)))
                (ap (λ f. f ∷ []) (sym newest))
              ∙ sym (cells-next (λ j. user_data (log' j)) s);
          accepted = h.accepted ∙ sym (cells-update log s r p h.upper);
        },
      )

  pub arrive-Related :
      (e : ℕ) {m : TxManager}
      → get_next_tx_packet_for_node l.sender b d ≡ some (some e, m)
      → Related b d own
          (receive (record l { sender = m }) own (l.sender.packet_store.entries e).packet)
          a
          (n + 1)
          s
          (if n == r then r + 1 else r)
          log
  arrive-Related e {m} sent =
      let (lt, packet, serves) = after_sent l.sender b d a n s e log {m' = m} h.serves sent in
      let p : Packet = (l.sender.packet_store.entries e).packet in
      let number : p.tx_seq_num ≡ n % 255 =
        ap (λ (x : Packet). x.tx_seq_num) packet
        ∙ next_number l.sender b d a n s n log h.serves.sends h.serves.sends.started lt in
      let (answer, receives) =
        accept_next l.receiver own r n h.receives (omega (arith, h.serves.sends.keeps.few, h.lower))
          (omega (arith, h.serves.sends.keeps.few, h.serves.sends.started, h.upper)) in
      let l' : Link = receive (record l { sender = m }) own p in
      let result : rx_packet_check_and_update_seq_num l.receiver own p.tx_seq_num
          ≡ rx_packet_check_and_update_seq_num l.receiver own (n % 255) =
        ap (λ k. rx_packet_check_and_update_seq_num l.receiver own k) number in
      let taken : (rx_packet_check_and_update_seq_num l.receiver own p.tx_seq_num).0 ≡ (n == r) =
        ap (λ x. x.0) result ∙ answer in
      let state : Receives (rx_packet_check_and_update_seq_num l.receiver own p.tx_seq_num).1 own
          (if n == r then r + 1 else r) =
        rw result receives in
      elim (Bool-cases (n == r)) [
        | inl next ↦
            let eq : n ≡ r = ground arith in
            rw next (record {
              serves = serves;
              receives = subst (λ c. Receives l'.receiver own (if c then r + 1 else r)) next state;
              lower = omega (arith, h.lower);
              upper = omega arith;
              submitted = h.submitted;
              accepted =
                  rw (taken, next)
                    (ap₂ ◌++◌ h.accepted
                        (ap (λ f. f ∷ []) (ap user_data packet ∙ ap (λ k. user_data (log k)) eq))
                      ∙ sym (cells-next (λ k. user_data (log k)) r));
            })
        | inr other ↦ rw other (record {
          serves = serves;
          receives = subst (λ c. Receives l'.receiver own (if c then r + 1 else r)) other state;
          lower = h.lower;
          upper = h.upper;
          submitted = h.submitted;
          accepted = rw (taken, other) h.accepted;
        })
      ]

pub Step-IsRelated :
    (b : Bool) (d own : ℕ) {l l' : Link}
    → Ends b d own
    → Step b d own l l'
    → IsRelated b d own l
    → IsRelated b d own l'
Step-IsRelated b d own {l} ends
      (submit packet_type size e bytes {m = m} {taken = taken} plain level got ok)
      (a, n, s, r, log, h) =
    let (log', h') =
      submit-Related b d own ends l a n s r log h packet_type size e bytes {m = m} {taken = taken}
        plain level got ok in
    (a, n, s + 1, r, log', h')
Step-IsRelated b d own {l} ends (arrive e {m = m} sent) (a, n, s, r, log, h) = (
  a,
  n + 1,
  s,
  (if n == r then r + 1 else r),
  log,
  arrive-Related b d own ends l a n s r log h e {m = m} sent,
)
Step-IsRelated b d own {l} ends (lose e {m = m} sent) (a, n, s, r, log, h) =
    let (_, _, serves) = after_sent l.sender b d a n s e log {m' = m} h.serves sent in
    (a, n + 1, s, r, log, moved b d own ends l a n s r log h m a (n + 1) serves h.lower)
Step-IsRelated b d own {l} ends (silent {m = m} none_left) (a, n, s, r, log, h) = (
  a,
  n,
  s,
  r,
  log,
  moved b d own ends l a n s r log h m a n
      (after_silent l.sender b d a n s log {m' = m} h.serves none_left) h.lower,
)
Step-IsRelated b d own {l} ends (acknowledge restarts freed restarts_after {m = m} ok)
      (a, n, s, r, log, h) =
    let at : rx_ack_seq_num l.sender d (last_accepted r) b restarts
        ≡ some (freed, restarts_after, m) =
      ap (λ k. rx_ack_seq_num l.sender d k b restarts) (sym h.receives.last) ∙ ok in
    let (n', serves, _) =
      after_ack l.sender b d a n s r restarts freed restarts_after log {m' = m} h.serves h.lower
        h.upper at in
    (r, n', s, r, log, moved b d own ends l a n s r log h m r n' serves (omega arith))
