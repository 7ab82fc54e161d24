-- ===== src/Link/Recovery.antt =====
-- A link on which, from some state on, nothing is lost any more.
use microbus.Common.{
  ℕ, zero, suc, ◌+◌, ◌-◌, ◌<◌, ◌≡◌, ◌≢◌, ◌⊎◌, inl, inr, refl, ap, sym, ◌∙◌, Bool, ◌==◌, cells, some,
  [], Bool-cases, arith,
}
use mathlib.Core.Path.{subst}
use microbus.Packet.{Packet}
use microbus.TxManager.AckSeqNum.{Progress}
use microbus.Link.{Link, Ends, Reachable, user_data}
use microbus.Link.Invariant.{Related}
use microbus.Link.Delivery.{Reachable-IsRelated}
use microbus.Link.Turns.{even_turn, waiting_turn, ahead_turn}
use microbus.Link.Rounds.{
  rounds, pause, Sent, waits, pauses, sends, transmit_cases, send_back_cases,
}

-- After some rounds the receiver's user has all that was submitted.
abbrev pub Finishes : Bool → ℕ → ℕ → Link → Type 0
Finishes b d own l =
    (n : ℕ) × (l' : Link) × (rounds b d own n l ≡ some l')
    × (l'.submitted ≡ l.submitted)
    × (l'.accepted ≡ l.submitted)

-- What one round comes to: all that the receiver has accepted is acknowledged.
record Cycle (b : Bool) (d own : ℕ) (l : Link) (a n s r : ℕ) (log : ℕ → Packet) : Type 0 where
  between : Link
  link : Link
  sent : ℕ
  number : ℕ
  count : ℕ
  related : Related b d own link count number s count log
  first : Sent l between d a n s r sent count
  second : Progress between.sender link.sender d a sent count number
  finish : Finishes b d own link → Finishes b d own l

module _ (b : Bool) (d own : ℕ) (ends : Ends b d own) where
  one_round :
      (l : Link) (a n s r : ℕ) (log : ℕ → Packet)
      → Related b d own l a n s r log
      → Cycle b d own l a n s r log
  unfolding rounds
  one_round l a n s r log h =
      let (x, first) = transmit_cases b d own ends l a n s r log h in
      let (y, same, second) =
        send_back_cases b d own ends x.link a x.number s x.count log x.related in
      record {
        between = x.link;
        link = y.link;
        sent = x.number;
        number = y.number;
        count = x.count;
        related = subst (λ k. Related b d own y.link x.count y.number s k log) same y.related;
        first = first;
        second = second;
        finish = λ f.
            let (k, l', ok, kept, all) = f in
            (
              suc k,
              l',
              rw (x.returns, y.returns) ok,
              kept ∙ y.same ∙ x.same,
              all ∙ y.same ∙ x.same,
            );
      }

  finish_now :
      (l : Link) (a n s r : ℕ) (log : ℕ → Packet)
      → Related b d own l a n s r log
      → r ≡ s
      → Finishes b d own l
  unfolding rounds
  finish_now l a n s r log h e = (
    zero,
    l,
    refl,
    refl,
    h.accepted ∙ ap (λ k. cells (λ j. user_data (log j)) 0 k) e ∙ sym h.submitted,
  )

  -- Each round, one more packet is accepted and acknowledged.
  from_progress :
      (k : ℕ) (l : Link) (s r : ℕ) (log : ℕ → Packet)
      → Related b d own l r r s r log
      → pause l d ≡ 0
      → s ≡ r + k
      → Finishes b d own l
  from_progress zero l s r log h idle e = finish_now l r r s r log h (omega arith)
  from_progress (suc k) l s r log h idle e =
      let x = one_round l r r s r log h in
      let (at, counted, quiet) = even_turn l x.between x.link idle (omega arith) x.first x.second in
      x.finish (
        from_progress k x.link s x.count log
          (subst (λ j. Related b d own x.link x.count j s x.count log) at x.related) quiet
          (omega arith))

  -- A sender that waits goes back to the first packet that is not acknowledged.
  from_pause :
      (p : ℕ) (l : Link) (n s r : ℕ) (log : ℕ → Packet)
      → Related b d own l r n s r log
      → pause l d ≡ p
      → 0 < p
      → 0 < r
      → r < s
      → Finishes b d own l
  from_pause zero l n s r log h e some_left pos lt = absurd (omega arith)
  from_pause (suc p) l n s r log h e some_left pos lt =
      let x = one_round l r n s r log h in
      let (counted, cases) = waiting_turn l x.between x.link e pos lt x.first x.second in
      let h' : Related b d own x.link r x.number s r log =
        subst (λ k. Related b d own x.link k x.number s k log) counted x.related in
      x.finish (elim cases [
        | inl (_, at, quiet) ↦
            from_progress (s - r) x.link s r log
              (subst (λ j. Related b d own x.link r j s r log) at h') quiet (omega arith)
        | inr (more, at, left) ↦ from_pause p x.link x.number s r log h' left more pos lt
      ])

  -- A sender that is ahead goes on until it waits.
  from_stuck :
      (k : ℕ) (l : Link) (n s r : ℕ) (log : ℕ → Packet)
      → Related b d own l r n s r log
      → pause l d ≡ 0
      → 0 < r
      → r < s
      → r < n
      → s ≡ n + k
      → Finishes b d own l
  from_stuck zero l n s r log h idle pos lt past e =
      let x = one_round l r n s r log h in
      let (counted, cases) = ahead_turn l x.between x.link idle pos lt past x.first x.second in
      let h' : Related b d own x.link r x.number s r log =
        subst (λ k. Related b d own x.link k x.number s k log) counted x.related in
      x.finish (elim cases [
        | inl (more, at, quiet) ↦ absurd (omega arith)
        | inr (at, left) ↦ from_pause 1 x.link x.number s r log h' left (omega arith) pos lt
      ])
  from_stuck (suc k) l n s r log h idle pos lt past e =
      let x = one_round l r n s r log h in
      let (counted, cases) = ahead_turn l x.between x.link idle pos lt past x.first x.second in
      let h' : Related b d own x.link r x.number s r log =
        subst (λ k. Related b d own x.link k x.number s k log) counted x.related in
      x.finish (elim cases [
        | inl (more, at, quiet) ↦
            from_stuck k x.link x.number s r log h' quiet pos lt (omega arith) (omega arith)
        | inr (at, left) ↦ from_pause 1 x.link x.number s r log h' left (omega arith) pos lt
      ])

  -- All that was accepted is acknowledged.
  from_acked :
      (l : Link) (n s r : ℕ) (log : ℕ → Packet)
      → Related b d own l r n s r log
      → (0 < r) ⊎ (n ≡ 0) × (pause l d ≡ 0)
      → Finishes b d own l
  from_acked l n s r log h (inr (first, idle)) =
      let none_yet : r ≡ n = omega (arith, h.serves.sends.started) in
      from_progress (s - r) l s r log (subst (λ j. Related b d own l r j s r log) (sym none_yet) h)
        idle (omega (arith, h.upper))
  from_acked l n s r log h (inl pos) = elim (Bool-cases (r == s)) [
    | inl all ↦ finish_now l r n s r log h (ground arith)
    | inr left ↦
        let lt : r < s = ground (arith, h.upper) in
        elim (Bool-cases (pause l d == 0)) [
          | inr busy ↦ from_pause (pause l d) l n s r log h refl (ground arith) pos lt
          | inl idle ↦ elim (Bool-cases (n == r)) [
            | inl even ↦
                let at : n ≡ r = ground arith in
                from_progress (s - r) l s r log (subst (λ j. Related b d own l r j s r log) at h)
                  (ground arith) (omega arith)
            | inr ahead ↦
                from_stuck (s - n) l n s r log h (ground arith) pos lt
                  (ground (arith, h.serves.sends.started)) (omega (arith, h.serves.sends.bounded))
          ]
        ]
  ]

count_grows : {l l' : Link} {d a n s r n' r' : ℕ} → Sent l l' d a n s r n' r' → 0 < r → 0 < r'
count_grows (waits _ _ e _) pos = omega arith
count_grows (pauses _ _ _ e _) pos = omega arith
count_grows (sends _ _ _ e _) pos = ground arith

-- From every state that such a link reaches in which some packet was accepted, or in which the first
-- packet is the one to send next and the sender does not wait: if nothing is lost any more, then after
-- some rounds, in which the sender sends what it has to send and the receiver sends its number back,
-- the receiver's user has got all the data that was submitted.
pub delivers :
    (b : Bool) (d own : ℕ) {l : Link}
    → Ends b d own
    → Reachable b d own l
    → (l.accepted ≢ []) ⊎ (l.sender.tx_seq_num_next d ≡ 0) × (l.sender.tx_seq_num_pause_count d ≡ 0)
    → Finishes b d own l
delivers b d own {l} ends reached started =
    let (a, n, s, r, log, h) = Reachable-IsRelated b d own ends reached in
    elim (Bool-cases (r == 0)) [
      | inr some_accepted ↦
          let x = one_round b d own ends l a n s r log h in
          x.finish (
            from_acked b d own ends x.link x.number s x.count log x.related
              (inl (count_grows x.first (ground arith))))
      | inl none_accepted ↦
          let zero_r : r ≡ 0 = ground arith in
          elim started [
            | inl some_data ↦
                absurd
                  (some_data (h.accepted ∙ ap (λ k. cells (λ j. user_data (log j)) 0 k) zero_r))
            | inr (first, idle) ↦
                let zero_a : a ≡ r = omega (arith, h.lower) in
                let zero_n : n ≡ 0 =
                  omega (
                    arith, h.serves.sends.next, h.serves.sends.bounded, h.serves.sends.keeps.few,
                  ) in
                from_acked b d own ends l n s r log
                  (subst (λ k. Related b d own l k n s r log) zero_a h) (inr (zero_n, idle))
          ]
    ]
