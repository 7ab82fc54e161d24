-- ===== src/RxManager/Peek.antt =====
-- peekNextRxDataPacket of src/rxManager.c against the list of slots.
use microbus.Common.{
  ℕ, zero, suc, ◌<◌, ◌≡◌, inl, inr, refl, sym, ap, ◌∙◌, List, [], ◌∷◌, Option, none, some, length,
  length-cells, Bool-cases, Option-cases, arith,
}
use microbus.Ring.{circular_buffer_empty}
use microbus.RxManager.{RxPacketManager, peek_from, peek_next_rx_data_packet}
use microbus.Ring.Laws.{length_lem}
use microbus.RxManager.Queue.{
  IsValid, slots, slot, queue_length, advanced, slots-advance, slots-empty,
}

-- The queue without the cleared slots at its front, and the entry that is then first.
abbrev pub drop_cleared : List (Option ℕ) → List (Option ℕ)
drop_cleared [] = []
drop_cleared (none ∷ xs) = drop_cleared xs
drop_cleared (some e ∷ xs) = some e ∷ xs

abbrev pub first_entry : List (Option ℕ) → Option ℕ
first_entry [] = none
first_entry (none ∷ xs) = first_entry xs
first_entry (some e ∷ xs) = some e

-- What the loop does, once it has more rounds than the queue has slots.
record Peeked (rpm : RxPacketManager) (out : Option (Option ℕ × RxPacketManager)) : Type 0 where
  r : RxPacketManager
  returns : out ≡ some (first_entry (slots rpm), r)
  left : slots r ≡ drop_cleared (slots rpm)
  valid : IsValid r
  entries : r.rx_packet_entries ≡ rpm.rx_packet_entries

peek_from-Peeked :
    (n : ℕ) (rpm : RxPacketManager)
    → IsValid rpm
    → length (slots rpm) < n
    → Peeked rpm (peek_from n rpm)
unfolding peek_from
peek_from-Peeked zero rpm v h = absurd (omega arith)
peek_from-Peeked (suc n) rpm v h =
    elim (Bool-cases (circular_buffer_empty rpm.start rpm.end rpm.max_rx_packet_entries)) [
      | inl over ↦
          let nothing = slots-empty rpm v over in
          record {
            r = rpm;
            returns = rw (over, nothing) refl;
            left = rw nothing refl;
            valid = v;
            entries = refl;
          }
      | inr left ↦
          let (ok, front, valid) = slots-advance rpm v left in
          elim (Option-cases (rpm.rx_packet_queue rpm.start)) [
            | inl cleared ↦
                let e : slots rpm ≡ none ∷ slots (advanced rpm) = cc in
                let p =
                  peek_from-Peeked n (advanced rpm) valid (omega (arith, ap (length {0}) e)) in
                record {
                  r = p.r;
                  returns =
                      rw (left, cleared, ok)
                        (p.returns ∙ ap (λ l. some (first_entry l, p.r)) (sym e));
                  left = p.left ∙ sym (ap drop_cleared e);
                  valid = p.valid;
                  entries = p.entries;
                }
            | inr (a, first) ↦
                let e : slots rpm ≡ some a ∷ slots (advanced rpm) = cc in
                record {
                  r = rpm;
                  returns = rw (left, first) (sym (ap (λ l. some (first_entry l, rpm)) e));
                  left = e ∙ sym (ap drop_cleared e);
                  valid = v;
                  entries = refl;
                }
          ]
    ]

-- peekNextRxDataPacket of a valid queue does not stop: it returns the first entry that the queue
-- points to, or null if there is none, takes the cleared slots before it off the queue and changes
-- nothing else of the queue and no entry.
pub rx_peek_refines :
    (rpm : RxPacketManager)
    → IsValid rpm
    → (r : RxPacketManager) × (peek_next_rx_data_packet rpm ≡ some (first_entry (slots rpm), r))
      × (slots r ≡ drop_cleared (slots rpm))
      × IsValid r
      × (r.rx_packet_entries ≡ rpm.rx_packet_entries)
unfolding peek_next_rx_data_packet
rx_peek_refines rpm v =
    let len = (length_lem rpm.start rpm.end rpm.max_rx_packet_entries v.start_in v.end_in).1 in
    let p =
      peek_from-Peeked rpm.max_rx_packet_entries rpm v
        (omega (arith, length-cells (slot rpm) 0 (queue_length rpm))) in
    (p.r, p.returns, p.left, p.valid, p.entries)
