-- ===== src/RxManager/Queue.antt =====
-- The receive queue of src/rxManager.c as a list of its slots: adding and popping.
use microbus.Common.{
  ℕ, suc, ◌+◌, ◌-◌, ◌≤◌, ◌<◌, ◌≡◌, ◌≢◌, ◌⊎◌, inl, inr, refl, sym, ap, ap₂, ◌∙◌, true, false, List,
  [], ◌∷◌, ◌++◌, ltb, if◌then◌else◌, Option, none, some, update, max, cells, cells-eq, cells-suc,
  Bool-cases, arith,
}
use microbus.Packet.{set_in_use}
use microbus.Ring.{
  incr_and_wrap, circular_buffer_empty, circular_buffer_length, append_tail, pop_head,
}
use microbus.Ring.Laws.{length_lem}
use microbus.RxManager.{RxPacketManager, add_rx_data_packet, pop_next_data_packet}

-- The positions lie in the arrays, whose size is a byte.
pub record IsValid (rpm : RxPacketManager) : Type 0 where
  pub start_in : rpm.start < rpm.max_rx_packet_entries
  pub end_in : rpm.end < rpm.max_rx_packet_entries
  pub small : rpm.max_rx_packet_entries < 256

-- The index of the slot that is `k` places behind the start.
abbrev pub place : ℕ → ℕ → ℕ → ℕ
place size start k = if ltb (start + k) size then start + k else start + k - size

abbrev pub queue_length : RxPacketManager → ℕ
queue_length rpm = circular_buffer_length rpm.start rpm.end rpm.max_rx_packet_entries

abbrev pub slot : RxPacketManager → ℕ → Option ℕ
slot rpm k = rpm.rx_packet_queue (place rpm.max_rx_packet_entries rpm.start k)

-- The queue, oldest first: the entries that it points to, and `none` for a cleared slot.
abbrev pub slots : RxPacketManager → List (Option ℕ)
slots rpm = cells (slot rpm) 0 (queue_length rpm)

append_positions :
    (head tail size : ℕ)
    → head < size
    → tail < size
    → circular_buffer_length head tail size + 1 < size
    → (append_tail head tail size ≡ some (incr_and_wrap tail 1 size))
      × (circular_buffer_length head (incr_and_wrap tail 1 size) size
          ≡ suc (circular_buffer_length head tail size))
      × (incr_and_wrap tail 1 size < size)
      × (place size head (circular_buffer_length head tail size) ≡ tail)
unfolding append_tail circular_buffer_length incr_and_wrap
append_positions head tail size hh ht room = ground arith

place-ne :
    (head tail size k : ℕ)
    → head < size
    → tail < size
    → k < circular_buffer_length head tail size
    → place size head k ≢ tail
unfolding circular_buffer_length
place-ne head tail size k hh ht hk e = ground arith

-- The manager that `addRxDataPacket` leaves.
abbrev added : RxPacketManager → ℕ → RxPacketManager
added rpm e =
    let end = incr_and_wrap rpm.end 1 rpm.max_rx_packet_entries in
    record rpm {
      rx_packet_queue = update rpm.rx_packet_queue rpm.end (some e);
      end = end;
      rx_buffer_level =
          max rpm.rx_buffer_level (circular_buffer_length rpm.start end rpm.max_rx_packet_entries);
    }

slots-added :
    (rpm : RxPacketManager) (e n : ℕ)
    → IsValid rpm
    → queue_length rpm ≡ n
    → place rpm.max_rx_packet_entries rpm.start n ≡ rpm.end
    → cells (slot (added rpm e)) 0 (suc n) ≡ cells (slot rpm) 0 n ++ (some e ∷ [])
slots-added rpm e n v len last =
    cells-suc (slot (added rpm e)) 0 n
    ∙ ap₂ (λ l x. l ++ (x ∷ []))
        (cells-eq (slot (added rpm e)) (slot rpm) 0 0 n (λ j lo hi. ground (
          arith,
          place-ne rpm.start rpm.end rpm.max_rx_packet_entries j v.start_in v.end_in (omega arith),
        )))
        (ground arith)

-- addRxDataPacket to a valid queue that is not full does not fail: the entry becomes the last slot,
-- the slots before it stay, the queue stays valid, and the recorded buffer level is at least the new
-- length.
pub rx_add_refines :
    (rpm : RxPacketManager) (e : ℕ)
    → IsValid rpm
    → queue_length rpm + 1 < rpm.max_rx_packet_entries
    → (r : RxPacketManager) × (add_rx_data_packet rpm e ≡ some r)
      × (slots r ≡ slots rpm ++ (some e ∷ []))
      × IsValid r
      × (queue_length r ≤ r.rx_buffer_level)
unfolding add_rx_data_packet
rx_add_refines rpm e v room =
    let (ok, len, inside, last) =
      append_positions rpm.start rpm.end rpm.max_rx_packet_entries v.start_in v.end_in room in
    (
      added rpm e,
      rw ok refl,
      rw len (slots-added rpm e (queue_length rpm) v refl last),
      record { start_in = v.start_in; end_in = inside; small = v.small },
      ground arith,
    )

pop_positions :
    (head tail size : ℕ)
    → head < size
    → tail < size
    → circular_buffer_empty head tail size ≡ false
    → (pop_head head tail size ≡ some (incr_and_wrap head 1 size))
      × (suc (circular_buffer_length (incr_and_wrap head 1 size) tail size)
          ≡ circular_buffer_length head tail size)
      × (incr_and_wrap head 1 size < size)
unfolding pop_head circular_buffer_empty circular_buffer_length incr_and_wrap
pop_positions head tail size hh ht some_left = ground arith

place-suc :
    (head size k : ℕ)
    → head < size
    → k < size
    → place size (incr_and_wrap head 1 size) k ≡ place size head (k + 1)
unfolding incr_and_wrap
place-suc head size k hh hk = ground arith

pub slots-empty :
    (rpm : RxPacketManager)
    → IsValid rpm
    → circular_buffer_empty rpm.start rpm.end rpm.max_rx_packet_entries ≡ true
    → slots rpm ≡ []
slots-empty rpm v over =
    rw ((length_lem rpm.start rpm.end rpm.max_rx_packet_entries v.start_in v.end_in).2.0 over) refl

abbrev pub advanced : RxPacketManager → RxPacketManager
advanced rpm = record rpm { start = incr_and_wrap rpm.start 1 rpm.max_rx_packet_entries }

-- Moving the start on by one drops the first slot.
pub slots-advance :
    (rpm : RxPacketManager)
    → IsValid rpm
    → circular_buffer_empty rpm.start rpm.end rpm.max_rx_packet_entries ≡ false
    → let start = incr_and_wrap rpm.start 1 rpm.max_rx_packet_entries in
      (pop_head rpm.start rpm.end rpm.max_rx_packet_entries ≡ some start)
      × (slots rpm ≡ rpm.rx_packet_queue rpm.start ∷ slots (record rpm { start = start }))
      × IsValid (record rpm { start = start })
slots-advance rpm v left =
    let (ok, len, inside) =
      pop_positions rpm.start rpm.end rpm.max_rx_packet_entries v.start_in v.end_in left in
    (
      ok,
      rw (← len) (
          ap₂ ◌∷◌ (ap rpm.rx_packet_queue (ground arith)) (
            sym (
              cells-eq (slot (advanced rpm)) (slot rpm) 1 0 (queue_length (advanced rpm))
                (λ j lo hi. ap rpm.rx_packet_queue (
                  place-suc rpm.start rpm.max_rx_packet_entries j v.start_in (
                    omega (
                      arith,
                      (length_lem (advanced rpm).start rpm.end rpm.max_rx_packet_entries inside
                          v.end_in).1,
                    ))))))),
      record { start_in = inside; end_in = v.end_in; small = v.small },
    )

-- popNextDataPacket of a valid queue whose first slot points to an entry frees that entry alone, and
-- takes the slot off the queue.
pub rx_pop_refines :
    (rpm : RxPacketManager) {e : ℕ} (rest : List (Option ℕ))
    → IsValid rpm
    → slots rpm ≡ some e ∷ rest
    → (r : RxPacketManager) × (pop_next_data_packet rpm ≡ some r)
      × (slots r ≡ rest)
      × IsValid r
      × (r.rx_packet_entries ≡ set_in_use rpm.rx_packet_entries e false)
unfolding pop_next_data_packet
rx_pop_refines rpm {e} rest v h =
    elim (Bool-cases (circular_buffer_empty rpm.start rpm.end rpm.max_rx_packet_entries)) [
      | inl over ↦ let nothing = slots-empty rpm v over in absurd (cc)
      | inr left ↦
          let (ok, front, valid) = slots-advance rpm v left in
          let first : rpm.rx_packet_queue rpm.start ≡ some e = cc in
          (
            record (advanced rpm) { rx_packet_entries = set_in_use rpm.rx_packet_entries e false },
            rw (left, first, ok) refl,
            cc,
            record { start_in = valid.start_in; end_in = valid.end_in; small = valid.small },
            refl,
          )
    ]

-- popNextDataPacket stops, on a null pointer, if the queue is empty or its first slot is cleared.
pub rx_pop_faults :
    (rpm : RxPacketManager)
    → IsValid rpm
    → (slots rpm ≡ []) ⊎ ((rest : List (Option ℕ)) × (slots rpm ≡ none ∷ rest))
    → pop_next_data_packet rpm ≡ none
unfolding pop_next_data_packet
rx_pop_faults rpm v h =
    elim (Bool-cases (circular_buffer_empty rpm.start rpm.end rpm.max_rx_packet_entries)) [
      | inl over ↦ rw over refl
      | inr left ↦
          let (ok, front, valid) = slots-advance rpm v left in
          elim h [
            | inl nothing ↦ absurd (cc)
            | inr (rest, e) ↦
                let first : rpm.rx_packet_queue rpm.start ≡ none = cc in rw (left, first) refl
          ]
    ]
