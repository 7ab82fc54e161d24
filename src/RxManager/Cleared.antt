-- ===== src/RxManager/Cleared.antt =====
-- The loop of rxManagerRemoveAllPackets of src/rxManager.c against the list of slots.
use microbus.Common.{
  ℕ, zero, suc, ◌+◌, ◌-◌, ◌≤◌, ◌<◌, ◌≡◌, ◌⊎◌, refl, ap, ap₂, sym, ◌∙◌, true, false, ◌&&◌, ltb, leb,
  ◌==◌, if◌then◌else◌, some, cells, cells-eq, arith,
}
use microbus.Ring.{circular_buffer_length}
use microbus.RxManager.{RxPacketManager, clear_slot, remove_from, rx_manager_remove_all_packets}
use microbus.RxManager.Queue.{IsValid, place, slot, slots, queue_length}
use microbus.RxManager.ClearSlot.{
  Keeps, without_node, all_without, cells-without, clear_slot-Keeps, without_node-Keeps,
  slot-clear_slot, pick,
}

-- The rounds from the slot `k` on, `n` of them.
clear_all : ℕ → ℕ → ℕ → RxPacketManager → RxPacketManager
clear_all node_id zero k rpm = rpm
clear_all node_id (suc n) k rpm =
    clear_all node_id n (k + 1)
      (clear_slot node_id (place rpm.max_rx_packet_entries rpm.start k) rpm)

-- The index of the loop at the slot `k`.
abbrev index_at : ℕ → ℕ → ℕ → ℕ
index_at size start k = if leb (start + k) size then start + k else start + k - size

index_end :
    (size start end n k : ℕ)
    → start < size
    → end < size
    → (0 < end) ⊎ (start ≡ 0)
    → n + k ≡ circular_buffer_length start end size
    → (index_at size start k == end) ≡ (n == 0)
unfolding circular_buffer_length
index_end size start end n k hs he some_end total = ground arith

index_next :
    (size start k : ℕ)
    → start < size
    → k + 1 < size
    → ((if leb size (index_at size start k) then 0 else index_at size start k) ≡ place size start k)
      × (place size start k + 1 ≡ index_at size start (k + 1))
index_next size start k hs hk = ground arith

remove_step :
    (fuel i at node_id : ℕ) (rpm : RxPacketManager)
    → (i == rpm.end) ≡ false
    → (if leb rpm.max_rx_packet_entries i then 0 else i) ≡ at
    → remove_from node_id (suc fuel) i rpm
      ≡ remove_from node_id fuel (at + 1) (clear_slot node_id at rpm)
unfolding remove_from
remove_step fuel i at node_id rpm more e =
    rw (more, remove_from) (ap (λ a. remove_from node_id fuel (a + 1) (clear_slot node_id a rpm)) e)

remove_rounds :
    (n fuel k size start end node_id : ℕ) (rpm : RxPacketManager)
    → rpm.max_rx_packet_entries ≡ size
    → rpm.start ≡ start
    → rpm.end ≡ end
    → start < size
    → end < size
    → (0 < end) ⊎ (start ≡ 0)
    → n + k ≡ circular_buffer_length start end size
    → n < fuel
    → remove_from node_id fuel (index_at size start k) rpm ≡ some (clear_all node_id n k rpm)
unfolding remove_from clear_all
remove_rounds n zero k size start end node_id rpm es est een hs he some_end total enough =
    absurd (omega arith)
remove_rounds zero (suc fuel) k size start end node_id rpm es est een hs he some_end total enough =
    let out = index_end size start end zero k hs he some_end total in
    rw (een, out, remove_from) refl
remove_rounds (suc n) (suc fuel) k size start end node_id rpm es est een hs he some_end total
      enough =
    let more : (index_at size start k == end) ≡ false =
      index_end size start end (suc n) k hs he some_end total ∙ ground arith in
    let short : circular_buffer_length start end size < size = length_short in
    let (at, next) = index_next size start k hs (omega arith) in
    let kept = clear_slot-Keeps node_id (place size start k) rpm in
    let rest =
      remove_rounds n fuel (k + 1) size start end node_id
        (clear_slot node_id (place size start k) rpm) (kept.size ∙ es) (kept.start ∙ est)
        (kept.end ∙ een) hs he some_end (omega arith) (omega arith) in
    remove_step fuel (index_at size start k) (place size start k) node_id rpm
      (ap (λ e. index_at size start k == e) een ∙ more)
      (ap (λ s. if leb s (index_at size start k) then 0 else index_at size start k) es ∙ at)
    ∙ ap (λ i. remove_from node_id fuel i (clear_slot node_id (place size start k) rpm)) next
    ∙ rest
    ∙ ap₂ (λ s f. some (clear_all node_id n (k + 1) (clear_slot node_id (place s f k) rpm)))
        (sym es) (sym est)
  where
    length_short : circular_buffer_length start end size < size
    length_short = unfold circular_buffer_length in ground arith

clear_all_lem :
    (node_id n k j : ℕ) (rpm : RxPacketManager)
    → rpm.start < rpm.max_rx_packet_entries
    → j < rpm.max_rx_packet_entries
    → k + n ≤ rpm.max_rx_packet_entries
    → Keeps rpm (clear_all node_id n k rpm)
      × (slot (clear_all node_id n k rpm) j ≡ (
          if leb k j && ltb j (k + n) then without_node rpm node_id (slot rpm j) else slot rpm j))
unfolding clear_all
clear_all_lem node_id zero k j rpm hs hj hk =
    (record { end = refl; start = refl; size = refl; source = λ e. refl }, ground arith)
clear_all_lem node_id (suc n) k j rpm hs hj hk =
    let m : RxPacketManager =
      clear_slot node_id (place rpm.max_rx_packet_entries rpm.start k) rpm in
    let once : Keeps rpm m =
      clear_slot-Keeps node_id (place rpm.max_rx_packet_entries rpm.start k) rpm in
    let (rest, at) =
      clear_all_lem node_id n (k + 1) j m (omega (arith, once.start, once.size))
        (omega (arith, once.size)) (omega (arith, once.size)) in
    let here = slot-clear_slot node_id k j rpm hs hj (omega arith) in
    (
      record {
        end = rest.end ∙ once.end;
        start = rest.start ∙ once.start;
        size = rest.size ∙ once.size;
        source = λ e. rest.source e ∙ once.source e;
      },
      at
          ∙ rw (without_node-Keeps rpm m node_id (slot m j) once)
              (rw here (pick (without_node rpm node_id) (slot rpm j) j k n)),
    )

-- With the end of a valid queue not at index 0, or its start there as well, rxManagerRemoveAllPackets
-- ends after at most as many rounds as there are slots in the array: it empties the slots of the queue
-- that point to a packet of the node, keeps the others in order, and leaves a valid queue.
pub remove_all_refines :
    (fuel node_id : ℕ) (rpm : RxPacketManager)
    → IsValid rpm
    → (0 < rpm.end) ⊎ (rpm.start ≡ 0)
    → rpm.max_rx_packet_entries ≤ fuel
    → (r : RxPacketManager) × (rx_manager_remove_all_packets fuel rpm node_id ≡ some r)
      × (slots r ≡ all_without rpm node_id (slots rpm))
      × IsValid r
unfolding rx_manager_remove_all_packets
remove_all_refines fuel node_id rpm v some_end enough =
    let size : ℕ = rpm.max_rx_packet_entries in
    let short : queue_length rpm < size = length_short in
    let r : RxPacketManager = clear_all node_id (queue_length rpm) 0 rpm in
    let none_extra : (j : ℕ)
        → j < queue_length rpm
        → Keeps rpm r × (slot r j ≡ without_node rpm node_id (slot rpm j)) =
      λ j hj.
        let (kept, at) =
          clear_all_lem node_id (queue_length rpm) 0 j rpm v.start_in (omega arith) (omega arith) in
        let inside : (leb 0 j && ltb j (0 + queue_length rpm)) ≡ true = ground arith in
        (kept, at ∙ rw inside refl) in
    let (kept, _) =
      clear_all_lem node_id (queue_length rpm) 0 0 rpm v.start_in (omega arith) (omega arith) in
    let ends =
      remove_rounds (queue_length rpm) fuel 0 size rpm.start rpm.end node_id rpm refl refl refl
        v.start_in v.end_in some_end (omega arith) (omega arith) in
    let first : rpm.start ≡ index_at size rpm.start 0 = ground (arith, v.start_in) in
    (
      r,
      ap (λ i. remove_from node_id fuel i rpm) first ∙ ends,
      same_length kept
          ∙ cells-eq (slot r) (λ k. without_node rpm node_id (slot rpm k)) 0 0 (queue_length rpm)
              (λ j lo hi.
                (none_extra j (omega arith)).1
                ∙ ap (λ k. without_node rpm node_id (slot rpm k)) (omega arith))
          ∙ cells-without rpm node_id 0 (queue_length rpm) (slot rpm),
      record {
        start_in = omega (arith, kept.start, kept.size, v.start_in);
        end_in = omega (arith, kept.end, kept.size, v.end_in);
        small = omega (arith, kept.size, v.small);
      },
    )
  where
    length_short : queue_length rpm < rpm.max_rx_packet_entries
    length_short = unfold circular_buffer_length in ground (arith, v.start_in, v.end_in)

    same_length :
        {r : RxPacketManager}
        → Keeps rpm r
        → cells (slot r) 0 (queue_length r) ≡ cells (slot r) 0 (queue_length rpm)
    same_length {r} kept =
        ap (λ n. cells (slot r) 0 n)
          (ap (λ s. circular_buffer_length s r.end r.max_rx_packet_entries) kept.start
            ∙ ap (λ e. circular_buffer_length rpm.start e r.max_rx_packet_entries) kept.end
            ∙ ap (λ n. circular_buffer_length rpm.start rpm.end n) kept.size)
