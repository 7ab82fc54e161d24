-- ===== src/RxManager/Free.antt =====
-- findFreeRxPacket of src/rxManager.c: the search for an entry that is not in use.
use microbus.Common.{
  ℕ, zero, suc, ◌+◌, ◌≤◌, ◌<◌, ◌≡◌, ◌⊎◌, inl, inr, true, false, none, some, Bool-cases,
  Option-cases, arith,
}
use microbus.Packet.{PacketEntry, set_in_use}
use microbus.Ring.{circular_buffer_full}
use microbus.Ring.Laws.{length_lem}
use microbus.RxManager.{RxPacketManager, find_free_from, find_free_rx_packet}
use microbus.RxManager.Queue.{IsValid, queue_length}

-- What the search loop of findFreeRxPacket finds is the first entry that is not in use.
find_free_some :
    (entries : ℕ → PacketEntry) (n i : ℕ) {e : ℕ}
    → find_free_from entries n i ≡ some e
    → (e < i + n) × ((entries e).in_use ≡ false)
unfolding find_free_from
find_free_some entries zero i h = cc
find_free_some entries (suc n) i {e} h = ground (arith, find_free_some entries n (i + 1) {e = e})

find_free_none :
    (entries : ℕ → PacketEntry) (n i e : ℕ)
    → find_free_from entries n i ≡ none
    → i ≤ e
    → e < i + n
    → (entries e).in_use ≡ true
unfolding find_free_from
find_free_none entries zero i e h lo hi = absurd (omega arith)
find_free_none entries (suc n) i e h lo hi = ground (arith, find_free_none entries n (i + 1) e)

-- findFreeRxPacket on a valid queue: an entry that it returns lies in the array, was not in use and
-- is now, and no other entry and no slot changes; it returns none only if the queue is full or all
-- entries are in use, and then changes nothing.
pub find_free_lem :
    (rpm : RxPacketManager)
    → IsValid rpm
    → ((e : ℕ) × (find_free_rx_packet rpm
          ≡ (some e, record rpm { rx_packet_entries = set_in_use rpm.rx_packet_entries e true }))
        × (e < rpm.max_rx_packet_entries)
        × ((rpm.rx_packet_entries e).in_use ≡ false))
      ⊎ ((find_free_rx_packet rpm ≡ (none, rpm))
          × ((queue_length rpm + 1 ≡ rpm.max_rx_packet_entries)
              ⊎ ((e : ℕ)
                  → e < rpm.max_rx_packet_entries
                  → (rpm.rx_packet_entries e).in_use ≡ true)))
unfolding find_free_rx_packet
find_free_lem rpm v =
    elim (Bool-cases (circular_buffer_full rpm.start rpm.end rpm.max_rx_packet_entries)) [
      | inl full ↦ inr (
        rw full,
        inl ((length_lem rpm.start rpm.end rpm.max_rx_packet_entries v.start_in v.end_in).3.0 full),
      )
      | inr room ↦
          elim (Option-cases (find_free_from rpm.rx_packet_entries rpm.max_rx_packet_entries 0)) [
            | inl no_entry ↦ inr (
              rw (room, no_entry),
              inr (λ e h.
                  find_free_none rpm.rx_packet_entries rpm.max_rx_packet_entries 0 e no_entry
                    (omega arith) (omega arith)),
            )
            | inr (e, found) ↦
                let (inside, free) =
                  find_free_some rpm.rx_packet_entries rpm.max_rx_packet_entries 0 found in
                inl (e, rw (room, found), omega arith, free)
          ]
    ]
