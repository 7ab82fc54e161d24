-- ===== src/RxManager/Remove.antt =====
-- The loop of rxManagerRemoveAllPackets of src/rxManager.c.
use microbus.Common.{
  ℕ, zero, suc, ◌+◌, ◌<◌, ◌≡◌, refl, ◌∙◌, false, leb, ◌==◌, if◌then◌else◌, none, arith,
}
use microbus.RxManager.{RxPacketManager, clear_slot, remove_from, rx_manager_remove_all_packets}

clear_slot_kept :
    (node_id i : ℕ) (rpm : RxPacketManager)
    → ((clear_slot node_id i rpm).end ≡ rpm.end)
      × ((clear_slot node_id i rpm).start ≡ rpm.start)
      × ((clear_slot node_id i rpm).max_rx_packet_entries ≡ rpm.max_rx_packet_entries)
unfolding clear_slot
clear_slot_kept node_id i rpm = ground arith

-- Once the loop is past an end of 0, no number of rounds brings it back.
never_zero :
    (fuel node_id i : ℕ) (rpm : RxPacketManager)
    → rpm.end ≡ 0
    → 0 < i
    → remove_from node_id fuel i rpm ≡ none
unfolding remove_from
never_zero zero node_id i rpm e h = refl
never_zero (suc fuel) node_id i rpm e h =
    let at : ℕ = if leb rpm.max_rx_packet_entries i then 0 else i in
    let rest =
      never_zero fuel node_id (at + 1) (clear_slot node_id at rpm)
        ((clear_slot_kept node_id at rpm).0 ∙ e) (omega arith) in
    let out : (i == rpm.end) ≡ false = ground arith in rw (out, rest) refl

-- If the queue ends at index 0 and starts anywhere else, rxManagerRemoveAllPackets never returns,
-- for any node: no number of rounds of its loop is enough.
pub remove_all_hangs :
    (fuel node_id : ℕ) (rpm : RxPacketManager)
    → rpm.end ≡ 0
    → 0 < rpm.start
    → rx_manager_remove_all_packets fuel rpm node_id ≡ none
unfolding rx_manager_remove_all_packets
remove_all_hangs fuel node_id rpm e h = never_zero fuel node_id rpm.start rpm e h
