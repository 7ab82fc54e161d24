-- ===== src/RxManager.antt =====
-- src/rxManager.c: the receive buffer. A `tPacketEntry *` is the index of its entry in the array
-- `rxPacketEntries`, and a null pointer in the queue is `none`.
pub mod Queue
pub mod Free
pub mod Peek
pub mod Remove
pub mod ClearSlot
pub mod Cleared
mod Tests
use microbus.Common.{
  ℕ, zero, suc, ◌+◌, Bool, true, false, leb, ◌==◌, if◌then◌else◌, Option, none, some, ◌>>=◌, update,
  max,
}
use microbus.Packet.{PacketEntry, src_node_id_at, set_in_use, zero_entry}
use microbus.Ring.{
  incr_and_wrap, circular_buffer_full, circular_buffer_empty, circular_buffer_length, append_tail,
  pop_head,
}

-- `tRxPacketManager`
pub record RxPacketManager : Type 0 where
  pub max_rx_packet_entries : ℕ
  pub rx_packet_entries : ℕ → PacketEntry
  pub rx_packet_queue : ℕ → Option ℕ
  pub start : ℕ
  pub end : ℕ
  pub rx_buffer_level : ℕ

-- The search loop of `findFreeRxPacket`, with the rounds left and the index.
pub find_free_from : (ℕ → PacketEntry) → ℕ → ℕ → Option ℕ
find_free_from entries zero i = none
find_free_from entries (suc n) i =
    if (entries i).in_use then find_free_from entries n (i + 1) else some i

-- `findFreeRxPacket`
unfoldable pub find_free_rx_packet : RxPacketManager → Option ℕ × RxPacketManager
unfolding find_free_from
find_free_rx_packet rpm =
    if circular_buffer_full rpm.start rpm.end rpm.max_rx_packet_entries
    then (none, rpm)
    else elim (find_free_from rpm.rx_packet_entries rpm.max_rx_packet_entries 0) [
      | some e ↦
          (some e, record rpm { rx_packet_entries = set_in_use rpm.rx_packet_entries e true })
      | none ↦ (none, rpm)
    ]

-- `addRxDataPacket`
unfoldable pub add_rx_data_packet : RxPacketManager → ℕ → Option RxPacketManager
add_rx_data_packet rpm e = do
  end ← append_tail rpm.start rpm.end rpm.max_rx_packet_entries
  let level = circular_buffer_length rpm.start end rpm.max_rx_packet_entries
  some (record rpm {
    rx_packet_queue = update rpm.rx_packet_queue rpm.end (some e);
    end = end;
    rx_buffer_level = max rpm.rx_buffer_level level;
  })

-- `packet.node.srcNodeId` of an entry
abbrev pub src_node_id : RxPacketManager → ℕ → ℕ
src_node_id rpm e = (rpm.rx_packet_entries e).packet.body src_node_id_at

-- The body of the loop of `rxManagerRemoveAllPackets` at index `i`.
pub clear_slot : ℕ → ℕ → RxPacketManager → RxPacketManager
clear_slot node_id i rpm = elim (rpm.rx_packet_queue i) [
  | some e ↦
      if src_node_id rpm e == node_id
      then record rpm {
        rx_packet_entries = set_in_use rpm.rx_packet_entries e false;
        rx_packet_queue = update rpm.rx_packet_queue i none;
      }
      else rpm
  | none ↦ rpm
]

-- `for (i = start; i != end; i++) { if (i >= max) i = 0; ... }` with fuel; `none` means that the
-- fuel ran out.
pub remove_from : ℕ → ℕ → ℕ → RxPacketManager → Option RxPacketManager
unfolding clear_slot
remove_from node_id zero i rpm = none
remove_from node_id (suc fuel) i rpm =
    let at = if leb rpm.max_rx_packet_entries i then 0 else i in
    let rest = remove_from node_id fuel (at + 1) (clear_slot node_id at rpm) in
    if i == rpm.end then some rpm else rest

-- `rxManagerRemoveAllPackets`, with fuel for its loop
unfoldable pub rx_manager_remove_all_packets : ℕ → RxPacketManager → ℕ → Option RxPacketManager
unfolding remove_from
rx_manager_remove_all_packets fuel rpm node_id = remove_from node_id fuel rpm.start rpm

-- The loop of `peekNextRxDataPacket`, with the rounds left. The entry that it returns stands for the
-- packet in it.
pub peek_from : ℕ → RxPacketManager → Option (Option ℕ × RxPacketManager)
peek_from zero rpm = none
peek_from (suc n) rpm =
    if circular_buffer_empty rpm.start rpm.end rpm.max_rx_packet_entries
    then some (none, rpm)
    else elim (rpm.rx_packet_queue rpm.start) [
      | some e ↦ some (some e, rpm)
      | none ↦ elim (pop_head rpm.start rpm.end rpm.max_rx_packet_entries) [
        | none ↦ none
        | some start ↦ peek_from n (record rpm { start = start })
      ]
    ]

-- `peekNextRxDataPacket`
unfoldable pub peek_next_rx_data_packet : RxPacketManager → Option (Option ℕ × RxPacketManager)
unfolding peek_from
peek_next_rx_data_packet rpm = peek_from rpm.max_rx_packet_entries rpm

-- `popNextDataPacket`. `CIRCULAR_BUFFER_PEEK` of an empty buffer gives a null pointer, which the code
-- reads through, as it does at a slot that `rxManagerRemoveAllPackets` has cleared.
unfoldable pub pop_next_data_packet : RxPacketManager → Option RxPacketManager
pop_next_data_packet rpm =
    if circular_buffer_empty rpm.start rpm.end rpm.max_rx_packet_entries then none else do
      e ← rpm.rx_packet_queue rpm.start
      start ← pop_head rpm.start rpm.end rpm.max_rx_packet_entries
      some (record rpm {
        rx_packet_entries = set_in_use rpm.rx_packet_entries e false;
        start = start;
      })

-- `rxManagerInit` on a manager: it clears both arrays, and leaves the positions as they are.
unfoldable pub rx_manager_init : RxPacketManager → ℕ → RxPacketManager
rx_manager_init rpm max_entries = record rpm {
  max_rx_packet_entries = max_entries;
  rx_packet_entries = λ i. zero_entry;
  rx_packet_queue = λ i. none;
}

-- What `memset` to 0 leaves.
abbrev pub zero_rx_manager : RxPacketManager
zero_rx_manager = record {
  max_rx_packet_entries = 0;
  rx_packet_entries = λ i. zero_entry;
  rx_packet_queue = λ i. none;
  start = 0;
  end = 0;
  rx_buffer_level = 0;
}
