-- ===== src/PacketStore.antt =====
-- src/txManager.c, the packet store: the entries that hold the packets waiting to be sent or to be
-- acknowledged. A `tPacketEntry *`, and a `tPacket *` into an entry, is the index of its entry.
pub mod Laws
pub mod Freed
pub mod Put
use microbus.Common.{
  ℕ, zero, suc, ◌+◌, Bool, true, false, not, ◌&&◌, ◌==◌, if◌then◌else◌, Option, none, some, ◌>>=◌,
  update, u8, u32,
}
use microbus.Packet.{Packet, PacketEntry, dst_node_id_at, set_in_use}

-- `tPacketStore`
pub record PacketStore : Type 0 where
  pub entries : ℕ → PacketEntry
  pub max_entries : ℕ
  pub num_stored : ℕ
  pub num_freed : ℕ

-- The test in the loop of `findPacketEntry`.
abbrev pub holds : Bool → ℕ → ℕ → PacketEntry → Bool
holds is_master dst_node_id seq_num entry =
    entry.in_use
    && (if is_master then entry.packet.body dst_node_id_at == dst_node_id else true)
    && (entry.packet.tx_seq_num == seq_num)

-- A search loop over the entries, with the rounds left and the index: the first that passes.
unfoldable pub first_from : (PacketEntry → Bool) → (ℕ → PacketEntry) → ℕ → ℕ → Option ℕ
first_from test entries zero i = none
first_from test entries (suc n) i =
    if test (entries i) then some i else first_from test entries n (i + 1)

-- `findPacketEntry`: `none` is its failed assertion.
unfoldable pub find_packet_entry : PacketStore → ℕ → ℕ → Bool → Option ℕ
unfolding first_from
find_packet_entry store dst_node_id seq_num is_master =
    first_from (holds is_master dst_node_id seq_num) store.entries store.max_entries 0

-- `allocatePacketEntry`
unfoldable pub allocate_packet_entry : PacketStore → Option ℕ × PacketStore
unfolding first_from
allocate_packet_entry store =
    elim (first_from (λ entry. not entry.in_use) store.entries store.max_entries 0) [
      | some e ↦ (
        some e,
        record store {
          entries = set_in_use store.entries e true;
          num_stored = u32 (store.num_stored + 1);
        },
      )
      | none ↦ (none, store)
    ]

-- `freePacket`
unfoldable pub free_packet : PacketStore → ℕ → ℕ → Bool → Option PacketStore
free_packet store dst_node_id seq_num is_master = do
  e ← find_packet_entry store dst_node_id seq_num is_master
  some (record store {
    entries = set_in_use store.entries e false;
    num_freed = u32 (store.num_freed + 1);
  })

-- The loop of `getNumAllBufferedTxPackets`.
pub count_from : (ℕ → PacketEntry) → ℕ → ℕ → ℕ → ℕ
count_from entries zero i count = count
count_from entries (suc n) i count =
    count_from entries n (i + 1) (if (entries i).in_use then u8 (count + 1) else count)

-- `getNumAllBufferedTxPackets`
unfoldable pub get_num_all_buffered_tx_packets : PacketStore → ℕ
unfolding count_from
get_num_all_buffered_tx_packets store = count_from store.entries store.max_entries 0 0

-- A loop over the entries that frees those that pass, with the rounds left, the index and the
-- `uint8_t` that counts them for the caller.
pub free_from : (PacketEntry → Bool) → ℕ → ℕ → PacketStore → ℕ → PacketStore × ℕ
free_from test zero i store count = (store, count)
free_from test (suc n) i store count =
    let hit = test (store.entries i) && (store.entries i).in_use in
    free_from test n (i + 1)
      (if hit
        then record store {
          entries = set_in_use store.entries i false;
          num_freed = u32 (store.num_freed + 1);
        }
        else store)
      (if hit then u8 (count + 1) else count)

-- The loop of `masterTxManagerRemoveNode`.
unfoldable pub free_packets_to : PacketStore → ℕ → ℕ → PacketStore × ℕ
unfolding free_from
free_packets_to store node_id count =
    free_from (λ entry. entry.packet.body dst_node_id_at == node_id) store.max_entries 0 store count

-- The loop of `masterTxClearBuffers`.
unfoldable pub free_all_packets : PacketStore → PacketStore
unfolding free_from
free_all_packets store = (free_from (λ entry. true) store.max_entries 0 store 0).0
