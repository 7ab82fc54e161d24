-- ===== src/PacketStore/Freed.antt =====
-- The loop of masterTxManagerRemoveNode in src/txManager.c over the entries.
use microbus.Common.{
  ℕ, zero, suc, ◌+◌, ◌<◌, ◌≡◌, ◌&&◌, ltb, leb, ◌==◌, Bool, false, ◌∙◌, u8, u32, inl, inr,
  Bool-cases, if◌then◌else◌, arith,
}
use microbus.Packet.{PacketEntry, dst_node_id_at, set_in_use}
use microbus.PacketStore.{PacketStore, free_from, free_packets_to}

abbrev is_to : ℕ → PacketEntry → Bool
is_to node_id entry = entry.packet.body dst_node_id_at == node_id

freed_from :
    (d n i : ℕ) (store : PacketStore) (count j : ℕ)
    → ((free_from (is_to d) n i store count).0.entries j).in_use ≡ (
        if leb i j && ltb j (i + n) && is_to d (store.entries j)
        then false
        else (store.entries j).in_use)
unfolding free_from
freed_from d zero i store count j = ground arith
freed_from d (suc n) i store count j =
    elim (Bool-cases (is_to d (store.entries i) && (store.entries i).in_use)) [
      | inl hit ↦
          let next = record store {
            entries = set_in_use store.entries i false;
            num_freed = u32 (store.num_freed + 1);
          } in
          rw (hit, free_from) (freed_from d n (i + 1) next (u8 (count + 1)) j ∙ ground arith)
      | inr miss ↦ rw (miss, free_from) (freed_from d n (i + 1) store count j ∙ ground arith)
    ]

-- An entry is out of use after the loop where it was before it, or where its header is for the node.
pub freed_entry :
    (store : PacketStore) (d count j : ℕ)
    → j < store.max_entries
    → ((free_packets_to store d count).0.entries j).in_use
      ≡ (if is_to d (store.entries j) then false else (store.entries j).in_use)
unfolding free_packets_to
freed_entry store d count j h = freed_from d store.max_entries 0 store count j ∙ ground arith
