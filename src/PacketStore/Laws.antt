-- ===== src/PacketStore/Laws.antt =====
-- The packet store of src/txManager.c against numbered packets: `a` is the number of the first packet
-- that the store keeps for a destination, `s` the number of the next one to come.
use microbus.Common.{
  ℕ, zero, suc, ◌+◌, ◌%◌, ◌≤◌, ◌<◌, ◌≡◌, ◌≢◌, inl, inr, refl, ap, ◌∙◌, Bool, true, false, ◌&&◌,
  ◌==◌, if◌then◌else◌, some, u32, Bool-cases, arith,
}
use microbus.Packet.{Packet, PacketEntry, dst_node_id_at, set_in_use}
use microbus.PacketStore.{PacketStore, holds, first_from, find_packet_entry, free_packet}

pub first_from-some :
    (t : PacketEntry → Bool) (f : ℕ → PacketEntry) (n i : ℕ) {e : ℕ}
    → first_from t f n i ≡ some e
    → (t (f e) ≡ true) × (i ≤ e) × (e < i + n)
unfolding first_from
first_from-some t f zero i h = cc
first_from-some t f (suc n) i {e} h = ground (arith, first_from-some t f n (i + 1) {e = e})

pub first_from-eq :
    (t : PacketEntry → Bool) (f g : ℕ → PacketEntry) (n i : ℕ)
    → ((j : ℕ) → t (f j) ≡ t (g j))
    → first_from t f n i ≡ first_from t g n i
unfolding first_from
first_from-eq t f g zero i h = refl
first_from-eq t f g (suc n) i h = ground (arith, h i, first_from-eq t f g n (i + 1) h)

pub first_from_at :
    (t : PacketEntry → Bool) (f : ℕ → PacketEntry) (n i e : ℕ)
    → i ≤ e
    → e < i + n
    → t (f e) ≡ true
    → ((j : ℕ) → j < e → t (f j) ≡ false)
    → first_from t f n i ≡ some e
unfolding first_from
first_from_at t f zero i e lo hi h before = absurd (omega arith)
first_from_at t f (suc n) i e lo hi h before =
    ground (arith, before i, first_from_at t f n (i + 1) e)

-- An entry that is in use for a destination.
abbrev pub is_used : PacketStore → Bool → ℕ → ℕ → Bool
is_used store b d j =
    (store.entries j).in_use
    && (if b then (store.entries j).packet.body dst_node_id_at == d else true)

-- The entries in use for the destination `d` are those of the packets `a`, …, `s - 1`, at most 254
-- of them, each under its number modulo 255, and `log` says which packet each is.
pub record Keeps (store : PacketStore) (b : Bool) (d a s : ℕ) (log : ℕ → Packet) : Type 0 where
  pub ordered : a ≤ s
  pub few : s ≤ a + 254
  pub held :
      (k : ℕ)
      → a ≤ k
      → k < s
      → (e : ℕ) × (find_packet_entry store d (k % 255) b ≡ some e)
        × ((store.entries e).packet ≡ log k)
  pub only :
      (j : ℕ)
      → j < store.max_entries
      → is_used store b d j ≡ true
      → (k : ℕ) × (a ≤ k) × (k < s) × (find_packet_entry store d (k % 255) b ≡ some j)

pub found_entry :
    (store : PacketStore) (d seq : ℕ) (b : Bool) {e : ℕ}
    → find_packet_entry store d seq b ≡ some e
    → (is_used store b d e ≡ true)
      × ((store.entries e).packet.tx_seq_num ≡ seq)
      × (e < store.max_entries)
unfolding find_packet_entry
found_entry store d seq b {e} h =
    ground (arith, first_from-some (holds b d seq) store.entries store.max_entries 0 {e = e})

-- The store that `freePacket` leaves.
abbrev pub freed_store : PacketStore → ℕ → PacketStore
freed_store store e = record store {
  entries = set_in_use store.entries e false;
  num_freed = u32 (store.num_freed + 1);
}

find-freed :
    (store : PacketStore) (d seq seq' : ℕ) (b : Bool) (e : ℕ)
    → find_packet_entry store d seq b ≡ some e
    → seq ≢ seq'
    → find_packet_entry (freed_store store e) d seq' b ≡ find_packet_entry store d seq' b
unfolding find_packet_entry
find-freed store d seq seq' b e h ne =
    first_from-eq (holds b d seq') (freed_store store e).entries store.entries store.max_entries 0
      (λ j.
        ground (arith, first_from-some (holds b d seq) store.entries store.max_entries 0 {e = e}))

-- freePacket of the first packet that the store keeps for a destination succeeds, and the store then
-- keeps the others.
pub free_packet-Keeps :
    (store : PacketStore) (b : Bool) (d a s : ℕ) (log : ℕ → Packet)
    → Keeps store b d a s log
    → a < s
    → (e : ℕ) × (free_packet store d (a % 255) b ≡ some (freed_store store e))
      × Keeps (freed_store store e) b d (a + 1) s log
unfolding free_packet
free_packet-Keeps store b d a s log h lt =
    let (e, found, _) = h.held a (omega arith) lt in
    (
      e,
      rw found refl,
      record {
        ordered = omega arith;
        few = omega (arith, h.few);
        held = λ k lo hi.
            let (e', found', packet) = h.held k (omega arith) hi in
            (
              e',
              find-freed store d (a % 255) (k % 255) b e found (omega (arith, h.few)) ∙ found',
              ground arith,
            );
        only = λ j hj used.
            let (k, lo, hi, found') = h.only j hj (ground arith) in
            elim (Bool-cases (k == a)) [
              | inl same ↦
                  let eq : k ≡ a = ground arith in
                  let both : j ≡ e =
                    cc (ap (λ (x : ℕ). find_packet_entry store d (x % 255) b) eq) in
                  absurd (ground arith)
              | inr other ↦ (
                k,
                ground arith,
                hi,
                find-freed store d (a % 255) (k % 255) b e found (ground (arith, h.few)) ∙ found',
              )
            ];
      },
    )
