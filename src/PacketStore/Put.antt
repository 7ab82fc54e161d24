-- ===== src/PacketStore/Put.antt =====
-- The packet store of src/txManager.c when a packet is added to those that it keeps.
use microbus.Common.{
  ℕ, zero, suc, ◌+◌, ◌%◌, ◌≤◌, ◌<◌, ◌≡◌, ◌≢◌, ◌⊎◌, inl, inr, refl, sym, ap, ◌∙◌, Bool, true, false,
  not, ◌==◌, if◌then◌else◌, some, none, update, u32, Bool-cases, Option-cases, arith,
}
use microbus.Packet.{Packet, PacketEntry, dst_node_id_at, set_in_use}
use microbus.PacketStore.{PacketStore, holds, first_from, find_packet_entry, allocate_packet_entry}
use microbus.PacketStore.Laws.{first_from-some, first_from-eq, first_from_at, Keeps, found_entry}

module _ (store store' : PacketStore) (b : Bool) (d e : ℕ) (p : Packet)
    (free : (store.entries e).in_use ≡ false) (inside : e < store.max_entries)
    (same_size : store'.max_entries ≡ store.max_entries)
    (put : (j : ℕ)
      → store'.entries j
        ≡ (if j == e then record { in_use = true; packet = p } else store.entries j)) where
  find-put_ne :
      (seq : ℕ)
      → p.tx_seq_num ≢ seq
      → find_packet_entry store' d seq b ≡ find_packet_entry store d seq b
  unfolding find_packet_entry
  find-put_ne seq ne =
      ap (λ n. first_from (holds b d seq) store'.entries n 0) same_size
      ∙ first_from-eq (holds b d seq) store'.entries store.entries store.max_entries 0
          (λ j. ground (arith, put j))

  find-put_self :
      (b ≡ true → p.body dst_node_id_at ≡ d)
      → ((j : ℕ) → j < store.max_entries → holds b d p.tx_seq_num (store.entries j) ≡ false)
      → find_packet_entry store' d p.tx_seq_num b ≡ some e
  unfolding find_packet_entry
  find-put_self to_d unheld =
      ap (λ n. first_from (holds b d p.tx_seq_num) store'.entries n 0) same_size
      ∙ first_from_at (holds b d p.tx_seq_num) store'.entries store.max_entries 0 e (omega arith)
          (omega arith) (ground (arith, put e, to_d)) (λ j hj. ground (arith, put j, unheld j))

  -- A free entry that is filled with the next packet for the destination, while there are fewer than
  -- 254, is one more packet that the store keeps.
  pub put-Keeps :
      (a s : ℕ) (log : ℕ → Packet)
      → p.tx_seq_num ≡ s % 255
      → (b ≡ true → p.body dst_node_id_at ≡ d)
      → s < a + 254
      → Keeps store b d a s log
      → Keeps store' b d a (s + 1) (update log s p)
  put-Keeps a s log numbered to_d room h = record {
    ordered = omega (arith, h.ordered);
    few = omega arith;
    held = λ k lo hi. elim (Bool-cases (k == s)) [
      | inl last ↦
          let eq : k ≡ s = ground arith in
          (
            e,
            ap (λ (x : ℕ). find_packet_entry store' d (x % 255) b) eq ∙ newest,
            ground (arith, put e),
          )
      | inr earlier ↦
          let (e', found, packet) = h.held k lo (ground arith) in
          (
            e',
            find-put_ne (k % 255) (ground (arith, h.ordered)) ∙ found,
            ground (arith, put e', found_entry store d (k % 255) b {e = e'} found),
          )
    ];
    only = λ j hj used. elim (Bool-cases (j == e)) [
      | inl new ↦
          let eq : j ≡ e = ground arith in
          (s, h.ordered, omega arith, newest ∙ ap (λ (x : ℕ). some x) (sym eq))
      | inr old ↦
          let (k, lo, hi, found) = h.only j (omega arith) (ground (arith, put j)) in
          (k, lo, omega arith, find-put_ne (k % 255) (omega arith) ∙ found)
    ];
  }
    where
      unheld : (j : ℕ) → j < store.max_entries → holds b d p.tx_seq_num (store.entries j) ≡ false
      unheld j hj = elim (Bool-cases (holds b d p.tx_seq_num (store.entries j))) [
        | inr no_entry ↦ no_entry
        | inl hit ↦
            let (k, lo, hi, found) = h.only j hj (ground arith) in
            let (_, seq, _) = found_entry store d (k % 255) b {e = j} found in absurd (ground arith)
      ]

      newest : find_packet_entry store' d (s % 255) b ≡ some e
      newest =
          ap (λ seq. find_packet_entry store' d seq b) (sym numbered) ∙ find-put_self to_d unheld

-- allocatePacketEntry takes an entry that was free, or finds none.
pub allocate_lem :
    (store : PacketStore) (e : ℕ) (taken : PacketStore)
    → allocate_packet_entry store ≡ (some e, taken)
    → ((store.entries e).in_use ≡ false)
      × (e < store.max_entries)
      × (taken ≡ record store {
        entries = set_in_use store.entries e true;
        num_stored = u32 (store.num_stored + 1);
      })
unfolding allocate_packet_entry
allocate_lem store e taken h =
    elim (Option-cases (first_from (λ x. not x.in_use) store.entries store.max_entries 0)) [
      | inl full ↦ absurd (ground arith)
      | inr (e', found) ↦
          let first =
            first_from-some (λ x. not x.in_use) store.entries store.max_entries 0 {e = e'} found in
          ground arith
    ]

first_from-none :
    (t : PacketEntry → Bool) (f : ℕ → PacketEntry) (n i j : ℕ)
    → first_from t f n i ≡ none
    → i ≤ j
    → j < i + n
    → t (f j) ≡ false
unfolding first_from
first_from-none t f zero i j h lo hi = absurd (omega arith)
first_from-none t f (suc n) i j h lo hi = ground (arith, first_from-none t f n (i + 1) j)

-- It finds none only where all entries are in use, and changes nothing then.
pub allocate_cases :
    (store : PacketStore)
    → ((allocate_packet_entry store ≡ (none, store))
        × ((j : ℕ) → j < store.max_entries → (store.entries j).in_use ≡ true))
      ⊎ ((e : ℕ) × (taken : PacketStore) × (allocate_packet_entry store ≡ (some e, taken)))
unfolding allocate_packet_entry
allocate_cases store =
    elim (Option-cases (first_from (λ x. not x.in_use) store.entries store.max_entries 0)) [
      | inl full ↦ inl (
        rw (full, allocate_packet_entry) refl,
        λ j hj.
            let used =
              first_from-none (λ x. not x.in_use) store.entries store.max_entries 0 j full
                (omega arith) (omega arith) in
            ground arith,
      )
      | inr (e, found) ↦ inr (
        e,
        record store {
          entries = set_in_use store.entries e true;
          num_stored = u32 (store.num_stored + 1);
        },
        rw (found, allocate_packet_entry) refl,
      )
    ]
