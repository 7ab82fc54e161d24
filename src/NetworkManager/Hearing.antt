-- ===== src/NetworkManager/Hearing.antt =====
-- networkManagerRecordRxPacket of src/networkManager.c on a consistent network.
use microbus.Common.{
  ℕ, ◌<◌, ◌≡◌, ◌⊎◌, inl, inr, refl, sym, ap, true, ltb, some, update, Bool-cases, arith,
}
use mathlib.Core.Path.{subst}
use microbus.Packet.{max_nodes}
use microbus.NetworkManager.{
  NetworkManager, master_max_time_to_live, network_manager_record_rx_packet,
}
use microbus.NetworkManager.Table.{
  IsTable, Without, Without-IsTable, absent, taken, remove_request_refines, kept,
}
use microbus.NetworkManager.Members.{Members, IsNetwork, same_times}

-- What the master keeps of a node that it hears: its time to live is the whole one, and its entry in
-- the table is taken out.
abbrev pub Hears : Members → ℕ → NetworkManager → (ℕ → ℕ) → Type 0
Hears m node_id nw ttl =
    (ttl ≡ update m.ttl node_id master_max_time_to_live)
    × ((nw ≡ m.nw) ⊎ (p : ℕ) × (p < m.nw.num_new_nodes) × Without m.nw p nw)

pub heard_returns :
    (m : Members) (node_id : ℕ)
    → node_id < max_nodes
    → IsTable m.nw
    → (nw : NetworkManager) × (ttl : ℕ → ℕ) × (network_manager_record_rx_packet m.nw m.ttl node_id
        ≡ some (nw, ttl))
      × Hears m node_id nw ttl
unfolding network_manager_record_rx_packet
heard_returns m node_id lt table =
    let (found, after, ok, done) = remove_request_refines m.nw node_id table in
    let inside : ltb node_id max_nodes ≡ true = ground arith in
    let heard = update m.ttl node_id master_max_time_to_live in
    elim (Bool-cases (ltb 0 m.nw.num_new_nodes)) [
      | inr none_new ↦ (m.nw, heard, rw (inside, none_new) refl, (refl, inl refl))
      | inl some_new ↦ (
        after,
        heard,
        rw (inside, some_new, ok) refl,
        (
          refl,
          elim done [
            | absent missing same others ↦ inl same
            | taken p below same there without ↦ inr (p, below, without)
          ],
        ),
      )
    ]

pub heard_bound :
    (m : Members) (node_id : ℕ) {x : NetworkManager × (ℕ → ℕ)}
    → network_manager_record_rx_packet m.nw m.ttl node_id ≡ some x
    → node_id < max_nodes
unfolding network_manager_record_rx_packet
heard_bound m node_id e = elim (Bool-cases (ltb node_id max_nodes)) [
  | inr outside ↦ absurd (ground arith)
  | inl inside ↦ ground arith
]

-- The table loses an entry.
Without-IsNetwork :
    {m : Members} {after : NetworkManager} {p : ℕ}
    → p < m.nw.num_new_nodes
    → Without m.nw p after
    → IsNetwork m
    → IsNetwork (record m { nw = after })
Without-IsNetwork {m} {after} {p} lt w h = record {
  queue = rw (w.queue) h.queue;
  members = λ j. rw (w.queue) (h.members j);
  bounded = h.bounded;
  table = Without-IsTable lt w h.table;
  listed = λ i hi. ground (arith, w.number, w.numbers i, h.listed (kept p i));
}

Hears-IsNetwork :
    (m : Members) (node_id : ℕ) (nw : NetworkManager) (ttl : ℕ → ℕ)
    → node_id < max_nodes
    → 0 < m.ttl node_id
    → Hears m node_id nw ttl
    → IsNetwork m
    → IsNetwork (record { nw = nw; ttl = ttl })
Hears-IsNetwork m node_id nw ttl lt alive (timed, listed) h =
    let time = λ (j : ℕ). ap (λ f. f j) timed in
    let h' : IsNetwork (record m { ttl = ttl }) =
      same_times {m = m} ttl (λ j. ground (arith, time j))
        (λ j below. ground (arith, time j, h.bounded j)) h in
    elim listed [
      | inl same ↦ subst (λ w. IsNetwork (record { nw = w; ttl = ttl })) (sym same) h'
      | inr (p, below, w) ↦ Without-IsNetwork {m = record m { ttl = ttl }} below w h'
    ]

pub heard-IsNetwork :
    (m : Members) (node_id : ℕ) {nw : NetworkManager} {ttl : ℕ → ℕ}
    → 0 < m.ttl node_id
    → network_manager_record_rx_packet m.nw m.ttl node_id ≡ some (nw, ttl)
    → IsNetwork m
    → IsNetwork (record { nw = nw; ttl = ttl })
heard-IsNetwork m node_id {nw} {ttl} alive e h =
    let lt = heard_bound m node_id e in
    let (nw', ttl', ok, hears) = heard_returns m node_id lt h.table in
    let same_nw : nw' ≡ nw = cc in
    let same_ttl : ttl' ≡ ttl = cc in
    subst (λ t. IsNetwork (record { nw = nw; ttl = t })) same_ttl
      (subst (λ w. IsNetwork (record { nw = w; ttl = ttl' })) same_nw
        (Hears-IsNetwork m node_id nw' ttl' lt alive hears h))
