-- ===== src/NetworkManager/Joining.antt =====
-- networkManagerRegisterNewNode of src/networkManager.c on a consistent network.
use microbus.Common.{
  ℕ, ◌+◌, ◌<◌, ◌≡◌, inl, inr, sym, ap, ◌∙◌, ◌==◌, some, contains, contains-append, Bool-cases,
  arith,
}
use mathlib.Core.Path.{subst}
use microbus.NodeQueue.{ids}
use microbus.NodeQueue.Laws.{IsValid, length-ids}
use microbus.NetworkManager.{NetworkManager, Registered, network_manager_register_new_node}
use microbus.NetworkManager.Table.{IsTable, search_misses}
use microbus.NetworkManager.Register.{Registers, Adds, register_refines}
use microbus.NetworkManager.Members.{Members, IsNetwork, members_few}

add_entry-IsTable :
    {nw : NetworkManager} {ttl : ℕ → ℕ} {unique_id : ℕ} {r : Registered}
    → Adds nw ttl unique_id r
    → 0 < unique_id
    → ((i : ℕ) → i < nw.num_new_nodes → 0 < ttl (nw.new_node_id i))
    → IsTable nw
    → IsTable r.manager
add_entry-IsTable {nw} {ttl} {unique_id} {r} a pos alive h =
    let more : r.manager.num_new_nodes ≡ nw.num_new_nodes + 1 = omega (arith, a.number, h.few) in
    let name = λ (i : ℕ). ap (λ f. f i) a.named in
    let number = λ (i : ℕ). ap (λ f. f i) a.numbered in
    record {
      few = omega (arith, a.room, h.few);
      named = λ i hi. ground (arith, name i, h.named i);
      one_name = λ i j less hi. ground (
        arith,
        name i,
        name j,
        h.one_name i j,
        search_misses nw.new_node_unique_id unique_id nw.num_new_nodes 0 a.unlisted i,
      );
      one_number =
          λ i j less hi. ground (arith, number i, number j, h.one_number i j, alive i, a.free);
    }

add_entry-IsNetwork :
    (m : Members) {unique_id : ℕ} (r : Registered)
    → Adds m.nw m.ttl unique_id r
    → 0 < unique_id
    → IsValid r.manager.active_nodes
    → IsNetwork m
    → IsNetwork (record { nw = r.manager; ttl = r.ttl })
add_entry-IsNetwork m r a pos valid h =
    let joined =
      λ (j : ℕ). ap (contains j) a.queued ∙ contains-append j a.id (ids m.nw.active_nodes) in
    let time = λ (j : ℕ). ap (λ f. f j) a.alive in
    record {
      queue = valid;
      members = λ j. ground (arith, joined j, time j, h.members j, a.low, a.high);
      bounded = λ j lt. ground (arith, time j, h.bounded j);
      table = add_entry-IsTable a pos (λ i hi. (h.listed i hi).2) h.table;
      listed = λ i hi. elim (Bool-cases (i == m.nw.num_new_nodes)) [
        | inl last ↦
            ground (arith, ap (λ f. f i) a.numbered, time (r.manager.new_node_id i), a.high, a.low)
        | inr earlier ↦ ground (
          arith,
          a.number,
          h.table.few,
          ap (λ f. f i) a.numbered,
          time (r.manager.new_node_id i),
          h.listed i,
        )
      ];
    }

-- A registration of a unique id that is not 0 on a consistent network, which has room.
pub registers :
    (m : Members) (unique_id full : ℕ)
    → 0 < unique_id
    → IsNetwork m
    → Registers m.nw m.ttl unique_id (network_manager_register_new_node m.nw m.ttl unique_id full)
registers m unique_id full pos h =
    register_refines m.nw m.ttl unique_id full
      (record { queue = h.queue; alive = λ j there. ground (arith, h.members j) })
      (omega (arith, members_few {m = m} h, length-ids m.nw.active_nodes)) pos

request_names :
    (m : Members) (unique_id full : ℕ) {r : Registered}
    → network_manager_register_new_node m.nw m.ttl unique_id full ≡ some r
    → 0 < unique_id
unfolding network_manager_register_new_node
request_names m unique_id full e = elim (Bool-cases (unique_id == 0)) [
  | inl anonymous ↦ absurd (ground arith)
  | inr named ↦ ground arith
]

pub request-IsNetwork :
    (m : Members) (unique_id full : ℕ) {r : Registered}
    → network_manager_register_new_node m.nw m.ttl unique_id full ≡ some r
    → IsNetwork m
    → IsNetwork (record { nw = r.manager; ttl = r.ttl })
request-IsNetwork m unique_id full {r} e h =
    let pos = request_names m unique_id full e in
    let x = registers m unique_id full pos h in
    let same : x.after ≡ r = cc in
    subst (λ o. IsNetwork (record { nw = o.manager; ttl = o.ttl })) same
      (elim x.change [
        | inl same_all ↦
            subst (λ t. IsNetwork (record { nw = x.after.manager; ttl = t }))
              (sym same_all.same_ttl)
              (subst (λ w. IsNetwork (record { nw = w; ttl = m.ttl })) (sym same_all.same_manager)
                h)
        | inr a ↦ add_entry-IsNetwork m x.after a pos x.consistent.queue h
      ])
