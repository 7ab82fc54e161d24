-- ===== src/NetworkManager/Entries.antt =====
-- The entries of a response of src/networkManager.c, as txNewNodeResponse writes them.
use microbus.Common.{
  ℕ, zero, suc, ◌+◌, ◌*◌, ◌≤◌, ◌<◌, ◌≡◌, refl, sym, ap₂, ◌∙◌, true, ltb, ◌==◌, Bool-cases, inl, inr,
  arith,
}
use mathlib.Core.Path.{subst}
use microbus.Packet.{data_at}
use microbus.NetworkManager.{NetworkManager}
use microbus.NetworkManager.Table.{IsTable}
use microbus.NetworkManager.Join.{put_bytes, get_bytes, put_entry, entries_from}
use microbus.NetworkManager.Request.{put_bytes_below, get_bytes-put_bytes}

get_bytes-eq :
    (n at : ℕ) (b c : ℕ → ℕ)
    → ((j : ℕ) → at ≤ j → j < at + n → b j ≡ c j)
    → get_bytes n at b ≡ get_bytes n at c
unfolding get_bytes
get_bytes-eq zero at b c same = refl
get_bytes-eq (suc n) at b c same =
    ap₂ (λ x y. x + 256 * y) (same at (omega arith) (omega arith))
      (get_bytes-eq n (at + 1) b c (λ j lo hi. same j (omega arith) (omega arith)))

-- Entry `k` of a body holds a unique id and a node id.
abbrev pub Holds : (ℕ → ℕ) → ℕ → ℕ → ℕ → Type 0
Holds body k unique_id node_id =
    (get_bytes 8 (data_at (k * 9)) body ≡ unique_id) × (body (data_at (k * 9 + 8)) ≡ node_id)

put_entry_below :
    (k unique_id node_id j : ℕ) (body : ℕ → ℕ)
    → j < data_at (k * 9)
    → put_entry k unique_id node_id body j ≡ body j
put_entry_below k unique_id node_id j body lt =
    let same = put_bytes_below 8 (data_at (k * 9)) unique_id j body lt in ground arith

put_entry-Holds :
    (k unique_id node_id : ℕ) (body : ℕ → ℕ)
    → unique_id < 18446744073709551616
    → Holds (put_entry k unique_id node_id body) k unique_id node_id
put_entry-Holds k unique_id node_id body lt =
    let same =
      get_bytes-eq 8 (data_at (k * 9)) (put_entry k unique_id node_id body)
        (put_bytes 8 (data_at (k * 9)) unique_id body) (λ j lo hi. ground arith) in
    (same ∙ get_bytes-put_bytes 8 (data_at (k * 9)) unique_id body lt, ground arith)

pub Holds-eq :
    (b c : ℕ → ℕ) (k unique_id node_id : ℕ)
    → ((j : ℕ) → data_at (k * 9) ≤ j → j < data_at (suc k * 9) → b j ≡ c j)
    → Holds c k unique_id node_id
    → Holds b k unique_id node_id
Holds-eq b c k unique_id node_id same (named, numbered) = (
  get_bytes-eq 8 (data_at (k * 9)) b c (λ j lo hi. same j lo (omega arith)) ∙ named,
  same (data_at (k * 9 + 8)) (omega arith) (omega arith) ∙ numbered,
)

-- What the loop of txNewNodeResponse leaves: as many entries as the table has, and the rest of the
-- body below them.
pub record Fills (nw : NetworkManager) (i num : ℕ) (body : ℕ → ℕ) (out : (ℕ → ℕ) × ℕ) : Type 0 where
  pub count : out.1 ≡ num
  pub below : (j : ℕ) → j < data_at (i * 9) → out.0 j ≡ body j
  pub filled :
      (k : ℕ) → i ≤ k → k < num → Holds out.0 k (nw.new_node_unique_id k) (nw.new_node_id k)

module _ (nw : NetworkManager) (h : IsTable nw)
    (short : (i : ℕ) → i < nw.num_new_nodes → nw.new_node_unique_id i < 18446744073709551616) where
  pub entries_from-Fills :
      (n i : ℕ) (body : ℕ → ℕ)
      → i < nw.num_new_nodes
      → nw.num_new_nodes ≤ i + n
      → Fills nw i nw.num_new_nodes body (entries_from nw nw.num_new_nodes n i i body)
  unfolding entries_from
  entries_from-Fills zero i body lt le = absurd (omega arith)
  entries_from-Fills (suc n) i body lt le =
      let pos : ltb 0 (nw.new_node_unique_id i) ≡ true = ground (arith, h.named i lt) in
      let entry =
        put_entry-Holds i (nw.new_node_unique_id i) (nw.new_node_id i) body (short i lt) in
      elim (Bool-cases (i + 1 == nw.num_new_nodes)) [
        | inl last ↦
            let kept = put_entry_below i (nw.new_node_unique_id i) (nw.new_node_id i) in
            rw (pos, last, entries_from)
              (record {
                count = ground arith;
                below = λ j lo. kept j body lo;
                filled = λ k lo hi.
                    let e : k ≡ i = ground arith in
                    subst
                      (λ x.
                        Holds (put_entry i (nw.new_node_unique_id i) (nw.new_node_id i) body) x
                          (nw.new_node_unique_id x) (nw.new_node_id x))
                      (sym e) entry;
              })
        | inr more ↦
            let kept = put_entry_below i (nw.new_node_unique_id i) (nw.new_node_id i) in
            let body' = put_entry i (nw.new_node_unique_id i) (nw.new_node_id i) body in
            let rest = entries_from-Fills n (i + 1) body' (ground arith) (omega arith) in
            rw (pos, more, entries_from)
              (record {
                count = rest.count;
                below = λ j lo. rest.below j (omega arith) ∙ kept j body lo;
                filled = λ k lo hi. elim (Bool-cases (k == i)) [
                  | inr other ↦ rest.filled k (ground arith) hi
                  | inl same ↦
                      let e : k ≡ i = ground arith in
                      subst
                        (λ x.
                          Holds (entries_from nw nw.num_new_nodes n (i + 1) (i + 1) body').0 x
                            (nw.new_node_unique_id x) (nw.new_node_id x))
                        (sym e)
                        (Holds-eq (entries_from nw nw.num_new_nodes n (i + 1) (i + 1) body').0 body'
                          i (nw.new_node_unique_id i) (nw.new_node_id i)
                          (λ j _ top. rest.below j (omega arith)) entry)
                ];
              })
      ]
