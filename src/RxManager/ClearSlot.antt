-- ===== src/RxManager/ClearSlot.antt =====
-- One round of the loop of rxManagerRemoveAllPackets of src/rxManager.c against the list of slots.
use microbus.Common.{
  ℕ, zero, suc, ◌+◌, ◌<◌, ◌≡◌, inl, inr, refl, ap, ap₂, ◌∙◌, ◌&&◌, ltb, leb, ◌==◌, if◌then◌else◌,
  Option, none, some, List, [], ◌∷◌, cells, Bool-cases, Option-cases, arith,
}
use microbus.RxManager.{RxPacketManager, src_node_id, clear_slot}
use microbus.RxManager.Queue.{place, slot}

-- A slot without the packets of a node.
abbrev pub without_node : RxPacketManager → ℕ → Option ℕ → Option ℕ
without_node rpm node_id none = none
without_node rpm node_id (some e) = if src_node_id rpm e == node_id then none else some e

abbrev pub all_without : RxPacketManager → ℕ → List (Option ℕ) → List (Option ℕ)
all_without rpm node_id [] = []
all_without rpm node_id (x ∷ xs) = without_node rpm node_id x ∷ all_without rpm node_id xs

pub cells-without :
    (rpm : RxPacketManager) (node_id i n : ℕ) (f : ℕ → Option ℕ)
    → cells (λ k. without_node rpm node_id (f k)) i n ≡ all_without rpm node_id (cells f i n)
cells-without rpm node_id i zero f = refl
cells-without rpm node_id i (suc n) f =
    ap (λ l. without_node rpm node_id (f i) ∷ l) (cells-without rpm node_id (i + 1) n f)

-- What one round leaves.
pub record Keeps (rpm rpm' : RxPacketManager) : Type 0 where
  pub end : rpm'.end ≡ rpm.end
  pub start : rpm'.start ≡ rpm.start
  pub size : rpm'.max_rx_packet_entries ≡ rpm.max_rx_packet_entries
  pub source : (e : ℕ) → src_node_id rpm' e ≡ src_node_id rpm e

pub clear_slot-Keeps :
    (node_id i : ℕ) (rpm : RxPacketManager) → Keeps rpm (clear_slot node_id i rpm)
unfolding clear_slot
clear_slot-Keeps node_id i rpm = elim (Option-cases (rpm.rx_packet_queue i)) [
  | inl empty ↦ record {
    end = ground arith;
    start = ground arith;
    size = ground arith;
    source = λ e'. ground arith;
  }
  | inr (e, full) ↦ record {
    end = ground arith;
    start = ground arith;
    size = ground arith;
    source = λ e'. ground arith;
  }
]

clear_slot_queue :
    (node_id i j : ℕ) (rpm : RxPacketManager)
    → (clear_slot node_id i rpm).rx_packet_queue j
      ≡ (if j == i then without_node rpm node_id (rpm.rx_packet_queue j) else rpm.rx_packet_queue j)
unfolding clear_slot
clear_slot_queue node_id i j rpm = elim (Bool-cases (j == i)) [
  | inl same ↦
      let eq : j ≡ i = ground arith in
      elim (Option-cases (rpm.rx_packet_queue i)) [
        | inl empty ↦ ground arith
        | inr (e, full) ↦ ground arith
      ]
  | inr other ↦ elim (Option-cases (rpm.rx_packet_queue i)) [
    | inl empty ↦ rw (empty, other, clear_slot) refl
    | inr (e, full) ↦ ground arith
  ]
]

place_differ :
    (size start j k : ℕ)
    → start < size
    → j < size
    → k < size
    → (place size start j == place size start k) ≡ (j == k)
place_differ size start j k hs hj hk = ground arith

pub without_node-Keeps :
    (rpm rpm' : RxPacketManager) (node_id : ℕ) (x : Option ℕ)
    → Keeps rpm rpm'
    → without_node rpm' node_id x ≡ without_node rpm node_id x
without_node-Keeps rpm rpm' node_id none h = refl
without_node-Keeps rpm rpm' node_id (some e) h =
    ap (λ s. if s == node_id then none else some e) (h.source e)

pub slot-clear_slot :
    (node_id k j : ℕ) (rpm : RxPacketManager)
    → rpm.start < rpm.max_rx_packet_entries
    → j < rpm.max_rx_packet_entries
    → k < rpm.max_rx_packet_entries
    → slot (clear_slot node_id (place rpm.max_rx_packet_entries rpm.start k) rpm) j
      ≡ (if j == k then without_node rpm node_id (slot rpm j) else slot rpm j)
slot-clear_slot node_id k j rpm hs hj hk =
    let at : ℕ = place rpm.max_rx_packet_entries rpm.start k in
    let kept = clear_slot-Keeps node_id at rpm in
    ap₂ (λ s f. (clear_slot node_id at rpm).rx_packet_queue (place s f j)) kept.size kept.start
    ∙ clear_slot_queue node_id at (place rpm.max_rx_packet_entries rpm.start j) rpm
    ∙ ap (λ b. if b then without_node rpm node_id (slot rpm j) else slot rpm j)
        (place_differ rpm.max_rx_packet_entries rpm.start j k hs hj hk)

pub pick :
    {A : Type 0} (w : A → A) (x : A) (j k n : ℕ)
    → (if leb (k + 1) j && ltb j (k + 1 + n)
        then w (if j == k then w x else x)
        else (if j == k then w x else x))
      ≡ (if leb k j && ltb j (k + suc n) then w x else x)
pick w x j k n = elim (Bool-cases (j == k)) [ inl here ↦ ground arith | inr other ↦ ground arith ]
