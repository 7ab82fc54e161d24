-- ===== src/NodeQueue/Laws.antt =====
-- The node queue of src/common.c against a list without duplicates.
use microbus.Common.{
  ℕ, zero, suc, ◌+◌, ◌-◌, ◌≤◌, ◌<◌, ◌≡◌, ◌⊎◌, inl, inr, refl, sym, ap, ap₂, ◌∙◌, true, false, ◌&&◌,
  List, [], ◌∷◌, ◌++◌, ltb, leb, if◌then◌else◌, lt→ltb, ltb→le, u8, none, some, update, cells,
  cells-eq, cells-suc, contains, erase, Nodup, Nodup-append, Nodup-erase, erase_of_not_contains,
  length, length-erase, length-append, length-cells, Option-cases, Bool-cases, arith,
}
use microbus.Packet.{max_nodes}
use microbus.NodeQueue.{
  NodeQueue, find_from, shift_from, remove_at, node_queue_add, node_queue_remove_if_exists,
  node_queue_remove, ids,
}

-- The representation invariant of a queue.
pub record IsValid (q : NodeQueue) : Type 0 where
  pub fits : q.num_nodes ≤ max_nodes
  pub last : (q.last_index ≡ 0) ⊎ (q.last_index < q.num_nodes)
  pub distinct : Nodup (ids q)

-- What the search loop finds.
pub find_none :
    (f : ℕ → ℕ) (a n i : ℕ) → find_from f a n i ≡ none → contains a (cells f i n) ≡ false
unfolding find_from
find_none f a zero i h = refl
find_none f a (suc n) i h = ground (arith, find_none f a n (i + 1))

pub find_some :
    (f : ℕ → ℕ) (a n i : ℕ) {p : ℕ}
    → find_from f a n i ≡ some p
    → (i ≤ p) × (p < i + n) × (contains a (cells f i n) ≡ true)
unfolding find_from
find_some f a zero i h = cc
find_some f a (suc n) i {p} h = ground (arith, find_some f a n (i + 1) {p = p})

-- The shift loop copies each cell of its range from the next one.
pub shift_from_lem :
    (n i : ℕ) (f : ℕ → ℕ) (j : ℕ)
    → shift_from n i f j ≡ (if leb i j && ltb j (i + n) then f (j + 1) else f j)
unfolding shift_from
shift_from_lem zero i f j = ground arith
shift_from_lem (suc n) i f j = ground (arith, shift_from_lem n (i + 1) (update f i (f (i + 1))) j)

shift_all : (f : ℕ → ℕ) (n i m : ℕ) → m ≡ n → cells (shift_from m i f) i n ≡ cells f (i + 1) n
shift_all f n i m e =
    cells-eq (shift_from m i f) f 1 i n (λ j lo hi. ground (arith, shift_from_lem m i f j))

shift-erase :
    (f : ℕ → ℕ) (a n i p m : ℕ)
    → find_from f a (suc n) i ≡ some p
    → m + p ≡ i + n
    → cells (shift_from m p f) i n ≡ erase a (cells f i (suc n))
unfolding find_from
shift-erase f a zero i p m h e = ground arith
shift-erase f a (suc n) i p m h e = ground (
  arith,
  shift_all f (suc n) i m,
  find_some f a (suc n) (i + 1) {p = p},
  shift-erase f a n (i + 1) p m,
  shift_from_lem m p f i,
)

cells-update : (f : ℕ → ℕ) (n a : ℕ) → cells (update f n a) 0 (suc n) ≡ cells f 0 n ++ (a ∷ [])
cells-update f n a =
    cells-suc (update f n a) 0 n
    ∙ ap₂ (λ l x. l ++ (x ∷ [])) (cells-eq (update f n a) f 0 0 n (λ j lo hi. ground arith))
        (ground arith)

cells-remove :
    (f : ℕ → ℕ) (a num p : ℕ)
    → find_from f a num 0 ≡ some p
    → cells (shift_from (num - 1 - p) p f) 0 (num - 1) ≡ erase a (cells f 0 num)
unfolding find_from
cells-remove f a zero p h = cc
cells-remove f a (suc n) p h =
    let e : suc n - 1 ≡ n = omega arith in
    rw e (shift-erase f a n 0 p (n - p) h (omega (arith, find_some f a (suc n) 0 h)))

-- nodeQueueAdd of an id to a queue with room for one more does not fail: an id that is in the queue
-- already leaves the queue as it is, any other is put at its end, and the position of the next node
-- to schedule stays.
pub queue_add_refines :
    (q : NodeQueue) (a : ℕ)
    → q.num_nodes < max_nodes
    → (r : NodeQueue) × (node_queue_add q a ≡ some r)
      × (ids r ≡ (if contains a (ids q) then ids q else ids q ++ (a ∷ [])))
      × (r.last_index ≡ q.last_index)
unfolding node_queue_add
queue_add_refines q a h = elim (Option-cases (find_from q.node_ids a q.num_nodes 0)) [
  | inl e ↦ (
    record q { node_ids = update q.node_ids q.num_nodes a; num_nodes = u8 (q.num_nodes + 1) },
    rw (lt→ltb _ _ h, e),
    rw (find_none q.node_ids a q.num_nodes 0 e, len) (cells-update q.node_ids q.num_nodes a),
    refl,
  )
  | inr (p, e) ↦ (q, rw (lt→ltb _ _ h, e), rw ((find_some q.node_ids a q.num_nodes 0 e).2), refl)
]
  where
    len : u8 (q.num_nodes + 1) ≡ suc q.num_nodes
    len = omega arith

pub ids-remove : (q : NodeQueue) (a : ℕ) → ids (node_queue_remove_if_exists q a) ≡ erase a (ids q)
unfolding node_queue_remove_if_exists
ids-remove q a = elim (Bool-cases (ltb 0 q.num_nodes)) [
  | inl pos ↦ elim (Option-cases (find_from q.node_ids a q.num_nodes 0)) [
    | inl e ↦
        rw (pos, e) (sym (erase_of_not_contains a (ids q) (find_none q.node_ids a q.num_nodes 0 e)))
    | inr (p, e) ↦ rw (pos, e) (unfold remove_at in cells-remove q.node_ids a q.num_nodes p e)
  ]
  | inr z ↦
      let e : q.num_nodes ≡ 0 = omega (arith, ltb→le _ _ z) in
      rw z (sym (erase_of_not_contains a (ids q) (rw e refl)))
]

-- nodeQueueRemoveIfExists takes the id out of the queue and keeps the order of the others; of an id
-- that is not in the queue, it leaves the whole queue as it is; of an id that is, it leaves the
-- position of the next node to schedule, or, where that is not a position any more, resets it to 0.
pub queue_remove_refines :
    (q : NodeQueue) (a : ℕ)
    → (ids (node_queue_remove_if_exists q a) ≡ erase a (ids q))
      × (((contains a (ids q) ≡ false) × (node_queue_remove_if_exists q a ≡ q))
          ⊎ ((contains a (ids q) ≡ true)
              × ((node_queue_remove_if_exists q a).last_index
                  ≡ (if leb (q.num_nodes - 1) q.last_index then 0 else q.last_index))))
unfolding node_queue_remove_if_exists
queue_remove_refines q a = (
  ids-remove q a,
  elim (Bool-cases (ltb 0 q.num_nodes)) [
    | inl pos ↦ elim (Option-cases (find_from q.node_ids a q.num_nodes 0)) [
      | inl e ↦
          inl
            (find_none q.node_ids a q.num_nodes 0 e, rw (pos, e, node_queue_remove_if_exists) refl)
      | inr (p, e) ↦ inr (
        (find_some q.node_ids a q.num_nodes 0 {p = p} e).2,
        rw (pos, e, node_queue_remove_if_exists) (unfold remove_at in ground arith),
      )
    ]
    | inr z ↦
        let e : q.num_nodes ≡ 0 = omega (arith, ltb→le _ _ z) in
        inl (rw e refl, rw (z, node_queue_remove_if_exists) refl)
  ],
)

pub length-ids : (q : NodeQueue) → length (ids q) ≡ q.num_nodes
length-ids q = length-cells q.node_ids 0 q.num_nodes

removed_num :
    (q : NodeQueue) (a : ℕ)
    → q.num_nodes ≡ (
        if contains a (ids q)
        then (node_queue_remove_if_exists q a).num_nodes + 1
        else (node_queue_remove_if_exists q a).num_nodes)
removed_num q a = ground (
  arith,
  length-ids q,
  length-ids (node_queue_remove_if_exists q a),
  ap (length {0}) (ids-remove q a),
  length-erase a (ids q),
)

removed_num-le : (q : NodeQueue) (a : ℕ) → (node_queue_remove_if_exists q a).num_nodes ≤ q.num_nodes
removed_num-le q a = ground (arith, removed_num q a)

ids-IsValid :
    (r : NodeQueue) (l : List ℕ)
    → ids r ≡ l
    → Nodup l
    → length l ≤ max_nodes
    → (r.last_index ≡ 0) ⊎ (r.last_index < length l)
    → IsValid r
ids-IsValid r l e d n last = record {
  fits = omega (arith, length-ids r, ap (length {0}) e);
  last = omega (arith, length-ids r, ap (length {0}) e);
  distinct = rw e d;
}

-- nodeQueueAdd to a valid queue with room for one more leaves a valid queue.
pub queue_add-IsValid :
    (q : NodeQueue) (a : ℕ) {r : NodeQueue}
    → q.num_nodes < max_nodes
    → IsValid q
    → node_queue_add q a ≡ some r
    → IsValid r
queue_add-IsValid q a {r} h v e =
    let (r', e', same, last) = queue_add_refines q a h in
    let eq : r' ≡ r = cc in
    let kept : r.last_index ≡ q.last_index = cc in
    elim (Bool-cases (contains a (ids q))) [
      | inl t ↦
          ids-IsValid r (ids q) (ap ids (sym eq) ∙ same ∙ rw t) v.distinct
            (omega (arith, length-ids q)) (omega (arith, length-ids q))
      | inr f ↦
          ids-IsValid r (ids q ++ (a ∷ [])) (ap ids (sym eq) ∙ same ∙ rw f)
            (Nodup-append a (ids q) f v.distinct)
            (omega (arith, length-ids q, length-append (ids q) (a ∷ [])))
            (omega (arith, length-ids q, length-append (ids q) (a ∷ [])))
    ]

-- nodeQueueRemoveIfExists of any id leaves a valid queue valid.
pub queue_remove-IsValid :
    (q : NodeQueue) (a : ℕ) → IsValid q → IsValid (node_queue_remove_if_exists q a)
queue_remove-IsValid q a v = record {
  fits = omega (arith, removed_num-le q a);
  last = unfold node_queue_remove_if_exists remove_at in ground arith;
  distinct = rw (ids-remove q a) (Nodup-erase a (ids q) v.distinct);
}

-- nodeQueueRemove does not stop exactly when the id is in the queue, and then does what
-- nodeQueueRemoveIfExists does.
pub queue_remove_present :
    (q : NodeQueue) (a : ℕ)
    → node_queue_remove q a
      ≡ (if contains a (ids q) then some (node_queue_remove_if_exists q a) else none)
unfolding node_queue_remove
queue_remove_present q a = ground (arith, removed_num q a)
