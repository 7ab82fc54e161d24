-- ===== src/Link/Turns.antt =====
-- The cases of one round of a link: what the call for the next packet and the acknowledgement that
-- follows come to together.
use microbus.Common.{ℕ, suc, ◌+◌, ◌<◌, ◌≡◌, ◌⊎◌, inl, inr, arith}
use microbus.TxManager.AckSeqNum.{Progress, newly, unchanged, again, wait}
use microbus.Link.{Link}
use microbus.Link.Rounds.{pause, Sent, waits, pauses, sends}

-- The sender is not ahead: one more packet is accepted and acknowledged.
pub even_turn :
    (l l1 l2 : Link) {d r s n1 r1 n2 : ℕ}
    → pause l d ≡ 0
    → r < s
    → Sent l l1 d r r s r n1 r1
    → Progress l1.sender l2.sender d r n1 r1 n2
    → (n2 ≡ r1) × (r1 ≡ r + 1) × (pause l2 d ≡ 0)
even_turn l l1 l2 idle lt (waits (inl busy) en er ep) second = absurd (omega arith)
even_turn l l1 l2 idle lt (waits (inr none_left) en er ep) second = absurd (omega arith)
even_turn l l1 l2 idle lt (pauses _ (inl none_left) en er ep) second = absurd (omega arith)
even_turn l l1 l2 idle lt (pauses _ (inr closed) en er ep) second = absurd (omega arith)
even_turn l l1 l2 idle lt (sends _ more en er ep) (newly grew e quiet) = ground arith
even_turn l l1 l2 idle lt (sends _ more en er ep) (unchanged e _ _ _) = absurd (ground arith)
even_turn l l1 l2 idle lt (sends _ more en er ep) (again e _ _ _ _) = absurd (ground arith)
even_turn l l1 l2 idle lt (sends _ more en er ep) (wait e _ _ _ _) = absurd (ground arith)

-- The sender waits: it waits for one less, or goes back.
pub waiting_turn :
    (l l1 l2 : Link) {d r s n p n1 r1 n2 : ℕ}
    → pause l d ≡ suc p
    → 0 < r
    → r < s
    → Sent l l1 d r n s r n1 r1
    → Progress l1.sender l2.sender d r n1 r1 n2
    → (r1 ≡ r) × (((p ≡ 0) × (n2 ≡ r) × (pause l2 d ≡ 0)) ⊎ (0 < p) × (n2 ≡ n) × (pause l2 d ≡ p))
waiting_turn l l1 l2 busy pos lt (pauses idle _ _ _ _) second = absurd (omega arith)
waiting_turn l l1 l2 busy pos lt (sends idle _ _ _ _) second = absurd (omega arith)
waiting_turn l l1 l2 busy pos lt (waits _ en er ep) (newly grew _ _) = absurd (omega arith)
waiting_turn l l1 l2 busy pos lt (waits _ en er ep) (unchanged _ (inl none_yet) _ _) =
    absurd (omega arith)
waiting_turn l l1 l2 busy pos lt (waits _ en er ep) (unchanged _ (inr idle) _ _) =
    absurd (omega arith)
waiting_turn l l1 l2 busy pos lt (waits _ en er ep) (again _ _ one e quiet) =
    (er, inl (omega arith, e, quiet))
waiting_turn l l1 l2 busy pos lt (waits _ en er ep) (wait _ _ long e left) =
    (er, inr (omega arith, omega arith, omega arith))

-- The sender is ahead of what the receiver accepts: it goes on, or begins to wait.
pub ahead_turn :
    (l l1 l2 : Link) {d r s n n1 r1 n2 : ℕ}
    → pause l d ≡ 0
    → 0 < r
    → r < s
    → r < n
    → Sent l l1 d r n s r n1 r1
    → Progress l1.sender l2.sender d r n1 r1 n2
    → (r1 ≡ r) × (((n < s) × (n2 ≡ n + 1) × (pause l2 d ≡ 0)) ⊎ (n2 ≡ n) × (pause l2 d ≡ 1))
ahead_turn l l1 l2 idle pos lt past (waits (inl busy) en er ep) second = absurd (omega arith)
ahead_turn l l1 l2 idle pos lt past (waits (inr none_left) en er ep) second = absurd (omega arith)
ahead_turn l l1 l2 idle pos lt past (pauses _ _ en er ep) (newly grew _ _) = absurd (omega arith)
ahead_turn l l1 l2 idle pos lt past (pauses _ _ en er ep) (unchanged _ (inl none_yet) _ _) =
    absurd (omega arith)
ahead_turn l l1 l2 idle pos lt past (pauses _ _ en er ep) (unchanged _ (inr quiet) _ _) =
    absurd (omega arith)
ahead_turn l l1 l2 idle pos lt past (pauses _ _ en er ep) (again _ _ one _ _) = absurd (omega arith)
ahead_turn l l1 l2 idle pos lt past (pauses _ _ en er ep) (wait _ _ long e left) =
    (er, inr (omega arith, omega arith))
ahead_turn l l1 l2 idle pos lt past (sends _ more en er ep) (newly grew _ _) = absurd (ground arith)
ahead_turn l l1 l2 idle pos lt past (sends _ more en er ep) (unchanged _ _ e left) =
    (ground arith, inl (more, omega arith, omega arith))
ahead_turn l l1 l2 idle pos lt past (sends _ more en er ep) (again _ _ one _ _) =
    absurd (omega arith)
ahead_turn l l1 l2 idle pos lt past (sends _ more en er ep) (wait _ _ long _ _) =
    absurd (omega arith)
