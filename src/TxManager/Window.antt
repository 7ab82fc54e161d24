-- ===== src/TxManager/Window.antt =====
-- The sliding window of src/txManager.c by unbounded counters: of the packets for one destination,
-- `a` is the number of the first that is not acknowledged, `n` that of the next to send, and `s` how
-- many were submitted. The code keeps them modulo 255.
use microbus.Common.{ℕ, ◌+◌, ◌%◌, ◌≤◌, ◌<◌, ◌≡◌, Bool, true, leb, ◌==◌, if◌then◌else◌, arith}
use microbus.Packet.{Packet, null_sequence_num}
use microbus.PacketStore.Laws.{Keeps}
use microbus.TxManager.{TxManager, incr_sequence_num}
use microbus.TxManager.Transmit.{next_in_range}
use microbus.TxManager.Ack.{valid_seq_num, rx_packet_check_and_update_seq_num}

-- The sender's side: the counters, and the store keeps the packets `a`, …, `s - 1` of `log`.
pub record Sends (m : TxManager) (b : Bool) (d a n s : ℕ) (log : ℕ → Packet) : Type 0 where
  pub start : m.tx_seq_num_start d ≡ a % 255
  pub next : m.tx_seq_num_next d ≡ n % 255
  pub end : m.tx_seq_num_end d ≡ s % 255
  pub started : a ≤ n
  pub bounded : n ≤ s
  pub keeps : Keeps m.packet_store b d a s log

-- The receiver's side: it has accepted `r` packets from `src`.
abbrev pub last_accepted : ℕ → ℕ
last_accepted r = if r == 0 then null_sequence_num else (r + 254) % 255

pub record Receives (m : TxManager) (src r : ℕ) : Type 0 where
  pub last : m.rx_seq_num src ≡ last_accepted r

pub incr_counter : (n : ℕ) → incr_sequence_num (n % 255) ≡ (n + 1) % 255
unfolding incr_sequence_num
incr_counter n = ground arith

pub counter_in_range :
    (a n s : ℕ) → a ≤ n → n ≤ s → s ≤ a + 254 → next_in_range (a % 255) (s % 255) (n % 255) ≡ true
counter_in_range a n s h k few = ground arith

-- The test of rxAckSeqNum passes exactly at the numbers of the packets that wait for an
-- acknowledgement.
pub valid_counter :
    (a k s : ℕ)
    → a ≤ k + 1
    → k < s
    → s ≤ a + 254
    → valid_seq_num (a % 255) (s % 255) (k % 255) ≡ leb a k
valid_counter a k s h lt few = ground arith

-- rxPacketCheckAndUpdateSeqNum accepts the packet with number `n`, from a sender whose count differs
-- by at most 254 from that of the packets accepted so far, exactly if it is the next one, and counts
-- it then.
pub accept_next :
    (m : TxManager) (src r n : ℕ)
    → Receives m src r
    → n ≤ r + 254
    → r ≤ n + 254
    → ((rx_packet_check_and_update_seq_num m src (n % 255)).0 ≡ (n == r))
      × Receives
          (rx_packet_check_and_update_seq_num m src (n % 255)).1
          src
          (if n == r then r + 1 else r)
unfolding rx_packet_check_and_update_seq_num incr_sequence_num
accept_next m src r n h lo hi = ground (arith, h.last)
