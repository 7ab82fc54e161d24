-- ===== src/Link.antt =====
-- The link from one sender to one receiver: src/txManager.c at both ends, and a bus that loses
-- packets. The steps are calls of its functions, in any order. `b` says that the sender is the master,
-- `d` is the destination's node id and `own` the sender's.
pub mod Sender
pub mod Submission
pub mod Invariant
pub mod Delivery
pub mod Stall
pub mod Rounds
pub mod Turns
pub mod Recovery
mod Tests
use microbus.Common.{
  ℕ, ◌+◌, ◌<◌, ◌≡◌, Bool, true, false, not, ◌||◌, ◌==◌, Option, none, some, List, [], ◌∷◌, ◌++◌,
  if◌then◌else◌,
}
use microbus.Packet.{Packet, PacketEntry, max_nodes, master_data_packet}
use microbus.NodeQueue.{NodeQueue}
use microbus.TxManager.{TxManager, allocate_tx_packet, init_tx_manager}
use microbus.TxManager.Ack.{
  rx_ack_seq_num, rx_packet_check_and_update_seq_num, get_num_in_tx_buffer,
}
use microbus.TxManager.Transmit.{get_next_tx_packet_for_node}
use microbus.TxManager.Stored.{send_bytes}

-- The two managers, and what the two users have seen: the data that one submitted and the data that
-- the other got, in order.
pub record Link : Type 0 where
  pub sender : TxManager
  pub receiver : TxManager
  pub submitted : List (ℕ → ℕ)
  pub accepted : List (ℕ → ℕ)

-- The bytes of the user's data.
abbrev pub user_data : Packet → ℕ → ℕ
user_data p i = p.body (10 + i)

-- What the receiver does with a packet: it takes the packet where the sequence number is the next.
abbrev pub receive : Link → ℕ → Packet → Link
receive l own p =
    let r = rx_packet_check_and_update_seq_num l.receiver own p.tx_seq_num in
    record l {
      receiver = r.1;
      accepted = if r.0 then l.accepted ++ (user_data p ∷ []) else l.accepted;
    }

-- The user submits data, where an entry is free and fewer than 254 packets wait; the next packet to
-- send arrives, or is lost; there is none to send; the receiver's last number arrives at the sender.
pub data Step (b : Bool) (d own : ℕ) (l : Link) : Link → Type 0 where
  submit :
      (packet_type size e : ℕ) (bytes : ℕ → ℕ) {m taken : TxManager}
      → (b || not (packet_type == master_data_packet)) ≡ true
      → get_num_in_tx_buffer l.sender d < 254
      → allocate_tx_packet l.sender ≡ some (some e, taken)
      → send_bytes l.sender b own d packet_type size bytes ≡ some m
      → Step b d own l
          (record l { sender = m; submitted = l.submitted ++ ((λ i. bytes (10 + i)) ∷ []) })
  arrive :
      (e : ℕ) {m : TxManager}
      → get_next_tx_packet_for_node l.sender b d ≡ some (some e, m)
      → Step b d own l
          (receive (record l { sender = m }) own (l.sender.packet_store.entries e).packet)
  lose :
      (e : ℕ) {m : TxManager}
      → get_next_tx_packet_for_node l.sender b d ≡ some (some e, m)
      → Step b d own l (record l { sender = m })
  silent :
      {m : TxManager}
      → get_next_tx_packet_for_node l.sender b d ≡ some (none, m)
      → Step b d own l (record l { sender = m })
  acknowledge :
      (restarts freed restarts_after : ℕ) {m : TxManager}
      → rx_ack_seq_num l.sender d (l.receiver.rx_seq_num own) b restarts
        ≡ some (freed, restarts_after, m)
      → Step b d own l (record l { sender = m })

-- A master has a queue of active nodes.
abbrev pub HasQueue : Option NodeQueue → Bool → Type 0
HasQueue none b = b ≡ false
HasQueue (some q) b = Unit

-- Both managers are initialised.
abbrev pub initial :
    TxManager
    → TxManager
    → (ℕ → PacketEntry)
    → ℕ
    → ℕ
    → ℕ
    → Option NodeQueue
    → Option NodeQueue
    → Link
initial before before' entries max_entries nodes nodes' active active' = record {
  sender = init_tx_manager before nodes active max_entries entries;
  receiver = init_tx_manager before' nodes' active' max_entries entries;
  submitted = [];
  accepted = [];
}

pub data Reachable (b : Bool) (d own : ℕ) : Link → Type 0 where
  start :
      (before before' : TxManager) (entries : ℕ → PacketEntry) (max_entries nodes nodes' : ℕ)
      (active active' : Option NodeQueue)
      → d < nodes
      → own < nodes'
      → HasQueue active b
      → Reachable b d own (initial before before' entries max_entries nodes nodes' active active')
  later : {l l' : Link} → Reachable b d own l → Step b d own l l' → Reachable b d own l'

-- The ends are nodes' ids, and a node sends to the master only.
pub record Ends (b : Bool) (d own : ℕ) : Type 0 where
  pub from : own < max_nodes
  pub to : d < max_nodes
  pub to_master : (b || d == 0) ≡ true

-- Any number of steps.
pub data Steps (b : Bool) (d own : ℕ) (l : Link) : Link → Type 0 where
  done : Steps b d own l l
  next : {l' l2 : Link} → Steps b d own l l' → Step b d own l' l2 → Steps b d own l l2
