-- ===== src/Master.antt =====
-- src/master.h, src/masterRx.h, src/masterTx.h: the master's state. The functions of masterRx.c and
-- masterTx.c take pointers to parts of one `tMaster`; in the children they take it whole.
pub mod Rx
pub mod Tx
pub mod Slot
pub mod Membership
pub mod Received
pub mod Run
pub mod Sent
pub mod Served
pub mod Request
mod Tests
pub mod User
use microbus.Common.{ℕ, Bool, ◌==◌, if◌then◌else◌, Option, none, some, update}
use microbus.Packet.{Packet, TxPacket, no_packet, tmp, entry, empty_header, set_packet}
use microbus.Stats.{NodeStats}
use microbus.NodeQueue.{NodeQueue}
use microbus.RxManager.{RxPacketManager}
use microbus.TxManager.{TxManager}
use microbus.NetworkManager.{NetworkManager}
use microbus.Scheduler.{SchedulerState, Scheduler}

-- `tMasterRx`
pub record MasterRx : Type 0 where
  pub rx_packet_manager : RxPacketManager
  pub next_rx_packet_entry : ℕ
  pub prev_rx_packet_entry : Option ℕ
  pub valid_rx_packet : Bool
  pub valid_rx_seq_num : Bool

-- `tMasterTx`. A `tPacketHeader` is a packet of which only the header is used.
pub record MasterTx : Type 0 where
  pub next_tx_packet : TxPacket
  pub tmp_packet_cycle : ℕ
  pub tmp_empty_packet_header : ℕ → Packet
  pub tmp_packet : Packet
  pub master_reset_cycles : ℕ
  pub tx_manager : TxManager

-- `tMaster`. The queue `activeNodes` is in `nw_manager`, and `activeTxNodes` in the tx manager.
pub record Master : Type 0 where
  pub scheduler : SchedulerState
  pub nw_manager : NetworkManager
  pub rx : MasterRx
  pub tx : MasterTx
  pub stats : NodeStats
  pub current_tx_node_id : ℕ
  pub next_tx_node_id : ℕ → ℕ
  pub master_node_time_to_live : ℕ → ℕ
  pub node_tx_nodes : NodeQueue

-- The scheduler with the queues that its pointers point to, and the master after it.
abbrev pub scheduler_of : Master → Scheduler
scheduler_of m = record {
  state = m.scheduler;
  active_nodes = m.nw_manager.active_nodes;
  active_tx_nodes = m.tx.tx_manager.active_tx_nodes;
  node_tx_nodes = m.node_tx_nodes;
}

abbrev pub with_scheduler : Master → Scheduler → Master
with_scheduler m s = record m {
  scheduler = s.state;
  nw_manager = record (m.nw_manager) { active_nodes = s.active_nodes };
  tx = record (m.tx) {
    tx_manager = record (m.tx.tx_manager) { active_tx_nodes = s.active_tx_nodes };
  };
  node_tx_nodes = s.node_tx_nodes;
}

abbrev pub with_tx_manager : Master → TxManager → Master
with_tx_manager m manager = record m { tx = record (m.tx) { tx_manager = manager } }

abbrev pub with_rx_manager : Master → RxPacketManager → Master
with_rx_manager m rpm = record m { rx = record (m.rx) { rx_packet_manager = rpm } }

-- A read and a write through `nextTxPacket`; `none` is a null pointer.
abbrev pub tx_packet_at : MasterTx → TxPacket → Option Packet
tx_packet_at tx no_packet = none
tx_packet_at tx tmp = some tx.tmp_packet
tx_packet_at tx (entry e) = some (tx.tx_manager.packet_store.entries e).packet
tx_packet_at tx (empty_header i) = some (tx.tmp_empty_packet_header i)

abbrev pub put_tx_packet : MasterTx → TxPacket → Packet → MasterTx
put_tx_packet tx no_packet p = tx
put_tx_packet tx tmp p = record tx { tmp_packet = p }
put_tx_packet tx (entry e) p = record tx {
  tx_manager = record (tx.tx_manager) {
    packet_store = record (tx.tx_manager.packet_store) {
      entries = set_packet tx.tx_manager.packet_store.entries e p;
    };
  };
}
put_tx_packet tx (empty_header i) p = record tx {
  tmp_empty_packet_header = update tx.tmp_empty_packet_header i p;
}
