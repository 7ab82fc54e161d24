-- ===== src/TxManager/Ack.antt =====
-- src/txManager.c: what an acknowledgement does to the sender's window, and the receiver's check of
-- sequence numbers.
use microbus.Common.{
  ℕ, zero, suc, ◌+◌, ◌-◌, Bool, true, false, ◌&&◌, ◌||◌, ltb, leb, ◌==◌, if◌then◌else◌, Option,
  none, some, ◌>>=◌, update, u8, u64, sub8,
}
use microbus.Packet.{null_sequence_num}
use microbus.NodeQueue.{node_queue_remove}
use microbus.PacketStore.{PacketStore, free_packet}
use microbus.TxManager.{TxManager, incr_sequence_num}

-- The test of `rxAckSeqNum` for a sequence number in the range that is being sent
abbrev pub valid_seq_num : ℕ → ℕ → ℕ → Bool
valid_seq_num start end ack_seq_num =
    if ltb end start
    then leb start ack_seq_num || ltb ack_seq_num end
    else leb start ack_seq_num && ltb ack_seq_num end

-- What the loop of `rxAckSeqNum` changes: the store, `*next` and `packetsFreed`.
pub record Freed : Type 0 where
  pub store : PacketStore
  pub next : ℕ
  pub packets_freed : ℕ

-- The loop of `rxAckSeqNum`, with fuel; `none` is a failed assertion, or that the fuel ran out.
unfoldable pub free_acked : ℕ → ℕ → Bool → ℕ → ℕ → Freed → Option Freed
free_acked zero node_id is_master new_start seq_num freed = none
free_acked (suc fuel) node_id is_master new_start seq_num freed = elim (seq_num == new_start) [
  | true ↦ some freed
  | false ↦ elim (free_packet freed.store node_id seq_num is_master) [
    | none ↦ none
    | some store ↦ free_acked fuel node_id is_master new_start (incr_sequence_num seq_num) (record {
      store = store;
      next = if seq_num == freed.next then new_start else freed.next;
      packets_freed = u8 (freed.packets_freed + 1);
    })
  ]
]

-- `rxAckSeqNum` of a sequence number that is in the range being sent. There are at most 255 sequence
-- numbers to free.
unfoldable pub ack_valid : TxManager → ℕ → ℕ → Bool → Option (ℕ × TxManager)
unfolding free_acked
ack_valid manager src_node_id ack_seq_num is_master =
    let start = manager.tx_seq_num_start src_node_id in
    let new_start = incr_sequence_num ack_seq_num in
    do
      freed ← free_acked 256 src_node_id is_master new_start start (record {
        store = manager.packet_store;
        next = manager.tx_seq_num_next src_node_id;
        packets_freed = 0;
      })
      queue ←
          (if (new_start == manager.tx_seq_num_end src_node_id) && is_master
            then (do
              q ← manager.active_tx_nodes
              r ← node_queue_remove q src_node_id
              some (some r))
            else some manager.active_tx_nodes)
      some (
        freed.packets_freed,
        record manager {
          packet_store = freed.store;
          tx_seq_num_next = update manager.tx_seq_num_next src_node_id freed.next;
          tx_seq_num_start = update manager.tx_seq_num_start src_node_id new_start;
          tx_seq_num_pause_count = update manager.tx_seq_num_pause_count src_node_id 0;
          active_tx_nodes = queue;
        },
      )

-- `rxAckSeqNum` of any other sequence number, with the counter of restarts
unfoldable pub ack_invalid : TxManager → ℕ → ℕ → ℕ × TxManager
ack_invalid manager src_node_id restarts =
    let pause = manager.tx_seq_num_pause_count src_node_id in
    if ltb 0 pause
    then (if pause - 1 == 0
        then (
          u64 (restarts + 1),
          record manager {
            tx_seq_num_pause_count = update manager.tx_seq_num_pause_count src_node_id (pause - 1);
            tx_seq_num_next =
                update manager.tx_seq_num_next src_node_id (manager.tx_seq_num_start src_node_id);
          },
        )
        else (
          restarts,
          record manager {
            tx_seq_num_pause_count = update manager.tx_seq_num_pause_count src_node_id (pause - 1);
          },
        ))
    else (restarts, manager)

-- `rxAckSeqNum`: the packets freed, the counter of window restarts and the manager after it
unfoldable pub rx_ack_seq_num : TxManager → ℕ → ℕ → Bool → ℕ → Option (ℕ × ℕ × TxManager)
rx_ack_seq_num manager src_node_id ack_seq_num is_master restarts =
    let start = manager.tx_seq_num_start src_node_id in
    let end = manager.tx_seq_num_end src_node_id in
    if ack_seq_num == null_sequence_num
    then some (0, restarts, manager)
    else if valid_seq_num start end ack_seq_num
    then (do r ← ack_valid manager src_node_id ack_seq_num is_master; some (r.0, restarts, r.1))
    else (let r = ack_invalid manager src_node_id restarts in some (0, r.0, r.1))

-- `rxPacketCheckAndUpdateSeqNum`
unfoldable pub rx_packet_check_and_update_seq_num : TxManager → ℕ → ℕ → Bool × TxManager
rx_packet_check_and_update_seq_num manager src_node_id packet_tx_seq_num =
    let last = manager.rx_seq_num src_node_id in
    let expected = if last == null_sequence_num then 0 else incr_sequence_num last in
    if packet_tx_seq_num == expected
    then (
      true,
      record manager { rx_seq_num = update manager.rx_seq_num src_node_id packet_tx_seq_num },
    )
    else (false, manager)

-- `getNumInTxBuffer`
unfoldable pub get_num_in_tx_buffer : TxManager → ℕ → ℕ
get_num_in_tx_buffer manager dst_node_id =
    sub8 (manager.tx_seq_num_end dst_node_id) (manager.tx_seq_num_start dst_node_id)
