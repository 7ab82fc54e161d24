-- ===== src/Lib.antt =====
-- A verification library for microbus, a master and nodes that share one bus by time slots
-- (src/master.c, src/node.c and what they use). In every slot one of them sends: the master's
-- scheduler says who, packets go through a sliding window with acknowledgements, nodes join through
-- slots that are left to them, and leave when nothing is heard of them.
--
-- The parts, and the files that model them:
--   Packet: constants, packets and their header, src/microbus.h.
--   Ring: the macros for circular buffers, src/microbus.h.
--   Stats: the counters, src/microbus.h and src/common.c.
--   NodeQueue: the queues of node ids, src/common.c.
--   RxManager: the buffer of received packets, src/rxManager.c.
--   PacketStore: the entries of packets to send, the first part of src/txManager.c.
--   TxManager: the windows, src/txManager.c: the state, allocating, submitting and removing; Transmit:
--     what to send next; Ack: acknowledgements and the receiver's check.
--   NetworkManager: who is on the network, src/networkManager.c; Join: the packets by which nodes
--     join; NodeSide: a node's own time to live; Members: the steps by which the network changes.
--   Scheduler: who sends next, src/scheduler.c; Slots: the choice for a slot and the schedule.
--   Master: src/masterRx.c (Rx), src/masterTx.c (Tx), src/master.c (Slot, User); Run: the calls of its
--     functions in any order, with packets that arrive in between.
--   Node: src/node.c.
-- The names are those of the C code with words parted by `_`: rxAckSeqNum is rx_ack_seq_num, and
-- tTxManager is TxManager. Link has no counterpart in one file: it puts two transmit managers at the
-- ends of a bus that loses packets, and takes as its steps calls of their functions; in a round of
-- Link/Rounds nothing is lost: the next packet arrives, if there is one, and then the number that the
-- receiver sends back.
--
-- How the code is modelled. A function that changes state takes it and returns it. An assertion that
-- fails, and a read through a null pointer, is `none`: assertMessage does not return. A value stored
-- to a machine word is taken modulo its width; `uint8_t` subtraction is written out. An array is a
-- function of its index, and a pointer into an array is the index. Where a byte of a received packet
-- is an index and is none of the array, in src/masterRx.c, the model stops with `none`, since the
-- code would read or write outside of the array; the schedule's read of a sequence number at the
-- unallocated id, which is outside too, gives some value. Where parts share a queue by
-- pointers, as the scheduler does, the queue is passed in and out. Where another thread may write
-- between two reads, as in submitAllocatedTxPacket, both values read are arguments; else a call is
-- taken as a whole. The two stores of the timer to one cell are listed in order (tick_writes). Packets are bytes
-- at the positions that both layouts of the union give them, the body counted from the byte after the
-- common header; `memcpy` of a number takes the lowest byte first, as on the controllers in
-- example_usage.
--
-- Fuel. Loops over an array have as many rounds as the array has cells. The loop of
-- masterGetNextTxDataPacket comes back to its first index after as many rounds as the queue has
-- nodes. The loop of rxAckSeqNum has 256 rounds, and there are 255 sequence numbers. The loop of
-- rxManagerRemoveAllPackets has its fuel as an argument, since it need not end.
--
-- The windows are described by counters without a bound (TxManager/Window): of the packets for one
-- destination, how many were acknowledged, sent and submitted. The code keeps them modulo 255. A
-- window holds at most 254 packets; the entries of the store are what keeps it below that, so the
-- number of packets that wait is a condition where packets are submitted.
--
-- Not modelled: logging and printing; the programs of example_usage for one controller, and the tests.
pub mod Common
pub mod Packet
pub mod Ring
pub mod NodeQueue
pub mod RxManager
pub mod PacketStore
pub mod TxManager
pub mod NetworkManager
pub mod Scheduler
pub mod Stats
pub mod Link
pub mod Master
pub mod Node
