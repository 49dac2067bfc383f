-- ===== src/Ran.antt =====
-- src/ue_engine/ue_ran_transport.c and .h: the transport of RLS messages over UDP.
-- State has its types, Queue the receive queues, Cells the cell table, Receive and Send what goes
-- over the socket, Control the operations on the whole; the others are about them.
pub mod State
pub mod Queue
pub mod Cells
pub mod Send
pub mod Receive
pub mod Control
pub mod Fifo
pub mod Best
pub mod Invariant
pub mod Heard
pub mod Traffic
pub mod Events
pub mod Ticks
pub mod Reach
pub mod Delivery
pub mod Ages
mod Tests
