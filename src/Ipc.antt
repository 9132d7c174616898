-- ===== src/Ipc.antt =====
-- Interprocess communication, kernel/ipc/ipc.c.
pub mod Queue
pub mod Registry
pub mod Handles
pub mod Calls
pub mod Sound
pub mod Messages
pub mod Grants
pub mod Delivery
pub mod Ends
