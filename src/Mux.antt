-- ===== src/Mux.antt =====
-- lib/natpunch_mux: many logical connections over one bridge connection.
mod Tests
pub mod Dequeue
pub mod Chain
pub mod Frame
pub mod Priority
pub mod Window
pub mod SendWindow
pub mod ReceiveQueue
pub mod ReceiveWindow
pub mod ConnMap
pub mod Bucket
pub mod Conn
pub mod Session
