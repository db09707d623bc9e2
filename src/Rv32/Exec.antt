-- ===== src/Rv32/Exec.antt =====
-- The cases of the switch over the opcode in `rv32ima_step`.
mod Jumps
mod Memory
pub mod Reservation
mod System
unfoldable pub use Jumps.*
unfoldable pub use Memory.*
unfoldable pub use System.*
