-- ===== src/Rv32.antt =====
-- OS_Spring_2026/course_2/mini-rv32ima/mini-rv32ima.h: an emulator of RV32IMA, one instruction to a
-- call of `rv32ima_step`. (OS_Spring_2026/course_5/crazy-os/mini-rv32ima.h is the same text.)
pub mod Words
pub mod State
pub mod Decode
pub mod Alu
pub mod Bytes
pub mod Exec
pub mod Step
mod Tests
