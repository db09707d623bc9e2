-- ===== src/Sbi.antt =====
-- OS_Spring_2026/course_3/opensbi/lib/sbi: parts of the firmware's library.
pub mod Word64
pub mod Status
pub mod Fifo
pub mod Heap
pub mod Hsm
pub mod Text
pub mod Domain
pub mod Tlb
pub mod Fwft
pub mod Ecall
