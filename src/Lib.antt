-- ===== src/Lib.antt =====
-- The programs of this repository, and the theorems that make them correct. Paths are from the
-- repository's root.
--
-- Prelude: shared helpers. Numbers, lists and options over the native ℕ, Boolean tests.
--
-- Hanoi (OS_Spring_2026/course_2/hanoi-nr): the tower of Hanoi three times over. Hanoi.Recursive is
-- hanoi-r.c, Hanoi.Machine hanoi-nr.c (frames with a pc), Hanoi.ForLoop hanoi_forloop.c (frames with
-- a stage). Both loops run on fuel, the number of rounds: `rounds n` is the count for n disks, and
-- `rounds n + 1` is enough: it is one round more than the work takes. Their arrays of frames are lists
-- with a largest length, and a push past it is a fault. An int that counts moves wraps round at 32 bits;
-- C does not define its overflow, which begins at 32 disks, so the results on it are for up to 31.
-- Hanoi.Pegs says what a printed line means: a move of one disk between pegs. The first two programs
-- print the same text for it and their output is a list of moves; the third prints another text, and its
-- output is the characters.
--
-- Rv32 (OS_Spring_2026/course_2/mini-rv32ima/mini-rv32ima.h, with the same text in
-- course_5/crazy-os): the emulator. `rv32ima_step` is one function of the source; here each case of
-- its switch is a function from the state and the locals to a `Flow`, which goes on (`break`) or
-- leaves (`return`), and Step puts them together. uint32_t is ℕ with the wrap-around written out.
-- Memory is a function from the offset to the byte.
--
-- CrazyOs (OS_Spring_2026/course_5/crazy-os/crazy-os.c): processes that each run on an emulator of
-- their own, in turn. A state is the processes, the turn and what was written to `stdout`; `none` is
-- an access outside `procs`. The endless loop of `main` is cut after any number of rounds.
--
-- Sbi (OS_Spring_2026/course_3/opensbi): parts of OpenSBI's lib/sbi. Sbi.Status is the
-- values SBI_* of include/sbi/sbi_error.h. Sbi.Fifo is lib/sbi/sbi_fifo.c: an entry is a value of any
-- type, so the switch on `entry_size` is one write; the lock is a Boolean that says who holds it.
-- Sbi.Heap is lib/sbi/sbi_heap.c: its lists of blocks, and the list of free nodes as a number. Sbi.Hsm
-- is lib/sbi/sbi_hsm.c: the state of a hart, with what the platform and the domains answer as an
-- argument; a function that does not return gives where the hart goes. Calls of both are taken one
-- after the other, without their locks; Hsm.Steps says where each may take a hart. Sbi.Text is
-- lib/sbi/sbi_string.c on a memory that is a function; the loops that only a NUL ends run on fuel, and
-- more than the length of the text is enough.
--
-- Sbi.Domain is lib/sbi/sbi_domain.c with log2roundup of sbi_math.c: the regions of a domain are a
-- list without the region of order 0 that ends the array, and a domain or a region is known by a
-- number for its address. A shift of 1UL by 64, which C leaves open, is that of RISC-V. The check of a
-- range runs on fuel; more rounds than the range has bytes are enough. Range is the check of a range,
-- Order the sort, Sanitize and Assign are sanitize_domain and sbi_domain_register, whose setup of the
-- domains' data is an argument.
--
-- Sbi.Tlb is lib/sbi/sbi_tlb.c on the fifos of Sbi.Fifo: requests, their merge with those that wait
-- (Merge), the fences that a hart executes for one (Local), and the harts with their fifos and counts
-- (Harts). The loop over pages runs on fuel; one test more than there are pages is enough. What
-- sbi_ipi_send_many returns is an argument.
--
-- Sbi.Fwft is lib/sbi/sbi_fwft.c on 64 bits: the configurations of a hart and the two registers that the
-- features stand in (Csr). What a hart makes of a value written to medeleg or to the field PMM of
-- menvcfg is an argument. Runs has calls in sequence, Unread a hart that takes no delegation; Init
-- is sbi_fwft_init, with the outcomes of its two allocations as arguments.
--
-- Sbi.Ecall is lib/sbi/sbi_ecall.c: the table of extensions as a list, an extension with its address,
-- and the handler of calls, where the handlers of the extensions are arguments that also change the
-- rest of the registers. An int is ℤ; Table has the laws of the table.
--
-- Not modelled: other programs of the courses, which only show the C library and the system calls;
-- of sbi_hsm.c the wait of a warm boot, the mask of interruptible harts and the interleaving of harts;
-- of sbi_domain.c the regions of the root domain, startup and output; of sbi_tlb.c the firmware
-- counters, sbi_tlb_init and the wait for other harts; of sbi_ecall.c sbi_ecall_init and the printed
-- list of extensions; the rest of OpenSBI, its drivers, and the
-- libraries it has copies of (libfdt, libquad).
pub mod Prelude
pub mod Hanoi
pub mod Rv32
pub mod CrazyOs
pub mod Sbi
