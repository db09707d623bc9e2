-- ===== src/CrazyOs.antt =====
-- OS_Spring_2026/course_5/crazy-os/crazy-os.c: processes as emulated machines, run in turn, with one
-- system call.
pub mod Console
pub mod Ecall
pub mod Turns
mod Tests
use inside_system.Prelude.{
  ℕ, suc, zero, ◌+◌, ◌-◌, ◌*◌, ◌/◌, ◌%◌, ◌^◌, List, [], ◌∷◌, ◌++◌, Option, none, some, length,
  get_elem?, set, replicate, ◌||◌, ◌==◌, if◌then◌else◌,
}
use inside_system.Rv32.Words.{add32}
use inside_system.Rv32.State.{Csrs, CpuState, update, reg_sp, reg_a0, reg_a7}
use inside_system.Rv32.Step.{rv32ima_step}

abbrev pub mem_size : ℕ
mem_size = 2 ^ 20

abbrev pub mem_offset : ℕ
mem_offset = 0x80000000

abbrev pub stack_top : ℕ
stack_top = mem_offset + mem_size

abbrev pub buf_size : ℕ
buf_size = 256

-- `struct proc`. `buf` is `buf[0..buf_len]`: what stands behind it is never read.
pub record Proc : Type 0 where
  pub cpu : CpuState
  pub buf : List ℕ

abbrev pub no_csrs : Csrs
no_csrs = record {
  pc = 0;
  mstatus = 0;
  cyclel = 0;
  cycleh = 0;
  timerl = 0;
  timerh = 0;
  timermatchl = 0;
  timermatchh = 0;
  mscratch = 0;
  mtvec = 0;
  mie = 0;
  mip = 0;
  mepc = 0;
  mtval = 0;
  mcause = 0;
  extraflags = 0;
}

-- The first `n` bytes of an image, read into zeroed memory (`procs` comes from `calloc`).
abbrev pub byte_at : List ℕ → ℕ → ℕ
byte_at [] i = 0
byte_at (b ∷ bs) zero = b
byte_at (b ∷ bs) (suc i) = byte_at bs i

-- The bytes of the file `path` are the argument: opening a file that is not there is not modelled.
-- What is behind `MEM_SIZE` is not read.
unfoldable pub proc_init : List ℕ → Proc
proc_init image = record {
  cpu = record {
    regs = update (λ _. 0) reg_sp stack_top;
    csrs = record no_csrs { pc = mem_offset };
    mem = byte_at image;
    mem_offset = mem_offset;
    mem_size = mem_size;
  };
  buf = [];
}

-- `stdout` is all that was written so far.
unfoldable pub sys_putchar : Proc → ℕ → List ℕ → ℕ × Proc × List ℕ
sys_putchar p ch stdout =
    let buf = p.buf ++ (ch ∷ []) in
    if ch == b'\n' || length buf == buf_size - 1
    then (0, record p { buf = [] }, stdout ++ buf)
    else (0, record p { buf = buf }, stdout)

-- The return from a system call: what MRET does, but for `pc` and `mcause`.
unfoldable pub resume : Csrs → Csrs
resume c = record c {
  mstatus = c.mstatus / 128 % 2 * 8 + c.extraflags % 4 * 2 ^ 11 + 0x80;
  extraflags = c.extraflags / 4 * 4 + c.mstatus / 2 ^ 11 % 4;
  pc = add32 c.mepc 4;
  mcause = 0;
}

-- `regs[A0] = ret` and the return.
abbrev pub return_to : ℕ × Proc × List ℕ → Proc × List ℕ
return_to (ret, p, stdout) = (
  record p { cpu = record p.cpu { regs = update p.cpu.regs reg_a0 ret; csrs = resume p.cpu.csrs } },
  stdout,
)

-- A call of a number other than 42 gives -1. The character is the low byte of the register.
unfoldable pub handle_ecall : Proc → List ℕ → Proc × List ℕ
unfolding sys_putchar resume
handle_ecall p stdout = return_to (
    if p.cpu.regs reg_a7 == 42
    then sys_putchar p (p.cpu.regs reg_a0 % 256) stdout
    else (2 ^ 32 - 1, p, stdout))

-- The body of the loop of `main`, for the process whose turn it is.
unfoldable pub run_proc : Proc → List ℕ → Proc × List ℕ
unfolding handle_ecall
run_proc p stdout =
    let (r, cpu) = rv32ima_step p.cpu 1 in
    let p' = record p { cpu = cpu } in
    if cpu.csrs.mcause == 8 then handle_ecall p' stdout else (p', stdout)

pub record System : Type 0 where
  pub procs : List Proc
  pub cur : ℕ
  pub stdout : List ℕ

abbrev pub after_turn : System → Proc × List ℕ → System
after_turn s (p, out) = record {
  procs = set s.procs s.cur p;
  cur = (s.cur + 1) % length s.procs;
  stdout = out;
}

-- `none` where `procs[cur]` is past the end, as with no process at all.
abbrev pub turn_of : System → Option Proc → Option System
turn_of s none = none
turn_of s (some p) = some (after_turn s (run_proc p s.stdout))

unfoldable pub turn : System → Option System
unfolding run_proc
turn s = turn_of s (get_elem? s.procs s.cur)

abbrev pub bind_turns : (System → Option System) → Option System → Option System
bind_turns k none = none
bind_turns k (some s) = k s

-- The first `n` rounds of `while (1)`.
unfoldable pub turns : ℕ → System → Option System
unfolding turn
turns zero s = some s
turns (suc n) s = bind_turns (turns n) (turn s)

abbrev pub init_all : List (List ℕ) → List Proc
init_all [] = []
init_all (i ∷ is) = proc_init i ∷ init_all is

-- `main`, for the images of the processes.
unfoldable pub boot : List (List ℕ) → System
unfolding proc_init
boot images = record { procs = init_all images; cur = 0; stdout = [] }
