-- ===== src/CrazyOs/Console.antt =====
-- The console of crazy-os.c: the buffer of a process and what reaches `stdout`.
use mathlib.Core.List.{append_assoc, append-nil}
use inside_system.Prelude.{
  ℕ, ◌+◌, ◌≤◌, ◌<◌, ◌≡◌, List, [], ◌∷◌, ◌++◌, arith, length, length-append, ◌==◌, if◌then◌else◌,
}
use inside_system.CrazyOs.{Proc, buf_size, sys_putchar}

-- The buffer leaves room for the next character and the one after it.
abbrev pub HasRoom : Proc → Type 0
HasRoom p = length p.buf + 2 ≤ buf_size

-- No call of `sys_putchar` writes past the buffer, and each leaves it fit for the next; the output
-- with the buffer behind it is the old one with the character behind it; a newline empties the
-- buffer.
pub record Printed (p : Proc) (ch : ℕ) (stdout : List ℕ) (r : ℕ × Proc × List ℕ) : Type 0 where
  pub returned : r.0 ≡ 0
  pub written_inside : length p.buf < buf_size
  pub room : HasRoom r.1
  pub text : r.2 ++ r.1.buf ≡ (stdout ++ p.buf) ++ (ch ∷ [])
  pub newline : (if ch == b'\n' then r.1.buf else []) ≡ []
  pub cpu : r.1.cpu ≡ p.cpu

-- On a buffer with room, `sys_putchar` writes inside the buffer, leaves room again, and loses or
-- repeats no byte: what was written out and what is still in the buffer together grow by that one
-- character. A newline leaves the buffer empty; the processor is as before.
pub sys_putchar-Printed :
    (p : Proc) (ch : ℕ) (stdout : List ℕ)
    → HasRoom p
    → Printed p ch stdout (sys_putchar p ch stdout)
unfolding sys_putchar
sys_putchar-Printed p ch stdout h = record {
  returned = ground arith;
  written_inside = omega arith;
  room = ground (arith, length-append p.buf (ch ∷ []));
  text =
      ground
        (arith, append_assoc stdout p.buf (ch ∷ []), append-nil (stdout ++ (p.buf ++ (ch ∷ []))));
  newline = ground arith;
  cpu = ground arith;
}
