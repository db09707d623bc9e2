-- ===== src/Hanoi/Machine.antt =====
-- OS_Spring_2026/course_2/hanoi-nr/hanoi-nr.c: `hanoi` with the frames of its calls in an array.
pub mod Refine
use inside_system.Prelude.{ℕ, zero, suc, ◌-◌, List, [], ◌∷◌, ◌++◌, length, ltb, ◌==◌, if◌then◌else◌}
use inside_system.Hanoi.Pegs.{Move}
use inside_system.Hanoi.Recursive.{add_int}

-- `struct Frame`. The names of its arguments are those of the program; c1 and c2 are ints.
pub record Frame : Type 0 where
  pub pc : ℕ
  pub n : ℕ
  pub from : ℕ
  pub to : ℕ
  pub via : ℕ
  pub c1 : ℕ
  pub c2 : ℕ

abbrev pub max_frames : ℕ
max_frames = 64

-- The locals of `hanoi` that a round of its loop changes. The frames are `stk[0..top]`, the top one
-- first; what stands above `top` is never read.
pub record State : Type 0 where
  pub stk : List Frame
  pub retval : ℕ
  pub out : List Move

-- A push on 64 frames writes past `stk`: a fault, as a failed `assert` is.
pub data Outcome : Type 0 where
  next : State → Outcome
  fault : Outcome

-- `(Frame){.pc = 0, n, from, to, via}`: the fields that are not named are 0.
abbrev pub called : ℕ → ℕ → ℕ → ℕ → Frame
called n from to via = record { pc = 0; n = n; from = from; to = to; via = via; c1 = 0; c2 = 0 }

-- The macro `call`.
abbrev pub call : Frame → State → Outcome
call g s = if ltb (length s.stk) max_frames then next (record s { stk = g ∷ s.stk }) else fault

-- The macro `ret`, where `rest` is the stack under the frame.
abbrev pub ret : ℕ → List Frame → State → Outcome
ret val rest s = next (record s { stk = rest; retval = val })

-- One round of the loop, with `f` the frame at `top` and `rest` those under it. The program counter
-- of `f` is written last; after a `ret` that write goes to a dead frame.
unfoldable pub step : Frame → List Frame → State → Outcome
step f rest s =
    if f.pc == 0
    then if f.n == 1
      then ret 1 rest (record s { out = s.out ++ (record { src = f.from; dst = f.to } ∷ []) })
      else next (record s { stk = record f { pc = 1 } ∷ rest })
    else if f.pc == 1
    then call (called (f.n - 1) f.from f.via f.to) (record s { stk = record f { pc = 2 } ∷ rest })
    else if f.pc == 2
    then next (record s { stk = record f { c1 = s.retval; pc = 3 } ∷ rest })
    else if f.pc == 3
    then call (called 1 f.from f.to f.via) (record s { stk = record f { pc = 4 } ∷ rest })
    else if f.pc == 4
    then call (called (f.n - 1) f.via f.to f.from) (record s { stk = record f { pc = 5 } ∷ rest })
    else if f.pc == 5
    then next (record s { stk = record f { c2 = s.retval; pc = 6 } ∷ rest })
    else if f.pc == 6
    then ret (add_int (add_int f.c1 f.c2) 1) rest s
    else fault

pub data Ended : Type 0 where
  done : State → Ended
  crashed : Ended
  running : State → Ended

-- `while (1)`, for at most `k` rounds.
abbrev pub resume : (State → Ended) → Outcome → Ended
resume k (next s) = k s
resume k fault = crashed

unfoldable pub loop : ℕ → State → Ended
unfolding step
loop zero s = running s
loop (suc k) s = elim s.stk [ [] ↦ done s | f ∷ rest ↦ resume (loop k) (step f rest s) ]

unfoldable pub hanoi : ℕ → ℕ → ℕ → ℕ → ℕ → Ended
unfolding loop
hanoi k n from to via = loop k (record { stk = called n from to via ∷ []; retval = 0; out = [] })
