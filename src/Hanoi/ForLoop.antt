-- ===== src/Hanoi/ForLoop.antt =====
-- OS_Spring_2026/course_2/hanoi-nr/hanoi_forloop.c: `hanoi_for_loop`, whose frames have a stage.
pub mod Refine
use inside_system.Prelude.{ℕ, zero, suc, ◌-◌, List, [], ◌∷◌, ◌++◌, length, ltb, ◌==◌, if◌then◌else◌}
use inside_system.Hanoi.Recursive.{add_int}

-- The typedef `Frame`.
pub record Frame : Type 0 where
  pub n : ℕ
  pub from : ℕ
  pub to : ℕ
  pub tmp : ℕ
  pub stage : ℕ

abbrev pub max_stack_deep : ℕ
max_stack_deep = 1024

-- The locals of the loop, and the characters printed; `count` is an int. The frames are `stack[0..top]`, the top one first.
pub record State : Type 0 where
  pub stack : List Frame
  pub count : ℕ
  pub out : List ℕ

-- A push on 1024 frames writes past `stack`: a fault.
pub data Outcome : Type 0 where
  next : State → Outcome
  fault : Outcome

abbrev pub push : Frame → State → Outcome
push g s =
    if ltb (length s.stack) max_stack_deep then next (record s { stack = g ∷ s.stack }) else fault

-- "from %c move to %c \n"
abbrev pub line : ℕ → ℕ → List ℕ
line from to =
    b'f' ∷ b'r' ∷ b'o' ∷ b'm' ∷ b' ' ∷ from ∷ b' ' ∷ b'm' ∷ b'o' ∷ b'v' ∷ b'e' ∷ b' ' ∷ b't' ∷ b'o'
    ∷ b' ' ∷ to ∷ b' ' ∷ b'\n' ∷ []

abbrev pub print : ℕ → ℕ → State → State
print from to s = record s { count = add_int s.count 1; out = s.out ++ line from to }

-- One round of the loop, with `cur` the frame at `top` and `rest` those under it.
unfoldable pub step : Frame → List Frame → State → Outcome
step cur rest s =
    if cur.n == 1
    then next (print cur.from cur.to (record s { stack = rest }))
    else if cur.stage == 0
    then push (record { n = cur.n - 1; from = cur.from; to = cur.tmp; tmp = cur.to; stage = 0 })
        (record s { stack = record cur { stage = 1 } ∷ rest })
    else if cur.stage == 1
    then next (print cur.from cur.to (record s { stack = record cur { stage = 2 } ∷ rest }))
    else if cur.stage == 2
    then push (record { n = cur.n - 1; from = cur.tmp; to = cur.to; tmp = cur.from; stage = 0 })
        (record s { stack = record cur { stage = 3 } ∷ rest })
    else if cur.stage == 3
    then next (record s { stack = rest })
    else next s

-- `no_actions` is the return of 0 for n = 0, with its message.
pub data Ended : Type 0 where
  done : State → Ended
  no_actions : Ended
  crashed : Ended
  running : State → Ended

abbrev pub resume : (State → Ended) → Outcome → Ended
resume k (next s) = k s
resume k fault = crashed

-- `while (top >= 0)`, for at most `k` rounds.
unfoldable pub loop : ℕ → State → Ended
unfolding step
loop zero s = running s
loop (suc k) s = elim s.stack [ [] ↦ done s | cur ∷ rest ↦ resume (loop k) (step cur rest s) ]

unfoldable pub hanoi_for_loop : ℕ → ℕ → ℕ → ℕ → ℕ → Ended
unfolding loop
hanoi_for_loop k n from to tmp =
    if n == 0
    then no_actions
    else loop k (record {
      stack = record { n = n; from = from; to = to; tmp = tmp; stage = 0 } ∷ [];
      count = 0;
      out = [];
    })
