-- ===== src/Hanoi/Tests.antt =====
-- Runs of the three programs, and their theorems at concrete inputs. The pegs are 'A', 'B' and 'C'.
use inside_system.Prelude.{ℕ, ◌+◌, ◌^◌, ◌≡◌, refl, List, [], ◌∷◌, some, arith}
use inside_system.Hanoi.Pegs.{Pegs, Move, update, play}
use inside_system.Hanoi.Recursive.{Solved, hanoi}
use inside_system.Hanoi.Legal.{carried, hanoi-solves}
use inside_system.Hanoi.Machine
use inside_system.Hanoi.Machine.Refine as MachineRefine
use inside_system.Hanoi.ForLoop
use inside_system.Hanoi.ForLoop.Refine as ForLoopRefine

-- Two disks on 'A', above a larger one.
abbrev pegs : Pegs
pegs = update (λ _. []) b'A' (0 ∷ 1 ∷ 7 ∷ [])

abbrev two_disks : List Move
two_disks =
    record { src = b'A'; dst = b'C' }
    ∷ record { src = b'A'; dst = b'B' }
    ∷ record { src = b'C'; dst = b'B' }
    ∷ []

recursive_runs : hanoi 2 b'A' b'B' b'C' ≡ some (record { count = 3; moves = two_disks })
unfolding hanoi
recursive_runs = refl

machine_runs :
    Machine.hanoi 11 2 b'A' b'B' b'C'
    ≡ Machine.done (record { stk = []; retval = 3; out = two_disks })
unfolding Machine.hanoi
machine_runs = refl

for_loop_runs :
    ForLoop.hanoi_for_loop 7 2 b'A' b'B' b'C'
    ≡ ForLoop.done (record { stack = []; count = 3; out = ForLoopRefine.lines two_disks })
unfolding ForLoop.hanoi_for_loop
for_loop_runs = refl

hanoi-solves_example :
    (s : Solved) × (hanoi 2 b'A' b'B' b'C' ≡ some s)
    × (s.count + 1 ≡ 2 ^ 2)
    × (p' : Pegs) × (play s.moves pegs ≡ some p')
    × ((x : ℕ) → p' x ≡ carried 2 b'A' b'B' (7 ∷ []) pegs x)
hanoi-solves_example =
    hanoi-solves 2 b'A' b'B' b'C' pegs (7 ∷ []) (omega arith) (omega arith) (omega arith)
      (omega arith) (omega arith) refl (omega arith) tt tt

hanoi_refines_example :
    (s : Solved) × (hanoi 3 b'A' b'B' b'C' ≡ some s)
    × (Machine.hanoi (MachineRefine.rounds 3 + 1) 3 b'A' b'B' b'C'
        ≡ Machine.done (record { stk = []; retval = s.count; out = s.moves }))
hanoi_refines_example = MachineRefine.hanoi_refines 3 b'A' b'B' b'C' (omega arith) (omega arith)

hanoi_for_loop_refines_example :
    (s : Solved) × (hanoi 3 b'A' b'B' b'C' ≡ some s)
    × (ForLoop.hanoi_for_loop (ForLoopRefine.rounds 3 + 1) 3 b'A' b'B' b'C'
        ≡ ForLoop.done (record { stack = []; count = s.count; out = ForLoopRefine.lines s.moves }))
hanoi_for_loop_refines_example =
    ForLoopRefine.hanoi_for_loop_refines 3 b'A' b'B' b'C' (omega arith) (omega arith)
