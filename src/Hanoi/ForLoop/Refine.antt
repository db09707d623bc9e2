-- ===== src/Hanoi/ForLoop/Refine.antt =====
-- hanoi_forloop.c against hanoi-r.c.
use mathlib.Core.List.{append_assoc}
use inside_system.Prelude.{
  ℕ, zero, suc, ◌==◌, false, ◌+◌, ◌*◌, ◌≤◌, ◌<◌, ◌≡◌, refl, ap, ap₂, ◌∙◌, List, [], ◌∷◌, ◌++◌, some,
  arith, length, lt→ltb,
}
use inside_system.Hanoi.Pegs.{Move}
use inside_system.Hanoi.Recursive
use inside_system.Hanoi.Recursive.{
  Solved, add_int, max_disks, moves, counted, length-moves_suc, solved, hanoi_lem,
}
use inside_system.Hanoi.ForLoop.{
  Frame, max_stack_deep, State, line, push, resume, step, loop, hanoi_for_loop, done,
}

-- Rounds of the loop from the push of a frame for n disks to its return.
abbrev pub rounds : ℕ → ℕ
rounds zero = 0
rounds (suc zero) = 1
rounds (suc (suc n)) = 4 + 2 * rounds (suc n)

loop-push :
    (k : ℕ) (g : Frame) (s : State)
    → length s.stack < max_stack_deep
    → resume (loop k) (push g s) ≡ loop k (record s { stack = g ∷ s.stack })
loop-push k g s h = rw (lt→ltb (length s.stack) max_stack_deep h)

abbrev frame : ℕ → ℕ → ℕ → ℕ → ℕ → Frame
frame stage n from to tmp = record { n = n; from = from; to = to; tmp = tmp; stage = stage }

abbrev state : List Frame → ℕ → List ℕ → State
state stack c out = record { stack = stack; count = c; out = out }

-- The lines that this program prints for moves.
abbrev pub lines : List Move → List ℕ
lines [] = []
lines (m ∷ ms) = line m.src m.dst ++ lines ms

lines-append : (ms ns : List Move) → lines (ms ++ ns) ≡ lines ms ++ lines ns
lines-append [] ns = refl
lines-append (m ∷ ms) ns = ap (λ cs. line m.src m.dst ++ cs) (lines-append ms ns)

module _ (k n f t v : ℕ) (rest : List Frame) (c : ℕ) (out : List ℕ) where
  round_leaf :
      loop (suc k) (state (frame 0 1 f t v ∷ rest) c out)
      ≡ loop k (state rest (add_int c 1) (out ++ line f t))
  unfolding loop step
  round_leaf = refl

  round_0 :
      suc (length rest) < max_stack_deep
      → loop (suc k) (state (frame 0 (suc (suc n)) f t v ∷ rest) c out)
        ≡ loop k (state (frame 0 (suc n) f v t ∷ frame 1 (suc (suc n)) f t v ∷ rest) c out)
  unfolding loop step
  round_0 h = ground arith

  round_1 :
      loop (suc k) (state (frame 1 (suc (suc n)) f t v ∷ rest) c out)
      ≡ loop k (state (frame 2 (suc (suc n)) f t v ∷ rest) (add_int c 1) (out ++ line f t))
  unfolding loop step
  round_1 = ground arith

  round_2 :
      suc (length rest) < max_stack_deep
      → loop (suc k) (state (frame 2 (suc (suc n)) f t v ∷ rest) c out)
        ≡ loop k (state (frame 0 (suc n) v t f ∷ frame 3 (suc (suc n)) f t v ∷ rest) c out)
  unfolding loop step
  round_2 h = ground arith

  round_3 :
      loop (suc k) (state (frame 3 (suc (suc n)) f t v ∷ rest) c out) ≡ loop k (state rest c out)
  unfolding loop step
  round_3 = ground arith

-- What a frame does from its push to its return, with the stack under it untouched.
loop-frame :
    (n k f t v : ℕ) (rest : List Frame) (c : ℕ) (out : List ℕ)
    → length rest + suc n ≤ max_stack_deep
    → loop (rounds (suc n) + k) (state (frame 0 (suc n) f t v ∷ rest) c out)
      ≡ loop k (
          state rest
            (add_int c (length (moves (suc n) f t v)))
            (out ++ lines (moves (suc n) f t v)))
loop-frame zero k f t v rest c out room =
    ap (λ j. loop j (state (frame 0 1 f t v ∷ rest) c out)) (omega arith)
    ∙ round_leaf k 0 f t v rest c out
loop-frame (suc n) k f t v rest c out room =
    ap (λ j. loop j (state (frame 0 m f t v ∷ rest) c out)) count_rounds
    ∙ (round_0 _ n f t v rest c out (omega arith)
        ∙ (loop-frame n _ f v t (frame 1 m f t v ∷ rest) c out (omega arith)
            ∙ (round_1 _ n f t v rest c1 out1
                ∙ (round_2 _ n f t v rest (add_int c1 1) out2 (omega arith)
                    ∙ (loop-frame n _ v t f (frame 3 m f t v ∷ rest) (add_int c1 1) out2
                          (omega arith)
                        ∙ (round_3 k n f t v rest
                              (add_int (add_int c1 1) (length (moves (suc n) v t f)))
                              (out2 ++ lines (moves (suc n) v t f))
                            ∙ ap₂ (λ d o. loop k (state rest d o))
                                (omega (arith, length-moves_suc (suc n) f t v)) outs))))))
  where
    m : ℕ
    m = suc (suc n)

    c1 : ℕ
    c1 = add_int c (length (moves (suc n) f v t))

    out1 : List ℕ
    out1 = out ++ lines (moves (suc n) f v t)

    out2 : List ℕ
    out2 = out1 ++ line f t

    outs : out2 ++ lines (moves (suc n) v t f) ≡ out ++ lines (moves (suc (suc n)) f t v)
    outs =
        rw (lines-append (moves (suc n) f v t) (record { src = f; dst = t } ∷ moves (suc n) v t f))
          (simp append_assoc)

    count_rounds : rounds m + k ≡ suc (rounds (suc n) + suc (suc (rounds (suc n) + suc k)))
    count_rounds = omega arith

suc-ne-zero : (n : ℕ) → (suc n == 0) ≡ false
suc-ne-zero n = ground arith

-- For 1 to 31 disks, as many as an int can count the moves of, the program ends within `rounds n + 1`
-- rounds of its loop and with an empty stack. Its value is that of the recursive program, and it has
-- printed one line of its own text for each move of the recursive program, in the same order.
pub hanoi_for_loop_refines :
    (n f t v : ℕ)
    → 1 ≤ n
    → n ≤ max_disks
    → (s : Solved) × (Recursive.hanoi n f t v ≡ some s)
      × (hanoi_for_loop (rounds n + 1) n f t v ≡ done (state [] s.count (lines s.moves)))
unfolding hanoi_for_loop
hanoi_for_loop_refines zero f t v low high = absurd (omega arith)
hanoi_for_loop_refines (suc n) f t v low high = (
  solved (suc n) f t v,
  hanoi_lem n f t v,
  rw (suc-ne-zero n) (loop-frame n 1 f t v [] 0 [] (omega arith) ∙ ended),
)
  where
    c : ℕ
    c = length (moves (suc n) f t v)

    text : List ℕ
    text = lines (moves (suc n) f t v)

    ended : loop 1 (state [] (add_int 0 c) text) ≡ done (state [] (counted (suc n) f t v) text)
    ended = ap (λ d. done (state [] d text)) (omega arith)
