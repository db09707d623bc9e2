-- ===== src/Hanoi/Machine/Refine.antt =====
-- hanoi-nr.c against hanoi-r.c.
use mathlib.Core.List.{append_assoc}
use inside_system.Prelude.{
  ℕ, zero, suc, ◌+◌, ◌-◌, ◌*◌, ◌≤◌, ◌<◌, ◌≡◌, refl, ap, ap₂, ◌∙◌, List, [], ◌∷◌, ◌++◌, some, arith,
  length, lt→ltb,
}
use inside_system.Hanoi.Pegs.{Move}
use inside_system.Hanoi.Recursive.{
  Solved, add_int, max_disks, moves, counted, counted_suc, solved, hanoi_lem,
}
use inside_system.Hanoi.Recursive
use inside_system.Hanoi.Machine.{
  Frame, max_frames, State, called, call, resume, step, loop, hanoi, done,
}

-- Rounds of the loop from the push of a frame for n disks to its return.
abbrev pub rounds : ℕ → ℕ
rounds zero = 0
rounds (suc zero) = 1
rounds (suc (suc n)) = 8 + 2 * rounds (suc n)

-- A push that finds room.
loop-call :
    (k : ℕ) (g : Frame) (s : State)
    → length s.stk < max_frames
    → resume (loop k) (call g s) ≡ loop k (record s { stk = g ∷ s.stk })
loop-call k g s h = rw (lt→ltb (length s.stk) max_frames h)

abbrev frame : ℕ → ℕ → ℕ → ℕ → ℕ → ℕ → ℕ → Frame
frame pc n from to via c1 c2 = record {
  pc = pc;
  n = n;
  from = from;
  to = to;
  via = via;
  c1 = c1;
  c2 = c2;
}

abbrev state : List Frame → ℕ → List Move → State
state stk r out = record { stk = stk; retval = r; out = out }

module _ (k n f t v : ℕ) (rest : List Frame) (r : ℕ) (out : List Move) where
  round_leaf :
      loop (suc k) (state (frame 0 1 f t v 0 0 ∷ rest) r out)
      ≡ loop k (state rest 1 (out ++ (record { src = f; dst = t } ∷ [])))
  unfolding loop step
  round_leaf = refl

  round_0 :
      loop (suc k) (state (frame 0 (suc (suc n)) f t v 0 0 ∷ rest) r out)
      ≡ loop k (state (frame 1 (suc (suc n)) f t v 0 0 ∷ rest) r out)
  unfolding loop step
  round_0 = ground arith

  round_1 :
      suc (length rest) < max_frames
      → loop (suc k) (state (frame 1 (suc n) f t v 0 0 ∷ rest) r out)
        ≡ loop k (state (called n f v t ∷ frame 2 (suc n) f t v 0 0 ∷ rest) r out)
  unfolding loop step
  round_1 h =
      loop-call k (called (suc n - 1) f v t) (state (frame 2 (suc n) f t v 0 0 ∷ rest) r out) h
      ∙ ap (λ m. loop k (state (called m f v t ∷ frame 2 (suc n) f t v 0 0 ∷ rest) r out))
          (omega arith)

  round_2 :
      loop (suc k) (state (frame 2 (suc n) f t v 0 0 ∷ rest) r out)
      ≡ loop k (state (frame 3 (suc n) f t v r 0 ∷ rest) r out)
  unfolding loop step
  round_2 = refl

module _ (k n f t v c1 c2 : ℕ) (rest : List Frame) (r : ℕ) (out : List Move) where
  round_3 :
      suc (length rest) < max_frames
      → loop (suc k) (state (frame 3 (suc n) f t v c1 0 ∷ rest) r out)
        ≡ loop k (state (called 1 f t v ∷ frame 4 (suc n) f t v c1 0 ∷ rest) r out)
  unfolding loop step
  round_3 h = loop-call k (called 1 f t v) (state (frame 4 (suc n) f t v c1 0 ∷ rest) r out) h

  round_4 :
      suc (length rest) < max_frames
      → loop (suc k) (state (frame 4 (suc n) f t v c1 0 ∷ rest) r out)
        ≡ loop k (state (called n v t f ∷ frame 5 (suc n) f t v c1 0 ∷ rest) r out)
  unfolding loop step
  round_4 h =
      loop-call k (called (suc n - 1) v t f) (state (frame 5 (suc n) f t v c1 0 ∷ rest) r out) h
      ∙ ap (λ m. loop k (state (called m v t f ∷ frame 5 (suc n) f t v c1 0 ∷ rest) r out))
          (omega arith)

  round_5 :
      loop (suc k) (state (frame 5 (suc n) f t v c1 0 ∷ rest) r out)
      ≡ loop k (state (frame 6 (suc n) f t v c1 r ∷ rest) r out)
  unfolding loop step
  round_5 = refl

  round_6 :
      loop (suc k) (state (frame 6 (suc n) f t v c1 c2 ∷ rest) r out)
      ≡ loop k (state rest (add_int (add_int c1 c2) 1) out)
  unfolding loop step
  round_6 = refl

-- What a frame does from its push to its return, with the stack under it untouched: the rounds are
-- those of `rounds`, the value and the moves those of the recursive program.
loop-frame :
    (n k f t v : ℕ) (rest : List Frame) (r : ℕ) (out : List Move)
    → length rest + suc n ≤ max_frames
    → loop (rounds (suc n) + k) (state (called (suc n) f t v ∷ rest) r out)
      ≡ loop k (state rest (counted (suc n) f t v) (out ++ moves (suc n) f t v))
loop-frame zero k f t v rest r out room =
    ap (λ j. loop j (state (called 1 f t v ∷ rest) r out)) (omega arith)
    ∙ round_leaf k 0 f t v rest r out
loop-frame (suc n) k f t v rest r out room =
    ap (λ j. loop j (state (called m f t v ∷ rest) r out)) count_rounds
    ∙ (round_0 _ n f t v rest r out
        ∙ (round_1 _ (suc n) f t v rest r out (omega arith)
            ∙ (loop-frame n _ f v t (frame 2 m f t v 0 0 ∷ rest) r out (omega arith)
                ∙ (round_2 _ (suc n) f t v rest c1 out1
                    ∙ (round_3 _ (suc n) f t v c1 0 rest c1 out1 (omega arith)
                        ∙ (round_leaf _ 0 f t v (frame 4 m f t v c1 0 ∷ rest) c1 out1
                            ∙ (round_4 _ (suc n) f t v c1 0 rest 1 out2 (omega arith)
                                ∙ (loop-frame n _ v t f (frame 5 m f t v c1 0 ∷ rest) 1 out2
                                      (omega arith)
                                    ∙ (round_5 _ (suc n) f t v c1 0 rest c2 out3
                                        ∙ (round_6 k (suc n) f t v c1 c2 rest c2 out3
                                            ∙ ap₂ (λ c o. loop k (state rest c o))
                                                (counted_suc (suc n) f t v) outs))))))))))
  where
    m : ℕ
    m = suc (suc n)

    c1 : ℕ
    c1 = counted (suc n) f v t

    c2 : ℕ
    c2 = counted (suc n) v t f

    out1 : List Move
    out1 = out ++ moves (suc n) f v t

    out2 : List Move
    out2 = out1 ++ (record { src = f; dst = t } ∷ [])

    out3 : List Move
    out3 = out2 ++ moves (suc n) v t f

    outs : out3 ≡ out ++ moves (suc (suc n)) f t v
    outs = simp append_assoc

    count_rounds :
        rounds m + k
        ≡ suc (suc (rounds (suc n) + suc (suc (suc (suc (rounds (suc n) + suc (suc k)))))))
    count_rounds = omega arith

-- For 1 to 31 disks, as many as an int can count the moves of, the program ends, within `rounds n + 1` rounds of its loop and with no frame
-- left, with the value and the output of the recursive program.
pub hanoi_refines :
    (n f t v : ℕ)
    → 1 ≤ n
    → n ≤ max_disks
    → (s : Solved) × (Recursive.hanoi n f t v ≡ some s)
      × (hanoi (rounds n + 1) n f t v ≡ done (state [] s.count s.moves))
unfolding hanoi
hanoi_refines zero f t v low high = absurd (omega arith)
hanoi_refines (suc n) f t v low high =
    (solved (suc n) f t v, hanoi_lem n f t v, loop-frame n 1 f t v [] 0 [] (omega arith))
