-- ===== src/Hanoi/Pegs.antt =====
-- The puzzle that the programs of OS_Spring_2026/course_2/hanoi-nr solve: pegs with disks, and what
-- a move does to them. Nothing here is code of the repository: it is what the moves are judged by.
use inside_system.Prelude.{
  ℕ, zero, suc, ◌≤◌, ◌≡◌, ◌≢◌, refl, List, [], ◌∷◌, ◌++◌, Option, none, some, ltb, ◌==◌,
  if◌then◌else◌, arith,
}

pub record Move : Type 0 where
  pub src : ℕ
  pub dst : ℕ

-- The disks of each peg, the top one first; a disk is its size.
abbrev pub Pegs : Type 0
Pegs = ℕ → List ℕ

abbrev pub update : Pegs → ℕ → List ℕ → Pegs
update p i ds j = if i == j then ds else p j

-- A disk goes on an empty peg or on a larger disk.
abbrev pub put : ℕ → List ℕ → Option (List ℕ)
put d [] = some (d ∷ [])
put d (e ∷ ds) = if ltb d e then some (d ∷ e ∷ ds) else none

abbrev pub place : Pegs → ℕ → Option (List ℕ) → Option Pegs
place p i none = none
place p i (some ds) = some (update p i ds)

abbrev pub lift : Pegs → Move → List ℕ → Option Pegs
lift p m [] = none
lift p m (d ∷ ds) = place (update p m.src ds) m.dst (put d (update p m.src ds m.dst))

-- `none` is an illegal move: no disk to take, or a larger disk on a smaller.
abbrev pub move : Pegs → Move → Option Pegs
move p m = lift p m (p m.src)

abbrev pub bind_play : (Pegs → Option Pegs) → Option Pegs → Option Pegs
bind_play k none = none
bind_play k (some p) = k p

abbrev pub play : List Move → Pegs → Option Pegs
play [] p = some p
play (m ∷ ms) p = bind_play (play ms) (move p m)

-- Disks 0 to n - 1, the largest at the bottom, on top of `ds`.
abbrev pub tower : ℕ → List ℕ → List ℕ
tower zero ds = ds
tower (suc n) ds = tower n (n ∷ ds)

-- Disks below `n` may be put on `ds`.
abbrev pub Above : ℕ → List ℕ → Type 0
Above n [] = Unit
Above n (d ∷ ds) = n ≤ d

pub play-append :
    (ms ns : List Move) (p : Pegs) → play (ms ++ ns) p ≡ bind_play (play ns) (play ms p)
play-append [] ns p = refl
play-append (m ∷ ms) ns p = step (move p m) (λ q. play-append ms ns q)
  where
    step :
        (o : Option Pegs)
        → ((q : Pegs) → play (ms ++ ns) q ≡ bind_play (play ns) (play ms q))
        → bind_play (play (ms ++ ns)) o ≡ bind_play (play ns) (bind_play (play ms) o)
    step none ih = refl
    step (some q) ih = ih q

pub Above-pred : (n : ℕ) (ds : List ℕ) → Above (suc n) ds → Above n ds
Above-pred n [] h = tt
Above-pred n (d ∷ ds) h = omega arith

put_lem : (d : ℕ) (ds : List ℕ) → Above (suc d) ds → put d ds ≡ some (d ∷ ds)
put_lem d [] h = refl
put_lem d (e ∷ ds) h = ground arith

-- The top disk of `f` may go to `t`, where only larger disks lie.
pub move_lem :
    (p : Pegs) (f t d : ℕ) (ds : List ℕ)
    → f ≢ t
    → p f ≡ d ∷ ds
    → Above (suc d) (p t)
    → move p (record { src = f; dst = t }) ≡ some (update (update p f ds) t (d ∷ p t))
move_lem p f t d ds ne top above = ground (arith, put_lem d (p t) above)
