-- ===== src/Hanoi/Recursive.antt =====
-- OS_Spring_2026/course_2/hanoi-nr/hanoi-r.c.
use inside_system.Prelude.{
  ℕ, zero, suc, ◌+◌, ◌%◌, ◌^◌, ◌≤◌, ◌≡◌, refl, List, [], ◌∷◌, ◌++◌, Option, none, some, arith,
  length, length-append, ap,
}
use native.Mathlib.Nat.{pow-suc, pow-le-pow_right}
use inside_system.Hanoi.Pegs.{Move}

-- What a call gives: the value returned, and what it printed.
pub record Solved : Type 0 where
  pub count : ℕ
  pub moves : List Move

-- The sum of two ints of 32 bits that are not negative. Past 2 ^ 31 - 1 it is not defined in C; here it
-- wraps round, and the theorems on the value stay below, with at most 31 disks.
abbrev pub add_int : ℕ → ℕ → ℕ
add_int a b = (a + b) % 2 ^ 32

abbrev pub max_disks : ℕ
max_disks = 31

abbrev pub join : Solved → Solved → Solved → Solved
join a b c = record {
  count = add_int (add_int a.count c.count) 1;
  moves = a.moves ++ (b.moves ++ c.moves);
}

abbrev pub bind_solved : Option Solved → (Solved → Option Solved) → Option Solved
bind_solved none k = none
bind_solved (some a) k = k a

abbrev pub one_move : ℕ → ℕ → Solved
one_move from to = record { count = 1; moves = record { src = from; dst = to } ∷ [] }

-- `none` is the recursion that does not end: from n = 0 the test `n == 1` is never met again.
-- The call with n = 1 in the middle does what the second clause does.
unfoldable pub hanoi : ℕ → ℕ → ℕ → ℕ → Option Solved
hanoi zero from to via = none
hanoi (suc zero) from to via = some (one_move from to)
hanoi (suc (suc n)) from to via =
    bind_solved (hanoi (suc n) from via to)
      λ a. bind_solved (hanoi (suc n) via to from) λ c. some (join a (one_move from to) c)

-- The moves that carry n disks, by recursion on n alone.
abbrev pub moves : ℕ → ℕ → ℕ → ℕ → List Move
moves zero from to via = []
moves (suc n) from to via =
    moves n from via to ++ (record { src = from; dst = to } ∷ moves n via to from)

pub length-moves_suc :
    (n from to via : ℕ)
    → length (moves n from via to) + length (moves n via to from) + 1
      ≡ length (moves (suc n) from to via)
length-moves_suc n from to via = omega (
  arith,
  length-append (moves n from via to) (record { src = from; dst = to } ∷ moves n via to from),
)

pub length-moves : (n from to via : ℕ) → length (moves n from to via) + 1 ≡ 2 ^ n
length-moves zero from to via = refl
length-moves (suc n) from to via = omega (
  arith,
  length-moves_suc n from to via,
  length-moves n from via to,
  length-moves n via to from,
  pow-suc 2 n,
)

abbrev pub counted : ℕ → ℕ → ℕ → ℕ → ℕ
counted n from to via = length (moves n from to via) % 2 ^ 32

pub counted_suc :
    (n from to via : ℕ)
    → add_int (add_int (counted n from via to) (counted n via to from)) 1
      ≡ counted (suc n) from to via
counted_suc n from to via = omega (arith, length-moves_suc n from to via)

abbrev pub solved : ℕ → ℕ → ℕ → ℕ → Solved
solved n from to via = record { count = counted n from to via; moves = moves n from to via }

-- With at most 31 disks the count is exact.
pub counted_exact : (n from to via : ℕ) → n ≤ max_disks → counted n from to via + 1 ≡ 2 ^ n
counted_exact n from to via le =
    let small : 2 ^ n ≤ 2 ^ 31 = pow-le-pow_right (omega arith) le in
    omega (arith, small, length-moves n from to via)

-- What `hanoi` returns and prints, for every n ≥ 1.
pub hanoi_lem : (n from to via : ℕ) → hanoi (suc n) from to via ≡ some (solved (suc n) from to via)
unfolding hanoi
hanoi_lem zero from to via = refl
hanoi_lem (suc n) from to via =
    rw (hanoi_lem n from via to, hanoi_lem n via to from)
      (ap (λ c. some (record { count = c; moves = moves (suc (suc n)) from to via }))
        (counted_suc (suc n) from to via))
