-- ===== src/Hanoi/Legal.antt =====
-- The moves of OS_Spring_2026/course_2/hanoi-nr/hanoi-r.c, judged by the pegs.
use inside_system.Prelude.{
  ℕ, zero, suc, ◌+◌, ◌^◌, ◌≤◌, ◌≡◌, ◌≢◌, refl, sym, ◌∙◌, List, ◌∷◌, some, arith, ◌==◌,
  if◌then◌else◌, ℕ_discrete,
}
use native.Mathlib.Nat.{le_refl}
use inside_system.Hanoi.Pegs.{
  Pegs, update, move, play, tower, Above, play-append, Above-pred, move_lem,
}
use inside_system.Hanoi.Recursive.{
  Solved, max_disks, solved, hanoi, moves, hanoi_lem, counted_exact,
}

-- Where the disks are once a tower of n disks has gone from `f`, where `ds` is left, to `t`.
abbrev pub carried : ℕ → ℕ → ℕ → List ℕ → Pegs → Pegs
carried n f t ds p x = if t == x then tower n (p t) else if f == x then ds else p x

module _ (n f t : ℕ) (ds : List ℕ) (p : Pegs) where
  carried_dst : carried n f t ds p t ≡ tower n (p t)
  carried_dst = ground arith

  carried_src : f ≢ t → carried n f t ds p f ≡ ds
  carried_src ft = ground arith

  carried_rest : (x : ℕ) → t ≢ x → f ≢ x → carried n f t ds p x ≡ p x
  carried_rest x tx fx = ground arith

-- The pegs once disk n has gone from `f` to `t` between the two calls.
abbrev between : ℕ → ℕ → ℕ → List ℕ → Pegs → Pegs
between n f t ds p1 = update (update p1 f ds) t (n ∷ p1 t)

module _ (n f t v : ℕ) (ds : List ℕ) (p1 : Pegs) (ft : f ≢ t) (fv : f ≢ v) (tv : t ≢ v) where
  between_src : between n f t ds p1 f ≡ ds
  between_src = ground arith

  between_dst : between n f t ds p1 t ≡ n ∷ p1 t
  between_dst = ground arith

  between_via : between n f t ds p1 v ≡ p1 v
  between_via = ground arith

  between_rest : (x : ℕ) → f ≢ x → t ≢ x → between n f t ds p1 x ≡ p1 x
  between_rest x fx tx = ground arith

-- The two calls together leave each peg as the one call of n + 1 disks should.
carried-between :
    (n f t v : ℕ) (ds : List ℕ) (p p1 : Pegs) (x : ℕ)
    → f ≢ t
    → f ≢ v
    → t ≢ v
    → p1 t ≡ p t
    → p1 x ≡ carried n f v (n ∷ ds) p x
    → carried n v t (p v) (between n f t ds p1) x ≡ carried (suc n) f t ds p x
carried-between n f t v ds p p1 x ft fv tv there here = elim (ℕ_discrete t x) [
  | yes e ↦ ground (arith, between_dst n f t v ds p1 ft fv tv)
  | no ne ↦ elim (ℕ_discrete v x) [
    | yes e ↦ ground arith
    | no nv ↦ elim (ℕ_discrete f x) [
      | yes e ↦ ground (arith, between_src n f t v ds p1 ft fv tv)
      | no nf ↦ ground (arith, between_rest n f t v ds p1 ft fv tv x nf ne)
    ]
  ]
]

-- The two calls and the move between them, one after the other.
play-moves_suc :
    (n f t v : ℕ) (p p1 : Pegs) {p2 p3 : Pegs}
    → play (moves n f v t) p ≡ some p1
    → move p1 (record { src = f; dst = t }) ≡ some p2
    → play (moves n v t f) p2 ≡ some p3
    → play (moves (suc n) f t v) p ≡ some p3
play-moves_suc n f t v p p1 first mid last =
    play-append (moves n f v t) (record { src = f; dst = t } ∷ moves n v t f) p
    ∙ rw (first, mid) last

-- On pegs of which `f` has a tower of n disks on top, and no other disk in the way is as small, the
-- n-disk moves are legal, and carry the tower from `f` to `t` with nothing else moved.
pub play-moves :
    (n f t v : ℕ) (p : Pegs) (ds : List ℕ)
    → f ≢ t
    → f ≢ v
    → t ≢ v
    → p f ≡ tower n ds
    → Above n ds
    → Above n (p t)
    → Above n (p v)
    → (p' : Pegs) × (play (moves n f t v) p ≡ some p') × ((x : ℕ) → p' x ≡ carried n f t ds p x)
play-moves zero f t v p ds ft fv tv e a b c = (p, refl, λ x. ground arith)
play-moves (suc n) f t v p ds ft fv tv e a b c =
    let (p1, played1, pegs1) =
      play-moves n f v t p (n ∷ ds) fv ft (λ q. tv (sym q)) e (le_refl n) (Above-pred n (p v) c)
        (Above-pred n (p t) b) in
    let there1 : p1 t ≡ p t = pegs1 t ∙ carried_rest n f v (n ∷ ds) p t (λ q. tv (sym q)) ft in
    let p2 : Pegs = between n f t ds p1 in
    let (p3, played3, pegs3) =
      play-moves n v t f p2 (p v) (λ q. tv (sym q)) (λ q. fv (sym q)) (λ q. ft (sym q))
        (between_via n f t v ds p1 ft fv tv ∙ (pegs1 v ∙ carried_dst n f v (n ∷ ds) p))
        (Above-pred n (p v) c) (rw (between_dst n f t v ds p1 ft fv tv) (le_refl n))
        (rw (between_src n f t v ds p1 ft fv tv) (Above-pred n ds a)) in
    (
      p3,
      play-moves_suc n f t v p p1 played1
          (move_lem p1 f t n ds ft (pegs1 f ∙ carried_src n f v (n ∷ ds) p fv) (rw there1 b))
          played3,
      λ x. pegs3 x ∙ carried-between n f t v ds p p1 x ft fv tv there1 (pegs1 x),
    )

-- For 1 to 31 disks, as many as an int can count the moves of, and three pegs, `hanoi` returns 2 ^ n - 1 and prints moves that are legal on any pegs
-- where `f` has n disks on top of larger ones, and take just those disks from `f` to `t`.
pub hanoi-solves :
    (n f t v : ℕ) (p : Pegs) (ds : List ℕ)
    → 1 ≤ n
    → n ≤ max_disks
    → f ≢ t
    → f ≢ v
    → t ≢ v
    → p f ≡ tower n ds
    → Above n ds
    → Above n (p t)
    → Above n (p v)
    → (s : Solved) × (hanoi n f t v ≡ some s)
      × (s.count + 1 ≡ 2 ^ n)
      × (p' : Pegs) × (play s.moves p ≡ some p')
      × ((x : ℕ) → p' x ≡ carried n f t ds p x)
hanoi-solves zero f t v p ds le few ft fv tv e a b c = absurd (omega arith)
hanoi-solves (suc n) f t v p ds le few ft fv tv e a b c =
    let (p', played, pegs) = play-moves (suc n) f t v p ds ft fv tv e a b c in
    (solved (suc n) f t v, hanoi_lem n f t v, counted_exact (suc n) f t v few, p', played, pegs)
