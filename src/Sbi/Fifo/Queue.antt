-- ===== src/Sbi/Fifo/Queue.antt =====
-- What a fifo promises: a list of at most `cap` entries, the oldest first.
use inside_system.Prelude.{
  ℕ, Bool, true, false, ◌||◌, List, [], ◌∷◌, ◌++◌, Option, none, some, length, ◌==◌, if◌then◌else◌,
}
use inside_system.Sbi.Status.{Status, ok, enospc, enoent}

module _ {A : Type 0} where
  abbrev pub drop_first : List A → List A
  drop_first [] = []
  drop_first (x ∷ xs) = xs

  -- A full queue refuses an entry, or loses its oldest one to it.
  abbrev pub enqueue_full : List A → A → Bool → Status × List A
  enqueue_full q a true = (ok, drop_first q ++ (a ∷ []))
  enqueue_full q a false = (enospc, q)

  abbrev pub enqueue : ℕ → List A → A → Bool → Status × List A
  enqueue cap q a force = if length q == cap then enqueue_full q a force else (ok, q ++ (a ∷ []))

  abbrev pub dequeue : List A → Status × Option A × List A
  dequeue [] = (enoent, none, [])
  dequeue (x ∷ xs) = (ok, some x, xs)

  -- The entries are offered in order, until one is skipped (0) or updated (1).
  unfoldable pub update : (A → ℕ × A) → ℕ → List A → ℕ × List A
  update fptr ret [] = (ret, [])
  update fptr ret (x ∷ xs) =
      let (r, a) = fptr x in
      let (r', ys) = update fptr r xs in if r == 0 || r == 1 then (r, a ∷ xs) else (r', a ∷ ys)
