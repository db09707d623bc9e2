-- ===== src/Sbi/Fifo/Span.antt =====
-- The entries of a fifo as a list, and what the writes of sbi_fifo.c do to it.
use inside_system.Prelude.{
  ℕ, zero, suc, ◌+◌, ◌≤◌, ◌<◌, ◌≡◌, ◌≢◌, ◌⊎◌, refl, ap, ap₂, ◌∙◌, List, [], ◌∷◌, ◌++◌, arith,
  length, leb, if◌then◌else◌,
}
use inside_system.Sbi.Fifo.{slot, write}

-- The tail behind `t`.
abbrev pub next_tail : ℕ → ℕ → ℕ
next_tail n t = if leb n (t + 1) then 0 else t + 1

pub slot-injective : (n t i j : ℕ) → t < n → i < n → j < n → i ≢ j → slot n t i ≢ slot n t j
slot-injective n t i j ht hi hj ne e = ground arith

slot-next_tail : (n t i : ℕ) → t < n → i + 1 ≤ n → slot n t (i + 1) ≡ slot n (next_tail n t) i
slot-next_tail n t i ht hi = ground arith

pub write_ne : {A : Type 0} (q : ℕ → A) {i j : ℕ} (a : A) → i ≢ j → write q i a j ≡ q j
write_ne q a ne = ground arith

module _ {A : Type 0} (n : ℕ) where
  -- `k` entries from the index `i` behind the tail on.
  abbrev pub span : (ℕ → A) → ℕ → ℕ → ℕ → List A
  span q t i zero = []
  span q t i (suc k) = q (slot n t i) ∷ span q t (i + 1) k

  pub length-span : (q : ℕ → A) (t i k : ℕ) → length (span q t i k) ≡ k
  length-span q t i zero = refl
  length-span q t i (suc k) = ap suc (length-span q t (i + 1) k)

  pub span-suc :
      (q : ℕ → A) (t i k : ℕ) → span q t i (suc k) ≡ span q t i k ++ (q (slot n t (i + k)) ∷ [])
  span-suc q t i zero = ap (λ j. q (slot n t j) ∷ []) (omega arith)
  span-suc q t i (suc k) =
      ap (◌∷◌ (q (slot n t i))) (
        span-suc q t (i + 1) k
        ∙ ap (λ j. span q t (i + 1) k ++ (q (slot n t j) ∷ [])) (omega arith))

  -- A write outside the span leaves it.
  pub span-write :
      (q : ℕ → A) (t m : ℕ) (a : A) (i k : ℕ)
      → t < n
      → m < n
      → (m < i) ⊎ (i + k ≤ m)
      → i + k ≤ n
      → span (write q (slot n t m) a) t i k ≡ span q t i k
  span-write q t m a i zero ht hm out fit = refl
  span-write q t m a i (suc k) ht hm out fit =
      ap₂ ◌∷◌ (write_ne q a (slot-injective n t m i ht hm (omega arith) (omega arith)))
        (span-write q t m a (i + 1) k ht hm (omega arith) (omega arith))

  -- With the tail moved on by one, the entries are one index nearer.
  pub span-next_tail :
      (q : ℕ → A) (t i k : ℕ)
      → t < n
      → i + k + 1 ≤ n
      → span q t (i + 1) k ≡ span q (next_tail n t) i k
  span-next_tail q t i zero ht fit = refl
  span-next_tail q t i (suc k) ht fit =
      ap₂ ◌∷◌ (ap q (slot-next_tail n t i ht (omega arith)))
        (span-next_tail q t (i + 1) k ht (omega arith))
