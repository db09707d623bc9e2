-- ===== src/Sbi/Heap/RoundTrip.antt =====
-- An allocation from sbi_heap.c that is freed at once.
use inside_system.Prelude.{
  ℕ, ◌+◌, ◌-◌, ◌*◌, ◌^◌, ◌≤◌, ◌<◌, ◌≡◌, ◌≢◌, sym, ap, subst, ◌∙◌, false, [], some, arith, ◌==◌, inl,
  inr,
}
use inside_system.Sbi.Heap.{
  HeapNode, HeapControl, Found, rounded, alloc_with_align, find_used, free_found, sbi_free_from,
}
use inside_system.Sbi.Heap.Cover.{cover, AllFit, Tiled, lowest, end_of, inside_self, inside-le}
use inside_system.Sbi.Heap.Carve.{Carved}
use inside_system.Sbi.Heap.Alloc.{alloc_with_align-Outcome}
use inside_system.Sbi.Heap.Find.{find_used-last}
use inside_system.Sbi.Heap.Release.{Freed, free_found-Freed}

-- Every byte is as free, or as used, as it was.
pub record Restored (hp hp' : HeapControl) : Type 0 where
  pub used : (x : ℕ) → cover x hp'.used_space ≡ cover x hp.used_space
  pub free : (x : ℕ) → cover x hp'.free_space ≡ cover x hp.free_space
  pub tiled : Tiled hp'

-- What was just taken is what is given back.
pub sbi_free_from-Carved :
    (hp hp' : HeapControl) (addr size : ℕ)
    → 0 < addr
    → 0 < size
    → Carved hp addr size hp'
    → Restored hp (sbi_free_from hp' addr)
unfolding sbi_free_from
sbi_free_from-Carved hp hp' addr size pos some_size c =
    rw (not_null, found)
      (record {
        used = λ x. omega (arith, freed.used x, c.used x);
        free = λ x. omega (arith, freed.free x, c.free x);
        tiled = freed.tiled;
      })
  where
    b : HeapNode
    b = record { addr = addr; size = size }

    f : Found
    f = record { before = hp.used_space; node = b; after = [] }

    not_null : (addr == 0) ≡ false
    not_null = ground arith

    alone : cover addr hp.used_space ≡ 0
    alone = omega (
      arith,
      c.used addr,
      c.tiled.covered addr,
      inside_self b some_size,
      inside-le addr (record { addr = lowest hp'; size = hp'.size - hp'.hksize }),
    )

    found : find_used addr hp'.used_space ≡ some f
    found =
        ap (find_used addr) c.last
        ∙ find_used-last addr (lowest hp') (end_of hp') hp.used_space b c.tiled.end_small
            (subst (AllFit (lowest hp') (end_of hp')) c.last c.tiled.used_fit) alone
            (inside_self b some_size)

    freed : Freed hp' b (free_found hp' (some f))
    freed = free_found-Freed hp' f c.tiled (sym c.last)

-- On a heap whose lists tile it, with `align` at most 2 ^ 64 less the end of the heap and `size` not
-- 0 and at most 2 ^ 64 - 2 * `align`: a block from `alloc_with_align` that is freed at once leaves
-- every byte of the heap as free, or as used, as before, and the heap tiled.
pub sbi_free_from-alloc_with_align :
    (hp : HeapControl) (align size : ℕ)
    → Tiled hp
    → 0 < align
    → 0 < size
    → size + 2 * align ≤ 2 ^ 64
    → end_of hp + align ≤ 2 ^ 64
    → (alloc_with_align hp align size).0 ≢ 0
    → Restored hp
        (sbi_free_from (alloc_with_align hp align size).1 (alloc_with_align hp align size).0)
sbi_free_from-alloc_with_align hp align size t pos some_size small ends not_null =
    let (bound, outcome) = alloc_with_align-Outcome hp align size t pos some_size small ends in
    elim outcome [
      | inl (refused, _) ↦ absurd (not_null (ap (λ r. r.0) refused))
      | inr (real, _, c) ↦
          sbi_free_from-Carved hp (alloc_with_align hp align size).1
            (alloc_with_align hp align size).0 (rounded align size) real (omega (arith, bound)) c
    ]
