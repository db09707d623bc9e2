-- ===== src/Sbi/Heap/Init.antt =====
-- A new heap, and the sums of the blocks.
use inside_system.Prelude.{
  ℕ, ◌+◌, ◌-◌, ◌*◌, ◌/◌, ◌%◌, ◌^◌, ◌≤◌, ◌<◌, ◌≡◌, refl, ap, ap₂, true, false, [], ◌∷◌, none, some,
  arith, ◌==◌,
}
use inside_system.Sbi.Heap.{
  HeapNode, HeapControl, Scratch, is_insane, sbi_heap_init_new, sbi_heap_init, total,
  sbi_heap_free_space_from, sbi_heap_used_space_from, add64, sub64, rounddown, sizeof_node,
  heap_housekeeping_factor, heap_base_align,
}
use inside_system.Sbi.Heap.Cover.{inside, cover, none_left, one_more, Tiled}

abbrev pub the_node : ℕ → ℕ → HeapNode
the_node a z = record { addr = a; size = z }

-- A new heap of `size` bytes at `base`: the housekeeping area is a 16th, down to a multiple of 1024, and
-- all behind it is one free block.
pub record NewHeap (base size : ℕ) (hp : HeapControl) : Type 0 where
  pub at_base : hp.base ≡ base
  pub of_size : hp.size ≡ size
  pub sixteenth :
      (hp.hksize % 1024 ≡ 0) × (16 * hp.hksize ≤ size) × (size < 16 * (hp.hksize + 1024))
  pub one_free : hp.free_space ≡ the_node (base + hp.hksize) (size - hp.hksize) ∷ []
  pub none_used : hp.used_space ≡ []
  pub tiled : Tiled hp

-- A heap of 16 KiB or more that ends before 2 ^ 64 and does not start at 0 has the base and the size
-- given. Its housekeeping area is a 16th of the size, down to a multiple of 1024; behind it one free
-- block reaches to the end, no block is used, and the blocks tile the heap.
pub sbi_heap_init_new-Tiled :
    (base size : ℕ)
    → 0 < base
    → base + size < 2 ^ 64
    → 16384 ≤ size
    → (hp : HeapControl) × (sbi_heap_init_new base size ≡ some hp) × NewHeap base size hp
unfolding sbi_heap_init_new cover total
sbi_heap_init_new-Tiled base size pos small large = (
  record {
    base = base;
    size = size;
    hkbase = base;
    hksize = hksize;
    free_nodes = hksize / sizeof_node - 1;
    free_space = whole ∷ [];
    used_space = [];
  },
  rw enough refl,
  record {
    at_base = refl;
    of_size = refl;
    sixteenth = (omega arith, omega arith, omega arith);
    one_free = ap (λ n. n ∷ []) same;
    none_used = refl;
    tiled = record {
      base_positive = pos;
      hkbase_same = refl;
      hksize_less = less;
      end_small = small;
      covered = λ x. omega (arith, ap (inside x) same);
      free_fit =
          one_more whole []
            (record { positive = omega arith; low = omega arith; high = omega arith }) none_left;
      used_fit = none_left;
      sizes = omega arith;
      nodes = omega arith;
    };
  },
)
  where
    hksize : ℕ
    hksize = rounddown (size / heap_housekeeping_factor) heap_base_align

    less : hksize < size
    less = omega arith

    enough : (hksize / sizeof_node == 0) ≡ false
    enough = ground arith

    whole : HeapNode
    whole = record { addr = add64 base hksize; size = sub64 size hksize }

    same : whole ≡ record { addr = base + hksize; size = size - hksize }
    same = ap₂ (λ a z. the_node a z) (omega (arith, small, less)) (omega (arith, small, less))

-- For a heap of less than 16 KiB there is no node for the free space.
init_new-small : (base size : ℕ) → size < 16384 → sbi_heap_init_new base size ≡ none
unfolding sbi_heap_init_new
init_new-small base size small = rw no_nodes refl
  where
    no_nodes :
        (rounddown (size / heap_housekeeping_factor) heap_base_align / sizeof_node == 0) ≡ true
    no_nodes = ground arith

-- Every scratch area that passes the checks of `sbi_heap_init` with a heap of less than 16 KiB makes
-- it use a node that is not there.
pub sbi_heap_init-faults :
    (s : Scratch) → is_insane s ≡ false → s.fw_heap_size < 16384 → sbi_heap_init s ≡ none
unfolding sbi_heap_init
sbi_heap_init-faults s sane small =
    rw (sane, init_new-small (add64 s.fw_start s.fw_heap_offset) s.fw_heap_size small) refl

-- On a heap whose lists tile it, and that is the global one, the free space and the used space are
-- the sums of the blocks, and together what is behind the housekeeping area.
used_space-free_space :
    (hp : HeapControl)
    → Tiled hp
    → (sbi_heap_used_space_from hp hp ≡ total hp.used_space)
      × (sbi_heap_free_space_from hp + sbi_heap_used_space_from hp hp ≡ hp.size - hp.hksize)
unfolding sbi_heap_used_space_from sbi_heap_free_space_from
used_space-free_space hp t = (
  omega (arith, t.sizes, t.end_small, t.hksize_less),
  omega (arith, t.sizes, t.end_small, t.hksize_less),
)
