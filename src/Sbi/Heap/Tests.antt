-- ===== src/Sbi/Heap/Tests.antt =====
-- A heap of 16 KiB, and the theorems about it.
use inside_system.Prelude.{◌≤◌, ◌≡◌, refl, [], ◌∷◌, none, some, arith}
use inside_system.Sbi.Heap.{
  HeapControl, Scratch, rounded, find_space, alloc_with_align, alloc_found, alloc_unpadded,
  sbi_free_from, sbi_heap_init_new, sbi_heap_init, total,
}
use inside_system.Sbi.Heap.Cover.{cover, Tiled, none_left, one_more, inside-cut}
use inside_system.Sbi.Heap.Alloc.{Outcome, alloc_with_align-Outcome}
use inside_system.Sbi.Heap.RoundTrip.{Restored, sbi_free_from-alloc_with_align}
use inside_system.Sbi.Heap.Init.{NewHeap, sbi_heap_init_new-Tiled, sbi_heap_init-faults}

-- With one block of 128 bytes in use.
abbrev heap : HeapControl
heap = record {
  base = 0x80040000;
  size = 16384;
  hkbase = 0x80040000;
  hksize = 1024;
  free_nodes = 30;
  free_space = record { addr = 0x80040480; size = 15232 } ∷ [];
  used_space = record { addr = 0x80040400; size = 128 } ∷ [];
}

heap-Tiled : Tiled heap
unfolding cover total
heap-Tiled = record {
  base_positive = omega arith;
  hkbase_same = refl;
  hksize_less = omega arith;
  end_small = omega arith;
  covered = λ x. omega (arith, inside-cut x 0x80040400 128 15232 15360 0x80040480 refl refl);
  free_fit = one_more _ [] (omega arith) none_left;
  used_fit = one_more _ [] (omega arith) none_left;
  sizes = refl;
  nodes = refl;
}

alloc_heap : (alloc_with_align heap 64 100).0 ≡ 0x80040480
unfolding alloc_with_align alloc_found alloc_unpadded find_space
alloc_heap = refl

alloc_with_align-Outcome_example :
    (100 ≤ rounded 64 100) × Outcome heap 64 (rounded 64 100) (alloc_with_align heap 64 100)
alloc_with_align-Outcome_example =
    alloc_with_align-Outcome heap 64 100 heap-Tiled (omega arith) (omega arith) (omega arith)
      (omega arith)

sbi_free_from-alloc_with_align_example :
    Restored heap (sbi_free_from (alloc_with_align heap 64 100).1 (alloc_with_align heap 64 100).0)
sbi_free_from-alloc_with_align_example =
    sbi_free_from-alloc_with_align heap 64 100 heap-Tiled (omega arith) (omega arith) (omega arith)
      (omega arith) (λ e. omega (arith, alloc_heap, e))

sbi_heap_init_new-Tiled_example :
    (hp : HeapControl) × (sbi_heap_init_new 0x80040000 16384 ≡ some hp)
    × NewHeap 0x80040000 16384 hp
sbi_heap_init_new-Tiled_example =
    sbi_heap_init_new-Tiled 0x80040000 16384 (omega arith) (omega arith) (omega arith)

-- With a heap of 8 KiB at the end of the firmware.
abbrev small_scratch : Scratch
small_scratch = record {
  fw_start = 0x80000000;
  fw_size = 0x50000;
  fw_rw_offset = 0x40000;
  fw_heap_offset = 0x4e000;
  fw_heap_size = 0x2000;
}

sbi_heap_init-faults_example : sbi_heap_init small_scratch ≡ none
sbi_heap_init-faults_example = sbi_heap_init-faults small_scratch refl (omega arith)
