-- ===== src/Sbi/Heap/Cover.antt =====
-- The bytes that the blocks of a heap cover, and the invariant of its lists.
use inside_system.Prelude.{
  ℕ, ◌+◌, ◌-◌, ◌/◌, ◌^◌, ◌≤◌, ◌<◌, ◌≡◌, List, [], ◌∷◌, ◌++◌, arith, length, ltb, leb, ◌&&◌,
  if◌then◌else◌,
}
use inside_system.Sbi.Heap.{HeapNode, HeapControl, sizeof_node, total}

-- 1 for a byte of the block, 0 for any other.
unfoldable pub inside : ℕ → HeapNode → ℕ
inside x n = if leb n.addr x && ltb x (n.addr + n.size) then 1 else 0

-- How many blocks of the list cover a byte.
unfoldable pub cover : ℕ → List HeapNode → ℕ
cover x [] = 0
cover x (n ∷ ns) = inside x n + cover x ns

-- A block of one byte or more, from `lo` on and up to `hi`.
pub record Fits (lo hi : ℕ) (n : HeapNode) : Type 0 where
  pub positive : 0 < n.size
  pub low : lo ≤ n.addr
  pub high : n.addr + n.size ≤ hi

pub data AllFit (lo hi : ℕ) : List HeapNode → Type 0 where
  none_left : AllFit lo hi []
  one_more :
      (n : HeapNode) (ns : List HeapNode) → Fits lo hi n → AllFit lo hi ns → AllFit lo hi (n ∷ ns)

abbrev pub lowest : HeapControl → ℕ
lowest hp = hp.hkbase + hp.hksize

abbrev pub end_of : HeapControl → ℕ
end_of hp = hp.base + hp.size

-- Every byte behind the housekeeping area is in exactly one block, free or used, and no other byte in
-- any; sizes and nodes add up.
pub record Tiled (hp : HeapControl) : Type 0 where
  pub base_positive : 0 < hp.base
  pub hkbase_same : hp.hkbase ≡ hp.base
  pub hksize_less : hp.hksize < hp.size
  pub end_small : end_of hp < 2 ^ 64
  pub covered :
      (x : ℕ)
      → cover x hp.free_space + cover x hp.used_space
        ≡ inside x (record { addr = lowest hp; size = hp.size - hp.hksize })
  pub free_fit : AllFit (lowest hp) (end_of hp) hp.free_space
  pub used_fit : AllFit (lowest hp) (end_of hp) hp.used_space
  pub sizes : total hp.free_space + total hp.used_space ≡ hp.size - hp.hksize
  pub nodes : hp.free_nodes + length hp.free_space + length hp.used_space ≡ hp.hksize / sizeof_node

pub cover-append : (x : ℕ) (ns ms : List HeapNode) → cover x (ns ++ ms) ≡ cover x ns + cover x ms
unfolding cover
cover-append x [] ms = omega arith
cover-append x (n ∷ ns) ms = omega (arith, cover-append x ns ms)

pub total-append : (ns ms : List HeapNode) → total (ns ++ ms) ≡ total ns + total ms
unfolding total
total-append [] ms = omega arith
total-append (n ∷ ns) ms = omega (arith, total-append ns ms)

pub AllFit-append :
    {lo hi : ℕ} (ns ms : List HeapNode)
    → AllFit lo hi ns
    → AllFit lo hi ms
    → AllFit lo hi (ns ++ ms)
AllFit-append [] ms a b = b
AllFit-append (n ∷ ns) ms (one_more _ _ f a) b = one_more n (ns ++ ms) f (AllFit-append ns ms a b)

pub AllFit-before : {lo hi : ℕ} (ns ms : List HeapNode) → AllFit lo hi (ns ++ ms) → AllFit lo hi ns
AllFit-before [] ms a = none_left
AllFit-before (n ∷ ns) ms (one_more _ _ f a) = one_more n ns f (AllFit-before ns ms a)

pub AllFit-after : {lo hi : ℕ} (ns ms : List HeapNode) → AllFit lo hi (ns ++ ms) → AllFit lo hi ms
AllFit-after [] ms a = a
AllFit-after (n ∷ ns) ms (one_more _ _ f a) = AllFit-after ns ms a

pub AllFit-head :
    {lo hi : ℕ} {n : HeapNode} {ns : List HeapNode} → AllFit lo hi (n ∷ ns) → Fits lo hi n
AllFit-head (one_more _ _ f a) = f

pub AllFit-tail :
    {lo hi : ℕ} {n : HeapNode} {ns : List HeapNode} → AllFit lo hi (n ∷ ns) → AllFit lo hi ns
AllFit-tail (one_more _ _ f a) = a

-- A block cut in two, or in three, covers what it covered.
pub inside-cut :
    (x a p s z low : ℕ)
    → low ≡ a + p
    → p + s ≡ z
    → inside x (record { addr = a; size = p }) + inside x (record { addr = low; size = s })
      ≡ inside x (record { addr = a; size = z })
unfolding inside
inside-cut x a p s z low e f = ground arith

pub inside-cut_three :
    (x a p s t z low high : ℕ)
    → low ≡ a + p
    → high ≡ a + p + s
    → p + s + t ≡ z
    → inside x (record { addr = a; size = p })
        + inside x (record { addr = low; size = s })
        + inside x (record { addr = high; size = t })
      ≡ inside x (record { addr = a; size = z })
unfolding inside
inside-cut_three x a p s t z low high e f g = ground arith

pub inside-le : (x : ℕ) (n : HeapNode) → inside x n ≤ 1
unfolding inside
inside-le x n = ground arith

pub inside_self : (n : HeapNode) → 0 < n.size → inside n.addr n ≡ 1
unfolding inside
inside_self n h = ground arith
