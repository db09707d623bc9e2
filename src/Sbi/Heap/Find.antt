-- ===== src/Sbi/Heap/Find.antt =====
-- The searches of `alloc_with_align` and `sbi_free_from`, and the rounding of addresses and sizes.
use native.Mathlib.Nat.{div-add-mod', mod-lt, mul-mod_left}
use inside_system.Prelude.{
  ℕ, ◌+◌, ◌-◌, ◌*◌, ◌/◌, ◌%◌, ◌^◌, ◌≤◌, ◌<◌, ◌≡◌, refl, ap, subst, ◌∙◌, List, [], ◌∷◌, ◌++◌, none,
  some, arith, leb, leb→le, Bool-cases, inl, inr, Option-cases, eq-of-some, if◌then◌else◌,
}
use inside_system.Sbi.Heap.{
  HeapNode, Found, roundup, rounded, pad_of, add64, sub64, find_space, find_used, holds,
}
use inside_system.Sbi.Heap.Cover.{inside, cover, Fits, AllFit, one_more}

-- What a search gives stands in the list.
abbrev pub Splits : List HeapNode → Found → Type 0
Splits ns f = f.before ++ (f.node ∷ f.after) ≡ ns

pub find_space-Splits :
    (align size : ℕ) (ns : List HeapNode) (f : Found)
    → find_space align size ns ≡ some f
    → Splits ns f × (add64 size (pad_of align f.node.addr) ≤ f.node.size)
unfolding find_space
find_space-Splits align size [] f e = cc
find_space-Splits align size (n ∷ ns) f e =
    elim (Bool-cases (leb (add64 size (pad_of align n.addr)) n.size)) [
      | inl fits ↦
          subst (λ g. Splits (n ∷ ns) g × (add64 size (pad_of align g.node.addr) ≤ g.node.size))
            (eq-of-some (rw fits at e)) (refl, leb→le _ _ fits)
      | inr small ↦ elim (Option-cases (find_space align size ns)) [
        | inl none_found ↦ cc (rw (small, none_found) at e)
        | inr (g, found) ↦
            let (s, room) = find_space-Splits align size ns g found in
            subst (λ h. Splits (n ∷ ns) h × (add64 size (pad_of align h.node.addr) ≤ h.node.size))
              (eq-of-some (rw (small, found) at e)) (ap (λ xs. n ∷ xs) s, room)
      ]
    ]

-- An address, rounded up: a multiple, less than one multiple on.
pub roundup-multiple :
    (align a : ℕ)
    → 0 < align
    → 0 < a
    → a + align ≤ 2 ^ 64
    → (roundup a align % align ≡ 0)
      × (roundup a align ≡ a + pad_of align a)
      × (pad_of align a < align)
roundup-multiple align a pos some_addr small =
    let q : ℕ = (a - 1) / align in
    let r : ℕ = (a - 1) % align in
    let parts : q * align + r ≡ a - 1 = div-add-mod' (a - 1) align in
    let less : r < align = mod-lt (a - 1) pos in
    let one_less : sub64 a 1 ≡ a - 1 = omega arith in
    let low : roundup a align ≡ (q + 1) * align =
      ap (λ x. (x / align + 1) * align % 2 ^ 64) one_less ∙ omega (arith, parts, less) in
    (
      ap (λ x. x % align) low ∙ mul-mod_left (q + 1) align,
      omega (arith, low, parts, less),
      omega (arith, low, parts, less),
    )

-- The test of the search, on a block that fits, is whether it covers the address.
holds-inside :
    (ptr lo hi : ℕ) (n : HeapNode)
    → hi < 2 ^ 64
    → Fits lo hi n
    → inside ptr n ≡ (if holds ptr n then 1 else 0)
unfolding inside
holds-inside ptr lo hi n h b = ground (arith, b.high)

-- A size, rounded up.
pub rounded-multiple :
    (align size : ℕ)
    → 0 < align
    → 0 < size
    → size + align ≤ 2 ^ 64
    → (size ≤ rounded align size) × (rounded align size < size + align)
rounded-multiple align size pos some_size small =
    let x : ℕ = size + (align - 1) in
    let parts : x / align * align + x % align ≡ x = div-add-mod' x align in
    let less : x % align < align = mod-lt x pos in
    let no_wrap : add64 size (align - 1) ≡ x = omega arith in
    let low : rounded align size ≡ x / align * align = ap (λ y. y / align * align) no_wrap in
    (omega (arith, low, parts, less), omega (arith, low, parts, less))

-- The search in the used blocks takes the first one that covers the address.
pub find_used-Splits :
    (ptr lo hi : ℕ) (ns : List HeapNode) (f : Found)
    → hi < 2 ^ 64
    → AllFit lo hi ns
    → find_used ptr ns ≡ some f
    → Splits ns f × (inside ptr f.node ≡ 1) × (cover ptr f.before ≡ 0)
unfolding find_used cover
find_used-Splits ptr lo hi [] f h a e = cc
find_used-Splits ptr lo hi (n ∷ ns) f h (one_more _ _ b a) e = elim (Bool-cases (holds ptr n)) [
  | inl covers ↦
      subst (λ g. Splits (n ∷ ns) g × (inside ptr g.node ≡ 1) × (cover ptr g.before ≡ 0))
        (eq-of-some (rw covers at e)) (refl, holds-inside ptr lo hi n h b ∙ rw covers refl, refl)
  | inr misses ↦ elim (Option-cases (find_used ptr ns)) [
    | inl none_found ↦ cc (rw (misses, none_found) at e)
    | inr (g, found) ↦
        let (s, i, c) = find_used-Splits ptr lo hi ns g h a found in
        subst (λ k. Splits (n ∷ ns) k × (inside ptr k.node ≡ 1) × (cover ptr k.before ≡ 0))
          (eq-of-some (rw (misses, found) at e))
          (ap (λ xs. n ∷ xs) s, i, rw (c, holds-inside ptr lo hi n h b, misses) refl)
  ]
]

-- It finds none only if no block covers the address.
pub find_used-none :
    (ptr lo hi : ℕ) (ns : List HeapNode)
    → hi < 2 ^ 64
    → AllFit lo hi ns
    → find_used ptr ns ≡ none
    → cover ptr ns ≡ 0
unfolding find_used cover
find_used-none ptr lo hi [] h a e = refl
find_used-none ptr lo hi (n ∷ ns) h (one_more _ _ b a) e = elim (Bool-cases (holds ptr n)) [
  | inl covers ↦ cc (rw covers at e)
  | inr misses ↦ elim (Option-cases (find_used ptr ns)) [
    | inl none_found ↦
        rw (find_used-none ptr lo hi ns h a none_found, holds-inside ptr lo hi n h b, misses) refl
    | inr (g, found) ↦ cc (rw (misses, found) at e)
  ]
]

-- A block behind others that do not cover the address is found.
pub find_used-last :
    (ptr lo hi : ℕ) (ns : List HeapNode) (n : HeapNode)
    → hi < 2 ^ 64
    → AllFit lo hi (ns ++ (n ∷ []))
    → cover ptr ns ≡ 0
    → inside ptr n ≡ 1
    → find_used ptr (ns ++ (n ∷ [])) ≡ some (record { before = ns; node = n; after = [] })
unfolding find_used cover
find_used-last ptr lo hi [] n h (one_more _ _ b a) c i = elim (Bool-cases (holds ptr n)) [
  | inl covers ↦ rw covers refl
  | inr misses ↦ absurd (omega (arith, i, rw misses at (holds-inside ptr lo hi n h b)))
]
find_used-last ptr lo hi (m ∷ ns) n h (one_more _ _ b a) c i = elim (Bool-cases (holds ptr m)) [
  | inl covers ↦ absurd (omega (arith, c, rw covers at (holds-inside ptr lo hi m h b)))
  | inr misses ↦ rw (misses, find_used-last ptr lo hi ns n h a (omega (arith, c)) i) refl
]

-- No block of the list has room for `size` bytes behind its pad.
pub data AllSmall (align size : ℕ) : List HeapNode → Type 0 where
  no_blocks : AllSmall align size []
  small_block :
      (n : HeapNode) (ns : List HeapNode)
      → n.size < add64 size (pad_of align n.addr)
      → AllSmall align size ns
      → AllSmall align size (n ∷ ns)

pub find_space-AllSmall :
    (align size : ℕ) (ns : List HeapNode) → find_space align size ns ≡ none → AllSmall align size ns
unfolding find_space
find_space-AllSmall align size [] e = no_blocks
find_space-AllSmall align size (n ∷ ns) e =
    elim (Bool-cases (leb (add64 size (pad_of align n.addr)) n.size)) [
      | inl fits ↦ cc (rw fits at e)
      | inr small ↦ elim (Option-cases (find_space align size ns)) [
        | inl none_found ↦
            small_block n ns (ground (arith, small)) (find_space-AllSmall align size ns none_found)
        | inr (g, found) ↦ cc (rw (small, found) at e)
      ]
    ]
