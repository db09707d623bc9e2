-- ===== src/Sbi/Heap/Alloc.antt =====
-- `alloc_with_align` of sbi_heap.c, and what a call may end in.
use inside_system.Prelude.{
  ℕ, ◌+◌, ◌-◌, ◌*◌, ◌%◌, ◌^◌, ◌≤◌, ◌<◌, ◌≡◌, ◌≢◌, ◌⊎◌, refl, sym, subst, true, false, [], ◌∷◌, ◌++◌,
  some, arith, ltb, ◌&&◌, ◌==◌, ==-eq, ==-ne, Bool-cases, inl, inr, Option-cases,
}
use inside_system.Sbi.Heap.{
  HeapNode, HeapControl, Found, roundup, rounded, pad_of, add64, sub64, find_space, use_block,
  alloc_padded, alloc_unpadded, alloc_found, alloc_with_align,
}
use inside_system.Sbi.Heap.Cover.{Tiled, end_of, inside-cut}
use inside_system.Sbi.Heap.Find.{
  Splits, find_space-Splits, roundup-multiple, rounded-multiple, AllSmall, find_space-AllSmall,
}
use inside_system.Sbi.Heap.Carve.{
  Carved, Without, Parts, Splits-Parts, use_block-Carved, between, beside, whole_node,
}

-- What a call may end in: NULL with nothing changed, where no free block is large enough or there
-- are no nodes left to cut it with, or a block with an address that is a multiple of `align`.
abbrev pub Outcome : HeapControl → ℕ → ℕ → ℕ × HeapControl → Type 0
Outcome hp align size r =
    ((r ≡ (0, hp)) × (AllSmall align size hp.free_space ⊎ (hp.free_nodes ≤ 1)))
    ⊎ ((0 < r.0) × (r.0 % align ≡ 0) × Carved hp r.0 size r.1)

-- The numbers of an allocation: those that the code rounds, and that nothing wraps round.
record Numbers (hp : HeapControl) (align size : ℕ) (f : Found) : Type 0 where
  some_size : 0 < size
  multiple : roundup f.node.addr align % align ≡ 0
  low : roundup f.node.addr align ≡ f.node.addr + pad_of align f.node.addr
  need : add64 size (pad_of align f.node.addr) ≡ size + pad_of align f.node.addr
  room : size + pad_of align f.node.addr ≤ f.node.size

-- Both parts of a test that holds, and one that does not.
test_true : (a b c : ℕ) → (ltb a b && ltb 0 c) ≡ true → (a < b) × (0 < c)
test_true a b c h = (ground (arith, h), ground (arith, h))

test_false : (a b c : ℕ) → (ltb a b && ltb 0 c) ≡ false → a ≤ b → a ≢ b → c ≡ 0
test_false a b c h le ne = ground (arith, h, le, ne)

module _ (hp : HeapControl) (align size : ℕ) (f : Found) (t : Tiled hp) (p : Parts hp f)
    (n : Numbers hp align size f) where
  unpadded : pad_of align f.node.addr ≡ 0 → Outcome hp align size (alloc_unpadded hp size f)
  unfolding alloc_unpadded
  unpadded z = elim (Bool-cases (ltb size f.node.size && ltb 0 hp.free_nodes)) [
    | inl cut ↦
        rw cut (inr (not_null, aligned, use_block-Carved hp b _ _ t (front (test_true _ _ _ cut))))
    | inr uncut ↦ rw uncut (elim (Bool-cases (size == f.node.size)) [
      | inl same ↦ rw same (
          inr (
            not_null,
            aligned,
            subst
                (λ s.
                  Carved hp f.node.addr s
                    (use_block f.node (record hp { free_space = f.before ++ f.after })).1)
                (sym (==-eq same)) (use_block-Carved hp f.node _ _ t (whole_node hp f p)),
          ))
      | inr other ↦ rw other (
          inl (
            refl,
            inr (omega (arith, test_false _ _ _ uncut (omega (arith, n.room)) (==-ne other))),
          ))
    ])
  ]
    where
      b : HeapNode
      b = record { addr = f.node.addr; size = size }

      not_null : 0 < f.node.addr
      not_null = omega (arith, p.node_fit.low, t.base_positive, t.hkbase_same)

      aligned : f.node.addr % align ≡ 0
      aligned = subst (λ x. x % align ≡ 0) (omega (arith, n.low, z)) n.multiple

      front :
          (size < f.node.size) × (0 < hp.free_nodes)
          → Without hp b (hp.free_nodes - 1) (
              f.before
              ++ (record { addr = add64 f.node.addr size; size = sub64 f.node.size size }
                  ∷ f.after))
      front (less, some_node) =
          let high : ℕ = add64 f.node.addr size in
          let rest : ℕ = sub64 f.node.size size in
          let no_wrap : high ≡ f.node.addr + size =
            omega (arith, p.node_fit.high, t.end_small, less) in
          let sum : size + rest ≡ f.node.size = omega (arith, p.node_fit.high, t.end_small, less) in
          beside hp f p (record { addr = high; size = rest }) b (hp.free_nodes - 1)
            (λ x. omega (arith, inside-cut x f.node.addr size rest f.node.size high no_wrap sum))
            (omega (arith, sum))
            (record {
              positive = omega (arith, sum, less);
              low = omega (arith, p.node_fit.low, no_wrap);
              high = omega (arith, p.node_fit.high, no_wrap, sum);
            })
            (record {
              positive = n.some_size;
              low = p.node_fit.low;
              high = omega (arith, p.node_fit.high, less);
            })
            (omega (arith, some_node))

  padded : 0 < pad_of align f.node.addr → Outcome hp align size (alloc_padded hp align size f)
  unfolding alloc_padded
  padded z = elim (Bool-cases (hp.free_nodes == 0)) [
    | inl empty ↦ rw empty (inl (refl, inr (omega (arith, ==-eq empty))))
    | inr left ↦
        rw left
          (elim (Bool-cases (
            ltb (add64 size (pad_of align f.node.addr)) f.node.size && ltb 0 (hp.free_nodes - 1))) [
              | inl cut ↦ rw cut (
                  inr (
                    not_null,
                    n.multiple,
                    use_block-Carved hp b _ _ t (middle (test_true _ _ _ cut)),
                  ))
              | inr uncut ↦
                  rw uncut
                    (elim (Bool-cases (add64 size (pad_of align f.node.addr) == f.node.size)) [
                      | inl same ↦ rw same (
                          inr (
                            not_null,
                            n.multiple,
                            use_block-Carved hp b _ _ t (back (==-eq same) (==-ne left)),
                          ))
                      | inr other ↦ rw other (
                          inl (
                            refl,
                            inr (
                                omega (
                                  arith,
                                  test_false _ _ _ uncut (omega (arith, n.room, n.need))
                                      (==-ne other),
                                )),
                          ))
                    ])
            ])
  ]
    where
      b : HeapNode
      b = record { addr = roundup f.node.addr align; size = size }

      not_null : 0 < roundup f.node.addr align
      not_null = omega (arith, n.low, p.node_fit.low, t.base_positive, t.hkbase_same)

      middle :
          (add64 size (pad_of align f.node.addr) < f.node.size) × (0 < hp.free_nodes - 1)
          → Without hp b (hp.free_nodes - 1 - 1) (
              (f.before
                ++ (record { addr = f.node.addr; size = pad_of align f.node.addr } ∷ f.after))
              ++ (record {
                addr = add64 f.node.addr (add64 size (pad_of align f.node.addr));
                size = sub64 f.node.size (add64 size (pad_of align f.node.addr));
              }
                  ∷ []))
      middle (less, some_nodes) =
          between hp f p (pad_of align f.node.addr) size
            (sub64 f.node.size (add64 size (pad_of align f.node.addr))) (roundup f.node.addr align)
            (add64 f.node.addr (add64 size (pad_of align f.node.addr))) (hp.free_nodes - 1 - 1) z
            n.some_size (omega (arith, less, p.node_fit.high, t.end_small)) n.low
            (omega (arith, less, p.node_fit.high, t.end_small, n.need))
            (omega (arith, less, p.node_fit.high, t.end_small, n.need)) (omega (arith, some_nodes))

      back :
          add64 size (pad_of align f.node.addr) ≡ f.node.size
          → hp.free_nodes ≢ 0
          → Without hp b (hp.free_nodes - 1) (
              f.before
              ++ (record { addr = f.node.addr; size = pad_of align f.node.addr } ∷ f.after))
      back same some_node =
          let sum : pad_of align f.node.addr + size ≡ f.node.size = omega (arith, same, n.need) in
          beside hp f p (record { addr = f.node.addr; size = pad_of align f.node.addr }) b
            (hp.free_nodes - 1)
            (λ x.
              inside-cut x f.node.addr (pad_of align f.node.addr) size f.node.size
                (roundup f.node.addr align) n.low sum)
            sum
            (record {
              positive = z;
              low = p.node_fit.low;
              high = omega (arith, p.node_fit.high, sum);
            })
            (record {
              positive = n.some_size;
              low = omega (arith, p.node_fit.low, n.low);
              high = omega (arith, p.node_fit.high, n.low, sum);
            })
            (omega (arith, some_node))

-- The block found, with its numbers.
found-Numbers :
    (hp : HeapControl) (align size : ℕ) (f : Found)
    → Tiled hp
    → Parts hp f
    → 0 < align
    → 0 < size
    → size + align ≤ 2 ^ 64
    → end_of hp + align ≤ 2 ^ 64
    → add64 size (pad_of align f.node.addr) ≤ f.node.size
    → Numbers hp align size f
found-Numbers hp align size f t p pos some_size small ends room =
    let (multiple, low, less) =
      roundup-multiple align f.node.addr pos
        (omega (arith, p.node_fit.low, t.base_positive, t.hkbase_same))
        (omega (arith, p.node_fit.high, p.node_fit.positive, ends)) in
    let need : add64 size (pad_of align f.node.addr) ≡ size + pad_of align f.node.addr =
      omega (arith, less, small) in
    record {
      some_size = some_size;
      multiple = multiple;
      low = low;
      need = need;
      room = omega (arith, room, need);
    }

-- On a heap whose lists tile it, with `align` at most 2 ^ 64 less the end of the heap and `size` not
-- 0 and at most 2 ^ 64 - 2 * `align`: `alloc_with_align` changes nothing and gives NULL, where no free
-- block has room or at most one node is left; or it gives a multiple of `align` at which a free block
-- of `size` bytes, rounded up, has become used, with every other byte as before and the heap tiled.
pub alloc_with_align-Outcome :
    (hp : HeapControl) (align size : ℕ)
    → Tiled hp
    → 0 < align
    → 0 < size
    → size + 2 * align ≤ 2 ^ 64
    → end_of hp + align ≤ 2 ^ 64
    → (size ≤ rounded align size)
      × Outcome hp align (rounded align size) (alloc_with_align hp align size)
unfolding alloc_with_align alloc_found
alloc_with_align-Outcome hp align size t pos some_size small ends = (
  bounds.0,
  rw not_zero (elim (Option-cases (find_space align (rounded align size) hp.free_space)) [
    | inl none_found ↦
        rw none_found (
          inl (refl, inl (find_space-AllSmall align (rounded align size) hp.free_space none_found)))
    | inr (f, found) ↦
        rw found (taken f (find_space-Splits align (rounded align size) hp.free_space f found))
  ]),
)
  where
    bounds : (size ≤ rounded align size) × (rounded align size < size + align)
    bounds = rounded-multiple align size pos some_size (omega arith)

    not_zero : (size == 0) ≡ false
    not_zero = ground arith

    taken :
        (f : Found)
        → Splits hp.free_space f
          × (add64 (rounded align size) (pad_of align f.node.addr) ≤ f.node.size)
        → Outcome hp align (rounded align size) (alloc_found hp align (rounded align size) (some f))
    taken f (s, room) =
        let p = Splits-Parts hp f t s in
        let n =
          found-Numbers hp align (rounded align size) f t p pos (omega (arith, bounds))
            (omega (arith, bounds)) ends room in
        elim (Bool-cases (pad_of align f.node.addr == 0)) [
          | inl z ↦ rw z (unpadded hp align (rounded align size) f t p n (==-eq z))
          | inr nz ↦ rw nz (padded hp align (rounded align size) f t p n (omega (arith, ==-ne nz)))
        ]
