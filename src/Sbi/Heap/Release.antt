-- ===== src/Sbi/Heap/Release.antt =====
-- `sbi_free_from` of sbi_heap.c, and what a call may end in.
use inside_system.Prelude.{
  ℕ, suc, ◌+◌, ◌^◌, ◌<◌, ◌≡◌, refl, sym, ap, subst, ◌∙◌, List, [], ◌∷◌, ◌++◌, some, arith, length,
  length-append, ltb, ◌==◌, ==-eq, Bool-cases, inl, inr,
}
use inside_system.Sbi.Heap.{HeapNode, HeapControl, Found, add64, put_back, free_found, total}
use inside_system.Sbi.Heap.Cover.{
  inside, cover, cover-append, total-append, Fits, AllFit, none_left, one_more, Tiled, lowest,
  end_of, AllFit-append, AllFit-before, AllFit-after, AllFit-head, AllFit-tail, inside-cut,
}
use inside_system.Sbi.Heap.Find.{Splits}

-- A free list with a block put back.
record PutBack (lo hi : ℕ) (np : HeapNode) (ns : List HeapNode) (r : List HeapNode × ℕ)
    : Type 0 where
  covers : (x : ℕ) → cover x r.0 ≡ inside x np + cover x ns
  sizes : total r.0 ≡ np.size + total ns
  fit : AllFit lo hi r.0
  lengths : length r.0 + r.1 ≡ suc (length ns)

joined-PutBack :
    (lo hi : ℕ) (np n k : HeapNode) (ns : List HeapNode)
    → ((x : ℕ) → inside x np + inside x n ≡ inside x k)
    → np.size + n.size ≡ k.size
    → Fits lo hi k
    → AllFit lo hi ns
    → PutBack lo hi np (n ∷ ns) (k ∷ ns, 1)
unfolding cover total
joined-PutBack lo hi np n k ns cut e b a = record {
  covers = λ x. omega (arith, cut x);
  sizes = omega (arith, e);
  fit = one_more k ns b a;
  lengths = omega arith;
}

passed-PutBack :
    (lo hi : ℕ) (np n : HeapNode) (ns : List HeapNode) (r : List HeapNode × ℕ)
    → Fits lo hi n
    → PutBack lo hi np ns r
    → PutBack lo hi np (n ∷ ns) (n ∷ r.0, r.1)
unfolding cover total
passed-PutBack lo hi np n ns r c p = record {
  covers = λ x. omega (arith, p.covers x);
  sizes = omega (arith, p.sizes);
  fit = one_more n r.0 c p.fit;
  lengths = omega (arith, p.lengths);
}

put_back-PutBack :
    (lo hi : ℕ) (np : HeapNode) (ns : List HeapNode)
    → hi < 2 ^ 64
    → Fits lo hi np
    → AllFit lo hi ns
    → PutBack lo hi np ns (put_back np ns)
unfolding put_back cover total
put_back-PutBack lo hi np [] h b a = record {
  covers = λ x. refl;
  sizes = refl;
  fit = one_more np [] b none_left;
  lengths = refl;
}
put_back-PutBack lo hi np (n ∷ ns) h b (one_more _ _ c a) =
    let rest = put_back-PutBack lo hi np ns h b a in
    elim (Bool-cases (add64 np.addr np.size == n.addr)) [
      | inl before ↦ rw before (in_front (==-eq before))
      | inr apart ↦ rw apart (elim (Bool-cases (np.addr == add64 n.addr n.size)) [
        | inl behind ↦ rw behind (at_end (==-eq behind))
        | inr elsewhere ↦ rw elsewhere (elim (Bool-cases (ltb (add64 n.addr n.size) np.addr)) [
          | inl above ↦ rw above (record {
            covers = λ x. omega arith;
            sizes = omega arith;
            fit = one_more n (np ∷ ns) c (one_more np ns b a);
            lengths = omega arith;
          })
          | inr below ↦ rw below (passed-PutBack lo hi np n ns (put_back np ns) c rest)
        ])
      ])
    ]
  where
    in_front :
        add64 np.addr np.size ≡ n.addr
        → PutBack lo hi np (n ∷ ns) (record { addr = np.addr; size = add64 n.size np.size } ∷ ns, 1)
    in_front e =
        let starts : n.addr ≡ np.addr + np.size = omega (arith, e, b.high, h) in
        let sum : np.size + n.size ≡ add64 n.size np.size = omega (arith, starts, c.high, h) in
        joined-PutBack lo hi np n (record { addr = np.addr; size = add64 n.size np.size }) ns
          (λ x. inside-cut x np.addr np.size n.size (add64 n.size np.size) n.addr starts sum) sum
          (record {
            positive = omega (arith, sum, b.positive);
            low = b.low;
            high = omega (arith, sum, starts, c.high);
          })
          a

    at_end :
        np.addr ≡ add64 n.addr n.size
        → PutBack lo hi np (n ∷ ns) (record n { size = add64 n.size np.size } ∷ ns, 1)
    at_end e =
        let starts : np.addr ≡ n.addr + n.size = omega (arith, e, c.high, h) in
        let sum : n.size + np.size ≡ add64 n.size np.size = omega (arith, starts, b.high, h) in
        joined-PutBack lo hi np n (record n { size = add64 n.size np.size }) ns
          (λ x.
            omega
              (arith, inside-cut x n.addr n.size np.size (add64 n.size np.size) np.addr starts sum))
          (omega (arith, sum))
          (record {
            positive = omega (arith, sum, c.positive);
            low = c.low;
            high = omega (arith, sum, starts, b.high);
          })
          a

-- A used block has become free.
pub record Freed (hp : HeapControl) (n : HeapNode) (hp' : HeapControl) : Type 0 where
  pub used : (x : ℕ) → cover x hp'.used_space + inside x n ≡ cover x hp.used_space
  pub free : (x : ℕ) → cover x hp'.free_space ≡ cover x hp.free_space + inside x n
  pub tiled : Tiled hp'

pub free_found-Freed :
    (hp : HeapControl) (f : Found)
    → Tiled hp
    → Splits hp.used_space f
    → Freed hp f.node (free_found hp (some f))
unfolding free_found cover total
free_found-Freed hp f t s = record {
  used = less_used;
  free = λ x. omega (arith, p.covers x);
  tiled = record {
    base_positive = t.base_positive;
    hkbase_same = t.hkbase_same;
    hksize_less = t.hksize_less;
    end_small = t.end_small;
    covered = λ x. omega (arith, less_used x, p.covers x, t.covered x);
    free_fit = p.fit;
    used_fit =
        AllFit-append f.before f.after (AllFit-before f.before (f.node ∷ f.after) whole)
          (AllFit-tail tail);
    sizes = omega (arith, p.sizes, t.sizes, total-append f.before f.after, old_sizes);
    nodes = omega (arith, p.lengths, t.nodes, length-append f.before f.after, old_lengths);
  };
}
  where
    whole : AllFit (lowest hp) (end_of hp) (f.before ++ (f.node ∷ f.after))
    whole = subst (AllFit (lowest hp) (end_of hp)) (sym s) t.used_fit

    tail : AllFit (lowest hp) (end_of hp) (f.node ∷ f.after)
    tail = AllFit-after f.before (f.node ∷ f.after) whole

    p : PutBack (lowest hp) (end_of hp) f.node hp.free_space (put_back f.node hp.free_space)
    p =
        put_back-PutBack (lowest hp) (end_of hp) f.node hp.free_space t.end_small (AllFit-head tail)
          t.free_fit

    old_sizes : total f.before + (f.node.size + total f.after) ≡ total hp.used_space
    old_sizes = sym (total-append f.before (f.node ∷ f.after)) ∙ ap total s

    old_lengths : length f.before + suc (length f.after) ≡ length hp.used_space
    old_lengths = sym (length-append f.before (f.node ∷ f.after)) ∙ ap length s

    old_covers :
        (x : ℕ) → cover x f.before + (inside x f.node + cover x f.after) ≡ cover x hp.used_space
    old_covers x = sym (cover-append x f.before (f.node ∷ f.after)) ∙ ap (cover x) s

    less_used : (x : ℕ) → cover x (f.before ++ f.after) + inside x f.node ≡ cover x hp.used_space
    less_used x = omega (arith, cover-append x f.before f.after, old_covers x)
