-- ===== src/Sbi/Heap/Carve.antt =====
-- Taking a block out of the free list, in the four ways of sbi_heap.c.
use inside_system.Prelude.{
  ℕ, suc, ◌+◌, ◌<◌, ◌≡◌, refl, sym, ap, subst, ◌∙◌, List, [], ◌∷◌, ◌++◌, arith, length,
  length-append,
}
use inside_system.Sbi.Heap.{HeapNode, HeapControl, Found, use_block, total}
use inside_system.Sbi.Heap.Cover.{
  inside, cover, cover-append, total-append, Fits, AllFit, none_left, one_more, Tiled, lowest,
  end_of, AllFit-append, AllFit-before, AllFit-after, AllFit-head, AllFit-tail, inside-cut_three,
}
use inside_system.Sbi.Heap.Find.{Splits}

-- A free block of `size` bytes at `addr` has become a used one.
pub record Carved (hp : HeapControl) (addr size : ℕ) (hp' : HeapControl) : Type 0 where
  pub used :
      (x : ℕ)
      → cover x hp'.used_space
        ≡ cover x hp.used_space + inside x (record { addr = addr; size = size })
  pub free :
      (x : ℕ)
      → cover x hp'.free_space + inside x (record { addr = addr; size = size })
        ≡ cover x hp.free_space
  pub last : hp'.used_space ≡ hp.used_space ++ (record { addr = addr; size = size } ∷ [])
  pub tiled : Tiled hp'

-- A free list without the block, and with the nodes it takes.
pub record Without (hp : HeapControl) (b : HeapNode) (nodes : ℕ) (space : List HeapNode)
    : Type 0 where
  pub covers : (x : ℕ) → cover x space + inside x b ≡ cover x hp.free_space
  pub sizes : total space + b.size ≡ total hp.free_space
  pub fit : AllFit (lowest hp) (end_of hp) space
  pub block : Fits (lowest hp) (end_of hp) b
  pub nodes_same : nodes + length space + 1 ≡ hp.free_nodes + length hp.free_space

pub use_block-Carved :
    (hp : HeapControl) (b : HeapNode) (nodes : ℕ) (space : List HeapNode)
    → Tiled hp
    → Without hp b nodes space
    → Carved hp b.addr b.size (use_block b (record hp { free_nodes = nodes; free_space = space })).1
unfolding cover total
use_block-Carved hp b nodes space t w = record {
  used = more_used;
  free = w.covers;
  last = refl;
  tiled = record {
    base_positive = t.base_positive;
    hkbase_same = t.hkbase_same;
    hksize_less = t.hksize_less;
    end_small = t.end_small;
    covered = λ x. omega (arith, more_used x, w.covers x, t.covered x);
    free_fit = w.fit;
    used_fit = AllFit-append hp.used_space (b ∷ []) t.used_fit (one_more b [] w.block none_left);
    sizes = omega (arith, w.sizes, t.sizes, total-append hp.used_space (b ∷ []));
    nodes = omega (arith, w.nodes_same, t.nodes, length-append hp.used_space (b ∷ []));
  };
}
  where
    more_used : (x : ℕ) → cover x (hp.used_space ++ (b ∷ [])) ≡ cover x hp.used_space + inside x b
    more_used x = omega (arith, cover-append x hp.used_space (b ∷ []))

-- The parts of a free list that a search has split.
pub record Parts (hp : HeapControl) (f : Found) : Type 0 where
  pub covers :
      (x : ℕ) → cover x f.before + (inside x f.node + cover x f.after) ≡ cover x hp.free_space
  pub sizes : total f.before + (f.node.size + total f.after) ≡ total hp.free_space
  pub lengths : length f.before + suc (length f.after) ≡ length hp.free_space
  pub before_fit : AllFit (lowest hp) (end_of hp) f.before
  pub node_fit : Fits (lowest hp) (end_of hp) f.node
  pub after_fit : AllFit (lowest hp) (end_of hp) f.after

pub Splits-Parts : (hp : HeapControl) (f : Found) → Tiled hp → Splits hp.free_space f → Parts hp f
unfolding cover total
Splits-Parts hp f t s = record {
  covers = λ x. sym (cover-append x f.before (f.node ∷ f.after)) ∙ ap (cover x) s;
  sizes = sym (total-append f.before (f.node ∷ f.after)) ∙ ap total s;
  lengths = sym (length-append f.before (f.node ∷ f.after)) ∙ ap length s;
  before_fit = AllFit-before f.before (f.node ∷ f.after) whole;
  node_fit = AllFit-head (AllFit-after f.before (f.node ∷ f.after) whole);
  after_fit = AllFit-tail (AllFit-after f.before (f.node ∷ f.after) whole);
}
  where
    whole : AllFit (lowest hp) (end_of hp) (f.before ++ (f.node ∷ f.after))
    whole = subst (AllFit (lowest hp) (end_of hp)) (sym s) t.free_fit

-- The four ways to take the block at `low` out of the block found.
module _ (hp : HeapControl) (f : Found) (p : Parts hp f) where
  pub between :
      (pad size rest low high nodes : ℕ)
      → 0 < pad
      → 0 < size
      → 0 < rest
      → low ≡ f.node.addr + pad
      → high ≡ f.node.addr + pad + size
      → pad + size + rest ≡ f.node.size
      → nodes + 2 ≡ hp.free_nodes
      → Without hp
          (record { addr = low; size = size })
          nodes
          ((f.before ++ (record { addr = f.node.addr; size = pad } ∷ f.after))
            ++ (record { addr = high; size = rest } ∷ []))
  unfolding cover total
  between pad size rest low high nodes hp0 hs hr el eh ez en =
      let k : HeapNode = record { addr = f.node.addr; size = pad } in
      let m : HeapNode = record { addr = high; size = rest } in
      let kept : List HeapNode = f.before ++ (k ∷ f.after) in
      record {
        covers = λ x. omega (
          arith,
          p.covers x,
          cover-append x kept (m ∷ []),
          cover-append x f.before (k ∷ f.after),
          inside-cut_three x f.node.addr pad size rest f.node.size low high el eh ez,
        );
        sizes =
            omega
              (arith, p.sizes, ez, total-append kept (m ∷ []), total-append f.before (k ∷ f.after));
        fit =
            AllFit-append kept (m ∷ [])
              (AllFit-append f.before (k ∷ f.after) p.before_fit (
                one_more k f.after
                  (record {
                    positive = hp0;
                    low = p.node_fit.low;
                    high = omega (arith, p.node_fit.high, ez);
                  })
                  p.after_fit))
              (one_more m []
                (record {
                  positive = hr;
                  low = omega (arith, p.node_fit.low, eh);
                  high = omega (arith, p.node_fit.high, ez, eh);
                })
                none_left);
        block = record {
          positive = hs;
          low = omega (arith, p.node_fit.low, el);
          high = omega (arith, p.node_fit.high, ez, el);
        };
        nodes_same = omega (
          arith,
          p.lengths,
          en,
          length-append kept (m ∷ []),
          length-append f.before (k ∷ f.after),
        );
      }

  -- One part is kept, at either end.
  pub beside :
      (k b : HeapNode) (nodes : ℕ)
      → ((x : ℕ) → inside x k + inside x b ≡ inside x f.node)
      → k.size + b.size ≡ f.node.size
      → Fits (lowest hp) (end_of hp) k
      → Fits (lowest hp) (end_of hp) b
      → nodes + 1 ≡ hp.free_nodes
      → Without hp b nodes (f.before ++ (k ∷ f.after))
  unfolding cover total
  beside k b nodes cut ez fk fb en = record {
    covers = λ x. omega (arith, p.covers x, cover-append x f.before (k ∷ f.after), cut x);
    sizes = omega (arith, p.sizes, ez, total-append f.before (k ∷ f.after));
    fit = AllFit-append f.before (k ∷ f.after) p.before_fit (one_more k f.after fk p.after_fit);
    block = fb;
    nodes_same = omega (arith, p.lengths, en, length-append f.before (k ∷ f.after));
  }

  pub whole_node : Without hp f.node hp.free_nodes (f.before ++ f.after)
  unfolding cover total
  whole_node = record {
    covers = λ x. omega (arith, p.covers x, cover-append x f.before f.after);
    sizes = omega (arith, p.sizes, total-append f.before f.after);
    fit = AllFit-append f.before f.after p.before_fit p.after_fit;
    block = p.node_fit;
    nodes_same = omega (arith, p.lengths, length-append f.before f.after);
  }
