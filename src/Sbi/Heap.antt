-- ===== src/Sbi/Heap.antt =====
-- OS_Spring_2026/course_3/opensbi/lib/sbi/sbi_heap.c. Each call holds the lock while it uses the
-- lists, so calls are modelled one after the other. unsigned long has 64 bits.
pub mod Cover
pub mod Find
pub mod Carve
pub mod Alloc
pub mod Release
pub mod RoundTrip
pub mod Init
pub mod Tests
pub use inside_system.Sbi.Word64.{ulong, add64, sub64}
use Prim.Native.Nat.{bit_and}
use inside_system.Prelude.{
  ℕ, zero, suc, ◌+◌, ◌-◌, ◌*◌, ◌/◌, ◌%◌, ◌^◌, Bool, true, false, List, [], ◌∷◌, ◌++◌, Option, none,
  some, ltb, leb, ◌==◌, ◌&&◌, ◌||◌, if◌then◌else◌,
}
use inside_system.Sbi.Status.{Status, ok, einval}

abbrev pub heap_alloc_align : ℕ
heap_alloc_align = 64

abbrev pub heap_housekeeping_factor : ℕ
heap_housekeeping_factor = 16

abbrev pub heap_base_align : ℕ
heap_base_align = 1024

-- `sizeof(struct heap_node)`
abbrev pub sizeof_node : ℕ
sizeof_node = 32

-- `struct heap_node`, without the links of the list it is in.
pub record HeapNode : Type 0 where
  pub addr : ℕ
  pub size : ℕ

-- `struct sbi_heap_control`. What a node on `free_node_list` holds is never read, nor does it matter
-- which of them is taken: the list is its length.
pub record HeapControl : Type 0 where
  pub base : ℕ
  pub size : ℕ
  pub hkbase : ℕ
  pub hksize : ℕ
  pub free_nodes : ℕ
  pub free_space : List HeapNode
  pub used_space : List HeapNode

-- `ROUNDUP(a, b)`
abbrev pub roundup : ℕ → ℕ → ℕ
roundup a b = (sub64 a 1 / b + 1) * b % 2 ^ 64

-- `a & ~(b - 1)`, for b a power of two.
abbrev pub rounddown : ℕ → ℕ → ℕ
rounddown a b = a / b * b

-- `pad` for a node at `addr`.
abbrev pub pad_of : ℕ → ℕ → ℕ
pad_of align addr = sub64 (roundup addr align) addr

-- A node of a list, with what is before it and behind it.
pub record Found : Type 0 where
  pub before : List HeapNode
  pub node : HeapNode
  pub after : List HeapNode

abbrev pub behind : HeapNode → Option Found → Option Found
behind n none = none
behind n (some f) = some (record f { before = n ∷ f.before })

-- The first loop of `alloc_with_align`.
unfoldable pub find_space : ℕ → ℕ → List HeapNode → Option Found
find_space align size [] = none
find_space align size (n ∷ ns) =
    let rest = find_space align size ns in
    if leb (add64 size (pad_of align n.addr)) n.size
    then some (record { before = []; node = n; after = ns })
    else behind n rest

abbrev pub use_block : HeapNode → HeapControl → ℕ × HeapControl
use_block n hp = (n.addr, record hp { used_space = hp.used_space ++ (n ∷ []) })

-- The branch with a pad: the node found keeps the pad, a new one takes the block, and a third one
-- what is left.
unfoldable pub alloc_padded : HeapControl → ℕ → ℕ → Found → ℕ × HeapControl
alloc_padded hp align size f =
    let np = f.node in
    let pad = pad_of align np.addr in
    let need = add64 size pad in
    let n : HeapNode = record { addr = roundup np.addr align; size = size } in
    let kept : List HeapNode = f.before ++ (record np { size = pad } ∷ f.after) in
    let rem : HeapNode = record { addr = add64 np.addr need; size = sub64 np.size need } in
    if hp.free_nodes == 0
    then (0, hp)
    else if ltb need np.size && ltb 0 (hp.free_nodes - 1)
    then use_block n
        (record hp { free_nodes = hp.free_nodes - 1 - 1; free_space = kept ++ (rem ∷ []) })
    else if need == np.size
    then use_block n (record hp { free_nodes = hp.free_nodes - 1; free_space = kept })
    else (0, hp)

-- The branch without one: a new node takes the block off the front of the node found, or that node
-- is the block.
unfoldable pub alloc_unpadded : HeapControl → ℕ → Found → ℕ × HeapControl
alloc_unpadded hp size f =
    let np = f.node in
    let n : HeapNode = record { addr = np.addr; size = size } in
    let kept : HeapNode = record { addr = add64 np.addr size; size = sub64 np.size size } in
    if ltb size np.size && ltb 0 hp.free_nodes
    then use_block n
        (record hp { free_nodes = hp.free_nodes - 1; free_space = f.before ++ (kept ∷ f.after) })
    else if size == np.size
    then use_block np (record hp { free_space = f.before ++ f.after })
    else (0, hp)

unfoldable pub alloc_found : HeapControl → ℕ → ℕ → Option Found → ℕ × HeapControl
alloc_found hp align size none = (0, hp)
alloc_found hp align size (some f) =
    if pad_of align f.node.addr == 0 then alloc_unpadded hp size f else alloc_padded hp align size f

-- `size` rounded up to a multiple of `align`.
abbrev pub rounded : ℕ → ℕ → ℕ
rounded align size = rounddown (add64 size (align - 1)) align

-- `align` is a power of two. 0 is NULL.
unfoldable pub alloc_with_align : HeapControl → ℕ → ℕ → ℕ × HeapControl
alloc_with_align hp align size =
    if size == 0
    then (0, hp)
    else alloc_found hp align (rounded align size)
        (find_space align (rounded align size) hp.free_space)

unfoldable pub sbi_malloc_from : HeapControl → ℕ → ℕ × HeapControl
sbi_malloc_from hp size = alloc_with_align hp heap_alloc_align size

-- `(a & (a - 1)) == 0`, for a > 0.
abbrev pub is_power : ℕ → Bool
is_power a = bit_and a (a - 1) == 0

unfoldable pub sbi_aligned_alloc_from : HeapControl → ℕ → ℕ → ℕ × HeapControl
sbi_aligned_alloc_from hp alignment size =
    let align = (if ltb alignment heap_alloc_align then heap_alloc_align else alignment) in
    if is_power align
    then if size % align == 0 then alloc_with_align hp align size else (0, hp)
    else (0, hp)

-- `sbi_memset(dst, 0, n)`
abbrev pub cleared : (ℕ → ℕ) → ℕ → ℕ → ℕ → ℕ
cleared mem dst n i = if leb dst i && ltb i (dst + n) then 0 else mem i

unfoldable pub sbi_zalloc_from : HeapControl → (ℕ → ℕ) → ℕ → ℕ × HeapControl × (ℕ → ℕ)
sbi_zalloc_from hp mem size =
    let (ret, hp') = sbi_malloc_from hp size in
    if ret == 0 then (0, hp', mem) else (ret, hp', cleared mem ret size)

-- The test of the first loop of `sbi_free_from`.
abbrev pub holds : ℕ → HeapNode → Bool
holds ptr n = leb n.addr ptr && ltb ptr (add64 n.addr n.size)

-- That loop.
unfoldable pub find_used : ℕ → List HeapNode → Option Found
find_used ptr [] = none
find_used ptr (n ∷ ns) =
    let rest = find_used ptr ns in
    if holds ptr n then some (record { before = []; node = n; after = ns }) else behind n rest

-- The second one, with what comes behind it: the new free list, and the number of nodes given back.
unfoldable pub put_back : HeapNode → List HeapNode → List HeapNode × ℕ
put_back np [] = (np ∷ [], 0)
put_back np (n ∷ ns) =
    let (rest, given) = put_back np ns in
    if add64 np.addr np.size == n.addr
    then (record { addr = np.addr; size = add64 n.size np.size } ∷ ns, 1)
    else if np.addr == add64 n.addr n.size
    then (record n { size = add64 n.size np.size } ∷ ns, 1)
    else if ltb (add64 n.addr n.size) np.addr
    then (n ∷ np ∷ ns, 0)
    else (n ∷ rest, given)

unfoldable pub free_found : HeapControl → Option Found → HeapControl
free_found hp none = hp
free_found hp (some f) =
    let (space, given) = put_back f.node hp.free_space in
    record hp {
      used_space = f.before ++ f.after;
      free_space = space;
      free_nodes = hp.free_nodes + given;
    }

unfoldable pub sbi_free_from : HeapControl → ℕ → HeapControl
sbi_free_from hp ptr = if ptr == 0 then hp else free_found hp (find_used ptr hp.used_space)

unfoldable pub total : List HeapNode → ℕ
total [] = 0
total (n ∷ ns) = n.size + total ns

-- The sum is taken modulo 2 ^ 64 as it goes; that is the sum modulo 2 ^ 64.
unfoldable pub sbi_heap_free_space_from : HeapControl → ℕ
sbi_heap_free_space_from hp = total hp.free_space % 2 ^ 64

-- `sbi_heap_free_space()` is about the global heap, whichever heap is asked for.
unfoldable pub sbi_heap_used_space_from : HeapControl → HeapControl → ℕ
sbi_heap_used_space_from global hp =
    sub64 (sub64 hp.size hp.hksize) (sbi_heap_free_space_from global)

unfoldable pub sbi_heap_reserved_space_from : HeapControl → ℕ
sbi_heap_reserved_space_from hp = hp.hksize

-- `none` where there is no node for the free space: `sbi_list_first_entry` then gives the list's head
-- as a node, and the writes to it go to other fields.
unfoldable pub sbi_heap_init_new : ℕ → ℕ → Option HeapControl
sbi_heap_init_new base size =
    let hksize = rounddown (size / heap_housekeeping_factor) heap_base_align in
    let nodes = hksize / sizeof_node in
    if nodes == 0
    then none
    else some (record {
      base = base;
      size = size;
      hkbase = base;
      hksize = hksize;
      free_nodes = nodes - 1;
      free_space = record { addr = add64 base hksize; size = sub64 size hksize } ∷ [];
      used_space = [];
    })

-- The fields of `struct sbi_scratch` that `sbi_heap_init` reads.
pub record Scratch : Type 0 where
  pub fw_start : ℕ
  pub fw_size : ℕ
  pub fw_rw_offset : ℕ
  pub fw_heap_offset : ℕ
  pub fw_heap_size : ℕ

-- The sanity checks, all of which must fail.
abbrev pub is_insane : Scratch → Bool
is_insane s =
    s.fw_heap_size == 0
    || ltb 0 (s.fw_heap_size % heap_base_align)
    || ltb s.fw_heap_offset s.fw_rw_offset
    || ltb s.fw_size (add64 s.fw_heap_offset s.fw_heap_size)
    || ltb 0 (s.fw_heap_offset % heap_base_align)

-- The status, and the global heap if it was written; `none` is the fault of `sbi_heap_init_new`.
abbrev pub initialised : Option HeapControl → Option (Status × Option HeapControl)
initialised none = none
initialised (some hp) = some (ok, some hp)

unfoldable pub sbi_heap_init : Scratch → Option (Status × Option HeapControl)
sbi_heap_init s =
    if is_insane s
    then some (einval, none)
    else initialised (sbi_heap_init_new (add64 s.fw_start s.fw_heap_offset) s.fw_heap_size)
