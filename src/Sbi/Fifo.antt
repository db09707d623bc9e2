-- ===== src/Sbi/Fifo.antt =====
-- OS_Spring_2026/course_3/opensbi/lib/sbi/sbi_fifo.c: a queue of entries of one size in an array.
-- An entry is a value of the type A: each case of the switch over `entry_size` copies the whole entry
-- between the array and the caller. A pointer that may be NULL is an option.
pub mod Queue
pub mod Span
pub mod Refine
pub mod Update
mod Tests
use inside_system.Prelude.{
  ℕ, zero, suc, ◌+◌, ◌-◌, ◌%◌, ◌^◌, Bool, true, false, ◌||◌, Option, none, some, leb, ◌==◌,
  if◌then◌else◌,
}
use inside_system.Sbi.Status.{Status, code, ok, einval, enospc, enoent}

-- `struct sbi_fifo`; `queue` gives the entry at an index. `locked` is the state of `qlock`.
pub record Fifo (A : Type 0) : Type 0 where
  pub queue : ℕ → A
  pub locked : Bool
  pub num_entries : ℕ
  pub avail : ℕ
  pub tail : ℕ

abbrev pub fifo_skip : ℕ
fifo_skip = 0

abbrev pub fifo_updated : ℕ
fifo_updated = 1

abbrev pub fifo_unchanged : ℕ
fifo_unchanged = 2

-- `index` behind `tail`, round the end; on u32, where no sum of two u16 wraps.
abbrev pub slot : ℕ → ℕ → ℕ → ℕ
slot n tail i = if leb n (tail + i) then tail + i - n else tail + i

abbrev pub of_bool : Bool → Status
of_bool b = code (if b then 1 else 0)

module _ {A : Type 0} where
  abbrev pub write : (ℕ → A) → ℕ → A → ℕ → A
  write q i a j = if i == j then a else q j

  abbrev pub lock : Fifo A → Fifo A
  lock f = record f { locked = true }

  abbrev pub unlock : Fifo A → Fifo A
  unlock f = record f { locked = false }

  -- `blank` is the entry of zero bytes that `sbi_memset` leaves.
  unfoldable pub sbi_fifo_init : A → ℕ → Fifo A
  sbi_fifo_init blank entries = record {
    queue = λ _. blank;
    locked = false;
    num_entries = entries;
    avail = 0;
    tail = 0;
  }

  abbrev pub is_full : Fifo A → Bool
  is_full f = f.avail == f.num_entries

  abbrev pub is_empty : Fifo A → Bool
  is_empty f = f.avail == 0

  -- `__sbi_fifo_enqueue`
  unfoldable pub enqueue_entry : Fifo A → A → Fifo A
  enqueue_entry f a = record f {
    queue = write f.queue (slot f.num_entries f.tail f.avail) a;
    avail = (f.avail + 1) % 2 ^ 16;
  }

  -- `__sbi_fifo_dequeue`: the entry that goes to `data`, if that is not NULL, and the new queue.
  abbrev pub front : Fifo A → A
  front f = f.queue f.tail

  unfoldable pub dequeue_entry : Fifo A → Fifo A
  dequeue_entry f =
      let tail = (f.tail + 1) % 2 ^ 16 in
      record f {
        avail = (f.avail + (2 ^ 16 - 1)) % 2 ^ 16;
        tail = if leb f.num_entries tail then 0 else tail;
      }

  -- `__sbi_fifo_reset`
  unfoldable pub reset_entries : A → Fifo A → Fifo A
  reset_entries blank f = record f { queue = λ _. blank; avail = 0; tail = 0 }

  unfoldable pub sbi_fifo_avail : Option (Fifo A) → ℕ × Option (Fifo A)
  sbi_fifo_avail none = (0, none)
  sbi_fifo_avail (some f) = ((lock f).avail, some (unlock (lock f)))

  unfoldable pub sbi_fifo_is_full : Option (Fifo A) → Status × Option (Fifo A)
  sbi_fifo_is_full none = (einval, none)
  sbi_fifo_is_full (some f) = (of_bool (is_full (lock f)), some (unlock (lock f)))

  unfoldable pub sbi_fifo_is_empty : Option (Fifo A) → Status × Option (Fifo A)
  sbi_fifo_is_empty none = (einval, none)
  sbi_fifo_is_empty (some f) = (of_bool (is_empty (lock f)), some (unlock (lock f)))

  unfoldable pub sbi_fifo_reset : A → Option (Fifo A) → Bool × Option (Fifo A)
  unfolding reset_entries
  sbi_fifo_reset blank none = (false, none)
  sbi_fifo_reset blank (some f) = (true, some (unlock (reset_entries blank (lock f))))

  -- With the lock held and no room.
  abbrev pub enqueue_full : Fifo A → A → Bool → Status × Fifo A
  enqueue_full f a true = (ok, enqueue_entry (dequeue_entry f) a)
  enqueue_full f a false = (enospc, f)

  abbrev pub release : Status × Fifo A → Status × Option (Fifo A)
  release (r, f) = (r, some (unlock f))

  -- Both of `fifo` and `data` may be NULL.
  unfoldable pub sbi_fifo_enqueue : Option (Fifo A) → Option A → Bool → Status × Option (Fifo A)
  unfolding enqueue_entry dequeue_entry
  sbi_fifo_enqueue none d force = (einval, none)
  sbi_fifo_enqueue (some f) none force = (einval, some f)
  sbi_fifo_enqueue (some f) (some a) force =
      release
        (if is_full (lock f) then enqueue_full (lock f) a force else (ok, enqueue_entry (lock f) a))

  abbrev pub dequeue_locked : Fifo A → Status × Option A × Fifo A
  dequeue_locked f = if is_empty f then (enoent, none, f) else (ok, some (front f), dequeue_entry f)

  -- `data` says whether the caller gave a buffer; the option is what is written there.
  unfoldable pub sbi_fifo_dequeue : Option (Fifo A) → Bool → Status × Option A × Option (Fifo A)
  unfolding dequeue_entry
  sbi_fifo_dequeue none d = (einval, none, none)
  sbi_fifo_dequeue (some f) false = (einval, none, some f)
  sbi_fifo_dequeue (some f) true =
      let (r, a, g) = dequeue_locked (lock f) in (r, a, some (unlock g))

  -- The loop of `sbi_fifo_inplace_update` from index `i`, with `k` entries left and `ret` so far.
  -- The callback gives its result and the entry as it leaves it.
  unfoldable pub update_from : (A → ℕ × A) → Fifo A → ℕ → ℕ → ℕ → ℕ × Fifo A
  update_from fptr f ret i zero = (ret, f)
  update_from fptr f ret i (suc k) =
      let index = slot f.num_entries f.tail i in
      let (r, a) = fptr (f.queue index) in
      let g = record f { queue = write f.queue index a } in
      let rest = update_from fptr g r (i + 1) k in
      if r == fifo_skip || r == fifo_updated then (r, g) else rest

  -- `fptr` has its first argument `in`, which may be NULL.
  unfoldable pub sbi_fifo_inplace_update :
      Option (Fifo A) → Option (A → ℕ × A) → ℕ × Option (Fifo A)
  unfolding update_from
  sbi_fifo_inplace_update none fptr = (fifo_unchanged, none)
  sbi_fifo_inplace_update (some f) none = (fifo_unchanged, some f)
  sbi_fifo_inplace_update (some f) (some fptr) =
      if is_empty (lock f)
      then (fifo_unchanged, some (unlock (lock f)))
      else (let (r, g) = update_from fptr (lock f) fifo_unchanged 0 f.avail in (r, some (unlock g)))
