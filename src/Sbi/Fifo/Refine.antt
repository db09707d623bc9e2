-- ===== src/Sbi/Fifo/Refine.antt =====
-- sbi_fifo.c against the bounded queue.
use inside_system.Prelude.{
  ℕ, suc, ◌+◌, ◌-◌, ◌%◌, ◌^◌, ◌≤◌, ◌<◌, ◌≡◌, refl, sym, ap, ap₂, ◌∙◌, Bool, true, false, List, [],
  ◌∷◌, ◌++◌, Option, some, arith, length, ◌==◌, Bool-cases, inl, inr, ==-eq, ==-ne,
}
use inside_system.Sbi.Status.{Status, ok, enospc}
use inside_system.Sbi.Fifo.{
  Fifo, slot, write, lock, unlock, release, enqueue_full, enqueue_entry, dequeue_entry, front,
  sbi_fifo_enqueue, sbi_fifo_dequeue,
}
use inside_system.Sbi.Fifo.Queue
use inside_system.Sbi.Fifo.Queue.{drop_first}
use inside_system.Sbi.Fifo.Span.{span, length-span, span-suc, span-write, span-next_tail, next_tail}

pub record IsValid {A : Type 0} (f : Fifo A) : Type 0 where
  pub some_entries : 0 < f.num_entries
  pub small : f.num_entries < 2 ^ 16
  pub tail_in : f.tail < f.num_entries
  pub avail_in : f.avail ≤ f.num_entries

abbrev pub contents : {A : Type 0} → Fifo A → List A
contents f = span f.num_entries f.queue f.tail 0 f.avail

module _ {A : Type 0} where
  pub length-contents : (f : Fifo A) → length (contents f) ≡ f.avail
  length-contents f = length-span f.num_entries f.queue f.tail 0 f.avail

  -- A fifo seen as a queue of `cap` entries that are `q`.
  pub record Holds (cap : ℕ) (q : List A) (f : Fifo A) : Type 0 where
    pub valid : IsValid f
    pub capacity : f.num_entries ≡ cap
    pub entries : contents f ≡ q

  enqueue_entry-Holds :
      (f : Fifo A) (a : A)
      → IsValid f
      → f.avail < f.num_entries
      → Holds f.num_entries (contents f ++ (a ∷ [])) (enqueue_entry f a)
  unfolding enqueue_entry
  enqueue_entry-Holds f a v h = record {
    valid = record {
      some_entries = v.some_entries;
      small = v.small;
      tail_in = v.tail_in;
      avail_in = omega arith;
    };
    capacity = refl;
    entries =
        ap (span n q' t 0) one_more
        ∙ (span-suc n q' t 0 f.avail
            ∙ ap₂ (λ xs x. xs ++ (x ∷ []))
                (span-write n f.queue t f.avail a 0 f.avail v.tail_in h (inr (omega arith))
                  (omega arith))
                new_entry);
  }
    where
      n : ℕ
      n = f.num_entries

      t : ℕ
      t = f.tail

      q' : ℕ → A
      q' = write f.queue (slot n t f.avail) a

      one_more : (f.avail + 1) % 2 ^ 16 ≡ suc f.avail
      one_more = omega arith

      new_entry : q' (slot n t (0 + f.avail)) ≡ a
      new_entry = ground arith

  -- The new values of `tail` and `avail`, with no wrap.
  record Moved (f g : Fifo A) : Type 0 where
    same_queue : g.queue ≡ f.queue
    same_count : g.num_entries ≡ f.num_entries
    new_tail : g.tail ≡ next_tail f.num_entries f.tail
    new_avail : f.avail ≡ suc g.avail

  dequeue_entry-Moved : (f : Fifo A) → IsValid f → 0 < f.avail → Moved f (dequeue_entry f)
  unfolding dequeue_entry
  dequeue_entry-Moved f v h = record {
    same_queue = refl;
    same_count = refl;
    new_tail = ground arith;
    new_avail = omega arith;
  }

  Moved-Holds :
      (f g : Fifo A) → IsValid f → Moved f g → Holds f.num_entries (drop_first (contents f)) g
  Moved-Holds f g v m = record {
    valid = record {
      some_entries = ground arith;
      small = ground arith;
      tail_in = ground arith;
      avail_in = ground arith;
    };
    capacity = m.same_count;
    entries =
        ap₂ (λ n q. span n q g.tail 0 g.avail) m.same_count m.same_queue
        ∙ (ap (λ t. span f.num_entries f.queue t 0 g.avail) m.new_tail
            ∙ (sym (span-next_tail f.num_entries f.queue f.tail 0 g.avail v.tail_in (omega arith))
                ∙ ap (λ k. drop_first (span f.num_entries f.queue f.tail 0 k)) (sym m.new_avail)));
  }

  dequeue_entry-Holds :
      (f : Fifo A)
      → IsValid f
      → 0 < f.avail
      → Holds f.num_entries (drop_first (contents f)) (dequeue_entry f)
  dequeue_entry-Holds f v h = Moved-Holds f (dequeue_entry f) v (dequeue_entry-Moved f v h)

  -- What a call gives, against what the queue gives; the lock is free after it.
  pub record Refines (cap : ℕ) (spec : Status × List A) (out : Status × Option (Fifo A))
      : Type 0 where
    pub after : Fifo A
    pub result : out ≡ (spec.0, some after)
    pub state : Holds cap spec.1 after
    pub released : after.locked ≡ false

  pub released_Holds : {cap : ℕ} {q : List A} (f : Fifo A) → Holds cap q f → Holds cap q (unlock f)
  released_Holds f h = record {
    valid = record {
      some_entries = h.valid.some_entries;
      small = h.valid.small;
      tail_in = h.valid.tail_in;
      avail_in = h.valid.avail_in;
    };
    capacity = h.capacity;
    entries = h.entries;
  }

  -- A call that ends with the status `r` and the fifo `g`, the lock still held.
  refines :
      {cap : ℕ} {spec : Status × List A} (r : Status) (g : Fifo A)
      → r ≡ spec.0
      → Holds cap spec.1 g
      → Refines cap spec (r, some (unlock g))
  refines r g e h = record {
    after = unlock g;
    result = λ i. (e i, some (unlock g));
    state = released_Holds g h;
    released = refl;
  }

  pub IsValid-lock : (f : Fifo A) → IsValid f → IsValid (lock f)
  IsValid-lock f v = record {
    some_entries = v.some_entries;
    small = v.small;
    tail_in = v.tail_in;
    avail_in = v.avail_in;
  }

  pub IsValid-unlock : (f : Fifo A) → IsValid f → IsValid (unlock f)
  IsValid-unlock f v = record {
    some_entries = v.some_entries;
    small = v.small;
    tail_in = v.tail_in;
    avail_in = v.avail_in;
  }

  Holds-self : (f : Fifo A) → IsValid f → Holds f.num_entries (contents f) f
  Holds-self f v = record { valid = v; capacity = refl; entries = refl }

  -- A forced entry takes the place of the oldest one.
  forced-Holds :
      (f : Fifo A) (a : A)
      → IsValid f
      → f.avail ≡ f.num_entries
      → Holds f.num_entries
          (drop_first (contents f) ++ (a ∷ []))
          (enqueue_entry (dequeue_entry f) a)
  forced-Holds f a v full = record {
    valid = e.valid;
    capacity = e.capacity ∙ d.capacity;
    entries = e.entries ∙ ap (λ q. q ++ (a ∷ [])) d.entries;
  }
    where
      g : Fifo A
      g = dequeue_entry f

      m : Moved f g
      m = dequeue_entry-Moved f v (omega (arith, v.some_entries))

      d : Holds f.num_entries (drop_first (contents f)) g
      d = Moved-Holds f g v m

      e : Holds g.num_entries (contents g ++ (a ∷ [])) (enqueue_entry g a)
      e = enqueue_entry-Holds g a d.valid (omega (arith, m.new_avail, m.same_count))

  -- `sbi_fifo_enqueue` on a valid fifo, with an entry: the status and the new contents are those of
  -- the bounded queue, forced or not, full or not, and the lock is given back.
  pub sbi_fifo_enqueue-Refines :
      (f : Fifo A) (a : A) (force : Bool)
      → IsValid f
      → Refines f.num_entries
          (Queue.enqueue f.num_entries (contents f) a force)
          (sbi_fifo_enqueue (some f) (some a) force)
  unfolding sbi_fifo_enqueue
  sbi_fifo_enqueue-Refines f a force v =
      rw (length-contents f) (elim (Bool-cases (f.avail == f.num_entries)) [
        | inl full ↦ rw full (full_case force (==-eq full))
        | inr room ↦ rw room (
            refines ok (enqueue_entry (lock f) a) refl (
              enqueue_entry-Holds (lock f) a (IsValid-lock f v)
                (omega (arith, v.avail_in, ==-ne room))))
      ])
    where
      full_case :
          (force : Bool)
          → f.avail ≡ f.num_entries
          → Refines f.num_entries
              (Queue.enqueue_full (contents f) a force)
              (release (enqueue_full (lock f) a force))
      full_case true full = refines ok _ refl (forced-Holds (lock f) a (IsValid-lock f v) full)
      full_case false full = refines enospc (lock f) refl (Holds-self (lock f) (IsValid-lock f v))

  -- The entry that leaves is the first one.
  contents-front :
      (f : Fifo A) → IsValid f → 0 < f.avail → contents f ≡ front f ∷ drop_first (contents f)
  contents-front f v h =
      ap (span n f.queue f.tail 0) split
      ∙ (ap (λ t. f.queue t ∷ span n f.queue f.tail 1 (f.avail - 1)) first
          ∙ ap (λ k. front f ∷ drop_first (span n f.queue f.tail 0 k)) (sym split))
    where
      n : ℕ
      n = f.num_entries

      split : f.avail ≡ suc (f.avail - 1)
      split = omega arith

      first : slot n f.tail 0 ≡ f.tail
      first = ground arith

  pub record Dequeues (cap : ℕ) (spec : Status × Option A × List A)
      (out : Status × Option A × Option (Fifo A)) : Type 0 where
    pub after : Fifo A
    pub result : out ≡ (spec.0, spec.1, some after)
    pub state : Holds cap spec.2 after
    pub released : after.locked ≡ false

  pub contents-empty : (f : Fifo A) → f.avail ≡ 0 → contents f ≡ []
  contents-empty f e = ap (span f.num_entries f.queue f.tail 0) e

  -- A non-empty queue, in the form that its first entry shows.
  dequeue-Dequeues :
      (f : Fifo A) (x : A) (xs : List A)
      → IsValid f
      → 0 < f.avail
      → contents f ≡ x ∷ xs
      → Dequeues f.num_entries
          (ok, some x, xs)
          (ok, some (front f), some (unlock (dequeue_entry f)))
  dequeue-Dequeues f x xs v h e = record {
    after = unlock (dequeue_entry f);
    result = ap (λ y. (ok, some y, some (unlock (dequeue_entry f)))) first;
    state = record {
      valid = d.valid;
      capacity = d.capacity;
      entries = d.entries ∙ ap drop_first e;
    };
    released = refl;
  }
    where
      d : Holds f.num_entries (drop_first (contents f)) (unlock (dequeue_entry f))
      d = released_Holds (dequeue_entry f) (dequeue_entry-Holds f v h)

      first : front f ≡ x
      first = cc (contents-front f v h)

  -- `sbi_fifo_dequeue` on a valid fifo, with a buffer for the entry: the status, the entry and the
  -- new contents are those of the queue, empty or not, and the lock is given back.
  pub sbi_fifo_dequeue-Dequeues :
      (f : Fifo A)
      → IsValid f
      → Dequeues f.num_entries (Queue.dequeue (contents f)) (sbi_fifo_dequeue (some f) true)
  unfolding sbi_fifo_dequeue
  sbi_fifo_dequeue-Dequeues f v = elim (Bool-cases (f.avail == 0)) [
    | inl none_left ↦
        rw (none_left, contents-empty f (==-eq none_left))
          (record {
            after = unlock (lock f);
            result = refl;
            state = record {
              valid = IsValid-unlock f v;
              capacity = refl;
              entries = contents-empty f (==-eq none_left);
            };
            released = refl;
          })
    | inr left ↦
        let h : 0 < f.avail = omega (arith, ==-ne left) in
        rw (left, contents-front f v h)
          (dequeue-Dequeues (lock f) (front f) (drop_first (contents f)) (IsValid-lock f v) h
            (contents-front f v h))
  ]
