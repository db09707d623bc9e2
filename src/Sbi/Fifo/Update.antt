-- ===== src/Sbi/Fifo/Update.antt =====
-- `sbi_fifo_inplace_update` of sbi_fifo.c, and the calls that only read or reset a fifo.
use inside_system.Prelude.{
  ℕ, zero, suc, ◌+◌, ◌^◌, ◌≤◌, ◌<◌, ◌≡◌, refl, subst, ap, ap₂, ◌∙◌, true, false, ◌||◌, List, [],
  ◌∷◌, Option, some, arith, length, ◌==◌, Bool-cases, inl, inr, ==-eq,
}
use inside_system.Sbi.Fifo.{
  Fifo, slot, write, lock, unlock, fifo_unchanged, sbi_fifo_init, sbi_fifo_avail, sbi_fifo_reset,
  reset_entries, sbi_fifo_is_full, sbi_fifo_is_empty, sbi_fifo_inplace_update, update_from, of_bool,
}
use inside_system.Sbi.Fifo.Queue
use inside_system.Sbi.Fifo.Span.{span, span-write, slot-injective, write_ne}
use inside_system.Sbi.Fifo.Refine.{
  IsValid, Holds, contents, length-contents, contents-empty, IsValid-lock, IsValid-unlock,
}

module _ {A : Type 0} where
  abbrev put_at : Fifo A → ℕ → A → Fifo A
  put_at f i a = record f { queue = write f.queue (slot f.num_entries f.tail i) a }

  -- The loop from index `i`: it changes the entries from there on as the queue's update does, and no
  -- entry before.
  record Updates (f : Fifo A) (i k : ℕ) (spec : ℕ × List A) (out : ℕ × Fifo A) : Type 0 where
    result : out.0 ≡ spec.0
    entries : span f.num_entries out.1.queue f.tail i k ≡ spec.1
    before :
        (j : ℕ)
        → j < i
        → out.1.queue (slot f.num_entries f.tail j) ≡ f.queue (slot f.num_entries f.tail j)
    count : out.1.num_entries ≡ f.num_entries
    avail : out.1.avail ≡ f.avail
    tail : out.1.tail ≡ f.tail

  put_at_here :
      (f : Fifo A) (i : ℕ) (a : A) → (put_at f i a).queue (slot f.num_entries f.tail i) ≡ a
  put_at_here f i a = ground arith

  put_at_before :
      (f : Fifo A) (i j : ℕ) (a : A)
      → f.tail < f.num_entries
      → i < f.num_entries
      → j < i
      → (put_at f i a).queue (slot f.num_entries f.tail j) ≡ f.queue (slot f.num_entries f.tail j)
  put_at_before f i j a ht hi h =
      write_ne f.queue a (slot-injective f.num_entries f.tail i j ht hi (omega arith) (omega arith))

  -- The loop stops at entry `i`.
  Updates-stop :
      (f : Fifo A) (i k r : ℕ) (a : A)
      → f.tail < f.num_entries
      → i + suc k ≤ f.num_entries
      → Updates f i (suc k) (r, a ∷ span f.num_entries f.queue f.tail (i + 1) k) (r, put_at f i a)
  Updates-stop f i k r a ht fit = record {
    result = refl;
    entries = ap₂ ◌∷◌ (put_at_here f i a) (
        span-write f.num_entries f.queue f.tail i a (i + 1) k ht (omega arith) (inl (omega arith))
          (omega arith));
    before = λ j h. put_at_before f i j a ht (omega arith) h;
    count = refl;
    avail = refl;
    tail = refl;
  }

  -- The loop goes on behind entry `i`.
  Updates-on :
      (f : Fifo A) (i k : ℕ) (a : A) (spec : ℕ × List A) (out : ℕ × Fifo A)
      → f.tail < f.num_entries
      → i + suc k ≤ f.num_entries
      → Updates (put_at f i a) (i + 1) k spec out
      → Updates f i (suc k) (spec.0, a ∷ spec.1) out
  Updates-on f i k a spec out ht fit u = record {
    result = u.result;
    entries = ap₂ ◌∷◌ (u.before i (omega arith) ∙ put_at_here f i a) u.entries;
    before = λ j h. u.before j (omega arith) ∙ put_at_before f i j a ht (omega arith) h;
    count = u.count;
    avail = u.avail;
    tail = u.tail;
  }

  update_from-Updates :
      (fptr : A → ℕ × A) (f : Fifo A) (ret i k : ℕ)
      → f.tail < f.num_entries
      → i + k ≤ f.num_entries
      → Updates f i k
          (Queue.update fptr ret (span f.num_entries f.queue f.tail i k))
          (update_from fptr f ret i k)
  unfolding update_from Queue.update
  update_from-Updates fptr f ret i zero ht fit = record {
    result = refl;
    entries = refl;
    before = λ j h. refl;
    count = refl;
    avail = refl;
    tail = refl;
  }
  update_from-Updates fptr f ret i (suc k) ht fit = elim (Bool-cases (r == 0 || r == 1)) [
    | inl stop ↦ rw stop (Updates-stop f i k r a ht fit)
    | inr on ↦ rw on (
        Updates-on f i k a (Queue.update fptr r (span n f.queue f.tail (i + 1) k))
          (update_from fptr g r (i + 1) k) ht fit
          (subst
            (λ xs. Updates g (i + 1) k (Queue.update fptr r xs) (update_from fptr g r (i + 1) k))
            same_rest (update_from-Updates fptr g r (i + 1) k ht (omega arith))))
  ]
    where
      n : ℕ
      n = f.num_entries

      r : ℕ
      r = (fptr (f.queue (slot n f.tail i))).0

      a : A
      a = (fptr (f.queue (slot n f.tail i))).1

      g : Fifo A
      g = put_at f i a

      same_rest : span n g.queue f.tail (i + 1) k ≡ span n f.queue f.tail (i + 1) k
      same_rest =
          span-write n f.queue f.tail i a (i + 1) k ht (omega arith) (inl (omega arith))
            (omega arith)

  pub record Updated (cap : ℕ) (spec : ℕ × List A) (out : ℕ × Option (Fifo A)) : Type 0 where
    pub after : Fifo A
    pub result : out ≡ (spec.0, some after)
    pub state : Holds cap spec.1 after
    pub released : after.locked ≡ false

  Updated-of :
      (f g : Fifo A) (r : ℕ) (spec : ℕ × List A)
      → IsValid f
      → Updates f 0 f.avail spec (r, g)
      → Updated f.num_entries spec (r, some (unlock g))
  Updated-of f g r spec v u = record {
    after = unlock g;
    result = ap (λ (x : ℕ). (x, some (unlock g))) u.result;
    state = record {
      valid = record {
        some_entries = rw u.count v.some_entries;
        small = rw u.count v.small;
        tail_in = rw (u.count, u.tail) v.tail_in;
        avail_in = rw (u.count, u.avail) v.avail_in;
      };
      capacity = u.count;
      entries =
          ap₂ (λ m t. span m g.queue t 0 g.avail) u.count u.tail
          ∙ (ap (span f.num_entries g.queue f.tail 0) u.avail ∙ u.entries);
    };
    released = refl;
  }

  -- `sbi_fifo_inplace_update` on a valid fifo: the callback sees the entries from the oldest on until
  -- it skips or updates one, its last result is returned, what it wrote is the only change, and the
  -- lock is given back.
  pub sbi_fifo_inplace_update-Updated :
      (f : Fifo A) (fptr : A → ℕ × A)
      → IsValid f
      → Updated f.num_entries
          (Queue.update fptr fifo_unchanged (contents f))
          (sbi_fifo_inplace_update (some f) (some fptr))
  unfolding sbi_fifo_inplace_update
  sbi_fifo_inplace_update-Updated f fptr v = elim (Bool-cases (f.avail == 0)) [
    | inl none_left ↦
        rw (none_left, contents-empty f (==-eq none_left))
          (unfold Queue.update in
            (record {
              after = unlock (lock f);
              result = refl;
              state = record {
                valid = IsValid-unlock f v;
                capacity = refl;
                entries = contents-empty f (==-eq none_left);
              };
              released = refl;
            }))
    | inr left ↦ rw left (
        Updated-of (lock f) (update_from fptr (lock f) fifo_unchanged 0 f.avail).1
          (update_from fptr (lock f) fifo_unchanged 0 f.avail).0
          (Queue.update fptr fifo_unchanged (contents f)) (IsValid-lock f v)
          (update_from-Updates fptr (lock f) fifo_unchanged 0 f.avail v.tail_in
            (omega (arith, v.avail_in))))
  ]

  -- The calls that count or test for empty or full agree with the contents, and leave the fifo with its
  -- lock free.
  counts :
      (f : Fifo A)
      → (sbi_fifo_avail (some f) ≡ (length (contents f), some (unlock f)))
        × (sbi_fifo_is_empty (some f) ≡ (of_bool (length (contents f) == 0), some (unlock f)))
        × (sbi_fifo_is_full (some f)
            ≡ (of_bool (length (contents f) == f.num_entries), some (unlock f)))
  unfolding sbi_fifo_avail sbi_fifo_is_empty sbi_fifo_is_full
  counts f = rw (length-contents f) (refl, refl, refl)

  fresh-Holds : (blank : A) (n : ℕ) → 0 < n → n < 2 ^ 16 → Holds n [] (sbi_fifo_init blank n)
  unfolding sbi_fifo_init
  fresh-Holds blank n pos small = record {
    valid = record { some_entries = pos; small = small; tail_in = pos; avail_in = omega arith };
    capacity = refl;
    entries = refl;
  }

  -- A fifo of 1 to 65535 entries is valid and holds nothing when it is initialised, and
  -- `sbi_fifo_reset` brings any valid fifo back to that state.
  sbi_fifo_reset-Holds :
      (f : Fifo A) (blank : A)
      → IsValid f
      → (sbi_fifo_reset blank (some f) ≡ (true, some (sbi_fifo_init blank f.num_entries)))
        × Holds f.num_entries [] (sbi_fifo_init blank f.num_entries)
  unfolding sbi_fifo_reset sbi_fifo_init reset_entries
  sbi_fifo_reset-Holds f blank v = (refl, fresh-Holds blank f.num_entries v.some_entries v.small)
