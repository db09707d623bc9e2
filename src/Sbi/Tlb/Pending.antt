-- ===== src/Sbi/Tlb/Pending.antt =====
-- `tlb_update` of sbi_tlb.c on the fifo of a remote hart.
use inside_system.Prelude.{
  ℕ, ◌^◌, ◌<◌, ◌≡◌, ◌≢◌, ◌⊎◌, refl, sym, ap, ◌∙◌, Bool, true, false, List, [], ◌∷◌, ◌++◌, Option,
  some, arith, length, ◌==◌, ◌||◌, if◌then◌else◌, inl, inr, Bool-cases,
}
use inside_system.Sbi.Status.{Status, ok}
use inside_system.Sbi.Word64.{add64}
use inside_system.Sbi.Fifo.{Fifo, fifo_unchanged, fifo_skip, fifo_updated, sbi_fifo_enqueue}
use inside_system.Sbi.Fifo.Queue
use inside_system.Sbi.Fifo.Refine.{IsValid, contents, length-contents, sbi_fifo_enqueue-Refines}
use inside_system.Sbi.Fifo.Update.{sbi_fifo_inplace_update-Updated}
use inside_system.Sbi.Tlb.{TlbInfo}
use inside_system.Sbi.Tlb.Hits.{IsPlain, HasFuel, flushes}
use inside_system.Sbi.Tlb.Merge.{tlb_update_cb}
use inside_system.Sbi.Tlb.Sound.{is_sfence, Joined, tlb_update_cb-Joined}
use inside_system.Sbi.Tlb.Harts.{
  Harts, Update, Update.success, put, with_fifo, count_one, enqueued, tlb_update,
}

-- What a hart drops for one of the requests.
abbrev pub drops : ℕ → List TlbInfo → ℕ → ℕ → Bool
drops fuel [] asid va = false
drops fuel (t ∷ ts) asid va = flushes fuel t asid va || drops fuel ts asid va

-- The requests for instructions and for the hypervisor's fences, in their order.
abbrev pub others : List TlbInfo → List TlbInfo
others [] = []
others (t ∷ ts) = if is_sfence t then others ts else t ∷ others ts

others-here :
    (x y t : TlbInfo) (xs : List TlbInfo)
    → is_sfence x ≡ true
    → is_sfence y ≡ true
    → is_sfence t ≡ true
    → others (y ∷ xs) ≡ others ((x ∷ xs) ++ (t ∷ []))
others-here x y t xs ex ey et = rw (ex, ey) (sym (others-append xs t et))
  where
    others-append :
        (xs : List TlbInfo) (t : TlbInfo) → is_sfence t ≡ true → others (xs ++ (t ∷ [])) ≡ others xs
    others-append [] t e = rw e refl
    others-append (x ∷ xs) t e = elim (Bool-cases (is_sfence x)) [
      | inl s ↦ rw s (others-append xs t e)
      | inr s ↦ rw s (ap (λ ys. x ∷ ys) (others-append xs t e))
    ]

others-on :
    (x : TlbInfo) (ys zs : List TlbInfo) → others ys ≡ others zs → others (x ∷ ys) ≡ others (x ∷ zs)
others-on x ys zs e = elim (Bool-cases (is_sfence x)) [
  | inl s ↦ rw s e
  | inr s ↦ rw s (ap (λ ws. x ∷ ws) e)
]

pub data AllPlain (fuel : ℕ) : List TlbInfo → Type 0 where
  none_waits : AllPlain fuel []
  one_waits :
      (t : TlbInfo) (ts : List TlbInfo)
      → IsPlain t
      → HasFuel fuel t
      → AllPlain fuel ts
      → AllPlain fuel (t ∷ ts)

or_swap : (a b c : Bool) → ((a || b) || c) ≡ ((a || c) || b)
or_swap true b c = ground arith
or_swap false true c = ground arith
or_swap false false c = ground arith

or_assoc : (a b c : Bool) → (a || (b || c)) ≡ ((a || b) || c)
or_assoc true b c = refl
or_assoc false b c = refl

drops-append :
    (fuel asid va : ℕ) (xs : List TlbInfo) (t : TlbInfo)
    → drops fuel (xs ++ (t ∷ [])) asid va ≡ (drops fuel xs asid va || flushes fuel t asid va)
drops-append fuel asid va [] t = ground arith
drops-append fuel asid va (x ∷ xs) t =
    ap (λ b. flushes fuel x asid va || b) (drops-append fuel asid va xs t)
    ∙ or_assoc (flushes fuel x asid va) (drops fuel xs asid va) (flushes fuel t asid va)

module _ (fuel : ℕ) (t : TlbInfo) (asid va : ℕ) (q : IsPlain t) (k : HasFuel fuel t)
    (lt : va < 2 ^ 64) where
  -- The requests are as they were, or one of them has taken `t` in.
  abbrev Offer : List TlbInfo → ℕ × List TlbInfo → Type 0
  Offer xs out =
      (out ≡ (fifo_unchanged, xs))
      ⊎ (((out.0 == fifo_unchanged) ≡ false)
          × (drops fuel out.1 asid va ≡ (drops fuel xs asid va || flushes fuel t asid va))
          × (others out.1 ≡ others (xs ++ (t ∷ []))))

  Offer-here :
      (x : TlbInfo) (xs : List TlbInfo) (out : ℕ × TlbInfo) (rest : ℕ × List TlbInfo)
      → Joined fuel x t asid va out
      → Offer (x ∷ xs) (
          if out.0 == fifo_skip || out.0 == fifo_updated
          then (out.0, out.1 ∷ xs)
          else (rest.0, out.1 ∷ rest.1))
  Offer-here x xs out rest j = rw j.stops (
      inr (
        ground (arith, j.stops),
        ap (λ b. b || drops fuel xs asid va) j.all_dropped
            ∙ or_swap (flushes fuel x asid va) (flushes fuel t asid va) (drops fuel xs asid va),
        others-here x out.1 t xs j.own_kind.0 j.own_kind.2 j.own_kind.1,
      ))

  Offer-on :
      (x : TlbInfo) (xs : List TlbInfo) (rest : ℕ × List TlbInfo)
      → Offer xs rest
      → Offer (x ∷ xs) (rest.0, x ∷ rest.1)
  Offer-on x xs rest (inl e) = inl (ap (λ (r : ℕ × List TlbInfo). (r.0, x ∷ r.1)) e)
  Offer-on x xs rest (inr (n, d, o)) = inr (
    n,
    ap (λ b. flushes fuel x asid va || b) d
        ∙ or_assoc (flushes fuel x asid va) (drops fuel xs asid va) (flushes fuel t asid va),
    others-on x rest.1 (xs ++ (t ∷ [])) o,
  )

  update-Offer :
      (xs : List TlbInfo)
      → AllPlain fuel xs
      → Offer xs (Queue.update (tlb_update_cb t) fifo_unchanged xs)
  unfolding Queue.update
  update-Offer _ none_waits = inl refl
  update-Offer _ (one_waits x xs p h a) = elim (tlb_update_cb-Joined fuel t x asid va p q h k lt) [
    | inl e ↦
        rw e (Offer-on x xs (Queue.update (tlb_update_cb t) fifo_unchanged xs) (update-Offer xs a))
    | inr j ↦
        Offer-here x xs (tlb_update_cb t x)
          (Queue.update (tlb_update_cb t) (tlb_update_cb t x).0 xs) j
  ]

  -- The hart `me` has sent the request to `remote`, and counts one more answer to wait for.
  pub record Sent (me remote : ℕ) (hs : Harts) (out : Option (Update × Harts)) : Type 0 where
    pub after : Harts
    pub result : out ≡ some (success, after)
    pub valid : IsValid (after remote).fifo
    pub dropped :
        drops fuel (contents (after remote).fifo) asid va
        ≡ (drops fuel (contents (hs remote).fifo) asid va || flushes fuel t asid va)
    pub kept :
        others (contents (after remote).fifo) ≡ others (contents (hs remote).fifo ++ (t ∷ []))
    pub counted : (after me).sync ≡ add64 (hs me).sync 1

  count-Sent :
      (me remote : ℕ) (hs : Harts) (f : Fifo TlbInfo)
      → (remote == me) ≡ false
      → IsValid f
      → drops fuel (contents f) asid va
        ≡ (drops fuel (contents (hs remote).fifo) asid va || flushes fuel t asid va)
      → others (contents f) ≡ others (contents (hs remote).fifo ++ (t ∷ []))
      → Sent me remote hs (count_one me (with_fifo hs remote (some f)))
  count-Sent me remote hs f apart v d o =
      let me_me : (me == me) ≡ true = ground arith in
      let there : (remote == remote) ≡ true = ground arith in
      let not_there : (me == remote) ≡ false = ground (arith, apart) in
      record {
        after =
            put (with_fifo hs remote (some f)) me
              (let s = with_fifo hs remote (some f) me in record s { sync = add64 s.sync 1 });
        result = refl;
        valid = rw (apart, there) v;
        dropped = rw (apart, there) d;
        kept = rw (apart, there) o;
        counted = rw (me_me, not_there) refl;
      }

  enqueued-Sent :
      (me remote : ℕ) (hs : Harts) (f : Fifo TlbInfo)
      → (remote == me) ≡ false
      → IsValid f
      → f.avail < f.num_entries
      → contents f ≡ contents (hs remote).fifo
      → Sent me remote hs (enqueued fuel me remote hs (sbi_fifo_enqueue (some f) (some t) false))
  enqueued-Sent me remote hs f apart v room same =
      let r = sbi_fifo_enqueue-Refines f t false v in
      let fits : (length (contents f) == f.num_entries) ≡ false =
        ground (arith, length-contents f, room) in
      let spec : Queue.enqueue f.num_entries (contents f) t false ≡ (ok, contents f ++ (t ∷ [])) =
        rw fits refl in
      let result : sbi_fifo_enqueue (some f) (some t) false ≡ (ok, some r.after) =
        r.result ∙ ap (λ (s : Status × List TlbInfo). (s.0, some r.after)) spec in
      let entries : contents r.after ≡ contents (hs remote).fifo ++ (t ∷ []) =
        r.state.entries
        ∙ (ap (λ (s : Status × List TlbInfo). s.1) spec ∙ ap (λ xs. xs ++ (t ∷ [])) same) in
      rw result (
        count-Sent me remote hs r.after apart r.state.valid
          (ap (λ xs. drops fuel xs asid va) entries
            ∙ drops-append fuel asid va (contents (hs remote).fifo) t)
          (ap others entries))

  -- Let the fifo of another hart be valid and not full, and each request in it and the new one
  -- start at a page, end before the last page, not be for everything by start 0 and size 0, and
  -- have enough fuel for its pages. Then the request is sent. What the fences of the two types of
  -- sfence.vma in the fifo of that hart drop afterwards is, at each address of each address space,
  -- what they would have dropped before, and what the new request drops if it is of these types.
  -- The requests of the other types are those from before in their order, and the new one behind
  -- them if it is of another type. The fifo is valid, and the sender counts one more answer to wait
  -- for.
  pub tlb_update-Sent :
      (me remote : ℕ) (hs : Harts)
      → remote ≢ me
      → IsValid (hs remote).fifo
      → AllPlain fuel (contents (hs remote).fifo)
      → (hs remote).fifo.avail < (hs remote).fifo.num_entries
      → Sent me remote hs (tlb_update fuel me remote t hs)
  unfolding tlb_update
  tlb_update-Sent me remote hs ne v a room =
      let apart : (remote == me) ≡ false = ground (arith, ne) in
      let u = sbi_fifo_inplace_update-Updated (hs remote).fifo (tlb_update_cb t) v in
      rw (apart, u.result)
        (elim (update-Offer (contents (hs remote).fifo) a) [
          | inl e ↦
              let same : contents u.after ≡ contents (hs remote).fifo =
                u.state.entries ∙ ap (λ (r : ℕ × List TlbInfo). r.1) e in
              let code : (Queue.update (tlb_update_cb t) fifo_unchanged
                    (contents (hs remote).fifo)).0
                  ≡ fifo_unchanged =
                ap (λ (r : ℕ × List TlbInfo). r.0) e in
              let as_long : u.after.avail ≡ (hs remote).fifo.avail =
                sym (length-contents u.after)
                ∙ (ap length same ∙ length-contents (hs remote).fifo) in
              rw code (
                enqueued-Sent me remote hs u.after apart u.state.valid
                  (omega (arith, as_long, u.state.capacity, room)) same)
          | inr (n, d, o) ↦ rw n (
              count-Sent me remote hs u.after apart u.state.valid
                (ap (λ xs. drops fuel xs asid va) u.state.entries ∙ d)
                (ap others u.state.entries ∙ o))
        ])
