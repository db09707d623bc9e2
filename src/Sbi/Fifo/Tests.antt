-- ===== src/Sbi/Fifo/Tests.antt =====
-- A fifo of three numbers, its first entry at the end of the array, and the theorems about it.
use inside_system.Prelude.{ℕ, ◌≡◌, refl, true, false, [], ◌∷◌, some, arith, ◌==◌, if◌then◌else◌}
use inside_system.Sbi.Status.{ok}
use inside_system.Sbi.Fifo.{Fifo, sbi_fifo_enqueue, sbi_fifo_dequeue, sbi_fifo_inplace_update}
use inside_system.Sbi.Fifo.Queue
use inside_system.Sbi.Fifo.Refine.{
  IsValid, Refines, Dequeues, contents, sbi_fifo_enqueue-Refines, sbi_fifo_dequeue-Dequeues,
}
use inside_system.Sbi.Fifo.Update.{Updated, sbi_fifo_inplace_update-Updated}

-- 8, then 9, round the end.
abbrev wrapped : Fifo ℕ
wrapped = record {
  queue = λ i. if i == 2 then 8 else if i == 0 then 9 else 0;
  locked = false;
  num_entries = 3;
  avail = 2;
  tail = 2;
}

abbrev bump_nine : ℕ → ℕ × ℕ
bump_nine x = if x == 9 then (1, 10) else (2, x)

contents-wrapped : contents wrapped ≡ 8 ∷ 9 ∷ []
contents-wrapped = refl

wrapped-IsValid : IsValid wrapped
wrapped-IsValid = omega arith

sbi_fifo_enqueue-Refines_example :
    Refines 3 (ok, 8 ∷ 9 ∷ 5 ∷ []) (sbi_fifo_enqueue (some wrapped) (some 5) false)
sbi_fifo_enqueue-Refines_example = sbi_fifo_enqueue-Refines wrapped 5 false wrapped-IsValid

sbi_fifo_dequeue-Dequeues_example :
    Dequeues 3 (ok, some 8, 9 ∷ []) (sbi_fifo_dequeue (some wrapped) true)
sbi_fifo_dequeue-Dequeues_example = sbi_fifo_dequeue-Dequeues wrapped wrapped-IsValid

sbi_fifo_inplace_update-Updated_example :
    Updated 3 (1, 8 ∷ 10 ∷ []) (sbi_fifo_inplace_update (some wrapped) (some bump_nine))
unfolding Queue.update
sbi_fifo_inplace_update-Updated_example =
    sbi_fifo_inplace_update-Updated wrapped bump_nine wrapped-IsValid
