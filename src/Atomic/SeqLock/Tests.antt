-- ===== src/Atomic/SeqLock/Tests.antt =====
-- A writer and a reader at a sequence lock.
use meph_i_semester_4_acos.Base.{ℕ, ◌≡◌, refl, false, List, [], ◌∷◌, ◌++◌, get_or}
use meph_i_semester_4_acos.Atomic.Threads.{total}
use meph_i_semester_4_acos.Atomic.SeqLock.{
  read_unlock, outside, reading, Choice, begin_read, begin_write, leave, access, move, run,
}
use meph_i_semester_4_acos.Atomic.SeqLock.Invariant.{changing, Current}
use meph_i_semester_4_acos.Atomic.SeqLock.Snapshot.{start, run-Current}

abbrev cells : ℕ → ℕ
cells i = 7

-- Thread 0 writes 1 to cell 0 and 2 to cell 1; thread 1 starts to read before it does.
abbrev written : List (ℕ × Choice)
written =
    (0, begin_write)
    ∷ (0, leave)
    ∷ (1, begin_read)
    ∷ (0, leave)
    ∷ (1, access 0 0)
    ∷ (0, access 0 1)
    ∷ (0, access 1 2)
    ∷ (1, access 1 0)
    ∷ (0, leave)
    ∷ (0, leave)
    ∷ []

-- Thread 1 starts again.
abbrev read_again : List (ℕ × Choice)
read_again = (1, leave) ∷ (1, begin_read) ∷ (1, access 0 0) ∷ (1, access 1 0) ∷ []

-- what it saw at first is torn, and SeqLock_ReadUnlock says so
read_unlock-torn : read_unlock 0 (run written (start 2 cells)).shared ≡ false
unfolding move
read_unlock-torn = refl

run-torn : get_or (run written (start 2 cells)).threads 1 outside ≡ reading 0 ((1, 2) ∷ (0, 7) ∷ [])
unfolding move
run-torn = refl

run-Current_example :
    let s = run read_again (run written (start 2 cells)) in
    Current s.shared.cell ((1, 2) ∷ (0, 1) ∷ []) × (total changing s.threads ≡ 0)
unfolding move
run-Current_example =
    run-Current 2 cells (written ++ read_again) 1 2 ((1, 2) ∷ (0, 1) ∷ []) refl refl
