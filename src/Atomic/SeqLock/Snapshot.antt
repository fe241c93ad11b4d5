-- ===== src/Atomic/SeqLock/Snapshot.antt =====
-- A reader that succeeds has seen one state of the cells.
use meph_i_semester_4_acos.Base.{
  ℕ, ◌<◌, ◌≡◌, inl, inr, refl, true, ltb, List, [], ◌∷◌, length, get_or, set, replicate, arith,
  Bool-cases,
}
use meph_i_semester_4_acos.Atomic.Threads.{total, total-replicate, All-replicate}
use meph_i_semester_4_acos.Atomic.SeqLock.{
  init, read_unlock, At, outside, reading, write_lock, write_add, writing, write_unlock, Choice,
  begin_read, begin_write, leave, access, move, System, step, run,
}
use meph_i_semester_4_acos.Atomic.SeqLock.Invariant.{
  holding, changing, Current, Fresh, IsSafe, quiet, take-IsSafe, count-IsSafe, release-IsSafe,
  write-IsSafe, access-IsSafe, standing,
}

-- Every step of a thread keeps what makes the lock safe.
move-IsSafe :
    (c : Choice) (s : System) (i : ℕ) (a : At)
    → IsSafe s
    → i < length s.threads
    → get_or s.threads i outside ≡ a
    → let (b, t) = move c a s.shared in IsSafe (record { threads = set s.threads i b; shared = t })
unfolding move
move-IsSafe begin_read s i outside v h e =
    quiet s i (reading s.shared.count []) v h (rw e refl) (rw e refl) (omega arith, λ _. tt)
move-IsSafe begin_read s i (reading value reads) v h e =
    quiet s i (reading value reads) v h (rw e refl) (rw e refl)
      (standing s i (reading value reads) v e)
move-IsSafe begin_read s i write_lock v h e = take-IsSafe s i v h e
move-IsSafe begin_read s i write_add v h e =
    count-IsSafe s i s.shared.lock writing v h (rw e refl) v.one (rw e refl) tt
move-IsSafe begin_read s i writing v h e = quiet s i writing v h (rw e refl) (rw e refl) tt
move-IsSafe begin_read s i write_unlock v h e = release-IsSafe s i v h e
move-IsSafe begin_write s i outside v h e = quiet s i write_lock v h (rw e refl) (rw e refl) tt
move-IsSafe begin_write s i (reading value reads) v h e =
    quiet s i (reading value reads) v h (rw e refl) (rw e refl)
      (standing s i (reading value reads) v e)
move-IsSafe begin_write s i write_lock v h e = take-IsSafe s i v h e
move-IsSafe begin_write s i write_add v h e =
    count-IsSafe s i s.shared.lock writing v h (rw e refl) v.one (rw e refl) tt
move-IsSafe begin_write s i writing v h e = quiet s i writing v h (rw e refl) (rw e refl) tt
move-IsSafe begin_write s i write_unlock v h e = release-IsSafe s i v h e
move-IsSafe leave s i outside v h e = quiet s i outside v h (rw e refl) (rw e refl) tt
move-IsSafe leave s i (reading value reads) v h e = quiet s i outside v h (rw e refl) (rw e refl) tt
move-IsSafe leave s i write_lock v h e = take-IsSafe s i v h e
move-IsSafe leave s i write_add v h e =
    count-IsSafe s i s.shared.lock writing v h (rw e refl) v.one (rw e refl) tt
move-IsSafe leave s i writing v h e =
    count-IsSafe s i s.shared.lock write_unlock v h (rw e refl) v.one (rw e refl) tt
move-IsSafe leave s i write_unlock v h e = release-IsSafe s i v h e
move-IsSafe (access j x) s i outside v h e = quiet s i outside v h (rw e refl) (rw e refl) tt
move-IsSafe (access j x) s i (reading value reads) v h e = access-IsSafe s i value j reads v h e
move-IsSafe (access j x) s i write_lock v h e = take-IsSafe s i v h e
move-IsSafe (access j x) s i write_add v h e =
    count-IsSafe s i s.shared.lock writing v h (rw e refl) v.one (rw e refl) tt
move-IsSafe (access j x) s i writing v h e = write-IsSafe s i j x v h e
move-IsSafe (access j x) s i write_unlock v h e = release-IsSafe s i v h e

step-IsSafe : (i : ℕ) (c : Choice) (s : System) → IsSafe s → IsSafe (step (i, c) s)
step-IsSafe i c s v = elim (Bool-cases (ltb i (length s.threads))) [
  | inl y ↦ rw y (move-IsSafe c s i (get_or s.threads i outside) v (ground arith) refl)
  | inr n ↦ rw n v
]

run-IsSafe : (xs : List (ℕ × Choice)) (s : System) → IsSafe s → IsSafe (run xs s)
run-IsSafe [] s v = v
run-IsSafe ((i, c) ∷ xs) s v = run-IsSafe xs (step (i, c) s) (step-IsSafe i c s v)

-- `n` threads outside a lock that SeqLock_Init has made
abbrev pub start : ℕ → (ℕ → ℕ) → System
start n cell = record { threads = replicate n outside; shared = init cell }

start-IsSafe : (n : ℕ) (cell : ℕ → ℕ) → IsSafe (start n cell)
start-IsSafe n cell = record {
  held = total-replicate holding n outside refl;
  one = omega arith;
  odd = total-replicate changing n outside refl;
  fresh = All-replicate (Fresh (init cell)) n outside tt;
}

-- Threads start outside the lock and interleave in any way at each atomic operation and at each
-- access of a cell. If a reader's SeqLock_ReadUnlock then returns 1, all that it has read of the
-- cells since its SeqLock_ReadLock is what the cells hold together now, and no thread is writing.
pub run-Current :
    (n : ℕ) (cell : ℕ → ℕ) (xs : List (ℕ × Choice)) (i value : ℕ) (reads : List (ℕ × ℕ))
    → let s = run xs (start n cell) in
      get_or s.threads i outside ≡ reading value reads
      → read_unlock value s.shared ≡ true
      → Current s.shared.cell reads × (total changing s.threads ≡ 0)
run-Current n cell xs i value reads e ok =
    let s = run xs (start n cell) in
    let v = run-IsSafe xs (start n cell) (start-IsSafe n cell) in
    ((standing s i (reading value reads) v e).1 ok, ground (arith, v.odd, ok))
