-- ===== src/Atomic/SeqLock.antt =====
-- atomic/seqlock/seqlock.h: a lock whose readers take nothing, with the data that it protects as
-- numbered cells. A thread moves one atomic operation, or one access of a cell, at a time.
pub mod Invariant
pub mod Snapshot
mod Tests
use meph_i_semester_4_acos.Base.{
  ℕ, ◌+◌, ◌%◌, Bool, true, false, ◌&&◌, ◌==◌, ltb, if◌then◌else◌, List, [], ◌∷◌, length, get_or,
  set, update,
}
use meph_i_semester_4_acos.Atomic.{atomic_add, atomic_load, try_lock, unlock}

-- `struct SeqLock`, and the cells
pub record Shared : Type 0 where
  pub lock : ℕ
  pub count : ℕ
  pub cell : ℕ → ℕ

-- SeqLock_Init
abbrev pub init : (ℕ → ℕ) → Shared
init cell = record { lock = 0; count = 0; cell = cell }

-- `temp == value && temp % 2 == 0`: whether SeqLock_ReadUnlock returns 1
abbrev pub read_unlock : ℕ → Shared → Bool
read_unlock value s = let temp = atomic_load s.count in temp == value && temp % 2 == 0

-- A reader holds the value of SeqLock_ReadLock and what it has read of each cell.
pub data At : Type 0 where
  outside : At
  reading : ℕ → List (ℕ × ℕ) → At
  write_lock write_add writing write_unlock : At

-- What a thread does next where it may choose. (`leave` ends a read, also one that fails.)
pub data Choice : Type 0 where
  begin_read begin_write leave : Choice
  access : ℕ → ℕ → Choice

-- One step. `access i x` reads cell `i`, or writes `x` to it.
pub move : Choice → At → Shared → At × Shared
move begin_read outside s = (reading (atomic_load s.count) [], s)
move begin_write outside s = (write_lock, s)
move (access i x) (reading value reads) s = (reading value ((i, s.cell i) ∷ reads), s)
move leave (reading value reads) s = (outside, s)
-- SeqLock_WriteLock
move c write_lock s =
    let (lock, taken) = try_lock s.lock in
    (if taken then write_add else write_lock, record s { lock = lock })
move c write_add s = (writing, record s { count = atomic_add 1 s.count })
move (access i x) writing s = (writing, record s { cell = update s.cell i x })
-- SeqLock_WriteUnlock
move leave writing s = (write_unlock, record s { count = atomic_add 1 s.count })
move c write_unlock s = (outside, record s { lock = unlock s.lock })
move c a s = (a, s)

pub record System : Type 0 where
  pub threads : List At
  pub shared : Shared

-- Thread `i` moves.
abbrev pub step : ℕ × Choice → System → System
step (i, c) s =
    if ltb i (length s.threads)
    then (let (at, shared) = move c (get_or s.threads i outside) s.shared in
        record { threads = set s.threads i at; shared = shared })
    else s

abbrev pub run : List (ℕ × Choice) → System → System
run [] s = s
run (x ∷ xs) s = run xs (step x s)
