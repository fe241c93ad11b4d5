-- ===== src/Atomic/RwLock.antt =====
-- atomic/rwlock/rwlock.h: readers and writers. A thread is where it stands in the code, and moves
-- one atomic operation at a time.
pub mod Totals
pub mod Exclusion
mod Tests
use meph_i_semester_4_acos.Base.{
  ℕ, ◌+◌, ◌-◌, Bool, true, false, ◌==◌, ltb, if◌then◌else◌, List, [], ◌∷◌, length, get_or, set,
}
use meph_i_semester_4_acos.Atomic.{atomic_add, atomic_sub, atomic_load, try_lock, unlock}

-- `struct RwLock`
pub record RwLock : Type 0 where
  pub readers_count : ℕ
  pub readers_lock : ℕ
  pub writers_lock : ℕ

-- RwLock_Init
abbrev pub init : RwLock
init = record { readers_count = 0; readers_lock = 0; writers_lock = 0 }

-- The next operation of a thread: `outside`, it chooses to read or to write; `reading` and
-- `writing`, it is in its critical section, and the next operation is the first of the unlock.
pub data At : Type 0 where
  outside read_lock read_add read_unlock reading sub_lock sub_count sub_unlock : At
  write_lock write_load writing : At

-- One atomic operation of a thread. `writes` is the choice of a thread that is outside.
pub move : Bool → At → RwLock → At × RwLock
move writes outside l = (if writes then write_lock else read_lock, l)
-- RwLock_ReadLock
move writes read_lock l =
    let (lock, taken) = try_lock l.writers_lock in
    (if taken then read_add else read_lock, record l { writers_lock = lock })
move writes read_add l = (read_unlock, record l { readers_count = atomic_add 1 l.readers_count })
move writes read_unlock l = (reading, record l { writers_lock = unlock l.writers_lock })
-- RwLock_ReadUnlock
move writes reading l = (sub_lock, l)
move writes sub_lock l =
    let (lock, taken) = try_lock l.readers_lock in
    (if taken then sub_count else sub_lock, record l { readers_lock = lock })
move writes sub_count l = (sub_unlock, record l { readers_count = atomic_sub 1 l.readers_count })
move writes sub_unlock l = (outside, record l { readers_lock = unlock l.readers_lock })
-- RwLock_WriteLock
move writes write_lock l =
    let (lock, taken) = try_lock l.writers_lock in
    (if taken then write_load else write_lock, record l { writers_lock = lock })
move writes write_load l = (if atomic_load l.readers_count == 0 then writing else write_load, l)
-- RwLock_WriteUnlock
move writes writing l = (outside, record l { writers_lock = unlock l.writers_lock })

pub record System : Type 0 where
  pub threads : List At
  pub lock : RwLock

-- Thread `i` moves.
abbrev pub step : ℕ × Bool → System → System
step (i, writes) s =
    if ltb i (length s.threads)
    then (let (at, lock) = move writes (get_or s.threads i outside) s.lock in
        record { threads = set s.threads i at; lock = lock })
    else s

abbrev pub run : List (ℕ × Bool) → System → System
run [] s = s
run (x ∷ xs) s = run xs (step x s)
