-- ===== src/Atomic.antt =====
-- atomic: the atomic operations of atomic.h and the locks built on them, with threads that
-- interleave at each atomic operation. Memory is sequentially consistent, and a counter does not
-- reach 2 ^ 63.
pub mod Threads
pub mod RwLock
pub mod SeqLock
use meph_i_semester_4_acos.Base.{ℕ, ◌+◌, ◌-◌, Bool, true, false, ◌==◌, if◌then◌else◌}

-- The operations of atomic.h on a word: what it holds after it, and what is returned.
abbrev pub atomic_add : ℕ → ℕ → ℕ
atomic_add value word = word + value

-- on a word that is at least `value`
abbrev pub atomic_sub : ℕ → ℕ → ℕ
atomic_sub value word = word - value

abbrev pub atomic_xchg : ℕ → ℕ → ℕ × ℕ
atomic_xchg value word = (value, word)

abbrev pub atomic_cas : ℕ → ℕ → ℕ → ℕ × Bool
atomic_cas expected value word = if word == expected then (value, true) else (word, false)

abbrev pub atomic_load : ℕ → ℕ
atomic_load word = word

-- SpinLock: one round of the loop of SpinLock_Lock, and whether the lock was taken
abbrev pub try_lock : ℕ → ℕ × Bool
try_lock lock = let (lock', old) = atomic_xchg 1 lock in (lock', old == 0)

-- SpinLock_Unlock
abbrev pub unlock : ℕ → ℕ
unlock lock = (atomic_cas 1 0 lock).0
