-- ===== src/Atomic/RwLock/Exclusion.antt =====
-- A writer is alone.
use meph_i_semester_4_acos.Base.{
  ℕ, ◌<◌, ◌≤◌, ◌≡◌, ◌⊎◌, inl, inr, refl, Bool, true, false, ◌==◌, ltb, List, [], ◌∷◌, length,
  get_or, set, replicate, arith, Bool-cases,
}
use meph_i_semester_4_acos.Atomic.Threads.{total, total-replicate}
use meph_i_semester_4_acos.Atomic.RwLock.{
  At, outside, read_lock, read_add, read_unlock, reading, sub_lock, sub_count, sub_unlock,
  write_lock, write_load, writing, move, init, System, step, run,
}
use meph_i_semester_4_acos.Atomic.RwLock.Totals.{
  adding, entering, inside, leaving, subtracting, left, waiting, alone, IsSafe, moved, keep, quiet,
}

move-IsSafe :
    (writes : Bool) (i : ℕ) (a : At) (s : System)
    → IsSafe s
    → i < length s.threads
    → get_or s.threads i outside ≡ a
    → let (b, l) = move writes a s.lock in IsSafe (record { threads = set s.threads i b; lock = l })
unfolding move
move-IsSafe true i outside s v h e =
    quiet s i outside write_lock s.lock v h e refl v.one_writer refl v.one_reader refl (omega arith)
      (omega arith)
move-IsSafe false i outside s v h e =
    quiet s i outside read_lock s.lock v h e refl v.one_writer refl v.one_reader refl (omega arith)
      (omega arith)
move-IsSafe writes i read_lock s v h e = elim (Bool-cases (s.lock.writers_lock == 0)) [
  | inl y ↦ rw y (
      quiet s i read_lock read_add _ v h e (ground arith) (omega arith) refl v.one_reader refl
        (omega arith) (omega arith))
  | inr n ↦ rw n (
      quiet s i read_lock read_lock _ v h e (ground (arith, v.one_writer)) (omega arith) refl
        v.one_reader refl (omega arith) (omega arith))
]
move-IsSafe writes i read_add s v h e =
    let m = moved s.threads i read_add read_unlock h e in
    keep s i read_add read_unlock _ v m refl v.one_writer refl v.one_reader (omega arith)
      (inl (omega (arith, v.writers, v.one_writer, m.m1, m.m2, m.m7, m.m8)))
move-IsSafe writes i read_unlock s v h e =
    let m = moved s.threads i read_unlock reading h e in
    let held : s.lock.writers_lock ≡ 1 = omega (arith, v.writers, v.one_writer, m.m2) in
    quiet s i read_unlock reading _ v h e (ground (arith, held)) (ground (arith, held)) refl
      v.one_reader refl (omega arith) (omega arith)
move-IsSafe writes i reading s v h e =
    quiet s i reading sub_lock _ v h e refl v.one_writer refl v.one_reader refl (omega arith)
      (omega arith)
move-IsSafe writes i sub_lock s v h e = elim (Bool-cases (s.lock.readers_lock == 0)) [
  | inl y ↦ rw y (
      quiet s i sub_lock sub_count _ v h e refl v.one_writer (ground arith) (omega arith) refl
        (omega arith) (omega arith))
  | inr n ↦ rw n (
      quiet s i sub_lock sub_lock _ v h e refl v.one_writer (ground (arith, v.one_reader))
        (omega arith) refl (omega arith) (omega arith))
]
move-IsSafe writes i sub_count s v h e =
    let m = moved s.threads i sub_count sub_unlock h e in
    let some_reader : 1 ≤ s.lock.readers_count = omega (arith, v.counted, m.m5) in
    quiet s i sub_count sub_unlock _ v h e refl v.one_writer refl v.one_reader (omega arith)
      (omega arith) (omega arith)
move-IsSafe writes i sub_unlock s v h e =
    let m = moved s.threads i sub_unlock outside h e in
    let held : s.lock.readers_lock ≡ 1 = omega (arith, v.readers, v.one_reader, m.m6) in
    quiet s i sub_unlock outside _ v h e refl v.one_writer (ground (arith, held))
      (ground (arith, held)) refl (omega arith) (omega arith)
move-IsSafe writes i write_lock s v h e = elim (Bool-cases (s.lock.writers_lock == 0)) [
  | inl y ↦ rw y (
      quiet s i write_lock write_load _ v h e (ground arith) (omega arith) refl v.one_reader refl
        (omega arith) (omega arith))
  | inr n ↦ rw n (
      quiet s i write_lock write_lock _ v h e (ground (arith, v.one_writer)) (omega arith) refl
        v.one_reader refl (omega arith) (omega arith))
]
move-IsSafe writes i write_load s v h e = elim (Bool-cases (s.lock.readers_count == 0)) [
  | inl y ↦
      let m = moved s.threads i write_load writing h e in
      rw y (
        keep s i write_load writing _ v m refl v.one_writer refl v.one_reader refl
          (inr (ground arith)))
  | inr n ↦ rw n (
      quiet s i write_load write_load _ v h e refl v.one_writer refl v.one_reader refl (omega arith)
        (omega arith))
]
move-IsSafe writes i writing s v h e =
    let m = moved s.threads i writing outside h e in
    let held : s.lock.writers_lock ≡ 1 = omega (arith, v.writers, v.one_writer, m.m8) in
    quiet s i writing outside _ v h e (ground (arith, held)) (ground (arith, held)) refl
      v.one_reader refl (omega arith) (omega arith)

step-IsSafe : (x : ℕ × Bool) (s : System) → IsSafe s → IsSafe (step x s)
step-IsSafe (i, writes) s v = elim (Bool-cases (ltb i (length s.threads))) [
  | inl y ↦ rw y (move-IsSafe writes i (get_or s.threads i outside) s v (ground arith) refl)
  | inr n ↦ rw n v
]

run-IsSafe : (xs : List (ℕ × Bool)) (s : System) → IsSafe s → IsSafe (run xs s)
run-IsSafe [] s v = v
run-IsSafe (x ∷ xs) s v = run-IsSafe xs (step x s) (step-IsSafe x s v)

-- `n` threads that have not come to the lock yet
abbrev pub start : ℕ → System
start n = record { threads = replicate n outside; lock = init }

start-IsSafe : (n : ℕ) → IsSafe (start n)
start-IsSafe n = record {
  writers = omega (
    arith,
    total-replicate adding n outside refl,
    total-replicate entering n outside refl,
    total-replicate waiting n outside refl,
    total-replicate alone n outside refl,
  );
  one_writer = omega arith;
  readers =
      omega
        (arith, total-replicate subtracting n outside refl, total-replicate left n outside refl);
  one_reader = omega arith;
  counted = omega (
    arith,
    total-replicate entering n outside refl,
    total-replicate inside n outside refl,
    total-replicate leaving n outside refl,
    total-replicate subtracting n outside refl,
  );
  apart = inr refl;
}

-- However the atomic operations of any number of threads interleave, at most one thread is between
-- RwLock_WriteLock and RwLock_WriteUnlock, and while one is, no thread is between RwLock_ReadLock
-- and RwLock_ReadUnlock.
pub run-alone :
    (n : ℕ) (xs : List (ℕ × Bool))
    → let ts = (run xs (start n)).threads in
      (total alone ts ≤ 1) × ((total alone ts ≡ 0) ⊎ (total inside ts ≡ 0))
run-alone n xs =
    let v = run-IsSafe xs (start n) (start-IsSafe n) in
    (
      omega (arith, v.writers, v.one_writer),
      elim v.apart [ inl z ↦ inl z | inr z ↦ inr (omega (arith, v.counted, z)) ],
    )
