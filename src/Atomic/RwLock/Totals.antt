-- ===== src/Atomic/RwLock/Totals.antt =====
-- How many threads stand where, and what a move does to that.
use meph_i_semester_4_acos.Base.{
  ℕ, ◌+◌, ◌<◌, ◌≤◌, ◌≡◌, ◌⊎◌, inl, inr, subst, List, length, get_or, set, arith,
}
use meph_i_semester_4_acos.Atomic.Threads.{total, total-set}
use meph_i_semester_4_acos.Atomic.RwLock.{
  RwLock, At, outside, read_add, read_unlock, reading, sub_lock, sub_count, sub_unlock, write_load,
  writing, System,
}

-- the reader that is adding, the one that is letting the writers' lock go, and so on
abbrev pub adding : At → ℕ
adding read_add = 1
adding _ = 0

abbrev pub entering : At → ℕ
entering read_unlock = 1
entering _ = 0

abbrev pub inside : At → ℕ
inside reading = 1
inside _ = 0

abbrev pub leaving : At → ℕ
leaving sub_lock = 1
leaving _ = 0

abbrev pub subtracting : At → ℕ
subtracting sub_count = 1
subtracting _ = 0

abbrev pub left : At → ℕ
left sub_unlock = 1
left _ = 0

abbrev pub waiting : At → ℕ
waiting write_load = 1
waiting _ = 0

abbrev pub alone : At → ℕ
alone writing = 1
alone _ = 0

-- The writers' lock is held by one thread or none, and so is the readers' lock; the count is that
-- of the readers from their addition to their subtraction; it is 0 while a thread writes.
pub record IsSafe (s : System) : Type 0 where
  pub writers :
      total adding s.threads
        + total entering s.threads
        + total waiting s.threads
        + total alone s.threads
      ≡ s.lock.writers_lock
  pub one_writer : s.lock.writers_lock ≤ 1
  pub readers : total subtracting s.threads + total left s.threads ≡ s.lock.readers_lock
  pub one_reader : s.lock.readers_lock ≤ 1
  pub counted :
      total entering s.threads
        + total inside s.threads
        + total leaving s.threads
        + total subtracting s.threads
      ≡ s.lock.readers_count
  pub apart : (total alone s.threads ≡ 0) ⊎ (s.lock.readers_count ≡ 0)

-- what becomes of all the totals where thread `i` goes from `a` to `b`
pub record Moved (as' : List At) (i : ℕ) (a b : At) : Type 0 where
  pub m1 : total adding (set as' i b) + adding a ≡ total adding as' + adding b
  pub m2 : total entering (set as' i b) + entering a ≡ total entering as' + entering b
  pub m3 : total inside (set as' i b) + inside a ≡ total inside as' + inside b
  pub m4 : total leaving (set as' i b) + leaving a ≡ total leaving as' + leaving b
  pub m5 : total subtracting (set as' i b) + subtracting a ≡ total subtracting as' + subtracting b
  pub m6 : total left (set as' i b) + left a ≡ total left as' + left b
  pub m7 : total waiting (set as' i b) + waiting a ≡ total waiting as' + waiting b
  pub m8 : total alone (set as' i b) + alone a ≡ total alone as' + alone b

pub moved :
    (as' : List At) (i : ℕ) (a b : At) → i < length as' → get_or as' i outside ≡ a → Moved as' i a b
moved as' i a b h e =
    subst (λ x. Moved as' i x b) e
      (record {
        m1 = total-set adding as' i b outside h;
        m2 = total-set entering as' i b outside h;
        m3 = total-set inside as' i b outside h;
        m4 = total-set leaving as' i b outside h;
        m5 = total-set subtracting as' i b outside h;
        m6 = total-set left as' i b outside h;
        m7 = total-set waiting as' i b outside h;
        m8 = total-set alone as' i b outside h;
      })

-- A move keeps the lock safe if it changes the words as it changes the totals.
pub keep :
    (s : System) (i : ℕ) (a b : At) (l : RwLock)
    → IsSafe s
    → Moved s.threads i a b
    → adding b + entering b + waiting b + alone b + s.lock.writers_lock
      ≡ adding a + entering a + waiting a + alone a + l.writers_lock
    → l.writers_lock ≤ 1
    → subtracting b + left b + s.lock.readers_lock ≡ subtracting a + left a + l.readers_lock
    → l.readers_lock ≤ 1
    → entering b + inside b + leaving b + subtracting b + s.lock.readers_count
      ≡ entering a + inside a + leaving a + subtracting a + l.readers_count
    → (total alone (set s.threads i b) ≡ 0) ⊎ (l.readers_count ≡ 0)
    → IsSafe (record { threads = set s.threads i b; lock = l })
keep s i a b l v m w w1 r r1 c x = record {
  writers = omega (arith, v.writers, m.m1, m.m2, m.m7, m.m8, w);
  one_writer = w1;
  readers = omega (arith, v.readers, m.m5, m.m6, r);
  one_reader = r1;
  counted = omega (arith, v.counted, m.m2, m.m3, m.m4, m.m5, c);
  apart = x;
}

-- where neither the number of writers nor the count grows
pub still :
    (s : System) (i : ℕ) (a b : At) (n : ℕ)
    → IsSafe s
    → Moved s.threads i a b
    → alone b ≤ alone a
    → n ≤ s.lock.readers_count
    → (total alone (set s.threads i b) ≡ 0) ⊎ (n ≡ 0)
still s i a b n v m h k = elim v.apart [
  | inl z ↦ inl (omega (arith, m.m8))
  | inr z ↦ inr (omega arith)
]

-- such a move
pub quiet :
    (s : System) (i : ℕ) (a b : At) (l : RwLock)
    → IsSafe s
    → i < length s.threads
    → get_or s.threads i outside ≡ a
    → adding b + entering b + waiting b + alone b + s.lock.writers_lock
      ≡ adding a + entering a + waiting a + alone a + l.writers_lock
    → l.writers_lock ≤ 1
    → subtracting b + left b + s.lock.readers_lock ≡ subtracting a + left a + l.readers_lock
    → l.readers_lock ≤ 1
    → entering b + inside b + leaving b + subtracting b + s.lock.readers_count
      ≡ entering a + inside a + leaving a + subtracting a + l.readers_count
    → alone b ≤ alone a
    → l.readers_count ≤ s.lock.readers_count
    → IsSafe (record { threads = set s.threads i b; lock = l })
quiet s i a b l v h e w w1 r r1 c u k =
    let m = moved s.threads i a b h e in
    keep s i a b l v m w w1 r r1 c (still s i a b l.readers_count v m u k)
