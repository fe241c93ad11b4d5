-- ===== src/Atomic/SeqLock/Invariant.antt =====
-- What the threads at a sequence lock keep, and the steps that touch it.
use meph_i_semester_4_acos.Base.{
  ℕ, ◌+◌, ◌%◌, ◌<◌, ◌≤◌, ◌≡◌, ◌≢◌, inl, inr, refl, subst, ap, true, ◌==◌, if◌then◌else◌, List, [],
  ◌∷◌, length, get_or, set, update, arith, Bool-cases, All,
}
use meph_i_semester_4_acos.Atomic.{try_lock, unlock}
use meph_i_semester_4_acos.Atomic.Threads.{
  total, total-set, total_mono, total-get_or, All-set, All-get_or, All-mono,
}
use meph_i_semester_4_acos.Atomic.SeqLock.{
  Shared, read_unlock, At, outside, reading, write_lock, write_add, writing, write_unlock, System,
}

-- the thread that holds the lock, and the one that may write
abbrev pub holding : At → ℕ
holding write_add = 1
holding writing = 1
holding write_unlock = 1
holding _ = 0

abbrev pub changing : At → ℕ
changing writing = 1
changing _ = 0

-- what was read is what the cells hold
abbrev pub Current : (ℕ → ℕ) → List (ℕ × ℕ) → Type 0
Current cell [] = Unit
Current cell ((i, x) ∷ reads) = (cell i ≡ x) × Current cell reads

-- A reader's value lies behind or at the count; at it, if it is even, all its reads are current.
abbrev pub Fresh : Shared → At → Type 0
Fresh s (reading value reads) =
    (value ≤ s.count) × (read_unlock value s ≡ true → Current s.cell reads)
Fresh s _ = Unit

pub record IsSafe (s : System) : Type 0 where
  pub held : total holding s.threads ≡ s.shared.lock
  pub one : s.shared.lock ≤ 1
  pub odd : total changing s.threads ≡ s.shared.count % 2
  pub fresh : All (Fresh s.shared) s.threads

changing-holding : (a : At) → changing a ≤ holding a
changing-holding outside = omega arith
changing-holding (reading value reads) = omega arith
changing-holding write_lock = omega arith
changing-holding write_add = omega arith
changing-holding writing = omega arith
changing-holding write_unlock = omega arith

-- a thread that moves, with what becomes of the totals
keep :
    (s : System) (i : ℕ) (b : At) (t : Shared)
    → IsSafe s
    → i < length s.threads
    → holding b + s.shared.lock ≡ holding (get_or s.threads i outside) + t.lock
    → t.lock ≤ 1
    → (total changing s.threads ≡ s.shared.count % 2
        → total changing (set s.threads i b) ≡ t.count % 2)
    → ((a : At) → Fresh s.shared a → Fresh t a)
    → Fresh t b
    → IsSafe (record { threads = set s.threads i b; shared = t })
keep s i b t v h w one odd mono f = record {
  held = omega (arith, v.held, total-set holding s.threads i b outside h);
  one = one;
  odd = odd v.odd;
  fresh =
      All-set (Fresh t) s.threads i b (All-mono (Fresh s.shared) (Fresh t) s.threads mono v.fresh)
        f;
}

-- a thread that stays what it was to the lock, with the shared state as it was
pub quiet :
    (s : System) (i : ℕ) (b : At)
    → IsSafe s
    → i < length s.threads
    → holding b ≡ holding (get_or s.threads i outside)
    → changing b ≡ changing (get_or s.threads i outside)
    → Fresh s.shared b
    → IsSafe (record { threads = set s.threads i b; shared = s.shared })
quiet s i b v h same alike f =
    keep s i b s.shared v h (omega (arith, same)) v.one
      (λ e. omega (arith, e, alike, total-set changing s.threads i b outside h)) (λ a g. g) f

-- what a reader has seen it has still seen when the count has gone up
Fresh-count : (s t : Shared) → s.count < t.count → (a : At) → Fresh s a → Fresh t a
Fresh-count s t h outside f = tt
Fresh-count s t h (reading value reads) f =
    (omega (arith, h, f.0), λ e. absurd (ground (arith, h, e, f.0)))
Fresh-count s t h write_lock f = tt
Fresh-count s t h write_add f = tt
Fresh-count s t h writing f = tt
Fresh-count s t h write_unlock f = tt

-- the lock alone moves
Fresh-lock : (s : Shared) (lock : ℕ) (a : At) → Fresh s a → Fresh (record s { lock = lock }) a
Fresh-lock s lock outside f = tt
Fresh-lock s lock (reading value reads) f = f
Fresh-lock s lock write_lock f = tt
Fresh-lock s lock write_add f = tt
Fresh-lock s lock writing f = tt
Fresh-lock s lock write_unlock f = tt

-- while the count is odd no reader's value counts
Fresh-cell :
    (s : Shared) (cell : ℕ → ℕ)
    → s.count % 2 ≢ 0
    → (a : At) → Fresh s a
    → Fresh (record s { cell = cell }) a
Fresh-cell s cell odd outside f = tt
Fresh-cell s cell odd (reading value reads) f = (f.0, λ e. absurd (ground (arith, e, odd)))
Fresh-cell s cell odd write_lock f = tt
Fresh-cell s cell odd write_add f = tt
Fresh-cell s cell odd writing f = tt
Fresh-cell s cell odd write_unlock f = tt

relock-IsSafe :
    (s : System) (i lock : ℕ) (b : At)
    → IsSafe s
    → i < length s.threads
    → holding b + s.shared.lock ≡ holding (get_or s.threads i outside) + lock
    → lock ≤ 1
    → changing b ≡ changing (get_or s.threads i outside)
    → Fresh s.shared b
    → IsSafe (record { threads = set s.threads i b; shared = record s.shared { lock = lock } })
relock-IsSafe s i lock b v h w one alike f =
    keep s i b (record s.shared { lock = lock }) v h w one
      (λ k. omega (arith, k, alike, total-set changing s.threads i b outside h))
      (Fresh-lock s.shared lock) (Fresh-lock s.shared lock b f)

pub take-IsSafe :
    (s : System) (i : ℕ)
    → IsSafe s
    → i < length s.threads
    → get_or s.threads i outside ≡ write_lock
    → let (lock, taken) = try_lock s.shared.lock in
      IsSafe (record {
        threads = set s.threads i (if taken then write_add else write_lock);
        shared = record s.shared { lock = lock };
      })
take-IsSafe s i v h e = elim (Bool-cases (s.shared.lock == 0)) [
  | inl y ↦
      rw y
        (relock-IsSafe s i 1 write_add v h (rw e (ground (arith, y))) (ground arith) (rw e refl) tt)
  | inr n ↦ rw n (
      relock-IsSafe s i 1 write_lock v h (rw e (ground (arith, n, v.one))) (ground arith)
        (rw e refl) tt)
]

-- the count moves, the cells stay
pub count-IsSafe :
    (s : System) (i lock : ℕ) (b : At)
    → IsSafe s
    → i < length s.threads
    → holding b + s.shared.lock ≡ holding (get_or s.threads i outside) + lock
    → lock ≤ 1
    → changing b + changing (get_or s.threads i outside) ≡ 1
    → Fresh s.shared b
    → IsSafe (record {
      threads = set s.threads i b;
      shared = record s.shared { lock = lock; count = s.shared.count + 1 };
    })
count-IsSafe s i lock b v h w one turn f =
    keep s i b (record s.shared { lock = lock; count = s.shared.count + 1 }) v h w one
      (λ k. omega (
        arith,
        k,
        turn,
        one,
        v.held,
        w,
        total-set changing s.threads i b outside h,
        total-set holding s.threads i b outside h,
        total_mono changing holding (set s.threads i b) changing-holding,
      ))
      (Fresh-count s.shared (record s.shared { lock = lock; count = s.shared.count + 1 })
        (ground arith))
      (Fresh-count s.shared (record s.shared { lock = lock; count = s.shared.count + 1 })
        (ground arith) b f)

pub write-IsSafe :
    (s : System) (i j x : ℕ)
    → IsSafe s
    → i < length s.threads
    → get_or s.threads i outside ≡ writing
    → IsSafe (record {
      threads = set s.threads i writing;
      shared = record s.shared { cell = update s.shared.cell j x };
    })
write-IsSafe s i j x v h e =
    keep s i writing (record s.shared { cell = update s.shared.cell j x }) v h (rw e refl) v.one
      (λ k. omega (arith, k, ap changing e, total-set changing s.threads i writing outside h))
      (Fresh-cell s.shared (update s.shared.cell j x)
        (omega (arith, v.odd, ap changing e, total-get_or changing s.threads i outside h)))
      tt

pub release-IsSafe :
    (s : System) (i : ℕ)
    → IsSafe s
    → i < length s.threads
    → get_or s.threads i outside ≡ write_unlock
    → IsSafe (record {
      threads = set s.threads i outside;
      shared = record s.shared { lock = unlock s.shared.lock };
    })
release-IsSafe s i v h e =
    relock-IsSafe s i (unlock s.shared.lock) outside v h
      (rw e
        (ground (arith, v.held, v.one, ap holding e, total-get_or holding s.threads i outside h)))
      (ground (arith, v.one)) (rw e refl) tt

-- what is known of the thread that moves
pub standing :
    (s : System) (i : ℕ) (a : At) → IsSafe s → get_or s.threads i outside ≡ a → Fresh s.shared a
standing s i a v e =
    subst (Fresh s.shared) e (All-get_or (Fresh s.shared) s.threads i outside v.fresh tt)

pub access-IsSafe :
    (s : System) (i value j : ℕ) (reads : List (ℕ × ℕ))
    → IsSafe s
    → i < length s.threads
    → get_or s.threads i outside ≡ reading value reads
    → IsSafe (record {
      threads = set s.threads i (reading value ((j, s.shared.cell j) ∷ reads));
      shared = s.shared;
    })
access-IsSafe s i value j reads v h e =
    let f = standing s i (reading value reads) v e in
    quiet s i (reading value ((j, s.shared.cell j) ∷ reads)) v h (rw e refl) (rw e refl)
      (f.0, λ k. (refl, f.1 k))
