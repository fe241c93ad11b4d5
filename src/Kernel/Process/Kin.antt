-- ===== src/Kernel/Process/Kin.antt =====
-- Loops over the process table, and what holds of parents and children at any time.
use meph_i_semester_4_acos.Base.{
  ℕ, zero, suc, ◌+◌, ◌<◌, ◌≤◌, ◌≡◌, inl, inr, Bool, true, false, ◌&&◌, ◌||◌, none, some, ◌==◌,
  is_some, arith, Bool-cases, Nat-cases,
}
use meph_i_semester_4_acos.Kernel.Process.{
  nproc, is_unused, is_sleeping, is_zombie, proc_at, same_chan, Proc, Table, is_parent, find, write,
}

-- the loop finds nothing where no entry passes the test
pub find-none :
    (test : Proc → Bool) (n i j : ℕ) (ps : ℕ → Proc)
    → find test n i ps ≡ none
    → i ≤ j
    → j < i + n
    → test (ps j) ≡ false
unfolding find
find-none test zero i j ps h a b = absurd (omega arith)
find-none test (suc n) i j ps h a b = elim (Bool-cases (test (ps i))) [
  | inl y ↦ ground arith
  | inr n0 ↦ elim (Nat-cases i j) [
    | inl e ↦ rw e at n0
    | inr ne ↦ find-none test n (i + 1) j ps (rw n0 at h) (omega arith) (omega arith)
  ]
]

-- what it finds lies in the table and passes the test
pub find-some :
    (test : Proc → Bool) (n i j : ℕ) (ps : ℕ → Proc)
    → find test n i ps ≡ some j
    → (test (ps j) ≡ true) × (j < i + n)
unfolding find
find-some test zero i j ps h = ground arith
find-some test (suc n) i j ps h = elim (Bool-cases (test (ps i))) [
  | inl y ↦ let e : i ≡ j = ground arith in (rw e at y, omega arith)
  | inr n0 ↦ let (a, b) = find-some test n (i + 1) j ps (rw n0 at h) in (a, omega arith)
]

-- and it lies at or before any entry that passes
pub find-first :
    (test : Proc → Bool) (n i j k : ℕ) (ps : ℕ → Proc)
    → find test n i ps ≡ some j
    → i ≤ k
    → test (ps k) ≡ true
    → j ≤ k
unfolding find
find-first test zero i j k ps h a p = ground arith
find-first test (suc n) i j k ps h a p = elim (Bool-cases (test (ps i))) [
  | inl y ↦ let e : i ≡ j = ground arith in omega arith
  | inr n0 ↦ elim (Nat-cases i k) [
    | inl e ↦ absurd (let q : test (ps i) ≡ true = rw e p in ground arith)
    | inr ne ↦ find-first test n (i + 1) j k ps (rw n0 at h) (omega arith) p
  ]
]

-- entry `i` sleeps in wait
abbrev pub in_wait : ℕ → Proc → Bool
in_wait i p = is_sleeping p.state && same_chan p.chan (proc_at i)

-- a child of entry `i` that has ended
abbrev pub ended_child : ℕ → Proc → Bool
ended_child i p = is_zombie p.state && is_parent p.parent i

-- No process sleeps in wait while a child of it has ended; an unused entry has no parent; no
-- process is its own parent; init is there, and has no parent.
pub record IsValid (t : Table) : Type 0 where
  pub no_lost : (i j : ℕ) → j < nproc → (in_wait i (t.proc i) && ended_child i (t.proc j)) ≡ false
  pub orphan : (j : ℕ) → (is_unused (t.proc j).state && is_some (t.proc j).parent) ≡ false
  pub proper : (j : ℕ) → is_parent (t.proc j).parent j ≡ false
  pub root : (is_some (t.proc t.initproc).parent || is_unused (t.proc t.initproc).state) ≡ false

-- what an entry must satisfy to be written at `k`
pub record Fits (t : Table) (k : ℕ) (p : Proc) : Type 0 where
  pub waiter : (j : ℕ) → j < nproc → (in_wait k p && ended_child k (t.proc j)) ≡ false
  pub child : (i : ℕ) → (in_wait i (t.proc i) && ended_child i p) ≡ false
  pub orphan : (is_unused p.state && is_some p.parent) ≡ false
  pub proper : is_parent p.parent k ≡ false
  pub root : (k == t.initproc && (is_some p.parent || is_unused p.state)) ≡ false

-- A valid table with an entry written that fits is valid.
pub write-IsValid : (k : ℕ) (p : Proc) (t : Table) → IsValid t → Fits t k p → IsValid (write k p t)
write-IsValid k p t v f = record {
  no_lost = λ i j b. elim (Bool-cases (i == k)) [
    | inl y ↦
        let e : i ≡ k = ground arith in
        elim (Bool-cases (j == k)) [
          | inl y' ↦ rw (y, y') (ground (arith, f.proper, e))
          | inr n' ↦ rw (y, n', e) (f.waiter j b)
        ]
    | inr n ↦ elim (Bool-cases (j == k)) [
      | inl y' ↦ rw (n, y') (f.child i)
      | inr n' ↦ rw (n, n') (v.no_lost i j b)
    ]
  ];
  orphan = λ j. elim (Bool-cases (j == k)) [ inl y ↦ rw y f.orphan | inr n ↦ rw n (v.orphan j) ];
  proper = λ j. elim (Bool-cases (j == k)) [
    | inl y ↦ let e : j ≡ k = ground arith in rw (y, e) f.proper
    | inr n ↦ rw n (v.proper j)
  ];
  root = elim (Bool-cases (t.initproc == k)) [
    | inl y ↦ rw y (ground (arith, f.root))
    | inr n ↦ rw n v.root
  ];
}
