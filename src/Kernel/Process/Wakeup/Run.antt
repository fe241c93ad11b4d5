-- ===== src/Kernel/Process/Wakeup/Run.antt =====
-- Sequences of actions of processes and of the scheduler.
use meph_i_semester_4_acos.Base.{
  ℕ, zero, suc, ◌+◌, ◌<◌, ◌≤◌, ◌≡◌, ◌≢◌, inl, inr, refl, ap, ◌∙◌, Bool, true, false, ◌&&◌, Option,
  none, some, ◌==◌, ==_self, if◌then◌else◌, arith, Bool-cases, Option-cases, List, [], ◌∷◌,
}
use meph_i_semester_4_acos.Kernel.Process.{
  nproc, is_unused, is_running, is_zombie, other, Proc, Table, is_parent, find, wakeup1, adopt,
  adopt_from, exit, chan_of, sleep, wait, reap, fork, kill, yield, schedule, woken, reaped,
}
use meph_i_semester_4_acos.Kernel.Process.Kin.{
  find-none, find-some, find-first, ended_child, IsValid,
}
use meph_i_semester_4_acos.Kernel.Process.Wakeup.{wakeup1-IsValid, exit-IsValid, ended}
use meph_i_semester_4_acos.Kernel.Process.Wakeup.Steps.{fork-IsValid}
use meph_i_semester_4_acos.Kernel.Process.Wakeup.Waits.{
  after_wait, wait-IsValid, kill-IsValid, sleep-IsValid, schedule-IsValid, yield-IsValid,
  woken-IsValid,
}

-- What a process does, or the scheduler: `runs` is the scheduler at an entry, `resumes` the end of
-- a sleep.
pub data Action : Type 0 where
  forks : (List ℕ → Option ℕ × List ℕ) → ℕ → Action
  exits : ℕ → Action
  waits : (ℕ → List ℕ → List ℕ) → ℕ → Action
  sleeps_on : ℕ → ℕ → Action
  wakes : ℕ → Action
  kills : ℕ → Action
  runs : ℕ → Action
  yields : ℕ → Action
  resumes : ℕ → Action

abbrev pub or_else : Option Table → Table → Table
or_else none t = t
or_else (some t') t = t'

-- Only a running process acts.
abbrev pub by : ℕ → Table → Table → Table
by cur t t' = if is_running (t.proc cur).state then t' else t

abbrev pub act : Action → Table → Table
act (forks copyuvm cur) t = by cur t ((fork copyuvm cur t).0)
act (exits cur) t = by cur t (or_else (exit cur t) t)
act (waits freevm cur) t = by cur t (after_wait (wait freevm cur t) t)
act (sleeps_on cur a) t = by cur t (sleep cur (other a) t)
act (wakes a) t = wakeup1 (other a) t
act (kills pid) t = (kill pid t).0
act (runs i) t = or_else (schedule i t) t
act (yields cur) t = by cur t (yield cur t)
act (resumes cur) t = by cur t (woken cur t)

abbrev pub run : List Action → Table → Table
run [] t = t
run (a ∷ acts) t = run acts (act a t)

by-IsValid :
    (cur : ℕ) (t t' : Table)
    → IsValid t
    → (is_running (t.proc cur).state ≡ true → IsValid t')
    → IsValid (by cur t t')
by-IsValid cur t t' v f = elim (Bool-cases (is_running (t.proc cur).state)) [
  | inl y ↦ rw y (f y)
  | inr n ↦ rw n v
]

or_else-IsValid :
    (o : Option Table) (t : Table)
    → IsValid t
    → ((t' : Table) → o ≡ some t' → IsValid t')
    → IsValid (or_else o t)
or_else-IsValid none t v f = v
or_else-IsValid (some t') t v f = f t' refl

act-IsValid : (a : Action) (t : Table) → IsValid t → IsValid (act a t)
act-IsValid (forks copyuvm cur) t v = by-IsValid cur t _ v (fork-IsValid copyuvm cur t v)
act-IsValid (exits cur) t v =
    by-IsValid cur t _ v
      (λ go. or_else-IsValid (exit cur t) t v (λ t' e. exit-IsValid cur t t' v e))
act-IsValid (waits freevm cur) t v = by-IsValid cur t _ v (wait-IsValid freevm cur t v)
act-IsValid (sleeps_on cur a) t v = by-IsValid cur t _ v (sleep-IsValid cur a t v)
act-IsValid (wakes a) t v = wakeup1-IsValid (other a) t v
act-IsValid (kills pid) t v = kill-IsValid pid t v
act-IsValid (runs i) t v = or_else-IsValid (schedule i t) t v (λ t' e. schedule-IsValid i t t' v e)
act-IsValid (yields cur) t v = by-IsValid cur t _ v (yield-IsValid cur t v)
act-IsValid (resumes cur) t v = by-IsValid cur t _ v (woken-IsValid cur t v)

-- After any sequence of forks, exits, waits, sleeps, wakeups, kills and switches, from a table
-- where this holds: no process sleeps in wait while a child of it is a zombie, no unused entry has
-- a parent, no process is its own parent, and init is there and has no parent.
pub run-IsValid : (acts : List Action) (t : Table) → IsValid t → IsValid (run acts t)
run-IsValid [] t v = v
run-IsValid (a ∷ acts) t v = run-IsValid acts (act a t) (act-IsValid a t v)

adopt_parent :
    (cur i : ℕ) (t : Table)
    → is_parent (t.proc cur).parent cur ≡ false
    → ((adopt cur i t).proc cur).parent ≡ (t.proc cur).parent
unfolding wakeup1
adopt_parent cur i t h = elim (Bool-cases (is_parent (t.proc i).parent cur)) [
  | inr n ↦ rw n refl
  | inl y ↦
      let ne : cur ≢ i =
        λ e. ground (arith, y, h, ap {B = Bool} (λ k. is_parent (t.proc k).parent cur) e) in
      let w : (cur == i) ≡ false = ground (arith, ne) in
      elim (Bool-cases (is_zombie (t.proc i).state)) [
        | inl z ↦ rw (y, z, w) refl
        | inr z ↦ rw (y, z, w) refl
      ]
]

-- a process that is not its own parent keeps its parent while its children go to init
adopt_from_parent :
    (cur n i : ℕ) (t : Table)
    → is_parent (t.proc cur).parent cur ≡ false
    → ((adopt_from cur n i t).proc cur).parent ≡ (t.proc cur).parent
unfolding adopt_from
adopt_from_parent cur zero i t h = refl
adopt_from_parent cur (suc n) i t h =
    let e : ((adopt cur i t).proc cur).parent ≡ (t.proc cur).parent = adopt_parent cur i t h in
    adopt_from_parent cur n (i + 1) (adopt cur i t) (rw e h) ∙ e

-- A process other than init exits in a valid table. It is then an ended child of its parent, and
-- the next wait of that parent neither sleeps nor fails: it frees an entry that is an ended child of
-- the parent and stands at the exited process or before it, and returns the pid of that entry.
pub wait-exit :
    (freevm : ℕ → List ℕ → List ℕ) (cur parent : ℕ) (t : Table)
    → IsValid t
    → cur < nproc
    → cur ≢ t.initproc
    → (t.proc cur).parent ≡ some parent
    → (t' : Table) × (exit cur t ≡ some t')
      × (ended_child parent (t'.proc cur) ≡ true)
      × ((i : ℕ) × (i ≤ cur)
          × (ended_child parent (t'.proc i) ≡ true)
          × (wait freevm parent t' ≡ reaped (t'.proc i).pid (reap freevm i t'))
          × (is_unused ((reap freevm i t').proc i).state ≡ true))
unfolding exit wait wakeup1
wait-exit freevm cur parent t v b n q =
    let t' = ended cur t in
    let test : Proc → Bool = λ p. is_parent p.parent parent && is_zombie p.state in
    let w : (cur == t.initproc) ≡ false = ground (arith, n) in
    let start = wakeup1 (chan_of (t.proc cur).parent) t in
    let kept : (t'.proc cur).parent ≡ some parent =
      rw (==_self cur) (adopt_from_parent cur nproc 0 start (v.proper cur) ∙ q) in
    let hit : test (t'.proc cur) ≡ true = rw kept (rw (==_self cur, ==_self parent) refl) in
    (
      t',
      rw w refl,
      ground (arith, hit),
      elim (Option-cases (find test nproc 0 t'.proc)) [
        | inr (i, e) ↦
            let (passes, bound) = find-some test nproc 0 i t'.proc e in
            (
              i,
              find-first test nproc 0 i cur t'.proc e (omega arith) hit,
              ground (arith, passes),
              rw e refl,
              ground arith,
            )
        | inl e ↦
            let miss = find-none test nproc 0 cur t'.proc e (omega arith) b in absurd (ground arith)
      ],
    )
