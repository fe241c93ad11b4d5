-- ===== src/Kernel/Process.antt =====
-- alarm/proc.c: the process table. Each function here is what runs under ptable.lock, or what only
-- touches an entry that no other process uses yet, so it is one step of the system. A pointer to an
-- entry is its index, and 0 is `none`. `free` is the free list of kalloc.c. What copyuvm and freevm
-- of vm.c do to it are arguments. Left out are names, open files, current directories, and what
-- allocproc puts on the kernel stack (`tf` is the trap frame that fork copies there). An entry
-- that is freed keeps the pointers that the source does not clear.
pub mod Kin
pub mod Wakeup
pub mod Pages
mod Tests
use meph_i_semester_4_acos.Base.{
  ℕ, zero, suc, ◌+◌, Bool, true, false, ◌||◌, ◌&&◌, not, Option, none, some, List, [], ◌∷◌, ◌==◌,
  if◌then◌else◌, update, is_some,
}
use meph_i_semester_4_acos.Kernel.Trap.{Trapframe}

abbrev pub nproc : ℕ
nproc = 64

-- `enum procstate`
pub data Procstate : Type 0 where
  unused embryo sleeping runnable running zombie : Procstate

abbrev pub is_unused : Procstate → Bool
is_unused unused = true
is_unused _ = false

abbrev pub is_sleeping : Procstate → Bool
is_sleeping sleeping = true
is_sleeping _ = false

abbrev pub is_runnable : Procstate → Bool
is_runnable runnable = true
is_runnable _ = false

abbrev pub is_running : Procstate → Bool
is_running running = true
is_running _ = false

abbrev pub is_zombie : Procstate → Bool
is_zombie zombie = true
is_zombie _ = false

-- An address to sleep on: 0, an entry of the table, or something else.
pub data Chan : Type 0 where
  null : Chan
  proc_at : ℕ → Chan
  other : ℕ → Chan

abbrev pub same_chan : Chan → Chan → Bool
same_chan null null = true
same_chan (proc_at i) (proc_at j) = i == j
same_chan (other a) (other b) = a == b
same_chan _ _ = false

-- `struct proc`
pub record Proc : Type 0 where
  pub state : Procstate
  pub pid : ℕ
  pub parent : Option ℕ
  pub chan : Chan
  pub killed : Bool
  pub kstack : Option ℕ
  pub pgdir : Option ℕ
  pub sz : ℕ
  pub tf : Trapframe
  pub handler : ℕ
  pub alarmtime : ℕ
  pub alarmpassed : ℕ
  pub handling_alarm : Bool
  pub alarm_tf : Option ℕ

pub record Table : Type 0 where
  pub proc : ℕ → Proc
  pub initproc : ℕ
  pub nextpid : ℕ
  pub free : List ℕ

-- `p->parent == i`
abbrev pub is_parent : Option ℕ → ℕ → Bool
is_parent none i = false
is_parent (some j) i = j == i

-- A loop over `n` entries from `i` on, to the first that passes a test.
pub find : (Proc → Bool) → ℕ → ℕ → (ℕ → Proc) → Option ℕ
find test zero i ps = none
find test (suc n) i ps = let rest = find test n (i + 1) ps in if test (ps i) then some i else rest

abbrev pub write : ℕ → Proc → Table → Table
write i p t = record t { proc = update t.proc i p }

abbrev pub push_free : Option ℕ → List ℕ → List ℕ
push_free none xs = xs
push_free (some a) xs = a ∷ xs

-- allocproc from the label `found` on, with the pages that kalloc finds on the free list
pub found : ℕ → Table → Table × Option ℕ
found i t =
    let p = record (t.proc i) { state = embryo; pid = t.nextpid } in
    elim t.free [
      | [] ↦ (
        record t {
          proc = update t.proc i (record p { state = unused; kstack = none });
          nextpid = t.nextpid + 1;
        },
        none,
      )
      | k ∷ [] ↦ (
        record t {
          proc = update t.proc i (record p {
            state = unused;
            kstack = none;
            handler = 0;
            alarmtime = 0;
            alarmpassed = 0;
            handling_alarm = false;
            alarm_tf = none;
          });
          nextpid = t.nextpid + 1;
          free = k ∷ [];
        },
        none,
      )
      | k ∷ a ∷ free ↦ (
        record t {
          proc = update t.proc i (record p {
            kstack = some k;
            handler = 0;
            alarmtime = 0;
            alarmpassed = 0;
            handling_alarm = false;
            alarm_tf = some a;
          });
          nextpid = t.nextpid + 1;
          free = free;
        },
        some i,
      )
    ]

abbrev pub alloc_at : Table → Option ℕ → Table × Option ℕ
alloc_at t none = (t, none)
alloc_at t (some i) = found i t

-- `allocproc`
pub allocproc : Table → Table × Option ℕ
allocproc t = alloc_at t (find (λ p. is_unused p.state) nproc 0 t.proc)

-- fork behind allocproc: `copied` is the page directory that copyuvm returns, and the free list
-- that it leaves
pub fork_into : ℕ → ℕ → Option ℕ × List ℕ → Table → Table × Option ℕ
fork_into cur i (none, free) t =
    let np = t.proc i in
    (
      record t {
        proc = update t.proc i (record np { state = unused; kstack = none; pgdir = none });
        free = push_free np.kstack free;
      },
      none,
    )
fork_into cur i (some d, free) t =
    let np = t.proc i in
    let p = t.proc cur in
    (
      record t {
        proc = update t.proc i (record np {
          pgdir = some d;
          sz = p.sz;
          parent = some cur;
          tf = record (p.tf) { eax = 0 };
          state = runnable;
        });
        free = free;
      },
      some np.pid,
    )

abbrev pub fork_after : (List ℕ → Option ℕ × List ℕ) → ℕ → Table × Option ℕ → Table × Option ℕ
fork_after copyuvm cur (t, none) = (t, none)
fork_after copyuvm cur (t, some i) = fork_into cur i (copyuvm t.free) t

-- `fork` by `cur`: the table, and the pid, or `none` for -1
pub fork : (List ℕ → Option ℕ × List ℕ) → ℕ → Table → Table × Option ℕ
fork copyuvm cur t = fork_after copyuvm cur (allocproc t)

-- `wakeup1` on one entry, and on the table
abbrev pub wake : Chan → Proc → Proc
wake c p = record p {
  state = if is_sleeping p.state && same_chan p.chan c then runnable else p.state;
}

pub wakeup1 : Chan → Table → Table
wakeup1 c t = record t { proc = λ i. wake c (t.proc i) }

abbrev pub chan_of : Option ℕ → Chan
chan_of none = null
chan_of (some i) = proc_at i

-- the body of the loop of exit that passes the children of `cur` to init
abbrev pub adopt : ℕ → ℕ → Table → Table
adopt cur i t =
    if is_parent ((t.proc i).parent) cur
    then (let t' = write i (record (t.proc i) { parent = some t.initproc }) t in
        if is_zombie ((t.proc i).state) then wakeup1 (proc_at t.initproc) t' else t')
    else t

pub adopt_from : ℕ → ℕ → ℕ → Table → Table
adopt_from cur zero i t = t
adopt_from cur (suc n) i t = adopt_from cur n (i + 1) (adopt cur i t)

-- `exit` by `cur`, up to sched; `none` is the panic
pub exit : ℕ → Table → Option Table
exit cur t =
    if cur == t.initproc
    then none
    else (let t' = adopt_from cur nproc 0 (wakeup1 (chan_of ((t.proc cur).parent)) t) in
        some (write cur (record (t'.proc cur) { state = zombie }) t'))

-- `sleep` on `c`, up to sched, and what it does once it is woken
pub sleep : ℕ → Chan → Table → Table
sleep cur c t = write cur (record (t.proc cur) { chan = c; state = sleeping }) t

pub woken : ℕ → Table → Table
woken cur t = write cur (record (t.proc cur) { chan = null }) t

pub data Wait : Type 0 where
  reaped : ℕ → Table → Wait
  no_child : Wait
  sleeps : Table → Wait

-- the entry `i` of a child that has ended is freed
abbrev pub reap : (ℕ → List ℕ → List ℕ) → ℕ → Table → Table
reap freevm i t =
    let p = t.proc i in
    record t {
      proc =
          update t.proc i
            (record p { kstack = none; pid = 0; parent = none; killed = false; state = unused });
      free = elim p.pgdir [
        | none ↦ push_free p.kstack t.free
        | some d ↦ freevm d (push_free p.kstack t.free)
      ];
    }

abbrev pub wait_at : (ℕ → List ℕ → List ℕ) → ℕ → Table → Option ℕ → Wait
wait_at freevm cur t (some i) = reaped (t.proc i).pid (reap freevm i t)
wait_at freevm cur t none =
    if not (is_some (find (λ p. is_parent p.parent cur) nproc 0 t.proc)) || (t.proc cur).killed
    then no_child
    else sleeps (sleep cur (proc_at cur) t)

-- One round of the loop of `wait`, by `cur`.
pub wait : (ℕ → List ℕ → List ℕ) → ℕ → Table → Wait
wait freevm cur t =
    wait_at freevm cur t (find (λ p. is_parent p.parent cur && is_zombie p.state) nproc 0 t.proc)

-- the scheduler picks entry `i`; `none` where it would go on with the next
pub schedule : ℕ → Table → Option Table
schedule i t =
    if is_runnable ((t.proc i).state)
    then some (write i (record (t.proc i) { state = running }) t)
    else none

-- `yield`, up to sched
pub yield : ℕ → Table → Table
yield cur t = write cur (record (t.proc cur) { state = runnable }) t

abbrev pub kill_at : Table → Option ℕ → Table × Bool
kill_at t none = (t, false)
kill_at t (some i) =
    let p = t.proc i in
    (
      write i
          (record p { killed = true; state = if is_sleeping p.state then runnable else p.state }) t,
      true,
    )

-- `kill`: the table, and whether it returns 0
pub kill : ℕ → Table → Table × Bool
kill pid t = kill_at t (find (λ p. p.pid == pid) nproc 0 t.proc)
