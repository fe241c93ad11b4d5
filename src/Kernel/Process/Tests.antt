-- ===== src/Kernel/Process/Tests.antt =====
-- init, a shell and a child of the shell, with some free pages.
use meph_i_semester_4_acos.Base.{
  ℕ, zero, suc, is_some, ◌≡◌, ◌≤◌, refl, true, false, Option, none, some, List, [], ◌∷◌, arith,
  ◌&&◌,
}
use meph_i_semester_4_acos.Kernel.Trap.{Trapframe}
use meph_i_semester_4_acos.Kernel.Process.{
  Procstate, unused, running, sleeping, Chan, null, proc_at, Proc, Table, fork, wait, exit, kill,
  reaped, reap, runnable, is_unused, is_parent, find,
}
use meph_i_semester_4_acos.Kernel.Process.Kin.{IsValid, in_wait, ended_child}
use meph_i_semester_4_acos.Kernel.Process.Pages.{fork-leak, fork-kill}
use meph_i_semester_4_acos.Kernel.Process.Wakeup.Run.{
  Action, forks, exits, waits, kills, runs, run, run-IsValid, wait-exit,
}

abbrev zeros : Trapframe
zeros = record {
  edi = 0;
  esi = 0;
  ebp = 0;
  oesp = 0;
  ebx = 0;
  edx = 0;
  ecx = 0;
  eax = 0;
  gs = 0;
  fs = 0;
  es = 0;
  ds = 0;
  trapno = 0;
  err = 0;
  eip = 0;
  cs = 0;
  eflags = 0;
  esp = 0;
  ss = 0;
}

abbrev entry : Procstate → ℕ → Option ℕ → Chan → Proc
entry st pid parent chan = record {
  state = st;
  pid = pid;
  parent = parent;
  chan = chan;
  killed = false;
  kstack = none;
  pgdir = none;
  sz = 0;
  tf = zeros;
  handler = 0;
  alarmtime = 0;
  alarmpassed = 0;
  handling_alarm = false;
  alarm_tf = none;
}

-- the shell, entry 1, waits for entry 2
abbrev entries : ℕ → Proc
entries zero = entry running 1 none null
entries (suc zero) = entry sleeping 2 (some 0) (proc_at 1)
entries (suc (suc zero)) = entry running 3 (some 1) null
entries (suc (suc (suc _))) = entry unused 0 none null

abbrev table : Table
table = record { proc = entries; initproc = 0; nextpid = 4; free = 10 ∷ 11 ∷ 12 ∷ [] }

table-IsValid : IsValid table
table-IsValid = record {
  no_lost = λ i j b. alive i j;
  orphan = λ j. lone j;
  proper = λ j. own j;
  root = refl;
}
  where
    alive : (i j : ℕ) → (in_wait i (entries i) && ended_child i (entries j)) ≡ false
    alive zero j = refl
    alive (suc zero) zero = refl
    alive (suc zero) (suc zero) = refl
    alive (suc zero) (suc (suc zero)) = refl
    alive (suc zero) (suc (suc (suc j))) = refl
    alive (suc (suc zero)) j = refl
    alive (suc (suc (suc i))) j = refl

    lone : (j : ℕ) → (is_unused (entries j).state && is_some (entries j).parent) ≡ false
    lone zero = refl
    lone (suc zero) = refl
    lone (suc (suc zero)) = refl
    lone (suc (suc (suc j))) = refl

    own : (j : ℕ) → is_parent (entries j).parent j ≡ false
    own zero = refl
    own (suc zero) = refl
    own (suc (suc zero)) = refl
    own (suc (suc (suc j))) = refl

-- a copyuvm that takes one page, one that fails, and a freevm
abbrev copies : List ℕ → Option ℕ × List ℕ
copies [] = (none, [])
copies (p ∷ ps) = (some p, ps)

abbrev fails : List ℕ → Option ℕ × List ℕ
fails ps = (none, ps)

abbrev frees : ℕ → List ℕ → List ℕ
frees d ps = d ∷ ps

abbrev actions : List Action
actions = forks copies 2 ∷ exits 2 ∷ kills 4 ∷ runs 1 ∷ waits frees 1 ∷ waits frees 1 ∷ []

run-IsValid_example : IsValid (run actions table)
run-IsValid_example = run-IsValid actions table table-IsValid

wait-exit_example :
    (t' : Table) × (exit 2 table ≡ some t')
    × (ended_child 1 (t'.proc 2) ≡ true)
    × ((i : ℕ) × (i ≤ 2)
        × (ended_child 1 (t'.proc i) ≡ true)
        × (wait frees 1 t' ≡ reaped (t'.proc i).pid (reap frees i t'))
        × (is_unused ((reap frees i t').proc i).state ≡ true))
wait-exit_example = wait-exit frees 2 1 table table-IsValid (omega arith) (λ e. omega arith) refl

fork-leak_example :
    let (t', pid) = fork fails 0 table in
    (pid ≡ none) × (is_unused (t'.proc 3).state ≡ true) × (t'.free ≡ 10 ∷ 12 ∷ [])
unfolding find
fork-leak_example = fork-leak fails 0 3 10 11 (12 ∷ []) table refl refl refl

fork-kill_example :
    let (t', ok) = kill 0 table in
    let (u, pid) = fork copies 0 t' in
    (ok ≡ true)
    × (pid ≡ some 4)
    × ((u.proc 3).pid ≡ 4)
    × ((u.proc 3).parent ≡ some 0)
    × ((u.proc 3).state ≡ runnable)
    × ((u.proc 3).killed ≡ true)
unfolding find
fork-kill_example = fork-kill copies 0 3 10 11 12 (12 ∷ []) [] table refl refl refl refl
