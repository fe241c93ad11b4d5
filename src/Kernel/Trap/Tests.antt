-- ===== src/Kernel/Trap/Tests.antt =====
-- A process with an alarm every two ticks.
use meph_i_semester_4_acos.Base.{ℕ, ◌≡◌, refl, if◌then◌else◌, true, false, some, [], ◌∷◌, arith}
use meph_i_semester_4_acos.Kernel.Trap.{Trapframe, Proc, Machine, timer}
use meph_i_semester_4_acos.Kernel.Trap.Alarm.{
  IsArmed, ReturnsTo, in_word, ticks_run, ticks_run-period,
}

-- at instruction `eip`, in user code
abbrev frame : ℕ → ℕ → Trapframe
frame n eip = record {
  edi = 0;
  esi = 0;
  ebp = 0;
  oesp = 0;
  ebx = 0;
  edx = 0;
  ecx = 0;
  eax = 7;
  gs = 0;
  fs = 0;
  es = 35;
  ds = 35;
  trapno = n;
  err = 0;
  eip = eip;
  cs = 27;
  eflags = 512;
  esp = 8000;
  ss = 35;
}

abbrev sleeper : Proc
sleeper = record {
  pid = 3;
  running = true;
  killed = false;
  handler = 64;
  alarmtime = 2;
  alarmpassed = 0;
  handling_alarm = false;
  alarm_tf = frame 0 0;
}

abbrev machine : Machine
machine = record { cpuid = 0; ticks = 10; cr2 = 0; proc = some sleeper; mem = λ a. 0; events = [] }

sleeper-IsArmed : IsArmed sleeper
sleeper-IsArmed = record { positive = omega arith; int_range = omega arith; counting = refl }

ticks_run-period_example :
    let m' = (ticks_run (frame 32 100 ∷ []) machine).0 in
    ((ticks_run (frame 32 100 ∷ []) machine).1 ≡ frame 32 100 ∷ [])
    × ((timer m' (frame 32 200)).0.proc
        ≡ some (record sleeper { alarm_tf = frame 32 200; alarmpassed = 0; handling_alarm = true }))
    × ((timer m' (frame 32 200)).1 ≡ record (frame 32 64) { esp = 7996 })
    × ReturnsTo (timer m' (frame 32 200)).0.mem 7996
    × ((b : ℕ) → (timer m' (frame 32 200)).0.mem b ≡ (if in_word 7996 b then 255 else 0))
ticks_run-period_example =
    ticks_run-period (frame 32 100 ∷ []) (frame 32 200) machine sleeper refl sleeper-IsArmed
      (refl, tt) refl refl
