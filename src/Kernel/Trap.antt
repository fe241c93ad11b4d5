-- ===== src/Kernel/Trap.antt =====
-- alarm/trap.c, and sys_alarm of alarm/sysproc.c: traps, clock ticks and the delivery of alarms.
-- A Machine is what one CPU sees: the clock, the fault address, the current process and the bytes
-- of memory. An `int` is its 32-bit pattern. Locks are taken and released inside one step, and the
-- drivers, which leave this state alone, are events. `syscall` and what other processes do across
-- `yield` are parameters. Memory is flat: all of it can be written, so the store of the return address
-- through the user's esp, which would fault where the page is not there, always goes through.
pub mod Alarm
pub mod Counts
mod Tests
use meph_i_semester_4_acos.Base.{
  ℕ, ◌+◌, ◌-◌, ◌*◌, ◌/◌, ◌%◌, ◌^◌, Bool, true, false, ◌||◌, ◌&&◌, not, Option, none, some, List, [],
  ◌∷◌, ◌==◌, ltb, leb, if◌then◌else◌, update,
}

-- `struct trapframe`, without its padding
pub record Trapframe : Type 0 where
  pub edi : ℕ
  pub esi : ℕ
  pub ebp : ℕ
  pub oesp : ℕ
  pub ebx : ℕ
  pub edx : ℕ
  pub ecx : ℕ
  pub eax : ℕ
  pub gs : ℕ
  pub fs : ℕ
  pub es : ℕ
  pub ds : ℕ
  pub trapno : ℕ
  pub err : ℕ
  pub eip : ℕ
  pub cs : ℕ
  pub eflags : ℕ
  pub esp : ℕ
  pub ss : ℕ

-- The fields of `struct proc` that traps read or write. `running` is `state == RUNNING`.
pub record Proc : Type 0 where
  pub pid : ℕ
  pub running : Bool
  pub killed : Bool
  pub handler : ℕ
  pub alarmtime : ℕ
  pub alarmpassed : ℕ
  pub handling_alarm : Bool
  pub alarm_tf : Trapframe

pub data Event : Type 0 where
  wakeup_ticks lapiceoi ideintr kbdintr uartintr spurious kill_message : Event

pub record Machine : Type 0 where
  pub cpuid : ℕ
  pub ticks : ℕ
  pub cr2 : ℕ
  pub proc : Option Proc
  pub mem : ℕ → ℕ
  pub events : List Event

-- `exit` does not return, nor does `panic`; a read through a NULL `myproc()` is a fault.
pub data Outcome : Type 0 where
  returns : Machine → Trapframe → Outcome
  exits : Machine → Outcome
  panics : Outcome
  faults : Outcome

-- the end of the `switch`: `break`, or a `return` out of trap
pub data Switch : Type 0 where
  breaks : Machine → Trapframe → Switch
  leaves : Machine → Trapframe → Switch
  dies : Switch

abbrev pub u32 : ℕ → ℕ
u32 n = n % 2 ^ 32

-- `x > 0` and `x >= y` of two ints
abbrev pub is_positive : ℕ → Bool
is_positive x = ltb 0 x && ltb x (2 ^ 31)

abbrev pub int_ge : ℕ → ℕ → Bool
int_ge x y = leb (u32 (y + 2 ^ 31)) (u32 (x + 2 ^ 31))

-- the privilege level of the code that was interrupted is DPL_USER
abbrev pub from_user : Trapframe → Bool
from_user tf = tf.cs % 4 == 3

abbrev pub no_return : ℕ
no_return = 0xFFFFFFFF

-- `*(uint*)a = 0xFFFFFFFF`, without a fault
abbrev pub store_ones : (ℕ → ℕ) → ℕ → ℕ → ℕ
store_ones mem a =
    update (update (update (update mem a 255) (u32 (a + 1)) 255) (u32 (a + 2)) 255) (u32 (a + 3))
      255

abbrev pub log : Event → Machine → Machine
log e m = record m { events = e ∷ m.events }

-- the tick of the clock, on CPU 0
abbrev pub clock : Machine → Machine
clock m =
    if m.cpuid == 0
    then record m { ticks = u32 (m.ticks + 1); events = wakeup_ticks ∷ m.events }
    else m

-- Lines 61 to 66: the frame is saved and the process sent to its handler.
abbrev pub deliver : Machine → Proc → Trapframe → Machine × Trapframe
deliver m p tf =
    let esp = u32 (tf.esp + 2 ^ 32 - 4) in
    (
      record m {
        proc = some (record p { alarm_tf = tf; alarmpassed = 0; handling_alarm = true });
        mem = store_ones m.mem esp;
      },
      record tf { esp = esp; eip = p.handler },
    )

-- Lines 57 to 69: the alarm of the current process.
pub count_alarm : Machine → Trapframe → Machine × Trapframe
count_alarm m tf = elim m.proc [
  | none ↦ (m, tf)
  | some p ↦
      if from_user tf && (is_positive p.alarmtime && not p.handling_alarm)
      then (let p' = record p { alarmpassed = u32 (p.alarmpassed + 1) } in
          if int_ge p'.alarmpassed p.alarmtime
          then deliver m p' tf
          else (record m { proc = some p' }, tf))
      else (m, tf)
]

-- the case T_IRQ0 + IRQ_TIMER
pub timer : Machine → Trapframe → Machine × Trapframe
timer m tf = let (m', tf') = count_alarm (clock m) tf in (log lapiceoi m', tf')

-- the case T_PGFLT: the return of a handler to the address 0xFFFFFFFF
pub page_fault : Machine → Trapframe → Switch
page_fault m tf = elim m.proc [
  | none ↦ breaks m tf
  | some p ↦
      if p.handling_alarm && m.cr2 == no_return
      then leaves (record m { proc = some (record p { handling_alarm = false }) }) p.alarm_tf
      else breaks m tf
]

-- the default case
pub misbehaved : Machine → Trapframe → Switch
misbehaved m tf = elim m.proc [
  | none ↦ dies
  | some p ↦
      if tf.cs % 4 == 0
      then dies
      else breaks
          (record m { proc = some (record p { killed = true }); events = kill_message ∷ m.events })
          tf
]

-- the `switch` on the number of the trap
pub dispatch : Machine → Trapframe → Switch
dispatch m tf =
    if tf.trapno == 32
    then (let (m', tf') = timer m tf in breaks m' tf')
    else if tf.trapno == 46
    then breaks (log lapiceoi (log ideintr m)) tf
    else if tf.trapno == 47
    then breaks m tf
    else if tf.trapno == 33
    then breaks (log lapiceoi (log kbdintr m)) tf
    else if tf.trapno == 36
    then breaks (log lapiceoi (log uartintr m)) tf
    else if tf.trapno == 39 || tf.trapno == 63
    then breaks (log lapiceoi (log spurious m)) tf
    else if tf.trapno == 14
    then page_fault m tf
    else misbehaved m tf

-- killed, and about to go back to user space
abbrev pub must_exit : Machine → Trapframe → Bool
must_exit m tf = elim m.proc [ none ↦ false | some p ↦ p.killed && from_user tf ]

abbrev pub is_running : Machine → Bool
is_running m = elim m.proc [ none ↦ false | some p ↦ p.running ]

module _ (syscall : Machine → Trapframe → Machine × Trapframe) (yield : Machine → Machine) where
  -- Lines 119 to 133. The number of the trap is read from the frame as it is by then.
  pub after_switch : Switch → Outcome
  after_switch dies = panics
  after_switch (leaves m tf) = returns m tf
  after_switch (breaks m tf) =
      if must_exit m tf
      then exits m
      else (let m' = if is_running m && tf.trapno == 32 then yield m else m in
          if must_exit m' tf then exits m' else returns m' tf)

  abbrev exit_if_killed : Machine → Outcome → Outcome
  exit_if_killed m o = elim m.proc [ none ↦ faults | some p ↦ if p.killed then exits m else o ]

  pub trap : Machine → Trapframe → Outcome
  trap m tf =
      if tf.trapno == 64
      then exit_if_killed m (let (m', tf') = syscall m tf in exit_if_killed m' (returns m' tf'))
      else after_switch (dispatch m tf)

-- `sys_alarm`, with what argint and argptr found: `none` for an argument outside of the process.
pub sys_alarm : Option ℕ → Option ℕ → Machine → Machine × ℕ
sys_alarm none handler m = (m, no_return)
sys_alarm (some ticks) none m = (m, no_return)
sys_alarm (some ticks) (some handler) m = elim m.proc [
  | none ↦ (m, 0)
  | some p ↦ (
    record m { proc = some (record p { alarmtime = ticks; alarmpassed = 0; handler = handler }) },
    0,
  )
]
