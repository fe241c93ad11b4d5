-- ===== src/Kernel/Trap/Alarm.antt =====
-- When an alarm is delivered, and how its handler returns.
use meph_i_semester_4_acos.Base.{
  ℕ, ◌+◌, ◌-◌, ◌^◌, ◌<◌, ◌≡◌, refl, ◌∙◌, Bool, true, false, ◌||◌, ◌==◌, if◌then◌else◌, some, List,
  [], ◌∷◌, arith, length, All,
}
use meph_i_semester_4_acos.Kernel.Trap.{
  Trapframe, Proc, Machine, leaves, u32, from_user, no_return, count_alarm, timer, page_fault,
}

-- Ticks of the clock, one for each frame that is interrupted; with the frames as they are resumed.
abbrev pub ticks_run : List Trapframe → Machine → Machine × List Trapframe
ticks_run [] m = (m, [])
ticks_run (tf ∷ ts) m =
    let (m', tf') = timer m tf in let (m'', ts') = ticks_run ts m' in (m'', tf' ∷ ts')

abbrev pub FromUser : Trapframe → Type 0
FromUser tf = from_user tf ≡ true

-- An alarm is set, and its handler does not run.
pub record IsArmed (p : Proc) : Type 0 where
  pub positive : 0 < p.alarmtime
  pub int_range : p.alarmtime < 2 ^ 31
  pub counting : p.handling_alarm ≡ false

timer_waits :
    (m : Machine) (p : Proc) (tf : Trapframe)
    → m.proc ≡ some p
    → IsArmed p
    → FromUser tf
    → p.alarmpassed + 1 < p.alarmtime
    → ((timer m tf).0.proc ≡ some (record p { alarmpassed = p.alarmpassed + 1 }))
      × ((timer m tf).1 ≡ tf)
unfolding timer count_alarm
timer_waits m p tf e a u h = ground arith

timer_fires :
    (m : Machine) (p : Proc) (tf : Trapframe)
    → m.proc ≡ some p
    → IsArmed p
    → FromUser tf
    → p.alarmpassed + 1 ≡ p.alarmtime
    → ((timer m tf).0.proc
        ≡ some (record p { alarm_tf = tf; alarmpassed = 0; handling_alarm = true }))
      × ((timer m tf).1 ≡ record tf { esp = u32 (tf.esp + 2 ^ 32 - 4); eip = p.handler })
unfolding timer count_alarm
timer_fires m p tf e a u h = ground arith

timer_handling :
    (m : Machine) (p : Proc) (tf : Trapframe)
    → m.proc ≡ some p
    → p.handling_alarm ≡ true
    → ((timer m tf).0.proc ≡ some p) × ((timer m tf).1 ≡ tf)
unfolding timer count_alarm
timer_handling m p tf e h = ground arith

waits_run :
    (ts : List Trapframe) (m : Machine) (p : Proc)
    → m.proc ≡ some p
    → IsArmed p
    → All FromUser ts
    → p.alarmpassed + length ts < p.alarmtime
    → ((ticks_run ts m).0.proc ≡ some (record p { alarmpassed = p.alarmpassed + length ts }))
      × ((ticks_run ts m).1 ≡ ts)
waits_run [] m p e a us h = (ground arith, refl)
waits_run (tf ∷ ts) m p e a us h =
    let (e1, same) = timer_waits m p tf e a us.0 (omega arith) in
    let p1 = record p { alarmpassed = p.alarmpassed + 1 } in
    let (e2, sames) =
      waits_run ts (timer m tf).0 p1 e1
        (record { positive = a.positive; int_range = a.int_range; counting = a.counting }) us.1
        (omega arith) in
    (ground arith, ground arith)

-- the bytes at an address of the stack are the return address 0xFFFFFFFF
abbrev pub ReturnsTo : (ℕ → ℕ) → ℕ → Type 0
ReturnsTo mem a =
    (mem a ≡ 255)
    × (mem (u32 (a + 1)) ≡ 255)
    × (mem (u32 (a + 2)) ≡ 255)
    × (mem (u32 (a + 3)) ≡ 255)

timer_stacks :
    (m : Machine) (p : Proc) (tf : Trapframe)
    → m.proc ≡ some p
    → IsArmed p
    → FromUser tf
    → p.alarmpassed + 1 ≡ p.alarmtime
    → ReturnsTo (timer m tf).0.mem (u32 (tf.esp + 2 ^ 32 - 4))
unfolding timer count_alarm
timer_stacks m p tf e a u h = ground arith

-- address `b` is one of the four bytes from `a` on
abbrev pub in_word : ℕ → ℕ → Bool
in_word a b = b == a || (b == u32 (a + 1) || (b == u32 (a + 2) || b == u32 (a + 3)))

timer_keeps :
    (m : Machine) (p : Proc) (tf : Trapframe)
    → m.proc ≡ some p
    → IsArmed p
    → FromUser tf
    → p.alarmpassed + 1 < p.alarmtime
    → (timer m tf).0.mem ≡ m.mem
unfolding timer count_alarm
timer_keeps m p tf e a u h = ground arith

timer_writes :
    (m : Machine) (p : Proc) (tf : Trapframe) (b : ℕ)
    → m.proc ≡ some p
    → IsArmed p
    → FromUser tf
    → p.alarmpassed + 1 ≡ p.alarmtime
    → (timer m tf).0.mem b ≡ (if in_word (u32 (tf.esp + 2 ^ 32 - 4)) b then 255 else m.mem b)
unfolding timer count_alarm
timer_writes m p tf b e a u h = ground arith

waits_keep :
    (ts : List Trapframe) (m : Machine) (p : Proc)
    → m.proc ≡ some p
    → IsArmed p
    → All FromUser ts
    → p.alarmpassed + length ts < p.alarmtime
    → (ticks_run ts m).0.mem ≡ m.mem
waits_keep [] m p e a us h = refl
waits_keep (tf ∷ ts) m p e a us h =
    let (e1, same) = timer_waits m p tf e a us.0 (omega arith) in
    let p1 = record p { alarmpassed = p.alarmpassed + 1 } in
    waits_keep ts (timer m tf).0 p1 e1
      (record { positive = a.positive; int_range = a.int_range; counting = a.counting }) us.1
      (omega arith)
    ∙ timer_keeps m p tf e a us.0 (omega arith)

-- An alarm that is set fires at the tick of user code that brings the count of ticks to alarmtime,
-- and not before: the ticks up to there resume every frame unchanged, and that tick saves the frame
-- it interrupts, clears the count, marks the handler as running, pushes the return address
-- 0xFFFFFFFF on the user's stack, and resumes at the handler with no other register changed. From
-- the first of these ticks to that one, no byte of memory changes but the four of that address.
pub ticks_run-period :
    (ts : List Trapframe) (tf : Trapframe) (m : Machine) (p : Proc)
    → m.proc ≡ some p
    → IsArmed p
    → All FromUser ts
    → FromUser tf
    → p.alarmpassed + length ts + 1 ≡ p.alarmtime
    → let m' = (ticks_run ts m).0 in
      let esp = u32 (tf.esp + 2 ^ 32 - 4) in
      ((ticks_run ts m).1 ≡ ts)
      × ((timer m' tf).0.proc
          ≡ some (record p { alarm_tf = tf; alarmpassed = 0; handling_alarm = true }))
      × ((timer m' tf).1 ≡ record tf { esp = esp; eip = p.handler })
      × ReturnsTo (timer m' tf).0.mem esp
      × ((b : ℕ) → (timer m' tf).0.mem b ≡ (if in_word esp b then 255 else m.mem b))
ticks_run-period ts tf m p e a us u h =
    let (e1, same) = waits_run ts m p e a us (omega arith) in
    let p1 = record p { alarmpassed = p.alarmpassed + length ts } in
    let a1 : IsArmed p1 = record {
      positive = a.positive;
      int_range = a.int_range;
      counting = a.counting;
    } in
    let (e2, sent) = timer_fires (ticks_run ts m).0 p1 tf e1 a1 u h in
    let kept = waits_keep ts m p e a us (omega arith) in
    (
      same,
      e2,
      sent,
      timer_stacks (ticks_run ts m).0 p1 tf e1 a1 u h,
      λ b. rw kept at (timer_writes (ticks_run ts m).0 p1 tf b e1 a1 u h),
    )

handling_run :
    (ts : List Trapframe) (m : Machine) (p : Proc)
    → m.proc ≡ some p
    → p.handling_alarm ≡ true
    → ((ticks_run ts m).0.proc ≡ some p) × ((ticks_run ts m).1 ≡ ts)
handling_run [] m p e h = (e, refl)
handling_run (tf ∷ ts) m p e h =
    let (e1, same) = timer_handling m p tf e h in
    let (e2, sames) = handling_run ts (timer m tf).0 p e1 h in (e2, ground arith)

page_fault_returns :
    (m : Machine) (p : Proc) (tf : Trapframe)
    → m.proc ≡ some p
    → p.handling_alarm ≡ true
    → m.cr2 ≡ no_return
    → page_fault m tf
      ≡ leaves (record m { proc = some (record p { handling_alarm = false }) }) p.alarm_tf
unfolding page_fault
page_fault_returns m p tf e h c = ground arith

-- the fault on an address
abbrev pub fault_at : ℕ → Machine → Machine
fault_at a m = record m { cr2 = a }

-- However many ticks interrupt a handler, each is resumed unchanged; and when the handler returns
-- to 0xFFFFFFFF, whatever its registers are by then, the page fault resumes the very frame that the
-- alarm interrupted, and the alarm counts again from 0.
pub page_fault-timer :
    (tf end : Trapframe) (ts : List Trapframe) (m : Machine) (p : Proc)
    → m.proc ≡ some p
    → IsArmed p
    → FromUser tf
    → p.alarmpassed + 1 ≡ p.alarmtime
    → let m1 = (timer m tf).0 in
      let m2 = fault_at no_return (ticks_run ts m1).0 in
      ((ticks_run ts m1).1 ≡ ts)
      × (page_fault m2 end
          ≡ leaves
              (record m2 {
                proc = some (record p { alarm_tf = tf; alarmpassed = 0; handling_alarm = false });
              })
              tf)
page_fault-timer tf end ts m p e a u h =
    let m1 = (timer m tf).0 in
    let p1 = record p { alarm_tf = tf; alarmpassed = 0; handling_alarm = true } in
    let (e1, sent) = timer_fires m p tf e a u h in
    let (e2, same) = handling_run ts m1 p1 e1 refl in
    (same, page_fault_returns (fault_at no_return (ticks_run ts m1).0) p1 end e2 refl refl)
