-- ===== src/Kernel/Trap/Counts.antt =====
-- The count of ticks stays below the time of the alarm.
use meph_i_semester_4_acos.Base.{
  ℕ, ◌+◌, ◌<◌, ◌≡◌, refl, true, false, ◌&&◌, not, Option, none, some, arith, subst, sym, inl, inr,
  Bool-cases,
}
use meph_i_semester_4_acos.Kernel.Trap.{
  Trapframe, Proc, Machine, leaves, u32, is_positive, int_ge, from_user, clock, count_alarm, timer,
  page_fault, sys_alarm,
}

-- The count is below the period of an alarm that is set.
abbrev pub CountBelow : Option Proc → Type 0
CountBelow none = Unit
CountBelow (some p) = is_positive p.alarmtime ≡ true → p.alarmpassed < p.alarmtime

count_alarm-CountBelow :
    (o : Option Proc) (m : Machine) (tf : Trapframe)
    → m.proc ≡ o
    → CountBelow o
    → CountBelow (count_alarm m tf).0.proc
unfolding count_alarm
count_alarm-CountBelow none m tf e h =
    let q : (count_alarm m tf).0.proc ≡ none = ground arith in subst CountBelow (sym q) tt
count_alarm-CountBelow (some p) m tf e h =
    elim (Bool-cases (from_user tf && (is_positive p.alarmtime && not p.handling_alarm))) [
      | inr idle ↦
          let q : (count_alarm m tf).0.proc ≡ some p = ground arith in subst CountBelow (sym q) h
      | inl active ↦ elim (Bool-cases (int_ge (u32 (p.alarmpassed + 1)) p.alarmtime)) [
        | inl due ↦
            let q : (count_alarm m tf).0.proc
                ≡ some (record p { alarm_tf = tf; alarmpassed = 0; handling_alarm = true }) =
              ground arith in
            subst CountBelow (sym q) (λ pos. ground arith)
        | inr early ↦
            let q : (count_alarm m tf).0.proc
                ≡ some (record p { alarmpassed = u32 (p.alarmpassed + 1) }) =
              ground arith in
            subst CountBelow (sym q) (λ pos. ground (arith, h pos))
      ]
    ]

sys_alarm-CountBelow :
    (ticks handler : Option ℕ) (m : Machine)
    → CountBelow m.proc
    → CountBelow (sys_alarm ticks handler m).0.proc
unfolding sys_alarm
sys_alarm-CountBelow none handler m h = h
sys_alarm-CountBelow (some t) none m h = h
sys_alarm-CountBelow (some t) (some f) m h = go m.proc refl
  where
    go : (o : Option Proc) → m.proc ≡ o → CountBelow (sys_alarm (some t) (some f) m).0.proc
    go none e =
        let q : (sys_alarm (some t) (some f) m).0.proc ≡ none = ground arith in
        subst CountBelow (sym q) tt
    go (some p) e =
        let q : (sys_alarm (some t) (some f) m).0.proc
            ≡ some (record p { alarmtime = t; alarmpassed = 0; handler = f }) =
          ground arith in
        subst CountBelow (sym q) (λ pos. ground arith)

page_fault-CountBelow :
    (o : Option Proc) (m m' : Machine) (tf tf' : Trapframe)
    → m.proc ≡ o
    → CountBelow o
    → page_fault m tf ≡ leaves m' tf'
    → CountBelow m'.proc
unfolding page_fault
page_fault-CountBelow none m m' tf tf' e h r = absurd (ground arith)
page_fault-CountBelow (some p) m m' tf tf' e h r =
    let q : m'.proc ≡ some (record p { handling_alarm = false }) = ground arith in
    subst CountBelow (sym q) h

-- What happens to the alarm of a process: a tick, the return of its handler, a call of alarm.
pub data AlarmStep (m : Machine) : Machine → Type 0 where
  tick : (tf : Trapframe) → AlarmStep m (timer m tf).0
  resume : (tf tf' : Trapframe) (m' : Machine) → page_fault m tf ≡ leaves m' tf' → AlarmStep m m'
  set_alarm : (ticks handler : Option ℕ) → AlarmStep m (sys_alarm ticks handler m).0

pub data AlarmReach (m : Machine) : Machine → Type 0 where
  here : AlarmReach m m
  later : {s t : Machine} → AlarmReach m s → AlarmStep s t → AlarmReach m t

step-CountBelow : {m m' : Machine} → AlarmStep m m' → CountBelow m.proc → CountBelow m'.proc
unfolding timer
step-CountBelow {m} (tick tf) h = count_alarm-CountBelow m.proc (clock m) tf (ground arith) h
step-CountBelow {m} (resume tf tf' m' r) h = page_fault-CountBelow m.proc m m' tf tf' refl h r
step-CountBelow {m} (set_alarm t f) h = sys_alarm-CountBelow t f m h

-- From a process whose count is below the period of its alarm, if one is set, no ticks, returns of
-- the handler and calls of alarm, in any order, bring the count up to the period.
pub AlarmReach-CountBelow :
    {m m' : Machine} → AlarmReach m m' → CountBelow m.proc → CountBelow m'.proc
AlarmReach-CountBelow here h = h
AlarmReach-CountBelow (later r st) h = step-CountBelow st (AlarmReach-CountBelow r h)
