-- ===== src/Kernel/Process/Wakeup/Waits.antt =====
-- wait, kill, sleep and the choice of the scheduler keep the table valid.
use meph_i_semester_4_acos.Base.{
  ℕ, ◌≡◌, ◌≢◌, inl, inr, refl, ap, subst, Bool, true, false, ◌&&◌, ◌||◌, not, some, ◌==◌, is_some,
  arith, Bool-cases, Option-cases, List, from_some-eq,
}
use meph_i_semester_4_acos.Kernel.Process.{
  nproc, is_unused, is_running, is_runnable, is_zombie, sleeping, other, Proc, Table, is_parent,
  find, sleep, wait, reap, kill, yield, schedule, woken, Wait, reaped, no_child, sleeps,
}
use meph_i_semester_4_acos.Kernel.Process.Kin.{
  find-none, find-some, in_wait, IsValid, Fits, write-IsValid,
}
use meph_i_semester_4_acos.Kernel.Process.Wakeup.Steps.{renumbered}

root_kept :
    (i : ℕ) (t : Table) (p : Proc)
    → IsValid t
    → is_unused p.state ≡ is_unused (t.proc i).state
    → p.parent ≡ (t.proc i).parent
    → (i == t.initproc && (is_some p.parent || is_unused p.state)) ≡ false
root_kept i t p v u q = elim (Bool-cases (i == t.initproc)) [
  | inr n ↦ rw n refl
  | inl y ↦ let e : i ≡ t.initproc = ground arith in rw (y, q, u, e) (ground (arith, v.root))
]

-- An entry of which only fields that do not matter here change, or that is awake.
awake-Fits :
    (i : ℕ) (t : Table) (p : Proc)
    → IsValid t
    → is_zombie p.state ≡ false
    → (in_wait i p ≡ false)
    → is_unused p.state ≡ is_unused (t.proc i).state
    → p.parent ≡ (t.proc i).parent
    → Fits t i p
awake-Fits i t p v z w u q = record {
  waiter = λ j b. ground (arith, w);
  child = λ k. ground (arith, z);
  orphan = rw (u, q) (v.orphan i);
  proper = rw q (v.proper i);
  root = root_kept i t p v u q;
}

-- the entry of a child that has ended is freed
reap-IsValid :
    (freevm : ℕ → List ℕ → List ℕ) (cur i : ℕ) (t : Table)
    → IsValid t
    → (is_parent (t.proc i).parent cur && is_zombie (t.proc i).state) ≡ true
    → IsValid (reap freevm i t)
reap-IsValid freevm cur i t v h =
    let not_init : i ≢ t.initproc =
      λ e. ground (arith, v.root, h, ap {B = Bool} (λ k. is_some (t.proc k).parent) e) in
    renumbered _ t.nextpid _ (
      write-IsValid i _ t v (record {
        waiter = λ j b. refl;
        child = λ x. ground arith;
        orphan = refl;
        proper = refl;
        root = ground (arith, not_init);
      }))

abbrev pub after_wait : Wait → Table → Table
after_wait (reaped pid t') t = t'
after_wait no_child t = t
after_wait (sleeps t') t = t'

-- wait sleeps only where it has found that no child has ended
pub wait-IsValid :
    (freevm : ℕ → List ℕ → List ℕ) (cur : ℕ) (t : Table)
    → IsValid t
    → is_running (t.proc cur).state ≡ true
    → IsValid (after_wait (wait freevm cur t) t)
unfolding wait sleep
wait-IsValid freevm cur t v go =
    let test : Proc → Bool = λ p. is_parent p.parent cur && is_zombie p.state in
    elim (Option-cases (find test nproc 0 t.proc)) [
      | inr (i, e) ↦ rw e (reap-IsValid freevm cur i t v (find-some test nproc 0 i t.proc e).0)
      | inl e ↦
          rw e
            (elim (Bool-cases (
              not (is_some (find (λ p. is_parent p.parent cur) nproc 0 t.proc))
              || (t.proc cur).killed)) [
                | inl y ↦ rw y v
                | inr n ↦ rw n (
                    write-IsValid cur _ t v (record {
                      waiter =
                          λ j b. ground (arith, find-none test nproc 0 j t.proc e (omega arith) b);
                      child = λ k. ground arith;
                      orphan = refl;
                      proper = v.proper cur;
                      root =
                          root_kept cur t (record (t.proc cur) { state = sleeping }) v
                            (ground (arith, go)) refl;
                    }))
              ])
    ]

pub kill-IsValid : (pid : ℕ) (t : Table) → IsValid t → IsValid (kill pid t).0
unfolding kill
kill-IsValid pid t v = elim (Option-cases (find (λ p. p.pid == pid) nproc 0 t.proc)) [
  | inl e ↦ rw e v
  | inr (i, e) ↦
      let (_, b) = find-some (λ p. p.pid == pid) nproc 0 i t.proc e in
      rw e (
        write-IsValid i _ t v (record {
          waiter = λ j _. ground arith;
          child = λ k. ground (arith, v.no_lost k i b);
          orphan = ground (arith, v.orphan i);
          proper = v.proper i;
          root = ground (arith, root_kept i t (t.proc i) v refl refl);
        }))
]

pub sleep-IsValid :
    (cur a : ℕ) (t : Table)
    → IsValid t
    → is_running (t.proc cur).state ≡ true
    → IsValid (sleep cur (other a) t)
unfolding sleep
sleep-IsValid cur a t v go =
    write-IsValid cur _ t v (awake-Fits cur t _ v refl refl (ground (arith, go)) refl)

pub schedule-IsValid : (i : ℕ) (t t' : Table) → IsValid t → schedule i t ≡ some t' → IsValid t'
unfolding schedule
schedule-IsValid i t t' v h = elim (Bool-cases (is_runnable (t.proc i).state)) [
  | inr n ↦ absurd (ground arith)
  | inl y ↦
      subst IsValid (from_some-eq (rw y at h))
        (write-IsValid i _ t v (awake-Fits i t _ v refl refl (ground (arith, y)) refl))
]

pub yield-IsValid :
    (cur : ℕ) (t : Table) → IsValid t → is_running (t.proc cur).state ≡ true → IsValid (yield cur t)
unfolding yield
yield-IsValid cur t v go =
    write-IsValid cur _ t v (awake-Fits cur t _ v refl refl (ground (arith, go)) refl)

pub woken-IsValid :
    (cur : ℕ) (t : Table) → IsValid t → is_running (t.proc cur).state ≡ true → IsValid (woken cur t)
unfolding woken
woken-IsValid cur t v go =
    write-IsValid cur _ t v
      (awake-Fits cur t _ v (ground (arith, go)) (ground (arith, go)) refl refl)
