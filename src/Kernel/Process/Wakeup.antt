-- ===== src/Kernel/Process/Wakeup.antt =====
-- No wakeup of a waiting parent is lost.
pub mod Steps
pub mod Waits
pub mod Run
use meph_i_semester_4_acos.Base.{
  ℕ, zero, suc, ◌+◌, ◌<◌, ◌≤◌, ◌≡◌, ◌≢◌, ◌⊎◌, inl, inr, refl, sym, ap, subst, fun_ext, Bool, true,
  false, ◌&&◌, ◌||◌, not, Option, none, some, ◌==◌, if◌then◌else◌, update, is_some, arith,
  Bool-cases, Nat-cases, Option-cases, from_some-eq, List, [], ◌∷◌,
}
use meph_i_semester_4_acos.Kernel.Process.{
  nproc, Procstate, is_unused, is_sleeping, is_running, is_zombie, unused, embryo, zombie, sleeping,
  Chan, null, proc_at, other, same_chan, Proc, Table, is_parent, find, write, wake, wakeup1, adopt,
  adopt_from, exit, chan_of, sleep, wait, reap, fork, found, fork_into, allocproc, kill, yield,
  schedule, woken, Wait, reaped, no_child, sleeps,
}
use meph_i_semester_4_acos.Kernel.Process.Kin.{
  find-none, find-some, in_wait, ended_child, IsValid, Fits, write-IsValid,
}

wake-in_wait : (c : Chan) (i : ℕ) (p : Proc) → in_wait i p ≡ false → in_wait i (wake c p) ≡ false
wake-in_wait c i p h = ground (arith, h)

wake-ended_child : (c : Chan) (i : ℕ) (p : Proc) → ended_child i (wake c p) ≡ ended_child i p
wake-ended_child c i p = ground arith

wake-is_unused : (c : Chan) (p : Proc) → is_unused (wake c p).state ≡ is_unused p.state
wake-is_unused c p = ground arith

-- a process that slept in wait does so no more
wake-awake : (i : ℕ) (p : Proc) → in_wait i (wake (proc_at i) p) ≡ false
wake-awake i p = ground arith

pub wakeup1-IsValid : (c : Chan) (t : Table) → IsValid t → IsValid (wakeup1 c t)
unfolding wakeup1
wakeup1-IsValid c t v = record {
  no_lost = λ i j b.
      rw (wake-ended_child c i (t.proc j))
        (ground (arith, wake-in_wait c i (t.proc i), v.no_lost i j b));
  orphan = λ j. rw (wake-is_unused c (t.proc j)) (v.orphan j);
  proper = λ j. v.proper j;
  root = rw (wake-is_unused c (t.proc t.initproc)) v.root;
}

-- A wakeup behind a write of an entry is a write behind a wakeup.
wakeup1-write :
    (c : Chan) (i : ℕ) (p : Proc) (t : Table)
    → wakeup1 c (write i p t) ≡ write i (wake c p) (wakeup1 c t)
unfolding wakeup1
wakeup1-write c i p t =
    ap (λ f. record t { proc = f })
      (fun_ext (λ j. elim (Bool-cases (j == i)) [ inl y ↦ rw y refl | inr n ↦ rw n refl ]))

-- `cur` may become a zombie: it is not init, and its parent does not sleep in wait.
pub record MayEnd (cur : ℕ) (t : Table) : Type 0 where
  pub valid : IsValid t
  pub awake : (i : ℕ) → (in_wait i (t.proc i) && is_parent (t.proc cur).parent i) ≡ false
  pub apart : cur ≢ t.initproc

wakeup1-MayEnd : (c : Chan) (cur : ℕ) (t : Table) → MayEnd cur t → MayEnd cur (wakeup1 c t)
unfolding wakeup1
wakeup1-MayEnd c cur t m = record {
  valid = wakeup1-IsValid c t m.valid;
  awake = λ i. ground (arith, wake-in_wait c i (t.proc i), m.awake i);
  apart = m.apart;
}

-- An entry of the table whose parent becomes init, which does not sleep in wait if the entry has
-- ended.
adopted-MayEnd :
    (cur i : ℕ) (t : Table)
    → MayEnd cur t
    → is_parent (t.proc i).parent cur ≡ true
    → (in_wait t.initproc (t.proc t.initproc) && is_zombie (t.proc i).state) ≡ false
    → MayEnd cur (write i (record (t.proc i) { parent = some t.initproc }) t)
adopted-MayEnd cur i t m h z =
    let v = m.valid in
    let not_init : i ≢ t.initproc =
      λ e. ground (arith, v.root, h, ap {B = Bool} (λ k. is_some (t.proc k).parent) e) in
    let not_cur : i ≢ cur = λ e.
      ground (arith, v.proper cur, h, ap {B = Bool} (λ k. is_parent (t.proc k).parent cur) e) in
    record {
      valid = write-IsValid i _ t v (record {
        waiter = λ j b. v.no_lost i j b;
        child = λ k. elim (Nat-cases k t.initproc) [
          | inl e ↦ rw e (ground (arith, z))
          | inr n ↦ ground (arith, n)
        ];
        orphan = ground (arith, v.orphan i, h);
        proper = ground (arith, not_init);
        root = ground (arith, not_init);
      });
      awake = λ k. elim (Bool-cases (k == i)) [
        | inl y ↦
            let e : k ≡ i = ground arith in
            let w : (cur == i) ≡ false = ground (arith, not_cur) in rw (y, w, e) (m.awake i)
        | inr n ↦ let w : (cur == i) ≡ false = ground (arith, not_cur) in rw (n, w) (m.awake k)
      ];
      apart = m.apart;
    }

adopt-MayEnd : (cur i : ℕ) (t : Table) → MayEnd cur t → MayEnd cur (adopt cur i t)
unfolding wakeup1
adopt-MayEnd cur i t m = elim (Bool-cases (is_parent (t.proc i).parent cur)) [
  | inr n ↦ rw n m
  | inl y ↦ rw y (elim (Bool-cases (is_zombie (t.proc i).state)) [
    | inr n' ↦ rw n' (adopted-MayEnd cur i t m y (ground arith))
    | inl y' ↦
        let c = proc_at t.initproc in
        let m' =
          adopted-MayEnd cur i (wakeup1 c t) (wakeup1-MayEnd c cur t m) y
            (ground (arith, wake-awake t.initproc (t.proc t.initproc))) in
        rw y' (
          subst (MayEnd cur)
            (sym (wakeup1-write c i (record (t.proc i) { parent = some t.initproc }) t)) m')
  ])
]

adopt_from-MayEnd : (cur n i : ℕ) (t : Table) → MayEnd cur t → MayEnd cur (adopt_from cur n i t)
unfolding adopt_from
adopt_from-MayEnd cur zero i t m = m
adopt_from-MayEnd cur (suc n) i t m =
    adopt_from-MayEnd cur n (i + 1) (adopt cur i t) (adopt-MayEnd cur i t m)

-- the parent has been woken
parent_awake :
    (o : Option ℕ) (i : ℕ) (p : Proc) → (in_wait i (wake (chan_of o) p) && is_parent o i) ≡ false
parent_awake none i p = ground arith
parent_awake (some q) i p = elim (Nat-cases q i) [
  | inl e ↦ rw e (ground (arith, wake-awake i p))
  | inr n ↦ ground (arith, n)
]

-- exit, by a process that is not init
abbrev pub ended : ℕ → Table → Table
ended cur t =
    let u = adopt_from cur nproc 0 (wakeup1 (chan_of (t.proc cur).parent) t) in
    write cur (record (u.proc cur) { state = zombie }) u

ended-IsValid : (cur : ℕ) (t : Table) → IsValid t → cur ≢ t.initproc → IsValid (ended cur t)
unfolding wakeup1
ended-IsValid cur t v n =
    let start = wakeup1 (chan_of (t.proc cur).parent) t in
    let u = adopt_from cur nproc 0 start in
    let m : MayEnd cur u = adopt_from-MayEnd cur nproc 0 start (record {
      valid = wakeup1-IsValid (chan_of (t.proc cur).parent) t v;
      awake = λ i. parent_awake (t.proc cur).parent i (t.proc i);
      apart = n;
    }) in
    write-IsValid cur _ u m.valid (record {
      waiter = λ j b. refl;
      child = λ i. m.awake i;
      orphan = refl;
      proper = m.valid.proper cur;
      root = let w : (cur == u.initproc) ≡ false = ground (arith, m.apart) in rw w refl;
    })

-- exit first wakes the parent, and then init if it passes an ended child to it
pub exit-IsValid : (cur : ℕ) (t t' : Table) → IsValid t → exit cur t ≡ some t' → IsValid t'
unfolding exit
exit-IsValid cur t t' v h = elim (Bool-cases (cur == t.initproc)) [
  | inl y ↦ absurd (ground arith)
  | inr n ↦ subst IsValid (from_some-eq (rw n at h)) (ended-IsValid cur t v (λ e. ground arith))
]
