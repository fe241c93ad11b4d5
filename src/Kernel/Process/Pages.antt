-- ===== src/Kernel/Process/Pages.antt =====
-- What fork takes from the free list and gives back, and what kill does to entries not in use.
use meph_i_semester_4_acos.Base.{
  ℕ, zero, suc, ◌+◌, ◌≡◌, refl, ◌∙◌, Bool, true, Option, none, some, ◌==◌, ==_self, if◌then◌else◌,
  arith, Bool-cases, inl, inr, Option-cases, List, [], ◌∷◌,
}
use meph_i_semester_4_acos.Kernel.Process.{
  nproc, is_unused, is_sleeping, Proc, Table, find, found, allocproc, fork, fork_into, kill, write,
  runnable,
}

-- a failure keeps the free list; a success takes the stack and the page for the alarm
abbrev pub Taken : Table → Table × Option ℕ → Type 0
Taken t (t', none) = t'.free ≡ t.free
Taken t (t', some i) =
    (k : ℕ) × (a : ℕ) × (t.free ≡ k ∷ a ∷ t'.free)
    × ((t'.proc i).kstack ≡ some k)
    × ((t'.proc i).alarm_tf ≡ some a)

found-Taken : (i : ℕ) (t : Table) → Taken t (found i t)
unfolding found
found-Taken i t = after t.free refl
  where
    after : (free : List ℕ) → t.free ≡ free → Taken t (found i t)
    after [] e = rw e refl
    after (k ∷ []) e = rw e refl
    after (k ∷ a ∷ free) e = rw e (k, a, refl, rw (==_self i) refl, rw (==_self i) refl)

-- Where allocproc fails, for want of an entry, of the first page or of the second, every page is
-- free again; where it succeeds, exactly two pages are taken, the stack and the one for the alarm.
pub allocproc-Taken : (t : Table) → Taken t (allocproc t)
unfolding allocproc
allocproc-Taken t = elim (Option-cases (find (λ p. is_unused p.state) nproc 0 t.proc)) [
  | inl e ↦ rw e refl
  | inr (i, e) ↦ rw e (found-Taken i t)
]

-- With an unused entry and two free pages at hand, where copyuvm fails and gives back what it took:
-- fork fails and the entry is unused again, but of the two pages only the stack is free again. The
-- page for the alarm is lost.
pub fork-leak :
    (copyuvm : List ℕ → Option ℕ × List ℕ) (cur i k a : ℕ) (free : List ℕ) (t : Table)
    → find (λ p. is_unused p.state) nproc 0 t.proc ≡ some i
    → t.free ≡ k ∷ a ∷ free
    → copyuvm free ≡ (none, free)
    → let (t', pid) = fork copyuvm cur t in
      (pid ≡ none) × (is_unused (t'.proc i).state ≡ true) × (t'.free ≡ k ∷ free)
unfolding fork allocproc found fork_into
fork-leak copyuvm cur i k a free t e f c =
    rw (e, f, c) (refl, rw (==_self i) refl, rw (==_self i) refl)

find-ext :
    (test : Proc → Bool) (n i : ℕ) (ps qs : ℕ → Proc)
    → ((j : ℕ) → test (ps j) ≡ test (qs j))
    → find test n i ps ≡ find test n i qs
unfolding find
find-ext test zero i ps qs h = refl
find-ext test (suc n) i ps qs h = rw (h i, find-ext test n (i + 1) ps qs h) refl

-- If the first unused entry is also the first with pid 0, as one that was never used has, kill of 0
-- finds it and marks it, and reports success. The next fork that has two pages and that copyuvm
-- serves makes its child in that entry, with the next pid, which it returns, and runnable; and the
-- child starts out killed.
pub fork-kill :
    (copyuvm : List ℕ → Option ℕ × List ℕ) (cur i k a d : ℕ) (free rest : List ℕ) (t : Table)
    → find (λ p. is_unused p.state) nproc 0 t.proc ≡ some i
    → find (λ p. p.pid == 0) nproc 0 t.proc ≡ some i
    → t.free ≡ k ∷ a ∷ free
    → copyuvm free ≡ (some d, rest)
    → let (t', ok) = kill 0 t in
      let (u, pid) = fork copyuvm cur t' in
      (ok ≡ true)
      × (pid ≡ some t.nextpid)
      × ((u.proc i).pid ≡ t.nextpid)
      × ((u.proc i).parent ≡ some cur)
      × ((u.proc i).state ≡ runnable)
      × ((u.proc i).killed ≡ true)
unfolding kill fork allocproc found fork_into
fork-kill copyuvm cur i k a d free rest t e z f c =
    let p = t.proc i in
    let p' = record p {
      killed = true;
      state = if is_sleeping p.state then runnable else p.state;
    } in
    let t' = write i p' t in
    let same : (j : ℕ) → is_unused (t'.proc j).state ≡ is_unused (t.proc j).state = λ j.
      elim (Bool-cases (j == i)) [
        | inl y ↦ let q : j ≡ i = ground arith in rw (y, q) (ground arith)
        | inr n ↦ rw n refl
      ] in
    let e' : find (λ q. is_unused q.state) nproc 0 t'.proc ≡ some i =
      find-ext (λ q. is_unused q.state) nproc 0 t'.proc t.proc same ∙ e in
    rw z (rw (e', f, c, ==_self i) (refl, refl, refl, refl, refl, refl))
