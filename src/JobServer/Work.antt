-- ===== src/JobServer/Work.antt =====
-- How much the processes of the job server have before them, and that a step makes it less.
use meph_i_semester_4_acos.Base.{
  ℕ, ◌+◌, ◌*◌, ◌<◌, ◌≡◌, ◌⊎◌, inl, inr, refl, subst, ap₂, Bool, true, false, ◌==◌, ltb, [], ◌∷◌,
  length, get_or, set, arith, Bool-cases,
}
use meph_i_semester_4_acos.Atomic.Threads.{total, total-set, set-get_or}
use meph_i_semester_4_acos.JobServer.{
  Watcher, starting, running, releasing, gone, Main, walking, waiting, finished, stopped, System,
  active, move_main, move_watcher, Step, main_step, watcher_step, step,
}
use meph_i_semester_4_acos.JobServer.Tokens.{total-append}

-- how many steps a process has before it, at most
abbrev pub to_do : Watcher → ℕ
to_do starting = 3
to_do running = 2
to_do releasing = 1
to_do gone = 0

abbrev pub main_to_do : Main → ℕ
main_to_do (walking paths failed) = length paths * 4 + 2
main_to_do waiting = 1
main_to_do _ = 0

abbrev pub work : System → ℕ
work s = main_to_do s.main + total to_do s.watchers

move_watcher-work :
    (forks : Bool) (w : Watcher) → (w ≡ gone) ⊎ (to_do (move_watcher forks w).0 < to_do w)
move_watcher-work true starting = inr (omega arith)
move_watcher-work false starting = inr (omega arith)
move_watcher-work forks running = inr (omega arith)
move_watcher-work forks releasing = inr (omega arith)
move_watcher-work forks gone = inl refl

-- a step of the main process that is at `m`
move_main-work :
    (forks : Bool) (m : Main) (s : System)
    → s.main ≡ m
    → (move_main forks m s ≡ s) ⊎ (work (move_main forks m s) < work s)
unfolding move_main
move_main-work true (walking (p ∷ ps) failed) s e = elim (Bool-cases (s.tokens == 0)) [
  | inl y ↦ inl (rw y refl)
  | inr n ↦ inr (rw n (rw e (omega (arith, total-append to_do s.watchers starting))))
]
move_main-work false (walking (p ∷ ps) failed) s e = elim (Bool-cases (s.tokens == 0)) [
  | inl y ↦ inl (rw y refl)
  | inr n ↦ inr (rw n (rw e (omega arith)))
]
move_main-work forks (walking [] true) s e = inr (rw e (omega arith))
move_main-work forks (walking [] false) s e = inr (rw e (omega arith))
move_main-work forks waiting s e = elim (Bool-cases (total active s.watchers == 0)) [
  | inl y ↦ inr (rw y (rw e (omega arith)))
  | inr n ↦ inl (rw n refl)
]
move_main-work forks finished s e = inl refl
move_main-work forks stopped s e = inl refl

move_watcher-gone :
    (forks : Bool) (i : ℕ) (s : System)
    → get_or s.watchers i gone ≡ gone
    → (let (w, n) = move_watcher forks gone in
        record s { tokens = s.tokens + n; watchers = set s.watchers i w })
      ≡ s
move_watcher-gone forks i s g =
    ap₂ (λ t ws. record s { tokens = t; watchers = ws }) (omega arith)
      (subst (λ w. set s.watchers i w ≡ s.watchers) g (set-get_or s.watchers i gone))

-- A step changes nothing or leaves less to do.
pub step-work : (x : Step) (s : System) → (step x s ≡ s) ⊎ (work (step x s) < work s)
step-work (main_step forks) s = move_main-work forks s.main s refl
step-work (watcher_step i forks) s = elim (Bool-cases (ltb i (length s.watchers))) [
  | inl y ↦ rw y (elim (move_watcher-work forks (get_or s.watchers i gone)) [
    | inl g ↦ inl (rw g (move_watcher-gone forks i s g))
    | inr h ↦ inr (
        omega (
          arith,
          h,
          total-set to_do s.watchers i (move_watcher forks (get_or s.watchers i gone)).0 gone
              (ground (arith, y)),
        ))
  ])
  | inr n ↦ inl (rw n refl)
]
