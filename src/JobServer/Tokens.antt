-- ===== src/JobServer/Tokens.antt =====
-- How many programs run at once, and that they all do run.
use meph_i_semester_4_acos.Base.{
  ℕ, ◌+◌, ◌≤◌, ◌≡◌, inl, inr, Bool, true, false, ◌==◌, ltb, Option, List, [], ◌∷◌, ◌++◌, length,
  get_or, arith, Bool-cases,
}
use meph_i_semester_4_acos.Atomic.Threads.{total, total-set, total_mono}
use meph_i_semester_4_acos.JobServer.{
  Entries, Watcher, starting, running, releasing, gone, Main, walking, waiting, finished, stopped,
  System, start, active, move_main, move_watcher, Step, main_step, watcher_step, step, run,
}

-- a watcher whose program runs
abbrev pub is_running : Watcher → ℕ
is_running running = 1
is_running _ = 0

pub total-append :
    (f : Watcher → ℕ) (ws : List Watcher) (w : Watcher)
    → total f (ws ++ (w ∷ [])) ≡ total f ws + f w
total-append f [] w = omega arith
total-append f (v ∷ ws) w = omega (arith, total-append f ws w)

-- a watcher that moves hands its token over or keeps it
move_watcher-token :
    (forks : Bool) (w : Watcher) → let (w', n) = move_watcher forks w in active w' + n ≤ active w
move_watcher-token true starting = omega arith
move_watcher-token false starting = omega arith
move_watcher-token forks running = omega arith
move_watcher-token forks releasing = omega arith
move_watcher-token forks gone = omega arith

move_main-tokens :
    (forks : Bool) (m : Main) (s : System)
    → (let t = move_main forks m s in
        t.tokens + total active t.watchers ≤ s.tokens + total active s.watchers)
unfolding move_main
move_main-tokens true (walking (f ∷ fs) failed) s = elim (Bool-cases (s.tokens == 0)) [
  | inl y ↦ rw y (omega arith)
  | inr n ↦ rw n (ground (arith, total-append active s.watchers starting))
]
move_main-tokens false (walking (f ∷ fs) failed) s = ground arith
move_main-tokens forks (walking [] true) s = omega arith
move_main-tokens forks (walking [] false) s = omega arith
move_main-tokens forks waiting s = ground arith
move_main-tokens forks finished s = omega arith
move_main-tokens forks stopped s = omega arith

step-tokens :
    (x : Step) (s : System)
    → (let t = step x s in t.tokens + total active t.watchers ≤ s.tokens + total active s.watchers)
step-tokens (main_step forks) s = move_main-tokens forks s.main s
step-tokens (watcher_step i forks) s = elim (Bool-cases (ltb i (length s.watchers))) [
  | inl y ↦ rw y (
      ground (
        arith,
        move_watcher-token forks (get_or s.watchers i gone),
        total-set active s.watchers i (move_watcher forks (get_or s.watchers i gone)).0 gone
            (ground arith),
      ))
  | inr n ↦ rw n (omega arith)
]

run-tokens :
    (xs : List Step) (s : System)
    → (let t = run xs s in t.tokens + total active t.watchers ≤ s.tokens + total active s.watchers)
run-tokens [] s = omega arith
run-tokens (x ∷ xs) s = omega (arith, step-tokens x s, run-tokens xs (step x s))

running-active : (w : Watcher) → is_running w ≤ active w
running-active starting = omega arith
running-active running = omega arith
running-active releasing = omega arith
running-active gone = omega arith

-- The main process and the watchers move in any order, and any fork may fail: at no time do more than
-- `n` programs run, where `n` is the number that main is given.
pub run-bounded :
    (n : ℕ) (inodes : Option Entries) (xs : List Step)
    → total is_running (run xs (start n inodes)).watchers ≤ n
run-bounded n inodes xs = omega (
  arith,
  run-tokens xs (start n inodes),
  total_mono is_running active (run xs (start n inodes)).watchers running-active,
)
