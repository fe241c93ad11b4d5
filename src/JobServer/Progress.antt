-- ===== src/JobServer/Progress.antt =====
-- That the job server comes to its end, with every program of the walk run.
use meph_i_semester_4_acos.Base.{
  ℕ, zero, suc, ◌+◌, ◌<◌, ◌≤◌, ◌≡◌, ◌⊎◌, inl, inr, refl, sym, subst, ◌∙◌, true, false, ◌==◌, ltb,
  Option, List, [], ◌∷◌, ◌++◌, append_assoc, append-nil, length, get_or, set, arith, Bool-cases,
  All, lt→ltb,
}
use meph_i_semester_4_acos.Atomic.Threads.{total, total-set, total-find}
use meph_i_semester_4_acos.JobServer.{
  Entries, walk_root, Watcher, starting, running, releasing, gone, Main, walking, waiting, finished,
  stopped, System, start, active, move_main, move_watcher, Step, main_step, watcher_step, step, run,
}
use meph_i_semester_4_acos.JobServer.Tokens.{total-append}
use meph_i_semester_4_acos.JobServer.Work.{to_do, work, step-work}

-- what a step's fork gives, where it has one
abbrev pub Forks : Step → Type 0
Forks (main_step forks) = forks ≡ true
Forks (watcher_step i forks) = forks ≡ true

-- how far the main process has come, for the programs `paths` of the walk
abbrev Come : List (List ℕ) → System → Main → Type 0
Come paths s (walking more failed) = (s.launched ++ more ≡ paths) × (failed ≡ false)
Come paths s waiting = s.launched ≡ paths
Come paths s finished = (s.launched ≡ paths) × (total active s.watchers ≡ 0)
Come paths s stopped = ⊥

-- No token is lost, and the programs come in their order.
record IsSound (n : ℕ) (paths : List (List ℕ)) (s : System) : Type 0 where
  tokens : s.tokens + total active s.watchers ≡ n
  come : Come paths s s.main

-- With a fork that succeeds a watcher neither makes a token nor loses one.
move_watcher-exact : (w : Watcher) → let (w', n) = move_watcher true w in active w' + n ≡ active w
move_watcher-exact starting = omega arith
move_watcher-exact running = omega arith
move_watcher-exact releasing = omega arith
move_watcher-exact gone = omega arith

Come-watchers :
    (paths : List (List ℕ)) (s : System) (m : Main) (t : ℕ) (ws : List Watcher)
    → total active ws ≤ total active s.watchers
    → Come paths s m
    → Come paths (record s { tokens = t; watchers = ws }) m
Come-watchers paths s (walking more failed) t ws h c = c
Come-watchers paths s waiting t ws h c = c
Come-watchers paths s finished t ws h c = (c.0, omega (arith, c.1, h))
Come-watchers paths s stopped t ws h c = c

move_main-IsSound :
    (n : ℕ) (paths : List (List ℕ)) (m : Main) (s : System)
    → IsSound n paths s
    → Come paths s m
    → s.main ≡ m
    → IsSound n paths (move_main true m s)
unfolding move_main
move_main-IsSound n paths (walking (p ∷ ps) failed) s v c e = elim (Bool-cases (s.tokens == 0)) [
  | inl y ↦ rw y v
  | inr k ↦ rw k (record {
    tokens = ground (arith, v.tokens, k, total-append active s.watchers starting);
    come = (append_assoc s.launched (p ∷ []) ps ∙ c.0, c.1);
  })
]
move_main-IsSound n paths (walking [] true) s v c e = absurd (ground (arith, c.1))
move_main-IsSound n paths (walking [] false) s v c e = record {
  tokens = v.tokens;
  come = sym (append-nil s.launched) ∙ c.0;
}
move_main-IsSound n paths waiting s v c e = elim (Bool-cases (total active s.watchers == 0)) [
  | inl y ↦ rw y (record { tokens = v.tokens; come = (c, ground (arith, y)) })
  | inr k ↦ rw k v
]
move_main-IsSound n paths finished s v c e = v
move_main-IsSound n paths stopped s v c e = v

step-IsSound :
    (n : ℕ) (paths : List (List ℕ)) (x : Step) (s : System)
    → Forks x
    → IsSound n paths s
    → IsSound n paths (step x s)
step-IsSound n paths (main_step true) s f v = move_main-IsSound n paths s.main s v v.come refl
step-IsSound n paths (main_step false) s f v = absurd (ground (arith, f))
step-IsSound n paths (watcher_step i false) s f v = absurd (ground (arith, f))
step-IsSound n paths (watcher_step i true) s f v = elim (Bool-cases (ltb i (length s.watchers))) [
  | inl y ↦ rw y (
      let (w, t) = move_watcher true (get_or s.watchers i gone) in
      let counted = total-set active s.watchers i w gone (ground (arith, y)) in
      let kept = move_watcher-exact (get_or s.watchers i gone) in
      record {
        tokens = omega (arith, v.tokens, counted, kept);
        come =
            Come-watchers paths s s.main (s.tokens + t) (set s.watchers i w)
              (omega (arith, counted, kept)) v.come;
      })
  | inr k ↦ rw k v
]

run-IsSound :
    (n : ℕ) (paths : List (List ℕ)) (xs : List Step) (s : System)
    → All Forks xs
    → IsSound n paths s
    → IsSound n paths (run xs s)
run-IsSound n paths [] s f v = v
run-IsSound n paths (x ∷ xs) s f v =
    run-IsSound n paths xs (step x s) f.1 (step-IsSound n paths x s f.0 v)

-- a watcher that has its token has work
active-work : (w : Watcher) → 1 ≤ active w → to_do (move_watcher true w).0 < to_do w
active-work starting h = omega arith
active-work running h = omega arith
active-work releasing h = omega arith
active-work gone h = absurd (omega (arith, h))

-- A step that leaves less to do.
abbrev Shrinks : System → Type 0
Shrinks s = (x : Step) × Forks x × (work (step x s) < work s)

watcher-Shrinks : (s : System) → 1 ≤ total active s.watchers → Shrinks s
watcher-Shrinks s h =
    let (i, l, k) = total-find active s.watchers gone h in
    (
      watcher_step i true,
      refl,
      rw (lt→ltb i (length s.watchers) l) (
          omega (
            arith,
            active-work (get_or s.watchers i gone) k,
            total-set to_do s.watchers i (move_watcher true (get_or s.watchers i gone)).0 gone l,
          )),
    )

-- Before the end there is one.
main-Shrinks :
    (n : ℕ) (paths : List (List ℕ)) (m : Main) (s : System)
    → 1 ≤ n
    → s.tokens + total active s.watchers ≡ n
    → Come paths s m
    → s.main ≡ m
    → (m ≡ finished) ⊎ Shrinks s
unfolding move_main
main-Shrinks n paths (walking (p ∷ ps) failed) s h t c e = elim (Bool-cases (s.tokens == 0)) [
  | inl y ↦ inr (watcher-Shrinks s (ground (arith, h, t, y)))
  | inr k ↦
      inr
        (main_step true, refl, rw e (rw k (omega (arith, total-append to_do s.watchers starting))))
]
main-Shrinks n paths (walking [] true) s h t c e = absurd (ground (arith, c.1))
main-Shrinks n paths (walking [] false) s h t c e = inr (main_step true, refl, rw e (omega arith))
main-Shrinks n paths waiting s h t c e = elim (Bool-cases (total active s.watchers == 0)) [
  | inl y ↦ inr (main_step true, refl, rw e (rw y (omega arith)))
  | inr k ↦ inr (watcher-Shrinks s (ground (arith, k)))
]
main-Shrinks n paths finished s h t c e = inl refl
main-Shrinks n paths stopped s h t c e = absurd c

-- The end of main: every program has been started, in order, and every one has ended.
pub record IsOver (paths : List (List ℕ)) (s : System) : Type 0 where
  pub ended : s.main ≡ finished
  pub all : s.launched ≡ paths
  pub none_left : total active s.watchers ≡ 0

finish :
    (n : ℕ) (paths : List (List ℕ)) (fuel : ℕ) (s : System)
    → 1 ≤ n
    → work s < fuel
    → IsSound n paths s
    → (ys : List Step) × All Forks ys × IsOver paths (run ys s)
finish n paths zero s h f v = absurd (omega (arith, f))
finish n paths (suc fuel) s h f v = elim (main-Shrinks n paths s.main s h v.tokens v.come refl) [
  | inl e ↦
      (let c = subst (Come paths s) e v.come in
        ([], tt, record { ended = e; all = c.0; none_left = c.1 }))
  | inr (x, k, l) ↦
      (let (ys, a, o) =
          finish n paths fuel (step x s) h (omega (arith, f, l)) (step-IsSound n paths x s k v) in
        (x ∷ ys, (k, a), o))
]

-- For a number of programs above 0, if stat and opendir succeed, and however far the processes have
-- come with forks that succeed: every step now changes nothing or leaves less to do, so they come to an
-- end, and they can go on to where main returns, every program of the walk having been started in its
-- order and having ended.
pub run-IsOver :
    (n : ℕ) (inodes : Option Entries) (xs : List Step)
    → 1 ≤ n
    → (walk_root inodes).failed ≡ false
    → All Forks xs
    → let s = run xs (start n inodes) in
      ((x : Step) → (step x s ≡ s) ⊎ (work (step x s) < work s))
      × ((ys : List Step) × All Forks ys × IsOver (walk_root inodes).files (run ys s))
run-IsOver n inodes xs h ok f =
    let w = walk_root inodes in
    let s = run xs (start n inodes) in
    let begin : IsSound n w.files (start n inodes) = record {
      tokens = omega arith;
      come = (refl, ok);
    } in
    (
      (λ x. step-work x s),
      finish n w.files (suc (work s)) s h (omega arith)
          (run-IsSound n w.files xs (start n inodes) f begin),
    )
