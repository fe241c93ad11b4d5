-- ===== src/JobServer/Tests.antt =====
-- A directory with two programs and a text file, walked and run.
use meph_i_semester_4_acos.Base.{
  ◌≡◌, ◌⊎◌, ◌<◌, ◌≤◌, refl, true, false, none, some, List, [], ◌∷◌, codes, arith, All,
}
use meph_i_semester_4_acos.Atomic.Threads.{total}
use meph_i_semester_4_acos.JobServer.{
  Walk, Entries, Entry, file, dir, done, entry, walk_dir, start, Step, main_step, watcher_step,
  step, run, move_main,
}
use meph_i_semester_4_acos.JobServer.Order.{append, AllRun, paths, walk_dir-executables}
use meph_i_semester_4_acos.JobServer.Tokens.{is_running, run-bounded}
use meph_i_semester_4_acos.JobServer.Work.{work}
use meph_i_semester_4_acos.JobServer.Progress.{Forks, IsOver, run-IsOver}

-- `a` and, in `d`, `b`; with the entries that every directory has
abbrev programs : Entries
programs = entry (dir (codes ".") done) (
    entry (file (codes "a") (some true)) (
      entry
        (dir (codes "d")
          (entry (dir (codes "..") done) (entry (file (codes "b") (some true)) done)))
        done))

abbrev text : Entry
text = file (codes "t") (some false)

-- main starts `a`, which runs; the watcher of `a` hands the token over; main starts `d/b`.
abbrev steps : List Step
steps =
    main_step true
    ∷ watcher_step 0 true
    ∷ main_step true
    ∷ watcher_step 0 true
    ∷ watcher_step 0 true
    ∷ main_step true
    ∷ watcher_step 1 true
    ∷ []

run-launched : (run steps (start 1 (some programs))).launched ≡ codes "./a" ∷ codes "./d/b" ∷ []
unfolding walk_dir move_main
run-launched = refl

walk_dir-executables_example :
    let w : Walk = record { files = codes "./a" ∷ codes "./d/b" ∷ []; failed = false } in
    (walk_dir (codes ".") programs ≡ w)
    × (walk_dir (codes ".") (append programs (entry text programs)) ≡ w)
    × (walk_dir (codes ".") (append programs (entry (file (codes "t") none) programs))
        ≡ record w { failed = true })
unfolding AllRun paths
walk_dir-executables_example =
    walk_dir-executables (codes ".") (codes "t") programs programs
      ((λ e. tt), ((λ e. refl), ((λ e. ((λ k. tt), ((λ k. refl), tt))), tt))) refl

run-bounded_example : total is_running (run steps (start 1 (some programs))).watchers ≤ 1
run-bounded_example = run-bounded 1 (some programs) steps

run-IsOver_example :
    let s = run steps (start 1 (some programs)) in
    ((x : Step) → (step x s ≡ s) ⊎ (work (step x s) < work s))
    × ((ys : List Step) × All Forks ys × IsOver (codes "./a" ∷ codes "./d/b" ∷ []) (run ys s))
unfolding walk_dir
run-IsOver_example =
    run-IsOver 1 (some programs) steps (omega arith) refl
      (refl, (refl, (refl, (refl, (refl, (refl, (refl, tt)))))))
