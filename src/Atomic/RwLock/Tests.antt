-- ===== src/Atomic/RwLock/Tests.antt =====
-- Two readers and a writer.
use meph_i_semester_4_acos.Base.{ℕ, ◌≤◌, ◌≡◌, ◌⊎◌, refl, Bool, true, false, List, [], ◌∷◌}
use meph_i_semester_4_acos.Atomic.RwLock.{outside, reading, write_load, writing, move, run}
use meph_i_semester_4_acos.Atomic.Threads.{total}
use meph_i_semester_4_acos.Atomic.RwLock.Totals.{alone, inside}
use meph_i_semester_4_acos.Atomic.RwLock.Exclusion.{start, run-alone}

-- the readers enter, the writer waits for them, they leave, and the writer enters
abbrev entered : List (ℕ × Bool)
entered =
    (0, false)
    ∷ (1, false)
    ∷ (2, true)
    ∷ (0, false)
    ∷ (1, false)
    ∷ (0, false)
    ∷ (0, false)
    ∷ (1, false)
    ∷ (1, false)
    ∷ (1, false)
    ∷ (2, false)
    ∷ (2, false)
    ∷ []

abbrev left_again : List (ℕ × Bool)
left_again =
    (0, false)
    ∷ (1, false)
    ∷ (0, false)
    ∷ (0, false)
    ∷ (0, false)
    ∷ (1, false)
    ∷ (1, false)
    ∷ (1, false)
    ∷ (2, false)
    ∷ []

run-readers : (run entered (start 3)).threads ≡ reading ∷ reading ∷ write_load ∷ []
unfolding move
run-readers = refl

run-writer : (run left_again (run entered (start 3))).threads ≡ outside ∷ outside ∷ writing ∷ []
unfolding move
run-writer = refl

run-alone_example :
    let ts = (run entered (start 3)).threads in
    (total alone ts ≤ 1) × ((total alone ts ≡ 0) ⊎ (total inside ts ≡ 0))
run-alone_example = run-alone 3 entered
