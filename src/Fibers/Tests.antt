-- ===== src/Fibers/Tests.antt =====
-- The program of fibers/main.c, with one round of FuncB.
use meph_i_semester_4_acos.Base.{◌≡◌, refl, true, false, [], ◌∷◌, map}
use meph_i_semester_4_acos.Fibers.{
  Code, spawn, yields, work, return_func, return_main, at_start, after_save, code, steps,
}
use meph_i_semester_4_acos.Fibers.Switch.{
  Reaches, resumes, starts, wait, had_turn, fiber, running, yield-rotates,
}
use meph_i_semester_4_acos.Fibers.Lost.{done, begun, spawn-lost}

abbrev func_a : Code
func_a = work 2 return_func

abbrev func_b : Code
func_b = work 1 (spawn func_a (yields (work 1 return_func)))

abbrev main : Code
main = spawn func_b (work 0 (yields (work 0 (yields (work 0 return_main)))))

abbrev main_end : Code
main_end = work 0 (yields (work 0 return_main))

steps-main :
    (steps 30 (record { ring = []; first = false; at_ = code main; trace = [] })).trace
    ≡ 0 ∷ 1 ∷ 2 ∷ 0 ∷ 1 ∷ 0 ∷ []
steps-main = refl

-- main yields to a fiber that resumes and to one that has not run
yield-rotates_example :
    Reaches
      (running return_main at_start false true
        (map (λ u. fiber (wait u)) (resumes func_b 5 return_func ∷ starts 6 return_func ∷ []))
        true
        []
        (yields func_b))
      (running return_main
        (after_save func_b)
        false
        false
        (map had_turn (resumes func_b 5 return_func ∷ starts 6 return_func ∷ []))
        true
        (6 ∷ 5 ∷ [])
        func_b)
yield-rotates_example =
    yield-rotates return_main func_b at_start true true (resumes func_b 5 return_func)
      (starts 6 return_func ∷ []) []

spawn-lost_example :
    done 2 (steps 50 (begun (spawn func_a (spawn (work 1 return_func) (yields main_end))))).trace
    ≡ false
spawn-lost_example = spawn-lost 2 50 return_func (work 1 return_func) main_end refl refl
