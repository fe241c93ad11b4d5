-- ===== src/Fibers.antt =====
-- fibers/fiber.c and fibers/fiber_asm.S: fibers that give way to each other. The ring through next and
-- prev is the list of its fibers from the current one on. A program is what it does with the library;
-- save_context keeps where FiberYield is and what is left of its caller, and get_context goes there.
-- Memory is taken to suffice.
pub mod Switch
pub mod Lost
mod Tests
use meph_i_semester_4_acos.Base.{
  ℕ, zero, suc, Bool, true, false, not, if◌then◌else◌, ◌&&◌, List, [], ◌∷◌, ◌++◌,
}

-- The code of a fiber, or of main: FiberSpawn with the code of the fiber, FiberYield, other work, and the
-- end, of a fiber's function or of main.
pub data Code : Type 0 where
  spawn : Code → Code → Code
  yields : Code → Code
  work : ℕ → Code → Code
  return_func : Code
  return_main : Code

-- What a context goes back to: start_func, or FiberYield behind one of its calls of save_context, with
-- what its caller has left.
pub data Context : Type 0 where
  at_start : Context
  after_create : Code → Context
  after_save : Code → Context

-- `Fiber`; `func` is its code
pub record Fiber : Type 0 where
  pub func : Code
  pub ctx : Context
  pub is_done : Bool
  pub repeat : Bool

-- Where the processor is: in the code of a fiber, in FiberYield behind save_context in its second
-- branch, at its test of `done`, in get_context for the current fiber, or behind the end of main.
pub data At : Type 0 where
  code : Code → At
  saved : Code → At
  testing : Code → At
  loading : At
  over : At

-- `fibers`, the current one first; `first`; and the work that has been done, the last first
pub record Machine : Type 0 where
  pub ring : List Fiber
  pub first : Bool
  pub at_ : At
  pub trace : List ℕ

-- create_new_fiber: at the end of the ring, behind the current fiber
abbrev pub create_new_fiber : Code → List Fiber → List Fiber
create_new_fiber func ring =
    ring ++ (record { func = func; ctx = at_start; is_done = false; repeat = true } ∷ [])

-- the fiber that FiberYield makes for its caller, with save_context
abbrev pub caller : Code → Fiber
caller k = record { func = return_main; ctx = after_create k; is_done = false; repeat = false }

-- `fibers = fibers->next`
abbrev pub next : List Fiber → List Fiber
next [] = []
next (f ∷ fs) = fs ++ (f ∷ [])

-- FiberYield up to its first save_context and, in the first branch, behind it
abbrev pub fiber_yield : Code → Machine → Machine
fiber_yield k m = elim m.ring [
  | [] ↦ record m { at_ = code k }
  | f ∷ fs ↦ elim fs [
    | [] ↦
        if not m.first
        then record m { first = true; ring = f ∷ caller k ∷ []; at_ = testing k }
        else record m { ring = record f { ctx = after_save k } ∷ []; at_ = saved k }
    | g ∷ gs ↦ record m { ring = record f { ctx = after_save k } ∷ g ∷ gs; at_ = saved k }
  ]
]

-- behind save_context in the second branch
abbrev pub behind_save : Code → List Fiber → Machine → Machine
behind_save k [] m = m
behind_save k (f ∷ fs) m =
    let ring = record f { repeat = false } ∷ fs in
    record m { ring = if not f.is_done then next ring else ring; at_ = testing k }

-- the end of FiberYield up to get_context
abbrev pub test_done : Code → List Fiber → Machine → Machine
test_done k [] m = m
test_done k (f ∷ fs) m =
    if f.is_done
    then record m { ring = record f { is_done = false } ∷ fs; at_ = code k }
    else if not f.repeat
    then record m { ring = record f { is_done = true } ∷ fs; at_ = loading }
    else record m { at_ = loading }

-- `get_context`
abbrev pub goes_to : Fiber → At
goes_to f = elim f.ctx [
  | at_start ↦ code f.func
  | after_create k ↦ testing k
  | after_save k ↦ saved k
]

abbrev pub get_context : List Fiber → Machine → Machine
get_context [] m = m
get_context (f ∷ fs) m = record m { at_ = goes_to f }

-- start_func behind the function: the fiber leaves the ring. (A fiber that is alone in it would go on
-- with memory that it has freed: the model stops.)
abbrev pub leave : List Fiber → Machine → Machine
leave [] m = m
leave (f ∷ []) m = m
leave (f ∷ g ∷ gs) m = record m { ring = record g { is_done = true } ∷ gs; at_ = loading }

abbrev pub run_code : Code → Machine → Machine
run_code (spawn func k) m = record m { ring = create_new_fiber func m.ring; at_ = code k }
run_code (yields k) m = fiber_yield k m
run_code (work n k) m = record m { trace = n ∷ m.trace; at_ = code k }
run_code return_func m = leave m.ring m
run_code return_main m = record m { at_ = over }

-- one step of the processor
abbrev pub move : At → Machine → Machine
move (code c) m = run_code c m
move (saved k) m = behind_save k m.ring m
move (testing k) m = test_done k m.ring m
move loading m = get_context m.ring m
move over m = m

abbrev pub step : Machine → Machine
step m = move m.at_ m

abbrev pub steps : ℕ → Machine → Machine
steps zero m = m
steps (suc n) m = steps n (step m)

-- FiberTryJoin
abbrev pub try_join : Machine → Bool
try_join m = m.first && elim m.ring [ [] ↦ false | f ∷ fs ↦ elim fs [ [] ↦ true | g ∷ gs ↦ false ] ]
