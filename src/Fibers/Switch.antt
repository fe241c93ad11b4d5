-- ===== src/Fibers/Switch.antt =====
-- Which fiber runs after FiberYield, and after the end of a function.
use meph_i_semester_4_acos.Base.{
  ℕ, zero, suc, ◌+◌, ◌≡◌, ◌∙◌, refl, sym, ap, Bool, true, false, List, [], ◌∷◌, ◌++◌, map,
  append_assoc, arith, subst,
}
use meph_i_semester_4_acos.Fibers.{
  Code, yields, work, return_func, Context, at_start, after_save, Fiber, code, Machine, step, steps,
  caller,
}

-- A fiber that waits: it has not run yet, or it has called FiberYield, as the first caller or later.
pub data Wait : Type 0 where
  unstarted : Code → Wait
  yielded : Code → Code → Wait
  first_caller : Code → Wait

abbrev pub fiber : Wait → Fiber
fiber (unstarted c) = record { func = c; ctx = at_start; is_done = false; repeat = true }
fiber (yielded func k) = record { func = func; ctx = after_save k; is_done = false; repeat = false }
fiber (first_caller k) = caller k

-- what it goes on with
abbrev pub rest : Wait → Code
rest (unstarted c) = c
rest (yielded func k) = k
rest (first_caller k) = k

-- a ring with a fiber that runs, and those that wait behind it
abbrev pub running : Code → Context → Bool → Bool → List Fiber → Bool → List ℕ → Code → Machine
running func ctx is_done repeat waiting first trace k = record {
  ring = record { func = func; ctx = ctx; is_done = is_done; repeat = repeat } ∷ waiting;
  first = first;
  at_ = code k;
  trace = trace;
}

-- how many steps it takes to get to a fiber from FiberYield
abbrev pub far : Wait → ℕ
far (unstarted c) = 4
far (yielded func k) = 6
far (first_caller k) = 5

-- FiberYield by a fiber without the flag of one that is resumed, in a ring with at least one fiber that
-- waits: after a few steps the next fiber of the ring goes on where it was, or starts, as the current
-- one; the caller waits at the end of the ring, to go on behind FiberYield; the other fibers and their
-- order are as they were.
yield_next :
    (func k : Code) (ctx : Context) (repeat first : Bool) (w : Wait) (waiting : List Fiber)
    (trace : List ℕ)
    → (let f = fiber w in
        steps (far w) (running func ctx false repeat (f ∷ waiting) first trace (yields k))
        ≡ running f.func f.ctx false f.repeat
            (waiting ++ (fiber (yielded func k) ∷ []))
            first
            trace
            (rest w))
yield_next func k ctx repeat first (unstarted c) waiting trace = refl
yield_next func k ctx repeat first (yielded g l) waiting trace = refl
yield_next func k ctx repeat first (first_caller l) waiting trace = refl

-- some number of steps leads from a machine to another one
abbrev pub Reaches : Machine → Machine → Type 0
Reaches m m' = (n : ℕ) × (steps n m ≡ m')

steps-add : (a b : ℕ) (m : Machine) → steps b (steps a m) ≡ steps (a + b) m
steps-add zero b m = let e : 0 + b ≡ b = omega arith in rw e refl
steps-add (suc a) b m =
    let e : suc a + b ≡ suc (a + b) = omega arith in rw e (steps-add a b (step m))

Reaches-trans : (l m n : Machine) → Reaches l m → Reaches m n → Reaches l n
Reaches-trans l m n (a, e) (b, f) = (a + b, sym (steps-add a b l) ∙ ap (steps b) e ∙ f)

-- A fiber that waits to do a piece of work and to call FiberYield behind it: it has not run yet, or it
-- goes on behind FiberYield, as the first caller or later. `left` is what it does after that.
pub data Turn : Type 0 where
  starts : ℕ → Code → Turn
  resumes : Code → ℕ → Code → Turn
  first_resumes : ℕ → Code → Turn

abbrev pub turn : ℕ → Code → Code
turn n k = work n (yields k)

abbrev pub wait : Turn → Wait
wait (starts n k) = unstarted (turn n k)
wait (resumes func n k) = yielded func (turn n k)
wait (first_resumes n k) = first_caller (turn n k)

abbrev pub piece : Turn → ℕ
piece (starts n k) = n
piece (resumes func n k) = n
piece (first_resumes n k) = n

abbrev pub left : Turn → Code
left (starts n k) = k
left (resumes func n k) = k
left (first_resumes n k) = k

-- the pieces of work of turns in a row, on top of a trace
abbrev pub traced : List Turn → List ℕ → List ℕ
traced [] trace = trace
traced (t ∷ ts) trace = traced ts (piece t ∷ trace)

-- it waits behind the FiberYield of its turn
abbrev pub had_turn : Turn → Fiber
had_turn t = fiber (yielded (fiber (wait t)).func (left t))

-- the turn of a fiber, up to its FiberYield
one_turn :
    (t : Turn) (waiting : List Fiber) (first : Bool) (trace : List ℕ)
    → (let f = fiber (wait t) in
        Reaches
          (running f.func f.ctx false f.repeat waiting first trace (rest (wait t)))
          (running f.func f.ctx false f.repeat waiting first (piece t ∷ trace) (yields (left t))))
one_turn (starts n k) waiting first trace = (1, refl)
one_turn (resumes func n k) waiting first trace = (1, refl)
one_turn (first_resumes n k) waiting first trace = (1, refl)

turns :
    (ts : List Turn) (func k : Code) (ctx : Context) (repeat first : Bool) (w : Wait)
    (behind : List Fiber) (trace : List ℕ)
    → (let f = fiber w in
        Reaches
          (running func ctx false repeat
            (map (λ t. fiber (wait t)) ts ++ f ∷ behind)
            first
            trace
            (yields k))
          (running f.func f.ctx false f.repeat
            (behind ++ (fiber (yielded func k) ∷ map had_turn ts))
            first
            (traced ts trace)
            (rest w)))
turns [] func k ctx repeat first w behind trace =
    (far w, yield_next func k ctx repeat first w behind trace)
turns (t ∷ ts) func k ctx repeat first w behind trace =
    let f = fiber (wait t) in
    let others = map (λ u. fiber (wait u)) ts ++ fiber w ∷ behind in
    let caller' = fiber (yielded func k) ∷ [] in
    Reaches-trans _ _ _ (far (wait t), yield_next func k ctx repeat first (wait t) others trace)
      (Reaches-trans _ _ _ (one_turn t (others ++ caller') first trace) (
        rw (append_assoc (map (λ u. fiber (wait u)) ts) (fiber w ∷ behind) caller') (
          subst
            (λ r.
              Reaches
                (running f.func f.ctx false f.repeat
                  (map (λ u. fiber (wait u)) ts ++ fiber w ∷ (behind ++ caller')) first
                  (piece t ∷ trace) (yields (left t)))
                (running (fiber w).func (fiber w).ctx false (fiber w).repeat r first
                  (traced (t ∷ ts) trace) (rest w)))
            (append_assoc behind caller' (map had_turn (t ∷ ts)))
            (turns ts f.func (left t) f.ctx f.repeat first w (behind ++ caller')
              (piece t ∷ trace)))))

-- FiberYield by a fiber without the flag of one that is resumed, while other fibers of the ring wait,
-- each to do a piece of work and to call FiberYield: every one of them has its turn, once and in the
-- order of the ring, before the caller goes on behind its FiberYield; and then they wait in the same
-- order, each behind its own FiberYield.
pub yield-rotates :
    (func k : Code) (ctx : Context) (repeat first : Bool) (t : Turn) (ts : List Turn)
    (trace : List ℕ)
    → Reaches
        (running func ctx false repeat (map (λ u. fiber (wait u)) (t ∷ ts)) first trace (yields k))
        (running func
          (after_save k)
          false
          false
          (map had_turn (t ∷ ts))
          first
          (traced (t ∷ ts) trace)
          k)
yield-rotates func k ctx repeat first t ts trace =
    let f = fiber (wait t) in
    let caller' = fiber (yielded func k) ∷ [] in
    let others = map (λ u. fiber (wait u)) ts in
    Reaches-trans _ _ _ (far (wait t), yield_next func k ctx repeat first (wait t) others trace)
      (Reaches-trans _ _ _ (one_turn t (others ++ caller') first trace)
        (turns ts f.func (left t) f.ctx f.repeat first (yielded func k) [] (piece t ∷ trace)))

-- A function that returns in front of a fiber that has not run yet: that fiber starts with the flag of
-- one that is resumed, so its first FiberYield does not give way, and it goes on itself.
pub return-stays :
    (func k : Code) (ctx : Context) (repeat first : Bool) (g : Fiber) (waiting : List Fiber)
    (trace : List ℕ)
    → steps 5 (
        running func ctx false repeat
          (fiber (unstarted (yields k)) ∷ g ∷ waiting)
          first
          trace
          return_func)
      ≡ running (yields k) (after_save k) false false (g ∷ waiting) first trace k
return-stays func k ctx repeat first g waiting trace = refl
