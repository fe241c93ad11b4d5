-- ===== src/Fibers/Lost.antt =====
-- FiberSpawn before the first FiberYield: the first fiber takes the place of main in the ring.
use meph_i_semester_4_acos.Base.{
  ℕ, zero, suc, ◌≡◌, refl, Bool, true, false, List, [], ◌∷◌, ◌==◌, ◌&&◌, ◌||◌, not, All, All-append,
  both, arith, Bool-cases, inl, inr,
}
use meph_i_semester_4_acos.Fibers.{
  Code, spawn, yields, work, return_func, return_main, Context, at_start, after_create, after_save,
  Fiber, At, code, saved, testing, loading, over, Machine, step, steps, goes_to,
}

-- code that never does the piece of work `n`, in itself or in what it spawns
abbrev pub avoids : ℕ → Code → Bool
avoids n (spawn func k) = let rest' = avoids n k in avoids n func && rest'
avoids n (yields k) = avoids n k
avoids n (work i k) = let rest' = avoids n k in not (i == n) && rest'
avoids n return_func = true
avoids n return_main = true

-- what a fiber has still to do avoids it
abbrev pub fiber_avoids : ℕ → Fiber → Bool
fiber_avoids n f = elim f.ctx [
  | at_start ↦ avoids n f.func
  | after_create k ↦ avoids n k
  | after_save k ↦ avoids n k
]

abbrev pub at_avoids : ℕ → At → Bool
at_avoids n (code k) = avoids n k
at_avoids n (saved k) = avoids n k
at_avoids n (testing k) = avoids n k
at_avoids n loading = true
at_avoids n over = true

abbrev pub done : ℕ → List ℕ → Bool
done n [] = false
done n (i ∷ is) = let rest' = done n is in i == n || rest'

-- Neither the processor nor a fiber of the ring has the work ahead, nor has it been done.
record Avoids (n : ℕ) (m : Machine) : Type 0 where
  ring : All (λ f. fiber_avoids n f ≡ true) m.ring
  place : at_avoids n m.at_ ≡ true
  past : done n m.trace ≡ false

goes_to-avoids : (n : ℕ) (f : Fiber) → fiber_avoids n f ≡ true → at_avoids n (goes_to f) ≡ true
goes_to-avoids n f h = after f.ctx refl
  where
    after : (c : Context) → f.ctx ≡ c → at_avoids n (goes_to f) ≡ true
    after at_start e = rw e (rw e at h)
    after (after_create k) e = rw e (rw e at h)
    after (after_save k) e = rw e (rw e at h)

step_of :
    (n : ℕ) (a : At) (ring : List Fiber) (first : Bool) (trace : List ℕ)
    → All (λ f. fiber_avoids n f ≡ true) ring
    → at_avoids n a ≡ true
    → done n trace ≡ false
    → Avoids n (step (record { ring = ring; first = first; at_ = a; trace = trace }))
step_of n (code (spawn g k)) ring first trace r p t = record {
  ring =
      All-append (λ f. fiber_avoids n f ≡ true) ring _ r ((both (avoids n g) (avoids n k) p).0, tt);
  place = (both (avoids n g) (avoids n k) p).1;
  past = t;
}
step_of n (code (yields k)) [] first trace r p t = record { ring = r; place = p; past = t }
step_of n (code (yields k)) (f ∷ []) false trace r p t = record {
  ring = (r.0, (p, tt));
  place = p;
  past = t;
}
step_of n (code (yields k)) (f ∷ []) true trace r p t = record {
  ring = (p, tt);
  place = p;
  past = t;
}
step_of n (code (yields k)) (f ∷ g ∷ gs) first trace r p t = record {
  ring = (p, r.1);
  place = p;
  past = t;
}
step_of n (code (work i k)) ring first trace r p t =
    let (here, later) = both (not (i == n)) (avoids n k) p in
    record { ring = r; place = later; past = ground (arith, here, t) }
step_of n (code return_func) [] first trace r p t = record { ring = r; place = p; past = t }
step_of n (code return_func) (f ∷ []) first trace r p t = record { ring = r; place = p; past = t }
step_of n (code return_func) (f ∷ g ∷ gs) first trace r p t = record {
  ring = r.1;
  place = refl;
  past = t;
}
step_of n (code return_main) ring first trace r p t = record { ring = r; place = refl; past = t }
step_of n (saved k) [] first trace r p t = record { ring = r; place = p; past = t }
step_of n (saved k) (f ∷ fs) first trace r p t = elim (Bool-cases f.is_done) [
  | inl y ↦ rw y (record { ring = r; place = p; past = t })
  | inr y ↦ rw y (record {
    ring = All-append (λ g. fiber_avoids n g ≡ true) fs _ r.1 (r.0, tt);
    place = p;
    past = t;
  })
]
step_of n (testing k) [] first trace r p t = record { ring = r; place = p; past = t }
step_of n (testing k) (f ∷ fs) first trace r p t = elim (Bool-cases f.is_done) [
  | inl y ↦ rw y (record { ring = r; place = p; past = t })
  | inr y ↦ elim (Bool-cases f.repeat) [
    | inl z ↦ rw (y, z) (record { ring = r; place = refl; past = t })
    | inr z ↦ rw (y, z) (record { ring = r; place = refl; past = t })
  ]
]
step_of n loading [] first trace r p t = record { ring = r; place = p; past = t }
step_of n loading (f ∷ fs) first trace r p t = record {
  ring = r;
  place = goes_to-avoids n f r.0;
  past = t;
}
step_of n over ring first trace r p t = record { ring = r; place = p; past = t }

step-Avoids : (n : ℕ) (m : Machine) → Avoids n m → Avoids n (step m)
step-Avoids n m v = step_of n m.at_ m.ring m.first m.trace v.ring v.place v.past

steps-Avoids : (n i : ℕ) (m : Machine) → Avoids n m → Avoids n (steps i m)
steps-Avoids n zero m v = v
steps-Avoids n (suc i) m v = steps-Avoids n i (step m) (step-Avoids n m v)

abbrev pub begun : Code → Machine
begun c = record { ring = []; first = false; at_ = code c; trace = [] }

-- main calls FiberSpawn twice before its first FiberYield. The work that the first function begins
-- with, if neither the second function nor the rest of main does it, is never done, however many steps
-- the program runs: the first function never runs.
pub spawn-lost :
    (n i : ℕ) (a b k : Code)
    → avoids n b ≡ true
    → avoids n k ≡ true
    → done n (steps i (begun (spawn (work n a) (spawn b (yields k))))).trace ≡ false
spawn-lost n zero a b k h l = refl
spawn-lost n (suc zero) a b k h l = refl
spawn-lost n (suc (suc zero)) a b k h l = refl
spawn-lost n (suc (suc (suc i))) a b k h l =
    let m = steps 3 (begun (spawn (work n a) (spawn b (yields k)))) in
    (steps-Avoids n i m (record { ring = (l, (h, tt)); place = l; past = refl })).past
