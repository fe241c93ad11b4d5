-- ===== src/Base/Counts.antt =====
-- How often a number is in a list.
use Prim.Native.Nat.{ℕ, suc, ◌+◌, ◌-◌}
use mathlib.Core.Path.{◌≡◌, refl}
use mathlib.Core.Logic.{inl, inr}
use mathlib.Core.List.{List, [], ◌∷◌, reverse, reverse_aux}
use native.Mathlib.Omega.{arith}
use meph_i_semester_4_acos.Base.Tests.{◌==◌, if◌then◌else◌, Bool-cases}

-- how often `f` is in a list
abbrev pub count : ℕ → List ℕ → ℕ
count f [] = 0
count f (g ∷ hs) = if f == g then suc (count f hs) else count f hs

-- the list without one `f`
abbrev pub release : ℕ → List ℕ → List ℕ
release f [] = []
release f (g ∷ hs) = let rest = release f hs in if f == g then hs else g ∷ rest

pub count-release :
    (f g : ℕ) (hs : List ℕ)
    → count g (release f hs) ≡ (if f == g then count g hs - 1 else count g hs)
count-release f g [] = elim (Bool-cases (f == g)) [ inl y ↦ rw y (omega arith) | inr n ↦ rw n refl ]
count-release f g (h ∷ hs) =
    let r = count-release f g hs in
    elim (Bool-cases (f == h)) [
      | inl y ↦ rw y (ground (arith, y))
      | inr n ↦ rw n (ground (arith, r, n))
    ]

count-reverse_aux : (g : ℕ) (xs ys : List ℕ) → count g (reverse_aux xs ys) ≡ count g xs + count g ys
count-reverse_aux g [] ys = omega arith
count-reverse_aux g (x ∷ xs) ys = ground (arith, count-reverse_aux g xs (x ∷ ys))

pub count-reverse : (g : ℕ) (xs : List ℕ) → count g (reverse xs) ≡ count g xs
count-reverse g xs = omega (arith, count-reverse_aux g xs [])
