-- ===== src/Kernel/PageAllocator/Tests.antt =====
-- Two pages, one free and one held.
use meph_i_semester_4_acos.Base.{ℕ, ◌≡◌, refl, Option, none, some, List, [], ◌∷◌, arith, count}
use meph_i_semester_4_acos.Kernel.PageAllocator.{Kmem, kalloc, kfree, pgroundup, freerange_from}
use meph_i_semester_4_acos.Kernel.PageAllocator.Owners.{
  Owners, Action, allocs, frees, run, IsShared, run-IsShared,
}

-- the kernel ends here
abbrev kernel_end : ℕ
kernel_end = 2148532224

abbrev first : ℕ
first = 2149580800

abbrev second : ℕ
second = 2149584896

abbrev owners : Owners
owners = record { kmem = record { word = λ x. 0; freelist = first }; held = second ∷ [] }

abbrev pages : ℕ → ℕ
pages x = count x (first ∷ second ∷ [])

owners-IsShared : IsShared kernel_end pages owners
owners-IsShared = record {
  free = first ∷ [];
  chain = (refl, refl);
  free_pages = (refl, tt);
  held_pages = (refl, tt);
  conserved = λ x. ground arith;
}

abbrev actions : List Action
actions = allocs ∷ allocs ∷ frees second ∷ frees first ∷ frees first ∷ allocs ∷ []

run-IsShared_example :
    (o : Owners) × (run kernel_end actions owners ≡ some o) × IsShared kernel_end pages o
run-IsShared_example =
    run-IsShared kernel_end pages actions owners (omega arith) (λ x. ground arith) owners-IsShared

abbrev given_first : Option Kmem → ℕ
given_first none = 0
given_first (some k) = (kalloc k).0

-- two whole pages lie in the range, and the last one freed is the first one given
freerange_from-last :
    given_first (
      freerange_from kernel_end 3
        (pgroundup 2149580001)
        2149590000
        (record { word = λ x. 0; freelist = 0 }))
    ≡ 2149584896
unfolding freerange_from kalloc kfree
freerange_from-last = refl

abbrev empty : Kmem
empty = record { word = λ x. 0; freelist = 0 }
