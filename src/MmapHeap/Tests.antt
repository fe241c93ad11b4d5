-- ===== src/MmapHeap/Tests.antt =====
-- A system that maps above all that is mapped, and a heap on it.
use meph_i_semester_4_acos.Base.{
  ℕ, ◌+◌, ◌^◌, ◌≤◌, ◌<◌, ◌≡◌, ◌≢◌, ◌∙◌, inl, inr, refl, ap, sym, subst, true, Option, none, some,
  List, [], ◌∷◌, ltb, if◌then◌else◌, max, arith, Bool-cases, from_some-eq, ltb→lt,
}
use meph_i_semester_4_acos.MmapHeap.{Os, State, malloc, free, realloc}
use meph_i_semester_4_acos.MmapHeap.Blocks.{without, Unused, Documented, IsExact}
use meph_i_semester_4_acos.MmapHeap.Calls.{Allocated, Resized, malloc-free-realloc}

abbrev top : List (ℕ × ℕ) → ℕ
top [] = 4096
top ((a, n) ∷ l) = max (a + n + 4096) (top l)

-- a mapping of `n` bytes above `l`
abbrev placed : ℕ → List (ℕ × ℕ) → List (ℕ × ℕ) → Option ℕ × List (ℕ × ℕ)
placed n l failed =
    if ltb (top l + n) (2 ^ 64) then (some (top l), (top l, n) ∷ l) else (none, failed)

abbrev system : Os
system = record {
  Kernel = List (ℕ × ℕ);
  mmap = λ n l. placed n l l;
  munmap = λ a n l. (true, without a l);
  mremap = λ a n m l. placed m (without a l) l;
}

below : (l : List (ℕ × ℕ)) (a : ℕ) → top l ≤ a → Unused a l
below [] a h = tt
below ((b, n) ∷ l) a h = ((λ e. omega (arith, h, e)), below l a (omega (arith, h)))

placed-some :
    (n a : ℕ) (l failed t : List (ℕ × ℕ))
    → placed n l failed ≡ (some a, t)
    → (t ≡ (a, n) ∷ l) × (a + n < 2 ^ 64) × Unused a l
placed-some n a l failed t h = elim (Bool-cases (ltb (top l + n) (2 ^ 64))) [
  | inl y ↦
      let k = rw y at h in
      let e : top l ≡ a = from_some-eq (ap (λ r. r.0) k) in
      (
        sym (ap (λ r. r.1) k) ∙ ap (λ x. (x, n) ∷ l) e,
        subst (λ x. x + n < 2 ^ 64) e (ltb→lt (top l + n) (2 ^ 64) y),
        below l a (omega (arith, e)),
      )
  | inr m ↦ absurd (ground (arith, ap (λ r. r.0) (rw m at h)))
]

placed-none : (n : ℕ) (l failed t : List (ℕ × ℕ)) → placed n l failed ≡ (none, t) → t ≡ failed
placed-none n l failed t h = elim (Bool-cases (ltb (top l + n) (2 ^ 64))) [
  | inl y ↦ absurd (ground (arith, ap (λ r. r.0) (rw y at h)))
  | inr m ↦ sym (ap (λ r. r.1) (rw m at h))
]

abbrev documented : Documented system
documented = record {
  mapped = λ l. l;
  mmap_maps = λ n a k t h. placed-some n a k k t h;
  mmap_fails = λ n k t h. placed-none n k k t h;
  munmap_unmaps = λ a n k t ok h e. (sym (ap (λ r. r.0) e), sym (ap (λ r. r.1) e));
  mremap_moves = λ a n m b k t h e. placed-some m b (without a k) k t e;
  mremap_fails = λ a n m k t e. placed-none m (without a k) k t e;
}

-- two blocks, at 4104 and 8208
abbrev blocks : List (ℕ × ℕ)
blocks = (8208, 20) ∷ (4104, 8) ∷ []

abbrev heap : State system
heap = record { memory = λ a. if ltb 4096 a then 28 else 16; kernel = (8200, 28) ∷ (4096, 16) ∷ [] }

heap-IsExact : IsExact system documented heap blocks
heap-IsExact = record { all = refl; headed = ((omega arith, refl), ((omega arith, refl), tt)) }

abbrev hundred : ℕ
hundred = 100

malloc-free-realloc_example :
    Allocated system documented 100 blocks (malloc system 100 heap)
    × ((t : State system) × (free system 4104 heap ≡ some t)
        × IsExact system documented t ((8208, 20) ∷ []))
    × (hundred ≡ 0
        → (t : State system) × (realloc system 4104 100 heap ≡ some (0, t))
          × IsExact system documented t ((8208, 20) ∷ []))
    × (hundred ≢ 0
        → (r : ℕ × State system) × (realloc system 4104 100 heap ≡ some r)
          × Resized system documented 4104 100 blocks r)
malloc-free-realloc_example =
    malloc-free-realloc system documented heap blocks 100 4104 8 heap-IsExact (omega arith)
      (inr (inl (refl, refl)))
