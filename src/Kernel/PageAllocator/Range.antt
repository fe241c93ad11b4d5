-- ===== src/Kernel/PageAllocator/Range.antt =====
-- What freerange puts on the free list.
use meph_i_semester_4_acos.Base.{
  ℕ, zero, suc, ◌+◌, ◌*◌, ◌/◌, ◌%◌, ◌<◌, ◌≤◌, ◌≡◌, ◌∙◌, inl, inr, refl, sym, subst, Bool, true,
  false, ◌&&◌, Option, some, List, [], ◌∷◌, ◌==◌, ==_self, leb, if◌then◌else◌, update, update_self,
  arith, Bool-cases, Nat-cases, All, count, count_true,
}
use meph_i_semester_4_acos.Kernel.PageAllocator.{
  pgsize, kernbase, phystop, Kmem, junk, kfree, pgroundup, freerange_from, freerange,
}
use meph_i_semester_4_acos.Kernel.PageAllocator.Owners.{IsPage, Chain, Chain-frame}

-- `x` is a page that lies in `[p, vend)` as a whole
abbrev pub is_whole : ℕ → ℕ → ℕ → Bool
is_whole p vend x = x % pgsize == 0 && (leb p x && leb (x + pgsize) vend)

-- a free list of pages below `p`
pub record IsBelow (end p : ℕ) (k : Kmem) (free : List ℕ) : Type 0 where
  pub chain : Chain k.word k.freelist free
  pub pages : All (IsPage end) free
  pub below : All (λ x. x < p) free

absent : (p : ℕ) (free : List ℕ) → All (λ x. x < p) free → count p free ≡ 0
absent p [] h = refl
absent p (x ∷ free) h = let ne : (p == x) ≡ false = ground (arith, h.0) in rw ne (absent p free h.1)

weaken : (p q : ℕ) (free : List ℕ) → p ≤ q → All (λ x. x < p) free → All (λ x. x < q) free
weaken p q [] l h = tt
weaken p q (x ∷ free) l h = (omega (arith, h.0), weaken p q free l h.1)

-- the pages from `p` on are `p` and those behind it
first_page :
    (p vend x n : ℕ)
    → p % pgsize ≡ 0
    → leb (p + pgsize) vend ≡ true
    → (if x == p then suc n else n) + count_true (is_whole (p + pgsize) vend x)
      ≡ n + count_true (is_whole p vend x)
first_page p vend x n z y = elim (Nat-cases x p) [
  | inl e ↦
      let here : is_whole p vend p ≡ true = ground (arith, z, y) in
      let behind : is_whole (p + pgsize) vend p ≡ false = ground arith in
      rw e (rw (==_self p, here, behind) (omega arith))
  | inr ne ↦
      let other : (x == p) ≡ false = ground (arith, ne) in
      let same : is_whole (p + pgsize) vend x ≡ is_whole p vend x = ground (arith, z, ne) in
      rw (other, same) refl
]

abbrev pub Added : ℕ → ℕ → ℕ → Kmem → List ℕ → Option Kmem → Type 0
Added end p vend k free r =
    (k' : Kmem) × (free' : List ℕ) × (r ≡ some k')
    × Chain k'.word k'.freelist free'
    × All (IsPage end) free'
    × ((x : ℕ) → count x free' ≡ count x free + count_true (is_whole p vend x))

kfree-IsBelow :
    (end p : ℕ) (k : Kmem) (free : List ℕ)
    → IsPage end p
    → IsBelow end p k free
    → (k' : Kmem) × (kfree end p k ≡ some k') × IsBelow end (p + pgsize) k' (p ∷ free)
unfolding kfree
kfree-IsBelow end p k free g b =
    let word' = update (junk p k.word) p k.freelist in
    (
      record { word = word'; freelist = p },
      rw g refl,
      record {
        chain = (
          refl,
          subst (λ w. Chain word' w free) (sym (update_self (junk p k.word) p k.freelist))
              (Chain-frame end p k.freelist k.word k.freelist free g b.pages (absent p free b.below)
                b.chain),
        );
        pages = (g, b.pages);
        below = (omega arith, weaken p (p + pgsize) free (omega arith) b.below);
      },
    )

freerange_from-Added :
    (end n p vend : ℕ) (k : Kmem) (free : List ℕ)
    → p % pgsize ≡ 0
    → end ≤ p
    → kernbase ≤ p
    → vend ≤ kernbase + phystop
    → vend < p + suc n * pgsize
    → IsBelow end p k free
    → Added end p vend k free (freerange_from end n p vend k)
unfolding freerange_from
freerange_from-Added end zero p vend k free z e b u f s = (
  k,
  free,
  refl,
  s.chain,
  s.pages,
  λ x. let no_page : is_whole p vend x ≡ false = ground arith in rw no_page (omega arith),
)
freerange_from-Added end (suc n) p vend k free z e b u f s =
    elim (Bool-cases (leb (p + pgsize) vend)) [
      | inr y ↦ rw y (
        k,
        free,
        refl,
        s.chain,
        s.pages,
        λ x. let no_page : is_whole p vend x ≡ false = ground arith in rw no_page (omega arith),
      )
      | inl y ↦
          let g : IsPage end p = ground (arith, z) in
          let (k1, e1, s1) = kfree-IsBelow end p k free g s in
          let (k2, free2, e2, c2, g2, n2) =
            freerange_from-Added end n (p + pgsize) vend k1 (p ∷ free) (omega arith) (omega arith)
              (omega arith) u (omega arith) s1 in
          (k2, free2, rw (y, e1) e2, c2, g2, λ x. n2 x ∙ first_page p vend x (count x free) z y)
    ]

-- For a range of physical memory behind the kernel, and a free list of pages below it: freerange
-- does not panic, and puts each page that lies in the range as a whole on the free list, once, and
-- no other page; the pages that were there stay.
pub freerange-Added :
    (end vstart vend : ℕ) (k : Kmem) (free : List ℕ)
    → end ≤ pgroundup vstart
    → kernbase ≤ pgroundup vstart
    → vend ≤ kernbase + phystop
    → IsBelow end (pgroundup vstart) k free
    → Added end (pgroundup vstart) vend k free (freerange end vstart vend k)
unfolding freerange
freerange-Added end vstart vend k free e b u s =
    freerange_from-Added end (vend / pgsize) (pgroundup vstart) vend k free (omega arith) e b u
      (omega arith) s
