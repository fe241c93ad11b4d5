-- ===== src/Kernel/PageAllocator/Owners.antt =====
-- A page is on the free list or held, and not both.
use meph_i_semester_4_acos.Base.{
  ℕ, ◌+◌, ◌<◌, ◌≤◌, ◌≡◌, inl, inr, refl, sym, subst, true, false, ◌&&◌, Option, none, some, List,
  [], ◌∷◌, ◌==◌, ==_self, ltb, leb, ltb→lt, if◌then◌else◌, update, update_self, arith, Bool-cases,
  Nat-cases, All, count, release, count-release,
}
use meph_i_semester_4_acos.Kernel.PageAllocator.{pgsize, Kmem, junk, bad_page, kfree, kalloc}

-- a page that kfree accepts; no such page is 0 where the kernel does not end at 0
abbrev pub IsPage : ℕ → ℕ → Type 0
IsPage end v = bad_page end v ≡ false

-- the free list from `p` on is `xs`
abbrev pub Chain : (ℕ → ℕ) → ℕ → List ℕ → Type 0
Chain word p [] = p ≡ 0
Chain word p (x ∷ xs) = (p ≡ x) × Chain word (word x) xs

-- a chain of pages is not touched by what happens in a page that is not in it
pub Chain-frame :
    (end v q : ℕ) (word : ℕ → ℕ) (p : ℕ) (xs : List ℕ)
    → IsPage end v
    → All (IsPage end) xs
    → count v xs ≡ 0
    → Chain word p xs
    → Chain (update (junk v word) v q) p xs
Chain-frame end v q word p [] g h c l = l
Chain-frame end v q word p (x ∷ xs) g h c (e, l) =
    let ne : (x == v) ≡ false = ground arith in
    let c' : count v xs ≡ 0 = ground arith in
    let out : (leb v x && ltb x (v + pgsize)) ≡ false = ground (arith, g, h.0, ne) in
    let same : update (junk v word) v q x ≡ word x = rw (ne, out) refl in
    (
      e,
      subst (λ w. Chain (update (junk v word) v q) w xs) (sym same)
          (Chain-frame end v q word (word x) xs g h.1 c' l),
    )

-- The allocator and the pages that are held.
pub record Owners : Type 0 where
  pub kmem : Kmem
  pub held : List ℕ

pub data Action : Type 0 where
  allocs : Action
  frees : ℕ → Action

abbrev pub given : ℕ × Kmem → List ℕ → Owners
given (r, k) held = record { kmem = k; held = if r == 0 then held else r ∷ held }

abbrev pub taken : ℕ → List ℕ → Option Kmem → Option Owners
taken v held none = none
taken v held (some k) = some (record { kmem = k; held = release v held })

-- Only a page that is held is freed; `none` is a panic.
abbrev pub act : ℕ → Action → Owners → Option Owners
act end allocs o = some (given (kalloc o.kmem) o.held)
act end (frees v) o = if ltb 0 (count v o.held) then taken v o.held (kfree end v o.kmem) else some o

abbrev pub run_after : (Owners → Option Owners) → Option Owners → Option Owners
run_after f none = none
run_after f (some o) = f o

abbrev pub run : ℕ → List Action → Owners → Option Owners
run end [] o = some o
run end (a ∷ acts) o = run_after (run end acts) (act end a o)

-- The free list is `free`; all pages are ones that kfree accepts; and each page `x` is `n x` times
-- on the free list or held.
pub record IsShared (end : ℕ) (n : ℕ → ℕ) (o : Owners) : Type 0 where
  pub free : List ℕ
  pub chain : Chain o.kmem.word o.kmem.freelist free
  pub free_pages : All (IsPage end) free
  pub held_pages : All (IsPage end) o.held
  pub conserved : (x : ℕ) → count x free + count x o.held ≡ n x

All-release : (end v : ℕ) (ps : List ℕ) → All (IsPage end) ps → All (IsPage end) (release v ps)
All-release end v [] h = tt
All-release end v (p ∷ ps) h = elim (Bool-cases (v == p)) [
  | inl y ↦ rw y h.1
  | inr z ↦ rw z (h.0, All-release end v ps h.1)
]

held-IsPage : (end v : ℕ) (ps : List ℕ) → All (IsPage end) ps → 0 < count v ps → IsPage end v
held-IsPage end v [] h c = absurd (omega arith)
held-IsPage end v (p ∷ ps) h c = elim (Bool-cases (v == p)) [
  | inl y ↦ let e : v ≡ p = ground arith in rw e h.0
  | inr z ↦ held-IsPage end v ps h.1 (rw z at c)
]

act-IsShared :
    (end : ℕ) (n : ℕ → ℕ) (a : Action) (o : Owners)
    → 0 < end
    → ((x : ℕ) → n x ≤ 1)
    → IsShared end n o
    → (o' : Owners) × (act end a o ≡ some o') × IsShared end n o'
unfolding kalloc kfree
act-IsShared end n allocs o b one s = after s.free s.chain s.free_pages s.conserved
  where
    after :
        (free : List ℕ)
        → Chain o.kmem.word o.kmem.freelist free
        → All (IsPage end) free
        → ((x : ℕ) → count x free + count x o.held ≡ n x)
        → (o' : Owners) × (act end allocs o ≡ some o') × IsShared end n o'
    after [] c g k =
        let z : (o.kmem.freelist == 0) ≡ true = ground arith in
        (
          given (kalloc o.kmem) o.held,
          refl,
          record {
            free = [];
            chain = rw z refl;
            free_pages = tt;
            held_pages = rw z s.held_pages;
            conserved = λ x. rw z (k x);
          },
        )
    after (x ∷ free) (e, c) g k =
        let z : (o.kmem.freelist == 0) ≡ false = ground (arith, g.0, b) in
        (
          given (kalloc o.kmem) o.held,
          refl,
          record {
            free = free;
            chain = rw z (subst (λ w. Chain o.kmem.word (o.kmem.word w) free) (sym e) c);
            free_pages = g.1;
            held_pages = rw z (subst (IsPage end) (sym e) g.0, s.held_pages);
            conserved = λ q. rw (z, e) (ground (arith, k q));
          },
        )
act-IsShared end n (frees v) o b one s = elim (Bool-cases (ltb 0 (count v o.held))) [
  | inr z ↦ rw z (o, refl, s)
  | inl y ↦
      let g = held-IsPage end v o.held s.held_pages (ground arith) in
      let absent : count v s.free ≡ 0 =
        omega (arith, s.conserved v, one v, ltb→lt 0 (count v o.held) y) in
      rw (y, g)
        (
          _,
          refl,
          record {
            free = v ∷ s.free;
            chain = (
              refl,
              subst (λ w. Chain (update (junk v o.kmem.word) v o.kmem.freelist) w s.free)
                  (sym (update_self (junk v o.kmem.word) v o.kmem.freelist))
                  (Chain-frame end v o.kmem.freelist o.kmem.word o.kmem.freelist s.free g
                    s.free_pages absent s.chain),
            );
            free_pages = (g, s.free_pages);
            held_pages = All-release end v o.held s.held_pages;
            conserved = λ x. elim (Nat-cases x v) [
              | inl e ↦
                  rw e (rw (==_self v) (ground (arith, count-release v v o.held, s.conserved v, y)))
              | inr ne ↦ ground (arith, count-release v x o.held, s.conserved x, ne)
            ];
          },
        )
]

-- Where each page is at most once on the free list or held, and holders free only what they hold:
-- no kfree panics, in any order of kalloc and kfree; each page stays as often on the free list or
-- held as it was, so none is given out twice, and none is lost; and the free list stays whole,
-- though it runs through the pages.
pub run-IsShared :
    (end : ℕ) (n : ℕ → ℕ) (acts : List Action) (o : Owners)
    → 0 < end
    → ((x : ℕ) → n x ≤ 1)
    → IsShared end n o
    → (o' : Owners) × (run end acts o ≡ some o') × IsShared end n o'
run-IsShared end n [] o b one s = (o, refl, s)
run-IsShared end n (a ∷ acts) o b one s =
    let (o1, e1, s1) = act-IsShared end n a o b one s in
    let (o2, e2, s2) = run-IsShared end n acts o1 b one s1 in (o2, rw e1 e2, s2)
