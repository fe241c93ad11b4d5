-- ===== src/Kernel/BufferCache/Lookup.antt =====
-- What bget does keeps the cache coherent.
use meph_i_semester_4_acos.Base.{
  ℕ, ◌+◌, ◌≤◌, ◌≡◌, ◌≢◌, ◌∙◌, inl, inr, refl, sym, subst, false, ◌&&◌, not, Option, none, some,
  List, [], ◌∷◌, reverse, ◌==◌, ==_self, update, update_self, update_ne, arith, Bool-cases,
  Nat-cases, from_some-eq, count-reverse, count,
}
use meph_i_semester_4_acos.Kernel.BufferCache.{Buf, find_cached, find_free, recycle, share, bget}
use meph_i_semester_4_acos.Kernel.BufferCache.Coherent.{System, got, IsCoherent}
use meph_i_semester_4_acos.Kernel.BufferCache.Steps.{same-IsCoherent}

-- what the first loop of bget has found
find_cached-block :
    (order : List ℕ) (dev blockno : ℕ) (buf : ℕ → Buf) (i : ℕ)
    → find_cached order dev blockno buf ≡ some i
    → ((buf i).dev ≡ dev) × ((buf i).blockno ≡ blockno)
unfolding find_cached
find_cached-block [] dev blockno buf i h = absurd (ground (arith, h))
find_cached-block (j ∷ order) dev blockno buf i h =
    elim (Bool-cases ((buf j).dev == dev && (buf j).blockno == blockno)) [
      | inl y ↦
          subst (λ x. ((buf x).dev ≡ dev) × ((buf x).blockno ≡ blockno)) (from_some-eq (rw y at h))
            (ground (arith, y))
      | inr n ↦ find_cached-block order dev blockno buf i (rw n at h)
    ]

-- if it found nothing, no buffer of the list has the block
find_cached-none :
    (order : List ℕ) (dev blockno : ℕ) (buf : ℕ → Buf)
    → find_cached order dev blockno buf ≡ none
    → (i : ℕ) → 1 ≤ count i order
    → (buf i).dev ≡ dev
    → (buf i).blockno ≢ blockno
unfolding find_cached
find_cached-none [] dev blockno buf h i m d = absurd (omega (arith, m))
find_cached-none (j ∷ order) dev blockno buf h i m d =
    elim (Bool-cases ((buf j).dev == dev && (buf j).blockno == blockno)) [
      | inl y ↦ absurd (ground (arith, rw y at h))
      | inr n ↦ elim (Nat-cases i j) [
        | inl e ↦ λ b. ground (arith, n, rw e at d, rw e at b)
        | inr k ↦ find_cached-none order dev blockno buf (rw n at h) i (ground (arith, m, k)) d
      ]
    ]

-- what the second loop has found
find_free-unused :
    (order : List ℕ) (buf : ℕ → Buf) (i : ℕ)
    → find_free order buf ≡ some i
    → ((buf i).refcnt ≡ 0) × ((buf i).dirty ≡ false) × (1 ≤ count i order)
unfolding find_free
find_free-unused [] buf i h = absurd (ground (arith, h))
find_free-unused (j ∷ order) buf i h =
    elim (Bool-cases ((buf j).refcnt == 0 && not (buf j).dirty)) [
      | inl y ↦
          subst (λ x. ((buf x).refcnt ≡ 0) × ((buf x).dirty ≡ false) × (1 ≤ count x (j ∷ order)))
            (from_some-eq (rw y at h))
            (ground (arith, y), ground (arith, y), ground (arith, ==_self j))
      | inr n ↦
          (let (r, d, m) = find_free-unused order buf i (rw n at h) in (r, d, ground (arith, m)))
    ]

-- a buffer that bget recycles
recycle-IsCoherent :
    (s : System) (i blockno : ℕ)
    → IsCoherent s
    → (s.cache.buf i).refcnt ≡ 0
    → (s.cache.buf i).dirty ≡ false
    → 1 ≤ count i s.cache.order
    → ((j : ℕ)
        → 1 ≤ count j s.cache.order
        → (s.cache.buf j).dev ≡ 1
        → (s.cache.buf j).blockno ≢ blockno)
    → (let b : Buf = record (s.cache.buf i) {
      dev = 1;
      blockno = blockno;
      valid = false;
      dirty = false;
      refcnt = 1;
    } in
        IsCoherent
          (record s { cache = record s.cache { buf = update s.cache.buf i b }; held = i ∷ s.held }))
recycle-IsCoherent s i blockno v r c m away =
    let b : Buf = record (s.cache.buf i) {
      dev = 1;
      blockno = blockno;
      valid = false;
      dirty = false;
      refcnt = 1;
    } in
    let self = update_self s.cache.buf i b in
    let other : (j : ℕ) → j ≢ i → update s.cache.buf i b j ≡ s.cache.buf j =
      update_ne s.cache.buf i b in
    let far : (j : ℕ) → (s.cache.buf j).dev ≡ 1 → (s.cache.buf j).blockno ≢ blockno =
      λ j d. away j (v.listed j d) d in
    record {
      counted = λ j. elim (Nat-cases j i) [
        | inl e ↦ rw e (rw self (ground (arith, v.counted i, r, ==_self i)))
        | inr n ↦ rw (other j n) (ground (arith, v.counted j, n))
      ];
      bound = λ j h. elim (Nat-cases j i) [
        | inl e ↦ rw e (rw self refl)
        | inr n ↦ rw (other j n) (v.bound j (ground (arith, h, n)))
      ];
      listed =
          λ j h. elim (Nat-cases j i) [ inl e ↦ rw e m | inr n ↦ v.listed j (rw (other j n) at h) ];
      unique = λ j l h g e. elim (Nat-cases j i) [
        | inl a ↦ elim (Nat-cases l i) [
          | inl x ↦ a ∙ sym x
          | inr n ↦
              absurd
                (far l (rw (other l n) at g) (sym (rw (other l n) at (rw self at (rw a at e)))))
        ]
        | inr n ↦ elim (Nat-cases l i) [
          | inl x ↦
              absurd (far j (rw (other j n) at h) (rw (other j n) at (rw self at (rw x at e))))
          | inr k ↦
              v.unique j l (rw (other j n) at h) (rw (other l k) at g)
                (rw (other l k) at (rw (other j n) at e))
        ]
      ];
      fresh = λ j h g. elim (Nat-cases j i) [
        | inl e ↦ absurd (ground (arith, rw self at (rw e at g)))
        | inr n ↦ rw (other j n) (v.fresh j (rw (other j n) at h) (rw (other j n) at g))
      ];
      backed = λ n. elim (v.backed n) [
        | inl q ↦ inl q
        | inr (j, d, l, y) ↦
            let k : j ≢ i = λ e. ground (arith, c, rw e at y) in
            inr (j, rw (other j k) d, rw (other j k) l, rw (other j k) y)
      ];
      dirty_valid = λ j h. elim (Nat-cases j i) [
        | inl e ↦ absurd (ground (arith, rw self at (rw e at h)))
        | inr n ↦ rw (other j n) (v.dirty_valid j (rw (other j n) at h))
      ];
    }

recycled-IsCoherent :
    (s t : System) (blockno : ℕ) (o : Option ℕ)
    → IsCoherent s
    → find_cached s.cache.order 1 blockno s.cache.buf ≡ none
    → find_free (reverse s.cache.order) s.cache.buf ≡ o
    → got s (recycle 1 blockno o s.cache) ≡ some t
    → IsCoherent t
recycled-IsCoherent s t blockno none v e f h = absurd (ground (arith, h))
recycled-IsCoherent s t blockno (some i) v e f h =
    let (r, d, m) = find_free-unused (reverse s.cache.order) s.cache.buf i f in
    subst IsCoherent (from_some-eq h) (
      recycle-IsCoherent s i blockno v r d (omega (arith, m, count-reverse i s.cache.order))
        (find_cached-none s.cache.order 1 blockno s.cache.buf e))

shared-IsCoherent :
    (s t : System) (blockno : ℕ) (o : Option ℕ)
    → IsCoherent s
    → find_cached s.cache.order 1 blockno s.cache.buf ≡ o
    → got s (share 1 blockno o s.cache) ≡ some t
    → IsCoherent t
shared-IsCoherent s t blockno none v e h =
    recycled-IsCoherent s t blockno (find_free (reverse s.cache.order) s.cache.buf) v e refl h
shared-IsCoherent s t blockno (some i) v e h = subst IsCoherent (from_some-eq h) (
    same-IsCoherent s i ((s.cache.buf i).refcnt + 1) (s.cache.buf i).locked (i ∷ s.held)
      s.cache.order v (find_cached-block s.cache.order 1 blockno s.cache.buf i e).0
      (ground (arith, v.counted i, ==_self i)) (λ j n. ground (arith, n)) (λ j l. l))

pub bget-IsCoherent :
    (s t : System) (blockno : ℕ)
    → IsCoherent s
    → got s (bget 1 blockno s.cache) ≡ some t
    → IsCoherent t
bget-IsCoherent s t blockno v h =
    shared-IsCoherent s t blockno (find_cached s.cache.order 1 blockno s.cache.buf) v refl h
