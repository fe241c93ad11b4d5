-- ===== src/HugeArray/Pages.antt =====
-- One page is mapped at most, and what is read is the root.
use meph_i_semester_4_acos.Base.{
  ℕ, zero, suc, ◌+◌, ◌-◌, ◌*◌, ◌/◌, ◌%◌, ◌≤◌, ◌<◌, ◌≡◌, ◌≢◌, ◌∙◌, inl, inr, refl, ap, true, false,
  ◌||◌, some, ◌==◌, ltb, leb, update, update_self, update_ne, arith, Bool-cases, Nat-cases,
  guard-none,
}
use meph_i_semester_4_acos.HugeArray.{
  page_size, Memory, page_of, calculate_sqrts, drop_page, fill_page, load_cell, read_sqrt,
}

module _ (sqrt : ℕ → ℕ) (sqrts max_sqrts : ℕ) where
  -- at most the previous page is mapped, and it holds the roots of its indices
  pub record IsFilled (m : Memory) : Type 0 where
    pub one : (p : ℕ) → m.mapped p ≡ true → (p ≡ m.prev_page) × (p ≢ 0)
    pub roots :
        (pos : ℕ)
        → m.mapped (page_of (sqrts + 8 * pos)) ≡ true
        → m.cell (sqrts + 8 * pos) ≡ sqrt pos

  -- the doubles before index `i` stay, and those from there on are roots
  before :
      (n i page start : ℕ) (cell : ℕ → ℕ) (j : ℕ)
      → j < i
      → calculate_sqrts sqrt sqrts max_sqrts n i page start cell (page + 8 * j)
        ≡ cell (page + 8 * j)
  unfolding calculate_sqrts
  before zero i page start cell j h = refl
  before (suc n) i page start cell j h =
      before n (i + 1) page start (update cell (page + 8 * i) (sqrt (start + i))) j
        (omega (arith, h))
      ∙ update_ne cell (page + 8 * i) (sqrt (start + i)) (page + 8 * j) (λ e. omega (arith, e, h))

  filled :
      (n i page start : ℕ) (cell : ℕ → ℕ) (j : ℕ)
      → i ≤ j
      → j < i + n
      → calculate_sqrts sqrt sqrts max_sqrts n i page start cell (page + 8 * j) ≡ sqrt (start + j)
  unfolding calculate_sqrts
  filled zero i page start cell j h k = absurd (omega (arith, h, k))
  filled (suc n) i page start cell j h k = elim (Nat-cases j i) [
    | inl e ↦ rw e (
        before n (i + 1) page start (update cell (page + 8 * i) (sqrt (start + i))) i (omega arith)
        ∙ update_self cell (page + 8 * i) (sqrt (start + i)))
    | inr m ↦
        filled n (i + 1) page start (update cell (page + 8 * i) (sqrt (start + i))) j
          (omega (arith, h, m)) (omega (arith, k))
  ]

  -- nothing is mapped once the previous page is gone
  drop_page-none :
      (m : Memory) → IsFilled m → (p : ℕ) → (drop_page sqrt sqrts max_sqrts m).mapped p ≡ false
  drop_page-none m v p = elim (Bool-cases (m.prev_page == 0)) [
    | inl y ↦ rw y (elim (Bool-cases (m.mapped p)) [
      | inl k ↦ absurd (ground (arith, y, v.one p k))
      | inr k ↦ k
    ])
    | inr n ↦ rw n (elim (Nat-cases p m.prev_page) [
      | inl e ↦ rw e (update_self m.mapped m.prev_page false)
      | inr k ↦
          update_ne m.mapped m.prev_page false p k
          ∙ elim (Bool-cases (m.mapped p)) [ inl l ↦ absurd (k (v.one p l).0) | inr l ↦ l ]
    ])
  ]

  fill_page-IsFilled :
      (m : Memory) (pos : ℕ)
      → sqrts % page_size ≡ 0
      → 0 < sqrts
      → ((p : ℕ) → m.mapped p ≡ false)
      → IsFilled (fill_page sqrt sqrts max_sqrts (page_of (sqrts + 8 * pos)) m)
  fill_page-IsFilled m pos a z none_mapped = record {
    one = λ p h. elim (Nat-cases p (page_of (sqrts + 8 * pos))) [
      | inl e ↦ (e, λ q. omega (arith, e, q, a, z))
      | inr n ↦ absurd (
          ground (arith, h, update_ne m.mapped (page_of (sqrts + 8 * pos)) true p n, none_mapped p))
    ];
    roots = λ j h. elim (Nat-cases (page_of (sqrts + 8 * j)) (page_of (sqrts + 8 * pos))) [
      | inl e ↦
          let page = page_of (sqrts + 8 * pos) in
          let start = (page_size * (page / page_size) - sqrts) / 8 in
          let i = j - start in
          let here : sqrts + 8 * j ≡ page + 8 * i = omega (arith, e, a) in
          let index : start + i ≡ j = omega (arith, e, a) in
          ap (calculate_sqrts sqrt sqrts max_sqrts 512 0 page start m.cell) here
          ∙ filled 512 0 page start m.cell i (omega arith) (omega (arith, e, a))
          ∙ ap sqrt index
      | inr n ↦ absurd (
          ground (
            arith,
            h,
            update_ne m.mapped (page_of (sqrts + 8 * pos)) true (page_of (sqrts + 8 * j)) n,
            none_mapped (page_of (sqrts + 8 * j)),
          ))
    ];
  }

  -- For an array at a page's address above 0: where at most the previous page is mapped, with the roots
  -- of its indices, a read of any index of the array gives its root, if mmap and munmap succeed in the
  -- handler; and again at most one page is mapped, with the roots of its indices.
  pub read_sqrt-IsFilled :
      (m : Memory) (pos : ℕ)
      → sqrts % page_size ≡ 0
      → 0 < sqrts
      → pos < max_sqrts
      → IsFilled m
      → (t : Memory) × (read_sqrt sqrt sqrts max_sqrts pos m ≡ some (sqrt pos, t)) × IsFilled t
  read_sqrt-IsFilled m pos a z l v = elim (Bool-cases (m.mapped (page_of (sqrts + 8 * pos)))) [
    | inl y ↦ (m, rw y (ap (λ x. some (x, m)) (v.roots pos y)), v)
    | inr n ↦
        let addr = sqrts + 8 * pos in
        let t = fill_page sqrt sqrts max_sqrts (page_of addr) (drop_page sqrt sqrts max_sqrts m) in
        let w =
          fill_page-IsFilled (drop_page sqrt sqrts max_sqrts m) pos a z (drop_page-none m v) in
        let inside : ltb addr sqrts || leb (sqrts + 8 * max_sqrts) addr ≡ false =
          ground (arith, l) in
        (
          t,
          rw n (
              ap (load_cell sqrt sqrts max_sqrts addr)
                (guard-none (ltb addr sqrts || leb (sqrts + 8 * max_sqrts) addr) inside)
              ∙ ap (λ x. some (x, t))
                  (w.roots pos
                    (update_self (drop_page sqrt sqrts max_sqrts m).mapped (page_of addr) true))),
          w,
        )
  ]
