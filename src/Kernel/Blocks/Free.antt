-- ===== src/Kernel/Blocks/Free.antt =====
-- The free map: which blocks balloc gives and bfree takes.
use meph_i_semester_4_acos.Base.{
  ℕ, zero, suc, ◌+◌, ◌-◌, ◌*◌, ◌/◌, ◌%◌, ◌<◌, ◌≤◌, ◌≡◌, ◌∙◌, inl, inr, refl, sym, ap, ap₂, Bool,
  true, false, Option, none, some, ◌==◌, ==_self, ltb, if◌then◌else◌, arith, Bool-cases, Nat-cases,
  Option-cases, from_some-eq, subst, ◌⊎◌,
}
use meph_i_semester_4_acos.Kernel.Blocks.{
  Disk, bpb, bblock, bit, mark, log_write, bzero, scan_bits, balloc_from, balloc, bfree,
}

-- block `x` is marked in the map
abbrev pub in_use : ℕ → Disk → Bool
in_use x d = bit (bblock x d) (x % bpb) d

-- a change of the bit of `x` changes that bit alone
in_use-mark :
    (x y : ℕ) (v : Bool) (d : Disk)
    → in_use y (mark (bblock x d) (x % bpb) v d) ≡ (if y == x then v else in_use y d)
in_use-mark x y v d = elim (Bool-cases (y == x)) [
  | inl e ↦
      let q : y ≡ x = ground arith in
      rw (e, q) (rw (==_self (bblock x d), ==_self (x % bpb / 8), ==_self (x % bpb % 8)) refl)
  | inr n ↦ rw n (elim (Bool-cases (bblock y d == bblock x d)) [
    | inr a ↦ rw a refl
    | inl a ↦
        let same_block : bblock y d ≡ bblock x d = ground arith in
        rw a (elim (Bool-cases (y % bpb / 8 == x % bpb / 8)) [
          | inr b ↦ rw b (ap (λ k. d.map k (y % bpb / 8) (y % bpb % 8)) (sym same_block))
          | inl b ↦
              let same_byte : y % bpb / 8 ≡ x % bpb / 8 = ground arith in
              let other_bit : (y % bpb % 8 == x % bpb % 8) ≡ false = ground (arith, n) in
              rw (b, other_bit)
                (ap₂ (λ k q. d.map k q (y % bpb % 8)) (sym same_block) (sym same_byte))
        ])
  ])
]

scan_bits-some :
    (n b bi k : ℕ) (d : Disk)
    → scan_bits n b bi d ≡ some k
    → (bit (bblock b d) k d ≡ false) × (b + k < d.size) × (k < bi + n)
unfolding scan_bits
scan_bits-some zero b bi k d h = absurd (ground arith)
scan_bits-some (suc n) b bi k d h = elim (Bool-cases (ltb (b + bi) d.size)) [
  | inr z ↦ absurd (ground arith)
  | inl y ↦ elim (Bool-cases (bit (bblock b d) bi d)) [
    | inr f ↦
        let e : bi ≡ k = from_some-eq (rw (y, f) at h) in (rw e at f, ground arith, omega arith)
    | inl f ↦
        let (a, c, l) = scan_bits-some n b (bi + 1) k d (rw (y, f) at h) in (a, c, omega arith)
  ]
]

scan_bits-none :
    (n b bi k : ℕ) (d : Disk)
    → scan_bits n b bi d ≡ none
    → bi ≤ k
    → k < bi + n
    → b + k < d.size
    → bit (bblock b d) k d ≡ true
unfolding scan_bits
scan_bits-none zero b bi k d h l u z = absurd (omega arith)
scan_bits-none (suc n) b bi k d h l u z =
    let y : ltb (b + bi) d.size ≡ true = ground arith in
    elim (Bool-cases (bit (bblock b d) bi d)) [
      | inr f ↦ absurd (ground arith)
      | inl f ↦ elim (Nat-cases bi k) [
        | inl e ↦ rw e at f
        | inr ne ↦ scan_bits-none n b (bi + 1) k d (rw (y, f) at h) (omega arith) (omega arith) z
      ]
    ]

abbrev pub claimed : ℕ → Disk → Disk
claimed x d = bzero x (log_write (bblock x d) (mark (bblock x d) (x % bpb) true d))

-- the panic only where every block is in use; otherwise a free block
abbrev pub Allocated : Disk → Option (ℕ × Disk) → Type 0
Allocated d none = (x : ℕ) → x < d.size → in_use x d ≡ true
Allocated d (some (x, d')) = (x < d.size) × (in_use x d ≡ false) × (d' ≡ claimed x d)

abbrev From : ℕ → ℕ → Disk → Option (ℕ × Disk) → Type 0
From n b d none = (x : ℕ) → b ≤ x → x < b + n * bpb → x < d.size → in_use x d ≡ true
From n b d (some (x, d')) = (x < d.size) × (in_use x d ≡ false) × (d' ≡ claimed x d)

-- a block of the map whose bits are all set, in front of the others
extend :
    (n b : ℕ) (d : Disk) (r : Option (ℕ × Disk))
    → b % bpb ≡ 0
    → scan_bits bpb b 0 d ≡ none
    → From n (b + bpb) d r
    → From (suc n) b d r
extend n b d (some r) z e h = h
extend n b d none z e h = λ x l u s. elim (Bool-cases (ltb x (b + bpb))) [
  | inr q ↦ h x (ground arith) (omega arith) s
  | inl q ↦
      let same_block : b / bpb ≡ x / bpb = ground (arith, z) in
      let same_bit : x - b ≡ x % bpb = ground (arith, z) in
      let inside : b + (x - b) < d.size = omega arith in
      let f : bit (bblock b d) (x - b) d ≡ true =
        scan_bits-none bpb b 0 (x - b) d e (omega arith) (ground arith) inside in
      rw (same_bit, same_block) at f
]

balloc_from-From : (n b : ℕ) (d : Disk) → b % bpb ≡ 0 → From n b d (balloc_from n b d)
unfolding balloc_from
balloc_from-From zero b d z = λ x l u s. absurd (omega arith)
balloc_from-From (suc n) b d z = elim (Bool-cases (ltb b d.size)) [
  | inr q ↦ rw q (λ x l u s. absurd (ground arith))
  | inl q ↦ rw q (elim (Option-cases (scan_bits bpb b 0 d)) [
    | inr (bi, e) ↦
        let (f, s, l) = scan_bits-some bpb b 0 bi d e in
        let same_block : b / bpb ≡ (b + bi) / bpb = omega arith in
        let same_bit : bi ≡ (b + bi) % bpb = omega arith in
        rw e (
          s,
          rw (same_bit, same_block) at f,
          ap₂ (λ c k. bzero (b + bi) (log_write c (mark c k true d)))
              (ap (λ c. c + d.bmapstart) same_block) same_bit,
        )
    | inl e ↦ rw e (
        extend n b d (balloc_from n (b + bpb) d) z e (balloc_from-From n (b + bpb) d (omega arith)))
  ])
]

-- balloc gives a block of the disk that was free, marks that block in the free map and no other,
-- and fills it with 0, writing the two blocks through the log; it panics only where every block of
-- the disk is in use.
pub balloc-Allocated : (d : Disk) → Allocated d (balloc d)
unfolding balloc
balloc-Allocated d =
    settle (balloc_from (d.size / bpb + 1) 0 d)
      (balloc_from-From (d.size / bpb + 1) 0 d (omega arith))
  where
    settle : (r : Option (ℕ × Disk)) → From (d.size / bpb + 1) 0 d r → Allocated d r
    settle none h = λ x s. h x (omega arith) (omega arith) s
    settle (some r) h = h

pub in_use-claimed :
    (x y : ℕ) (d : Disk) → in_use y (claimed x d) ≡ (if y == x then true else in_use y d)
in_use-claimed x y d = in_use-mark x y true d

-- After a balloc, a bfree of its block does not panic, and every block is in use as it was before.
pub bfree-balloc :
    (d d' : Disk) (x : ℕ)
    → balloc d ≡ some (x, d')
    → (d'' : Disk) × (bfree x d' ≡ some d'') × ((y : ℕ) → in_use y d'' ≡ in_use y d)
unfolding bfree
bfree-balloc d d' x h =
    let (s, f, e) = subst (Allocated d) h (balloc-Allocated d) in
    let marked : in_use x d' ≡ true = rw e (in_use-claimed x x d ∙ rw (==_self x) refl) in
    let block = bblock x d' in
    (
      log_write block (mark block (x % bpb) false d'),
      rw marked refl,
      λ y. in_use-mark x y false d' ∙ elim (Bool-cases (y == x)) [
        | inl q ↦ let same : y ≡ x = ground arith in rw (q, same) (sym f)
        | inr n ↦ rw n (rw e (in_use-claimed x y d ∙ rw n refl))
      ],
    )

-- bfree panics exactly where the block is free; otherwise it clears the mark of that block alone.
pub bfree-marks :
    (b : ℕ) (d : Disk)
    → ((bfree b d ≡ none) × (in_use b d ≡ false))
      ⊎ ((d' : Disk) × (bfree b d ≡ some d')
          × ((y : ℕ) → in_use y d' ≡ (if y == b then false else in_use y d)))
unfolding bfree
bfree-marks b d = elim (Bool-cases (in_use b d)) [
  | inr n ↦ inl (rw n refl, n)
  | inl y ↦ inr (
    log_write (bblock b d) (mark (bblock b d) (b % bpb) false d),
    rw y refl,
    λ z. in_use-mark b z false d,
  )
]
