-- ===== src/Kernel/Blocks/Address.antt =====
-- bmap as a map from block numbers of a file to blocks of the disk.
use meph_i_semester_4_acos.Base.{
  ℕ, ◌-◌, ◌≡◌, ◌≢◌, ◌∙◌, inl, inr, refl, sym, ap, subst, Bool, true, false, some, ◌==◌, ==_self,
  ltb, if◌then◌else◌, update, arith, Bool-cases, Option-cases, from_some-eq, ◌⊎◌,
}
use meph_i_semester_4_acos.Kernel.Blocks.{
  Disk, ndirect, nindirect, balloc, Inode, or_balloc, bmap_word, bmap,
}
use meph_i_semester_4_acos.Kernel.Blocks.Free.{in_use, in_use-claimed, balloc-Allocated, Allocated}

-- the address of block `k` of the file, or 0 where it has none
abbrev pub address : Inode → ℕ → Disk → ℕ
address ip k d =
    if ltb k ndirect
    then ip.addrs k
    else if ip.addrs ndirect == 0
    then 0
    else d.words (ip.addrs ndirect) (k - ndirect)

-- A new block is not 0, is in use, holds zeros, and no block that was in use has changed.
record Fresh (d : Disk) (x : ℕ) (d1 : Disk) : Type 0 where
  nonzero : x ≢ 0
  zeros : (i : ℕ) → d1.words x i ≡ 0
  used : in_use x d1 ≡ true
  kept : (y : ℕ) → in_use y d ≡ true → (in_use y d1 ≡ true) × (d1.words y ≡ d.words y)

balloc-Fresh : (d d1 : Disk) (x : ℕ) → in_use 0 d ≡ true → balloc d ≡ some (x, d1) → Fresh d x d1
balloc-Fresh d d1 x z h =
    let (s, f, e) = subst (Allocated d) h (balloc-Allocated d) in
    let other : (y : ℕ) → in_use y d ≡ true → y ≢ x =
      λ y u q. ground (arith, f, u, ap {B = Bool} (λ k. in_use k d) q) in
    rw e (record {
      nonzero = λ q. other 0 z (sym q);
      zeros = λ i. rw (==_self x) refl;
      used = in_use-claimed x x d ∙ rw (==_self x) refl;
      kept = λ y u.
          let n : (y == x) ≡ false = ground (arith, other y u) in
          (in_use-claimed x y d ∙ rw n u, rw n refl);
    })

-- the address that is there, or a new block
or_balloc-Fresh :
    (addr x : ℕ) (d d1 : Disk)
    → in_use 0 d ≡ true
    → or_balloc addr d ≡ some (x, d1)
    → ((addr ≢ 0) × (x ≡ addr) × (d1 ≡ d)) ⊎ ((addr ≡ 0) × Fresh d x d1)
or_balloc-Fresh addr x d d1 z h = elim (Bool-cases (addr == 0)) [
  | inl y ↦ inr (ground arith, balloc-Fresh d d1 x z (rw y at h))
  | inr n ↦
      let e = from_some-eq (rw n at h) in
      inl (ground arith, sym (ap (λ r. r.0) e), sym (ap (λ r. r.1) e))
]

-- The address found is not 0, and the file has it at `bn` and what it had elsewhere.
abbrev pub Mapped : Inode → ℕ → Disk → ℕ × Inode × Disk → Type 0
Mapped ip bn d (a, ip', d') =
    (a ≢ 0) × ((k : ℕ) → address ip' k d' ≡ (if k == bn then a else address ip k d))

direct-Mapped :
    (ip : Inode) (bn x : ℕ) (d d1 : Disk)
    → ltb bn ndirect ≡ true
    → x ≢ 0
    → d1.words (ip.addrs ndirect) ≡ d.words (ip.addrs ndirect)
    → Mapped ip bn d (x, record ip { addrs = update ip.addrs bn x }, d1)
direct-Mapped ip bn x d d1 y nz w = (
  nz,
  λ k. elim (Bool-cases (k == bn)) [
    | inl q ↦ let e : k ≡ bn = ground arith in rw e (rw (y, ==_self bn) refl)
    | inr n ↦ elim (Bool-cases (ltb k ndirect)) [
      | inl l ↦ rw (l, n) refl
      | inr l ↦ let apart : (ndirect == bn) ≡ false = ground arith in rw (l, n, apart, w) refl
    ]
  ],
)

-- the words of the indirect block behind bmap
bmap_word-words :
    (block i x : ℕ) (d d1 : Disk)
    → in_use 0 d ≡ true
    → in_use block d ≡ true
    → bmap_word block i d ≡ some (x, d1)
    → (x ≢ 0) × ((j : ℕ) → d1.words block j ≡ (if j == i then x else d.words block j))
bmap_word-words block i x d d1 z u h = elim (Bool-cases (d.words block i == 0)) [
  | inr n ↦
      let e = from_some-eq (rw n at h) in
      let ex : x ≡ d.words block i = sym (ap (λ r. r.0) e) in
      let ed : d1 ≡ d = sym (ap (λ r. r.1) e) in
      (
        rw ex (λ q. ground arith),
        λ j.
            rw (ed, ex)
              (elim (Bool-cases (j == i)) [
                | inl q ↦ let same : j ≡ i = ground arith in rw same (rw (==_self i) refl)
                | inr q ↦ rw q refl
              ]),
      )
  | inl y ↦ elim (Option-cases (balloc d)) [
    | inl e ↦ absurd (ground arith)
    | inr ((b, d2), e) ↦
        let f = balloc-Fresh d d2 b z e in
        let q = from_some-eq (rw (y, e) at h) in
        let eb : x ≡ b = sym (ap (λ r. r.0) q) in
        let ed = sym (ap (λ r. r.1) q) in
        (
          rw eb f.nonzero,
          λ j.
              rw (ed, eb)
                (rw (==_self block) (ap (λ g. if j == i then b else g j) ((f.kept block u).1))),
        )
  ]
]

indirect-Mapped :
    (ip : Inode) (bn r a : ℕ) (d d2 : Disk)
    → ltb bn ndirect ≡ false
    → a ≢ 0
    → r ≢ 0
    → ((j : ℕ)
        → d2.words r j ≡ (
            if j == bn - ndirect
            then a
            else if ip.addrs ndirect == 0
            then 0
            else d.words (ip.addrs ndirect) j))
    → Mapped ip bn d (a, record ip { addrs = update ip.addrs ndirect r }, d2)
indirect-Mapped ip bn r a d d2 far na nr w = (
  na,
  λ k. elim (Bool-cases (ltb k ndirect)) [
    | inl l ↦
        let low : (k == ndirect) ≡ false = ground arith in
        let other : (k == bn) ≡ false = ground (arith, far) in rw (l, low, other) refl
    | inr l ↦
        let there : (r == 0) ≡ false = ground (arith, nr) in
        let same : (k - ndirect == bn - ndirect) ≡ (k == bn) = ground (arith, far, l) in
        rw (l, there)
          (w (k - ndirect)
            ∙ ap
                (λ t.
                  if t
                  then a
                  else if ip.addrs ndirect == 0
                  then 0
                  else d.words (ip.addrs ndirect) (k - ndirect))
                same)
  ],
)

-- the indirect block behind or_balloc, and its words
indirect-words :
    (addr r : ℕ) (d d1 : Disk)
    → in_use 0 d ≡ true
    → in_use addr d ≡ true
    → or_balloc addr d ≡ some (r, d1)
    → (r ≢ 0)
      × (in_use 0 d1 ≡ true)
      × (in_use r d1 ≡ true)
      × ((j : ℕ) → d1.words r j ≡ (if addr == 0 then 0 else d.words addr j))
indirect-words addr r d d1 z u h = elim (or_balloc-Fresh addr r d d1 z h) [
  | inl (nz, er, ed) ↦
      let there : (addr == 0) ≡ false = ground (arith, nz) in
      rw (ed, er, there) (nz, z, u, λ j. refl)
  | inr (q, f) ↦
      let new : (addr == 0) ≡ true = ground arith in
      rw new (f.nonzero, (f.kept 0 z).0, f.used, f.zeros)
]

-- Where block 0 and the indirect block are in use, and bmap does not panic: it returns an address
-- other than 0; the file has that address at this place from then on, and everywhere else the
-- address that it had.
pub bmap-Mapped :
    (ip : Inode) (bn : ℕ) (d : Disk) (r : ℕ × Inode × Disk)
    → in_use 0 d ≡ true
    → in_use (ip.addrs ndirect) d ≡ true
    → bmap ip bn d ≡ some r
    → Mapped ip bn d r
unfolding bmap
bmap-Mapped ip bn d r z u h = elim (Bool-cases (ltb bn ndirect)) [
  | inl y ↦ elim (Option-cases (or_balloc (ip.addrs bn) d)) [
    | inl e ↦ absurd (ground arith)
    | inr ((x, d1), e) ↦
        subst (Mapped ip bn d) (from_some-eq (rw (y, e) at h))
          (elim (or_balloc-Fresh (ip.addrs bn) x d d1 z e) [
            | inl (nz, ex, ed) ↦ direct-Mapped ip bn x d d1 y (rw ex nz) (rw ed refl)
            | inr (q, f) ↦ direct-Mapped ip bn x d d1 y f.nonzero ((f.kept (ip.addrs ndirect) u).1)
          ])
  ]
  | inr n ↦ elim (Bool-cases (ltb (bn - ndirect) nindirect)) [
    | inr n' ↦ absurd (ground arith)
    | inl y ↦ elim (Option-cases (or_balloc (ip.addrs ndirect) d)) [
      | inl e ↦ absurd (ground arith)
      | inr ((b, d1), e) ↦ elim (Option-cases (bmap_word b (bn - ndirect) d1)) [
        | inl e' ↦ absurd (ground arith)
        | inr ((x, d2), e') ↦
            let (nb, z1, u1, w1) = indirect-words (ip.addrs ndirect) b d d1 z u e in
            let (nx, w2) = bmap_word-words b (bn - ndirect) x d1 d2 z1 u1 e' in
            subst (Mapped ip bn d) (from_some-eq (rw (n, y, e, e') at h)) (
              indirect-Mapped ip bn b x d d2 n nx nb
                (λ j. w2 j ∙ ap (λ t. if j == bn - ndirect then x else t) (w1 j)))
      ]
    ]
  ]
]
