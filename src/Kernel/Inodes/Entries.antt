-- ===== src/Kernel/Inodes/Entries.antt =====
-- The entries of the inode cache: one for an inode, counted, and with the contents of the disk.
use meph_i_semester_4_acos.Base.{
  ℕ, zero, suc, ◌+◌, ◌≤◌, ◌<◌, ◌≡◌, ◌≢◌, inl, inr, sym, subst, ap, ◌&&◌, Option, none, some, ◌==◌,
  ltb, arith, Bool-cases, Nat-cases,
}
use meph_i_semester_4_acos.Kernel.Inodes.{Slot, hit, miss, first_empty, iget_from}

from_hit-eq : {i j : ℕ} → hit i ≡ hit j → i ≡ j
from_hit-eq {i = i} e = ap (λ f. elim f [ hit k ↦ k | miss o ↦ i ]) e

from_miss-eq : {o p : Option ℕ} → miss o ≡ miss p → o ≡ p
from_miss-eq {o = o} e = ap (λ f. elim f [ hit k ↦ o | miss q ↦ q ]) e

-- what the loop of iget has found
pub hit-entry :
    (n i dev inum j : ℕ) (e : Option ℕ) (slot : ℕ → Slot)
    → iget_from n i e dev inum slot ≡ hit j
    → (1 ≤ (slot j).ref) × ((slot j).dev ≡ dev) × ((slot j).inum ≡ inum)
unfolding iget_from
hit-entry zero i dev inum j e slot h = absurd (ground (arith, h))
hit-entry (suc n) i dev inum j e slot h =
    elim (Bool-cases (ltb 0 (slot i).ref && ((slot i).dev == dev && (slot i).inum == inum))) [
      | inl y ↦
          let q : i ≡ j = from_hit-eq (rw y at h) in
          subst (λ k. (1 ≤ (slot k).ref) × ((slot k).dev ≡ dev) × ((slot k).inum ≡ inum)) q
            (ground (arith, y), ground (arith, y), ground (arith, y))
      | inr m ↦ hit-entry n (i + 1) dev inum j (first_empty e i (slot i).ref) slot (rw m at h)
    ]

-- if it found no entry for the inode, there is none
pub miss-entry :
    (n i dev inum : ℕ) (e r : Option ℕ) (slot : ℕ → Slot)
    → iget_from n i e dev inum slot ≡ miss r
    → (j : ℕ) → i ≤ j
    → j < i + n
    → 1 ≤ (slot j).ref
    → (slot j).dev ≡ dev
    → (slot j).inum ≢ inum
unfolding iget_from
miss-entry zero i dev inum e r slot h j l k p d q = absurd (omega (arith, l, k))
miss-entry (suc n) i dev inum e r slot h j l k p d q =
    elim (Bool-cases (ltb 0 (slot i).ref && ((slot i).dev == dev && (slot i).inum == inum))) [
      | inl y ↦ absurd (ground (arith, rw y at h))
      | inr m ↦ elim (Nat-cases i j) [
        | inl a ↦ absurd (ground (arith, m, rw (sym a) at p, rw (sym a) at d, rw (sym a) at q))
        | inr a ↦
            miss-entry n (i + 1) dev inum (first_empty e i (slot i).ref) r slot (rw m at h) j
              (omega (arith, l, a)) (omega (arith, k)) p d q
      ]
    ]

-- the empty entry that it remembers
abbrev pub Empty : (ℕ → Slot) → ℕ → Option ℕ → Type 0
Empty slot n none = Unit
Empty slot n (some k) = ((slot k).ref ≡ 0) × (k < n)

first_empty-Empty :
    (slot : ℕ → Slot) (n i : ℕ) (e : Option ℕ)
    → i < n
    → Empty slot n e
    → Empty slot n (first_empty e i (slot i).ref)
first_empty-Empty slot n i none l h = elim (Bool-cases ((slot i).ref == 0)) [
  | inl y ↦ rw y (ground (arith, y), l)
  | inr m ↦ rw m tt
]
first_empty-Empty slot n i (some k) l h = h

pub miss-Empty :
    (n i dev inum m : ℕ) (e r : Option ℕ) (slot : ℕ → Slot)
    → iget_from n i e dev inum slot ≡ miss r
    → i + n ≤ m
    → Empty slot m e
    → Empty slot m r
unfolding iget_from
miss-Empty zero i dev inum m e r slot h l a = subst (Empty slot m) (from_miss-eq h) a
miss-Empty (suc n) i dev inum m e r slot h l a =
    elim (Bool-cases (ltb 0 (slot i).ref && ((slot i).dev == dev && (slot i).inum == inum))) [
      | inl y ↦ absurd (ground (arith, rw y at h))
      | inr k ↦
          miss-Empty n (i + 1) dev inum m (first_empty e i (slot i).ref) r slot (rw k at h)
            (omega (arith, l)) (first_empty-Empty slot m i e (omega (arith, l)) a)
    ]
