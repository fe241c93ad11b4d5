-- ===== src/Kernel/Inodes/Consistent.antt =====
-- What the operations on inodes keep.
use meph_i_semester_4_acos.Base.{
  ℕ, ◌≤◌, ◌<◌, ◌≡◌, ◌≢◌, ◌⊎◌, ◌∙◌, inl, inr, sym, ap, ap₂, true, List, arith, Nat-cases, count,
}
use meph_i_semester_4_acos.Kernel.Inodes.{ninode, Dinode, Slot, Icache}

-- The cache, and a handle for each reference that its users have.
pub record System : Type 0 where
  pub cache : Icache
  pub held : List ℕ

-- an inode on disk
abbrev pub on_disk : ℕ → System → Dinode
on_disk i s = s.cache.dinode (s.cache.slot i).dev (s.cache.slot i).inum

pub record IsConsistent (s : System) : Type 0 where
  pub counted : (i : ℕ) → (s.cache.slot i).ref ≡ count i s.held
  pub inside : (i : ℕ) → 1 ≤ count i s.held → i < ninode
  pub unique :
      (i j : ℕ)
      → 1 ≤ count i s.held
      → 1 ≤ count j s.held
      → (s.cache.slot i).dev ≡ (s.cache.slot j).dev
      → (s.cache.slot i).inum ≡ (s.cache.slot j).inum
      → i ≡ j
  pub agrees :
      (i : ℕ)
      → 1 ≤ count i s.held
      → (s.cache.slot i).valid ≡ true
      → ((s.cache.slot i).copy ≡ on_disk i s) × ((s.cache.slot i).copy.type ≢ 0)

-- an entry that changes and keeps its inode, with what may change beside it
pub record Touch (s t : System) (i : ℕ) (b : Slot) : Type 0 where
  pub here : t.cache.slot i ≡ b
  pub there : (j : ℕ) → j ≢ i → t.cache.slot j ≡ s.cache.slot j
  pub was_held : 1 ≤ count i s.held
  pub same_dev : b.dev ≡ (s.cache.slot i).dev
  pub same_inum : b.inum ≡ (s.cache.slot i).inum
  pub refs : b.ref ≡ count i t.held
  pub others : (j : ℕ) → j ≢ i → count j t.held ≡ count j s.held
  pub agree_here :
      b.valid ≡ true
      → (b.copy ≡ t.cache.dinode (s.cache.slot i).dev (s.cache.slot i).inum) × (b.copy.type ≢ 0)
  pub dinode_there :
      (d n : ℕ)
      → (d ≢ (s.cache.slot i).dev) ⊎ (n ≢ (s.cache.slot i).inum)
      → t.cache.dinode d n ≡ s.cache.dinode d n

Touch-dev :
    (s t : System) (i : ℕ) (b : Slot)
    → Touch s t i b
    → (j : ℕ) → (t.cache.slot j).dev ≡ (s.cache.slot j).dev
Touch-dev s t i b k j = elim (Nat-cases j i) [
  | inl e ↦ rw e (rw (k.here) k.same_dev)
  | inr n ↦ ap (λ x. x.dev) (k.there j n)
]

Touch-inum :
    (s t : System) (i : ℕ) (b : Slot)
    → Touch s t i b
    → (j : ℕ) → (t.cache.slot j).inum ≡ (s.cache.slot j).inum
Touch-inum s t i b k j = elim (Nat-cases j i) [
  | inl e ↦ rw e (rw (k.here) k.same_inum)
  | inr n ↦ ap (λ x. x.inum) (k.there j n)
]

Touch-held :
    (s t : System) (i : ℕ) (b : Slot)
    → Touch s t i b
    → (j : ℕ) → 1 ≤ count j t.held
    → 1 ≤ count j s.held
Touch-held s t i b k j h = elim (Nat-cases j i) [
  | inl e ↦ rw e k.was_held
  | inr n ↦ omega (arith, h, k.others j n)
]

-- another entry is for another inode
apart :
    (s : System) (i j : ℕ)
    → IsConsistent s
    → 1 ≤ count i s.held
    → 1 ≤ count j s.held
    → j ≢ i
    → ((s.cache.slot j).dev ≢ (s.cache.slot i).dev)
      ⊎ ((s.cache.slot j).inum ≢ (s.cache.slot i).inum)
apart s i j v h g n = elim (Nat-cases (s.cache.slot j).dev (s.cache.slot i).dev) [
  | inr m ↦ inl m
  | inl d ↦ inr (λ e. n (v.unique j i g h d e))
]

pub Touch-IsConsistent :
    (s t : System) (i : ℕ) (b : Slot) → IsConsistent s → Touch s t i b → IsConsistent t
Touch-IsConsistent s t i b v k = record {
  counted = λ j. elim (Nat-cases j i) [
    | inl e ↦ rw e (rw (k.here) k.refs)
    | inr n ↦ rw (k.there j n) (v.counted j ∙ sym (k.others j n))
  ];
  inside = λ j h. v.inside j (Touch-held s t i b k j h);
  unique = λ j l h g d e.
      v.unique j l (Touch-held s t i b k j h) (Touch-held s t i b k l g)
        (sym (Touch-dev s t i b k j) ∙ d ∙ Touch-dev s t i b k l)
        (sym (Touch-inum s t i b k j) ∙ e ∙ Touch-inum s t i b k l);
  agrees = λ j h y. elim (Nat-cases j i) [
    | inl e ↦
        let (a, z) = k.agree_here (rw (k.here) at (rw e at y)) in
        rw e (
          rw (k.here)
            (a ∙ sym (ap₂ t.cache.dinode (Touch-dev s t i b k i) (Touch-inum s t i b k i)), z))
    | inr n ↦
        let h' = Touch-held s t i b k j h in
        let (a, z) = v.agrees j h' (rw (k.there j n) at y) in
        rw (k.there j n) (
          a
              ∙ sym (
                  k.dinode_there (s.cache.slot j).dev (s.cache.slot j).inum
                    (apart s i j v k.was_held h' n))
              ∙ sym (ap₂ t.cache.dinode (Touch-dev s t i b k j) (Touch-inum s t i b k j)),
          z,
        )
  ];
}
