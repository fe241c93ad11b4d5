-- ===== src/Kernel/Inodes/Lookup.antt =====
-- What iget and ialloc do keeps the inode cache consistent.
use meph_i_semester_4_acos.Base.{
  ℕ, zero, suc, ◌+◌, ◌≤◌, ◌<◌, ◌≡◌, ◌≢◌, ◌∙◌, inl, inr, refl, sym, subst, ap, ap₂, false, Option,
  none, some, ◌∷◌, ◌==◌, ==_self, update, update_self, update_ne, arith, Bool-cases, Nat-cases,
  from_some-eq, count,
}
use meph_i_semester_4_acos.Kernel.Inodes.{
  ninode, Dinode, Slot, Icache, Found, hit, miss, iget_from, iget_at, iget, set_dinode, ialloc_from,
  fresh_dinode,
}
use meph_i_semester_4_acos.Kernel.Inodes.Consistent.{System, IsConsistent}
use meph_i_semester_4_acos.Kernel.Inodes.Entries.{hit-entry, miss-entry, miss-Empty}
use meph_i_semester_4_acos.Kernel.Inodes.Steps.{same-IsConsistent, set_dinode_ne}

abbrev pub got : System → Option (ℕ × Icache) → Option System
got s none = none
got s (some (i, c)) = some (record { cache = c; held = i ∷ s.held })

-- an empty entry that iget takes for an inode that has none
fill-IsConsistent :
    (s : System) (i dev inum : ℕ)
    → IsConsistent s
    → (s.cache.slot i).ref ≡ 0
    → i < ninode
    → ((j : ℕ) → 1 ≤ count j s.held → (s.cache.slot j).dev ≡ dev → (s.cache.slot j).inum ≢ inum)
    → IsConsistent (record {
      cache = record s.cache {
        slot =
            update s.cache.slot i
              (record (s.cache.slot i) { dev = dev; inum = inum; ref = 1; valid = false });
      };
      held = i ∷ s.held;
    })
fill-IsConsistent s i dev inum v r l far =
    let b : Slot = record (s.cache.slot i) { dev = dev; inum = inum; ref = 1; valid = false } in
    let self = update_self s.cache.slot i b in
    let other : (j : ℕ) → j ≢ i → update s.cache.slot i b j ≡ s.cache.slot j =
      update_ne s.cache.slot i b in
    record {
      counted = λ j. elim (Nat-cases j i) [
        | inl e ↦ rw e (rw self (ground (arith, v.counted i, r, ==_self i)))
        | inr n ↦ rw (other j n) (ground (arith, v.counted j, n))
      ];
      inside = λ j h. elim (Nat-cases j i) [
        | inl e ↦ rw e l
        | inr n ↦ v.inside j (ground (arith, h, n))
      ];
      unique = λ j k h g d e. elim (Nat-cases j i) [
        | inl a ↦ elim (Nat-cases k i) [
          | inl x ↦ a ∙ sym x
          | inr n ↦ absurd (
              far k (ground (arith, g, n)) (sym (rw (other k n) at (rw self at (rw a at d))))
                (sym (rw (other k n) at (rw self at (rw a at e)))))
        ]
        | inr n ↦ elim (Nat-cases k i) [
          | inl x ↦ absurd (
              far j (ground (arith, h, n)) (rw (other j n) at (rw self at (rw x at d)))
                (rw (other j n) at (rw self at (rw x at e))))
          | inr m ↦
              v.unique j k (ground (arith, h, n)) (ground (arith, g, m))
                (rw (other k m) at (rw (other j n) at d)) (rw (other k m) at (rw (other j n) at e))
        ]
      ];
      agrees = λ j h y. elim (Nat-cases j i) [
        | inl e ↦ absurd (ground (arith, rw self at (rw e at y)))
        | inr n ↦ rw (other j n) (v.agrees j (ground (arith, h, n)) (rw (other j n) at y))
      ];
    }

iget_at-IsConsistent :
    (s t : System) (dev inum : ℕ) (f : Found)
    → IsConsistent s
    → iget_from ninode 0 none dev inum s.cache.slot ≡ f
    → got s (iget_at f dev inum s.cache) ≡ some t
    → IsConsistent t
iget_at-IsConsistent s t dev inum (hit i) v e h =
    let (p, d, n) = hit-entry ninode 0 dev inum i none s.cache.slot e in
    subst IsConsistent (from_some-eq h) (
      same-IsConsistent s i ((s.cache.slot i).ref + 1) (s.cache.slot i).locked (i ∷ s.held) v
        (omega (arith, p, v.counted i)) (ground (arith, v.counted i, ==_self i))
        (λ j m. ground (arith, m)))
iget_at-IsConsistent s t dev inum (miss none) v e h = absurd (ground (arith, h))
iget_at-IsConsistent s t dev inum (miss (some i)) v e h =
    let (z, l) =
      miss-Empty ninode 0 dev inum ninode none (some i) s.cache.slot e (omega arith) tt in
    subst IsConsistent (from_some-eq h) (
      fill-IsConsistent s i dev inum v z l (λ j k d.
        miss-entry ninode 0 dev inum none (some i) s.cache.slot e j (omega arith) (v.inside j k)
          (omega (arith, k, v.counted j)) d))

pub iget-IsConsistent :
    (s t : System) (dev inum : ℕ)
    → IsConsistent s
    → got s (iget dev inum s.cache) ≡ some t
    → IsConsistent t
iget-IsConsistent s t dev inum v h =
    iget_at-IsConsistent s t dev inum (iget_from ninode 0 none dev inum s.cache.slot) v refl h

-- an inode that ialloc takes: it is free on disk, so no entry has it
fresh-IsConsistent :
    (s : System) (dev inum : ℕ) (x : Dinode)
    → IsConsistent s
    → (s.cache.dinode dev inum).type ≡ 0
    → IsConsistent (record s { cache = set_dinode dev inum x s.cache })
fresh-IsConsistent s dev inum x v z = record {
  counted = v.counted;
  inside = v.inside;
  unique = v.unique;
  agrees = λ i h y.
      let (a, n) = v.agrees i h y in
      (
        a
            ∙ sym (
                set_dinode_ne s.cache.dinode dev inum x (s.cache.slot i).dev (s.cache.slot i).inum
                  (elim (Nat-cases (s.cache.slot i).dev dev) [
                    | inr m ↦ inl m
                    | inl d ↦
                        inr (λ e. n (ap (λ (w : Dinode). w.type) (a ∙ ap₂ s.cache.dinode d e) ∙ z))
                  ])),
        n,
      );
}

pub ialloc-IsConsistent :
    (n inum dev type : ℕ) (s t : System)
    → IsConsistent s
    → got s (ialloc_from n inum dev type s.cache) ≡ some t
    → IsConsistent t
unfolding ialloc_from
ialloc-IsConsistent zero inum dev type s t v h = absurd (ground (arith, h))
ialloc-IsConsistent (suc n) inum dev type s t v h =
    elim (Bool-cases ((s.cache.dinode dev inum).type == 0)) [
      | inl y ↦
          iget-IsConsistent (record s { cache = set_dinode dev inum (fresh_dinode type) s.cache }) t
            dev inum (fresh-IsConsistent s dev inum (fresh_dinode type) v (ground (arith, y)))
            (simp y at h)
      | inr m ↦ ialloc-IsConsistent n (inum + 1) dev type s t v (simp m at h)
    ]
