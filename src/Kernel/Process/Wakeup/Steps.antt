-- ===== src/Kernel/Process/Wakeup/Steps.antt =====
-- fork keeps the table valid.
use meph_i_semester_4_acos.Base.{
  ℕ, ◌≡◌, ◌≢◌, ◌⊎◌, inl, inr, refl, ap, Bool, true, false, ◌&&◌, Option, none, some, ◌==◌, ==_self,
  is_some, arith, Option-cases, List, [], ◌∷◌,
}
use meph_i_semester_4_acos.Kernel.Process.{
  nproc, Procstate, is_unused, is_running, embryo, Proc, Table, find, fork, fork_after, found,
  fork_into, allocproc,
}
use meph_i_semester_4_acos.Kernel.Process.Kin.{find-some, IsValid, Fits, write-IsValid}

-- Neither the free list nor the next pid matters.
pub renumbered :
    (t : Table) (n : ℕ) (free : List ℕ)
    → IsValid t
    → IsValid (record t { nextpid = n; free = free })
renumbered t n free v = record {
  no_lost = v.no_lost;
  orphan = v.orphan;
  proper = v.proper;
  root = v.root;
}

-- An unused entry stays unused, or becomes the embryo that is returned.
abbrev Found : ℕ → Table → Table × Option ℕ → Type 0
Found i t (t', none) = IsValid t'
Found i t (t', some k) =
    (k ≡ i)
    × IsValid t'
    × (is_unused (t.proc i).state ≡ true)
    × ((t'.proc i).parent ≡ none)
    × (t'.initproc ≡ t.initproc)

not_root : (i : ℕ) (t : Table) → IsValid t → is_unused (t.proc i).state ≡ true → i ≢ t.initproc
not_root i t v h e = ground (arith, v.root, h, ap {B = Bool} (λ k. is_unused (t.proc k).state) e)

unused-Fits :
    (i : ℕ) (t : Table) (p : Proc)
    → IsValid t
    → is_unused (t.proc i).state ≡ true
    → (is_unused p.state ≡ true) ⊎ (p.state ≡ embryo)
    → p.parent ≡ (t.proc i).parent
    → Fits t i p
unused-Fits i t p v h s q =
    let lone : is_some p.parent ≡ false = rw q (ground (arith, v.orphan i, h)) in
    let not_init : i ≢ t.initproc = not_root i t v h in
    record {
      waiter = λ j b. ground (arith, s);
      child = λ k. ground (arith, s);
      orphan = ground (arith, lone);
      proper = ground (arith, lone);
      root = ground (arith, not_init);
    }

orphan_parent :
    (p : Proc)
    → (is_unused p.state && is_some p.parent) ≡ false
    → is_unused p.state ≡ true
    → p.parent ≡ none
orphan_parent p o h = elim (Option-cases p.parent) [
  | inl e ↦ e
  | inr (a, e) ↦ absurd (ground arith)
]

found-Found :
    (i : ℕ) (t : Table) → IsValid t → is_unused (t.proc i).state ≡ true → Found i t (found i t)
unfolding found
found-Found i t v h = after t.free refl
  where
    after : (free : List ℕ) → t.free ≡ free → Found i t (found i t)
    after [] e =
        rw e (renumbered _ _ _ (write-IsValid i _ t v (unused-Fits i t _ v h (inl refl) refl)))
    after (k ∷ []) e =
        rw e (renumbered _ _ _ (write-IsValid i _ t v (unused-Fits i t _ v h (inl refl) refl)))
    after (k ∷ a ∷ free) e = rw e (
      refl,
      renumbered _ _ _ (write-IsValid i _ t v (unused-Fits i t _ v h (inr refl) refl)),
      h,
      rw (==_self i) (orphan_parent (t.proc i) (v.orphan i) h),
      refl,
    )

-- fork by a running process: the entry of the child is not its own
fork_after-IsValid :
    (copyuvm : List ℕ → Option ℕ × List ℕ) (cur i : ℕ) (t : Table) (r : Table × Option ℕ)
    → IsValid t
    → is_running (t.proc cur).state ≡ true
    → Found i t r
    → IsValid (fork_after copyuvm cur r).0
unfolding fork_into
fork_after-IsValid copyuvm cur i t (t', none) v run f = f
fork_after-IsValid copyuvm cur i t (t', some k) v run (e, v', h, q, r) = after (copyuvm t'.free)
  where
    not_cur : i ≢ cur
    not_cur = λ d. ground (arith, run, h, ap {B = Procstate} (λ x. (t.proc x).state) d)

    not_init : (i == t'.initproc) ≡ false
    not_init = rw r (ground (arith, not_root i t v h))

    after : (c : Option ℕ × List ℕ) → IsValid (fork_into cur k c t').0
    after (none, free) = rw e (
        renumbered _ _ _ (
          write-IsValid i _ t' v' (record {
            waiter = λ j b. refl;
            child = λ x. ground arith;
            orphan = ground (arith, q);
            proper = ground (arith, q);
            root = ground (arith, not_init);
          })))
    after (some d, free) = rw e (
        renumbered _ _ _ (
          write-IsValid i _ t' v' (record {
            waiter = λ j b. refl;
            child = λ x. ground arith;
            orphan = refl;
            proper = ground (arith, not_cur);
            root = ground (arith, not_init);
          })))

pub fork-IsValid :
    (copyuvm : List ℕ → Option ℕ × List ℕ) (cur : ℕ) (t : Table)
    → IsValid t
    → is_running (t.proc cur).state ≡ true
    → IsValid (fork copyuvm cur t).0
unfolding fork allocproc
fork-IsValid copyuvm cur t v run =
    elim (Option-cases (find (λ p. is_unused p.state) nproc 0 t.proc)) [
      | inl e ↦ rw e v
      | inr (i, e) ↦ rw e (
          fork_after-IsValid copyuvm cur i t (found i t) v run
            (found-Found i t v (find-some (λ p. is_unused p.state) nproc 0 i t.proc e).0))
    ]
