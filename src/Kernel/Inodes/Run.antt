-- ===== src/Kernel/Inodes/Run.antt =====
-- The inode cache under any sequence of its operations.
use meph_i_semester_4_acos.Base.{
  ℕ, ◌+◌, ◌-◌, ◌≤◌, ◌≡◌, ◌∙◌, inl, inr, refl, sym, subst, ap, true, false, ◌&&◌, ◌||◌, not, Option,
  none, some, List, [], ◌∷◌, ◌==◌, ==_self, ltb, ltb→lt, both, if◌then◌else◌, update, arith,
  Bool-cases, from_some-eq, if_some, guard-some, count, release,
}
use meph_i_semester_4_acos.Kernel.Blocks.{Disk, ndirect}
use meph_i_semester_4_acos.Kernel.Blocks.Free.{in_use}
use meph_i_semester_4_acos.Kernel.Blocks.Trunc.{has_block, itrunc-Emptied}
use meph_i_semester_4_acos.Kernel.Inodes.{
  Dinode, Slot, Icache, iget, idup, iupdate, load, taken, ilock, iunlock, ialloc, fresh_dinode,
  inode_of, iput,
}
use meph_i_semester_4_acos.Kernel.Inodes.Consistent.{System, IsConsistent}
use meph_i_semester_4_acos.Kernel.Inodes.Steps.{
  same-IsConsistent, change-IsConsistent, load-IsConsistent, iput-some, iput-IsConsistent,
  set_dinode_self,
}
use meph_i_semester_4_acos.Kernel.Inodes.Lookup.{got, iget-IsConsistent, ialloc-IsConsistent}

-- One operation. `change i x`: a process that has locked the inode changes its fields, and calls iupdate.
pub data Op : Type 0 where
  get : ℕ → ℕ → Op
  alloc : ℕ → ℕ → Op
  dup lock unlock put : ℕ → Op
  change : ℕ → Dinode → Op

abbrev pub with_held : List ℕ → Option Icache → Option System
with_held held none = none
with_held held (some c) = some (record { cache = c; held = held })

-- Only the holder of a reference does these, and changes with the lock; where the lock is taken, iput
-- waits. `none` is a panic. An inode gets a type that is not 0.
abbrev pub act : Op → System → Option System
act (get dev inum) s = got s (iget dev inum s.cache)
act (alloc dev type) s = if type == 0 then some s else got s (ialloc dev type s.cache)
act (dup i) s =
    if ltb 0 (count i s.held)
    then some (record { cache = idup i s.cache; held = i ∷ s.held })
    else some s
act (lock i) s = if ltb 0 (count i s.held) then with_held s.held (ilock i s.cache) else some s
act (unlock i) s = if ltb 0 (count i s.held) then with_held s.held (iunlock i s.cache) else some s
act (put i) s =
    if ltb 0 (count i s.held) && not (s.cache.slot i).locked
    then with_held (release i s.held) (iput i s.cache)
    else some s
act (change i x) s =
    let ip = s.cache.slot i in
    if ltb 0 (count i s.held) && (ip.locked && not (x.type == 0))
    then some (record s {
      cache = iupdate i (record s.cache { slot = update s.cache.slot i (record ip { copy = x }) });
    })
    else some s

with_held-some :
    (held : List ℕ) (o : Option Icache) (t : System)
    → with_held held o ≡ some t
    → (c : Icache) × (o ≡ some c) × (record { cache = c; held = held } ≡ t)
with_held-some held none t h = absurd (ground (arith, h))
with_held-some held (some c) t h = (c, refl, from_some-eq h)

taken-IsConsistent :
    (s : System) (i : ℕ)
    → IsConsistent s
    → 1 ≤ count i s.held
    → IsConsistent (record s { cache = taken i s.cache })
taken-IsConsistent s i v h =
    same-IsConsistent s i (s.cache.slot i).ref true s.held v h (v.counted i) (λ j n. refl)

ilock-IsConsistent :
    (s : System) (i : ℕ) (c : Icache)
    → IsConsistent s
    → 1 ≤ count i s.held
    → ilock i s.cache ≡ some c
    → IsConsistent (record s { cache = c })
ilock-IsConsistent s i c v h e =
    let (k, f) = guard-some (ltb (s.cache.slot i).ref 1) e in
    elim (Bool-cases (s.cache.slot i).locked) [
      | inl y ↦ subst (λ d. IsConsistent (record s { cache = d })) (from_some-eq (simp y at f)) v
      | inr n ↦
          load-IsConsistent (record s { cache = taken i s.cache }) i c (taken-IsConsistent s i v h)
            h (sym (ap (λ b. if b then some s.cache else load i (taken i s.cache)) n) ∙ f)
    ]

-- Every operation keeps the cache consistent.
act-IsConsistent : (x : Op) (s t : System) → IsConsistent s → act x s ≡ some t → IsConsistent t
act-IsConsistent (get dev inum) s t v h = iget-IsConsistent s t dev inum v h
act-IsConsistent (alloc dev type) s t v h = elim (Bool-cases (type == 0)) [
  | inl y ↦ subst IsConsistent (from_some-eq (rw y at h)) v
  | inr n ↦ ialloc-IsConsistent (s.cache.ninodes - 1) 1 dev type s t v (rw n at h)
]
act-IsConsistent (dup i) s t v h =
    if_some IsConsistent (ltb 0 (count i s.held))
      (some (record { cache = idup i s.cache; held = i ∷ s.held })) v
      (λ y e. subst IsConsistent (from_some-eq e) (
        same-IsConsistent s i ((s.cache.slot i).ref + 1) (s.cache.slot i).locked (i ∷ s.held) v
          (ltb→lt 0 (count i s.held) y) (ground (arith, v.counted i, ==_self i))
          (λ j m. ground (arith, m))))
      h
act-IsConsistent (lock i) s t v h =
    if_some IsConsistent (ltb 0 (count i s.held)) (with_held s.held (ilock i s.cache)) v
      (λ y e.
        (let (c, f, g) = with_held-some s.held (ilock i s.cache) t e in
          subst IsConsistent g (ilock-IsConsistent s i c v (ltb→lt 0 (count i s.held) y) f)))
      h
act-IsConsistent (unlock i) s t v h =
    if_some IsConsistent (ltb 0 (count i s.held)) (with_held s.held (iunlock i s.cache)) v
      (λ y e.
        (let (c, f, g) = with_held-some s.held (iunlock i s.cache) t e in
          subst IsConsistent
            (ap (λ d. record { cache = d; held = s.held })
                (from_some-eq
                  ((guard-some (not (s.cache.slot i).locked || ltb (s.cache.slot i).ref 1) f).1))
              ∙ g)
            (same-IsConsistent s i (s.cache.slot i).ref false s.held v (ltb→lt 0 (count i s.held) y)
              (v.counted i) (λ j n. refl))))
      h
act-IsConsistent (put i) s t v h =
    let test = ltb 0 (count i s.held) && not (s.cache.slot i).locked in
    if_some IsConsistent test (with_held (release i s.held) (iput i s.cache)) v
      (λ y e.
        (let (c, f, g) = with_held-some (release i s.held) (iput i s.cache) t e in
          let (k, l) = both (ltb 0 (count i s.held)) (not (s.cache.slot i).locked) y in
          subst IsConsistent g (iput-IsConsistent s i c v (ltb→lt 0 (count i s.held) k) f)))
      h
act-IsConsistent (change i x) s t v h =
    let ip = s.cache.slot i in
    if_some IsConsistent (ltb 0 (count i s.held) && (ip.locked && not (x.type == 0)))
      (some (record s {
        cache =
            iupdate i (record s.cache { slot = update s.cache.slot i (record ip { copy = x }) });
      }))
      v
      (λ y e.
        (let (k, l) = both (ltb 0 (count i s.held)) (ip.locked && not (x.type == 0)) y in
          subst IsConsistent (from_some-eq e) (
            change-IsConsistent s i x v (ltb→lt 0 (count i s.held) k)
              (ground (arith, (both ip.locked (not (x.type == 0)) l).1)))))
      h

abbrev pub run_from : Option System → List Op → Option System
run_from none xs = none
run_from (some s) [] = some s
run_from (some s) (x ∷ xs) = run_from (act x s) xs

run_from-IsConsistent :
    (xs : List Op) (o : Option System) (t : System)
    → ((s : System) → o ≡ some s → IsConsistent s)
    → run_from o xs ≡ some t
    → IsConsistent t
run_from-IsConsistent xs none t v h = absurd (ground (arith, h))
run_from-IsConsistent [] (some s) t v h = v t h
run_from-IsConsistent (x ∷ xs) (some s) t v h =
    run_from-IsConsistent xs (act x s) t (λ u e. act-IsConsistent x s u (v s refl) e) h

-- the cache as iinit finds it, with no entry in use
abbrev pub start : (ℕ → ℕ → Dinode) → Disk → ℕ → System
start dinode disk ninodes =
    let unused : Slot = record {
      dev = 0;
      inum = 0;
      ref = 0;
      locked = false;
      valid = false;
      copy = fresh_dinode 0;
    } in
    record {
      cache = record { slot = λ i. unused; dinode = dinode; disk = disk; ninodes = ninodes };
      held = [];
    }

-- Processes get, allocate, duplicate, lock, change, unlock and put inodes in any order, each only by a
-- reference that it holds, with iupdate after a change, and no operation has panicked. Then the count
-- of an entry is the number of its references, two entries in use are never for the same inode, and a
-- valid entry in use has what the inode on disk has, and a type that is not 0.
pub run_from-start :
    (dinode : ℕ → ℕ → Dinode) (disk : Disk) (ninodes : ℕ) (xs : List Op) (s : System)
    → run_from (some (start dinode disk ninodes)) xs ≡ some s
    → IsConsistent s
run_from-start dinode disk ninodes xs s h =
    run_from-IsConsistent xs (some (start dinode disk ninodes)) s
      (λ u e. subst IsConsistent (from_some-eq e) (record {
        counted = λ i. refl;
        inside = λ i k. absurd (omega (arith, k));
        unique = λ i j k l d n. absurd (omega (arith, k));
        agrees = λ i k y. absurd (omega (arith, k));
      }))
      h

-- The last reference to a valid entry of a consistent cache, for an inode without links, is put, and iput
-- does not panic. Then the inode on disk is free, of size 0 and without blocks, and the free map has lost
-- exactly the blocks that the inode had: the direct ones, the indirect one, and those that it names.
pub iput-frees :
    (s : System) (i : ℕ) (t : Icache)
    → IsConsistent s
    → (s.cache.slot i).valid ≡ true
    → (s.cache.slot i).copy.nlink ≡ 0
    → count i s.held ≡ 1
    → iput i s.cache ≡ some t
    → let ip = s.cache.slot i in
      let d = t.dinode ip.dev ip.inum in
      (d.type ≡ 0)
      × (d.size ≡ 0)
      × ((j : ℕ) → j ≤ ndirect → d.addrs j ≡ 0)
      × ((y : ℕ)
          → in_use y t.disk
            ≡ (if has_block (inode_of ip) s.cache.disk y then false else in_use y s.cache.disk))
iput-frees s i t v y n l h =
    let ip = s.cache.slot i in
    elim (iput-some i s.cache t h) [
      | inl (b, q) ↦ absurd (ground (arith, b, y, n, l, v.counted i))
      | inr (r, b, f, q) ↦
          let (size, addrs, blocks) = itrunc-Emptied (inode_of ip) s.cache.disk r f in
          let gone : Dinode = record ip.copy { size = r.0.size; addrs = r.0.addrs; type = 0 } in
          let e : t.dinode ip.dev ip.inum ≡ gone =
            ap (λ (c : Icache). c.dinode ip.dev ip.inum) (sym q)
            ∙ set_dinode_self s.cache.dinode ip.dev ip.inum gone in
          (
            ap (λ (d : Dinode). d.type) e,
            ap (λ (d : Dinode). d.size) e ∙ size,
            λ j k. ap (λ (d : Dinode). d.addrs j) e ∙ addrs j k,
            λ z. ap (λ (c : Icache). in_use z c.disk) (sym q) ∙ blocks z,
          )
    ]
