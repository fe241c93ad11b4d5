-- ===== src/Kernel/Inodes/Steps.antt =====
-- Each operation on an inode that is held keeps the cache consistent.
use meph_i_semester_4_acos.Base.{
  ℕ, ◌-◌, ◌≤◌, ◌≡◌, ◌≢◌, ◌⊎◌, ◌∙◌, inl, inr, refl, sym, subst, ap, Bool, true, false, ◌&&◌, Option,
  none, some, List, ◌==◌, ==_self, if◌then◌else◌, update, update_self, update_ne, arith, Bool-cases,
  Nat-cases, from_some-eq, guard-some, count, release, count-release,
}
use meph_i_semester_4_acos.Kernel.Blocks.{Disk, Inode, bind, itrunc}
use meph_i_semester_4_acos.Kernel.Inodes.{
  Dinode, Slot, Icache, set_dinode, iupdate, load, inode_of, freed, iput_drop, iput,
}
use meph_i_semester_4_acos.Kernel.Inodes.Consistent.{
  System, on_disk, IsConsistent, Touch-IsConsistent,
}

-- an entry of which only the lock and the count change
pub same-IsConsistent :
    (s : System) (i ref : ℕ) (locked : Bool) (held : List ℕ)
    → IsConsistent s
    → 1 ≤ count i s.held
    → ref ≡ count i held
    → ((j : ℕ) → j ≢ i → count j held ≡ count j s.held)
    → IsConsistent (record s {
      cache = record s.cache {
        slot = update s.cache.slot i (record (s.cache.slot i) { ref = ref; locked = locked });
      };
      held = held;
    })
same-IsConsistent s i ref locked held v h r o =
    let b : Slot = record (s.cache.slot i) { ref = ref; locked = locked } in
    Touch-IsConsistent s
      (record s { cache = record s.cache { slot = update s.cache.slot i b }; held = held }) i b v
      (record {
        here = update_self s.cache.slot i b;
        there = λ j n. update_ne s.cache.slot i b j n;
        was_held = h;
        same_dev = refl;
        same_inum = refl;
        refs = r;
        others = o;
        agree_here = v.agrees i h;
        dinode_there = λ d n e. refl;
      })

-- the inode of an entry, and those of others, after set_dinode
pub set_dinode_self :
    (f : ℕ → ℕ → Dinode) (d n : ℕ) (x : Dinode) → update f d (update (f d) n x) d n ≡ x
set_dinode_self f d n x = ap (λ g. g n) (update_self f d (update (f d) n x)) ∙ update_self (f d) n x

pub set_dinode_ne :
    (f : ℕ → ℕ → Dinode) (d n : ℕ) (x : Dinode) (e m : ℕ)
    → (e ≢ d) ⊎ (m ≢ n)
    → update f d (update (f d) n x) e m ≡ f e m
set_dinode_ne f d n x e m h = elim (Nat-cases e d) [
  | inr k ↦ ap (λ g. g m) (update_ne f d (update (f d) n x) e k)
  | inl k ↦ elim h [
    | inl l ↦ absurd (l k)
    | inr l ↦ rw k (ap (λ g. g m) (update_self f d (update (f d) n x)) ∙ update_ne (f d) n x m l)
  ]
]

-- fields that a process changes, and iupdate
pub change-IsConsistent :
    (s : System) (i : ℕ) (x : Dinode)
    → IsConsistent s
    → 1 ≤ count i s.held
    → x.type ≢ 0
    → IsConsistent (record s {
      cache =
          iupdate i (record s.cache {
            slot = update s.cache.slot i (record (s.cache.slot i) { copy = x });
          });
    })
change-IsConsistent s i x v h z =
    let ip = s.cache.slot i in
    let b : Slot = record ip { copy = x } in
    rw (update_self s.cache.slot i b) (
      Touch-IsConsistent s
        (record s {
          cache = set_dinode ip.dev ip.inum x (record s.cache { slot = update s.cache.slot i b });
        })
        i b v
        (record {
          here = update_self s.cache.slot i b;
          there = λ j n. update_ne s.cache.slot i b j n;
          was_held = h;
          same_dev = refl;
          same_inum = refl;
          refs = v.counted i;
          others = λ j n. refl;
          agree_here = λ y. (sym (set_dinode_self s.cache.dinode ip.dev ip.inum x), z);
          dinode_there = λ d n e. set_dinode_ne s.cache.dinode ip.dev ip.inum x d n e;
        }))

-- ilock reads the inode where it is not valid
pub load-IsConsistent :
    (s : System) (i : ℕ) (c : Icache)
    → IsConsistent s
    → 1 ≤ count i s.held
    → load i s.cache ≡ some c
    → IsConsistent (record s { cache = c })
load-IsConsistent s i c v h e = elim (Bool-cases (s.cache.slot i).valid) [
  | inl y ↦ subst (λ d. IsConsistent (record s { cache = d })) (from_some-eq (simp y at e)) v
  | inr n ↦
      let d = on_disk i s in
      let (z, f) = guard-some (d.type == 0) (simp n at e) in
      let b : Slot = record (s.cache.slot i) { copy = d; valid = true } in
      subst (λ t. IsConsistent (record s { cache = t })) (from_some-eq f)
        (Touch-IsConsistent s
          (record s { cache = record s.cache { slot = update s.cache.slot i b } }) i b v
          (record {
            here = update_self s.cache.slot i b;
            there = λ j m. update_ne s.cache.slot i b j m;
            was_held = h;
            same_dev = refl;
            same_inum = refl;
            refs = v.counted i;
            others = λ j m. refl;
            agree_here = λ y. (refl, ground (arith, z));
            dinode_there = λ p q m. refl;
          }))
]

-- iput
pub freed-IsConsistent :
    (s : System) (i : ℕ) (r : Inode × Disk)
    → IsConsistent s
    → 1 ≤ count i s.held
    → IsConsistent (record s { cache = iput_drop i (freed i s.cache r); held = release i s.held })
freed-IsConsistent s i (node, disk) v h =
    let ip = s.cache.slot i in
    let gone : Dinode = record ip.copy { size = node.size; addrs = node.addrs; type = 0 } in
    let a : Slot = record ip { copy = gone; valid = false } in
    let b : Slot = record a { ref = ip.ref - 1; locked = false } in
    rw (update_self s.cache.slot i a) (
      Touch-IsConsistent s
        (record s {
          cache =
              set_dinode ip.dev ip.inum gone
                (record s.cache { disk = disk; slot = update (update s.cache.slot i a) i b });
          held = release i s.held;
        })
        i b v
        (record {
          here = update_self (update s.cache.slot i a) i b;
          there =
              λ j n. update_ne (update s.cache.slot i a) i b j n ∙ update_ne s.cache.slot i a j n;
          was_held = h;
          same_dev = refl;
          same_inum = refl;
          refs = ground (arith, v.counted i, count-release i i s.held, ==_self i);
          others = λ j n. ground (arith, n, count-release i j s.held);
          agree_here = λ y. absurd (ground (arith, y));
          dinode_there = λ d n e. set_dinode_ne s.cache.dinode ip.dev ip.inum gone d n e;
        }))

-- what iput has done: it has freed the inode, or only dropped a reference
iput_at :
    (b : Bool) (o : Option (Inode × Disk)) (i : ℕ) (c t : Icache)
    → bind (if b then bind o (λ r. some (freed i c r)) else some c) (λ u. some (iput_drop i u))
      ≡ some t
    → ((b ≡ false) × (iput_drop i c ≡ t))
      ⊎ ((r : Inode × Disk) × (b ≡ true) × (o ≡ some r) × (iput_drop i (freed i c r) ≡ t))
iput_at true none i c t h = absurd (ground (arith, h))
iput_at true (some r) i c t h = inr (r, refl, refl, from_some-eq h)
iput_at false o i c t h = inl (refl, from_some-eq h)

pub iput-some :
    (i : ℕ) (c t : Icache)
    → iput i c ≡ some t
    → (let ip = c.slot i in
        let last = ip.valid && (ip.copy.nlink == 0 && ip.ref == 1) in
        ((last ≡ false) × (iput_drop i c ≡ t))
        ⊎ ((r : Inode × Disk) × (last ≡ true)
            × (itrunc (inode_of ip) c.disk ≡ some r)
            × (iput_drop i (freed i c r) ≡ t)))
iput-some i c t h =
    let ip = c.slot i in
    iput_at (ip.valid && (ip.copy.nlink == 0 && ip.ref == 1)) (itrunc (inode_of ip) c.disk) i c t h

pub iput-IsConsistent :
    (s : System) (i : ℕ) (c : Icache)
    → IsConsistent s
    → 1 ≤ count i s.held
    → iput i s.cache ≡ some c
    → IsConsistent (record s { cache = c; held = release i s.held })
iput-IsConsistent s i c v h e = elim (iput-some i s.cache c e) [
  | inl (b, q) ↦
      subst (λ d. IsConsistent (record s { cache = d; held = release i s.held })) q
        (same-IsConsistent s i ((s.cache.slot i).ref - 1) false (release i s.held) v h
          (ground (arith, v.counted i, count-release i i s.held, ==_self i))
          (λ j n. ground (arith, n, count-release i j s.held)))
  | inr (r, b, f, q) ↦
      subst (λ d. IsConsistent (record s { cache = d; held = release i s.held })) q
        (freed-IsConsistent s i r v h)
]
