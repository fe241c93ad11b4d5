-- ===== src/Kernel/Inodes/Tests.antt =====
-- Two references to an inode, one that is changed, and its end.
use meph_i_semester_4_acos.Base.{
  ℕ, ◌≡◌, ◌≤◌, ◌==◌, if◌then◌else◌, refl, true, false, none, some, List, [], ◌∷◌, count,
}
use meph_i_semester_4_acos.Kernel.Blocks.{Disk, bfree, free_direct, itrunc}
use meph_i_semester_4_acos.Kernel.Blocks.Free.{in_use}
use meph_i_semester_4_acos.Kernel.Blocks.Trunc.{has_block}
use meph_i_semester_4_acos.Kernel.Inodes.{Dinode, Icache, iget_from, inode_of, iput}
use meph_i_semester_4_acos.Kernel.Inodes.Consistent.{System, IsConsistent}
use meph_i_semester_4_acos.Kernel.Inodes.Run.{
  Op, get, lock, unlock, put, change, start, run_from, run_from-start, iput-frees,
}

-- a file with block 40 and one link
abbrev file : Dinode
file = record {
  type = 2;
  major = 0;
  minor = 0;
  nlink = 1;
  size = 512;
  addrs = λ i. if i == 0 then 40 else 0;
}

abbrev unlinked : Dinode
unlinked = record file { nlink = 0 }

abbrev full_disk : Disk
full_disk = record { map = λ b i j. true; words = λ b i. 0; size = 100; bmapstart = 2; logged = [] }

abbrev begun : System
begun = start (λ d n. file) full_disk 20

-- inode 5 twice, which are references to entry 0; its last link goes, and one reference
abbrev ops : List Op
ops = get 1 5 ∷ get 1 5 ∷ lock 0 ∷ change 0 unlinked ∷ unlock 0 ∷ put 0 ∷ []

abbrev after : System
after = elim (run_from (some begun) ops) [ none ↦ begun | some s ↦ s ]

run_from-count : count 0 after.held ≡ 1
unfolding iget_from
run_from-count = refl

run_from-start_example : IsConsistent after
unfolding iget_from
run_from-start_example = run_from-start (λ d n. file) full_disk 20 ops after refl

abbrev last : Icache
last = elim (iput 0 after.cache) [ none ↦ after.cache | some c ↦ c ]

iput-frees_example :
    ((last.dinode 1 5).type ≡ 0)
    × ((last.dinode 1 5).size ≡ 0)
    × ((j : ℕ) → j ≤ 12 → (last.dinode 1 5).addrs j ≡ 0)
    × ((y : ℕ)
        → in_use y last.disk ≡ (
            if has_block (inode_of (after.cache.slot 0)) after.cache.disk y
            then false
            else in_use y after.cache.disk))
unfolding iget_from itrunc free_direct bfree
iput-frees_example = iput-frees after 0 last run_from-start_example refl refl refl refl
