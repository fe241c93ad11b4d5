-- ===== src/Kernel/Inodes.antt =====
-- alarm/fs.c: the inodes in memory (iget, idup, ilock, iunlock, iput, iupdate, ialloc) over the
-- inodes on disk. Each of them is one step once it has the sleep lock that it takes, or else its process
-- waits. In iput this joins what the code does in two sections under icache.lock: the test of the count
-- with itrunc, and the decrement. `none` is a panic.
pub mod Entries
pub mod Consistent
pub mod Steps
pub mod Lookup
pub mod Run
mod Tests
use meph_i_semester_4_acos.Base.{
  ℕ, zero, suc, ◌+◌, ◌-◌, Bool, true, false, ◌&&◌, ◌||◌, not, Option, none, some, ◌==◌, ltb,
  if◌then◌else◌, update,
}
use meph_i_semester_4_acos.Kernel.Blocks.{Disk, Inode, bind, itrunc}

-- NINODE
abbrev pub ninode : ℕ
ninode = 50

-- `struct dinode`, which `struct inode` repeats
pub record Dinode : Type 0 where
  pub type : ℕ
  pub major : ℕ
  pub minor : ℕ
  pub nlink : ℕ
  pub size : ℕ
  pub addrs : ℕ → ℕ

-- `struct inode`: `copy` are its fields from type on
pub record Slot : Type 0 where
  pub dev : ℕ
  pub inum : ℕ
  pub ref : ℕ
  pub locked : Bool
  pub valid : Bool
  pub copy : Dinode

-- `icache`, the inodes on disk by device and number, and the rest of the disk
pub record Icache : Type 0 where
  pub slot : ℕ → Slot
  pub dinode : ℕ → ℕ → Dinode
  pub disk : Disk
  pub ninodes : ℕ

-- an entry for the inode, or else the first empty entry
pub data Found : Type 0 where
  hit : ℕ → Found
  miss : Option ℕ → Found

-- `empty == 0 && ip->ref == 0`
abbrev pub first_empty : Option ℕ → ℕ → ℕ → Option ℕ
first_empty none i ref = if ref == 0 then some i else none
first_empty (some e) i ref = some e

-- the loop of iget, with `n` entries from `i` on to go
unfoldable pub iget_from : ℕ → ℕ → Option ℕ → ℕ → ℕ → (ℕ → Slot) → Found
iget_from zero i empty dev inum slot = miss empty
iget_from (suc n) i empty dev inum slot =
    let ip = slot i in
    let rest = iget_from n (i + 1) (first_empty empty i ip.ref) dev inum slot in
    if ltb 0 ip.ref && (ip.dev == dev && ip.inum == inum) then hit i else rest

abbrev pub iget_at : Found → ℕ → ℕ → Icache → Option (ℕ × Icache)
iget_at (hit i) dev inum c =
    some (i, record c { slot = update c.slot i (record (c.slot i) { ref = (c.slot i).ref + 1 }) })
iget_at (miss none) dev inum c = none
iget_at (miss (some i)) dev inum c = some (
  i,
  record c {
    slot = update c.slot i (record (c.slot i) { dev = dev; inum = inum; ref = 1; valid = false });
  },
)

-- `iget`
abbrev pub iget : ℕ → ℕ → Icache → Option (ℕ × Icache)
iget dev inum c = iget_at (iget_from ninode 0 none dev inum c.slot) dev inum c

-- `idup`
abbrev pub idup : ℕ → Icache → Icache
idup i c = record c { slot = update c.slot i (record (c.slot i) { ref = (c.slot i).ref + 1 }) }

-- an inode on disk is given new contents
abbrev pub set_dinode : ℕ → ℕ → Dinode → Icache → Icache
set_dinode dev inum d c = record c { dinode = update c.dinode dev (update (c.dinode dev) inum d) }

-- `iupdate`
abbrev pub iupdate : ℕ → Icache → Icache
iupdate i c = let ip = c.slot i in set_dinode ip.dev ip.inum ip.copy c

-- memset and the type of ialloc
abbrev pub fresh_dinode : ℕ → Dinode
fresh_dinode type = record {
  type = type;
  major = 0;
  minor = 0;
  nlink = 0;
  size = 0;
  addrs = λ i. 0;
}

-- the loop of ialloc, with `n` inodes from `inum` on to go
pub ialloc_from : ℕ → ℕ → ℕ → ℕ → Icache → Option (ℕ × Icache)
ialloc_from zero inum dev type c = none
ialloc_from (suc n) inum dev type c =
    let rest = ialloc_from n (inum + 1) dev type c in
    if (c.dinode dev inum).type == 0
    then iget dev inum (set_dinode dev inum (fresh_dinode type) c)
    else rest

-- `ialloc`
abbrev pub ialloc : ℕ → ℕ → Icache → Option (ℕ × Icache)
ialloc dev type c = ialloc_from (c.ninodes - 1) 1 dev type c

-- ilock with the lock taken
abbrev pub load : ℕ → Icache → Option Icache
load i c =
    let ip = c.slot i in
    if ip.valid
    then some c
    else (let d = c.dinode ip.dev ip.inum in
        if d.type == 0
        then none
        else some (record c { slot = update c.slot i (record ip { copy = d; valid = true }) }))

abbrev pub taken : ℕ → Icache → Icache
taken i c = record c { slot = update c.slot i (record (c.slot i) { locked = true }) }

-- ilock; where the lock is taken, its process sleeps and comes back
abbrev pub ilock : ℕ → Icache → Option Icache
ilock i c =
    if ltb (c.slot i).ref 1 then none else if (c.slot i).locked then some c else load i (taken i c)

-- `iunlock`
abbrev pub iunlock : ℕ → Icache → Option Icache
iunlock i c =
    if not (c.slot i).locked || ltb (c.slot i).ref 1
    then none
    else some (record c { slot = update c.slot i (record (c.slot i) { locked = false }) })

-- what itrunc works on
abbrev pub inode_of : Slot → Inode
inode_of ip = record { inum = ip.inum; size = ip.copy.size; addrs = ip.copy.addrs }

-- an inode that itrunc has emptied, with its type set to 0; iupdate twice, and valid = 0
abbrev pub freed : ℕ → Icache → Inode × Disk → Icache
freed i c (node, disk) =
    let ip = c.slot i in
    let gone = record ip.copy { size = node.size; addrs = node.addrs; type = 0 } in
    set_dinode ip.dev ip.inum gone
      (record c { disk = disk; slot = update c.slot i (record ip { copy = gone; valid = false }) })

-- iput up to releasesleep, with the lock taken
abbrev pub iput_free : ℕ → Icache → Option Icache
iput_free i c =
    let ip = c.slot i in
    if ip.valid && (ip.copy.nlink == 0 && ip.ref == 1)
    then bind (itrunc (inode_of ip) c.disk) (λ r. some (freed i c r))
    else some c

abbrev pub iput_drop : ℕ → Icache → Icache
iput_drop i c = record c {
  slot = update c.slot i (record (c.slot i) { ref = (c.slot i).ref - 1; locked = false });
}

-- iput, once it has the lock
abbrev pub iput : ℕ → Icache → Option Icache
iput i c = bind (iput_free i c) (λ t. some (iput_drop i t))

-- `iunlockput`
abbrev pub iunlockput : ℕ → Icache → Option Icache
iunlockput i c = bind (iunlock i c) (iput i)
