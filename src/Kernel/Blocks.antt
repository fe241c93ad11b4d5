-- ===== src/Kernel/Blocks.antt =====
-- alarm/fs.c: the allocation of blocks, and the blocks of an inode (balloc, bfree, bmap, itrunc).
-- A byte of the free map is its 8 bits, and an indirect block its words; `logged` lists the calls of
-- log_write. The inode is locked by the caller, and the buffers by bread. `none` is a panic.
pub mod Free
pub mod Trunc
pub mod Address
mod Tests
use meph_i_semester_4_acos.Base.{
  ℕ, zero, suc, ◌+◌, ◌-◌, ◌*◌, ◌/◌, ◌%◌, Bool, true, false, ◌&&◌, not, Option, none, some, List, [],
  ◌∷◌, ◌==◌, ltb, if◌then◌else◌, update,
}

-- BPB, NDIRECT, NINDIRECT
abbrev pub bpb : ℕ
bpb = 4096

abbrev pub ndirect : ℕ
ndirect = 12

abbrev pub nindirect : ℕ
nindirect = 128

-- The disk: the free map by block, byte and bit, the words of the other blocks, and of the super
-- block the size and the start of the free map.
pub record Disk : Type 0 where
  pub map : ℕ → ℕ → ℕ → Bool
  pub words : ℕ → ℕ → ℕ
  pub size : ℕ
  pub bmapstart : ℕ
  pub logged : List ℕ

abbrev pub log_write : ℕ → Disk → Disk
log_write b d = record d { logged = b ∷ d.logged }

-- BBLOCK
abbrev pub bblock : ℕ → Disk → ℕ
bblock b d = b / bpb + d.bmapstart

-- `bp->data[bi/8] & (1 << (bi % 8))`, in block `b` of the map, and its change
abbrev pub bit : ℕ → ℕ → Disk → Bool
bit b bi d = d.map b (bi / 8) (bi % 8)

abbrev pub mark : ℕ → ℕ → Bool → Disk → Disk
mark b bi v d = record d {
  map = update d.map b (update (d.map b) (bi / 8) (update (d.map b (bi / 8)) (bi % 8) v));
}

-- `bzero`
abbrev pub bzero : ℕ → Disk → Disk
bzero b d = log_write b (record d { words = update d.words b (λ i. 0) })

-- the inner loop of balloc, with `n` bits from `bi` on to go: a free bit
pub scan_bits : ℕ → ℕ → ℕ → Disk → Option ℕ
scan_bits zero b bi d = none
scan_bits (suc n) b bi d =
    let rest = scan_bits n b (bi + 1) d in
    if ltb (b + bi) d.size then (if not (bit (bblock b d) bi d) then some bi else rest) else none

abbrev pub claim : ℕ → ℕ → Disk → ℕ × Disk
claim b bi d =
    let block = bblock b d in (b + bi, bzero (b + bi) (log_write block (mark block bi true d)))

abbrev pub claim_or : Option (ℕ × Disk) → ℕ → Disk → Option ℕ → Option (ℕ × Disk)
claim_or rest b d none = rest
claim_or rest b d (some bi) = some (claim b bi d)

-- the outer loop of balloc, with `n` blocks of the map from that of `b` on to go
pub balloc_from : ℕ → ℕ → Disk → Option (ℕ × Disk)
balloc_from zero b d = none
balloc_from (suc n) b d =
    let rest = balloc_from n (b + bpb) d in
    if ltb b d.size then claim_or rest b d (scan_bits bpb b 0 d) else none

-- `balloc`; the map has `size / bpb + 1` blocks at most
pub balloc : Disk → Option (ℕ × Disk)
balloc d = balloc_from (d.size / bpb + 1) 0 d

-- `bfree`
unfoldable pub bfree : ℕ → Disk → Option Disk
bfree b d =
    let block = bblock b d in
    if not (bit block (b % bpb) d)
    then none
    else some (log_write block (mark block (b % bpb) false d))

-- The fields of an inode that are used here.
pub record Inode : Type 0 where
  pub inum : ℕ
  pub size : ℕ
  pub addrs : ℕ → ℕ

abbrev pub bind : {A B : Type 0} → Option A → (A → Option B) → Option B
bind none k = none
bind (some x) k = k x

-- an address, or that of a new block where it is 0
abbrev pub or_balloc : ℕ → Disk → Option (ℕ × Disk)
or_balloc addr d = if addr == 0 then balloc d else some (addr, d)

-- bmap of a word `i` of the indirect block `block`
abbrev pub bmap_word : ℕ → ℕ → Disk → Option (ℕ × Disk)
bmap_word block i d =
    if d.words block i == 0
    then bind (balloc d) (λ r. some (
      r.0,
      log_write block
          (record (r.1) { words = update (r.1).words block (update ((r.1).words block) i (r.0)) }),
    ))
    else some (d.words block i, d)

-- `bmap`: the address, the inode and the disk
pub bmap : Inode → ℕ → Disk → Option (ℕ × Inode × Disk)
bmap ip bn d =
    if ltb bn ndirect
    then bind (or_balloc (ip.addrs bn) d)
        (λ r. some (r.0, record ip { addrs = update ip.addrs bn (r.0) }, r.1))
    else if ltb (bn - ndirect) nindirect
    then bind (or_balloc (ip.addrs ndirect) d) (λ r.
      bind (bmap_word (r.0) (bn - ndirect) (r.1))
        (λ q. some (q.0, record ip { addrs = update ip.addrs ndirect (r.0) }, q.1)))
    else none

-- the loops of itrunc: over the direct blocks, and over the words of the indirect block
unfoldable pub free_direct : ℕ → ℕ → Inode → Disk → Option (Inode × Disk)
free_direct zero i ip d = some (ip, d)
free_direct (suc n) i ip d =
    if ip.addrs i == 0
    then free_direct n (i + 1) ip d
    else bind (bfree (ip.addrs i) d)
        (free_direct n (i + 1) (record ip { addrs = update ip.addrs i 0 }))

pub free_words : ℕ → ℕ → (ℕ → ℕ) → Disk → Option Disk
free_words zero j a d = some d
free_words (suc n) j a d =
    if a j == 0 then free_words n (j + 1) a d else bind (bfree (a j) d) (free_words n (j + 1) a)

-- itrunc behind the direct blocks, up to iupdate
abbrev pub free_indirect : Inode → Disk → Option (Inode × Disk)
free_indirect ip d =
    let block = ip.addrs ndirect in
    if block == 0
    then some (record ip { size = 0 }, d)
    else bind (free_words nindirect 0 (d.words block) d) (λ d1.
      bind (bfree block d1)
        (λ d2. some (record ip { addrs = update ip.addrs ndirect 0; size = 0 }, d2)))

-- `itrunc`
unfoldable pub itrunc : Inode → Disk → Option (Inode × Disk)
itrunc ip d = bind (free_direct ndirect 0 ip d) (λ r. free_indirect (r.0) (r.1))
