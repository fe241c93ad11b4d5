-- ===== src/Kernel/BufferCache.antt =====
-- alarm/bio.c: the cache of disk blocks, with the sleep locks of its buffers (alarm/sleeplock.c) and the
-- disk in memory that the build makefs gives it (alarm/memide.c). What runs under bcache.lock is one
-- function. The list through prev and next is the list of its buffers from head.next on. `none` is a
-- panic.
pub mod Coherent
pub mod Steps
pub mod Lookup
pub mod Latest
mod Tests
use meph_i_semester_4_acos.Base.{
  ℕ, zero, suc, ◌-◌, ◌+◌, Bool, true, false, ◌&&◌, ◌||◌, not, Option, none, some, List, [], ◌∷◌,
  reverse, ◌==◌, ltb, if◌then◌else◌, update, release,
}

-- NBUF
abbrev pub nbuf : ℕ
nbuf = 30

-- `struct buf`: B_VALID and B_DIRTY of its flags, and whether its sleep lock is taken
pub record Buf : Type 0 where
  pub dev : ℕ
  pub blockno : ℕ
  pub refcnt : ℕ
  pub valid : Bool
  pub dirty : Bool
  pub locked : Bool
  pub bytes : List ℕ

-- `bcache`, the most recently used buffer first, and the blocks of memdisk
pub record Bcache : Type 0 where
  pub buf : ℕ → Buf
  pub order : List ℕ
  pub disk : ℕ → List ℕ
  pub disksize : ℕ

abbrev no_buf : Buf
no_buf = record {
  dev = 0;
  blockno = 0;
  refcnt = 0;
  valid = false;
  dirty = false;
  locked = false;
  bytes = [];
}

-- the loop of binit: each buffer goes to the front
abbrev pub binit_from : ℕ → ℕ → List ℕ → List ℕ
binit_from zero b order = order
binit_from (suc n) b order = binit_from n (b + 1) (b ∷ order)

abbrev pub binit : (ℕ → List ℕ) → ℕ → Bcache
binit disk disksize = record {
  buf = λ i. no_buf;
  order = binit_from nbuf 0 [];
  disk = disk;
  disksize = disksize;
}

-- acquiresleep: a process that finds the lock taken sleeps, and comes back
abbrev pub acquiresleep : Buf → Buf
acquiresleep b = if b.locked then b else record b { locked = true }

abbrev pub releasesleep : Buf → Buf
releasesleep b = record b { locked = false }

abbrev pub holdingsleep : Buf → Bool
holdingsleep b = b.locked

-- the first loop of bget
unfoldable pub find_cached : List ℕ → ℕ → ℕ → (ℕ → Buf) → Option ℕ
find_cached [] dev blockno buf = none
find_cached (i ∷ order) dev blockno buf =
    if (buf i).dev == dev && (buf i).blockno == blockno
    then some i
    else find_cached order dev blockno buf

-- the second loop of bget, which goes from the other end
unfoldable pub find_free : List ℕ → (ℕ → Buf) → Option ℕ
find_free [] buf = none
find_free (i ∷ order) buf =
    if (buf i).refcnt == 0 && not (buf i).dirty then some i else find_free order buf

abbrev pub recycle : ℕ → ℕ → Option ℕ → Bcache → Option (ℕ × Bcache)
recycle dev blockno none c = none
recycle dev blockno (some i) c = some (
  i,
  record c {
    buf = update c.buf i (record (c.buf i) {
      dev = dev;
      blockno = blockno;
      valid = false;
      dirty = false;
      refcnt = 1;
    });
  },
)

abbrev pub share : ℕ → ℕ → Option ℕ → Bcache → Option (ℕ × Bcache)
share dev blockno none c = recycle dev blockno (find_free (reverse c.order) c.buf) c
share dev blockno (some i) c =
    some (i, record c { buf = update c.buf i (record (c.buf i) { refcnt = (c.buf i).refcnt + 1 }) })

-- bget up to acquiresleep
abbrev pub bget : ℕ → ℕ → Bcache → Option (ℕ × Bcache)
bget dev blockno c = share dev blockno (find_cached c.order dev blockno c.buf) c

-- the end of iderw
abbrev pub transfer : ℕ → Bcache → Bcache
transfer i c =
    let b = c.buf i in
    if b.dirty
    then record c {
      disk = update c.disk b.blockno b.bytes;
      buf = update c.buf i (record b { dirty = false; valid = true });
    }
    else record c { buf = update c.buf i (record b { bytes = c.disk b.blockno; valid = true }) }

-- `iderw`
abbrev pub iderw : ℕ → Bcache → Option Bcache
iderw i c =
    let b = c.buf i in
    if not (holdingsleep b)
    then none
    else if b.valid && not b.dirty
    then none
    else if not (b.dev == 1)
    then none
    else if not (ltb b.blockno c.disksize)
    then none
    else some (transfer i c)

-- bread behind bget
abbrev pub bread : ℕ → Bcache → Option Bcache
bread i c = if not (c.buf i).valid then iderw i c else some c

-- `bwrite`
abbrev pub bwrite : ℕ → Bcache → Option Bcache
bwrite i c =
    if not (holdingsleep (c.buf i))
    then none
    else iderw i (record c { buf = update c.buf i (record (c.buf i) { dirty = true }) })

-- brelse; a buffer that is held has a count above 0
abbrev pub brelse : ℕ → Bcache → Option Bcache
brelse i c =
    if not (holdingsleep (c.buf i))
    then none
    else (let n = (c.buf i).refcnt - 1 in
        some (record c {
          buf = update c.buf i (record (releasesleep (c.buf i)) { refcnt = n });
          order = if n == 0 then i ∷ release i c.order else c.order;
        }))
