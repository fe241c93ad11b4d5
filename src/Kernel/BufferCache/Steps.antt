-- ===== src/Kernel/BufferCache/Steps.antt =====
-- Each operation on a buffer that is held keeps the cache coherent.
use meph_i_semester_4_acos.Base.{
  ℕ, ◌-◌, ◌≤◌, ◌≡◌, ◌≢◌, ◌⊎◌, ◌∙◌, inl, inr, refl, sym, subst, Bool, true, false, ◌&&◌, not, some,
  List, ◌∷◌, ◌==◌, ==_self, ltb, if◌then◌else◌, update, update_self, update_ne, arith, Bool-cases,
  from_some-eq, guard-some, count, release, count-release,
}
use meph_i_semester_4_acos.Kernel.BufferCache.{
  Buf, Bcache, acquiresleep, releasesleep, holdingsleep, transfer, iderw,
}
use meph_i_semester_4_acos.Kernel.BufferCache.Coherent.{System, IsCoherent, Touch-IsCoherent}

-- the disk has the latest contents of a buffer's block, or the buffer is dirty
back_at :
    (s : System) (i : ℕ)
    → IsCoherent s
    → (s.cache.buf i).dev ≡ 1
    → (let n = (s.cache.buf i).blockno in s.cache.disk n ≡ s.latest n)
      ⊎ ((s.cache.buf i).dirty ≡ true)
back_at s i v d = elim (v.backed (s.cache.buf i).blockno) [
  | inl q ↦ inl q
  | inr (j, dj, l, y) ↦ inr (subst (λ x. (s.cache.buf x).dirty ≡ true) (v.unique j i dj d l) y)
]

-- a buffer of which only the lock and the count change
pub same-IsCoherent :
    (s : System) (i refcnt : ℕ) (locked : Bool) (held order : List ℕ)
    → IsCoherent s
    → (s.cache.buf i).dev ≡ 1
    → refcnt ≡ count i held
    → ((j : ℕ) → j ≢ i → count j held ≡ count j s.held)
    → ((j : ℕ) → 1 ≤ count j s.cache.order → 1 ≤ count j order)
    → IsCoherent (record s {
      cache = record s.cache {
        buf = update s.cache.buf i (record (s.cache.buf i) { refcnt = refcnt; locked = locked });
        order = order;
      };
      held = held;
    })
same-IsCoherent s i refcnt locked held order v d r o k =
    let b : Buf = record (s.cache.buf i) { refcnt = refcnt; locked = locked } in
    let t : System = record s {
      cache = record s.cache { buf = update s.cache.buf i b; order = order };
      held = held;
    } in
    Touch-IsCoherent s t i b v (record {
      here = update_self s.cache.buf i b;
      there = λ j n. update_ne s.cache.buf i b j n;
      dev = d;
      same_dev = refl;
      same_block = refl;
      refs = r;
      others = o;
      kept = k;
      bytes_here = v.fresh i d;
      latest_there = λ n h. refl;
      disk_there = λ n h. refl;
      back = back_at s i v d;
      read_first = v.dirty_valid i;
    })

pub lock-IsCoherent :
    (s : System) (i : ℕ)
    → IsCoherent s
    → 1 ≤ count i s.held
    → IsCoherent (record s {
      cache = record s.cache { buf = update s.cache.buf i (acquiresleep (s.cache.buf i)) };
    })
lock-IsCoherent s i v h =
    let d = v.bound i h in
    elim (Bool-cases (s.cache.buf i).locked) [
      | inl y ↦ rw y (
          same-IsCoherent s i (s.cache.buf i).refcnt true s.held s.cache.order v d (v.counted i)
            (λ j n. refl) (λ j l. l))
      | inr n ↦ rw n (
          same-IsCoherent s i (s.cache.buf i).refcnt true s.held s.cache.order v d (v.counted i)
            (λ j n. refl) (λ j l. l))
    ]

-- what iderw has found when it does not panic
pub iderw-transfer :
    (i : ℕ) (c t : Bcache)
    → iderw i c ≡ some t
    → (transfer i c ≡ t) × ((c.buf i).valid && not (c.buf i).dirty ≡ false)
iderw-transfer i c t h =
    let (y, k) = guard-some (not (holdingsleep (c.buf i))) h in
    let (z, l) = guard-some ((c.buf i).valid && not (c.buf i).dirty) k in
    let (w, m) = guard-some (not ((c.buf i).dev == 1)) l in
    let (x, n) = guard-some (not (ltb (c.buf i).blockno c.disksize)) m in (from_some-eq n, z)

-- a block that is read
pub read-IsCoherent :
    (s : System) (i : ℕ)
    → IsCoherent s
    → 1 ≤ count i s.held
    → (s.cache.buf i).valid ≡ false
    → IsCoherent (record s { cache = transfer i s.cache })
read-IsCoherent s i v h inv =
    let d = v.bound i h in
    let b : Buf = record (s.cache.buf i) {
      bytes = s.cache.disk (s.cache.buf i).blockno;
      valid = true;
      dirty = false;
    } in
    let clean : (s.cache.buf i).dirty ≡ false = elim (Bool-cases (s.cache.buf i).dirty) [
      | inl y ↦ absurd (ground (arith, inv, v.dirty_valid i y))
      | inr n ↦ n
    ] in
    rw clean (
      Touch-IsCoherent s (record s { cache = record s.cache { buf = update s.cache.buf i b } }) i b
        v
        (record {
          here = update_self s.cache.buf i b;
          there = λ j n. update_ne s.cache.buf i b j n;
          dev = d;
          same_dev = refl;
          same_block = refl;
          refs = v.counted i;
          others = λ j n. refl;
          kept = λ j l. l;
          bytes_here =
              λ e. elim (back_at s i v d) [ inl q ↦ q | inr y ↦ absurd (ground (arith, y, clean)) ];
          latest_there = λ n l. refl;
          disk_there = λ n l. refl;
          back = elim (back_at s i v d) [
            | inl q ↦ inl q
            | inr y ↦ absurd (ground (arith, y, clean))
          ];
          read_first = λ e. refl;
        }))

-- a block that is written
pub write-IsCoherent :
    (s : System) (i : ℕ)
    → IsCoherent s
    → 1 ≤ count i s.held
    → (s.cache.buf i).valid ≡ true
    → IsCoherent (record s {
      cache =
          transfer i (record s.cache {
            buf = update s.cache.buf i (record (s.cache.buf i) { dirty = true });
          });
    })
write-IsCoherent s i v h ok =
    let d = v.bound i h in
    let b = s.cache.buf i in
    let marked : Buf = record b { dirty = true } in
    let clean : Buf = record b { dirty = false; valid = true } in
    rw (update_self s.cache.buf i marked) (
      Touch-IsCoherent s
        (record s {
          cache = record s.cache {
            disk = update s.cache.disk b.blockno b.bytes;
            buf = update (update s.cache.buf i marked) i clean;
          };
        })
        i clean v
        (record {
          here = update_self (update s.cache.buf i marked) i clean;
          there = λ j n.
              update_ne (update s.cache.buf i marked) i clean j n
              ∙ update_ne s.cache.buf i marked j n;
          dev = d;
          same_dev = refl;
          same_block = refl;
          refs = v.counted i;
          others = λ j n. refl;
          kept = λ j l. l;
          bytes_here = λ e. v.fresh i d ok;
          latest_there = λ n l. refl;
          disk_there = λ n l. update_ne s.cache.disk b.blockno b.bytes n l;
          back = inl (update_self s.cache.disk b.blockno b.bytes ∙ v.fresh i d ok);
          read_first = λ e. refl;
        }))

-- bytes that a process stores in a block, with log_write
pub change-IsCoherent :
    (s : System) (i : ℕ) (x : List ℕ)
    → IsCoherent s
    → 1 ≤ count i s.held
    → (s.cache.buf i).valid ≡ true
    → IsCoherent (record s {
      cache = record s.cache {
        buf = update s.cache.buf i (record (s.cache.buf i) { bytes = x; dirty = true });
      };
      latest = update s.latest (s.cache.buf i).blockno x;
    })
change-IsCoherent s i x v h ok =
    let d = v.bound i h in
    let b : Buf = record (s.cache.buf i) { bytes = x; dirty = true } in
    let n = (s.cache.buf i).blockno in
    Touch-IsCoherent s
      (record s {
        cache = record s.cache { buf = update s.cache.buf i b };
        latest = update s.latest n x;
      })
      i b v
      (record {
        here = update_self s.cache.buf i b;
        there = λ j m. update_ne s.cache.buf i b j m;
        dev = d;
        same_dev = refl;
        same_block = refl;
        refs = v.counted i;
        others = λ j m. refl;
        kept = λ j l. l;
        bytes_here = λ e. sym (update_self s.latest n x);
        latest_there = λ m l. update_ne s.latest n x m l;
        disk_there = λ m l. refl;
        back = inr refl;
        read_first = λ e. ok;
      })

-- brelse behind its test
pub let_go-IsCoherent :
    (s : System) (i : ℕ)
    → IsCoherent s
    → 1 ≤ count i s.held
    → (let n = (s.cache.buf i).refcnt - 1 in
        IsCoherent (record s {
          cache = record s.cache {
            buf = update s.cache.buf i (record (releasesleep (s.cache.buf i)) { refcnt = n });
            order = if n == 0 then i ∷ release i s.cache.order else s.cache.order;
          };
          held = release i s.held;
        }))
let_go-IsCoherent s i v h =
    same-IsCoherent s i ((s.cache.buf i).refcnt - 1) false (release i s.held)
      (if (s.cache.buf i).refcnt - 1 == 0 then i ∷ release i s.cache.order else s.cache.order) v
      (v.bound i h) (ground (arith, v.counted i, count-release i i s.held, ==_self i))
      (λ j n. ground (arith, n, count-release i j s.held))
      (λ j l. ground (arith, l, count-release i j s.cache.order))
