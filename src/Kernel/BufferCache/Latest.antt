-- ===== src/Kernel/BufferCache/Latest.antt =====
-- A block that is read has the contents that it was last given.
use meph_i_semester_4_acos.Base.{
  ℕ, ◌<◌, ◌≡◌, ◌⊎◌, ◌∙◌, inl, inr, refl, subst, ap, Bool, true, false, ◌&&◌, not, Option, none,
  some, List, [], ◌∷◌, ◌==◌, ltb, if◌then◌else◌, update, update_self, arith, Bool-cases,
  from_some-eq, if_some, guard-some, both, ltb→lt, guard-none, count, release,
}
use meph_i_semester_4_acos.Kernel.BufferCache.{
  Buf, Bcache, binit, acquiresleep, holdingsleep, transfer, iderw, bread, bwrite, brelse,
}
use meph_i_semester_4_acos.Kernel.BufferCache.Coherent.{
  System, Op, get, lock, read, write, release_it, change, with_cache, let_go, has, has_read, act,
  IsCoherent,
}
use meph_i_semester_4_acos.Kernel.BufferCache.Steps.{
  lock-IsCoherent, iderw-transfer, read-IsCoherent, write-IsCoherent, change-IsCoherent,
  let_go-IsCoherent,
}
use meph_i_semester_4_acos.Kernel.BufferCache.Lookup.{bget-IsCoherent}

either : {A : Type 0} {x y : A} (b : Bool) (P : A → Type 0) → P x → P y → P (if b then x else y)
either true P h k = h
either false P h k = k

read_at :
    (valid : Bool) (c : Bcache) (o : Option Bcache) {d : Bcache}
    → (if not valid then o else some c) ≡ some d
    → (c ≡ d) ⊎ ((valid ≡ false) × (o ≡ some d))
read_at true c o h = inl (from_some-eq h)
read_at false c o h = inr (refl, h)

-- iderw does not panic where its tests pass.
iderw-some :
    (i : ℕ) (c : Bcache)
    → holdingsleep (c.buf i) ≡ true
    → (c.buf i).valid ≡ false
    → (c.buf i).dev ≡ 1
    → (c.buf i).blockno < c.disksize
    → iderw i c ≡ some (transfer i c)
iderw-some i c h v d l =
    guard-none (not (holdingsleep (c.buf i))) (ap not h)
    ∙ guard-none ((c.buf i).valid && not (c.buf i).dirty) (ap (λ b. b && not (c.buf i).dirty) v)
    ∙ guard-none (not ((c.buf i).dev == 1)) (ground (arith, d))
    ∙ guard-none (not (ltb (c.buf i).blockno c.disksize)) (ground (arith, l))

-- a buffer behind a transfer
transfer_self :
    (i : ℕ) (c : Bcache)
    → (let b = (transfer i c).buf i in
        (b.dev ≡ (c.buf i).dev) × (b.blockno ≡ (c.buf i).blockno) × (b.valid ≡ true))
transfer_self i c =
    let b = c.buf i in
    let written : Buf = record b { dirty = false; valid = true } in
    let filled : Buf = record b { bytes = c.disk b.blockno; valid = true } in
    either b.dirty
      (λ (t : Bcache).
        let b' = t.buf i in (b'.dev ≡ b.dev) × (b'.blockno ≡ b.blockno) × (b'.valid ≡ true))
      (rw (update_self c.buf i written) (refl, refl, refl))
      (rw (update_self c.buf i filled) (refl, refl, refl))

-- what bread has done
bread-some :
    (i : ℕ) (c d : Bcache)
    → bread i c ≡ some d
    → (c ≡ d) ⊎ (((c.buf i).valid ≡ false) × (transfer i c ≡ d))
bread-some i c d h = elim (read_at (c.buf i).valid c (iderw i c) h) [
  | inl e ↦ inl e
  | inr (n, e) ↦ inr (n, (iderw-transfer i c d e).0)
]

with_cache-some :
    (s t : System) (o : Option Bcache)
    → with_cache s o ≡ some t
    → (c : Bcache) × (o ≡ some c) × (record s { cache = c } ≡ t)
with_cache-some s t none h = absurd (ground (arith, h))
with_cache-some s t (some c) h = (c, refl, from_some-eq h)

let_go-some :
    (s t : System) (i : ℕ) (o : Option Bcache)
    → let_go s i o ≡ some t
    → (c : Bcache) × (o ≡ some c) × (record s { cache = c; held = release i s.held } ≡ t)
let_go-some s t i none h = absurd (ground (arith, h))
let_go-some s t i (some c) h = (c, refl, from_some-eq h)

-- Every operation keeps the cache coherent.
act-IsCoherent : (x : Op) (s t : System) → IsCoherent s → act x s ≡ some t → IsCoherent t
act-IsCoherent (get blockno) s t v h = bget-IsCoherent s t blockno v h
act-IsCoherent (lock i) s t v h =
    if_some IsCoherent (ltb 0 (count i s.held))
      (some (record s {
        cache = record s.cache { buf = update s.cache.buf i (acquiresleep (s.cache.buf i)) };
      }))
      v (λ y e. subst IsCoherent (from_some-eq e) (lock-IsCoherent s i v (ground (arith, y)))) h
act-IsCoherent (read i) s t v h =
    if_some IsCoherent (has i s) (with_cache s (bread i s.cache)) v
      (λ y e.
        (let (c, f, g) = with_cache-some s t (bread i s.cache) e in
          elim (bread-some i s.cache c f) [
            | inl q ↦ subst IsCoherent g (subst (λ d. IsCoherent (record s { cache = d })) q v)
            | inr (n, q) ↦ subst IsCoherent g (
                subst (λ d. IsCoherent (record s { cache = d })) q
                  (read-IsCoherent s i v (ground (arith, y)) n))
          ]))
      h
act-IsCoherent (write i) s t v h =
    if_some IsCoherent (has_read i s) (with_cache s (bwrite i s.cache)) v
      (λ y e.
        (let (c, f, g) = with_cache-some s t (bwrite i s.cache) e in
          subst IsCoherent g (
            subst (λ d. IsCoherent (record s { cache = d }))
              (iderw-transfer i
                (record s.cache {
                  buf = update s.cache.buf i (record (s.cache.buf i) { dirty = true });
                })
                c (guard-some (not (holdingsleep (s.cache.buf i))) f).1).0
              (write-IsCoherent s i v (ground (arith, y)) (ground (arith, y))))))
      h
act-IsCoherent (release_it i) s t v h =
    if_some IsCoherent (has i s) (let_go s i (brelse i s.cache)) v
      (λ y e.
        (let (c, f, g) = let_go-some s t i (brelse i s.cache) e in
          subst IsCoherent g (
            subst (λ d. IsCoherent (record s { cache = d; held = release i s.held }))
              (from_some-eq ((guard-some (not (holdingsleep (s.cache.buf i))) f).1))
              (let_go-IsCoherent s i v (ground (arith, y))))))
      h
act-IsCoherent (change i x) s t v h =
    if_some IsCoherent (has_read i s)
      (some (record s {
        cache = record s.cache {
          buf = update s.cache.buf i (record (s.cache.buf i) { bytes = x; dirty = true });
        };
        latest = update s.latest (s.cache.buf i).blockno x;
      }))
      v
      (λ y e.
        subst IsCoherent (from_some-eq e)
          (change-IsCoherent s i x v (ground (arith, y)) (ground (arith, y))))
      h

abbrev pub run_from : Option System → List Op → Option System
run_from none xs = none
run_from (some s) [] = some s
run_from (some s) (x ∷ xs) = run_from (act x s) xs

run-IsCoherent :
    (xs : List Op) (o : Option System) (t : System)
    → ((s : System) → o ≡ some s → IsCoherent s)
    → run_from o xs ≡ some t
    → IsCoherent t
run-IsCoherent xs none t v h = absurd (ground (arith, h))
run-IsCoherent [] (some s) t v h = v t h
run-IsCoherent (x ∷ xs) (some s) t v h =
    run-IsCoherent xs (act x s) t (λ u e. act-IsCoherent x s u (v s refl) e) h

-- the cache as binit leaves it
abbrev pub start : (ℕ → List ℕ) → ℕ → System
start disk disksize = record { cache = binit disk disksize; held = []; latest = disk }

start-IsCoherent : (disk : ℕ → List ℕ) (disksize : ℕ) → IsCoherent (start disk disksize)
start-IsCoherent disk disksize = record {
  counted = λ i. refl;
  bound = λ i h. absurd (omega (arith, h));
  listed = λ i h. absurd (omega (arith, h));
  unique = λ i j h g e. absurd (omega (arith, h));
  fresh = λ i h g. absurd (omega (arith, h));
  backed = λ n. inl refl;
  dirty_valid = λ i h. h;
}

-- Processes take, lock, read, change, write and release buffers in any order, each only a buffer that
-- bget has given out, and no operation has panicked. Then for a buffer that is held and locked, and
-- whose block is on the disk: no other buffer is for its block, bread does not panic, and it gives the
-- block with the bytes that it was last given by any process.
pub bread-latest :
    (disk : ℕ → List ℕ) (disksize : ℕ) (xs : List Op) (s : System) (i : ℕ)
    → run_from (some (start disk disksize)) xs ≡ some s
    → has i s ≡ true
    → (s.cache.buf i).blockno < s.cache.disksize
    → ((j : ℕ)
        → (s.cache.buf j).dev ≡ 1
        → (s.cache.buf j).blockno ≡ (s.cache.buf i).blockno
        → j ≡ i)
      × ((c : Bcache) × (bread i s.cache ≡ some c)
          × ((c.buf i).blockno ≡ (s.cache.buf i).blockno)
          × ((c.buf i).bytes ≡ s.latest (s.cache.buf i).blockno))
bread-latest disk disksize xs s i h y l =
    let v =
      run-IsCoherent xs (some (start disk disksize)) s
        (λ u e. subst IsCoherent (from_some-eq e) (start-IsCoherent disk disksize)) h in
    let (k, q) = both (ltb 0 (count i s.held)) (holdingsleep (s.cache.buf i)) y in
    let m = ltb→lt 0 (count i s.held) k in
    let d = v.bound i m in
    (
      (λ j g e. v.unique j i g d e),
      elim (Bool-cases (s.cache.buf i).valid) [
        | inl r ↦ (
          s.cache,
          ap (λ b. if not b then iderw i s.cache else some s.cache) r,
          refl,
          v.fresh i d r,
        )
        | inr n ↦
            let (e, f, g) = transfer_self i s.cache in
            (
              transfer i s.cache,
              ap (λ b. if not b then iderw i s.cache else some s.cache) n
                  ∙ iderw-some i s.cache q n d l,
              f,
              (read-IsCoherent s i v m n).fresh i (e ∙ d) g ∙ ap s.latest f,
            )
      ],
    )
