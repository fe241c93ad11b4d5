-- ===== src/Kernel/BufferCache/Coherent.antt =====
-- The cache is the disk as it was last written: what its operations keep.
use meph_i_semester_4_acos.Base.{
  ℕ, ◌≤◌, ◌≡◌, ◌≢◌, ◌⊎◌, ◌∙◌, inl, inr, sym, ap, Bool, true, ◌&&◌, Option, none, some, List, ◌∷◌,
  ltb, if◌then◌else◌, update, arith, Nat-cases, count, release,
}
use meph_i_semester_4_acos.Kernel.BufferCache.{
  Buf, Bcache, acquiresleep, holdingsleep, bget, bread, bwrite, brelse,
}

-- The cache, a handle for each reference that bget has given, and the latest contents of each block.
pub record System : Type 0 where
  pub cache : Bcache
  pub held : List ℕ
  pub latest : ℕ → List ℕ

-- One operation. `change i x` is what a process does that has read a block: new bytes, and log_write.
pub data Op : Type 0 where
  get : ℕ → Op
  lock read write release_it : ℕ → Op
  change : ℕ → List ℕ → Op

abbrev pub with_cache : System → Option Bcache → Option System
with_cache s none = none
with_cache s (some c) = some (record s { cache = c })

abbrev pub got : System → Option (ℕ × Bcache) → Option System
got s none = none
got s (some (i, c)) = some (record s { cache = c; held = i ∷ s.held })

abbrev pub let_go : System → ℕ → Option Bcache → Option System
let_go s i none = none
let_go s i (some c) = some (record s { cache = c; held = release i s.held })

-- whether some process has the buffer with its lock, and with the block in it
abbrev pub has : ℕ → System → Bool
has i s = ltb 0 (count i s.held) && holdingsleep (s.cache.buf i)

abbrev pub has_read : ℕ → System → Bool
has_read i s = has i s && (s.cache.buf i).valid

-- Only a process that has the buffer does these; `none` is a panic.
abbrev pub act : Op → System → Option System
act (get blockno) s = got s (bget 1 blockno s.cache)
act (lock i) s =
    if ltb 0 (count i s.held)
    then some (record s {
      cache = record s.cache { buf = update s.cache.buf i (acquiresleep (s.cache.buf i)) };
    })
    else some s
act (read i) s = if has i s then with_cache s (bread i s.cache) else some s
act (write i) s = if has_read i s then with_cache s (bwrite i s.cache) else some s
act (release_it i) s = if has i s then let_go s i (brelse i s.cache) else some s
act (change i x) s =
    let b = s.cache.buf i in
    if has_read i s
    then some (record s {
      cache = record s.cache { buf = update s.cache.buf i (record b { bytes = x; dirty = true }) };
      latest = update s.latest b.blockno x;
    })
    else some s

pub record IsCoherent (s : System) : Type 0 where
  pub counted : (i : ℕ) → (s.cache.buf i).refcnt ≡ count i s.held
  pub bound : (i : ℕ) → 1 ≤ count i s.held → (s.cache.buf i).dev ≡ 1
  pub listed : (i : ℕ) → (s.cache.buf i).dev ≡ 1 → 1 ≤ count i s.cache.order
  pub unique :
      (i j : ℕ)
      → (s.cache.buf i).dev ≡ 1
      → (s.cache.buf j).dev ≡ 1
      → (s.cache.buf i).blockno ≡ (s.cache.buf j).blockno
      → i ≡ j
  pub fresh :
      (i : ℕ)
      → (s.cache.buf i).dev ≡ 1
      → (s.cache.buf i).valid ≡ true
      → (s.cache.buf i).bytes ≡ s.latest (s.cache.buf i).blockno
  pub backed :
      (n : ℕ)
      → (s.cache.disk n ≡ s.latest n)
        ⊎ ((i : ℕ) × ((s.cache.buf i).dev ≡ 1)
            × ((s.cache.buf i).blockno ≡ n)
            × ((s.cache.buf i).dirty ≡ true))
  pub dirty_valid : (i : ℕ) → (s.cache.buf i).dirty ≡ true → (s.cache.buf i).valid ≡ true

-- a buffer that changes and keeps its block, with what may change beside it
pub record Touch (s t : System) (i : ℕ) (b : Buf) : Type 0 where
  pub here : t.cache.buf i ≡ b
  pub there : (j : ℕ) → j ≢ i → t.cache.buf j ≡ s.cache.buf j
  pub dev : (s.cache.buf i).dev ≡ 1
  pub same_dev : b.dev ≡ (s.cache.buf i).dev
  pub same_block : b.blockno ≡ (s.cache.buf i).blockno
  pub refs : b.refcnt ≡ count i t.held
  pub others : (j : ℕ) → j ≢ i → count j t.held ≡ count j s.held
  pub kept : (j : ℕ) → 1 ≤ count j s.cache.order → 1 ≤ count j t.cache.order
  pub bytes_here : b.valid ≡ true → b.bytes ≡ t.latest (s.cache.buf i).blockno
  pub latest_there : (n : ℕ) → n ≢ (s.cache.buf i).blockno → t.latest n ≡ s.latest n
  pub disk_there : (n : ℕ) → n ≢ (s.cache.buf i).blockno → t.cache.disk n ≡ s.cache.disk n
  pub back :
      (t.cache.disk (s.cache.buf i).blockno ≡ t.latest (s.cache.buf i).blockno) ⊎ (b.dirty ≡ true)
  pub read_first : b.dirty ≡ true → b.valid ≡ true

Touch-dev :
    (s t : System) (i : ℕ) (b : Buf)
    → Touch s t i b
    → (j : ℕ) → (t.cache.buf j).dev ≡ (s.cache.buf j).dev
Touch-dev s t i b k j = elim (Nat-cases j i) [
  | inl e ↦ rw e (rw (k.here) k.same_dev)
  | inr n ↦ ap (λ x. x.dev) (k.there j n)
]

Touch-block :
    (s t : System) (i : ℕ) (b : Buf)
    → Touch s t i b
    → (j : ℕ) → (t.cache.buf j).blockno ≡ (s.cache.buf j).blockno
Touch-block s t i b k j = elim (Nat-cases j i) [
  | inl e ↦ rw e (rw (k.here) k.same_block)
  | inr n ↦ ap (λ x. x.blockno) (k.there j n)
]

Touch-backed :
    (s t : System) (i : ℕ) (b : Buf)
    → IsCoherent s
    → Touch s t i b
    → (n : ℕ)
    → (t.cache.disk n ≡ t.latest n)
      ⊎ ((j : ℕ) × ((t.cache.buf j).dev ≡ 1)
          × ((t.cache.buf j).blockno ≡ n)
          × ((t.cache.buf j).dirty ≡ true))
Touch-backed s t i b v k n = elim (Nat-cases n (s.cache.buf i).blockno) [
  | inl e ↦ elim (k.back) [
    | inl q ↦ inl (rw e q)
    | inr y ↦ inr (i, Touch-dev s t i b k i ∙ k.dev, Touch-block s t i b k i ∙ sym e, rw (k.here) y)
  ]
  | inr m ↦ elim (v.backed n) [
    | inl q ↦ inl (k.disk_there n m ∙ q ∙ sym (k.latest_there n m))
    | inr (j, d, l, y) ↦
        let away : j ≢ i = λ e. m (sym l ∙ ap (λ x. (s.cache.buf x).blockno) e) in
        inr (j, Touch-dev s t i b k j ∙ d, Touch-block s t i b k j ∙ l, rw (k.there j away) y)
  ]
]

pub Touch-IsCoherent :
    (s t : System) (i : ℕ) (b : Buf) → IsCoherent s → Touch s t i b → IsCoherent t
Touch-IsCoherent s t i b v k = record {
  counted = λ j. elim (Nat-cases j i) [
    | inl e ↦ rw e (rw (k.here) k.refs)
    | inr n ↦ rw (k.there j n) (v.counted j ∙ sym (k.others j n))
  ];
  bound = λ j h. elim (Nat-cases j i) [
    | inl e ↦ rw e (rw (k.here) (k.same_dev ∙ k.dev))
    | inr n ↦ rw (k.there j n) (v.bound j (omega (arith, h, k.others j n)))
  ];
  listed = λ j h. k.kept j (v.listed j (sym (Touch-dev s t i b k j) ∙ h));
  unique = λ j l h g e.
      v.unique j l (sym (Touch-dev s t i b k j) ∙ h) (sym (Touch-dev s t i b k l) ∙ g)
        (sym (Touch-block s t i b k j) ∙ e ∙ Touch-block s t i b k l);
  fresh = λ j h g. elim (Nat-cases j i) [
    | inl e ↦ rw e (rw (k.here) (rw (k.same_block) (k.bytes_here (rw (k.here) at (rw e at g)))))
    | inr n ↦
        let d = sym (Touch-dev s t i b k j) ∙ h in
        rw (k.there j n) (
          v.fresh j d (rw (k.there j n) at g)
          ∙ sym (k.latest_there (s.cache.buf j).blockno (λ e. n (v.unique j i d k.dev e))))
  ];
  backed = Touch-backed s t i b v k;
  dirty_valid = λ j h. elim (Nat-cases j i) [
    | inl e ↦ rw e (rw (k.here) (k.read_first (rw (k.here) at (rw e at h))))
    | inr n ↦ rw (k.there j n) (v.dirty_valid j (rw (k.there j n) at h))
  ];
}
