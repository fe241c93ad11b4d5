-- ===== src/Kernel/Blocks/Trunc.antt =====
-- What itrunc frees.
use meph_i_semester_4_acos.Base.{
  ℕ, zero, suc, ◌+◌, ◌%◌, ◌≤◌, ◌≡◌, ◌∙◌, inl, inr, refl, sym, ap, Bool, true, false, ◌||◌, ◌&&◌,
  not, Option, none, some, ◌==◌, ==_self, ltb, leb, if◌then◌else◌, arith, Bool-cases, Nat-cases,
  from_some-eq, guard-some, update, update_ne,
}
use meph_i_semester_4_acos.Kernel.Blocks.{
  Disk, Inode, ndirect, nindirect, bpb, bblock, bit, bfree, bind, free_direct, free_words,
  free_indirect, itrunc,
}
use meph_i_semester_4_acos.Kernel.Blocks.Free.{in_use, bfree-marks}

-- `y` is one of the addresses that are not 0 among the `n` from `i` on
unfoldable pub among : ℕ → ℕ → (ℕ → ℕ) → ℕ → Bool
among zero i a y = false
among (suc n) i a y = let rest = among n (i + 1) a y in (not (a i == 0) && a i == y) || rest

-- the inode has block `y`: a direct one, its indirect one, or one that the latter names
abbrev pub has_block : Inode → Disk → ℕ → Bool
has_block ip d y =
    let block = ip.addrs ndirect in
    among ndirect 0 ip.addrs y
    || (not (block == 0) && (among nindirect 0 (d.words block) y || block == y))

-- `d'` is `d` with the blocks of a set taken out of the free map, and the same contents
abbrev pub Frees : (ℕ → Bool) → Disk → Disk → Type 0
Frees set d d' =
    ((y : ℕ) → in_use y d' ≡ (if set y then false else in_use y d)) × (d'.words ≡ d.words)

among-ext :
    (n i : ℕ) (a b : ℕ → ℕ) (y : ℕ) → ((j : ℕ) → i ≤ j → a j ≡ b j) → among n i a y ≡ among n i b y
unfolding among
among-ext zero i a b y h = refl
among-ext (suc n) i a b y h =
    rw (h i (omega arith), among-ext n (i + 1) a b y (λ j l. h j (omega arith))) refl

bind-some :
    {A B : Type 0} (o : Option A) (k : A → Option B) (b : B)
    → bind o k ≡ some b
    → (a : A) × (o ≡ some a) × (k a ≡ some b)
bind-some none k b h = absurd (ground (arith, h))
bind-some (some a) k b h = (a, refl, h)

bfree-words : (b : ℕ) (d d' : Disk) → bfree b d ≡ some d' → d'.words ≡ d.words
unfolding bfree
bfree-words b d d' h =
    let block = bblock b d in
    ap (λ (e : Disk). e.words) (sym (from_some-eq (guard-some (not (bit block (b % bpb) d)) h).1))

bfree-Frees : (b : ℕ) (d d' : Disk) → bfree b d ≡ some d' → Frees (λ y. b == y) d d'
bfree-Frees b d d' h = elim (bfree-marks b d) [
  | inl (e, n) ↦ absurd (ground (arith, h, e))
  | inr (d'', e, m) ↦
      let q : d'' ≡ d' = from_some-eq (sym e ∙ h) in
      (λ y. ap (in_use y) (sym q) ∙ m y ∙ ground arith, bfree-words b d d' h)
]

Frees-trans :
    (p q set : ℕ → Bool) (d e f : Disk)
    → ((y : ℕ) → set y ≡ (p y || q y))
    → Frees p d e
    → Frees q e f
    → Frees set d f
Frees-trans p q set d e f s (h, w) (k, v) = (λ y. ground (arith, s y, h y, k y), v ∙ w)

-- the loop passes an address that is 0, or sets it to 0
addr_zero :
    (n i : ℕ) (a b : ℕ → ℕ) (j : ℕ)
    → a i == 0 ≡ true
    → b j ≡ (if leb (i + 1) j && ltb j (i + 1 + n) then 0 else a j)
    → b j ≡ (if leb i j && ltb j (i + suc n) then 0 else a j)
addr_zero n i a b j z h = elim (Nat-cases j i) [
  | inl e ↦ h ∙ rw e (ground (arith, z))
  | inr ne ↦ h ∙ ground (arith, ne)
]

addr_set :
    (n i : ℕ) (a b : ℕ → ℕ) (j : ℕ)
    → b j ≡ (if leb (i + 1) j && ltb j (i + 1 + n) then 0 else update a i 0 j)
    → b j ≡ (if leb i j && ltb j (i + suc n) then 0 else a j)
addr_set n i a b j h = elim (Nat-cases j i) [
  | inl e ↦ h ∙ rw e (rw (==_self i) (ground arith))
  | inr ne ↦ h ∙ rw (update_ne a i 0 j ne) (ground (arith, ne))
]

free_direct-Frees :
    (n i : ℕ) (ip ip' : Inode) (d d' : Disk)
    → free_direct n i ip d ≡ some (ip', d')
    → Frees (among n i ip.addrs) d d'
      × ((j : ℕ) → ip'.addrs j ≡ (if leb i j && ltb j (i + n) then 0 else ip.addrs j))
unfolding free_direct among
free_direct-Frees zero i ip ip' d d' h =
    let e = from_some-eq h in
    (
      (
        λ y. ap (λ (r : Inode × Disk). in_use y r.1) (sym e),
        ap (λ (r : Inode × Disk). r.1.words) (sym e),
      ),
      λ j. ap (λ (r : Inode × Disk). r.0.addrs j) (sym e) ∙ ground arith,
    )
free_direct-Frees (suc n) i ip ip' d d' h = elim (Bool-cases (ip.addrs i == 0)) [
  | inl z ↦
      let (f, a) = free_direct-Frees n (i + 1) ip ip' d d' (rw z at h) in
      ((λ y. f.0 y ∙ ground (arith, z), f.1), λ j. addr_zero n i ip.addrs ip'.addrs j z (a j))
  | inr z ↦
      let ip1 = record ip { addrs = update ip.addrs i 0 } in
      let (d1, e, k) =
        bind-some (bfree (ip.addrs i) d) (free_direct n (i + 1) ip1) (ip', d') (rw z at h) in
      let (f, a) = free_direct-Frees n (i + 1) ip1 ip' d1 d' k in
      (
        Frees-trans (λ y. ip.addrs i == y) (among n (i + 1) (update ip.addrs i 0)) _ d d1 d'
            (λ y. rw z (
              ap (λ r. ip.addrs i == y || r)
                (among-ext n (i + 1) ip.addrs (update ip.addrs i 0) y
                  (λ j l. sym (update_ne ip.addrs i 0 j (λ e. omega arith))))))
            (bfree-Frees (ip.addrs i) d d1 e) f,
        λ j. addr_set n i ip.addrs ip'.addrs j (a j),
      )
]

free_words-Frees :
    (n j : ℕ) (a : ℕ → ℕ) (d d' : Disk) → free_words n j a d ≡ some d' → Frees (among n j a) d d'
unfolding free_words among
free_words-Frees zero j a d d' h =
    let e = from_some-eq h in (λ y. ap (in_use y) (sym e), ap (λ (r : Disk). r.words) (sym e))
free_words-Frees (suc n) j a d d' h = elim (Bool-cases (a j == 0)) [
  | inl z ↦
      let f = free_words-Frees n (j + 1) a d d' (rw z at h) in (λ y. f.0 y ∙ ground (arith, z), f.1)
  | inr z ↦
      let (d1, e, k) = bind-some (bfree (a j) d) (free_words n (j + 1) a) d' (rw z at h) in
      Frees-trans (λ y. a j == y) (among n (j + 1) a) _ d d1 d' (λ y. rw z refl)
        (bfree-Frees (a j) d d1 e) (free_words-Frees n (j + 1) a d1 d' k)
]

-- the inode is empty, and of the free map exactly its blocks are given back
abbrev pub IsEmptied : Inode → Disk → Inode × Disk → Type 0
IsEmptied ip d (ip', d') =
    (ip'.size ≡ 0)
    × ((j : ℕ) → j ≤ ndirect → ip'.addrs j ≡ 0)
    × ((y : ℕ) → in_use y d' ≡ (if has_block ip d y then false else in_use y d))

has_block-more :
    (ip : Inode) (d d1 : Disk) (block y : ℕ)
    → block ≡ ip.addrs ndirect
    → d1.words ≡ d.words
    → block == 0 ≡ false
    → has_block ip d y
      ≡ (among ndirect 0 ip.addrs y || (among nindirect 0 (d1.words block) y || block == y))
has_block-more ip d d1 block y e w z =
    let z' : (ip.addrs ndirect == 0) ≡ false = rw e at z in rw (w, e, z') refl

last_cleared :
    (a b : ℕ → ℕ) (j : ℕ)
    → j ≤ ndirect
    → b j ≡ (if leb 0 j && ltb j ndirect then 0 else a j)
    → update b ndirect 0 j ≡ 0
last_cleared a b j l h = elim (Nat-cases j ndirect) [
  | inl e ↦ rw e refl
  | inr ne ↦ update_ne b ndirect 0 j ne ∙ h ∙ ground (arith, l, ne)
]

up_to_last :
    (a : ℕ → ℕ) (j : ℕ)
    → j ≤ ndirect
    → a ndirect ≡ 0
    → (if leb 0 j && ltb j ndirect then 0 else a j) ≡ 0
up_to_last a j l z = elim (Nat-cases j ndirect) [ inl e ↦ rw e z | inr ne ↦ ground (arith, l, ne) ]

-- behind the direct blocks
free_indirect-Emptied :
    (ip ip1 ip' : Inode) (d d1 d' : Disk)
    → Frees (among ndirect 0 ip.addrs) d d1
    → ((j : ℕ) → ip1.addrs j ≡ (if leb 0 j && ltb j ndirect then 0 else ip.addrs j))
    → free_indirect ip1 d1 ≡ some (ip', d')
    → IsEmptied ip d (ip', d')
free_indirect-Emptied ip ip1 ip' d d1 d' f a h = elim (Bool-cases (ip1.addrs ndirect == 0)) [
  | inl z ↦
      let e = from_some-eq (rw z at h) in
      let last : ip.addrs ndirect ≡ 0 = ground (arith, z, a ndirect) in
      (
        ap (λ (r : Inode × Disk). r.0.size) (sym e),
        λ j l. ap (λ (r : Inode × Disk). r.0.addrs j) (sym e) ∙ a j ∙ up_to_last ip.addrs j l last,
        λ y. ap (λ (r : Inode × Disk). in_use y r.1) (sym e) ∙ f.0 y ∙ ground (arith, last),
      )
  | inr z ↦
      let block = ip1.addrs ndirect in
      let here : block ≡ ip.addrs ndirect = a ndirect in
      let (d2, e2, k2) =
        bind-some (free_words nindirect 0 (d1.words block) d1)
          (λ d2.
            bind (bfree block d2)
              (λ d3. some (record ip1 { addrs = update ip1.addrs ndirect 0; size = 0 }, d3)))
          (ip', d') (rw z at h) in
      let (d3, e3, k3) =
        bind-some (bfree block d2)
          (λ d3. some (record ip1 { addrs = update ip1.addrs ndirect 0; size = 0 }, d3)) (ip', d')
          k2 in
      let e = from_some-eq k3 in
      let words = among nindirect 0 (d1.words block) in
      let all : Frees (has_block ip d) d d3 =
        Frees-trans (among ndirect 0 ip.addrs) (λ y. words y || block == y) (has_block ip d) d d1 d3
          (λ y. has_block-more ip d d1 block y here f.1 z) f
          (Frees-trans words (λ y. block == y) _ d1 d2 d3 (λ y. refl)
            (free_words-Frees nindirect 0 (d1.words block) d1 d2 e2)
            (bfree-Frees block d2 d3 e3)) in
      (
        ap (λ (r : Inode × Disk). r.0.size) (sym e),
        λ j l.
            ap (λ (r : Inode × Disk). r.0.addrs j) (sym e)
            ∙ last_cleared ip.addrs ip1.addrs j l (a j),
        λ y. ap (λ (r : Inode × Disk). in_use y r.1) (sym e) ∙ all.0 y,
      )
]

pub itrunc-Emptied :
    (ip : Inode) (d : Disk) (r : Inode × Disk) → itrunc ip d ≡ some r → IsEmptied ip d r
unfolding itrunc
itrunc-Emptied ip d (ip', d') h =
    let ((ip1, d1), e, k) =
      bind-some (free_direct ndirect 0 ip d) (λ r. free_indirect r.0 r.1) (ip', d') h in
    let (f, a) = free_direct-Frees ndirect 0 ip ip1 d d1 e in
    free_indirect-Emptied ip ip1 ip' d d1 d' f a k
