-- ===== src/Kernel/Files/Handles.antt =====
-- The count of an entry is the number of handles that its holders have.
use meph_i_semester_4_acos.Base.{
  count, release, count-release, ℕ, zero, suc, ◌+◌, ◌-◌, ◌<◌, ◌≡◌, ◌≢◌, ◌∙◌, inl, inr, refl, sym,
  from_some-eq, true, false, Option, none, some, ◌==◌, ==_self, ltb, if◌then◌else◌, update, arith,
  Bool-cases, Option-cases, List, [], ◌∷◌,
}
use meph_i_semester_4_acos.Kernel.Files.{
  nfile, File, Ftable, filealloc_from, filealloc, filedup, Closing, nothing, closing, fileclose,
}

-- The table, and a handle for each pointer to an entry that its holders have.
pub record Open : Type 0 where
  pub table : Ftable
  pub handles : List ℕ

pub data Action : Type 0 where
  allocs : Action
  dups : ℕ → Action
  closes : ℕ → Action

abbrev pub opened : Ftable × Option ℕ → List ℕ → Open
opened (t, none) hs = record { table = t; handles = hs }
opened (t, some f) hs = record { table = t; handles = f ∷ hs }

abbrev pub dupped : ℕ → List ℕ → Option Ftable → Option Open
dupped f hs none = none
dupped f hs (some t) = some (record { table = t; handles = f ∷ hs })

abbrev pub closed : ℕ → List ℕ → Option (Ftable × Closing) → Option Open
closed f hs none = none
closed f hs (some (t, c)) = some (record { table = t; handles = release f hs })

-- Only a holder duplicates or closes; `none` is a panic.
abbrev pub act : Action → Open → Option Open
act allocs o = some (opened (filealloc o.table) o.handles)
act (dups f) o =
    if ltb 0 (count f o.handles) then dupped f o.handles (filedup f o.table) else some o
act (closes f) o =
    if ltb 0 (count f o.handles) then closed f o.handles (fileclose f o.table) else some o

-- (An index beyond the table has no entry: there the count is 0, and so is the number of handles.)
abbrev pub Counted : Open → Type 0
Counted o = (f : ℕ) → (o.table f).ref ≡ count f o.handles

filealloc_from-free : (n f g : ℕ) (t : Ftable) → filealloc_from n f t ≡ some g → (t g).ref ≡ 0
unfolding filealloc_from
filealloc_from-free zero f g t h = absurd (ground arith)
filealloc_from-free (suc n) f g t h = elim (Bool-cases ((t f).ref == 0)) [
  | inr z ↦ filealloc_from-free n (f + 1) g t (rw z at h)
  | inl y ↦
      let e : f ≡ g = from_some-eq (rw y at h) in let z : (t f).ref ≡ 0 = ground arith in rw e at z
]

-- an entry with its count changed, and everything else of it as it may be
counted_at :
    (t : Ftable) (hs hs' : List ℕ) (f : ℕ) (p : File)
    → ((g : ℕ) → (t g).ref ≡ count g hs)
    → p.ref ≡ count f hs'
    → ((g : ℕ) → g ≢ f → count g hs' ≡ count g hs)
    → (g : ℕ) → (update t f p g).ref ≡ count g hs'
counted_at t hs hs' f p c q k g = elim (Bool-cases (g == f)) [
  | inl y ↦ let e : g ≡ f = ground arith in rw (y, e) q
  | inr n ↦ rw n (c g ∙ sym (k g (λ e. ground arith)))
]

act-Counted : (a : Action) (o : Open) → Counted o → (o' : Open) × (act a o ≡ some o') × Counted o'
unfolding filealloc filedup fileclose
act-Counted allocs o c = elim (Option-cases (filealloc_from nfile 0 o.table)) [
  | inl e ↦ rw e (o, refl, c)
  | inr (f, e) ↦
      let z = filealloc_from-free nfile 0 f o.table e in
      let unheld : count f o.handles ≡ 0 = sym (c f) ∙ z in
      rw e (
        record {
          table = update o.table f (record (o.table f) { ref = 1 });
          handles = f ∷ o.handles;
        },
        refl,
        counted_at o.table o.handles (f ∷ o.handles) f _ c (rw (==_self f, unheld) refl)
            (λ g n. ground (arith, n)),
      )
]
act-Counted (dups f) o c = elim (Bool-cases (ltb 0 (count f o.handles))) [
  | inr n ↦ rw n (o, refl, c)
  | inl y ↦
      let held : ltb (o.table f).ref 1 ≡ false = rw (c f) (ground arith) in
      rw (y, held)
        (
          _,
          refl,
          counted_at o.table o.handles (f ∷ o.handles) f _ c (rw (==_self f) (ground (arith, c f)))
              (λ g n. ground (arith, n)),
        )
]
act-Counted (closes f) o c = elim (Bool-cases (ltb 0 (count f o.handles))) [
  | inr n ↦ rw n (o, refl, c)
  | inl y ↦
      let held : ltb (o.table f).ref 1 ≡ false = rw (c f) (ground arith) in
      let less : count f (release f o.handles) ≡ count f o.handles - 1 =
        count-release f f o.handles ∙ rw (==_self f) refl in
      let same : (g : ℕ) → g ≢ f → count g (release f o.handles) ≡ count g o.handles =
        λ g n. count-release f g o.handles ∙ ground (arith, n) in
      rw (y, held)
        (elim (Bool-cases (ltb 0 ((o.table f).ref - 1))) [
          | inl u ↦ rw u (
            _,
            refl,
            counted_at o.table o.handles (release f o.handles) f _ c (rw less (omega (arith, c f)))
                same,
          )
          | inr u ↦ rw u (
            _,
            refl,
            counted_at o.table o.handles (release f o.handles) f _ c (rw less (ground (arith, c f)))
                same,
          )
        ])
]

abbrev pub run_after : (Open → Option Open) → Option Open → Option Open
run_after k none = none
run_after k (some o) = k o

abbrev pub run : List Action → Open → Option Open
run [] o = some o
run (a ∷ acts) o = run_after (run acts) (act a o)

-- Where each count is the number of handles, and each holder duplicates and closes only what it
-- holds: no filealloc, filedup or fileclose panics, in any order, and each count stays the number
-- of handles.
pub run-Counted :
    (acts : List Action) (o : Open) → Counted o → (o' : Open) × (run acts o ≡ some o') × Counted o'
run-Counted [] o c = (o, refl, c)
run-Counted (a ∷ acts) o c =
    let (o1, e1, c1) = act-Counted a o c in
    let (o2, e2, c2) = run-Counted acts o1 c1 in (o2, rw e1 e2, c2)

-- Where each count is the number of handles: the fileclose of an entry that is held closes the pipe or puts the inode if it is the last handle,
-- and does nothing more if it is not.
pub fileclose-last :
    (f : ℕ) (o : Open)
    → Counted o
    → 0 < count f o.handles
    → (t : Ftable) × (fileclose f o.table
        ≡ some (t, if count f o.handles == 1 then closing (o.table f) else nothing))
unfolding fileclose
fileclose-last f o c h =
    let held : ltb (o.table f).ref 1 ≡ false = ground (arith, c f) in
    elim (Bool-cases (count f o.handles == 1)) [
      | inl y ↦
          let last : ltb 0 ((o.table f).ref - 1) ≡ false = ground (arith, c f) in
          rw (y, held, last) (_, refl)
      | inr n ↦
          let more : ltb 0 ((o.table f).ref - 1) ≡ true = ground (arith, c f) in
          rw (n, held, more) (_, refl)
    ]
