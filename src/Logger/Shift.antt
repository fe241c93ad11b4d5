-- ===== src/Logger/Shift.antt =====
-- swap_logs moves every file up by one number.
use meph_i_semester_4_acos.Base.{
  ℕ, zero, suc, ◌+◌, ◌<◌, ◌≤◌, ◌≡◌, ◌∙◌, inl, inr, refl, sym, ap, true, false, Option, none,
  if◌then◌else◌, is_some, arith, Bool-cases, Nat-cases, Option-cases, ◌==◌, ==_self, ltb,
}
use meph_i_semester_4_acos.Logger.{Bytes, Directory, rename, max_index, shift_from, swap_logs}

max_index-none : (n k : ℕ) (file : ℕ → Option Bytes) → max_index n file < k → k ≤ n → file k ≡ none
unfolding max_index
max_index-none zero k file h l = absurd (omega arith)
max_index-none (suc n) k file h l = elim (Bool-cases (is_some (file (suc n)))) [
  | inl y ↦ absurd (ground arith)
  | inr z ↦ elim (Nat-cases k (suc n)) [
    | inl e ↦ rw e (ground arith)
    | inr ne ↦ max_index-none n k file (rw z at h) (omega arith)
  ]
]

-- a file that is moved to a free number
rename-free :
    (i j k : ℕ) (file : ℕ → Option Bytes)
    → j ≡ suc i
    → file j ≡ none
    → rename i j file k ≡ (if k == j then file i else if k == i then none else file k)
rename-free i j k file e h = elim (Option-cases (file i)) [
  | inr (c, q) ↦ rw q (elim (Bool-cases (k == i)) [
    | inl y ↦ let apart : (k == j) ≡ false = ground arith in rw (y, apart) refl
    | inr n ↦ rw n refl
  ])
  | inl q ↦ rw q (elim (Bool-cases (k == j)) [
    | inl y ↦ let same : k ≡ j = ground arith in rw y (ap file same ∙ h)
    | inr n ↦ rw n (elim (Bool-cases (k == i)) [
      | inl y ↦ let same : k ≡ i = ground arith in rw y (ap file same ∙ q)
      | inr n' ↦ rw n' refl
    ])
  ])
]

abbrev shifted : ℕ → (ℕ → Option Bytes) → ℕ → Option Bytes
shifted i file zero = file zero
shifted i file (suc zero) = none
shifted i file (suc (suc k)) = if ltb k i then file (suc k) else file (suc (suc k))

-- From `i` down, each number from 1 on goes up by one, where `i + 1` is free.
shift_from-shifted :
    (i k : ℕ) (file : ℕ → Option Bytes)
    → file (suc i) ≡ none
    → shift_from i file k ≡ shifted i file k
unfolding shift_from
shift_from-shifted zero zero file h = refl
shift_from-shifted zero (suc zero) file h = h
shift_from-shifted zero (suc (suc k)) file h =
    let low : ltb k 0 ≡ false = ground arith in rw low refl
shift_from-shifted (suc i) k file h =
    let next : suc i + 1 ≡ suc (suc i) = omega arith in
    let free : file (suc i + 1) ≡ none = rw next h in
    let file' = rename (suc i) (suc i + 1) file in
    let moved : (q : ℕ)
        → file' q ≡ (if q == suc i + 1 then file (suc i) else if q == suc i then none else file q) =
      λ q. rename-free (suc i) (suc i + 1) q file next free in
    let first : file' (suc i) ≡ none =
      moved (suc i)
      ∙ (let a : (suc i == suc i + 1) ≡ false = ground arith in rw (a, ==_self (suc i)) refl) in
    shift_from-shifted i k file' first ∙ at k moved
  where
    at :
        (k : ℕ)
        → ((q : ℕ)
            → rename (suc i) (suc i + 1) file q
              ≡ (if q == suc i + 1 then file (suc i) else if q == suc i then none else file q))
        → shifted i (rename (suc i) (suc i + 1) file) k ≡ shifted (suc i) file k
    at zero moved = moved 0 ∙ ground arith
    at (suc zero) moved = refl
    at (suc (suc k)) moved = elim (Bool-cases (ltb k i)) [
      | inl y ↦
          let a : (suc k == suc i + 1) ≡ false = ground arith in
          let b : (suc k == suc i) ≡ false = ground arith in
          let c : ltb k (suc i) ≡ true = ground arith in rw (y, c) (moved (suc k) ∙ rw (a, b) refl)
      | inr n ↦ elim (Nat-cases k i) [
        | inl e ↦
            let a : (suc (suc i) == suc i + 1) ≡ true = ground arith in
            let c : ltb i (suc i) ≡ true = ground arith in
            let n' : ltb i i ≡ false = ground arith in
            rw e (rw (n', c) (moved (suc (suc i)) ∙ rw a refl))
        | inr ne ↦
            let a : (suc (suc k) == suc i + 1) ≡ false = ground arith in
            let b : (suc (suc k) == suc i) ≡ false = ground arith in
            let c : ltb k (suc i) ≡ false = ground arith in
            rw (n, c) (moved (suc (suc k)) ∙ rw (a, b) refl)
      ]
    ]

abbrev pub Finite : ℕ → (ℕ → Option Bytes) → Type 0
Finite last file = (i : ℕ) → last < i → file i ≡ none

above_max :
    (d : Directory) (k : ℕ) → Finite d.last d.file → max_index d.last d.file < k → d.file k ≡ none
above_max d k f h = elim (Bool-cases (ltb d.last k)) [
  | inl y ↦ f k (ground arith)
  | inr n ↦ max_index-none d.last k d.file h (ground arith)
]

-- In a directory where nothing is above `last`: swap_logs moves the log file to number 1 and each
-- number to the next one, those that are not there included, and leaves no log file.
pub swap_logs-shifts :
    (d : Directory)
    → Finite d.last d.file
    → ((k : ℕ) → (swap_logs d).file (suc k) ≡ d.file k) × ((swap_logs d).file 0 ≡ none)
unfolding swap_logs
swap_logs-shifts d f =
    let mx = max_index d.last d.file in
    let file' = shift_from mx d.file in
    let shift : (k : ℕ) → file' k ≡ shifted mx d.file k =
      λ k. shift_from-shifted mx k d.file (above_max d (suc mx) f (omega arith)) in
    let end : (k : ℕ)
        → rename 0 1 file' k ≡ (if k == 1 then file' 0 else if k == 0 then none else file' k) =
      λ k. rename-free 0 1 k file' refl (shift 1) in
    (go end shift, end 0)
  where
    go :
        ((k : ℕ)
          → (swap_logs d).file k ≡ (
              if k == 1
              then shift_from (max_index d.last d.file) d.file 0
              else if k == 0
              then none
              else shift_from (max_index d.last d.file) d.file k))
        → ((k : ℕ)
            → shift_from (max_index d.last d.file) d.file k
              ≡ shifted (max_index d.last d.file) d.file k)
        → (k : ℕ) → (swap_logs d).file (suc k) ≡ d.file k
    go end shift zero = end 1 ∙ shift 0
    go end shift (suc k) =
        let a : (suc (suc k) == 1) ≡ false = ground arith in
        let b : (suc (suc k) == 0) ≡ false = ground arith in
        end (suc (suc k))
        ∙ rw (a, b)
            (shift (suc (suc k)) ∙ elim (Bool-cases (ltb k (max_index d.last d.file))) [
              | inl y ↦ rw y refl
              | inr n ↦ rw n (
                  above_max d (suc (suc k)) f (ground arith)
                  ∙ sym (above_max d (suc k) f (ground arith)))
            ])
