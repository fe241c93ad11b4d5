-- ===== src/Kernel/Printf/Numbers.antt =====
-- The numbers that printint writes.
use meph_i_semester_4_acos.Base.{
  ℕ, zero, suc, ◌+◌, ◌-◌, ◌*◌, ◌/◌, ◌%◌, ◌^◌, ◌≤◌, ◌<◌, ◌≡◌, ◌⊎◌, ◌∙◌, inl, inr, refl, ap, subst,
  Bool, true, false, ◌&&◌, List, [], ◌∷◌, ◌++◌, reverse, append-nil, ◌==◌, leb, if◌then◌else◌,
  arith, Bool-cases, length, length-append,
}
use mathlib.Core.List.{reverse_aux}
use native.Mathlib.Nat.{pow-zero, pow-suc, div-eq_of_lt, div-lt_iff_lt-mul}
use meph_i_semester_4_acos.Kernel.Printf.{
  digit, convert, magnitude, is_negative, buf, printint, atoi_from, atoi,
}

-- no digit comes first
abbrev pub Stops : List ℕ → Type 0
Stops [] = Unit
Stops (c ∷ s) = (c < 48) ⊎ (57 < c)

atoi_from-Stops : (n : ℕ) (s : List ℕ) → Stops s → atoi_from n s ≡ n
unfolding atoi_from
atoi_from-Stops n [] h = refl
atoi_from-Stops n (c ∷ s) (inl l) = ground (arith, l)
atoi_from-Stops n (c ∷ s) (inr l) = ground (arith, l)

atoi_from-digit :
    (n x : ℕ) (s : List ℕ) → x < 10 → atoi_from n (digit x ∷ s) ≡ atoi_from (n * 10 + x) s
unfolding atoi_from
atoi_from-digit n x s h =
    let d : digit x ≡ x + 48 = ground (arith, h) in
    let t : leb 48 (x + 48) && leb (x + 48) 57 ≡ true = ground (arith, h) in
    ap (λ c. atoi_from n (c ∷ s)) d ∙ rw t (ap (λ k. atoi_from k s) (omega arith))

atoi_from-convert :
    (n x : ℕ) (s : List ℕ)
    → x < 10 ^ n
    → atoi_from 0 (reverse_aux (convert n 10 x) s) ≡ atoi_from x s
unfolding convert
atoi_from-convert zero x s h = ap (λ k. atoi_from k s) (omega (arith, h))
atoi_from-convert (suc n) x s h = elim (Bool-cases (x / 10 == 0)) [
  | inl y ↦
      rw y
        (atoi_from-digit 0 (x % 10) s (omega arith) ∙ ap (λ k. atoi_from k s) (ground (arith, y)))
  | inr m ↦ rw m (
      atoi_from-convert n (x / 10) (digit (x % 10) ∷ s) (omega (arith, h, pow-suc 10 n))
      ∙ atoi_from-digit (x / 10) (x % 10) s (omega arith)
      ∙ ap (λ k. atoi_from k s) (omega arith))
]

reverse_aux-append : (xs ys zs : List ℕ) → reverse_aux xs ys ++ zs ≡ reverse_aux xs (ys ++ zs)
reverse_aux-append [] ys zs = refl
reverse_aux-append (x ∷ xs) ys zs = reverse_aux-append xs (x ∷ ys) zs

reverse_aux-snoc :
    (xs ys : List ℕ) (z : ℕ) → reverse_aux (xs ++ (z ∷ [])) ys ≡ z ∷ reverse_aux xs ys
reverse_aux-snoc [] ys z = refl
reverse_aux-snoc (x ∷ xs) ys z = reverse_aux-snoc xs (x ∷ ys) z

-- A number is read back where no digit follows.
atoi_from-reverse :
    (x : ℕ) (s : List ℕ) → x < 2 ^ 32 → Stops s → atoi_from 0 (reverse (convert 32 10 x) ++ s) ≡ x
atoi_from-reverse x s h k =
    ap (atoi_from 0) (reverse_aux-append (convert 32 10 x) [] s)
    ∙ atoi_from-convert 32 x s (omega (arith, h))
    ∙ atoi_from-Stops x s k

-- For a word: printf's `%d` writes an int that is not negative so that atoi reads it back, whatever
-- follows but a digit; it writes a negative one as `-` and then its magnitude, which atoi reads back.
pub atoi-printint :
    (xx : ℕ) (s : List ℕ)
    → xx < 2 ^ 32
    → Stops s
    → (xx < 2 ^ 31 → atoi (printint xx 10 true ++ s) ≡ xx)
      × (2 ^ 31 ≤ xx
          → (t : List ℕ) × (printint xx 10 true ≡ 45 ∷ t) × (atoi (t ++ s) ≡ 2 ^ 32 - xx))
atoi-printint xx s h k = (
  (λ l.
      let n : is_negative xx true ≡ false = ground (arith, l) in
      rw n (
        ap (λ ds. atoi (reverse ds ++ s)) (append-nil (convert 32 10 xx))
        ∙ atoi_from-reverse xx s h k)),
  (λ l.
      let n : is_negative xx true ≡ true = ground (arith, l) in
      rw n (
        reverse (convert 32 10 (2 ^ 32 - xx)),
        reverse_aux-snoc (convert 32 10 (2 ^ 32 - xx)) [] 45,
        atoi_from-reverse (2 ^ 32 - xx) s (omega (arith, l)) k,
      )),
)

length-convert : (n k base x : ℕ) → 0 < base → x < base ^ suc k → length (convert n base x) ≤ suc k
unfolding convert
length-convert zero k base x p h = omega arith
length-convert (suc n) zero base x p h =
    let one : base ^ 1 ≡ base = pow-suc base 0 ∙ ap (λ z. z * base) (pow-zero base) ∙ omega arith in
    elim (Bool-cases (x / base == 0)) [
      | inl y ↦ rw y (omega arith)
      | inr m ↦ absurd (ground (arith, m, div-eq_of_lt (subst (λ y. x < y) one h)))
    ]
length-convert (suc n) (suc k) base x p h =
    let d =
      length-convert n k base (x / base) p
        ((div-lt_iff_lt-mul p).1 (subst (λ y. x < y) (pow-suc base (suc k)) h)) in
    elim (Bool-cases (x / base == 0)) [
      | inl y ↦ rw y (omega arith)
      | inr m ↦ rw m (omega (arith, d))
    ]

abbrev sign : Bool → List ℕ
sign negative = if negative then 45 ∷ [] else []

length-sign : (negative : Bool) → length (sign negative) ≤ 1
length-sign true = omega arith
length-sign false = omega arith

length_at :
    (k base xx : ℕ) (sgn : Bool)
    → 0 < base
    → magnitude xx sgn < base ^ suc k
    → length (buf xx base sgn) ≤ suc (suc k)
length_at k base xx sgn p h =
    let d = length-convert 32 k base (magnitude xx sgn) p h in
    omega (
      arith,
      d,
      length-append (convert 32 base (magnitude xx sgn)) (sign (is_negative xx sgn)),
      length-sign (is_negative xx sgn),
    )

-- For a word, buf of printint (16 characters) takes at most 11 in the base 10 and 9 in the base 16, the
-- bases of its calls.
pub length-buf :
    (xx : ℕ) (sgn : Bool)
    → xx < 2 ^ 32
    → (length (buf xx 10 sgn) ≤ 11) × (length (buf xx 16 sgn) ≤ 9)
length-buf xx sgn h = (
  length_at 9 10 xx sgn (omega arith) (ground (arith, h)),
  length_at 7 16 xx sgn (omega arith) (ground (arith, h)),
)
