-- ===== src/Kernel/Printf/Tests.antt =====
-- Numbers and formats that are printed.
use meph_i_semester_4_acos.Base.{
  ℕ, ◌-◌, ◌^◌, ◌<◌, ◌≤◌, ◌≡◌, refl, true, inl, List, [], ◌∷◌, ◌++◌, codes, length, arith,
}
use meph_i_semester_4_acos.Kernel.Printf.{convert, buf, printint, printf, atoi}
use meph_i_semester_4_acos.Kernel.Printf.Numbers.{atoi-printint, length-buf}
use meph_i_semester_4_acos.Kernel.Printf.Format.{
  Piece, plain, decimal, text, percent, unknown, printf-written,
}

abbrev minus_two : ℕ
minus_two = 2 ^ 32 - 2

printint-hexadecimal : printint 48879 16 true ≡ codes "BEEF"
unfolding convert
printint-hexadecimal = refl

-- `-2` as an int, in front of a line break
atoi-printint_example :
    (minus_two < 2 ^ 31 → atoi (printint minus_two 10 true ++ (10 ∷ [])) ≡ minus_two)
    × (2 ^ 31 ≤ minus_two
        → (t : List ℕ) × (printint minus_two 10 true ≡ 45 ∷ t)
          × (atoi (t ++ (10 ∷ [])) ≡ 2 ^ 32 - minus_two))
atoi-printint_example = atoi-printint minus_two (10 ∷ []) (omega arith) (inl (omega arith))

length-buf_example : (length (buf minus_two 10 true) ≤ 11) × (length (buf minus_two 16 true) ≤ 9)
length-buf_example = length-buf minus_two true (omega arith)

abbrev memory : ℕ → List ℕ
memory a = codes "sh"

-- "a%d%%%s%q"
abbrev pieces : List Piece
pieces = plain 97 ∷ decimal 42 ∷ percent ∷ text 0 ∷ unknown 113 ∷ []

printf-written_example : printf memory (codes "a%d%%%s%q") (42 ∷ 0 ∷ []) ≡ codes "a42%(null)%q"
unfolding convert
printf-written_example = printf-written memory pieces (
  (λ e. absurd (omega (arith, e))),
  (
    tt,
    (
      tt,
      (
        tt,
        (
          (
            (λ e. absurd (omega (arith, e))),
            (λ e. absurd (omega (arith, e))),
            (λ e. absurd (omega (arith, e))),
            (λ e. absurd (omega (arith, e))),
            (λ e. absurd (omega (arith, e))),
            (λ e. absurd (omega (arith, e))),
          ),
          tt,
        ),
      ),
    ),
  ),
)
