-- ===== src/Kernel/Printf/Format.antt =====
-- What printf writes for a format.
use meph_i_semester_4_acos.Base.{
  ℕ, ◌%◌, ◌≡◌, ◌≢◌, ◌∙◌, refl, ap, All, true, false, List, [], ◌∷◌, ◌++◌, arith, ◌==◌, ◌||◌,
}
use meph_i_semester_4_acos.Kernel.Printf.{printint, text_at, directive, printf_from, printf}

-- A piece of a format, with the argument that it takes.
pub data Piece : Type 0 where
  plain : ℕ → Piece
  decimal hexadecimal pointer text character : ℕ → Piece
  percent : Piece
  unknown : ℕ → Piece

abbrev pub written : Piece → List ℕ
written (plain c) = c ∷ []
written (decimal a) = 37 ∷ 100 ∷ []
written (hexadecimal a) = 37 ∷ 120 ∷ []
written (pointer a) = 37 ∷ 112 ∷ []
written (text a) = 37 ∷ 115 ∷ []
written (character a) = 37 ∷ 99 ∷ []
written percent = 37 ∷ 37 ∷ []
written (unknown c) = 37 ∷ c ∷ []

abbrev pub argument : Piece → List ℕ
argument (plain c) = []
argument (decimal a) = a ∷ []
argument (hexadecimal a) = a ∷ []
argument (pointer a) = a ∷ []
argument (text a) = a ∷ []
argument (character a) = a ∷ []
argument percent = []
argument (unknown c) = []

-- what the piece stands for
abbrev pub output : (ℕ → List ℕ) → Piece → List ℕ
output memory (plain c) = c ∷ []
output memory (decimal a) = printint a 10 true
output memory (hexadecimal a) = printint a 16 false
output memory (pointer a) = printint a 16 false
output memory (text a) = text_at memory a
output memory (character a) = a % 256 ∷ []
output memory percent = 37 ∷ []
output memory (unknown c) = 37 ∷ c ∷ []

-- A plain character is no `%`, and an unknown directive none of those that are known.
abbrev pub Fits : Piece → Type 0
Fits (plain c) = c ≢ 37
Fits (unknown c) = (c ≢ 100) × (c ≢ 120) × (c ≢ 112) × (c ≢ 115) × (c ≢ 99) × (c ≢ 37)
Fits _ = Unit

abbrev pub all_of : (Piece → List ℕ) → List Piece → List ℕ
all_of f [] = []
all_of f (p ∷ ps) = f p ++ all_of f ps

directive-unknown :
    (memory : ℕ → List ℕ) (c : ℕ) (args : List ℕ)
    → Fits (unknown c)
    → directive memory c args ≡ (37 ∷ c ∷ [], args)
directive-unknown memory c args (h1, h2, h3, h4, h5, h6) =
    let e1 : c == 100 ≡ false = ground (arith, h1) in
    let e2 : c == 120 || c == 112 ≡ false = ground (arith, h2, h3) in
    let e4 : c == 115 ≡ false = ground (arith, h4) in
    let e5 : c == 99 ≡ false = ground (arith, h5) in
    let e6 : c == 37 ≡ false = ground (arith, h6) in rw e1 (rw e2 (rw e4 (rw e5 (rw e6 refl))))

piece-written :
    (memory : ℕ → List ℕ) (p : Piece) (fmt args : List ℕ)
    → Fits p
    → printf memory (written p ++ fmt) (argument p ++ args)
      ≡ output memory p ++ printf memory fmt args
unfolding printf_from
piece-written memory (plain c) fmt args h = ground (arith, h)
piece-written memory (decimal a) fmt args h = refl
piece-written memory (hexadecimal a) fmt args h = refl
piece-written memory (pointer a) fmt args h = refl
piece-written memory (text a) fmt args h = refl
piece-written memory (character a) fmt args h = refl
piece-written memory percent fmt args h = refl
piece-written memory (unknown c) fmt args h =
    ap (λ r. r.0 ++ printf_from memory false fmt (r.1)) (directive-unknown memory c args h)

-- For a format put together from plain characters, known directives and unknown ones, with an argument
-- for each directive that takes one: printf writes each piece's own text, in order: the characters, the
-- numbers in their bases, the texts (`(null)` for the address 0), and an unknown directive as it stands.
pub printf-written :
    (memory : ℕ → List ℕ) (ps : List Piece)
    → All Fits ps
    → printf memory (all_of written ps) (all_of argument ps) ≡ all_of (output memory) ps
unfolding printf_from
printf-written memory [] h = refl
printf-written memory (p ∷ ps) h =
    piece-written memory p (all_of written ps) (all_of argument ps) (h.0)
    ∙ ap (λ out. output memory p ++ out) (printf-written memory ps (h.1))
