-- ===== src/Kernel/Printf.antt =====
-- alarm/printf.c, and atoi of alarm/ulib.c. The characters that a call writes are a
-- list; words are below 2 ^ 32, and a word of int is negative from 2 ^ 31 on. A text ends before its 0.
pub mod Numbers
pub mod Format
mod Tests
use meph_i_semester_4_acos.Base.{
  ℕ, zero, suc, ◌+◌, ◌-◌, ◌*◌, ◌/◌, ◌%◌, ◌^◌, Bool, true, false, ◌&&◌, ◌||◌, not, List, [], ◌∷◌,
  ◌++◌, reverse, ◌==◌, ltb, leb, if◌then◌else◌, codes,
}

-- `digits[r]`
abbrev pub digit : ℕ → ℕ
digit r = if ltb r 10 then r + 48 else r + 55

-- the do loop of printint, with at most `n` rounds: what it puts in buf
unfoldable pub convert : ℕ → ℕ → ℕ → List ℕ
convert zero base x = []
convert (suc n) base x =
    let rest = convert n base (x / base) in digit (x % base) ∷ (if x / base == 0 then [] else rest)

-- whether printint writes a sign, and the number that it converts
abbrev pub is_negative : ℕ → Bool → Bool
is_negative xx sgn = sgn && leb (2 ^ 31) xx

abbrev pub magnitude : ℕ → Bool → ℕ
magnitude xx sgn = if is_negative xx sgn then 2 ^ 32 - xx else xx

-- `buf`; a word has at most 32 digits
abbrev pub buf : ℕ → ℕ → Bool → List ℕ
buf xx base sgn = convert 32 base (magnitude xx sgn) ++ (if is_negative xx sgn then 45 ∷ [] else [])

-- `printint`
abbrev pub printint : ℕ → ℕ → Bool → List ℕ
printint xx base sgn = reverse (buf xx base sgn)

-- what `%s` writes, in a memory that has the text at each address
abbrev pub text_at : (ℕ → List ℕ) → ℕ → List ℕ
text_at memory a = if a == 0 then codes "(null)" else memory a

-- the next argument, and those behind it. (A call that has too few reads what is on the stack: the
-- model reads 0.)
abbrev pub first : List ℕ → ℕ
first [] = 0
first (a ∷ ap) = a

abbrev pub others : List ℕ → List ℕ
others [] = []
others (a ∷ ap) = ap

-- the character behind a `%`: what is written, and the arguments behind it
abbrev pub directive : (ℕ → List ℕ) → ℕ → List ℕ → List ℕ × List ℕ
directive memory c ap =
    if c == 100
    then (printint (first ap) 10 true, others ap)
    else if c == 120 || c == 112
    then (printint (first ap) 16 false, others ap)
    else if c == 115
    then (text_at memory (first ap), others ap)
    else if c == 99
    then (first ap % 256 ∷ [], others ap)
    else if c == 37
    then (c ∷ [], ap)
    else (37 ∷ c ∷ [], ap)

-- the loop of printf; the flag is whether state is '%'
unfoldable pub printf_from : (ℕ → List ℕ) → Bool → List ℕ → List ℕ → List ℕ
printf_from memory state [] ap = []
printf_from memory false (c ∷ fmt) ap =
    let percent = printf_from memory true fmt ap in
    let plain = printf_from memory false fmt ap in if c == 37 then percent else c ∷ plain
printf_from memory true (c ∷ fmt) ap =
    let (out, ap') = directive memory c ap in out ++ printf_from memory false fmt ap'

-- `printf`
abbrev pub printf : (ℕ → List ℕ) → List ℕ → List ℕ → List ℕ
printf memory fmt ap = printf_from memory false fmt ap

-- the loop of atoi, with its `n`
pub atoi_from : ℕ → List ℕ → ℕ
atoi_from n [] = n
atoi_from n (c ∷ s) =
    let rest = atoi_from (n * 10 + c - 48) s in if leb 48 c && leb c 57 then rest else n

-- atoi; the number stays below 2 ^ 31
abbrev pub atoi : List ℕ → ℕ
atoi s = atoi_from 0 s
