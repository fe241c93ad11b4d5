-- ===== src/Backtrace/Tests.antt =====
-- A stack with two frames, and a file with two functions.
use meph_i_semester_4_acos.Base.{ℕ, ◌≡◌, refl, none, some, List, [], ◌∷◌, ◌++◌, arith, All, update}
use meph_i_semester_4_acos.Backtrace.{
  Sym, Section, backtrace, find_symtab, find_symbol, addr_to_name,
}
use meph_i_semester_4_acos.Backtrace.Frames.{backtrace-Chain}
use meph_i_semester_4_acos.Backtrace.Symbols.{Covers, addr_to_name-first}

-- frames at 1000 and 2000, and the last one at 3000
abbrev stack : ℕ → ℕ
stack = update (update (update (update (λ a. 0) 1000 2000) 1008 11) 2000 3000) 2008 22

backtrace-Chain_example : backtrace stack 1000 5 ≡ 11 ∷ 22 ∷ []
backtrace-Chain_example =
    backtrace-Chain stack 1000 5 (11 ∷ 22 ∷ [])
      ((λ e. absurd (omega (arith, e))), refl, ((λ e. absurd (omega (arith, e))), refl, refl))

-- with an array of no entries it stores one
backtrace-overrun : backtrace stack 1000 0 ≡ 11 ∷ []
backtrace-overrun =
    backtrace-Chain stack 1000 0 (11 ∷ 22 ∷ [])
      ((λ e. absurd (omega (arith, e))), refl, ((λ e. absurd (omega (arith, e))), refl, refl))

abbrev other : Sym
other = record { info = 18; value = 100; size = 20; name = 1 }

abbrev main : Sym
main = record { info = 18; value = 120; size = 30; name = 7 }

abbrev code : Section
code = record { type = 1; link = 0; symbols = [] }

abbrev table : Section
table = record { type = 2; link = 9; symbols = other ∷ main ∷ [] }

abbrev file : List Section
file = code ∷ table ∷ []

addr_to_name-first_example :
    ((earlier later : List Sym) (s : Sym)
      → table.symbols ≡ earlier ++ (s ∷ later)
      → All (λ x. Covers 130 x → ⊥) earlier
      → Covers 130 s
      → addr_to_name file 130 ≡ some (9, s.name))
    × (All (λ x. Covers 130 x → ⊥) table.symbols → addr_to_name file 130 ≡ none)
addr_to_name-first_example =
    addr_to_name-first 130 (code ∷ []) table [] ((λ e. absurd (omega (arith, e))), tt) refl

addr_to_name-main : addr_to_name file 130 ≡ some (9, 7)
unfolding find_symtab find_symbol
addr_to_name-main = refl
