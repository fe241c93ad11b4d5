-- ===== src/Backtrace/Symbols.antt =====
-- Which symbol AddrToName finds.
use meph_i_semester_4_acos.Base.{
  ℕ, ◌+◌, ◌≤◌, ◌<◌, ◌%◌, ◌^◌, ◌≡◌, ◌≢◌, ◌∙◌, refl, ap, inl, inr, true, false, none, some, List, [],
  ◌∷◌, ◌++◌, ◌==◌, arith, Bool-cases, All,
}
use meph_i_semester_4_acos.Backtrace.{
  Sym, Section, symtab_type, func_type, covers, find_symtab, find_symbol, name_in, name_from,
  addr_to_name,
}

-- the address lies in the function of the symbol, whose end is a sum of 64 bits
abbrev pub Covers : ℕ → Sym → Type 0
Covers addr s = (s.info % 16 ≡ func_type) × (s.value ≤ addr) × (addr < (s.value + s.size) % 2 ^ 64)

covers-Covers : (addr : ℕ) (s : Sym) → Covers addr s → covers addr s ≡ true
covers-Covers addr s (i, v, e) = ground (arith, i, v, e)

not-Covers : (addr : ℕ) (s : Sym) → (Covers addr s → ⊥) → covers addr s ≡ false
not-Covers addr s h = elim (Bool-cases (covers addr s)) [
  | inl y ↦ absurd (h (ground (arith, y), ground (arith, y), ground (arith, y)))
  | inr n ↦ n
]

find_symbol-first :
    (addr : ℕ) (before : List Sym) (s : Sym) (behind : List Sym)
    → All (λ x. Covers addr x → ⊥) before
    → Covers addr s
    → find_symbol addr (before ++ (s ∷ behind)) ≡ some s
unfolding find_symbol
find_symbol-first addr [] s behind h c = rw (covers-Covers addr s c) refl
find_symbol-first addr (x ∷ before) s behind h c =
    rw (not-Covers addr x (h.0)) (find_symbol-first addr before s behind (h.1) c)

find_symbol-none :
    (addr : ℕ) (symbols : List Sym)
    → All (λ x. Covers addr x → ⊥) symbols
    → find_symbol addr symbols ≡ none
unfolding find_symbol
find_symbol-none addr [] h = refl
find_symbol-none addr (x ∷ symbols) h =
    rw (not-Covers addr x (h.0)) (find_symbol-none addr symbols (h.1))

find_symtab-first :
    (before : List Section) (t : Section) (behind : List Section)
    → All (λ x. x.type ≢ symtab_type) before
    → t.type ≡ symtab_type
    → find_symtab (before ++ (t ∷ behind)) ≡ some (t.symbols, t.link)
unfolding find_symtab
find_symtab-first [] t behind h e =
    let q : t.type == symtab_type ≡ true = ground (arith, e) in rw q refl
find_symtab-first (x ∷ before) t behind h e =
    let q : x.type == symtab_type ≡ false = ground (arith, h.0) in
    rw q (find_symtab-first before t behind (h.1) e)

-- For a file with a symbol table, the first of its sections of that type: AddrToName gives the name, in
-- the section of strings that the table links to, of the first symbol that is a function and whose
-- range has the address, from st_value up to st_value + st_size in 64 bits; NULL where no function's range has it.
pub addr_to_name-first :
    (addr : ℕ) (before : List Section) (t : Section) (behind : List Section)
    → All (λ x. x.type ≢ symtab_type) before
    → t.type ≡ symtab_type
    → ((earlier later : List Sym) (s : Sym)
        → t.symbols ≡ earlier ++ (s ∷ later)
        → All (λ x. Covers addr x → ⊥) earlier
        → Covers addr s
        → addr_to_name (before ++ (t ∷ behind)) addr ≡ some (t.link, s.name))
      × (All (λ x. Covers addr x → ⊥) t.symbols → addr_to_name (before ++ (t ∷ behind)) addr ≡ none)
addr_to_name-first addr before t behind h e =
    let q = ap (name_from addr) (find_symtab-first before t behind h e) in
    (
      (λ earlier later s k n c.
          q
          ∙ ap (λ o. name_in t.link o)
              (ap (find_symbol addr) k ∙ find_symbol-first addr earlier s later n c)),
      (λ n. q ∙ ap (λ o. name_in t.link o) (find_symbol-none addr t.symbols n)),
    )
