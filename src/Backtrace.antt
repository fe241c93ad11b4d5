-- ===== src/Backtrace.antt =====
-- elf/backtrace/backtrace.c: the return addresses on the stack, and the names of functions in the
-- symbol table of the program's own ELF file. The file is its section headers and, by section, symbols
-- and strings; it opens and maps.
pub mod Frames
pub mod Symbols
mod Tests
use meph_i_semester_4_acos.Base.{
  ℕ, zero, suc, ◌+◌, ◌%◌, ◌^◌, Bool, true, false, ◌&&◌, Option, none, some, List, [], ◌∷◌, ◌++◌,
  ◌==◌, ltb, leb, if◌then◌else◌,
}

-- The stack as words by address. The loop of Backtrace with the frame `rax`, and `n` rounds at most:
-- what it stores from index `cnt` on. (`cmp` without a suffix reads 32 bits.)
pub frames_from : ℕ → (ℕ → ℕ) → ℕ → ℕ → ℕ → List ℕ
frames_from zero stack rax cnt lim = []
frames_from (suc n) stack rax cnt lim =
    let rest = frames_from n stack (stack rax) (cnt + 1) lim in
    if stack rax % 2 ^ 32 == 0
    then []
    else stack (rax + 8) ∷ (if leb lim (cnt + 1) then [] else rest)

-- Backtrace from the frame `rbp`, for an array that is not NULL: what it stores, and as many it returns.
-- It has a round for each entry of the array, and one at least.
abbrev pub backtrace : (ℕ → ℕ) → ℕ → ℕ → List ℕ
backtrace stack rbp limit = frames_from (limit + 1) stack rbp 0 limit

-- `Elf64_Sym`, and of `Elf64_Shdr` the type, the link and what is at its offset
pub record Sym : Type 0 where
  pub info : ℕ
  pub value : ℕ
  pub size : ℕ
  pub name : ℕ

pub record Section : Type 0 where
  pub type : ℕ
  pub link : ℕ
  pub symbols : List Sym

-- SHT_SYMTAB, STT_FUNC
abbrev pub symtab_type : ℕ
symtab_type = 2

abbrev pub func_type : ℕ
func_type = 2

-- `ELF64_ST_TYPE(sym[i].st_info) == STT_FUNC` and the range of the symbol, a sum
-- of 64 bits
abbrev pub covers : ℕ → Sym → Bool
covers addr s =
    s.info % 16 == func_type && (leb s.value addr && ltb addr ((s.value + s.size) % 2 ^ 64))

-- the loop over the sections: the symbols of the first symbol table, and its link
pub find_symtab : List Section → Option (List Sym × ℕ)
find_symtab [] = none
find_symtab (s ∷ ss) =
    let rest = find_symtab ss in if s.type == symtab_type then some (s.symbols, s.link) else rest

-- the loop over the symbols
pub find_symbol : ℕ → List Sym → Option Sym
find_symbol addr [] = none
find_symbol addr (s ∷ ss) = let rest = find_symbol addr ss in if covers addr s then some s else rest

-- `strings + sym[i].st_name`
abbrev pub name_in : ℕ → Option Sym → Option (ℕ × ℕ)
name_in link none = none
name_in link (some s) = some (link, s.name)

abbrev pub name_from : ℕ → Option (List Sym × ℕ) → Option (ℕ × ℕ)
name_from addr none = none
name_from addr (some (symbols, link)) = name_in link (find_symbol addr symbols)

-- AddrToName: the string section and the offset of the name in it; `none` is NULL
abbrev pub addr_to_name : List Section → ℕ → Option (ℕ × ℕ)
addr_to_name sections addr = name_from addr (find_symtab sections)
