-- ===== src/Kernel/Arguments.antt =====
-- alarm/syscall.c: the arguments of system calls, read from the memory of the process. Its size is at
-- most 2 ^ 31 (KERNBASE), an int that is negative is a word from 2 ^ 31 on, and `none` is -1.
pub mod Inside
mod Tests
use meph_i_semester_4_acos.Base.{
  ℕ, zero, suc, ◌+◌, ◌-◌, ◌*◌, ◌%◌, ◌^◌, Bool, true, false, ◌||◌, Option, none, some, ◌==◌, ltb,
  leb, if◌then◌else◌,
}

-- What is used of a process: its size, its bytes and words by address, and %esp of its trap frame.
pub record Proc : Type 0 where
  pub sz : ℕ
  pub bytes : ℕ → ℕ
  pub words : ℕ → ℕ
  pub esp : ℕ

-- addition of uint
abbrev pub u32 : ℕ → ℕ → ℕ
u32 a b = (a + b) % 2 ^ 32

-- `fetchint`
abbrev pub fetchint : ℕ → Proc → Option ℕ
fetchint addr p = if leb p.sz addr || ltb p.sz (u32 addr 4) then none else some (p.words addr)

-- the loop of fetchstr, with `n` bytes up to ep: the length
unfoldable pub scan_nul : ℕ → ℕ → ℕ → (ℕ → ℕ) → Option ℕ
scan_nul zero s addr bytes = none
scan_nul (suc n) s addr bytes =
    let rest = scan_nul n (s + 1) addr bytes in if bytes s == 0 then some (s - addr) else rest

-- fetchstr: the pointer and the length
abbrev pub with_pointer : ℕ → Option ℕ → Option (ℕ × ℕ)
with_pointer addr none = none
with_pointer addr (some n) = some (addr, n)

abbrev pub fetchstr : ℕ → Proc → Option (ℕ × ℕ)
fetchstr addr p =
    if leb p.sz addr then none else with_pointer addr (scan_nul (p.sz - addr) addr addr p.bytes)

-- `argint`
abbrev pub argint : ℕ → Proc → Option ℕ
argint n p = fetchint (u32 p.esp (4 + 4 * n)) p

abbrev pub checked : ℕ → Proc → Option ℕ → Option ℕ
checked size p none = none
checked size p (some i) =
    if leb (2 ^ 31) size || (leb p.sz i || ltb p.sz (u32 i size)) then none else some i

-- `argptr`
abbrev pub argptr : ℕ → ℕ → Proc → Option ℕ
argptr n size p = checked size p (argint n p)

abbrev pub string_at : Proc → Option ℕ → Option (ℕ × ℕ)
string_at p none = none
string_at p (some addr) = fetchstr addr p

-- `argstr`
abbrev pub argstr : ℕ → Proc → Option (ℕ × ℕ)
argstr n p = string_at p (argint n p)
