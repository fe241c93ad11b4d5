-- ===== src/Kernel/PageAllocator.antt =====
-- alarm/kalloc.c: the allocator of pages, whose free list runs through the free pages themselves.
-- Memory is the word at each address that is a multiple of 4, and 0 is NULL. `end` is the first
-- address behind the kernel. The lock is held through each function.
pub mod Owners
pub mod Range
mod Tests
use meph_i_semester_4_acos.Base.{
  ℕ, zero, suc, ◌+◌, ◌-◌, ◌*◌, ◌/◌, ◌%◌, Bool, true, false, ◌||◌, ◌&&◌, not, Option, none, some,
  ◌==◌, ltb, leb, if◌then◌else◌, update,
}

abbrev pub pgsize : ℕ
pgsize = 4096

-- KERNBASE, PHYSTOP
abbrev pub kernbase : ℕ
kernbase = 2147483648

abbrev pub phystop : ℕ
phystop = 234881024

pub record Kmem : Type 0 where
  pub word : ℕ → ℕ
  pub freelist : ℕ

-- `memset(v, 1, PGSIZE)`
abbrev pub junk : ℕ → (ℕ → ℕ) → ℕ → ℕ
junk v word x = if leb v x && ltb x (v + pgsize) then 16843009 else word x

-- the test of kfree, on an address below 2 ^ 32; `V2P(v)` wraps for one below KERNBASE
abbrev pub bad_page : ℕ → ℕ → Bool
bad_page end v =
    not (v % pgsize == 0) || ltb v end || leb phystop ((v + 4294967296 - kernbase) % 4294967296)

-- `kfree`; `none` is the panic
pub kfree : ℕ → ℕ → Kmem → Option Kmem
kfree end v k =
    if bad_page end v
    then none
    else some (record { word = update (junk v k.word) v k.freelist; freelist = v })

-- `kalloc`: the page, or 0
pub kalloc : Kmem → ℕ × Kmem
kalloc k = (k.freelist, record k { freelist = if k.freelist == 0 then 0 else k.word k.freelist })

-- PGROUNDUP
abbrev pub pgroundup : ℕ → ℕ
pgroundup v = (v + pgsize - 1) / pgsize * pgsize

abbrev pub bind : Option Kmem → (Kmem → Option Kmem) → Option Kmem
bind none f = none
bind (some k) f = f k

-- the loop of freerange, on fuel
pub freerange_from : ℕ → ℕ → ℕ → ℕ → Kmem → Option Kmem
freerange_from end zero p vend k = some k
freerange_from end (suc n) p vend k =
    if leb (p + pgsize) vend
    then bind (kfree end p k) (freerange_from end n (p + pgsize) vend)
    else some k

-- `freerange`; each round passes a page
pub freerange : ℕ → ℕ → ℕ → Kmem → Option Kmem
freerange end vstart vend k = freerange_from end (vend / pgsize) (pgroundup vstart) vend k
