-- ===== src/MmapHeap.antt =====
-- memory/malloc/malloc.c: malloc, free and realloc, which map each block of their own. The system calls
-- are arguments: an operating system has a state, with the mappings of the process, and mmap, munmap and
-- mremap on it. Memory is words by address: of a block only the word of its size is seen here.
pub mod Blocks
pub mod Calls
mod Tests
use meph_i_semester_4_acos.Base.{
  ℕ, ◌+◌, ◌-◌, ◌%◌, ◌^◌, ◌≤◌, ◌≡◌, Bool, true, false, Option, none, some, List, [], ◌∷◌, ◌==◌,
  if◌then◌else◌, update,
}

-- sizeof(size_t), and addition in size_t
abbrev pub word : ℕ
word = 8

abbrev pub add : ℕ → ℕ → ℕ
add a b = (a + b) % 2 ^ 64

-- The system calls of syscall.h, with the arguments that the code passes: a length; an address and a
-- length; an address, a length and a new length. `none` is MAP_FAILED.
pub record Os : Type 1 where
  pub Kernel : Type 0
  pub mmap : ℕ → Kernel → Option ℕ × Kernel
  pub munmap : ℕ → ℕ → Kernel → Bool × Kernel
  pub mremap : ℕ → ℕ → ℕ → Kernel → Option ℕ × Kernel

module _ (os : Os) where
  -- the words of memory that hold sizes, and the state of the system
  pub record State : Type 0 where
    pub memory : ℕ → ℕ
    pub kernel : os.Kernel

  -- what is done with the result of mmap or mremap: the size is stored, and the address behind it is
  -- returned
  abbrev pub header : ℕ → (ℕ → ℕ) → Option ℕ × os.Kernel → ℕ × State
  header size memory (none, k) = (0, record { memory = memory; kernel = k })
  header size memory (some a, k) =
      (add a word, record { memory = update memory a (add size word); kernel = k })

  -- malloc; 0 is NULL
  abbrev pub malloc : ℕ → State → ℕ × State
  malloc size s = header size s.memory (os.mmap (add size word) s.kernel)

  abbrev pub unmapped : (ℕ → ℕ) → Bool × os.Kernel → Option State
  unmapped memory (true, k) = some (record { memory = memory; kernel = k })
  unmapped memory (false, k) = none

  -- free; `none` is exit(1)
  abbrev pub free : ℕ → State → Option State
  free ptr s =
      if ptr == 0
      then some s
      else unmapped s.memory (os.munmap (ptr - word) (s.memory (ptr - word)) s.kernel)

  abbrev pub returns_null : Option State → Option (ℕ × State)
  returns_null none = none
  returns_null (some s) = some (0, s)

  -- `realloc`
  abbrev pub realloc : ℕ → ℕ → State → Option (ℕ × State)
  realloc ptr size s =
      if ptr == 0
      then some (malloc size s)
      else if size == 0
      then returns_null (free ptr s)
      else some (
          header size s.memory
            (os.mremap (ptr - word) (s.memory (ptr - word)) (add size word) s.kernel))
