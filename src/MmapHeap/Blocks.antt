-- ===== src/MmapHeap/Blocks.antt =====
-- What is mapped is what is allocated, for a system whose calls do what their documentation says.
use meph_i_semester_4_acos.Base.{
  ℕ, ◌+◌, ◌-◌, ◌^◌, ◌≤◌, ◌<◌, ◌≡◌, ◌≢◌, ◌⊎◌, ◌∙◌, ap, Bool, true, none, some, List, [], ◌∷◌, map,
  ◌==◌, if◌then◌else◌, update, update_self, update_ne, arith, All,
}
use meph_i_semester_4_acos.MmapHeap.{word, Os, State}

-- a pair in a list, and the list without the first pair of a key
abbrev pub Has : ℕ → ℕ → List (ℕ × ℕ) → Type 0
Has a n [] = ⊥
Has a n ((b, m) ∷ l) = ((a ≡ b) × (n ≡ m)) ⊎ Has a n l

abbrev pub without : ℕ → List (ℕ × ℕ) → List (ℕ × ℕ)
without a [] = []
without a ((b, m) ∷ l) = let rest = without a l in if a == b then l else (b, m) ∷ rest

-- no mapping starts at the address
abbrev pub Unused : ℕ → List (ℕ × ℕ) → Type 0
Unused a l = All (λ r. r.0 ≢ a) l

-- The mappings of the process, by address and length, and what the system calls do with them, as their
-- manual pages have it: a new mapping is where none is, below the end of the address space; munmap and
-- mremap of a mapping take it away; a call that fails changes nothing.
pub record Documented (os : Os) : Type 0 where
  pub mapped : os.Kernel → List (ℕ × ℕ)
  pub mmap_maps :
      (n a : ℕ) (k t : os.Kernel)
      → os.mmap n k ≡ (some a, t)
      → (mapped t ≡ (a, n) ∷ mapped k) × (a + n < 2 ^ 64) × Unused a (mapped k)
  pub mmap_fails : (n : ℕ) (k t : os.Kernel) → os.mmap n k ≡ (none, t) → mapped t ≡ mapped k
  pub munmap_unmaps :
      (a n : ℕ) (k t : os.Kernel) (ok : Bool)
      → Has a n (mapped k)
      → os.munmap a n k ≡ (ok, t)
      → (ok ≡ true) × (mapped t ≡ without a (mapped k))
  pub mremap_moves :
      (a n m b : ℕ) (k t : os.Kernel)
      → Has a n (mapped k)
      → os.mremap a n m k ≡ (some b, t)
      → (mapped t ≡ (b, m) ∷ without a (mapped k))
        × (b + m < 2 ^ 64)
        × Unused b (without a (mapped k))
  pub mremap_fails :
      (a n m : ℕ) (k t : os.Kernel) → os.mremap a n m k ≡ (none, t) → mapped t ≡ mapped k

-- the mapping of a block that is at `ptr` and has `size` bytes
abbrev pub region : ℕ × ℕ → ℕ × ℕ
region (ptr, size) = (ptr - word, size + word)

module _ (os : Os) (doc : Documented os) where
  -- the word in front of a block has the length of its mapping
  abbrev pub Headed : (ℕ → ℕ) → List (ℕ × ℕ) → Type 0
  Headed memory live = All (λ b. (word ≤ b.0) × (memory (b.0 - word) ≡ b.1 + word)) live

  -- The blocks that are allocated are mapped, and nothing else is.
  pub record IsExact (s : State os) (live : List (ℕ × ℕ)) : Type 0 where
    pub all : doc.mapped s.kernel ≡ map region live
    pub headed : Headed s.memory live

  pub Headed-update :
      (memory : ℕ → ℕ) (a x : ℕ) (live : List (ℕ × ℕ))
      → Unused a (map region live)
      → Headed memory live
      → Headed (update memory a x) live
  Headed-update memory a x [] u h = tt
  Headed-update memory a x (b ∷ live) u h = (
    ((h.0).0, update_ne memory a x (b.0 - word) (u.0) ∙ (h.0).1),
    Headed-update memory a x live (u.1) (h.1),
  )

  -- a block in front, with the header that malloc and realloc store
  pub Headed-cons :
      (memory : ℕ → ℕ) (a size : ℕ) (live : List (ℕ × ℕ)) (t : os.Kernel)
      → a + (size + word) < 2 ^ 64
      → doc.mapped t ≡ (a, size + word) ∷ map region live
      → Unused a (map region live)
      → Headed memory live
      → IsExact
          (record { memory = update memory a (size + word); kernel = t })
          ((a + word, size) ∷ live)
  Headed-cons memory a size live t l m u h = record {
    all = m ∙ ap (λ x. (x, size + word) ∷ map region live) (omega arith);
    headed = (
      (
        omega arith,
        ap (update memory a (size + word)) (omega arith) ∙ update_self memory a (size + word),
      ),
      Headed-update memory a (size + word) live u h,
    );
  }
