-- ===== src/Kernel/BufferCache/Tests.antt =====
-- Two processes at one block.
use meph_i_semester_4_acos.Base.{ℕ, ◌≡◌, refl, none, some, List, [], ◌∷◌, arith}
use meph_i_semester_4_acos.Kernel.BufferCache.{Bcache, bread, find_cached, find_free}
use meph_i_semester_4_acos.Kernel.BufferCache.Coherent.{
  System, Op, get, lock, read, release_it, change,
}
use meph_i_semester_4_acos.Kernel.BufferCache.Latest.{start, run_from, bread-latest}

abbrev zeros : ℕ → List ℕ
zeros n = 0 ∷ 0 ∷ []

-- A block is read and changed, and released; other blocks are read; the block is taken again, in the
-- same buffer, which is dirty.
abbrev ops : List Op
ops =
    get 5
    ∷ lock 0
    ∷ read 0
    ∷ change 0 (7 ∷ 8 ∷ [])
    ∷ release_it 0
    ∷ get 6
    ∷ lock 1
    ∷ read 1
    ∷ release_it 1
    ∷ get 5
    ∷ lock 0
    ∷ []

-- what they leave
abbrev after : System
after = elim (run_from (some (start zeros 100)) ops) [ none ↦ start zeros 100 | some s ↦ s ]

find_cached-again : find_cached after.cache.order 1 5 after.cache.buf ≡ some 0
unfolding find_cached find_free
find_cached-again = refl

bread-latest_example :
    ((j : ℕ) → (after.cache.buf j).dev ≡ 1 → (after.cache.buf j).blockno ≡ 5 → j ≡ 0)
    × ((c : Bcache) × (bread 0 after.cache ≡ some c)
        × ((c.buf 0).blockno ≡ 5)
        × ((c.buf 0).bytes ≡ 7 ∷ 8 ∷ []))
unfolding find_cached find_free
bread-latest_example = bread-latest zeros 100 ops after 0 refl refl (omega arith)
