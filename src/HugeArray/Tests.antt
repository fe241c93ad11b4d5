-- ===== src/HugeArray/Tests.antt =====
-- Reads of two pages.
use meph_i_semester_4_acos.Base.{ℕ, ◌*◌, ◌≡◌, refl, false, some, arith}
use meph_i_semester_4_acos.HugeArray.{Memory, read_sqrt}
use meph_i_semester_4_acos.HugeArray.Pages.{IsFilled, read_sqrt-IsFilled}

-- an array of 2000 squares at 8192, where nothing is mapped
abbrev square : ℕ → ℕ
square n = n * n

abbrev unmapped : Memory
unmapped = record { prev_page = 0; mapped = λ p. false; cell = λ a. 0 }

unmapped-IsFilled : IsFilled square 8192 2000 unmapped
unmapped-IsFilled = record {
  one = λ p h. absurd (ground (arith, h));
  roots = λ pos h. absurd (ground (arith, h));
}

read_sqrt-IsFilled_example :
    (t : Memory) × (read_sqrt square 8192 2000 600 unmapped ≡ some (360000, t))
    × IsFilled square 8192 2000 t
read_sqrt-IsFilled_example =
    read_sqrt-IsFilled square 8192 2000 unmapped 600 refl (omega arith) (omega arith)
      unmapped-IsFilled
