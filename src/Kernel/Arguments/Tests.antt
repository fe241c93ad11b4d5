-- ===== src/Kernel/Arguments/Tests.antt =====
-- A process of 100 bytes with a text at 40.
use meph_i_semester_4_acos.Base.{ℕ, ◌+◌, ◌≤◌, ◌<◌, ◌≡◌, ◌≢◌, refl, some, none, update, arith}
use meph_i_semester_4_acos.Kernel.Arguments.{Proc, fetchint, fetchstr, argptr, argstr, scan_nul}
use meph_i_semester_4_acos.Kernel.Arguments.Inside.{IsText, fetch-IsText}

abbrev process : Proc
process = record { sz = 100; bytes = update (λ a. 7) 43 0; words = update (λ a. 0) 84 40; esp = 80 }

-- the first argument is the address of the text
argstr-first : argstr 0 process ≡ some (40, 3)
unfolding scan_nul
argstr-first = refl

fetchstr-unended : fetchstr 50 process ≡ none
unfolding scan_nul
fetchstr-unended = refl

fetch-IsText_example :
    ((x : ℕ) → fetchint 40 process ≡ some x → 44 ≤ 100)
    × ((i : ℕ) → argptr 0 20 process ≡ some i → i + 20 ≤ 100)
    × ((r : ℕ × ℕ) → fetchstr 40 process ≡ some r → (r.0 ≡ 40) × IsText process.bytes 40 (r.1) 100)
    × (40 < 100 → fetchstr 40 process ≡ none → (i : ℕ) → 40 ≤ i → i < 100 → process.bytes i ≢ 0)
fetch-IsText_example = fetch-IsText process 40 0 20 (omega arith)
