-- ===== src/Kernel/Files/Tests.antt =====
-- A table with a pipe that is held twice.
use meph_i_semester_4_acos.Base.{zero, suc, ◌≡◌, refl, true, false, some, [], ◌∷◌, arith}
use meph_i_semester_4_acos.Kernel.Files.{File, fd_none, fd_pipe, Ftable}
use meph_i_semester_4_acos.Kernel.Files.Handles.{
  Open, allocs, dups, closes, Counted, run, run-Counted,
}

abbrev idle : File
idle = record {
  type = fd_none;
  ref = 0;
  readable = false;
  writable = false;
  pipe = 0;
  ip = 0;
  off = 0;
}

abbrev entries : Ftable
entries zero = record idle { type = fd_pipe; ref = 2; writable = true; pipe = 77 }
entries (suc _) = idle

abbrev shared : Open
shared = record { table = entries; handles = 0 ∷ 0 ∷ [] }

shared-Counted : Counted shared
shared-Counted zero = refl
shared-Counted (suc f) = ground arith

run-Counted_example :
    (o : Open) × (run (closes 0 ∷ allocs ∷ dups 1 ∷ closes 0 ∷ closes 5 ∷ []) shared ≡ some o)
    × Counted o
run-Counted_example =
    run-Counted (closes 0 ∷ allocs ∷ dups 1 ∷ closes 0 ∷ closes 5 ∷ []) shared shared-Counted

abbrev last_handle : Open
last_handle = record {
  table = λ f. elim f [
    | zero ↦ record idle { type = fd_pipe; ref = 1; writable = true; pipe = 77 }
    | suc _ ↦ idle
  ];
  handles = 0 ∷ [];
}

last_handle-Counted : Counted last_handle
last_handle-Counted zero = refl
last_handle-Counted (suc f) = ground arith
