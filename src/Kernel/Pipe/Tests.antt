-- ===== src/Kernel/Pipe/Tests.antt =====
-- A pipe whose counters are about to wrap.
use meph_i_semester_4_acos.Base.{
  ℕ, ◌≡◌, refl, true, false, [], ◌∷◌, replicate, length-replicate, arith,
}
use meph_i_semester_4_acos.Kernel.Pipe.{Pipe, pipeclose}
use meph_i_semester_4_acos.Kernel.Pipe.Ring.{IsValid}
use meph_i_semester_4_acos.Kernel.Pipe.Fifo.{run-IsFifo, IsFifo, write, read, Link, run}

-- empty, with both counters at 2 ^ 32 - 1
abbrev wrapping : Pipe
wrapping = record {
  buf = replicate 512 0;
  nread = 4294967295;
  nwrite = 4294967295;
  readopen = true;
  writeopen = true;
}

wrapping-IsValid : IsValid wrapping
wrapping-IsValid = record {
  ring = length-replicate {A = ℕ} 512 0;
  read_word = omega arith;
  write_word = omega arith;
  bound = omega arith;
}

abbrev fresh : Link
fresh = record { pipe = wrapping; sent = []; received = [] }

fresh-IsFifo : IsFifo fresh
fresh-IsFifo = record { valid = wrapping-IsValid; order = refl }

run-IsFifo_example :
    IsFifo (run (write false (7 ∷ 8 ∷ 9 ∷ []) ∷ read false 2 ∷ write true (5 ∷ []) ∷ []) fresh)
run-IsFifo_example =
    run-IsFifo (write false (7 ∷ 8 ∷ 9 ∷ []) ∷ read false 2 ∷ write true (5 ∷ []) ∷ []) fresh
      fresh-IsFifo

-- the last end to be closed gives the page back
pipeclose-last : (pipeclose false ((pipeclose true wrapping).0)).1 ≡ true
unfolding pipeclose
pipeclose-last = refl
