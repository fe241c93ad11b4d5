-- ===== src/Kernel/Pipe.antt =====
-- alarm/pipe.c: a pipe, as a ring of 512 bytes with two counters that wrap at 2 ^ 32.
-- A call of pipewrite or piperead runs under the lock up to its end or up to a sleep; after the
-- sleep it goes on at the same place, so a call that sleeps is resumed by running it again on what
-- is left. `killed` is `myproc()->killed`. What wakeup does to other processes is in Kernel/Proc.
pub mod Ring
pub mod Fifo
mod Tests
use meph_i_semester_4_acos.Base.{
  ℕ, zero, suc, ◌+◌, ◌-◌, ◌%◌, ◌^◌, Bool, true, false, ◌||◌, ◌&&◌, not, List, [], ◌∷◌, ◌++◌, ◌==◌,
  if◌then◌else◌, get_or, set, replicate, length,
}

abbrev pub pipe_size : ℕ
pipe_size = 512

abbrev pub u32 : ℕ → ℕ
u32 n = n % 2 ^ 32

-- `struct pipe`
pub record Pipe : Type 0 where
  pub buf : List ℕ
  pub nread : ℕ
  pub nwrite : ℕ
  pub readopen : Bool
  pub writeopen : Bool

-- The pipe that pipealloc sets up in a page; what the page held before is never read.
abbrev pub pipealloc : List ℕ → Pipe
pipealloc page = record { buf = page; nread = 0; nwrite = 0; readopen = true; writeopen = true }

-- the test of the `while` of pipewrite, and that of piperead on the counters
abbrev pub is_full : Pipe → Bool
is_full p = p.nwrite == u32 (p.nread + pipe_size)

abbrev pub is_empty : Pipe → Bool
is_empty p = p.nread == p.nwrite

-- `p->data[p->nwrite++ % PIPESIZE] = x`
pub put : ℕ → Pipe → Pipe
put x p = record p { buf = set p.buf (p.nwrite % pipe_size) x; nwrite = u32 (p.nwrite + 1) }

-- `p->data[p->nread++ % PIPESIZE]`: the byte, and the pipe after it
abbrev pub front : Pipe → ℕ
front p = get_or p.buf (p.nread % pipe_size) 0

pub skip : Pipe → Pipe
skip p = record p { nread = u32 (p.nread + 1) }

-- A write ends, fails with -1 (the bytes that were not written are kept for the theorems), or
-- sleeps with these bytes to go.
pub data Write : Type 0 where
  wrote : Pipe → Write
  broken : Pipe → List ℕ → Write
  blocked : Pipe → List ℕ → Write

-- `pipewrite` on the bytes that are left of `addr`; it returns `n` where the model says `wrote`.
pub pipewrite : Bool → List ℕ → Pipe → Write
pipewrite killed [] p = wrote p
pipewrite killed (x ∷ xs) p =
    let rest = pipewrite killed xs (put x p) in
    if is_full p
    then (if not p.readopen || killed then broken p (x ∷ xs) else blocked p (x ∷ xs))
    else rest

-- A read returns bytes, fails with -1, or sleeps.
pub data Read : Type 0 where
  got : List ℕ → Pipe → Read
  failed : Pipe → Read
  waits : Pipe → Read

-- the copying loop of piperead, with `n` bytes to go
pub take_bytes : ℕ → Pipe → List ℕ × Pipe
take_bytes zero p = ([], p)
take_bytes (suc n) p =
    let rest = take_bytes n (skip p) in if is_empty p then ([], p) else (front p ∷ rest.0, rest.1)

pub piperead : Bool → ℕ → Pipe → Read
piperead killed n p =
    if is_empty p && p.writeopen
    then (if killed then failed p else waits p)
    else (let (xs, p') = take_bytes n p in got xs p')

-- `pipeclose`: the pipe, and whether its page is given back
pub pipeclose : Bool → Pipe → Pipe × Bool
pipeclose writable p =
    let p' = if writable then record p { writeopen = false } else record p { readopen = false } in
    (p', not p'.readopen && not p'.writeopen)
