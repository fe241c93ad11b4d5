-- ===== src/Logger.antt =====
-- fs/logger/main.c: the logger, which moves its file to the next number when SIGHUP has come.
-- A directory is the contents of the log file, at 0, and of `name.i`, at `i`; no number above `last`
-- is there. Opens, writes and renames of files that exist are taken to succeed, numbers stay below
-- INT_MAX, and each number has one spelling.
pub mod Shift
pub mod History
mod Tests
use meph_i_semester_4_acos.Base.{
  ℕ, zero, suc, ◌+◌, ◌-◌, Bool, true, false, Option, none, some, List, [], ◌∷◌, ◌++◌, if◌then◌else◌,
  length, take, drop, update, is_some,
}

abbrev pub Bytes : Type 0
Bytes = List ℕ

pub record Directory : Type 0 where
  pub file : ℕ → Option Bytes
  pub last : ℕ

-- `rename` of number `i` to number `j`, where it is there
abbrev pub rename : ℕ → ℕ → (ℕ → Option Bytes) → ℕ → Option Bytes
rename i j file = if is_some (file i) then update (update file j (file i)) i none else file

-- mx_idx, over the numbers up to `n`; the order of readdir does not matter
pub max_index : ℕ → (ℕ → Option Bytes) → ℕ
max_index zero file = 0
max_index (suc n) file =
    let rest = max_index n file in if is_some (file (suc n)) then suc n else rest

-- the loop of swap_logs from `i` down to 1
pub shift_from : ℕ → (ℕ → Option Bytes) → ℕ → Option Bytes
shift_from zero file = file
shift_from (suc i) file = shift_from i (rename (suc i) (suc i + 1) file)

-- `swap_logs`
pub swap_logs : Directory → Directory
swap_logs d = record {
  file = rename 0 1 (shift_from (max_index d.last d.file) d.file);
  last = suc d.last;
}

-- the directory, and the offset of logger_fd, or `none` for -1
pub record Logger : Type 0 where
  pub dir : Directory
  pub fd : Option ℕ

abbrev pub content : Option Bytes → Bytes
content none = []
content (some bytes) = bytes

-- `open(log_filename, O_WRONLY | O_CREAT)`: a file that is there is kept, and the offset is 0
abbrev pub open_log : Logger → Logger
open_log l = record {
  dir = record (l.dir) { file = update (l.dir.file) 0 (some (content (l.dir.file 0))) };
  fd = some 0;
}

-- the part under `if (rotate)`, and the one under `if (logger_fd == -1)`
abbrev pub rotated : Bool → Logger → Logger
rotated true l = open_log (record { dir = swap_logs l.dir; fd = none })
rotated false l = l

abbrev pub opened : Logger → Logger
opened l = if is_some l.fd then l else open_log l

abbrev pub offset : Option ℕ → ℕ
offset none = 0
offset (some n) = n

-- `write` at the offset
pub write : Bytes → Logger → Logger
write line l =
    let old = content (l.dir.file 0) in
    let at = offset l.fd in
    record {
      dir = record (l.dir) {
        file = update (l.dir.file) 0 (some (take at old ++ (line ++ drop (at + length line) old)));
      };
      fd = some (at + length line);
    }

-- A round of the loop of `logger`: whether SIGHUP came before it, and what fgets returned.
pub round : Bool × Bytes → Logger → Logger
round (rotate, line) l = write line (opened (rotated rotate l))

pub logger : List (Bool × Bytes) → Logger → Logger
logger [] l = l
logger (r ∷ rs) l = logger rs (round r l)
