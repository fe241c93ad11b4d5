-- ===== src/JobServer.antt =====
-- fs/jobserver/main.c: the programs below a directory are run, at most a number of them at once, with
-- a pipe that holds a token for each that may start. The pipe takes all the tokens (its capacity is
-- 65536 bytes). The directories do not change while they are walked.
pub mod Order
pub mod Tokens
pub mod Work
pub mod Progress
mod Tests
use meph_i_semester_4_acos.Base.{
  ℕ, ◌+◌, ◌-◌, Bool, true, false, ◌&&◌, ◌||◌, ◌==◌, if◌then◌else◌, ltb, Option, none, some, List,
  [], ◌∷◌, ◌++◌, length, get_or, set, take, codes, list_eq,
}
use meph_i_semester_4_acos.Atomic.Threads.{total}

abbrev max_path_len : ℕ
max_path_len = 1024

mutual
  -- What readdir gives: a file, with what stat tells of its execute bits (none: stat fails), a
  -- directory with its entries, and a directory that opendir does not open.
  pub data Entry : Type 0 where
    file : List ℕ → Option Bool → Entry
    dir : List ℕ → Entries → Entry
    closed_dir : List ℕ → Entry

  pub data Entries : Type 0 where
    done : Entries
    entry : Entry → Entries → Entries

-- The files that walk_dir passes to run_watcher, in order, and whether err has ended the program.
pub record Walk : Type 0 where
  pub files : List (List ℕ)
  pub failed : Bool

-- `.` and `..`
abbrev pub skipped : List ℕ → Bool
skipped name = list_eq name (codes ".") || list_eq name (codes "..")

-- snprintf into cur_path
abbrev pub cur_path : List ℕ → List ℕ → List ℕ
cur_path cur_dir name = take (max_path_len - 1) (cur_dir ++ codes "/" ++ name)

-- The loop goes on with the next entry, unless err has ended the program.
abbrev pub then_walk : Walk → Walk → Walk
then_walk w rest =
    if w.failed then w else record { files = w.files ++ rest.files; failed = rest.failed }

-- check_exec and what walk_dir does with a file
abbrev pub walk_file : List ℕ → Option Bool → Walk → Walk
walk_file path none rest = record { files = []; failed = true }
walk_file path (some false) rest = record { files = []; failed = false }
walk_file path (some true) rest = record rest { files = path ∷ rest.files }

-- where opendir fails
abbrev pub no_dir : Walk
no_dir = record { files = []; failed = true }

unfoldable mutual
  -- walk_dir on a directory that opendir opens
  pub walk_dir : List ℕ → Entries → Walk
  walk_dir cur_dir done = record { files = []; failed = false }
  walk_dir cur_dir (entry e inodes) = walk_entry cur_dir e (walk_dir cur_dir inodes)

  -- the body of its loop, with what the rounds after it give
  pub walk_entry : List ℕ → Entry → Walk → Walk
  walk_entry cur_dir (file name mode) rest =
      if skipped name then rest else walk_file (cur_path cur_dir name) mode rest
  walk_entry cur_dir (dir name inodes) rest =
      let w = walk_dir (cur_path cur_dir name) inodes in
      if skipped name then rest else then_walk w rest
  walk_entry cur_dir (closed_dir name) rest = if skipped name then rest else then_walk no_dir rest

-- What a process of run_watcher is at: before its fork, while its program runs, in release(), at its
-- end.
pub data Watcher : Type 0 where
  starting running releasing gone : Watcher

-- What the main process is at: the files that walk_dir still has, and whether err waits behind them;
-- the loop over wait; and the end, of main or by err.
pub data Main : Type 0 where
  walking : List (List ℕ) → Bool → Main
  waiting finished stopped : Main

pub record System : Type 0 where
  pub main : Main
  pub tokens : ℕ
  pub watchers : List Watcher
  pub launched : List (List ℕ)

-- walk_dir(".")
abbrev pub walk_root : Option Entries → Walk
walk_root none = no_dir
walk_root (some inodes) = walk_dir (codes ".") inodes

-- main up to walk_dir: a token for each of `n` programs
abbrev pub start : ℕ → Option Entries → System
start n inodes =
    let w = walk_root inodes in
    record { main = walking w.files w.failed; tokens = n; watchers = []; launched = [] }

-- whether a watcher has its token, as a number
abbrev pub active : Watcher → ℕ
active gone = 0
active _ = 1

-- The main process moves: acquire() and the fork of run_watcher, which fails where `forks` is false.
pub move_main : Bool → Main → System → System
move_main forks (walking (path ∷ paths) failed) s =
    if s.tokens == 0
    then s
    else if forks
    then record {
      main = walking paths failed;
      tokens = s.tokens - 1;
      watchers = s.watchers ++ (starting ∷ []);
      launched = s.launched ++ (path ∷ []);
    }
    else record s { main = stopped; tokens = s.tokens - 1 }
move_main forks (walking [] true) s = record s { main = stopped }
move_main forks (walking [] false) s = record s { main = waiting }
-- `wait(NULL) > 0` until no child is left
move_main forks waiting s = if total active s.watchers == 0 then record s { main = finished } else s
move_main forks finished s = s
move_main forks stopped s = s

-- A watcher moves: where it stands after, and the tokens that it writes. Its program may end in any
-- way, also by the failure of execl.
abbrev pub move_watcher : Bool → Watcher → Watcher × ℕ
move_watcher true starting = (running, 0)
move_watcher false starting = (gone, 0)
move_watcher forks running = (releasing, 0)
move_watcher forks releasing = (gone, 1)
move_watcher forks gone = (gone, 0)

-- A step: of the main process or of a watcher, with what its fork gives if it is at one.
pub data Step : Type 0 where
  main_step : Bool → Step
  watcher_step : ℕ → Bool → Step

abbrev pub step : Step → System → System
step (main_step forks) s = move_main forks s.main s
step (watcher_step i forks) s =
    if ltb i (length s.watchers)
    then (let (w, n) = move_watcher forks (get_or s.watchers i gone) in
        record s { tokens = s.tokens + n; watchers = set s.watchers i w })
    else s

abbrev pub run : List Step → System → System
run [] s = s
run (x ∷ xs) s = run xs (step x s)
