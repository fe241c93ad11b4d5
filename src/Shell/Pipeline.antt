-- ===== src/Shell/Pipeline.antt =====
-- bash/pipe/bash.h: what Exec starts for a line that it goes on with. A Stage is one child as it
-- reaches execvp: its arguments, and where its standard streams lead. The calls of malloc, pipe,
-- fork, open and dup2 are taken to succeed; the k-th pipe is the one of iteration k.
pub mod Segments
pub mod Blocks
mod Tests
use meph_i_semester_4_acos.Base.{
  ℕ, zero, suc, ◌+◌, ◌-◌, Bool, true, false, ◌||◌, ◌&&◌, not, Option, none, some, List, [], ◌∷◌,
  ◌++◌, ◌==◌, ltb, if◌then◌else◌,
}
use mathlib.Core.Option
use meph_i_semester_4_acos.Shell.Tokenizer.{Kind}
use meph_i_semester_4_acos.Shell.Parser.{Word, State}
use meph_i_semester_4_acos.Shell.Parser.Syntax.{Line, is_pipe}

pub data Source : Type 0 where
  shell_in : Source
  from_pipe : ℕ → Source
  from_file : Word → Source

pub data Sink : Type 0 where
  shell_out : Sink
  to_pipe : ℕ → Sink
  to_file : Word → Sink

pub record Stage : Type 0 where
  pub argv : List Word
  pub stdin : Source
  pub stdout : Sink

-- The variables behind the `while` over the tokens of a block.
pub record Block : Type 0 where
  pub argv : List Word
  pub infile_before : Bool
  pub outfile_before : Bool
  pub cur_token : Line

-- A word that is kept, in front of what the rest of the `while` finds.
abbrev pub keep : Word → Block → Block
keep w b = record b { argv = w ∷ b.argv }

-- the `while` over the tokens up to the next pipe
pub collect : Bool → Bool → Line → Block
collect i o [] = record { argv = []; infile_before = i; outfile_before = o; cur_token = [] }
collect i o ((Kind.infile, w) ∷ ts) = collect true o ts
collect i o ((Kind.outfile, w) ∷ ts) = collect i true ts
collect i o ((Kind.word, w) ∷ ts) =
    let b = collect false false ts in if not i && not o then keep w b else b
collect i o ((Kind.pipe, w) ∷ ts) = record {
  argv = [];
  infile_before = i;
  outfile_before = o;
  cur_token = (Kind.pipe, w) ∷ ts;
}

-- the redirections of a child, in the order of the code: the pipes first, then the files
abbrev pub file_or_shell : Option Word → Source
file_or_shell none = shell_in
file_or_shell (some w) = from_file w

abbrev pub shell_or_file : Option Word → Sink
shell_or_file none = shell_out
shell_or_file (some w) = to_file w

abbrev pub input_of : ℕ → Option Word → Source
input_of i infile = if i == 0 then file_or_shell infile else from_pipe (i - 1)

abbrev pub output_of : ℕ → ℕ → Option Word → Sink
output_of i blocks outfile =
    if i == blocks then shell_or_file outfile else if ltb i blocks then to_pipe i else shell_out

module _ (blocks : ℕ) (infile outfile : Option Word) where
  -- The `for` over the blocks, at iteration `i` with `n` to go. The test of `cur_token->type` at
  -- its head reads through `cur_token`: `none` is that read through NULL.
  pub launch : ℕ → ℕ → Bool → Bool → Line → Option (List Stage)
  launch zero i inb outb ts = some []
  launch (suc n) i inb outb [] = none
  launch (suc n) i inb outb ((k, w) ∷ ts) =
      let b = collect inb outb (if is_pipe k then ts else (k, w) ∷ ts) in
      Option.map
        (λ rest.
          record { argv = b.argv; stdin = input_of i infile; stdout = output_of i blocks outfile }
          ∷ rest)
        (launch n (i + 1) b.infile_before b.outfile_before b.cur_token)

-- What is started for the state behind the check and the tokens of the line.
pub plan : State → Line → Option (List Stage)
unfolding launch
plan s ts =
    if s.block_count == 0
    then some (
        record {
          argv = s.argv;
          stdin = input_of 0 s.infile_name;
          stdout = output_of 0 0 s.outfile_name;
        }
        ∷ [])
    else launch s.block_count s.infile_name s.outfile_name (s.block_count + 1) 0 s.infile_before
        s.outfile_before ts
