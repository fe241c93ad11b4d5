-- ===== src/Shell/Parser.antt =====
-- bash/pipe/bash.h: the first loop of Exec, which checks a command line and collects its words and
-- redirections, up to the final check. `mem k` says whether the k-th call of malloc succeeds; what
-- is printed and the descriptor of `dup` are left out.
pub mod Memory
pub mod Syntax
pub mod Counts
pub mod Names
mod Tests
use meph_i_semester_4_acos.Base.{
  ℕ, suc, ◌+◌, Bool, true, false, ◌||◌, not, Option, none, some, List, [], ◌∷◌, ◌++◌, ◌==◌, ltb,
  if◌then◌else◌, is_some, count_true, length, map,
}
use meph_i_semester_4_acos.Shell.Tokenizer.{Kind, Token, Tokenizer}
use meph_i_semester_4_acos.Shell.Tokenizer.Text.{text}

abbrev pub Word : Type 0
Word = List ℕ

-- The local variables of Exec. `token_count` is the length of `argv`; `allocated` and `freed`
-- count the successful calls of malloc and the blocks given back.
pub record State : Type 0 where
  pub argv : List Word
  pub infile_count : ℕ
  pub outfile_count : ℕ
  pub infile_before : Bool
  pub outfile_before : Bool
  pub pipe_before : Bool
  pub infile_name : Option Word
  pub outfile_name : Option Word
  pub outfile_block : Option ℕ
  pub block_count : ℕ
  pub allocated : ℕ
  pub freed : ℕ

-- why Exec returns: the line has no tokens, is refused, or malloc fails
pub data Failure : Type 0 where
  no_tokens syntax no_memory : Failure

-- A run goes on, or Exec returns with these counts of blocks taken and given back.
pub data Run : Type 0 where
  go : State → Run
  stop : Failure → (allocated freed : ℕ) → Run

-- `do_free`: the words and the array, in blocks.
abbrev pub do_free : ℕ → ℕ
do_free idx = idx + 1

-- `do_free_exit`: those and the file names that are there.
abbrev pub do_free_exit : ℕ → Option Word → Option Word → ℕ
do_free_exit idx infile outfile =
    do_free idx + count_true (is_some infile) + count_true (is_some outfile)

unfoldable pub fail : Failure → State → Option Word → Option Word → Run
fail e s infile outfile = stop e s.allocated (s.freed + do_free_exit (length s.argv) infile outfile)

-- the case TT_INFILE, with `syntax_error` as its first test
unfoldable pub on_infile : State → Run
on_infile s =
    if s.infile_before || s.outfile_before
    then fail syntax s s.infile_name s.outfile_name
    else if not (s.block_count == 0)
    then fail syntax s s.infile_name s.outfile_name
    else go (record s { infile_count = s.infile_count + 1; infile_before = true })

-- the case TT_OUTFILE
abbrev pub first_block : Option ℕ → ℕ → Option ℕ
first_block none n = some n
first_block (some m) n = some m

unfoldable pub on_outfile : State → Run
on_outfile s =
    if s.infile_before || s.outfile_before
    then fail syntax s s.infile_name s.outfile_name
    else go (record s {
      outfile_block = first_block s.outfile_block s.block_count;
      outfile_count = s.outfile_count + 1;
      outfile_before = true;
    })

-- the case TT_PIPE
unfoldable pub on_pipe : State → Run
on_pipe s =
    if s.pipe_before
    then fail syntax s s.infile_name s.outfile_name
    else go (record s { pipe_before = true; block_count = s.block_count + 1 })

-- The end of the case TT_WORD.
abbrev pub clear_flags : State → State
clear_flags s = record s { infile_before = false; outfile_before = false; pipe_before = false }

module _ (mem : ℕ → Bool) where
  -- the case TT_WORD: the word is a file name behind a redirection, and an argument otherwise
  unfoldable pub on_word : Word → State → Run
  on_word w s =
      if s.infile_before
      then (let s' = record s { freed = s.freed + count_true (is_some s.infile_name) } in
          if mem s.allocated
          then go (clear_flags (record s' { infile_name = some w; allocated = s.allocated + 1 }))
          else fail no_memory s' none s.outfile_name)
      else if s.outfile_before
      then (let s' = record s { freed = s.freed + count_true (is_some s.outfile_name) } in
          if mem s.allocated
          then go (clear_flags (record s' { outfile_name = some w; allocated = s.allocated + 1 }))
          else fail no_memory s' s.infile_name none)
      else if mem s.allocated
      then go (clear_flags (record s { argv = s.argv ++ (w ∷ []); allocated = s.allocated + 1 }))
      else fail no_memory s s.infile_name s.outfile_name

  -- the `switch`
  unfoldable pub step : Kind → Word → State → Run
  step Kind.infile w s = on_infile s
  step Kind.outfile w s = on_outfile s
  step Kind.pipe w s = on_pipe s
  step Kind.word w s = on_word w s

  -- the loop over the list of tokens
  unfoldable pub parse_loop : List (Kind × Word) → State → Run
  parse_loop [] s = go s
  parse_loop ((k, w) ∷ ts) s = elim (step k w s) [
    | go s' ↦ parse_loop ts s'
    | stop e a f ↦ stop e a f
  ]

-- the `outfile_block != -1 && outfile_block != block_count` of the final check
abbrev pub wrong_block : Option ℕ → ℕ → Bool
wrong_block none n = false
wrong_block (some m) n = not (m == n)

-- the check behind the loop
unfoldable pub finish : Run → Run
finish (stop e a f) = stop e a f
finish (go s) =
    if wrong_block s.outfile_block s.block_count
      || ((s.infile_before || s.outfile_before) || (ltb 1 s.infile_count || ltb 1 s.outfile_count))
    then fail syntax s s.infile_name s.outfile_name
    else go s

-- the variables before the loop, with the array allocated
abbrev pub start : State
start = record {
  argv = [];
  infile_count = 0;
  outfile_count = 0;
  infile_before = false;
  outfile_before = false;
  pipe_before = false;
  infile_name = none;
  outfile_name = none;
  outfile_block = none;
  block_count = 0;
  allocated = 1;
  freed = 0;
}

-- Exec up to the final check. On a line without tokens it returns before it allocates anything.
unfoldable pub parse : (ℕ → Bool) → List (Kind × Word) → Run
parse mem [] = stop no_tokens 0 0
parse mem (t ∷ ts) = if mem 0 then finish (parse_loop mem (t ∷ ts) start) else stop no_memory 0 0

-- the tokens as the loop reads them: the kind, and the bytes that `memcpy` takes
pub words_of : List ℕ → Tokenizer → List (Kind × Word)
words_of line t = map (λ (k : Token). (k.kind, text line k)) t.tokens
