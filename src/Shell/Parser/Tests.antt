-- ===== src/Shell/Parser/Tests.antt =====
-- The check of concrete lines.
use meph_i_semester_4_acos.Base.{ℕ, ◌≡◌, refl, Bool, true, some, [], ◌∷◌, codes, ltb}
use meph_i_semester_4_acos.Shell.Tokenizer.{Kind}
use meph_i_semester_4_acos.Shell.Parser.{
  go, stop, start, syntax, parse, parse_loop, finish, step, on_word, on_infile, on_outfile, on_pipe,
  fail,
}
use meph_i_semester_4_acos.Shell.Parser.Syntax.{Line, accepted, parse-valid, parse-trailing_pipe}
use meph_i_semester_4_acos.Shell.Parser.Memory.{RunBalanced, parse-Balanced}

abbrev plenty : ℕ → Bool
plenty k = true

-- cat < in | wc
abbrev line : Line
line =
    (Kind.word, codes "cat")
    ∷ (Kind.infile, codes "<")
    ∷ (Kind.word, codes "in")
    ∷ (Kind.pipe, codes "|")
    ∷ (Kind.word, codes "wc")
    ∷ []

parse-line :
    parse plenty line
    ≡ go (record start {
      argv = codes "cat" ∷ codes "wc" ∷ [];
      infile_count = 1;
      infile_name = some (codes "in");
      block_count = 1;
      allocated = 4;
    })
unfolding parse parse_loop finish step on_word on_infile on_outfile on_pipe fail
parse-line = refl

-- < a < b: a second `<` behind the first
parse-two_inputs : parse plenty ((Kind.infile, []) ∷ (Kind.infile, []) ∷ []) ≡ stop syntax 1 1
unfolding parse parse_loop finish step on_word on_infile on_outfile on_pipe fail
parse-two_inputs = refl

parse-valid_example : accepted (parse plenty line) ≡ true
parse-valid_example = parse-valid plenty (λ k. refl) line

-- the third block cannot be had
abbrev two_blocks : ℕ → Bool
two_blocks k = ltb k 2

parse-Balanced_example : RunBalanced (parse two_blocks line)
parse-Balanced_example = parse-Balanced two_blocks line

parse-trailing_pipe_example :
    accepted (parse plenty ((Kind.word, codes "ls") ∷ (Kind.pipe, codes "|") ∷ [])) ≡ true
parse-trailing_pipe_example =
    parse-trailing_pipe plenty (λ k. refl) ((Kind.word, codes "ls") ∷ []) (codes "|") (refl, tt)
