-- ===== src/Shell/Pipeline/Tests.antt =====
-- The children of concrete lines.
use meph_i_semester_4_acos.Base.{
  ℕ, ◌≡◌, refl, Bool, true, some, none, List, [], ◌∷◌, codes, map, length,
}
use meph_i_semester_4_acos.Shell.Tokenizer.{Kind}
use meph_i_semester_4_acos.Shell.Parser.{
  State, start, parse, parse_loop, finish, step, on_word, on_infile, on_outfile, on_pipe, fail,
}
use meph_i_semester_4_acos.Shell.Parser.Syntax.{Line}
use meph_i_semester_4_acos.Shell.Pipeline.{Stage, from_file, shell_out, plan}
use meph_i_semester_4_acos.Shell.Pipeline.Blocks.{
  all_words, Chained, HeadReads, LastWrites, plan-Chained, plan-leading_pipe,
}

abbrev plenty : ℕ → Bool
plenty k = true

-- cat < in | wc
abbrev line : Line
line =
    (Kind.word, codes "cat")
    ∷ (Kind.infile, codes "<")
    ∷ (Kind.word, codes "in")
    ∷ (Kind.pipe, codes "|")
    ∷ (Kind.word, codes "wc")
    ∷ []

abbrev parsed : State
parsed = record start {
  argv = codes "cat" ∷ codes "wc" ∷ [];
  infile_count = 1;
  infile_name = some (codes "in");
  block_count = 1;
  allocated = 4;
}

plan-Chained_example :
    (stages : List Stage) × (plan parsed line ≡ some stages)
    × (length stages ≡ 2)
    × (map (λ (a : Stage). a.argv) stages ≡ (codes "cat" ∷ []) ∷ (codes "wc" ∷ []) ∷ [])
    × (all_words stages ≡ codes "cat" ∷ codes "wc" ∷ [])
    × Chained 0 stages
    × HeadReads (from_file (codes "in")) stages
    × LastWrites shell_out stages
unfolding parse parse_loop finish step on_word on_infile on_outfile on_pipe fail
plan-Chained_example = plan-Chained plenty line parsed refl refl

abbrev led : State
led = record start { argv = codes "wc" ∷ []; block_count = 1; allocated = 2 }

plan-leading_pipe_example : plan led ((Kind.pipe, codes "|") ∷ (Kind.word, codes "wc") ∷ []) ≡ none
unfolding parse parse_loop finish step on_word on_infile on_outfile on_pipe fail
plan-leading_pipe_example =
    plan-leading_pipe plenty (codes "|") ((Kind.word, codes "wc") ∷ []) led refl
