-- ===== src/Shell/Parser/Names.antt =====
-- The names of the files that the check of a line leaves for the pipeline.
use meph_i_semester_4_acos.Base.{
  ℕ, ◌≡◌, refl, Bool, ◌&&◌, not, Option, none, some, [], ◌∷◌, if◌then◌else◌, inl, inr, arith,
  Bool-cases,
}
use meph_i_semester_4_acos.Shell.Tokenizer.{Kind}
use meph_i_semester_4_acos.Shell.Parser.{
  Word, State, Run, go, stop, step, on_word, on_infile, on_outfile, on_pipe, fail, parse_loop,
  finish, parse, start,
}
use meph_i_semester_4_acos.Shell.Parser.Syntax.{Line, is_infile, is_outfile}

-- the first word of a line
abbrev pub first_word : Line → Option Word
first_word [] = none
first_word ((Kind.word, w) ∷ ts) = some w
first_word ((_, w) ∷ ts) = first_word ts

-- The first word behind the last token of a sort, or `d` if there is no such token.
abbrev pub name_behind : (Kind → Bool) → Option Word → Line → Option Word
name_behind p d [] = d
name_behind p d ((k, w) ∷ ts) = name_behind p (if p k then first_word ts else d) ts

-- the names, those of the tokens to come included
abbrev infile_with : State → Line → Option Word
infile_with s ts =
    name_behind is_infile (if s.infile_before then first_word ts else s.infile_name) ts

abbrev outfile_with : State → Line → Option Word
outfile_with s ts =
    name_behind is_outfile
      (if s.outfile_before && not s.infile_before then first_word ts else s.outfile_name) ts

abbrev Keeps : Option Word → Option Word → Line → Run → Type 0
Keeps i o ts (stop e a f) = Unit
Keeps i o ts (go s) = (infile_with s ts ≡ i) × (outfile_with s ts ≡ o)

step-Keeps :
    (mem : ℕ → Bool) (k : Kind) (w : Word) (ts : Line) (s : State)
    → Keeps (infile_with s ((k, w) ∷ ts)) (outfile_with s ((k, w) ∷ ts)) ts (step mem k w s)
unfolding step on_infile on_outfile on_pipe on_word fail
step-Keeps mem Kind.word w ts s = ground arith
step-Keeps mem Kind.infile w ts s = ground arith
step-Keeps mem Kind.outfile w ts s = ground arith
step-Keeps mem Kind.pipe w ts s = ground arith

parse_loop-Keeps :
    (mem : ℕ → Bool) (ts : Line) (s : State)
    → Keeps (infile_with s ts) (outfile_with s ts) [] (parse_loop mem ts s)
unfolding parse_loop
parse_loop-Keeps mem [] s = (refl, refl)
parse_loop-Keeps mem ((k, w) ∷ ts) s =
    after (step mem k w s) (step-Keeps mem k w ts s) (λ s'. parse_loop-Keeps mem ts s')
  where
    after :
        (r : Run)
        → Keeps (infile_with s ((k, w) ∷ ts)) (outfile_with s ((k, w) ∷ ts)) ts r
        → ((s' : State) → Keeps (infile_with s' ts) (outfile_with s' ts) [] (parse_loop mem ts s'))
        → Keeps
            (infile_with s ((k, w) ∷ ts))
            (outfile_with s ((k, w) ∷ ts))
            []
            (elim r [ go s' ↦ parse_loop mem ts s' | stop e a f ↦ stop e a f ])
    after (go s') (p, q) next = rw (← p, ← q) (next s')
    after (stop e a f) h next = tt

-- the names are those that the line says
abbrev pub Named : Line → Run → Type 0
Named ts (stop e a f) = Unit
Named ts (go s) =
    (s.infile_name ≡ name_behind is_infile none ts)
    × (s.outfile_name ≡ name_behind is_outfile none ts)

finish-Named :
    (ts : Line) (r : Run)
    → Keeps (name_behind is_infile none ts) (name_behind is_outfile none ts) [] r
    → Named ts (finish r)
unfolding finish fail
finish-Named ts (stop e a f) h = tt
finish-Named ts (go s) h = ground (arith, h)

pub parse-Named : (mem : ℕ → Bool) (ts : Line) → Named ts (parse mem ts)
unfolding parse
parse-Named mem [] = tt
parse-Named mem (t ∷ ts) = elim (Bool-cases (mem 0)) [
  | inl y ↦
      rw y (
        finish-Named (t ∷ ts) (parse_loop mem (t ∷ ts) start) (parse_loop-Keeps mem (t ∷ ts) start))
  | inr n ↦ rw n tt
]
