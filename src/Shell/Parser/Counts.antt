-- ===== src/Shell/Parser/Counts.antt =====
-- What the check of a line leaves for the pipeline: the number of blocks, the words, and no
-- redirection that is open.
use meph_i_semester_4_acos.Base.{
  ℕ, ◌+◌, ◌≡◌, refl, Bool, true, false, ◌||◌, List, [], ◌∷◌, ◌++◌, if◌then◌else◌, inl, inr, arith,
  append_assoc, append-nil, Bool-cases,
}
use meph_i_semester_4_acos.Shell.Tokenizer.{Kind}
use meph_i_semester_4_acos.Shell.Parser.{
  Word, State, Run, go, stop, step, on_word, on_infile, on_outfile, on_pipe, fail, parse_loop,
  finish, parse, start,
}
use meph_i_semester_4_acos.Shell.Parser.Syntax.{Line, is_pipe, count}

-- The words of a line that are no file names, in order. The flag says that a redirection is open.
abbrev pub arguments : Bool → Line → List Word
arguments open' [] = []
arguments open' ((Kind.word, w) ∷ ts) =
    let rest = arguments false ts in if open' then rest else w ∷ rest
arguments open' ((Kind.infile, w) ∷ ts) = arguments true ts
arguments open' ((Kind.outfile, w) ∷ ts) = arguments true ts
arguments open' ((Kind.pipe, w) ∷ ts) = arguments open' ts

-- the blocks and the words, those of the tokens to come included
abbrev blocks_with : State → Line → ℕ
blocks_with s ts = s.block_count + count is_pipe ts

abbrev words_with : State → Line → List Word
words_with s ts = s.argv ++ arguments (s.infile_before || s.outfile_before) ts

abbrev Keeps : ℕ → List Word → Line → Run → Type 0
Keeps n ws ts (stop e a f) = Unit
Keeps n ws ts (go s) = (blocks_with s ts ≡ n) × (words_with s ts ≡ ws)

step-Keeps :
    (mem : ℕ → Bool) (k : Kind) (w : Word) (ts : Line) (s : State)
    → Keeps (blocks_with s ((k, w) ∷ ts)) (words_with s ((k, w) ∷ ts)) ts (step mem k w s)
unfolding step on_infile on_outfile on_pipe on_word fail
step-Keeps mem Kind.word w ts s = ground (arith, append_assoc s.argv (w ∷ []) (arguments false ts))
step-Keeps mem Kind.infile w ts s = ground arith
step-Keeps mem Kind.outfile w ts s = ground arith
step-Keeps mem Kind.pipe w ts s = ground arith

parse_loop-Keeps :
    (mem : ℕ → Bool) (ts : Line) (s : State)
    → Keeps (blocks_with s ts) (words_with s ts) [] (parse_loop mem ts s)
unfolding parse_loop
parse_loop-Keeps mem [] s = (refl, refl)
parse_loop-Keeps mem ((k, w) ∷ ts) s =
    after (step mem k w s) (step-Keeps mem k w ts s) (λ s'. parse_loop-Keeps mem ts s')
  where
    after :
        (r : Run)
        → Keeps (blocks_with s ((k, w) ∷ ts)) (words_with s ((k, w) ∷ ts)) ts r
        → ((s' : State) → Keeps (blocks_with s' ts) (words_with s' ts) [] (parse_loop mem ts s'))
        → Keeps
            (blocks_with s ((k, w) ∷ ts))
            (words_with s ((k, w) ∷ ts))
            []
            (elim r [ go s' ↦ parse_loop mem ts s' | stop e a f ↦ stop e a f ])
    after (go s') (p, q) next = rw (← p, ← q) (next s')
    after (stop e a f) h next = tt

abbrev pub Counted : Line → Run → Type 0
Counted ts (stop e a f) = Unit
Counted ts (go s) =
    (s.block_count ≡ count is_pipe ts)
    × (s.argv ≡ arguments false ts)
    × (s.infile_before ≡ false)
    × (s.outfile_before ≡ false)

finish-Counted :
    (ts : Line) (r : Run)
    → Keeps (count is_pipe ts) (arguments false ts) [] r
    → Counted ts (finish r)
unfolding finish fail
finish-Counted ts (stop e a f) h = tt
finish-Counted ts (go s) h = ground (arith, append-nil s.argv)

loop-Keeps :
    (mem : ℕ → Bool) (ts : Line)
    → Keeps (count is_pipe ts) (arguments false ts) [] (parse_loop mem ts start)
loop-Keeps mem ts =
    let none_before : 0 + count is_pipe ts ≡ count is_pipe ts = omega arith in
    rw none_before at (parse_loop-Keeps mem ts start)

pub parse-Counted : (mem : ℕ → Bool) (ts : Line) → Counted ts (parse mem ts)
unfolding parse
parse-Counted mem [] = tt
parse-Counted mem (t ∷ ts) = elim (Bool-cases (mem 0)) [
  | inl y ↦ rw y (finish-Counted (t ∷ ts) (parse_loop mem (t ∷ ts) start) (loop-Keeps mem (t ∷ ts)))
  | inr n ↦ rw n tt
]
