-- ===== src/Shell/Parser/Syntax.antt =====
-- Which command lines Exec accepts.
use meph_i_semester_4_acos.Base.{
  ℕ, ◌+◌, ◌≡◌, ◌∙◌, refl, Bool, true, false, ◌||◌, not, ◌&&◌, Option, none, some, List, [], ◌∷◌,
  ◌++◌, ◌==◌, count_true, arith, leb, ltb, length, if◌then◌else◌,
}
use meph_i_semester_4_acos.Shell.Tokenizer.{Kind}
use meph_i_semester_4_acos.Shell.Parser.{
  Word, State, Run, go, stop, fail, on_infile, on_outfile, on_pipe, on_word, step, parse_loop,
  finish, start, parse,
}

abbrev pub Line : Type 0
Line = List (Kind × Word)

abbrev pub is_pipe : Kind → Bool
is_pipe Kind.pipe = true
is_pipe _ = false

abbrev pub is_infile : Kind → Bool
is_infile Kind.infile = true
is_infile _ = false

abbrev pub is_outfile : Kind → Bool
is_outfile Kind.outfile = true
is_outfile _ = false

abbrev pub is_redirect : Kind → Bool
is_redirect k = is_infile k || is_outfile k

abbrev pub is_word : Kind → Bool
is_word Kind.word = true
is_word _ = false

-- how many tokens of a sort there are
abbrev pub count : (Kind → Bool) → Line → ℕ
count p [] = 0
count p ((k, w) ∷ ts) = count_true (p k) + count p ts

-- Between any two tokens of a sort stands a word. The flag says that one is open.
abbrev pub separated : (Kind → Bool) → Bool → Line → Bool
separated p open' [] = true
separated p open' ((k, w) ∷ ts) =
    let rest = separated p ((open' || p k) && not (is_word k)) ts in not (open' && p k) && rest

-- A word follows the last redirection.
abbrev pub closed : Bool → Line → Bool
closed open' [] = not open'
closed open' ((k, w) ∷ ts) = closed ((open' || is_redirect k) && not (is_word k)) ts

-- `<` stands in the first block only.
abbrev pub infile_first : Bool → Line → Bool
infile_first first [] = true
infile_first first ((k, w) ∷ ts) =
    let rest = infile_first (first && not (is_pipe k)) ts in (first || not (is_infile k)) && rest

-- `>` stands in the last block only.
abbrev pub outfile_last : Line → Bool
outfile_last [] = true
outfile_last ((k, w) ∷ ts) =
    let rest = outfile_last ts in if is_outfile k then count is_pipe ts == 0 else rest

abbrev pub valid : Line → Bool
valid ts =
    ltb 0 (length ts)
    && (separated is_redirect false ts
        && (separated is_pipe false ts
            && (closed false ts
                && (infile_first true ts
                    && (outfile_last ts
                        && (leb (count is_infile ts) 1 && leb (count is_outfile ts) 1))))))

abbrev pub accepted : Run → Bool
accepted (go s) = true
accepted (stop e a f) = false

-- the same from the middle of the loop
abbrev last_from : Option ℕ → ℕ → Line → Bool
last_from none b ts = outfile_last ts
last_from (some m) b ts = m == b + count is_pipe ts

abbrev valid_from : State → Line → Bool
valid_from s ts =
    separated is_redirect (s.infile_before || s.outfile_before) ts
    && (separated is_pipe s.pipe_before ts
        && (closed (s.infile_before || s.outfile_before) ts
            && (infile_first (s.block_count == 0) ts
                && (last_from s.outfile_block s.block_count ts
                    && (leb (s.infile_count + count is_infile ts) 1
                        && leb (s.outfile_count + count is_outfile ts) 1)))))

abbrev valid_run : Run → Line → Bool
valid_run (go s) ts = valid_from s ts
valid_run (stop e a f) ts = false

module _ (mem : ℕ → Bool) (yes_mem : (k : ℕ) → mem k ≡ true) where
  step-valid :
      (k : Kind) (w : Word) (ts : Line) (s : State)
      → valid_run (step mem k w s) ts ≡ valid_from s ((k, w) ∷ ts)
  unfolding step on_infile on_outfile on_pipe on_word fail
  step-valid Kind.word w ts s = ground (arith, yes_mem s.allocated)
  step-valid Kind.infile w ts s = ground arith
  step-valid Kind.outfile w ts s = ground arith
  step-valid Kind.pipe w ts s = ground arith

  parse_loop-valid :
      (ts : Line) (s : State) → accepted (finish (parse_loop mem ts s)) ≡ valid_from s ts
  unfolding parse_loop finish fail
  parse_loop-valid [] s = ground arith
  parse_loop-valid ((k, w) ∷ ts) s =
      after (step mem k w s) (λ s'. parse_loop-valid ts s') ∙ step-valid k w ts s
    where
      after :
          (r : Run)
          → ((s' : State) → accepted (finish (parse_loop mem ts s')) ≡ valid_from s' ts)
          → accepted (finish (elim r [ go s' ↦ parse_loop mem ts s' | stop e a f ↦ stop e a f ]))
            ≡ valid_run r ts
      after (go s') next = next s'
      after (stop e a f) next = refl

  -- With memory enough, Exec goes on with a line exactly when: it has a token; a word stands
  -- between any two redirections, between any two pipes, and behind the last redirection; `<` stands before the
  -- first pipe and `>` behind the last one; and there is at most one of each. So a
  -- pipe may stand between a redirection and its word, as in `cat < | wc`.
  pub parse-valid : (ts : Line) → accepted (parse mem ts) ≡ valid ts
  unfolding parse
  parse-valid [] = refl
  parse-valid (t ∷ ts) = ground (arith, yes_mem 0, parse_loop-valid (t ∷ ts) start)

abbrev pub Words : Line → Type 0
Words [] = Unit
Words ((k, w) ∷ ts) = (k ≡ Kind.word) × Words ts

valid-Words_pipe : (ts : Line) (w : Word) → Words ts → valid (ts ++ (Kind.pipe, w) ∷ []) ≡ true
valid-Words_pipe [] w h = refl
valid-Words_pipe ((Kind.word, v) ∷ ts) w h = ground (arith, valid-Words_pipe ts w h.1)
valid-Words_pipe ((Kind.infile, v) ∷ ts) w h = cc
valid-Words_pipe ((Kind.outfile, v) ∷ ts) w h = cc
valid-Words_pipe ((Kind.pipe, v) ∷ ts) w h = cc

-- With memory enough, Exec goes on with a line of words that ends in a pipe, although no command
-- stands behind that pipe.
pub parse-trailing_pipe :
    (mem : ℕ → Bool)
    → ((k : ℕ) → mem k ≡ true)
    → (ts : Line) (w : Word) → Words ts
    → accepted (parse mem (ts ++ (Kind.pipe, w) ∷ [])) ≡ true
parse-trailing_pipe mem yes_mem ts w h =
    parse-valid mem yes_mem (ts ++ (Kind.pipe, w) ∷ []) ∙ valid-Words_pipe ts w h
