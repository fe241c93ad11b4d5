-- ===== src/Shell/Parser/Memory.antt =====
-- Exec gives back what it allocated on every early return.
use meph_i_semester_4_acos.Base.{
  ℕ, ◌+◌, ◌≡◌, refl, Bool, List, [], ◌∷◌, length, length-append, inl, inr, Bool-cases, arith,
}
use meph_i_semester_4_acos.Shell.Tokenizer.{Kind}
use meph_i_semester_4_acos.Shell.Parser.{
  Word, State, Run, go, stop, fail, on_infile, on_outfile, on_pipe, on_word, step, parse_loop,
  finish, start, parse, do_free_exit,
}

-- While the loop runs, the live blocks are the array, its words and the file names.
abbrev pub Balanced : State → Type 0
Balanced s = s.allocated ≡ s.freed + do_free_exit (length s.argv) s.infile_name s.outfile_name

-- Live blocks of a run: none after a return.
abbrev pub RunBalanced : Run → Type 0
RunBalanced (go s) = Balanced s
RunBalanced (stop e a f) = a ≡ f

step-Balanced :
    (mem : ℕ → Bool) (k : Kind) (w : Word) (s : State) → Balanced s → RunBalanced (step mem k w s)
unfolding step on_infile on_outfile on_pipe on_word fail
step-Balanced mem Kind.infile w s h = ground arith
step-Balanced mem Kind.outfile w s h = ground arith
step-Balanced mem Kind.pipe w s h = ground arith
step-Balanced mem Kind.word w s h = ground (arith, length-append s.argv (w ∷ []))

parse_loop-Balanced :
    (mem : ℕ → Bool) (ts : List (Kind × Word)) (s : State)
    → Balanced s
    → RunBalanced (parse_loop mem ts s)
unfolding parse_loop
parse_loop-Balanced mem [] s h = h
parse_loop-Balanced mem ((k, w) ∷ ts) s h =
    after (step mem k w s) (step-Balanced mem k w s h) (λ s' b. parse_loop-Balanced mem ts s' b)
  where
    after :
        (r : Run)
        → RunBalanced r
        → ((s' : State) → Balanced s' → RunBalanced (parse_loop mem ts s'))
        → RunBalanced (elim r [ go s' ↦ parse_loop mem ts s' | stop e a f ↦ stop e a f ])
    after (go s') b next = next s' b
    after (stop e a f) b next = b

finish-Balanced : (r : Run) → RunBalanced r → RunBalanced (finish r)
unfolding finish fail
finish-Balanced (stop e a f) h = h
finish-Balanced (go s) h = ground arith

-- Whatever the tokens are and whichever call of malloc fails: where Exec returns before the fork,
-- because of the syntax or for lack of memory, it has given back as many blocks as it took; where
-- it goes on, the blocks that are left are the array, its words and the file names.
pub parse-Balanced : (mem : ℕ → Bool) (ts : List (Kind × Word)) → RunBalanced (parse mem ts)
unfolding parse
parse-Balanced mem [] = refl
parse-Balanced mem (t ∷ ts) = elim (Bool-cases (mem 0)) [
  | inl y ↦ rw y (
      finish-Balanced (parse_loop mem (t ∷ ts) start) (parse_loop-Balanced mem (t ∷ ts) start refl))
  | inr n ↦ rw n refl
]
