-- ===== src/Shell/Pipeline/Blocks.antt =====
-- The children of a pipeline: how many, with which arguments, and how they are joined.
use meph_i_semester_4_acos.Base.{
  ℕ, zero, suc, ◌+◌, ◌≡◌, ◌<◌, ◌∙◌, ap, sym, refl, Bool, true, false, ◌||◌, Option, none, some,
  List, [], ◌∷◌, ◌++◌, ◌==◌, length, map, inl, inr, arith, append-nil, Bool-cases,
}
use native.Mathlib.Numerals.{add-one}
use meph_i_semester_4_acos.Shell.Tokenizer.{Kind}
use meph_i_semester_4_acos.Shell.Parser.{Word, State, go, parse}
use meph_i_semester_4_acos.Shell.Parser.Syntax.{Line, is_pipe, is_infile, is_outfile, count}
use meph_i_semester_4_acos.Shell.Parser.Counts.{arguments, Counted, parse-Counted}
use meph_i_semester_4_acos.Shell.Parser.Names.{name_behind, Named, parse-Named}
use meph_i_semester_4_acos.Shell.Pipeline.Segments.{
  at_pipe, segments, segments_behind, segments-arguments, open_of, collect-Collected,
}
use meph_i_semester_4_acos.Shell.Pipeline.{
  Stage, Source, from_pipe, Sink, to_pipe, Block, collect, launch, plan, input_of, output_of,
  file_or_shell, shell_or_file,
}

-- From child `i` on, each but the last writes into the pipe of its number, which the next one reads.
abbrev pub Chained : ℕ → List Stage → Type 0
Chained i [] = Unit
Chained i (a ∷ []) = Unit
Chained i (a ∷ b ∷ r) = (a.stdout ≡ to_pipe i) × (b.stdin ≡ from_pipe i) × Chained (i + 1) (b ∷ r)

-- The input of the first child, and the output of the last one.
abbrev pub HeadReads : Source → List Stage → Type 0
HeadReads s [] = Unit
HeadReads s (a ∷ r) = a.stdin ≡ s

abbrev pub LastWrites : Sink → List Stage → Type 0
LastWrites s [] = Unit
LastWrites s (a ∷ []) = a.stdout ≡ s
LastWrites s (a ∷ b ∷ r) = LastWrites s (b ∷ r)

abbrev pub all_words : List Stage → List Word
all_words [] = []
all_words (a ∷ r) = a.argv ++ all_words r

module _ (blocks : ℕ) (infile outfile : Option Word) where
  record Launched (n i : ℕ) (open' : Bool) (ts : Line) (segs : List (List Word))
      (stages : List Stage) : Type 0 where
    number : length stages ≡ n
    words : all_words stages ≡ arguments open' ts
    split : map (λ (a : Stage). a.argv) stages ≡ segs
    chained : Chained i stages
    first : HeadReads (input_of i infile) stages
    last : LastWrites (shell_or_file outfile) stages

  abbrev stage : ℕ → List Word → Stage
  stage i ws = record { argv = ws; stdin = input_of i infile; stdout = output_of i blocks outfile }

  Launched-cons :
      (n i : ℕ) (open' : Bool) (ts : Line) (b : Block) (segs : List (List Word))
      (stages : List Stage)
      → i + suc n ≡ suc blocks
      → b.argv ++ arguments (open_of b) b.cur_token ≡ arguments open' ts
      → Launched n (i + 1) (open_of b) b.cur_token segs stages
      → Launched (suc n) i open' ts (b.argv ∷ segs) (stage i b.argv ∷ stages)
  Launched-cons n i open' ts b segs [] e c l = record {
    number = ap suc l.number;
    words = ap (λ r. b.argv ++ r) l.words ∙ c;
    split = ap (λ r. b.argv ∷ r) l.split;
    chained = tt;
    first = refl;
    last = let n0 : n ≡ 0 = omega (arith, l.number) in ground arith;
  }
  Launched-cons n i open' ts b segs (a ∷ r) e c l = record {
    number = ap suc l.number;
    words = ap (λ r'. b.argv ++ r') l.words ∙ c;
    split = ap (λ r'. b.argv ∷ r') l.split;
    chained = (
      let k : i < blocks = omega (arith, l.number) in ground arith,
      ground (arith, l.first),
      l.chained,
    );
    first = refl;
    last = l.last;
  }

  abbrev Started : ℕ → ℕ → Bool → Bool → Line → List (List Word) → Type 0
  Started n i inb outb ts segs =
      (stages : List Stage) × (launch blocks infile outfile n i inb outb ts ≡ some stages)
      × Launched n i (inb || outb) ts segs stages

  launch_rest :
      (n i : ℕ) (inb outb : Bool) (ts : Line)
      → i + n ≡ suc blocks
      → count is_pipe ts ≡ n
      → at_pipe ts ≡ true
      → Started n i inb outb ts (segments_behind (inb || outb) ts)
  unfolding launch
  launch_rest zero i inb outb [] e c p = (
    [],
    refl,
    record { number = refl; words = refl; split = refl; chained = tt; first = tt; last = tt },
  )
  launch_rest zero i inb outb ((Kind.pipe, w) ∷ ts) e c p = absurd (omega arith)
  launch_rest (suc n) i inb outb [] e c p = absurd (omega arith)
  launch_rest (suc n) i inb outb ((Kind.pipe, w) ∷ ts) e c p =
      let col = collect-Collected inb outb ts in
      let b = collect inb outb ts in
      let same : count is_pipe b.cur_token ≡ n = omega (arith, col.pipes) in
      let (stages, ran, l) =
        launch_rest n (i + 1) b.infile_before b.outfile_before b.cur_token (omega arith) same
          col.stops in
      (
        stage i b.argv ∷ stages,
        rw ran,
        rw col.split
            (Launched-cons n i (inb || outb) ((Kind.pipe, w) ∷ ts) b _ stages e col.words l),
      )
  launch_rest _ i inb outb ((Kind.word, w) ∷ ts) e c p = cc
  launch_rest _ i inb outb ((Kind.infile, w) ∷ ts) e c p = cc
  launch_rest _ i inb outb ((Kind.outfile, w) ∷ ts) e c p = cc

  launch_first :
      (k : Kind) (w : Word) (ts : Line)
      → is_pipe k ≡ false
      → count is_pipe ts ≡ blocks
      → Started (suc blocks) 0 false false ((k, w) ∷ ts) (segments false ((k, w) ∷ ts))
  unfolding launch
  launch_first k w ts p c =
      let line = (k, w) ∷ ts in
      let col = collect-Collected false false line in
      let b = collect false false line in
      let same : count is_pipe b.cur_token ≡ blocks = ground (arith, col.pipes) in
      let (stages, ran, l) =
        launch_rest blocks 1 b.infile_before b.outfile_before b.cur_token (omega arith) same
          col.stops in
      (
        stage 0 b.argv ∷ stages,
        rw p (rw ran),
        rw col.split (Launched-cons blocks 0 false line b _ stages (omega arith) col.words l),
      )

  -- A leading pipe is skipped with the first block, so the last iteration finds no token.
  launch_short :
      (n i : ℕ) (inb outb : Bool) (ts : Line)
      → count is_pipe ts < n
      → at_pipe ts ≡ true
      → launch blocks infile outfile n i inb outb ts ≡ none
  unfolding launch
  launch_short zero i inb outb ts c p = absurd (omega arith)
  launch_short (suc n) i inb outb [] c p = refl
  launch_short (suc n) i inb outb ((Kind.pipe, w) ∷ ts) c p =
      let col = collect-Collected inb outb ts in
      let b = collect inb outb ts in
      let fewer : count is_pipe b.cur_token < n = omega (arith, col.pipes) in
      rw (launch_short n (i + 1) b.infile_before b.outfile_before b.cur_token fewer col.stops)
  launch_short (suc n) i inb outb ((Kind.word, w) ∷ ts) c p = cc
  launch_short (suc n) i inb outb ((Kind.infile, w) ∷ ts) c p = cc
  launch_short (suc n) i inb outb ((Kind.outfile, w) ∷ ts) c p = cc

plan-Counted :
    (s : State) (ts : Line)
    → Counted ts (go s)
    → at_pipe ts ≡ false
    → (stages : List Stage) × (plan s ts ≡ some stages)
      × (length stages ≡ suc (count is_pipe ts))
      × (map (λ (a : Stage). a.argv) stages ≡ segments false ts)
      × (all_words stages ≡ arguments false ts)
      × Chained 0 stages
      × HeadReads (file_or_shell s.infile_name) stages
      × LastWrites (shell_or_file s.outfile_name) stages
unfolding plan
plan-Counted s [] h p = cc
plan-Counted s ((k, w) ∷ ts) h p = elim (Bool-cases (s.block_count == 0)) [
  | inl one ↦ (
    record {
      argv = s.argv;
      stdin = input_of 0 s.infile_name;
      stdout = output_of 0 0 s.outfile_name;
    }
        ∷ [],
    rw one,
    ground arith,
    ap (λ ws. ws ∷ []) h.1
        ∙ sym (segments-arguments false ((k, w) ∷ ts) (ground (arith, h.0, one))),
    append-nil s.argv ∙ h.1,
    tt,
    refl,
    refl,
  )
  | inr more ↦
      let (stages, ran, l) =
        launch_first s.block_count s.infile_name s.outfile_name k w ts p (ground arith) in
      (
        stages,
        rw (more, add-one, h.2, h.3) ran,
        ground (arith, l.number),
        l.split,
        l.words,
        l.chained,
        l.first,
        l.last,
      )
]

-- For a line that Exec goes on with and that does not begin with a pipe, there is one child more
-- than there are pipes; the arguments of a child are the words between its pipes, without the file
-- names, so joined in order they are the words of the line that are no file names; each child but
-- the last writes into a pipe of its own, number i for child i, which the next one reads; the first
-- child reads the file that the first word behind `<` names, or the input of the shell if the line
-- has no `<`; and the last one writes the file that the first word behind `>` names, or the output
-- of the shell if the line has no `>`.
pub plan-Chained :
    (mem : ℕ → Bool) (ts : Line) (s : State)
    → parse mem ts ≡ go s
    → at_pipe ts ≡ false
    → (stages : List Stage) × (plan s ts ≡ some stages)
      × (length stages ≡ suc (count is_pipe ts))
      × (map (λ (a : Stage). a.argv) stages ≡ segments false ts)
      × (all_words stages ≡ arguments false ts)
      × Chained 0 stages
      × HeadReads (file_or_shell (name_behind is_infile none ts)) stages
      × LastWrites (shell_or_file (name_behind is_outfile none ts)) stages
plan-Chained mem ts s e p =
    let (i, o) : Named ts (go s) = rw e at (parse-Named mem ts) in
    rw (← i, ← o) (plan-Counted s ts (rw e at (parse-Counted mem ts)) p)

plan_short :
    (s : State) (w : Word) (ts : Line)
    → Counted ((Kind.pipe, w) ∷ ts) (go s)
    → plan s ((Kind.pipe, w) ∷ ts) ≡ none
unfolding plan launch
plan_short s w ts h =
    let more : (s.block_count == 0) ≡ false = ground arith in
    let b = collect s.infile_before s.outfile_before ts in
    let col = collect-Collected s.infile_before s.outfile_before ts in
    let fewer : count is_pipe b.cur_token < s.block_count = omega (arith, col.pipes) in
    let short =
      launch_short s.block_count s.infile_name s.outfile_name s.block_count 1 b.infile_before
        b.outfile_before b.cur_token fewer col.stops in
    rw (more, add-one) (rw short)

-- A line that begins with a pipe and that Exec goes on with makes it read the type of a token
-- through NULL.
pub plan-leading_pipe :
    (mem : ℕ → Bool) (w : Word) (ts : Line) (s : State)
    → parse mem ((Kind.pipe, w) ∷ ts) ≡ go s
    → plan s ((Kind.pipe, w) ∷ ts) ≡ none
plan-leading_pipe mem w ts s e =
    plan_short s w ts (rw e at (parse-Counted mem ((Kind.pipe, w) ∷ ts)))
