-- ===== src/Shell/Pipeline/Segments.antt =====
-- How a line is cut into the blocks of a pipeline.
use meph_i_semester_4_acos.Base.{
  ◌≡◌, refl, Bool, true, false, ◌||◌, List, [], ◌∷◌, ◌++◌, arith, if◌then◌else◌,
}
use meph_i_semester_4_acos.Shell.Tokenizer.{Kind}
use meph_i_semester_4_acos.Shell.Parser.{Word}
use meph_i_semester_4_acos.Shell.Parser.Syntax.{Line, is_pipe, count}
use meph_i_semester_4_acos.Shell.Parser.Counts.{arguments}
use meph_i_semester_4_acos.Shell.Pipeline.{Block, collect}

-- what is left of a line at the head of the `for`: nothing, or a pipe and the rest
abbrev pub at_pipe : Line → Bool
at_pipe [] = true
at_pipe ((k, w) ∷ ts) = is_pipe k

-- The arguments that the line says for each of its blocks. The flag says that a redirection is open.
abbrev pub put_first : Word → List (List Word) → List (List Word)
put_first w [] = (w ∷ []) ∷ []
put_first w (ws ∷ wss) = (w ∷ ws) ∷ wss

abbrev pub segments : Bool → Line → List (List Word)
segments open' [] = [] ∷ []
segments open' ((Kind.word, w) ∷ ts) =
    let rest = segments false ts in if open' then rest else put_first w rest
segments open' ((Kind.infile, w) ∷ ts) = segments true ts
segments open' ((Kind.outfile, w) ∷ ts) = segments true ts
segments open' ((Kind.pipe, w) ∷ ts) = [] ∷ segments open' ts

-- those of the blocks behind the pipe at the head
abbrev pub segments_behind : Bool → Line → List (List Word)
segments_behind open' [] = []
segments_behind open' (t ∷ ts) = segments open' ts

-- a line without pipes has one block
pub segments-arguments :
    (open' : Bool) (ts : Line) → count is_pipe ts ≡ 0 → segments open' ts ≡ arguments open' ts ∷ []
segments-arguments open' [] h = refl
segments-arguments open' ((Kind.word, w) ∷ ts) h =
    let e = segments-arguments false ts (omega (arith, h)) in rw e (ground arith)
segments-arguments open' ((Kind.infile, w) ∷ ts) h = segments-arguments true ts (omega (arith, h))
segments-arguments open' ((Kind.outfile, w) ∷ ts) h = segments-arguments true ts (omega (arith, h))
segments-arguments open' ((Kind.pipe, w) ∷ ts) h = absurd (omega (arith, h))

abbrev pub open_of : Block → Bool
open_of b = b.infile_before || b.outfile_before

pub record Collected (open' : Bool) (ts : Line) (b : Block) : Type 0 where
  pub words : b.argv ++ arguments (open_of b) b.cur_token ≡ arguments open' ts
  pub pipes : count is_pipe b.cur_token ≡ count is_pipe ts
  pub stops : at_pipe b.cur_token ≡ true
  pub split : segments open' ts ≡ b.argv ∷ segments_behind (open_of b) b.cur_token

pub collect-Collected : (i o : Bool) (ts : Line) → Collected (i || o) ts (collect i o ts)
unfolding collect
collect-Collected i o [] = record { words = refl; pipes = refl; stops = refl; split = refl }
collect-Collected i o ((Kind.pipe, w) ∷ ts) = record {
  words = refl;
  pipes = refl;
  stops = refl;
  split = refl;
}
collect-Collected i o ((Kind.infile, w) ∷ ts) = ground (arith, collect-Collected true o ts)
collect-Collected i o ((Kind.outfile, w) ∷ ts) = ground (arith, collect-Collected i true ts)
collect-Collected i o ((Kind.word, w) ∷ ts) = ground (arith, collect-Collected false false ts)
