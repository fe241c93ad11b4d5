-- ===== src/Shell/Tokenizer/Tests.antt =====
-- TokenizerInit at concrete lines.
use meph_i_semester_4_acos.Base.{ℕ, ◌≡◌, refl, some, List, [], ◌∷◌, map, codes}
use meph_i_semester_4_acos.Shell.Tokenizer.{Kind, token, Tokenizer, init}
use meph_i_semester_4_acos.Shell.Tokenizer.Text.{text}
use meph_i_semester_4_acos.Shell.Tokenizer.Print.{init-render}

abbrev line : List ℕ
line = codes " cat <in |wc"

init-line :
    init line
    ≡ some (record {
      token_count = 5;
      tokens =
          token 1 3 Kind.word
          ∷ token 5 1 Kind.infile
          ∷ token 6 2 Kind.word
          ∷ token 9 1 Kind.pipe
          ∷ token 10 2 Kind.word
          ∷ [];
    })
unfolding init
init-line = refl

abbrev texts : List (List ℕ)
texts = codes "ls" ∷ codes "|" ∷ codes "wc" ∷ []

init-render_example :
    (t : Tokenizer) × (init (codes " ls | wc") ≡ some t)
    × (map (text (codes " ls | wc")) t.tokens ≡ texts)
init-render_example = init-render texts (
  (refl, refl, λ ne. absurd (ne refl)),
  ((refl, refl, λ ne. refl), ((refl, refl, λ ne. absurd (ne refl)), tt)),
)
