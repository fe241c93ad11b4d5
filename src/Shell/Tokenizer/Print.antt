-- ===== src/Shell/Tokenizer/Print.antt =====
-- Tokens written with a blank in front of each are read back.
use meph_i_semester_4_acos.Base.{
  ℕ, suc, ◌+◌, ◌≡◌, ◌≢◌, refl, sym, ap, ap₂, ◌∙◌, true, List, [], ◌∷◌, ◌++◌, map, arith, length,
  take, drop, all, All, drop-drop, take-append, drop-append, some,
}
use meph_i_semester_4_acos.Shell.Tokenizer.{
  Kind, Token, Tokenizer, in_word, blanks, word_rest, kind_of, len_of, init,
}
use meph_i_semester_4_acos.Shell.Tokenizer.Scan.{Tokens, at_end, at_nul, next, init-Tokens}
use meph_i_semester_4_acos.Shell.Tokenizer.Text.{text, drop-blanks}

-- The bytes of one token: an operator, or a word that does not begin with one.
abbrev pub IsText : List ℕ → Type 0
IsText [] = ⊥
IsText (c ∷ w) = (in_word c ≡ true) × (all in_word w ≡ true) × (kind_of c ≢ Kind.word → w ≡ [])

abbrev pub render : List (List ℕ) → List ℕ
render [] = []
render (w ∷ ws) = b' ' ∷ w ++ render ws

word_rest-append :
    (w : List ℕ) (ws : List (List ℕ)) → all in_word w ≡ true → word_rest (w ++ render ws) ≡ length w
word_rest-append [] [] h = refl
word_rest-append [] (v ∷ ws) h = refl
word_rest-append (c ∷ w) ws h = ground (arith, word_rest-append w ws)

len_of-append :
    (k : Kind) (w : List ℕ) (ws : List (List ℕ))
    → all in_word w ≡ true
    → (k ≢ Kind.word → w ≡ [])
    → len_of k (w ++ render ws) ≡ suc (length w)
len_of-append Kind.word w ws h op = ap suc (word_rest-append w ws h)
len_of-append Kind.infile w ws h op = rw (op (λ e. cc))
len_of-append Kind.outfile w ws h op = rw (op (λ e. cc))
len_of-append Kind.pipe w ws h op = rw (op (λ e. cc))

skip_render :
    (c : ℕ) (s : List ℕ) → in_word c ≡ true → drop (blanks (b' ' ∷ c ∷ s)) (b' ' ∷ c ∷ s) ≡ c ∷ s
skip_render c s h = ground arith

skip_eq :
    (s : List ℕ) (c : ℕ) (w : List ℕ) (ws : List (List ℕ))
    → s ≡ render ((c ∷ w) ∷ ws)
    → in_word c ≡ true
    → drop (blanks s) s ≡ c ∷ (w ++ render ws)
skip_eq s c w ws q h = rw q (skip_render c (w ++ render ws) h)

read_one :
    (line s w : List ℕ) (pos c b : ℕ) (r : List ℕ) (ws : List (List ℕ))
    → b ≡ c
    → r ≡ w ++ render ws
    → drop (pos + blanks s) line ≡ b ∷ r
    → IsText (c ∷ w)
    → (take (len_of (kind_of b) r) (drop (pos + blanks s) line) ≡ c ∷ w)
      × (drop (len_of (kind_of b) r) (b ∷ r) ≡ render ws)
read_one line s w pos c b r ws eb er at t =
    let n = len_of-append (kind_of c) w ws t.1 t.2 in
    rw (at, eb, er, n) (ap (λ u. c ∷ u) (take-append w (render ws)), drop-append w (render ws))

Tokens-render :
    (line : List ℕ) (ws : List (List ℕ)) {pos : ℕ} {s : List ℕ} {ts : List Token}
    → Tokens pos s ts
    → s ≡ render ws
    → drop pos line ≡ s
    → All IsText ws
    → map (text line) ts ≡ ws
Tokens-render line [] (at_end pos s e) q h t = refl
Tokens-render line [] (at_nul pos s r e) q h t = refl
Tokens-render line [] (next pos s c r e nz is) q h t = absurd (cc (ap (λ u. drop (blanks u) u) q))
Tokens-render line ([] ∷ ws) is q h t = absurd t.0
Tokens-render line ((c ∷ w) ∷ ws) (at_end pos s e) q h t = absurd (cc (skip_eq s c w ws q t.0.0))
Tokens-render line ((c ∷ w) ∷ ws) (at_nul pos s r e) q h t =
    let z : c ≡ 0 = cc (skip_eq s c w ws q t.0.0) in absurd (ground arith)
Tokens-render line ((c ∷ w) ∷ ws) (next pos s b r e nz is) q h t =
    let skip = skip_eq s c w ws q t.0.0 in
    let at = drop-blanks line pos s (b ∷ r) h e in
    let (one, left) = read_one line s w pos c b r ws (cc) (cc) at t.0 in
    let n = len_of (kind_of b) r in
    ap₂ ◌∷◌ one
      (Tokens-render line ws is left (sym (drop-drop (pos + blanks s) n line) ∙ ap (drop n) at) t.1)

-- Take texts that are not empty and have no blank and no NUL, and of which one that begins with an
-- operator is that operator alone. The tokens of the line that is written as a blank before each of
-- these texts are the texts, in their order.
pub init-render :
    (ws : List (List ℕ))
    → All IsText ws
    → (t : Tokenizer) × (init (render ws) ≡ some t) × (map (text (render ws)) t.tokens ≡ ws)
init-render ws good =
    let (t, ran, count, is) = init-Tokens (render ws) in
    (t, ran, Tokens-render (render ws) ws is refl refl good)
