-- ===== src/Shell/Tokenizer/Text.antt =====
-- What the tokens of a line say of its bytes.
use meph_i_semester_4_acos.Base.{
  ℕ, suc, ◌+◌, ◌≤◌, ◌≡◌, ◌≢◌, refl, sym, ap, ◌∙◌, Bool, true, false, not, List, [], ◌∷◌, ◌++◌, map,
  flatten, some, inl, inr, arith, ◌==◌, if◌then◌else◌, Bool-cases, length, take, drop, all, All,
  length-drop, drop-drop,
}
use meph_i_semester_4_acos.Shell.Tokenizer.{
  Kind, Token, Tokenizer, is_blank, in_word, blanks, word_rest, kind_of, len_of, init,
}
use meph_i_semester_4_acos.Shell.Tokenizer.Scan.{Tokens, at_end, at_nul, next, init-Tokens}

-- the bytes of a token
abbrev pub text : List ℕ → Token → List ℕ
text line t = take t.len (drop t.start line)

-- the bytes before the terminating NUL that are not blank
abbrev pub visible : List ℕ → List ℕ
visible [] = []
visible (c ∷ s) =
    let rest = visible s in if c == 0 then [] else if is_blank c then rest else c ∷ rest

visible-blanks : (s : List ℕ) → visible s ≡ visible (drop (blanks s) s)
visible-blanks [] = refl
visible-blanks (c ∷ s) = ground (arith, visible-blanks s)

pub after_blanks :
    (s : List ℕ) {c : ℕ} {r : List ℕ} → drop (blanks s) s ≡ c ∷ r → is_blank c ≡ false
after_blanks [] e = cc
after_blanks (b ∷ s) e = elim (Bool-cases (is_blank b)) [
  | inl y ↦ after_blanks s (rw y at e)
  | inr n ↦ ground arith
]

visible-word : (s : List ℕ) → visible s ≡ take (word_rest s) s ++ visible (drop (word_rest s) s)
visible-word [] = refl
visible-word (c ∷ s) = ground (arith, visible-word s)

visible-len :
    (k : Kind) (c : ℕ) (r : List ℕ)
    → c ≢ 0
    → is_blank c ≡ false
    → visible (c ∷ r) ≡ take (len_of k r) (c ∷ r) ++ visible (drop (len_of k r) (c ∷ r))
visible-len Kind.word c r z b = ground (arith, visible-word r)
visible-len Kind.infile c r z b = ground arith
visible-len Kind.outfile c r z b = ground arith
visible-len Kind.pipe c r z b = ground arith

pub drop-blanks :
    (line : List ℕ) (pos : ℕ) (s d : List ℕ)
    → drop pos line ≡ s
    → drop (blanks s) s ≡ d
    → drop (pos + blanks s) line ≡ d
drop-blanks line pos s d e h = sym (drop-drop pos (blanks s) line) ∙ ap (drop (blanks s)) e ∙ h

texts-visible :
    (line : List ℕ) {pos : ℕ} {s : List ℕ} {ts : List Token}
    → Tokens pos s ts
    → drop pos line ≡ s
    → flatten (map (text line) ts) ≡ visible s
unfolding flatten
texts-visible line (at_end pos s e) h = rw (visible-blanks s, e)
texts-visible line (at_nul pos s r e) h = rw (visible-blanks s, e)
texts-visible line (next pos s c r {ts} e nz is) h =
    let n = len_of (kind_of c) r in
    let at : drop (pos + blanks s) line ≡ c ∷ r = drop-blanks line pos s (c ∷ r) h e in
    let rest = texts-visible line is (sym (drop-drop (pos + blanks s) n line) ∙ ap (drop n) at) in
    rw (visible-blanks s, e) (rw (visible-len (kind_of c) c r nz (after_blanks s e), at, rest))

-- where a word may stop
abbrev pub stops : List ℕ → Bool
stops [] = true
stops (c ∷ _) = not (in_word c)

-- A token that stands where it says: its bytes are in the line and of its kind, an operator has
-- one byte, and a word goes on up to a blank, a NUL or the end.
pub record IsToken (line : List ℕ) (t : Token) : Type 0 where
  pub inside : t.start + t.len ≤ length line
  pub first : (c : ℕ) × (w : List ℕ) × (text line t ≡ c ∷ w) × (kind_of c ≡ t.kind)
  pub visible_bytes : all in_word (text line t) ≡ true
  pub operator : t.kind ≢ Kind.word → t.len ≡ 1
  pub maximal : t.kind ≡ Kind.word → stops (drop (t.start + t.len) line) ≡ true

all-word : (s : List ℕ) → all in_word (take (word_rest s) s) ≡ true
all-word [] = refl
all-word (c ∷ s) = ground (arith, all-word s)

stops-word : (s : List ℕ) → stops (drop (word_rest s) s) ≡ true
stops-word [] = refl
stops-word (c ∷ s) = ground (arith, stops-word s)

word_rest-le : (s : List ℕ) → word_rest s ≤ length s
word_rest-le [] = omega arith
word_rest-le (c ∷ s) = ground (arith, word_rest-le s)

module _ (line : List ℕ) (p c : ℕ) (r : List ℕ) (at : drop p line ≡ c ∷ r)
    (good : in_word c ≡ true) where
  IsToken-of_kind :
      (k : Kind) → kind_of c ≡ k → IsToken line (record { start = p; len = len_of k r; kind = k })
  IsToken-of_kind Kind.word e = record {
    inside = omega (arith, length-drop p line, ap {B = ℕ} length at, word_rest-le r);
    first = (c, take (word_rest r) r, rw at, e);
    visible_bytes = rw at (rw good (all-word r));
    operator = λ ne. absurd (ne refl);
    maximal = λ _. rw (← drop-drop p (suc (word_rest r)) line, at) (stops-word r);
  }
  IsToken-of_kind Kind.infile e = record {
    inside = omega (arith, length-drop p line, ap {B = ℕ} length at);
    first = (c, [], rw at, e);
    visible_bytes = rw at (rw good);
    operator = λ ne. refl;
    maximal = λ q. cc;
  }
  IsToken-of_kind Kind.outfile e = record {
    inside = omega (arith, length-drop p line, ap {B = ℕ} length at);
    first = (c, [], rw at, e);
    visible_bytes = rw at (rw good);
    operator = λ ne. refl;
    maximal = λ q. cc;
  }
  IsToken-of_kind Kind.pipe e = record {
    inside = omega (arith, length-drop p line, ap {B = ℕ} length at);
    first = (c, [], rw at, e);
    visible_bytes = rw at (rw good);
    operator = λ ne. refl;
    maximal = λ q. cc;
  }

Tokens-IsToken :
    (line : List ℕ) {pos : ℕ} {s : List ℕ} {ts : List Token}
    → Tokens pos s ts
    → drop pos line ≡ s
    → All (IsToken line) ts
Tokens-IsToken line (at_end pos s e) h = tt
Tokens-IsToken line (at_nul pos s r e) h = tt
Tokens-IsToken line (next pos s c r {ts} e nz is) h =
    let n = len_of (kind_of c) r in
    let at : drop (pos + blanks s) line ≡ c ∷ r = drop-blanks line pos s (c ∷ r) h e in
    (
      IsToken-of_kind line (pos + blanks s) c r at (ground (arith, after_blanks s e)) (kind_of c)
          refl,
      Tokens-IsToken line is (sym (drop-drop (pos + blanks s) n line) ∙ ap (drop n) at),
    )

-- TokenizerInit returns for every line; token_count is the length of its list of tokens; the
-- bytes of the tokens, joined in order, are the bytes of the line before its NUL that are not
-- blank; and every token is inside the line, has the kind of its first byte, holds no blank and
-- no NUL, is one byte long if it is an operator, and is followed by a blank, a NUL or the end of
-- the line if it is a word.
pub init-visible :
    (line : List ℕ)
    → (t : Tokenizer) × (init line ≡ some t)
      × (t.token_count ≡ length t.tokens)
      × (flatten (map (text line) t.tokens) ≡ visible line)
      × All (IsToken line) t.tokens
init-visible line =
    let (t, ran, count, is) = init-Tokens line in
    (t, ran, count, texts-visible line is refl, Tokens-IsToken line is refl)
