-- ===== src/Shell/Tokenizer.antt =====
-- bash/pipe/tokenizer.h: a command line cut into tokens.
-- A line is the list of its bytes; reading past its end reads the terminating NUL, and a NUL inside
-- it ends it too. A token's `start` is kept as an offset into the line. The linked list of tokens
-- is the list in the order of `next`. TokenizerInit does not test the result of malloc, so
-- allocation of tokens is taken to succeed.
pub mod Scan
pub mod Text
pub mod Print
mod Tests
use meph_i_semester_4_acos.Base.{
  ℕ, zero, suc, ◌+◌, ◌≡◌, Bool, true, false, ◌||◌, not, ◌&&◌, Option, none, some, List, [], ◌∷◌,
  ◌==◌, if◌then◌else◌, length, take, drop, filter,
}
use mathlib.Core.Option

pub data Kind : Type 0 where
  word infile outfile pipe : Kind

pub record Token : Type 0 where
  pub start : ℕ
  pub len : ℕ
  pub kind : Kind

abbrev pub token : ℕ → ℕ → Kind → Token
token s n k = record { start = s; len = n; kind = k }

-- `struct Tokenizer`
pub record Tokenizer : Type 0 where
  pub token_count : ℕ
  pub tokens : List Token

abbrev pub is_blank : ℕ → Bool
is_blank c = c == b' ' || (c == 9 || c == 10)

-- how often `while (blank) ++next` runs
abbrev pub blanks : List ℕ → ℕ
blanks [] = 0
blanks (c ∷ s) = if is_blank c then suc (blanks s) else 0

-- a byte on which the loop over a word goes on
abbrev pub in_word : ℕ → Bool
in_word c = not (c == 0) && not (is_blank c)

-- how often the `while` of the `default` case runs
abbrev pub word_rest : List ℕ → ℕ
word_rest [] = 0
word_rest (c ∷ s) = if in_word c then suc (word_rest s) else 0

-- the `switch` on the first byte
abbrev pub kind_of : ℕ → Kind
kind_of c =
    if c == b'<'
    then Kind.infile
    else if c == b'>'
    then Kind.outfile
    else if c == b'|'
    then Kind.pipe
    else Kind.word

abbrev pub len_of : Kind → List ℕ → ℕ
len_of Kind.word s = suc (word_rest s)
len_of _ s = 1

-- The `for (;;)`, at offset `pos` with the bytes `s` left; `none` means that the fuel ran out.
pub scan : ℕ → ℕ → List ℕ → Option (List Token)
scan zero pos s = none
scan (suc f) pos s =
    let p = pos + blanks s in
    elim (drop (blanks s) s) [
      | [] ↦ some []
      | c ∷ r ↦
          let n = len_of (kind_of c) r in
          let rest =
            Option.map (λ ts. token p n (kind_of c) ∷ ts) (scan f (p + n) (drop n (c ∷ r))) in
          if c == 0 then some [] else rest
    ]

-- `TokenizerInit`; `token_count` is counted along with the list.
pub init : List ℕ → Option Tokenizer
unfolding scan
init line =
    Option.map (λ ts. record { token_count = length ts; tokens = ts })
      (scan (suc (length line)) 0 line)
