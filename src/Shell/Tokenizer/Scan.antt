-- ===== src/Shell/Tokenizer/Scan.antt =====
-- The loop of TokenizerInit without its fuel, and the proof that the fuel given is enough.
use meph_i_semester_4_acos.Base.{
  ℕ, zero, suc, ◌+◌, ◌<◌, ◌≡◌, ◌≢◌, refl, some, List, [], ◌∷◌, inl, inr, arith, ◌==◌, Bool-cases,
  length, drop, ap, length-drop,
}
use meph_i_semester_4_acos.Shell.Tokenizer.{
  Kind, Token, token, Tokenizer, blanks, kind_of, len_of, scan, init,
}

-- `ts` are the tokens of the bytes `s`, which stand at offset `pos`.
pub data Tokens : ℕ → List ℕ → List Token → Type 0 where
  at_end : (pos : ℕ) (s : List ℕ) → drop (blanks s) s ≡ [] → Tokens pos s []
  at_nul : (pos : ℕ) (s r : List ℕ) → drop (blanks s) s ≡ 0 ∷ r → Tokens pos s []
  next :
      (pos : ℕ) (s : List ℕ) (c : ℕ) (r : List ℕ) {ts : List Token}
      → drop (blanks s) s ≡ c ∷ r
      → c ≢ 0
      → Tokens (pos + blanks s + len_of (kind_of c) r) (drop (len_of (kind_of c) r) (c ∷ r)) ts
      → Tokens pos s (token (pos + blanks s) (len_of (kind_of c) r) (kind_of c) ∷ ts)

abbrev Scanned : ℕ → ℕ → List ℕ → Type 0
Scanned f pos s = (ts : List Token) × (scan f pos s ≡ some ts) × Tokens pos s ts

len_of_pos : (k : Kind) (r : List ℕ) → 0 < len_of k r
len_of_pos Kind.word r = omega arith
len_of_pos Kind.infile r = omega arith
len_of_pos Kind.outfile r = omega arith
len_of_pos Kind.pipe r = omega arith

scan_step :
    (f pos : ℕ) (s d : List ℕ)
    → drop (blanks s) s ≡ d
    → ((p : ℕ) (s' : List ℕ) → length s' < f → Scanned f p s')
    → length s < suc f
    → Scanned (suc f) pos s
unfolding scan
scan_step f pos s [] e ih h = ([], rw (e, scan), at_end pos s e)
scan_step f pos s (c ∷ r) e ih h = elim (Bool-cases (c == 0)) [
  | inl nul ↦
      let z : c ≡ 0 = ground arith in ([], rw (e, scan) (rw nul), at_nul pos s r (rw z at e))
  | inr other ↦
      let n = len_of (kind_of c) r in
      let (ts, ran, is) = ih (pos + blanks s + n) (drop n (c ∷ r)) (
        omega (
          arith,
          length-drop n (c ∷ r),
          length-drop (blanks s) s,
          ap {B = ℕ} length e,
          len_of_pos (kind_of c) r,
        )) in
      (
        token (pos + blanks s) n (kind_of c) ∷ ts,
        rw (e, scan) (rw (other, ran)),
        next pos s c r e (ground arith) is,
      )
]

-- With more fuel than bytes the scan ends, and finds the tokens.
pub scan-Tokens : (f pos : ℕ) (s : List ℕ) → length s < f → Scanned f pos s
scan-Tokens zero pos s h = absurd (omega arith)
scan-Tokens (suc f) pos s h =
    scan_step f pos s (drop (blanks s) s) refl (λ p s' h'. scan-Tokens f p s' h') h

-- `init` always returns, with the tokens of the line and their number.
pub init-Tokens :
    (line : List ℕ)
    → (t : Tokenizer) × (init line ≡ some t)
      × (t.token_count ≡ length t.tokens)
      × Tokens 0 line t.tokens
unfolding init
init-Tokens line =
    let (ts, ran, is) = scan-Tokens (suc (length line)) 0 line (omega arith) in
    (record { token_count = length ts; tokens = ts }, rw ran, refl, is)
