-- ===== src/Logger/History.antt =====
-- No line is lost, and the files together hold the lines in order.
use meph_i_semester_4_acos.Base.{
  ℕ, zero, suc, ◌+◌, ◌<◌, ◌≡◌, ◌∙◌, inl, inr, refl, sym, ap, ap₂, Bool, true, false, Option, none,
  List, [], ◌∷◌, ◌++◌, length, take, drop, update_ne, is_some, length-append, append-nil,
  append_assoc, take-append, drop-nil, arith, Bool-cases, ◌==◌,
}
use meph_i_semester_4_acos.Logger.{
  Bytes, swap_logs, Logger, content, open_log, rotated, opened, offset, write, round, logger,
}
use meph_i_semester_4_acos.Logger.Shift.{Finite, swap_logs-shifts}

-- the contents of the files `n` to 0, the oldest first
abbrev pub history : ℕ → (ℕ → Option Bytes) → Bytes
history zero file = content (file 0)
history (suc n) file = content (file (suc n)) ++ history n file

abbrev pub whole : Logger → Bytes
whole l = history l.dir.last l.dir.file

-- Nothing is above `last`, and the offset is at the end of the file.
pub record IsReady (l : Logger) : Type 0 where
  pub finite : (i : ℕ) → l.dir.last < i → l.dir.file i ≡ none
  pub at_end : length (content (l.dir.file 0)) ≡ offset l.fd

history-shift :
    (n : ℕ) (f g : ℕ → Option Bytes)
    → ((k : ℕ) → g (suc k) ≡ f k)
    → history (suc n) g ≡ history n f ++ content (g 0)
history-shift zero f g h = ap (λ c. content c ++ content (g 0)) (h 0)
history-shift (suc n) f g h =
    ap₂ (λ a b. content a ++ b) (h (suc n)) (history-shift n f g h)
    ∙ sym (append_assoc (content (f (suc n))) (history n f) (content (g 0)))

-- the log file gets `line` at its end
history-append :
    (n : ℕ) (f g : ℕ → Option Bytes) (line : Bytes)
    → ((k : ℕ) → g (suc k) ≡ f (suc k))
    → content (g 0) ≡ content (f 0) ++ line
    → history n g ≡ history n f ++ line
history-append zero f g line h e = e
history-append (suc n) f g line h e =
    ap₂ (λ a b. content a ++ b) (h n) (history-append n f g line h e)
    ∙ sym (append_assoc (content (f (suc n))) (history n f) line)

drop-past : (xs : Bytes) (n : ℕ) → drop (length xs + n) xs ≡ []
drop-past [] n = drop-nil (0 + n)
drop-past (x ∷ xs) n =
    let e : suc (length xs) + n ≡ suc (length xs + n) = omega arith in
    ap (λ k. drop k (x ∷ xs)) e ∙ drop-past xs n

-- a write at the end of a file
write-at_end :
    (old line : Bytes) (at : ℕ)
    → length old ≡ at
    → take at old ++ (line ++ drop (at + length line) old) ≡ old ++ line
write-at_end old line at e =
    ap (λ k. take k old ++ (line ++ drop (k + length line) old)) (sym e)
    ∙ ap₂ (λ a b. a ++ (line ++ b))
        (ap (take (length old)) (sym (append-nil old)) ∙ take-append old [])
        (drop-past old (length line))
    ∙ ap (λ b. old ++ b) (append-nil line)

-- what is kept until the line is written
abbrev Same : Logger → Logger → Type 0
Same l l' = IsReady l' × (whole l' ≡ whole l)

open_log-Same :
    (l : Logger) → Finite l.dir.last l.dir.file → content (l.dir.file 0) ≡ [] → Same l (open_log l)
open_log-Same l f e = (
  record {
    finite = λ i h. let n : (i == 0) ≡ false = ground arith in rw n (f i h);
    at_end = ap length e;
  },
  history-append l.dir.last l.dir.file ((open_log l).dir.file) []
        (λ k. update_ne l.dir.file 0 _ (suc k) (λ q. omega arith))
        (sym (append-nil (content (l.dir.file 0))))
      ∙ append-nil (whole l),
)

empty_of : (xs : Bytes) → length xs ≡ 0 → xs ≡ []
empty_of [] h = refl
empty_of (x ∷ xs) h = absurd (omega arith)

rotated-Same : (rotate : Bool) (l : Logger) → IsReady l → Same l (rotated rotate l)
unfolding swap_logs
rotated-Same false l r = (r, refl)
rotated-Same true l r =
    let (up, gone) = swap_logs-shifts l.dir r.finite in
    let after : Logger = record { dir = swap_logs l.dir; fd = none } in
    let (ready, same) = open_log-Same after (finite up) (ap content gone) in
    (
      ready,
      same
          ∙ history-shift l.dir.last l.dir.file after.dir.file up
          ∙ ap (λ c. whole l ++ content c) gone
          ∙ append-nil (whole l),
    )
  where
    finite :
        ((k : ℕ) → (swap_logs l.dir).file (suc k) ≡ l.dir.file k)
        → Finite (suc l.dir.last) (swap_logs l.dir).file
    finite up zero h = absurd (omega arith)
    finite up (suc k) h = up k ∙ r.finite k (omega arith)

opened-Same : (l : Logger) → IsReady l → Same l (opened l)
opened-Same l r = elim (Bool-cases (is_some l.fd)) [
  | inl y ↦ rw y (r, refl)
  | inr n ↦
      let start : offset l.fd ≡ 0 = ground arith in
      rw n (open_log-Same l r.finite (empty_of (content (l.dir.file 0)) (r.at_end ∙ start)))
]

write-IsReady :
    (line : Bytes) (l : Logger)
    → IsReady l
    → IsReady (write line l) × (whole (write line l) ≡ whole l ++ line)
unfolding write
write-IsReady line l r =
    let old = content (l.dir.file 0) in
    let e = write-at_end old line (offset l.fd) r.at_end in
    (
      record {
        finite = λ i h. let n : (i == 0) ≡ false = ground arith in rw n (r.finite i h);
        at_end = ap length e ∙ length-append old line ∙ omega (arith, r.at_end);
      },
      history-append l.dir.last l.dir.file ((write line l).dir.file) line
          (λ k. update_ne l.dir.file 0 _ (suc k) (λ q. omega arith)) e,
    )

abbrev pub lines_of : List (Bool × Bytes) → Bytes
lines_of [] = []
lines_of ((rotate, line) ∷ rs) = line ++ lines_of rs

round-IsReady :
    (r : Bool × Bytes) (l : Logger)
    → IsReady l
    → IsReady (round r l) × (whole (round r l) ≡ whole l ++ r.1)
unfolding round
round-IsReady (rotate, line) l v =
    let (v1, e1) = rotated-Same rotate l v in
    let (v2, e2) = opened-Same (rotated rotate l) v1 in
    let (v3, e3) = write-IsReady line (opened (rotated rotate l)) v2 in
    (v3, e3 ∙ ap (λ w. w ++ line) (e2 ∙ e1))

-- Where the logger writes at the end of its file, and whenever SIGHUP comes between the lines: the
-- files of the directory, from the highest number down to the log file, hold what they held before,
-- followed by the lines, in order. No line is lost, none is there twice.
pub logger-whole :
    (rs : List (Bool × Bytes)) (l : Logger)
    → IsReady l
    → IsReady (logger rs l) × (whole (logger rs l) ≡ whole l ++ lines_of rs)
unfolding logger
logger-whole [] l v = (v, sym (append-nil (whole l)))
logger-whole ((rotate, line) ∷ rs) l v =
    let (v1, e1) = round-IsReady (rotate, line) l v in
    let (v2, e2) = logger-whole rs (round (rotate, line) l) v1 in
    (v2, e2 ∙ ap (λ w. w ++ lines_of rs) e1 ∙ append_assoc (whole l) line (lines_of rs))
