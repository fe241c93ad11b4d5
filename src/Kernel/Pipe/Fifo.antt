-- ===== src/Kernel/Pipe/Fifo.antt =====
-- A pipe loses, repeats and reorders no byte.
use meph_i_semester_4_acos.Base.{
  ℕ, zero, suc, ◌-◌, ◌≡◌, ◌∙◌, refl, sym, ap, ap₂, Bool, true, false, ◌||◌, ◌&&◌, not, List, [],
  ◌∷◌, ◌++◌, length, min, take, take-append, length-append, arith, append_assoc, append-nil, inl,
  inr, Bool-cases,
}
use meph_i_semester_4_acos.Kernel.Pipe.{
  Pipe, pipe_size, is_full, is_empty, put, front, skip, Write, wrote, broken, blocked, pipewrite,
  Read, got, failed, waits, take_bytes, piperead,
}
use meph_i_semester_4_acos.Kernel.Pipe.Ring.{
  used, IsValid, contents, put-contents, skip-contents, is_empty-contents,
}

abbrev pub pipe_of : Write → Pipe
pipe_of (wrote p) = p
pipe_of (broken p zs) = p
pipe_of (blocked p zs) = p

abbrev pub left_of : Write → List ℕ
left_of (wrote p) = []
left_of (broken p zs) = zs
left_of (blocked p zs) = zs

-- It stops short only where the pipe is full; it fails only if no reader is left or the process
-- is killed, and sleeps otherwise.
abbrev pub Stopped : Bool → Write → Type 0
Stopped killed (wrote p) = Unit
Stopped killed (broken p zs) = (used p ≡ pipe_size) × ((not p.readopen || killed) ≡ true)
Stopped killed (blocked p zs) = (used p ≡ pipe_size) × ((not p.readopen || killed) ≡ false)

abbrev Written : Bool → List ℕ → Pipe → Write → Type 0
Written killed xs p w =
    (ys : List ℕ) × (xs ≡ ys ++ left_of w)
    × (contents (pipe_of w) ≡ contents p ++ ys)
    × IsValid (pipe_of w)
    × Stopped killed w

is_full-used : (p : Pipe) → IsValid p → is_full p ≡ true → used p ≡ pipe_size
is_full-used p v h = ground (arith, v)

-- pipewrite adds to the bytes of the pipe exactly the bytes that it takes off its argument, in
-- order; what it leaves is nothing, or it has stopped at a full pipe.
pub pipewrite-contents :
    (killed : Bool) (xs : List ℕ) (p : Pipe)
    → IsValid p
    → let w = pipewrite killed xs p in
      (ys : List ℕ) × (xs ≡ ys ++ left_of w)
      × (contents (pipe_of w) ≡ contents p ++ ys)
      × IsValid (pipe_of w)
      × Stopped killed w
unfolding pipewrite
pipewrite-contents killed [] p v = ([], refl, sym (append-nil (contents p)), v, tt)
pipewrite-contents killed (x ∷ xs) p v = elim (Bool-cases (is_full p)) [
  | inr more ↦
      let (c, v', u) = put-contents x p v more in
      let (ys, e, c', v'', st) = pipewrite-contents killed xs (put x p) v' in
      rw more (
        x ∷ ys,
        ap (λ r. x ∷ r) e,
        c' ∙ ap (λ r. r ++ ys) c ∙ append_assoc (contents p) (x ∷ []) ys,
        v'',
        st,
      )
  | inl full ↦ rw full (elim (Bool-cases (not p.readopen || killed)) [
    | inl bad ↦ rw bad ([], refl, sym (append-nil (contents p)), v, (is_full-used p v full, bad))
    | inr good ↦ rw good ([], refl, sym (append-nil (contents p)), v, (is_full-used p v full, good))
  ])
]

take_bytes-contents :
    (n : ℕ) (p : Pipe)
    → IsValid p
    → let (xs, p') = take_bytes n p in
      (contents p ≡ xs ++ contents p') × IsValid p' × (length xs ≡ min n (used p))
unfolding take_bytes
take_bytes-contents zero p v = (refl, v, omega arith)
take_bytes-contents (suc n) p v = elim (Bool-cases (is_empty p)) [
  | inl none_left ↦ rw none_left (refl, v, ground (arith, v))
  | inr some_left ↦
      let (c, v', u) = skip-contents p v some_left in
      let (c', v'', l) = take_bytes-contents n (skip p) v' in
      rw some_left (c ∙ ap (λ r. front p ∷ r) c', v'', omega arith)
]

abbrev pub Received : ℕ → Pipe → Read → Type 0
Received n p (got xs p') =
    (contents p ≡ xs ++ contents p') × IsValid p' × (length xs ≡ min n (used p))
Received n p (failed p') = (p' ≡ p) × (contents p ≡ [])
Received n p (waits p') = (p' ≡ p) × (contents p ≡ [])

-- piperead takes the first bytes of the pipe, as many as there are and as it is asked for; it
-- fails or sleeps only at an empty pipe, and then changes nothing.
pub piperead-contents :
    (killed : Bool) (n : ℕ) (p : Pipe) → IsValid p → Received n p (piperead killed n p)
unfolding piperead
piperead-contents killed n p v = elim (Bool-cases (is_empty p && p.writeopen)) [
  | inr go_on ↦ rw go_on (take_bytes-contents n p v)
  | inl wait ↦ rw wait (elim (Bool-cases killed) [
    | inl k ↦ rw k (refl, is_empty-contents p v (ground arith))
    | inr k ↦ rw k (refl, is_empty-contents p v (ground arith))
  ])
]

-- A call on the pipe, by a process that may be killed. A write that slept is resumed as a write of
-- what it had left.
pub data Op : Type 0 where
  write : Bool → List ℕ → Op
  read : Bool → ℕ → Op

-- The pipe, the bytes that writers have put into it, and those that readers have got.
pub record Link : Type 0 where
  pub pipe : Pipe
  pub sent : List ℕ
  pub received : List ℕ

abbrev pub sent_by : List ℕ → Write → List ℕ
sent_by xs w = take (length xs - length (left_of w)) xs

abbrev pub after_read : Link → Read → Link
after_read l (got xs p) = record l { pipe = p; received = l.received ++ xs }
after_read l (failed p) = record l { pipe = p }
after_read l (waits p) = record l { pipe = p }

abbrev pub apply : Op → Link → Link
apply (write killed xs) l =
    let w = pipewrite killed xs l.pipe in
    record l { pipe = pipe_of w; sent = l.sent ++ sent_by xs w }
apply (read killed n) l = after_read l (piperead killed n l.pipe)

abbrev pub run : List Op → Link → Link
run [] l = l
run (o ∷ os) l = run os (apply o l)

-- The bytes sent are those received, followed by those that the pipe holds.
pub record IsFifo (l : Link) : Type 0 where
  pub valid : IsValid l.pipe
  pub order : l.sent ≡ l.received ++ contents l.pipe

apply-IsFifo : (o : Op) (l : Link) → IsFifo l → IsFifo (apply o l)
apply-IsFifo (write killed xs) l f =
    let w = pipewrite killed xs l.pipe in
    let (ys, e, c, v, st) = pipewrite-contents killed xs l.pipe f.valid in
    let k : length xs - length (left_of w) ≡ length ys =
      omega (arith, ap {B = ℕ} length e, length-append ys (left_of w)) in
    let t : sent_by xs w ≡ ys =
      ap (λ n. take n xs) k ∙ ap (take (length ys)) e ∙ take-append ys (left_of w) in
    record {
      valid = v;
      order =
          ap₂ ◌++◌ f.order t
          ∙ append_assoc l.received (contents l.pipe) ys
          ∙ ap (λ r. l.received ++ r) (sym c);
    }
apply-IsFifo (read killed n) l f =
    go (piperead killed n l.pipe) (piperead-contents killed n l.pipe f.valid)
  where
    go : (r : Read) → Received n l.pipe r → IsFifo (after_read l r)
    go (got ys p) (c, v, k) = record {
      valid = v;
      order = f.order ∙ ap (λ r. l.received ++ r) c ∙ sym (append_assoc l.received ys (contents p));
    }
    go (failed p) (e, z) = rw e f
    go (waits p) (e, z) = rw e f

-- In any order of writes and reads by any processes, from a pipe that is in order: the bytes that
-- readers have got, followed by the bytes in the pipe, are the bytes that writers have put in.
pub run-IsFifo : (os : List Op) (l : Link) → IsFifo l → IsFifo (run os l)
run-IsFifo [] l f = f
run-IsFifo (o ∷ os) l f = run-IsFifo os (apply o l) (apply-IsFifo o l f)
