-- ===== src/Kernel/Log/Full.antt =====
-- A log of LOGSIZE blocks, which is what mkfs.c makes, is too small for the operations of begin_op.
use meph_i_semester_4_acos.Base.{
  ℕ, zero, suc, ◌+◌, ◌<◌, ◌≡◌, ◌∙◌, refl, ap, false, none, some, List, [], ◌∷◌, ◌++◌, ◌==◌, length,
  All, arith,
}
use meph_i_semester_4_acos.Kernel.Log.{Bytes, State, begin_op, log_write, fill, absorb, log_size}
use meph_i_semester_4_acos.Kernel.Log.Space.{Running, running, begins, writes, Reach, here, next}

Reach-trans : {r s t : Running} → Reach r s → Reach s t → Reach r t
Reach-trans a here = a
Reach-trans a (next b st) = next (Reach-trans a b) st

-- a block that is not in the log gets an entry
length-absorb_new :
    (bs : List ℕ) (b : ℕ) → All (λ a. a < b) bs → length (absorb bs b) ≡ suc (length bs)
length-absorb_new [] b h = refl
length-absorb_new (a ∷ bs) b h =
    let ne : (a == b) ≡ false = ground (arith, h.0) in rw ne (ap suc (length-absorb_new bs b h.1))

All-absorb : (bs : List ℕ) (b : ℕ) → All (λ a. a < b) bs → All (λ a. a < suc b) (absorb bs b)
All-absorb [] b h = (omega arith, tt)
All-absorb (a ∷ bs) b h =
    let ne : (a == b) ≡ false = ground (arith, h.0) in
    rw ne (omega (arith, h.0), All-absorb bs b h.1)

-- `n` entries, for blocks below `n`, with three operations
record Filled (n : ℕ) (s : State) : Type 0 where
  entries : length s.lh ≡ n
  below : All (λ a. a < n) s.lh
  size : s.size ≡ log_size
  running : s.outstanding ≡ 3

-- An operation writes `m` blocks that are not in the log.
writes-Filled :
    (m n k : ℕ) (before after : List ℕ) (s : State)
    → Filled n s
    → m + n < log_size
    → (t : State) × Reach (running s (before ++ (m + k) ∷ after)) (running t (before ++ k ∷ after))
      × Filled (m + n) t
unfolding log_write
writes-Filled zero n k before after s f l =
    let e : 0 + k ≡ k = omega arith in let e' : 0 + n ≡ n = omega arith in (s, rw e here, rw e' f)
writes-Filled (suc m) n k before after s f l =
    let s1 : State = fill n [] (record s { lh = absorb s.lh n }) in
    let wrote : log_write n [] s ≡ some s1 = ground (arith, f.entries, f.size, f.running, l) in
    let e : suc m + k ≡ suc (m + k) = omega arith in
    let e' : suc m + n ≡ m + suc n = omega arith in
    let one : Reach (running s (before ++ suc (m + k) ∷ after))
        (running s1 (before ++ (m + k) ∷ after)) =
      next here (writes s1 n [] before after (m + k) refl wrote) in
    let f1 : Filled (suc n) s1 = record {
      entries = length-absorb_new s.lh n f.below ∙ ap suc f.entries;
      below = All-absorb s.lh n f.below;
      size = f.size;
      running = f.running;
    } in
    let (t, more, f2) = writes-Filled m (suc n) k before after s1 f1 (omega arith) in
    (t, rw e (Reach-trans one more), rw e' f2)

-- begin_op lets three operations into an empty log
begins_some :
    (s : State) (i : ℕ)
    → length s.lh ≡ 0
    → s.outstanding ≡ i
    → s.committing ≡ false
    → i < 3
    → begin_op s ≡ some (record s { outstanding = i + 1 })
unfolding begin_op
begins_some s i n o c l = ground (arith, n, o, c, l)

full : (b : ℕ) (v : Bytes) (s : State) → Filled 29 s → log_write b v s ≡ none
unfolding log_write
full b v s f = ground (arith, f.entries, f.size)

-- A log of LOGSIZE blocks, as mkfs makes, that is empty and without operations: three operations
-- that begin_op lets in can write blocks, MAXOPBLOCKS at most each, so that log_write panics for one
-- that has a block left to write, whatever block that is.
pub begin_op-log_write :
    (s : State) (b : ℕ) (v : Bytes)
    → s.size ≡ log_size
    → s.lh ≡ []
    → s.outstanding ≡ 0
    → s.committing ≡ false
    → (t : State) × Reach (running s []) (running t (1 ∷ 0 ∷ 0 ∷ [])) × (log_write b v t ≡ none)
begin_op-log_write s b v z e o c =
    let s1 : State = record s { outstanding = 1 } in
    let s2 : State = record s { outstanding = 2 } in
    let s3 : State = record s { outstanding = 3 } in
    let n : length s.lh ≡ 0 = ap length e in
    let f : Filled 0 s3 = record { entries = n; below = rw e tt; size = z; running = refl } in
    let begun : Reach (running s []) (running s3 (10 ∷ 10 ∷ 10 ∷ [])) =
      next
        (next (next here (begins s1 (begins_some s 0 n o c (omega arith))))
          (begins s2 (begins_some s1 1 n refl c (omega arith))))
        (begins s3 (begins_some s2 2 n refl c (omega arith))) in
    let (t1, w1, f1) = writes-Filled 9 0 1 [] (10 ∷ 10 ∷ []) s3 f (omega arith) in
    let (t2, w2, f2) = writes-Filled 10 9 0 (1 ∷ []) (10 ∷ []) t1 f1 (omega arith) in
    let (t3, w3, f3) = writes-Filled 10 19 0 (1 ∷ 0 ∷ []) [] t2 f2 (omega arith) in
    (t3, Reach-trans begun (Reach-trans w1 (Reach-trans w2 w3)), full b v t3 f3)
