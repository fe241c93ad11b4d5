-- ===== src/Kernel/Log/Space.antt =====
-- The log has room for every write of the operations that begin_op has let in.
use meph_i_semester_4_acos.Base.{
  ℕ, suc, ◌+◌, ◌-◌, ◌*◌, ◌<◌, ◌≤◌, ◌≡◌, ◌∙◌, refl, ap, true, false, some, List, [], ◌∷◌, ◌++◌, ◌==◌,
  ltb, length, All, arith, inl, inr, Bool-cases, length-append, All-append, All-split,
}
use meph_i_semester_4_acos.Kernel.Log.{
  Bytes, State, write_head, install_trans, commit, begin_op, end_op, log_write, fill, absorb,
  log_size, max_op_blocks, write_log, write_log_from,
}
use meph_i_semester_4_acos.Kernel.Log.Install.{write_log-Same, install-Same}

abbrev pub sum : List ℕ → ℕ
sum [] = 0
sum (n ∷ ns) = n + sum ns

sum-append : (xs ys : List ℕ) → sum (xs ++ ys) ≡ sum xs + sum ys
sum-append [] ys = omega arith
sum-append (x ∷ xs) ys = omega (arith, sum-append xs ys)

-- The log, and for each operation that has begun the number of blocks that it may still write.
pub record Running : Type 0 where
  pub log : State
  pub left : List ℕ

abbrev pub running : State → List ℕ → Running
running s left = record { log = s; left = left }

-- An operation begins, writes one of its blocks, or ends.
pub data Step (r : Running) : Running → Type 0 where
  begins : (s : State) → begin_op r.log ≡ some s → Step r (running s (max_op_blocks ∷ r.left))
  writes :
      (s : State) (b : ℕ) (v : Bytes) (before after : List ℕ) (k : ℕ)
      → r.left ≡ before ++ suc k ∷ after
      → log_write b v r.log ≡ some s
      → Step r (running s (before ++ k ∷ after))
  ends :
      (s : State) (before after : List ℕ) (k : ℕ)
      → r.left ≡ before ++ k ∷ after
      → end_op r.log ≡ some s
      → Step r (running s (before ++ after))

pub data Reach (r : Running) : Running → Type 0 where
  here : Reach r r
  next : {s t : Running} → Reach r s → Step s t → Reach r t

-- The log is large enough for its entries and for all that may still be written.
pub record HasRoom (r : Running) : Type 0 where
  pub counted : r.log.outstanding ≡ length r.left
  pub small : All (λ k. k ≤ max_op_blocks) r.left
  pub room : length r.log.lh + sum r.left ≤ log_size
  pub large : log_size < r.log.size
  pub idle : r.log.committing ≡ false

length-absorb : (bs : List ℕ) (b : ℕ) → length (absorb bs b) ≤ suc (length bs)
length-absorb [] b = omega arith
length-absorb (a ∷ bs) b = ground (arith, length-absorb bs b)

commit_fields :
    (s : State)
    → ((commit s).lh ≡ []) × ((commit s).outstanding ≡ s.outstanding) × ((commit s).size ≡ s.size)
unfolding commit write_head write_log install_trans
commit_fields s = elim (Bool-cases (ltb 0 (length s.lh))) [
  | inl some_logged ↦
      let w = write_log_from 0 s.lh s in
      let a = write_log-Same 0 s.lh s in
      let b = install-Same 0 (write_head w).lh (write_head w) in
      rw some_logged (refl, b.0.4 ∙ a.0.4, b.0.3 ∙ a.0.3)
  | inr none_logged ↦ rw none_logged (ground arith, refl, refl)
]

sum-le : (ks : List ℕ) → All (λ k. k ≤ max_op_blocks) ks → sum ks ≤ max_op_blocks * length ks
sum-le [] h = omega arith
sum-le (k ∷ ks) h = omega (arith, sum-le ks h.1)

begins-HasRoom :
    (r : Running) (s : State)
    → begin_op r.log ≡ some s
    → HasRoom r
    → HasRoom (running s (max_op_blocks ∷ r.left))
unfolding begin_op
begins-HasRoom r s e h = record {
  counted = ground (arith, h.counted, h.idle);
  small = (omega arith, h.small);
  room = ground (arith, h.counted, h.idle, h.room, sum-le r.left h.small);
  large = ground (arith, h.idle, h.large);
  idle = ground (arith, h.idle);
}

fewer :
    (before after : List ℕ) (k : ℕ)
    → All (λ n. n ≤ max_op_blocks) (before ++ suc k ∷ after)
    → All (λ n. n ≤ max_op_blocks) (before ++ k ∷ after)
fewer before after k h =
    let (a, b) = All-split (λ n. n ≤ max_op_blocks) before (suc k ∷ after) h in
    All-append (λ n. n ≤ max_op_blocks) before (k ∷ after) a (omega arith, b.1)

writes-HasRoom :
    (r : Running) (s : State) (b : ℕ) (v : Bytes) (before after : List ℕ) (k : ℕ)
    → r.left ≡ before ++ suc k ∷ after
    → log_write b v r.log ≡ some s
    → HasRoom r
    → HasRoom (running s (before ++ k ∷ after))
unfolding log_write
writes-HasRoom r s b v before after k e w h =
    let same : length r.left ≡ length (before ++ k ∷ after) = omega (
      arith,
      ap {B = ℕ} length e,
      length-append before (k ∷ after),
      length-append before (suc k ∷ after),
    ) in
    let less : sum r.left ≡ suc (sum (before ++ k ∷ after)) =
      omega (
        arith,
        ap {B = ℕ} sum e,
        sum-append before (k ∷ after),
        sum-append before (suc k ∷ after),
      ) in
    record {
      counted = ground (arith, h.counted, same);
      small = fewer before after k (rw e at h.small);
      room = ground (arith, h.room, less, length-absorb r.log.lh b);
      large = ground (arith, h.large);
      idle = ground (arith, h.idle);
    }

ends-HasRoom :
    (r : Running) (s : State) (before after : List ℕ) (k : ℕ)
    → r.left ≡ before ++ k ∷ after
    → end_op r.log ≡ some s
    → HasRoom r
    → HasRoom (running s (before ++ after))
unfolding end_op
ends-HasRoom r s before after k e w h =
    let p = λ (n : ℕ). n ≤ max_op_blocks in
    let parts = All-split p before (k ∷ after) (rw e at h.small) in
    let rest = All-append p before after parts.0 parts.1.1 in
    let shorter : length r.left ≡ suc (length (before ++ after)) =
      omega (
        arith,
        ap {B = ℕ} length e,
        length-append before after,
        length-append before (k ∷ after),
      ) in
    let less : sum (before ++ after) ≤ sum r.left =
      omega (arith, ap {B = ℕ} sum e, sum-append before after, sum-append before (k ∷ after)) in
    let c =
      commit_fields (record r.log { outstanding = r.log.outstanding - 1; committing = true }) in
    elim (Bool-cases (r.log.outstanding - 1 == 0)) [
      | inl last ↦ record {
        counted = ground (arith, h.idle, h.counted, shorter, c);
        small = rest;
        room = ground (arith, h.idle, h.counted, c, sum-le (before ++ after) rest, shorter);
        large = ground (arith, h.idle, h.large, c);
        idle = ground (arith, h.idle);
      }
      | inr more ↦ record {
        counted = ground (arith, h.idle, h.counted, shorter);
        small = rest;
        room = ground (arith, h.idle, h.room, less);
        large = ground (arith, h.idle, h.large);
        idle = ground (arith, h.idle);
      }
    ]

Step-HasRoom : {r t : Running} → Step r t → HasRoom r → HasRoom t
Step-HasRoom {r} (begins s e) h = begins-HasRoom r s e h
Step-HasRoom {r} (writes s b v before after k e w) h = writes-HasRoom r s b v before after k e w h
Step-HasRoom {r} (ends s before after k e w) h = ends-HasRoom r s before after k e w h

pub Reach-HasRoom : {r t : Running} → Reach r t → HasRoom r → HasRoom t
Reach-HasRoom here h = h
Reach-HasRoom (next r st) h = Step-HasRoom st (Reach-HasRoom r h)

writes-some :
    (r : Running) (before after : List ℕ) (k b : ℕ) (v : Bytes)
    → r.left ≡ before ++ suc k ∷ after
    → HasRoom r
    → (s : State) × (log_write b v r.log ≡ some s)
unfolding log_write
writes-some r before after k b v e h =
    let some_op : 0 < length r.left =
      omega (arith, ap {B = ℕ} length e, length-append before (suc k ∷ after)) in
    let some_left : 0 < sum r.left =
      omega (arith, ap {B = ℕ} sum e, sum-append before (suc k ∷ after)) in
    (fill b v (record r.log { lh = absorb r.log.lh b }), ground (arith, h.room, h.large, h.counted))

-- Start from a log of more than LOGSIZE blocks, where as many operations have begun as `outstanding`
-- says, each has at most MAXOPBLOCKS blocks left to write, and these and the entries of the log are
-- LOGSIZE at most together, as in an empty log without operations. After operations have begun, written
-- and ended in any order, with the commits that this brings, one that has written fewer blocks than
-- MAXOPBLOCKS does not make log_write panic, whatever block it writes.
pub Reach-log_write :
    {r t : Running} (before after : List ℕ) (k b : ℕ) (v : Bytes)
    → HasRoom r
    → Reach r t
    → t.left ≡ before ++ suc k ∷ after
    → (s : State) × (log_write b v t.log ≡ some s)
Reach-log_write {t} before after k b v h path e =
    writes-some t before after k b v e (Reach-HasRoom path h)
