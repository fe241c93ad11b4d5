-- ===== src/Kernel/Log.antt =====
-- alarm/log.c: the log of the file system, with the power failing at any disk write.
-- `disk` holds the blocks, `header` the block numbers of the header block on disk (its `n` is the
-- length of the list, and entries from `n` on are never read). `view` is what bread returns: the
-- buffer cache keeps a block that log_write has marked, and reads any other from disk. `power`
-- counts the disk writes left until the power fails; later writes do not reach the disk.
pub mod Install
pub mod Recovery
pub mod Crash
pub mod Space
pub mod Full
mod Tests
use meph_i_semester_4_acos.Base.{
  ℕ, suc, ◌+◌, ◌-◌, ◌*◌, Bool, true, false, ◌||◌, Option, none, some, List, [], ◌∷◌, ◌++◌, ◌==◌,
  ltb, leb, if◌then◌else◌, length, update,
}

abbrev pub Bytes : Type 0
Bytes = List ℕ

abbrev pub max_op_blocks : ℕ
max_op_blocks = 10

-- MAXOPBLOCKS * 3
abbrev pub log_size : ℕ
log_size = 30

pub record State : Type 0 where
  pub disk : ℕ → Bytes
  pub header : List ℕ
  pub view : ℕ → Bytes
  pub lh : List ℕ
  pub start : ℕ
  pub size : ℕ
  pub outstanding : ℕ
  pub committing : Bool
  pub power : ℕ

-- `memmove(buf->data, ...)`: a change of the buffer of block `a`
abbrev pub fill : ℕ → Bytes → State → State
fill a v s = record s { view = update s.view a v }

-- `bwrite` of the buffer of block `a`; `power` stays at 0
abbrev pub bwrite : ℕ → State → State
bwrite a s = record s {
  disk = if s.power == 0 then s.disk else update s.disk a (s.view a);
  power = s.power - 1;
}

-- `write_head`
pub write_head : State → State
write_head s = record s { header = if s.power == 0 then s.header else s.lh; power = s.power - 1 }

-- `read_head`
pub read_head : State → State
read_head s = record s { lh = s.header }

-- The loop of `write_log`, at `tail`, over the entries left.
pub write_log_from : ℕ → List ℕ → State → State
write_log_from tail [] s = s
write_log_from tail (b ∷ bs) s =
    write_log_from (tail + 1) bs
      (bwrite (s.start + tail + 1) (fill (s.start + tail + 1) (s.view b) s))

pub write_log : State → State
write_log s = write_log_from 0 s.lh s

-- The loop of `install_trans`.
pub install_from : ℕ → List ℕ → State → State
install_from tail [] s = s
install_from tail (b ∷ bs) s =
    install_from (tail + 1) bs (bwrite b (fill b (s.view (s.start + tail + 1)) s))

pub install_trans : State → State
install_trans s = install_from 0 s.lh s

abbrev pub clear_lh : State → State
clear_lh s = record s { lh = [] }

pub commit : State → State
commit s =
    if ltb 0 (length s.lh)
    then write_head (clear_lh (install_trans (write_head (write_log s))))
    else s

pub recover_from_log : State → State
recover_from_log s = write_head (clear_lh (install_trans (read_head s)))

-- The machine starts again: the memory is lost, the buffers hold what is on disk, and `p` writes
-- are left until the power fails again. Then `initlog` runs.
abbrev pub restart : ℕ → State → State
restart p s = record s { view = s.disk; lh = []; outstanding = 0; committing = false; power = p }

pub initlog : ℕ → State → State
initlog p s = recover_from_log (restart p s)

-- One round of the `while` of `begin_op`: `none` is a sleep.
pub begin_op : State → Option State
begin_op s =
    if s.committing
    then none
    else if ltb log_size (length s.lh + (s.outstanding + 1) * max_op_blocks)
    then none
    else some (record s { outstanding = s.outstanding + 1 })

-- `end_op`: `none` is the panic. It is called by an operation that is counted in `outstanding`.
-- While `committing` is set, every other begin_op sleeps, so nothing comes in between.
pub end_op : State → Option State
end_op s =
    if s.committing
    then none
    else if s.outstanding - 1 == 0
    then some (record (commit (record s { outstanding = s.outstanding - 1; committing = true })) {
      committing = false;
    })
    else some (record s { outstanding = s.outstanding - 1 })

-- The loop of `log_write` and the write of the entry: the block is found, or appended.
abbrev pub absorb : List ℕ → ℕ → List ℕ
absorb [] b = b ∷ []
absorb (a ∷ as') b = let rest = absorb as' b in if a == b then b ∷ as' else a ∷ rest

-- `log_write` of block `b`, which the caller has changed to `v`: `none` is a panic.
pub log_write : ℕ → Bytes → State → Option State
log_write b v s =
    if leb log_size (length s.lh) || leb (s.size - 1) (length s.lh)
    then none
    else if ltb s.outstanding 1
    then none
    else some (fill b v (record s { lh = absorb s.lh b }))
