-- ===== src/Kernel/Files.antt =====
-- alarm/file.c: the table of open files. A pointer to an entry is its index. Locks are taken and
-- released inside one function; what fileclose does behind the lock is a value that it returns.
pub mod Handles
mod Tests
use meph_i_semester_4_acos.Base.{
  ℕ, zero, suc, ◌+◌, ◌-◌, Bool, true, false, Option, none, some, ◌==◌, ltb, if◌then◌else◌, update,
}

abbrev pub nfile : ℕ
nfile = 100

-- FD_NONE, FD_PIPE, FD_INODE
pub data FileType : Type 0 where
  fd_none fd_pipe fd_inode : FileType

-- `struct file`
pub record File : Type 0 where
  pub type : FileType
  pub ref : ℕ
  pub readable : Bool
  pub writable : Bool
  pub pipe : ℕ
  pub ip : ℕ
  pub off : ℕ

abbrev pub Ftable : Type 0
Ftable = ℕ → File

-- the loop of filealloc, with `n` entries from `f` on to go
pub filealloc_from : ℕ → ℕ → Ftable → Option ℕ
filealloc_from zero f t = none
filealloc_from (suc n) f t =
    let rest = filealloc_from n (f + 1) t in if (t f).ref == 0 then some f else rest

abbrev pub take_entry : Ftable → Option ℕ → Ftable × Option ℕ
take_entry t none = (t, none)
take_entry t (some f) = (update t f (record (t f) { ref = 1 }), some f)

-- `filealloc`
pub filealloc : Ftable → Ftable × Option ℕ
filealloc t = take_entry t (filealloc_from nfile 0 t)

-- `filedup`; `none` is the panic
pub filedup : ℕ → Ftable → Option Ftable
filedup f t =
    if ltb (t f).ref 1 then none else some (update t f (record (t f) { ref = (t f).ref + 1 }))

-- What is left to do behind the lock: nothing, `pipeclose(pipe, writable)`, or
-- `begin_op(); iput(ip); end_op()`.
pub data Closing : Type 0 where
  nothing : Closing
  pipecloses : ℕ → Bool → Closing
  iputs : ℕ → Closing

abbrev pub closing : File → Closing
closing f = elim f.type [
  | fd_none ↦ nothing
  | fd_pipe ↦ pipecloses f.pipe f.writable
  | fd_inode ↦ iputs f.ip
]

-- `fileclose`; `none` is the panic
pub fileclose : ℕ → Ftable → Option (Ftable × Closing)
fileclose f t =
    if ltb (t f).ref 1
    then none
    else if ltb 0 ((t f).ref - 1)
    then some (update t f (record (t f) { ref = (t f).ref - 1 }), nothing)
    else some (update t f (record (t f) { ref = 0; type = fd_none }), closing (t f))
