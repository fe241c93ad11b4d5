-- ===== src/Kernel/Log/Tests.antt =====
-- A transaction of two blocks, with the log from block 2 on.
use meph_i_semester_4_acos.Base.{
  ℕ, ◌≡◌, refl, false, none, some, [], ◌∷◌, ◌==◌, if◌then◌else◌, arith,
}
use meph_i_semester_4_acos.Kernel.Log.{Bytes, State, commit, begin_op, end_op, log_write, initlog}
use meph_i_semester_4_acos.Kernel.Log.Install.{in_log}
use meph_i_semester_4_acos.Kernel.Log.Recovery.{settled}
use meph_i_semester_4_acos.Kernel.Log.Crash.{
  IsReady, AllOrNothing, recoveries, end_op-AllOrNothing, commit_durable,
}
use meph_i_semester_4_acos.Kernel.Log.Space.{
  Reach, running, here, next, begins, HasRoom, Reach-log_write,
}
use meph_i_semester_4_acos.Kernel.Log.Full.{begin_op-log_write}

abbrev old : ℕ → Bytes
old x = x ∷ []

abbrev new : ℕ → Bytes
new x = if x == 50 then 7 ∷ [] else if x == 60 then 8 ∷ [] else x ∷ []

abbrev ready : State
ready = record {
  disk = old;
  header = [];
  view = new;
  lh = 50 ∷ 60 ∷ [];
  start = 2;
  size = 40;
  outstanding = 1;
  committing = false;
  power = 3;
}

ready-IsReady : IsReady ready
ready-IsReady = record { out = (refl, (refl, tt)); fits = omega arith; empty = refl }

-- the power fails after the header, and again after the first block of a recovery
end_op-AllOrNothing_example :
    (t : State) × (end_op ready ≡ some t)
    × AllOrNothing ready (initlog 31 (recoveries (1 ∷ []) t)).disk
    × ((initlog 31 (recoveries (1 ∷ []) t)).header ≡ [])
end_op-AllOrNothing_example =
    end_op-AllOrNothing ready (1 ∷ []) 31 refl refl ready-IsReady (omega arith)

abbrev powered : State
powered = record ready { power = 6 }

commit_durable_example :
    ((x : ℕ) → in_log 2 2 x ≡ false → (commit powered).disk x ≡ settled (50 ∷ 60 ∷ []) old new x)
    × ((commit powered).header ≡ [])
    × ((commit powered).lh ≡ [])
commit_durable_example =
    commit_durable powered (record { out = (refl, (refl, tt)); fits = omega arith; empty = refl })
      (omega arith)

abbrev booted : State
booted = record ready { lh = []; outstanding = 0 }

booted-HasRoom : HasRoom (running booted [])
booted-HasRoom = record {
  counted = refl;
  small = tt;
  room = omega arith;
  large = omega arith;
  idle = refl;
}

begin_op-booted : begin_op booted ≡ some (record booted { outstanding = 1 })
unfolding begin_op
begin_op-booted = refl

Reach-log_write_example :
    (s : State) × (log_write 50 (7 ∷ []) (record booted { outstanding = 1 }) ≡ some s)
Reach-log_write_example =
    Reach-log_write {r = running booted []}
      {t = running (record booted { outstanding = 1 }) (10 ∷ [])} [] [] 9 50 (7 ∷ []) booted-HasRoom
      (next here (begins (record booted { outstanding = 1 }) begin_op-booted)) refl

-- the log of the disk that mkfs makes
abbrev made : State
made = record booted { size = 30 }

begin_op-log_write_example :
    (t : State) × Reach (running made []) (running t (1 ∷ 0 ∷ 0 ∷ []))
    × (log_write 50 (7 ∷ []) t ≡ none)
begin_op-log_write_example = begin_op-log_write made 50 (7 ∷ []) refl refl refl refl
