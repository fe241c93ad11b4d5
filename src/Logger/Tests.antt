-- ===== src/Logger/Tests.antt =====
-- A directory with `name` and `name.2`.
use meph_i_semester_4_acos.Base.{
  ℕ, zero, suc, ◌≡◌, ◌++◌, refl, true, false, Option, none, some, List, [], ◌∷◌, arith, codes,
}
use meph_i_semester_4_acos.Logger.{Directory, Logger, logger, round, write}
use meph_i_semester_4_acos.Logger.Shift.{Finite}
use meph_i_semester_4_acos.Logger.History.{IsReady, whole, logger-whole}

abbrev files : ℕ → Option (List ℕ)
files zero = some (codes "new")
files (suc zero) = none
files (suc (suc zero)) = some (codes "old")
files (suc (suc (suc _))) = none

abbrev directory : Directory
directory = record { file = files; last = 2 }

directory-Finite : Finite 2 files
directory-Finite zero h = absurd (omega arith)
directory-Finite (suc zero) h = refl
directory-Finite (suc (suc zero)) h = absurd (omega arith)
directory-Finite (suc (suc (suc i))) h = refl

-- the logger has written "new" and goes on
abbrev running : Logger
running = record { dir = directory; fd = some 3 }

logger-whole_example :
    let l = logger ((false, codes "er") ∷ (true, codes "newest") ∷ []) running in
    IsReady l × (whole l ≡ whole running ++ codes "ernewest")
logger-whole_example =
    logger-whole ((false, codes "er") ∷ (true, codes "newest") ∷ []) running
      (record { finite = directory-Finite; at_end = refl })

-- A logger that starts where a log file is there writes over its first bytes.
restart-overwrites :
    ((round (false, codes "xy") (record running { fd = none })).dir.file 0) ≡ some (codes "xyw")
unfolding round write
restart-overwrites = refl
