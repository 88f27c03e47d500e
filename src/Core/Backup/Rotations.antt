-- ===== src/Core/Backup/Rotations.antt =====
-- The rotations that wait for a backup in packages/core/src/BloomFilterBackupManager.ts.
use express_token_revoker.Prelude.{
  ℕ, suc, ◌+◌, ◌≡◌, refl, Bool, true, false, inl, inr, List, [], ◌∷◌, ◌++◌, arith, Bool-cases, ◌==◌,
}
use express_token_revoker.Core.BloomFilter.{BloomFilter}
use express_token_revoker.Core.Backup.{
  BackupManager, Phase, idle, opened, synced, renamed, persisted, periodic_backup, rotation_backup,
  Request, periodic, rotation,
}
use express_token_revoker.Core.Backup.Local.{step_from, ends_rotation, acquire, grant}

-- The rotations that have asked for a backup and not got it.
abbrev pub in_phase : Phase → ℕ
in_phase (opened rotation_backup) = 1
in_phase (synced rotation_backup bytes) = 1
in_phase (renamed rotation_backup) = 1
in_phase persisted = 1
in_phase _ = 0

abbrev pub in_queue : List Request → ℕ
in_queue [] = 0
in_queue (rotation ∷ rest) = suc (in_queue rest)
in_queue (periodic generation ∷ rest) = in_queue rest

abbrev pub outstanding : BackupManager → ℕ
outstanding b = in_phase b.phase + in_queue b.waiting

abbrev pub one_if : Bool → ℕ
one_if true = 1
one_if false = 0

pub in_queue-append : (xs ys : List Request) → in_queue (xs ++ ys) ≡ in_queue xs + in_queue ys
in_queue-append [] ys = omega arith
in_queue-append (rotation ∷ xs) ys = omega (arith, in_queue-append xs ys)
in_queue-append (periodic generation ∷ xs) ys = in_queue-append xs ys

acquire-outstanding :
    (waiting : List Request) (b : BackupManager)
    → b.phase ≡ idle
    → b.waiting ≡ waiting
    → outstanding (acquire waiting b) ≡ in_queue waiting
unfolding acquire grant
acquire-outstanding [] b free here = rw (free, here) (omega arith)
acquire-outstanding (rotation ∷ rest) b free here = omega arith
acquire-outstanding (periodic generation ∷ rest) b free here =
    elim (Bool-cases (generation == b.generation)) [
      | inl same ↦ rw same (omega arith)
      | inr stale ↦ rw stale (omega arith)
    ]

-- A step ends at most one of them.
pub step-outstanding :
    (refused : Bool) (f : BloomFilter) (p : Phase) (b : BackupManager)
    → b.phase ≡ p
    → outstanding (step_from refused f p b) + one_if (ends_rotation refused p)
      ≡ in_phase p + in_queue b.waiting
unfolding step_from ends_rotation
step-outstanding refused f idle b here = omega (arith, acquire-outstanding b.waiting b here refl)
step-outstanding true f (opened periodic_backup) b here = omega arith
step-outstanding true f (opened rotation_backup) b here = omega arith
step-outstanding true f (synced periodic_backup bytes) b here = omega arith
step-outstanding true f (synced rotation_backup bytes) b here = omega arith
step-outstanding true f (renamed periodic_backup) b here = omega arith
step-outstanding true f (renamed rotation_backup) b here = omega arith
step-outstanding true f persisted b here = omega arith
step-outstanding false f (opened periodic_backup) b here = omega arith
step-outstanding false f (opened rotation_backup) b here = omega arith
step-outstanding false f (synced periodic_backup bytes) b here = omega arith
step-outstanding false f (synced rotation_backup bytes) b here = omega arith
step-outstanding false f (renamed periodic_backup) b here = omega arith
step-outstanding false f (renamed rotation_backup) b here = omega arith
step-outstanding false f persisted b here = omega arith
