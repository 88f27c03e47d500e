-- ===== src/Core/Backup/Local.antt =====
-- `backupLocal`, `#backup` and `backupRotate` of packages/core/src/BloomFilterBackupManager.ts. A
-- step ends where the code waits, so that tokens may be added between two steps. The filter that is
-- written is the manager's current one: a periodic backup scheduled for another is skipped by its
-- generation.
use express_token_revoker.Prelude.{
  ℕ, ◌+◌, Bool, true, false, none, some, List, [], ◌∷◌, ◌++◌, ◌==◌, if◌then◌else◌,
}
use express_token_revoker.Core.BloomFilter.{BloomFilter}
use express_token_revoker.Core.Backup.{
  BackupManager, Phase, idle, opened, synced, renamed, persisted, Writer, periodic_backup,
  rotation_backup, Request, periodic, rotation, bytes_of,
}

-- `backupRotate` up to its `await` of the mutex, and an attempt of `#backupWithRetry` up to there
unfoldable pub request_rotation : BackupManager → BackupManager
request_rotation b = record b {
  generation = b.generation + 1;
  waiting = b.waiting ++ rotation ∷ [];
}

unfoldable pub request_periodic : ℕ → BackupManager → BackupManager
request_periodic generation b =
    if generation == b.generation
    then record b { waiting = b.waiting ++ periodic generation ∷ [] }
    else b

-- The mutex goes to the caller that has waited longest, whose guard comes next.
unfoldable pub grant : Request → List Request → BackupManager → BackupManager
grant rotation rest b = record b { phase = opened rotation_backup; waiting = rest }
grant (periodic generation) rest b = record b {
  phase = if generation == b.generation then opened periodic_backup else idle;
  waiting = rest;
}

unfoldable pub acquire : List Request → BackupManager → BackupManager
unfolding grant
acquire [] b = b
acquire (r ∷ rest) b = grant r rest b

-- the end of the `try` block of `backupLocal`, for each of its callers
abbrev pub returned : Writer → Phase
returned periodic_backup = idle
returned rotation_backup = persisted

-- One step of the holder of the mutex, or of the next one, with the filter as it is now. If the file
-- system refuses the step, the caller gets an `InternalError` and lets the mutex go.
unfoldable pub step_from : Bool → BloomFilter → Phase → BackupManager → BackupManager
unfolding acquire
step_from refused f idle b = acquire b.waiting b
step_from true f (opened w) b = record b { phase = idle }
step_from true f (synced w bytes) b = record b { phase = idle }
step_from true f (renamed w) b = record b { phase = idle }
step_from true f persisted b = record b { phase = idle }
step_from false f (opened w) b = record b { phase = synced w (bytes_of f.buckets) }
step_from false f (synced w bytes) b = record b {
  phase = renamed w;
  files = record b.files { current = some bytes };
}
step_from false f (renamed w) b = record b {
  phase = returned w;
  files = record b.files { temp = some [] };
}
step_from false f persisted b = record b {
  phase = idle;
  files = record b.files { current = none; previous = b.files.current };
}

unfoldable pub backup_step : Bool → BloomFilter → BackupManager → BackupManager
unfolding step_from
backup_step refused f b = step_from refused f b.phase b

-- Whether a step of the phase is the last one of `backupRotate`.
unfoldable pub ends_rotation : Bool → Phase → Bool
ends_rotation refused idle = false
ends_rotation refused (opened periodic_backup) = false
ends_rotation refused (opened rotation_backup) = refused
ends_rotation refused (synced periodic_backup bytes) = false
ends_rotation refused (synced rotation_backup bytes) = refused
ends_rotation refused (renamed periodic_backup) = false
ends_rotation refused (renamed rotation_backup) = refused
ends_rotation refused persisted = true

-- Between the writing of a blob's bytes and the clearing of the temp file.
abbrev pub is_exposed : Phase → Bool
is_exposed (synced w bytes) = true
is_exposed (renamed w) = true
is_exposed _ = false
