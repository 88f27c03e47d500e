-- ===== src/Core/Backup/Lost.antt =====
-- Tokens that packages/core/src/BloomFilterBackupManager.ts does not persist: those that are added
-- between the two writes of a backup.
use express_token_revoker.Prelude.{
  ℕ, ◌≡◌, refl, ap, ◌∙◌, false, some, List, [], ◌∷◌, inl, inr, Bool-cases,
}
use express_token_revoker.Prelude.Result.{Result, ok, err, Result-cases}
use express_token_revoker.Prelude.Text.{Text}
use express_token_revoker.Core.BloomFilter
use express_token_revoker.Core.BloomFilter.{BloomFilter}
use express_token_revoker.Core.FilterManager
use express_token_revoker.Core.FilterManager.{
  Backups, FilterManager, add, check_item, store_added, is_saturated,
}
use express_token_revoker.Core.Backup.{
  Append, Settings, BackupManager, Files, Byte, Phase, idle, synced, periodic_backup, bytes_of,
}
use express_token_revoker.Core.Backup.Local.{backup_step, ends_rotation}
use express_token_revoker.Core.Backup.Restore.{add_lines}
use express_token_revoker.Core.Backup.Held.{IsShaped}
use express_token_revoker.Core.Backup.Storing.{backup_item-keeps}
use express_token_revoker.Core.Backup.Restart.{construct-restores}
use express_token_revoker.Core.Backup.Process.{
  add_token, backup_turn, run, handle, turn, after_crash, disk_backups,
}

-- A manager with a filter and a backup manager, which keeps its options and its phase.
abbrev IsBackedUp : BackupManager → FilterManager BackupManager → Type 0
IsBackedUp b s =
    (f : BloomFilter) × (b' : BackupManager) × (s.current ≡ some f)
    × (s.backup ≡ some b')
    × (b'.options ≡ b.options)
    × (b'.phase ≡ b.phase)

module _ (b : BackupManager) (direct : b.options.buffer_enabled ≡ false) (f : BloomFilter) where
  landed-IsBackedUp :
      (D : Backups BackupManager) (r : Result (Unit {0}) × BackupManager) (item : Text)
      (s : FilterManager BackupManager)
      → s.current ≡ some f
      → r.1.options ≡ b.options
      → r.1.phase ≡ b.phase
      → IsBackedUp b (store_added D (r.0, some r.1) item s).1
  unfolding store_added
  landed-IsBackedUp D (err e, b') item s current options phase =
      (f, b', current, refl, options, phase)
  landed-IsBackedUp D (ok _, b') item s current options phase =
      (BloomFilter.add item f, b', ap (FilterManager.add_to item) current, refl, options, phase)

  stored-IsBackedUp :
      (attempts : ℕ → Append) (item : Text) (s : FilterManager BackupManager)
      → s.current ≡ some f
      → s.backup ≡ some b
      → IsBackedUp b
          (store_added
            (disk_backups attempts)
            (FilterManager.backup_item (disk_backups attempts) item s.backup)
            item
            s).1
  unfolding store_added
  stored-IsBackedUp attempts item s current backup =
      let D = disk_backups attempts in
      let (r, same, options, phase) = backup_item-keeps attempts item b direct in
      simp (backup, same) (landed-IsBackedUp D r item s current options phase)

  add-IsBackedUp :
      (attempts : ℕ → Append) (item : Text) (s : FilterManager BackupManager)
      → s.current ≡ some f
      → s.backup ≡ some b
      → IsBackedUp b (add (disk_backups attempts) item s).1
  unfolding add
  add-IsBackedUp attempts item s current backup = elim (Result-cases (check_item item s)) [
    | inl (e, bad) ↦ rw (bad, add) (f, b, current, backup, refl, refl)
    | inr (_, valid) ↦
        rw (valid, add)
          (elim (Bool-cases (is_saturated s)) [
            | inl full ↦ rw full (f, b, current, backup, refl, refl)
            | inr room ↦ rw room (stored-IsBackedUp attempts item s current backup)
          ])
  ]

-- The backup puts its blob in place and clears the temp file.
backup_ends :
    (s : FilterManager BackupManager) (f : BloomFilter) (b : BackupManager) (bytes : List Byte)
    → s.current ≡ some f
    → s.backup ≡ some (record b { phase = synced periodic_backup bytes })
    → let s' = turn false s.backup s.current s in
      (turn false s'.backup s'.current s').backup
      ≡ some (record b {
        phase = idle;
        files = record b.files { current = some bytes; temp = some [] };
      })
unfolding turn backup_step ends_rotation
backup_ends s f b bytes current backup = simp (current, backup) refl

with_phase : (b : BackupManager) (p : Phase) → b.phase ≡ p → b ≡ record b { phase = p }
with_phase b p here = ap (λ q. record b { phase = q }) here

-- A periodic backup has written the filter's bytes and not cleared the temp file yet. Whatever token
-- is added then, and with whatever result: when the backup ends and the process crashes, the
-- restarted manager's current filter is the one from before the token.
pub window_add_lost :
    (o : Settings) (attempts : ℕ → Append) (item : Text) (f : BloomFilter) (b : BackupManager)
    (s : FilterManager BackupManager)
    → o.buffer_enabled ≡ false
    → IsShaped o f
    → s.current ≡ some f
    → s.backup ≡ some b
    → b.options ≡ o
    → b.phase ≡ synced periodic_backup (bytes_of f.buckets)
    → let w = run o (add_token attempts item ∷ backup_turn false ∷ backup_turn false ∷ []) s in
      (after_crash o w.backup w).current ≡ some f
unfolding run handle add_lines
window_add_lost o attempts item f b s direct shaped current backup same here =
    let (f', b', current', backup', same', here') =
      add-IsBackedUp b (ap (λ p. p.buffer_enabled) same ∙ direct) f attempts item s current
        backup in
    let phase : b'.phase ≡ synced periodic_backup (bytes_of f.buckets) = here' ∙ here in
    let bytes = bytes_of f.buckets in
    let s' = (add (disk_backups attempts) item s).1 in
    let ended = backup_ends s' f' b' bytes current' (backup' ∙ ap some (with_phase b' _ phase)) in
    let files : Files = record b'.files { current = some bytes; temp = some [] } in
    let (previous, restored) = construct-restores o files [] f tt refl (shaped, inr refl) in
    simp ended (rw (restored, after_crash) refl)
