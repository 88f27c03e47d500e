-- ===== src/Core/Backup/Recovery.antt =====
-- Restarts of a `BloomFilterManager` after crashes: packages/core/src/Bloom-filter-manager.ts with
-- packages/core/src/BloomFilterBackupManager.ts.
use express_token_revoker.Prelude.{
  ◌^◌, ◌<◌, ◌≤◌, ◌≡◌, refl, true, false, none, List, [], inl, arith,
}
use express_token_revoker.Prelude.Text.{Text}
use express_token_revoker.Core.FilterManager.{FilterManager, found_in}
use express_token_revoker.Core.Backup.{Settings, BackupManager, Files}
use express_token_revoker.Core.Backup.Covers.{new_filter-Fits}
use express_token_revoker.Core.BloomFilter.{new_filter}
use express_token_revoker.Core.Backup.Restore.{add_lines}
use express_token_revoker.Core.Backup.Held.{empty_filter}
use express_token_revoker.Core.Backup.Process.{
  Event, run, stays_calm, after_crash, new_backup_manager, blank_manager,
}
use express_token_revoker.Core.Backup.Storing.{IsRecoverable}
use express_token_revoker.Core.Backup.Recoverable.{run-IsRecoverable, IsRecoverable-found}

abbrev pub no_files : Files
no_files = record { current = none; previous = none; temp = none }

-- A manager that starts in an empty directory.
abbrev pub first_manager : Settings → FilterManager BackupManager
first_manager o = blank_manager o (new_backup_manager o no_files)

first_manager-IsRecoverable :
    (o : Settings) → 0 < o.filter_bits → o.filter_bits ≤ 2 ^ 31 → IsRecoverable o (first_manager o)
unfolding add_lines new_filter
first_manager-IsRecoverable o some_bits addressable =
    let shaped = new_filter-Fits o.filter_bits o.filter_hashes some_bits addressable in
    (
      empty_filter o,
      new_backup_manager o no_files,
      refl,
      refl,
      refl,
      refl,
      shaped,
      ([], empty_filter o, refl, tt, refl, (shaped, inl (refl, refl)), (λ j one. one)),
      omega arith,
    )

-- A manager without a write buffer, in any interleaving of tokens, periodic backups, rotations and
-- crashes, whatever the file system refuses to write: if no token is added between the two writes
-- of a backup, no added token has a surrogate without its partner, and no append of a token throws
-- after it has written a part of the line, then after a crash at any moment the restarted manager's
-- current filter recognises every token that the current filter recognised before.
pub survives_crash :
    (o : Settings) (es : List Event) (t : Text)
    → 0 < o.filter_bits
    → o.filter_bits ≤ 2 ^ 31
    → o.buffer_enabled ≡ false
    → stays_calm o es (first_manager o) ≡ true
    → let w = run o es (first_manager o) in
      found_in t w.current ≡ true → found_in t (after_crash o w.backup w).current ≡ true
survives_crash o es t some_bits addressable direct calm found =
    let w = run o es (first_manager o) in
    IsRecoverable-found o some_bits addressable direct t w
      (run-IsRecoverable o some_bits addressable direct es (first_manager o) calm
        (first_manager-IsRecoverable o some_bits addressable))
      found
