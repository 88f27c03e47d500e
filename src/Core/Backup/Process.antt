-- ===== src/Core/Backup/Process.antt =====
-- A `BloomFilterManager` of packages/core/src/Bloom-filter-manager.ts over the backup manager of
-- packages/core/src/BloomFilterBackupManager.ts, with its constructor. A crash may come between any
-- two events: it keeps the files and nothing else.
use express_token_revoker.Prelude.{
  ℕ, zero, suc, not, ◌&&◌, Bool, true, false, Option, none, some, List, [], ◌∷◌, if◌then◌else◌,
}
use express_token_revoker.Prelude.Result.{Result, ok, err, ◌>>=◌}
use express_token_revoker.Prelude.Text.{Text, codes, text_eq}
use express_token_revoker.Prelude.Utf8.{stored}
use express_token_revoker.Core.BloomFilter.{BloomFilter, new_filter}
use express_token_revoker.Core.FilterManager.{
  Backups, FilterManager, no_counts, add, has, rotate_begin, rotate_end,
}
use express_token_revoker.Core.FilterManager.Lifecycle.{restored}
use express_token_revoker.Core.Backup.{
  Settings, BackupManager, Files, Append, written, cut_off, idle, backup_item, max_retries,
  backup_exists,
}
use express_token_revoker.Core.Backup.Local.{
  request_rotation, request_periodic, backup_step, ends_rotation, is_exposed,
}
use express_token_revoker.Core.Backup.Restore.{ReadFaults, RestoredFilters, restore}

-- What the manager calls, up to the first wait: `attempts` has what comes of the attempts of
-- `backupItem`.
abbrev pub disk_backups : (ℕ → Append) → Backups BackupManager
disk_backups attempts = record {
  backup_item = backup_item attempts;
  backup_rotate = λ f b. request_rotation b;
  restart_interval = λ f b. b;
}

-- The constructor of `BloomFilterBackupManager` in a directory that holds `files`.
abbrev pub new_backup_manager : Settings → Files → BackupManager
new_backup_manager o files = record {
  options = o;
  write_buffer = [];
  has_write_interval = o.buffer_enabled;
  generation = 0;
  phase = idle;
  waiting = [];
  files = files;
}

abbrev pub blank_manager : Settings → BackupManager → FilterManager BackupManager
blank_manager o b = record {
  num_items = o.num_items;
  filter_bits = o.filter_bits;
  filter_hashes = o.filter_hashes;
  previous = none;
  current = some (new_filter o.filter_bits o.filter_hashes);
  has_rotated = false;
  current_insertions = 0;
  is_shutting_down = false;
  is_rotating = false;
  has_interval = true;
  backup = some b;
  counters = no_counts;
}

-- the `if` of `#restoreBackup`
abbrev pub restored_from :
    RestoredFilters → FilterManager BackupManager → FilterManager BackupManager
restored_from filters s = restored (some (filters.current, filters.previous)) s

-- The constructor of a `BloomFilterManager` with a backup, and its `#restoreBackup`.
unfoldable pub construct : Settings → ReadFaults → Files → Result (FilterManager BackupManager)
unfolding restore backup_exists
construct o faults files =
    let b = new_backup_manager o files in
    let s = blank_manager o b in
    if backup_exists b
    then (do filters ← restore faults (codes "all") b; ok (restored_from filters s))
    else ok s

abbrev pub no_read_faults : ReadFaults
no_read_faults = record {
  unreadable_current = false;
  unreadable_previous = false;
  unreadable_temp = false;
}

pub data Event : Type 0 where
  add_token : (ℕ → Append) → Text → Event
  look_up : Text → Event
  periodic_tick : ℕ → Event
  begin_rotation : Event
  -- one step of the backup manager, which the file system refuses or not
  backup_turn : Bool → Event
  crash : Event

-- The end of `backupRotate` lets `#rotate` go on.
unfoldable pub turn :
    Bool
    → Option BackupManager
    → Option BloomFilter
    → FilterManager BackupManager
    → FilterManager BackupManager
unfolding backup_step
turn refused none f s = s
turn refused (some b) none s = s
turn refused (some b) (some f) s =
    let s' = record s { backup = some (backup_step refused f b) } in
    if ends_rotation refused b.phase then rotate_end (disk_backups (λ i. written)) s' else s'

abbrev pub after_crash :
    Settings → Option BackupManager → FilterManager BackupManager → FilterManager BackupManager
after_crash o none s = s
after_crash o (some b) s = elim (construct o no_read_faults b.files) [ ok s' ↦ s' | err e ↦ s ]

abbrev pub schedule : ℕ → Option BackupManager → Option BackupManager
schedule generation none = none
schedule generation (some b) = some (request_periodic generation b)

abbrev pub exposed : Option BackupManager → Bool
exposed none = false
exposed (some b) = is_exposed b.phase

abbrev pub is_whole : Append → Bool
is_whole (cut_off part) = false
is_whole _ = true

-- None of the attempts below `n` writes a part only.
abbrev pub are_whole : ℕ → (ℕ → Append) → Bool
are_whole zero attempts = true
are_whole (suc n) attempts = is_whole (attempts n) && are_whole n attempts

-- No token is added between the two writes of a backup, none has a surrogate without its partner,
-- and no append of a token throws after it has written a part.
unfoldable pub is_calm : Event → FilterManager BackupManager → Bool
is_calm (add_token attempts item) s =
    not (exposed s.backup) && (are_whole max_retries attempts && text_eq (stored item) item)
is_calm _ s = true

module _ (o : Settings) where
  unfoldable pub handle : Event → FilterManager BackupManager → FilterManager BackupManager
  unfolding turn
  handle (add_token attempts item) s = (add (disk_backups attempts) item s).1
  handle (look_up item) s = (has item s).1
  handle (periodic_tick generation) s = record s { backup = schedule generation s.backup }
  handle begin_rotation s = rotate_begin (disk_backups (λ i. written)) s
  handle (backup_turn refused) s = turn refused s.backup s.current s
  handle crash s = after_crash o s.backup s

  unfoldable pub run : List Event → FilterManager BackupManager → FilterManager BackupManager
  unfolding handle
  run [] s = s
  run (e ∷ es) s = run es (handle e s)

  unfoldable pub stays_calm : List Event → FilterManager BackupManager → Bool
  unfolding is_calm handle
  stays_calm [] s = true
  stays_calm (e ∷ es) s =
      let rest = stays_calm es (handle e s) in if is_calm e s then rest else false
