-- ===== src/Core/Backup/Tests.antt =====
-- The theorems on packages/core/src/BloomFilterBackupManager.ts at concrete managers.
use express_token_revoker.Prelude.{
  ℕ, ◌≡◌, ◌≤◌, refl, true, false, some, List, [], ◌∷◌, ◌++◌, arith, ltb, length,
}
use express_token_revoker.Prelude.Result.{ok}
use express_token_revoker.Prelude.Text.{codes, text_eq}
use express_token_revoker.Prelude.Utf8.{stored_behind}
use express_token_revoker.Core.BloomFilter
use express_token_revoker.Core.BloomFilter.{new_filter, test}
use express_token_revoker.Core.FilterManager.{FilterManager, found_in, add, rotate_begin}
use express_token_revoker.Core.Backup.Local.{ends_rotation, request_periodic, request_rotation}
use express_token_revoker.Core.FilterManager.Health.{is_ok}
use express_token_revoker.Core.Backup.{
  Append, written, refused, Settings, BackupManager, synced, periodic_backup, bytes_of, backup_item,
  flush_begin, flush_end,
}
use express_token_revoker.Core.Backup.Covers.{new_filter-Fits}
use express_token_revoker.Core.Backup.Held.{empty_filter}
use express_token_revoker.Core.Backup.Process.{
  Event, add_token, periodic_tick, begin_rotation, backup_turn, crash, run, stays_calm, after_crash,
  new_backup_manager, construct,
}
use express_token_revoker.Core.Backup.Recovery.{no_files, first_manager, survives_crash}
use express_token_revoker.Core.Backup.Lost.{window_add_lost}
use express_token_revoker.Core.Backup.Buffer.{
  put_item, end_flush, after_calls, buffer_bounded, flush_drops_late_item,
}

abbrev settings : Settings
settings = record {
  num_items = 5;
  filter_bits = 64;
  filter_hashes = 2;
  buffer_enabled = false;
  max_buffer_size = 2;
}

abbrev taken : ℕ → Append
taken attempt = written

-- A backup with a token before and after it, a crash, and the beginning of a rotation.
abbrev before_rotation : List Event
before_rotation =
    add_token taken (codes "a")
    ∷ periodic_tick 0
    ∷ backup_turn false
    ∷ backup_turn false
    ∷ backup_turn false
    ∷ backup_turn false
    ∷ add_token taken (codes "b")
    ∷ crash
    ∷ begin_rotation
    ∷ backup_turn false
    ∷ []

calm : stays_calm settings before_rotation (first_manager settings) ≡ true
unfolding stays_calm add backup_item ends_rotation request_periodic text_eq stored_behind
calm = refl

found_before :
    found_in (codes "a") (run settings before_rotation (first_manager settings)).current ≡ true
unfolding run rotate_begin add backup_item ends_rotation request_periodic construct bytes_of
    BloomFilter.add new_filter request_rotation test stored_behind
found_before = refl

survives_crash_example :
    let w = run settings before_rotation (first_manager settings) in
    found_in (codes "a") (after_crash settings w.backup w).current ≡ true
survives_crash_example =
    survives_crash settings before_rotation (codes "a") (omega arith) (omega arith) refl calm
      found_before

abbrev writing : BackupManager
writing = record (new_backup_manager settings no_files) {
  phase = synced periodic_backup (bytes_of (empty_filter settings).buckets);
}

abbrev writing_manager : FilterManager BackupManager
writing_manager = record (first_manager settings) { backup = some writing }

window_add_lost_example :
    let w =
      run settings
        (add_token taken (codes "a") ∷ backup_turn false ∷ backup_turn false ∷ [])
        writing_manager in
    (after_crash settings w.backup w).current ≡ some (empty_filter settings)
window_add_lost_example =
    window_add_lost settings taken (codes "a") (empty_filter settings) writing writing_manager refl
      (new_filter-Fits 64 2 (omega arith) (omega arith)) refl refl refl refl

abbrev buffered : BackupManager
buffered = record (new_backup_manager (record settings { buffer_enabled = true }) no_files) {
  write_buffer = codes "a" ∷ [];
}

buffer_bounded_example :
    let w =
      after_calls (put_item taken (codes "b") ∷ end_flush refused (codes "a") ∷ []) buffered in
    (length w.write_buffer ≤ w.options.max_buffer_size)
    × (is_ok (backup_item taken (codes "c") w).0
        ≡ ltb (length w.write_buffer) w.options.max_buffer_size)
buffer_bounded_example =
    buffer_bounded (put_item taken (codes "b") ∷ end_flush refused (codes "a") ∷ []) taken
      (codes "c") buffered (refl, omega arith)

begun : flush_begin buffered ≡ some (codes "a" ++ 10 ∷ [])
unfolding flush_begin
begun = refl

flush_drops_late_item_example :
    ((backup_item taken (codes "b") buffered).0 ≡ ok tt)
    × (flush_end written (codes "a" ++ 10 ∷ []) (backup_item taken (codes "b") buffered).1
        ≡ flush_end written (codes "a" ++ 10 ∷ []) buffered)
flush_drops_late_item_example =
    flush_drops_late_item taken (codes "b") (codes "a" ++ 10 ∷ []) buffered refl (omega arith) begun
