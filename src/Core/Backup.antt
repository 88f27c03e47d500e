-- ===== src/Core/Backup.antt =====
-- The class `BloomFilterBackupManager` of packages/core/src/BloomFilterBackupManager.ts: its fields,
-- its three files, and the writing of tokens. `none` is a file that does not exist.
pub mod Local
pub mod Restore
pub mod Process
pub mod Lines
pub mod Covers
pub mod Held
pub mod Rotations
pub mod Restart
pub mod Storing
pub mod Recoverable
pub mod Recovery
pub mod Lost
pub mod Buffer
mod Tests
use express_token_revoker.Prelude.{
  ℕ, zero, suc, ◌+◌, Bool, true, false, not, ◌||◌, Option, none, some, List, [], ◌∷◌, ◌++◌, leb,
  ◌==◌, if◌then◌else◌, length, take, drop,
}
use express_token_revoker.Prelude.Result.{Result, ok, err, internal_error}
use express_token_revoker.Prelude.Text.{Text}
use express_token_revoker.Prelude.Utf8.{stored}
use express_token_revoker.Core.BloomFilter.{Bucket}

-- A byte of a blob, as its bits, the lowest first.
abbrev pub Byte : Type 0
Byte = List Bool

-- `Buffer.from(filter.buckets.buffer)`, on a machine that stores the lowest byte first
unfoldable pub bytes_of : List Bucket → List Byte
bytes_of [] = []
bytes_of (b ∷ bs) = take 8 b ∷ take 8 (drop 8 b) ∷ take 8 (drop 16 b) ∷ drop 24 b ∷ bytes_of bs

-- `new Int32Array(buffer.buffer, buffer.byteOffset, buffer.length / 4)`
unfoldable pub buckets_of : List Byte → List Bucket
buckets_of (a ∷ b ∷ c ∷ d ∷ rest) = (a ++ (b ++ (c ++ d))) ∷ buckets_of rest
buckets_of _ = []

pub record Files : Type 0 where
  pub current : Option (List Byte)
  pub previous : Option (List Byte)
  pub temp : Option Text

-- Who has called `backupLocal`.
pub data Writer : Type 0 where
  periodic_backup rotation_backup : Writer

-- The holder of the mutex, as far as it has come: the temporary blob is open; it holds these bytes,
-- on disk; it has its final name; `backupLocal` has returned to `backupRotate`.
pub data Phase : Type 0 where
  idle : Phase
  opened : Writer → Phase
  synced : Writer → List Byte → Phase
  renamed : Writer → Phase
  persisted : Phase

-- A caller that waits for the mutex: a periodic backup with the generation of its schedule, or a
-- rotation.
pub data Request : Type 0 where
  periodic : ℕ → Request
  rotation : Request

-- The options of the manager and of its backup manager, with what is computed from them:
-- `filter_bits` and `filter_hashes` are what `withTargetError` makes of `filterParams`, whose `k` is
-- the number of hash functions of such a filter.
pub record Settings : Type 0 where
  pub num_items : ℕ
  pub filter_bits : ℕ
  pub filter_hashes : ℕ
  pub buffer_enabled : Bool
  pub max_buffer_size : ℕ

pub record BackupManager : Type 0 where
  pub options : Settings
  pub write_buffer : List Text
  pub has_write_interval : Bool
  pub generation : ℕ
  pub phase : Phase
  pub waiting : List Request
  pub files : Files

-- `${item}\n`
abbrev pub token_line : Text → Text
token_line item = item ++ 10 ∷ []

-- The content of a file that `appendFile` makes if it is not there.
abbrev pub content : Option Text → Text
content none = []
content (some text) = text

abbrev pub append_temp : Text → BackupManager → BackupManager
append_temp text b = record b {
  files = record b.files { temp = some (content b.files.temp ++ text) };
}

-- What comes of one append: the file system takes it, refuses it, or throws after a part has been
-- written; `cut_off` has what the file's text gains by that part.
pub data Append : Type 0 where
  written refused : Append
  cut_off : Text → Append

-- One turn of the loop of `backupItem`. The file is in UTF-8.
unfoldable pub after_attempt :
    Append
    → Text
    → (BackupManager → Result (Unit {0}) × BackupManager)
    → BackupManager
    → Result (Unit {0}) × BackupManager
after_attempt written text retry b = (ok tt, append_temp (stored text) b)
after_attempt refused text retry b = retry b
after_attempt (cut_off part) text retry b = retry (append_temp part b)

-- The loop of `backupItem`, with `left` attempts left.
unfoldable pub append_with_retries :
    ℕ → (ℕ → Append) → Text → BackupManager → Result (Unit {0}) × BackupManager
unfolding after_attempt
append_with_retries zero attempts text b = (err internal_error, b)
append_with_retries (suc left) attempts text b =
    after_attempt (attempts left) text (λ b'. append_with_retries left attempts text b') b

abbrev pub max_retries : ℕ
max_retries = 3

-- `backupItem`
unfoldable pub backup_item : (ℕ → Append) → Text → BackupManager → Result (Unit {0}) × BackupManager
unfolding append_with_retries
backup_item attempts item b =
    if b.options.buffer_enabled
    then (if leb b.options.max_buffer_size (length b.write_buffer)
        then (err internal_error, b)
        else (ok tt, record b { write_buffer = b.write_buffer ++ item ∷ [] }))
    else append_with_retries max_retries attempts (token_line item) b

-- `${this.writeBuffer.join('\n')}\n`
abbrev pub lines_of : List Text → Text
lines_of [] = []
lines_of (t ∷ ts) = token_line t ++ lines_of ts

-- `#flushWriteBuffer` up to its `await`: the data that it appends, `none` if there is none
unfoldable pub flush_begin : BackupManager → Option Text
flush_begin b = elim b.write_buffer [ [] ↦ none | t ∷ ts ↦ some (lines_of (t ∷ ts)) ]

-- The rest of `#flushWriteBuffer`, the append of `text` included.
unfoldable pub flush_end : Append → Text → BackupManager → BackupManager
flush_end written text b = record (append_temp (stored text) b) { write_buffer = [] }
flush_end refused text b = b
flush_end (cut_off part) text b = append_temp part b

-- `stopWriteInterval`
unfoldable pub stop_write_interval : BackupManager → BackupManager
stop_write_interval b = record b { has_write_interval = false }

abbrev pub is_nonempty_blob : Option (List Byte) → Bool
is_nonempty_blob none = false
is_nonempty_blob (some []) = false
is_nonempty_blob (some (x ∷ xs)) = true

-- `#tempFileExistsAndNotEmpty`, where the file system answers
abbrev pub is_nonempty_temp : Option Text → Bool
is_nonempty_temp none = false
is_nonempty_temp (some []) = false
is_nonempty_temp (some (x ∷ xs)) = true

-- `backupExists`, where the file system answers
unfoldable pub backup_exists : BackupManager → Bool
backup_exists b =
    is_nonempty_blob b.files.current
    || is_nonempty_blob b.files.previous
    || is_nonempty_temp b.files.temp

-- `deleteBackupFile` of each of the three files, as a reset calls it
unfoldable pub delete_backup_files : BackupManager → BackupManager
delete_backup_files b = record b { files = record { current = none; previous = none; temp = none } }
