-- ===== src/Core/Backup/Restore.antt =====
-- `restore` of packages/core/src/BloomFilterBackupManager.ts.
use express_token_revoker.Prelude.{
  ℕ, ◌+◌, ◌/◌, ◌%◌, Bool, true, false, not, ◌&&◌, Option, none, some, List, [], ◌∷◌, ◌==◌,
  if◌then◌else◌, length,
}
use express_token_revoker.Prelude.Result.{Result, ok, err, internal_error, validation_error, ◌>>=◌}
use express_token_revoker.Prelude.Text.{Text, codes, text_eq, split_on}
use express_token_revoker.Core.BloomFilter.{BloomFilter, new_filter, from_buckets}
use express_token_revoker.Core.BloomFilter
use express_token_revoker.Core.FilterManager.{is_blank}
use express_token_revoker.Core.Backup.{Byte, BackupManager, buckets_of, content, is_nonempty_temp}

-- `#hasExpectedGeometry`
unfoldable pub has_expected_geometry : ℕ → List Byte → Bool
has_expected_geometry filter_bits buffer =
    ((length buffer % 4) == 0) && ((length buffer / 4) == ((filter_bits + 31) / 32))

-- `#restoreFilterFromFile`, of a file that cannot be read if `unreadable`
unfoldable pub restore_filter_from_file :
    Bool → BackupManager → Option (List Byte) → Result (Option BloomFilter)
unfolding has_expected_geometry buckets_of from_buckets
restore_filter_from_file unreadable b none = ok none
restore_filter_from_file true b (some buffer) = err internal_error
restore_filter_from_file false b (some buffer) = ok (
    if has_expected_geometry b.options.filter_bits buffer
    then some (from_buckets (buckets_of buffer) b.options.filter_hashes)
    else none)

-- The loop of `#restoreTemp`: `add` of a text does not throw.
unfoldable pub add_line : Text → BloomFilter → BloomFilter
unfolding is_blank
add_line line f = if is_blank line then f else BloomFilter.add line f

unfoldable pub add_lines : List Text → BloomFilter → BloomFilter
unfolding add_line
add_lines [] f = f
add_lines (line ∷ lines) f = add_lines lines (add_line line f)

-- `#restoreTemp`
unfoldable pub restore_temp : Text → BloomFilter → BloomFilter
unfolding add_lines split_on
restore_temp text f = add_lines (split_on 10 text) f

-- `restoredFilters.current ?? BloomFilterFactory.create(...)`
abbrev pub or_new : BackupManager → Option BloomFilter → BloomFilter
or_new b none = new_filter b.options.filter_bits b.options.filter_hashes
or_new b (some f) = f

-- What the file system refuses during a restore.
pub record ReadFaults : Type 0 where
  pub unreadable_current : Bool
  pub unreadable_previous : Bool
  pub unreadable_temp : Bool

pub record RestoredFilters : Type 0 where
  pub current : Option BloomFilter
  pub previous : Option BloomFilter

-- The end of `restore`: the tokens of the temp file go to the current filter.
unfoldable pub with_temp : Bool → BackupManager → RestoredFilters → Result RestoredFilters
unfolding restore_temp
with_temp unreadable b filters =
    if not (is_nonempty_temp b.files.temp)
    then ok filters
    else if unreadable
    then err internal_error
    else ok (record filters {
      current = some (restore_temp (content b.files.temp) (or_new b filters.current));
    })

-- Whether `restore(filterName)` reads the file of the filter `name`.
abbrev pub restores : Text → Text → Bool
restores filter_name name =
    if text_eq filter_name (codes "all") then true else text_eq filter_name name

-- `filters[name] = restoreFilterFromFile(...)` for a name that is restored
abbrev pub restored_if : Bool → Result (Option BloomFilter) → Result (Option BloomFilter)
restored_if true r = r
restored_if false r = ok none

-- `restore`
unfoldable pub restore : ReadFaults → Text → BackupManager → Result RestoredFilters
unfolding restore_filter_from_file with_temp text_eq
restore faults filter_name b =
    if not (
      if restores filter_name (codes "current")
      then true
      else restores filter_name (codes "previous"))
    then err validation_error
    else do
      current ←
          restored_if (restores filter_name (codes "current"))
            (restore_filter_from_file faults.unreadable_current b b.files.current)
      previous ←
          restored_if (restores filter_name (codes "previous"))
            (restore_filter_from_file faults.unreadable_previous b b.files.previous)
      with_temp faults.unreadable_temp b (record { current = current; previous = previous })
