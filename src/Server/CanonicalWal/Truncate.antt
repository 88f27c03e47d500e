-- ===== src/Server/CanonicalWal/Truncate.antt =====
-- `truncateOldGenerations` of packages/server/src/canonicalWal.ts.
use express_token_revoker.Prelude.{
  ℕ, not, ◌&&◌, ◌||◌, Option, List, [], ◌∷◌, ◌++◌, leb, ltb, if◌then◌else◌,
}
use express_token_revoker.Prelude.Result.{Result, ok, err, internal_error}
use express_token_revoker.Prelude.Text.{Text, text_eq}
use express_token_revoker.Server.CanonicalWal.Files.{Directory, WalFile, parse_file}
use express_token_revoker.Server.CanonicalWal.Wal.{Faults, CanonicalWal, list_files}
use express_token_revoker.Server.CanonicalWal.Read.{max_lsn_of}

unfoldable pub remove_file : Text → Directory → Directory
unfolding text_eq
remove_file name [] = []
remove_file name ((m, content) ∷ d) =
    let rest = remove_file name d in if text_eq m name then rest else (m, content) ∷ rest

abbrev pub prepend :
    List Text → Result (List Text) × CanonicalWal → Result (List Text) × CanonicalWal
prepend gone (ok names, v) = (ok (gone ++ names), v)
prepend gone (err e, v) = (err e, v)

module _ (other : Text → Option ℕ) where
  -- the body of the loop of `truncateOldGenerations`, for a file that can be read
  unfoldable pub truncate_file : Faults → ℕ → ℕ → WalFile → CanonicalWal → List Text × CanonicalWal
  unfolding max_lsn_of remove_file
  truncate_file faults keep_from lsn_floor f w =
      let file_max = max_lsn_of 0 (parse_file other f) in
      if leb keep_from f.generation || (ltb lsn_floor file_max || faults.undeletable f.name)
      then ([], w)
      else (
        f.name ∷ [],
        record w {
          directory = remove_file f.name w.directory;
          deleted_max_lsn = if ltb w.deleted_max_lsn file_max then file_max else w.deleted_max_lsn;
        },
      )

  unfoldable pub truncate_files :
      Faults → ℕ → ℕ → List WalFile → CanonicalWal → Result (List Text) × CanonicalWal
  unfolding truncate_file
  truncate_files faults keep_from lsn_floor [] w = (ok [], w)
  truncate_files faults keep_from lsn_floor (f ∷ fs) w =
      let (gone, w') = truncate_file faults keep_from lsn_floor f w in
      let later = truncate_files faults keep_from lsn_floor fs w' in
      if ltb f.generation keep_from && faults.unreadable f.name
      then (err internal_error, w)
      else prepend gone later

  unfoldable pub truncate_old_generations :
      Faults → ℕ → ℕ → CanonicalWal → Result (List Text) × CanonicalWal
  unfolding truncate_files list_files
  truncate_old_generations faults keep_from lsn_floor w =
      if not w.initialized
      then (err internal_error, w)
      else truncate_files faults keep_from lsn_floor (list_files faults w) w
