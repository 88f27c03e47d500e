-- ===== src/Server/CanonicalWal/Wal.antt =====
-- The class `CanonicalWal` of packages/server/src/canonicalWal.ts. The state is its private fields
-- and the directory that it writes to.
use express_token_revoker.Prelude.{
  ℕ, ◌+◌, ◌-◌, Bool, true, false, not, ◌||◌, Option, none, some, List, [], ◌∷◌, ◌++◌, leb,
  if◌then◌else◌,
}
use express_token_revoker.Prelude.Result.{Result, ok, err, internal_error}
use express_token_revoker.Prelude.Text.{Text, text_eq}
use express_token_revoker.Prelude.Utf8.{stored}
use express_token_revoker.Server.CanonicalWal.Line.{entry_line, tombstone_line, rotate_line}
use express_token_revoker.Server.CanonicalWal.Files.{
  Directory, WalFile, file_name, list_generation_files,
}

-- What the file system refuses during one call. An append that it refuses may have written a part
-- before it throws: `left_behind` is what the file's text gains by that.
pub record Faults : Type 0 where
  pub unlistable : Bool
  pub unwritable : Bool
  pub left_behind : Option Text
  pub unreadable : Text → Bool
  pub undeletable : Text → Bool

abbrev pub no_faults : Faults
no_faults = record {
  unlistable = false;
  unwritable = false;
  left_behind = none;
  unreadable = λ name. false;
  undeletable = λ name. false;
}

pub record CanonicalWal : Type 0 where
  pub revoker_id : Text
  pub next_lsn : ℕ
  pub generation : ℕ
  pub deleted_max_lsn : ℕ
  pub initialized : Bool
  pub directory : Directory

-- `init`
unfoldable pub init : ℕ → ℕ → ℕ → CanonicalWal → CanonicalWal
init next_lsn generation deleted_max_lsn w = record w {
  next_lsn = next_lsn;
  generation = generation;
  deleted_max_lsn = deleted_max_lsn;
  initialized = true;
}

-- `lastLsn`, once `init` has set `#nextLsn` to at least 1 (before that the source gives -1)
unfoldable pub last_lsn : CanonicalWal → ℕ
last_lsn w = w.next_lsn - 1

unfoldable pub can_serve_from : ℕ → CanonicalWal → Bool
can_serve_from from_lsn w = leb w.deleted_max_lsn from_lsn

-- `appendFileSync`: the data goes to the end of the file, which is made if it is not there.
unfoldable pub append_file : Text → Text → Directory → Directory
unfolding text_eq
append_file name text [] = (name, text) ∷ []
append_file name text ((m, content) ∷ d) =
    if text_eq m name then (m, content ++ text) ∷ d else (m, content) ∷ append_file name text d

unfoldable pub after_refusal : Option Text → CanonicalWal → Directory
unfolding append_file
after_refusal none w = w.directory
after_refusal (some part) w = append_file (file_name w.revoker_id w.generation) part w.directory

-- `#appendLine`; the file is in UTF-8
unfoldable pub append_line : Faults → Text → CanonicalWal → Result (Unit {0}) × CanonicalWal
unfolding after_refusal
append_line faults line w =
    if not w.initialized || faults.unwritable
    then (
      err internal_error,
      record w {
        directory = if w.initialized then after_refusal faults.left_behind w else w.directory;
      },
    )
    else (
      ok tt,
      record w {
        directory =
            append_file (file_name w.revoker_id w.generation) (stored (line ++ 10 ∷ []))
              w.directory;
      },
    )

abbrev pub returning {ℓ} :
    {A : Type ℓ} → A → Result (Unit {0}) × CanonicalWal → Result A × CanonicalWal
returning a (ok _, w) = (ok a, w)
returning a (err e, w) = (err e, w)

-- `appendEntry`: the LSN is taken before the line is written.
unfoldable pub append_entry : Faults → Text → CanonicalWal → Result ℕ × CanonicalWal
unfolding append_line
append_entry faults item w =
    let lsn = w.next_lsn in
    returning lsn
      (append_line faults (entry_line lsn item) (record w { next_lsn = w.next_lsn + 1 }))

unfoldable pub append_tombstone :
    Faults → ℕ → Text → CanonicalWal → Result (Unit {0}) × CanonicalWal
unfolding append_line
append_tombstone faults lsn item w = append_line faults (tombstone_line lsn item) w

abbrev switch_generation : ℕ → ℕ → Result (Unit {0}) → CanonicalWal → Result ℕ × CanonicalWal
switch_generation lsn generation (ok _) w = (ok lsn, record w { generation = generation })
switch_generation lsn generation (err e) w = (err e, w)

-- `appendRotate`: the generation is switched only if the line has been written.
unfoldable pub append_rotate : Faults → ℕ → CanonicalWal → Result ℕ × CanonicalWal
unfolding append_line
append_rotate faults generation w =
    let lsn = w.next_lsn in
    let (r, w') =
      append_line faults (rotate_line lsn generation) (record w { next_lsn = w.next_lsn + 1 }) in
    switch_generation lsn generation r w'

-- `#listGenerationFiles`
unfoldable pub list_files : Faults → CanonicalWal → List WalFile
list_files faults w =
    if faults.unlistable then [] else list_generation_files w.revoker_id w.directory
