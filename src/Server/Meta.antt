-- ===== src/Server/Meta.antt =====
-- The class `Meta` of packages/server/src/meta.ts. The text of a file is of a type `T`, and the
-- runtime's `JSON` is a parameter.
pub mod Register
mod Tests
use express_token_revoker.Prelude.{ℕ, ◌≡◌, Bool, true, false, Option, none, some}
use express_token_revoker.Prelude.Result.{Result, ok, err, internal_error}
use express_token_revoker.Server.Coordinator.{MetaState}

-- A parsed value: the three fields of an object, each `none` unless `isNonNegativeInteger` holds of
-- it.
pub data Parsed : Type 0 where
  not_an_object : Parsed
  object : (generation last_lsn last_backup_lsn : Option ℕ) → Parsed

-- `JSON.stringify` of a state, and `JSON.parse`, which throws on `none`.
pub record Json (T : Type 0) : Type 0 where
  pub stringify : MetaState → T
  pub parse : T → Option Parsed

-- What is documented of the two: the text of an object parses to that object.
unfoldable pub IsFaithful : {T : Type 0} → Json T → Type 0
IsFaithful json =
    (s : MetaState)
    → json.parse (json.stringify s)
      ≡ some (object (some s.generation) (some s.last_lsn) (some s.last_backup_lsn))

-- The meta file and its temporary file.
pub record MetaFiles (T : Type 0) : Type 0 where
  pub target : Option T
  pub temp : Option T

-- The call of the file system that throws during one `write`; a text that is only partly written
-- is left in the temporary file. `short_write` is a `writeSync` that writes a part and returns its
-- size, which the code does not look at.
pub data WriteFault (T : Type 0) : Type 0 where
  no_fault at_mkdir at_open at_sync at_close at_rename : WriteFault T
  at_write short_write : T → WriteFault T

abbrev pub empty_meta_state : MetaState
empty_meta_state = record { generation = 0; last_lsn = 0; last_backup_lsn = 0 }

-- The checks of `read` on a parsed value.
unfoldable pub check_shape : Option Parsed → Result MetaState
check_shape none = err internal_error
check_shape (some not_an_object) = err internal_error
check_shape (some (object (some generation) (some last_lsn) (some last_backup_lsn))) =
    ok (record { generation = generation; last_lsn = last_lsn; last_backup_lsn = last_backup_lsn })
check_shape (some (object _ _ _)) = err internal_error

-- `read` of the file, whose reading throws if it is unreadable
unfoldable pub read_target : {T : Type 0} → Json T → Bool → Option T → Result MetaState
unfolding check_shape
read_target json unreadable none = ok empty_meta_state
read_target json true (some text) = err internal_error
read_target json false (some text) = check_shape (json.parse text)

unfoldable pub read : {T : Type 0} → Json T → Bool → MetaFiles T → Result MetaState
unfolding read_target
read json unreadable files = read_target json unreadable files.target

unfoldable pub write :
    {T : Type 0} → Json T → WriteFault T → MetaState → MetaFiles T → Result (Unit {0}) × MetaFiles T
write json at_mkdir state files = (err internal_error, files)
write json at_open state files = (err internal_error, files)
write json (at_write part) state files = (err internal_error, record files { temp = some part })
write json (short_write part) state files = (ok tt, record { target = some part; temp = none })
write json at_sync state files =
    (err internal_error, record files { temp = some (json.stringify state) })
write json at_close state files =
    (err internal_error, record files { temp = some (json.stringify state) })
write json at_rename state files =
    (err internal_error, record files { temp = some (json.stringify state) })
write json no_fault state files =
    (ok tt, record { target = some (json.stringify state); temp = none })
