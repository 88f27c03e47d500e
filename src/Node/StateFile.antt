-- ===== src/Node/StateFile.antt =====
-- The class `StateFile` of packages/node/src/stateFile.ts, over the parsed content of its file.
use express_token_revoker.Prelude.{ℕ, Bool, true, false, Option, none, some}

-- `SyncState` of packages/node/src/types.ts
pub record SyncState : Type 0 where
  pub last_lsn : ℕ
  pub generation : ℕ
  pub dirty : Bool

-- The content of the file as parsed JSON: a field is `none` if it is not an integer of at least 0,
-- and `dirty` tells whether the field is `true`.
pub record RawState : Type 0 where
  pub last_lsn : Option ℕ
  pub generation : Option ℕ
  pub dirty : Bool

-- The check of the fields in `read`.
abbrev pub read_fields : Option ℕ → Option ℕ → Bool → Option SyncState
read_fields none generation dirty = none
read_fields (some last_lsn) none dirty = none
read_fields (some last_lsn) (some generation) dirty =
    some (record { last_lsn = last_lsn; generation = generation; dirty = dirty })

-- `read`; a file that is missing, or cannot be read or parsed, is `none`
abbrev pub read : Option RawState → Option SyncState
read none = none
read (some raw) = read_fields raw.last_lsn raw.generation raw.dirty

-- `write`, where the file system does not refuse it
abbrev pub write : SyncState → Option RawState
write state = some (record {
  last_lsn = some state.last_lsn;
  generation = some state.generation;
  dirty = state.dirty;
})

-- `this.read() ?? { lastLsn: 0, generation: 0, dirty: false }`
abbrev pub or_zero : Option SyncState → SyncState
or_zero none = record { last_lsn = 0; generation = 0; dirty = false }
or_zero (some state) = state

-- `update({ dirty: true })` and `update({ lastLsn, generation })`, the two updates that are made
abbrev pub update_dirty : Option RawState → Option RawState
update_dirty file = write (record (or_zero (read file)) { dirty = true })

abbrev pub update_position : ℕ → ℕ → Option RawState → Option RawState
update_position last_lsn generation file =
    write (record (or_zero (read file)) { last_lsn = last_lsn; generation = generation })
