-- ===== src/Server/Coordinator.antt =====
-- The class `Coordinator` of packages/server/src/coordinator.ts. The state is its private fields,
-- the meta file, and what its listener has been given; the revoker that it wraps is of a type `R`.
pub mod Broadcast
pub mod GetSnapshot
pub mod Snapshot
use express_token_revoker.Prelude.{
  ℕ, ◌+◌, Bool, true, false, not, ◌||◌, Option, none, some, List, [], ◌∷◌, ltb, length, max,
  if◌then◌else◌,
}
use express_token_revoker.Prelude.Result.{Result, ok, err, internal_error, validation_error, ◌>>=◌}
use express_token_revoker.Prelude.Text.{Text}
use express_token_revoker.Core.FilterManager.{is_blank, has_breaks, max_item_length}
use express_token_revoker.Server.CanonicalWal.Line.{CanonicalEvent, entry, tombstone, rotate}
use express_token_revoker.Server.CanonicalWal.Wal.{
  Faults, CanonicalWal, init, last_lsn, append_entry, append_tombstone, append_rotate,
}
use express_token_revoker.Server.CanonicalWal.Read.{read_since, scan}
use express_token_revoker.Server.CanonicalWal.Truncate.{truncate_old_generations}

pub record MetaState : Type 0 where
  pub generation : ℕ
  pub last_lsn : ℕ
  pub last_backup_lsn : ℕ

-- The two kinds that the listener is given.
pub data OutboundEvent : Type 0 where
  entry_sent : (lsn generation : ℕ) (item : Text) → OutboundEvent
  rotate_sent : (lsn generation : ℕ) → OutboundEvent

-- The methods of the wrapped revoker that the coordinator calls.
pub record Revoker (R : Type 0) : Type 0 where
  pub add : Text → R → Result (Unit {0}) × R
  pub apply_entry : Text → R → Result (Unit {0}) × R

-- What the file system refuses during one call: the log's appends and deletions, the tombstone's
-- append, and the meta file's replacement.
pub record CallFaults : Type 0 where
  pub log : Faults
  pub tombstone_log : Faults
  pub unwritable_meta : Bool

-- `sent` holds the listener's events, the latest first.
pub record Coordinator (R : Type 0) : Type 0 where
  pub wal : CanonicalWal
  pub meta : MetaState
  pub meta_file : MetaState
  pub revoker : Option R
  pub has_listener : Bool
  pub sent : List OutboundEvent
  pub last_rotate_lsn : ℕ
  pub is_ready : Bool
  pub is_shutting_down : Bool

-- `itemValidationError(item) === null`
unfoldable pub is_valid_item : Text → Bool
unfolding is_blank has_breaks
is_valid_item item =
    if is_blank item
    then false
    else if ltb max_item_length (length item)
    then false
    else not (has_breaks item)

-- `this.#listener?.(event)`
abbrev pub broadcast : {R : Type 0} → OutboundEvent → Coordinator R → Coordinator R
broadcast event c = record c { sent = if c.has_listener then event ∷ c.sent else c.sent }

-- `AddResult`, without its message
pub record AddResult : Type 0 where
  pub success : Bool
  pub lsn : ℕ

module _ {R : Type 0} (revokers : Revoker R) where
  -- The end of `add` after a tombstone: one that cannot be written throws.
  unfoldable pub add_tombstoned :
      ℕ → Text → Result (Unit {0}) × CanonicalWal → Coordinator R → Result AddResult × Coordinator R
  add_tombstoned lsn item (err e, wal') c = (err e, record c { wal = wal' })
  add_tombstoned lsn item (ok _, wal') c = (
    ok (record { success = false; lsn = lsn }),
    broadcast (entry_sent lsn c.wal.generation item) (record c { wal = wal' }),
  )

  -- `add` from the call of the revoker on
  unfoldable pub add_local :
      CallFaults
      → ℕ
      → Text
      → Result (Unit {0}) × R
      → Coordinator R
      → Result AddResult × Coordinator R
  unfolding append_tombstone add_tombstoned
  add_local faults lsn item (ok _, r) c = (
    ok (record { success = true; lsn = lsn }),
    broadcast (entry_sent lsn c.wal.generation item) (record c { revoker = some r }),
  )
  add_local faults lsn item (err e, r) c =
      add_tombstoned lsn item (append_tombstone faults.tombstone_log lsn item c.wal)
        (record c { revoker = some r })

  -- `add` from `appendEntry` on.
  unfoldable pub add_logged :
      CallFaults
      → Text
      → R
      → Result ℕ × CanonicalWal
      → Coordinator R
      → Result AddResult × Coordinator R
  unfolding add_local
  add_logged faults item r (err e, wal') c = (err e, record c { wal = wal' })
  add_logged faults item r (ok lsn, wal') c =
      add_local faults lsn item (revokers.add item r) (record c { wal = wal' })

  unfoldable pub add : CallFaults → Text → Coordinator R → Result AddResult × Coordinator R
  unfolding append_entry is_valid_item add_logged
  add faults item c = if c.is_shutting_down then (err internal_error, c) else elim c.revoker [
    | none ↦ (err internal_error, c)
    | some r ↦
        if not (is_valid_item item)
        then (err validation_error, c)
        else add_logged faults item r (append_entry faults.log item c.wal) c
  ]

-- `this.#meta.write(this.#metaState)`
abbrev pub write_meta : {R : Type 0} → CallFaults → Coordinator R → Coordinator R
write_meta faults c = record c {
  meta_file = if faults.unwritable_meta then c.meta_file else c.meta;
}

module _ {R : Type 0} (other : Text → Option ℕ) where
  -- `#onCoreRotation` from `truncateOldGenerations` on: an error of it is the hook's, and the core
  -- swallows that.
  unfoldable pub rotation_truncated :
      ℕ → ℕ → Result (List Text) × CanonicalWal → Coordinator R → Coordinator R
  rotation_truncated lsn generation (err e, wal') c = record c { wal = wal' }
  rotation_truncated lsn generation (ok deleted, wal') c =
      broadcast (rotate_sent lsn generation) (record c { wal = wal'; last_rotate_lsn = lsn })

  -- `#onCoreRotation` from `appendRotate` on.
  unfoldable pub rotation_logged :
      CallFaults → ℕ → Result ℕ × CanonicalWal → Coordinator R → Coordinator R
  unfolding rotation_truncated truncate_old_generations last_lsn
  rotation_logged faults generation (err e, wal') c = record c { wal = wal' }
  rotation_logged faults generation (ok lsn, wal') c =
      let meta' : MetaState = record {
        generation = generation;
        last_lsn = last_lsn wal';
        last_backup_lsn = lsn;
      } in
      let c' = write_meta faults (record c { wal = wal'; meta = meta' }) in
      if faults.unwritable_meta
      then c'
      else rotation_truncated lsn generation
          (truncate_old_generations other faults.log c.meta.generation lsn wal') c'

  unfoldable pub on_core_rotation : CallFaults → Coordinator R → Coordinator R
  unfolding rotation_logged append_rotate
  on_core_rotation faults c =
      if not c.is_ready || c.is_shutting_down
      then c
      else let generation = c.meta.generation + 1 in
        rotation_logged faults generation (append_rotate faults.log generation c.wal) c

-- `shutdown`; if the meta file cannot be written, it throws before the revoker is let go
unfoldable pub shutdown : {R : Type 0} → CallFaults → Coordinator R → Coordinator R
unfolding last_lsn
shutdown faults c =
    if c.is_shutting_down
    then c
    else let c' = write_meta faults (record c {
      is_shutting_down = true;
      meta = record c.meta { last_lsn = last_lsn c.wal };
    }) in
      if faults.unwritable_meta then c' else record c' { revoker = none; has_listener = false }

-- The loop of `#replayCanonicalTail`.
unfoldable pub replay_events : {R : Type 0} → Revoker R → List CanonicalEvent → R → Result R
replay_events revokers [] r = ok r
replay_events revokers (entry lsn generation item ∷ es) r =
    let (done, r') = revokers.apply_entry item r in do _ ← done; replay_events revokers es r'
replay_events revokers (tombstone lsn generation item ∷ es) r = replay_events revokers es r
replay_events revokers (rotate lsn generation ∷ es) r = replay_events revokers es r

abbrev pub replay_batch_limit : ℕ
replay_batch_limit = 1000000

-- `init` of a coordinator whose meta file reads as `meta` and whose revoker starts as `r`.
unfoldable pub start :
    {R : Type 0}
    → Revoker R
    → (Text → Option ℕ)
    → CallFaults
    → MetaState
    → R
    → CanonicalWal
    → Result (Coordinator R)
unfolding scan init read_since replay_events
start revokers other faults meta r wal = do
  scanned ← scan other faults.log wal
  let last = max meta.last_lsn scanned.0
  let generation = max meta.generation scanned.1
  let wal' = init (last + 1) generation meta.last_backup_lsn wal
  tail ← read_since other faults.log meta.last_backup_lsn replay_batch_limit wal'
  r' ← replay_events revokers tail r
  let meta' : MetaState = record {
    generation = generation;
    last_lsn = last;
    last_backup_lsn = meta.last_backup_lsn;
  }
  if faults.unwritable_meta
      then err internal_error
      else ok (record {
        wal = wal';
        meta = meta';
        meta_file = meta';
        revoker = some r';
        has_listener = false;
        sent = [];
        last_rotate_lsn = 0;
        is_ready = true;
        is_shutting_down = false;
      })

-- `setListener`
unfoldable pub set_listener : {R : Type 0} → Bool → Coordinator R → Coordinator R
set_listener listener c = record c { has_listener = listener }
