-- ===== src/Core/FilterManager/Lifecycle.antt =====
-- The life cycle of a `BloomFilterManager` of packages/core/src/Bloom-filter-manager.ts: its
-- rotation interval, resets and the shutdown.
use express_token_revoker.Prelude.{
  ◌≡◌, refl, true, false, Option, none, some, List, [], ◌∷◌, arith, inl, inr, if◌then◌else◌,
}
use express_token_revoker.Prelude.Result.{Result, ok, err, internal_error, Result-cases}
use express_token_revoker.Prelude.Text.{Text}
use express_token_revoker.Core.BloomFilter.{BloomFilter, new_filter}
use express_token_revoker.Core.FilterManager.{
  Backups, FilterManager, no_counts, add, apply_entry, has, rotate_begin, rotate_end, destroy,
  check_item,
}
use express_token_revoker.Core.FilterManager.Run.{
  Call, add_token, apply_token, look_up, begin_rotation, end_rotation, handle,
}
use express_token_revoker.Core.FilterManager.Health.{is_ok}

-- What a reset asks of the backup manager: the filters that it restores, if there is a backup, and
-- the end of its files.
pub record Restores (B : Type 0) : Type 0 where
  pub restore : B → Option (Option BloomFilter × Option BloomFilter)
  pub delete_files : B → B

abbrev pub or_kept : Option BloomFilter → Option BloomFilter → Option BloomFilter
or_kept none kept = kept
or_kept (some f) kept = some f

module _ {B : Type 0} where
  unfoldable pub start_rotation_interval : FilterManager B → FilterManager B
  start_rotation_interval s = record s { has_interval = true }

  unfoldable pub stop_rotation_interval : FilterManager B → FilterManager B
  stop_rotation_interval s = record s { has_interval = false }

  abbrev pub restored :
      Option (Option BloomFilter × Option BloomFilter) → FilterManager B → FilterManager B
  restored none s = s
  restored (some (current, previous)) s = record s {
    current = or_kept current s.current;
    previous = or_kept previous s.previous;
  }

  abbrev pub restored_by : Restores B → Option B → FilterManager B → FilterManager B
  restored_by restores none s = s
  restored_by restores (some b) s = restored (restores.restore b) s

  -- `#restoreBackup`
  unfoldable pub restore_backup : Restores B → FilterManager B → FilterManager B
  restore_backup restores s = restored_by restores s.backup s

  -- `resetAndRestore`, with the mutex taken; the backup's own interval is its manager's
  unfoldable pub reset_and_restore : Restores B → FilterManager B → FilterManager B
  unfolding restore_backup start_rotation_interval
  reset_and_restore restores s = restore_backup restores (
      start_rotation_interval (record s {
        previous = none;
        current = some (new_filter s.filter_bits s.filter_hashes);
        current_insertions = 0;
        counters = no_counts;
      }))

  abbrev pub cleared : Restores B → FilterManager B → FilterManager B
  cleared restores s = record s {
    backup = elim s.backup [ none ↦ none | some b ↦ some (restores.delete_files b) ];
    has_rotated = false;
    current_insertions = 0;
  }

  -- `resetAndClearData`
  unfoldable pub reset_and_clear_data : Restores B → FilterManager B → FilterManager B
  unfolding reset_and_restore
  reset_and_clear_data restores s = reset_and_restore restores (cleared restores s)

  -- `rotateOnDemand` up to its await and from there on
  unfoldable pub rotate_on_demand :
      Backups B → FilterManager B → Result (Unit {0}) × FilterManager B
  unfolding stop_rotation_interval rotate_begin
  rotate_on_demand backups s =
      if s.is_shutting_down
      then (err internal_error, s)
      else (ok tt, rotate_begin backups (stop_rotation_interval s))

  unfoldable pub rotated_on_demand : Backups B → FilterManager B → FilterManager B
  unfolding rotate_end start_rotation_interval
  rotated_on_demand backups s = start_rotation_interval (rotate_end backups s)

  -- `shutdown` up to its first await; what follows it is `destroy`, after the backup's last flush
  unfoldable pub begin_shutdown : FilterManager B → FilterManager B
  begin_shutdown s = record s { is_shutting_down = true }

-- The calls that reach a manager over its whole life; the resets, the rotations on demand and the
-- shutdown included, each from where it has the mutex.
pub data LifeCall : Type 0 where
  plain : Call → LifeCall
  restore_reset clear_reset begin_on_demand end_on_demand interval_started interval_stopped :
      LifeCall
  shutdown_begins destroyed : LifeCall

module _ {B : Type 0} (backups : Backups B) (restores : Restores B) where
  unfoldable pub handle_life : LifeCall → FilterManager B → FilterManager B
  unfolding handle reset_and_restore reset_and_clear_data rotate_on_demand rotated_on_demand
      start_rotation_interval stop_rotation_interval begin_shutdown destroy
  handle_life (plain c) s = handle backups c s
  handle_life restore_reset s = reset_and_restore restores s
  handle_life clear_reset s = reset_and_clear_data restores s
  handle_life begin_on_demand s = (rotate_on_demand backups s).1
  handle_life end_on_demand s = rotated_on_demand backups s
  handle_life interval_started s = start_rotation_interval s
  handle_life interval_stopped s = stop_rotation_interval s
  handle_life shutdown_begins s = begin_shutdown s
  handle_life destroyed s = destroy s

  unfoldable pub run_life : List LifeCall → FilterManager B → FilterManager B
  unfolding handle_life
  run_life [] s = s
  run_life (c ∷ cs) s = run_life cs (handle_life c s)

abbrev IsClosed : {B : Type 0} → FilterManager B → Type 0
IsClosed s = s.is_shutting_down ≡ true

check_item-IsClosed :
    {B : Type 0} (item : Text) (s : FilterManager B)
    → IsClosed s
    → is_ok (check_item item s) ≡ false
unfolding check_item
check_item-IsClosed item s closed = ground (arith, closed)

module _ {B : Type 0} (backups : Backups B) where
  add-IsClosed :
      (item : Text) (s : FilterManager B)
      → IsClosed s
      → (is_ok (add backups item s).0 ≡ false) × ((add backups item s).1 ≡ s)
  unfolding add
  add-IsClosed item s closed = elim (Result-cases (check_item item s)) [
    | inl (e, refused) ↦ rw (refused, add) (refl, refl)
    | inr (_, valid) ↦
        let failed : is_ok (check_item item s) ≡ false = check_item-IsClosed item s closed in
        let never = rw valid at failed in absurd (ground (arith, never))
  ]

  apply_entry-IsClosed :
      (item : Text) (s : FilterManager B)
      → IsClosed s
      → (is_ok (apply_entry backups item s).0 ≡ false) × ((apply_entry backups item s).1 ≡ s)
  unfolding apply_entry
  apply_entry-IsClosed item s closed = elim (Result-cases (check_item item s)) [
    | inl (e, refused) ↦ rw (refused, apply_entry) (refl, refl)
    | inr (_, valid) ↦
        let failed : is_ok (check_item item s) ≡ false = check_item-IsClosed item s closed in
        let never = rw valid at failed in absurd (ground (arith, never))
  ]

  handle-IsClosed : (c : Call) (s : FilterManager B) → IsClosed s → IsClosed (handle backups c s)
  unfolding handle has rotate_begin rotate_end
  handle-IsClosed (add_token item) s closed = rw ((add-IsClosed item s closed).1) closed
  handle-IsClosed (apply_token item) s closed = rw ((apply_entry-IsClosed item s closed).1) closed
  handle-IsClosed (look_up item) s closed = ground (arith, closed)
  handle-IsClosed begin_rotation s closed = ground (arith, closed)
  handle-IsClosed end_rotation s closed = ground (arith, closed)

module _ {B : Type 0} (backups : Backups B) (restores : Restores B) where
  restored-IsClosed :
      (o : Option (Option BloomFilter × Option BloomFilter)) (s : FilterManager B)
      → IsClosed s
      → IsClosed (restored o s)
  restored-IsClosed none s closed = closed
  restored-IsClosed (some (current, previous)) s closed = closed

  restored_by-IsClosed :
      (b : Option B) (s : FilterManager B) → IsClosed s → IsClosed (restored_by restores b s)
  restored_by-IsClosed none s closed = closed
  restored_by-IsClosed (some b) s closed = restored-IsClosed (restores.restore b) s closed

  reset-IsClosed : (s : FilterManager B) → IsClosed s → IsClosed (reset_and_restore restores s)
  unfolding reset_and_restore restore_backup start_rotation_interval
  reset-IsClosed s closed = restored_by-IsClosed s.backup _ closed

  handle_life-IsClosed :
      (c : LifeCall) (s : FilterManager B)
      → IsClosed s
      → IsClosed (handle_life backups restores c s)
  unfolding handle_life reset_and_clear_data rotate_on_demand rotated_on_demand
      start_rotation_interval stop_rotation_interval begin_shutdown destroy
  handle_life-IsClosed (plain c) s closed = handle-IsClosed backups c s closed
  handle_life-IsClosed restore_reset s closed = reset-IsClosed s closed
  handle_life-IsClosed clear_reset s closed = reset-IsClosed (cleared restores s) closed
  handle_life-IsClosed begin_on_demand s closed = ground (arith, closed)
  handle_life-IsClosed end_on_demand s closed = handle-IsClosed backups end_rotation s closed
  handle_life-IsClosed interval_started s closed = closed
  handle_life-IsClosed interval_stopped s closed = closed
  handle_life-IsClosed shutdown_begins s closed = refl
  handle_life-IsClosed destroyed s closed = refl

  run_life-IsClosed :
      (cs : List LifeCall) (s : FilterManager B)
      → IsClosed s
      → IsClosed (run_life backups restores cs s)
  unfolding run_life
  run_life-IsClosed [] s closed = closed
  run_life-IsClosed (c ∷ cs) s closed =
      run_life-IsClosed cs (handle_life backups restores c s) (handle_life-IsClosed c s closed)

-- The manager refuses to write the item, and is left as it was.
abbrev pub Refuses : {B : Type 0} → Backups B → Text → FilterManager B → Type 0
Refuses backups item s =
    (is_ok (add backups item s).0 ≡ false)
    × ((add backups item s).1 ≡ s)
    × (is_ok (apply_entry backups item s).0 ≡ false)
    × ((apply_entry backups item s).1 ≡ s)

IsClosed-Refuses :
    {B : Type 0} (backups : Backups B) (item : Text) (s : FilterManager B)
    → IsClosed s
    → Refuses backups item s
IsClosed-Refuses backups item s closed =
    let (refused, same) = add-IsClosed backups item s closed in
    let (refused', same') = apply_entry-IsClosed backups item s closed in
    (refused, same, refused', same')

-- A manager that has begun to shut down fails closed, and so does a destroyed one: after any calls,
-- resets, rotations on demand and rotations that end late included, `add` and `applyEntry` report
-- an error for every item, and change nothing.
pub shutdown_fails_closed :
    {B : Type 0} (backups : Backups B) (restores : Restores B) (item : Text) (cs : List LifeCall)
    (s : FilterManager B)
    → Refuses backups item (run_life backups restores cs (begin_shutdown s))
      × Refuses backups item (run_life backups restores cs (destroy s))
unfolding begin_shutdown destroy
shutdown_fails_closed backups restores item cs s = (
  IsClosed-Refuses backups item (run_life backups restores cs (begin_shutdown s))
      (run_life-IsClosed backups restores cs (begin_shutdown s) refl),
  IsClosed-Refuses backups item (run_life backups restores cs (destroy s))
      (run_life-IsClosed backups restores cs (destroy s) refl),
)
