-- ===== src/Core/FilterManager.antt =====
-- The class `BloomFilterManager` of packages/core/src/Bloom-filter-manager.ts. The state is its
-- fields; what the backup manager keeps is of a type `B`.
pub mod Run
pub mod Window
pub mod Recall
pub mod Health
pub mod Lifecycle
use express_token_revoker.Prelude.{
  ℕ, ◌+◌, ◌*◌, Bool, true, false, not, ◌&&◌, ◌||◌, ◌≡◌, refl, Option, none, some, List, [], ◌∷◌,
  leb, ltb, ◌==◌, if◌then◌else◌, length,
}
use express_token_revoker.Prelude.Result.{Error, Result, ok, err, internal_error, validation_error}
use express_token_revoker.Prelude.Text.{Text, codes}
use express_token_revoker.Core.BloomFilter.{BloomFilter, new_filter}
use express_token_revoker.Core.BloomFilter

-- The parts of `BloomFilterBackupManager` that the manager calls. `backup_rotate` may fail, which
-- the manager only logs.
pub record Backups (B : Type 0) : Type 0 where
  pub backup_item : Text → B → Result (Unit {0}) × B
  pub backup_rotate : BloomFilter → B → B
  pub restart_interval : BloomFilter → B → B

pub record Counters : Type 0 where
  pub add_succeeded : ℕ
  pub add_failed : ℕ
  pub checks : ℕ
  pub hits : ℕ
  pub rotations : ℕ
  pub applied : ℕ
  pub applied_saturation_warned : ℕ

abbrev pub no_counts : Counters
no_counts = record {
  add_succeeded = 0;
  add_failed = 0;
  checks = 0;
  hits = 0;
  rotations = 0;
  applied = 0;
  applied_saturation_warned = 0;
}

-- `filter_bits` and `filter_hashes` are the numbers that `withTargetError` computes from `numItems`
-- and `fpRate` in floating point; `is_rotating` is the mutex.
pub record FilterManager (B : Type 0) : Type 0 where
  pub num_items : ℕ
  pub filter_bits : ℕ
  pub filter_hashes : ℕ
  pub previous : Option BloomFilter
  pub current : Option BloomFilter
  pub has_rotated : Bool
  pub current_insertions : ℕ
  pub is_shutting_down : Bool
  pub is_rotating : Bool
  pub has_interval : Bool
  pub backup : Option B
  pub counters : Counters

abbrev pub max_saturation_ratio : ℕ
max_saturation_ratio = 10

abbrev pub max_item_length : ℕ
max_item_length = 4096

-- The white space and the line ends that `String.prototype.trim` removes.
abbrev pub is_space : ℕ → Bool
is_space c =
    (leb 9 c && leb c 13)
    || (c == 32)
    || (c == 160)
    || (c == 5760)
    || (leb 8192 c && leb c 8202)
    || (c == 8232)
    || (c == 8233)
    || (c == 8239)
    || (c == 8287)
    || (c == 12288)
    || (c == 65279)

-- `item.trim() === ''`
unfoldable pub is_blank : Text → Bool
is_blank [] = true
is_blank (c ∷ s) = is_space c && is_blank s

-- `/[\r\n\0]/.test(item)`
unfoldable pub has_breaks : Text → Bool
has_breaks [] = false
has_breaks (c ∷ s) = (c == 13) || (c == 10) || (c == 0) || has_breaks s

-- The checks of an item that `add` and `applyEntry` start with.
unfoldable pub check_item : {B : Type 0} → Text → FilterManager B → Result (Unit {0})
unfolding is_blank has_breaks
check_item item s =
    if is_blank item
    then err validation_error
    else if has_breaks item
    then err validation_error
    else if ltb max_item_length (length item)
    then err validation_error
    else if s.is_shutting_down
    then err internal_error
    else ok tt

abbrev pub is_saturated : {B : Type 0} → FilterManager B → Bool
is_saturated s = ltb (s.num_items * max_saturation_ratio) s.current_insertions

-- `this.current?.add(item)`
abbrev pub add_to : Text → Option BloomFilter → Option BloomFilter
add_to item none = none
add_to item (some f) = some (BloomFilter.add item f)

-- `this.current ? this.current.test(value) : false`
abbrev pub found_in : Text → Option BloomFilter → Bool
found_in item none = false
found_in item (some f) = BloomFilter.test item f

module _ {B : Type 0} (backups : Backups B) where
  -- `this.backupManager?.backupItem(item)`
  abbrev pub backup_item : Text → Option B → Result (Unit {0}) × Option B
  backup_item item none = (ok tt, none)
  backup_item item (some b) = let (r, b') = backups.backup_item item b in (r, some b')

  -- the `try` block of `add` and its `catch`, then what follows it
  unfoldable pub store_added :
      Result (Unit {0}) × Option B → Text → FilterManager B → Result (Unit {0}) × FilterManager B
  store_added (err e, b) item s = (
    err internal_error,
    record s {
      backup = b;
      counters = record s.counters { add_failed = s.counters.add_failed + 1 };
    },
  )
  store_added (ok _, b) item s = (
    ok tt,
    record s {
      backup = b;
      current = add_to item s.current;
      current_insertions = s.current_insertions + 1;
      counters = record s.counters { add_succeeded = s.counters.add_succeeded + 1 };
    },
  )

  unfoldable pub add : Text → FilterManager B → Result (Unit {0}) × FilterManager B
  unfolding check_item store_added
  add item s = elim (check_item item s) [
    | err e ↦ (err e, s)
    | ok _ ↦
        if is_saturated s
        then (
          err internal_error,
          record s { counters = record s.counters { add_failed = s.counters.add_failed + 1 } },
        )
        else store_added (backup_item item s.backup) item s
  ]

  unfoldable pub store_applied :
      Result (Unit {0}) × Option B → Text → FilterManager B → Result (Unit {0}) × FilterManager B
  store_applied (err e, b) item s = (err internal_error, record s { backup = b })
  store_applied (ok _, b) item s = (
    ok tt,
    record s {
      backup = b;
      current = add_to item s.current;
      current_insertions = s.current_insertions + 1;
      counters = record s.counters { applied = s.counters.applied + 1 };
    },
  )

  -- The saturation warning of `applyEntry`, which is counted.
  abbrev pub warn_saturation : FilterManager B → FilterManager B
  warn_saturation s = record s {
    counters = record s.counters {
      applied_saturation_warned =
          s.counters.applied_saturation_warned + (if is_saturated s then 1 else 0);
    };
  }

  unfoldable pub apply_entry : Text → FilterManager B → Result (Unit {0}) × FilterManager B
  unfolding check_item store_applied
  apply_entry item s = elim (check_item item s) [
    | err e ↦ (err e, s)
    | ok _ ↦ store_applied (backup_item item s.backup) item (warn_saturation s)
  ]

  -- `#rotate` up to the end of its `await` of `backupRotate`, with the mutex taken
  unfoldable pub rotate_begin : FilterManager B → FilterManager B
  rotate_begin s = if s.is_rotating then s else record s {
    is_rotating = true;
    has_rotated = true;
    backup = elim s.backup [
      | none ↦ none
      | some b ↦ some (elim s.current [ none ↦ b | some f ↦ backups.backup_rotate f b ])
    ];
  }

  -- The rest of `#rotate`, with the counter of `#rotateWithRetry`.
  unfoldable pub rotate_end : FilterManager B → FilterManager B
  rotate_end s =
      if not s.is_rotating
      then s
      else let fresh = new_filter s.filter_bits s.filter_hashes in
        record s {
          is_rotating = false;
          previous = s.current;
          current = some fresh;
          current_insertions = 0;
          backup = elim s.backup [ none ↦ none | some b ↦ some (backups.restart_interval fresh b) ];
          counters = record s.counters { rotations = s.counters.rotations + 1 };
        }

-- `has`
unfoldable pub has : {B : Type 0} → Text → FilterManager B → Result Bool × FilterManager B
unfolding is_blank
has value s =
    if is_blank value
    then (err validation_error, s)
    else let result = found_in value s.current || found_in value s.previous in
      (
        ok result,
        record s {
          counters = record s.counters {
            checks = s.counters.checks + 1;
            hits = s.counters.hits + (if result then 1 else 0);
          };
        },
      )

-- `destroy`
unfoldable pub destroy : {B : Type 0} → FilterManager B → FilterManager B
destroy s = record s {
  is_shutting_down = true;
  has_interval = false;
  backup = none;
  previous = none;
  current = none;
}
