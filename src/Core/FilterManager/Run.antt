-- ===== src/Core/FilterManager/Run.antt =====
-- The calls that reach a running `BloomFilterManager` of packages/core/src/Bloom-filter-manager.ts.
-- A rotation waits for its backup in the middle, and other calls may run meanwhile.
use express_token_revoker.Prelude.{ℕ, ◌+◌, List, [], ◌∷◌}
use express_token_revoker.Prelude.Text.{Text}
use express_token_revoker.Core.FilterManager.{
  Backups, FilterManager, add, apply_entry, has, rotate_begin, rotate_end,
}

pub data Call : Type 0 where
  add_token : Text → Call
  apply_token : Text → Call
  look_up : Text → Call
  begin_rotation : Call
  end_rotation : Call

module _ {B : Type 0} (backups : Backups B) where
  unfoldable pub handle : Call → FilterManager B → FilterManager B
  handle (add_token item) s = (add backups item s).1
  handle (apply_token item) s = (apply_entry backups item s).1
  handle (look_up item) s = (has item s).1
  handle begin_rotation s = rotate_begin backups s
  handle end_rotation s = rotate_end backups s

  unfoldable pub run : List Call → FilterManager B → FilterManager B
  unfolding handle
  run [] s = s
  run (c ∷ cs) s = run cs (handle c s)

abbrev pub completes : Call → ℕ
completes end_rotation = 1
completes _ = 0

-- The number of rotations that a list of calls completes, at most.
abbrev pub completed_rotations : List Call → ℕ
completed_rotations [] = 0
completed_rotations (c ∷ cs) = completes c + completed_rotations cs
