-- ===== src/Core/Revoker/Methods.antt =====
-- The methods of `Revoker` of packages/core/src/index.ts that pass a call on to its manager.
use express_token_revoker.Prelude.{Bool, none, some, if◌then◌else◌}
use express_token_revoker.Prelude.Result.{Result, ok, err, internal_error}
use express_token_revoker.Prelude.Text.{Text}
use express_token_revoker.Core.FilterManager
use express_token_revoker.Core.FilterManager.{Backups, FilterManager}
use express_token_revoker.Core.FilterManager.Lifecycle.{begin_shutdown, Restores}
use express_token_revoker.Core.FilterManager.Lifecycle
use express_token_revoker.Core.Revoker.{Revoker}

module _ {B : Type 0} where
  -- The guards of the methods that pass a call on to the manager.
  abbrev pub passed_on :
      {A : Type 0}
      → (FilterManager B → Result A × FilterManager B)
      → Revoker B
      → Result A × Revoker B
  passed_on call r =
      if r.grpc_enabled then (err internal_error, r) else elim r.bloom_filter_manager [
        | none ↦ (err internal_error, r)
        | some s ↦
            let (answer, s') = call s in (answer, record r { bloom_filter_manager = some s' })
      ]

  unfoldable pub add : Backups B → Text → Revoker B → Result (Unit {0}) × Revoker B
  unfolding FilterManager.add
  add backups item r = passed_on (FilterManager.add backups item) r

  unfoldable pub has : Text → Revoker B → Result Bool × Revoker B
  unfolding FilterManager.has
  has item r = passed_on (FilterManager.has item) r

  unfoldable pub apply_entry : Backups B → Text → Revoker B → Result (Unit {0}) × Revoker B
  unfolding FilterManager.apply_entry
  apply_entry backups item r = passed_on (FilterManager.apply_entry backups item) r

  -- `rotateOnDemand` up to its await
  unfoldable pub rotate_on_demand : Backups B → Revoker B → Result (Unit {0}) × Revoker B
  unfolding Lifecycle.rotate_on_demand
  rotate_on_demand backups r = passed_on (Lifecycle.rotate_on_demand backups) r

  -- `resetAndRestore` and `resetAndClearData`
  unfoldable pub reset_and_restore : Restores B → Revoker B → Result (Unit {0}) × Revoker B
  unfolding Lifecycle.reset_and_restore
  reset_and_restore restores r = passed_on (λ s. (ok tt, Lifecycle.reset_and_restore restores s)) r

  unfoldable pub reset_and_clear_data : Restores B → Revoker B → Result (Unit {0}) × Revoker B
  unfolding Lifecycle.reset_and_clear_data
  reset_and_clear_data restores r =
      passed_on (λ s. (ok tt, Lifecycle.reset_and_clear_data restores s)) r
