-- ===== src/Node/RevokerNode/Run.antt =====
-- What may happen to a `RevokerNode` of packages/node/src/revokerNode.ts after `init` was called.
use express_token_revoker.Prelude.{Bool, List, [], ◌∷◌}
use express_token_revoker.Prelude.Result.{Result}
use express_token_revoker.Node.RevokerNode.{
  Snapshot, Parts, RevokerNode, fire, on_core_rotation, on_rebootstrap_required, keepalive,
  shutdown_begin, shutdown_end,
}
use express_token_revoker.Node.RevokerNode.Steps.{
  InstallFaults, snapshot_from, engine_stopped_from, revoker_destroyed_from, revoker_created_from,
}

pub data Event (R : Type 0) : Type 0 where
  timer_fires : Event R
  snapshot_ends : InstallFaults → Result Snapshot → Event R
  engine_stops : InstallFaults → Event R
  revoker_destroyed : InstallFaults → Bool → Event R
  revoker_created : Result R → Event R
  keepalive_received : Event R
  core_rotates : Bool → Event R
  rebootstrap_required : Event R
  shutdown_called : Event R
  shutdown_goes_on : Event R

module _ {R E : Type 0} (parts : Parts R E) where
  unfoldable pub handle : Event R → RevokerNode R E → RevokerNode R E
  handle timer_fires n = fire n.timer n
  handle (snapshot_ends faults r) n = snapshot_from faults n.bootstrap r n
  handle (engine_stops faults) n = engine_stopped_from faults n.bootstrap n
  handle (revoker_destroyed faults refused) n = revoker_destroyed_from faults n.bootstrap refused n
  handle (revoker_created r) n = revoker_created_from parts n.bootstrap r n
  handle keepalive_received n = keepalive n.engine n
  handle (core_rotates refused) n = on_core_rotation parts refused n
  handle rebootstrap_required n = on_rebootstrap_required n
  handle shutdown_called n = shutdown_begin n
  handle shutdown_goes_on n = shutdown_end n

  unfoldable pub run : List (Event R) → RevokerNode R E → RevokerNode R E
  unfolding handle
  run [] n = n
  run (e ∷ es) n = run es (handle e n)
