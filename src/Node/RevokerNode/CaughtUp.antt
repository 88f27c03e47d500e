-- ===== src/Node/RevokerNode/CaughtUp.antt =====
-- The serving gate of a `RevokerNode` of packages/node/src/revokerNode.ts over a run of events.
use express_token_revoker.Prelude.{
  branch, ◌≡◌, refl, Bool, true, false, inl, inr, none, List, [], ◌∷◌, arith, Bool-cases,
  if◌then◌else◌,
}
use express_token_revoker.Node.RevokerNode.{
  Parts, RevokerNode, schedule_rebootstrap, on_rebootstrap_required, shutdown_end,
}
use express_token_revoker.Node.RevokerNode.Run.{
  Event, timer_fires, snapshot_ends, engine_stops, revoker_destroyed, revoker_created,
  keepalive_received, core_rotates, rebootstrap_required, shutdown_called, shutdown_goes_on, handle,
  run,
}
use express_token_revoker.Node.RevokerNode.ClosedInstall.{
  IsClosed, is_creation, is_keepalive, has_keepalive, caught_up, schedule-IsClosed,
  snapshot-IsClosed,
}
use express_token_revoker.Node.RevokerNode.Closed.{
  created-IsClosed, destroyed-IsClosed, fire-IsClosed, keepalive-IsClosed, no_engine-IsClosed,
  rotation-IsClosed, shutdown-IsClosed, stopped-IsClosed, weaken-IsClosed,
}

module _ {R E : Type 0} (parts : Parts R E) where
  -- What neither creates a revoker nor is a keepalive, and a keepalive while no engine runs.
  handle-IsClosed :
      (waits : Bool) (e : Event R) (n : RevokerNode R E)
      → is_creation e ≡ false
      → (if waits then false else is_keepalive e) ≡ false
      → IsClosed waits n
      → IsClosed waits (handle parts e n)
  unfolding handle on_rebootstrap_required shutdown_end
  handle-IsClosed waits timer_fires n c k h = fire-IsClosed waits n.timer n h
  handle-IsClosed waits (snapshot_ends faults r) n c k h =
      snapshot-IsClosed waits faults r n.bootstrap n h
  handle-IsClosed waits (engine_stops faults) n c k h =
      stopped-IsClosed waits faults n.bootstrap n h
  handle-IsClosed waits (revoker_destroyed faults refused) n c k h =
      destroyed-IsClosed waits faults refused n.bootstrap n h
  handle-IsClosed waits (revoker_created r) n c k h = absurd (ground (arith, c))
  handle-IsClosed true keepalive_received n c k (closed, quiet) =
      keepalive-IsClosed n.engine n quiet (closed, quiet)
  handle-IsClosed false keepalive_received n c k h = absurd (ground (arith, k))
  handle-IsClosed waits (core_rotates refused) n c k h = rotation-IsClosed waits parts refused n h
  handle-IsClosed waits rebootstrap_required n c k h =
      branch (IsClosed waits) n.shutting_down n (schedule_rebootstrap 0 n) h
        (schedule-IsClosed waits 0 n h)
  handle-IsClosed waits shutdown_called n c k h = shutdown-IsClosed waits n h
  handle-IsClosed waits shutdown_goes_on n c k h =
      branch (IsClosed waits) n.shutting_down (record n { engine = none }) n
        (no_engine-IsClosed waits n h) h

  creation-IsClosed :
      (e : Event R) (n : RevokerNode R E)
      → is_creation e ≡ true
      → IsClosed true n
      → IsClosed false (handle parts e n)
  unfolding handle
  creation-IsClosed (revoker_created r) n c h =
      created-IsClosed parts r n.bootstrap n (weaken-IsClosed n h)
  creation-IsClosed timer_fires n c h = absurd (ground (arith, c))
  creation-IsClosed (snapshot_ends faults r) n c h = absurd (ground (arith, c))
  creation-IsClosed (engine_stops faults) n c h = absurd (ground (arith, c))
  creation-IsClosed (revoker_destroyed faults refused) n c h = absurd (ground (arith, c))
  creation-IsClosed keepalive_received n c h = absurd (ground (arith, c))
  creation-IsClosed (core_rotates refused) n c h = absurd (ground (arith, c))
  creation-IsClosed rebootstrap_required n c h = absurd (ground (arith, c))
  creation-IsClosed shutdown_called n c h = absurd (ground (arith, c))
  creation-IsClosed shutdown_goes_on n c h = absurd (ground (arith, c))

  any_creation-IsClosed :
      (e : Event R) (n : RevokerNode R E)
      → is_keepalive e ≡ false
      → IsClosed false n
      → IsClosed false (handle parts e n)
  unfolding handle
  any_creation-IsClosed (revoker_created r) n k h = created-IsClosed parts r n.bootstrap n h
  any_creation-IsClosed timer_fires n k h = handle-IsClosed false timer_fires n refl k h
  any_creation-IsClosed (snapshot_ends faults r) n k h =
      handle-IsClosed false (snapshot_ends faults r) n refl k h
  any_creation-IsClosed (engine_stops faults) n k h =
      handle-IsClosed false (engine_stops faults) n refl k h
  any_creation-IsClosed (revoker_destroyed faults refused) n k h =
      handle-IsClosed false (revoker_destroyed faults refused) n refl k h
  any_creation-IsClosed keepalive_received n k h = absurd (ground (arith, k))
  any_creation-IsClosed (core_rotates refused) n k h =
      handle-IsClosed false (core_rotates refused) n refl k h
  any_creation-IsClosed rebootstrap_required n k h =
      handle-IsClosed false rebootstrap_required n refl k h
  any_creation-IsClosed shutdown_called n k h = handle-IsClosed false shutdown_called n refl k h
  any_creation-IsClosed shutdown_goes_on n k h = handle-IsClosed false shutdown_goes_on n refl k h

  late-IsClosed :
      (es : List (Event R)) (n : RevokerNode R E)
      → has_keepalive es ≡ false
      → IsClosed false n
      → (run parts es n).catching_up ≡ true
  unfolding run
  late-IsClosed [] n k h = h
  late-IsClosed (e ∷ es) n k h =
      late-IsClosed es (handle parts e n) (ground (arith, k))
        (any_creation-IsClosed e n (ground (arith, k)) h)

  pub run-IsClosed :
      (es : List (Event R)) (n : RevokerNode R E)
      → caught_up es ≡ false
      → IsClosed true n
      → (run parts es n).catching_up ≡ true
  unfolding run
  run-IsClosed [] n k (closed, quiet) = closed
  run-IsClosed (e ∷ es) n k h = elim (Bool-cases (is_creation e)) [
    | inl creates ↦
        late-IsClosed es (handle parts e n) (ground (arith, k, creates))
          (creation-IsClosed e n creates h)
    | inr keeps ↦
        run-IsClosed es (handle parts e n) (ground (arith, k, keeps))
          (handle-IsClosed true e n keeps refl h)
  ]
