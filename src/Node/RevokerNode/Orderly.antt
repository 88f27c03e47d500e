-- ===== src/Node/RevokerNode/Orderly.antt =====
-- Rebootstraps of a `RevokerNode` of packages/node/src/revokerNode.ts: one at a time, with bounded
-- delays.
use express_token_revoker.Prelude.{
  branch, ◌≡◌, refl, ap, ◌∙◌, Bool, true, false, not, ◌&&◌, inl, inr, Option, none, some, List, [],
  ◌∷◌, arith, Bool-cases, if◌then◌else◌,
}
use express_token_revoker.Prelude.Result.{Result, ok, err}
use express_token_revoker.Node.StateFile.{SyncState, read}
use express_token_revoker.Node.RevokerNode.{
  NodeConfig, NodeFiles, Parts, Running, Bootstrap, no_bootstrap, fetching, stopping, destroying,
  creating, resuming, RevokerNode, schedule_rebootstrap, on_core_rotation, on_rebootstrap_required,
  keepalive, shutdown_begin, shutdown_end, driven_by, marked,
}
use express_token_revoker.Node.RevokerNode.Steps.{
  InstallFaults, engine_stopped_from, revoker_destroyed_from, revoker_created_from, install_files,
  wrote_blobs, install, start_engine, init, init_from, new_node, blobs_present,
}
use express_token_revoker.Node.RevokerNode.Run.{
  Event, timer_fires, snapshot_ends, engine_stops, revoker_destroyed, revoker_created,
  keepalive_received, core_rotates, rebootstrap_required, shutdown_called, shutdown_goes_on, handle,
  run,
}
use express_token_revoker.Node.RevokerNode.OrderlyInstall.{
  IsTimer, is_snapshot_bootstrap, is_set, IsOrderly, schedule-IsOrderly, fire-IsOrderly,
  failed-IsOrderly, done-IsOrderly, installed-IsOrderly, drop_revoker-IsOrderly, snapshot-IsOrderly,
}

module _ {R E : Type 0} where
  engine_stopped-IsOrderly :
      (faults : InstallFaults) (p : Bootstrap) (n : RevokerNode R E)
      → n.bootstrap ≡ p
      → IsOrderly n
      → IsOrderly (engine_stopped_from faults p n)
  unfolding engine_stopped_from
  engine_stopped-IsOrderly faults (stopping c snapshot) n here (flag, queued, timer) =
      drop_revoker-IsOrderly faults c snapshot n.revoker (record n { engine = none })
        (flag ∙ ap is_snapshot_bootstrap here, queued, timer)
  engine_stopped-IsOrderly faults no_bootstrap n here h = h
  engine_stopped-IsOrderly faults (fetching c) n here h = h
  engine_stopped-IsOrderly faults (destroying c snapshot) n here h = h
  engine_stopped-IsOrderly faults (creating c snapshot) n here h = h
  engine_stopped-IsOrderly faults (resuming state) n here h = h

  destroyed-IsOrderly :
      (faults : InstallFaults) (refused : Bool) (p : Bootstrap) (n : RevokerNode R E)
      → n.bootstrap ≡ p
      → IsOrderly n
      → IsOrderly (revoker_destroyed_from faults p refused n)
  unfolding revoker_destroyed_from install
  destroyed-IsOrderly faults true (destroying c snapshot) n here (flag, queued, timer) =
      failed-IsOrderly c n timer
  destroyed-IsOrderly faults false (destroying c snapshot) n here (flag, queued, timer) =
      installed-IsOrderly c snapshot (wrote_blobs faults snapshot)
        (install_files faults snapshot n.files) n
        (flag ∙ ap is_snapshot_bootstrap here, queued, timer)
  destroyed-IsOrderly faults refused no_bootstrap n here h = h
  destroyed-IsOrderly faults refused (fetching c) n here h = h
  destroyed-IsOrderly faults refused (stopping c snapshot) n here h = h
  destroyed-IsOrderly faults refused (creating c snapshot) n here h = h
  destroyed-IsOrderly faults refused (resuming state) n here h = h

  created-IsOrderly :
      (parts : Parts R E) (r : Result R) (p : Bootstrap) (n : RevokerNode R E)
      → n.bootstrap ≡ p
      → IsOrderly n
      → IsOrderly (revoker_created_from parts p r n)
  unfolding revoker_created_from
  created-IsOrderly parts (err e) (creating c snapshot) n here (flag, queued, timer) =
      failed-IsOrderly c n timer
  created-IsOrderly parts (ok r) (creating c snapshot) n here (flag, queued, timer) =
      done-IsOrderly c (start_engine parts r snapshot.last_backup_lsn snapshot.generation n) timer
  created-IsOrderly parts (err e) (resuming state) n here (flag, queued, timer) =
      (flag ∙ ap is_snapshot_bootstrap here, queued, timer)
  created-IsOrderly parts (ok r) (resuming state) n here (flag, queued, timer) =
      (flag ∙ ap is_snapshot_bootstrap here, queued, timer)
  created-IsOrderly parts r no_bootstrap n here h = h
  created-IsOrderly parts r (fetching c) n here h = h
  created-IsOrderly parts r (stopping c snapshot) n here h = h
  created-IsOrderly parts r (destroying c snapshot) n here h = h

  keepalive-IsOrderly :
      (e : Option (Running E)) (n : RevokerNode R E) → IsOrderly n → IsOrderly (keepalive e n)
  unfolding keepalive
  keepalive-IsOrderly none n h = h
  keepalive-IsOrderly (some e) n h = elim (Bool-cases e.is_stopped) [
    | inl stopped ↦ simp stopped h
    | inr live ↦ simp live h
  ]

  rotation-IsOrderly :
      (parts : Parts R E) (refused : Bool) (n : RevokerNode R E)
      → IsOrderly n
      → IsOrderly (on_core_rotation parts refused n)
  unfolding on_core_rotation
  rotation-IsOrderly parts refused n h =
      let marked_one = schedule_rebootstrap 0 (marked refused n) in
      branch IsOrderly n.shutting_down n (if driven_by parts n.engine then n else marked_one) h (
        branch IsOrderly (driven_by parts n.engine) n marked_one h
          (schedule-IsOrderly 0 (marked refused n) (inl refl) h))

  shutdown-IsOrderly : (n : RevokerNode R E) → IsOrderly n → IsOrderly (shutdown_begin n)
  unfolding shutdown_begin
  shutdown-IsOrderly n (flag, queued, timer) = elim (Bool-cases n.shutting_down) [
    | inl down ↦ simp down (flag, queued, timer)
    | inr up ↦ simp up (flag, (λ h. absurd (ground (arith, h))), tt)
  ]

  handle-IsOrderly :
      (parts : Parts R E) (e : Event R) (n : RevokerNode R E)
      → IsOrderly n
      → IsOrderly (handle parts e n)
  unfolding handle on_rebootstrap_required shutdown_end
  handle-IsOrderly parts timer_fires n h = fire-IsOrderly n.timer n h
  handle-IsOrderly parts (snapshot_ends faults r) n h =
      snapshot-IsOrderly faults r n.bootstrap n refl h
  handle-IsOrderly parts (engine_stops faults) n h =
      engine_stopped-IsOrderly faults n.bootstrap n refl h
  handle-IsOrderly parts (revoker_destroyed faults refused) n h =
      destroyed-IsOrderly faults refused n.bootstrap n refl h
  handle-IsOrderly parts (revoker_created r) n h = created-IsOrderly parts r n.bootstrap n refl h
  handle-IsOrderly parts keepalive_received n h = keepalive-IsOrderly n.engine n h
  handle-IsOrderly parts (core_rotates refused) n h = rotation-IsOrderly parts refused n h
  handle-IsOrderly parts rebootstrap_required n h =
      branch IsOrderly n.shutting_down n (schedule_rebootstrap 0 n) h
        (schedule-IsOrderly 0 n (inl refl) h)
  handle-IsOrderly parts shutdown_called n h = shutdown-IsOrderly n h
  handle-IsOrderly parts shutdown_goes_on n h =
      branch IsOrderly n.shutting_down (record n { engine = none }) n h h

  run-IsOrderly :
      (parts : Parts R E) (es : List (Event R)) (n : RevokerNode R E)
      → IsOrderly n
      → IsOrderly (run parts es n)
  unfolding run
  run-IsOrderly parts [] n h = h
  run-IsOrderly parts (e ∷ es) n h =
      run-IsOrderly parts es (handle parts e n) (handle-IsOrderly parts e n h)

init_from-IsOrderly :
    (R E : Type 0) (state : Option SyncState) (config : NodeConfig) (files : NodeFiles)
    → IsOrderly (init_from state (new_node {R = R} {E = E} config files))
unfolding init_from
init_from-IsOrderly R E none config files = (refl, (λ h. absurd (ground (arith, h))), tt)
init_from-IsOrderly R E (some state) config files =
    elim (Bool-cases (not state.dirty && blobs_present files)) [
      | inl clean ↦ rw clean (refl, (λ h. refl), tt)
      | inr stale ↦ rw stale (refl, (λ h. absurd (ground (arith, h))), tt)
    ]

-- Whatever happens to a node after `init`: the flag of a running bootstrap is right, no rebootstrap
-- is queued while one runs, and a queued one comes at once or after 2 to 30 seconds.
pub one_rebootstrap :
    {R E : Type 0} (parts : Parts R E) (config : NodeConfig) (files : NodeFiles)
    (es : List (Event R))
    → let w = run parts es (init config files) in
      (w.bootstrapping ≡ is_snapshot_bootstrap w.bootstrap)
      × (is_set w.timer ≡ true → w.bootstrapping ≡ false)
      × IsTimer w.timer
unfolding init
one_rebootstrap {R = R} {E = E} parts config files es =
    run-IsOrderly parts es (init config files)
      (init_from-IsOrderly R E (read files.state) config files)
