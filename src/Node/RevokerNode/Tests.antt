-- ===== src/Node/RevokerNode/Tests.antt =====
-- The theorems on packages/node/src/revokerNode.ts at concrete nodes.
use express_token_revoker.Prelude.{ℕ, ◌≡◌, refl, true, false, ◌||◌, none, some, [], ◌∷◌}
use express_token_revoker.Prelude.Result.{ok, err, internal_error}
use express_token_revoker.Prelude.Text.{Text, codes, text_eq}
use express_token_revoker.Node.StateFile.{read, write}
use express_token_revoker.Node.RevokerNode.{
  Snapshot, NodeConfig, NodeFiles, Parts, init_call, timer_call, fetching, creating, RevokerNode,
  has, middleware,
}
use express_token_revoker.Node.RevokerNode.Steps.{snapshot_from, new_node, init, has_local_geometry}
use express_token_revoker.Node.RevokerNode.Run.{
  timer_fires, snapshot_ends, engine_stops, revoker_destroyed, revoker_created, keepalive_received,
  core_rotates, rebootstrap_required, shutdown_called, shutdown_goes_on, handle, run,
}
use express_token_revoker.Node.RevokerNode.OrderlyInstall.{is_snapshot_bootstrap, is_set, IsTimer}
use express_token_revoker.Node.RevokerNode.Orderly.{one_rebootstrap}
use express_token_revoker.Node.RevokerNode.Gate.{
  no_faults, fails_closed_until_caught_up, shutdown_leaves_engine, self_rotation_rebootstraps,
  bootstrap_serves,
}

-- A revoker is the one token that it holds, an engine the position that it starts from.
abbrev parts : Parts Text ℕ
parts = record {
  has = λ item r. ok (text_eq item r);
  new_engine = λ r last_lsn generation. last_lsn;
  is_externally_driven = λ e. false;
  is_connected = λ e. true;
}

abbrev config : NodeConfig
config = record { num_items = 100; fp_rate = 7; rotate_time = 1000 }

abbrev files : NodeFiles
files = record {
  current = some (1 ∷ []);
  previous = none;
  temp = none;
  state = write (record { last_lsn = 4; generation = 1; dirty = false });
}

abbrev snapshot : Snapshot
snapshot = record {
  current_blob = 1 ∷ 2 ∷ [];
  previous_blob = [];
  generation = 2;
  last_backup_lsn = 9;
  num_items = 100;
  fp_rate = 7;
  rotate_time = 1000;
}

abbrev node : RevokerNode Text ℕ
node = record (new_node config files) {
  revoker = some (codes "a");
  engine = some (record { engine = 4; is_stopped = false });
}

abbrev waiting : RevokerNode Text ℕ
waiting = record node { bootstrapping = true; bootstrap = fetching (timer_call 0) }

same_geometry : has_local_geometry config snapshot ≡ true
unfolding has_local_geometry
same_geometry = refl

one_rebootstrap_example :
    let w =
      run parts
        (revoker_created (ok (codes "a"))
          ∷ core_rotates false
          ∷ rebootstrap_required
          ∷ timer_fires
          ∷ snapshot_ends no_faults (err internal_error)
          ∷ [])
        (init config files) in
    (w.bootstrapping ≡ is_snapshot_bootstrap w.bootstrap)
    × (is_set w.timer ≡ true → w.bootstrapping ≡ false)
    × IsTimer w.timer
one_rebootstrap_example = one_rebootstrap parts config files (
    revoker_created (ok (codes "a"))
    ∷ core_rotates false
    ∷ rebootstrap_required
    ∷ timer_fires
    ∷ snapshot_ends no_faults (err internal_error)
    ∷ [])

fails_closed_until_caught_up_example :
    let w =
      run parts
        (keepalive_received
          ∷ engine_stops no_faults
          ∷ revoker_destroyed no_faults false
          ∷ revoker_created (ok (codes "a"))
          ∷ [])
        (snapshot_from no_faults (fetching (timer_call 0)) (ok snapshot) waiting) in
    (has parts (codes "a") w ≡ err internal_error) × (middleware w ≡ err internal_error)
fails_closed_until_caught_up_example =
    fails_closed_until_caught_up parts no_faults (timer_call 0) snapshot (codes "a")
      (keepalive_received
        ∷ engine_stops no_faults
        ∷ revoker_destroyed no_faults false
        ∷ revoker_created (ok (codes "a"))
        ∷ [])
      waiting same_geometry refl

abbrev almost_there : RevokerNode Text ℕ
almost_there = record (new_node config files) {
  bootstrapping = true;
  bootstrap = creating (timer_call 0) snapshot;
}

shutdown_leaves_engine_example :
    let w =
      run parts
        (shutdown_called ∷ shutdown_goes_on ∷ revoker_created (ok (codes "a")) ∷ [])
        almost_there in
    (w.shutting_down ≡ true) × (w.engine ≡ some (record { engine = 9; is_stopped = false }))
shutdown_leaves_engine_example =
    shutdown_leaves_engine parts (timer_call 0) snapshot (codes "a") almost_there refl refl

self_rotation_rebootstraps_example :
    let w = handle parts (core_rotates false) node in
    let restarted : RevokerNode Text ℕ = init config w.files in
    (w.dirty ≡ true)
    × ((w.rebootstrap_pending || w.bootstrapping) ≡ true)
    × (restarted.bootstrap ≡ fetching init_call)
self_rotation_rebootstraps_example = self_rotation_rebootstraps parts node refl refl

bootstrap_serves_example :
    let w =
      run parts
        (snapshot_ends no_faults (ok snapshot)
          ∷ engine_stops no_faults
          ∷ revoker_destroyed no_faults false
          ∷ revoker_created (ok (codes "b"))
          ∷ keepalive_received
          ∷ [])
        waiting in
    (has parts (codes "b") w ≡ ok (text_eq (codes "b") (codes "b")))
    × (w.bootstrapping ≡ false)
    × (w.dirty ≡ false)
    × (read w.files.state ≡ some (record { last_lsn = 9; generation = 2; dirty = false }))
bootstrap_serves_example =
    bootstrap_serves parts (timer_call 0) snapshot (codes "b") (codes "b") waiting refl refl
      same_geometry
