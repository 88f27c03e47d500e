-- ===== src/Node/RevokerNode/Gate.antt =====
-- When a `RevokerNode` of packages/node/src/revokerNode.ts answers.
use express_token_revoker.Prelude.{
  ◌≡◌, refl, ap, Bool, true, false, ◌||◌, inl, inr, Option, none, some, List, [], ◌∷◌, arith,
  Bool-cases, Option-cases,
}
use express_token_revoker.Prelude.Result.{ok, err, internal_error}
use express_token_revoker.Prelude.Text.{Text}
use express_token_revoker.Node.StateFile.{read}
use express_token_revoker.Node.RevokerNode.{
  Snapshot, Parts, Caller, init_call, timer_call, fetching, creating, RevokerNode, bootstrap_done,
  schedule_rebootstrap, on_core_rotation, keepalive, shutdown_begin, shutdown_end, driven_by, has,
  middleware, serving, answered_by,
}
use express_token_revoker.Node.RevokerNode.Steps.{
  InstallFaults, snapshot_from, has_local_geometry, drop_engine, init, init_from,
  revoker_created_from, engine_stopped_from, revoker_destroyed_from, drop_revoker, install,
  install_files, installed,
}
use express_token_revoker.Node.RevokerNode.Run.{
  Event, snapshot_ends, engine_stops, revoker_destroyed, revoker_created, keepalive_received,
  core_rotates, shutdown_called, shutdown_goes_on, handle, run,
}
use express_token_revoker.Node.RevokerNode.ClosedInstall.{caught_up, accepted-IsClosed}
use express_token_revoker.Node.RevokerNode.CaughtUp.{run-IsClosed}

serving_closed :
    {R : Type 0} (r : Option R) (down gate : Bool)
    → gate ≡ true
    → serving r (down || gate) ≡ err internal_error
serving_closed none down gate h = refl
serving_closed (some r) down gate h = ground (arith, h)

-- A node accepts a snapshot. Whatever happens then, until a new revoker was created and a keepalive
-- came after that, `has` and the middleware fail for every request.
pub fails_closed_until_caught_up :
    {R E : Type 0} (parts : Parts R E) (faults : InstallFaults) (c : Caller) (snapshot : Snapshot)
    (item : Text) (es : List (Event R)) (n : RevokerNode R E)
    → has_local_geometry n.config snapshot ≡ true
    → caught_up es ≡ false
    → let w = run parts es (snapshot_from faults (fetching c) (ok snapshot) n) in
      (has parts item w ≡ err internal_error) × (middleware w ≡ err internal_error)
unfolding snapshot_from has middleware
fails_closed_until_caught_up parts faults c snapshot item es n same waits =
    let start = drop_engine faults c snapshot n.engine (record n { catching_up = true }) in
    let w = run parts es start in
    let gate =
      run-IsClosed parts es start waits (accepted-IsClosed faults c snapshot n.engine n refl) in
    let closed = serving_closed w.revoker w.shutting_down w.catching_up gate in
    rw same (ap (answered_by parts item) closed, closed)

-- A bootstrap waits for the new revoker when `shutdown` is called: when it is there, an engine is
-- started on the node that was shut down, and no one stops it.
pub shutdown_leaves_engine :
    {R E : Type 0} (parts : Parts R E) (c : Caller) (snapshot : Snapshot) (r : R)
    (n : RevokerNode R E)
    → n.bootstrap ≡ creating c snapshot
    → n.shutting_down ≡ false
    → let w = run parts (shutdown_called ∷ shutdown_goes_on ∷ revoker_created (ok r) ∷ []) n in
      (w.shutting_down ≡ true)
      × (w.engine
          ≡ some (record {
            engine = parts.new_engine r snapshot.last_backup_lsn snapshot.generation;
            is_stopped = false;
          }))
unfolding run handle shutdown_begin shutdown_end revoker_created_from bootstrap_done
shutdown_leaves_engine parts init_call snapshot r n here up = simp (up, here) (refl, refl)
shutdown_leaves_engine parts (timer_call d) snapshot r n here up = simp (up, here) (refl, refl)

-- The core rotates on its own timer on a node that is not shutting down and whose engine is not in
-- the middle of a rotation that the coordinator asked for (such a one is ignored), and the state
-- file can be written: the node is dirty, a rebootstrap is queued or runs, and if the node is
-- restarted, it fetches a snapshot instead of resuming, whatever its files hold.
pub self_rotation_rebootstraps :
    {R E : Type 0} (parts : Parts R E) (n : RevokerNode R E)
    → n.shutting_down ≡ false
    → driven_by parts n.engine ≡ false
    → let w = handle parts (core_rotates false) n in
      let restarted : RevokerNode R E = init n.config w.files in
      (w.dirty ≡ true)
      × ((w.rebootstrap_pending || w.bootstrapping) ≡ true)
      × (restarted.bootstrap ≡ fetching init_call)
unfolding handle on_core_rotation schedule_rebootstrap init init_from
self_rotation_rebootstraps parts n up own =
    elim (Bool-cases (n.rebootstrap_pending || n.bootstrapping)) [
      | inl busy ↦ simp (up, own, busy) (refl, refl, refl)
      | inr free ↦ simp (up, own, free) (refl, refl, refl)
    ]

abbrev pub no_faults : InstallFaults
no_faults = record { wipe = false; current = false; previous = false; state = false }

-- A bootstrap in which nothing fails, on a node that is not shutting down, wherever it started from:
-- after the keepalive the node answers with the new revoker, no bootstrap runs, it is not dirty, and
-- the state file holds the snapshot's position.
pub bootstrap_serves :
    {R E : Type 0} (parts : Parts R E) (c : Caller) (snapshot : Snapshot) (r : R) (item : Text)
    (n : RevokerNode R E)
    → n.bootstrap ≡ fetching c
    → n.shutting_down ≡ false
    → has_local_geometry n.config snapshot ≡ true
    → let w =
        run parts
          (snapshot_ends no_faults (ok snapshot)
            ∷ engine_stops no_faults
            ∷ revoker_destroyed no_faults false
            ∷ revoker_created (ok r)
            ∷ keepalive_received
            ∷ [])
          n in
      (has parts item w ≡ parts.has item r)
      × (w.bootstrapping ≡ false)
      × (w.dirty ≡ false)
      × (read w.files.state
          ≡ some (record {
            last_lsn = snapshot.last_backup_lsn;
            generation = snapshot.generation;
            dirty = false;
          }))
unfolding run handle snapshot_from engine_stopped_from revoker_destroyed_from revoker_created_from
    has keepalive bootstrap_done drop_engine drop_revoker install install_files installed
bootstrap_serves parts init_call snapshot r item n here up same = elim (Option-cases n.engine) [
  | inl no_engine ↦ elim (Option-cases n.revoker) [
    | inl no_revoker ↦ simp (here, up, same, no_engine, no_revoker) (refl, refl, refl, refl)
    | inr (old, revoker) ↦ simp (here, up, same, no_engine, revoker) (refl, refl, refl, refl)
  ]
  | inr (e, engine) ↦ elim (Option-cases n.revoker) [
    | inl no_revoker ↦ simp (here, up, same, engine, no_revoker) (refl, refl, refl, refl)
    | inr (old, revoker) ↦ simp (here, up, same, engine, revoker) (refl, refl, refl, refl)
  ]
]
bootstrap_serves parts (timer_call d) snapshot r item n here up same =
    elim (Option-cases n.engine) [
      | inl no_engine ↦ elim (Option-cases n.revoker) [
        | inl no_revoker ↦ simp (here, up, same, no_engine, no_revoker) (refl, refl, refl, refl)
        | inr (old, revoker) ↦ simp (here, up, same, no_engine, revoker) (refl, refl, refl, refl)
      ]
      | inr (e, engine) ↦ elim (Option-cases n.revoker) [
        | inl no_revoker ↦ simp (here, up, same, engine, no_revoker) (refl, refl, refl, refl)
        | inr (old, revoker) ↦ simp (here, up, same, engine, revoker) (refl, refl, refl, refl)
      ]
    ]
