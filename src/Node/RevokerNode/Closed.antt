-- ===== src/Node/RevokerNode/Closed.antt =====
-- The serving gate of a `RevokerNode` of packages/node/src/revokerNode.ts, through every event.
use express_token_revoker.Prelude.{
  branch, ℕ, refl, Bool, true, false, Option, none, some, if◌then◌else◌,
}
use express_token_revoker.Prelude.Result.{Result, ok, err}
use express_token_revoker.Node.RevokerNode.{
  Parts, Running, init_call, timer_call, Bootstrap, no_bootstrap, fetching, stopping, destroying,
  creating, resuming, RevokerNode, bootstrap_done, begin_bootstrap, stop_engine,
  schedule_rebootstrap, fire, on_core_rotation, keepalive, shutdown_begin, driven_by, marked,
}
use express_token_revoker.Node.RevokerNode.Steps.{
  InstallFaults, engine_stopped_from, revoker_destroyed_from, revoker_created_from,
}
use express_token_revoker.Node.RevokerNode.ClosedInstall.{
  IsQuiet, IsClosed, stop_engine-IsQuiet, same-IsClosed, schedule-IsClosed, failed-IsClosed,
  install-IsClosed, drop_revoker-IsClosed,
}

module _ {R E : Type 0} where
  pub no_engine-IsClosed :
      (waits : Bool) (n : RevokerNode R E)
      → IsClosed waits n
      → IsClosed waits (record n { engine = none })
  no_engine-IsClosed true n (closed, quiet) = (closed, tt)
  no_engine-IsClosed false n closed = closed

  pub stopped-IsClosed :
      (waits : Bool) (faults : InstallFaults) (p : Bootstrap) (n : RevokerNode R E)
      → IsClosed waits n
      → IsClosed waits (engine_stopped_from faults p n)
  unfolding engine_stopped_from
  stopped-IsClosed waits faults (stopping c snapshot) n h =
      drop_revoker-IsClosed waits faults c snapshot n.revoker (record n { engine = none })
        (no_engine-IsClosed waits n h)
  stopped-IsClosed waits faults no_bootstrap n h = h
  stopped-IsClosed waits faults (fetching c) n h = h
  stopped-IsClosed waits faults (destroying c snapshot) n h = h
  stopped-IsClosed waits faults (creating c snapshot) n h = h
  stopped-IsClosed waits faults (resuming state) n h = h

  pub destroyed-IsClosed :
      (waits : Bool) (faults : InstallFaults) (refused : Bool) (p : Bootstrap) (n : RevokerNode R E)
      → IsClosed waits n
      → IsClosed waits (revoker_destroyed_from faults p refused n)
  unfolding revoker_destroyed_from
  destroyed-IsClosed waits faults true (destroying c snapshot) n h = failed-IsClosed waits c n h
  destroyed-IsClosed waits faults false (destroying c snapshot) n h =
      install-IsClosed waits faults c snapshot n h
  destroyed-IsClosed waits faults refused no_bootstrap n h = h
  destroyed-IsClosed waits faults refused (fetching c) n h = h
  destroyed-IsClosed waits faults refused (stopping c snapshot) n h = h
  destroyed-IsClosed waits faults refused (creating c snapshot) n h = h
  destroyed-IsClosed waits faults refused (resuming state) n h = h

  -- A new revoker leaves the gate closed.
  pub created-IsClosed :
      (parts : Parts R E) (r : Result R) (p : Bootstrap) (n : RevokerNode R E)
      → IsClosed false n
      → IsClosed false (revoker_created_from parts p r n)
  unfolding revoker_created_from bootstrap_done
  created-IsClosed parts (err e) (creating c snapshot) n h = failed-IsClosed false c n h
  created-IsClosed parts (ok r) (creating init_call snapshot) n h = h
  created-IsClosed parts (ok r) (creating (timer_call d) snapshot) n h = h
  created-IsClosed parts (err e) (resuming state) n h = h
  created-IsClosed parts (ok r) (resuming state) n h = h
  created-IsClosed parts r no_bootstrap n h = h
  created-IsClosed parts r (fetching c) n h = h
  created-IsClosed parts r (stopping c snapshot) n h = h
  created-IsClosed parts r (destroying c snapshot) n h = h

  pub weaken-IsClosed : (n : RevokerNode R E) → IsClosed true n → IsClosed false n
  weaken-IsClosed n (closed, quiet) = closed

  pub keepalive-IsClosed :
      (e : Option (Running E)) (n : RevokerNode R E)
      → IsQuiet e
      → IsClosed true n
      → IsClosed true (keepalive e n)
  unfolding keepalive
  keepalive-IsClosed none n quiet h = h
  keepalive-IsClosed (some e) n quiet h = simp quiet h

  pub fire-IsClosed :
      (waits : Bool) (timer : Option ℕ) (n : RevokerNode R E)
      → IsClosed waits n
      → IsClosed waits (fire timer n)
  unfolding fire
  fire-IsClosed waits none n h = h
  fire-IsClosed waits (some d) n h =
      branch (IsClosed waits) n.shutting_down
        (record n { timer = none; rebootstrap_pending = false })
        (begin_bootstrap (timer_call d) (record n { timer = none }))
        (same-IsClosed waits n _ refl refl h) (same-IsClosed waits n _ refl refl h)

  halted-IsClosed :
      (waits : Bool) (n : RevokerNode R E)
      → IsClosed waits n
      → IsClosed waits (record n {
        shutting_down = true;
        timer = none;
        rebootstrap_pending = false;
        engine = stop_engine n.engine;
      })
  halted-IsClosed true n (closed, quiet) = (closed, stop_engine-IsQuiet n.engine)
  halted-IsClosed false n closed = closed

  pub shutdown-IsClosed :
      (waits : Bool) (n : RevokerNode R E) → IsClosed waits n → IsClosed waits (shutdown_begin n)
  unfolding shutdown_begin
  shutdown-IsClosed waits n h =
      branch (IsClosed waits) n.shutting_down n
        (record n {
          shutting_down = true;
          timer = none;
          rebootstrap_pending = false;
          engine = stop_engine n.engine;
        })
        h (halted-IsClosed waits n h)

  pub rotation-IsClosed :
      (waits : Bool) (parts : Parts R E) (refused : Bool) (n : RevokerNode R E)
      → IsClosed waits n
      → IsClosed waits (on_core_rotation parts refused n)
  unfolding on_core_rotation
  rotation-IsClosed waits parts refused n h =
      let marked_one = schedule_rebootstrap 0 (marked refused n) in
      branch (IsClosed waits) n.shutting_down n (if driven_by parts n.engine then n else marked_one)
        h
        (branch (IsClosed waits) (driven_by parts n.engine) n marked_one h
          (schedule-IsClosed waits 0 (marked refused n) (same-IsClosed waits n _ refl refl h)))
