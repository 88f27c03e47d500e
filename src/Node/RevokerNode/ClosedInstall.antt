-- ===== src/Node/RevokerNode/ClosedInstall.antt =====
-- The serving gate of a `RevokerNode` of packages/node/src/revokerNode.ts, through the steps of a
-- bootstrap that install a snapshot.
use express_token_revoker.Prelude.{
  branch, ℕ, ◌≡◌, refl, sym, ◌∙◌, Bool, true, false, ◌||◌, Option, none, some, List, [], ◌∷◌,
  if◌then◌else◌,
}
use mathlib.Core.Path.{subst}
use express_token_revoker.Prelude.Result.{Result, ok, err}
use express_token_revoker.Node.RevokerNode.{
  Snapshot, NodeFiles, Running, Caller, init_call, timer_call, Bootstrap, no_bootstrap, fetching,
  stopping, destroying, creating, resuming, RevokerNode, bootstrap_failed, stop_engine,
  schedule_rebootstrap, retry_delay, released,
}
use express_token_revoker.Node.RevokerNode.Steps.{
  InstallFaults, snapshot_from, has_local_geometry, install_files, wrote_blobs, installed, install,
  drop_revoker, drop_engine,
}
use express_token_revoker.Node.RevokerNode.Run.{Event, revoker_created, keepalive_received}

-- No engine runs.
abbrev pub IsQuiet : {E : Type 0} → Option (Running E) → Type 0
IsQuiet none = Unit
IsQuiet (some e) = e.is_stopped ≡ true

-- The gate is closed, and if `waits`, then no engine runs that could open it.
abbrev pub IsClosed : {R E : Type 0} → Bool → RevokerNode R E → Type 0
IsClosed true n = (n.catching_up ≡ true) × IsQuiet n.engine
IsClosed false n = n.catching_up ≡ true

abbrev pub is_creation : {R : Type 0} → Event R → Bool
is_creation (revoker_created r) = true
is_creation _ = false

abbrev pub is_keepalive : {R : Type 0} → Event R → Bool
is_keepalive keepalive_received = true
is_keepalive _ = false

abbrev pub has_keepalive : {R : Type 0} → List (Event R) → Bool
has_keepalive [] = false
has_keepalive (e ∷ es) = is_keepalive e || has_keepalive es

-- A revoker was created, and a keepalive came after that.
abbrev pub caught_up : {R : Type 0} → List (Event R) → Bool
caught_up [] = false
caught_up (e ∷ es) = if is_creation e then has_keepalive es else caught_up es

pub stop_engine-IsQuiet : {E : Type 0} (e : Option (Running E)) → IsQuiet (stop_engine e)
stop_engine-IsQuiet none = tt
stop_engine-IsQuiet (some e) = refl

module _ {R E : Type 0} where
  -- A change of the fields that neither the gate nor the engine is.
  pub same-IsClosed :
      (waits : Bool) (n v : RevokerNode R E)
      → v.catching_up ≡ n.catching_up
      → v.engine ≡ n.engine
      → IsClosed waits n
      → IsClosed waits v
  same-IsClosed true n v gate engine (closed, quiet) =
      (gate ∙ closed, subst IsQuiet (sym engine) quiet)
  same-IsClosed false n v gate engine closed = gate ∙ closed

  pub schedule-IsClosed :
      (waits : Bool) (d : ℕ) (n : RevokerNode R E)
      → IsClosed waits n
      → IsClosed waits (schedule_rebootstrap d n)
  unfolding schedule_rebootstrap
  schedule-IsClosed waits d n h =
      branch (IsClosed waits) (n.shutting_down || n.rebootstrap_pending || n.bootstrapping) n
        (record n { rebootstrap_pending = true; timer = some d }) h
        (same-IsClosed waits n _ refl refl h)

  pub failed-IsClosed :
      (waits : Bool) (c : Caller) (n : RevokerNode R E)
      → IsClosed waits n
      → IsClosed waits (bootstrap_failed c n)
  unfolding bootstrap_failed
  failed-IsClosed waits init_call n h = same-IsClosed waits n _ refl refl h
  failed-IsClosed waits (timer_call d) n h =
      schedule-IsClosed waits (retry_delay d) (released n) (same-IsClosed waits n _ refl refl h)

  installed-IsClosed :
      (waits : Bool) (c : Caller) (snapshot : Snapshot) (clean : Bool) (r : NodeFiles × Bool)
      (n : RevokerNode R E)
      → IsClosed waits n
      → IsClosed waits (installed c snapshot clean r n)
  unfolding installed
  installed-IsClosed waits c snapshot clean (files, true) n h = same-IsClosed waits n _ refl refl h
  installed-IsClosed waits c snapshot clean (files, false) n h =
      failed-IsClosed waits c (record n { files = files; dirty = if clean then false else n.dirty })
        (same-IsClosed waits n _ refl refl h)

  pub install-IsClosed :
      (waits : Bool) (faults : InstallFaults) (c : Caller) (snapshot : Snapshot)
      (n : RevokerNode R E)
      → IsClosed waits n
      → IsClosed waits (install faults c snapshot n)
  unfolding install
  install-IsClosed waits faults c snapshot n h =
      installed-IsClosed waits c snapshot (wrote_blobs faults snapshot)
        (install_files faults snapshot n.files) n h

  pub drop_revoker-IsClosed :
      (waits : Bool) (faults : InstallFaults) (c : Caller) (snapshot : Snapshot) (r : Option R)
      (n : RevokerNode R E)
      → IsClosed waits n
      → IsClosed waits (drop_revoker faults c snapshot r n)
  unfolding drop_revoker
  drop_revoker-IsClosed waits faults c snapshot none n h =
      install-IsClosed waits faults c snapshot n h
  drop_revoker-IsClosed waits faults c snapshot (some r) n h = same-IsClosed waits n _ refl refl h

  drop_engine-IsClosed :
      (waits : Bool) (faults : InstallFaults) (c : Caller) (snapshot : Snapshot)
      (e : Option (Running E)) (n : RevokerNode R E)
      → IsClosed waits n
      → IsClosed waits (drop_engine faults c snapshot e n)
  unfolding drop_engine
  drop_engine-IsClosed waits faults c snapshot none n h =
      drop_revoker-IsClosed waits faults c snapshot n.revoker n h
  drop_engine-IsClosed true faults c snapshot (some e) n (closed, quiet) = (closed, refl)
  drop_engine-IsClosed false faults c snapshot (some e) n closed = closed

  -- An accepted snapshot closes the gate, and the old engine stops.
  pub accepted-IsClosed :
      (faults : InstallFaults) (c : Caller) (snapshot : Snapshot) (e : Option (Running E))
      (n : RevokerNode R E)
      → n.engine ≡ e
      → IsClosed true (drop_engine faults c snapshot e (record n { catching_up = true }))
  unfolding drop_engine
  accepted-IsClosed faults c snapshot none n here =
      drop_revoker-IsClosed true faults c snapshot n.revoker (record n { catching_up = true })
        (refl, subst IsQuiet (sym here) tt)
  accepted-IsClosed faults c snapshot (some e) n here = (refl, refl)

  opened-IsClosed :
      (waits : Bool) (n : RevokerNode R E)
      → IsClosed waits n
      → IsClosed waits (record n { catching_up = true })
  opened-IsClosed true n (closed, quiet) = (refl, quiet)
  opened-IsClosed false n closed = refl

  pub snapshot-IsClosed :
      (waits : Bool) (faults : InstallFaults) (r : Result Snapshot) (p : Bootstrap)
      (n : RevokerNode R E)
      → IsClosed waits n
      → IsClosed waits (snapshot_from faults p r n)
  unfolding snapshot_from
  snapshot-IsClosed waits faults (err e) (fetching c) n h = failed-IsClosed waits c n h
  snapshot-IsClosed waits faults (ok snapshot) (fetching c) n h =
      branch (IsClosed waits) (has_local_geometry n.config snapshot)
        (drop_engine faults c snapshot n.engine (record n { catching_up = true }))
        (bootstrap_failed c n)
        (drop_engine-IsClosed waits faults c snapshot n.engine (record n { catching_up = true })
          (opened-IsClosed waits n h))
        (failed-IsClosed waits c n h)
  snapshot-IsClosed waits faults r no_bootstrap n h = h
  snapshot-IsClosed waits faults r (stopping c snapshot) n h = h
  snapshot-IsClosed waits faults r (destroying c snapshot) n h = h
  snapshot-IsClosed waits faults r (creating c snapshot) n h = h
  snapshot-IsClosed waits faults r (resuming state) n h = h
