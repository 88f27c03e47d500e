-- ===== src/Node/RevokerNode.antt =====
-- The class `RevokerNode` of packages/node/src/revokerNode.ts. The state is its private fields and
-- its files; the core revoker is of a type `R`, the sync engine of a type `E`. A method that waits
-- is several steps, with the state of the bootstrap under way in between.
pub mod Steps
pub mod Run
pub mod ClosedInstall
pub mod Closed
pub mod CaughtUp
pub mod Gate
mod Tests
pub mod OrderlyInstall
pub mod Orderly
use express_token_revoker.Prelude.{
  ℕ, ◌+◌, ◌*◌, Bool, true, false, not, ◌&&◌, ◌||◌, Option, none, some, List, [], ◌∷◌, ◌==◌, leb,
  max, if◌then◌else◌,
}
use Prim.Native.Nat.{min}
use express_token_revoker.Prelude.Result.{Result, ok, err, internal_error}
use express_token_revoker.Prelude.Text.{Text}
use express_token_revoker.Node.StateFile.{SyncState, RawState, read, write, update_dirty}

-- `SnapshotResponse`, with a double as the number of its bits.
pub record Snapshot : Type 0 where
  pub current_blob : List ℕ
  pub previous_blob : List ℕ
  pub generation : ℕ
  pub last_backup_lsn : ℕ
  pub num_items : ℕ
  pub fp_rate : ℕ
  pub rotate_time : ℕ

pub record NodeConfig : Type 0 where
  pub num_items : ℕ
  pub fp_rate : ℕ
  pub rotate_time : ℕ

pub record NodeFiles : Type 0 where
  pub current : Option (List ℕ)
  pub previous : Option (List ℕ)
  pub temp : Option Text
  pub state : Option RawState

-- The methods of the core revoker and of the sync engine that the node calls.
pub record Parts (R E : Type 0) : Type 0 where
  pub has : Text → R → Result Bool
  pub new_engine : R → ℕ → ℕ → E
  pub is_externally_driven : E → Bool
  pub is_connected : E → Bool

-- The engine, and whether its `stop` has been called: then it does nothing any more.
pub record Running (E : Type 0) : Type 0 where
  pub engine : E
  pub is_stopped : Bool

-- Who waits for a bootstrap: `init`, or the timer that was set with a delay.
pub data Caller : Type 0 where
  init_call : Caller
  timer_call : ℕ → Caller

-- How far the start of a node has come: it waits for the snapshot, for the old engine to stop, for
-- the old revoker's end, or for the new revoker; or `init` resumes from the local files.
pub data Bootstrap : Type 0 where
  no_bootstrap : Bootstrap
  fetching : Caller → Bootstrap
  stopping : Caller → Snapshot → Bootstrap
  destroying : Caller → Snapshot → Bootstrap
  creating : Caller → Snapshot → Bootstrap
  resuming : SyncState → Bootstrap

pub record RevokerNode (R E : Type 0) : Type 0 where
  pub config : NodeConfig
  pub revoker : Option R
  pub engine : Option (Running E)
  pub dirty : Bool
  pub bootstrapping : Bool
  pub catching_up : Bool
  pub timer : Option ℕ
  pub rebootstrap_pending : Bool
  pub shutting_down : Bool
  pub bootstrap : Bootstrap
  pub files : NodeFiles

abbrev pub min_retry_ms : ℕ
min_retry_ms = 1000

abbrev pub max_retry_ms : ℕ
max_retry_ms = 30000

abbrev pub retry_delay : ℕ → ℕ
retry_delay delay = min (max delay min_retry_ms * 2) max_retry_ms

-- The guard of `has`, and of the middleware at each request.
abbrev pub serving : {R : Type 0} → Option R → Bool → Result R
serving none refuses = err internal_error
serving (some r) refuses = if refuses then err internal_error else ok r

abbrev pub stop_engine : {E : Type 0} → Option (Running E) → Option (Running E)
stop_engine none = none
stop_engine (some e) = some (record e { is_stopped = true })

module _ {R E : Type 0} where
  -- `#scheduleRebootstrap` up to the timer
  unfoldable pub schedule_rebootstrap : ℕ → RevokerNode R E → RevokerNode R E
  schedule_rebootstrap delay n =
      if n.shutting_down || n.rebootstrap_pending || n.bootstrapping
      then n
      else record n { rebootstrap_pending = true; timer = some delay }

  abbrev pub begin_bootstrap : Caller → RevokerNode R E → RevokerNode R E
  begin_bootstrap c n = record n { bootstrapping = true; bootstrap = fetching c }

  -- the timer's function up to its `await`
  unfoldable pub fire : Option ℕ → RevokerNode R E → RevokerNode R E
  fire none n = n
  fire (some delay) n =
      if n.shutting_down
      then record n { timer = none; rebootstrap_pending = false }
      else begin_bootstrap (timer_call delay) (record n { timer = none })

  -- The end of `#bootstrapFromSnapshot`, and what its caller does after it.
  abbrev pub ended : RevokerNode R E → RevokerNode R E
  ended n = record n { bootstrapping = false; bootstrap = no_bootstrap }

  abbrev pub released : RevokerNode R E → RevokerNode R E
  released n = record (ended n) { rebootstrap_pending = false }

  unfoldable pub bootstrap_failed : Caller → RevokerNode R E → RevokerNode R E
  unfolding schedule_rebootstrap
  bootstrap_failed init_call n = ended n
  bootstrap_failed (timer_call delay) n = schedule_rebootstrap (retry_delay delay) (released n)

  unfoldable pub bootstrap_done : Caller → RevokerNode R E → RevokerNode R E
  bootstrap_done init_call n = ended n
  bootstrap_done (timer_call delay) n = released n

  -- `this.#engine?.isRotationExternallyDriven()` and `this.#engine?.connected ?? false`
  abbrev pub driven_by : Parts R E → Option (Running E) → Bool
  driven_by parts none = false
  driven_by parts (some e) = parts.is_externally_driven e.engine

  abbrev pub connected_by : Parts R E → Option (Running E) → Bool
  connected_by parts none = false
  connected_by parts (some e) = parts.is_connected e.engine

  abbrev pub marked : Bool → RevokerNode R E → RevokerNode R E
  marked refused n = record n {
    dirty = true;
    files = if refused then n.files else record n.files { state = update_dirty n.files.state };
  }

  -- `#onCoreRotation`; the update of the state file fails if `refused`
  unfoldable pub on_core_rotation : Parts R E → Bool → RevokerNode R E → RevokerNode R E
  unfolding schedule_rebootstrap
  on_core_rotation parts refused n =
      if n.shutting_down
      then n
      else if driven_by parts n.engine
      then n
      else schedule_rebootstrap 0 (marked refused n)

  -- `#onRebootstrapRequired`
  unfoldable pub on_rebootstrap_required : RevokerNode R E → RevokerNode R E
  unfolding schedule_rebootstrap
  on_rebootstrap_required n = if n.shutting_down then n else schedule_rebootstrap 0 n

  -- `onKeepaliveReceived`, which an engine that was stopped does not call
  unfoldable pub keepalive : Option (Running E) → RevokerNode R E → RevokerNode R E
  keepalive none n = n
  keepalive (some e) n = if e.is_stopped then n else record n { catching_up = false }

  -- The revoker that a request to the middleware is passed to.
  unfoldable pub middleware : RevokerNode R E → Result R
  middleware n = serving n.revoker (n.shutting_down || n.catching_up)

  abbrev pub answered_by : Parts R E → Text → Result R → Result Bool
  answered_by parts item (err e) = err e
  answered_by parts item (ok r) = parts.has item r

  unfoldable pub has : Parts R E → Text → RevokerNode R E → Result Bool
  has parts item n = answered_by parts item (serving n.revoker (n.shutting_down || n.catching_up))

  -- `shutdown` up to its first `await`, and after the engine's stop
  unfoldable pub shutdown_begin : RevokerNode R E → RevokerNode R E
  shutdown_begin n = if n.shutting_down then n else record n {
    shutting_down = true;
    timer = none;
    rebootstrap_pending = false;
    engine = stop_engine n.engine;
  }

  unfoldable pub shutdown_end : RevokerNode R E → RevokerNode R E
  shutdown_end n = if n.shutting_down then record n { engine = none } else n

  -- `sync.healthy` of `healthCheck`
  unfoldable pub is_sync_healthy : Parts R E → RevokerNode R E → Bool
  is_sync_healthy parts n = connected_by parts n.engine && not n.dirty && not n.catching_up
