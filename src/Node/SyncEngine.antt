-- ===== src/Node/SyncEngine.antt =====
-- The replication state machine of packages/node/src/syncEngine.ts. The state is the private
-- fields of `SyncEngine`, the promise chain and the progress of the one running poll; an `await`
-- ends one operation, and what follows it is an operation of its own.
pub mod Apply
pub mod Connect
pub mod Poll
pub mod Run
pub mod Log
pub mod Frames
pub mod Replica
pub mod Chain
pub mod QueueFrames
pub mod Queue
pub mod Refinement
pub mod Halt
pub mod Counted
pub mod Once
pub mod CatchUp
mod Tests
use express_token_revoker.Prelude.{
  ℕ, ◌+◌, Bool, true, false, ◌||◌, Option, none, some, List, [], ◌∷◌, ◌++◌, if◌then◌else◌,
}
use express_token_revoker.Prelude.Text.{Text}

-- packages/node/src/types.ts, `WireStreamEvent`: LSNs arrive as strings. A known kind whose body
-- is missing on the wire is `none`.
pub record EntryBody : Type 0 where
  pub lsn : Text
  pub generation : ℕ
  pub item : Text

pub record RotateBody : Type 0 where
  pub lsn : Text
  pub generation : ℕ

pub data WireStreamEvent : Type 0 where
  unknown : WireStreamEvent
  entry : Option EntryBody → WireStreamEvent
  rotate : Option RotateBody → WireStreamEvent
  keepalive : WireStreamEvent
  resnapshot : WireStreamEvent

pub data SyncEngineMode : Type 0 where
  idle streaming reconnecting stopped : SyncEngineMode

pub data Reason : Type 0 where
  resnapshot_required malformed_lsn unappliable_entry : Reason
  generation_mismatch rotation_failed persistence_failed : Reason
  lsn_gap : ℕ → ℕ → Reason

-- What the engine asks of the code around it, in the order in which it asks.
pub data Signal : Type 0 where
  subscribe : ℕ → Signal
  poll_deltas : ℕ → ℕ → Signal
  cancel : ℕ → Signal
  sleep : ℕ → ℕ → Signal
  keepalive_received : Signal
  rebootstrap_required : Reason → Signal

pub record SyncEngineOptions : Type 0 where
  pub max_poll_events : ℕ
  pub keepalive_interval_ms : ℕ
  pub base_reconnect_delay_ms : ℕ
  pub max_reconnect_delay_ms : ℕ

-- `SyncEngineRevoker` and `SyncStateStore`, over the states of the two objects behind them: each
-- call returns the new state and whether it came back without a throw.
pub record SyncPeers (R S : Type 0) : Type 0 where
  pub apply_entry : Text → R → R × Bool
  pub rotate_on_demand : R → R × Bool
  pub update : ℕ → ℕ → S → S × Bool

-- `#pollOnce` between two of its awaits: waiting for a page, or for `ahead` applications of the
-- chain, the last of which is its own event.
pub data PollFrame : Type 0 where
  requesting : ℕ → PollFrame
  applying : ℕ → List WireStreamEvent → Bool → ℕ → PollFrame

pub record SyncEngine (R S : Type 0) : Type 0 where
  pub revoker : R
  pub state_store : S
  pub mode : SyncEngineMode
  pub last_applied_lsn : ℕ
  pub generation : ℕ
  pub stream : Option ℕ
  pub poll_timer : Bool
  pub keepalive_watchdog : Bool
  pub last_stream_activity_at : ℕ
  pub schedule_token : ℕ
  pub reconnect_attempt : ℕ
  pub polling : Option PollFrame
  pub in_coordinated_rotation : Bool
  pub rebootstrap_fired : Bool
  pub has_stopped : Bool
  -- the events behind `#chain` that have not been applied
  pub chain : List WireStreamEvent
  -- the LSN and the generation of the rotation that the head of the chain awaits
  pub rotating : Option (ℕ × ℕ)
  pub signals : List Signal

abbrev pub max_poll_pages : ℕ
max_poll_pages = 100

abbrev pub missed_keepalives : ℕ
missed_keepalives = 3

unfoldable pub new_engine : {R S : Type 0} → R → S → ℕ → ℕ → SyncEngine R S
new_engine r s initial_lsn initial_generation = record {
  revoker = r;
  state_store = s;
  mode = idle;
  last_applied_lsn = initial_lsn;
  generation = initial_generation;
  stream = none;
  poll_timer = false;
  keepalive_watchdog = false;
  last_stream_activity_at = 0;
  schedule_token = 0;
  reconnect_attempt = 0;
  polling = none;
  in_coordinated_rotation = false;
  rebootstrap_fired = false;
  has_stopped = false;
  chain = [];
  rotating = none;
  signals = [];
}

module _ {R S : Type 0} where
  abbrev pub emit : Signal → SyncEngine R S → SyncEngine R S
  emit x w = record w { signals = w.signals ++ x ∷ [] }

  -- `#dropStream`
  unfoldable pub drop_stream : SyncEngine R S → SyncEngine R S
  drop_stream w = elim w.stream [
    | none ↦ w
    | some s ↦ record w { stream = none; signals = w.signals ++ cancel s ∷ [] }
  ]

  -- `#rebootstrap`
  unfoldable pub rebootstrap : Reason → SyncEngine R S → SyncEngine R S
  rebootstrap reason w =
      if w.rebootstrap_fired || w.has_stopped
      then w
      else emit (rebootstrap_required reason) (
          drop_stream (record w {
            rebootstrap_fired = true;
            schedule_token = w.schedule_token + 1;
            poll_timer = false;
            mode = reconnecting;
          }))
