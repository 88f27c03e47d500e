-- ===== src/Node/SyncEngine/Run.antt =====
-- The engine of packages/node/src/syncEngine.ts under a schedule: what timers, the network and the
-- owner do to it, in any order.
use express_token_revoker.Prelude.{ℕ, Bool, Option, List, [], ◌∷◌}
use express_token_revoker.Prelude.Text.{Text}
use express_token_revoker.Node.SyncEngine.{
  WireStreamEvent, SyncEngineOptions, SyncPeers, SyncEngine,
}
use express_token_revoker.Node.SyncEngine.Apply.{enqueue_apply, chain_step, rotation_settled}
use express_token_revoker.Node.SyncEngine.Connect.{
  start, stop, sleep_over, subscribe_succeeded, subscribe_failed, handle_stream_down, watchdog_tick,
}
use express_token_revoker.Node.SyncEngine.Poll.{poll_once, page_received, page_failed, poll_resumed}

pub data Input : Type 0 where
  started has_subscribe_failed poll_ticked poll_failed poll_continued stop_called : Input
  subscribed : ℕ → ℕ → Input
  stream_data : WireStreamEvent → Input
  stream_down sleep_ended : ℕ → Input
  watchdog_ticked chain_ran rotation_ended : ℕ → Input
  page_arrived : List WireStreamEvent → Bool → Input

module _ {R S : Type 0} (peers : SyncPeers R S) (other : Text → Option ℕ)
    (o : SyncEngineOptions) where
  unfoldable pub handle : Input → SyncEngine R S → SyncEngine R S
  handle started w = start w
  handle has_subscribe_failed w = subscribe_failed o w
  handle (subscribed now s) w = subscribe_succeeded now s w
  handle (stream_data e) w = enqueue_apply e w
  handle (stream_down s) w = handle_stream_down o s w
  handle (sleep_ended token) w = sleep_over token w
  handle (watchdog_ticked now) w = watchdog_tick o now w
  handle poll_ticked w = poll_once o w
  handle (page_arrived events more) w = page_received o events more w
  handle poll_failed w = page_failed o w
  handle poll_continued w = poll_resumed o w
  handle (chain_ran now) w = chain_step peers other now w
  handle (rotation_ended now) w = rotation_settled peers now w
  handle stop_called w = stop w

  unfoldable pub run : List Input → SyncEngine R S → SyncEngine R S
  run [] w = w
  run (x ∷ xs) w = run xs (handle x w)
