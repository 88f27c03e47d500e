-- ===== src/Node/SyncEngine/Halt.antt =====
-- packages/node/src/syncEngine.ts after `stop` and after a rebootstrap has been asked for.
use express_token_revoker.Prelude.{ℕ, ◌≡◌, true, false, Option, none, some, List, [], ◌∷◌, arith}
use express_token_revoker.Prelude.Text.{Text}
use express_token_revoker.Node.SyncEngine.{
  Reason, stopped, SyncEngineOptions, SyncPeers, SyncEngine, drop_stream, rebootstrap,
}
use express_token_revoker.Node.SyncEngine.Apply.{
  enqueue_apply, chain_done, end_unless_rotating, apply_event, apply_head, chain_step,
  rotation_settled,
}
use express_token_revoker.Node.SyncEngine.Connect.{
  connected, start, stop, sleep_over, subscribe_succeeded, subscribe_failed, handle_stream_down,
  watchdog_tick,
}
use express_token_revoker.Node.SyncEngine.Poll.{
  apply_page, poll_once, page_received, page_failed, poll_resumed,
}
use express_token_revoker.Node.SyncEngine.Run.{
  Input, started, has_subscribe_failed, poll_ticked, poll_failed, poll_continued, stop_called,
  subscribed, stream_data, stream_down, sleep_ended, watchdog_ticked, chain_ran, rotation_ended,
  page_arrived, handle, run,
}

module _ {R S : Type 0} where
  -- The engine is off: no stream, no timer, no rotation under way.
  pub record IsOff (w : SyncEngine R S) : Type 0 where
    pub has_stopped : w.has_stopped ≡ true
    pub mode : w.mode ≡ stopped
    pub stream : w.stream ≡ none
    pub poll_timer : w.poll_timer ≡ false
    pub watchdog : w.keepalive_watchdog ≡ false
    pub rotating : w.rotating ≡ none

  -- The replica, its position and the persisted state are as they were.
  pub record Unchanged (w w' : SyncEngine R S) : Type 0 where
    pub revoker : w'.revoker ≡ w.revoker
    pub state_store : w'.state_store ≡ w.state_store
    pub last_applied_lsn : w'.last_applied_lsn ≡ w.last_applied_lsn
    pub generation : w'.generation ≡ w.generation

  Unchanged-refl : (w : SyncEngine R S) → Unchanged w w
  Unchanged-refl w = ground arith

  Unchanged-trans : {u v w : SyncEngine R S} → Unchanged u v → Unchanged v w → Unchanged u w
  Unchanged-trans first later = ground arith

  handle-IsOff :
      (peers : SyncPeers R S) (other : Text → Option ℕ) (o : SyncEngineOptions) (x : Input)
      (w : SyncEngine R S)
      → IsOff w
      → IsOff (handle peers other o x w) × Unchanged w (handle peers other o x w)
  unfolding handle
  handle-IsOff peers other o started w h = unfold start in ground arith
  handle-IsOff peers other o has_subscribe_failed w h = unfold subscribe_failed in ground arith
  handle-IsOff peers other o (subscribed now s) w h = unfold subscribe_succeeded in ground arith
  handle-IsOff peers other o (stream_data e) w h = unfold enqueue_apply in ground arith
  handle-IsOff peers other o (stream_down s) w h = unfold handle_stream_down in ground arith
  handle-IsOff peers other o (sleep_ended token) w h = unfold sleep_over in ground arith
  handle-IsOff peers other o (watchdog_ticked now) w h = unfold watchdog_tick in ground arith
  handle-IsOff peers other o poll_ticked w h = unfold poll_once in ground arith
  handle-IsOff peers other o (page_arrived events more) w h = unfold page_received in ground arith
  handle-IsOff peers other o poll_failed w h = unfold page_failed in ground arith
  handle-IsOff peers other o poll_continued w h = unfold poll_resumed in ground arith
  handle-IsOff peers other o (chain_ran now) w h =
      unfold chain_step apply_head apply_event end_unless_rotating chain_done in ground arith
  handle-IsOff peers other o (rotation_ended now) w h = unfold rotation_settled in ground arith
  handle-IsOff peers other o stop_called w h = unfold stop in ground arith

  run-IsOff :
      (peers : SyncPeers R S) (other : Text → Option ℕ) (o : SyncEngineOptions) (xs : List Input)
      (w : SyncEngine R S)
      → IsOff w
      → IsOff (run peers other o xs w) × Unchanged w (run peers other o xs w)
  unfolding run
  run-IsOff peers other o [] w h = (h, Unchanged-refl w)
  run-IsOff peers other o (x ∷ xs) w h =
      let (off, first) = handle-IsOff peers other o x w h in
      let (end, later) = run-IsOff peers other o xs (handle peers other o x w) off in
      (end, Unchanged-trans first later)

  stop-IsOff : (w : SyncEngine R S) → w.has_stopped ≡ false → w.rotating ≡ none → IsOff (stop w)
  unfolding stop
  stop-IsOff w h k = ground arith

  -- `stop` is final: if no rotation is under way when it is called, then nothing that happens
  -- afterwards, a late stream, event, page or retry included, opens a stream, starts a timer, or
  -- changes the replica, its position, its generation or the persisted state.
  pub stop_is_final :
      (peers : SyncPeers R S) (other : Text → Option ℕ) (o : SyncEngineOptions) (xs : List Input)
      (w : SyncEngine R S)
      → w.has_stopped ≡ false
      → w.rotating ≡ none
      → IsOff (run peers other o xs (stop w)) × Unchanged (stop w) (run peers other o xs (stop w))
  stop_is_final peers other o xs w h k = run-IsOff peers other o xs (stop w) (stop-IsOff w h k)

  -- A rebootstrap has been asked for and no rotation is under way.
  pub record IsFired (w : SyncEngine R S) : Type 0 where
    pub fired : w.rebootstrap_fired ≡ true
    pub rotating : w.rotating ≡ none

  handle-IsFired :
      (peers : SyncPeers R S) (other : Text → Option ℕ) (o : SyncEngineOptions) (x : Input)
      (w : SyncEngine R S)
      → IsFired w
      → IsFired (handle peers other o x w) × Unchanged w (handle peers other o x w)
  unfolding handle drop_stream
  handle-IsFired peers other o started w h = unfold start in ground arith
  handle-IsFired peers other o has_subscribe_failed w h = unfold subscribe_failed in ground arith
  handle-IsFired peers other o (subscribed now s) w h = unfold subscribe_succeeded in ground arith
  handle-IsFired peers other o (stream_data e) w h = unfold enqueue_apply in ground arith
  handle-IsFired peers other o (stream_down s) w h = unfold handle_stream_down in ground arith
  handle-IsFired peers other o (sleep_ended token) w h = unfold sleep_over in ground arith
  handle-IsFired peers other o (watchdog_ticked now) w h = unfold watchdog_tick in ground arith
  handle-IsFired peers other o poll_ticked w h = unfold poll_once in ground arith
  handle-IsFired peers other o (page_arrived [] more) w h =
      unfold page_received apply_page in ground arith
  handle-IsFired peers other o (page_arrived (e ∷ events) more) w h =
      unfold page_received apply_page in ground arith
  handle-IsFired peers other o poll_failed w h = unfold page_failed in ground arith
  handle-IsFired peers other o poll_continued w h = unfold poll_resumed in ground arith
  handle-IsFired peers other o (chain_ran now) w h =
      unfold chain_step apply_head apply_event end_unless_rotating chain_done in ground arith
  handle-IsFired peers other o (rotation_ended now) w h = unfold rotation_settled in ground arith
  handle-IsFired peers other o stop_called w h = unfold stop in ground arith

  run-IsFired :
      (peers : SyncPeers R S) (other : Text → Option ℕ) (o : SyncEngineOptions) (xs : List Input)
      (w : SyncEngine R S)
      → IsFired w
      → IsFired (run peers other o xs w) × Unchanged w (run peers other o xs w)
  unfolding run
  run-IsFired peers other o [] w h = (h, Unchanged-refl w)
  run-IsFired peers other o (x ∷ xs) w h =
      let (fired, first) = handle-IsFired peers other o x w h in
      let (end, later) = run-IsFired peers other o xs (handle peers other o x w) fired in
      (end, Unchanged-trans first later)

  rebootstrap-IsFired :
      (reason : Reason) (w : SyncEngine R S)
      → w.rebootstrap_fired ≡ false
      → w.has_stopped ≡ false
      → w.rotating ≡ none
      → IsFired (rebootstrap reason w) × Unchanged w (rebootstrap reason w)
  unfolding rebootstrap drop_stream
  rebootstrap-IsFired reason w f s r = ground arith

  -- A rebootstrap is final: once it has been asked for, nothing that happens afterwards applies an
  -- event, moves the position or the generation, or writes the persisted state.
  pub rebootstrap_is_final :
      (peers : SyncPeers R S) (other : Text → Option ℕ) (o : SyncEngineOptions) (xs : List Input)
      (reason : Reason) (w : SyncEngine R S)
      → w.rebootstrap_fired ≡ false
      → w.has_stopped ≡ false
      → w.rotating ≡ none
      → Unchanged w (run peers other o xs (rebootstrap reason w))
  rebootstrap_is_final peers other o xs reason w f s r =
      let (fired, first) = rebootstrap-IsFired reason w f s r in
      Unchanged-trans first (run-IsFired peers other o xs (rebootstrap reason w) fired).1

  subscribe_succeeded-connected :
      (now s : ℕ) (w : SyncEngine R S)
      → w.has_stopped ≡ false
      → IsFired w
      → (connected (subscribe_succeeded now s w) ≡ true)
        × ((subscribe_succeeded now s w).stream ≡ some s)
        × IsFired (subscribe_succeeded now s w)
        × Unchanged w (subscribe_succeeded now s w)
  unfolding subscribe_succeeded
  subscribe_succeeded-connected now s w h f = ground arith

  -- A subscription that was under way when the rebootstrap was asked for still opens its stream:
  -- the engine reports itself connected, on a stream of which it never applies an event.
  pub late_subscription :
      (peers : SyncPeers R S) (other : Text → Option ℕ) (o : SyncEngineOptions) (xs : List Input)
      (now s : ℕ) (w : SyncEngine R S)
      → w.has_stopped ≡ false
      → w.rebootstrap_fired ≡ true
      → w.rotating ≡ none
      → (connected (handle peers other o (subscribed now s) w) ≡ true)
        × ((handle peers other o (subscribed now s) w).stream ≡ some s)
        × Unchanged w (run peers other o xs (handle peers other o (subscribed now s) w))
  unfolding handle
  late_subscription peers other o xs now s w h f r =
      let (live, stream, fired, first) =
        subscribe_succeeded-connected now s w h (record { fired = f; rotating = r }) in
      (live, stream, Unchanged-trans first (run-IsFired peers other o xs _ fired).1)
