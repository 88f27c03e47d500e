-- ===== src/Node/SyncEngine/Frames.antt =====
-- Which operations of packages/node/src/syncEngine.ts leave the replica alone: all but the chain's.
use express_token_revoker.Prelude.{
  ℕ, zero, suc, ◌≡◌, refl, Bool, false, Option, none, some, List, [], ◌∷◌, arith,
}
use express_token_revoker.Node.SyncEngine.{
  WireStreamEvent, Reason, SyncEngineOptions, SyncEngine, PollFrame, requesting, applying,
  drop_stream, rebootstrap,
}
use express_token_revoker.Node.SyncEngine.Apply.{enqueue_apply, chain_done}
use express_token_revoker.Node.SyncEngine.Connect.{
  start, stop, sleep_over, subscribe_succeeded, subscribe_failed, handle_stream_down, watchdog_tick,
  enter_reconnecting,
}
use express_token_revoker.Node.SyncEngine.Poll.{
  apply_page, poll_once, page_received, page_failed, poll_resumed,
}

module _ {R S : Type 0} where
  pub record SameReplica (w w' : SyncEngine R S) : Type 0 where
    pub revoker : w'.revoker ≡ w.revoker
    pub position : w'.last_applied_lsn ≡ w.last_applied_lsn
    pub rotating : w'.rotating ≡ w.rotating
    pub fired : w'.rebootstrap_fired ≡ false → w.rebootstrap_fired ≡ false
    pub has_stopped : w'.has_stopped ≡ false → w.has_stopped ≡ false

  drop_stream_lem : (w : SyncEngine R S) → SameReplica w (drop_stream w)
  unfolding drop_stream
  drop_stream_lem w = ground arith

  pub rebootstrap_lem :
      (reason : Reason) (w : SyncEngine R S) → SameReplica w (rebootstrap reason w)
  unfolding rebootstrap drop_stream
  rebootstrap_lem reason w = ground arith

  -- After `rebootstrap` the engine has fired, or has stopped.
  pub rebootstrap-halts :
      (reason : Reason) (w : SyncEngine R S)
      → (rebootstrap reason w).rebootstrap_fired ≡ false
      → (rebootstrap reason w).has_stopped ≡ false
      → ⊥
  unfolding rebootstrap drop_stream
  rebootstrap-halts reason w h k = ground arith

  pub enqueue_apply_lem :
      (e : WireStreamEvent) (w : SyncEngine R S) → SameReplica w (enqueue_apply e w)
  unfolding enqueue_apply
  enqueue_apply_lem e w = ground arith

  pub chain_done_lem : (w : SyncEngine R S) → SameReplica w (chain_done w)
  unfolding chain_done
  chain_done_lem w = ground arith

  pub start_lem : (w : SyncEngine R S) → SameReplica w (start w)
  unfolding start
  start_lem w = ground arith

  pub stop_lem : (w : SyncEngine R S) → SameReplica w (stop w)
  unfolding stop
  stop_lem w = ground arith

  pub sleep_over_lem : (token : ℕ) (w : SyncEngine R S) → SameReplica w (sleep_over token w)
  unfolding sleep_over
  sleep_over_lem token w = ground arith

  pub subscribe_succeeded_lem :
      (now s : ℕ) (w : SyncEngine R S) → SameReplica w (subscribe_succeeded now s w)
  unfolding subscribe_succeeded
  subscribe_succeeded_lem now s w = ground arith

  module _ (o : SyncEngineOptions) where
    pub enter_reconnecting_lem : (w : SyncEngine R S) → SameReplica w (enter_reconnecting o w)
    unfolding enter_reconnecting
    enter_reconnecting_lem w = ground arith

    pub subscribe_failed_lem : (w : SyncEngine R S) → SameReplica w (subscribe_failed o w)
    unfolding subscribe_failed
    subscribe_failed_lem w = ground arith

    pub handle_stream_down_lem :
        (s : ℕ) (w : SyncEngine R S) → SameReplica w (handle_stream_down o s w)
    unfolding handle_stream_down drop_stream
    handle_stream_down_lem s w = ground arith

    pub watchdog_tick_lem : (now : ℕ) (w : SyncEngine R S) → SameReplica w (watchdog_tick o now w)
    unfolding watchdog_tick drop_stream
    watchdog_tick_lem now w = ground arith

    pub poll_once_lem : (w : SyncEngine R S) → SameReplica w (poll_once o w)
    unfolding poll_once
    poll_once_lem w = ground arith

    apply_page_lem :
        (events : List WireStreamEvent) (more : Bool) (pages : ℕ) (w : SyncEngine R S)
        → SameReplica w (apply_page o events more pages w)
    unfolding apply_page
    apply_page_lem [] more pages w = ground arith
    apply_page_lem (e ∷ rest) more pages w = ground arith

    pub page_received_lem :
        (events : List WireStreamEvent) (more : Bool) (w : SyncEngine R S)
        → SameReplica w (page_received o events more w)
    unfolding page_received apply_page
    page_received_lem [] more w = ground arith
    page_received_lem (e ∷ rest) more w = ground arith

    pub page_failed_lem : (w : SyncEngine R S) → SameReplica w (page_failed o w)
    unfolding page_failed
    page_failed_lem w = ground arith

    pub poll_resumed_lem : (w : SyncEngine R S) → SameReplica w (poll_resumed o w)
    poll_resumed_lem w = go w.polling refl
      where
        go : (p : Option PollFrame) → w.polling ≡ p → SameReplica w (poll_resumed o w)
        go (some (applying zero rest more pages)) e =
            let applied = apply_page_lem rest more pages w in
            unfold poll_resumed in simp (e, poll_resumed) (ground arith)
        go (some (applying (suc n) rest more pages)) e = unfold poll_resumed in ground arith
        go (some (requesting pages)) e = unfold poll_resumed in ground arith
        go none e = unfold poll_resumed in ground arith
