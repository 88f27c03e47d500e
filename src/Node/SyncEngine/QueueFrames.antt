-- ===== src/Node/SyncEngine/QueueFrames.antt =====
-- Which operations of packages/node/src/syncEngine.ts leave its queues alone: the chain of events
-- to be applied and the page that a poll is working on.
use express_token_revoker.Prelude.{ℕ, ◌≡◌, refl, Option, none, some, arith}
use express_token_revoker.Prelude.Text.{Text}
use express_token_revoker.Node.SyncEngine.{
  WireStreamEvent, unknown, entry, rotate, keepalive, resnapshot, Reason, SyncEngineOptions,
  SyncPeers, SyncEngine, drop_stream, rebootstrap,
}
use express_token_revoker.Node.SyncEngine.Apply.{
  persist_applied, apply_entry_body, apply_rotate_body, check_lsn, apply_body, apply_event,
  after_rotation,
}
use express_token_revoker.Node.SyncEngine.Connect.{
  start, stop, sleep_over, subscribe_succeeded, subscribe_failed, handle_stream_down, watchdog_tick,
}

module _ {R S : Type 0} where
  abbrev pub SameQueue : SyncEngine R S → SyncEngine R S → Type 0
  SameQueue w w' = (w'.chain ≡ w.chain) × (w'.polling ≡ w.polling)

  rebootstrap-queue : (reason : Reason) (w : SyncEngine R S) → SameQueue w (rebootstrap reason w)
  unfolding rebootstrap drop_stream
  rebootstrap-queue reason w = ground arith

  module _ (peers : SyncPeers R S) where
    persist_applied-queue :
        (now lsn : ℕ) (w : SyncEngine R S) → SameQueue w (persist_applied peers now lsn w)
    unfolding persist_applied rebootstrap drop_stream
    persist_applied-queue now lsn w = ground arith

    apply_entry_body-queue :
        (now lsn : ℕ) (item : Text) (w : SyncEngine R S)
        → SameQueue w (apply_entry_body peers now lsn item w)
    unfolding apply_entry_body rebootstrap drop_stream persist_applied
    apply_entry_body-queue now lsn item w = ground arith

    pub after_rotation-queue :
        (now lsn expected : ℕ) (w : SyncEngine R S)
        → SameQueue w (after_rotation peers now lsn expected w)
    unfolding after_rotation rebootstrap drop_stream persist_applied
    after_rotation-queue now lsn expected w = ground arith

  apply_rotate_body-queue :
      (lsn g : ℕ) (w : SyncEngine R S) → SameQueue w (apply_rotate_body lsn g w)
  unfolding apply_rotate_body rebootstrap drop_stream
  apply_rotate_body-queue lsn g w = ground arith

  check_lsn-queue :
      (n : Option ℕ) (apply : ℕ → SyncEngine R S → SyncEngine R S) (w : SyncEngine R S)
      → ((lsn : ℕ) → SameQueue w (apply lsn w))
      → SameQueue w (check_lsn n apply w)
  unfolding check_lsn rebootstrap drop_stream
  check_lsn-queue none apply w h = ground arith
  check_lsn-queue (some lsn) apply w h = ground (arith, h lsn)

  module _ (peers : SyncPeers R S) (other : Text → Option ℕ) where
    apply_body-queue :
        (now : ℕ) (e : WireStreamEvent) (w : SyncEngine R S)
        → SameQueue w (apply_body peers other now e w)
    unfolding apply_body
    apply_body-queue now unknown w = (refl, refl)
    apply_body-queue now keepalive w = (refl, refl)
    apply_body-queue now resnapshot w = rebootstrap-queue _ w
    apply_body-queue now (entry none) w = rebootstrap-queue _ w
    apply_body-queue now (entry (some b)) w =
        check_lsn-queue _ _ w λ lsn. apply_entry_body-queue peers now lsn b.item w
    apply_body-queue now (rotate none) w = rebootstrap-queue _ w
    apply_body-queue now (rotate (some b)) w =
        check_lsn-queue _ _ w λ lsn. apply_rotate_body-queue lsn b.generation w

    pub apply_event-queue :
        (now : ℕ) (e : WireStreamEvent) (w : SyncEngine R S)
        → SameQueue w (apply_event peers other now e w)
    unfolding apply_event
    apply_event-queue now e w = ground (arith, apply_body-queue now e w)

  pub start-queue : (w : SyncEngine R S) → SameQueue w (start w)
  unfolding start
  start-queue w = ground arith

  pub stop-queue : (w : SyncEngine R S) → SameQueue w (stop w)
  unfolding stop
  stop-queue w = ground arith

  pub sleep_over-queue : (token : ℕ) (w : SyncEngine R S) → SameQueue w (sleep_over token w)
  unfolding sleep_over
  sleep_over-queue token w = ground arith

  pub subscribe_succeeded-queue :
      (now s : ℕ) (w : SyncEngine R S) → SameQueue w (subscribe_succeeded now s w)
  unfolding subscribe_succeeded
  subscribe_succeeded-queue now s w = ground arith

  module _ (o : SyncEngineOptions) where
    pub subscribe_failed-queue : (w : SyncEngine R S) → SameQueue w (subscribe_failed o w)
    unfolding subscribe_failed
    subscribe_failed-queue w = ground arith

    pub handle_stream_down-queue :
        (s : ℕ) (w : SyncEngine R S) → SameQueue w (handle_stream_down o s w)
    unfolding handle_stream_down drop_stream
    handle_stream_down-queue s w = ground arith

    pub watchdog_tick-queue : (now : ℕ) (w : SyncEngine R S) → SameQueue w (watchdog_tick o now w)
    unfolding watchdog_tick drop_stream
    watchdog_tick-queue now w = ground arith
