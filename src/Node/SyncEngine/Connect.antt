-- ===== src/Node/SyncEngine/Connect.antt =====
-- The streaming side of packages/node/src/syncEngine.ts: `start`, `stop`, `#trySubscribe`, the
-- reconnects and the stalled-stream watchdog.
use Prim.Native.Nat.{min}
use express_token_revoker.Prelude.{
  ℕ, ◌+◌, ◌-◌, ◌*◌, ◌^◌, Bool, true, false, not, ◌||◌, none, some, [], ◌∷◌, ◌++◌, ltb, ◌==◌,
  if◌then◌else◌,
}
use express_token_revoker.Node.SyncEngine.{
  streaming, reconnecting, stopped, SyncEngineOptions, SyncEngine, subscribe, cancel, sleep, emit,
  drop_stream, missed_keepalives,
}

-- The delay before the jitter of `withJitter` (a random factor between 0.8 and 1.2).
unfoldable pub raw_delay : SyncEngineOptions → ℕ → ℕ
raw_delay o attempt = min (o.base_reconnect_delay_ms * 2 ^ min attempt 14) o.max_reconnect_delay_ms

module _ {R S : Type 0} where
  -- `this.#mode === 'streaming'`, the getter `connected`
  abbrev pub connected : SyncEngine R S → Bool
  connected w = elim w.mode [ streaming ↦ true | _ ↦ false ]

  -- `#startPolling`
  unfoldable pub start_polling : SyncEngine R S → SyncEngine R S
  start_polling w = if w.poll_timer || w.has_stopped then w else record w { poll_timer = true }

  module _ (o : SyncEngineOptions) where
    -- `#scheduleReconnect`, up to its sleep
    unfoldable pub schedule_reconnect : SyncEngine R S → SyncEngine R S
    schedule_reconnect w = if w.has_stopped then w else record w {
      reconnect_attempt = w.reconnect_attempt + 1;
      signals = w.signals ++ sleep (raw_delay o w.reconnect_attempt) w.schedule_token ∷ [];
    }

    -- `#enterReconnecting`: in both of its branches polling and a retry run unless stopped
    unfoldable pub enter_reconnecting : SyncEngine R S → SyncEngine R S
    unfolding start_polling schedule_reconnect
    enter_reconnecting w =
        if w.has_stopped || (elim w.mode [ reconnecting ↦ true | _ ↦ false ])
        then if w.has_stopped then w else schedule_reconnect (start_polling w)
        else schedule_reconnect (start_polling (record w { mode = reconnecting }))

    -- `#handleStreamDown` for the stream numbered `s`
    unfoldable pub handle_stream_down : ℕ → SyncEngine R S → SyncEngine R S
    unfolding enter_reconnecting
    handle_stream_down s w =
        let down = enter_reconnecting (drop_stream w) in
        if w.has_stopped
        then w
        else elim w.stream [ none ↦ w | some t ↦ if t == s then down else w ]

    -- `#trySubscribe` after its await: the call failed, or gave the stream numbered `s`.
    unfoldable pub subscribe_failed : SyncEngine R S → SyncEngine R S
    unfolding enter_reconnecting
    subscribe_failed w = if w.has_stopped then w else enter_reconnecting w

    -- One tick of the watchdog's timer.
    unfoldable pub watchdog_tick : ℕ → SyncEngine R S → SyncEngine R S
    unfolding handle_stream_down
    watchdog_tick now w =
        if not w.keepalive_watchdog || w.has_stopped || not (connected w)
        then w
        else elim w.stream [
          | none ↦ w
          | some s ↦
              if ltb (missed_keepalives * o.keepalive_interval_ms) (now - w.last_stream_activity_at)
              then handle_stream_down s w
              else w
        ]

  unfoldable pub subscribe_succeeded : ℕ → ℕ → SyncEngine R S → SyncEngine R S
  subscribe_succeeded now s w = if w.has_stopped then emit (cancel s) w else record w {
    stream = some s;
    mode = streaming;
    reconnect_attempt = 0;
    poll_timer = false;
    keepalive_watchdog = true;
    last_stream_activity_at = now;
  }

  -- `#trySubscribe` up to its await
  unfoldable pub try_subscribe : SyncEngine R S → SyncEngine R S
  try_subscribe w =
      if w.has_stopped || connected w then w else emit (subscribe w.last_applied_lsn) w

  unfoldable pub start : SyncEngine R S → SyncEngine R S
  unfolding try_subscribe
  start w = if w.has_stopped then w else try_subscribe w

  -- The sleep that `#scheduleReconnect` took at `token` is over.
  unfoldable pub sleep_over : ℕ → SyncEngine R S → SyncEngine R S
  unfolding try_subscribe
  sleep_over token w =
      if w.has_stopped || not (token == w.schedule_token) then w else try_subscribe w

  -- `stop`, up to the await of the chain
  unfoldable pub stop : SyncEngine R S → SyncEngine R S
  unfolding drop_stream
  stop w =
      if w.has_stopped
      then w
      else drop_stream (record w {
        has_stopped = true;
        mode = stopped;
        schedule_token = w.schedule_token + 1;
        poll_timer = false;
        keepalive_watchdog = false;
      })
