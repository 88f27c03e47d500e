-- ===== src/Node/SyncEngine/Refinement.antt =====
-- The replication of packages/node/src/syncEngine.ts refines the replay of the coordinator's log.
use express_token_revoker.Prelude.{
  ℕ, ◌+◌, ◌-◌, ◌≡◌, refl, ap, ◌∙◌, false, Option, List, [], ◌∷◌, ◌≤◌, arith, take, length, All,
}
use express_token_revoker.Prelude.Text.{Text}
use express_token_revoker.Node.SyncEngine.{SyncEngineOptions, SyncPeers, SyncEngine, new_engine}
use express_token_revoker.Node.SyncEngine.Run.{
  Input, started, has_subscribe_failed, poll_ticked, poll_failed, poll_continued, stop_called,
  subscribed, stream_data, stream_down, sleep_ended, watchdog_ticked, chain_ran, rotation_ended,
  page_arrived, handle, run,
}
use express_token_revoker.Node.SyncEngine.Log.{LogEvent, replay, IsGenuine}
use express_token_revoker.Node.SyncEngine.Frames.{
  enqueue_apply_lem, start_lem, stop_lem, sleep_over_lem, subscribe_succeeded_lem,
  subscribe_failed_lem, handle_stream_down_lem, watchdog_tick_lem, poll_once_lem, page_received_lem,
  page_failed_lem, poll_resumed_lem,
}
use express_token_revoker.Node.SyncEngine.Replica.{IsReplica, SameReplica-IsReplica}
use express_token_revoker.Node.SyncEngine.Chain.{chain_step-IsReplica, rotation_settled-IsReplica}
use express_token_revoker.Node.SyncEngine.Queue.{Brings, IsQueued, handle-IsQueued}

module _ {R S : Type 0} (peers : SyncPeers R S) (other : Text → Option ℕ) (o : SyncEngineOptions)
    (origin : ℕ) (log : List LogEvent) (r₀ : R) where
  handle-IsReplica :
      (x : Input) (w : SyncEngine R S)
      → IsReplica peers other origin log r₀ w
      → IsQueued (IsGenuine other origin log) w
      → IsReplica peers other origin log r₀ (handle peers other o x w)
  unfolding handle
  handle-IsReplica started w h q = SameReplica-IsReplica _ _ _ _ _ (start_lem w) h
  handle-IsReplica has_subscribe_failed w h q =
      SameReplica-IsReplica _ _ _ _ _ (subscribe_failed_lem o w) h
  handle-IsReplica (subscribed now s) w h q =
      SameReplica-IsReplica _ _ _ _ _ (subscribe_succeeded_lem now s w) h
  handle-IsReplica (stream_data e) w h q = SameReplica-IsReplica _ _ _ _ _ (enqueue_apply_lem e w) h
  handle-IsReplica (stream_down s) w h q =
      SameReplica-IsReplica _ _ _ _ _ (handle_stream_down_lem o s w) h
  handle-IsReplica (sleep_ended token) w h q =
      SameReplica-IsReplica _ _ _ _ _ (sleep_over_lem token w) h
  handle-IsReplica (watchdog_ticked now) w h q =
      SameReplica-IsReplica _ _ _ _ _ (watchdog_tick_lem o now w) h
  handle-IsReplica poll_ticked w h q = SameReplica-IsReplica _ _ _ _ _ (poll_once_lem o w) h
  handle-IsReplica (page_arrived events more) w h q =
      SameReplica-IsReplica _ _ _ _ _ (page_received_lem o events more w) h
  handle-IsReplica poll_failed w h q = SameReplica-IsReplica _ _ _ _ _ (page_failed_lem o w) h
  handle-IsReplica poll_continued w h q = SameReplica-IsReplica _ _ _ _ _ (poll_resumed_lem o w) h
  handle-IsReplica (chain_ran now) w h q =
      chain_step-IsReplica peers other origin log r₀ now w h q.chain
  handle-IsReplica (rotation_ended now) w h q =
      rotation_settled-IsReplica peers other origin log r₀ now w h
  handle-IsReplica stop_called w h q = SameReplica-IsReplica _ _ _ _ _ (stop_lem w) h

  run-IsReplica :
      (xs : List Input) (w : SyncEngine R S)
      → All (Brings (IsGenuine other origin log)) xs
      → IsReplica peers other origin log r₀ w
      → IsQueued (IsGenuine other origin log) w
      → IsReplica peers other origin log r₀ (run peers other o xs w)
  unfolding run
  run-IsReplica [] w bs h q = h
  run-IsReplica (x ∷ xs) w (b, bs) h q =
      run-IsReplica xs (handle peers other o x w) bs (handle-IsReplica x w h q)
        (handle-IsQueued _ peers other o x w b q)

  abbrev pub replica_after : S → ℕ → List Input → SyncEngine R S
  replica_after s generation xs = run peers other o xs (new_engine r₀ s origin generation)

  new_engine-IsReplica :
      (s : S) (generation : ℕ)
      → IsReplica peers other origin log r₀ (new_engine r₀ s origin generation)
  unfolding new_engine
  new_engine-IsReplica s generation = record {
    count = 0;
    position = omega arith;
    within = omega arith;
    replica = λ f st. refl;
    awaits = λ lsn g e. cc;
  }

  new_engine-IsQueued :
      (s : S) (generation : ℕ)
      → IsQueued (IsGenuine other origin log) (new_engine r₀ s origin generation)
  unfolding new_engine
  new_engine-IsQueued s generation = record { chain = tt; polling = tt }

  -- Whatever timers, streams, polls and failures do, in any order: if every event that is delivered
  -- comes from the coordinator's log (duplicates, gaps, malformed LSNs and wrong generations
  -- included), then, as long as the engine has not stopped and has not asked for a rebootstrap,
  -- `last_applied_lsn` lies within the log and the replica is exactly the replay of the log up to
  -- that LSN: no event below it was dropped, applied twice or applied out of order.
  pub run_refines_replay :
      (s : S) (generation : ℕ) (xs : List Input)
      → All (Brings (IsGenuine other origin log)) xs
      → (replica_after s generation xs).rebootstrap_fired ≡ false
      → (replica_after s generation xs).has_stopped ≡ false
      → (origin ≤ (replica_after s generation xs).last_applied_lsn)
        × ((replica_after s generation xs).last_applied_lsn ≤ origin + length log)
        × ((replica_after s generation xs).revoker
            ≡ replay peers
                (take ((replica_after s generation xs).last_applied_lsn - origin) log)
                r₀)
  run_refines_replay s generation xs bs fired stopped =
      let h =
        run-IsReplica xs (new_engine r₀ s origin generation) bs (new_engine-IsReplica s generation)
          (new_engine-IsQueued s generation) in
      (
        omega (arith, h.position),
        omega (arith, h.position, h.within),
        h.replica fired stopped
            ∙ ap (λ n. replay peers (take n log) r₀) (omega (arith, h.position)),
      )
