-- ===== src/Node/SyncEngine/Once.antt =====
-- How often packages/node/src/syncEngine.ts asks its owner for a rebootstrap.
use express_token_revoker.Prelude.{
  ℕ, zero, suc, ◌≡◌, refl, Bool, Option, none, some, List, [], ◌∷◌, arith, if◌then◌else◌,
}
use express_token_revoker.Prelude.Text.{Text}
use express_token_revoker.Node.SyncEngine.{
  WireStreamEvent, SyncEngineOptions, SyncPeers, SyncEngine, PollFrame, requesting, applying,
  drop_stream, new_engine,
}
use express_token_revoker.Node.SyncEngine.Apply.{enqueue_apply}
use express_token_revoker.Node.SyncEngine.Connect.{
  start, stop, sleep_over, subscribe_succeeded, subscribe_failed, handle_stream_down, watchdog_tick,
  schedule_reconnect, enter_reconnecting, start_polling,
}
use express_token_revoker.Node.SyncEngine.Poll.{
  apply_page, poll_once, page_received, page_failed, poll_resumed,
}
use express_token_revoker.Node.SyncEngine.Run.{
  Input, started, has_subscribe_failed, poll_ticked, poll_failed, poll_continued, stop_called,
  subscribed, stream_data, stream_down, sleep_ended, watchdog_ticked, chain_ran, rotation_ended,
  page_arrived, handle, run,
}
use express_token_revoker.Node.SyncEngine.Counted.{
  rebootstraps, rebootstraps-snoc, Counted, chain_step-Counted, rotation_settled-Counted,
}

module _ {R S : Type 0} (o : SyncEngineOptions) where
  apply_page-Counted :
      (events : List WireStreamEvent) (more : Bool) (pages : ℕ) (w : SyncEngine R S)
      → Counted w
      → Counted (apply_page o events more pages w)
  unfolding apply_page
  apply_page-Counted [] more pages w h = record {
    count = grind (arith, rebootstraps-snoc, h.count);
  }
  apply_page-Counted (e ∷ es) more pages w h = record { count = h.count }

  poll_resumed-Counted : (w : SyncEngine R S) → Counted w → Counted (poll_resumed o w)
  poll_resumed-Counted w h = go w.polling refl
    where
      go : (p : Option PollFrame) → w.polling ≡ p → Counted (poll_resumed o w)
      go (some (applying zero rest more pages)) e =
          let applied = apply_page-Counted rest more pages w h in
          unfold poll_resumed in
          simp (e, poll_resumed) (record { count = ground (arith, h.count, applied.count) })
      go (some (applying (suc n) rest more pages)) e =
          unfold poll_resumed in simp (e, poll_resumed) h
      go (some (requesting pages)) e = unfold poll_resumed in simp (e, poll_resumed) h
      go none e = unfold poll_resumed in simp (e, poll_resumed) h

module _ {R S : Type 0} (peers : SyncPeers R S) (other : Text → Option ℕ)
    (o : SyncEngineOptions) where
  handle-Counted : (x : Input) (w : SyncEngine R S) → Counted w → Counted (handle peers other o x w)
  unfolding handle
  handle-Counted started w h =
      unfold start in record { count = grind (arith, rebootstraps-snoc, h.count) }
  handle-Counted has_subscribe_failed w h =
      unfold subscribe_failed schedule_reconnect enter_reconnecting start_polling in
      record { count = grind (arith, rebootstraps-snoc, h.count) }
  handle-Counted (subscribed now s) w h =
      unfold subscribe_succeeded in record { count = grind (arith, rebootstraps-snoc, h.count) }
  handle-Counted (stream_data e) w h =
      unfold enqueue_apply in record { count = grind (arith, rebootstraps-snoc, h.count) }
  handle-Counted (stream_down s) w h =
      unfold handle_stream_down drop_stream in
      record { count = grind (arith, rebootstraps-snoc, h.count) }
  handle-Counted (sleep_ended token) w h =
      unfold sleep_over in record { count = grind (arith, rebootstraps-snoc, h.count) }
  handle-Counted (watchdog_ticked now) w h =
      unfold watchdog_tick drop_stream in
      record { count = grind (arith, rebootstraps-snoc, h.count) }
  handle-Counted poll_ticked w h =
      unfold poll_once in record { count = grind (arith, rebootstraps-snoc, h.count) }
  handle-Counted (page_arrived [] more) w h =
      unfold page_received apply_page in
      record { count = grind (arith, rebootstraps-snoc, h.count) }
  handle-Counted (page_arrived (e ∷ es) more) w h =
      unfold page_received apply_page in
      record { count = grind (arith, rebootstraps-snoc, h.count) }
  handle-Counted poll_failed w h =
      unfold page_failed in record { count = grind (arith, rebootstraps-snoc, h.count) }
  handle-Counted stop_called w h =
      unfold stop in record { count = grind (arith, rebootstraps-snoc, h.count) }
  handle-Counted (chain_ran now) w h = chain_step-Counted peers other now w h
  handle-Counted (rotation_ended now) w h = rotation_settled-Counted peers other now w h
  handle-Counted poll_continued w h = poll_resumed-Counted o w h

  run-Counted :
      (xs : List Input) (w : SyncEngine R S) → Counted w → Counted (run peers other o xs w)
  unfolding run
  run-Counted [] w h = h
  run-Counted (x ∷ xs) w h = run-Counted xs (handle peers other o x w) (handle-Counted x w h)

  -- Over any run of a new engine, the owner is asked for a rebootstrap exactly once if the engine
  -- has fired, and never otherwise, whatever fails and however often.
  pub rebootstrap_at_most_once :
      (r : R) (s : S) (lsn generation : ℕ) (xs : List Input)
      → rebootstraps (run peers other o xs (new_engine r s lsn generation)).signals ≡ (
          if (run peers other o xs (new_engine r s lsn generation)).rebootstrap_fired then 1 else 0)
  rebootstrap_at_most_once r s lsn generation xs =
      (run-Counted xs (new_engine r s lsn generation)
        (record { count = unfold new_engine in refl })).count
