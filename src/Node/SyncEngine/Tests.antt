-- ===== src/Node/SyncEngine/Tests.antt =====
-- The theorems on packages/node/src/syncEngine.ts at concrete engines.
use express_token_revoker.Prelude.{
  ℕ, suc, zero, ◌≡◌, ◌≤◌, ◌+◌, ◌-◌, refl, true, false, Option, none, some, List, [], ◌∷◌, arith,
  take, length, if◌then◌else◌,
}
use express_token_revoker.Prelude.Text.{Text, codes, decimal, number}
use express_token_revoker.Node.SyncEngine.{
  SyncEngineOptions, SyncPeers, SyncEngine, resnapshot_required, new_engine, rebootstrap,
  drop_stream,
}
use express_token_revoker.Node.SyncEngine.Apply.{
  chain_step, enqueue_apply, apply_head, end_unless_rotating, apply_event, apply_body, check_lsn,
  apply_entry_body, persist_applied, chain_done,
}
use express_token_revoker.Node.SyncEngine.Connect.{subscribe_succeeded, start, stop, connected}
use express_token_revoker.Node.SyncEngine.Run.{
  Input, started, subscribed, stream_data, chain_ran, handle, run,
}
use express_token_revoker.Node.SyncEngine.Log.{LogEvent, revoke, rotation, replay, IsGenuine}
use express_token_revoker.Node.SyncEngine.Refinement.{run_refines_replay}
use express_token_revoker.Node.SyncEngine.Halt.{IsOff, Unchanged, stop_is_final, late_subscription}
use express_token_revoker.Node.SyncEngine.Counted.{rebootstraps}
use express_token_revoker.Node.SyncEngine.Once.{rebootstrap_at_most_once}
use express_token_revoker.Node.SyncEngine.CatchUp.{
  in_batches, concat, last_generation, wire, IsReady, catches_up,
}

-- A revoker that keeps its items, and a store that keeps what was written last.
abbrev peers : SyncPeers (List Text) (ℕ × ℕ)
peers = record {
  apply_entry = λ item r. (item ∷ r, true);
  rotate_on_demand = λ r. ([], true);
  update = λ lsn generation s. ((lsn, generation), true);
}

abbrev options : SyncEngineOptions
options = record {
  max_poll_events = 100;
  keepalive_interval_ms = 1000;
  base_reconnect_delay_ms = 100;
  max_reconnect_delay_ms = 5000;
}

abbrev no_other : Text → Option ℕ
no_other s = none

abbrev log : List LogEvent
log = revoke (codes "a") ∷ rotation ∷ revoke (codes "b") ∷ []

abbrev engine : SyncEngine (List Text) (ℕ × ℕ)
engine = new_engine [] (0, 0) 0 0

-- The first event comes twice.
abbrev delivery : List Input
delivery =
    started
    ∷ subscribed 5 1
    ∷ stream_data (wire 1 0 (revoke (codes "a")))
    ∷ chain_ran 6
    ∷ stream_data (wire 1 0 (revoke (codes "a")))
    ∷ chain_ran 7
    ∷ []

first-IsGenuine : IsGenuine no_other 0 log (wire 1 0 (revoke (codes "a")))
unfolding number decimal
first-IsGenuine zero h = refl
first-IsGenuine (suc i) h = absurd (ground (arith, h))

delivery-serves :
    ((run peers no_other options delivery engine).rebootstrap_fired ≡ false)
    × ((run peers no_other options delivery engine).has_stopped ≡ false)
unfolding run handle chain_step enqueue_apply subscribe_succeeded start new_engine apply_head
    end_unless_rotating apply_event apply_body check_lsn number decimal apply_entry_body
    persist_applied chain_done
delivery-serves = (refl, refl)

run_refines_replay_example :
    (0 ≤ (run peers no_other options delivery engine).last_applied_lsn)
    × ((run peers no_other options delivery engine).last_applied_lsn ≤ 0 + length log)
    × ((run peers no_other options delivery engine).revoker
        ≡ replay peers
            (take ((run peers no_other options delivery engine).last_applied_lsn - 0) log)
            [])
run_refines_replay_example =
    run_refines_replay peers no_other options 0 log [] (0, 0) 0 delivery
      (tt, (tt, (first-IsGenuine, (tt, (first-IsGenuine, (tt, tt)))))) delivery-serves.0
      delivery-serves.1

abbrev batches : List (List LogEvent)
batches = log ∷ (revoke (codes "b") ∷ []) ∷ []

catches_up_example :
    IsReady
      (run peers no_other options
        (started ∷ subscribed 9 1 ∷ in_batches 9 0 0 batches)
        (new_engine [] (0, 0) 0 0))
      (0 + length (concat batches))
      (last_generation 0 (concat batches))
      (replay peers (concat batches) [])
      []
catches_up_example =
    catches_up peers no_other options (λ item r. refl) (λ r. refl) (λ lsn generation s. refl) 9 1 0
      0 batches [] (0, 0) (omega arith)

rebootstrap_at_most_once_example :
    rebootstraps (run peers no_other options delivery engine).signals
    ≡ (if (run peers no_other options delivery engine).rebootstrap_fired then 1 else 0)
rebootstrap_at_most_once_example =
    rebootstrap_at_most_once peers no_other options [] (0, 0) 0 0 delivery

engine-serves :
    (engine.has_stopped ≡ false) × (engine.rebootstrap_fired ≡ false) × (engine.rotating ≡ none)
unfolding new_engine
engine-serves = (refl, refl, refl)

stop_is_final_example :
    IsOff (run peers no_other options delivery (stop engine))
    × Unchanged (stop engine) (run peers no_other options delivery (stop engine))
stop_is_final_example =
    stop_is_final peers no_other options delivery engine engine-serves.0 engine-serves.2

-- An engine that asked for a rebootstrap while it was subscribing.
abbrev fired_engine : SyncEngine (List Text) (ℕ × ℕ)
fired_engine = rebootstrap resnapshot_required (start engine)

fired_engine-fired :
    (fired_engine.has_stopped ≡ false)
    × (fired_engine.rebootstrap_fired ≡ true)
    × (fired_engine.rotating ≡ none)
unfolding new_engine rebootstrap start drop_stream
fired_engine-fired = (refl, refl, refl)

late_subscription_example :
    (connected (handle peers no_other options (subscribed 8 1) fired_engine) ≡ true)
    × ((handle peers no_other options (subscribed 8 1) fired_engine).stream ≡ some 1)
    × Unchanged fired_engine (
        run peers no_other options delivery
          (handle peers no_other options (subscribed 8 1) fired_engine))
late_subscription_example =
    late_subscription peers no_other options delivery 8 1 fired_engine fired_engine-fired.0
      fired_engine-fired.1 fired_engine-fired.2
