-- ===== src/Server/DistributedServer/OneStream.antt =====
-- A node of packages/server/src/distributedServer.ts has at most one open stream, and the registry
-- knows it.
use express_token_revoker.Prelude.{
  ℕ, ◌≡◌, refl, ◌⊎◌, Bool, true, false, Option, none, some, List, [], ◌∷◌,
}
use express_token_revoker.Prelude.Text.{Text}
use express_token_revoker.Server.CanonicalWal.Wal.{Faults}
use express_token_revoker.Server.Coordinator.{Revoker, CallFaults, on_core_rotation}
use express_token_revoker.Server.NodeRegistry.{NodeEntry}
use express_token_revoker.Server.DistributedServer.{
  DistributedServer, listening, close_stream, stream_step, keepalive_due, core_rotates, start, stop,
}
use express_token_revoker.Server.DistributedServer.Serve.{
  Request, Lookup, AuthMode, insecure, with_secret, CallContext, authenticate, guarded, serve,
}
use express_token_revoker.Server.DistributedServer.Agreement.{
  IsTidy, HasDistinctNodes, AllOpen, agreed, registered, streaming,
}
use express_token_revoker.Server.DistributedServer.Kept.{
  heard-IsTidy, close_stream-IsTidy, keepalive_due-IsTidy, start-IsTidy, stop-IsTidy,
  stream_step-IsTidy, handle-IsTidy,
}

-- What happens to a server: its calls, the steps of its streams, the ends of their calls, their
-- timers, the rotations of the core, a start and a stop.
pub data Event : Type 0 where
  call_arrives : AuthMode → Text → CallContext → Request → Event
  stream_steps : Bool → Faults → ℕ → ℕ → Event
  stream_ends : ℕ → Event
  timer_ticks : ℕ → ℕ → Event
  rotation_ends : CallFaults → Event
  start_called : Bool → Bool → Text → Event
  stop_called : Event

module _ {R : Type 0} (revokers : Revoker R) (lookup : Lookup R) (other : Text → Option ℕ) where
  unfoldable pub run_event : (Text → Text) → Event → DistributedServer R → DistributedServer R
  unfolding serve stream_step close_stream keepalive_due core_rotates start stop
  run_event digest (call_arrives mode secret x request) s =
      (serve revokers lookup other digest mode secret x request s).1
  run_event digest (stream_steps refused faults now h) s = stream_step other refused faults now h s
  run_event digest (stream_ends h) s = close_stream h s
  run_event digest (timer_ticks now h) s = keepalive_due now h s
  run_event digest (rotation_ends faults) s = core_rotates other faults s
  run_event digest (start_called is_insecure unreadable host) s =
      (start is_insecure unreadable host s).1
  run_event digest stop_called s = stop s

  unfoldable pub run_events : (Text → Text) → List Event → DistributedServer R → DistributedServer R
  unfolding run_event
  run_events digest [] s = s
  run_events digest (e ∷ es) s = run_events digest es (run_event digest e s)

  run_event-IsTidy :
      (digest : Text → Text) (e : Event) (s : DistributedServer R)
      → IsTidy s
      → IsTidy (run_event digest e s)
  unfolding run_event serve core_rotates
  run_event-IsTidy digest (call_arrives insecure secret x request) s t =
      handle-IsTidy revokers lookup other x request s t
  run_event-IsTidy digest (call_arrives with_secret secret x request) s t =
      checked (authenticate digest secret x.metadata)
    where
      checked : (b : Bool) → IsTidy (guarded revokers lookup other b x request s).1
      checked false = t
      checked true = handle-IsTidy revokers lookup other x request s t
  run_event-IsTidy digest (stream_steps refused faults now h) s t =
      stream_step-IsTidy revokers lookup other refused faults now h s t
  run_event-IsTidy digest (stream_ends h) s t = close_stream-IsTidy h s t
  run_event-IsTidy digest (timer_ticks now h) s t = keepalive_due-IsTidy now h s t
  run_event-IsTidy digest (rotation_ends faults) s t =
      heard-IsTidy (on_core_rotation other faults (listening s.coordinator)) s t
  run_event-IsTidy digest (start_called is_insecure unreadable host) s t =
      start-IsTidy is_insecure unreadable host s t
  run_event-IsTidy digest stop_called s t = stop-IsTidy s

  run_events-IsTidy :
      (digest : Text → Text) (es : List Event) (s : DistributedServer R)
      → IsTidy s
      → IsTidy (run_events digest es s)
  unfolding run_events
  run_events-IsTidy digest [] s t = t
  run_events-IsTidy digest (e ∷ es) s t =
      run_events-IsTidy digest es (run_event digest e s) (run_event-IsTidy digest e s t)

  -- Whatever calls arrive in whatever order, and however the steps and ends of the streams, the
  -- timers, the rotations, the failures, starts and stops fall between them, a server that began
  -- without streams has, as long as its registry is open, exactly one open stream for each entry of
  -- the registry, in the same order, and no two of one node; while the registry is closed it has no
  -- stream.
  pub one_stream_per_node :
      (digest : Text → Text) (es : List Event) (s : DistributedServer R)
      → s.registry ≡ none
      → s.connections ≡ []
      → let s' = run_events digest es s in
        ((s'.registry ≡ none) × (s'.connections ≡ []))
        ⊎ ((nodes : List (NodeEntry ℕ)) × (s'.registry ≡ some nodes)
            × (registered nodes ≡ streaming s'.connections)
            × AllOpen s'.connections
            × HasDistinctNodes s'.connections)
  one_stream_per_node digest es s closed empty =
      let s' = run_events digest es s in
      agreed s'.calls s'.registry s'.connections
        (run_events-IsTidy digest es s (simp (closed, empty) refl))
