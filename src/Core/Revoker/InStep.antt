-- ===== src/Core/Revoker/InStep.antt =====
-- The gRPC server and the store of packages/core/src/index.ts, through any events.
use express_token_revoker.Prelude.{
  branch, ℕ, ◌≡◌, ◌≢◌, refl, sym, Bool, true, false, not, ◌&&◌, none, List, [], ◌∷◌, ◌++◌, length,
  ◌==◌,
}
use mathlib.Core.Path.{subst}
use express_token_revoker.Core.RevokerStore.{
  RevokerInstance, RevokerStore, open_store, register_instance,
}
use express_token_revoker.Core.Revoker.{
  Revoker, ServerPhase, idle, starting, running, stopping, Process, instance_of, release,
  destroy_begin, shutdown_begin, shutdown_end, server_stopped,
}
use express_token_revoker.Core.Revoker.Start.{
  register_waiters, bound, is_refused, grpc_init_in, grpc_init, create_revoker,
}
use express_token_revoker.Core.Revoker.Starts.{
  Holds, IsInStep, register_used, at, release-IsInStep, destroy_begin-IsInStep,
  shutdown_begin-IsInStep, shutdown_end-IsInStep, stopped-IsInStep, start_failed-IsInStep,
  register_waiters-IsInStep,
}

snoc-ne-nil : (xs : List (RevokerInstance ℕ)) (x : RevokerInstance ℕ) → xs ++ x ∷ [] ≢ []
snoc-ne-nil [] x = cc
snoc-ne-nil (y ∷ ys) x = cc

-- What happens to the process: revokers are created, the server answers that it is bound or not, or
-- that it has stopped, and revokers are destroyed and shut down, in steps.
pub data Event (B : Type 0) : Type 0 where
  create : Revoker B → Event B
  binding_ends : Bool → Event B
  stop_ends : Event B
  destroy_starts destroy_ends shutdown_starts shutdown_ends : ℕ → Event B

module _ {B : Type 0} where
  unfoldable pub handle : Event B → Process B → Process B
  unfolding create_revoker bound server_stopped destroy_begin release shutdown_begin shutdown_end
  handle (create r) p = create_revoker r p
  handle (binding_ends succeeds) p = bound succeeds p
  handle stop_ends p = server_stopped p
  handle (destroy_starts h) p = (destroy_begin h p).1
  handle (destroy_ends h) p = release h p
  handle (shutdown_starts h) p = shutdown_begin h p
  handle (shutdown_ends h) p = (shutdown_end h p).1

  unfoldable pub run : List (Event B) → Process B → Process B
  unfolding handle
  run [] p = p
  run (e ∷ es) p = run es (handle e p)

  bound-IsInStep :
      (succeeds : Bool) (phase : ServerPhase) (store : RevokerStore ℕ) (revokers : List (Revoker B))
      → Holds phase store
      → IsInStep (bound succeeds (at phase store revokers))
  unfolding bound register_waiters
  bound-IsInStep succeeds idle store revokers i = i
  bound-IsInStep succeeds (starting []) store revokers (empty, some_wait) = absurd (some_wait refl)
  bound-IsInStep true (starting (x ∷ xs)) store revokers (empty, some_wait) =
      rw empty (register_waiters-IsInStep xs x [] revokers)
  bound-IsInStep false (starting (x ∷ xs)) store revokers (empty, some_wait) =
      rw empty (start_failed-IsInStep x xs (starting (x ∷ xs)) revokers)
  bound-IsInStep succeeds running store revokers i = i
  bound-IsInStep succeeds stopping store revokers i = i

  init_in-IsInStep :
      (phase : ServerPhase) (store : RevokerStore ℕ) (x : RevokerInstance ℕ) (refused : Bool)
      (revokers : List (Revoker B))
      → Holds phase store
      → IsInStep (grpc_init_in phase x refused (at phase store revokers))
  unfolding open_store register_instance
  init_in-IsInStep idle store x true revokers i = rw i (start_failed-IsInStep x [] idle revokers)
  init_in-IsInStep idle store x false revokers i = rw i (refl, cc)
  init_in-IsInStep (starting waiters) store x refused revokers (empty, some_wait) =
      (empty, snoc-ne-nil waiters x)
  init_in-IsInStep running store x refused revokers (y, ys, used) =
      let (z, zs, done) = register_used x (y ∷ ys) in
      subst (λ s. Holds running (register_instance x s).1) (sym used)
        (subst (λ a. Holds running a.1) (sym done) (z, zs, refl))
  init_in-IsInStep stopping store x refused revokers i = rw i refl

  grpc_init-IsInStep :
      (h : ℕ) (r : Revoker B) (p : Process B) → IsInStep p → IsInStep (grpc_init h r p)
  unfolding grpc_init
  grpc_init-IsInStep h r p i =
      branch IsInStep (r.grpc_enabled && not (r.grpc_port == 0))
        (grpc_init_in p.server (instance_of h r) (is_refused r) p) p
        (init_in-IsInStep p.server p.store (instance_of h r) (is_refused r) p.revokers i) i

  handle-IsInStep : (e : Event B) (p : Process B) → IsInStep p → IsInStep (handle e p)
  unfolding handle create_revoker
  handle-IsInStep (create r) p i =
      grpc_init-IsInStep (length p.revokers) r (record p { revokers = p.revokers ++ r ∷ [] }) i
  handle-IsInStep (binding_ends succeeds) p i =
      bound-IsInStep succeeds p.server p.store p.revokers i
  handle-IsInStep stop_ends p i = stopped-IsInStep p.server p.store p.revokers i
  handle-IsInStep (destroy_starts h) p i = destroy_begin-IsInStep h p i
  handle-IsInStep (destroy_ends h) p i = release-IsInStep h p i
  handle-IsInStep (shutdown_starts h) p i = shutdown_begin-IsInStep h p i
  handle-IsInStep (shutdown_ends h) p i = shutdown_end-IsInStep h p i

  run-IsInStep : (es : List (Event B)) (p : Process B) → IsInStep p → IsInStep (run es p)
  unfolding run
  run-IsInStep [] p i = i
  run-IsInStep (e ∷ es) p i = run-IsInStep es (handle e p) (handle-IsInStep e p i)

  -- From a process without a server on, through any creations, bindings that succeed or fail,
  -- destructions, shutdowns and stops in any order: the store is open exactly while the server
  -- starts or runs, it is empty while it starts, with a revoker that waits for the start, and while
  -- it runs at least one revoker is registered.
  pub store_follows_server :
      (es : List (Event B)) (p : Process B)
      → p.server ≡ idle
      → p.store ≡ none
      → let p' = run es p in Holds p'.server p'.store
  store_follows_server es p unstarted shut = run-IsInStep es p (rw unstarted shut)
