-- ===== src/Core/Revoker.antt =====
-- The class `Revoker` and the gRPC state of its process, packages/core/src/index.ts. Revokers are
-- objects: `revokers` holds them, by the number of their creation. A method that waits is several
-- steps.
pub mod Start
pub mod Methods
pub mod Service
pub mod Starts
pub mod InStep
pub mod Namesakes
pub mod Found
mod Tests
use express_token_revoker.Prelude.{
  ℕ, ◌+◌, Bool, true, false, not, ◌&&◌, ◌||◌, ◌==◌, Option, none, some, List, [], ◌∷◌, ◌++◌, length,
  get_elem?, set, if◌then◌else◌,
}
use express_token_revoker.Prelude.Result.{Result, ok, err, internal_error, validation_error}
use express_token_revoker.Prelude.Text.{Text, codes, text_eq}
use express_token_revoker.Core.FilterManager
use express_token_revoker.Core.FilterManager.{Backups, FilterManager}
use express_token_revoker.Core.FilterManager.Lifecycle.{begin_shutdown, Restores}
use express_token_revoker.Core.FilterManager.Lifecycle
use express_token_revoker.Core.RevokerStore.{
  RevokerInstance, RevokerStore, open_store, register_instance, unregister_instance, close_store,
  is_empty_store,
}

pub record Revoker (B : Type 0) : Type 0 where
  pub id : Text
  pub bloom_filter_manager : Option (FilterManager B)
  pub has_middleware : Bool
  pub grpc_enabled : Bool
  pub grpc_port : ℕ
  pub grpc_host : Text
  pub grpc_allow_insecure_remote : Bool

-- `grpcServerInitPromise` and `Revoker.grpcServerStarted`: the promise is there in all phases but the
-- first, and the flag is set in the last two. `starting` holds the revokers that await the promise.
pub data ServerPhase : Type 0 where
  idle : ServerPhase
  starting : List (RevokerInstance ℕ) → ServerPhase
  running : ServerPhase
  stopping : ServerPhase

pub record Process (B : Type 0) : Type 0 where
  pub store : RevokerStore ℕ
  pub server : ServerPhase
  pub revokers : List (Revoker B)

abbrev pub is_started : ServerPhase → Bool
is_started idle = false
is_started (starting waiters) = false
is_started running = true
is_started stopping = true

-- `isLoopbackHost` of packages/core/src/grpc/std-server.ts
unfoldable pub is_local_address : Text → Bool
is_local_address (a ∷ b ∷ c ∷ d ∷ host) = (a == b'1') && (b == b'2') && (c == b'7') && (d == b'.')
is_local_address host = false

unfoldable pub is_loopback : Text → Bool
unfolding is_local_address text_eq
is_loopback host =
    text_eq host (codes "localhost") || text_eq host (codes "::1") || is_local_address host

module _ {B : Type 0} where
  -- The end of the constructor: the manager, unless making it threw, and the middleware that the
  -- configuration asks for.
  abbrev pub new_revoker : Option (FilterManager B) → Bool → Revoker B → Result (Revoker B)
  new_revoker none has_middleware r = err internal_error
  new_revoker (some s) false r = err validation_error
  new_revoker (some s) true r =
      ok (record r { bloom_filter_manager = some s; has_middleware = true })

  abbrev pub put_revoker : ℕ → Revoker B → Process B → Process B
  put_revoker h r p = record p { revokers = set p.revokers h r }

  abbrev pub instance_of : ℕ → Revoker B → RevokerInstance ℕ
  instance_of h r = record { id = r.id; bloom_filter_manager = some h }

  -- `this.middleware = null` and `this.bloomFilterManager = null`
  abbrev pub released : Revoker B → Revoker B
  released r = record r { bloom_filter_manager = none; has_middleware = false }

  -- `#cleanupGrpc` up to its await of `stopServer`
  abbrev pub emptied :
      Result Bool → ℕ → Revoker B → RevokerStore ℕ → Process B → Result (Unit {0}) × Process B
  emptied (ok true) h r store p =
      (ok tt, record (put_revoker h r p) { store = (close_store store).1; server = stopping })
  emptied (ok false) h r store p = (ok tt, record (put_revoker h r p) { store = store })
  emptied (err e) h r store p = (err e, record (put_revoker h r p) { store = store })

  abbrev pub unregistered :
      Result (Unit {0}) × RevokerStore ℕ → ℕ → Revoker B → Process B → Result (Unit {0}) × Process B
  unregistered (err e, store) h r p = (err e, record p { store = store })
  unregistered (ok _, store) h r p =
      emptied (is_empty_store store) h (record r { grpc_enabled = false }) store p

  unfoldable pub cleanup_grpc : ℕ → Revoker B → Process B → Result (Unit {0}) × Process B
  unfolding unregister_instance is_empty_store close_store
  cleanup_grpc h r p =
      if r.grpc_enabled && is_started p.server
      then unregistered (unregister_instance r.id p.store) h r p
      else (ok tt, p)

  -- The rest of `destroy` once `#cleanupGrpc` has returned
  abbrev pub release_found : ℕ → Option (Revoker B) → Process B → Process B
  release_found h none p = p
  release_found h (some r) p = put_revoker h (released r) p

  unfoldable pub release : ℕ → Process B → Process B
  release h p = release_found h (get_elem? p.revokers h) p

  -- `destroy` up to the await of `#cleanupGrpc`, and of a revoker that failed to start, where
  -- `#cleanupGrpc` does not wait
  abbrev pub destroy_found : ℕ → Option (Revoker B) → Process B → Result (Unit {0}) × Process B
  destroy_found h none p = (ok tt, p)
  destroy_found h (some r) p = cleanup_grpc h r p

  unfoldable pub destroy_begin : ℕ → Process B → Result (Unit {0}) × Process B
  unfolding cleanup_grpc
  destroy_begin h p = destroy_found h (get_elem? p.revokers h) p

  -- `shutdown` up to the await of the manager's, and from there on
  abbrev pub closing : Revoker B → Revoker B
  closing r = record r {
    bloom_filter_manager = elim r.bloom_filter_manager [
      | none ↦ none
      | some s ↦ some (begin_shutdown s)
    ];
  }

  abbrev pub closing_found : ℕ → Option (Revoker B) → Process B → Process B
  closing_found h none p = p
  closing_found h (some r) p = put_revoker h (closing r) p

  unfoldable pub shutdown_begin : ℕ → Process B → Process B
  unfolding begin_shutdown
  shutdown_begin h p = closing_found h (get_elem? p.revokers h) p

  abbrev pub shutdown_found : ℕ → Option (Revoker B) → Process B → Result (Unit {0}) × Process B
  shutdown_found h none p = (ok tt, p)
  shutdown_found h (some r) p = cleanup_grpc h (released r) (put_revoker h (released r) p)

  unfoldable pub shutdown_end : ℕ → Process B → Result (Unit {0}) × Process B
  unfolding cleanup_grpc
  shutdown_end h p = shutdown_found h (get_elem? p.revokers h) p

  -- `stopServer` has returned
  unfoldable pub server_stopped : Process B → Process B
  server_stopped p = elim p.server [
    | stopping ↦ record p { server = idle }
    | idle ↦ p
    | starting waiters ↦ p
    | running ↦ p
  ]
