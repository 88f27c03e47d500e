-- ===== src/Core/Revoker/Start.antt =====
-- `_grpcInit` and `createRevoker` of packages/core/src/index.ts: the start of the server that the
-- revokers of a process share.
use express_token_revoker.Prelude.{
  ℕ, Bool, true, false, not, ◌&&◌, ◌==◌, none, some, List, [], ◌∷◌, ◌++◌, length, if◌then◌else◌,
}
use express_token_revoker.Prelude.Result.{Result, ok, err}
use express_token_revoker.Core.RevokerStore.{
  RevokerInstance, RevokerStore, open_store, register_instance, close_store, is_empty_store,
}
use express_token_revoker.Core.Revoker.{
  Revoker, ServerPhase, idle, starting, running, stopping, Process, is_loopback, instance_of,
  release, destroy_begin,
}

-- The store of a server that has not been started is destroyed if it is empty.
abbrev pub close_if_empty : Result Bool → RevokerStore ℕ → RevokerStore ℕ
close_if_empty (ok true) store = (close_store store).1
close_if_empty (ok false) store = store
close_if_empty (err e) store = store

module _ {B : Type 0} where
  -- The `catch` block of `_grpcInit`, for each revoker that awaits a start that has failed
  abbrev pub end_destroy : ℕ → Result (Unit {0}) × Process B → Process B
  end_destroy h (ok _, p) = release h p
  end_destroy h (err e, p) = p

  abbrev pub fail_waiter : RevokerInstance ℕ → Process B → Process B
  fail_waiter x p =
      let p' : Process B = record p { store = close_if_empty (is_empty_store p.store) p.store } in
      elim x.bloom_filter_manager [ none ↦ p' | some h ↦ end_destroy h (destroy_begin h p') ]

  unfoldable pub fail_waiters : List (RevokerInstance ℕ) → Process B → Process B
  unfolding is_empty_store close_store release destroy_begin
  fail_waiters [] p = p
  fail_waiters (x ∷ xs) p = fail_waiters xs (fail_waiter x p)

  unfoldable pub start_failed : List (RevokerInstance ℕ) → Process B → Process B
  unfolding fail_waiters
  start_failed waiters p = fail_waiters waiters (record p { server = idle })

  -- The rest of `_grpcInit` for each revoker that awaits a start that has succeeded; if the store is
  -- not open, it is destroyed
  abbrev pub registered :
      Result (Unit {0}) × RevokerStore ℕ → RevokerInstance ℕ → Process B → Process B
  registered (ok _, store) x p = record p { store = store }
  registered (err e, store) x p = elim x.bloom_filter_manager [
    | none ↦ p
    | some h ↦ end_destroy h (destroy_begin h p)
  ]

  unfoldable pub register_waiters : List (RevokerInstance ℕ) → Process B → Process B
  unfolding register_instance release destroy_begin
  register_waiters [] p = p
  register_waiters (x ∷ xs) p = register_waiters xs (registered (register_instance x p.store) x p)

  -- `bindAsync` of `startServer` calls back.
  unfoldable pub bound : Bool → Process B → Process B
  unfolding start_failed register_waiters
  bound succeeds p = elim p.server [
    | starting waiters ↦
        if succeeds
        then register_waiters waiters (record p { server = running })
        else start_failed waiters p
    | idle ↦ p
    | running ↦ p
    | stopping ↦ p
  ]

  -- `startServer` refuses the host before it binds.
  abbrev pub is_refused : Revoker B → Bool
  is_refused r = not (is_loopback r.grpc_host) && not r.grpc_allow_insecure_remote

  abbrev pub store_opened :
      Result (Unit {0}) × RevokerStore ℕ → RevokerInstance ℕ → Bool → Process B → Process B
  store_opened (err e, store) x refused p = start_failed (x ∷ []) (record p { store = store })
  store_opened (ok _, store) x refused p =
      if refused
      then start_failed (x ∷ []) (record p { store = store })
      else record p { store = store; server = starting (x ∷ []) }

  -- `_grpcInit` up to its await. If the server has been started, a store that is not open throws.
  abbrev pub grpc_init_in : ServerPhase → RevokerInstance ℕ → Bool → Process B → Process B
  grpc_init_in idle x refused p = store_opened (open_store p.store) x refused p
  grpc_init_in (starting waiters) x refused p = record p { server = starting (waiters ++ x ∷ []) }
  grpc_init_in running x refused p = record p { store = (register_instance x p.store).1 }
  grpc_init_in stopping x refused p = record p { store = (register_instance x p.store).1 }

  unfoldable pub grpc_init : ℕ → Revoker B → Process B → Process B
  unfolding is_loopback open_store register_instance start_failed
  grpc_init h r p =
      if r.grpc_enabled && not (r.grpc_port == 0)
      then grpc_init_in p.server (instance_of h r) (is_refused r) p
      else p

  -- `createRevoker` with a revoker that the constructor has made
  unfoldable pub create_revoker : Revoker B → Process B → Process B
  unfolding grpc_init
  create_revoker r p =
      grpc_init (length p.revokers) r (record p { revokers = p.revokers ++ r ∷ [] })
