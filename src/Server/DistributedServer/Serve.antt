-- ===== src/Server/DistributedServer/Serve.antt =====
-- The handlers of `DistributedServer` of packages/server/src/distributedServer.ts, with the check of
-- the shared secret before them.
use express_token_revoker.Prelude.{
  ℕ, ◌+◌, Bool, true, false, not, Option, none, some, List, [], ◌∷◌, ◌++◌, if◌then◌else◌,
}
use express_token_revoker.Prelude.Result.{Result, ok, err, validation_error, internal_error}
use express_token_revoker.Prelude.Text.{Text, text_eq}
use express_token_revoker.Server.CanonicalWal.Wal.{Faults, can_serve_from}
use express_token_revoker.Server.Coordinator
use express_token_revoker.Server.Coordinator.{
  Revoker, Coordinator, CallFaults, AddResult, is_valid_item,
}
use express_token_revoker.Server.NodeRegistry.{
  NodeRegistry, NodeEntryView, register_node, list_nodes,
}
use express_token_revoker.Server.Delivery.{StreamEvent, new_connection, to_lsn, poll_deltas}
use express_token_revoker.Server.DistributedServer.{
  DistributedServer, is_valid_id, listening, heard,
}

-- The codes of gRPC that the service answers with.
pub data Status : Type 0 where
  invalid_argument already_exists internal unauthenticated : Status

-- The requests, with the texts of their fields. The reply of a metrics or a snapshot request does
-- not change the server, and is left out.
pub data Request : Type 0 where
  add_request : (node_id item : Text) → Request
  has_request : (item : Text) → Request
  subscribe : (node_id last_lsn : Text) → Request
  poll_request : (node_id from_lsn max_events : Text) → Request
  nodes_request : Request

-- `resnapshot` and `subscribed` are a call of `Subscribe` that ends at once, and one that goes on.
pub data Reply : Type 0 where
  refused : Status → Reply
  added : AddResult → Reply
  exists : Bool → Reply
  page : List StreamEvent → Bool → Reply
  nodes : List NodeEntryView → Reply
  resnapshot : ℕ → Reply
  subscribed : ℕ → Reply

-- `has` of the wrapped revoker
abbrev pub Lookup : Type 0 → Type 0
Lookup R = Text → R → Result Bool × R

module _ {R : Type 0} where
  -- `Add`, from the result of `coordinator.add` on
  abbrev pub answer_add :
      Result AddResult × Coordinator R → DistributedServer R → Reply × DistributedServer R
  answer_add (ok result, c) s = (added result, heard c s)
  answer_add (err validation_error, c) s = (refused invalid_argument, heard c s)
  answer_add (err internal_error, c) s = (refused internal, heard c s)

  unfoldable pub handle_add :
      Revoker R → CallFaults → Text → Text → DistributedServer R → Reply × DistributedServer R
  unfolding is_valid_id Coordinator.add heard
  handle_add revokers faults node_id item s =
      if not (is_valid_id node_id)
      then (refused invalid_argument, s)
      else answer_add (Coordinator.add revokers faults item (listening s.coordinator)) s

  -- `Has`, with `has` of the coordinator
  abbrev pub answer_has : Result Bool × R → DistributedServer R → Reply × DistributedServer R
  answer_has (ok found, r) s =
      (exists found, record s { coordinator = record s.coordinator { revoker = some r } })
  answer_has (err e, r) s =
      (refused internal, record s { coordinator = record s.coordinator { revoker = some r } })

  unfoldable pub handle_has : Lookup R → Text → DistributedServer R → Reply × DistributedServer R
  unfolding is_valid_item
  handle_has lookup item s =
      if not (is_valid_item item)
      then (refused invalid_argument, s)
      else elim s.coordinator.revoker [
        | none ↦ (refused internal, s)
        | some r ↦ answer_has (lookup item r) s
      ]

  -- `Subscribe`, from the registration of the connection on; a stream that is refused is forgotten
  abbrev pub answer_subscribe :
      Text
      → ℕ
      → Result (Unit {0}) × NodeRegistry ℕ
      → DistributedServer R
      → Reply × DistributedServer R
  answer_subscribe id from (err e, registry) s =
      (refused already_exists, record s { registry = registry; calls = s.calls + 1 })
  answer_subscribe id from (ok _, registry) s = (
    subscribed s.calls,
    record s {
      registry = registry;
      connections =
          s.connections
          ++ (record {
            handle = s.calls;
            connection = new_connection id from s.coordinator.meta.generation s.coordinator.wal;
          })
            ∷ [];
      calls = s.calls + 1;
    },
  )

  abbrev pub subscribe_from :
      ℕ → Text → Option ℕ → DistributedServer R → Reply × DistributedServer R
  subscribe_from now id none s = (refused invalid_argument, s)
  subscribe_from now id (some from) s =
      if not (can_serve_from from s.coordinator.wal)
      then (resnapshot s.coordinator.meta.generation, s)
      else answer_subscribe id from (register_node now id s.calls s.registry) s

  unfoldable pub handle_subscribe :
      (Text → Option ℕ) → ℕ → Text → Text → DistributedServer R → Reply × DistributedServer R
  unfolding is_valid_id to_lsn can_serve_from register_node
  handle_subscribe other now id last_lsn s =
      if not (is_valid_id id)
      then (refused invalid_argument, s)
      else subscribe_from now id (to_lsn other last_lsn) s

abbrev pub answer_poll : Result (List StreamEvent × Bool) → Reply
answer_poll (err e) = refused internal
answer_poll (ok (events, more_available)) = page events more_available

module _ {R : Type 0} (other : Text → Option ℕ) where
  abbrev pub poll_from : Faults → Option ℕ → Option ℕ → DistributedServer R → Reply
  poll_from faults none requested s = refused invalid_argument
  poll_from faults (some from) requested s =
      answer_poll
        (poll_deltas other faults from requested s.coordinator.meta.generation s.coordinator.wal)

  unfoldable pub handle_poll : Faults → Text → Text → Text → DistributedServer R → Reply
  unfolding is_valid_id to_lsn poll_deltas
  handle_poll faults id from_lsn max_events s =
      if not (is_valid_id id)
      then refused invalid_argument
      else poll_from faults (to_lsn other from_lsn) (to_lsn other max_events) s

abbrev pub answer_nodes : Result (List NodeEntryView) → Reply
answer_nodes (ok views) = nodes views
answer_nodes (err e) = refused internal

-- `#authMode`, where the other two modes differ only in the credentials
pub data AuthMode : Type 0 where
  insecure with_secret : AuthMode

-- `#authenticate`: whether the call is let through, for a digest of texts
unfoldable pub authenticate : (Text → Text) → Text → Option Text → Bool
unfolding text_eq
authenticate digest secret none = false
authenticate digest secret (some []) = false
authenticate digest secret (some (c ∷ provided)) = text_eq (digest (c ∷ provided)) (digest secret)

-- What is outside the server during one call: the time, what the file system refuses, and the first
-- value of the secret's metadata key.
pub record CallContext : Type 0 where
  pub now : ℕ
  pub faults : CallFaults
  pub metadata : Option Text

module _ {R : Type 0} (revokers : Revoker R) (lookup : Lookup R) (other : Text → Option ℕ) where
  unfoldable pub handle : CallContext → Request → DistributedServer R → Reply × DistributedServer R
  unfolding handle_add handle_has handle_subscribe handle_poll list_nodes
  handle x (add_request node_id item) s = handle_add revokers x.faults node_id item s
  handle x (has_request item) s = handle_has lookup item s
  handle x (subscribe node_id last_lsn) s = handle_subscribe other x.now node_id last_lsn s
  handle x (poll_request node_id from_lsn max_events) s =
      (handle_poll other x.faults.log node_id from_lsn max_events s, s)
  handle x nodes_request s = (answer_nodes (list_nodes s.registry), s)

  -- A handler behind the check
  abbrev pub guarded :
      Bool → CallContext → Request → DistributedServer R → Reply × DistributedServer R
  guarded false x request s = (refused unauthenticated, s)
  guarded true x request s = handle x request s

  unfoldable pub serve :
      (Text → Text)
      → AuthMode
      → Text
      → CallContext
      → Request
      → DistributedServer R
      → Reply × DistributedServer R
  unfolding handle authenticate
  serve digest insecure secret x request s = handle x request s
  serve digest with_secret secret x request s =
      guarded (authenticate digest secret x.metadata) x request s
