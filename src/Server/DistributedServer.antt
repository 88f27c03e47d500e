-- ===== src/Server/DistributedServer.antt =====
-- The class `DistributedServer` of packages/server/src/distributedServer.ts: its node streams and
-- the handlers of its service, over the coordinator and the registry. What a stream does on its own
-- is in Server/Delivery.
pub mod Serve
pub mod Admission
pub mod Streams
pub mod Changes
pub mod Agreement
pub mod Kept
pub mod OneStream
pub mod Broadcasts
mod Tests
use express_token_revoker.Prelude.{
  ℕ, ◌+◌, Bool, true, false, not, ◌&&◌, ◌||◌, Option, none, some, List, [], ◌∷◌, ◌++◌, leb, ltb,
  ◌==◌, length, if◌then◌else◌,
}
use express_token_revoker.Prelude.Result.{Result, ok, err, internal_error, validation_error}
use express_token_revoker.Prelude.Text.{Text, codes, text_eq}
use express_token_revoker.Server.CanonicalWal.Wal.{Faults, last_lsn}
use express_token_revoker.Server.Coordinator
use express_token_revoker.Server.Coordinator.{
  OutboundEvent, Coordinator, CallFaults, set_listener, on_core_rotation,
}
use express_token_revoker.Server.NodeRegistry.{
  NodeRegistry, open_registry, close_registry, unregister_node, record_sent, touch,
}
use express_token_revoker.Server.Delivery.{
  Connection, Outbound, broadcast_event, keepalive_sent, write_event, enqueue_task, close, step,
}

-- A member of `#connections`; objects are told apart by the number of their `Subscribe` call.
pub record NodeStream : Type 0 where
  pub handle : ℕ
  pub connection : Connection

-- `calls` numbers the `Subscribe` calls.
pub record DistributedServer (R : Type 0) : Type 0 where
  pub coordinator : Coordinator R
  pub registry : NodeRegistry ℕ
  pub connections : List NodeStream
  pub calls : ℕ

-- The characters of an id, and `idPattern.test(id)`
abbrev pub is_alphanumeric : ℕ → Bool
is_alphanumeric c =
    (leb b'0' c && leb c b'9') || (leb b'A' c && leb c b'Z') || (leb b'a' c && leb c b'z')

unfoldable pub all_id_chars : Text → Bool
all_id_chars [] = true
all_id_chars (c ∷ s) = (is_alphanumeric c || (c == b'_') || (c == b'-')) && all_id_chars s

unfoldable pub is_valid_id : Text → Bool
unfolding all_id_chars
is_valid_id [] = false
is_valid_id (c ∷ s) = is_alphanumeric c && all_id_chars s && leb (length s) 63

unfoldable pub starts_with : Text → Text → Bool
starts_with [] s = true
starts_with (c ∷ p) [] = false
starts_with (c ∷ p) (d ∷ s) = (c == d) && starts_with p s

unfoldable pub is_loopback_host : Text → Bool
unfolding starts_with text_eq
is_loopback_host host =
    text_eq host (codes "localhost")
    || text_eq host (codes "::1")
    || starts_with (codes "127.") host

-- `Set.delete`, and the changes of a member in place
unfoldable pub delete_stream : ℕ → List NodeStream → List NodeStream
delete_stream h [] = []
delete_stream h (s ∷ ss) = if s.handle == h then ss else s ∷ delete_stream h ss

unfoldable pub find_stream : ℕ → List NodeStream → Option Connection
find_stream h [] = none
find_stream h (s ∷ ss) = if s.handle == h then some s.connection else find_stream h ss

unfoldable pub put_stream : ℕ → Connection → List NodeStream → List NodeStream
put_stream h c [] = []
put_stream h c (s ∷ ss) =
    if s.handle == h then record s { connection = c } ∷ ss else s ∷ put_stream h c ss

-- `#broadcast` of one event, and of the events that a listener was given, the latest first
abbrev pub with_event : OutboundEvent → NodeStream → NodeStream
with_event event s = record s {
  connection = enqueue_task (write_event (broadcast_event event)) s.connection;
}

unfoldable pub broadcast : OutboundEvent → List NodeStream → List NodeStream
broadcast event [] = []
broadcast event (s ∷ ss) = with_event event s ∷ broadcast event ss

unfoldable pub broadcast_all : List OutboundEvent → List NodeStream → List NodeStream
unfolding broadcast
broadcast_all [] ss = ss
broadcast_all (e ∷ es) ss = broadcast e (broadcast_all es ss)

-- `recordSent`, if the step has written an event with an LSN
abbrev pub recorded : ℕ → Connection → Connection → NodeRegistry ℕ → NodeRegistry ℕ
recorded now c c' nodes =
    if ltb (length c.sent) (length c'.sent)
    then (record_sent now c'.node_id c'.last_written_lsn nodes).1
    else nodes

module _ {R : Type 0} where
  -- Before a call of the coordinator, and after it: what its listener has been given in between is
  -- broadcast.
  abbrev pub listening : Coordinator R → Coordinator R
  listening c = record c { sent = [] }

  unfoldable pub heard : Coordinator R → DistributedServer R → DistributedServer R
  unfolding broadcast_all
  heard c s = record s { coordinator = c; connections = broadcast_all c.sent s.connections }

  -- The `cleanup` of a stream, once it has been registered
  unfoldable pub cleanup : ℕ → Text → DistributedServer R → DistributedServer R
  unfolding delete_stream unregister_node
  cleanup h id s = record s {
    connections = delete_stream h s.connections;
    registry = (unregister_node id s.registry).1;
  }

  -- `close` of a stream, by the end of its call or by a task that failed
  abbrev pub close_found : ℕ → Option Connection → DistributedServer R → DistributedServer R
  close_found h none s = s
  close_found h (some c) s = if c.is_closed then s else cleanup h c.node_id s

  unfoldable pub close_stream : ℕ → DistributedServer R → DistributedServer R
  unfolding find_stream cleanup
  close_stream h s = close_found h (find_stream h s.connections) s

  unfoldable pub stepped :
      ℕ → ℕ → Connection → Connection → DistributedServer R → DistributedServer R
  unfolding put_stream cleanup record_sent
  stepped now h c c' s =
      let s' : DistributedServer R = record s {
        connections = put_stream h c' s.connections;
        registry = recorded now c c' s.registry;
      } in
      if not c.is_closed && c'.is_closed then cleanup h c'.node_id s' else s'

  -- The next step of the write chain of a stream
  abbrev pub step_found :
      (Text → Option ℕ)
      → Bool
      → Faults
      → ℕ
      → ℕ
      → Option Connection
      → DistributedServer R
      → DistributedServer R
  step_found other refused faults now h none s = s
  step_found other refused faults now h (some c) s =
      stepped now h c (step other refused faults s.coordinator.wal c) s

  unfoldable pub stream_step :
      (Text → Option ℕ) → Bool → Faults → ℕ → ℕ → DistributedServer R → DistributedServer R
  unfolding find_stream stepped step
  stream_step other refused faults now h s =
      step_found other refused faults now h (find_stream h s.connections) s

  -- The timer of `startKeepalive`
  abbrev pub keepalive_found : ℕ → ℕ → Option Connection → DistributedServer R → DistributedServer R
  keepalive_found now h none s = s
  keepalive_found now h (some c) s =
      let event = keepalive_sent (last_lsn s.coordinator.wal) s.coordinator.meta.generation in
      record s {
        connections = put_stream h (enqueue_task (write_event event) c) s.connections;
        registry = (touch now c.node_id s.registry).1;
      }

  unfoldable pub keepalive_due : ℕ → ℕ → DistributedServer R → DistributedServer R
  unfolding find_stream put_stream touch last_lsn
  keepalive_due now h s = keepalive_found now h (find_stream h s.connections) s

  -- A rotation of the core, whose hook is the coordinator's
  unfoldable pub core_rotates :
      (Text → Option ℕ) → CallFaults → DistributedServer R → DistributedServer R
  unfolding heard on_core_rotation
  core_rotates other faults s = heard (on_core_rotation other faults (listening s.coordinator)) s

  -- `start` up to the binding of the port: the credentials are read before anything is changed
  abbrev pub registry_opened :
      Result (Unit {0}) × NodeRegistry ℕ
      → DistributedServer R
      → Result (Unit {0}) × DistributedServer R
  registry_opened (err e, nodes) s = (err e, record s { registry = nodes })
  registry_opened (ok _, nodes) s =
      (ok tt, record s { registry = nodes; coordinator = set_listener true s.coordinator })

  unfoldable pub start :
      Bool → Bool → Text → DistributedServer R → Result (Unit {0}) × DistributedServer R
  unfolding is_loopback_host open_registry set_listener
  start is_insecure unreadable_credentials host s =
      if is_insecure && not (is_loopback_host host)
      then (err validation_error, s)
      else if not is_insecure && unreadable_credentials
      then (err validation_error, s)
      else registry_opened (open_registry s.registry) s

  -- `stop` up to the end of the service
  unfoldable pub close_all : List NodeStream → DistributedServer R → DistributedServer R
  unfolding close_stream
  close_all [] s = s
  close_all (x ∷ xs) s = close_all xs (close_stream x.handle s)

  unfoldable pub stop : DistributedServer R → DistributedServer R
  unfolding close_all close_registry set_listener
  stop s =
      let s' : DistributedServer R =
        close_all s.connections (record s { coordinator = set_listener false s.coordinator }) in
      record s' { connections = []; registry = (close_registry s'.registry).1 }
