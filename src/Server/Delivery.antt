-- ===== src/Server/Delivery.antt =====
-- The delivery of events in packages/server/src/distributedServer.ts: the class
-- `NodeConnectionImpl`, and the handlers `Subscribe` and `PollDeltas` over the canonical log.
pub mod Stream
pub mod Paging
pub mod Order
pub mod Schedule
use express_token_revoker.Prelude.{
  ℕ, ◌+◌, Bool, true, false, not, ◌&&◌, ◌||◌, Option, none, some, List, [], ◌∷◌, ◌++◌, map, leb,
  ltb, length, take, if◌then◌else◌,
}
use Prim.Native.Nat.{min}
use express_token_revoker.Prelude.Result.{Result, ok, err}
use express_token_revoker.Prelude.Text.{Text, number, max_safe}
use express_token_revoker.Server.CanonicalWal.Line.{
  CanonicalEvent, entry, tombstone, rotate, event_lsn,
}
use express_token_revoker.Server.CanonicalWal.Wal.{Faults, CanonicalWal, can_serve_from, last_lsn}
use express_token_revoker.Server.CanonicalWal.Read.{read_since}
use express_token_revoker.Server.Coordinator.{OutboundEvent, entry_sent, rotate_sent}

-- `StreamEvent` of the protocol
pub data StreamEvent : Type 0 where
  entry_event : (lsn generation : ℕ) (item : Text) → StreamEvent
  rotate_event : (lsn generation : ℕ) → StreamEvent
  keepalive_event : (coordinator_last_lsn generation : ℕ) → StreamEvent
  resnapshot_event : (generation : ℕ) → StreamEvent

-- The kinds of `OutboundEvent`: what the coordinator broadcasts, and keepalives.
pub data Outbound : Type 0 where
  broadcast_event : OutboundEvent → Outbound
  keepalive_sent : (coordinator_last_lsn generation : ℕ) → Outbound

-- `toStreamEvent`: a tombstone goes out as an entry
abbrev pub to_stream_event : CanonicalEvent → StreamEvent
to_stream_event (entry lsn generation item) = entry_event lsn generation item
to_stream_event (tombstone lsn generation item) = entry_event lsn generation item
to_stream_event (rotate lsn generation) = rotate_event lsn generation

-- `outboundToStreamEvent`
abbrev pub outbound_to_stream_event : Outbound → StreamEvent
outbound_to_stream_event (broadcast_event (entry_sent lsn generation item)) =
    entry_event lsn generation item
outbound_to_stream_event (broadcast_event (rotate_sent lsn generation)) =
    rotate_event lsn generation
outbound_to_stream_event (keepalive_sent lsn generation) = keepalive_event lsn generation

-- The LSN that the deduplication compares: keepalives have none.
abbrev pub outbound_lsn : Outbound → Option ℕ
outbound_lsn (broadcast_event (entry_sent lsn generation item)) = some lsn
outbound_lsn (broadcast_event (rotate_sent lsn generation)) = some lsn
outbound_lsn (keepalive_sent lsn generation) = none

-- A task on the write chain: the drain of the backlog, with its position and what is left of its
-- batch, or an event.
pub data Task : Type 0 where
  drain : ℕ → List CanonicalEvent → Task
  write_event : Outbound → Task

-- `NodeConnectionImpl`. `chain` holds the tasks that have not ended, `written` what was written on
-- the call and `sent` what was recorded in the registry, both the latest first.
pub record Connection : Type 0 where
  pub node_id : Text
  pub last_written_lsn : ℕ
  pub is_closed : Bool
  pub chain : List Task
  pub written : List StreamEvent
  pub sent : List ℕ

abbrev pub drain_batch_size : ℕ
drain_batch_size = 1000

abbrev pub max_poll_events : ℕ
max_poll_events = 10000

-- `enqueue` and `enqueueTask`
unfoldable pub enqueue_task : Task → Connection → Connection
enqueue_task t c = if c.is_closed then c else record c { chain = c.chain ++ t ∷ [] }

-- `close`; the cleanup is the server's
abbrev pub close : Connection → Connection
close c = record c { is_closed = true }

-- `#writeMessage` of an event with an LSN, and what follows it: waiting for a full buffer to drain
-- only delays the tasks behind this one. A call that throws fails the task.
unfoldable pub write_lsn : Bool → StreamEvent → ℕ → Connection → Connection
write_lsn refused message lsn c =
    if refused
    then close c
    else record c { written = message ∷ c.written; last_written_lsn = lsn; sent = lsn ∷ c.sent }

-- `#write` of an open connection
unfoldable pub write : Bool → Outbound → Option ℕ → Connection → Connection
unfolding write_lsn
write refused event none c =
    if refused then close c else record c { written = outbound_to_stream_event event ∷ c.written }
write refused event (some lsn) c =
    if leb lsn c.last_written_lsn
    then c
    else write_lsn refused (outbound_to_stream_event event) lsn c

-- The `while` loop of the drain, where it reads the next batch.
unfoldable pub next_batch : ℕ → Result (List CanonicalEvent) → List Task → Connection → Connection
next_batch from (err e) rest c = close (record c { chain = rest })
next_batch from (ok []) rest c = record c { chain = rest }
next_batch from (ok (e ∷ es)) rest c = record c { chain = drain from (e ∷ es) ∷ rest }

-- The connection that `Subscribe` makes for a cursor that can be served: the drain, then the
-- keepalive that marks its end, with the coordinator's generation.
abbrev pub new_connection : Text → ℕ → ℕ → CanonicalWal → Connection
new_connection id from generation w = record {
  node_id = id;
  last_written_lsn = from;
  is_closed = false;
  chain = drain from [] ∷ write_event (keepalive_sent (last_lsn w) generation) ∷ [];
  written = [];
  sent = [];
}

abbrev pub page_size : Option ℕ → ℕ
page_size none = min drain_batch_size max_poll_events
page_size (some requested) =
    min (if ltb 0 requested then requested else drain_batch_size) max_poll_events

-- The reply of `PollDeltas`: its events and `moreAvailable`.
abbrev pub page_of : ℕ → List CanonicalEvent → List StreamEvent × Bool
page_of max_events batch =
    (map to_stream_event (take max_events batch), ltb max_events (length batch))

module _ (other : Text → Option ℕ) where
  -- One step of the first task on the chain. On a closed connection a task ends at once.
  unfoldable pub step_chain : Bool → Faults → CanonicalWal → List Task → Connection → Connection
  unfolding next_batch write write_lsn read_since
  step_chain refused faults w [] c = c
  step_chain refused faults w (write_event event ∷ rest) c =
      if c.is_closed
      then record c { chain = rest }
      else write refused event (outbound_lsn event) (record c { chain = rest })
  step_chain refused faults w (drain from [] ∷ rest) c =
      if c.is_closed
      then record c { chain = rest }
      else next_batch from (read_since other faults from drain_batch_size w) rest c
  step_chain refused faults w (drain from (e ∷ es) ∷ rest) c =
      if c.is_closed
      then record c { chain = rest }
      else write_lsn refused (to_stream_event e) (event_lsn e)
          (record c { chain = if refused then rest else drain (event_lsn e) es ∷ rest })

  unfoldable pub step : Bool → Faults → CanonicalWal → Connection → Connection
  unfolding step_chain
  step refused faults w c = step_chain refused faults w c.chain c

  -- `toLsn` of the text of an `int64`
  unfoldable pub to_lsn : Text → Option ℕ
  to_lsn value = elim (number other value) [
    | none ↦ none
    | some n ↦ if leb n max_safe then some n else none
  ]

  -- `PollDeltas` from the check of the retention floor on
  unfoldable pub poll_deltas :
      Faults → ℕ → Option ℕ → ℕ → CanonicalWal → Result (List StreamEvent × Bool)
  unfolding read_since can_serve_from
  poll_deltas faults from_lsn requested generation w =
      if not (can_serve_from from_lsn w)
      then ok (resnapshot_event generation ∷ [], false)
      else elim (read_since other faults from_lsn (page_size requested + 1) w) [
        | err e ↦ err e
        | ok batch ↦ ok (page_of (page_size requested) batch)
      ]
