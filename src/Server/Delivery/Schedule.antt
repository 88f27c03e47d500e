-- ===== src/Server/Delivery/Schedule.antt =====
-- A connection of packages/server/src/distributedServer.ts under any schedule of its write chain, of
-- live events and of closings.
use express_token_revoker.Prelude.{branch, ℕ, ◌+◌, refl, Bool, Option, List, [], ◌∷◌, ◌++◌, arith}
use express_token_revoker.Prelude.Text.{Text}
use express_token_revoker.Server.CanonicalWal.Wal.{Faults, CanonicalWal}
use express_token_revoker.Server.Delivery.{
  Outbound, write_event, Connection, enqueue_task, close, step, new_connection,
}
use express_token_revoker.Server.Delivery.Order.{
  FallsTo, ChainFrom-append, IsOrdered, with_chain, step-IsOrdered,
}

-- What may happen to a connection: the next step of its chain over the log as it is then, an event
-- of the coordinator or of the keepalive timer, and a closing.
pub data Act : Type 0 where
  chain_step : Bool → Faults → CanonicalWal → Act
  enqueued : Outbound → Act
  closed : Act

module _ (other : Text → Option ℕ) (from : ℕ) where
  abbrev pub act : Act → Connection → Connection
  act (chain_step refused faults w) c = step other refused faults w c
  act (enqueued event) c = enqueue_task (write_event event) c
  act closed c = close c

  abbrev pub run : List Act → Connection → Connection
  run [] c = c
  run (a ∷ acts) c = run acts (act a c)

  act-IsOrdered : (a : Act) (c : Connection) → IsOrdered from c → IsOrdered from (act a c)
  unfolding step enqueue_task
  act-IsOrdered (chain_step refused faults w) c o =
      step-IsOrdered other from refused faults w c.chain c o.chained o.falls
  act-IsOrdered (enqueued event) c o =
      branch (IsOrdered from) c.is_closed c (with_chain (c.chain ++ write_event event ∷ []) c) o
        (record {
          falls = o.falls;
          chained = ChainFrom-append c.last_written_lsn event c.chain o.chained;
        })
  act-IsOrdered closed c o = record { falls = o.falls; chained = o.chained }

  run-IsOrdered :
      (acts : List Act) (c : Connection) → IsOrdered from c → IsOrdered from (run acts c)
  run-IsOrdered [] c o = o
  run-IsOrdered (a ∷ acts) c o = run-IsOrdered acts (act a c) (act-IsOrdered a c o)

  -- The LSNs that a subscribed connection has recorded as delivered strictly ascend and are all
  -- above the cursor it subscribed with, whatever live events are enqueued, in whatever order they
  -- come, however the steps of the chain and a closing fall between them, whatever the log holds at
  -- each step, and whatever calls of the file system and of the stream fail.
  pub stream_ascends :
      (id : Text) (generation : ℕ) (start : CanonicalWal) (acts : List Act)
      → let c = run acts (new_connection id from generation start) in
        FallsTo from (c.last_written_lsn + 1) c.sent
  stream_ascends id generation start acts =
      let o : IsOrdered from (new_connection id from generation start) = record {
        falls = omega arith;
        chained = ((omega arith, tt), (refl, tt));
      } in
      (run-IsOrdered acts (new_connection id from generation start) o).falls
