-- ===== src/Server/DistributedServer/Kept.antt =====
-- The registry and the set of streams of packages/server/src/distributedServer.ts agree after each
-- operation.
use express_token_revoker.Prelude.{
  branch, ℕ, ◌≡◌, refl, sym, ◌∙◌, Bool, false, not, ◌&&◌, Option, none, some, List, [], ◌∷◌, arith,
  Bool-cases, Option-cases, inl, inr, leb,
}
use express_token_revoker.Prelude.Result.{Result, ok, err, validation_error, internal_error}
use express_token_revoker.Prelude.Text.{Text}
use express_token_revoker.Server.CanonicalWal.Wal.{Faults, CanonicalWal, can_serve_from}
use express_token_revoker.Server.CanonicalWal.Read.{read_since}
use express_token_revoker.Server.CanonicalWal.Line.{CanonicalEvent}
use express_token_revoker.Server.Coordinator
use express_token_revoker.Server.Coordinator.{
  OutboundEvent, Revoker, Coordinator, CallFaults, AddResult, is_valid_item, on_core_rotation,
  set_listener,
}
use express_token_revoker.Server.NodeRegistry.{
  NodeRegistry, register_node, open_registry, close_registry,
}
use express_token_revoker.Server.Delivery.{
  Connection, Task, drain, write_event, Outbound, new_connection, to_lsn, next_batch, write,
  write_lsn, step, step_chain, drain_batch_size, outbound_lsn,
}
use express_token_revoker.Server.DistributedServer.{
  DistributedServer, is_valid_id, find_stream, listening, heard, cleanup, close_stream, recorded,
  stepped, stream_step, keepalive_due, registry_opened, start, stop, close_all, is_loopback_host,
}
use express_token_revoker.Server.DistributedServer.Serve.{
  Request, add_request, has_request, subscribe, poll_request, nodes_request, Lookup, CallContext,
  answer_add, answer_has, answer_subscribe, subscribe_from, handle_add, handle_has,
  handle_subscribe, handle,
}
use express_token_revoker.Server.DistributedServer.Changes.{
  enqueue_task-SameStream, delete-put_stream,
}
use express_token_revoker.Server.DistributedServer.Agreement.{
  Agrees, IsTidy, broadcast_all-Agrees, put_stream-Agrees, cleanup-Agrees, touch-Agrees,
  recorded-Agrees, Registers, register-Registers, raise-Agrees, found_open,
}

-- An answer with a server of which it holds
abbrev EndsTidy : {A R : Type 0} → A × DistributedServer R → Type 0
EndsTidy z = IsTidy z.1

-- A step of a stream leaves it with its node.
module _ (id : Text) where
  abbrev IsOf : Connection → Type 0
  IsOf c = c.node_id ≡ id

  write_lsn-IsOf :
      (refused : Bool) (message : _) (lsn : ℕ) (c : Connection)
      → IsOf c
      → IsOf (write_lsn refused message lsn c)
  unfolding write_lsn
  write_lsn-IsOf refused message lsn c h = branch IsOf refused _ _ h h

  write-IsOf :
      (refused : Bool) (event : Outbound) (lsn : Option ℕ) (c : Connection)
      → IsOf c
      → IsOf (write refused event lsn c)
  unfolding write
  write-IsOf refused event none c h = branch IsOf refused _ _ h h
  write-IsOf refused event (some lsn) c h =
      branch IsOf (leb lsn c.last_written_lsn) _ _ h (write_lsn-IsOf refused _ lsn c h)

  next_batch-IsOf :
      (from : ℕ) (answer : Result (List CanonicalEvent)) (rest : List Task) (c : Connection)
      → IsOf c
      → IsOf (next_batch from answer rest c)
  unfolding next_batch
  next_batch-IsOf from (err e) rest c h = h
  next_batch-IsOf from (ok []) rest c h = h
  next_batch-IsOf from (ok (e ∷ es)) rest c h = h

  step_chain-IsOf :
      (other : Text → Option ℕ) (refused : Bool) (faults : Faults) (w : CanonicalWal)
      (ts : List Task) (c : Connection)
      → IsOf c
      → IsOf (step_chain other refused faults w ts c)
  unfolding step_chain
  step_chain-IsOf other refused faults w [] c h = h
  step_chain-IsOf other refused faults w (write_event event ∷ rest) c h =
      branch IsOf c.is_closed _ _ h (write-IsOf refused event (outbound_lsn event) _ h)
  step_chain-IsOf other refused faults w (drain from [] ∷ rest) c h =
      branch IsOf c.is_closed _ _ h
        (next_batch-IsOf from (read_since other faults from drain_batch_size w) rest c h)
  step_chain-IsOf other refused faults w (drain from (e ∷ es) ∷ rest) c h =
      branch IsOf c.is_closed _ _ h (write_lsn-IsOf refused _ _ _ h)

module _ {R : Type 0} where
  pub heard-IsTidy : (c : Coordinator R) (s : DistributedServer R) → IsTidy s → IsTidy (heard c s)
  unfolding heard
  heard-IsTidy c s t = broadcast_all-Agrees c.sent s.calls s.registry s.connections t

  stepped-IsTidy :
      (now h : ℕ) (c d : Connection) (s : DistributedServer R)
      → d.node_id ≡ c.node_id
      → c.is_closed ≡ false
      → find_stream h s.connections ≡ some c
      → IsTidy s
      → IsTidy (stepped now h c d s)
  unfolding stepped cleanup
  stepped-IsTidy now h c d s same open_ found t =
      let a = recorded-Agrees now c d s.calls s.registry s.connections t in
      elim (Bool-cases d.is_closed) [
        | inl closed ↦
            simp (open_, closed)
              (rw (delete-put_stream h d s.connections) (
                cleanup-Agrees h c d.node_id s.calls (recorded now c d s.registry) s.connections
                  same found a))
        | inr goes ↦
            simp (open_, goes)
              (put_stream-Agrees h c d s.calls (recorded now c d s.registry) s.connections
                (same, goes ∙ sym open_) found a)
      ]

  pub close_stream-IsTidy : (h : ℕ) (s : DistributedServer R) → IsTidy s → IsTidy (close_stream h s)
  unfolding close_stream cleanup
  close_stream-IsTidy h s t = elim (Option-cases (find_stream h s.connections)) [
    | inl gone ↦ simp gone t
    | inr (c, found) ↦ simp found (elim (Bool-cases c.is_closed) [
      | inl closed ↦ simp closed t
      | inr open_ ↦
          simp open_ (cleanup-Agrees h c c.node_id s.calls s.registry s.connections refl found t)
    ])
  ]

  pub keepalive_due-IsTidy :
      (now h : ℕ) (s : DistributedServer R) → IsTidy s → IsTidy (keepalive_due now h s)
  unfolding keepalive_due
  keepalive_due-IsTidy now h s t = elim (Option-cases (find_stream h s.connections)) [
    | inl gone ↦ simp gone t
    | inr (c, found) ↦ simp found (
        touch-Agrees now c.node_id s.calls s.registry _ (
          put_stream-Agrees h c _ s.calls s.registry s.connections (enqueue_task-SameStream _ c)
            found t))
  ]

  pub start-IsTidy :
      (is_insecure unreadable : Bool) (host : Text) (s : DistributedServer R)
      → IsTidy s
      → IsTidy (start is_insecure unreadable host s).1
  unfolding start open_registry
  start-IsTidy is_insecure unreadable host s t =
      branch EndsTidy (is_insecure && not (is_loopback_host host)) _ _ t
        (branch EndsTidy (not is_insecure && unreadable) _ _ t (opened s.registry t))
    where
      opened :
          (registry : NodeRegistry ℕ)
          → Agrees s.calls registry s.connections
          → IsTidy (registry_opened (open_registry registry) s).1
      opened none a = rw a (omega arith)
      opened (some es) a = a

  pub stop-IsTidy : (s : DistributedServer R) → IsTidy (stop s)
  unfolding stop close_registry
  stop-IsTidy s =
      closed (stop s).calls
        (close_all s.connections
          (record s { coordinator = set_listener false s.coordinator })).registry
    where
      closed : (calls : ℕ) (registry : NodeRegistry ℕ) → Agrees calls (close_registry registry).1 []
      closed calls none = refl
      closed calls (some es) = refl

module _ {R : Type 0} (revokers : Revoker R) (lookup : Lookup R) (other : Text → Option ℕ) where
  pub stream_step-IsTidy :
      (refused : Bool) (faults : Faults) (now h : ℕ) (s : DistributedServer R)
      → IsTidy s
      → IsTidy (stream_step other refused faults now h s)
  unfolding stream_step step
  stream_step-IsTidy refused faults now h s t = elim (Option-cases (find_stream h s.connections)) [
    | inl gone ↦ simp gone t
    | inr (c, found) ↦ simp found (
        stepped-IsTidy now h c (step other refused faults s.coordinator.wal c) s
          (step_chain-IsOf c.node_id other refused faults s.coordinator.wal c.chain c refl)
          (found_open h c s.calls s.registry s.connections found t) found t)
  ]

  pub handle-IsTidy :
      (x : CallContext) (request : Request) (s : DistributedServer R)
      → IsTidy s
      → IsTidy (handle revokers lookup other x request s).1
  unfolding handle handle_add handle_has handle_subscribe
  handle-IsTidy x (add_request id item) s t =
      branch EndsTidy (not (is_valid_id id)) _ _ t
        (answered (Coordinator.add revokers x.faults item (listening s.coordinator)))
    where
      answered : (r : Result AddResult × Coordinator R) → IsTidy (answer_add r s).1
      answered (ok result, c) = heard-IsTidy c s t
      answered (err validation_error, c) = heard-IsTidy c s t
      answered (err internal_error, c) = heard-IsTidy c s t
  handle-IsTidy x (has_request item) s t =
      branch EndsTidy (not (is_valid_item item)) _ _ t (elim (Option-cases s.coordinator.revoker) [
        | inl gone ↦ simp gone t
        | inr (r, here) ↦ simp here (answered (lookup item r))
      ])
    where
      answered : (r : Result Bool × R) → IsTidy (answer_has r s).1
      answered (ok found, r) = t
      answered (err e, r) = t
  handle-IsTidy x (subscribe id last_lsn) s t =
      branch EndsTidy (not (is_valid_id id)) _ _ t (from (to_lsn other last_lsn))
    where
      answered :
          (lsn : ℕ) (r : Result (Unit {0}) × NodeRegistry ℕ)
          → Registers s.calls s.connections
              (new_connection id lsn s.coordinator.meta.generation s.coordinator.wal)
              r
          → IsTidy (answer_subscribe id lsn r s).1
      answered lsn (err e, registry) a = raise-Agrees s.calls registry s.connections a
      answered lsn (ok _, registry) a = a

      from : (lsn : Option ℕ) → IsTidy (subscribe_from x.now id lsn s).1
      from none = t
      from (some lsn) = branch EndsTidy (not (can_serve_from lsn s.coordinator.wal)) _ _ t (
          answered lsn (register_node x.now id s.calls s.registry) (
            register-Registers x.now s.calls id
              (new_connection id lsn s.coordinator.meta.generation s.coordinator.wal) s.registry
              s.connections refl refl t))
  handle-IsTidy x (poll_request id from_lsn max_events) s t = t
  handle-IsTidy x nodes_request s t = t
