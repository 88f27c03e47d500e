-- ===== src/Server/DistributedServer/Tests.antt =====
-- The theorems on packages/server/src/distributedServer.ts at a concrete server.
use express_token_revoker.Prelude.{
  drop, ℕ, ◌≡◌, refl, ◌⊎◌, true, false, Option, none, some, List, [], ◌∷◌,
}
use express_token_revoker.Prelude.Result.{ok}
use express_token_revoker.Prelude.Text.{Text, codes, text_eq, number}
use express_token_revoker.Server.CanonicalWal.Wal.{no_faults}
use express_token_revoker.Server.Coordinator.{Revoker, CallFaults, AddResult, entry_sent}
use express_token_revoker.Server.NodeRegistry.{NodeEntry, register_node}
use express_token_revoker.Server.Delivery.{to_lsn, new_connection}
use express_token_revoker.Server.DistributedServer.{
  DistributedServer, broadcast, is_loopback_host, starts_with, is_valid_id,
}
use express_token_revoker.Server.DistributedServer.Serve.{
  add_request, subscribe, Status, refused, added, Lookup, insecure, with_secret, CallContext,
  handle_add, handle,
}
use express_token_revoker.Server.DistributedServer.Agreement.{
  registered, streaming, AllOpen, HasDistinctNodes,
}
use express_token_revoker.Server.DistributedServer.OneStream.{
  Event, call_arrives, stream_steps, stream_ends, timer_ticks, start_called, run_events,
  one_stream_per_node,
}
use express_token_revoker.Server.DistributedServer.Broadcasts.{add_reaches_streams}

abbrev no_other : Text → Option ℕ
no_other value = none

abbrev texts : Revoker (List Text)
texts = record { add = λ item r. (ok tt, item ∷ r); apply_entry = λ item r. (ok tt, item ∷ r) }

abbrev never_found : Lookup (List Text)
never_found item r = (ok false, r)

abbrev calm : CallFaults
calm = record { log = no_faults; tombstone_log = no_faults; unwritable_meta = false }

abbrev server : DistributedServer (List Text)
server = record {
  coordinator = record {
    wal = record {
      revoker_id = codes "r";
      next_lsn = 1;
      generation = 0;
      deleted_max_lsn = 0;
      initialized = true;
      directory = [];
    };
    meta = record { generation = 0; last_lsn = 0; last_backup_lsn = 0 };
    meta_file = record { generation = 0; last_lsn = 0; last_backup_lsn = 0 };
    revoker = some [];
    has_listener = true;
    sent = [];
    last_rotate_lsn = 0;
    is_ready = true;
    is_shutting_down = false;
  };
  registry = none;
  connections = [];
  calls = 0;
}

abbrev with_text : Option Text → CallContext
with_text metadata = record { now = 7; faults = calm; metadata = metadata }

abbrev same_text : Text → Text
same_text s = s

-- Two subscriptions of one node, of which the second is refused, one of another node, and the end of
-- the first stream.
abbrev subscriptions : List Event
subscriptions =
    start_called false false (codes "0.0.0.0")
    ∷ call_arrives with_secret (codes "key") (with_text (some (codes "key")))
        (subscribe (codes "a") (codes "0"))
    ∷ call_arrives with_secret (codes "key") (with_text (some (codes "key")))
        (subscribe (codes "a") (codes "0"))
    ∷ call_arrives with_secret (codes "key") (with_text (some (codes "key")))
        (subscribe (codes "b") (codes "0"))
    ∷ call_arrives with_secret (codes "key") (with_text (some (codes "key")))
        (add_request (codes "admin") (codes "jti"))
    ∷ timer_ticks 9 2
    ∷ stream_steps false no_faults 9 2
    ∷ stream_ends 0
    ∷ []

abbrev two_subscriptions : List Event
two_subscriptions =
    start_called true false (codes "localhost")
    ∷ call_arrives insecure [] (with_text none) (subscribe (codes "a") (codes "0"))
    ∷ call_arrives insecure [] (with_text none) (subscribe (codes "a") (codes "0"))
    ∷ call_arrives insecure [] (with_text none) (subscribe (codes "b") (codes "0"))
    ∷ stream_ends 0
    ∷ []

one_stream_left :
    streaming (run_events texts never_found no_other same_text two_subscriptions server).connections
    ≡ (codes "b", 2) ∷ []
unfolding run_events is_valid_id to_lsn number register_node is_loopback_host
one_stream_left = refl

one_stream_per_node_example :
    let s' = run_events texts never_found no_other same_text subscriptions server in
    ((s'.registry ≡ none) × (s'.connections ≡ []))
    ⊎ ((nodes : List (NodeEntry ℕ)) × (s'.registry ≡ some nodes)
        × (registered nodes ≡ streaming s'.connections)
        × AllOpen s'.connections
        × HasDistinctNodes s'.connections)
one_stream_per_node_example =
    one_stream_per_node texts never_found no_other same_text subscriptions server refl refl

abbrev busy : DistributedServer (List Text)
busy = record server {
  connections =
      record { handle = 0; connection = new_connection (codes "b") 0 0 server.coordinator.wal }
      ∷ [];
  calls = 1;
}

add_reaches_streams_example :
    let (reply, s') = handle_add texts calm (codes "admin") (codes "jti") busy in
    let wal = busy.coordinator.wal in
    ((result : AddResult) × (reply ≡ added result)
      × (result.lsn ≡ wal.next_lsn)
      × (s'.connections
          ≡ broadcast (entry_sent wal.next_lsn wal.generation (codes "jti")) busy.connections))
    ⊎ ((status : Status) × (reply ≡ refused status) × (s'.connections ≡ busy.connections))
add_reaches_streams_example = add_reaches_streams texts calm (codes "admin") (codes "jti") busy refl

-- A digest with collisions.
abbrev last_of_three : Text → Text
last_of_three text = drop 2 text

-- A host name that only begins like a loopback address
passes_as_loopback : is_loopback_host (codes "127.example.org") ≡ true
unfolding is_loopback_host starts_with text_eq
passes_as_loopback = refl
