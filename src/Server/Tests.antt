-- ===== src/Server/Tests.antt =====
-- The theorems on packages/server/src at concrete logs, coordinators and registries.
use express_token_revoker.Prelude.{
  ◌≡◌, ◌≤◌, ◌+◌, ◌*◌, ◌/◌, map, length, refl, true, false, Option, none, some, List, [], ◌∷◌, ◌++◌,
  arith, take, drop_last, ltb, if◌then◌else◌, ℕ, inr, All, ◌≢◌,
}
use express_token_revoker.Prelude.Result.{ok}
use express_token_revoker.Prelude.Text.{Text, codes, text_eq, decimal, number}
use express_token_revoker.Prelude.Utf8.{replacement, stored_behind}
use express_token_revoker.Server.CanonicalWal.Line.{
  CanonicalEvent, event_lsn, entry, tombstone, rotate, entry_line, tombstone_line, rotate_line,
  parse_line, split_colon, parse_typed,
}
use express_token_revoker.Server.CanonicalWal.Files.{
  read_files, file_name, list_generation_files, generation_of_name, parse_file,
}
use express_token_revoker.Server.CanonicalWal.WholeFile.{
  IsWritable, content_of, inherited, written_file_parses,
}
use express_token_revoker.Server.CanonicalWal.Torn.{torn_entry_rejected, torn_rotation_accepted}
use express_token_revoker.Server.CanonicalWal.Wal.{
  no_faults, CanonicalWal, append_file, init, can_serve_from, last_lsn,
}
use express_token_revoker.Server.CanonicalWal.Read.{read_since, cap_events, scan}
use express_token_revoker.Server.CanonicalWal.Delivery.{
  IsAscending, find_lsn, last_with, retained, delivered, read_since_exact,
}
use express_token_revoker.Server.CanonicalWal.Truncate.{truncate_old_generations}
use express_token_revoker.Server.CanonicalWal.Cursors.{HasUniqueNames, truncation_keeps_served}
use express_token_revoker.Server.Coordinator.{
  rotate_sent, Revoker, Coordinator, CallFaults, MetaState, start, replay_events, add,
  on_core_rotation,
}
use express_token_revoker.Server.Coordinator.GetSnapshot.{
  BlobFile, missing, readable, SnapshotConfig, SnapshotData, get_snapshot,
}
use express_token_revoker.Server.Coordinator.Snapshot.{snapshot_is_servable}
use express_token_revoker.Server.Delivery.Order.{FallsTo}
use express_token_revoker.Server.Delivery.Schedule
use express_token_revoker.Server.Delivery.Schedule.{
  Act, chain_step, enqueued, closed, stream_ascends,
}
use express_token_revoker.Server.Coordinator.Broadcast
use express_token_revoker.Server.Coordinator.Broadcast.{
  Descends, add_request, rotation, listen, broadcasts_ascend,
}
use express_token_revoker.Server.Delivery.{
  broadcast_event, keepalive_event, resnapshot_event, to_stream_event, new_connection, poll_deltas,
}
use express_token_revoker.Server.Delivery.Stream.{steps, reversed_onto, drain_ends}
use express_token_revoker.Server.Delivery.Paging.{poll_pages}
use express_token_revoker.Server.NodeRegistry.{NodeRegistry, register_node}
use express_token_revoker.Server.NodeRegistry.Exclusive
use express_token_revoker.Server.NodeRegistry.Exclusive.{register, unregister, sent, seen}

abbrev no_other : Text → Option ℕ
no_other s = none

abbrev written_events : List CanonicalEvent
written_events =
    entry 7 2 (codes "a:b") ∷ rotate 8 3 ∷ tombstone 7 3 (codes "a:b") ∷ entry 9 3 (codes "c") ∷ []

written_events-IsWritable : All IsWritable written_events
unfolding stored_behind
written_events-IsWritable = (
  (omega arith, omega arith, omega arith, apart, refl),
  (
    (omega arith, omega arith, omega arith),
    (
      (omega arith, omega arith, omega arith, apart, refl),
      ((omega arith, omega arith, omega arith, (omega arith, tt), refl), tt),
    ),
  ),
)
  where
    apart : All (λ c. c ≢ 10) (codes "a:b")
    apart = (omega arith, (omega arith, (omega arith, tt)))

written_file_parses_example :
    parse_file no_other
      (record { generation = 2; name = codes "f"; content = content_of written_events })
    ≡ inherited 2 written_events
written_file_parses_example =
    written_file_parses no_other (codes "f") 2 written_events written_events-IsWritable

torn_entry_rejected_example :
    (parse_line no_other 0 (take 6 (entry_line 5 (codes "abc")) ++ replacement ∷ []) ≡ none)
    × (parse_line no_other 0 (take 6 (tombstone_line 5 (codes "abc")) ++ replacement ∷ []) ≡ none)
unfolding entry_line decimal
torn_entry_rejected_example =
    torn_entry_rejected no_other 6 0 5 (codes "abc") (replacement ∷ []) (omega arith) (omega arith)
      (omega arith) (inr refl) (omega arith)

-- The last character of the item is read as the replacement character, if a part of its bytes is
-- all that was written.
replaced_character_accepted :
    parse_line no_other 0 (drop_last (entry_line 5 (codes "a" ++ 0xe9 ∷ [])) ++ replacement ∷ [])
    ≡ some (entry 5 0 (codes "a" ++ replacement ∷ []))
unfolding entry_line decimal parse_line parse_typed split_colon number
replaced_character_accepted = refl

torn_rotation_accepted_example :
    parse_line no_other 11 (drop_last (rotate_line 5 12)) ≡ some (rotate 5 (12 / 10))
torn_rotation_accepted_example =
    torn_rotation_accepted no_other 11 5 12 (omega arith) (omega arith) (omega arith)

-- A log with a file of generation 0 and one of generation 1.
abbrev two_files : CanonicalWal
two_files = record {
  revoker_id = codes "r";
  next_lsn = 4;
  generation = 1;
  deleted_max_lsn = 0;
  initialized = true;
  directory =
      (codes "canonical-r-0.wal", codes "1:E:1:a" ++ (10 ∷ []))
      ∷ (codes "canonical-r-1.wal", codes "2:R:1" ++ (10 ∷ (codes "3:E:1:b" ++ (10 ∷ []))))
      ∷ [];
}

read_since_exact_example :
    (read_since no_other no_faults 1 10 two_files
      ≡ ok (cap_events 10 (delivered no_other 1 two_files)))
    × IsAscending (delivered no_other 1 two_files)
    × (find_lsn 3 (delivered no_other 1 two_files)
        ≡ (if ltb 1 3 then last_with 3 (retained no_other two_files) else none))
read_since_exact_example = read_since_exact no_other 1 10 3 two_files refl

two_files-HasUniqueNames : HasUniqueNames two_files.directory
unfolding text_eq
two_files-HasUniqueNames = ((refl, tt), (tt, tt))

still_served : can_serve_from 1 (truncate_old_generations no_other no_faults 1 2 two_files).1 ≡ true
unfolding can_serve_from truncate_old_generations list_generation_files generation_of_name
    parse_file parse_line split_colon number parse_typed
still_served = refl

truncation_keeps_served_example :
    last_with 3 (retained no_other (truncate_old_generations no_other no_faults 1 2 two_files).1)
    ≡ last_with 3 (retained no_other two_files)
truncation_keeps_served_example =
    truncation_keeps_served no_other no_faults 1 2 1 3 two_files two_files-HasUniqueNames
      still_served (omega arith)

abbrev texts : Revoker (List Text)
texts = record { add = λ item r. (ok tt, item ∷ r); apply_entry = λ item r. (ok tt, item ∷ r) }

abbrev calm : CallFaults
calm = record { log = no_faults; tombstone_log = no_faults; unwritable_meta = false }

abbrev full_disk : CallFaults
full_disk = record {
  log = record no_faults { unwritable = true };
  tombstone_log = no_faults;
  unwritable_meta = true;
}

abbrev empty_meta : MetaState
empty_meta = record { generation = 1; last_lsn = 3; last_backup_lsn = 2 }

abbrev coordinator : Coordinator (List Text)
coordinator = record {
  wal = two_files;
  meta = empty_meta;
  meta_file = empty_meta;
  revoker = some [];
  has_listener = true;
  sent = [];
  last_rotate_lsn = 0;
  is_ready = true;
  is_shutting_down = false;
}

abbrev requests : List Broadcast.Request
requests =
    add_request calm (codes "c")
    ∷ add_request full_disk (codes "d")
    ∷ rotation calm
    ∷ add_request calm (codes "e")
    ∷ []

broadcasts_ascend_example :
    Descends
      (Broadcast.run texts no_other requests coordinator).wal.next_lsn
      (Broadcast.run texts no_other requests coordinator).sent
broadcasts_ascend_example = broadcasts_ascend texts no_other requests coordinator tt

abbrev started : Coordinator (List Text)
started = record coordinator {
  wal = record two_files { deleted_max_lsn = 2 };
  revoker = some (codes "b" ∷ []);
  has_listener = false;
}

start_succeeds : start texts no_other calm empty_meta [] two_files ≡ ok started
unfolding start scan init read_since replay_events parse_file parse_line split_colon number
    parse_typed read_files list_generation_files generation_of_name
start_succeeds = refl

abbrev snapshot_config : SnapshotConfig ℕ
snapshot_config = record { id = codes "r"; num_items = 100; fp_rate = 1; rotate_time = 60 }

abbrev blob_files : Text → BlobFile
blob_files name = if text_eq name (codes "current-r.blob") then readable (1 ∷ 2 ∷ []) else missing

abbrev given : SnapshotData ℕ
given = record {
  current_blob = 1 ∷ 2 ∷ [];
  previous_blob = [];
  generation = 2;
  last_backup_lsn = 6;
  num_items = 100;
  fp_rate = 1;
  k = 7;
  rotate_time = 60;
}

snapshot_given :
    get_snapshot
      (λ r. some 7)
      blob_files
      snapshot_config
      (Broadcast.run texts no_other requests started)
    ≡ ok given
unfolding get_snapshot Broadcast.run add on_core_rotation append_file file_name decimal parse_file
    parse_line split_colon number parse_typed list_generation_files generation_of_name
snapshot_given = refl

snapshot_is_servable_example :
    can_serve_from given.last_backup_lsn (Broadcast.run texts no_other requests started).wal ≡ true
snapshot_is_servable_example =
    snapshot_is_servable texts no_other (λ r. some 7) blob_files snapshot_config calm empty_meta []
      two_files started requests given start_succeeds (omega arith) snapshot_given

abbrev registry : NodeRegistry ℕ
registry = some []

registered : (register_node 100 (codes "n1") 7 registry).0 ≡ ok tt
unfolding register_node
registered = refl

abbrev later_requests : List (Exclusive.Request ℕ)
later_requests =
    register 101 (codes "n2") 8
    ∷ sent 102 (codes "n1") 5
    ∷ seen 103 (codes "n1")
    ∷ unregister (codes "n2")
    ∷ []

drain_ends_example :
    let d = delivered no_other 1 two_files in
    (k : ℕ) × (k ≤ 2 * length d + 2)
    × (let c = steps no_other two_files k (new_connection (codes "a") 1 1 two_files) in
        (c.chain ≡ [])
        × (c.is_closed ≡ false)
        × (c.written
            ≡ keepalive_event (last_lsn two_files) 1 ∷ reversed_onto (map to_stream_event d) [])
        × (c.sent ≡ reversed_onto (map event_lsn d) []))
drain_ends_example = drain_ends no_other (codes "a") 1 1 two_files refl

poll_pages_example :
    let d = delivered no_other 1 two_files in
    poll_deltas no_other no_faults 1 (some 1) 1 two_files ≡ (
      if can_serve_from 1 two_files
      then ok (map to_stream_event (take 1 d), ltb 1 (length d))
      else ok (resnapshot_event 1 ∷ [], false))
poll_pages_example = poll_pages no_other 1 (some 1) 1 two_files refl

-- A live event arrives before the backlog is drained, and again after it.
abbrev live_acts : List Act
live_acts =
    enqueued (broadcast_event (rotate_sent 9 3))
    ∷ chain_step false no_faults two_files
    ∷ chain_step false no_faults two_files
    ∷ chain_step false no_faults two_files
    ∷ enqueued (broadcast_event (rotate_sent 9 3))
    ∷ chain_step true no_faults two_files
    ∷ closed
    ∷ []

stream_ascends_example :
    let c = Schedule.run no_other 1 live_acts (new_connection (codes "a") 1 1 two_files) in
    FallsTo 1 (c.last_written_lsn + 1) c.sent
stream_ascends_example = stream_ascends no_other 1 (codes "a") 1 two_files live_acts
