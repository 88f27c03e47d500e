-- ===== src/Core/Revoker/Tests.antt =====
-- The theorems on packages/core/src/index.ts and packages/core/src/grpc/std-server.ts at concrete
-- processes.
use express_token_revoker.Prelude.{
  ◌≡◌, refl, true, false, none, some, List, [], ◌∷◌, arith, get_elem?,
}
use express_token_revoker.Prelude.Result.{ok}
use express_token_revoker.Prelude.Text.{Text, codes, text_eq}
use express_token_revoker.Core.BloomFilter.{new_filter}
use express_token_revoker.Core.BloomFilter.Membership.{new_filter-IsSound}
use express_token_revoker.Core.FilterManager.{
  Backups, FilterManager, no_counts, add, check_item, store_added,
}
use express_token_revoker.Core.FilterManager.Run.{add_token, begin_rotation, end_rotation}
use express_token_revoker.Core.FilterManager.Window.{IsLive}
use express_token_revoker.Core.RevokerStore.{find_instance, get_instance}
use express_token_revoker.Core.Revoker.{Revoker, idle, running, Process, instance_of, destroy_begin}
use express_token_revoker.Core.Revoker.Start.{create_revoker}
use express_token_revoker.Core.Revoker.Starts.{Holds}
use express_token_revoker.Core.Revoker.InStep
use express_token_revoker.Core.Revoker.InStep.{
  Event, create, binding_ends, stop_ends, destroy_starts, destroy_ends, shutdown_starts,
  shutdown_ends, store_follows_server,
}
use express_token_revoker.Core.Revoker.Namesakes.{running_with, destroy_evicts_namesake}
use express_token_revoker.Core.Revoker.Service.{
  success, exists, FoundRevoker, find_revoker, handle_add, handle_has, is_valid_item,
}
use express_token_revoker.Core.Revoker.Found.{calls_reach, add_then_has}

abbrev list_backups : Backups (List Text)
list_backups = record {
  backup_item = λ item b. (ok tt, item ∷ b);
  backup_rotate = λ f b. [];
  restart_interval = λ f b. b;
}

abbrev manager : FilterManager (List Text)
manager = record {
  num_items = 5;
  filter_bits = 64;
  filter_hashes = 2;
  previous = none;
  current = some (new_filter 64 2);
  has_rotated = false;
  current_insertions = 0;
  is_shutting_down = false;
  is_rotating = false;
  has_interval = true;
  backup = some [];
  counters = no_counts;
}

manager-IsLive : IsLive manager
manager-IsLive = (
  (new_filter 64 2, refl, new_filter-IsSound 64 2 (omega arith) (omega arith)),
  omega arith,
  omega arith,
)

abbrev revoker_a : Revoker (List Text)
revoker_a = record {
  id = codes "a";
  bloom_filter_manager = some manager;
  has_middleware = true;
  grpc_enabled = true;
  grpc_port = 50051;
  grpc_host = codes "127.0.0.1";
  grpc_allow_insecure_remote = false;
}

abbrev new_process : Process (List Text)
new_process = record { store = none; server = idle; revokers = [] }

-- Two revokers wait for a start, are shut down and destroyed, and a third is created after the stop.
abbrev events : List (Event (List Text))
events =
    create revoker_a
    ∷ create (record revoker_a { id = codes "b" })
    ∷ binding_ends true
    ∷ shutdown_starts 0
    ∷ shutdown_ends 0
    ∷ destroy_starts 1
    ∷ stop_ends
    ∷ destroy_ends 1
    ∷ create revoker_a
    ∷ binding_ends true
    ∷ []

runs_again : (InStep.run events new_process).server ≡ running
unfolding InStep.run text_eq
runs_again = refl

store_follows_server_example : let p' = InStep.run events new_process in Holds p'.server p'.store
store_follows_server_example = store_follows_server events new_process refl refl

destroy_evicts_namesake_example :
    let p = create_revoker revoker_a (create_revoker revoker_a (running_with [] [])) in
    let p' = (destroy_begin 0 p).1 in
    (find_instance (codes "a") p.store ≡ some (instance_of 1 revoker_a))
    × (find_instance (codes "a") p'.store ≡ none)
    × (get_elem? p'.revokers 1 ≡ some revoker_a)
destroy_evicts_namesake_example =
    destroy_evicts_namesake revoker_a revoker_a [] [] (refl, refl) (refl, refl) refl

abbrev process : Process (List Text)
process = record {
  store = some (instance_of 0 revoker_a ∷ []);
  server = running;
  revokers = revoker_a ∷ [];
}

abbrev found_a : FoundRevoker (List Text)
found_a = record { handle = 0; revoker = revoker_a; manager = manager }

finds_a : find_revoker (codes "a") process ≡ some found_a
unfolding find_revoker find_instance get_instance text_eq
finds_a = refl

adds_jti : (handle_add list_backups (codes "a") (codes "jti") process).0 ≡ success
unfolding handle_add is_valid_item find_revoker find_instance get_instance text_eq add check_item
    store_added
adds_jti = refl

add_then_has_example :
    (handle_has (codes "a") (codes "jti") (
      calls_reach list_backups
        (codes "a")
        (add_token (codes "x") ∷ begin_rotation ∷ end_rotation ∷ [])
        (handle_add list_backups (codes "a") (codes "jti") process).1)).0
    ≡ exists true
add_then_has_example =
    add_then_has list_backups (codes "a") (codes "jti")
      (add_token (codes "x") ∷ begin_rotation ∷ end_rotation ∷ []) process found_a finds_a
      manager-IsLive adds_jti (omega arith)
