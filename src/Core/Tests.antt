-- ===== src/Core/Tests.antt =====
-- The theorems on packages/core/src at concrete filters and managers.
use express_token_revoker.Prelude.{
  ℕ, ◌≡◌, refl, true, false, ◌&&◌, ◌||◌, none, some, List, [], ◌∷◌, arith, All,
}
use express_token_revoker.Prelude.Result.{ok}
use express_token_revoker.Prelude.Text.{Text, codes, text_eq, split_on}
use express_token_revoker.Core.BloomFilter.{
  BloomFilter, new_filter, get_bit, locations, union, intersection, test,
}
use express_token_revoker.Core.BloomFilter.Membership.{IsSound, new_filter-IsSound}
use express_token_revoker.Core.BloomFilter.Tokens.{
  add_all, occupied, all_occupied, test_exact, no_false_negatives,
}
use express_token_revoker.Core.BloomFilter.Union.{union-intersection}
use express_token_revoker.Core.FilterManager.{
  Backups, FilterManager, no_counts, destroy, add, apply_entry, has, check_item, store_added,
  store_applied,
}
use express_token_revoker.Core.FilterManager.Run.{
  Call, add_token, look_up, begin_rotation, end_rotation, run,
}
use express_token_revoker.Core.FilterManager.Window.{IsLive}
use express_token_revoker.Core.FilterManager.Recall.{added_until_second_rotation}
use express_token_revoker.Core.FilterManager.Health.{
  is_ok, is_healthy, health_check, health_predicts_add,
}
use express_token_revoker.Core.FilterManager.Lifecycle.{
  Restores, LifeCall, plain, restore_reset, clear_reset, begin_on_demand, end_on_demand, run_life,
  begin_shutdown, Refuses, shutdown_fails_closed,
}
use express_token_revoker.Core.Middleware.{
  answered, HeaderValue, single, JwtPayload, opaque_middleware, extract_token, lower_case,
}
use express_token_revoker.Core.Middleware.Reject.{revoked_token_rejected}

abbrev two_tokens : List Text
two_tokens = codes "jti-1" ∷ codes "jti-2" ∷ []

test_exact_example :
    test (codes "jti-3") (add_all two_tokens (new_filter 100 3))
    ≡ all_occupied (occupied 128 3 two_tokens) (locations 128 3 (codes "jti-3"))
test_exact_example = test_exact 100 3 two_tokens (codes "jti-3") (omega arith) (omega arith)

no_false_negatives_example :
    All (λ t. test t (add_all two_tokens (new_filter 100 3)) ≡ true) two_tokens
no_false_negatives_example = no_false_negatives 100 3 two_tokens (omega arith) (omega arith)

abbrev one_token : BloomFilter
one_token = new_filter 64 2

union-intersection_example :
    ((c : BloomFilter) × (union one_token one_token ≡ some c)
      × (c.m ≡ one_token.m)
      × (c.k ≡ one_token.k)
      × IsSound c
      × ((j : ℕ)
          → get_bit j c.buckets ≡ (get_bit j one_token.buckets || get_bit j one_token.buckets)))
    × ((c : BloomFilter) × (intersection one_token one_token ≡ some c)
        × (c.m ≡ one_token.m)
        × (c.k ≡ one_token.k)
        × IsSound c
        × ((j : ℕ)
            → get_bit j c.buckets ≡ (get_bit j one_token.buckets && get_bit j one_token.buckets)))
unfolding new_filter
union-intersection_example =
    union-intersection one_token one_token (new_filter-IsSound 64 2 (omega arith) (omega arith))
      (new_filter-IsSound 64 2 (omega arith) (omega arith)) (omega arith) refl refl

-- A backup that keeps the list of the items.
abbrev list_backups : Backups (List Text)
list_backups = record {
  backup_item = λ item b. (ok tt, item ∷ b);
  backup_rotate = λ f b. [];
  restart_interval = λ f b. b;
}

abbrev manager : FilterManager (List Text)
manager = record {
  num_items = 5;
  filter_bits = 64;
  filter_hashes = 2;
  previous = none;
  current = some (new_filter 64 2);
  has_rotated = false;
  current_insertions = 0;
  is_shutting_down = false;
  is_rotating = false;
  has_interval = true;
  backup = some [];
  counters = no_counts;
}

manager-IsLive : IsLive manager
manager-IsLive = (
  (new_filter 64 2, refl, new_filter-IsSound 64 2 (omega arith) (omega arith)),
  omega arith,
  omega arith,
)

abbrev one_rotation : List Call
one_rotation =
    look_up (codes "a")
    ∷ begin_rotation
    ∷ add_token (codes "b")
    ∷ end_rotation
    ∷ begin_rotation
    ∷ []

add_succeeds : (add list_backups (codes "jti-1") manager).0 ≡ ok tt
unfolding add check_item store_added
add_succeeds = refl

apply_entry_succeeds : (apply_entry list_backups (codes "jti-1") manager).0 ≡ ok tt
unfolding apply_entry check_item store_applied
apply_entry_succeeds = refl

added_until_second_rotation_example :
    (has
      (codes "jti-1")
      (run list_backups one_rotation (add list_backups (codes "jti-1") manager).1)).0
    ≡ ok true
added_until_second_rotation_example =
    added_until_second_rotation list_backups (codes "jti-1") one_rotation manager manager-IsLive
      add_succeeds (omega arith)

item_passes : check_item (codes "jti-1") manager ≡ ok tt
unfolding check_item
item_passes = refl

health_predicts_add_example :
    (is_ok (add list_backups (codes "jti-1") manager).0
      ≡ is_healthy (health_check (λ b. true) manager).filter)
    × ((apply_entry list_backups (codes "jti-1") manager).0 ≡ ok tt)
health_predicts_add_example =
    health_predicts_add list_backups (λ b. true) (codes "jti-1") (new_filter 64 2) manager
      (omega arith) refl item_passes refl

abbrev list_restores : Restores (List Text)
list_restores = record {
  restore = λ b. some (some (new_filter 64 2), none);
  delete_files = λ b. [];
}

abbrev life_calls : List LifeCall
life_calls =
    plain begin_rotation
    ∷ restore_reset
    ∷ plain end_rotation
    ∷ begin_on_demand
    ∷ plain (add_token (codes "jti-2"))
    ∷ end_on_demand
    ∷ clear_reset
    ∷ []

shutdown_fails_closed_example :
    Refuses list_backups
      (codes "jti-1")
      (run_life list_backups list_restores life_calls (begin_shutdown manager))
    × Refuses list_backups
        (codes "jti-1")
        (run_life list_backups list_restores life_calls (destroy manager))
shutdown_fails_closed_example =
    shutdown_fails_closed list_backups list_restores (codes "jti-1") life_calls manager

abbrev bearer : Text → HeaderValue
bearer name = single (codes "Bearer jti-1")

extract_bearer :
    extract_token
      (text_eq (lower_case (codes "Authorization")) (codes "authorization"))
      (bearer (lower_case (codes "Authorization")))
    ≡ ok (some (codes "jti-1"))
unfolding extract_token text_eq split_on
extract_bearer = refl

revoked_token_rejected_example :
    (opaque_middleware
      (codes "Authorization")
      bearer
      (run list_backups one_rotation (add list_backups (codes "jti-1") manager).1)).0
    ≡ answered 401
revoked_token_rejected_example =
    revoked_token_rejected list_backups (codes "Authorization") bearer (codes "jti-1") one_rotation
      manager extract_bearer manager-IsLive add_succeeds (omega arith)

abbrev payload : JwtPayload
payload claim = some (codes "7")
