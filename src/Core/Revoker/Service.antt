-- ===== src/Core/Revoker/Service.antt =====
-- The RevokerAdmin service of packages/core/src/grpc/std-server.ts, over the process of
-- packages/core/src/index.ts.
use express_token_revoker.Prelude.{
  ℕ, Bool, true, false, Option, none, some, List, [], ◌∷◌, ltb, length, get_elem?, if◌then◌else◌,
}
use express_token_revoker.Prelude.Result.{Result, ok, err, validation_error, internal_error}
use express_token_revoker.Prelude.Text.{Text}
use express_token_revoker.Core.FilterManager
use express_token_revoker.Core.FilterManager.{Backups, FilterManager, has_breaks, max_item_length}
use express_token_revoker.Core.FilterManager.Lifecycle.{
  Restores, reset_and_restore, reset_and_clear_data,
}
use express_token_revoker.Core.RevokerStore.{RevokerInstance, find_instance, list_instances}
use express_token_revoker.Core.Revoker.{Revoker, Process, put_revoker}

pub data AdminStatus : Type 0 where
  invalid_argument not_found internal : AdminStatus

pub data AdminReply : Type 0 where
  refused : AdminStatus → AdminReply
  success : AdminReply
  exists : Bool → AdminReply
  revokers : List Text → AdminReply

-- `itemValidationError(item) === null`
unfoldable pub is_valid_item : Text → Bool
unfolding has_breaks
is_valid_item [] = false
is_valid_item (c ∷ item) =
    if ltb max_item_length (length (c ∷ item))
    then false
    else if has_breaks (c ∷ item)
    then false
    else true

-- What `findInstance` gives: a revoker that has a manager, with that manager.
pub record FoundRevoker (B : Type 0) : Type 0 where
  pub handle : ℕ
  pub revoker : Revoker B
  pub manager : FilterManager B

module _ {B : Type 0} where
  abbrev pub with_manager : ℕ → Option (Revoker B) → Option (FoundRevoker B)
  with_manager h none = none
  with_manager h (some r) = elim r.bloom_filter_manager [
    | none ↦ none
    | some s ↦ some (record { handle = h; revoker = r; manager = s })
  ]

  abbrev pub revoker_of : Option (RevokerInstance ℕ) → Process B → Option (FoundRevoker B)
  revoker_of none p = none
  revoker_of (some x) p = elim x.bloom_filter_manager [
    | none ↦ none
    | some h ↦ with_manager h (get_elem? p.revokers h)
  ]

  unfoldable pub find_revoker : Text → Process B → Option (FoundRevoker B)
  unfolding find_instance
  find_revoker id p = revoker_of (find_instance id p.store) p

  -- The manager of a revoker is an object: what a call changes in it is seen by all.
  abbrev pub put_manager : FoundRevoker B → FilterManager B → Process B → Process B
  put_manager x s p = put_revoker x.handle (record x.revoker { bloom_filter_manager = some s }) p

  -- `Add`
  abbrev pub answer_add :
      FoundRevoker B → Result (Unit {0}) × FilterManager B → Process B → AdminReply × Process B
  answer_add x (ok _, s) p = (success, put_manager x s p)
  answer_add x (err validation_error, s) p = (refused invalid_argument, put_manager x s p)
  answer_add x (err internal_error, s) p = (refused internal, put_manager x s p)

  unfoldable pub handle_add : Backups B → Text → Text → Process B → AdminReply × Process B
  unfolding is_valid_item find_revoker FilterManager.add
  handle_add backups id item p =
      if is_valid_item item
      then elim (find_revoker id p) [
        | none ↦ (refused not_found, p)
        | some x ↦ answer_add x (FilterManager.add backups item x.manager) p
      ]
      else (refused invalid_argument, p)

  -- `Has`
  abbrev pub answer_has :
      FoundRevoker B → Result Bool × FilterManager B → Process B → AdminReply × Process B
  answer_has x (ok found, s) p = (exists found, put_manager x s p)
  answer_has x (err validation_error, s) p = (refused invalid_argument, put_manager x s p)
  answer_has x (err internal_error, s) p = (refused internal, put_manager x s p)

  unfoldable pub handle_has : Text → Text → Process B → AdminReply × Process B
  unfolding is_valid_item find_revoker FilterManager.has
  handle_has id item p =
      if is_valid_item item
      then elim (find_revoker id p) [
        | none ↦ (refused not_found, p)
        | some x ↦ answer_has x (FilterManager.has item x.manager) p
      ]
      else (refused invalid_argument, p)

  -- `ResetAndRestore` and `ResetAndClearData`: the reset goes on after a timeout has been answered.
  abbrev pub answer_reset :
      Bool → FoundRevoker B → FilterManager B → Process B → AdminReply × Process B
  answer_reset timed_out x s p =
      (if timed_out then refused internal else success, put_manager x s p)

  unfoldable pub handle_reset_and_restore :
      Restores B → Bool → Text → Process B → AdminReply × Process B
  unfolding find_revoker reset_and_restore
  handle_reset_and_restore restores timed_out id p = elim (find_revoker id p) [
    | none ↦ (refused not_found, p)
    | some x ↦ answer_reset timed_out x (reset_and_restore restores x.manager) p
  ]

  unfoldable pub handle_reset_and_clear_data :
      Restores B → Bool → Text → Process B → AdminReply × Process B
  unfolding find_revoker reset_and_clear_data
  handle_reset_and_clear_data restores timed_out id p = elim (find_revoker id p) [
    | none ↦ (refused not_found, p)
    | some x ↦ answer_reset timed_out x (reset_and_clear_data restores x.manager) p
  ]

-- `ListRevokers`
abbrev pub answer_list : Result (List Text) → AdminReply
answer_list (ok ids) = revokers ids
answer_list (err e) = refused internal

unfoldable pub handle_list : {B : Type 0} → Process B → AdminReply
unfolding list_instances
handle_list p = answer_list (list_instances p.store)
