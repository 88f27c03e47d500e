-- ===== src/Core/RevokerStore.antt =====
-- The store of packages/core/src/revokerStore.ts. The state is `instancesMap`, in the order of its
-- keys' insertion; `none` is `null`. The map holds references to revokers: of a revoker its id is
-- kept, and what leads to its filter manager. Core/Revoker keeps the number of the object there, and
-- its `find_revoker` looks at the object, whose manager may be gone by then.
use express_token_revoker.Prelude.{
  ◌≡◌, refl, Bool, true, false, Option, none, some, List, [], ◌∷◌, map, arith, if◌then◌else◌,
}
use express_token_revoker.Prelude.Result.{Result, ok, err, internal_error}
use express_token_revoker.Prelude.Text.{Text, text_eq, text_eq_iff}

pub record RevokerInstance (F : Type 0) : Type 0 where
  pub id : Text
  pub bloom_filter_manager : Option F

abbrev pub RevokerStore : Type 0 → Type 0
RevokerStore F = Option (List (RevokerInstance F))

module _ {F : Type 0} where
  -- `Map.get`, `Map.set` and `Map.delete`
  unfoldable pub get_instance : Text → List (RevokerInstance F) → Option (RevokerInstance F)
  get_instance id [] = none
  get_instance id (r ∷ rs) = if text_eq r.id id then some r else get_instance id rs

  unfoldable pub set_instance :
      RevokerInstance F → List (RevokerInstance F) → List (RevokerInstance F)
  set_instance r [] = r ∷ []
  set_instance r (x ∷ xs) = if text_eq x.id r.id then r ∷ xs else x ∷ set_instance r xs

  unfoldable pub delete_instance : Text → List (RevokerInstance F) → List (RevokerInstance F)
  delete_instance id [] = []
  delete_instance id (x ∷ xs) =
      let rest = delete_instance id xs in if text_eq x.id id then rest else x ∷ rest

  unfoldable pub open_store : RevokerStore F → Result (Unit {0}) × RevokerStore F
  open_store (some rs) = (err internal_error, some rs)
  open_store none = (ok tt, some [])

  unfoldable pub register_instance :
      RevokerInstance F → RevokerStore F → Result (Unit {0}) × RevokerStore F
  unfolding set_instance
  register_instance r none = (err internal_error, none)
  register_instance r (some rs) = (ok tt, some (set_instance r rs))

  unfoldable pub unregister_instance : Text → RevokerStore F → Result (Unit {0}) × RevokerStore F
  unfolding delete_instance
  unregister_instance id none = (err internal_error, none)
  unregister_instance id (some rs) = (ok tt, some (delete_instance id rs))

  -- `hasNonNullableBloomFilterManager`
  abbrev pub with_manager : Option (RevokerInstance F) → Option (RevokerInstance F)
  with_manager none = none
  with_manager (some r) = elim r.bloom_filter_manager [ none ↦ none | some f ↦ some r ]

  unfoldable pub find_instance : Text → RevokerStore F → Option (RevokerInstance F)
  unfolding get_instance
  find_instance id none = none
  find_instance id (some rs) = with_manager (get_instance id rs)

  unfoldable pub list_instances : RevokerStore F → Result (List Text)
  list_instances none = err internal_error
  list_instances (some rs) = ok (map (λ r. r.id) rs)

  unfoldable pub close_store : RevokerStore F → Result (Unit {0}) × RevokerStore F
  close_store none = (err internal_error, none)
  close_store (some rs) = (ok tt, none)

  unfoldable pub is_empty_store : RevokerStore F → Result Bool
  is_empty_store none = err internal_error
  is_empty_store (some []) = ok true
  is_empty_store (some (r ∷ rs)) = ok false

module _ {F : Type 0} where
  pub get-set_instance :
      (id : Text) (r : RevokerInstance F) (rs : List (RevokerInstance F))
      → get_instance id (set_instance r rs)
        ≡ (if text_eq r.id id then some r else get_instance id rs)
  unfolding get_instance set_instance
  get-set_instance id r [] = refl
  get-set_instance id r (x ∷ xs) = ground (
    arith,
    text_eq_iff x.id r.id,
    text_eq_iff x.id id,
    text_eq_iff r.id id,
    get-set_instance id r xs,
  )

  pub get-delete_instance :
      (id other : Text) (rs : List (RevokerInstance F))
      → get_instance id (delete_instance other rs)
        ≡ (if text_eq other id then none else get_instance id rs)
  unfolding get_instance delete_instance
  get-delete_instance id other [] = ground arith
  get-delete_instance id other (x ∷ xs) = ground (
    arith,
    text_eq_iff x.id other,
    text_eq_iff x.id id,
    text_eq_iff other id,
    get-delete_instance id other xs,
  )
