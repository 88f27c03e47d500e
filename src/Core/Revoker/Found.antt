-- ===== src/Core/Revoker/Found.antt =====
-- A token that is added through packages/core/src/grpc/std-server.ts is found through it.
use express_token_revoker.Prelude.{
  some-inj, none-ne-some, ℕ, ◌≤◌, ◌≡◌, ◌≢◌, refl, sym, ◌∙◌, ap, Bool, true, Option, none, some,
  List, Bool-cases, Option-cases, inl, inr, get_elem?, get_elem?-set_self, lt-length_of_get_elem?,
}
use express_token_revoker.Prelude.Result.{Result, ok, err, validation_error, internal_error}
use express_token_revoker.Prelude.Text.{Text}
use express_token_revoker.Core.FilterManager
use express_token_revoker.Core.FilterManager.{Backups, FilterManager}
use express_token_revoker.Core.FilterManager.Run.{Call, completed_rotations}
use express_token_revoker.Core.FilterManager.Run
use express_token_revoker.Core.FilterManager.Window.{IsLive}
use express_token_revoker.Core.FilterManager.Recall.{added_until_second_rotation}
use express_token_revoker.Core.RevokerStore.{RevokerInstance, find_instance}
use express_token_revoker.Core.Revoker.{Process}
use express_token_revoker.Core.Revoker.Service.{
  refused, success, exists, is_valid_item, FoundRevoker, find_revoker, put_manager, answer_add,
  handle_add, answer_has, handle_has,
}

-- The instance in the store, the object that it refers to, and the object's manager.
abbrev IsFound : {B : Type 0} → Text → Process B → FoundRevoker B → Type 0
IsFound id p x =
    (i : RevokerInstance ℕ) × (find_instance id p.store ≡ some i)
    × (i.bloom_filter_manager ≡ some x.handle)
    × (get_elem? p.revokers x.handle ≡ some x.revoker)
    × (x.revoker.bloom_filter_manager ≡ some x.manager)

module _ {B : Type 0} where
  find_revoker-IsFound :
      (id : Text) (p : Process B) (x : FoundRevoker B) → find_revoker id p ≡ some x → IsFound id p x
  unfolding find_revoker
  find_revoker-IsFound id p x found = elim (Option-cases (find_instance id p.store)) [
    | inl gone ↦ let never = simp gone at found in absurd (none-ne-some x never)
    | inr (i, here) ↦
        let found = simp here at found in
        elim (Option-cases i.bloom_filter_manager) [
          | inl gone ↦ let never = simp gone at found in absurd (none-ne-some x never)
          | inr (h, handle) ↦
              let found = simp handle at found in
              elim (Option-cases (get_elem? p.revokers h)) [
                | inl gone ↦ let never = simp gone at found in absurd (none-ne-some x never)
                | inr (r, object) ↦
                    let found = simp object at found in
                    elim (Option-cases r.bloom_filter_manager) [
                      | inl gone ↦ let never = simp gone at found in absurd (none-ne-some x never)
                      | inr (s, manager) ↦
                          let same = some-inj (simp manager at found) in
                          rw (sym same) (i, here, handle, object, manager)
                    ]
              ]
        ]
  ]

  IsFound-find_revoker :
      (id : Text) (p : Process B) (x : FoundRevoker B) → IsFound id p x → find_revoker id p ≡ some x
  unfolding find_revoker
  IsFound-find_revoker id p x (i, here, handle, object, manager) =
      simp (here, handle, object, manager) refl

  abbrev with_found : FoundRevoker B → FilterManager B → FoundRevoker B
  with_found x s = record {
    handle = x.handle;
    revoker = record x.revoker { bloom_filter_manager = some s };
    manager = s;
  }

  find-put_manager :
      (id : Text) (p : Process B) (x : FoundRevoker B) (s : FilterManager B)
      → find_revoker id p ≡ some x
      → find_revoker id (put_manager x s p) ≡ some (with_found x s)
  find-put_manager id p x s found =
      let (i, here, handle, object, manager) = find_revoker-IsFound id p x found in
      IsFound-find_revoker id (put_manager x s p) (with_found x s) (
        i,
        here,
        handle,
        get_elem?-set_self p.revokers x.handle (record x.revoker { bloom_filter_manager = some s })
            (lt-length_of_get_elem? p.revokers x.handle object),
        refl,
      )

  module _ (backups : Backups B) where
    -- Calls that reach the manager of a revoker by any other way.
    abbrev pub reached : Option (FoundRevoker B) → List Call → Process B → Process B
    reached none cs p = p
    reached (some x) cs p = put_manager x (Run.run backups cs x.manager) p

    unfoldable pub calls_reach : Text → List Call → Process B → Process B
    calls_reach id cs p = reached (find_revoker id p) cs p

    answer_add-success :
        (x : FoundRevoker B) (a : Result (Unit {0}) × FilterManager B) (p : Process B)
        → (answer_add x a p).0 ≡ success
        → (a.0 ≡ ok tt) × ((answer_add x a p).1 ≡ put_manager x a.1 p)
    answer_add-success x (ok _, s) p h = (refl, refl)
    answer_add-success x (err validation_error, s) p h = absurd (refused-ne h)
      where
        refused-ne : {a : _} → refused a ≢ success
        refused-ne = cc
    answer_add-success x (err internal_error, s) p h = absurd (refused-ne h)
      where
        refused-ne : {a : _} → refused a ≢ success
        refused-ne = cc

    answer_has-exists :
        (x : FoundRevoker B) (a : Result Bool × FilterManager B) (p : Process B)
        → a.0 ≡ ok true
        → (answer_has x a p).0 ≡ exists true
    answer_has-exists x (ok found, s) p h = ap exists (ok-inj h)
      where
        ok-inj : {a b : Bool} → ok a ≡ ok b → a ≡ b
        ok-inj h = cc
    answer_has-exists x (err e, s) p h = absurd (err-ne h)
      where
        err-ne : err e ≢ ok true
        err-ne = cc

    calls_reach-found :
        (id : Text) (cs : List Call) (p : Process B) (x : FoundRevoker B)
        → find_revoker id p ≡ some x
        → calls_reach id cs p ≡ put_manager x (Run.run backups cs x.manager) p
    unfolding calls_reach
    calls_reach-found id cs p x found = ap (λ o. reached o cs p) found

    handle_add-success :
        (id item : Text) (p : Process B) (x : FoundRevoker B)
        → find_revoker id p ≡ some x
        → (handle_add backups id item p).0 ≡ success
        → (is_valid_item item ≡ true)
          × ((FilterManager.add backups item x.manager).0 ≡ ok tt)
          × ((handle_add backups id item p).1
              ≡ put_manager x (FilterManager.add backups item x.manager).1 p)
    unfolding handle_add
    handle_add-success id item p x found done = elim (Bool-cases (is_valid_item item)) [
      | inr wrong ↦ let never = simp wrong at done in absurd (refused-ne never)
      | inl valid ↦
          let done = simp (valid, found) at done in
          let (added, state) =
            answer_add-success x (FilterManager.add backups item x.manager) p done in
          (valid, added, simp (valid, found) state)
    ]
      where
        refused-ne : {a : _} → refused a ≢ success
        refused-ne = cc

    handle_has-exists :
        (id item : Text) (p : Process B) (x : FoundRevoker B)
        → find_revoker id p ≡ some x
        → is_valid_item item ≡ true
        → (FilterManager.has item x.manager).0 ≡ ok true
        → (handle_has id item p).0 ≡ exists true
    unfolding handle_has
    handle_has-exists id item p x found valid revoked =
        simp (valid, found) (answer_has-exists x (FilterManager.has item x.manager) p revoked)

    -- An Add of the admin service that is answered with success, to a registered revoker whose
    -- current filter is sound and whose numbers give filters of 1 to 2 ^ 31 bits: as long as
    -- nothing but `add`, `applyEntry`, `has` and rotations reaches the revoker's manager (no
    -- reset, neither by the service nor in the process), and at most one of the rotations ends, a
    -- Has for the same id and item is answered that it exists.
    pub add_then_has :
        (id item : Text) (cs : List Call) (p : Process B) (x : FoundRevoker B)
        → find_revoker id p ≡ some x
        → IsLive x.manager
        → (handle_add backups id item p).0 ≡ success
        → completed_rotations cs ≤ 1
        → (handle_has id item (calls_reach id cs (handle_add backups id item p).1)).0 ≡ exists true
    add_then_has id item cs p x found live done few =
        let (valid, added, state) = handle_add-success id item p x found done in
        let s = (FilterManager.add backups item x.manager).1 in
        let at_first = find-put_manager id p x s found in
        let after =
          ap (λ q. calls_reach id cs q) state
          ∙ calls_reach-found id cs (put_manager x s p) (with_found x s) at_first in
        let s' = Run.run backups cs s in
        let at_last = find-put_manager id (put_manager x s p) (with_found x s) s' at_first in
        ap (λ q. (handle_has id item q).0) after
        ∙ handle_has-exists id item (put_manager (with_found x s) s' (put_manager x s p))
            (with_found (with_found x s) s') at_last valid
            (added_until_second_rotation backups item cs x.manager live added few)
