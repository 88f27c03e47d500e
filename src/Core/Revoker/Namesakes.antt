-- ===== src/Core/Revoker/Namesakes.antt =====
-- Two revokers of one id in packages/core/src/index.ts: the store keeps the later one, and the end
-- of the earlier one takes it away.
use express_token_revoker.Prelude.{
  ℕ, ◌+◌, ◌≡◌, ◌≢◌, refl, sym, ◌∙◌, ap, true, false, ◌==◌, none, some, List, [], ◌∷◌, ◌++◌, arith,
  get_elem?, set, length, length-append, get_elem?-set_ne,
}
use express_token_revoker.Prelude.Text.{Text, text_eq_refl}
use express_token_revoker.Core.RevokerStore.{
  RevokerInstance, find_instance, get_instance, with_manager, set_instance, delete_instance,
  register_instance, unregister_instance, is_empty_store, close_store, get-set_instance,
  get-delete_instance,
}
use express_token_revoker.Core.Revoker.{
  Revoker, running, Process, instance_of, emptied, cleanup_grpc, destroy_found, destroy_begin,
}
use express_token_revoker.Core.Revoker.Start.{grpc_init, create_revoker}

get-last : {A : Type 0} (xs : List A) (a : A) → get_elem? (xs ++ a ∷ []) (length xs) ≡ some a
get-last [] a = refl
get-last (x ∷ xs) a = get-last xs a

get-before_last :
    {A : Type 0} (xs : List A) (a b : A) → get_elem? ((xs ++ a ∷ []) ++ b ∷ []) (length xs) ≡ some a
get-before_last [] a b = refl
get-before_last (x ∷ xs) a b = get-before_last xs a b

-- A revoker that asks for gRPC
abbrev pub AsksForGrpc : {B : Type 0} → Revoker B → Type 0
AsksForGrpc r = (r.grpc_enabled ≡ true) × ((r.grpc_port == 0) ≡ false)

module _ {B : Type 0} where
  abbrev pub running_with : List (RevokerInstance ℕ) → List (Revoker B) → Process B
  running_with rs revokers = record { store = some rs; server = running; revokers = revokers }

  created :
      (r : Revoker B) (rs : List (RevokerInstance ℕ)) (revokers : List (Revoker B))
      → AsksForGrpc r
      → create_revoker r (running_with rs revokers)
        ≡ running_with (set_instance (instance_of (length revokers) r) rs) (revokers ++ r ∷ [])
  unfolding create_revoker grpc_init register_instance
  created r rs revokers (enabled, port) = simp (enabled, port) refl

  -- What the store finds after an id has been unregistered
  emptied-find :
      (id : Text) (h : ℕ) (r : Revoker B) (rs : List (RevokerInstance ℕ)) (p : Process B)
      → get_instance id rs ≡ none
      → (find_instance id (emptied (is_empty_store (some rs)) h r (some rs) p).1.store ≡ none)
        × ((emptied (is_empty_store (some rs)) h r (some rs) p).1.revokers ≡ set p.revokers h r)
  unfolding is_empty_store close_store find_instance
  emptied-find id h r [] p gone = (refl, refl)
  emptied-find id h r (x ∷ xs) p gone = (ap with_manager gone, refl)

  cleaned_up :
      (h : ℕ) (r : Revoker B) (rs : List (RevokerInstance ℕ)) (revokers : List (Revoker B))
      → r.grpc_enabled ≡ true
      → let p' = (cleanup_grpc h r (running_with rs revokers)).1 in
        (find_instance r.id p'.store ≡ none)
        × (p'.revokers ≡ set revokers h (record r { grpc_enabled = false }))
  unfolding cleanup_grpc unregister_instance
  cleaned_up h r rs revokers enabled =
      let gone : get_instance r.id (delete_instance r.id rs) ≡ none =
        get-delete_instance r.id r.id rs ∙ simp (text_eq_refl r.id) refl in
      simp enabled (
        emptied-find r.id h (record r { grpc_enabled = false }) (delete_instance r.id rs)
          (running_with rs revokers) gone)

  just_registered :
      (b : Revoker B) (rs : List (RevokerInstance ℕ)) (h : ℕ)
      → find_instance b.id (some (set_instance (instance_of h b) rs)) ≡ some (instance_of h b)
  unfolding find_instance
  just_registered b rs h =
      let here : get_instance b.id (set_instance (instance_of h b) rs) ≡ some (instance_of h b) =
        get-set_instance b.id (instance_of h b) rs ∙ simp (text_eq_refl b.id) refl in
      ap with_manager here

  destroyed :
      (h : ℕ) (r : Revoker B) (p : Process B)
      → get_elem? p.revokers h ≡ some r
      → destroy_begin h p ≡ cleanup_grpc h r p
  unfolding destroy_begin
  destroyed h r p here = ap (λ o. destroy_found h o p) here

  -- Two revokers that ask for gRPC are created with one id while the server runs. A gRPC call then
  -- reaches the later one; after the earlier one is destroyed it reaches none, although the later
  -- one is still there as it was created.
  pub destroy_evicts_namesake :
      (a b : Revoker B) (rs : List (RevokerInstance ℕ)) (revokers : List (Revoker B))
      → AsksForGrpc a
      → AsksForGrpc b
      → a.id ≡ b.id
      → let first = length revokers in
        let p = create_revoker b (create_revoker a (running_with rs revokers)) in
        let p' = (destroy_begin first p).1 in
        (find_instance b.id p.store ≡ some (instance_of (first + 1) b))
        × (find_instance b.id p'.store ≡ none)
        × (get_elem? p'.revokers (first + 1) ≡ some b)
  destroy_evicts_namesake a b rs revokers asks_a asks_b same =
      let n = length revokers in
      let both = (revokers ++ a ∷ []) ++ b ∷ [] in
      let rs_a = set_instance (instance_of n a) rs in
      let count : length (revokers ++ a ∷ []) ≡ n + 1 = length-append revokers (a ∷ []) in
      let rs_b = set_instance (instance_of (n + 1) b) rs_a in
      let p = create_revoker b (create_revoker a (running_with rs revokers)) in
      let made : p ≡ running_with rs_b both =
        ap (create_revoker b) (created a rs revokers asks_a)
        ∙ created b rs_a (revokers ++ a ∷ []) asks_b
        ∙ ap (λ h. running_with (set_instance (instance_of h b) rs_a) both) count in
      let ended : destroy_begin n p ≡ cleanup_grpc n a (running_with rs_b both) =
        ap (destroy_begin n) made
        ∙ destroyed n a (running_with rs_b both) (get-before_last revokers a b) in
      let (gone, rest) = cleaned_up n a rs_b both asks_a.0 in
      let apart : n ≢ n + 1 = λ e. omega (arith, e) in
      let last : get_elem? both (n + 1) ≡ some b =
        ap (get_elem? both) (sym count) ∙ get-last (revokers ++ a ∷ []) b in
      (
        ap (λ q. find_instance b.id q.store) made ∙ just_registered b rs_a (n + 1),
        ap (λ id. find_instance id (destroy_begin n p).1.store) (sym same)
            ∙ ap (λ q. find_instance a.id q.1.store) ended
            ∙ gone,
        ap (λ q. get_elem? q.1.revokers (n + 1)) ended
            ∙ ap (λ l. get_elem? l (n + 1)) rest
            ∙ get_elem?-set_ne both (record a { grpc_enabled = false }) apart
            ∙ last,
      )
