-- ===== src/Core/Revoker/Starts.antt =====
-- The gRPC server and the store of packages/core/src/index.ts, through the
-- parts of a start and of a stop.
use express_token_revoker.Prelude.{
  ℕ, ◌≡◌, ◌≢◌, refl, sym, ap, true, false, ◌&&◌, Option, none, some, List, [], ◌∷◌, arith,
  Bool-cases, Option-cases, inl, inr, get_elem?,
}
use mathlib.Core.Path.{subst}
use express_token_revoker.Prelude.Result.{Result, ok, err}
use express_token_revoker.Prelude.Text.{Text, text_eq}
use express_token_revoker.Core.RevokerStore.{
  RevokerInstance, RevokerStore, register_instance, unregister_instance, close_store,
  is_empty_store, set_instance, delete_instance,
}
use express_token_revoker.Core.Revoker.{
  Revoker, ServerPhase, idle, starting, running, stopping, Process, is_started, put_revoker,
  emptied, unregistered, cleanup_grpc, release, destroy_begin, shutdown_begin, shutdown_end,
  server_stopped, released,
}
use express_token_revoker.Core.Revoker.Start.{
  close_if_empty, end_destroy, fail_waiter, fail_waiters, start_failed, registered,
  register_waiters,
}

-- The store is open exactly while the server starts or runs; while it runs, a revoker is registered.
abbrev pub Holds : ServerPhase → RevokerStore ℕ → Type 0
Holds idle store = store ≡ none
Holds (starting waiters) store = (store ≡ some []) × (waiters ≢ [])
Holds running store =
    (x : RevokerInstance ℕ) × (xs : List (RevokerInstance ℕ)) × (store ≡ some (x ∷ xs))
Holds stopping store = store ≡ none

abbrev pub IsInStep : {B : Type 0} → Process B → Type 0
IsInStep p = Holds p.server p.store

-- A registration in an open store
pub register_used :
    (x : RevokerInstance ℕ) (xs : List (RevokerInstance ℕ))
    → (z : RevokerInstance ℕ) × (zs : List (RevokerInstance ℕ)) × (register_instance x (some xs)
        ≡ (ok tt, some (z ∷ zs)))
unfolding register_instance set_instance
register_used x [] = (x, [], refl)
register_used x (y ∷ ys) = elim (Bool-cases (text_eq y.id x.id)) [
  | inl same ↦ (x, ys, simp same refl)
  | inr other ↦ (y, set_instance x ys, simp other refl)
]

module _ {B : Type 0} where
  abbrev pub at : ServerPhase → RevokerStore ℕ → List (Revoker B) → Process B
  at phase store revokers = record { store = store; server = phase; revokers = revokers }

  pub release-IsInStep : (h : ℕ) (p : Process B) → IsInStep p → IsInStep (release h p)
  unfolding release
  release-IsInStep h p i = elim (Option-cases (get_elem? p.revokers h)) [
    | inl gone ↦ simp gone i
    | inr (r, here) ↦ simp here i
  ]

  end_destroy-IsInStep :
      (h : ℕ) (a : Result (Unit {0}) × Process B) → IsInStep a.1 → IsInStep (end_destroy h a)
  end_destroy-IsInStep h (ok _, p) i = release-IsInStep h p i
  end_destroy-IsInStep h (err e, p) i = i

  emptied-IsInStep :
      (h : ℕ) (r : Revoker B) (xs : List (RevokerInstance ℕ)) (store : RevokerStore ℕ)
      (revokers : List (Revoker B))
      → IsInStep (emptied (is_empty_store (some xs)) h r (some xs) (at running store revokers)).1
  unfolding is_empty_store close_store
  emptied-IsInStep h r [] store revokers = refl
  emptied-IsInStep h r (x ∷ xs) store revokers = (x, xs, refl)

  unregistered-IsInStep :
      (phase : ServerPhase) (store : RevokerStore ℕ) (h : ℕ) (r : Revoker B)
      (revokers : List (Revoker B))
      → is_started phase ≡ true
      → Holds phase store
      → IsInStep (unregistered (unregister_instance r.id store) h r (at phase store revokers)).1
  unfolding unregister_instance
  unregistered-IsInStep idle store h r revokers started i = absurd (ground (arith, started))
  unregistered-IsInStep (starting waiters) store h r revokers started i =
      absurd (ground (arith, started))
  unregistered-IsInStep running none h r revokers started (x, xs, used) = absurd (none-ne used)
    where
      none-ne : {l : List (RevokerInstance ℕ)} → none ≢ some l
      none-ne = cc
  unregistered-IsInStep running (some xs) h r revokers started i =
      emptied-IsInStep h (record r { grpc_enabled = false }) (delete_instance r.id xs) (some xs)
        revokers
  unregistered-IsInStep stopping none h r revokers started i = refl
  unregistered-IsInStep stopping (some xs) h r revokers started i = absurd (some-ne i)
    where
      some-ne : {l : List (RevokerInstance ℕ)} → some l ≢ none
      some-ne = cc

  cleanup-IsInStep :
      (h : ℕ) (r : Revoker B) (p : Process B) → IsInStep p → IsInStep (cleanup_grpc h r p).1
  unfolding cleanup_grpc
  cleanup-IsInStep h r p i = elim (Bool-cases (r.grpc_enabled && is_started p.server)) [
    | inr skipped ↦ simp skipped i
    | inl goes ↦
        let started : is_started p.server ≡ true = ground (arith, goes) in
        simp goes (unregistered-IsInStep p.server p.store h r p.revokers started i)
  ]

  pub destroy_begin-IsInStep : (h : ℕ) (p : Process B) → IsInStep p → IsInStep (destroy_begin h p).1
  unfolding destroy_begin
  destroy_begin-IsInStep h p i = elim (Option-cases (get_elem? p.revokers h)) [
    | inl gone ↦ simp gone i
    | inr (r, here) ↦ simp here (cleanup-IsInStep h r p i)
  ]

  pub shutdown_begin-IsInStep : (h : ℕ) (p : Process B) → IsInStep p → IsInStep (shutdown_begin h p)
  unfolding shutdown_begin
  shutdown_begin-IsInStep h p i = elim (Option-cases (get_elem? p.revokers h)) [
    | inl gone ↦ simp gone i
    | inr (r, here) ↦ simp here i
  ]

  pub shutdown_end-IsInStep : (h : ℕ) (p : Process B) → IsInStep p → IsInStep (shutdown_end h p).1
  unfolding shutdown_end
  shutdown_end-IsInStep h p i = elim (Option-cases (get_elem? p.revokers h)) [
    | inl gone ↦ simp gone i
    | inr (r, here) ↦ simp here (cleanup-IsInStep h (released r) (put_revoker h (released r) p) i)
  ]

  pub stopped-IsInStep :
      (phase : ServerPhase) (store : RevokerStore ℕ) (revokers : List (Revoker B))
      → Holds phase store
      → IsInStep (server_stopped (at phase store revokers))
  unfolding server_stopped
  stopped-IsInStep idle store revokers i = i
  stopped-IsInStep (starting waiters) store revokers i = i
  stopped-IsInStep running store revokers i = i
  stopped-IsInStep stopping store revokers i = i

  -- The waiters of a start that has failed: the store is closed, and stays so.
  abbrev IsIdle : Process B → Type 0
  IsIdle p = (p.server ≡ idle) × (p.store ≡ none)

  release-IsIdle : (h : ℕ) (p : Process B) → IsIdle p → IsIdle (release h p)
  unfolding release
  release-IsIdle h p i = elim (Option-cases (get_elem? p.revokers h)) [
    | inl gone ↦ simp gone i
    | inr (r, here) ↦ simp here i
  ]

  destroyed-IsIdle : (h : ℕ) (p : Process B) → IsIdle p → IsIdle (end_destroy h (destroy_begin h p))
  unfolding destroy_begin cleanup_grpc
  destroyed-IsIdle h p (unstarted, shut) = elim (Option-cases (get_elem? p.revokers h)) [
    | inl gone ↦ simp gone (release-IsIdle h p (unstarted, shut))
    | inr (r, here) ↦
        let skipped : (r.grpc_enabled && is_started p.server) ≡ false =
          rw unstarted (ground arith) in
        simp (here, skipped) (release-IsIdle h p (unstarted, shut))
  ]

  fail_waiter-IsIdle :
      (id : Text) (o : Option ℕ) (store : RevokerStore ℕ) (revokers : List (Revoker B))
      → close_if_empty (is_empty_store store) store ≡ none
      → IsIdle (fail_waiter (record { id = id; bloom_filter_manager = o }) (at idle store revokers))
  fail_waiter-IsIdle id none store revokers closes = (refl, closes)
  fail_waiter-IsIdle id (some h) store revokers closes =
      destroyed-IsIdle h (at idle (close_if_empty (is_empty_store store) store) revokers)
        (refl, closes)

  fail_waiters-IsIdle :
      (xs : List (RevokerInstance ℕ)) (p : Process B) → IsIdle p → IsIdle (fail_waiters xs p)
  unfolding fail_waiters is_empty_store
  fail_waiters-IsIdle [] p i = i
  fail_waiters-IsIdle (x ∷ xs) p (unstarted, shut) =
      let next : IsIdle (fail_waiter x p) =
        rw (eq_of p unstarted)
          (fail_waiter-IsIdle x.id x.bloom_filter_manager p.store p.revokers (rw shut refl)) in
      fail_waiters-IsIdle xs (fail_waiter x p) next
    where
      eq_of : (p : Process B) → p.server ≡ idle → p ≡ at idle p.store p.revokers
      eq_of p e = ap (λ phase. at phase p.store p.revokers) e

  IsIdle-IsInStep : (p : Process B) → IsIdle p → IsInStep p
  IsIdle-IsInStep p (unstarted, shut) = rw unstarted shut

  pub start_failed-IsInStep :
      (x : RevokerInstance ℕ) (xs : List (RevokerInstance ℕ)) (phase : ServerPhase)
      (revokers : List (Revoker B))
      → IsInStep (start_failed (x ∷ xs) (at phase (some []) revokers))
  unfolding start_failed fail_waiters is_empty_store close_store
  start_failed-IsInStep x xs phase revokers =
      IsIdle-IsInStep (start_failed (x ∷ xs) (at phase (some []) revokers)) (
        fail_waiters-IsIdle xs (fail_waiter x (at idle (some []) revokers))
          (fail_waiter-IsIdle x.id x.bloom_filter_manager (some []) revokers refl))

  -- The waiters of a start that has succeeded
  pub register_waiters-IsInStep :
      (ys : List (RevokerInstance ℕ)) (x : RevokerInstance ℕ) (xs : List (RevokerInstance ℕ))
      (revokers : List (Revoker B))
      → IsInStep (register_waiters ys (at running (some (x ∷ xs)) revokers))
  unfolding register_waiters
  register_waiters-IsInStep [] x xs revokers = (x, xs, refl)
  register_waiters-IsInStep (y ∷ ys) x xs revokers =
      let (z, zs, used) = register_used y (x ∷ xs) in
      subst
        (λ a. IsInStep (register_waiters ys (registered a y (at running (some (x ∷ xs)) revokers))))
        (sym used) (register_waiters-IsInStep ys z zs revokers)
