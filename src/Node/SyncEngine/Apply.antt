-- ===== src/Node/SyncEngine/Apply.antt =====
-- The apply chain of packages/node/src/syncEngine.ts: `#enqueueApply` and `#applyEvent`.
use express_token_revoker.Prelude.{
  ℕ, ◌+◌, ◌-◌, true, false, ◌||◌, Option, none, some, List, [], ◌∷◌, ◌++◌, leb, ◌==◌, if◌then◌else◌,
}
use express_token_revoker.Prelude.Text.{Text, number, max_safe}
use express_token_revoker.Node.SyncEngine.{
  WireStreamEvent, unknown, entry, rotate, keepalive, resnapshot, SyncPeers, SyncEngine, applying,
  resnapshot_required, malformed_lsn, unappliable_entry, generation_mismatch, rotation_failed,
  persistence_failed, lsn_gap, keepalive_received, emit, rebootstrap,
}

module _ {R S : Type 0} where
  -- `#enqueueApply`
  unfoldable pub enqueue_apply : WireStreamEvent → SyncEngine R S → SyncEngine R S
  enqueue_apply e w = record w { chain = w.chain ++ e ∷ [] }

  -- The head of the chain is done: a poll that awaits it is one application nearer.
  unfoldable pub chain_done : SyncEngine R S → SyncEngine R S
  chain_done w = record w {
    chain = elim w.chain [ [] ↦ [] | e ∷ es ↦ es ];
    polling = elim w.polling [
      | some (applying ahead rest more pages) ↦ some (applying (ahead - 1) rest more pages)
      | other ↦ other
    ];
  }

  unfoldable pub apply_rotate_body : ℕ → ℕ → SyncEngine R S → SyncEngine R S
  apply_rotate_body lsn generation w =
      let expected = w.generation + 1 in
      if generation == expected
      then record w { in_coordinated_rotation = true; rotating = some (lsn, expected) }
      else rebootstrap generation_mismatch w

  -- The checks of `#applyEvent` on the LSN; `apply` is what follows them.
  unfoldable pub check_lsn :
      Option ℕ → (ℕ → SyncEngine R S → SyncEngine R S) → SyncEngine R S → SyncEngine R S
  check_lsn none apply w = rebootstrap malformed_lsn w
  check_lsn (some lsn) apply w =
      if leb lsn max_safe
      then if leb lsn w.last_applied_lsn
        then w
        else if lsn == w.last_applied_lsn + 1
        then apply lsn w
        else rebootstrap (lsn_gap (w.last_applied_lsn + 1) lsn) w
      else rebootstrap malformed_lsn w

  unfoldable pub end_unless_rotating : SyncEngine R S → SyncEngine R S
  end_unless_rotating w = elim w.rotating [ none ↦ chain_done w | some _ ↦ w ]

  module _ (peers : SyncPeers R S) where
    -- The end of `#applyEvent`: the state is persisted after the event has been applied.
    unfoldable pub persist_applied : ℕ → ℕ → SyncEngine R S → SyncEngine R S
    persist_applied now lsn w =
        let (store, done) = peers.update lsn w.generation w.state_store in
        if done
        then record w { state_store = store; last_applied_lsn = lsn; last_stream_activity_at = now }
        else rebootstrap persistence_failed (record w { state_store = store })

    -- `#applyEvent` from the check of the kind on, for an entry and for a rotation, whose
    -- `rotateOnDemand` is awaited.
    unfoldable pub apply_entry_body : ℕ → ℕ → Text → SyncEngine R S → SyncEngine R S
    apply_entry_body now lsn item w =
        let (r, done) = peers.apply_entry item w.revoker in
        if done
        then persist_applied now lsn (record w { revoker = r })
        else rebootstrap unappliable_entry (record w { revoker = r })

    unfoldable pub after_rotation : ℕ → ℕ → ℕ → SyncEngine R S → SyncEngine R S
    after_rotation now lsn expected w =
        let (r, done) = peers.rotate_on_demand w.revoker in
        if done
        then persist_applied now lsn (record w {
          revoker = r;
          rotating = none;
          in_coordinated_rotation = false;
          generation = expected;
        })
        else rebootstrap rotation_failed
            (record w { revoker = r; rotating = none; in_coordinated_rotation = false })

    -- The awaited `rotateOnDemand` settles: the rest of `#applyEvent`.
    unfoldable pub rotation_settled : ℕ → SyncEngine R S → SyncEngine R S
    rotation_settled now w = elim w.rotating [
      | none ↦ w
      | some (lsn, expected) ↦ chain_done (after_rotation now lsn expected w)
    ]

  module _ (peers : SyncPeers R S) (other : Text → Option ℕ) where
    unfoldable pub apply_body : ℕ → WireStreamEvent → SyncEngine R S → SyncEngine R S
    apply_body now unknown w = w
    apply_body now keepalive w =
        emit keepalive_received (record w { last_stream_activity_at = now })
    apply_body now resnapshot w = rebootstrap resnapshot_required w
    apply_body now (entry none) w = rebootstrap malformed_lsn w
    apply_body now (entry (some b)) w =
        check_lsn (number other b.lsn) (λ lsn. apply_entry_body peers now lsn b.item) w
    apply_body now (rotate none) w = rebootstrap malformed_lsn w
    apply_body now (rotate (some b)) w =
        check_lsn (number other b.lsn) (λ lsn. apply_rotate_body lsn b.generation) w

    -- `#applyEvent`, up to its end or its await.
    unfoldable pub apply_event : ℕ → WireStreamEvent → SyncEngine R S → SyncEngine R S
    apply_event now e w = if w.has_stopped || w.rebootstrap_fired then w else apply_body now e w

    unfoldable pub apply_head : ℕ → List WireStreamEvent → SyncEngine R S → SyncEngine R S
    apply_head now [] w = w
    apply_head now (e ∷ _) w = end_unless_rotating (apply_event now e w)

    -- The chain takes its next event, unless it awaits a rotation.
    unfoldable pub chain_step : ℕ → SyncEngine R S → SyncEngine R S
    chain_step now w = elim w.rotating [ some _ ↦ w | none ↦ apply_head now w.chain w ]
