-- ===== src/Node/SyncEngine/Replica.antt =====
-- The replica of packages/node/src/syncEngine.ts follows the coordinator's log.
use express_token_revoker.Prelude.{
  ℕ, suc, ◌+◌, ◌≡◌, refl, sym, ◌∙◌, ap, false, Option, none, some, List, arith, leb, ◌==◌, take,
  get_elem?, lt-length_of_get_elem?, ◌≤◌, ◌<◌, length, inl, inr, Bool-cases,
}
use express_token_revoker.Prelude.Text.{Text, number, max_safe}
use express_token_revoker.Node.SyncEngine.{
  Reason, WireStreamEvent, unknown, entry, rotate, keepalive, resnapshot, SyncPeers, SyncEngine,
  rebootstrap,
}
use express_token_revoker.Node.SyncEngine.Apply.{
  persist_applied, apply_entry_body, apply_rotate_body, check_lsn, apply_body, apply_event,
}
use express_token_revoker.Node.SyncEngine.Log.{
  LogEvent, revoke, rotation, replay, replay-take-suc, IsGenuine,
}
use express_token_revoker.Node.SyncEngine.Frames.{SameReplica, rebootstrap_lem, rebootstrap-halts}

module _ {R S : Type 0} (peers : SyncPeers R S) (other : Text → Option ℕ) (origin : ℕ)
    (log : List LogEvent) (r₀ : R) where
  -- Unless the engine has stopped or asks for a rebootstrap, the replica has applied exactly the
  -- events of the log up to the last applied LSN; an awaited rotation is the next event.
  pub record IsReplica (w : SyncEngine R S) : Type 0 where
    pub count : ℕ
    pub position : w.last_applied_lsn ≡ origin + count
    pub within : count ≤ length log
    pub replica :
        w.rebootstrap_fired ≡ false
        → w.has_stopped ≡ false
        → w.revoker ≡ replay peers (take count log) r₀
    pub awaits :
        (lsn g : ℕ)
        → w.rotating ≡ some (lsn, g)
        → (lsn ≡ origin + suc count) × (get_elem? log count ≡ some rotation)

  pub SameReplica-IsReplica :
      {w w' : SyncEngine R S} → SameReplica w w' → IsReplica w → IsReplica w'
  SameReplica-IsReplica s h = record {
    count = h.count;
    position = s.position ∙ h.position;
    within = h.within;
    replica = λ fired stopped. s.revoker ∙ h.replica (s.fired fired) (s.has_stopped stopped);
    awaits = λ lsn g e. h.awaits lsn g (sym s.rotating ∙ e);
  }

  -- A rebootstrap keeps the position, whatever the failed call has made of the replica.
  pub rebootstrap-IsReplica :
      (reason : Reason) (count : ℕ) (w : SyncEngine R S)
      → w.last_applied_lsn ≡ origin + count
      → count ≤ length log
      → w.rotating ≡ none
      → IsReplica (rebootstrap reason w)
  rebootstrap-IsReplica reason count w at fits idle =
      let same = rebootstrap_lem reason w in
      record {
        count = count;
        position = same.position ∙ at;
        within = fits;
        replica = λ f s. absurd (rebootstrap-halts reason w f s);
        awaits = λ lsn g e. cc (same.rotating);
      }

  -- After the event `count` of the log has been applied, only its LSN is left to be persisted.
  pub persist_applied-IsReplica :
      (now lsn count : ℕ) (w : SyncEngine R S)
      → w.last_applied_lsn ≡ origin + count
      → count < length log
      → lsn ≡ origin + suc count
      → w.rotating ≡ none
      → (w.rebootstrap_fired ≡ false
          → w.has_stopped ≡ false
          → w.revoker ≡ replay peers (take (suc count) log) r₀)
      → IsReplica (persist_applied peers now lsn w)
  unfolding persist_applied
  persist_applied-IsReplica now lsn count w at fits next idle applied =
      elim (Bool-cases (peers.update lsn w.generation w.state_store).1) [
        | inl done ↦ rw done (record {
          count = suc count;
          position = next;
          within = fits;
          replica = applied;
          awaits = λ n g e. cc idle;
        })
        | inr thrown ↦ rw thrown (rebootstrap-IsReplica _ count _ at (omega arith) idle)
      ]

  apply_entry_body-IsReplica :
      (now lsn : ℕ) (item : Text) (w : SyncEngine R S) (h : IsReplica w)
      → w.rebootstrap_fired ≡ false
      → w.has_stopped ≡ false
      → w.rotating ≡ none
      → lsn ≡ origin + suc h.count
      → get_elem? log h.count ≡ some (revoke item)
      → IsReplica (apply_entry_body peers now lsn item w)
  unfolding apply_entry_body
  apply_entry_body-IsReplica now lsn item w h fired stopped idle next e =
      elim (Bool-cases (peers.apply_entry item w.revoker).1) [
        | inl done ↦ rw done (
            persist_applied-IsReplica now lsn h.count _ h.position
              (lt-length_of_get_elem? log h.count e) next idle
              λ f s.
                ap (λ r. (peers.apply_entry item r).0) (h.replica f s)
                ∙ sym (replay-take-suc peers h.count log _ r₀ e))
        | inr thrown ↦ rw thrown (rebootstrap-IsReplica _ h.count _ h.position h.within idle)
      ]

  apply_rotate_body-IsReplica :
      (lsn generation : ℕ) (w : SyncEngine R S) (h : IsReplica w)
      → lsn ≡ origin + suc h.count
      → get_elem? log h.count ≡ some rotation
      → w.rotating ≡ none
      → IsReplica (apply_rotate_body lsn generation w)
  unfolding apply_rotate_body
  apply_rotate_body-IsReplica lsn generation w h next e idle =
      elim (Bool-cases (generation == w.generation + 1)) [
        | inl expected ↦ rw expected (record {
          count = h.count;
          position = h.position;
          within = h.within;
          replica = h.replica;
          awaits = λ n g started. (ground arith, e);
        })
        | inr other_generation ↦
            rw other_generation (rebootstrap-IsReplica _ h.count _ h.position h.within idle)
      ]

  -- What the checks on the LSN let through is the next event.
  check_lsn-IsReplica :
      (number : Option ℕ) (apply : ℕ → SyncEngine R S → SyncEngine R S) (w : SyncEngine R S)
      (h : IsReplica w)
      → w.rotating ≡ none
      → ((lsn : ℕ) → number ≡ some lsn → lsn ≡ origin + suc h.count → IsReplica (apply lsn w))
      → IsReplica (check_lsn number apply w)
  unfolding check_lsn
  check_lsn-IsReplica none apply w h idle next =
      rebootstrap-IsReplica _ h.count _ h.position h.within idle
  check_lsn-IsReplica (some lsn) apply w h idle next = elim (Bool-cases (leb lsn max_safe)) [
    | inr unsafe ↦ rw unsafe (rebootstrap-IsReplica _ h.count _ h.position h.within idle)
    | inl safe ↦ rw safe (elim (Bool-cases (leb lsn w.last_applied_lsn)) [
      | inl old ↦ rw old h
      | inr new ↦ rw new (elim (Bool-cases (lsn == w.last_applied_lsn + 1)) [
        | inl contiguous ↦ rw contiguous (next lsn refl (ground (arith, h.position)))
        | inr gap ↦ rw gap (rebootstrap-IsReplica _ h.count _ h.position h.within idle)
      ])
    ])
  ]

  apply_body-IsReplica :
      (now : ℕ) (e : WireStreamEvent) (w : SyncEngine R S) (h : IsReplica w)
      → w.rebootstrap_fired ≡ false
      → w.has_stopped ≡ false
      → w.rotating ≡ none
      → IsGenuine other origin log e
      → IsReplica (apply_body peers other now e w)
  unfolding apply_body
  apply_body-IsReplica now unknown w h f s idle g = h
  apply_body-IsReplica now keepalive w h f s idle g = record {
    count = h.count;
    position = h.position;
    within = h.within;
    replica = h.replica;
    awaits = h.awaits;
  }
  apply_body-IsReplica now resnapshot w h f s idle g =
      rebootstrap-IsReplica _ h.count w h.position h.within idle
  apply_body-IsReplica now (entry none) w h f s idle g =
      rebootstrap-IsReplica _ h.count w h.position h.within idle
  apply_body-IsReplica now (entry (some b)) w h f s idle g =
      check_lsn-IsReplica (number other b.lsn) _ w h idle λ lsn read next.
        apply_entry_body-IsReplica now lsn b.item w h f s idle next
          (g h.count (read ∙ ap some (next ∙ omega arith)))
  apply_body-IsReplica now (rotate none) w h f s idle g =
      rebootstrap-IsReplica _ h.count w h.position h.within idle
  apply_body-IsReplica now (rotate (some b)) w h f s idle g =
      check_lsn-IsReplica (number other b.lsn) _ w h idle λ lsn read next.
        apply_rotate_body-IsReplica lsn b.generation w h next
          (g h.count (read ∙ ap some (next ∙ omega arith))) idle

  pub apply_event-IsReplica :
      (now : ℕ) (e : WireStreamEvent) (w : SyncEngine R S)
      → IsReplica w
      → w.rotating ≡ none
      → IsGenuine other origin log e
      → IsReplica (apply_event peers other now e w)
  unfolding apply_event
  apply_event-IsReplica now e w h idle g = elim (Bool-cases w.has_stopped) [
    | inl stopped ↦ simp stopped h
    | inr running ↦ elim (Bool-cases w.rebootstrap_fired) [
      | inl fired ↦ simp (running, fired) h
      | inr quiet ↦ simp (running, quiet) (apply_body-IsReplica now e w h quiet running idle g)
    ]
  ]
