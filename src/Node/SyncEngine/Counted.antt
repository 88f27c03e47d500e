-- ===== src/Node/SyncEngine/Counted.antt =====
-- The rebootstraps that packages/node/src/syncEngine.ts asks for while it applies events.
use express_token_revoker.Prelude.{
  ℕ, ◌+◌, ◌≡◌, ◌∙◌, Bool, Option, none, some, List, [], ◌∷◌, ◌++◌, arith, if◌then◌else◌,
  Option-cases, inl, inr, Bool-cases, if_holds, ap, sym, ◌==◌,
}
use express_token_revoker.Prelude.Text.{Text}
use express_token_revoker.Node.SyncEngine.{
  WireStreamEvent, unknown, entry, rotate, keepalive, resnapshot, Reason, Signal,
  keepalive_received, rebootstrap_required, SyncPeers, SyncEngine, drop_stream, rebootstrap,
}
use express_token_revoker.Node.SyncEngine.Apply.{
  chain_done, persist_applied, apply_entry_body, apply_rotate_body, check_lsn, apply_body,
  end_unless_rotating, apply_event, apply_head, chain_step, after_rotation, rotation_settled,
}

abbrev pub asks : Signal → ℕ
asks (rebootstrap_required reason) = 1
asks _ = 0

-- How many of the signals ask for a rebootstrap.
abbrev pub rebootstraps : List Signal → ℕ
rebootstraps [] = 0
rebootstraps (x ∷ xs) = asks x + rebootstraps xs

pub rebootstraps-snoc :
    (xs : List Signal) (x : Signal) → rebootstraps (xs ++ x ∷ []) ≡ rebootstraps xs + asks x
rebootstraps-snoc [] x = omega arith
rebootstraps-snoc (y ∷ xs) x = omega (arith, rebootstraps-snoc xs x)

abbrev pub once : Bool → ℕ
once fired = if fired then 1 else 0

module _ {R S : Type 0} where
  pub record Counted (w : SyncEngine R S) : Type 0 where
    pub count : rebootstraps w.signals ≡ once w.rebootstrap_fired

  -- An operation that emits nothing, or nothing that asks for a rebootstrap.
  pub Counted-quiet :
      (w w' : SyncEngine R S)
      → rebootstraps w'.signals ≡ rebootstraps w.signals
      → w'.rebootstrap_fired ≡ w.rebootstrap_fired
      → Counted w
      → Counted w'
  Counted-quiet w w' q f h = record { count = q ∙ h.count ∙ ap once (sym f) }

  rebootstrap-Counted :
      (reason : Reason) (w : SyncEngine R S) → Counted w → Counted (rebootstrap reason w)
  unfolding rebootstrap drop_stream
  rebootstrap-Counted reason w h = record { count = grind (arith, rebootstraps-snoc, h.count) }

  pub drop_stream-Counted : (w : SyncEngine R S) → Counted w → Counted (drop_stream w)
  unfolding drop_stream
  drop_stream-Counted w h = record { count = grind (arith, rebootstraps-snoc, h.count) }

  module _ (peers : SyncPeers R S) where
    persist_applied-Counted :
        (now lsn : ℕ) (w : SyncEngine R S) → Counted w → Counted (persist_applied peers now lsn w)
    unfolding persist_applied
    persist_applied-Counted now lsn w h =
        elim (Bool-cases (peers.update lsn w.generation w.state_store).1) [
          | inl done ↦ rw done (record { count = h.count })
          | inr thrown ↦ rw thrown (rebootstrap-Counted _ _ (record { count = h.count }))
        ]

    apply_entry_body-Counted :
        (now lsn : ℕ) (item : Text) (w : SyncEngine R S)
        → Counted w
        → Counted (apply_entry_body peers now lsn item w)
    unfolding apply_entry_body
    apply_entry_body-Counted now lsn item w h =
        elim (Bool-cases (peers.apply_entry item w.revoker).1) [
          | inl done ↦ rw done (persist_applied-Counted now lsn _ (record { count = h.count }))
          | inr thrown ↦ rw thrown (rebootstrap-Counted _ _ (record { count = h.count }))
        ]

    after_rotation-Counted :
        (now lsn expected : ℕ) (w : SyncEngine R S)
        → Counted w
        → Counted (after_rotation peers now lsn expected w)
    unfolding after_rotation
    after_rotation-Counted now lsn expected w h =
        elim (Bool-cases (peers.rotate_on_demand w.revoker).1) [
          | inl done ↦ rw done (persist_applied-Counted now lsn _ (record { count = h.count }))
          | inr thrown ↦ rw thrown (rebootstrap-Counted _ _ (record { count = h.count }))
        ]

  apply_rotate_body-Counted :
      (lsn g : ℕ) (w : SyncEngine R S) → Counted w → Counted (apply_rotate_body lsn g w)
  unfolding apply_rotate_body
  apply_rotate_body-Counted lsn g w h = elim (Bool-cases (g == w.generation + 1)) [
    | inl expected ↦ rw expected (record { count = h.count })
    | inr wrong ↦ rw wrong (rebootstrap-Counted _ w h)
  ]

  check_lsn-Counted :
      (n : Option ℕ) (apply : ℕ → SyncEngine R S → SyncEngine R S) (w : SyncEngine R S)
      → Counted w
      → ((lsn : ℕ) → Counted (apply lsn w))
      → Counted (check_lsn n apply w)
  unfolding check_lsn
  check_lsn-Counted none apply w h k = rebootstrap-Counted _ w h
  check_lsn-Counted (some lsn) apply w h k =
      if_holds Counted _
        (if_holds Counted _ h (if_holds Counted _ (k lsn) (rebootstrap-Counted _ w h)))
        (rebootstrap-Counted _ w h)

  module _ (peers : SyncPeers R S) (other : Text → Option ℕ) where
    apply_body-Counted :
        (now : ℕ) (e : WireStreamEvent) (w : SyncEngine R S)
        → Counted w
        → Counted (apply_body peers other now e w)
    unfolding apply_body
    apply_body-Counted now unknown w h = h
    apply_body-Counted now keepalive w h = record {
      count = omega (arith, rebootstraps-snoc w.signals keepalive_received, h.count);
    }
    apply_body-Counted now resnapshot w h = rebootstrap-Counted _ w h
    apply_body-Counted now (entry none) w h = rebootstrap-Counted _ w h
    apply_body-Counted now (entry (some b)) w h =
        check_lsn-Counted _ _ w h λ lsn. apply_entry_body-Counted peers now lsn b.item w h
    apply_body-Counted now (rotate none) w h = rebootstrap-Counted _ w h
    apply_body-Counted now (rotate (some b)) w h =
        check_lsn-Counted _ _ w h λ lsn. apply_rotate_body-Counted lsn b.generation w h

    apply_event-Counted :
        (now : ℕ) (e : WireStreamEvent) (w : SyncEngine R S)
        → Counted w
        → Counted (apply_event peers other now e w)
    unfolding apply_event
    apply_event-Counted now e w h = if_holds Counted _ h (apply_body-Counted now e w h)

    end_unless_rotating-Counted : (w : SyncEngine R S) → Counted w → Counted (end_unless_rotating w)
    unfolding end_unless_rotating chain_done
    end_unless_rotating-Counted w h = record { count = ground (arith, h.count) }

    apply_head-Counted :
        (now : ℕ) (es : List WireStreamEvent) (w : SyncEngine R S)
        → Counted w
        → Counted (apply_head peers other now es w)
    unfolding apply_head
    apply_head-Counted now [] w h = h
    apply_head-Counted now (e ∷ es) w h =
        end_unless_rotating-Counted _ (apply_event-Counted now e w h)

    pub chain_step-Counted :
        (now : ℕ) (w : SyncEngine R S) → Counted w → Counted (chain_step peers other now w)
    unfolding chain_step
    chain_step-Counted now w h = elim (Option-cases w.rotating) [
      | inl done ↦ simp (done, chain_step) (apply_head-Counted now w.chain w h)
      | inr (r, awaited) ↦ simp (awaited, chain_step) h
    ]

    pub rotation_settled-Counted :
        (now : ℕ) (w : SyncEngine R S) → Counted w → Counted (rotation_settled peers now w)
    unfolding rotation_settled chain_done
    rotation_settled-Counted now w h = elim (Option-cases w.rotating) [
      | inl done ↦ simp (done, rotation_settled) h
      | inr ((lsn, g), awaited) ↦
          let after = after_rotation-Counted peers now lsn g w h in
          simp (awaited, rotation_settled) (record { count = after.count })
    ]
