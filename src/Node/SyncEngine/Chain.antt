-- ===== src/Node/SyncEngine/Chain.antt =====
-- The apply chain of packages/node/src/syncEngine.ts, and what follows an awaited rotation, keep
-- the replica on the coordinator's log.
use express_token_revoker.Prelude.{
  ℕ, suc, ◌+◌, ◌≡◌, refl, sym, ◌∙◌, ap, Option, none, some, List, [], ◌∷◌, get_elem?, All,
  lt-length_of_get_elem?, inl, inr, Bool-cases, Option-cases,
}
use express_token_revoker.Prelude.Text.{Text}
use express_token_revoker.Node.SyncEngine.{WireStreamEvent, SyncPeers, SyncEngine}
use express_token_revoker.Node.SyncEngine.Apply.{
  end_unless_rotating, apply_head, chain_step, after_rotation, rotation_settled,
}
use express_token_revoker.Node.SyncEngine.Log.{LogEvent, rotation, replay-take-suc, IsGenuine}
use express_token_revoker.Node.SyncEngine.Frames.{chain_done_lem}
use express_token_revoker.Node.SyncEngine.Replica.{
  IsReplica, SameReplica-IsReplica, rebootstrap-IsReplica, persist_applied-IsReplica,
  apply_event-IsReplica,
}

module _ {R S : Type 0} (peers : SyncPeers R S) (other : Text → Option ℕ) (origin : ℕ)
    (log : List LogEvent) (r₀ : R) where
  abbrev Follows : SyncEngine R S → Type 0
  Follows w = IsReplica peers other origin log r₀ w

  after_rotation-IsReplica :
      (now lsn expected : ℕ) (w : SyncEngine R S) (h : Follows w)
      → lsn ≡ origin + suc h.count
      → get_elem? log h.count ≡ some rotation
      → Follows (after_rotation peers now lsn expected w)
  unfolding after_rotation
  after_rotation-IsReplica now lsn expected w h next e =
      elim (Bool-cases (peers.rotate_on_demand w.revoker).1) [
        | inl done ↦ rw done (
            persist_applied-IsReplica peers other origin log r₀ now lsn h.count _ h.position
              (lt-length_of_get_elem? log h.count e) next refl
              λ f s.
                ap (λ r. (peers.rotate_on_demand r).0) (h.replica f s)
                ∙ sym (replay-take-suc peers h.count log _ r₀ e))
        | inr thrown ↦
            rw thrown
              (rebootstrap-IsReplica peers other origin log r₀ _ h.count _ h.position h.within refl)
      ]

  pub rotation_settled-IsReplica :
      (now : ℕ) (w : SyncEngine R S) → Follows w → Follows (rotation_settled peers now w)
  unfolding rotation_settled
  rotation_settled-IsReplica now w h = elim (Option-cases w.rotating) [
    | inl idle ↦ simp (idle, rotation_settled) h
    | inr ((lsn, g), awaited) ↦
        let (next, e) = h.awaits lsn g awaited in
        simp (awaited, rotation_settled)
          (SameReplica-IsReplica peers other origin log r₀ (chain_done_lem _)
            (after_rotation-IsReplica now lsn g w h next e))
  ]

  end_unless_rotating-IsReplica : {w : SyncEngine R S} → Follows w → Follows (end_unless_rotating w)
  unfolding end_unless_rotating
  end_unless_rotating-IsReplica {w} h = elim (Option-cases w.rotating) [
    | inl idle ↦
        simp (idle, end_unless_rotating)
          (SameReplica-IsReplica peers other origin log r₀ (chain_done_lem w) h)
    | inr (r, awaited) ↦ simp (awaited, end_unless_rotating) h
  ]

  apply_head-IsReplica :
      (now : ℕ) (es : List WireStreamEvent) (w : SyncEngine R S)
      → Follows w
      → w.rotating ≡ none
      → All (IsGenuine other origin log) es
      → Follows (apply_head peers other now es w)
  unfolding apply_head
  apply_head-IsReplica now [] w h idle g = h
  apply_head-IsReplica now (e ∷ es) w h idle (g, _) =
      end_unless_rotating-IsReplica
        (apply_event-IsReplica peers other origin log r₀ now e w h idle g)

  pub chain_step-IsReplica :
      (now : ℕ) (w : SyncEngine R S)
      → Follows w
      → All (IsGenuine other origin log) w.chain
      → Follows (chain_step peers other now w)
  unfolding chain_step
  chain_step-IsReplica now w h g = elim (Option-cases w.rotating) [
    | inr (r, awaited) ↦ simp (awaited, chain_step) h
    | inl idle ↦ simp (idle, chain_step) (apply_head-IsReplica now w.chain w h idle g)
  ]
