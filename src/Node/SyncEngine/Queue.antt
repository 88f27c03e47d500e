-- ===== src/Node/SyncEngine/Queue.antt =====
-- What packages/node/src/syncEngine.ts still has to apply comes from what it has received.
use express_token_revoker.Prelude.{
  ℕ, zero, suc, ◌+◌, ◌-◌, ◌≡◌, refl, Bool, Option, none, some, List, [], ◌∷◌, arith, All,
  All-append, Option-cases, inl, inr,
}
use express_token_revoker.Prelude.Text.{Text}
use express_token_revoker.Node.SyncEngine.{
  WireStreamEvent, SyncEngineOptions, SyncPeers, SyncEngine, PollFrame, requesting, applying,
}
use express_token_revoker.Node.SyncEngine.Apply.{
  enqueue_apply, chain_done, end_unless_rotating, apply_head, chain_step, rotation_settled,
}
use express_token_revoker.Node.SyncEngine.Poll.{
  request_page, apply_page, poll_once, page_received, page_failed, poll_resumed,
}
use express_token_revoker.Node.SyncEngine.Run.{
  Input, started, has_subscribe_failed, poll_ticked, poll_failed, poll_continued, stop_called,
  subscribed, stream_data, stream_down, sleep_ended, watchdog_ticked, chain_ran, rotation_ended,
  page_arrived, handle,
}
use express_token_revoker.Node.SyncEngine.QueueFrames.{
  SameQueue, apply_event-queue, after_rotation-queue, start-queue, stop-queue, sleep_over-queue,
  subscribe_succeeded-queue, subscribe_failed-queue, handle_stream_down-queue, watchdog_tick-queue,
}

-- The events that an input brings.
abbrev pub Brings : (WireStreamEvent → Type 0) → Input → Type 0
Brings P (stream_data e) = P e
Brings P (page_arrived events more) = All P events
Brings P _ = Unit

module _ (P : WireStreamEvent → Type 0) where
  abbrev PollHolds : Option PollFrame → Type 0
  PollHolds none = Unit
  PollHolds (some (requesting pages)) = Unit
  PollHolds (some (applying ahead rest more pages)) = All P rest

  tail-holds : (es : List WireStreamEvent) → All P es → All P (elim es [ [] ↦ [] | e ∷ r ↦ r ])
  tail-holds [] h = tt
  tail-holds (e ∷ es) h = h.1

  ahead-holds :
      (p : Option PollFrame)
      → PollHolds p
      → PollHolds (elim p [
        | some (applying ahead rest more pages) ↦ some (applying (ahead - 1) rest more pages)
        | other ↦ other
      ])
  ahead-holds none h = tt
  ahead-holds (some (requesting pages)) h = tt
  ahead-holds (some (applying ahead rest more pages)) h = h

  module _ {R S : Type 0} where
    -- Every event of the chain and of the page at hand satisfies `P`.
    pub record IsQueued (w : SyncEngine R S) : Type 0 where
      pub chain : All P w.chain
      pub polling : PollHolds w.polling

    SameQueue-IsQueued : {w w' : SyncEngine R S} → SameQueue w w' → IsQueued w → IsQueued w'
    SameQueue-IsQueued {w} {w'} (c, p) h = record { chain = rw c h.chain; polling = rw p h.polling }

    chain_done-IsQueued : {w : SyncEngine R S} → IsQueued w → IsQueued (chain_done w)
    unfolding chain_done
    chain_done-IsQueued {w} h = record {
      chain = tail-holds w.chain h.chain;
      polling = ahead-holds w.polling h.polling;
    }

    end_unless_rotating-IsQueued :
        {w : SyncEngine R S} → IsQueued w → IsQueued (end_unless_rotating w)
    unfolding end_unless_rotating
    end_unless_rotating-IsQueued {w} h = elim (Option-cases w.rotating) [
      | inl done ↦ simp (done, end_unless_rotating) (chain_done-IsQueued h)
      | inr (r, awaited) ↦ simp (awaited, end_unless_rotating) h
    ]

    enqueue_apply-IsQueued :
        (e : WireStreamEvent) (w : SyncEngine R S) → P e → IsQueued w → IsQueued (enqueue_apply e w)
    unfolding enqueue_apply
    enqueue_apply-IsQueued e w p h = record {
      chain = All-append P w.chain _ h.chain (p, tt);
      polling = h.polling;
    }

    apply_head-IsQueued :
        (peers : SyncPeers R S) (other : Text → Option ℕ) (now : ℕ) (es : List WireStreamEvent)
        (w : SyncEngine R S)
        → IsQueued w
        → IsQueued (apply_head peers other now es w)
    unfolding apply_head
    apply_head-IsQueued peers other now [] w h = h
    apply_head-IsQueued peers other now (e ∷ es) w h =
        end_unless_rotating-IsQueued (SameQueue-IsQueued (apply_event-queue peers other now e w) h)

    chain_step-IsQueued :
        (peers : SyncPeers R S) (other : Text → Option ℕ) (now : ℕ) (w : SyncEngine R S)
        → IsQueued w
        → IsQueued (chain_step peers other now w)
    unfolding chain_step
    chain_step-IsQueued peers other now w h = elim (Option-cases w.rotating) [
      | inl done ↦ simp (done, chain_step) (apply_head-IsQueued peers other now w.chain w h)
      | inr (r, awaited) ↦ simp (awaited, chain_step) h
    ]

    rotation_settled-IsQueued :
        (peers : SyncPeers R S) (now : ℕ) (w : SyncEngine R S)
        → IsQueued w
        → IsQueued (rotation_settled peers now w)
    unfolding rotation_settled
    rotation_settled-IsQueued peers now w h = elim (Option-cases w.rotating) [
      | inl done ↦ simp (done, rotation_settled) h
      | inr ((lsn, g), awaited) ↦
          simp (awaited, rotation_settled)
            (chain_done-IsQueued (SameQueue-IsQueued (after_rotation-queue peers now lsn g w) h))
    ]

    module _ (o : SyncEngineOptions) where
      request_page-IsQueued :
          (more : Bool) (pages : ℕ) (w : SyncEngine R S)
          → IsQueued w
          → IsQueued (request_page o more pages w)
      unfolding request_page
      request_page-IsQueued more pages w h = ground arith

      apply_page-IsQueued :
          (events : List WireStreamEvent) (more : Bool) (pages : ℕ) (w : SyncEngine R S)
          → All P events
          → IsQueued w
          → IsQueued (apply_page o events more pages w)
      apply_page-IsQueued [] more pages w p h =
          unfold apply_page in request_page-IsQueued more (pages + 1) w h
      apply_page-IsQueued (e ∷ rest) more pages w (p, ps) h =
          let queued = enqueue_apply-IsQueued e w p h in
          unfold apply_page in record { chain = queued.chain; polling = ps }

      poll_once-IsQueued : (w : SyncEngine R S) → IsQueued w → IsQueued (poll_once o w)
      unfolding poll_once
      poll_once-IsQueued w h = ground arith

      page_received-IsQueued :
          (events : List WireStreamEvent) (more : Bool) (w : SyncEngine R S)
          → All P events
          → IsQueued w
          → IsQueued (page_received o events more w)
      page_received-IsQueued events more w ps h = go w.polling refl
        where
          go : (p : Option PollFrame) → w.polling ≡ p → IsQueued (page_received o events more w)
          go none e = unfold page_received in simp (e, page_received) h
          go (some (applying ahead rest m pages)) e =
              unfold page_received in simp (e, page_received) h
          go (some (requesting pages)) e =
              let applied = apply_page-IsQueued events more pages w ps h in
              unfold page_received in simp (e, page_received) (ground arith)

      page_failed-IsQueued : (w : SyncEngine R S) → IsQueued w → IsQueued (page_failed o w)
      unfolding page_failed
      page_failed-IsQueued w h = ground arith

      poll_resumed-IsQueued : (w : SyncEngine R S) → IsQueued w → IsQueued (poll_resumed o w)
      poll_resumed-IsQueued w h = go w.polling refl
        where
          go : (p : Option PollFrame) → w.polling ≡ p → IsQueued (poll_resumed o w)
          go none e = unfold poll_resumed in simp (e, poll_resumed) h
          go (some (requesting pages)) e = unfold poll_resumed in simp (e, poll_resumed) h
          go (some (applying (suc n) rest more pages)) e =
              unfold poll_resumed in simp (e, poll_resumed) h
          go (some (applying zero rest more pages)) e =
              let applied = apply_page-IsQueued rest more pages w (rw e at h.polling) h in
              unfold poll_resumed in simp (e, poll_resumed) (ground arith)

    -- What comes in is all that is ever queued.
    pub handle-IsQueued :
        (peers : SyncPeers R S) (other : Text → Option ℕ) (o : SyncEngineOptions) (x : Input)
        (w : SyncEngine R S)
        → Brings P x
        → IsQueued w
        → IsQueued (handle peers other o x w)
    unfolding handle
    handle-IsQueued peers other o started w b h = SameQueue-IsQueued (start-queue w) h
    handle-IsQueued peers other o has_subscribe_failed w b h =
        SameQueue-IsQueued (subscribe_failed-queue o w) h
    handle-IsQueued peers other o (subscribed now s) w b h =
        SameQueue-IsQueued (subscribe_succeeded-queue now s w) h
    handle-IsQueued peers other o (stream_data e) w b h = enqueue_apply-IsQueued e w b h
    handle-IsQueued peers other o (stream_down s) w b h =
        SameQueue-IsQueued (handle_stream_down-queue o s w) h
    handle-IsQueued peers other o (sleep_ended token) w b h =
        SameQueue-IsQueued (sleep_over-queue token w) h
    handle-IsQueued peers other o (watchdog_ticked now) w b h =
        SameQueue-IsQueued (watchdog_tick-queue o now w) h
    handle-IsQueued peers other o poll_ticked w b h = poll_once-IsQueued o w h
    handle-IsQueued peers other o (page_arrived events more) w b h =
        page_received-IsQueued o events more w b h
    handle-IsQueued peers other o poll_failed w b h = page_failed-IsQueued o w h
    handle-IsQueued peers other o poll_continued w b h = poll_resumed-IsQueued o w h
    handle-IsQueued peers other o (chain_ran now) w b h = chain_step-IsQueued peers other now w h
    handle-IsQueued peers other o (rotation_ended now) w b h =
        rotation_settled-IsQueued peers now w h
    handle-IsQueued peers other o stop_called w b h = SameQueue-IsQueued (stop-queue w) h
