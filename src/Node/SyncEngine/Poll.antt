-- ===== src/Node/SyncEngine/Poll.antt =====
-- The degraded mode of packages/node/src/syncEngine.ts: `#pollOnce`, from one await to the next.
use express_token_revoker.Prelude.{
  ℕ, zero, ◌+◌, Bool, true, not, ◌&&◌, ◌||◌, none, some, List, [], ◌∷◌, length, ltb, if◌then◌else◌,
}
use express_token_revoker.Node.SyncEngine.{
  WireStreamEvent, SyncEngineOptions, SyncEngine, requesting, applying, poll_deltas, emit,
  max_poll_pages,
}
use express_token_revoker.Node.SyncEngine.Apply.{enqueue_apply}
use express_token_revoker.Node.SyncEngine.Connect.{connected}

module _ {R S : Type 0} (o : SyncEngineOptions) where
  -- the test of the `while` loop, then the request of a page
  unfoldable pub request_page : Bool → ℕ → SyncEngine R S → SyncEngine R S
  request_page more pages w =
      if more && ltb pages max_poll_pages && not w.has_stopped && not (connected w)
      then emit (poll_deltas w.last_applied_lsn o.max_poll_events)
          (record w { polling = some (requesting pages) })
      else record w { polling = none }

  -- the `for` loop over the events of a page
  unfoldable pub apply_page : List WireStreamEvent → Bool → ℕ → SyncEngine R S → SyncEngine R S
  unfolding request_page enqueue_apply
  apply_page [] more pages w = request_page more (pages + 1) w
  apply_page (e ∷ rest) more pages w = record (enqueue_apply e w) {
    polling = some (applying (length w.chain + 1) rest more pages);
  }

  -- A tick of the poll timer: `#pollOnce` up to its first await.
  unfoldable pub poll_once : SyncEngine R S → SyncEngine R S
  unfolding request_page
  poll_once w =
      if not w.poll_timer || w.has_stopped || connected w
      then w
      else elim w.polling [ none ↦ request_page true 0 w | some _ ↦ w ]

  -- The page that was asked for has come.
  unfoldable pub page_received : List WireStreamEvent → Bool → SyncEngine R S → SyncEngine R S
  page_received events more w = elim w.polling [
    | some (requesting pages) ↦
        if w.has_stopped then record w { polling = none } else apply_page events more pages w
    | _ ↦ w
  ]

  -- The request of a page has failed.
  unfoldable pub page_failed : SyncEngine R S → SyncEngine R S
  page_failed w = elim w.polling [ some (requesting pages) ↦ record w { polling = none } | _ ↦ w ]

  -- The event that the loop awaits has been applied.
  unfoldable pub poll_resumed : SyncEngine R S → SyncEngine R S
  poll_resumed w = elim w.polling [
    | some (applying zero rest more pages) ↦
        if w.has_stopped || w.rebootstrap_fired
        then record w { polling = none }
        else apply_page rest more pages w
    | _ ↦ w
  ]
