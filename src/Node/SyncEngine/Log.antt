-- ===== src/Node/SyncEngine/Log.antt =====
-- The specification of replication: the coordinator's log, the replica that applies the first
-- events of it, and the wire events that come from it.
use express_token_revoker.Prelude.{
  ℕ, zero, suc, ◌+◌, ◌≡◌, Option, none, some, List, [], ◌∷◌, arith, take, get_elem?, All,
}
use express_token_revoker.Prelude.Text.{Text, number}
use express_token_revoker.Node.SyncEngine.{
  WireStreamEvent, entry, rotate, SyncPeers, PollFrame, requesting, applying,
}

pub data LogEvent : Type 0 where
  revoke : Text → LogEvent
  rotation : LogEvent

module _ {R S : Type 0} (peers : SyncPeers R S) where
  abbrev pub replay_event : LogEvent → R → R
  replay_event (revoke item) r = (peers.apply_entry item r).0
  replay_event rotation r = (peers.rotate_on_demand r).0

  -- The replica after all events of a log.
  abbrev pub replay : List LogEvent → R → R
  replay [] r = r
  replay (e ∷ es) r = replay es (replay_event e r)

  -- One more event of the log is one more application, at the end.
  pub replay-take-suc :
      (n : ℕ) (log : List LogEvent) (e : LogEvent) (r : R)
      → get_elem? log n ≡ some e
      → replay (take (suc n) log) r ≡ replay_event e (replay (take n log) r)
  replay-take-suc n [] e r h = cc
  replay-take-suc zero (x ∷ log) e r h = ground arith
  replay-take-suc (suc n) (x ∷ log) e r h = replay-take-suc n log e (replay_event x r) h

module _ (other : Text → Option ℕ) (start : ℕ) (log : List LogEvent) where
  -- The event with the LSN `start + 1 + i` is the log's event `i`. Nothing is said of other LSNs,
  -- of malformed ones, and of the generation.
  abbrev pub IsGenuine : WireStreamEvent → Type 0
  IsGenuine (entry (some b)) =
      (i : ℕ) → number other b.lsn ≡ some (start + 1 + i) → get_elem? log i ≡ some (revoke b.item)
  IsGenuine (rotate (some b)) =
      (i : ℕ) → number other b.lsn ≡ some (start + 1 + i) → get_elem? log i ≡ some rotation
  IsGenuine _ = Unit

  abbrev pub IsGenuinePoll : Option PollFrame → Type 0
  IsGenuinePoll none = Unit
  IsGenuinePoll (some (requesting pages)) = Unit
  IsGenuinePoll (some (applying ahead rest more pages)) = All IsGenuine rest
