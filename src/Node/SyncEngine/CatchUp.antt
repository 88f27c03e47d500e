-- ===== src/Node/SyncEngine/CatchUp.antt =====
-- packages/node/src/syncEngine.ts catches up: what the coordinator sends in order is applied.
use express_token_revoker.Prelude.{
  ℕ, ◌+◌, ◌≤◌, ◌≡◌, refl, sym, ap, true, false, Option, none, some, List, [], ◌∷◌, ◌++◌, arith,
  length, length-append,
}
use mathlib.Core.List.{append_assoc, append-nil}
use express_token_revoker.Prelude.Text.{Text, decimal, max_safe, number-decimal}
use express_token_revoker.Node.SyncEngine.{
  WireStreamEvent, entry, rotate, SyncEngineOptions, SyncPeers, SyncEngine, new_engine,
}
use express_token_revoker.Node.SyncEngine.Connect.{start, subscribe_succeeded}
use express_token_revoker.Node.SyncEngine.Apply.{
  enqueue_apply, chain_done, persist_applied, apply_entry_body, apply_rotate_body, check_lsn,
  apply_body, apply_event, end_unless_rotating, apply_head, chain_step, after_rotation,
  rotation_settled,
}
use express_token_revoker.Node.SyncEngine.Run.{
  Input, started, subscribed, stream_data, chain_ran, rotation_ended, handle, run,
}
use express_token_revoker.Node.SyncEngine.Log.{LogEvent, revoke, rotation, replay_event, replay}

-- The event as the coordinator sends it: its LSN as a decimal string, and for a rotation the
-- generation that it begins.
abbrev pub wire : ℕ → ℕ → LogEvent → WireStreamEvent
wire lsn generation (revoke item) =
    entry (some (record { lsn = decimal lsn; generation = generation; item = item }))
wire lsn generation rotation =
    rotate (some (record { lsn = decimal lsn; generation = generation + 1 }))

abbrev pub next_generation : ℕ → LogEvent → ℕ
next_generation generation (revoke item) = generation
next_generation generation rotation = generation + 1

abbrev pub last_generation : ℕ → List LogEvent → ℕ
last_generation generation [] = generation
last_generation generation (e ∷ es) = last_generation (next_generation generation e) es

-- A batch of events as it arrives: from the first event behind `lsn` on.
abbrev pub wires : ℕ → ℕ → List LogEvent → List WireStreamEvent
wires lsn generation [] = []
wires lsn generation (e ∷ es) =
    wire (lsn + 1) generation e ∷ wires (lsn + 1) (next_generation generation e) es

abbrev pub arrivals : List WireStreamEvent → List Input
arrivals [] = []
arrivals (e ∷ es) = stream_data e ∷ arrivals es

-- The engine's own steps for as many events: each is applied, and its rotation, if it is one, ends.
abbrev pub drained : ℕ → List WireStreamEvent → List Input
drained now [] = []
drained now (e ∷ es) = chain_ran now ∷ rotation_ended now ∷ drained now es

-- The schedule on which a log arrives in batches, and all events of a batch are there before the
-- first of them is applied.
abbrev pub in_batches : ℕ → ℕ → ℕ → List (List LogEvent) → List Input
in_batches now lsn generation [] = []
in_batches now lsn generation (b ∷ bs) =
    arrivals (wires lsn generation b)
    ++ (drained now (wires lsn generation b)
        ++ in_batches now (lsn + length b) (last_generation generation b) bs)

abbrev pub concat : List (List LogEvent) → List LogEvent
concat [] = []
concat (b ∷ bs) = b ++ concat bs

module _ {R S : Type 0} where
  -- Only `queue` is left to apply, and the engine is in service.
  pub record IsReady (w : SyncEngine R S) (lsn g : ℕ) (r : R) (queue : List WireStreamEvent)
      : Type 0 where
    pub fired : w.rebootstrap_fired ≡ false
    pub has_stopped : w.has_stopped ≡ false
    pub position : w.last_applied_lsn ≡ lsn
    pub generation : w.generation ≡ g
    pub chain : w.chain ≡ queue
    pub rotating : w.rotating ≡ none
    pub revoker : w.revoker ≡ r

last_generation-append :
    (g : ℕ) (es fs : List LogEvent)
    → last_generation g (es ++ fs) ≡ last_generation (last_generation g es) fs
last_generation-append g [] fs = refl
last_generation-append g (e ∷ es) fs = last_generation-append (next_generation g e) es fs

replay-append :
    {R S : Type 0} (peers : SyncPeers R S) (es fs : List LogEvent) (r : R)
    → replay peers (es ++ fs) r ≡ replay peers fs (replay peers es r)
replay-append peers [] fs r = refl
replay-append peers (e ∷ es) fs r = replay-append peers es fs (replay_event peers e r)

module _ {R S : Type 0} (peers : SyncPeers R S) (other : Text → Option ℕ)
    (o : SyncEngineOptions) where
  run-append :
      (xs ys : List Input) (w : SyncEngine R S)
      → run peers other o (xs ++ ys) w ≡ run peers other o ys (run peers other o xs w)
  unfolding run
  run-append [] ys w = refl
  run-append (x ∷ xs) ys w = run-append xs ys (handle peers other o x w)

  enqueued-IsReady :
      (lsn g : ℕ) (r : R) (queue : List WireStreamEvent) (e : WireStreamEvent) (w : SyncEngine R S)
      → IsReady w lsn g r queue
      → IsReady (handle peers other o (stream_data e) w) lsn g r (queue ++ e ∷ [])
  unfolding handle enqueue_apply
  enqueued-IsReady lsn g r queue e w h = record {
    fired = h.fired;
    has_stopped = h.has_stopped;
    position = h.position;
    generation = h.generation;
    chain = ap (λ q. q ++ e ∷ []) h.chain;
    rotating = h.rotating;
    revoker = h.revoker;
  }

  arrived-IsReady :
      (lsn g : ℕ) (r : R) (queue es : List WireStreamEvent) (w : SyncEngine R S)
      → IsReady w lsn g r queue
      → IsReady (run peers other o (arrivals es) w) lsn g r (queue ++ es)
  unfolding run
  arrived-IsReady lsn g r queue [] w h = rw (append-nil queue) h
  arrived-IsReady lsn g r queue (e ∷ es) w h = rw (sym (append_assoc queue (e ∷ []) es)) (
      arrived-IsReady lsn g r (queue ++ e ∷ []) es (handle peers other o (stream_data e) w)
        (enqueued-IsReady lsn g r queue e w h))

  subscribed-IsReady :
      (now s lsn g : ℕ) (r : R) (w : SyncEngine R S)
      → IsReady w lsn g r []
      → IsReady (run peers other o (started ∷ subscribed now s ∷ []) w) lsn g r []
  unfolding run handle start subscribe_succeeded
  subscribed-IsReady now s lsn g r w h =
      ground
        (arith, h.fired, h.has_stopped, h.position, h.generation, h.chain, h.rotating, h.revoker)

module _ {R S : Type 0} (peers : SyncPeers R S) (other : Text → Option ℕ) (o : SyncEngineOptions)
    (applies : (item : Text) (r : R) → (peers.apply_entry item r).1 ≡ true)
    (rotates : (r : R) → (peers.rotate_on_demand r).1 ≡ true)
    (persists : (lsn generation : ℕ) (s : S) → (peers.update lsn generation s).1 ≡ true) where
  abbrev applied : ℕ → SyncEngine R S → SyncEngine R S
  applied now w = handle peers other o (rotation_ended now) (handle peers other o (chain_ran now) w)

  applied-IsReady :
      (now lsn generation : ℕ) (e : LogEvent) (queue : List WireStreamEvent) (w : SyncEngine R S)
      (r : R)
      → lsn + 1 ≤ max_safe
      → IsReady w lsn generation r (wire (lsn + 1) generation e ∷ queue)
      → IsReady
          (applied now w)
          (lsn + 1)
          (next_generation generation e)
          (replay_event peers e r)
          queue
  unfolding handle chain_step apply_head apply_event apply_body check_lsn apply_entry_body
      apply_rotate_body persist_applied end_unless_rotating chain_done rotation_settled
      after_rotation
  applied-IsReady now lsn generation (revoke item) queue w r fits h = ground (
    arith,
    h.chain,
    number-decimal other (lsn + 1),
    applies item w.revoker,
    persists (lsn + 1) w.generation w.state_store,
  )
  applied-IsReady now lsn generation rotation queue w r fits h = ground (
    arith,
    h.chain,
    number-decimal other (lsn + 1),
    rotates w.revoker,
    persists (lsn + 1) (generation + 1) w.state_store,
  )

  drained-IsReady :
      (now lsn generation : ℕ) (log : List LogEvent) (w : SyncEngine R S) (r : R)
      → lsn + length log ≤ max_safe
      → IsReady w lsn generation r (wires lsn generation log)
      → IsReady
          (run peers other o (drained now (wires lsn generation log)) w)
          (lsn + length log)
          (last_generation generation log)
          (replay peers log r)
          []
  unfolding run
  drained-IsReady now lsn generation [] w r fits h =
      let same : lsn + 0 ≡ lsn = omega arith in rw same h
  drained-IsReady now lsn generation (e ∷ es) w r fits h =
      let shift : lsn + length (e ∷ es) ≡ lsn + 1 + length es = omega arith in
      rw shift (
        drained-IsReady now (lsn + 1) (next_generation generation e) es (applied now w)
          (replay_event peers e r) (omega arith)
          (applied-IsReady now lsn generation e (wires (lsn + 1) (next_generation generation e) es)
            w r (omega arith) h))

  batches-IsReady :
      (now lsn generation : ℕ) (bs : List (List LogEvent)) (w : SyncEngine R S) (r : R)
      → lsn + length (concat bs) ≤ max_safe
      → IsReady w lsn generation r []
      → IsReady
          (run peers other o (in_batches now lsn generation bs) w)
          (lsn + length (concat bs))
          (last_generation generation (concat bs))
          (replay peers (concat bs) r)
          []
  unfolding run
  batches-IsReady now lsn generation [] w r fits h =
      let same : lsn + 0 ≡ lsn = omega arith in rw same h
  batches-IsReady now lsn generation (b ∷ bs) w r fits h =
      let batch = wires lsn generation b in
      let later = in_batches now (lsn + length b) (last_generation generation b) bs in
      let shift : lsn + length (b ++ concat bs) ≡ lsn + length b + length (concat bs) =
        omega (arith, length-append b (concat bs)) in
      let there = run peers other o (arrivals batch) w in
      rw
        (
          shift,
          last_generation-append generation b (concat bs),
          replay-append peers b (concat bs) r,
          run-append peers other o (arrivals batch) (drained now batch ++ later) w,
          run-append peers other o (drained now batch) later there,
        )
        (batches-IsReady now (lsn + length b) (last_generation generation b) bs
          (run peers other o (drained now batch) there) (replay peers b r)
          (omega (arith, shift, fits))
          (drained-IsReady now lsn generation b there r (omega (arith, shift, fits))
            (arrived-IsReady peers other o lsn generation r [] batch w h)))

  -- If the peers do not fail, a new engine that starts, subscribes, and to which the coordinator's
  -- log is sent in order, in batches of any sizes, each of which is there as a whole before the
  -- first event of it is applied and is applied before the next one comes, ends up with all of the
  -- log applied: at its last LSN, in the generation of its last rotation, with the replay of the log
  -- as its replica, in service, and with nothing left to apply.
  pub catches_up :
      (now stream lsn generation : ℕ) (bs : List (List LogEvent)) (r : R) (s : S)
      → lsn + length (concat bs) ≤ max_safe
      → IsReady
          (run peers other o
            (started ∷ subscribed now stream ∷ in_batches now lsn generation bs)
            (new_engine r s lsn generation))
          (lsn + length (concat bs))
          (last_generation generation (concat bs))
          (replay peers (concat bs) r)
          []
  unfolding run
  catches_up now stream lsn generation bs r s fits =
      let fresh = new_engine r s lsn generation in
      batches-IsReady now lsn generation bs
        (run peers other o (started ∷ subscribed now stream ∷ []) fresh) r fits
        (subscribed-IsReady peers other o now stream lsn generation r fresh
          (unfold new_engine in ground arith))
