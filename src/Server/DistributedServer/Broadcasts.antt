-- ===== src/Server/DistributedServer/Broadcasts.antt =====
-- What `Add` of packages/server/src/distributedServer.ts puts on the streams of the nodes.
use express_token_revoker.Prelude.{
  branch, ℕ, ◌≡◌, refl, sym, ap, ◌⊎◌, ◌||◌, inl, inr, true, not, some, [], ◌∷◌, Bool-cases,
  Option-cases,
}
use express_token_revoker.Prelude.Result.{Result, ok, err, validation_error, internal_error}
use express_token_revoker.Prelude.Text.{Text}
use express_token_revoker.Server.CanonicalWal.Wal.{
  Faults, CanonicalWal, append_line, append_entry, append_tombstone,
}
use express_token_revoker.Server.Coordinator
use express_token_revoker.Server.Coordinator.{
  Revoker, Coordinator, CallFaults, AddResult, entry_sent, is_valid_item, add_logged, add_local,
  add_tombstoned,
}
use express_token_revoker.Server.DistributedServer.{
  DistributedServer, is_valid_id, broadcast, broadcast_all, listening, heard,
}
use express_token_revoker.Server.DistributedServer.Serve.{
  Status, invalid_argument, internal, refused, added, answer_add, handle_add,
}

-- An append that returns has returned the LSN, and the generation is as it was.
abbrev Appended : ℕ → ℕ → Result ℕ × CanonicalWal → Type 0
Appended lsn generation (err e, w) = Unit
Appended lsn generation (ok n, w) = (n ≡ lsn) × (w.generation ≡ generation)

append_entry-Appended :
    (faults : Faults) (item : Text) (w : CanonicalWal)
    → Appended w.next_lsn w.generation (append_entry faults item w)
unfolding append_entry append_line
append_entry-Appended faults item w = elim (Bool-cases (not w.initialized || faults.unwritable)) [
  | inl fails ↦ simp fails tt
  | inr goes ↦ simp goes (refl, refl)
]

module _ {R : Type 0} where
  -- The result has the LSN, and the listener has been given the entry; nothing on an error.
  abbrev GivesEntry : Text → ℕ → ℕ → Result AddResult × Coordinator R → Type 0
  GivesEntry item lsn generation (ok result, c) =
      (result.lsn ≡ lsn) × (c.sent ≡ entry_sent lsn generation item ∷ [])
  GivesEntry item lsn generation (err e, c) = c.sent ≡ []

  module _ (revokers : Revoker R) (faults : CallFaults) (item : Text) where
    local-GivesEntry :
        (lsn : ℕ) (r : Result (Unit {0}) × R) (c : Coordinator R)
        → c.has_listener ≡ true
        → c.sent ≡ []
        → GivesEntry item lsn c.wal.generation (add_local revokers faults lsn item r c)
    unfolding add_local add_tombstoned
    local-GivesEntry lsn (ok _, r) c listens quiet = simp (listens, quiet) (refl, refl)
    local-GivesEntry lsn (err e, r) c listens quiet =
        tombstoned (append_tombstone faults.tombstone_log lsn item c.wal)
      where
        tombstoned :
            (a : Result (Unit {0}) × CanonicalWal)
            → GivesEntry item lsn c.wal.generation
                (add_tombstoned revokers lsn item a (record c { revoker = some r }))
        tombstoned (err e, w) = quiet
        tombstoned (ok _, w) = simp (listens, quiet) (refl, refl)

    logged-GivesEntry :
        (r : R) (lsn generation : ℕ) (a : Result ℕ × CanonicalWal) (c : Coordinator R)
        → Appended lsn generation a
        → c.has_listener ≡ true
        → c.sent ≡ []
        → GivesEntry item lsn generation (add_logged revokers faults item r a c)
    unfolding add_logged
    logged-GivesEntry r lsn generation (err e, w) c kept listens quiet = quiet
    logged-GivesEntry r lsn generation (ok n, w) c (here, kept) listens quiet =
        rw (sym here, sym kept)
          (local-GivesEntry n (revokers.add item r) (record c { wal = w }) listens quiet)

    add-GivesEntry :
        (c : Coordinator R)
        → c.has_listener ≡ true
        → c.sent ≡ []
        → GivesEntry item c.wal.next_lsn c.wal.generation (Coordinator.add revokers faults item c)
    unfolding Coordinator.add
    add-GivesEntry c listens quiet =
        branch (GivesEntry item c.wal.next_lsn c.wal.generation) c.is_shutting_down _ _ quiet
          (elim (Option-cases c.revoker) [
            | inl gone ↦ simp gone quiet
            | inr (r, here) ↦ simp here (
                branch (GivesEntry item c.wal.next_lsn c.wal.generation) (not (is_valid_item item))
                  _ _ quiet
                  (logged-GivesEntry r c.wal.next_lsn c.wal.generation
                    (append_entry faults.log item c.wal) c
                    (append_entry-Appended faults.log item c.wal) listens quiet))
          ])

-- An Add to a server whose coordinator has a listener. Either it is answered with the LSN that the
-- log gave to the item, and the entry is enqueued behind everything else on every open stream,
-- whether or not the coordinator's own filter took the item; or it is refused, and nothing is
-- enqueued on any stream.
pub add_reaches_streams :
    {R : Type 0} (revokers : Revoker R) (faults : CallFaults) (node_id item : Text)
    (s : DistributedServer R)
    → s.coordinator.has_listener ≡ true
    → let (reply, s') = handle_add revokers faults node_id item s in
      let wal = s.coordinator.wal in
      ((result : AddResult) × (reply ≡ added result)
        × (result.lsn ≡ wal.next_lsn)
        × (s'.connections ≡ broadcast (entry_sent wal.next_lsn wal.generation item) s.connections))
      ⊎ ((status : Status) × (reply ≡ refused status) × (s'.connections ≡ s.connections))
unfolding handle_add heard broadcast_all
add_reaches_streams {R = R} revokers faults node_id item s listens =
    elim (Bool-cases (is_valid_id node_id)) [
      | inr strange ↦ simp strange (inr (invalid_argument, refl, refl))
      | inl valid ↦ simp valid (
          answered (Coordinator.add revokers faults item (listening s.coordinator))
            (add-GivesEntry revokers faults item (listening s.coordinator) listens refl))
    ]
  where
    answered :
        (a : Result AddResult × Coordinator R)
        → GivesEntry item s.coordinator.wal.next_lsn s.coordinator.wal.generation a
        → let (reply, s') = answer_add a s in
          let wal = s.coordinator.wal in
          ((result : AddResult) × (reply ≡ added result)
            × (result.lsn ≡ wal.next_lsn)
            × (s'.connections
                ≡ broadcast (entry_sent wal.next_lsn wal.generation item) s.connections))
          ⊎ ((status : Status) × (reply ≡ refused status) × (s'.connections ≡ s.connections))
    answered (ok result, c) (at, gave) =
        inl (result, refl, at, ap (λ es. broadcast_all es s.connections) gave)
    answered (err validation_error, c) none_given =
        inr (invalid_argument, refl, ap (λ es. broadcast_all es s.connections) none_given)
    answered (err internal_error, c) none_given =
        inr (internal, refl, ap (λ es. broadcast_all es s.connections) none_given)
