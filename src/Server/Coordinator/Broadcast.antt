-- ===== src/Server/Coordinator/Broadcast.antt =====
-- The order of the events that the coordinator of packages/server/src/coordinator.ts broadcasts.
use express_token_revoker.Prelude.{
  ℕ, ◌+◌, ◌<◌, ◌≤◌, ◌≡◌, Bool, true, false, not, ◌||◌, Option, some, List, [], ◌∷◌, arith,
  Bool-cases, Option-cases, inl, inr, ◌⊎◌, if◌then◌else◌,
}
use express_token_revoker.Prelude.Result.{Result, ok, err, internal_error}
use express_token_revoker.Prelude.Text.{Text}
use express_token_revoker.Server.CanonicalWal.Wal.{
  CanonicalWal, append_entry, append_tombstone, append_rotate,
}
use express_token_revoker.Server.CanonicalWal.Truncate.{truncate_old_generations}
use express_token_revoker.Server.CanonicalWal.Numbering.{
  append_entry-next, append_rotate-next, append_tombstone-next, truncate_old_generations-next,
}
use express_token_revoker.Server.Coordinator.{
  Revoker, Coordinator, CallFaults, OutboundEvent, entry_sent, rotate_sent, add, add_tombstoned,
  add_local, add_logged, on_core_rotation, rotation_logged, rotation_truncated, shutdown,
  set_listener, is_valid_item,
}

abbrev pub sent_lsn : OutboundEvent → ℕ
sent_lsn (entry_sent lsn generation item) = lsn
sent_lsn (rotate_sent lsn generation) = lsn

-- The LSNs of the events sent, the latest first: each is below the one before, all are below `n`.
abbrev pub Descends : ℕ → List OutboundEvent → Type 0
Descends n [] = Unit
Descends n (e ∷ es) = (sent_lsn e < n) × Descends (sent_lsn e) es

-- The calls that reach a coordinator, each with what the file system refuses meanwhile.
pub data Request : Type 0 where
  add_request : CallFaults → Text → Request
  rotation : CallFaults → Request
  shutdown_request : CallFaults → Request
  listen : Bool → Request

module _ {R : Type 0} (revokers : Revoker R) (other : Text → Option ℕ) where
  unfoldable pub step : Request → Coordinator R → Coordinator R
  step (add_request faults item) c = (add revokers faults item c).1
  step (rotation faults) c = on_core_rotation other faults c
  step (shutdown_request faults) c = shutdown faults c
  step (listen on) c = set_listener on c

  unfoldable pub run : List Request → Coordinator R → Coordinator R
  unfolding step
  run [] c = c
  run (q ∷ qs) c = run qs (step q c)

Descends-weaken : (n p : ℕ) (es : List OutboundEvent) → n ≤ p → Descends n es → Descends p es
Descends-weaken n p [] h d = tt
Descends-weaken n p (e ∷ es) h (below, d) = (omega arith, d)

push-Descends :
    (n : ℕ) (e : OutboundEvent) (on : Bool) (es : List OutboundEvent)
    → Descends (sent_lsn e) es
    → sent_lsn e < n
    → Descends n (if on then e ∷ es else es)
push-Descends n e true es d h = (h, d)
push-Descends n e false es d h = Descends-weaken (sent_lsn e) n es (omega arith) d

-- The invariant of a coordinator.
abbrev pub IsOrdered : {R : Type 0} → Coordinator R → Type 0
IsOrdered c = Descends c.wal.next_lsn c.sent

module _ {R : Type 0} (revokers : Revoker R) where
  add_tombstoned-IsOrdered :
      (lsn : ℕ) (item : Text) (o : Result (Unit {0}) × CanonicalWal) (c : Coordinator R)
      → lsn < o.1.next_lsn
      → Descends lsn c.sent
      → IsOrdered (add_tombstoned revokers lsn item o c).1
  unfolding add_tombstoned
  add_tombstoned-IsOrdered lsn item (err e, wal') c h d =
      Descends-weaken lsn wal'.next_lsn c.sent (omega arith) d
  add_tombstoned-IsOrdered lsn item (ok _, wal') c h d =
      push-Descends wal'.next_lsn (entry_sent lsn c.wal.generation item) c.has_listener c.sent d h

  add_local-IsOrdered :
      (faults : CallFaults) (lsn : ℕ) (item : Text) (r : Result (Unit {0}) × R) (c : Coordinator R)
      → lsn < c.wal.next_lsn
      → Descends lsn c.sent
      → IsOrdered (add_local revokers faults lsn item r c).1
  unfolding add_local
  add_local-IsOrdered faults lsn item (ok _, r) c h d =
      push-Descends c.wal.next_lsn (entry_sent lsn c.wal.generation item) c.has_listener c.sent d h
  add_local-IsOrdered faults lsn item (err e, r) c h d =
      add_tombstoned-IsOrdered lsn item (append_tombstone faults.tombstone_log lsn item c.wal)
        (record c { revoker = some r })
        (omega (arith, append_tombstone-next faults.tombstone_log lsn item c.wal)) d

  add_logged-IsOrdered :
      (faults : CallFaults) (item : Text) (r : R) (o : Result ℕ × CanonicalWal) (c : Coordinator R)
      → o.1.next_lsn ≡ c.wal.next_lsn + 1
      → (o.0 ≡ ok c.wal.next_lsn) ⊎ (o.0 ≡ err internal_error)
      → IsOrdered c
      → IsOrdered (add_logged revokers faults item r o c).1
  unfolding add_logged
  add_logged-IsOrdered faults item r (err e, wal') c next from d =
      Descends-weaken c.wal.next_lsn wal'.next_lsn c.sent (omega (arith, next)) d
  add_logged-IsOrdered faults item r (ok lsn, wal') c next from d =
      let same : lsn ≡ c.wal.next_lsn = ground (arith, from) in
      add_local-IsOrdered faults lsn item (revokers.add item r) (record c { wal = wal' })
        (omega (arith, next, same)) (rw same d)

  add-IsOrdered :
      (faults : CallFaults) (item : Text) (c : Coordinator R)
      → IsOrdered c
      → IsOrdered (add revokers faults item c).1
  unfolding add
  add-IsOrdered faults item c d = elim (Bool-cases c.is_shutting_down) [
    | inl closing ↦ simp (closing, add) d
    | inr serving ↦ elim (Option-cases c.revoker) [
      | inl gone ↦ simp (serving, gone, add) d
      | inr (r, there) ↦ elim (Bool-cases (is_valid_item item)) [
        | inr refused ↦ simp (serving, there, refused, add) d
        | inl valid ↦
            let (next, from) = append_entry-next faults.log item c.wal in
            simp (serving, there, valid, add)
              (add_logged-IsOrdered faults item r (append_entry faults.log item c.wal) c next from
                d)
      ]
    ]
  ]

module _ {R : Type 0} (other : Text → Option ℕ) where
  rotation_truncated-IsOrdered :
      (lsn generation : ℕ) (o : Result (List Text) × CanonicalWal) (c : Coordinator R)
      → lsn < o.1.next_lsn
      → Descends lsn c.sent
      → IsOrdered (rotation_truncated other lsn generation o c)
  unfolding rotation_truncated
  rotation_truncated-IsOrdered lsn generation (err e, wal') c h d =
      Descends-weaken lsn wal'.next_lsn c.sent (omega arith) d
  rotation_truncated-IsOrdered lsn generation (ok deleted, wal') c h d =
      push-Descends wal'.next_lsn (rotate_sent lsn generation) c.has_listener c.sent d h

  rotation_logged-IsOrdered :
      (faults : CallFaults) (generation : ℕ) (o : Result ℕ × CanonicalWal) (c : Coordinator R)
      → o.1.next_lsn ≡ c.wal.next_lsn + 1
      → (o.0 ≡ ok c.wal.next_lsn) ⊎ (o.0 ≡ err internal_error)
      → IsOrdered c
      → IsOrdered (rotation_logged other faults generation o c)
  unfolding rotation_logged
  rotation_logged-IsOrdered faults generation (err e, wal') c next from d =
      Descends-weaken c.wal.next_lsn wal'.next_lsn c.sent (omega (arith, next)) d
  rotation_logged-IsOrdered faults generation (ok lsn, wal') c next from d =
      let same : lsn ≡ c.wal.next_lsn = ground (arith, from) in
      let kept = truncate_old_generations-next other faults.log c.meta.generation lsn wal' in
      elim (Bool-cases faults.unwritable_meta) [
        | inl failed ↦
            simp failed
              (Descends-weaken c.wal.next_lsn wal'.next_lsn c.sent (omega (arith, next)) d)
        | inr written ↦ simp written (
            rotation_truncated-IsOrdered lsn generation
              (truncate_old_generations other faults.log c.meta.generation lsn wal') _
              (omega (arith, kept, next, same)) (rw same d))
      ]

  on_core_rotation-IsOrdered :
      (faults : CallFaults) (c : Coordinator R)
      → IsOrdered c
      → IsOrdered (on_core_rotation other faults c)
  unfolding on_core_rotation
  on_core_rotation-IsOrdered faults c d = elim (Bool-cases (not c.is_ready || c.is_shutting_down)) [
    | inl ignored ↦ rw ignored d
    | inr served ↦
        let (next, from) = append_rotate-next faults.log (c.meta.generation + 1) c.wal in
        rw served (
          rotation_logged-IsOrdered faults (c.meta.generation + 1)
            (append_rotate faults.log (c.meta.generation + 1) c.wal) c next from d)
  ]

shutdown-IsOrdered :
    {R : Type 0} (faults : CallFaults) (c : Coordinator R)
    → IsOrdered c
    → IsOrdered (shutdown faults c)
unfolding shutdown
shutdown-IsOrdered faults c d = elim (Bool-cases c.is_shutting_down) [
  | inl closing ↦ simp closing d
  | inr serving ↦ elim (Bool-cases faults.unwritable_meta) [
    | inl failed ↦ simp (serving, failed) d
    | inr written ↦ simp (serving, written) d
  ]
]

-- Whatever the file system refuses: after any requests, the LSNs of all events broadcast are
-- strictly increasing in the order of the broadcasts and below the next LSN of the log, if they were
-- so before.
pub broadcasts_ascend :
    {R : Type 0} (revokers : Revoker R) (other : Text → Option ℕ) (qs : List Request)
    (c : Coordinator R)
    → Descends c.wal.next_lsn c.sent
    → Descends (run revokers other qs c).wal.next_lsn (run revokers other qs c).sent
unfolding run step set_listener
broadcasts_ascend revokers other [] c d = d
broadcasts_ascend revokers other (add_request faults item ∷ qs) c d =
    broadcasts_ascend revokers other qs _ (add-IsOrdered revokers faults item c d)
broadcasts_ascend revokers other (rotation faults ∷ qs) c d =
    broadcasts_ascend revokers other qs _ (on_core_rotation-IsOrdered other faults c d)
broadcasts_ascend revokers other (shutdown_request faults ∷ qs) c d =
    broadcasts_ascend revokers other qs _ (shutdown-IsOrdered faults c d)
broadcasts_ascend revokers other (listen on ∷ qs) c d = broadcasts_ascend revokers other qs _ d
