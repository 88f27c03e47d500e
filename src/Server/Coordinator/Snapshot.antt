-- ===== src/Server/Coordinator/Snapshot.antt =====
-- The consistency point of packages/server/src/coordinator.ts against the retention of its log.
use express_token_revoker.Prelude.{
  ℕ, ◌+◌, ◌<◌, ◌≤◌, ◌≡◌, refl, true, not, ◌||◌, Option, some, List, [], ◌∷◌, arith, branch,
  Bool-cases, Option-cases, inl, inr, ◌⊎◌, max,
}
use mathlib.Core.Path.{subst}
use express_token_revoker.Prelude.Result.{Result, ok, err, internal_error, ◌>>=◌}
use express_token_revoker.Prelude.Text.{Text, codes}
use express_token_revoker.Server.CanonicalWal.Wal.{
  CanonicalWal, init, can_serve_from, append_entry, append_tombstone, append_rotate,
}
use express_token_revoker.Server.CanonicalWal.Read.{scan, read_since}
use express_token_revoker.Server.CanonicalWal.Truncate.{truncate_old_generations}
use express_token_revoker.Server.CanonicalWal.Numbering.{
  append_rotate-next, truncate_old_generations-next,
}
use express_token_revoker.Server.Coordinator.{
  Revoker, Coordinator, CallFaults, MetaState, add, add_tombstoned, add_local, add_logged,
  on_core_rotation, rotation_logged, rotation_truncated, shutdown, set_listener, start,
  is_valid_item, replay_events, replay_batch_limit,
}
use express_token_revoker.Server.Coordinator.GetSnapshot.{
  BlobFile, SnapshotConfig, SnapshotData, require, read_blob, blob_name, get_snapshot,
}
use express_token_revoker.Server.Coordinator.Broadcast.{
  Request, add_request, rotation, shutdown_request, listen, step, run,
}
use express_token_revoker.Server.CanonicalWal.Floor.{
  Grows, append_entry-Grows, append_tombstone-Grows, append_rotate-Grows, truncate-Floor,
}

-- The consistency point is servable, and the log has gone beyond it.
abbrev IsServable : {R : Type 0} → Coordinator R → Type 0
IsServable c =
    (c.wal.deleted_max_lsn ≤ c.meta.last_backup_lsn) × (c.meta.last_backup_lsn < c.wal.next_lsn)

abbrev EndsServable : {A R : Type 0} → A × Coordinator R → Type 0
EndsServable z = IsServable z.1

module _ {R : Type 0} where
  grown-IsServable :
      (w : CanonicalWal) (c : Coordinator R)
      → Grows c.wal w
      → IsServable c
      → IsServable (record c { wal = w })
  grown-IsServable w c (same, more) (floor, beyond) =
      (omega (arith, same, floor), omega (arith, more, beyond))

module _ {R : Type 0} (revokers : Revoker R) (faults : CallFaults) (item : Text) where
  add_tombstoned-IsServable :
      (lsn : ℕ) (a : Result (Unit {0}) × CanonicalWal) (c : Coordinator R)
      → Grows c.wal a.1
      → IsServable c
      → EndsServable (add_tombstoned revokers lsn item a c)
  unfolding add_tombstoned
  add_tombstoned-IsServable lsn (err e, w) c g s = grown-IsServable w c g s
  add_tombstoned-IsServable lsn (ok _, w) c g s = grown-IsServable w c g s

  add_local-IsServable :
      (lsn : ℕ) (r : Result (Unit {0}) × R) (c : Coordinator R)
      → IsServable c
      → EndsServable (add_local revokers faults lsn item r c)
  unfolding add_local
  add_local-IsServable lsn (ok _, r) c s = s
  add_local-IsServable lsn (err e, r) c s =
      add_tombstoned-IsServable lsn (append_tombstone faults.tombstone_log lsn item c.wal)
        (record c { revoker = some r }) (append_tombstone-Grows faults.tombstone_log lsn item c.wal)
        s

  add_logged-IsServable :
      (r : R) (a : Result ℕ × CanonicalWal) (c : Coordinator R)
      → Grows c.wal a.1
      → IsServable c
      → EndsServable (add_logged revokers faults item r a c)
  unfolding add_logged
  add_logged-IsServable r (err e, w) c g s = grown-IsServable w c g s
  add_logged-IsServable r (ok lsn, w) c g s =
      add_local-IsServable lsn (revokers.add item r) (record c { wal = w })
        (grown-IsServable w c g s)

  add-IsServable : (c : Coordinator R) → IsServable c → EndsServable (add revokers faults item c)
  unfolding add
  add-IsServable c s = branch EndsServable c.is_shutting_down _ _ s (elim (Option-cases c.revoker) [
    | inl gone ↦ simp gone s
    | inr (r, here) ↦ simp here (
        branch EndsServable (not (is_valid_item item)) _ _ s (
          add_logged-IsServable r (append_entry faults.log item c.wal) c
            (append_entry-Grows faults.log item c.wal) s))
  ])

module _ {R : Type 0} (other : Text → Option ℕ) (faults : CallFaults) where
  truncated-IsServable :
      (lsn generation : ℕ) (a : Result (List Text) × CanonicalWal) (c : Coordinator R)
      → a.1.deleted_max_lsn ≤ c.meta.last_backup_lsn
      → c.meta.last_backup_lsn < a.1.next_lsn
      → IsServable (rotation_truncated other lsn generation a c)
  unfolding rotation_truncated
  truncated-IsServable lsn generation (err e, w) c floor beyond = (floor, beyond)
  truncated-IsServable lsn generation (ok deleted, w) c floor beyond = (floor, beyond)

  logged-IsServable :
      (generation : ℕ) (a : Result ℕ × CanonicalWal) (c : Coordinator R)
      → a.1.next_lsn ≡ c.wal.next_lsn + 1
      → (a.0 ≡ ok c.wal.next_lsn) ⊎ (a.0 ≡ err internal_error)
      → Grows c.wal a.1
      → IsServable c
      → IsServable (rotation_logged other faults generation a c)
  unfolding rotation_logged
  logged-IsServable generation (err e, w) c next from g s = grown-IsServable w c g s
  logged-IsServable generation (ok lsn, w) c next from (same, more) (floor, beyond) =
      let here : lsn ≡ c.wal.next_lsn = ground (arith, from) in
      let low : w.deleted_max_lsn ≤ lsn = omega (arith, same, floor, beyond, here) in
      let above : lsn < w.next_lsn = omega (arith, next, here) in
      let kept = truncate_old_generations-next other faults.log c.meta.generation lsn w in
      elim (Bool-cases faults.unwritable_meta) [
        | inl failed ↦ simp failed (low, above)
        | inr written ↦ simp written (
            truncated-IsServable lsn generation
              (truncate_old_generations other faults.log c.meta.generation lsn w) _
              (truncate-Floor other faults.log c.meta.generation lsn w low)
              (omega (arith, kept, above)))
      ]

  rotation-IsServable :
      (c : Coordinator R) → IsServable c → IsServable (on_core_rotation other faults c)
  unfolding on_core_rotation
  rotation-IsServable c s =
      let (next, from) = append_rotate-next faults.log (c.meta.generation + 1) c.wal in
      branch IsServable (not c.is_ready || c.is_shutting_down) _ _ s (
        logged-IsServable (c.meta.generation + 1)
          (append_rotate faults.log (c.meta.generation + 1) c.wal) c next from
          (append_rotate-Grows faults.log (c.meta.generation + 1) c.wal) s)

shutdown-IsServable :
    {R : Type 0} (faults : CallFaults) (c : Coordinator R)
    → IsServable c
    → IsServable (shutdown faults c)
unfolding shutdown
shutdown-IsServable faults c s = elim (Bool-cases c.is_shutting_down) [
  | inl closing ↦ simp closing s
  | inr serving ↦ elim (Bool-cases faults.unwritable_meta) [
    | inl failed ↦ simp (serving, failed) s
    | inr written ↦ simp (serving, written) s
  ]
]

-- What holds of a value, if there is one.
abbrev OnOk : {A : Type 0} → (A → Type 0) → Result A → Type 0
OnOk P (ok a) = P a
OnOk P (err e) = Unit

bind-OnOk :
    {A B : Type 0} (P : B → Type 0) (m : Result A) (k : A → Result B)
    → ((a : A) → OnOk P (k a))
    → OnOk P (m >>= k)
bind-OnOk P (ok a) k h = h a
bind-OnOk P (err e) k h = tt

get_snapshot-lsn :
    {F R : Type 0} (current_k : R → Option ℕ) (blobs : Text → BlobFile) (config : SnapshotConfig F)
    (c : Coordinator R)
    → OnOk (λ s. s.last_backup_lsn ≡ c.meta.last_backup_lsn) (get_snapshot current_k blobs config c)
unfolding get_snapshot
get_snapshot-lsn {F} current_k blobs config c =
    let P : SnapshotData F → Type 0 = λ s. s.last_backup_lsn ≡ c.meta.last_backup_lsn in
    bind-OnOk P (require c.revoker) _ (λ r. bind-OnOk P (require (current_k r)) _ (λ k.
      bind-OnOk P (read_blob (blobs (blob_name (codes "current-") config.id))) _ (λ current.
        bind-OnOk P (read_blob (blobs (blob_name (codes "previous-") config.id))) _
          (λ previous. refl))))

module _ {R : Type 0} (revokers : Revoker R) (other : Text → Option ℕ) where
  start-IsServable :
      (faults : CallFaults) (meta : MetaState) (r : R) (wal : CanonicalWal) (c : Coordinator R)
      → start revokers other faults meta r wal ≡ ok c
      → meta.last_backup_lsn ≤ meta.last_lsn
      → IsServable c
  unfolding start init
  start-IsServable faults meta r wal c started below =
      subst (λ a. OnOk IsServable a) started
        (bind-OnOk IsServable (scan other faults.log wal) _ (λ scanned.
          let last = max meta.last_lsn scanned.0 in
          let wal' = init (last + 1) (max meta.generation scanned.1) meta.last_backup_lsn wal in
          bind-OnOk IsServable
            (read_since other faults.log meta.last_backup_lsn replay_batch_limit wal') _
            (λ tail. bind-OnOk IsServable (replay_events revokers tail r) _ (λ r'.
              branch (OnOk IsServable) faults.unwritable_meta _ _ tt
                (omega arith, ground (arith, below))))))

  step-IsServable :
      (q : Request) (c : Coordinator R) → IsServable c → IsServable (step revokers other q c)
  unfolding step set_listener
  step-IsServable (add_request faults item) c s = add-IsServable revokers faults item c s
  step-IsServable (rotation faults) c s = rotation-IsServable other faults c s
  step-IsServable (shutdown_request faults) c s = shutdown-IsServable faults c s
  step-IsServable (listen on) c s = s

  run-IsServable :
      (qs : List Request) (c : Coordinator R) → IsServable c → IsServable (run revokers other qs c)
  unfolding run
  run-IsServable [] c s = s
  run-IsServable (q ∷ qs) c s = run-IsServable qs (step revokers other q c) (step-IsServable q c s)

  -- A coordinator that has started from a meta file whose consistency point is not above its last
  -- LSN: after any additions, rotations and shutdowns, and whatever the file system refuses
  -- meanwhile, the consistency point in a snapshot that it gives is a cursor that its log can serve.
  pub snapshot_is_servable :
      {F : Type 0} (current_k : R → Option ℕ) (blobs : Text → BlobFile) (config : SnapshotConfig F)
      (faults : CallFaults) (meta : MetaState) (r : R) (wal : CanonicalWal) (c : Coordinator R)
      (qs : List Request) (s : SnapshotData F)
      → start revokers other faults meta r wal ≡ ok c
      → meta.last_backup_lsn ≤ meta.last_lsn
      → get_snapshot current_k blobs config (run revokers other qs c) ≡ ok s
      → can_serve_from s.last_backup_lsn (run revokers other qs c).wal ≡ true
  unfolding can_serve_from
  snapshot_is_servable current_k blobs config faults meta r wal c qs s started below given =
      let c' = run revokers other qs c in
      let (floor, _) = run-IsServable qs c (start-IsServable faults meta r wal c started below) in
      let same : s.last_backup_lsn ≡ c'.meta.last_backup_lsn =
        subst (λ a. OnOk (λ d. d.last_backup_lsn ≡ c'.meta.last_backup_lsn) a) given
          (get_snapshot-lsn current_k blobs config c') in
      ground (arith, floor, same)
