-- ===== src/Core/Backup/Recoverable.antt =====
-- Restarts of a `BloomFilterManager` after crashes: packages/core/src/Bloom-filter-manager.ts with
-- packages/core/src/BloomFilterBackupManager.ts.
use express_token_revoker.Prelude.{
  ℕ, ◌+◌, ◌*◌, ◌/◌, ◌^◌, ◌<◌, ◌≤◌, ◌≡◌, refl, sym, ◌∙◌, ap, Bool, true, false, inl, inr, List, [],
  ◌∷◌, ◌++◌, arith, Bool-cases, ◌==◌,
}
use express_token_revoker.Prelude.Text.{Text}
use express_token_revoker.Core.FilterManager.{
  FilterManager, has, rotate_begin, rotate_end, is_blank, found_in,
}
use express_token_revoker.Core.Backup.{written, Settings, BackupManager, rotation, periodic}
use express_token_revoker.Core.Backup.Local.{
  backup_step, ends_rotation, request_rotation, request_periodic,
}
use express_token_revoker.Core.Backup.Restore.{add_lines}
use express_token_revoker.Core.Backup.Covers.{new_filter-Fits, add_lines-Fits, test-Within}
use express_token_revoker.Core.Backup.Held.{empty_filter, Held, step-Held, Covered-Within}
use express_token_revoker.Core.Backup.Rotations.{
  outstanding, one_if, in_queue-append, step-outstanding,
}
use express_token_revoker.Core.Backup.Restart.{construct-restores}
use express_token_revoker.Core.Backup.Process.{
  Event, add_token, look_up, periodic_tick, begin_rotation, backup_turn, crash, handle, run, turn,
  disk_backups, is_calm, stays_calm, schedule, after_crash, new_backup_manager,
}
use express_token_revoker.Core.Backup.Storing.{IsRecoverable, add-IsRecoverable}

one_if-suc : (n : ℕ) (b : Bool) → n + 1 ≡ one_if b → (b ≡ true) × (n ≡ 0)
one_if-suc n true h = (refl, omega (arith, h))
one_if-suc n false h = absurd (omega (arith, h))

module _ (o : Settings) (some_bits : 0 < o.filter_bits) (addressable : o.filter_bits ≤ 2 ^ 31)
    (direct : o.buffer_enabled ≡ false) where
  turn-IsRecoverable :
      (refused : Bool) (s : FilterManager BackupManager)
      → IsRecoverable o s
      → IsRecoverable o (turn refused s.backup s.current s)
  unfolding turn backup_step rotate_end
  turn-IsRecoverable refused s (f, b, current, backup, bits, hashes, shaped, held, rotating) =
      let b' = backup_step refused f b in
      let step = step-Held o f some_bits addressable shaped refused b.phase b refl held in
      let count = step-outstanding refused f b.phase b refl in
      simp (backup, current)
        (elim (Bool-cases (ends_rotation refused b.phase)) [
          | inl ends ↦
              let ended : outstanding b' + 1 ≡ one_if s.is_rotating = rw ends at count ∙ rotating in
              let (busy, none_left) = one_if-suc (outstanding b') s.is_rotating ended in
              let held' : Held o (empty_filter o) b'.phase b' = rw ends at step in
              simp (ends, busy)
                (
                  empty_filter o,
                  b',
                  (rw (bits, hashes) refl),
                  refl,
                  bits,
                  hashes,
                  new_filter-Fits o.filter_bits o.filter_hashes some_bits addressable,
                  held',
                  none_left,
                )
          | inr goes ↦
              let held' : Held o f b'.phase b' = rw goes at step in
              let count' : outstanding b' + 0 ≡ outstanding b = rw goes at count in
              simp goes
                (f, b', refl, refl, bits, hashes, shaped, held', omega (arith, count', rotating))
        ])

  crash-IsRecoverable :
      (s : FilterManager BackupManager)
      → IsRecoverable o s
      → IsRecoverable o (after_crash o s.backup s)
  crash-IsRecoverable s (f, b, current, backup, bits, hashes, shaped, held, rotating) =
      let (ts, g, same, plain, lines, base, c) = held in
      let (previous, restored) = construct-restores o b.files ts g plain lines base in
      simp backup (
        rw (restored, after_crash)
          (
            add_lines ts g,
            new_backup_manager o b.files,
            refl,
            refl,
            refl,
            refl,
            add_lines-Fits _ o.filter_hashes ts g base.0,
            (ts, g, refl, plain, lines, base, (λ j one. one)),
            omega arith,
          ))

  look_up-IsRecoverable :
      (item : Text) (s : FilterManager BackupManager)
      → IsRecoverable o s
      → IsRecoverable o (has item s).1
  unfolding has
  look_up-IsRecoverable item s recoverable = elim (Bool-cases (is_blank item)) [
    | inl blank ↦ rw blank recoverable
    | inr text ↦ rw text recoverable
  ]

  tick-IsRecoverable :
      (generation : ℕ) (s : FilterManager BackupManager)
      → IsRecoverable o s
      → IsRecoverable o (record s { backup = schedule generation s.backup })
  unfolding request_periodic
  tick-IsRecoverable generation s (f, b, current, backup, bits, hashes, shaped, held, rotating) =
      simp backup (elim (Bool-cases (generation == b.generation)) [
        | inl due ↦ simp due (
          f,
          record b { waiting = b.waiting ++ periodic generation ∷ [] },
          current,
          refl,
          bits,
          hashes,
          shaped,
          held,
          omega (arith, rotating, in_queue-append b.waiting (periodic generation ∷ [])),
        )
        | inr stale ↦ simp stale (f, b, current, refl, bits, hashes, shaped, held, rotating)
      ])

  rotate_begin-IsRecoverable :
      (s : FilterManager BackupManager)
      → IsRecoverable o s
      → IsRecoverable o (rotate_begin (disk_backups (λ i. written)) s)
  unfolding rotate_begin request_rotation
  rotate_begin-IsRecoverable s (f, b, current, backup, bits, hashes, shaped, held, rotating) =
      elim (Bool-cases s.is_rotating) [
        | inl busy ↦
            simp busy (f, b, current, backup, bits, hashes, shaped, held, rotating ∙ ap one_if busy)
        | inr free ↦
            let settled : outstanding b ≡ 0 = rw free at rotating in
            simp (free, backup, current)
              (
                f,
                request_rotation b,
                refl,
                refl,
                bits,
                hashes,
                shaped,
                held,
                omega (arith, settled, in_queue-append b.waiting (rotation ∷ [])),
              )
      ]

  handle-IsRecoverable :
      (e : Event) (s : FilterManager BackupManager)
      → is_calm e s ≡ true
      → IsRecoverable o s
      → IsRecoverable o (handle o e s)
  unfolding handle
  handle-IsRecoverable (add_token attempts item) s calm h =
      add-IsRecoverable o some_bits addressable direct attempts item s calm h
  handle-IsRecoverable (look_up item) s calm h = look_up-IsRecoverable item s h
  handle-IsRecoverable (periodic_tick generation) s calm h = tick-IsRecoverable generation s h
  handle-IsRecoverable begin_rotation s calm h = rotate_begin-IsRecoverable s h
  handle-IsRecoverable (backup_turn refused) s calm h = turn-IsRecoverable refused s h
  handle-IsRecoverable crash s calm h = crash-IsRecoverable s h

  pub run-IsRecoverable :
      (es : List Event) (s : FilterManager BackupManager)
      → stays_calm o es s ≡ true
      → IsRecoverable o s
      → IsRecoverable o (run o es s)
  unfolding run stays_calm
  run-IsRecoverable [] s calm h = h
  run-IsRecoverable (e ∷ es) s calm h =
      run-IsRecoverable es (handle o e s) (ground (arith, calm))
        (handle-IsRecoverable e s (ground (arith, calm)) h)

  -- What the current filter recognises is recognised after a crash.
  pub IsRecoverable-found :
      (t : Text) (s : FilterManager BackupManager)
      → IsRecoverable o s
      → found_in t s.current ≡ true
      → found_in t (after_crash o s.backup s).current ≡ true
  IsRecoverable-found t s (f, b, current, backup, bits, hashes, shaped, held, rotating) found =
      let (ts, g, same, plain, lines, base, c) = held in
      let (previous, restored) = construct-restores o b.files ts g plain lines base in
      let m = (o.filter_bits + 31) / 32 * 32 in
      simp backup (
        rw (restored, after_crash)
          (test-Within m o.filter_hashes t f (add_lines ts g) shaped
            (add_lines-Fits m o.filter_hashes ts g base.0)
            (Covered-Within o f ts g b.phase base.0 c) (ap (found_in t) (sym current) ∙ found)))
