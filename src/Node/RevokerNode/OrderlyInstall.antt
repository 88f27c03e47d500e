-- ===== src/Node/RevokerNode/OrderlyInstall.antt =====
-- The invariant of the bootstraps of a `RevokerNode` of packages/node/src/revokerNode.ts, and the
-- steps that install a snapshot.
use express_token_revoker.Prelude.{
  ℕ, ◌≤◌, ◌≡◌, refl, ap, ◌∙◌, Bool, true, false, ◌||◌, ◌⊎◌, inl, inr, Option, none, some, arith,
  Bool-cases, if◌then◌else◌,
}
use express_token_revoker.Prelude.Result.{Result, ok, err}
use express_token_revoker.Node.RevokerNode.{
  Snapshot, NodeFiles, Running, Caller, init_call, timer_call, Bootstrap, no_bootstrap, fetching,
  stopping, destroying, creating, resuming, RevokerNode, bootstrap_failed, bootstrap_done,
  schedule_rebootstrap, fire, retry_delay, released,
}
use express_token_revoker.Node.RevokerNode.Steps.{
  InstallFaults, snapshot_from, has_local_geometry, install_files, wrote_blobs, installed, install,
  drop_revoker, drop_engine,
}

-- A first attempt comes at once, a retry after 2 to 30 seconds.
abbrev IsDelay : ℕ → Type 0
IsDelay d = (d ≡ 0) ⊎ ((2000 ≤ d) × (d ≤ 30000))

abbrev pub IsTimer : Option ℕ → Type 0
IsTimer none = Unit
IsTimer (some d) = IsDelay d

abbrev pub is_snapshot_bootstrap : Bootstrap → Bool
is_snapshot_bootstrap no_bootstrap = false
is_snapshot_bootstrap (resuming state) = false
is_snapshot_bootstrap _ = true

abbrev pub is_set : Option ℕ → Bool
is_set none = false
is_set (some d) = true

-- The flag tells whether a bootstrap runs, and then none is queued.
abbrev pub IsOrderly : {R E : Type 0} → RevokerNode R E → Type 0
IsOrderly n =
    (n.bootstrapping ≡ is_snapshot_bootstrap n.bootstrap)
    × (is_set n.timer ≡ true → n.bootstrapping ≡ false)
    × IsTimer n.timer

retry_delay-IsDelay : (d : ℕ) → IsDelay (retry_delay d)
retry_delay-IsDelay d = inr (omega arith, omega arith)

module _ {R E : Type 0} where
  pub schedule-IsOrderly :
      (d : ℕ) (n : RevokerNode R E) → IsDelay d → IsOrderly n → IsOrderly (schedule_rebootstrap d n)
  unfolding schedule_rebootstrap
  schedule-IsOrderly d n delay (flag, queued, timer) =
      elim (Bool-cases (n.shutting_down || n.rebootstrap_pending || n.bootstrapping)) [
        | inl busy ↦ simp busy (flag, queued, timer)
        | inr free ↦ simp free (flag, (λ h. ground (arith, free)), delay)
      ]

  pub fire-IsOrderly :
      (timer : Option ℕ) (n : RevokerNode R E) → IsOrderly n → IsOrderly (fire timer n)
  unfolding fire
  fire-IsOrderly none n h = h
  fire-IsOrderly (some d) n (flag, queued, timer) = elim (Bool-cases n.shutting_down) [
    | inl down ↦ simp down (flag, (λ h. absurd (ground (arith, h))), tt)
    | inr up ↦ simp up (refl, (λ h. absurd (ground (arith, h))), tt)
  ]

  pub failed-IsOrderly :
      (c : Caller) (n : RevokerNode R E) → IsTimer n.timer → IsOrderly (bootstrap_failed c n)
  unfolding bootstrap_failed
  failed-IsOrderly init_call n timer = (refl, (λ h. refl), timer)
  failed-IsOrderly (timer_call d) n timer =
      schedule-IsOrderly (retry_delay d) (released n) (retry_delay-IsDelay d)
        (refl, (λ h. refl), timer)

  pub done-IsOrderly :
      (c : Caller) (n : RevokerNode R E) → IsTimer n.timer → IsOrderly (bootstrap_done c n)
  unfolding bootstrap_done
  done-IsOrderly init_call n timer = (refl, (λ h. refl), timer)
  done-IsOrderly (timer_call d) n timer = (refl, (λ h. refl), timer)

  -- A bootstrap under way.
  abbrev IsUnderWay : RevokerNode R E → Type 0
  IsUnderWay n =
      (n.bootstrapping ≡ true) × (is_set n.timer ≡ true → n.bootstrapping ≡ false) × IsTimer n.timer

  pub installed-IsOrderly :
      (c : Caller) (snapshot : Snapshot) (clean : Bool) (r : NodeFiles × Bool) (n : RevokerNode R E)
      → IsUnderWay n
      → IsOrderly (installed c snapshot clean r n)
  unfolding installed
  installed-IsOrderly c snapshot clean (files, true) n h = h
  installed-IsOrderly c snapshot clean (files, false) n (flag, queued, timer) =
      failed-IsOrderly c (record n { files = files; dirty = if clean then false else n.dirty })
        timer

  pub drop_revoker-IsOrderly :
      (faults : InstallFaults) (c : Caller) (snapshot : Snapshot) (r : Option R)
      (n : RevokerNode R E)
      → IsUnderWay n
      → IsOrderly (drop_revoker faults c snapshot r n)
  unfolding drop_revoker install
  drop_revoker-IsOrderly faults c snapshot none n h =
      installed-IsOrderly c snapshot (wrote_blobs faults snapshot)
        (install_files faults snapshot n.files) n h
  drop_revoker-IsOrderly faults c snapshot (some r) n h = h

  drop_engine-IsOrderly :
      (faults : InstallFaults) (c : Caller) (snapshot : Snapshot) (e : Option (Running E))
      (n : RevokerNode R E)
      → IsUnderWay n
      → IsOrderly (drop_engine faults c snapshot e n)
  unfolding drop_engine
  drop_engine-IsOrderly faults c snapshot none n h =
      drop_revoker-IsOrderly faults c snapshot n.revoker n h
  drop_engine-IsOrderly faults c snapshot (some e) n h = h

  pub snapshot-IsOrderly :
      (faults : InstallFaults) (r : Result Snapshot) (p : Bootstrap) (n : RevokerNode R E)
      → n.bootstrap ≡ p
      → IsOrderly n
      → IsOrderly (snapshot_from faults p r n)
  unfolding snapshot_from
  snapshot-IsOrderly faults (err e) (fetching c) n here (flag, queued, timer) =
      failed-IsOrderly c n timer
  snapshot-IsOrderly faults (ok snapshot) (fetching c) n here (flag, queued, timer) =
      elim (Bool-cases (has_local_geometry n.config snapshot)) [
        | inl same ↦ rw same (
            drop_engine-IsOrderly faults c snapshot n.engine (record n { catching_up = true })
              (flag ∙ ap is_snapshot_bootstrap here, queued, timer))
        | inr other ↦ rw other (failed-IsOrderly c n timer)
      ]
  snapshot-IsOrderly faults r no_bootstrap n here h = h
  snapshot-IsOrderly faults r (stopping c snapshot) n here h = h
  snapshot-IsOrderly faults r (destroying c snapshot) n here h = h
  snapshot-IsOrderly faults r (creating c snapshot) n here h = h
  snapshot-IsOrderly faults r (resuming state) n here h = h
