-- ===== src/Node/RevokerNode/Steps.antt =====
-- `init` and `#bootstrapFromSnapshot` of packages/node/src/revokerNode.ts, in steps.
use express_token_revoker.Prelude.{
  ℕ, Bool, true, false, not, ◌&&◌, ◌||◌, Option, none, some, List, [], ◌∷◌, ◌==◌, if◌then◌else◌,
}
use express_token_revoker.Prelude.Result.{Result, ok, err}
use express_token_revoker.Node.StateFile.{SyncState, read, write}
use express_token_revoker.Node.RevokerNode.{
  Snapshot, NodeConfig, NodeFiles, Parts, Running, Caller, init_call, Bootstrap, no_bootstrap,
  fetching, stopping, destroying, creating, resuming, RevokerNode, begin_bootstrap,
  bootstrap_failed, bootstrap_done, stop_engine,
}

-- What the file system refuses while a snapshot is installed.
pub record InstallFaults : Type 0 where
  pub wipe : Bool
  pub current : Bool
  pub previous : Bool
  pub state : Bool

abbrev pub is_present : Option (List ℕ) → Bool
is_present none = false
is_present (some bytes) = true

-- `#blobsPresent`
abbrev pub blobs_present : NodeFiles → Bool
blobs_present files = is_present files.current || is_present files.previous

-- `#validateSnapshotGeometry`
unfoldable pub has_local_geometry : NodeConfig → Snapshot → Bool
has_local_geometry config snapshot =
    (snapshot.num_items == config.num_items) && (snapshot.fp_rate == config.fp_rate)

-- A blob of the snapshot that is not empty becomes a file.
abbrev pub blob_file : List ℕ → Option (List ℕ)
blob_file [] = none
blob_file (x ∷ xs) = some (x ∷ xs)

abbrev pub is_empty_blob : List ℕ → Bool
is_empty_blob [] = true
is_empty_blob (x ∷ xs) = false

-- The files after `#wipeBackupFiles` and the writes of the blobs and of the state file, each of
-- which may fail, and whether all of them have worked.
unfoldable pub install_files : InstallFaults → Snapshot → NodeFiles → NodeFiles × Bool
install_files faults snapshot files =
    if faults.wipe
    then (files, false)
    else let wiped : NodeFiles = record files { current = none; previous = none; temp = none } in
      if faults.current && not (is_empty_blob snapshot.current_blob)
      then (wiped, false)
      else let first : NodeFiles = record wiped { current = blob_file snapshot.current_blob } in
        if faults.previous && not (is_empty_blob snapshot.previous_blob)
        then (first, false)
        else let both : NodeFiles = record first { previous = blob_file snapshot.previous_blob } in
          if faults.state then (both, false) else (
            record both {
              state = write (record {
                last_lsn = snapshot.last_backup_lsn;
                generation = snapshot.generation;
                dirty = false;
              });
            },
            true,
          )

-- `this.#dirty = false` comes before the write of the state file, which is the last one.
abbrev pub wrote_blobs : InstallFaults → Snapshot → Bool
wrote_blobs faults snapshot =
    not faults.wipe
    && not (faults.current && not (is_empty_blob snapshot.current_blob))
    && not (faults.previous && not (is_empty_blob snapshot.previous_blob))

module _ {R E : Type 0} where
  -- from the new files to the `await` of the new revoker
  unfoldable pub installed :
      Caller → Snapshot → Bool → NodeFiles × Bool → RevokerNode R E → RevokerNode R E
  unfolding bootstrap_failed
  installed c snapshot clean (files, true) n = record n {
    files = files;
    dirty = false;
    bootstrap = creating c snapshot;
  }
  installed c snapshot clean (files, false) n =
      bootstrap_failed c (record n { files = files; dirty = if clean then false else n.dirty })

  unfoldable pub install : InstallFaults → Caller → Snapshot → RevokerNode R E → RevokerNode R E
  unfolding installed install_files
  install faults c snapshot n =
      installed c snapshot (wrote_blobs faults snapshot) (install_files faults snapshot n.files) n

  -- The old revoker is let go before it is destroyed.
  unfoldable pub drop_revoker :
      InstallFaults → Caller → Snapshot → Option R → RevokerNode R E → RevokerNode R E
  unfolding install
  drop_revoker faults c snapshot none n = install faults c snapshot n
  drop_revoker faults c snapshot (some r) n = record n {
    revoker = none;
    bootstrap = destroying c snapshot;
  }

  unfoldable pub drop_engine :
      InstallFaults → Caller → Snapshot → Option (Running E) → RevokerNode R E → RevokerNode R E
  unfolding drop_revoker
  drop_engine faults c snapshot none n = drop_revoker faults c snapshot n.revoker n
  drop_engine faults c snapshot (some e) n = record n {
    engine = stop_engine (some e);
    bootstrap = stopping c snapshot;
  }

  -- A call of `getSnapshot` ends: its steps are those of the bootstrap that waits for it.
  unfoldable pub snapshot_from :
      InstallFaults → Bootstrap → Result Snapshot → RevokerNode R E → RevokerNode R E
  unfolding drop_engine has_local_geometry bootstrap_failed
  snapshot_from faults (fetching c) (err e) n = bootstrap_failed c n
  snapshot_from faults (fetching c) (ok snapshot) n =
      if has_local_geometry n.config snapshot
      then drop_engine faults c snapshot n.engine (record n { catching_up = true })
      else bootstrap_failed c n
  snapshot_from faults _ r n = n

  unfoldable pub engine_stopped_from : InstallFaults → Bootstrap → RevokerNode R E → RevokerNode R E
  unfolding drop_revoker
  engine_stopped_from faults (stopping c snapshot) n =
      drop_revoker faults c snapshot n.revoker (record n { engine = none })
  engine_stopped_from faults _ n = n

  -- The old revoker's `destroy` ends; it throws if `refused`.
  unfoldable pub revoker_destroyed_from :
      InstallFaults → Bootstrap → Bool → RevokerNode R E → RevokerNode R E
  unfolding install bootstrap_failed
  revoker_destroyed_from faults (destroying c snapshot) true n = bootstrap_failed c n
  revoker_destroyed_from faults (destroying c snapshot) false n = install faults c snapshot n
  revoker_destroyed_from faults _ refused n = n

  -- `#startEngine`
  abbrev pub start_engine : Parts R E → R → ℕ → ℕ → RevokerNode R E → RevokerNode R E
  start_engine parts r last_lsn generation n = record n {
    revoker = some r;
    engine = some (record { engine = parts.new_engine r last_lsn generation; is_stopped = false });
  }

  -- `#createRevoker` ends.
  unfoldable pub revoker_created_from :
      Parts R E → Bootstrap → Result R → RevokerNode R E → RevokerNode R E
  unfolding bootstrap_done bootstrap_failed
  revoker_created_from parts (creating c snapshot) (err e) n = bootstrap_failed c n
  revoker_created_from parts (creating c snapshot) (ok r) n =
      bootstrap_done c (start_engine parts r snapshot.last_backup_lsn snapshot.generation n)
  revoker_created_from parts (resuming state) (err e) n = record n { bootstrap = no_bootstrap }
  revoker_created_from parts (resuming state) (ok r) n =
      start_engine parts r state.last_lsn state.generation (record n { bootstrap = no_bootstrap })
  revoker_created_from parts _ r n = n

  -- A node before `init`, in a directory that holds `files`.
  abbrev pub new_node : NodeConfig → NodeFiles → RevokerNode R E
  new_node config files = record {
    config = config;
    revoker = none;
    engine = none;
    dirty = false;
    bootstrapping = false;
    catching_up = false;
    timer = none;
    rebootstrap_pending = false;
    shutting_down = false;
    bootstrap = no_bootstrap;
    files = files;
  }

  -- `init` up to its first `await`: a clean state with blobs is resumed
  unfoldable pub init_from : Option SyncState → RevokerNode R E → RevokerNode R E
  init_from none n = begin_bootstrap init_call n
  init_from (some state) n =
      if not state.dirty && blobs_present n.files
      then record n { bootstrap = resuming state }
      else begin_bootstrap init_call n

  unfoldable pub init : NodeConfig → NodeFiles → RevokerNode R E
  unfolding init_from
  init config files = init_from (read files.state) (new_node config files)
