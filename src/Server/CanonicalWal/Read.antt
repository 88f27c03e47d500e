-- ===== src/Server/CanonicalWal/Read.antt =====
-- `readSince` and `scan` of packages/server/src/canonicalWal.ts.
use express_token_revoker.Prelude.{
  ℕ, Bool, not, ◌&&◌, Option, List, [], ◌∷◌, length, take, leb, ltb, ◌==◌, if◌then◌else◌,
}
use express_token_revoker.Prelude.Result.{Result, ok, err, internal_error, ◌>>=◌}
use express_token_revoker.Prelude.Text.{Text}
use express_token_revoker.Server.CanonicalWal.Line.{CanonicalEvent, rotate, event_lsn}
use express_token_revoker.Server.CanonicalWal.Files.{WalFile, parse_file, read_files}
use express_token_revoker.Server.CanonicalWal.Wal.{Faults, CanonicalWal, list_files}

-- `byLsn.set(event.lsn, event)`: an LSN that is there keeps its place and gets the new event.
unfoldable pub set_lsn : CanonicalEvent → List CanonicalEvent → List CanonicalEvent
set_lsn e [] = e ∷ []
set_lsn e (x ∷ xs) = if event_lsn x == event_lsn e then e ∷ xs else x ∷ set_lsn e xs

-- the loop over the events of all files
unfoldable pub collect : ℕ → List CanonicalEvent → List CanonicalEvent → List CanonicalEvent
unfolding set_lsn
collect from_lsn by_lsn [] = by_lsn
collect from_lsn by_lsn (e ∷ es) =
    collect from_lsn (if ltb from_lsn (event_lsn e) then set_lsn e by_lsn else by_lsn) es

-- `.sort((a, b) => a.lsn - b.lsn)`
unfoldable pub insert_event : CanonicalEvent → List CanonicalEvent → List CanonicalEvent
insert_event e [] = e ∷ []
insert_event e (x ∷ xs) =
    if leb (event_lsn e) (event_lsn x) then e ∷ (x ∷ xs) else x ∷ insert_event e xs

unfoldable pub sort_events : List CanonicalEvent → List CanonicalEvent
unfolding insert_event
sort_events [] = []
sort_events (e ∷ es) = insert_event e (sort_events es)

unfoldable pub cap_events : ℕ → List CanonicalEvent → List CanonicalEvent
cap_events max_events es =
    if ltb 0 max_events && ltb max_events (length es) then take max_events es else es

-- the largest LSN of a list, and the largest generation of its rotations
unfoldable pub max_lsn_of : ℕ → List CanonicalEvent → ℕ
max_lsn_of n [] = n
max_lsn_of n (e ∷ es) = max_lsn_of (if ltb n (event_lsn e) then event_lsn e else n) es

unfoldable pub max_generation_of : ℕ → List CanonicalEvent → ℕ
max_generation_of g [] = g
max_generation_of g (rotate lsn n ∷ es) = max_generation_of (if ltb g n then n else g) es
max_generation_of g (e ∷ es) = max_generation_of g es

module _ (other : Text → Option ℕ) where
  unfoldable pub read_since : Faults → ℕ → ℕ → CanonicalWal → Result (List CanonicalEvent)
  unfolding collect sort_events cap_events list_files
  read_since faults from_lsn max_events w = if not w.initialized then err internal_error else do
    events ← read_files other faults.unreadable (list_files faults w)
    ok (cap_events max_events (sort_events (collect from_lsn [] events)))

  -- the loop of `scan`
  unfoldable pub scan_files : (Text → Bool) → ℕ → ℕ → List WalFile → Result (ℕ × ℕ)
  unfolding max_lsn_of max_generation_of
  scan_files unreadable lsn g [] = ok (lsn, g)
  scan_files unreadable lsn g (f ∷ fs) =
      let g' = if ltb g f.generation then f.generation else g in
      let events = parse_file other f in
      let later = scan_files unreadable (max_lsn_of lsn events) (max_generation_of g' events) fs in
      if unreadable f.name then err internal_error else later

  -- `scan`: the highest LSN and the highest generation
  unfoldable pub scan : Faults → CanonicalWal → Result (ℕ × ℕ)
  unfolding scan_files list_files
  scan faults w = scan_files faults.unreadable 0 0 (list_files faults w)
