-- ===== src/Server/CanonicalWal/Retention.antt =====
-- `truncateOldGenerations` of packages/server/src/canonicalWal.ts and the cursors that can still
-- be served.
use express_token_revoker.Prelude.{
  ℕ, ◌<◌, ◌≤◌, ◌≡◌, refl, sym, ◌∙◌, true, ◌&&◌, ◌||◌, Option, List, [], ◌∷◌, arith, All, All-weaken,
  leb, ltb, Bool-cases, inl, inr, if◌then◌else◌,
}
use express_token_revoker.Prelude.Result.{Result, ok, err}
use express_token_revoker.Prelude.Text.{Text, text_eq}
use express_token_revoker.Server.CanonicalWal.Line.{CanonicalEvent, event_lsn}
use express_token_revoker.Server.CanonicalWal.Files.{WalFile, parse_file, list_generation_files}
use express_token_revoker.Server.CanonicalWal.Wal.{Faults, CanonicalWal}
use express_token_revoker.Server.CanonicalWal.Read.{max_lsn_of}
use express_token_revoker.Server.CanonicalWal.Truncate.{truncate_file, truncate_files, prepend}
use express_token_revoker.Server.CanonicalWal.Delivery.{last_with, retained}
use express_token_revoker.Server.CanonicalWal.Removal.{
  All-remove_name, list-remove_file, last_with-remove_name,
}

le-max_lsn_of : (n : ℕ) (es : List CanonicalEvent) → n ≤ max_lsn_of n es
unfolding max_lsn_of
le-max_lsn_of n [] = omega arith
le-max_lsn_of n (e ∷ es) =
    ground (arith, le-max_lsn_of (if ltb n (event_lsn e) then event_lsn e else n) es)

-- No event lies above the maximum that the loop computes.
pub max_lsn_of_bound :
    (n : ℕ) (es : List CanonicalEvent) → All (λ e. event_lsn e ≤ max_lsn_of n es) es
unfolding max_lsn_of
max_lsn_of_bound n [] = tt
max_lsn_of_bound n (e ∷ es) =
    let m = if ltb n (event_lsn e) then event_lsn e else n in
    (ground (arith, le-max_lsn_of m es), max_lsn_of_bound m es)

-- The files that bear the name of `f` hold what `f` holds.
abbrev pub Agrees : WalFile → List WalFile → Type 0
Agrees f fs = All (λ g. text_eq g.name f.name ≡ true → g ≡ f) fs

abbrev pub AgreesAll : List WalFile → List WalFile → Type 0
AgreesAll fs gs = All (λ f. Agrees f gs) fs

module _ (other : Text → Option ℕ) where
  -- One file: what lies above the new retention floor is as it was.
  truncate_file-keeps :
      (faults : Faults) (keep_from lsn_floor n : ℕ) (f : WalFile) (w : CanonicalWal)
      → Agrees f (list_generation_files w.revoker_id w.directory)
      → (truncate_file other faults keep_from lsn_floor f w).1.deleted_max_lsn < n
      → last_with n (retained other (truncate_file other faults keep_from lsn_floor f w).1)
        ≡ last_with n (retained other w)
  unfolding truncate_file retained
  truncate_file-keeps faults keep_from lsn_floor n f w same above =
      elim (Bool-cases (
        leb keep_from f.generation
        || (ltb lsn_floor (max_lsn_of 0 (parse_file other f)) || faults.undeletable f.name))) [
          | inl kept ↦ rw kept
          | inr gone ↦
              let over = rw gone at above in
              let below : max_lsn_of 0 (parse_file other f) < n = ground (arith, over) in
              let events =
                All-weaken {Q = λ e. event_lsn e < n} (parse_file other f) (λ e b. omega arith)
                  (max_lsn_of_bound 0 (parse_file other f)) in
              rw gone (
                rw list-remove_file (
                  last_with-remove_name other n f.name _ (
                    All-weaken (list_generation_files w.revoker_id w.directory)
                      (λ g agrees named. rw (agrees named) events) same)))
        ]

  truncate_file_mono :
      (faults : Faults) (keep_from lsn_floor : ℕ) (f : WalFile) (w : CanonicalWal)
      → w.deleted_max_lsn ≤ (truncate_file other faults keep_from lsn_floor f w).1.deleted_max_lsn
  unfolding truncate_file
  truncate_file_mono faults keep_from lsn_floor f w = ground arith

  -- The files that are left are among those that were there.
  truncate_file-All {ℓ} :
      (P : WalFile → Type ℓ) (faults : Faults) (keep_from lsn_floor : ℕ) (f : WalFile)
      (w : CanonicalWal)
      → All P (list_generation_files w.revoker_id w.directory)
      → let v = (truncate_file other faults keep_from lsn_floor f w).1 in
        All P (list_generation_files v.revoker_id v.directory)
  unfolding truncate_file
  truncate_file-All P faults keep_from lsn_floor f w h =
      elim (Bool-cases (
        leb keep_from f.generation
        || (ltb lsn_floor (max_lsn_of 0 (parse_file other f)) || faults.undeletable f.name))) [
          | inl kept ↦ rw kept h
          | inr gone ↦ rw gone (rw list-remove_file (All-remove_name P f.name _ h))
        ]

  prepend-state :
      (gone : List Text) (r : Result (List Text) × CanonicalWal) → (prepend gone r).1 ≡ r.1
  prepend-state gone (ok names, v) = refl
  prepend-state gone (err e, v) = refl

  truncate_files_mono :
      (faults : Faults) (keep_from lsn_floor : ℕ) (fs : List WalFile) (w : CanonicalWal)
      → w.deleted_max_lsn ≤ (truncate_files other faults keep_from lsn_floor fs w).1.deleted_max_lsn
  unfolding truncate_files
  truncate_files_mono faults keep_from lsn_floor [] w = omega arith
  truncate_files_mono faults keep_from lsn_floor (f ∷ fs) w =
      let w' = (truncate_file other faults keep_from lsn_floor f w).1 in
      elim (Bool-cases (ltb f.generation keep_from && faults.unreadable f.name)) [
        | inl failed ↦ rw failed (omega arith)
        | inr fine ↦ rw fine (
            rw
              (prepend-state (truncate_file other faults keep_from lsn_floor f w).0
                (truncate_files other faults keep_from lsn_floor fs w'))
              (omega (
                arith,
                truncate_file_mono faults keep_from lsn_floor f w,
                truncate_files_mono faults keep_from lsn_floor fs w',
              )))
      ]

  pub truncate_files-keeps :
      (faults : Faults) (keep_from lsn_floor n : ℕ) (fs : List WalFile) (w : CanonicalWal)
      → AgreesAll fs (list_generation_files w.revoker_id w.directory)
      → (truncate_files other faults keep_from lsn_floor fs w).1.deleted_max_lsn < n
      → last_with n (retained other (truncate_files other faults keep_from lsn_floor fs w).1)
        ≡ last_with n (retained other w)
  unfolding truncate_files
  truncate_files-keeps faults keep_from lsn_floor n [] w same above = refl
  truncate_files-keeps faults keep_from lsn_floor n (f ∷ fs) w (same, sames) above =
      elim (Bool-cases (ltb f.generation keep_from && faults.unreadable f.name)) [
        | inl failed ↦ rw failed
        | inr fine ↦
            let w' = (truncate_file other faults keep_from lsn_floor f w).1 in
            let undo =
              prepend-state (truncate_file other faults keep_from lsn_floor f w).0
                (truncate_files other faults keep_from lsn_floor fs w') in
            let over : (truncate_files other faults keep_from lsn_floor fs w').1.deleted_max_lsn
                < n =
              rw (sym undo) (rw fine at above) in
            let agree =
              All-weaken {Q = λ h. Agrees h (list_generation_files w'.revoker_id w'.directory)} fs
                (λ h.
                  truncate_file-All (λ g. text_eq g.name h.name ≡ true → g ≡ h) faults keep_from
                    lsn_floor f w)
                sames in
            rw fine (
              rw undo (
                truncate_files-keeps faults keep_from lsn_floor n fs w' agree over
                ∙ truncate_file-keeps faults keep_from lsn_floor n f w same
                    (omega (arith, over, truncate_files_mono faults keep_from lsn_floor fs w'))))
      ]
