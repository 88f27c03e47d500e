-- ===== src/Server/CanonicalWal/Cursors.antt =====
-- The cursors that can be served once `truncateOldGenerations` of
-- packages/server/src/canonicalWal.ts has deleted files.
use express_token_revoker.Prelude.{
  ℕ, ◌<◌, ◌≡◌, refl, true, false, Option, List, [], ◌∷◌, arith, All, All-weaken, Bool-cases,
  Option-cases, inl, inr,
}
use express_token_revoker.Prelude.Text.{Text, text_eq, text_eq_iff}
use express_token_revoker.Server.CanonicalWal.Files.{
  Directory, WalFile, generation_of_name, matching_files, sort_files, list_generation_files,
}
use express_token_revoker.Server.CanonicalWal.Wal.{Faults, CanonicalWal, list_files, can_serve_from}
use express_token_revoker.Server.CanonicalWal.Truncate.{truncate_files, truncate_old_generations}
use express_token_revoker.Server.CanonicalWal.Delivery.{last_with, retained}
use express_token_revoker.Server.CanonicalWal.Removal.{All-sort_files}
use express_token_revoker.Server.CanonicalWal.Retention.{Agrees, AgreesAll, truncate_files-keeps}

-- The names of a directory's entries are distinct.
abbrev pub HasUniqueNames : Directory → Type 0
HasUniqueNames [] = Unit
HasUniqueNames ((name, _) ∷ d) = All (λ e. text_eq e.0 name ≡ false) d × HasUniqueNames d

matching_files-fresh :
    (id name : Text) (d : Directory)
    → All (λ e. text_eq e.0 name ≡ false) d
    → All (λ g. text_eq g.name name ≡ false) (matching_files id d)
unfolding matching_files generation_of_name
matching_files-fresh id name [] h = tt
matching_files-fresh id name ((m, content) ∷ d) (new, h) =
    elim (Option-cases (generation_of_name id m)) [
      | inl e ↦ simp e (matching_files-fresh id name d h)
      | inr (g, e) ↦ simp e (new, matching_files-fresh id name d h)
    ]

-- A file whose name none of the others bears agrees with them.
AgreesAll-cons :
    (f : WalFile) (fs : List WalFile)
    → All (λ g. text_eq g.name f.name ≡ false) fs
    → AgreesAll fs fs
    → AgreesAll (f ∷ fs) (f ∷ fs)
AgreesAll-cons f fs new h = (
  ((λ same. refl), All-weaken fs (λ g differs same. ground (arith, differs, same)) new),
  go fs new h,
)
  where
    go :
        (gs : List WalFile)
        → All (λ g. text_eq g.name f.name ≡ false) gs
        → All (λ g. Agrees g fs) gs
        → All (λ g. Agrees g (f ∷ fs)) gs
    go [] other_names a = tt
    go (g ∷ gs) (differs, others) (a, rest) = (
      (
        (λ same.
            ground (arith, differs, (text_eq_iff f.name g.name).0 same, text_eq_iff g.name f.name)),
        a,
      ),
      go gs others rest,
    )

matching_files-AgreesAll :
    (id : Text) (d : Directory)
    → HasUniqueNames d
    → AgreesAll (matching_files id d) (matching_files id d)
unfolding matching_files generation_of_name
matching_files-AgreesAll id [] h = tt
matching_files-AgreesAll id ((m, content) ∷ d) (new, h) =
    elim (Option-cases (generation_of_name id m)) [
      | inl e ↦ simp e (matching_files-AgreesAll id d h)
      | inr (g, e) ↦ simp e (
          AgreesAll-cons _ (matching_files id d) (matching_files-fresh id m d new)
            (matching_files-AgreesAll id d h))
    ]

sort_files-AgreesAll :
    (fs : List WalFile) → AgreesAll fs fs → AgreesAll (sort_files fs) (sort_files fs)
sort_files-AgreesAll fs h =
    All-weaken {Q = λ f. Agrees f (sort_files fs)} (sort_files fs)
      (λ f a. All-sort_files (λ g. text_eq g.name f.name ≡ true → g ≡ f) fs a)
      (All-sort_files (λ f. Agrees f fs) fs h)

-- Whatever `truncateOldGenerations` deletes, and wherever the file system fails on the way: a cursor
-- that `canServeFrom` still accepts finds every event above it as it was before.
pub truncation_keeps_served :
    (other : Text → Option ℕ) (faults : Faults) (keep_from lsn_floor from n : ℕ) (w : CanonicalWal)
    → HasUniqueNames w.directory
    → can_serve_from from (truncate_old_generations other faults keep_from lsn_floor w).1 ≡ true
    → from < n
    → last_with n (retained other (truncate_old_generations other faults keep_from lsn_floor w).1)
      ≡ last_with n (retained other w)
unfolding truncate_old_generations list_files can_serve_from list_generation_files sort_files
truncation_keeps_served other faults keep_from lsn_floor from n w unique served above =
    elim (Bool-cases w.initialized) [
      | inr off ↦ simp off refl
      | inl on ↦ elim (Bool-cases faults.unlistable) [
        | inl blind ↦ simp (on, blind, truncate_files) refl
        | inr sees ↦
            let bound = simp (on, sees) at served in
            simp (on, sees)
              (truncate_files-keeps other faults keep_from lsn_floor n _ w
                (sort_files-AgreesAll _ (matching_files-AgreesAll w.revoker_id w.directory unique))
                (ground (arith, bound)))
      ]
    ]
