-- ===== src/Server/CanonicalWal/Floor.antt =====
-- How the operations of packages/server/src/canonicalWal.ts move the floor of the cursors.
use express_token_revoker.Prelude.{
  ℕ, ◌≤◌, ◌≡◌, refl, not, ◌&&◌, ◌||◌, Option, List, [], ◌∷◌, arith, branch, Bool-cases, inl, inr,
  leb, ltb,
}
use express_token_revoker.Prelude.Result.{Result, ok, err}
use express_token_revoker.Prelude.Text.{Text}
use express_token_revoker.Server.CanonicalWal.Line.{tombstone_line}
use express_token_revoker.Server.CanonicalWal.Files.{WalFile, parse_file}
use express_token_revoker.Server.CanonicalWal.Wal.{
  Faults, CanonicalWal, append_line, append_entry, append_tombstone, append_rotate, list_files,
}
use express_token_revoker.Server.CanonicalWal.Read.{max_lsn_of}
use express_token_revoker.Server.CanonicalWal.Truncate.{
  prepend, truncate_file, truncate_files, truncate_old_generations,
}

-- What an append does to the numbers of the log.
abbrev pub Grows : CanonicalWal → CanonicalWal → Type 0
Grows w w' = (w'.deleted_max_lsn ≡ w.deleted_max_lsn) × (w.next_lsn ≤ w'.next_lsn)

append_line-Grows :
    (faults : Faults) (line : Text) (w : CanonicalWal) → Grows w (append_line faults line w).1
unfolding append_line
append_line-Grows faults line w = elim (Bool-cases (not w.initialized || faults.unwritable)) [
  | inl fails ↦ simp fails (refl, omega arith)
  | inr goes ↦ simp goes (refl, omega arith)
]

pub append_tombstone-Grows :
    (faults : Faults) (lsn : ℕ) (item : Text) (w : CanonicalWal)
    → Grows w (append_tombstone faults lsn item w).1
unfolding append_tombstone
append_tombstone-Grows faults lsn item w = append_line-Grows faults (tombstone_line lsn item) w

pub append_entry-Grows :
    (faults : Faults) (item : Text) (w : CanonicalWal) → Grows w (append_entry faults item w).1
unfolding append_entry append_line
append_entry-Grows faults item w = elim (Bool-cases (not w.initialized || faults.unwritable)) [
  | inl fails ↦ simp fails (refl, omega arith)
  | inr goes ↦ simp goes (refl, omega arith)
]

pub append_rotate-Grows :
    (faults : Faults) (generation : ℕ) (w : CanonicalWal)
    → Grows w (append_rotate faults generation w).1
unfolding append_rotate append_line
append_rotate-Grows faults generation w =
    elim (Bool-cases (not w.initialized || faults.unwritable)) [
      | inl fails ↦ simp fails (refl, omega arith)
      | inr goes ↦ simp goes (refl, omega arith)
    ]

-- The floor of the cursors is not raised above the floor of the retention.
abbrev pub Floor : ℕ → CanonicalWal → Type 0
Floor lsn w = w.deleted_max_lsn ≤ lsn

module _ (other : Text → Option ℕ) (faults : Faults) (keep_from lsn : ℕ) where
  truncate_file-Floor :
      (f : WalFile) (w : CanonicalWal)
      → Floor lsn w
      → Floor lsn (truncate_file other faults keep_from lsn f w).1
  unfolding truncate_file
  truncate_file-Floor f w h =
      let file_max = max_lsn_of 0 (parse_file other f) in
      elim (Bool-cases
        (leb keep_from f.generation || (ltb lsn file_max || faults.undeletable f.name))) [
          | inl kept ↦ simp kept h
          | inr deleted ↦
              let low : file_max ≤ lsn = ground (arith, deleted) in
              simp deleted (
                branch (λ n. n ≤ lsn) (ltb w.deleted_max_lsn file_max) file_max w.deleted_max_lsn
                  low h)
        ]

  truncate_files-Floor :
      (fs : List WalFile) (w : CanonicalWal)
      → Floor lsn w
      → Floor lsn (truncate_files other faults keep_from lsn fs w).1
  unfolding truncate_files
  truncate_files-Floor [] w h = h
  truncate_files-Floor (f ∷ fs) w h =
      elim (Bool-cases (ltb f.generation keep_from && faults.unreadable f.name)) [
        | inl fails ↦ simp fails h
        | inr goes ↦ simp goes (
            prepended (truncate_file other faults keep_from lsn f w).0
              (truncate_files other faults keep_from lsn fs
                (truncate_file other faults keep_from lsn f w).1)
              (truncate_files-Floor fs (truncate_file other faults keep_from lsn f w).1
                (truncate_file-Floor f w h)))
      ]
    where
      prepended :
          (gone : List Text) (a : Result (List Text) × CanonicalWal)
          → Floor lsn a.1
          → Floor lsn (prepend gone a).1
      prepended gone (ok names, v) h = h
      prepended gone (err e, v) h = h

  pub truncate-Floor :
      (w : CanonicalWal)
      → Floor lsn w
      → Floor lsn (truncate_old_generations other faults keep_from lsn w).1
  unfolding truncate_old_generations
  truncate-Floor w h = elim (Bool-cases (not w.initialized)) [
    | inl closed ↦ simp closed h
    | inr open_ ↦ simp open_ (truncate_files-Floor (list_files faults w) w h)
  ]
