-- ===== src/Server/CanonicalWal/Numbering.antt =====
-- How the operations of packages/server/src/canonicalWal.ts move the next LSN.
use express_token_revoker.Prelude.{
  ℕ, ◌+◌, ◌≡◌, refl, ◌∙◌, not, ◌&&◌, ◌||◌, Option, List, [], ◌∷◌, ltb, arith, Bool-cases, inl, inr,
  ◌⊎◌,
}
use express_token_revoker.Prelude.Result.{Result, ok, err, internal_error}
use express_token_revoker.Prelude.Text.{Text}
use express_token_revoker.Server.CanonicalWal.Line.{tombstone_line}
use express_token_revoker.Server.CanonicalWal.Files.{WalFile}
use express_token_revoker.Server.CanonicalWal.Wal.{
  Faults, CanonicalWal, append_line, append_entry, append_tombstone, append_rotate,
}
use express_token_revoker.Server.CanonicalWal.Truncate.{
  truncate_file, truncate_files, truncate_old_generations, prepend,
}

append_line-next :
    (faults : Faults) (line : Text) (w : CanonicalWal)
    → (append_line faults line w).1.next_lsn ≡ w.next_lsn
unfolding append_line
append_line-next faults line w = ground arith

-- An append takes the next LSN whether or not it succeeds.
pub append_entry-next :
    (faults : Faults) (item : Text) (w : CanonicalWal)
    → ((append_entry faults item w).1.next_lsn ≡ w.next_lsn + 1)
      × (((append_entry faults item w).0 ≡ ok w.next_lsn)
          ⊎ ((append_entry faults item w).0 ≡ err internal_error))
unfolding append_entry append_line
append_entry-next faults item w = elim (Bool-cases (not w.initialized || faults.unwritable)) [
  | inl refused ↦ rw refused (refl, inr refl)
  | inr fine ↦ rw fine (refl, inl refl)
]

pub append_rotate-next :
    (faults : Faults) (generation : ℕ) (w : CanonicalWal)
    → ((append_rotate faults generation w).1.next_lsn ≡ w.next_lsn + 1)
      × (((append_rotate faults generation w).0 ≡ ok w.next_lsn)
          ⊎ ((append_rotate faults generation w).0 ≡ err internal_error))
unfolding append_rotate append_line
append_rotate-next faults generation w =
    elim (Bool-cases (not w.initialized || faults.unwritable)) [
      | inl refused ↦ rw refused (refl, inr refl)
      | inr fine ↦ rw fine (refl, inl refl)
    ]

pub append_tombstone-next :
    (faults : Faults) (lsn : ℕ) (item : Text) (w : CanonicalWal)
    → (append_tombstone faults lsn item w).1.next_lsn ≡ w.next_lsn
unfolding append_tombstone
append_tombstone-next faults lsn item w = append_line-next faults (tombstone_line lsn item) w

truncate_files-next :
    (other : Text → Option ℕ) (faults : Faults) (keep_from lsn_floor : ℕ) (fs : List WalFile)
    (w : CanonicalWal)
    → (truncate_files other faults keep_from lsn_floor fs w).1.next_lsn ≡ w.next_lsn
unfolding truncate_files truncate_file
truncate_files-next other faults keep_from lsn_floor [] w = refl
truncate_files-next other faults keep_from lsn_floor (f ∷ fs) w =
    let w' = (truncate_file other faults keep_from lsn_floor f w).1 in
    elim (Bool-cases (ltb f.generation keep_from && faults.unreadable f.name)) [
      | inl failed ↦ rw failed refl
      | inr fine ↦ rw fine (
          prepend-next (truncate_file other faults keep_from lsn_floor f w).0
            (truncate_files other faults keep_from lsn_floor fs w')
          ∙ truncate_files-next other faults keep_from lsn_floor fs w'
          ∙ ground arith)
    ]
  where
    prepend-next :
        (gone : List Text) (r : Result (List Text) × CanonicalWal)
        → (prepend gone r).1.next_lsn ≡ r.1.next_lsn
    prepend-next gone (ok names, v) = refl
    prepend-next gone (err e, v) = refl

pub truncate_old_generations-next :
    (other : Text → Option ℕ) (faults : Faults) (keep_from lsn_floor : ℕ) (w : CanonicalWal)
    → (truncate_old_generations other faults keep_from lsn_floor w).1.next_lsn ≡ w.next_lsn
unfolding truncate_old_generations
truncate_old_generations-next other faults keep_from lsn_floor w = elim (Bool-cases w.initialized) [
  | inl on ↦ simp on (truncate_files-next other faults keep_from lsn_floor _ w)
  | inr off ↦ simp off refl
]
