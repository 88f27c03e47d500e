-- ===== src/Server/CanonicalWal/Removal.antt =====
-- Deleting a file of packages/server/src/canonicalWal.ts takes its events out of the log, and
-- leaves all others where they were.
use express_token_revoker.Prelude.{
  ℕ, ◌<◌, ◌≤◌, ◌≡◌, refl, sym, ◌∙◌, ap, true, false, Option, none, List, [], ◌∷◌, ◌++◌, arith, All,
  All-weaken, leb, Bool-cases, inl, inr, if◌then◌else◌,
}
use express_token_revoker.Prelude.Text.{Text, text_eq}
use express_token_revoker.Server.CanonicalWal.Line.{CanonicalEvent, event_lsn}
use express_token_revoker.Server.CanonicalWal.Files.{
  Directory, WalFile, matching_files, insert_file, sort_files, parse_file, list_generation_files,
}
use express_token_revoker.Server.CanonicalWal.Truncate.{remove_file}
use express_token_revoker.Server.CanonicalWal.Delivery.{or_else, last_with, retained_files}

pub remove_name : Text → List WalFile → List WalFile
remove_name name [] = []
remove_name name (f ∷ fs) =
    let rest = remove_name name fs in if text_eq f.name name then rest else f ∷ rest

matching-remove_file :
    (id name : Text) (d : Directory)
    → matching_files id (remove_file name d) ≡ remove_name name (matching_files id d)
unfolding matching_files remove_file remove_name
matching-remove_file id name [] = refl
matching-remove_file id name ((m, content) ∷ d) = ground (arith, matching-remove_file id name d)

abbrev IsSortedFiles : List WalFile → Type 0
IsSortedFiles [] = Unit
IsSortedFiles (f ∷ fs) = All (λ g. f.generation ≤ g.generation) fs × IsSortedFiles fs

module _ {ℓ} (P : WalFile → Type ℓ) where
  All-insert_file : (f : WalFile) (fs : List WalFile) → P f → All P fs → All P (insert_file f fs)
  unfolding insert_file
  All-insert_file f [] p h = (p, tt)
  All-insert_file f (g ∷ fs) p (q, h) = elim (Bool-cases (leb f.generation g.generation)) [
    | inl before ↦ rw before (p, (q, h))
    | inr behind ↦ rw behind (q, All-insert_file f fs p h)
  ]

  pub All-sort_files : (fs : List WalFile) → All P fs → All P (sort_files fs)
  unfolding sort_files
  All-sort_files [] h = tt
  All-sort_files (f ∷ fs) (p, h) = All-insert_file f (sort_files fs) p (All-sort_files fs h)

  pub All-remove_name : (name : Text) (fs : List WalFile) → All P fs → All P (remove_name name fs)
  unfolding remove_name
  All-remove_name name [] h = tt
  All-remove_name name (f ∷ fs) (p, h) = elim (Bool-cases (text_eq f.name name)) [
    | inl gone ↦ rw gone (All-remove_name name fs h)
    | inr kept ↦ rw kept (p, All-remove_name name fs h)
  ]

insert_file-IsSortedFiles :
    (f : WalFile) (fs : List WalFile) → IsSortedFiles fs → IsSortedFiles (insert_file f fs)
unfolding insert_file
insert_file-IsSortedFiles f [] h = (tt, tt)
insert_file-IsSortedFiles f (g ∷ fs) (above, h) =
    elim (Bool-cases (leb f.generation g.generation)) [
      | inl before ↦
          let first : f.generation ≤ g.generation = ground arith in
          rw before ((first, All-weaken fs (λ y b. omega arith) above), (above, h))
      | inr behind ↦ rw behind (
        All-insert_file (λ y. g.generation ≤ y.generation) f fs (ground arith) above,
        insert_file-IsSortedFiles f fs h,
      )
    ]

sort_files-IsSortedFiles : (fs : List WalFile) → IsSortedFiles (sort_files fs)
unfolding sort_files
sort_files-IsSortedFiles [] = tt
sort_files-IsSortedFiles (f ∷ fs) =
    insert_file-IsSortedFiles f (sort_files fs) (sort_files-IsSortedFiles fs)

insert_file-first :
    (f : WalFile) (fs : List WalFile)
    → All (λ g. f.generation ≤ g.generation) fs
    → insert_file f fs ≡ f ∷ fs
unfolding insert_file
insert_file-first f [] h = refl
insert_file-first f (g ∷ fs) (h, _) = ground arith

remove_name_gone :
    (name : Text) (f : WalFile) (fs : List WalFile)
    → text_eq f.name name ≡ true
    → remove_name name fs ≡ remove_name name (f ∷ fs)
unfolding remove_name
remove_name_gone name f fs h = ground arith

remove_name_kept :
    (name : Text) (f : WalFile) (fs : List WalFile)
    → text_eq f.name name ≡ false
    → f ∷ remove_name name fs ≡ remove_name name (f ∷ fs)
unfolding remove_name
remove_name_kept name f fs h = ground arith

remove_name-insert_gone :
    (name : Text) (f : WalFile) (fs : List WalFile)
    → text_eq f.name name ≡ true
    → remove_name name (insert_file f fs) ≡ remove_name name fs
unfolding remove_name insert_file
remove_name-insert_gone name f [] h = ground arith
remove_name-insert_gone name f (g ∷ fs) h = ground (arith, remove_name-insert_gone name f fs h)

remove_name-insert_kept :
    (name : Text) (f : WalFile) (fs : List WalFile)
    → text_eq f.name name ≡ false
    → IsSortedFiles fs
    → remove_name name (insert_file f fs) ≡ insert_file f (remove_name name fs)
unfolding remove_name insert_file
remove_name-insert_kept name f [] h s = ground arith
remove_name-insert_kept name f (g ∷ fs) h (above, s) =
    elim (Bool-cases (leb f.generation g.generation)) [
      | inl before ↦
          let first : f.generation ≤ g.generation = ground arith in
          let later =
            All-weaken {Q = λ y. f.generation ≤ y.generation} fs (λ y b. omega arith) above in
          let all_later =
            All-remove_name (λ y. f.generation ≤ y.generation) name (g ∷ fs) (first, later) in
          ground (arith, insert_file-first f (remove_name name (g ∷ fs)) all_later)
      | inr behind ↦ ground (arith, remove_name-insert_kept name f fs h s)
    ]

remove_name-sort :
    (name : Text) (fs : List WalFile)
    → remove_name name (sort_files fs) ≡ sort_files (remove_name name fs)
unfolding sort_files
remove_name-sort name [] = unfold remove_name in refl
remove_name-sort name (f ∷ fs) = elim (Bool-cases (text_eq f.name name)) [
  | inl gone ↦
      remove_name-insert_gone name f (sort_files fs) gone
      ∙ remove_name-sort name fs
      ∙ ap sort_files (remove_name_gone name f fs gone)
  | inr kept ↦
      remove_name-insert_kept name f (sort_files fs) kept (sort_files-IsSortedFiles fs)
      ∙ ap (insert_file f) (remove_name-sort name fs)
      ∙ ap sort_files (remove_name_kept name f fs kept)
]

-- The files that are left, in the order that they had.
pub list-remove_file :
    (id name : Text) (d : Directory)
    → list_generation_files id (remove_file name d) ≡ remove_name name (list_generation_files id d)
unfolding list_generation_files
list-remove_file id name d =
    ap sort_files (matching-remove_file id name d)
    ∙ sym (remove_name-sort name (matching_files id d))

pub last_with-append :
    (n : ℕ) (xs ys : List CanonicalEvent)
    → last_with n (xs ++ ys) ≡ or_else (last_with n ys) (last_with n xs)
last_with-append n [] ys = ground arith
last_with-append n (x ∷ xs) ys = ground (arith, last_with-append n xs ys)

last_with_below :
    (n : ℕ) (xs : List CanonicalEvent) → All (λ e. event_lsn e < n) xs → last_with n xs ≡ none
last_with_below n [] h = refl
last_with_below n (x ∷ xs) (p, h) = ground (arith, last_with_below n xs h)

-- Removing a file whose events all lie below `n` changes nothing at `n`.
pub last_with-remove_name :
    (other : Text → Option ℕ) (n : ℕ) (name : Text) (fs : List WalFile)
    → All (λ g. text_eq g.name name ≡ true → All (λ e. event_lsn e < n) (parse_file other g)) fs
    → last_with n (retained_files other (remove_name name fs))
      ≡ last_with n (retained_files other fs)
unfolding remove_name retained_files
last_with-remove_name other n name [] h = refl
last_with-remove_name other n name (f ∷ fs) (p, h) = elim (Bool-cases (text_eq f.name name)) [
  | inl gone ↦
      let none_here = last_with_below n (parse_file other f) (p gone) in
      ground (
        arith,
        none_here,
        last_with-remove_name other n name fs h,
        last_with-append n (parse_file other f) (retained_files other fs),
      )
  | inr kept ↦ ground (
    arith,
    last_with-remove_name other n name fs h,
    last_with-append n (parse_file other f) (retained_files other fs),
    last_with-append n (parse_file other f) (retained_files other (remove_name name fs)),
  )
]
