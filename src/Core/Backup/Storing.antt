-- ===== src/Core/Backup/Storing.antt =====
-- What adding a token leaves in the files of a `BloomFilterManager`:
-- packages/core/src/Bloom-filter-manager.ts with packages/core/src/BloomFilterBackupManager.ts.
use express_token_revoker.Prelude.{
  ℕ, suc, zero, ◌^◌, ◌<◌, ◌≤◌, ◌≡◌, refl, sym, ◌∙◌, ap, Bool, true, false, ◌⊎◌, inl, inr, Option,
  some, arith, Bool-cases, ◌&&◌, not,
}
use mathlib.Core.Path.{subst}
use express_token_revoker.Prelude.Result.{Result, ok, err, internal_error, Result-cases}
use express_token_revoker.Prelude.Text.{Text, text_eq, text_eq_iff}
use express_token_revoker.Prelude.Utf8.{IsWellFormed, stored, stored-snoc}
use express_token_revoker.Core.BloomFilter
use express_token_revoker.Core.BloomFilter.{BloomFilter, new_filter}
use express_token_revoker.Core.FilterManager
use express_token_revoker.Core.FilterManager.{
  FilterManager, add, has, rotate_begin, rotate_end, check_item, is_blank, has_breaks, store_added,
  is_saturated, found_in,
}
use express_token_revoker.Core.Backup.{
  Append, written, refused, cut_off, Settings, BackupManager, token_line, append_temp,
  append_with_retries, after_attempt, backup_item, max_retries,
}
use express_token_revoker.Core.Backup.Local.{is_exposed}
use express_token_revoker.Core.Backup.Lines.{IsPlain}
use express_token_revoker.Core.Backup.Covers.{add-Fits}
use express_token_revoker.Core.Backup.Held.{IsShaped, Held, add-Held}
use express_token_revoker.Core.Backup.Rotations.{outstanding, one_if}
use express_token_revoker.Core.Backup.Process.{add_token, disk_backups, is_calm, exposed, are_whole}

Append-cases : (a : Append) → (a ≡ written) ⊎ ((a ≡ refused) ⊎ ((part : Text) × (a ≡ cut_off part)))
Append-cases written = inl refl
Append-cases refused = inr (inl refl)
Append-cases (cut_off part) = inr (inr (part, refl))

-- The attempts to append the token leave the files as they were, or append its line.
append_with_retries-cases :
    (left : ℕ) (attempts : ℕ → Append) (text : Text) (b : BackupManager)
    → are_whole left attempts ≡ true
    → IsWellFormed text
    → (append_with_retries left attempts text b ≡ (err internal_error, b))
      ⊎ (append_with_retries left attempts text b ≡ (ok tt, append_temp text b))
unfolding append_with_retries after_attempt
append_with_retries-cases zero attempts text b whole formed = inl refl
append_with_retries-cases (suc left) attempts text b whole formed =
    elim (Append-cases (attempts left)) [
      | inl works ↦ rw works (inr (ap (λ t. (ok tt, append_temp t b)) formed))
      | inr (inl fails) ↦
          rw fails (append_with_retries-cases left attempts text b (rw fails at whole) formed)
      | inr (inr (part, cut)) ↦ let never = rw cut at whole in absurd (ground (arith, never))
    ]

pub backup_item-cases :
    (attempts : ℕ → Append) (item : Text) (b : BackupManager)
    → b.options.buffer_enabled ≡ false
    → are_whole max_retries attempts ≡ true
    → IsWellFormed item
    → (backup_item attempts item b ≡ (err internal_error, b))
      ⊎ (backup_item attempts item b ≡ (ok tt, append_temp (token_line item) b))
unfolding backup_item
backup_item-cases attempts item b direct whole formed = simp direct (
    append_with_retries-cases max_retries attempts (token_line item) b whole
      (stored-snoc item formed))

-- Whatever the attempts write, the options and the phase stay.
append_with_retries-keeps :
    (left : ℕ) (attempts : ℕ → Append) (text : Text) (b : BackupManager)
    → (r : Result (Unit {0}) × BackupManager) × (append_with_retries left attempts text b ≡ r)
      × (r.1.options ≡ b.options)
      × (r.1.phase ≡ b.phase)
unfolding append_with_retries after_attempt
append_with_retries-keeps zero attempts text b = ((err internal_error, b), refl, refl, refl)
append_with_retries-keeps (suc left) attempts text b = elim (Append-cases (attempts left)) [
  | inl works ↦ ((ok tt, append_temp (stored text) b), rw works refl, refl, refl)
  | inr (inl fails) ↦
      let (r, same, options, phase) = append_with_retries-keeps left attempts text b in
      (r, rw fails same, options, phase)
  | inr (inr (part, cut)) ↦
      let (r, same, options, phase) =
        append_with_retries-keeps left attempts text (append_temp part b) in
      (r, rw cut same, options, phase)
]

pub backup_item-keeps :
    (attempts : ℕ → Append) (item : Text) (b : BackupManager)
    → b.options.buffer_enabled ≡ false
    → (r : Result (Unit {0}) × BackupManager) × (backup_item attempts item b ≡ r)
      × (r.1.options ≡ b.options)
      × (r.1.phase ≡ b.phase)
unfolding backup_item
backup_item-keeps attempts item b direct =
    let (r, same, options, phase) =
      append_with_retries-keeps max_retries attempts (token_line item) b in
    (r, simp direct same, options, phase)

and_parts : (x y : Bool) → (x && y) ≡ true → (x ≡ true) × (y ≡ true)
and_parts true y h = (refl, h)
and_parts false y h = absurd (ground (arith, h))

check_item-IsPlain :
    {B : Type 0} (item : Text) (s : FilterManager B) → check_item item s ≡ ok tt → IsPlain item
unfolding check_item
check_item-IsPlain item s valid = ground (arith, valid)

-- The current filter is there, the files hold it, and a rotation under way waits for its backup.
abbrev pub IsRecoverable : Settings → FilterManager BackupManager → Type 0
IsRecoverable o s =
    (f : BloomFilter) × (b : BackupManager) × (s.current ≡ some f)
    × (s.backup ≡ some b)
    × (s.filter_bits ≡ o.filter_bits)
    × (s.filter_hashes ≡ o.filter_hashes)
    × IsShaped o f
    × Held o f b.phase b
    × (outstanding b ≡ one_if s.is_rotating)

module _ (o : Settings) (some_bits : 0 < o.filter_bits) (addressable : o.filter_bits ≤ 2 ^ 31)
    (direct : o.buffer_enabled ≡ false) where
  stored-IsRecoverable :
      (attempts : ℕ → Append) (item : Text) (s : FilterManager BackupManager)
      → check_item item s ≡ ok tt
      → is_calm (add_token attempts item) s ≡ true
      → IsRecoverable o s
      → IsRecoverable o
          (store_added
            (disk_backups attempts)
            (FilterManager.backup_item (disk_backups attempts) item s.backup)
            item
            s).1
  unfolding store_added is_calm
  stored-IsRecoverable attempts item s valid calm
        (f, b, current, backup, bits, hashes, shaped, held, rotating) =
      let (ts, g, same, plain, lines, base, c) = held in
      let D = disk_backups attempts in
      let gives : Result (Unit {0}) × BackupManager → Type 0 =
        λ r. FilterManager.backup_item D item s.backup ≡ (r.0, some r.1) in
      let stores : (r : Result (Unit {0}) × BackupManager)
          → backup_item attempts item b ≡ r
          → gives r =
        λ r e. ap (λ x. FilterManager.backup_item D item x) backup ∙ ap (λ x. (x.0, some x.1)) e in
      let (quiet, told) =
        and_parts (not (exposed s.backup))
          (are_whole max_retries attempts && text_eq (stored item) item) calm in
      let (whole, same_text) =
        and_parts (are_whole max_retries attempts) (text_eq (stored item) item) told in
      let formed : IsWellFormed item = (text_eq_iff (stored item) item).0 same_text in
      let hidden : is_exposed b.phase ≡ false = ground (arith, quiet, ap exposed backup) in
      let unbuffered : b.options.buffer_enabled ≡ false =
        ap (λ p. p.buffer_enabled) same ∙ direct in
      let lands : Result (Unit {0}) × Option BackupManager → Type 0 =
        λ r. IsRecoverable o (store_added D r item s).1 in
      elim (backup_item-cases attempts item b unbuffered whole formed) [
        | inl fails ↦
            subst lands (sym (stores _ fails))
              (f, b, current, refl, bits, hashes, shaped, held, rotating)
        | inr works ↦ subst lands (sym (stores _ works)) (
          BloomFilter.add item f,
          append_temp (token_line item) b,
          ap (FilterManager.add_to item) current,
          refl,
          bits,
          hashes,
          add-Fits _ o.filter_hashes item f shaped,
          add-Held o f some_bits addressable shaped item b.phase b (check_item-IsPlain item s valid)
              hidden held,
          rotating,
        )
      ]

  pub add-IsRecoverable :
      (attempts : ℕ → Append) (item : Text) (s : FilterManager BackupManager)
      → is_calm (add_token attempts item) s ≡ true
      → IsRecoverable o s
      → IsRecoverable o (add (disk_backups attempts) item s).1
  unfolding add
  add-IsRecoverable attempts item s calm recoverable = elim (Result-cases (check_item item s)) [
    | inl (e, bad) ↦ rw (bad, add) recoverable
    | inr (_, valid) ↦
        rw (valid, add)
          (elim (Bool-cases (is_saturated s)) [
            | inl full ↦ rw full recoverable
            | inr room ↦ rw room (stored-IsRecoverable attempts item s valid calm recoverable)
          ])
  ]
