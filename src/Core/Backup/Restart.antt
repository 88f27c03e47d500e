-- ===== src/Core/Backup/Restart.antt =====
-- What the constructor of packages/core/src/Bloom-filter-manager.ts restores from the files that
-- packages/core/src/BloomFilterBackupManager.ts left.
use express_token_revoker.Prelude.{
  ◌≡◌, ◌≢◌, refl, sym, ◌∙◌, ap, true, false, ◌⊎◌, inl, inr, Option, none, some, List, [], ◌∷◌,
  arith, All, Bool-cases, length,
}
use express_token_revoker.Prelude.Result.{ok}
use express_token_revoker.Prelude.Text.{Text, text_eq, split_on}
use express_token_revoker.Core.BloomFilter.{BloomFilter, from_buckets}
use express_token_revoker.Core.FilterManager.Lifecycle.{or_kept}
use express_token_revoker.Core.Backup.{
  Settings, BackupManager, Files, Byte, bytes_of, buckets_of, content, lines_of, is_nonempty_temp,
  is_nonempty_blob, backup_exists,
}
use express_token_revoker.Core.Backup.Restore.{
  add_lines, restore_temp, restore_filter_from_file, has_expected_geometry, or_new, with_temp,
  RestoredFilters, restore,
}
use express_token_revoker.Core.Backup.Lines.{
  IsPlain, buckets_of-bytes_of, length-bytes_of, split_on-lines_of,
}
use express_token_revoker.Core.Backup.Covers.{add_lines-end}
use express_token_revoker.Core.Backup.Held.{IsShaped, empty_filter, IsBase}
use express_token_revoker.Core.Backup.Process.{
  new_backup_manager, blank_manager, construct, no_read_faults,
}

lines_of-ne-nil : (t : Text) (ts : List Text) → lines_of (t ∷ ts) ≢ []
lines_of-ne-nil [] ts = cc
lines_of-ne-nil (c ∷ t) ts = cc

no_lines : (ts : List Text) → [] ≡ lines_of ts → ts ≡ []
no_lines [] h = refl
no_lines (t ∷ ts) h = absurd (lines_of-ne-nil t ts (sym h))

abbrev stored : Option (List Byte) → List Byte
stored none = []
stored (some bytes) = bytes

module _ (o : Settings) where
  -- The blob that a backup wrote has the geometry of the configured filter.
  written_blob-geometry :
      (g : BloomFilter)
      → IsShaped o g
      → has_expected_geometry o.filter_bits (bytes_of g.buckets) ≡ true
  unfolding has_expected_geometry
  written_blob-geometry g ((_, long, _, _), shape, _) =
      ground (arith, length-bytes_of g.buckets, long, shape)

  -- The buckets make the filter again.
  from_buckets-shaped :
      (g : BloomFilter)
      → IsShaped o g
      → from_buckets (buckets_of (bytes_of g.buckets)) o.filter_hashes ≡ g
  unfolding from_buckets
  from_buckets-shaped g ((_, long, _, _), shape, hashes) =
      rw (buckets_of-bytes_of g.buckets, long, ← hashes) refl

  restored_blob :
      (b : BackupManager) (blob : Option (List Byte)) (g : BloomFilter)
      → b.options ≡ o
      → IsBase o blob g
      → (r : Option BloomFilter) × (restore_filter_from_file false b blob ≡ ok r) × (or_new b r ≡ g)
  unfolding restore_filter_from_file
  restored_blob b blob g same (shaped, inl (missing, fresh)) =
      (none, rw missing refl, rw same (sym fresh))
  restored_blob b blob g same (shaped, inr written) = (
    some g,
    rw (written, same, written_blob-geometry g shaped, from_buckets-shaped g shaped) refl,
    refl,
  )

  restored_any :
      (b : BackupManager) (blob : Option (List Byte))
      → (r : Option BloomFilter) × (restore_filter_from_file false b blob ≡ ok r)
  unfolding restore_filter_from_file
  restored_any b none = (none, refl)
  restored_any b (some bytes) = (_, refl)

  -- The tokens of the temp file join the restored filter.
  restored_tokens :
      (b : BackupManager) (temp : Option Text) (ts : List Text) (g : BloomFilter)
      (filters : RestoredFilters)
      → b.files.temp ≡ temp
      → All IsPlain ts
      → content temp ≡ lines_of ts
      → or_new b filters.current ≡ g
      → (filters' : RestoredFilters) × (with_temp false b filters ≡ ok filters')
        × (or_new b filters'.current ≡ add_lines ts g)
  unfolding with_temp
  restored_tokens b none ts g filters here plain lines base =
      (filters, rw here refl, base ∙ (unfold add_lines in rw (no_lines ts lines) refl))
  restored_tokens b (some []) ts g filters here plain lines base =
      (filters, rw here refl, base ∙ (unfold add_lines in rw (no_lines ts lines) refl))
  restored_tokens b (some (c ∷ text)) ts g filters here plain lines base = (
    record filters { current = some (restore_temp (c ∷ text) (or_new b filters.current)) },
    rw here refl,
    (unfold restore_temp in
        ap (λ l. add_lines (split_on 10 l) (or_new b filters.current)) lines
        ∙ rw (split_on-lines_of ts plain, base) (add_lines-end ts g)),
  )

  or_kept_new :
      (b : BackupManager) (r : Option BloomFilter)
      → b.options ≡ o
      → or_kept r (some (empty_filter o)) ≡ some (or_new b r)
  or_kept_new b none same = rw same refl
  or_kept_new b (some f) same = refl

  no_base :
      (blob : Option (List Byte)) (g : BloomFilter)
      → IsShaped o g
      → ((blob ≡ none) × (g ≡ empty_filter o)) ⊎ (blob ≡ some (bytes_of g.buckets))
      → is_nonempty_blob blob ≡ false
      → g ≡ empty_filter o
  no_base blob g shaped (inl (missing, fresh)) empty = fresh
  no_base none g shaped (inr written) empty = absurd (ground (arith, written))
  no_base (some []) g ((_, long, wide, _), shape, _) (inr written) empty =
      let nothing : length (bytes_of g.buckets) ≡ 0 =
        sym (ap (λ blob. length (stored blob)) written) in
      absurd (omega (arith, length-bytes_of g.buckets, nothing))
  no_base (some (x ∷ xs)) g shaped (inr written) empty = absurd (ground (arith, empty))

  -- Files that hold nothing restore to a new filter.
  nothing_kept :
      (blob : Option (List Byte)) (temp : Option Text) (ts : List Text) (g : BloomFilter)
      → content temp ≡ lines_of ts
      → IsBase o blob g
      → is_nonempty_blob blob ≡ false
      → is_nonempty_temp temp ≡ false
      → add_lines ts g ≡ empty_filter o
  unfolding add_lines
  nothing_kept blob none ts g lines (shaped, base) no_blob no_temp =
      rw (no_lines ts lines) (no_base blob g shaped base no_blob)
  nothing_kept blob (some []) ts g lines (shaped, base) no_blob no_temp =
      rw (no_lines ts lines) (no_base blob g shaped base no_blob)
  nothing_kept blob (some (c ∷ text)) ts g lines base no_blob no_temp =
      absurd (ground (arith, no_temp))

  pub construct-restores :
      (files : Files) (ts : List Text) (g : BloomFilter)
      → All IsPlain ts
      → content files.temp ≡ lines_of ts
      → IsBase o files.current g
      → (previous : Option BloomFilter) × (construct o no_read_faults files
          ≡ ok (record (blank_manager o (new_backup_manager o files)) {
            current = some (add_lines ts g);
            previous = previous;
          }))
  unfolding construct restore text_eq
  construct-restores files ts g plain lines base =
      let b = new_backup_manager o files in
      let (current, got, current_g) = restored_blob b files.current g refl base in
      let (previous, got_previous) = restored_any b files.previous in
      let filters : RestoredFilters = record { current = current; previous = previous } in
      let (filters', tokens, current_h) =
        restored_tokens b files.temp ts g filters refl plain lines current_g in
      elim (Bool-cases (backup_exists b)) [
        | inl kept ↦ (
          or_kept filters'.previous none,
          rw (kept, got, got_previous, tokens)
              (ap
                (λ c. ok (record (blank_manager o b) {
                  current = c;
                  previous = or_kept filters'.previous none;
                }))
                (or_kept_new b filters'.current refl ∙ ap some current_h)),
        )
        | inr nothing ↦ (
          none,
          rw
              (
                nothing,
                nothing_kept files.current files.temp ts g lines base (ground (arith, nothing))
                    (ground (arith, nothing)),
              )
              refl,
        )
      ]
