-- ===== src/Core/Backup/Held.antt =====
-- What the files of a `BloomFilterBackupManager` (packages/core/src/BloomFilterBackupManager.ts)
-- hold of the filter in memory, through the steps of a backup.
use express_token_revoker.Prelude.{
  ℕ, ◌+◌, ◌*◌, ◌/◌, ◌^◌, ◌<◌, ◌≤◌, ◌≡◌, refl, sym, ◌∙◌, ap, Bool, true, false, ◌⊎◌, inl, inr,
  Option, none, some, List, [], ◌∷◌, ◌++◌, arith, All, All-append, if_holds, if◌then◌else◌, ◌==◌,
}
use express_token_revoker.Prelude.Text.{Text}
use express_token_revoker.Core.BloomFilter
use express_token_revoker.Core.BloomFilter.{BloomFilter, new_filter}
use express_token_revoker.Core.Backup.{
  Settings, BackupManager, Byte, Phase, idle, opened, synced, renamed, persisted, Writer,
  periodic_backup, rotation_backup, Request, periodic, rotation, bytes_of, content, lines_of,
  token_line, append_temp,
}
use express_token_revoker.Core.Backup.Local.{step_from, is_exposed, ends_rotation, acquire, grant}
use express_token_revoker.Core.Backup.Restore.{add_lines}
use express_token_revoker.Core.Backup.Lines.{IsPlain, lines_of-snoc}
use express_token_revoker.Core.Backup.Covers.{
  Fits, Within, new_filter-Fits, new_filter-Within, add_lines_grows, add_lines-snoc, add_lines-Fits,
  add-Within,
}

-- A sound filter of the shape that the options ask for.
abbrev pub IsShaped : Settings → BloomFilter → Type 0
IsShaped o f = Fits ((o.filter_bits + 31) / 32 * 32) o.filter_hashes f

abbrev pub empty_filter : Settings → BloomFilter
empty_filter o = new_filter o.filter_bits o.filter_hashes

-- The file of the current blob is that of `g`, or missing if `g` is a new filter.
abbrev pub IsBase : Settings → Option (List Byte) → BloomFilter → Type 0
IsBase o blob g =
    IsShaped o g × (((blob ≡ none) × (g ≡ empty_filter o)) ⊎ (blob ≡ some (bytes_of g.buckets)))

-- With the tokens `ts` of the temp file, the blob of `g` covers the filter `f`, and will still do so
-- after the next step of a backup under way.
abbrev pub Covered : Settings → BloomFilter → List Text → BloomFilter → Phase → Type 0
Covered o f ts g (synced w bytes) =
    Within f (add_lines ts g)
    × (h : BloomFilter) × IsShaped o h
    × (bytes ≡ bytes_of h.buckets)
    × Within f h
Covered o f ts g (renamed w) = Within f g
Covered o f ts g _ = Within f (add_lines ts g)

abbrev pub Held : Settings → BloomFilter → Phase → BackupManager → Type 0
Held o f p b =
    (ts : List Text) × (g : BloomFilter) × (b.options ≡ o)
    × All IsPlain ts
    × (content b.files.temp ≡ lines_of ts)
    × IsBase o b.files.current g
    × Covered o f ts g p

module _ (o : Settings) (f : BloomFilter) where
  pub Covered-Within :
      (ts : List Text) (g : BloomFilter) (p : Phase)
      → IsShaped o g
      → Covered o f ts g p
      → Within f (add_lines ts g)
  Covered-Within ts g idle fits c = c
  Covered-Within ts g (opened w) fits c = c
  Covered-Within ts g (synced w bytes) fits (c, h, _, e, within) = c
  Covered-Within ts g (renamed w) fits c = λ j one.
      add_lines_grows ((o.filter_bits + 31) / 32 * 32) o.filter_hashes ts g fits j (c j one)
  Covered-Within ts g persisted fits c = c

  -- The mutex changes hands.
  acquire-Held :
      (waiting : List Request) (b : BackupManager)
      → Held o f idle b
      → b.phase ≡ idle
      → Held o f (acquire waiting b).phase (acquire waiting b)
  unfolding acquire grant
  acquire-Held [] b held free = rw free held
  acquire-Held (rotation ∷ rest) b held free = held
  acquire-Held (periodic generation ∷ rest) b (ts, g, same, plain, lines, base, c) free = (
    ts,
    g,
    same,
    plain,
    lines,
    base,
    if_holds (Covered o f ts g) (generation == b.generation) c c,
  )

calm_Covered :
    (o : Settings) (f : BloomFilter) (ts : List Text) (g : BloomFilter) (p : Phase)
    → is_exposed p ≡ false
    → Within f (add_lines ts g)
    → Covered o f ts g p
calm_Covered o f ts g idle calm c = c
calm_Covered o f ts g (opened w) calm c = c
calm_Covered o f ts g (synced w bytes) calm c = absurd (ground (arith, calm))
calm_Covered o f ts g (renamed w) calm c = absurd (ground (arith, calm))
calm_Covered o f ts g persisted calm c = c

-- The current filter after a step: a rotation that has ended leaves a new one.
abbrev pub filter_after : Settings → BloomFilter → Bool → Phase → BloomFilter
filter_after o f refused p = if ends_rotation refused p then empty_filter o else f

module _ (o : Settings) (f : BloomFilter) (some_bits : 0 < o.filter_bits)
    (addressable : o.filter_bits ≤ 2 ^ 31) (shaped : IsShaped o f) where
  -- A refused step of a backup.
  gives_up-Held :
      (w : Writer) (p : Phase) (b : BackupManager)
      → Held o f p b
      → Held o (elim w [ periodic_backup ↦ f | rotation_backup ↦ empty_filter o ]) idle b
  gives_up-Held periodic_backup p b (ts, g, same, plain, lines, base, c) =
      (ts, g, same, plain, lines, base, Covered-Within o f ts g p base.0 c)
  gives_up-Held rotation_backup p b (ts, g, same, plain, lines, base, c) = (
    ts,
    g,
    same,
    plain,
    lines,
    base,
    new_filter-Within o.filter_bits o.filter_hashes (add_lines ts g),
  )

  pub step-Held :
      (refused : Bool) (p : Phase) (b : BackupManager)
      → b.phase ≡ p
      → Held o f p b
      → let b' = step_from refused f p b in Held o (filter_after o f refused p) b'.phase b'
  unfolding step_from ends_rotation
  step-Held refused idle b here held = acquire-Held o f b.waiting b held here
  step-Held true (opened periodic_backup) b here held =
      gives_up-Held periodic_backup (opened periodic_backup) b held
  step-Held true (opened rotation_backup) b here held =
      gives_up-Held rotation_backup (opened rotation_backup) b held
  step-Held true (synced periodic_backup bytes) b here held =
      gives_up-Held periodic_backup (synced periodic_backup bytes) b held
  step-Held true (synced rotation_backup bytes) b here held =
      gives_up-Held rotation_backup (synced rotation_backup bytes) b held
  step-Held true (renamed periodic_backup) b here held =
      gives_up-Held periodic_backup (renamed periodic_backup) b held
  step-Held true (renamed rotation_backup) b here held =
      gives_up-Held rotation_backup (renamed rotation_backup) b held
  step-Held true persisted b here held = gives_up-Held rotation_backup persisted b held
  step-Held false (opened periodic_backup) b here (ts, g, same, plain, lines, base, c) =
      (ts, g, same, plain, lines, base, (c, f, shaped, refl, (λ j one. one)))
  step-Held false (opened rotation_backup) b here (ts, g, same, plain, lines, base, c) =
      (ts, g, same, plain, lines, base, (c, f, shaped, refl, (λ j one. one)))
  step-Held false (synced periodic_backup bytes) b here
        (ts, g, same, plain, lines, base, (c, h, fits, e, within)) =
      (ts, h, same, plain, lines, (fits, inr (ap some e)), within)
  step-Held false (synced rotation_backup bytes) b here
        (ts, g, same, plain, lines, base, (c, h, fits, e, within)) =
      (ts, h, same, plain, lines, (fits, inr (ap some e)), within)
  step-Held false (renamed periodic_backup) b here (ts, g, same, plain, lines, base, c) =
      ([], g, same, tt, refl, base, (unfold add_lines in c))
  step-Held false (renamed rotation_backup) b here (ts, g, same, plain, lines, base, c) =
      ([], g, same, tt, refl, base, (unfold add_lines in c))
  step-Held false persisted b here (ts, g, same, plain, lines, base, c) = (
    ts,
    empty_filter o,
    same,
    plain,
    lines,
    (new_filter-Fits o.filter_bits o.filter_hashes some_bits addressable, inl (refl, refl)),
    new_filter-Within o.filter_bits o.filter_hashes (add_lines ts (empty_filter o)),
  )

  -- A token that is added while no backup is between its two writes.
  pub add-Held :
      (item : Text) (p : Phase) (b : BackupManager)
      → IsPlain item
      → is_exposed p ≡ false
      → Held o f p b
      → Held o (BloomFilter.add item f) p (append_temp (token_line item) b)
  add-Held item p b (text, unbroken) calm (ts, g, same, plain, lines, base, c) = (
    ts ++ item ∷ [],
    g,
    same,
    All-append IsPlain ts (item ∷ []) plain ((text, unbroken), tt),
    ap (λ l. l ++ token_line item) lines ∙ sym (lines_of-snoc ts item),
    base,
    calm_Covered o (BloomFilter.add item f) (ts ++ item ∷ []) g p calm (
        rw (add_lines-snoc ts item g text) (
          add-Within m o.filter_hashes item f (add_lines ts g) shaped
            (add_lines-Fits m o.filter_hashes ts g base.0) (Covered-Within o f ts g p base.0 c))),
  )
    where
      m : ℕ
      m = (o.filter_bits + 31) / 32 * 32
