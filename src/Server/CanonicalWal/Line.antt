-- ===== src/Server/CanonicalWal/Line.antt =====
-- The lines of packages/server/src/canonicalWal.ts: what the append methods write and what
-- `#parseLine` reads.
use express_token_revoker.Prelude.{
  ℕ, zero, suc, ◌≡◌, refl, Option, none, some, [], ◌∷◌, ◌++◌, length, ◌==◌, if◌then◌else◌,
}
use express_token_revoker.Prelude.Text.{Text, codes, text_eq, decimal, number}

-- packages/server/src/types.ts, `CanonicalEvent`
pub data CanonicalEvent : Type 0 where
  entry : ℕ → ℕ → Text → CanonicalEvent
  rotate : ℕ → ℕ → CanonicalEvent
  tombstone : ℕ → ℕ → Text → CanonicalEvent

abbrev pub event_lsn : CanonicalEvent → ℕ
event_lsn (entry lsn g item) = lsn
event_lsn (rotate lsn g) = lsn
event_lsn (tombstone lsn g item) = lsn

-- `${lsn}:E:${item.length}:${item}`, and the line of a tombstone
unfoldable pub entry_line : ℕ → Text → Text
entry_line lsn item =
    decimal lsn ++ b':' ∷ (b'E' ∷ (b':' ∷ (decimal (length item) ++ (b':' ∷ item))))

unfoldable pub tombstone_line : ℕ → Text → Text
tombstone_line lsn item =
    decimal lsn ++ b':' ∷ (b'T' ∷ (b':' ∷ (decimal (length item) ++ (b':' ∷ item))))

-- `${lsn}:R:${generation}`
unfoldable pub rotate_line : ℕ → ℕ → Text
rotate_line lsn generation = decimal lsn ++ b':' ∷ (b'R' ∷ (b':' ∷ decimal generation))

-- `indexOf(':')` with the two slices around the position that it finds
unfoldable pub split_colon : Text → Option (Text × Text)
split_colon [] = none
split_colon (c ∷ s) =
    let rest = split_colon s in
    if c == b':'
    then some ([], s)
    else elim rest [ none ↦ none | some (before, after) ↦ some (c ∷ before, after) ]

module _ (other : Text → Option ℕ) where
  -- the remainder of an entry's or a tombstone's line: its length prefix and its item
  unfoldable pub parse_item : Text → Option Text
  parse_item rest = elim (split_colon rest) [
    | none ↦ none
    | some (len, item) ↦ elim (number other len) [
      | none ↦ none
      | some n ↦ if length item == n then some item else none
    ]
  ]

  -- the three types of lines
  unfoldable pub parse_typed : ℕ → ℕ → Text → Text → Option CanonicalEvent
  unfolding parse_item text_eq
  parse_typed generation lsn type rest =
      if text_eq type (codes "R")
      then elim (number other rest) [ none ↦ none | some g ↦ some (rotate lsn g) ]
      else if text_eq type (codes "E")
      then elim (parse_item rest) [ none ↦ none | some item ↦ some (entry lsn generation item) ]
      else if text_eq type (codes "T")
      then elim (parse_item rest) [ none ↦ none | some item ↦ some (tombstone lsn generation item) ]
      else none

  parse_numbered : ℕ → Option ℕ → Text → Text → Option CanonicalEvent
  parse_numbered generation none type rest = none
  parse_numbered generation (some zero) type rest = none
  parse_numbered generation (some (suc n)) type rest = parse_typed generation (suc n) type rest

  parse_prefixed : ℕ → Text → Text → Option CanonicalEvent
  unfolding parse_numbered
  parse_prefixed generation [] rest = none
  parse_prefixed generation (c ∷ lsn) rest = elim (split_colon rest) [
    | none ↦ none
    | some (type, rest') ↦ parse_numbered generation (number other (c ∷ lsn)) type rest'
  ]

  -- `#parseLine`, for a line of a file whose current generation is `generation`
  unfoldable pub parse_line : ℕ → Text → Option CanonicalEvent
  unfolding parse_prefixed
  parse_line generation line = elim (split_colon line) [
    | none ↦ none
    | some (lsn, rest) ↦ parse_prefixed generation lsn rest
  ]

line_tests :
    (parse_line (λ s. none) 4 (codes "12:E:3:a:b") ≡ some (entry 12 4 (codes "a:b")))
    × (parse_line (λ s. none) 4 (codes "12:E:3:ab") ≡ none)
    × (parse_line (λ s. none) 4 (codes "0:R:7") ≡ none)
    × (parse_line (λ s. none) 4 (codes "9:R:") ≡ some (rotate 9 0))
    × (parse_line (λ s. none) 4 (codes ":R:7") ≡ none)
    × (parse_line (λ s. none) 4 (codes "9:X:1:a") ≡ none)
    × (parse_line (λ s. none) 4 (tombstone_line 10 (codes "")) ≡ some (tombstone 10 4 []))
unfolding parse_line tombstone_line parse_typed split_colon number decimal
line_tests = (refl, refl, refl, refl, refl, refl, refl)
