-- ===== src/Server/CanonicalWal/WholeFile.antt =====
-- A file that the append methods of packages/server/src/canonicalWal.ts have written line by line
-- is read back by `#parseFile`.
use express_token_revoker.Prelude.{
  ℕ, ◌<◌, ◌≤◌, ◌≡◌, ◌≢◌, refl, sym, ◌∙◌, ap, false, Option, some, List, [], ◌∷◌, ◌++◌, arith,
  length, All, All-append, All-weaken, ◌==◌, none-ne-some,
}
use mathlib.Core.List.{append-nil}
use express_token_revoker.Prelude.Text.{Text, decimal, max_safe, decimal-digits, split_on}
use express_token_revoker.Prelude.Utf8.{
  stored, stored_behind, IsWellFormed, stored-append, stored-snoc,
}
use express_token_revoker.Server.CanonicalWal.Line.{
  CanonicalEvent, entry, rotate, tombstone, entry_line, tombstone_line, rotate_line, parse_line,
  split_colon,
}
use express_token_revoker.Server.CanonicalWal.Files.{
  generation_after, parse_lines, parse_file, split_lines,
}
use express_token_revoker.Server.CanonicalWal.RoundTrip.{
  parse_line-entry_line, parse_line-tombstone_line, parse_line-rotate_line,
}

-- The line of an event, as its append method writes it.
abbrev pub line_of : CanonicalEvent → Text
line_of (entry lsn g item) = entry_line lsn item
line_of (tombstone lsn g item) = tombstone_line lsn item
line_of (rotate lsn g) = rotate_line lsn g

-- What the file holds after the appends.
abbrev pub content_of : List CanonicalEvent → Text
content_of [] = []
content_of (e ∷ es) = stored (line_of e ++ 10 ∷ []) ++ content_of es

-- The events in a file of a generation: each has the generation of the last rotation before it.
abbrev pub placed : ℕ → CanonicalEvent → CanonicalEvent
placed g (entry lsn old item) = entry lsn g item
placed g (tombstone lsn old item) = tombstone lsn g item
placed g (rotate lsn n) = rotate lsn n

abbrev pub inherited : ℕ → List CanonicalEvent → List CanonicalEvent
inherited g [] = []
inherited g (e ∷ es) = placed g e ∷ inherited (generation_after g (some e)) es

abbrev IsUnbroken : Text → Type 0
IsUnbroken t = All (λ c. c ≢ 10) t

abbrev IsSmall : ℕ → Text → Type 0
IsSmall lsn item =
    (0 < lsn) × (lsn ≤ max_safe) × (length item ≤ max_safe) × IsUnbroken item × IsWellFormed item

-- What can be written so that it is read: an item has no line feed, and no surrogate without its
-- partner; numbers are safe integers.
abbrev pub IsWritable : CanonicalEvent → Type 0
IsWritable (entry lsn g item) = IsSmall lsn item
IsWritable (tombstone lsn g item) = IsSmall lsn item
IsWritable (rotate lsn g) = (0 < lsn) × (lsn ≤ max_safe) × (g ≤ max_safe)

digits-IsUnbroken : (n : ℕ) → IsUnbroken (decimal n)
digits-IsUnbroken n = All-weaken (decimal n) (λ c digit. omega (arith, digit)) (decimal-digits n)

digits-plain : (n : ℕ) → All (λ c. c < 0xd800) (decimal n)
digits-plain n = All-weaken (decimal n) (λ c digit. omega (arith, digit)) (decimal-digits n)

-- The line with the type letter `c` and what is behind it.
abbrev behind_type : ℕ → ℕ → Text → Text
behind_type lsn c tail = decimal lsn ++ b':' ∷ (c ∷ (b':' ∷ tail))

behind_type-IsUnbroken :
    (lsn c : ℕ) (tail : Text) → c ≢ 10 → IsUnbroken tail → IsUnbroken (behind_type lsn c tail)
behind_type-IsUnbroken lsn c tail h u =
    All-append (λ d. d ≢ 10) (decimal lsn) (b':' ∷ (c ∷ (b':' ∷ tail))) (digits-IsUnbroken lsn)
      ((omega arith), (h, ((omega arith), u)))

behind_type-IsWellFormed :
    (lsn c : ℕ) (tail : Text)
    → c < 0xd800
    → IsWellFormed tail
    → IsWellFormed (behind_type lsn c tail)
behind_type-IsWellFormed lsn c tail h formed =
    stored-append (decimal lsn) (b':' ∷ (c ∷ (b':' ∷ tail))) (digits-plain lsn)
    ∙ ap (λ t. decimal lsn ++ t)
        (stored-append (b':' ∷ (c ∷ (b':' ∷ []))) tail ((omega arith), (h, ((omega arith), tt)))
          ∙ ap (λ t. b':' ∷ (c ∷ (b':' ∷ t))) formed)

-- An item behind its length.
sized-IsUnbroken :
    (item : Text) → IsUnbroken item → IsUnbroken (decimal (length item) ++ b':' ∷ item)
sized-IsUnbroken item u =
    All-append (λ d. d ≢ 10) (decimal (length item)) (b':' ∷ item) (digits-IsUnbroken (length item))
      ((omega arith), u)

sized-IsWellFormed :
    (item : Text) → IsWellFormed item → IsWellFormed (decimal (length item) ++ b':' ∷ item)
sized-IsWellFormed item formed =
    stored-append (decimal (length item)) (b':' ∷ item) (digits-plain (length item))
    ∙ ap (λ t. decimal (length item) ++ t)
        (stored-append (b':' ∷ []) item ((omega arith), tt) ∙ ap (λ t. b':' ∷ t) formed)

line_of-IsUnbroken : (e : CanonicalEvent) → IsWritable e → IsUnbroken (line_of e)
unfolding entry_line tombstone_line rotate_line
line_of-IsUnbroken (entry lsn g item) (pos, fits, short, u, formed) =
    behind_type-IsUnbroken lsn b'E' _ (omega arith) (sized-IsUnbroken item u)
line_of-IsUnbroken (tombstone lsn g item) (pos, fits, short, u, formed) =
    behind_type-IsUnbroken lsn b'T' _ (omega arith) (sized-IsUnbroken item u)
line_of-IsUnbroken (rotate lsn g) h =
    behind_type-IsUnbroken lsn b'R' _ (omega arith) (digits-IsUnbroken g)

nothing_stored : stored [] ≡ []
unfolding stored_behind
nothing_stored = refl

line_of-IsWellFormed : (e : CanonicalEvent) → IsWritable e → IsWellFormed (line_of e)
unfolding entry_line tombstone_line rotate_line
line_of-IsWellFormed (entry lsn g item) (pos, fits, short, u, formed) =
    behind_type-IsWellFormed lsn b'E' _ (omega arith) (sized-IsWellFormed item formed)
line_of-IsWellFormed (tombstone lsn g item) (pos, fits, short, u, formed) =
    behind_type-IsWellFormed lsn b'T' _ (omega arith) (sized-IsWellFormed item formed)
line_of-IsWellFormed (rotate lsn g) h = behind_type-IsWellFormed lsn b'R' _ (omega arith) (
    ap stored (sym (append-nil (decimal g)))
    ∙ stored-append (decimal g) [] (digits-plain g)
    ∙ ap (λ t. decimal g ++ t) nothing_stored
    ∙ append-nil (decimal g))

module _ (other : Text → Option ℕ) where
  parse_line-line_of :
      (g : ℕ) (e : CanonicalEvent)
      → IsWritable e
      → parse_line other g (line_of e) ≡ some (placed g e)
  parse_line-line_of g (entry lsn old item) (pos, fits, short, u, formed) =
      parse_line-entry_line other g lsn item pos fits short
  parse_line-line_of g (tombstone lsn old item) (pos, fits, short, u, formed) =
      parse_line-tombstone_line other g lsn item pos fits short
  parse_line-line_of g (rotate lsn n) (pos, fits, small) =
      parse_line-rotate_line other g lsn n pos fits small

  empty-line : (g : ℕ) (e : CanonicalEvent) → parse_line other g [] ≢ some e
  unfolding parse_line split_colon
  empty-line g e h = none-ne-some e h

  parse_lines-step :
      (g : ℕ) (l : Text) (ls : List Text) (e : CanonicalEvent)
      → parse_line other g l ≡ some e
      → parse_lines other g (l ∷ ls) ≡ e ∷ parse_lines other (generation_after g (some e)) ls
  unfolding parse_lines
  parse_lines-step g [] ls e h = absurd (empty-line g e h)
  parse_lines-step g (c ∷ l) ls e h = rw h refl

  split_on-line :
      (l rest : Text) → IsUnbroken l → split_on 10 ((l ++ 10 ∷ []) ++ rest) ≡ l ∷ split_on 10 rest
  unfolding split_on
  split_on-line [] rest h = refl
  split_on-line (c ∷ l) rest (other_char, h) =
      let differs : (c == 10) ≡ false = ground (arith, other_char) in
      rw (differs, split_on-line l rest h) refl

  after-placed :
      (g : ℕ) (e : CanonicalEvent)
      → generation_after g (some (placed g e)) ≡ generation_after g (some e)
  after-placed g (entry lsn old item) = refl
  after-placed g (tombstone lsn old item) = refl
  after-placed g (rotate lsn n) = refl

  lines-inherited :
      (g : ℕ) (es : List CanonicalEvent)
      → All IsWritable es
      → parse_lines other g (split_on 10 (content_of es)) ≡ inherited g es
  lines-inherited g [] h = unfold parse_lines split_on in refl
  lines-inherited g (e ∷ es) (writable, h) =
      rw
        (
          stored-snoc (line_of e) (line_of-IsWellFormed e writable),
          split_on-line (line_of e) (content_of es) (line_of-IsUnbroken e writable),
        )
        (parse_lines-step g (line_of e) (split_on 10 (content_of es)) (placed g e)
            (parse_line-line_of g e writable)
          ∙ ap (λ n. placed g e ∷ parse_lines other n (split_on 10 (content_of es)))
              (after-placed g e)
          ∙ ap (λ l. placed g e ∷ l) (lines-inherited (generation_after g (some e)) es h))

  -- A file that `appendEntry`, `appendTombstone` and `appendRotate` have written whole, in any order:
  -- `#parseFile` gives exactly the events that were written, in their order, each entry and tombstone
  -- in the generation of the last rotation before it. The LSNs are positive; the LSNs, the lengths of
  -- the items and the generations are safe integers; an item may hold any character, colons
  -- included, but a line feed or a surrogate without its partner.
  pub written_file_parses :
      (name : Text) (g : ℕ) (es : List CanonicalEvent)
      → All IsWritable es
      → parse_file other (record { generation = g; name = name; content = content_of es })
        ≡ inherited g es
  unfolding parse_file split_lines
  written_file_parses name g es h = lines-inherited g es h
