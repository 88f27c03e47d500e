-- ===== src/Server/CanonicalWal/RoundTrip.antt =====
-- The lines that packages/server/src/canonicalWal.ts writes are read back as they were meant.
use express_token_revoker.Prelude.{
  ℕ, zero, suc, ◌≤◌, ◌<◌, ◌≡◌, ◌≢◌, refl, Option, none, some, [], ◌∷◌, ◌++◌, arith, length, All,
}
use express_token_revoker.Prelude.Text.{
  Text, IsDigit, decimal, number, max_safe, number-decimal, decimal-digits, decimal-ne-nil,
}
use express_token_revoker.Server.CanonicalWal.Line.{
  entry, rotate, tombstone, entry_line, tombstone_line, rotate_line, split_colon, parse_item,
  parse_typed, parse_line,
}

pub split_colon-digits :
    (ds t : Text) → All IsDigit ds → split_colon (ds ++ b':' ∷ t) ≡ some (ds, t)
unfolding split_colon
split_colon-digits [] t h = refl
split_colon-digits (c ∷ ds) t (h, hs) = ground (arith, split_colon-digits ds t hs)

pub split_colon-digits_only : (ds : Text) → All IsDigit ds → split_colon ds ≡ none
unfolding split_colon
split_colon-digits_only [] h = refl
split_colon-digits_only (c ∷ ds) (h, hs) = ground (arith, split_colon-digits_only ds hs)

module _ (other : Text → Option ℕ) where
  -- A line that is split at two colons, behind a positive number.
  pub parse_line-split :
      (generation n : ℕ) (line ds rest type tail : Text)
      → ds ≢ []
      → split_colon line ≡ some (ds, rest)
      → split_colon rest ≡ some (type, tail)
      → number other ds ≡ some (suc n)
      → parse_line other generation line ≡ parse_typed other generation (suc n) type tail
  unfolding parse_line
  parse_line-split generation n line [] rest type tail h e₁ e₂ e₃ = absurd (h refl)
  parse_line-split generation n line (c ∷ ds) rest type tail h e₁ e₂ e₃ = ground arith

  pub parse_item-printed :
      (item : Text)
      → length item ≤ max_safe
      → parse_item other (decimal (length item) ++ (b':' ∷ item)) ≡ some item
  unfolding parse_item
  parse_item-printed item h = ground (
    arith,
    split_colon-digits (decimal (length item)) item (decimal-digits (length item)),
    number-decimal other (length item),
  )

  split_type : (c : ℕ) (t : Text) → c ≢ b':' → split_colon (c ∷ (b':' ∷ t)) ≡ some (c ∷ [], t)
  unfolding split_colon
  split_type c t h = ground arith

  -- What is behind the LSN and the type is parsed for that type.
  pub parse_line-numbered :
      (generation lsn c : ℕ) (tail : Text)
      → 0 < lsn
      → lsn ≤ max_safe
      → c ≢ b':'
      → parse_line other generation (decimal lsn ++ b':' ∷ (c ∷ (b':' ∷ tail)))
        ≡ parse_typed other generation lsn (c ∷ []) tail
  parse_line-numbered generation zero c tail pos fits h = absurd (omega arith)
  parse_line-numbered generation (suc n) c tail pos fits h =
      parse_line-split generation n _ (decimal (suc n)) _ (c ∷ []) tail (decimal-ne-nil (suc n))
        (split_colon-digits (decimal (suc n)) _ (decimal-digits (suc n))) (split_type c tail h)
        (number-decimal other (suc n) fits)

  pub parse_line-entry_line :
      (generation lsn : ℕ) (item : Text)
      → 0 < lsn
      → lsn ≤ max_safe
      → length item ≤ max_safe
      → parse_line other generation (entry_line lsn item) ≡ some (entry lsn generation item)
  unfolding entry_line
  parse_line-entry_line generation lsn item pos fits short =
      rw (parse_line-numbered generation lsn b'E' _ pos fits (omega arith))
        (unfold parse_typed in rw (parse_item-printed item short))

  pub parse_line-tombstone_line :
      (generation lsn : ℕ) (item : Text)
      → 0 < lsn
      → lsn ≤ max_safe
      → length item ≤ max_safe
      → parse_line other generation (tombstone_line lsn item) ≡ some (tombstone lsn generation item)
  unfolding tombstone_line
  parse_line-tombstone_line generation lsn item pos fits short =
      rw (parse_line-numbered generation lsn b'T' _ pos fits (omega arith))
        (unfold parse_typed in rw (parse_item-printed item short))

  pub parse_line-rotate_line :
      (generation lsn g : ℕ)
      → 0 < lsn
      → lsn ≤ max_safe
      → g ≤ max_safe
      → parse_line other generation (rotate_line lsn g) ≡ some (rotate lsn g)
  unfolding rotate_line
  parse_line-rotate_line generation lsn g pos fits short =
      rw (parse_line-numbered generation lsn b'R' _ pos fits (omega arith))
        (unfold parse_typed in rw (number-decimal other g short))
