-- ===== src/Server/CanonicalWal/Torn.antt =====
-- What packages/server/src/canonicalWal.ts makes of a line that a crash has cut short.
use express_token_revoker.Prelude.{
  ℕ, zero, suc, ◌/◌, ◌≤◌, ◌<◌, ◌≡◌, ◌≢◌, refl, Option, none, some, [], ◌∷◌, ◌++◌, arith, length,
  take, All, All-take, take-append_cases, length-append, length-take, drop_last, drop_last-snoc,
  inl, inr, ◌∙◌, ap, sym, ◌⊎◌, ◌+◌, All-append, All-weaken,
}
use mathlib.Core.List.{append_assoc}
use express_token_revoker.Prelude.Text.{
  Text, IsDigit, codes, decimal, number, max_safe, number-decimal, decimal-digits, decimal-snoc,
  number-digits,
}
use express_token_revoker.Prelude.Utf8.{replacement}
use express_token_revoker.Server.CanonicalWal.Line.{
  rotate, entry_line, tombstone_line, rotate_line, split_colon, parse_item, parse_typed, parse_line,
}
use express_token_revoker.Server.CanonicalWal.RoundTrip.{split_colon-digits, parse_line-numbered}

-- No colon is in a text.
abbrev IsUnsplit : Text → Type 0
IsUnsplit t = All (λ c. c ≢ b':') t

split_colon-unsplit : (t : Text) → IsUnsplit t → split_colon t ≡ none
unfolding split_colon
split_colon-unsplit [] h = refl
split_colon-unsplit (c ∷ t) (h, hs) = ground (arith, h, split_colon-unsplit t hs)

take_digits-IsUnsplit :
    (k : ℕ) (ds x : Text) → All IsDigit ds → IsUnsplit x → IsUnsplit (take k ds ++ x)
take_digits-IsUnsplit k ds x h u =
    All-append (λ c. c ≢ b':') (take k ds) x
      (All-weaken (take k ds) (λ c digit. omega (arith, digit)) (All-take IsDigit k ds h)) u

module _ (other : Text → Option ℕ) where
  parse_item-unsplit : (t : Text) → split_colon t ≡ none → parse_item other t ≡ none
  unfolding parse_item
  parse_item-unsplit t h = ground arith

  parse_item-short :
      (n : ℕ) (item : Text)
      → n ≤ max_safe
      → length item ≢ n
      → parse_item other (decimal n ++ b':' ∷ item) ≡ none
  unfolding parse_item
  parse_item-short n item fits short =
      ground (arith, split_colon-digits (decimal n) item (decimal-digits n), number-decimal other n)

  -- A length prefix with less than its item is no item, with `x` in place of what is missing.
  parse_item-torn :
      (k n : ℕ) (item x : Text)
      → n ≤ max_safe
      → length item ≡ n
      → IsUnsplit x
      → k + length x < length (decimal n ++ b':' ∷ item)
      → parse_item other (take k (decimal n ++ b':' ∷ item) ++ x) ≡ none
  parse_item-torn k n item x fits len u short = elim (take-append_cases k (decimal n) b':' item) [
    | inl (within, same) ↦ rw same (
        parse_item-unsplit _
          (split_colon-unsplit _ (take_digits-IsUnsplit k (decimal n) x (decimal-digits n) u)))
    | inr (j, reach, same) ↦
        rw (same, append_assoc (decimal n) (b':' ∷ take j item) x)
          (parse_item-short n (take j item ++ x) fits (
            omega (
              arith,
              reach,
              short,
              len,
              length-take j item,
              length-append (take j item) x,
              length-append (decimal n) (b':' ∷ item),
            )))
  ]

  parse_line-unsplit : (g : ℕ) (t : Text) → split_colon t ≡ none → parse_line other g t ≡ none
  unfolding parse_line
  parse_line-unsplit g t h = ground arith

  parse_line-untyped :
      (g : ℕ) (t ds rest : Text)
      → split_colon t ≡ some (ds, rest)
      → split_colon rest ≡ none
      → parse_line other g t ≡ none
  unfolding parse_line
  parse_line-untyped g t [] rest h k = ground arith
  parse_line-untyped g t (c ∷ ds) rest h k = ground arith

  parse_typed-no_item :
      (g lsn c : ℕ) (tail : Text)
      → c ≢ b'R'
      → parse_item other tail ≡ none
      → parse_typed other g lsn (c ∷ []) tail ≡ none
  unfolding parse_typed
  parse_typed-no_item g lsn c tail h k = ground arith

  -- A shortened line of an entry or a tombstone (type letter `c`) is never an event.
  parse_line-torn :
      (k g lsn c : ℕ) (item x : Text)
      → 0 < lsn
      → lsn ≤ max_safe
      → length item ≤ max_safe
      → c ≢ b':'
      → c ≢ b'R'
      → IsUnsplit x
      → k + length x
        < length (decimal lsn ++ b':' ∷ (c ∷ (b':' ∷ (decimal (length item) ++ b':' ∷ item))))
      → parse_line other g (
          take k (decimal lsn ++ b':' ∷ (c ∷ (b':' ∷ (decimal (length item) ++ b':' ∷ item)))) ++ x)
        ≡ none
  parse_line-torn k g lsn c item x pos fits len nc nr u short =
      let tail = decimal (length item) ++ b':' ∷ item in
      elim (take-append_cases k (decimal lsn) b':' (c ∷ (b':' ∷ tail))) [
        | inl (within, same) ↦ rw same (
            parse_line-unsplit g _ (
              split_colon-unsplit _
                (take_digits-IsUnsplit k (decimal lsn) x (decimal-digits lsn) u)))
        | inr (zero, reach, same) ↦
            rw (same, append_assoc (decimal lsn) (b':' ∷ []) x)
              (parse_line-untyped g _ (decimal lsn) x
                (split_colon-digits (decimal lsn) x (decimal-digits lsn)) (split_colon-unsplit x u))
        | inr (suc zero, reach, same) ↦
            rw (same, append_assoc (decimal lsn) (b':' ∷ (c ∷ [])) x)
              (parse_line-untyped g _ (decimal lsn) (c ∷ x)
                (split_colon-digits (decimal lsn) (c ∷ x) (decimal-digits lsn))
                (split_colon-unsplit (c ∷ x) (nc, u)))
        | inr (suc (suc j), reach, same) ↦
            rw (same, append_assoc (decimal lsn) (b':' ∷ (c ∷ (b':' ∷ take j tail))) x)
              (parse_line-numbered other g lsn c (take j tail ++ x) pos fits nc
                ∙ parse_typed-no_item g lsn c (take j tail ++ x) nr (
                    parse_item-torn j (length item) item x len refl u (
                      omega (
                        arith,
                        reach,
                        short,
                        length-append (decimal lsn) (b':' ∷ (c ∷ (b':' ∷ tail))),
                      ))))
      ]

  parse_typed-rotation :
      (g lsn n : ℕ) (tail : Text)
      → number other tail ≡ some n
      → parse_typed other g lsn (codes "R") tail ≡ some (rotate lsn n)
  unfolding parse_typed
  parse_typed-rotation g lsn n tail h = ground arith

  -- An entry's line, or a tombstone's, of which a crash has left a part of the bytes. What is read
  -- is the first `k` characters and, if the cut goes through the bytes of a character, the
  -- replacement character. If that is fewer characters than the line has, no event is parsed.
  pub torn_entry_rejected :
      (k g lsn : ℕ) (item x : Text)
      → 0 < lsn
      → lsn ≤ max_safe
      → length item ≤ max_safe
      → (x ≡ []) ⊎ (x ≡ replacement ∷ [])
      → k + length x < length (entry_line lsn item)
      → (parse_line other g (take k (entry_line lsn item) ++ x) ≡ none)
        × (parse_line other g (take k (tombstone_line lsn item) ++ x) ≡ none)
  unfolding entry_line tombstone_line
  torn_entry_rejected k g lsn item x pos fits len cut short =
      let u : IsUnsplit x = elim cut [
        | inl whole ↦ rw whole tt
        | inr split ↦ rw split ((omega arith), tt)
      ] in
      (
        parse_line-torn k g lsn b'E' item x pos fits len (omega arith) (omega arith) u short,
        parse_line-torn k g lsn b'T' item x pos fits len (omega arith) (omega arith) u
            (rw length-append (rw length-append at short)),
      )

  -- A torn write of a rotation marker is not: without its last character the line of the marker
  -- for `generation` is a well-formed marker for `generation / 10`.
  pub torn_rotation_accepted :
      (g lsn generation : ℕ)
      → 0 < lsn
      → lsn ≤ max_safe
      → generation ≤ max_safe
      → parse_line other g (drop_last (rotate_line lsn generation))
        ≡ some (rotate lsn (generation / 10))
  unfolding rotate_line
  torn_rotation_accepted g lsn generation pos fits short =
      let (front, d, e, digits, value) = decimal-snoc generation in
      let line : drop_last (decimal lsn ++ b':' ∷ (b'R' ∷ (b':' ∷ decimal generation)))
          ≡ decimal lsn ++ b':' ∷ (b'R' ∷ (b':' ∷ front)) =
        ap (λ t. drop_last (decimal lsn ++ b':' ∷ (b'R' ∷ (b':' ∷ t)))) e
        ∙ ap drop_last (sym (append_assoc (decimal lsn) (b':' ∷ (b'R' ∷ (b':' ∷ front))) (d ∷ [])))
        ∙ drop_last-snoc (decimal lsn ++ b':' ∷ (b'R' ∷ (b':' ∷ front))) d in
      rw line (
        parse_line-numbered other g lsn b'R' front pos fits (omega arith)
        ∙ parse_typed-rotation g lsn (generation / 10) front
            (number-digits other front digits (omega arith) ∙ ap some value))
