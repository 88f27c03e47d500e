-- ===== src/Core/Backup/Lines.antt =====
-- The temp file of packages/core/src/BloomFilterBackupManager.ts is read as the tokens that were
-- written, and a blob as the buckets.
use express_token_revoker.Prelude.{
  ℕ, zero, suc, ◌+◌, ◌*◌, ◌≡◌, refl, sym, ap, ◌∙◌, false, List, [], ◌∷◌, ◌++◌, arith, All, length,
  take, drop, take-append-drop, ◌==◌,
}
use express_token_revoker.Prelude.Text.{Text, split_on}
use express_token_revoker.Core.BloomFilter.{Bucket}
use express_token_revoker.Core.FilterManager.{is_blank, has_breaks}
use express_token_revoker.Core.Backup.{bytes_of, buckets_of, token_line, lines_of}

-- What passes the checks of `add`.
abbrev pub IsPlain : Text → Type 0
IsPlain t = (is_blank t ≡ false) × (has_breaks t ≡ false)

append_nil : (xs : Text) → xs ++ [] ≡ xs
append_nil [] = refl
append_nil (x ∷ xs) = ap (λ l. x ∷ l) (append_nil xs)

append_assoc {ℓ} : {A : Type ℓ} (xs ys zs : List A) → (xs ++ ys) ++ zs ≡ xs ++ (ys ++ zs)
append_assoc [] ys zs = refl
append_assoc (x ∷ xs) ys zs = ap (λ l. x ∷ l) (append_assoc xs ys zs)

split_on-token_line :
    (t rest : Text)
    → has_breaks t ≡ false
    → split_on 10 (token_line t ++ rest) ≡ t ∷ split_on 10 rest
unfolding split_on has_breaks
split_on-token_line [] rest h = refl
split_on-token_line (c ∷ t) rest h =
    let other : (c == 10) ≡ false = ground (arith, h) in
    let later : has_breaks t ≡ false = unfold has_breaks in ground (arith, h) in
    rw (other, split_on-token_line t rest later) refl

pub split_on-lines_of :
    (ts : List Text) → All IsPlain ts → split_on 10 (lines_of ts) ≡ ts ++ [] ∷ []
split_on-lines_of [] h = unfold split_on in refl
split_on-lines_of (t ∷ ts) ((text, unbroken), h) =
    split_on-token_line t (lines_of ts) unbroken ∙ ap (λ l. t ∷ l) (split_on-lines_of ts h)

pub lines_of-snoc :
    (ts : List Text) (t : Text) → lines_of (ts ++ t ∷ []) ≡ lines_of ts ++ token_line t
lines_of-snoc [] t = append_nil (token_line t)
lines_of-snoc (u ∷ ts) t =
    ap (λ l. token_line u ++ l) (lines_of-snoc ts t)
    ∙ sym (append_assoc (token_line u) (lines_of ts) (token_line t))

drop-drop : (n k : ℕ) (b : Bucket) → drop n (drop k b) ≡ drop (k + n) b
drop-drop n zero b = rw (add_zero n) refl
  where
    add_zero : (n : ℕ) → (0 + n) ≡ n
    add_zero n = omega arith
drop-drop zero (suc k) [] = rw (add_nil k) refl
  where
    add_nil : (k : ℕ) → (suc k + 0) ≡ suc k
    add_nil k = omega arith
drop-drop (suc n) (suc k) [] = rw (add_suc n k) refl
  where
    add_suc : (n k : ℕ) → (suc k + suc n) ≡ suc (suc (k + n))
    add_suc n k = omega arith
drop-drop n (suc k) (x ∷ b) = rw (add_suc n k) (drop-drop n k b)
  where
    add_suc : (n k : ℕ) → (suc k + n) ≡ suc (k + n)
    add_suc n k = omega arith

bucket_parts :
    (b : Bucket) → take 8 b ++ (take 8 (drop 8 b) ++ (take 8 (drop 16 b) ++ drop 24 b)) ≡ b
bucket_parts b =
    rw
      (
        sym (drop-drop 8 16 b),
        take-append-drop 8 (drop 16 b),
        sym (drop-drop 8 8 b),
        take-append-drop 8 (drop 8 b),
        take-append-drop 8 b,
      )
      refl

pub buckets_of-bytes_of : (bs : List Bucket) → buckets_of (bytes_of bs) ≡ bs
unfolding buckets_of bytes_of
buckets_of-bytes_of [] = refl
buckets_of-bytes_of (b ∷ bs) =
    ap (λ c. c ∷ buckets_of (bytes_of bs)) (bucket_parts b)
    ∙ ap (λ cs. b ∷ cs) (buckets_of-bytes_of bs)

pub length-bytes_of : (bs : List Bucket) → length (bytes_of bs) ≡ 4 * length bs
unfolding bytes_of
length-bytes_of [] = refl
length-bytes_of (b ∷ bs) = omega (arith, length-bytes_of bs)
