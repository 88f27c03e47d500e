-- ===== src/Core/Backup/Covers.antt =====
-- Filters of one shape (packages/core/src/bloomfilter.ts) ordered by their bits, and what the loop
-- that restores the temp file does to them.
use express_token_revoker.Prelude.{
  ℕ, ◌+◌, ◌*◌, ◌/◌, ◌^◌, ◌<◌, ◌≤◌, ◌≡◌, refl, ◌∙◌, Bool, true, false, ◌||◌, List, [], ◌∷◌, ◌++◌,
  arith, Bool-cases, inl, inr,
}
use express_token_revoker.Prelude.Text.{Text}
use express_token_revoker.Core.BloomFilter
use express_token_revoker.Core.BloomFilter.{
  BloomFilter, new_filter, from_buckets, get_bit, locations, test,
}
use express_token_revoker.Core.BloomFilter.Membership.{
  IsSound, add-IsSound, get_bit-add, new_filter-IsSound,
}
use express_token_revoker.Core.BloomFilter.Membership
use express_token_revoker.Core.BloomFilter.Tokens.{get_bit-replicate, all_bits_mono, or_right}
use express_token_revoker.Core.FilterManager.{is_blank}
use express_token_revoker.Core.Backup.Restore.{add_line, add_lines}

-- A sound filter of the given shape.
abbrev pub Fits : ℕ → ℕ → BloomFilter → Type 0
Fits m k f = IsSound f × (f.m ≡ m) × (f.k ≡ k)

-- Every bit of the one filter is set in the other.
abbrev pub Within : BloomFilter → BloomFilter → Type 0
Within f g = (j : ℕ) → get_bit j f.buckets ≡ true → get_bit j g.buckets ≡ true

pub test-Within :
    (m k : ℕ) (t : Text) (f g : BloomFilter)
    → Fits m k f
    → Fits m k g
    → Within f g
    → test t f ≡ true
    → test t g ≡ true
unfolding test
test-Within m k t f g (sf, mf, kf) (sg, mg, kg) within found =
    let at_f = rw (mf, kf) at found in
    rw (mg, kg) (all_bits_mono (locations m k t) f.buckets g.buckets within at_f)

pub add-Fits : (m k : ℕ) (t : Text) (f : BloomFilter) → Fits m k f → Fits m k (BloomFilter.add t f)
unfolding BloomFilter.add
add-Fits m k t f (s, e, h) = (add-IsSound t f s, e, h)

or_mono : (x y z : Bool) → (y ≡ true → z ≡ true) → (x || y) ≡ true → (x || z) ≡ true
or_mono true y z f h = refl
or_mono false y z f h = f h

pub add-Within :
    (m k : ℕ) (t : Text) (f g : BloomFilter)
    → Fits m k f
    → Fits m k g
    → Within f g
    → Within (BloomFilter.add t f) (BloomFilter.add t g)
add-Within m k t f g (sf, mf, kf) (sg, mg, kg) within j one =
    let at_f : (Membership.has j (locations m k t) || get_bit j f.buckets) ≡ true =
      rw (get_bit-add j t f sf, mf, kf) at one in
    rw (get_bit-add j t g sg, mg, kg)
      (or_mono (Membership.has j (locations m k t)) (get_bit j f.buckets) (get_bit j g.buckets)
        (within j) at_f)

pub add_grows : (t : Text) (f : BloomFilter) → IsSound f → Within f (BloomFilter.add t f)
add_grows t f s j one =
    rw (get_bit-add j t f s) (or_right (Membership.has j (locations f.m f.k t)) one)

pub new_filter-Fits :
    (bits k : ℕ) → 0 < bits → bits ≤ 2 ^ 31 → Fits ((bits + 31) / 32 * 32) k (new_filter bits k)
unfolding new_filter
new_filter-Fits bits k h fits = (new_filter-IsSound bits k h fits, refl, refl)

-- A new filter has no bit.
pub new_filter-Within : (bits k : ℕ) (g : BloomFilter) → Within (new_filter bits k) g
unfolding new_filter
new_filter-Within bits k g j one =
    let never = rw (get_bit-replicate ((bits + 31) / 32) j) at one in absurd (ground (arith, never))

add_line-Fits :
    (m k : ℕ) (t : Text) (g : BloomFilter)
    → Fits m k g
    → Fits m k (add_line t g) × Within g (add_line t g)
unfolding add_line
add_line-Fits m k t g (s, e, h) = elim (Bool-cases (is_blank t)) [
  | inl blank ↦ rw blank ((s, e, h), (λ j one. one))
  | inr text ↦ rw text (add-Fits m k t g (s, e, h), add_grows t g s)
]

pub add_lines-Fits :
    (m k : ℕ) (ts : List Text) (g : BloomFilter) → Fits m k g → Fits m k (add_lines ts g)
unfolding add_lines
add_lines-Fits m k [] g h = h
add_lines-Fits m k (t ∷ ts) g h = add_lines-Fits m k ts (add_line t g) ((add_line-Fits m k t g h).0)

-- The loop goes on where it was.
add_lines-append :
    (ts us : List Text) (g : BloomFilter) → add_lines (ts ++ us) g ≡ add_lines us (add_lines ts g)
unfolding add_lines
add_lines-append [] us g = refl
add_lines-append (t ∷ ts) us g = add_lines-append ts us (add_line t g)

pub add_lines-snoc :
    (ts : List Text) (t : Text) (g : BloomFilter)
    → is_blank t ≡ false
    → add_lines (ts ++ t ∷ []) g ≡ BloomFilter.add t (add_lines ts g)
add_lines-snoc ts t g text =
    add_lines-append ts (t ∷ []) g ∙ (unfold add_lines in unfold add_line in rw text refl)

-- The empty text behind the last line end is skipped.
pub add_lines-end :
    (ts : List Text) (g : BloomFilter) → add_lines (ts ++ [] ∷ []) g ≡ add_lines ts g
add_lines-end ts g =
    add_lines-append ts ([] ∷ []) g
    ∙ (unfold add_lines in unfold add_line in unfold is_blank in refl)

pub add_lines_grows :
    (m k : ℕ) (ts : List Text) (g : BloomFilter) → Fits m k g → Within g (add_lines ts g)
unfolding add_lines
add_lines_grows m k [] g h j one = one
add_lines_grows m k (t ∷ ts) g h j one =
    let (fits, grown) = add_line-Fits m k t g h in
    add_lines_grows m k ts (add_line t g) fits j (grown j one)
