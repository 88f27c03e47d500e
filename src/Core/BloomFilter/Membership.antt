-- ===== src/Core/BloomFilter/Membership.antt =====
-- `add` and `test` of packages/core/src/bloomfilter.ts.
use express_token_revoker.Prelude.{
  ℕ, zero, suc, ◌+◌, ◌*◌, ◌/◌, ◌%◌, ◌^◌, ◌<◌, ◌≤◌, ◌≡◌, ◌≢◌, refl, ap, ◌∙◌, Bool, true, false, ◌||◌,
  List, [], ◌∷◌, arith, All, All-weaken, length, length-set, set, get_or, replicate, ◌==◌,
  Bool-cases, inl, inr, branch, ltb,
}
use express_token_revoker.Prelude.Text.{Text}
use express_token_revoker.Core.BloomFilter.{
  Bucket, BloomFilter, set_bit, get_bit, set_bits, new_filter, add, locations,
}
use express_token_revoker.Core.BloomFilter.Hash.{locations_bound}

get_or-set_self {ℓ} :
    {A : Type ℓ} (xs : List A) (i : ℕ) (v d : A) → i < length xs → get_or (set xs i v) i d ≡ v
get_or-set_self [] i v d h = elim h [ ]
get_or-set_self (x ∷ xs) zero v d h = refl
get_or-set_self (x ∷ xs) (suc i) v d h = get_or-set_self xs i v d (omega arith)

get_or-set_ne {ℓ} :
    {A : Type ℓ} (xs : List A) (i j : ℕ) (v d : A) → i ≢ j → get_or (set xs i v) j d ≡ get_or xs j d
get_or-set_ne [] i j v d h = refl
get_or-set_ne (x ∷ xs) zero zero v d h = absurd (h refl)
get_or-set_ne (x ∷ xs) zero (suc j) v d h = refl
get_or-set_ne (x ∷ xs) (suc i) zero v d h = refl
get_or-set_ne (x ∷ xs) (suc i) (suc j) v d h = get_or-set_ne xs i j v d (λ e. h (ap suc e))

abbrev pub AreBuckets : List Bucket → Type 0
AreBuckets bs = All (λ b. length b ≡ 32) bs

length-get_or :
    (bs : List Bucket) (q : ℕ) → AreBuckets bs → q < length bs → length (get_or bs q []) ≡ 32
length-get_or [] q s h = elim h [ ]
length-get_or (b ∷ bs) zero (e, s) h = e
length-get_or (b ∷ bs) (suc q) (e, s) h = length-get_or bs q s (omega arith)

set-AreBuckets :
    (bs : List Bucket) (q : ℕ) (b : Bucket)
    → (q < length bs → length b ≡ 32)
    → AreBuckets bs
    → AreBuckets (set bs q b)
set-AreBuckets [] q b e s = tt
set-AreBuckets (c ∷ bs) zero b e (d, s) = (e (omega arith), s)
set-AreBuckets (c ∷ bs) (suc q) b e (d, s) = (d, set-AreBuckets bs q b (λ h. e (omega arith)) s)

set_bit-AreBuckets : (i : ℕ) (bs : List Bucket) → AreBuckets bs → AreBuckets (set_bit i bs)
set_bit-AreBuckets i bs s =
    branch AreBuckets (ltb i (2 ^ 31)) _ _
      (set-AreBuckets bs (i / 32) _
        (λ h. length-set (get_or bs (i / 32) []) (i % 32) true ∙ length-get_or bs (i / 32) s h) s)
      s

length-set_bit : (i : ℕ) (bs : List Bucket) → length (set_bit i bs) ≡ length bs
length-set_bit i bs =
    branch (λ cs. length cs ≡ length bs) (ltb i (2 ^ 31)) _ _
      (length-set bs (i / 32) (set (get_or bs (i / 32) []) (i % 32) true)) refl

abbrev pub has : ℕ → List ℕ → Bool
has j [] = false
has j (i ∷ is) = (i == j) || has j is

-- Within the range of the shift.
get-set_at :
    (i j : ℕ) (bs : List Bucket)
    → AreBuckets bs
    → i < length bs * 32
    → get_or
        (get_or (set bs (i / 32) (set (get_or bs (i / 32) []) (i % 32) true)) (j / 32) [])
        (j % 32)
        false
      ≡ ((i == j) || get_or (get_or bs (j / 32) []) (j % 32) false)
get-set_at i j bs s h = elim (Bool-cases ((i / 32) == (j / 32))) [
  | inr apart ↦
      let differ : (i / 32) ≢ (j / 32) = ground (arith, apart) in
      let other : (i == j) ≡ false = ground (arith, apart) in
      rw (get_or-set_ne bs (i / 32) (j / 32) (set (get_or bs (i / 32) []) (i % 32) true) [] differ)
        (rw other refl)
  | inl bucket ↦
      let same : (i / 32) ≡ (j / 32) = ground (arith, bucket) in
      let inside : (j / 32) < length bs = omega arith in
      let wide = length-get_or bs (j / 32) s inside in
      rw same (
        rw (get_or-set_self bs (j / 32) (set (get_or bs (j / 32) []) (i % 32) true) [] inside)
          (elim (Bool-cases ((i % 32) == (j % 32))) [
            | inl bit ↦
                let equal : (i == j) ≡ true = ground (arith, bit, same) in
                let rest : (i % 32) ≡ (j % 32) = ground (arith, bit) in
                rw (equal, rest)
                  (get_or-set_self (get_or bs (j / 32) []) (j % 32) true false (omega arith))
            | inr bits ↦
                let other : (i == j) ≡ false = ground (arith, bits) in
                let differ : (i % 32) ≢ (j % 32) = ground (arith, bits) in
                rw other (get_or-set_ne (get_or bs (j / 32) []) (i % 32) (j % 32) true false differ)
          ]))
]

get-set_bit :
    (i j : ℕ) (bs : List Bucket)
    → AreBuckets bs
    → i < length bs * 32
    → length bs * 32 ≤ 2 ^ 31
    → get_bit j (set_bit i bs) ≡ ((i == j) || get_bit j bs)
get-set_bit i j bs s h fits =
    let low : ltb i (2 ^ 31) ≡ true = ground (arith, h, fits) in
    rw low (elim (Bool-cases (ltb j (2 ^ 31))) [
      | inl near ↦ rw near (get-set_at i j bs s h)
      | inr far ↦ let other : (i == j) ≡ false = ground (arith, low, far) in rw (far, other) refl
    ])

or_shuffle : (x y z : Bool) → (x || (y || z)) ≡ ((y || x) || z)
or_shuffle true true z = refl
or_shuffle true false z = refl
or_shuffle false true z = refl
or_shuffle false false z = refl

get-set_bits :
    (j : ℕ) (is : List ℕ) (bs : List Bucket)
    → AreBuckets bs
    → length bs * 32 ≤ 2 ^ 31
    → All (λ i. i < length bs * 32) is
    → get_bit j (set_bits is bs) ≡ (has j is || get_bit j bs)
unfolding set_bits
get-set_bits j [] bs s fits h = refl
get-set_bits j (i ∷ is) bs s fits (below, h) =
    let as_long = length-set_bit i bs in
    get-set_bits j is (set_bit i bs) (set_bit-AreBuckets i bs s) (omega (arith, as_long, fits))
      (All-weaken is (λ x b. omega (arith, as_long, b)) h)
    ∙ ap (λ b. has j is || b) (get-set_bit i j bs s below fits)
    ∙ or_shuffle (has j is) (i == j) (get_bit j bs)

set_bits-AreBuckets :
    (is : List ℕ) (bs : List Bucket)
    → AreBuckets bs
    → AreBuckets (set_bits is bs) × (length (set_bits is bs) ≡ length bs)
unfolding set_bits
set_bits-AreBuckets [] bs s = (s, refl)
set_bits-AreBuckets (i ∷ is) bs s =
    let (t, e) = set_bits-AreBuckets is (set_bit i bs) (set_bit-AreBuckets i bs s) in
    (t, e ∙ length-set_bit i bs)

-- A filter whose buckets hold its `m` bits, which are addressable.
abbrev pub IsSound : BloomFilter → Type 0
IsSound f = AreBuckets f.buckets × (length f.buckets * 32 ≡ f.m) × (0 < f.m) × (f.m ≤ 2 ^ 31)

pub add-IsSound : (v : Text) (f : BloomFilter) → IsSound f → IsSound (add v f)
unfolding add
add-IsSound v f (s, e, h, fits) =
    let (t, as_long) = set_bits-AreBuckets (locations f.m f.k v) f.buckets s in
    (t, ap (λ n. n * 32) as_long ∙ e, h, fits)

replicate-AreBuckets :
    (n : ℕ)
    → AreBuckets (replicate n (replicate 32 false))
      × (length (replicate n (replicate 32 false)) ≡ n)
replicate-AreBuckets zero = (tt, refl)
replicate-AreBuckets (suc n) = let (s, e) = replicate-AreBuckets n in ((refl, s), ap suc e)

pub new_filter-IsSound : (m k : ℕ) → 0 < m → m ≤ 2 ^ 31 → IsSound (new_filter m k)
unfolding new_filter
new_filter-IsSound m k h fits =
    let (s, e) = replicate-AreBuckets ((m + 31) / 32) in
    (s, ap (λ n. n * 32) e, omega arith, omega arith)

-- The bits of a filter after `add` are those that it had and the locations of the token.
pub get_bit-add :
    (j : ℕ) (v : Text) (f : BloomFilter)
    → IsSound f
    → get_bit j (add v f).buckets ≡ (has j (locations f.m f.k v) || get_bit j f.buckets)
unfolding add
get_bit-add j v f (s, e, h, fits) =
    get-set_bits j (locations f.m f.k v) f.buckets s (omega (arith, e, fits)) (
      All-weaken (locations f.m f.k v) (λ x b. rw e b)
        (locations_bound f.m f.k v h (omega (arith, fits))))
