-- ===== src/Core/BloomFilter/Union.antt =====
-- `union` and `intersection` of packages/core/src/bloomfilter.ts.
use express_token_revoker.Prelude.{
  ℕ, zero, suc, ◌*◌, ◌/◌, ◌%◌, ◌≡◌, refl, sym, ap, ◌∙◌, Bool, false, ◌&&◌, ◌||◌, some, List, [],
  ◌∷◌, arith, length, get_or, take, ltb, Bool-cases, inl, inr, true, ◌<◌, ◌^◌, ◌==◌,
}
use express_token_revoker.Core.BloomFilter.{
  Bucket, BloomFilter, get_bit, zip_bits, zip_buckets, from_buckets, merge, union, intersection,
}
use express_token_revoker.Core.BloomFilter.Membership.{IsSound, AreBuckets}

take-all {ℓ} : {A : Type ℓ} (xs : List A) → take (length xs) xs ≡ xs
take-all [] = refl
take-all (x ∷ xs) = rw (take-all xs) refl

module _ (op : Bool → Bool → Bool) (clear : op false false ≡ false) where
  get_or-zip_bits :
      (xs ys : Bucket) (r : ℕ)
      → length xs ≡ length ys
      → get_or (zip_bits op xs ys) r false ≡ op (get_or xs r false) (get_or ys r false)
  unfolding zip_bits
  get_or-zip_bits [] [] r h = sym clear
  get_or-zip_bits [] (y ∷ ys) r h = absurd (omega (arith, h))
  get_or-zip_bits (x ∷ xs) [] r h = absurd (omega (arith, h))
  get_or-zip_bits (x ∷ xs) (y ∷ ys) zero h = refl
  get_or-zip_bits (x ∷ xs) (y ∷ ys) (suc r) h = get_or-zip_bits xs ys r (omega (arith, h))

  length-zip_bits :
      (xs ys : Bucket) → length xs ≡ length ys → length (zip_bits op xs ys) ≡ length xs
  unfolding zip_bits
  length-zip_bits [] ys h = refl
  length-zip_bits (x ∷ xs) [] h = absurd (omega (arith, h))
  length-zip_bits (x ∷ xs) (y ∷ ys) h = ap suc (length-zip_bits xs ys (omega (arith, h)))

  zip_buckets-bits :
      (bs cs : List Bucket) (q r : ℕ)
      → AreBuckets bs
      → AreBuckets cs
      → length bs ≡ length cs
      → get_or (get_or (zip_buckets op bs cs) q []) r false
        ≡ op (get_or (get_or bs q []) r false) (get_or (get_or cs q []) r false)
  unfolding zip_buckets
  zip_buckets-bits [] [] q r s t h = sym clear
  zip_buckets-bits [] (c ∷ cs) q r s t h = absurd (omega (arith, h))
  zip_buckets-bits (b ∷ bs) [] q r s t h = absurd (omega (arith, h))
  zip_buckets-bits (b ∷ bs) (c ∷ cs) zero r (d, s) (e, t) h = get_or-zip_bits b c r (d ∙ sym e)
  zip_buckets-bits (b ∷ bs) (c ∷ cs) (suc q) r (d, s) (e, t) h =
      zip_buckets-bits bs cs q r s t (omega (arith, h))

  zip_buckets-AreBuckets :
      (bs cs : List Bucket)
      → AreBuckets bs
      → AreBuckets cs
      → length bs ≡ length cs
      → AreBuckets (zip_buckets op bs cs) × (length (zip_buckets op bs cs) ≡ length bs)
  unfolding zip_buckets
  zip_buckets-AreBuckets [] cs s t h = (tt, refl)
  zip_buckets-AreBuckets (b ∷ bs) [] s t h = absurd (omega (arith, h))
  zip_buckets-AreBuckets (b ∷ bs) (c ∷ cs) (d, s) (e, t) h =
      let (u, l) = zip_buckets-AreBuckets bs cs s t (omega (arith, h)) in
      ((length-zip_bits b c (d ∙ sym e) ∙ d, u), ap suc l)

  zip_buckets-get_bit :
      (bs cs : List Bucket) (j : ℕ)
      → AreBuckets bs
      → AreBuckets cs
      → length bs ≡ length cs
      → get_bit j (zip_buckets op bs cs) ≡ op (get_bit j bs) (get_bit j cs)
  zip_buckets-get_bit bs cs j s t h = elim (Bool-cases (ltb j (2 ^ 31))) [
    | inl near ↦ rw near (zip_buckets-bits bs cs (j / 32) (j % 32) s t h)
    | inr far ↦ rw far (sym clear)
  ]

  merged :
      (a b : BloomFilter) (bs : List Bucket)
      → a.m ≡ b.m
      → a.k ≡ b.k
      → a.m < 2 ^ 31
      → take (a.m % 2 ^ 32 / 32) (zip_buckets op a.buckets b.buckets) ≡ bs
      → merge op a b ≡ some (from_buckets bs a.k)
  unfolding merge
  merged a b bs same_m same_k near whole =
      let same : ((a.m == b.m) && (a.k == b.k)) ≡ true = ground (arith, same_m, same_k) in
      let plus : ltb (a.m % 2 ^ 32) (2 ^ 31) ≡ true = ground (arith, near) in
      simp (same, plus) (ap (λ cs. some (from_buckets cs a.k)) whole)

  -- The merged filter has the shape of both, is sound, and has the merged bits.
  merge-bits :
      (a b : BloomFilter)
      → IsSound a
      → IsSound b
      → a.m < 2 ^ 31
      → a.m ≡ b.m
      → a.k ≡ b.k
      → (c : BloomFilter) × (merge op a b ≡ some c)
        × (c.m ≡ a.m)
        × (c.k ≡ a.k)
        × IsSound c
        × ((j : ℕ) → get_bit j c.buckets ≡ op (get_bit j a.buckets) (get_bit j b.buckets))
  unfolding merge from_buckets
  merge-bits a b (s, e, h, fits) (t, d, _, _) near same_m same_k =
      let as_long : length a.buckets ≡ length b.buckets = omega (arith, e, d, same_m) in
      let bs = zip_buckets op a.buckets b.buckets in
      let (u, l) = zip_buckets-AreBuckets a.buckets b.buckets s t as_long in
      let size : length bs * 32 ≡ a.m = omega (arith, e, l) in
      let all : a.m % 2 ^ 32 / 32 ≡ length bs = omega (arith, size, near) in
      (
        from_buckets bs a.k,
        merged a b bs same_m same_k near (ap (λ n. take n bs) all ∙ take-all bs),
        size,
        refl,
        (u, refl, omega (arith, size, h), omega (arith, size, fits)),
        (λ j. zip_buckets-get_bit a.buckets b.buckets j s t as_long),
      )

-- Two sound filters of one shape, of fewer than 2 ^ 31 bits: `union` and `intersection` both return a sound filter of that
-- shape, whose bits are the bits set in either, respectively in both.
pub union-intersection :
    (a b : BloomFilter)
    → IsSound a
    → IsSound b
    → a.m < 2 ^ 31
    → a.m ≡ b.m
    → a.k ≡ b.k
    → ((c : BloomFilter) × (union a b ≡ some c)
        × (c.m ≡ a.m)
        × (c.k ≡ a.k)
        × IsSound c
        × ((j : ℕ) → get_bit j c.buckets ≡ (get_bit j a.buckets || get_bit j b.buckets)))
      × ((c : BloomFilter) × (intersection a b ≡ some c)
          × (c.m ≡ a.m)
          × (c.k ≡ a.k)
          × IsSound c
          × ((j : ℕ) → get_bit j c.buckets ≡ (get_bit j a.buckets && get_bit j b.buckets)))
unfolding union intersection
union-intersection a b s t near same_m same_k = (
  merge-bits ◌||◌ refl a b s t near same_m same_k,
  merge-bits ◌&&◌ refl a b s t near same_m same_k,
)
