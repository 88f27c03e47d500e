-- ===== src/Core/BloomFilter/Hash.antt =====
-- The range of `locations` of packages/core/src/bloomfilter.ts.
use express_token_revoker.Prelude.{
  ℕ, zero, suc, ◌+◌, ◌*◌, ◌%◌, ◌^◌, ◌<◌, ◌≤◌, ◌≡◌, arith, All, ltb, leb, Bool-cases, inl, inr,
}
use express_token_revoker.Prelude.Text.{Text}
use express_token_revoker.Core.BloomFilter.{
  absorb_all, fnv_basis, within, location_bits, next_locations, locations,
}
use native.Mathlib.Nat.{mod-lt}

-- An element of `_locations` is wide enough for every location.
pub location_bits_fit : (m i : ℕ) → m ≤ 2 ^ 32 → i < m → i % 2 ^ location_bits m ≡ i
unfolding location_bits
location_bits_fit m i fits below = elim (Bool-cases (leb m 256)) [
  | inl small ↦ let bound : m ≤ 256 = ground (arith, small) in rw small (omega arith)
  | inr large ↦ rw large (elim (Bool-cases (leb m 65536)) [
    | inl middle ↦ let bound : m ≤ 65536 = ground (arith, middle) in rw middle (omega arith)
    | inr huge ↦ rw huge (omega arith)
  ])
]

within_bound : (m high low : ℕ) → 0 < m → within m high low < m
unfolding within
within_bound m high low h = elim (Bool-cases (ltb (high * 65536 + low) (2 ^ 31))) [
  | inl plus ↦ rw plus (mod-lt _ h)
  | inr minus ↦ rw minus (mod-lt _ h)
]

next_locations_bound :
    (m count i a b : ℕ) → 0 < m → m ≤ 2 ^ 32 → All (λ l. l < m) (next_locations m count i a b)
unfolding next_locations
next_locations_bound m zero i a b h fits = tt
next_locations_bound m (suc count) i a b h fits =
    let below = mod-lt (a + b) h in
    (
      rw (location_bits_fit m ((a + b) % m) fits below) below,
      next_locations_bound m count (i + 1) ((a + b) % m) ((b + i) % m) h fits,
    )

-- Every location is one of the filter's bits.
pub locations_bound : (m k : ℕ) (v : Text) → 0 < m → m ≤ 2 ^ 32 → All (λ l. l < m) (locations m k v)
unfolding locations
locations_bound m zero v h fits = tt
locations_bound m (suc count) v h fits =
    let limbs = absorb_all fnv_basis v in
    let a = within m limbs.v3 limbs.v2 in
    let below = within_bound m limbs.v3 limbs.v2 h in
    (
      rw (location_bits_fit m a fits below) below,
      next_locations_bound m count 1 a (within m limbs.v1 limbs.v0) h fits,
    )
