-- ===== src/Core/BloomFilter.antt =====
-- The class `BloomFilter` of packages/core/src/bloomfilter.ts. A bucket is a 32-bit element of the
-- `Int32Array`, as its bits, the lowest first.
pub mod Hash
pub mod Membership
pub mod Tokens
pub mod Union
use express_token_revoker.Prelude.{
  ℕ, zero, suc, ◌+◌, ◌-◌, ◌*◌, ◌/◌, ◌%◌, ◌^◌, Bool, true, false, not, ◌&&◌, ◌||◌, ◌≡◌, refl, Option,
  none, some, List, [], ◌∷◌, leb, ltb, ◌==◌, if◌then◌else◌, set, get_or, replicate, length, take,
}
use express_token_revoker.Prelude.Text.{Text, codes}
use Prim.Native.Nat.{bit_xor}

abbrev pub Bucket : Type 0
Bucket = List Bool

pub record BloomFilter : Type 0 where
  pub m : ℕ
  pub k : ℕ
  pub buckets : List Bucket

-- The four 16-bit limbs of the FNV-1a hash, `v0` the lowest.
pub record Limbs : Type 0 where
  pub v0 : ℕ
  pub v1 : ℕ
  pub v2 : ℕ
  pub v3 : ℕ

abbrev pub fnv_basis : Limbs
fnv_basis = record { v0 = 0x2325; v1 = 0x8422; v2 = 0x9ce4; v3 = 0xcbf2 }

-- One round of the hash loop: the sums stay below 2 ^ 32, so no step of it wraps.
unfoldable pub absorb : Limbs → ℕ → Limbs
absorb h c =
    let x = bit_xor h.v0 c in
    let t0 = x * 0x01b3 in
    let t1 = h.v1 * 0x01b3 + t0 / 2 ^ 16 in
    let t2 = h.v2 * 0x01b3 + x * 2 ^ 8 + t1 / 2 ^ 16 in
    let t3 = h.v3 * 0x01b3 + h.v1 * 2 ^ 8 in
    record {
      v0 = t0 % 2 ^ 16;
      v1 = t1 % 2 ^ 16;
      v2 = t2 % 2 ^ 16;
      v3 = (t3 + t2 / 2 ^ 16) % 2 ^ 16;
    }

unfoldable pub absorb_all : Limbs → Text → Limbs
unfolding absorb
absorb_all h [] = h
absorb_all h (c ∷ s) = absorb_all (absorb h c) s

-- `((a % m) + m) % m` of the signed 32-bit number `(high << 16) | low`: a number with its top bit set
-- is negative, and `%` of a negative number is the negated remainder of its size.
unfoldable pub within : ℕ → ℕ → ℕ → ℕ
within m high low =
    let a = high * 2 ^ 16 + low in if ltb a (2 ^ 31) then a % m else (m - (2 ^ 32 - a) % m) % m

-- The width of an element of `_locations`: a `Uint8Array`, `Uint16Array` or `Uint32Array`.
unfoldable pub location_bits : ℕ → ℕ
location_bits m = if leb m (2 ^ 8) then 8 else if leb m (2 ^ 16) then 16 else 32

-- The elements from index `i` on: `count` rounds of the double hashing.
unfoldable pub next_locations : ℕ → ℕ → ℕ → ℕ → ℕ → List ℕ
unfolding location_bits
next_locations m zero i a b = []
next_locations m (suc count) i a b =
    let next = (a + b) % m in
    next % 2 ^ location_bits m ∷ next_locations m count (i + 1) next ((b + i) % m)

-- `locations`; a write to index 0 of an empty `_locations` is dropped
unfoldable pub locations : ℕ → ℕ → Text → List ℕ
unfolding absorb_all within next_locations
locations m zero v = []
locations m (suc count) v =
    let h = absorb_all fnv_basis v in
    let a = within m h.v3 h.v2 in
    let b = within m h.v1 h.v0 in a % 2 ^ location_bits m ∷ next_locations m count 1 a b

-- `buckets[i >> 5] |= 1 << (i & 0x1f)` of an element `i` of a `Uint32Array`: from 2 ^ 31 on the
-- shifted number is negative, and a write to a negative index, or past the end, is dropped
abbrev pub set_bit : ℕ → List Bucket → List Bucket
set_bit i bs =
    if ltb i (2 ^ 31) then set bs (i / 32) (set (get_or bs (i / 32) []) (i % 32) true) else bs

-- `buckets[i >> 5] & (1 << (i & 0x1f))`, which is 0 at a negative index and past the end
abbrev pub get_bit : ℕ → List Bucket → Bool
get_bit i bs = if ltb i (2 ^ 31) then get_or (get_or bs (i / 32) []) (i % 32) false else false

unfoldable pub set_bits : List ℕ → List Bucket → List Bucket
set_bits [] bs = bs
set_bits (i ∷ is) bs = set_bits is (set_bit i bs)

unfoldable pub all_bits : List ℕ → List Bucket → Bool
all_bits [] bs = true
all_bits (i ∷ is) bs = get_bit i bs && all_bits is bs

-- `constructor` of a number of bits, and of an array of buckets
unfoldable pub new_filter : ℕ → ℕ → BloomFilter
new_filter m k =
    let n = (m + 31) / 32 in
    record { m = n * 32; k = k; buckets = replicate n (replicate 32 false) }

unfoldable pub from_buckets : List Bucket → ℕ → BloomFilter
from_buckets bs k = record { m = length bs * 32; k = k; buckets = bs }

unfoldable pub add : Text → BloomFilter → BloomFilter
unfolding locations set_bits
add v f = record f { buckets = set_bits (locations f.m f.k v) f.buckets }

unfoldable pub test : Text → BloomFilter → Bool
unfolding locations all_bits
test v f = all_bits (locations f.m f.k v) f.buckets

-- The loops of `union` and `intersection`.
unfoldable pub zip_bits : (Bool → Bool → Bool) → Bucket → Bucket → Bucket
zip_bits op [] ys = []
zip_bits op (x ∷ xs) [] = []
zip_bits op (x ∷ xs) (y ∷ ys) = op x y ∷ zip_bits op xs ys

unfoldable pub zip_buckets : (Bool → Bool → Bool) → List Bucket → List Bucket → List Bucket
unfolding zip_bits
zip_buckets op [] cs = []
zip_buckets op (b ∷ bs) [] = []
zip_buckets op (b ∷ bs) (c ∷ cs) = zip_bits op b c ∷ zip_buckets op bs cs

-- `l = a.m >> 5`, of the number modulo 2 ^ 32 as a signed one: an array of a negative length throws
unfoldable pub merge : (Bool → Bool → Bool) → BloomFilter → BloomFilter → Option BloomFilter
unfolding zip_buckets from_buckets
merge op a b =
    if (a.m == b.m) && (a.k == b.k)
    then if ltb (a.m % 2 ^ 32) (2 ^ 31)
      then some (from_buckets (take (a.m % 2 ^ 32 / 32) (zip_buckets op a.buckets b.buckets)) a.k)
      else none
    else none

-- `union`; `none` where it throws
unfoldable pub union : BloomFilter → BloomFilter → Option BloomFilter
unfolding merge
union a b = merge ◌||◌ a b

unfoldable pub intersection : BloomFilter → BloomFilter → Option BloomFilter
unfolding merge
intersection a b = merge ◌&&◌ a b

locations_test : locations 320 4 (codes "abc") ≡ 153 ∷ 100 ∷ 48 ∷ 318 ∷ []
unfolding locations absorb absorb_all
locations_test = refl
