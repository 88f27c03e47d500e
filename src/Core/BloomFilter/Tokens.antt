-- ===== src/Core/BloomFilter/Tokens.antt =====
-- The tokens that a filter of packages/core/src/bloomfilter.ts recognises.
use express_token_revoker.Prelude.{
  ℕ, zero, suc, ◌+◌, ◌*◌, ◌/◌, ◌%◌, ◌^◌, ◌<◌, ◌≤◌, ◌≡◌, refl, ◌∙◌, Bool, true, false, ◌&&◌, ◌||◌,
  List, [], ◌∷◌, arith, All, All-weaken, replicate, get_or, Bool-cases, inl, inr, ◌==◌, branch, ltb,
}
use express_token_revoker.Prelude.Text.{Text}
use express_token_revoker.Core.BloomFilter.{
  Bucket, BloomFilter, get_bit, all_bits, new_filter, add, test, locations,
}
use express_token_revoker.Core.BloomFilter.Membership
use express_token_revoker.Core.BloomFilter.Membership.{
  IsSound, add-IsSound, new_filter-IsSound, get_bit-add, has,
}

-- `add` of one token after the other, from the last of the list to the first.
abbrev pub add_all : List Text → BloomFilter → BloomFilter
add_all [] f = f
add_all (t ∷ ts) f = add t (add_all ts f)

-- The specification of `test`: each location of a token is a location of one of the tokens added.
abbrev pub occupied : ℕ → ℕ → List Text → ℕ → Bool
occupied m k [] j = false
occupied m k (t ∷ ts) j = has j (locations m k t) || occupied m k ts j

abbrev pub all_occupied : (ℕ → Bool) → List ℕ → Bool
all_occupied p [] = true
all_occupied p (j ∷ js) = p j && all_occupied p js

all_bits-occupied :
    (p : ℕ → Bool) (js : List ℕ) (bs : List Bucket)
    → ((j : ℕ) → get_bit j bs ≡ p j)
    → all_bits js bs ≡ all_occupied p js
unfolding all_bits
all_bits-occupied p [] bs h = refl
all_bits-occupied p (j ∷ js) bs h = rw (h j, all_bits-occupied p js bs h) refl

or_false : (b : Bool) → (b || false) ≡ b
or_false true = refl
or_false false = refl

-- A new filter has no bit.
get_or-replicate : (n j : ℕ) → get_or (replicate n false) j false ≡ false
get_or-replicate zero j = refl
get_or-replicate (suc n) zero = refl
get_or-replicate (suc n) (suc j) = get_or-replicate n j

get_or-buckets :
    (n q r : ℕ) → get_or (get_or (replicate n (replicate 32 false)) q []) r false ≡ false
get_or-buckets zero q r = refl
get_or-buckets (suc n) zero r = get_or-replicate 32 r
get_or-buckets (suc n) (suc q) r = get_or-buckets n q r

pub get_bit-replicate : (n j : ℕ) → get_bit j (replicate n (replicate 32 false)) ≡ false
get_bit-replicate n j =
    branch (λ b. b ≡ false) (ltb j (2 ^ 31)) _ _ (get_or-buckets n (j / 32) (j % 32)) refl

add_all-shape :
    (ts : List Text) (f : BloomFilter) → ((add_all ts f).m ≡ f.m) × ((add_all ts f).k ≡ f.k)
unfolding add
add_all-shape [] f = (refl, refl)
add_all-shape (t ∷ ts) f = add_all-shape ts f

add_all-IsSound : (ts : List Text) (f : BloomFilter) → IsSound f → IsSound (add_all ts f)
add_all-IsSound [] f s = s
add_all-IsSound (t ∷ ts) f s = add-IsSound t (add_all ts f) (add_all-IsSound ts f s)

get_bit-add_all :
    (ts : List Text) (f : BloomFilter) (j : ℕ)
    → IsSound f
    → get_bit j (add_all ts f).buckets ≡ (occupied f.m f.k ts j || get_bit j f.buckets)
get_bit-add_all [] f j s = refl
get_bit-add_all (t ∷ ts) f j s =
    let (same_m, same_k) = add_all-shape ts f in
    get_bit-add j t (add_all ts f) (add_all-IsSound ts f s)
    ∙ rw (same_m, same_k, get_bit-add_all ts f j s)
        (or_assoc (has j (locations f.m f.k t)) (occupied f.m f.k ts j) (get_bit j f.buckets))
  where
    or_assoc : (x y z : Bool) → (x || (y || z)) ≡ ((x || y) || z)
    or_assoc true y z = refl
    or_assoc false y z = refl

-- What a filter of `m` bits and `k` hash functions, to which any list of tokens has been added,
-- answers for a token, if `m` is at most 2 ^ 31: yes if and only if each of its locations is a location of an added token.
pub test_exact :
    (m k : ℕ) (ts : List Text) (v : Text)
    → 0 < m
    → m ≤ 2 ^ 31
    → let n = (m + 31) / 32 * 32 in
      test v (add_all ts (new_filter m k)) ≡ all_occupied (occupied n k ts) (locations n k v)
unfolding test new_filter
test_exact m k ts v h fits =
    let f = new_filter m k in
    let (same_m, same_k) = add_all-shape ts f in
    rw (same_m, same_k)
      (all_bits-occupied (occupied f.m f.k ts) (locations f.m f.k v) (add_all ts f).buckets (λ j.
        get_bit-add_all ts f j (new_filter-IsSound m k h fits)
        ∙ rw (get_bit-replicate ((m + 31) / 32) j) (or_false (occupied f.m f.k ts j))))

all_occupied_holds :
    (p : ℕ → Bool) (js : List ℕ) → All (λ j. p j ≡ true) js → all_occupied p js ≡ true
all_occupied_holds p [] h = refl
all_occupied_holds p (j ∷ js) (e, h) = rw (e, all_occupied_holds p js h) refl

pub or_right : (x : Bool) {y : Bool} → y ≡ true → (x || y) ≡ true
or_right true h = refl
or_right false h = h

pub or_left : (y : Bool) {x : Bool} → x ≡ true → (x || y) ≡ true
or_left y h = rw h refl

has-All : (js : List ℕ) → All (λ j. has j js ≡ true) js
has-All [] = tt
has-All (j ∷ js) =
    (or_left (has j js) (ground arith), All-weaken js (λ i. or_right (j == i)) (has-All js))

occupied-All :
    (m k : ℕ) (ts : List Text) → All (λ t. All (λ j. occupied m k ts j ≡ true) (locations m k t)) ts
occupied-All m k [] = tt
occupied-All m k (t ∷ ts) = (
  All-weaken (locations m k t) (λ j. or_left (occupied m k ts j)) (has-All (locations m k t)),
  All-weaken ts (λ u. All-weaken (locations m k u) (λ j. or_right (has j (locations m k t))))
      (occupied-All m k ts),
)

-- No false negatives: a filter of up to 2 ^ 31 bits, with any number of hash functions, recognises
-- every token that was added to it, however many were.
pub no_false_negatives :
    (m k : ℕ) (ts : List Text)
    → 0 < m
    → m ≤ 2 ^ 31
    → All (λ t. test t (add_all ts (new_filter m k)) ≡ true) ts
no_false_negatives m k ts h fits =
    let n = (m + 31) / 32 * 32 in
    All-weaken ts
      (λ t found.
        test_exact m k ts t h fits ∙ all_occupied_holds (occupied n k ts) (locations n k t) found)
      (occupied-All n k ts)

pub all_bits_mono :
    (js : List ℕ) (bs cs : List Bucket)
    → ((j : ℕ) → get_bit j bs ≡ true → get_bit j cs ≡ true)
    → all_bits js bs ≡ true
    → all_bits js cs ≡ true
unfolding all_bits
all_bits_mono [] bs cs f h = refl
all_bits_mono (j ∷ js) bs cs f h = elim (Bool-cases (get_bit j bs)) [
  | inl one ↦ rw (f j one) (all_bits_mono js bs cs f (rw one at h))
  | inr zero_bit ↦ let never = rw zero_bit at h in absurd (ground (arith, never))
]

all_bits_holds :
    (js : List ℕ) (bs : List Bucket) → All (λ j. get_bit j bs ≡ true) js → all_bits js bs ≡ true
unfolding all_bits
all_bits_holds [] bs h = refl
all_bits_holds (j ∷ js) bs (e, h) = rw (e, all_bits_holds js bs h) refl

-- A sound filter recognises the token just added to it.
pub test-add_self : (v : Text) (f : BloomFilter) → IsSound f → test v (add v f) ≡ true
unfolding test
test-add_self v f s =
    let (same_m, same_k) = add_all-shape (v ∷ []) f in
    rw (same_m, same_k)
      (all_bits_holds (locations f.m f.k v) (add v f).buckets (
        All-weaken (locations f.m f.k v)
          (λ j h. get_bit-add j v f s ∙ or_left (get_bit j f.buckets) h)
          (has-All (locations f.m f.k v))))

-- A sound filter recognises what it recognised before a token was added to it.
pub test-add_mono :
    (v u : Text) (f : BloomFilter) → IsSound f → test v f ≡ true → test v (add u f) ≡ true
unfolding test
test-add_mono v u f s h =
    let (same_m, same_k) = add_all-shape (u ∷ []) f in
    rw (same_m, same_k)
      (all_bits_mono (locations f.m f.k v) f.buckets (add u f).buckets
        (λ j one. get_bit-add j u f s ∙ or_right (Membership.has j (locations f.m f.k u)) one) h)
