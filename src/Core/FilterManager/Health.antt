-- ===== src/Core/FilterManager/Health.antt =====
-- `healthCheck` of packages/core/src/Bloom-filter-manager.ts. The ratio of the insertions to the
-- capacity is compared exactly, not as a rounded quotient; error texts are left out.
use express_token_revoker.Prelude.{
  ◌*◌, ◌≡◌, refl, ◌∙◌, ap, sym, not, Bool, true, false, ◌&&◌, Option, none, some, arith, ltb,
  Bool-cases, inl, inr, if◌then◌else◌, branch, ℕ, suc, ◌+◌, ◌/◌, ◌%◌, ◌<◌, ◌≤◌, ◌||◌, ◌==◌, lt→ltb,
}
use native.Mathlib.Nat.{div-add-mod, mod-lt, mul-le-mul_left, mul-suc}
use express_token_revoker.Prelude.Result.{Result, ok, err}
use express_token_revoker.Prelude.Text.{Text}
use express_token_revoker.Core.BloomFilter.{BloomFilter}
use express_token_revoker.Core.FilterManager.{
  Backups, FilterManager, add, apply_entry, check_item, backup_item, store_added, store_applied,
  is_saturated, warn_saturation, max_saturation_ratio,
}

pub data FilterStatus : Type 0 where
  filter_missing critically_saturated moderately_saturated filter_fine : FilterStatus

abbrev pub is_healthy : FilterStatus → Bool
is_healthy filter_missing = false
is_healthy critically_saturated = false
is_healthy moderately_saturated = true
is_healthy filter_fine = true

-- `a / b > ratio`, of a positive `b`: by the whole part of the quotient, and by what remains.
unfoldable pub exceeds : ℕ → ℕ → ℕ → Bool
exceeds a b ratio = ltb ratio (a / b) || (((a / b) == ratio) && ltb 0 (a % b))

-- `insertionRatio > ...` is tested on `#currentInsertions / numItems`.
unfoldable pub status_of : {B : Type 0} → Option BloomFilter → FilterManager B → FilterStatus
unfolding exceeds
status_of none s = filter_missing
status_of (some f) s =
    if exceeds s.current_insertions s.num_items max_saturation_ratio
    then critically_saturated
    else if exceeds s.current_insertions s.num_items 2
    then moderately_saturated
    else filter_fine

unfoldable pub filter_status : {B : Type 0} → FilterManager B → FilterStatus
unfolding status_of
filter_status s = status_of s.current s

pub record HealthStatus : Type 0 where
  pub healthy : Bool
  pub storage : Bool
  pub filter : FilterStatus
  pub rotation : Bool

-- `storage_healthy` is `healthCheckStorage` of the backup manager.
unfoldable pub health_check : {B : Type 0} → (B → Bool) → FilterManager B → HealthStatus
unfolding filter_status
health_check storage_healthy s =
    let storage : Bool = elim s.backup [ none ↦ true | some b ↦ storage_healthy b ] in
    record {
      healthy = storage && is_healthy (filter_status s) && s.has_interval;
      storage = storage;
      filter = filter_status s;
      rotation = s.has_interval;
    }

abbrev pub is_ok : Result (Unit {0}) → Bool
is_ok (ok _) = true
is_ok (err e) = false

module _ {B : Type 0} (backups : Backups B) where
  store_added_ok :
      (r : Result (Unit {0}) × Option B) (item : Text) (s : FilterManager B)
      → r.0 ≡ ok tt
      → (store_added backups r item s).0 ≡ ok tt
  unfolding store_added
  store_added_ok (ok _, b) item s h = refl
  store_added_ok (err e, b) item s h = absurd (ground (arith, h))

  store_applied_ok :
      (r : Result (Unit {0}) × Option B) (item : Text) (s : FilterManager B)
      → r.0 ≡ ok tt
      → (store_applied backups r item s).0 ≡ ok tt
  unfolding store_applied
  store_applied_ok (ok _, b) item s h = refl
  store_applied_ok (err e, b) item s h = absurd (ground (arith, h))

-- A quotient exceeds a ratio exactly if its numerator exceeds that many denominators.
exceeds-ltb : (a b ratio : ℕ) → 0 < b → exceeds a b ratio ≡ ltb (b * ratio) a
unfolding exceeds
exceeds-ltb a b ratio h =
    let whole : b * (a / b) + a % b ≡ a = div-add-mod a b in
    let rest : a % b < b = mod-lt a h in
    elim (Bool-cases (ltb ratio (a / b))) [
      | inl above ↦
          let more : suc ratio ≤ a / b = ground (arith, above) in
          let grown : b * suc ratio ≤ b * (a / b) = mul-le-mul_left b more in
          let over : b * ratio < a = omega (arith, whole, grown, h, mul-suc b ratio) in
          rw above (sym (lt→ltb (b * ratio) a over))
      | inr not_above ↦ elim (Bool-cases ((a / b) == ratio)) [
        | inl equal ↦
            let same : a / b ≡ ratio = ground (arith, equal) in
            let as_ratio : b * (a / b) ≡ b * ratio = ap (λ q. b * q) same in
            ground (arith, not_above, equal, whole, as_ratio)
        | inr differs ↦
            let less : suc (a / b) ≤ ratio = ground (arith, not_above, differs) in
            let grown : b * suc (a / b) ≤ b * ratio = mul-le-mul_left b less in
            let under : a ≤ b * ratio = omega (arith, whole, grown, rest, mul-suc b (a / b)) in
            let refused : ltb (b * ratio) a ≡ false = ground (arith, under) in
            rw (not_above, differs, refused) refl
      ]
    ]

is_healthy-status_of :
    {B : Type 0} (o : Option BloomFilter) (f : BloomFilter) (s : FilterManager B)
    → 0 < s.num_items
    → o ≡ some f
    → is_healthy (status_of o s) ≡ not (is_saturated s)
unfolding status_of
is_healthy-status_of o f s h here =
    let critical = exceeds-ltb s.current_insertions s.num_items max_saturation_ratio h in
    rw here (elim (Bool-cases (exceeds s.current_insertions s.num_items max_saturation_ratio)) [
      | inl full ↦ rw full (ap not (sym full ∙ critical))
      | inr room ↦ rw room (
          branch (λ x. is_healthy x ≡ not (is_saturated s))
            (exceeds s.current_insertions s.num_items 2) _ _ (ap not (sym room ∙ critical))
            (ap not (sym room ∙ critical)))
    ])

-- On a manager with a current filter and a positive capacity, for an item that passes the checks
-- and that the backup takes: `add`, which compares the insertions with a multiple of the capacity,
-- succeeds exactly if `healthCheck`, which compares their quotient with the ratio, reports the
-- filter as healthy, while `applyEntry` succeeds however saturated the filter is.
pub health_predicts_add :
    {B : Type 0} (backups : Backups B) (storage_healthy : B → Bool) (item : Text) (f : BloomFilter)
    (s : FilterManager B)
    → 0 < s.num_items
    → s.current ≡ some f
    → check_item item s ≡ ok tt
    → (backup_item backups item s.backup).0 ≡ ok tt
    → (is_ok (add backups item s).0 ≡ is_healthy (health_check storage_healthy s).filter)
      × ((apply_entry backups item s).0 ≡ ok tt)
unfolding add apply_entry health_check filter_status
health_predicts_add backups storage_healthy item f s h here valid taken = (
  elim (Bool-cases (is_saturated s)) [
    | inl full ↦
        rw (valid, add) (rw full (sym (is_healthy-status_of s.current f s h here ∙ ap not full)))
    | inr room ↦
        rw (valid, add)
          (rw room (
            ap is_ok (store_added_ok backups (backup_item backups item s.backup) item s taken)
            ∙ sym (is_healthy-status_of s.current f s h here ∙ ap not room)))
  ],
  rw (valid, apply_entry)
      (store_applied_ok backups (backup_item backups item s.backup) item (warn_saturation backups s)
        taken),
)
