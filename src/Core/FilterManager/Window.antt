-- ===== src/Core/FilterManager/Window.antt =====
-- How long a `BloomFilterManager` of packages/core/src/Bloom-filter-manager.ts recognises a token.
use express_token_revoker.Prelude.{
  ◌^◌, ◌<◌, ◌≤◌, ◌≡◌, refl, true, Option, some, arith, Bool-cases, inl, inr,
}
use express_token_revoker.Prelude.Result.{Result, ok, err, Result-cases}
use express_token_revoker.Prelude.Text.{Text}
use express_token_revoker.Core.BloomFilter
use express_token_revoker.Core.BloomFilter.{BloomFilter, new_filter}
use express_token_revoker.Core.BloomFilter.Membership.{IsSound, add-IsSound}
use express_token_revoker.Core.BloomFilter.Tokens.{test-add_self, test-add_mono}
use express_token_revoker.Core.FilterManager.{
  Backups, FilterManager, add, apply_entry, has, rotate_begin, add_to, found_in, check_item,
  backup_item, store_added, store_applied, is_blank, is_saturated, warn_saturation,
}
use express_token_revoker.Core.FilterManager.Run.{
  Call, add_token, apply_token, look_up, begin_rotation, end_rotation, handle, completes,
}

-- The current filter is there, and it is sound, as the next one will be.
abbrev pub IsLive : {B : Type 0} → FilterManager B → Type 0
IsLive s =
    ((f : BloomFilter) × (s.current ≡ some f) × IsSound f)
    × (0 < s.filter_bits)
    × (s.filter_bits ≤ 2 ^ 31)

-- What one step may do to the answers for `t`: nothing is forgotten unless the filters rotate.
abbrev pub Keeps : {B : Type 0} → Text → FilterManager B → FilterManager B → Type 0
Keeps t s v =
    IsLive v
    × (found_in t s.current ≡ true → found_in t v.current ≡ true)
    × (found_in t s.previous ≡ true → found_in t v.previous ≡ true)

pub add_to-grows :
    (t item : Text) (o : Option BloomFilter) (f : BloomFilter)
    → o ≡ some f
    → IsSound f
    → ((g : BloomFilter) × (add_to item o ≡ some g) × IsSound g)
      × (found_in t o ≡ true → found_in t (add_to item o) ≡ true)
      × (found_in item (add_to item o) ≡ true)
add_to-grows t item o f here sound = rw here (
  (BloomFilter.add item f, refl, add-IsSound item f sound),
  test-add_mono t item f sound,
  test-add_self item f sound,
)

module _ {B : Type 0} (backups : Backups B) where
  store_added-Keeps :
      (t item : Text) (r : Result (Unit {0}) × Option B) (s : FilterManager B)
      → IsLive s
      → Keeps t s (store_added backups r item s).1
  unfolding store_added
  store_added-Keeps t item (err e, b) s live = (live, (λ h. h), (λ h. h))
  store_added-Keeps t item (ok _, b) s ((f, here, sound), some_bits, fits) =
      let (g, grown, _) = add_to-grows t item s.current f here sound in
      ((g, some_bits, fits), grown, (λ h. h))

  store_applied-Keeps :
      (t item : Text) (r : Result (Unit {0}) × Option B) (s : FilterManager B)
      → IsLive s
      → Keeps t s (store_applied backups r item s).1
  unfolding store_applied
  store_applied-Keeps t item (err e, b) s live = (live, (λ h. h), (λ h. h))
  store_applied-Keeps t item (ok _, b) s ((f, here, sound), some_bits, fits) =
      let (g, grown, _) = add_to-grows t item s.current f here sound in
      ((g, some_bits, fits), grown, (λ h. h))

  pub add-Keeps :
      (t item : Text) (s : FilterManager B) → IsLive s → Keeps t s (add backups item s).1
  unfolding add
  add-Keeps t item s live = elim (Result-cases (check_item item s)) [
    | inl (e, refused) ↦ rw (refused, add) (live, (λ h. h), (λ h. h))
    | inr (_, valid) ↦
        rw (valid, add)
          (elim (Bool-cases (is_saturated s)) [
            | inl full ↦ rw full (live, (λ h. h), (λ h. h))
            | inr room ↦
                rw room (store_added-Keeps t item (backup_item backups item s.backup) s live)
          ])
  ]

  pub apply_entry-Keeps :
      (t item : Text) (s : FilterManager B) → IsLive s → Keeps t s (apply_entry backups item s).1
  unfolding apply_entry
  apply_entry-Keeps t item s live = elim (Result-cases (check_item item s)) [
    | inl (e, refused) ↦ rw (refused, apply_entry) (live, (λ h. h), (λ h. h))
    | inr (_, valid) ↦
        rw (valid, apply_entry)
          (store_applied-Keeps t item (backup_item backups item s.backup)
            (warn_saturation backups s) live)
  ]

  has-Keeps : (t v : Text) (s : FilterManager B) → IsLive s → Keeps t s (has v s).1
  unfolding has
  has-Keeps t v s live = elim (Bool-cases (is_blank v)) [
    | inl blank ↦ rw blank (live, (λ h. h), (λ h. h))
    | inr text ↦ rw text (live, (λ h. h), (λ h. h))
  ]

  rotate_begin-Keeps :
      (t : Text) (s : FilterManager B) → IsLive s → Keeps t s (rotate_begin backups s)
  unfolding rotate_begin
  rotate_begin-Keeps t s live = elim (Bool-cases s.is_rotating) [
    | inl busy ↦ simp busy (live, (λ h. h), (λ h. h))
    | inr free ↦ simp free (live, (λ h. h), (λ h. h))
  ]

  -- Any call but the end of a rotation.
  pub handle-Keeps :
      (t : Text) (c : Call) (s : FilterManager B)
      → completes c ≡ 0
      → IsLive s
      → Keeps t s (handle backups c s)
  unfolding handle
  handle-Keeps t (add_token item) s none_ends live = add-Keeps t item s live
  handle-Keeps t (apply_token item) s none_ends live = apply_entry-Keeps t item s live
  handle-Keeps t (look_up item) s none_ends live = has-Keeps t item s live
  handle-Keeps t begin_rotation s none_ends live = rotate_begin-Keeps t s live
  handle-Keeps t end_rotation s none_ends live = absurd (omega (arith, none_ends))
