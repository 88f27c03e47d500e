-- ===== src/Core/FilterManager/Recall.antt =====
-- Which tokens a `BloomFilterManager` of packages/core/src/Bloom-filter-manager.ts reports as
-- revoked, and until when.
use express_token_revoker.Prelude.{
  ◌≤◌, ◌≡◌, refl, Bool, true, false, ◌||◌, Option, List, [], ◌∷◌, arith, Bool-cases, inl, inr, ◌⊎◌,
}
use express_token_revoker.Prelude.Result.{Result, ok, err, Result-cases}
use express_token_revoker.Prelude.Text.{Text}
use express_token_revoker.Core.BloomFilter.{new_filter}
use express_token_revoker.Core.BloomFilter.Membership.{new_filter-IsSound}
use express_token_revoker.Core.FilterManager.{
  Backups, FilterManager, add, apply_entry, has, rotate_end, found_in, check_item, backup_item,
  store_added, store_applied, is_blank, is_saturated, warn_saturation,
}
use express_token_revoker.Core.FilterManager.Run.{
  Call, add_token, apply_token, look_up, begin_rotation, end_rotation, handle, run, completes,
  completed_rotations,
}
use express_token_revoker.Core.FilterManager.Window.{
  IsLive, Keeps, handle-Keeps, add-Keeps, apply_entry-Keeps, add_to-grows,
}

or_right : (x : Bool) {y : Bool} → y ≡ true → (x || y) ≡ true
or_right true h = refl
or_right false h = h

completes-cases : (c : Call) → (completes c ≡ 0) ⊎ (c ≡ end_rotation)
completes-cases end_rotation = inr refl
completes-cases (add_token item) = inl refl
completes-cases (apply_token item) = inl refl
completes-cases (look_up item) = inl refl
completes-cases begin_rotation = inl refl

module _ {B : Type 0} (backups : Backups B) where
  -- The end of a rotation: what the current filter recognises, the previous one recognises then.
  rotate_end-shifts :
      (t : Text) (s : FilterManager B)
      → IsLive s
      → IsLive (rotate_end backups s)
        × (found_in t s.current ≡ true
            → (found_in t (rotate_end backups s).current ≡ true)
              ⊎ (found_in t (rotate_end backups s).previous ≡ true))
  unfolding rotate_end
  rotate_end-shifts t s (here, some_bits, fits) = elim (Bool-cases s.is_rotating) [
    | inl busy ↦ simp busy (
      (
        (
          new_filter s.filter_bits s.filter_hashes,
          refl,
          new_filter-IsSound s.filter_bits s.filter_hashes some_bits fits,
        ),
        some_bits,
        fits,
      ),
      (λ h. inr h),
    )
    | inr free ↦ simp free ((here, some_bits, fits), (λ h. inl h))
  ]

  -- Without the end of a rotation, both filters go on recognising what they recognise.
  run-Keeps :
      (t : Text) (cs : List Call) (s : FilterManager B)
      → completed_rotations cs ≡ 0
      → IsLive s
      → Keeps t s (run backups cs s)
  unfolding run
  run-Keeps t [] s none_ends live = (live, (λ h. h), (λ h. h))
  run-Keeps t (c ∷ cs) s none_ends live =
      let (live', now, before) = handle-Keeps backups t c s (omega (arith, none_ends)) live in
      let (live'', later, still) =
        run-Keeps t cs (handle backups c s) (omega (arith, none_ends)) live' in
      (live'', (λ h. later (now h)), (λ h. still (before h)))

  run-recalls :
      (t : Text) (cs : List Call) (s : FilterManager B)
      → completed_rotations cs ≤ 1
      → IsLive s
      → found_in t s.current ≡ true
      → (found_in t (run backups cs s).current || found_in t (run backups cs s).previous) ≡ true
  unfolding run
  run-recalls t [] s at_most live found = rw found refl
  run-recalls t (c ∷ cs) s at_most live found = elim (completes-cases c) [
    | inl goes_on ↦
        let (live', now, _) = handle-Keeps backups t c s goes_on live in
        run-recalls t cs (handle backups c s) (omega (arith, at_most)) live' (now found)
    | inr ends ↦
        let last : completed_rotations cs ≡ 0 =
          let left = rw ends at at_most in omega (arith, left) in
        let (live', shifted) = rotate_end-shifts t s live in
        let (_, later, still) = run-Keeps t cs (rotate_end backups s) last live' in
        rw ends (elim (shifted found) [
          | inl here ↦ rw (later here) refl
          | inr gone_by ↦ or_right _ (still gone_by)
        ])
  ]

has_found :
    {B : Type 0} (t : Text) (s : FilterManager B)
    → is_blank t ≡ false
    → (found_in t s.current || found_in t s.previous) ≡ true
    → (has t s).0 ≡ ok true
unfolding has
has_found t s text found = rw (text, found) refl

check_item-text :
    {B : Type 0} (t : Text) (s : FilterManager B) → check_item t s ≡ ok tt → is_blank t ≡ false
unfolding check_item
check_item-text t s valid = elim (Bool-cases (is_blank t)) [
  | inl blank ↦ let never = rw blank at valid in absurd (ground (arith, never))
  | inr text ↦ text
]

module _ {B : Type 0} (backups : Backups B) where
  store_added-finds :
      (t : Text) (r : Result (Unit {0}) × Option B) (s : FilterManager B)
      → IsLive s
      → (store_added backups r t s).0 ≡ ok tt
      → found_in t (store_added backups r t s).1.current ≡ true
  unfolding store_added
  store_added-finds t (err e, b) s live added = absurd (ground (arith, added))
  store_added-finds t (ok _, b) s ((f, here, sound), _, _) added =
      let (_, _, found) = add_to-grows t t s.current f here sound in found

  store_applied-finds :
      (t : Text) (r : Result (Unit {0}) × Option B) (s : FilterManager B)
      → IsLive s
      → (store_applied backups r t s).0 ≡ ok tt
      → found_in t (store_applied backups r t s).1.current ≡ true
  unfolding store_applied
  store_applied-finds t (err e, b) s live applied = absurd (ground (arith, applied))
  store_applied-finds t (ok _, b) s ((f, here, sound), _, _) applied =
      let (_, _, found) = add_to-grows t t s.current f here sound in found

  -- A successful `add` was of a text, which the current filter recognises from then on.
  add-finds :
      (t : Text) (s : FilterManager B)
      → IsLive s
      → (add backups t s).0 ≡ ok tt
      → (is_blank t ≡ false) × (found_in t (add backups t s).1.current ≡ true)
  unfolding add
  add-finds t s live added = elim (Result-cases (check_item t s)) [
    | inl (e, refused) ↦ let never = rw (refused, add) at added in absurd (ground (arith, never))
    | inr (_, valid) ↦
        let past = rw (valid, add) at added in
        elim (Bool-cases (is_saturated s)) [
          | inl full ↦ let never = rw full at past in absurd (ground (arith, never))
          | inr room ↦
              let stored = rw room at past in
              (
                check_item-text t s valid,
                rw (valid, add)
                    (rw room (store_added-finds t (backup_item backups t s.backup) s live stored)),
              )
        ]
  ]

  apply_entry-finds :
      (t : Text) (s : FilterManager B)
      → IsLive s
      → (apply_entry backups t s).0 ≡ ok tt
      → (is_blank t ≡ false) × (found_in t (apply_entry backups t s).1.current ≡ true)
  unfolding apply_entry
  apply_entry-finds t s live applied = elim (Result-cases (check_item t s)) [
    | inl (e, refused) ↦
        let never = rw (refused, apply_entry) at applied in absurd (ground (arith, never))
    | inr (_, valid) ↦
        let stored = rw (valid, apply_entry) at applied in
        (
          check_item-text t s valid,
          rw (valid, apply_entry)
              (store_applied-finds t (backup_item backups t s.backup) (warn_saturation backups s)
                live stored),
        )
  ]

-- After a successful `add` of a token, to a manager whose current filter is sound and whose
-- numbers give filters of 1 to 2 ^ 31 bits: as long as nothing but `add`, `applyEntry`, `has` and
-- rotations is called, and at most one of the rotations ends, `has` answers that the token is
-- revoked. A reset, which empties the filters, is not among these calls.
pub added_until_second_rotation :
    {B : Type 0} (backups : Backups B) (t : Text) (cs : List Call) (s : FilterManager B)
    → IsLive s
    → (add backups t s).0 ≡ ok tt
    → completed_rotations cs ≤ 1
    → (has t (run backups cs (add backups t s).1)).0 ≡ ok true
added_until_second_rotation backups t cs s live added at_most =
    let (text, found) = add-finds backups t s live added in
    let (live', _, _) = add-Keeps backups t t s live in
    has_found t (run backups cs (add backups t s).1) text
      (run-recalls backups t cs (add backups t s).1 at_most live' found)

-- The same after a successful `applyEntry`.
pub applied_until_second_rotation :
    {B : Type 0} (backups : Backups B) (t : Text) (cs : List Call) (s : FilterManager B)
    → IsLive s
    → (apply_entry backups t s).0 ≡ ok tt
    → completed_rotations cs ≤ 1
    → (has t (run backups cs (apply_entry backups t s).1)).0 ≡ ok true
applied_until_second_rotation backups t cs s live applied at_most =
    let (text, found) = apply_entry-finds backups t s live applied in
    let (live', _, _) = apply_entry-Keeps backups t t s live in
    has_found t (run backups cs (apply_entry backups t s).1) text
      (run-recalls backups t cs (apply_entry backups t s).1 at_most live' found)
