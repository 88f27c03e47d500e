-- ===== src/Core/Middleware/Reject.antt =====
-- The request handlers of packages/core/src/createMiddlewares.ts reject revoked tokens.
use express_token_revoker.Prelude.{
  ◌≤◌, ◌≡◌, refl, Bool, true, false, ◌⊎◌, some, List, [], ◌∷◌, arith,
}
use express_token_revoker.Prelude.Result.{Result, ok, err, validation_error}
use express_token_revoker.Prelude.Text.{Text, codes, text_eq}
use express_token_revoker.Core.FilterManager.{Backups, FilterManager, add, has, is_blank}
use express_token_revoker.Core.FilterManager.Run.{Call, run, completed_rotations}
use express_token_revoker.Core.FilterManager.Window.{IsLive}
use express_token_revoker.Core.FilterManager.Recall.{added_until_second_rotation}
use express_token_revoker.Core.Middleware.{
  answered, respond, HeaderValue, extract_token, validate_token, opaque_middleware, negated,
  lower_case,
}

-- `has` answers that the item is revoked.
abbrev pub IsRevoked : {B : Type 0} → Text → FilterManager B → Type 0
IsRevoked t s = (has t s).0 ≡ ok true

-- The claims were checked, and at least one of them is revoked or missing.
abbrev Refused : Result Bool → Type 0
Refused r = (r ≡ ok false) ⊎ (r ≡ err validation_error)

module _ {B : Type 0} where
  negated-true :
      (r : Result Bool × FilterManager B) → r.0 ≡ ok true → (respond (negated r)).0 ≡ answered 401
  negated-true (ok true, s) h = refl
  negated-true (ok false, s) h = absurd (ground (arith, h))
  negated-true (err e, s) h = absurd (ground (arith, h))

  validate_token-revoked :
      (t : Text) (s : FilterManager B)
      → IsRevoked t s
      → (respond (validate_token (some t) s)).0 ≡ answered 401
  unfolding validate_token
  validate_token-revoked [] s h = absurd (unfold has in unfold is_blank in ground (arith, h))
  validate_token-revoked (c ∷ t) s h = negated-true (has (c ∷ t) s) h

-- The middleware extracts a token that was added to a manager, from the authorization header or
-- from another one; the manager's current filter was sound and its numbers give filters of 1 to 2
-- ^ 31 bits. As long as nothing but `add`, `applyEntry`, `has` and rotations (no reset) has been
-- called since, and at most one of the rotations has ended, it answers 401 and does not call
-- `next`.
pub revoked_token_rejected :
    {B : Type 0} (backups : Backups B) (header : Text) (headers : Text → HeaderValue) (token : Text)
    (cs : List Call) (s : FilterManager B)
    → extract_token
        (text_eq (lower_case header) (codes "authorization"))
        (headers (lower_case header))
      ≡ ok (some token)
    → IsLive s
    → (add backups token s).0 ≡ ok tt
    → completed_rotations cs ≤ 1
    → (opaque_middleware header headers (run backups cs (add backups token s).1)).0 ≡ answered 401
unfolding opaque_middleware
revoked_token_rejected backups header headers token cs s extracted live added at_most =
    rw extracted (
      validate_token-revoked token (run backups cs (add backups token s).1)
        (added_until_second_rotation backups token cs s live added at_most))
