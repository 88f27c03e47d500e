-- ===== src/Core/Middleware.antt =====
-- The two request handlers of packages/core/src/createMiddlewares.ts over the filter manager of
-- packages/core/src/Bloom-filter-manager.ts. A response is the call of `next` or a status code.
pub mod Reject
use express_token_revoker.Prelude.{
  ℕ, ◌+◌, Bool, true, false, not, ◌&&◌, Option, none, some, List, [], ◌∷◌, ◌++◌, map, leb, ◌==◌,
  if◌then◌else◌,
}
use express_token_revoker.Prelude.Result.{Result, ok, err, validation_error, internal_error}
use express_token_revoker.Prelude.Text.{Text, codes, text_eq, split_on}
use express_token_revoker.Core.FilterManager.{FilterManager, has}

pub data Response : Type 0 where
  passed : Response
  answered : ℕ → Response

-- The payload of a decoded token: the claims as the texts that a template string prints; `none` is
-- `undefined` or `null`.
abbrev pub JwtPayload : Type 0
JwtPayload = Text → Option Text

-- `req.headers[name]`
pub data HeaderValue : Type 0 where
  absent : HeaderValue
  single : Text → HeaderValue
  many : List Text → HeaderValue

abbrev pub lower : ℕ → ℕ
lower c = if leb 65 c && leb c 90 then c + 32 else c

-- `toLowerCase` on the ASCII letters: no other character has one of them as its lower case in the
-- word that it is compared with
abbrev pub lower_case : Text → Text
lower_case s = map lower s

-- The end of the `try` block and its `catch`.
abbrev pub respond : {B : Type 0} → Result Bool × FilterManager B → Response × FilterManager B
respond (ok true, s) = (passed, s)
respond (ok false, s) = (answered 401, s)
respond (err validation_error, s) = (answered 400, s)
respond (err internal_error, s) = (answered 500, s)

-- `${claim}-${payload[claim]}`
abbrev pub claim_key : Text → Text → Text
claim_key claim value = claim ++ b'-' ∷ value

-- `const [type, token] = header.split(' ')` and the check of the two
unfoldable pub bearer_token : List Text → Result Text
unfolding text_eq
bearer_token (type ∷ (c ∷ token) ∷ rest) =
    if text_eq (lower_case type) (codes "bearer") then ok (c ∷ token) else err validation_error
bearer_token _ = err validation_error

-- `extractToken` of a header that is not empty; `none` is `undefined`
unfoldable pub token_of : Bool → Option Text → Result (Option Text)
unfolding bearer_token split_on
token_of true none = err internal_error
token_of true (some value) = elim (bearer_token (split_on b' ' value)) [
  | ok token ↦ ok (some token)
  | err e ↦ err e
]
token_of false value = ok value

abbrev pub first : List Text → Option Text
first [] = none
first (v ∷ vs) = some v

-- `extractToken`
unfoldable pub extract_token : Bool → HeaderValue → Result (Option Text)
unfolding token_of
extract_token is_authorization absent = err validation_error
extract_token is_authorization (single []) = err validation_error
extract_token is_authorization (single (c ∷ v)) = token_of is_authorization (some (c ∷ v))
extract_token is_authorization (many vs) = token_of is_authorization (first vs)

module _ {B : Type 0} where
  -- A claim that is not revoked lets `every` go on.
  abbrev pub and_then :
      Result Bool × FilterManager B
      → (FilterManager B → Result Bool × FilterManager B)
      → Result Bool × FilterManager B
  and_then (ok true, s) rest = (ok false, s)
  and_then (ok false, s) rest = rest s
  and_then (err e, s) rest = (err e, s)

  -- `validateAllClaims`, with `validateClaim`
  unfoldable pub validate_claims :
      JwtPayload → List Text → FilterManager B → Result Bool × FilterManager B
  validate_claims payload [] s = (ok true, s)
  validate_claims payload (c ∷ cs) s = elim (payload c) [
    | none ↦ (err validation_error, s)
    | some value ↦ and_then (has (claim_key c value) s) (λ s'. validate_claims payload cs s')
  ]

  -- The handler of `createJWTMiddleware`.
  unfoldable pub jwt_middleware :
      List Text → Option JwtPayload → FilterManager B → Response × FilterManager B
  unfolding validate_claims
  jwt_middleware claims none s = respond (err validation_error, s)
  jwt_middleware claims (some payload) s = respond (validate_claims payload claims s)

  abbrev pub negated : Result Bool × FilterManager B → Result Bool × FilterManager B
  negated (ok found, s) = (ok (not found), s)
  negated (err e, s) = (err e, s)

  -- `validateToken`
  unfoldable pub validate_token : Option Text → FilterManager B → Result Bool × FilterManager B
  validate_token none s = (ok true, s)
  validate_token (some []) s = (ok true, s)
  validate_token (some (c ∷ token)) s = negated (has (c ∷ token) s)

  -- The handler of `createOpaqueMiddleware`, for a request whose headers are `headers`.
  unfoldable pub opaque_middleware :
      Text → (Text → HeaderValue) → FilterManager B → Response × FilterManager B
  unfolding extract_token validate_token text_eq
  opaque_middleware header headers s =
      let name = lower_case header in
      respond (elim (extract_token (text_eq name (codes "authorization")) (headers name)) [
        | ok token ↦ validate_token token s
        | err e ↦ (err e, s)
      ])
