-- ===== src/Gateway/Guard.antt =====
-- apps/oceanchat-api-gateway/src/common/guards/jwt-auth.guard.ts: which requests may pass. Texts are
-- lists of character codes; the verification of a signature is a parameter.
pub mod Decisions
unfoldable pub use ocean_chat_private.Prelude.{same_text}
use ocean_chat_private.Prelude.{
  ℕ, List, [], ◌∷◌, Option, none, some, Bool, true, false, Result, ok, err, ◌&&◌, ◌==◌,
  if◌then◌else◌,
}
use ocean_chat_private.Exceptions.{Exception, domain, unauthorized, error_code_token_expired}
use ocean_chat_private.Store.{Store}
use ocean_chat_private.Gateway.Revocation.{is_revoked}

pub record JwtPayload : Type 0 where
  pub jti : ℕ
  pub sub : ℕ
  pub username : ℕ
  pub device_id : ℕ

-- What the guard puts into the request.
pub record User : Type 0 where
  pub sub : ℕ
  pub username : ℕ
  pub device_id : ℕ

-- What `verifyAsync` does: it returns the payload, or throws a TokenExpiredError or another error.
pub data Verified : Type 0 where
  valid : JwtPayload → Verified
  expired invalid : Verified

-- `split(' ')`, for a separator of one character.
unfoldable pub split : ℕ → List ℕ → List (List ℕ)
split separator [] = [] ∷ []
split separator (c ∷ cs) =
    let rest = split separator cs in
    if c == separator
    then [] ∷ rest
    else elim rest [ [] ↦ (c ∷ []) ∷ [] | piece ∷ pieces ↦ (c ∷ piece) ∷ pieces ]

abbrev pub space : ℕ
space = 32

-- The text 'Bearer'.
abbrev pub bearer : List ℕ
bearer = 66 ∷ 101 ∷ 97 ∷ 114 ∷ 101 ∷ 114 ∷ []

-- `type === 'Bearer' ? token : undefined`
unfoldable pub token_of : List (List ℕ) → Option (List ℕ)
token_of [] = none
token_of (type ∷ []) = none
token_of (type ∷ token ∷ rest) = if same_text type bearer then some token else none

unfoldable pub extract_token_from_header : Option (List ℕ) → Option (List ℕ)
unfolding token_of
extract_token_from_header none = none
extract_token_from_header (some authorization) = token_of (split space authorization)

abbrev pub user_of : JwtPayload → User
user_of p = record { sub = p.sub; username = p.username; device_id = p.device_id }

abbrev pub refused : Exception
refused = domain unauthorized 401

module _ (C : Store ℕ Bool) (verify : List ℕ → ℕ → Verified) where
  -- The `try` of `canActivate`; every other error becomes UNAUTHORIZED there.
  unfoldable pub after_verify : ℕ → C.State → Verified → Result Exception User
  after_verify now cache (valid p) =
      if is_revoked C p.jti now cache then err refused else ok (user_of p)
  after_verify now cache expired = err (domain error_code_token_expired 401)
  after_verify now cache invalid = err refused

  -- A missing token and an empty one are refused alike.
  unfoldable pub with_token : ℕ → C.State → Option (List ℕ) → Result Exception User
  with_token now cache none = err refused
  with_token now cache (some []) = err refused
  with_token now cache (some (c ∷ cs)) = after_verify now cache (verify (c ∷ cs) now)

  -- `none` where the route is public and the request keeps no user.
  unfoldable pub can_activate :
      Bool → Option (List ℕ) → ℕ → C.State → Result Exception (Option User)
  can_activate is_public authorization now cache =
      if is_public
      then ok none
      else elim (with_token now cache (extract_token_from_header authorization)) [
        | ok user ↦ ok (some user)
        | err e ↦ err e
      ]
