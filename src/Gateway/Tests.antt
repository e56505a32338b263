-- ===== src/Gateway/Tests.antt =====
-- apps/oceanchat-api-gateway/src: the revocation and the guard on concrete events and requests.
use ocean_chat_private.Prelude.{
  ℕ, ◌≡◌, ◌⊎◌, refl, List, [], ◌∷◌, ◌++◌, Option, none, some, Bool, true, false, ok, err, ltb,
  arith, if◌then◌else◌,
}
use ocean_chat_private.Exceptions.{domain, unauthorized, error_code_token_expired}
use ocean_chat_private.Store.Table.{table}
use ocean_chat_private.Gateway.Revocation.{
  TokenRevokedEvent, Faults, is_revoked, on_event, Handled, here, next,
}
use ocean_chat_private.Gateway.Revocation.Laws.{NoFaults, Agrees}
use ocean_chat_private.Gateway.Guard.{
  JwtPayload, User, Verified, valid, expired, invalid, split, same_text, space, bearer, token_of,
  extract_token_from_header, user_of, refused, after_verify, with_token, can_activate,
}
use ocean_chat_private.Gateway.Guard.Decisions.{
  Accepted, extract-bearer, can_activate-Accepted, can_activate-err, revoked_token_refused,
  second_pod_accepts,
}

abbrev no_faults : Faults
no_faults = record { setnx = false; cache_set = false; del = false }

abbrev failing : Faults
failing = record { setnx = false; cache_set = true; del = false }

abbrev event : TokenRevokedEvent
event = record { jti = 7; exp = 100 }

abbrev payload : JwtPayload
payload = record { jti = 7; sub = 1; username = 2; device_id = 3 }

-- Only the text 'x' is a token; it expires after 100 seconds.
abbrev verify : List ℕ → ℕ → Verified
verify token now =
    if same_text token (120 ∷ [])
    then (if ltb now 100000 then valid payload else expired)
    else invalid

abbrev Blacklist : Type 0
Blacklist = ℕ → Option (Bool × ℕ)

abbrev Redis : Type 0
Redis = ℕ → Option (Unit {0} × ℕ)

abbrev empty_cache : Blacklist
empty_cache = λ _. none

abbrev empty_redis : Redis
empty_redis = λ _. none

abbrev header : Option (List ℕ)
header = some (bearer ++ space ∷ 120 ∷ [])

bearer_found : extract_token_from_header header ≡ some (120 ∷ [])
bearer_found = extract-bearer (120 ∷ []) (refl, tt)

-- A header of another scheme holds no token.
basic : extract_token_from_header (some (66 ∷ 32 ∷ 120 ∷ [])) ≡ none
unfolding extract_token_from_header token_of split same_text
basic = refl

abbrev handled : Blacklist
handled = (on_event (table Bool) (table Unit) no_faults event 5500 empty_redis empty_cache).1

-- The same event is delivered again, and the cache fails.
again :
    Handled
      (table Bool)
      (table Unit)
      (Agrees (table Bool) (table Unit) 7 100)
      handled
      (on_event (table Bool) (table Unit) failing event 6000 empty_redis handled).1
unfolding Agrees
again = next failing event 6000 empty_redis (λ _. refl) here

can_activate-Accepted_example :
    (u : User) × (some (user_of payload) ≡ some u)
    × Accepted (table Bool) verify header 6000 empty_cache u
unfolding can_activate with_token after_verify is_revoked extract_token_from_header token_of split
    same_text
can_activate-Accepted_example =
    can_activate-Accepted (table Bool) verify header 6000 empty_cache (some (user_of payload)) refl

expired_refused :
    (false ≡ false)
    × ((domain error_code_token_expired 401 ≡ domain unauthorized 401)
        ⊎ (domain error_code_token_expired 401 ≡ domain error_code_token_expired 401))
unfolding can_activate with_token after_verify is_revoked extract_token_from_header token_of split
    same_text
expired_refused =
    can_activate-err (table Bool) verify false header 100000 empty_cache
      (domain error_code_token_expired 401) refl

revoked_token_refused_example :
    can_activate
      (table Bool)
      verify
      false
      header
      99999
      (on_event (table Bool) (table Unit) failing event 6000 empty_redis handled).1
    ≡ err refused
unfolding extract_token_from_header token_of split same_text NoFaults
revoked_token_refused_example =
    revoked_token_refused (table Bool) verify (table Unit) no_faults event 5500 99999 empty_redis
      empty_cache _ header (120 ∷ []) payload (refl, refl, refl) refl (omega arith) again refl refl
      refl (omega arith)

second_pod_accepts_example :
    can_activate
      (table Bool)
      verify
      false
      header
      6000
      (on_event
        (table Bool)
        (table Unit)
        no_faults
        event
        5600
        (on_event (table Bool) (table Unit) no_faults event 5500 empty_redis empty_cache).0
        empty_cache).1
    ≡ ok (some (user_of payload))
unfolding extract_token_from_header token_of split same_text NoFaults is_revoked
second_pod_accepts_example =
    second_pod_accepts (table Bool) verify (table Unit) no_faults no_faults event 5500 5600 6000
      empty_redis empty_cache empty_cache header (120 ∷ []) payload (refl, refl, refl) refl
      (omega arith) ((λ e. ground arith), refl) refl refl
