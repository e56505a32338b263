-- ===== src/Flows/Tests.antt =====
-- The services of apps together, on a user with one device.
use ocean_chat_private.Prelude.{
  ℕ, ◌+◌, ◌≡◌, refl, List, [], ◌∷◌, ◌++◌, Option, none, some, Bool, true, false, err, arith,
  if◌then◌else◌,
}
use ocean_chat_private.Store.{setnx_until}
use ocean_chat_private.Store.Table.{table}
use ocean_chat_private.Auth.Sessions
use ocean_chat_private.Auth.Sessions.{
  Session, session, State, Fresh, hget, hset, generate_tokens, login, logout, rotate, with_session,
  locked_refresh, with_payload, refresh_token,
}
use ocean_chat_private.Gateway.Revocation
use ocean_chat_private.Gateway.Revocation.{on_event, here}
use ocean_chat_private.Gateway.Revocation.Laws
use ocean_chat_private.Gateway.Guard
use ocean_chat_private.Gateway.Guard.{
  Verified, split, same_text, space, bearer, token_of, extract_token_from_header, refused,
  can_activate,
}
use ocean_chat_private.Flows.Revoked.{revocation, logged_out_token_refused, rotated_token_refused}

abbrev no_faults : Sessions.Faults
no_faults = record {
  setnx = none;
  hget = none;
  hgetall = none;
  del = none;
  hdel = none;
  find_user = none;
  sign = none;
  exec = none;
  release = false;
}

abbrev delivered : Revocation.Faults
delivered = record { setnx = false; cache_set = false; del = false }

abbrev expiry_of : ℕ → Option ℕ
expiry_of token = some (token + 1000)

abbrev fresh : ℕ → Fresh
fresh n = record { access_jti = n; refresh_jti = n + 1; access_token = n; refresh_token = n + 1 }

abbrev logged_in : State (table ℕ)
logged_in =
    (login (table ℕ) expiry_of no_faults (fresh 10) 1
      (record { sessions = []; revocations = []; locks = (table ℕ).empty })).0

abbrev first_session : Session
first_session = record { access_token = 10; refresh_token = 11; access_jti = 10; refresh_jti = 11 }

-- Only the text 'x' is a token.
abbrev verify : List ℕ → ℕ → Verified
verify token now =
    if same_text token (120 ∷ [])
    then Guard.valid (record { jti = 10; sub = 1; username = 2; device_id = 1 })
    else Guard.invalid

abbrev header : Option (List ℕ)
header = some (bearer ++ space ∷ 120 ∷ [])

abbrev empty_redis : ℕ → Option (Unit {0} × ℕ)
empty_redis = λ _. none

abbrev empty_cache : ℕ → Option (Bool × ℕ)
empty_cache = λ _. none

abbrev cache_after : ℕ → Option (Bool × ℕ)
cache_after =
    (on_event (table Bool) (table Unit) delivered (revocation first_session 1010) 5500 empty_redis
      empty_cache).1

logged_out_token_refused_example :
    ((logout (table ℕ) expiry_of no_faults 1 logged_in).0.revocations
      ≡ (10, 1010) ∷ logged_in.revocations)
    × (can_activate (table Bool) verify false header 900000 cache_after ≡ err refused)
unfolding login generate_tokens hget hset extract_token_from_header token_of split same_text
    Laws.NoFaults
logged_out_token_refused_example =
    logged_out_token_refused (table ℕ) expiry_of (table Bool) (table Unit) verify no_faults 1
      first_session 1010 logged_in delivered 5500 900000 empty_redis empty_cache cache_after header
      (120 ∷ []) (record { jti = 10; sub = 1; username = 2; device_id = 1 }) (refl, refl) refl refl
      (refl, refl, refl) refl (omega arith) here refl refl refl (omega arith)

abbrev payload : Sessions.JwtPayload
payload = record { jti = 11; device_id = 1 }

rotated_token_refused_example :
    ((refresh_token
        (table ℕ)
        expiry_of
        no_faults
        (fresh 30)
        true
        7
        1000
        1100
        (Sessions.Verified.valid payload)
        logged_in).0.revocations
      ≡ (10, 1010) ∷ logged_in.revocations)
    × (can_activate (table Bool) verify false header 900000 cache_after ≡ err refused)
unfolding login generate_tokens refresh_token with_payload setnx_until locked_refresh with_session
    rotate hget hset extract_token_from_header token_of split same_text Laws.NoFaults
rotated_token_refused_example =
    rotated_token_refused (table ℕ) expiry_of (table Bool) (table Unit) verify no_faults (fresh 30)
      true 7 1000 1100 1010 payload first_session logged_in (30, 31) delivered 5500 900000
      empty_redis empty_cache cache_after header (120 ∷ [])
      (record { jti = 10; sub = 1; username = 2; device_id = 1 }) refl (omega arith) refl refl refl
      (refl, refl, refl) refl (omega arith) here refl refl refl (omega arith)
