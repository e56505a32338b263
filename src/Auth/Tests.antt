-- ===== src/Auth/Tests.antt =====
-- apps/oceanchat-auth/src: logins, refreshes and logouts of a user with two devices.
use ocean_chat_private.Prelude.{
  ℕ, ◌≡◌, ◌≢◌, refl, [], ◌∷◌, Option, none, some, true, false, ok, arith, ◌+◌,
}
use ocean_chat_private.Store.{setnx_until}
use ocean_chat_private.Store.Table.{table}
use ocean_chat_private.Auth.Sessions.{
  Session, session, hget, hset, State, JwtPayload, valid, Fresh, Faults, revoke_session,
  generate_tokens, login, logout, rotate, with_session, locked_refresh, with_payload, refresh_token,
}
use ocean_chat_private.Auth.Rotation.Between.{at_once, logs_in}
use ocean_chat_private.Auth.Rotation.Reuse.{
  NoFaults, Ended, replayed_token_ends_family, refresh_rotates, refresh_token_serves_once,
  logout_ends_session,
}

abbrev no_faults : Faults
no_faults = record {
  setnx = none;
  hget = none;
  hgetall = none;
  del = none;
  hdel = none;
  find_user = none;
  sign = none;
  exec = none;
  release = false;
}

-- An access token expires 1000 seconds after its number.
abbrev expiry_of : ℕ → Option ℕ
expiry_of token = some (token + 1000)

-- The tokens with the ids n and n + 1.
abbrev fresh : ℕ → Fresh
fresh n = record { access_jti = n; refresh_jti = n + 1; access_token = n; refresh_token = n + 1 }

abbrev start : State (table ℕ)
start = record { sessions = []; revocations = []; locks = (table ℕ).empty }

-- The devices 1 and 2 log in, and device 1 refreshes its tokens.
abbrev both : State (table ℕ)
both =
    (login (table ℕ) expiry_of no_faults (fresh 20) 2
      (login (table ℕ) expiry_of no_faults (fresh 10) 1 start).0).0

abbrev first_token : JwtPayload
first_token = record { jti = 11; device_id = 1 }

abbrev refreshed : State (table ℕ)
refreshed =
    (refresh_token (table ℕ) expiry_of no_faults (fresh 30) true 7 1000 1100 (valid first_token)
      both).0

rotated :
    (old : Session) × (hget 1 both.sessions ≡ some (session old))
    × (old.refresh_jti ≡ 11)
    × (refreshed.revocations ≡ revoke_session (table ℕ) expiry_of old both.revocations)
unfolding login generate_tokens refresh_token with_payload setnx_until locked_refresh with_session
    rotate hget hset
rotated =
    refresh_rotates (table ℕ) expiry_of no_faults (fresh 30) true 7 1000 1100 first_token both
      (30, 31) refl (omega arith) refl

-- A login on the third device, between the two refreshes.
abbrev meanwhile : State (table ℕ)
meanwhile = (login (table ℕ) expiry_of no_faults (fresh 50) 3 refreshed).0

refresh_token_serves_once_example : Ended (table ℕ) expiry_of meanwhile (
    refresh_token
      (table ℕ)
      expiry_of
      no_faults
      (fresh 40)
      true
      8
      1200
      1300
      (valid first_token)
      meanwhile)
unfolding login generate_tokens refresh_token with_payload setnx_until locked_refresh with_session
    rotate hget hset NoFaults
refresh_token_serves_once_example =
    refresh_token_serves_once (table ℕ) expiry_of no_faults no_faults (fresh 30) (fresh 40) true
      true 7 8 1000 1100 1200 1300 first_token both meanwhile (30, 31) refl (omega arith)
      (refl, refl, refl, refl, refl) (λ e. ground arith) refl
      (logs_in no_faults (fresh 50) 3 (λ e. ground arith) at_once)

abbrev forged : JwtPayload
forged = record { jti = 99; device_id = 2 }

replayed_token_ends_family_example :
    Ended
      (table ℕ)
      expiry_of
      both
      (refresh_token (table ℕ) expiry_of no_faults (fresh 40) true 8 1200 1300 (valid forged) both)
unfolding login generate_tokens hget hset NoFaults
replayed_token_ends_family_example =
    replayed_token_ends_family (table ℕ) expiry_of no_faults (fresh 40) true 8 1200 1300 forged
      (record { access_token = 20; refresh_token = 21; access_jti = 20; refresh_jti = 21 }) both
      (refl, refl, refl, refl, refl) refl refl (λ e. ground arith)

logout_ends_session_run :
    ((logout (table ℕ) expiry_of no_faults 1 both).1 ≡ ok tt)
    × (hget 1 (logout (table ℕ) expiry_of no_faults 1 both).0.sessions ≡ none)
    × ((d : ℕ)
        → d ≢ 1
        → hget d (logout (table ℕ) expiry_of no_faults 1 both).0.sessions ≡ hget d both.sessions)
    × ((logout (table ℕ) expiry_of no_faults 1 both).0.revocations ≡ (10, 1010) ∷ both.revocations)
unfolding login generate_tokens hget hset
logout_ends_session_run =
    logout_ends_session (table ℕ) expiry_of no_faults 1
      (record { access_token = 10; refresh_token = 11; access_jti = 10; refresh_jti = 11 }) 1010
      both refl refl refl refl
