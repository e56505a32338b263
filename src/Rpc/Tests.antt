-- ===== src/Rpc/Tests.antt =====
-- Errors between services and the circuit breakers of libs/cores, on concrete calls.
use ocean_chat_private.Prelude.{ℕ, ap, ◌≡◌, ◌≢◌, refl, [], ◌∷◌, none, ok, err, arith}
use ocean_chat_private.Http.Filter.{
  client_response, create_error_response, Text, domain, infrastructure, Thrown, app, native,
  handle_http_exception,
}
use ocean_chat_private.Gateway.Guard.{same_text}
use ocean_chat_private.Rpc.Client.{
  Caught, primitive, after, send, rethrown, handle_rpc_exception, within,
}
use ocean_chat_private.Rpc.Propagation.{Texts, relayed, seen_at, error_propagates, lost_call_hidden}
use ocean_chat_private.Rpc.Breaker.{Overrides, merged, is_client_error}
use ocean_chat_private.Rpc.Breaker.Calls.{
  Call, IsClientError, of_program, of_http, of_error, IsHarmlessResult,
}
use ocean_chat_private.Rpc.Breaker.ClientErrors.{run, client_errors_pass}
use ocean_chat_private.Rpc.Breaker.Strict.{strict, strict-IsOpossum}

abbrev texts : Texts
texts = record { internal_server_error = 73 ∷ []; system_unavailable = 83 ∷ [] }

abbrev wrong_password : Thrown Caught
wrong_password = app domain (119 ∷ []) 10020 401 none

abbrev user_missing : Thrown Caught
user_missing = app domain (110 ∷ []) 10001 404 none

cons-ne : (c : ℕ) (cs : Text) → c ∷ cs ≢ []
cons-ne c cs e = cc

-- A user that the user service does not find during a refresh: the auth service between it and the gateway throws
-- the error on.
error_propagates_example :
    handle_http_exception texts.internal_server_error texts.system_unavailable (
      relayed ((texts, 109 ∷ [], 99999) ∷ []) (
        rethrown
          (109 ∷ [])
          99999
          (handle_rpc_exception texts.internal_server_error texts.system_unavailable user_missing)))
    ≡ seen_at texts user_missing
unfolding client_response create_error_response
error_propagates_example =
    error_propagates texts texts (109 ∷ []) 99999 ((texts, 109 ∷ [], 99999) ∷ []) user_missing
      (cons-ne 110 [])

lost_call_hidden_run :
    handle_http_exception texts.internal_server_error texts.system_unavailable
      (rethrown (109 ∷ []) 99999 primitive)
    ≡ record { status_code = 500; message = 83 ∷ []; error_code = 50300 }
unfolding send within
lost_call_hidden_run =
    lost_call_hidden {A = ℕ} texts (116 ∷ []) (109 ∷ []) 99999 5000 (after 3 (err primitive))
      (rethrown (109 ∷ []) 99999 primitive) refl (λ t e same. ground arith)

abbrev no_overrides : Overrides
no_overrides = record {
  timeout = none;
  error_threshold_percentage = none;
  reset_timeout = none;
  error_filter = none;
}

abbrev login_refused : Call ℕ
login_refused = record {
  name = 108 ∷ [];
  options = no_overrides;
  now = 0;
  duration = 20;
  result = err wrong_password;
}

abbrev login_passes : Call ℕ
login_passes = record {
  name = 108 ∷ [];
  options = no_overrides;
  now = 30;
  duration = 20;
  result = ok 7;
}

abbrev users_down : Thrown Caught
users_down = native (100 ∷ []) none

abbrev profile_fails : Call ℕ
profile_fails = record {
  name = 112 ∷ [];
  options = no_overrides;
  now = 60;
  duration = 20;
  result = err users_down;
}

abbrev profile_refused : Call ℕ
profile_refused = record {
  name = 112 ∷ [];
  options = no_overrides;
  now = 5000;
  duration = 20;
  result = ok 8;
}

down_is_no-IsClientError : ¬ IsClientError users_down
down_is_no-IsClientError h = no_status h refl
  where
    no_status : {e : Thrown Caught} → IsClientError e → e ≡ users_down → ⊥
    no_status (of_program l u) e = cc
    no_status (of_http l u) e = cc
    no_status (of_error l u) e = cc

other_name : ◌≢◌ {A = Text} (108 ∷ []) (112 ∷ [])
unfolding same_text
other_name e = ground (arith, ap (λ t. same_text t (112 ∷ [])) e)

client_errors_pass_example :
    (run strict strict-IsOpossum
      (83 ∷ [])
      []
      5000
      (login_refused ∷ login_passes ∷ profile_fails ∷ profile_refused ∷ [])
      []).1
    ≡ err wrong_password
      ∷ ok 7
      ∷ err users_down
      ∷ err (app infrastructure (83 ∷ []) 50301 503 none)
      ∷ []
unfolding IsHarmlessResult merged is_client_error
client_errors_pass_example =
    client_errors_pass strict strict-IsOpossum (83 ∷ []) [] 5000 (login_refused ∷ login_passes ∷ [])
      profile_fails profile_refused users_down
      (
        record {
          in_time = omega arith;
          patient = omega arith;
          default_filter = refl;
          harmless_result = of_program (omega arith) (omega arith);
        },
        (
          record {
            in_time = omega arith;
            patient = omega arith;
            default_filter = refl;
            harmless_result = tt;
          },
          tt,
        ),
      )
      (other_name, (other_name, tt))
      (record {
        throws = refl;
        not_client = down_is_no-IsClientError;
        in_time = omega arith;
        default_filter = refl;
        threshold = omega arith;
      })
      (record { same_name = refl; settled = omega arith; not_reset = omega arith })
