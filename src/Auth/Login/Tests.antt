-- ===== src/Auth/Login/Tests.antt =====
-- apps/oceanchat-auth/src: a login while the user service does not answer.
use ocean_chat_private.Prelude.{
  ℕ, ◌≡◌, ◌≢◌, refl, ap, inr, [], ◌∷◌, Option, none, some, true, Result, ok, err,
}
use ocean_chat_private.Http.Filter.{Text, Thrown}
use ocean_chat_private.Rpc.Client.{
  Caught, Reply, silence, timeout_error, send, within, rethrown, handle_rpc_exception,
  unexpected_error,
}
use ocean_chat_private.Rpc.Propagation
use ocean_chat_private.Rpc.Breaker.{is_client_error}
use ocean_chat_private.Auth.Login.{
  Authenticated, success, failure, error, Passport, IsPassport, Cause, Texts, validate_password,
  validate, login,
}
use ocean_chat_private.Auth.Login.Outage.{told, outage_told_as_wrong_password}

abbrev report : Result (Thrown Caught) (Option ℕ) → Authenticated ℕ
report (ok none) = failure
report (ok (some user)) = success user
report (err e) = error e

-- Both credentials are handed to `validate` where they are given and not empty.
abbrev authenticate :
    Option Text → Option Text → (Text → Text → Result (Thrown Caught) (Option ℕ)) → Authenticated ℕ
authenticate (some (u ∷ us)) (some (p ∷ ps)) validate = report (validate (u ∷ us) (p ∷ ps))
authenticate _ _ validate = failure

abbrev passport : Passport ℕ
passport = record { authenticate = authenticate }

passport-IsPassport : IsPassport passport
passport-IsPassport = record {
  authenticate_error = λ u us p ps f e h. ap report h;
  authenticate_none = λ u us p ps f h. ap report h;
  authenticate_some = λ u us p ps f user h. ap report h;
}

abbrev texts : Texts
texts = record { internal_server_error = []; unauthorized = 85 ∷ []; rpc_timeout = [] }

abbrev gateway : Propagation.Texts
gateway = record { internal_server_error = 73 ∷ []; system_unavailable = 83 ∷ [] }

cons-ne : (c : ℕ) (cs : Text) → c ∷ cs ≢ []
cons-ne c cs e = cc

abbrev silent : Text → Text → Reply (Option ℕ)
silent name password = silence

abbrev logs_in : ℕ → Result (Thrown Cause) ℕ
logs_in user = ok user

outage_told_as_wrong_password_example :
    (thrown : Thrown Cause) × (login texts passport silent logs_in (some (97 ∷ [])) (some (98 ∷ []))
      ≡ err thrown)
    × (told texts passport passport-IsPassport silent logs_in gateway gateway [] 99999 thrown
        ≡ record { status_code = 401; message = 85 ∷ []; error_code = 10030 })
    × (is_client_error (
          rethrown [] 99999
            (handle_rpc_exception gateway.internal_server_error gateway.system_unavailable thrown))
        ≡ true)
unfolding validate validate_password send within
outage_told_as_wrong_password_example =
    outage_told_as_wrong_password texts passport passport-IsPassport silent logs_in gateway gateway
      [] 99999 97 [] 98 [] (cons-ne 85 [])
      (inr (rethrown [] unexpected_error (timeout_error []), refl))
