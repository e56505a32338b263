-- ===== src/Gateway/AuthController/Tests.antt =====
-- apps/oceanchat-api-gateway/src/modules: the controllers on concrete answers and cookies.
use ocean_chat_private.Prelude.{
  ℕ, ◌≡◌, ◌≢◌, refl, ap, [], ◌∷◌, none, some, true, ok, err, arith, ◌==◌, All, Bool-cases, inl, inr,
  if◌then◌else◌,
}
use ocean_chat_private.Gateway.Guard.{same_text}
use ocean_chat_private.Http.Filter.{domain, Thrown, app, client_response, create_error_response}
use ocean_chat_private.Gateway.Cookies.{Text, is_space, refresh_token_name, refresh_token_of}
use ocean_chat_private.Gateway.Cookies.RoundTrip.{print_cookies, cookie_before_body}
use ocean_chat_private.Rpc.Client.{Caught, Reply, after, handle_rpc_exception, within}
use ocean_chat_private.Rpc.Propagation
use ocean_chat_private.Rpc.Breaker.{merged, find, breaker_of}
use ocean_chat_private.Rpc.Breaker.Strict.{strict, strict-IsOpossum}
use ocean_chat_private.Gateway.AuthController.{
  LoginResult, RefreshTokenResult, Texts, refresh_cookie, login, refresh, logout,
}
use ocean_chat_private.Gateway.AuthController.Outcomes.{
  is_unreserved, IsUnreserved, Told, Lets, error_reaches_client, login_cookie_refreshes,
}
use ocean_chat_private.Gateway.UsersController
use ocean_chat_private.Gateway.UsersController.{get_my_profile}
use ocean_chat_private.Gateway.UsersController.Profile.{Answers, get_my_profile_lem}

abbrev texts : Texts
texts = record {
  internal_server_error = [];
  registration_failed = [];
  refreshtoken_error = [];
  unauthorized = [];
  service_unavailable = [];
  rpc_timeout = [];
  breaker_timeout = [];
}

abbrev gateway : Propagation.Texts
gateway = record { internal_server_error = 73 ∷ []; system_unavailable = 83 ∷ [] }

abbrev reused : Thrown Caught
reused = app domain (114 ∷ []) 10031 401 none

cons-ne : (c : ℕ) (cs : Text) → c ∷ cs ≢ []
cons-ne c cs e = cc

abbrev refusal : Caught
refusal = handle_rpc_exception gateway.internal_server_error gateway.system_unavailable reused

abbrev auth : Text → Reply RefreshTokenResult
auth token = after 40 (err refusal)

error_reaches_client_example :
    Told gateway gateway reused []
      (login strict texts true 60 {U = ℕ} 0 (after 40 (err refusal)) [] []).1
    × Told gateway gateway reused []
        (refresh strict texts true 60 0 auth none (some (116 ∷ [])) [] []).1
    × Told gateway gateway reused []
        (logout strict texts true 60 0 (after 40 (err refusal)) [] []).1
unfolding Lets breaker_of find merged refresh_token_of client_response create_error_response
error_reaches_client_example =
    error_reaches_client strict strict-IsOpossum texts true 60 ℕ gateway gateway reused 0 40 none
      (some (116 ∷ [])) (116 ∷ []) [] [] auth (omega arith) (cons-ne 114 []) refl refl
      (refl, omega arith) (refl, omega arith) (refl, omega arith)

-- The cookie `a=1` stands before the refresh token `t`.
cookie_before_body_run :
    refresh_token_of
      (some (print_cookies ((97 ∷ [], 49 ∷ []) ∷ (refresh_token_name, 116 ∷ []) ∷ [])))
      (some (98 ∷ []))
    ≡ some (116 ∷ [])
unfolding is_space
cookie_before_body_run =
    cookie_before_body ((97 ∷ [], 49 ∷ []) ∷ []) (116 ∷ []) [] (some (98 ∷ [])) (ground arith) tt
      (cons-ne 116 [])

abbrev tokens : LoginResult ℕ
tokens = record { access_token = 97 ∷ []; refresh_token = 116 ∷ []; user = 5 }

abbrev new_tokens : RefreshTokenResult
new_tokens = record { access_token = 98 ∷ []; refresh_token = 117 ∷ [] }

abbrev rotating : Text → Reply RefreshTokenResult
rotating token = after 30 (if same_text token (116 ∷ []) then ok new_tokens else err refusal)

-- An encoding that knows only the space.
abbrev percent_encode : Text → Text
percent_encode [] = []
percent_encode (c ∷ cs) =
    let rest = percent_encode cs in if c == 32 then 37 ∷ 50 ∷ 48 ∷ rest else c ∷ rest

percent_encode-IsUnreserved : (x : Text) → All IsUnreserved x → percent_encode x ≡ x
percent_encode-IsUnreserved [] a = refl
percent_encode-IsUnreserved (c ∷ cs) (free, a) = elim (Bool-cases (c == 32)) [
  | inl space ↦ absurd (ground (arith, ap is_unreserved (eq-number c 32 space)))
  | inr other ↦ rw other (ap (λ t. c ∷ t) (percent_encode-IsUnreserved cs a))
]
  where
    eq-number : (m n : ℕ) → (m == n) ≡ true → m ≡ n
    eq-number m n h = ground arith

login_cookie_refreshes_example :
    ((login strict texts true 60 0 (after 40 (ok tokens)) [] []).1
      ≡ (refresh_cookie strict texts true 60 (116 ∷ []) ∷ [], ok (97 ∷ [], 5)))
    × ((refresh strict texts true 60 900 rotating
          (some (print_cookies ((refresh_token_name, percent_encode (116 ∷ [])) ∷ [])))
          none
          []
          []).1
        ≡ (refresh_cookie strict texts true 60 (117 ∷ []) ∷ [], ok (98 ∷ [])))
unfolding Lets breaker_of find merged is_space same_text
login_cookie_refreshes_example =
    login_cookie_refreshes strict strict-IsOpossum texts true 60 percent_encode 0 40 900 30 tokens
      new_tokens [] [] [] [] [] [] none rotating percent_encode-IsUnreserved (refl, tt)
      (omega arith) (omega arith) (refl, omega arith) (refl, omega arith) (ground arith) tt
      (cons-ne 116 []) refl

abbrev user_texts : UsersController.Texts
user_texts = record {
  user_not_found = 110 ∷ [];
  internal_server_error = [];
  service_unavailable = [];
  rpc_timeout = [];
  breaker_timeout = [];
}

get_my_profile_lem_run :
    Answers strict strict-IsOpossum user_texts [] gateway
      (ok none)
      (get_my_profile strict user_texts {U = ℕ} 0 (after 40 (ok none)) []).1
unfolding breaker_of find merged within
get_my_profile_lem_run =
    get_my_profile_lem strict strict-IsOpossum user_texts [] gateway 0 (after 40 (ok none))
      (cons-ne 110 []) refl (omega arith)
