-- ===== src/Rpc/Breaker/Calls.antt =====
-- libs/cores/src/modules/circuit-breaker/circuit-breaker.service.ts: calls of `fire`, which of their errors are those
-- of clients, and the Map of breakers.
use ocean_chat_private.Prelude.{
  ℕ, ◌+◌, ◌≤◌, ◌<◌, ◌≡◌, ◌≢◌, refl, sym, ap, ◌∙◌, inl, inr, [], ◌∷◌, Option, none, some, true,
  false, Result, ok, err, same_text_sound, same_text_refl, if◌then◌else◌, arith, Bool-cases,
}
use ocean_chat_private.Http.Filter.{
  Text, ExceptionType, HttpResponse, Thrown, app, http, rpc, ws, native, unknown,
}
use ocean_chat_private.Gateway.Guard.{same_text}
use ocean_chat_private.Rpc.Client.{Caught}
use ocean_chat_private.Rpc.Breaker.{
  Overrides, Opossum, status_of, is_4xx, is_client_error, merged, Breakers, find, put,
}

same_text_differs : (s t : Text) → s ≢ t → same_text s t ≡ false
same_text_differs s t differs = elim (Bool-cases (same_text s t)) [
  | inl same ↦ absurd (differs (same_text_sound s t same))
  | inr differ ↦ differ
]

-- A call of `fire` whose action settles.
pub record Call (A : Type 0) : Type 0 where
  pub name : Text
  pub options : Overrides
  pub now : ℕ
  pub duration : ℕ
  pub result : Result (Thrown Caught) A

-- An exception of the program or of HTTP, or another error, that carries a status from 400 to 499.
pub data IsClientError : Thrown Caught → Type 0 where
  of_program :
      {type : ExceptionType} {message : Text} {code status : ℕ} {details : Option Caught}
      → 400 ≤ status
      → status ≤ 499
      → IsClientError (app type message code status details)
  of_http :
      {status : ℕ} {response : HttpResponse}
      → 400 ≤ status
      → status ≤ 499
      → IsClientError (http status response)
  of_error :
      {message : Text} {status : ℕ}
      → 400 ≤ status
      → status ≤ 499
      → IsClientError (native message (some status))

is_4xx-bounds : (status : ℕ) → is_4xx (some status) ≡ true → (400 ≤ status) × (status ≤ 499)
is_4xx-bounds status h = (ground arith, ground arith)

bounds-is_4xx : (status : ℕ) → 400 ≤ status → status ≤ 499 → is_4xx (some status) ≡ true
bounds-is_4xx status l u = ground arith

pub is_client_error-IsClientError : (e : Thrown Caught) → is_client_error e ≡ true → IsClientError e
unfolding is_client_error status_of
is_client_error-IsClientError (app type message code status details) h =
    let (l, u) = is_4xx-bounds status h in of_program l u
is_client_error-IsClientError (http status response) h =
    let (l, u) = is_4xx-bounds status h in of_http l u
is_client_error-IsClientError (native message (some status)) h =
    let (l, u) = is_4xx-bounds status h in of_error l u
is_client_error-IsClientError (native message none) h = cc
is_client_error-IsClientError (rpc payload) h = cc
is_client_error-IsClientError (ws payload) h = cc
is_client_error-IsClientError unknown h = cc

pub IsClientError-is_client_error : (e : Thrown Caught) → IsClientError e → is_client_error e ≡ true
unfolding is_client_error status_of
IsClientError-is_client_error _ (of_program l u) = bounds-is_4xx _ l u
IsClientError-is_client_error _ (of_http l u) = bounds-is_4xx _ l u
IsClientError-is_client_error _ (of_error l u) = bounds-is_4xx _ l u

pub not_client_error : (e : Thrown Caught) → ¬ IsClientError e → is_client_error e ≡ false
not_client_error e h = elim (Bool-cases (is_client_error e)) [
  | inl is ↦ absurd (h (is_client_error-IsClientError e is))
  | inr other ↦ other
]

-- The action succeeds, or throws a client error.
unfoldable pub IsHarmlessResult : {A : Type 0} → Result (Thrown Caught) A → Type 0
IsHarmlessResult (ok a) = Unit
IsHarmlessResult (err e) = IsClientError e

-- A call that leaves every breaker closed: its action succeeds or throws a client error before `limit`, which no
-- timeout is below, and the filter is the default one.
pub record IsHarmless {A : Type 0} (limit : ℕ) (c : Call A) : Type 0 where
  pub in_time : c.duration < limit
  pub patient : limit ≤ (merged c.options).timeout
  pub default_filter : (merged c.options).error_filter ≡ is_client_error
  pub harmless_result : IsHarmlessResult c.result

-- The action throws `e`, no client error, in time; the filter is the default one.
pub record IsOutage {A : Type 0} (c : Call A) (e : Thrown Caught) : Type 0 where
  pub throws : c.result ≡ err e
  pub not_client : ¬ IsClientError e
  pub in_time : c.duration < (merged c.options).timeout
  pub default_filter : (merged c.options).error_filter ≡ is_client_error
  pub threshold : (merged c.options).error_threshold_percentage < 100

-- A call of the same name once the other has settled, before the breaker of that one may be tried again.
pub record IsSoonAfter {A : Type 0} (c later : Call A) : Type 0 where
  pub same_name : later.name ≡ c.name
  pub settled : c.now + c.duration ≤ later.now
  pub not_reset : later.now < c.now + c.duration + (merged c.options).reset_timeout

module _ (O : Opossum) (service_unavailable timed_out_text : Text) where
  pub find-put :
      (name : Text) (breakers : Breakers O service_unavailable timed_out_text) (b : O.State)
      → find O service_unavailable timed_out_text name
          (put O service_unavailable timed_out_text name b breakers)
        ≡ some b
  unfolding find put
  find-put name [] b = ground (arith, same_text_refl name)
  find-put name ((n, c) ∷ rest) b = ground (arith, find-put name rest b)

  pub find-put_other :
      (name other : Text) (breakers : Breakers O service_unavailable timed_out_text) (b : O.State)
      → name ≢ other
      → find O service_unavailable timed_out_text other
          (put O service_unavailable timed_out_text name b breakers)
        ≡ find O service_unavailable timed_out_text other breakers
  unfolding find put
  find-put_other name other [] b differs = rw (same_text_differs name other differs) refl
  find-put_other name other ((n, c) ∷ rest) b differs = elim (Bool-cases (same_text n name)) [
    | inl same ↦
        rw same (
          rw (same_text_differs n other (λ e. differs (sym (same_text_sound n name same) ∙ e)))
            refl)
    | inr differ ↦ rw differ (
        ap (λ o. if same_text n other then some c else o)
          (find-put_other name other rest b differs))
  ]
