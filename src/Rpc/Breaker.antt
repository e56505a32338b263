-- ===== src/Rpc/Breaker.antt =====
-- libs/cores/src/modules/circuit-breaker/circuit-breaker.service.ts: calls behind circuit breakers, one for
-- each name. The breakers are those of the package opossum, a parameter with its documented behaviour as laws.
pub mod Calls
pub mod ClientErrors
pub mod Strict
use ocean_chat_private.Prelude.{
  ℕ, ◌<◌, ◌≤◌, ◌+◌, ◌≡◌, List, [], ◌∷◌, Option, none, some, Bool, true, false, Result, ok, err,
  ◌&&◌, leb, ltb, if◌then◌else◌,
}
use ocean_chat_private.Http.Filter.{
  Text, domain, infrastructure, Thrown, app, http, rpc, ws, native, unknown,
}
use ocean_chat_private.Gateway.Guard.{same_text}
use ocean_chat_private.Rpc.Client.{Caught}

-- CircuitBreaker.Options, as far as the service sets them.
pub record Options : Type 0 where
  pub timeout : ℕ
  pub error_threshold_percentage : ℕ
  pub reset_timeout : ℕ
  pub error_filter : Thrown Caught → Bool

-- The options of a call, each of which may be left out.
pub record Overrides : Type 0 where
  pub timeout : Option ℕ
  pub error_threshold_percentage : Option ℕ
  pub reset_timeout : Option ℕ
  pub error_filter : Option (Thrown Caught → Bool)

-- What an action does: it never settles, or returns or throws after some milliseconds.
pub data Attempt (A : Type 0) : Type 0 where
  hangs : Attempt A
  settles : ℕ → Result (Thrown Caught) A → Attempt A

-- What firing a breaker comes to: the code EOPENBREAKER, a timeout of the breaker, or what the action did.
pub data Fired (A : Type 0) : Type 0 where
  open_breaker timed_out : Fired A
  settled : Result (Thrown Caught) A → Fired A

pub record Opossum : Type 1 where
  pub State : Type 0
  pub create : Options → State
  pub fire : (A : Type 0) → ℕ → Attempt A → State → State × Fired A
  pub options_of : State → Options
  pub IsClosed : State → Type 0

-- What is relied on: a new breaker is closed; a closed one passes on what an action does in time, and is
-- opened neither by a success nor by an error that its filter names; the options do not change. The rate of failures
-- after one counted failure of a new breaker is 100 percent: a threshold below that opens it for `reset_timeout`.
pub record IsOpossum (O : Opossum) : Type 1 where
  pub create_closed : (o : Options) → O.IsClosed (O.create o)
  pub create_options : (o : Options) → O.options_of (O.create o) ≡ o
  pub fire_options :
      (A : Type 0) (now : ℕ) (a : Attempt A) (b : O.State)
      → O.options_of (O.fire A now a b).0 ≡ O.options_of b
  pub closed_passes :
      (A : Type 0) (now t : ℕ) (r : Result (Thrown Caught) A) (b : O.State)
      → O.IsClosed b
      → t < (O.options_of b).timeout
      → (O.fire A now (settles t r) b).1 ≡ settled r
  pub success_keeps_closed :
      (A : Type 0) (now t : ℕ) (a : A) (b : O.State)
      → O.IsClosed b
      → t < (O.options_of b).timeout
      → O.IsClosed (O.fire A now (settles t (ok a)) b).0
  pub filtered_keeps_closed :
      (A : Type 0) (now t : ℕ) (e : Thrown Caught) (b : O.State)
      → O.IsClosed b
      → t < (O.options_of b).timeout
      → (O.options_of b).error_filter e ≡ true
      → O.IsClosed (O.fire A now (settles t (err e)) b).0
  pub new_failure_opens :
      (A : Type 0) (now t later : ℕ) (e : Thrown Caught) (a : Attempt A) (o : Options)
      → t < o.timeout
      → o.error_filter e ≡ false
      → o.error_threshold_percentage < 100
      → now + t ≤ later
      → later < now + t + o.reset_timeout
      → (O.fire A later a (O.fire A now (settles t (err e)) (O.create o)).0).1 ≡ open_breaker

-- `error?.statusCode || error?.status`, where it is a number.
unfoldable pub status_of : Thrown Caught → Option ℕ
status_of (app type message code status details) = some status
status_of (http status response) = some status
status_of (native message status_code) = status_code
status_of (rpc payload) = none
status_of (ws payload) = none
status_of unknown = none

abbrev pub is_4xx : Option ℕ → Bool
is_4xx none = false
is_4xx (some status) = leb 400 status && ltb status 500

-- The default `errorFilter`: client errors are not counted.
unfoldable pub is_client_error : Thrown Caught → Bool
unfolding status_of
is_client_error e = is_4xx (status_of e)

abbrev pub or_default {ℓ} : {A : Type ℓ} → Option A → A → A
or_default none a = a
or_default (some b) a = b

-- The defaults with `...options` over them.
unfoldable pub merged : Overrides → Options
unfolding is_client_error
merged o = record {
  timeout = or_default o.timeout 5000;
  error_threshold_percentage = or_default o.error_threshold_percentage 50;
  reset_timeout = or_default o.reset_timeout 10000;
  error_filter = or_default o.error_filter is_client_error;
}

module _ (O : Opossum) (service_unavailable : Text) (timed_out_text : Text) where
  -- `breakers`, a Map from names.
  abbrev pub Breakers : Type 0
  Breakers = List (Text × O.State)

  unfoldable pub find : Text → Breakers → Option O.State
  find name [] = none
  find name ((n, b) ∷ rest) =
      let later = find name rest in if same_text n name then some b else later

  -- The breaker of a name after it was fired: the entry is in the Map already, or is new.
  unfoldable pub put : Text → O.State → Breakers → Breakers
  put name new [] = (name, new) ∷ []
  put name new ((n, b) ∷ rest) =
      let later = put name new rest in if same_text n name then (n, new) ∷ rest else (n, b) ∷ later

  -- The breaker that is fired: the one of the name, or a new one with the options of this call.
  unfoldable pub breaker_of : Text → Overrides → Breakers → O.State
  unfolding merged find
  breaker_of name options breakers = elim (find name breakers) [
    | none ↦ O.create (merged options)
    | some b ↦ b
  ]

  -- The `catch`: an open breaker is an exception of its own, all else is thrown again.
  unfoldable pub caught : {A : Type 0} → Fired A → Result (Thrown Caught) A
  caught (settled r) = r
  caught open_breaker = err (app infrastructure service_unavailable 50301 503 none)
  caught timed_out = err (native timed_out_text none)

  -- `fire`.
  unfoldable pub fire :
      {A : Type 0}
      → Text
      → Overrides
      → ℕ
      → Attempt A
      → Breakers
      → Breakers × Result (Thrown Caught) A
  unfolding breaker_of put caught
  fire {A} name options now action breakers =
      let (b, fired) = O.fire A now action (breaker_of name options breakers) in
      (put name b breakers, caught fired)
