-- ===== src/Http/Idempotency.antt =====
-- libs/cores/src/interceptors/idempotency.interceptor.ts: a request with an idempotency key takes the
-- key in Redis, runs its handler and stores the response; other requests with the key get the
-- response or a conflict. Keys are numbers, bodies of any type; times are milliseconds.
pub mod Replay
use ocean_chat_private.Prelude.{
  ℕ, ◌+◌, ◌*◌, Option, none, some, Bool, true, false, Result, ok, err, leb, ltb, ◌≡◌, ◌≢◌, ◌&&◌,
  ◌||◌, if◌then◌else◌,
}
use ocean_chat_private.Exceptions.{Exception, domain, other, idempotency_conflict}
use ocean_chat_private.Store.{Store, setnx_until}

pub data Method : Type 0 where
  get post put patch delete head options : Method

-- A request: `key` is its Idempotency-Key header, `none` where it is missing or empty, `cache_ttl` the
-- seconds that its route asks for. The interceptor does not look at `user` and `route`.
pub record Request : Type 0 where
  pub method : Method
  pub key : Option ℕ
  pub cache_ttl : Option ℕ
  pub user : ℕ
  pub route : ℕ

-- What Redis holds under a key.
pub data CachedResponse (B : Type 0) : Type 0 where
  processing : CachedResponse B
  completed : (status_code : ℕ) (body : B) → CachedResponse B

-- What the interceptor does when a request comes: it hands it on, it hands it on with the key taken,
-- or it answers itself.
pub data Begin (B : Type 0) : Type 0 where
  passes : Begin B
  runs : (key : ℕ) → Begin B
  replays : (status_code : ℕ) (body : B) → Begin B
  conflicts : Exception → Begin B

-- What the handler does.
pub data Handled (B : Type 0) : Type 0 where
  responds : (status_code : ℕ) (body : B) → Handled B
  throws : Exception → Handled B

abbrev pub default_cache_ttl : ℕ
default_cache_ttl = 30 * 60

-- In seconds.
abbrev pub processing_ttl : ℕ
processing_ttl = 60

abbrev pub is_checked : Method → Bool
is_checked post = true
is_checked put = true
is_checked patch = true
is_checked _ = false

abbrev pub is_success : ℕ → Bool
is_success status = leb 200 status && ltb status 300

abbrev pub ttl_of : Request → ℕ
ttl_of r = elim r.cache_ttl [ none ↦ default_cache_ttl | some ttl ↦ ttl ]

module _ {B : Type 0} where
  -- The answer of a request whose key is taken.
  unfoldable pub answer_of : Option (CachedResponse B) → Begin B
  answer_of (some (completed status_code body)) = replays status_code body
  answer_of (some processing) = conflicts (domain idempotency_conflict 409)
  answer_of none = conflicts (domain idempotency_conflict 409)

  module _ (S : Store ℕ (CachedResponse B)) where
    unfoldable pub with_key : ℕ → ℕ → S.State → S.State × Begin B
    unfolding setnx_until answer_of
    with_key key now s =
        let (locked, acquired) = setnx_until S key processing (processing_ttl * 1000) now s in
        if acquired then (locked, runs key) else (locked, answer_of (S.get key now locked))

    unfoldable pub with_header : Option ℕ → ℕ → S.State → S.State × Begin B
    with_header none now s = (s, passes)
    with_header (some key) now s = with_key key now s

    -- The part of `intercept` before the handler.
    unfoldable pub begin : Request → ℕ → S.State → S.State × Begin B
    begin r now s = if is_checked r.method then with_header r.key now s else (s, passes)

    -- The part after it. `jitter` is the random addition, in seconds; `set_throws` says that Redis
    -- fails to store the response, which is then thrown as the error of the request.
    unfoldable pub finish :
        Bool → ℕ → ℕ → ℕ → ℕ → Handled B → S.State → S.State × Result Exception B
    finish set_throws jitter ttl key now (throws e) s = (S.delete key s, err e)
    finish set_throws jitter ttl key now (responds status_code body) s =
        if is_success status_code
        then (if set_throws
            then (S.delete key s, err other)
            else (S.set key (completed status_code body) ((ttl + jitter) * 1000) now s, ok body))
        else (S.delete key s, ok body)

    -- Requests that begin before a time, and handlers of requests with other keys that finish.
    pub data Others (key until : ℕ) (s : S.State) : S.State → Type 0 where
      here : Others key until s s
      begins :
          {t : S.State} (r : Request) (now : ℕ)
          → ltb now until ≡ true
          → Others key until s t
          → Others key until s (begin r now t).0
      finishes :
          {t : S.State} (set_throws : Bool) (jitter ttl k now : ℕ) (h : Handled B)
          → k ≢ key
          → Others key until s t
          → Others key until s (finish set_throws jitter ttl k now h t).0
