-- ===== src/Flows/RoleQueries.antt =====
-- apps/oceanchat-api-gateway/src/common/services/rpc-role.data-source.ts: the queries for roles of a gateway that has
-- nothing in its memory, through Redis as libs/redis/src/redis.service.ts asks it, to apps/oceanchat-user/src. `D` is
-- what the database throws.
use ocean_chat_private.Prelude.{
  ℕ, ◌<◌, ◌≡◌, refl, ap, ◌∙◌, ◌⊎◌, inl, inr, Bool-cases, ltb→lt, List, [], Option, none, some, Bool,
  true, false, Result, ok, err, lt→ltb, ltb,
}
use ocean_chat_private.Exceptions.{Exception}
use ocean_chat_private.Rpc.Client
use ocean_chat_private.Http.Filter.{Text, Thrown}
use ocean_chat_private.Rpc.Client.{
  Caught, Reply, silence, after, within, send, handle_rpc_error, handle_rpc_exception,
}
use ocean_chat_private.Rpc.Propagation.{Texts}
use ocean_chat_private.Users.Queries.{Document, find_by_id, roles_or_none, query_roles}
use ocean_chat_private.Authorization.RoleCache.{
  or_empty, get_roles, after_l1, after_fetch, wrap_error,
}
use ocean_chat_private.Authorization.Lru.{get, refresh, find}

-- The answer of the user service, which its filter turns into an error response where the handler throws.
abbrev pub answered : {D A : Type 0} → Texts → Result (Thrown D) A → Result Caught A
answered s (ok a) = ok a
answered s (err e) = err (handle_rpc_exception s.internal_server_error s.system_unavailable e)

-- What comes back of a call, after some milliseconds or not at all.
abbrev pub reply_of : {A : Type 0} → Option ℕ → Result Caught A → Reply A
reply_of none answer = silence
reply_of (some t) answer = after t answer

-- `getUserGlobalRoles` and `getRolesForPermission` of RpcRoleDataSource. `exception_of` names the exceptions that
-- they throw.
abbrev pub fetched :
    (Thrown Caught → Exception) → Texts → Text → Reply (List ℕ) → Result Exception (Option (List ℕ))
fetched exception_of gateway timeout_text reply =
    elim (send timeout_text gateway.internal_server_error Client.unexpected_error 5000 reply) [
      | ok roles ↦ ok (some roles)
      | err e ↦ err (exception_of e)
    ]

-- What `getOrSet` meets in Redis: the first `get` or the lock throws, or what is cached is no JSON; the key is cached,
-- with roles or as null; the lock is acquired, and the `set` of what was fetched throws or not; or it is not
-- acquired, and the polls end with the roles that another caller has cached, or with null.
pub data SecondLevel : Type 0 where
  fails : Exception → SecondLevel
  cached : Option (List ℕ) → SecondLevel
  lock_acquired : (set_fails : Option Exception) → SecondLevel
  lock_not_acquired : Option (List ℕ) → SecondLevel

-- `getOrSet` with JSON.parse; all times to live are above 0, so that whatever was fetched is cached.
abbrev pub get_or_set :
    SecondLevel → Result Exception (Option (List ℕ)) → Result Exception (Option (List ℕ))
get_or_set (fails e) fetcher = err e
get_or_set (cached roles) fetcher = ok roles
get_or_set (lock_acquired none) fetcher = fetcher
get_or_set (lock_acquired (some x)) (ok roles) = err x
get_or_set (lock_acquired (some x)) (err e) = err e
get_or_set (lock_not_acquired roles) fetcher = ok roles

-- The answer to one query, as the cache of roles passes it on.
abbrev pub remote_roles :
    {D : Type 0}
    → (Thrown Caught → Exception)
    → Texts
    → Texts
    → Text
    → Text
    → ℕ
    → ℕ
    → SecondLevel
    → Option ℕ
    → ℕ
    → Result D (List Document)
    → Result Exception (List ℕ)
remote_roles exception_of gateway service timeout_text text asked now level arrives id db =
    (get_roles id asked now
      (get_or_set level (
        fetched exception_of gateway timeout_text
          (reply_of arrives (answered service (query_roles text id db)))))
      []).1

-- The answer arrives in time, and from a database that does not throw.
pub record Served {D : Type 0} (arrives : Option ℕ) (db : Result D (List Document)) : Type 0 where
  pub time : ℕ
  pub documents : List Document
  pub arrives_then : arrives ≡ some time
  pub in_time : time < 5000
  pub read : db ≡ ok documents

-- Which roles are found: those of the document, where the lock was acquired, the user service answers in time and
-- the roles could be cached; or those that are cached, at once or by the caller that has the lock, where null and a
-- missing list stand for no roles.
pub data Obtains {D : Type 0} (level : SecondLevel) (arrives : Option ℕ)
    (db : Result D (List Document)) (id : ℕ) : List ℕ → Type 0 where
  from_service :
      level ≡ lock_acquired none
      → (s : Served arrives db)
      → Obtains level arrives db id (roles_or_none (find_by_id id s.documents))
  from_cache : (v : Option (List ℕ)) → level ≡ cached v → Obtains level arrives db id (or_empty v)
  from_other_caller :
      (v : Option (List ℕ)) → level ≡ lock_not_acquired v → Obtains level arrives db id (or_empty v)

-- With an empty memory, the answer is that of the second level.
abbrev after_level : Result Exception (Option (List ℕ)) → Result Exception (List ℕ)
after_level (ok roles) = ok (or_empty roles)
after_level (err e) = err (wrap_error e)

abbrev is_ok : {A : Type 0} → Result Exception A → Bool
is_ok (ok a) = true
is_ok (err e) = false

error_of : {A : Type 0} (r : Result Exception A) → is_ok r ≡ false → (e : Exception) × (r ≡ err e)
error_of (ok a) h = cc
error_of (err e) h = (e, refl)

module _ {D : Type 0} (exception_of : Thrown Caught → Exception) (gateway service : Texts)
    (timeout_text text : Text) (asked now id : ℕ) where
  remote_roles-level :
      (level : SecondLevel) (arrives : Option ℕ) (db : Result D (List Document))
      → remote_roles exception_of gateway service timeout_text text asked now level arrives id db
        ≡ after_level (
            get_or_set level (
              fetched exception_of gateway timeout_text
                (reply_of arrives (answered service (query_roles text id db)))))
  unfolding get_roles after_l1 after_fetch get refresh find
  remote_roles-level level arrives db = asked_level (
      get_or_set level (
        fetched exception_of gateway timeout_text
          (reply_of arrives (answered service (query_roles text id db)))))
    where
      asked_level :
          (r : Result Exception (Option (List ℕ))) → (after_fetch id now [] r).1 ≡ after_level r
      asked_level (ok roles) = refl
      asked_level (err e) = refl

  fetched-Served :
      (arrives : Option ℕ) (db : Result D (List Document)) (s : Served arrives db)
      → fetched exception_of gateway timeout_text
          (reply_of arrives (answered service (query_roles text id db)))
        ≡ ok (some (roles_or_none (find_by_id id s.documents)))
  unfolding send within query_roles
  fetched-Served arrives db s =
      ap
        (λ a.
          fetched exception_of gateway timeout_text
            (reply_of a (answered service (query_roles text id db))))
        s.arrives_then
      ∙ rw (s.read, fetched, lt→ltb s.time 5000 s.in_time) refl

  abbrev answer_at : ℕ → Result D (List Document) → Result Exception (Option (List ℕ))
  answer_at t db =
      fetched exception_of gateway timeout_text
        (after t (answered service (query_roles text id db)))

  fetched-cases :
      (arrives : Option ℕ) (db : Result D (List Document))
      → Served arrives db
        ⊎ ((e : Exception) × (fetched exception_of gateway timeout_text
                (reply_of arrives (answered service (query_roles text id db)))
              ≡ err e))
  unfolding send within query_roles
  fetched-cases none db = inr (error_of _ refl)
  fetched-cases (some t) db = elim (Bool-cases (ltb t 5000)) [
    | inr late ↦ inr (error_of (answer_at t db) (rw (late, fetched) refl))
    | inl soon ↦ from_db db soon
  ]
    where
      from_db :
          (db : Result D (List Document))
          → ltb t 5000 ≡ true
          → Served (some t) db
            ⊎ ((e : Exception) × (fetched exception_of gateway timeout_text
                    (reply_of (some t) (answered service (query_roles text id db)))
                  ≡ err e))
      from_db (err e) soon = inr (error_of (answer_at t (err e)) (rw (soon, fetched) refl))
      from_db (ok documents) soon = inl (record {
        time = t;
        documents = documents;
        arrives_then = refl;
        in_time = ltb→lt t 5000 soon;
        read = refl;
      })

  pub remote_roles-Obtains :
      (level : SecondLevel) (arrives : Option ℕ) (db : Result D (List Document)) (roles : List ℕ)
      → Obtains level arrives db id roles
      → remote_roles exception_of gateway service timeout_text text asked now level arrives id db
        ≡ ok roles
  remote_roles-Obtains level arrives db roles o =
      remote_roles-level level arrives db ∙ obtained level arrives db roles o
    where
      obtained :
          (level : SecondLevel) (arrives : Option ℕ) (db : Result D (List Document))
          (roles : List ℕ)
          → Obtains level arrives db id roles
          → after_level (
              get_or_set level (
                fetched exception_of gateway timeout_text
                  (reply_of arrives (answered service (query_roles text id db)))))
            ≡ ok roles
      obtained level arrives db roles (from_service l s) =
          ap
            (λ k. after_level (
              get_or_set k (
                fetched exception_of gateway timeout_text
                  (reply_of arrives (answered service (query_roles text id db))))))
            l
          ∙ ap after_level (fetched-Served arrives db s)
      obtained level arrives db roles (from_cache v l) =
          ap
            (λ k. after_level (
              get_or_set k (
                fetched exception_of gateway timeout_text
                  (reply_of arrives (answered service (query_roles text id db))))))
            l
      obtained level arrives db roles (from_other_caller v l) =
          ap
            (λ k. after_level (
              get_or_set k (
                fetched exception_of gateway timeout_text
                  (reply_of arrives (answered service (query_roles text id db))))))
            l

  pub remote_roles-cases :
      (level : SecondLevel) (arrives : Option ℕ) (db : Result D (List Document))
      → ((roles : List ℕ) × Obtains level arrives db id roles)
        ⊎ ((e : Exception) × (remote_roles exception_of gateway service timeout_text text asked now
                level arrives id db
              ≡ err e))
  remote_roles-cases (fails e) arrives db = inr (_, remote_roles-level (fails e) arrives db)
  remote_roles-cases (cached v) arrives db = inl (or_empty v, from_cache v refl)
  remote_roles-cases (lock_not_acquired v) arrives db = inl (or_empty v, from_other_caller v refl)
  remote_roles-cases (lock_acquired none) arrives db = elim (fetched-cases arrives db) [
    | inl s ↦ inl (_, from_service refl s)
    | inr (e, failed) ↦
        inr (_, remote_roles-level (lock_acquired none) arrives db ∙ ap after_level failed)
  ]
  remote_roles-cases (lock_acquired (some x)) arrives db = elim (fetched-cases arrives db) [
    | inl s ↦ inr (
      _,
      remote_roles-level (lock_acquired (some x)) arrives db
          ∙ ap (λ r. after_level (get_or_set (lock_acquired (some x)) r))
              (fetched-Served arrives db s),
    )
    | inr (e, failed) ↦ inr (
      _,
      remote_roles-level (lock_acquired (some x)) arrives db
          ∙ ap (λ r. after_level (get_or_set (lock_acquired (some x)) r)) failed,
    )
  ]
