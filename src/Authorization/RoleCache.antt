-- ===== src/Authorization/RoleCache.antt =====
-- libs/authorization/src/services/role-cache.service.ts: roles from the memory of the instance, else from
-- Redis or the data source. `getUserGlobalRoles` and `getRolesForPermission` are this function, each on
-- its own LRU cache; what the second level answers is given to it. Users, permissions and roles are
-- numbers.
pub mod Freshness
use ocean_chat_private.Prelude.{
  ℕ, ◌*◌, ◌≡◌, List, [], ◌∷◌, Option, none, some, Bool, true, false, Result, ok, err, any, ◌==◌,
}
use ocean_chat_private.Exceptions.{Exception, domain, infrastructure, other, unexpected_error}
use ocean_chat_private.Authorization.Lru.{Entry, remove, get, set}

abbrev pub l1_cache_ttl_ms : ℕ
l1_cache_ttl_ms = 10 * 1000

abbrev pub l1_max_size : ℕ
l1_max_size = 10000

abbrev pub Cache : Type 0
Cache = List (Entry (List ℕ))

-- An application exception passes, any other becomes an UNEXPECTED_ERROR.
unfoldable pub wrap_error : Exception → Exception
wrap_error (domain code status) = domain code status
wrap_error (infrastructure code status) = infrastructure code status
wrap_error other = infrastructure unexpected_error 500

-- `roles || []`
abbrev pub or_empty : Option (List ℕ) → List ℕ
or_empty none = []
or_empty (some roles) = roles

unfoldable pub after_fetch :
    ℕ → ℕ → Cache → Result Exception (Option (List ℕ)) → Cache × Result Exception (List ℕ)
unfolding wrap_error
after_fetch key now cache (err e) = (cache, err (wrap_error e))
after_fetch key now cache (ok roles) =
    (set l1_max_size key (or_empty roles) l1_cache_ttl_ms now cache, ok (or_empty roles))

unfoldable pub after_l1 :
    ℕ
    → ℕ
    → Result Exception (Option (List ℕ))
    → Cache × Option (List ℕ)
    → Cache × Result Exception (List ℕ)
after_l1 key now fetched (cache, some roles) = (cache, ok roles)
after_l1 key now fetched (cache, none) = after_fetch key now cache fetched

-- `asked` and `now`: the times before and after the second level was asked.
unfoldable pub get_roles :
    ℕ → ℕ → ℕ → Result Exception (Option (List ℕ)) → Cache → Cache × Result Exception (List ℕ)
get_roles key asked now fetched cache = after_l1 key now fetched (get key asked cache)

-- `admin` is the role of that name.
unfoldable pub is_super_admin : ℕ → Result Exception (List ℕ) → Result Exception Bool
is_super_admin admin (ok roles) = ok (any (λ role. role == admin) roles)
is_super_admin admin (err e) = err e

-- The part of `invalidateUserRoles` and `invalidatePermissionRoles` in memory.
unfoldable pub invalidate : ℕ → Cache → Cache
invalidate key cache = remove key cache

-- The cache of an instance in the course of its calls.
pub data Step (Fetched : ℕ → ℕ → List ℕ → Type 0) (cache : Cache) : Cache → Type 0 where
  asks :
      (key asked now : ℕ) (fetched : Result Exception (Option (List ℕ)))
      → ((roles : Option (List ℕ)) → fetched ≡ ok roles → Fetched key now (or_empty roles))
      → Step Fetched cache (get_roles key asked now fetched cache).0
  invalidates : (key : ℕ) → Step Fetched cache (invalidate key cache)

pub data Reach (Fetched : ℕ → ℕ → List ℕ → Type 0) (cache : Cache) : Cache → Type 0 where
  here : Reach Fetched cache cache
  next : {b c : Cache} → Reach Fetched cache b → Step Fetched b c → Reach Fetched cache c
