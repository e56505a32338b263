-- ===== src/Authorization/Tests.antt =====
-- libs/authorization/src on concrete caches, roles and rooms.
use ocean_chat_private.Prelude.{
  ℕ, ◌≡◌, ◌↔◌, ◌<◌, ◌≤◌, ◌+◌, ◌>>=◌, refl, List, [], ◌∷◌, Option, none, some, Bool, true, false,
  Result, ok, err, length, arith, if◌then◌else◌, ◌==◌, any, all, All,
}
use ocean_chat_private.Exceptions.{Exception, other}
use ocean_chat_private.Authorization.Lru.{Entry, find, put, refresh, get, set}
use ocean_chat_private.Authorization.Lru.Laws.{Distinct}
use ocean_chat_private.Authorization.Lru.Invariant.{Kept, needless_eviction}
use ocean_chat_private.Authorization.RoleCache.{
  Cache, l1_cache_ttl_ms, after_fetch, after_l1, get_roles, Reach, here, next, asks,
}
use ocean_chat_private.Authorization.RoleCache.Freshness.{Inv, roles_at_most_10s_old, reached-Inv}
use ocean_chat_private.Authorization.Permissions.{
  RoleSource, promise_all, get_effective_roles, has_permission, has_all_permissions,
  has_at_least_one_permission, unique, Context, extract_context, can_activate, http,
}
use ocean_chat_private.Authorization.Permissions.Agreement.{
  answer_of, each, checks_agree, can_activate-grants,
}
use ocean_chat_private.Authorization.Rooms.{
  RoomContext, Providers, c, p, validate_public, validate_team, validate_membership, validate_rest,
  parent_of, can_access,
}
use ocean_chat_private.Authorization.Rooms.Rules.{Access}
use ocean_chat_private.Authorization.Rooms.Access.{can_access_lem}
use ocean_chat_private.Authorization.Rooms.Recursion.{can_access_returns, cyclic_never_returns}

abbrev entry : ℕ → Entry ℕ
entry k = record { key = k; value = k; expiry = 100 }

two-Kept : Kept 2 (entry 1 ∷ entry 2 ∷ [])
unfolding Distinct find
two-Kept = record { distinct = (refl, (refl, tt)); bounded = omega arith }

needless_eviction_run :
    (length (set 2 2 9 50 60 (entry 1 ∷ entry 2 ∷ [])) ≡ 1)
    × (find 1 (set 2 2 9 50 60 (entry 1 ∷ entry 2 ∷ [])) ≡ none)
unfolding find
needless_eviction_run =
    needless_eviction 2 50 60 9 (entry 1) (entry 2) (entry 2 ∷ []) two-Kept (λ e. ground arith) refl

-- User 5 has the role 8 from time 1000 on.
abbrev Known : ℕ → ℕ → List ℕ → Type 0
Known user t roles = 1000 ≤ t

abbrev known : Cache
known = (get_roles 5 1000 1200 (ok (some (8 ∷ []))) []).0

known-Reach : Reach Known [] known
known-Reach = next here (asks 5 1000 1200 (ok (some (8 ∷ []))) (λ roles e. omega arith))

roles_at_most_10s_old_example : (t : ℕ) × Known 5 t (8 ∷ []) × (9000 ≤ t + l1_cache_ttl_ms)
unfolding get_roles get refresh find after_l1 after_fetch set put
roles_at_most_10s_old_example =
    roles_at_most_10s_old Known known 5 9000 9100 (err other) (8 ∷ []) known-Reach (omega arith)
      (λ found e. omega arith) refl

known-Inv : Inv Known known
known-Inv = reached-Inv Known known known-Reach

-- Everybody has the role 8, which has the permissions 1 and 2, and in the scope 7 also the role 9.
abbrev source : RoleSource
source = record {
  global_roles = λ user. ok (8 ∷ []);
  roles_for = λ permission. ok (if permission == 3 then 9 ∷ [] else 8 ∷ 4 ∷ []);
  scoped_roles = some (λ user scope. ok (if scope == 7 then 9 ∷ 8 ∷ [] else []));
  first_error = λ e es. e;
}

checks_agree_example :
    (answer_of (has_all_permissions source (some 5) (1 ∷ 3 ∷ []) none)
      ≡ answer_of (each source (some 5) (1 ∷ 3 ∷ []) none >>= λ bs. ok (all (λ b. b) bs)))
    × (answer_of (has_at_least_one_permission source (some 5) (1 ∷ 3 ∷ []) none)
        ≡ answer_of (each source (some 5) (1 ∷ 3 ∷ []) none >>= λ bs. ok (any (λ b. b) bs)))
    × (has_all_permissions source (some 5) [] none ≡ ok false)
checks_agree_example = checks_agree source (some 5) 1 (3 ∷ []) none

-- The permission 3 is granted in the scope only.
scoped :
    (has_permission source (some 5) (some 3) none ≡ ok false)
    × (has_permission source (some 5) (some 3) (some 7) ≡ ok true)
unfolding has_permission get_effective_roles unique
scoped = (refl, refl)

abbrev request : Context
request = http (some (some 5)) none (some (some 6)) (some (some 7))

can_activate-grants_example :
    (user : ℕ) × (scope : Option ℕ) × (extract_context request ≡ ok (some user, scope))
    × All (λ q. has_permission source (some user) (some q) scope ≡ ok true) (1 ∷ 3 ∷ [])
unfolding can_activate has_all_permissions extract_context get_effective_roles unique promise_all
can_activate-grants_example = can_activate-grants source 1 (3 ∷ []) request refl

-- Room 1 is public, room 2 a private discussion of it, room 3 a discussion of itself.
abbrev open_room : RoomContext
open_room = record { id = 1; t = c; team_id = none; prid = none }

abbrev discussion : RoomContext
discussion = record { id = 2; t = p; team_id = none; prid = some 1 }

abbrev loop : RoomContext
loop = record { id = 3; t = p; team_id = none; prid = some 3 }

abbrev providers : Providers
providers = record {
  roles = source;
  room_context = some (λ id. ok (if id == 1 then some open_room else some loop));
  teams = none;
  scoped_roles = none;
}

can_access_lem_example : (true ≡ true) ↔ Access providers 5 discussion
unfolding can_access validate_rest validate_public validate_team validate_membership has_permission
    get_effective_roles
can_access_lem_example = can_access_lem providers 5 2 discussion true refl

abbrev calm : Providers
calm = record {
  roles = source;
  room_context = some (λ id. ok (if id == 1 then some open_room else none));
  teams = none;
  scoped_roles = none;
}

abbrev rank : RoomContext → ℕ
rank room = elim room.prid [ none ↦ 0 | some prid ↦ 1 ]

smaller :
    (child parent : RoomContext)
    → parent_of calm calm.room_context child.prid ≡ ok (some parent)
    → rank parent < rank child
smaller child parent h = by_prid child.prid h
  where
    by_prid :
        (o : Option ℕ)
        → parent_of calm calm.room_context o ≡ ok (some parent)
        → rank parent < elim o [ none ↦ 0 | some prid ↦ 1 ]
    by_prid none h = cc
    by_prid (some prid) h = ground arith

can_access_returns_example : (r : Result Exception Bool) × (can_access calm 2 5 discussion ≡ some r)
can_access_returns_example = can_access_returns calm 5 rank 2 discussion smaller (omega arith)

abbrev IsLoop : RoomContext → Type 0
IsLoop room = room ≡ loop

closed :
    (child : RoomContext)
    → IsLoop child
    → (parent : RoomContext) × (parent_of providers providers.room_context child.prid
        ≡ ok (some parent))
      × IsLoop parent
closed child e = (loop, ground arith, refl)

cyclic_never_returns_example : can_access providers 100 5 loop ≡ none
cyclic_never_returns_example = cyclic_never_returns providers 5 IsLoop 100 loop closed refl
