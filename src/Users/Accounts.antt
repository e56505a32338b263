-- ===== src/Users/Accounts.antt =====
-- apps/oceanchat-user/src/oceanchat-user.service.ts: `create`, `validatePassword` and `addDevice`, with the
-- query of libs/models/src/repositories/user.repository.ts. The collection is the list of its documents; its
-- index on user names refuses a name that is there. Names, passwords and hashes are numbers here.
pub mod Laws
use ocean_chat_private.Prelude.{
  ℕ, List, [], ◌∷◌, ◌++◌, Option, none, some, Bool, true, false, Result, ok, err, ◌==◌, any,
  if◌then◌else◌,
}
use ocean_chat_private.Exceptions.{
  Exception, domain, infrastructure, other, username_already_exists, creation_error,
}

pub record Device : Type 0 where
  pub device_id : ℕ
  pub last_login : ℕ

pub data AuthProvider : Type 0 where
  local google wechat phone email : AuthProvider

pub record Provider : Type 0 where
  pub provider : AuthProvider
  pub password_hash : Option ℕ

pub record User : Type 0 where
  pub username : ℕ
  pub providers : List Provider
  pub devices : List Device

-- What a client gets of a user.
pub record PublicUser : Type 0 where
  pub username : ℕ
  pub devices : List Device

abbrev pub without_providers : User → PublicUser
without_providers u = record { username = u.username; devices = u.devices }

unfoldable pub find_user : ℕ → List User → Option User
find_user name [] = none
find_user name (u ∷ us) =
    let rest = find_user name us in if u.username == name then some u else rest

-- What the database throws on an insertion.
pub data DbError : Type 0 where
  duplicate_key : DbError
  throws : Exception → DbError

abbrev pub new_user : ℕ → ℕ → User
new_user username hash = record {
  username = username;
  providers = record { provider = local; password_hash = some hash } ∷ [];
  devices = [];
}

-- What becomes of an insertion apart from its index: the database works, throws this before it has done anything,
-- or inserts the document and loses the reply, so that the caller gets this error.
pub data InsertFault : Type 0 where
  works : InsertFault
  fails loses_reply : Exception → InsertFault

-- `userRepository.create`.
abbrev pub insert : InsertFault → User → List User → List User × Result DbError (Unit {0})
insert (fails e) u users = (users, err (throws e))
insert works u users = elim (find_user u.username users) [
  | none ↦ (u ∷ users, ok tt)
  | some other_user ↦ (users, err duplicate_key)
]
insert (loses_reply e) u users = elim (find_user u.username users) [
  | none ↦ (u ∷ users, err (throws e))
  | some other_user ↦ (users, err (throws e))
]

-- The `catch` of `create`.
abbrev pub creation_failed : Exception → Exception
creation_failed (domain code status) = domain code status
creation_failed (infrastructure code status) = infrastructure code status
creation_failed other = infrastructure creation_error 500

abbrev pub after_insert :
    User → List User × Result DbError (Unit {0}) → List User × Result Exception PublicUser
after_insert u (users, ok tt) = (users, ok (without_providers u))
after_insert u (users, err duplicate_key) = (users, err (domain username_already_exists 409))
after_insert u (users, err (throws e)) = (users, err (creation_failed e))

abbrev pub after_hash :
    InsertFault → ℕ → Result Exception ℕ → List User → List User × Result Exception PublicUser
after_hash fault username (err e) users = (users, err (creation_failed e))
after_hash fault username (ok hash) users =
    after_insert (new_user username hash) (insert fault (new_user username hash) users)

-- `create`: `validated` is the outcome of `validateCreateUserDto`, `hashed` that of `hash`.
unfoldable pub create :
    InsertFault
    → ℕ
    → Result Exception (Unit {0})
    → Result Exception ℕ
    → List User
    → List User × Result Exception PublicUser
create fault username (err e) hashed users = (users, err (creation_failed e))
create fault username (ok tt) hashed users = after_hash fault username hashed users

-- The hash of the first local provider, as the repository looks for it.
unfoldable pub local_hash : List Provider → Option ℕ
local_hash [] = none
local_hash (p ∷ ps) =
    let rest = local_hash ps in elim p.provider [ local ↦ p.password_hash | _ ↦ rest ]

-- The end of `findOneByUsernameAndProvider` for the local provider.
unfoldable pub with_local : Option User → Option User
unfolding local_hash
with_local none = none
with_local (some u) = elim (local_hash u.providers) [ none ↦ none | some hash ↦ some u ]

-- `providers?.[0]?.passwordHash`
unfoldable pub first_hash : List Provider → Option ℕ
first_hash [] = none
first_hash (p ∷ ps) = p.password_hash

abbrev pub check_hash : (ℕ → ℕ → Bool) → ℕ → User → Option ℕ → Option PublicUser
check_hash verify password u none = none
check_hash verify password u (some hash) =
    if verify password hash then some (without_providers u) else none

unfoldable pub check_user : (ℕ → ℕ → Bool) → ℕ → Option User → Option PublicUser
unfolding first_hash
check_user verify password none = none
check_user verify password (some u) = check_hash verify password u (first_hash u.providers)

-- `validatePassword`.
unfoldable pub validate_password : (ℕ → ℕ → Bool) → ℕ → ℕ → List User → Option PublicUser
unfolding find_user with_local check_user
validate_password verify username password users =
    check_user verify password (with_local (find_user username users))

-- `$mergeObjects` for the device that logs in.
unfoldable pub stamp : ℕ → ℕ → Device → Device
stamp id now d = if d.device_id == id then record d { last_login = now } else d

-- The update of `addDevice`: the device is brought up to date where it is, or added at the end.
unfoldable pub touch : ℕ → ℕ → List Device → List Device
unfolding stamp
touch id now [] = []
touch id now (d ∷ ds) = stamp id now d ∷ touch id now ds

unfoldable pub add_device : ℕ → ℕ → List Device → List Device
unfolding touch
add_device id now ds =
    if any (λ d. d.device_id == id) ds
    then touch id now ds
    else ds ++ (record { device_id = id; last_login = now }) ∷ []
