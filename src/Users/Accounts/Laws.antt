-- ===== src/Users/Accounts/Laws.antt =====
-- apps/oceanchat-user/src/oceanchat-user.service.ts: who can log in after an account was created, and what
-- the list of devices keeps.
use ocean_chat_private.Prelude.{
  ℕ, ◌≡◌, ◌≢◌, refl, ap, ◌∙◌, ◌⊎◌, inl, inr, List, [], ◌∷◌, ◌++◌, Option, none, some, Bool, true,
  false, ◌||◌, Result, ok, err, ◌==◌, any, if◌then◌else◌, arith, both_branches,
}
use ocean_chat_private.Exceptions.{Exception}
use ocean_chat_private.Users.Accounts.{
  with_local, local_hash, first_hash, Provider, AuthProvider, local, check_user, Device, User,
  PublicUser, duplicate_key, throws, InsertFault, works, fails, loses_reply, find_user, new_user,
  after_insert, create, validate_password, stamp, touch, add_device,
}

-- No name twice.
unfoldable pub Distinct : List User → Type 0
Distinct [] = Unit
Distinct (u ∷ us) = (find_user u.username us ≡ none) × Distinct us

-- No device twice.
unfoldable pub DistinctDevices : List Device → Type 0
DistinctDevices [] = Unit
DistinctDevices (d ∷ ds) = (any (λ x. x.device_id == d.device_id) ds ≡ false) × DistinctDevices ds

-- The new user can log in with the password and with no other, and all others log in as before.
unfoldable pub Opened : (ℕ → ℕ → Bool) → ℕ → ℕ → List User → List User → Type 0
Opened verify username password users after =
    (validate_password verify username password after
      ≡ some (record { username = username; devices = [] }))
    × ((wrong : ℕ) → wrong ≢ password → validate_password verify username wrong after ≡ none)
    × ((name p : ℕ)
        → name ≢ username
        → validate_password verify name p after ≡ validate_password verify name p users)

-- What an attempt to create an account leaves: distinct names; on success the account is open; on failure the
-- collection is as it was, or the database lost the reply and the account is open all the same.
unfoldable pub Created :
    (ℕ → ℕ → Bool)
    → InsertFault
    → ℕ
    → ℕ
    → List User
    → List User × Result Exception PublicUser
    → Type 0
Created verify fault username password users (after, ok u) =
    Distinct after
    × Opened verify username password users after
    × (u ≡ record { username = username; devices = [] })
Created verify fault username password users (after, err e) =
    Distinct after
    × ((after ≡ users)
        ⊎ (((x : Exception) × (fault ≡ loses_reply x))
            × Opened verify username password users after))

module _ (hash : ℕ → ℕ) (verify : ℕ → ℕ → Bool)
    (law : (p q : ℕ) → verify p (hash q) ≡ (p == q)) where
  new_user-Opened :
      (username password h : ℕ) (users : List User)
      → h ≡ hash password
      → Opened verify username password users (new_user username h ∷ users)
  unfolding validate_password find_user with_local local_hash check_user first_hash Opened
  new_user-Opened username password h users same =
      let right : (p : ℕ) → verify p h ≡ (p == password) =
        λ p. ap (verify p) same ∙ law p password in
      (
        ground (arith, right password),
        λ wrong differs. ground (arith, right wrong),
        λ name p differs. ground arith,
      )

  -- Creating an account, whatever fails and whether or not the database loses its reply, keeps the names distinct.
  -- If it succeeds, the user can log in with the password and with no other, and all others log in as before; if
  -- not, the collection is as it was, unless the reply was lost: then it may be as after a success. A hash that is
  -- computed is the one of the password, and a hash is verified by its own password only.
  pub create-Created :
      (fault : InsertFault) (username password : ℕ) (validated : Result Exception (Unit {0}))
      (hashed : Result Exception ℕ) (users : List User)
      → ((h : ℕ) → hashed ≡ ok h → h ≡ hash password)
      → Distinct users
      → Created verify fault username password users (create fault username validated hashed users)
  unfolding create Created Distinct
  create-Created fault username password (err e) hashed users right d = (d, inl refl)
  create-Created fault username password (ok tt) (err e) users right d = (d, inl refl)
  create-Created (fails e) username password (ok tt) (ok h) users right d = (d, inl refl)
  create-Created works username password (ok tt) (ok h) users right d =
      by_index (find_user username users) refl
    where
      by_index :
          (o : Option User)
          → find_user username users ≡ o
          → Created verify works username password users (
              after_insert (new_user username h) (elim o [
                | none ↦ (new_user username h ∷ users, ok tt)
                | some u ↦ (users, err duplicate_key)
              ]))
      by_index (some u) q = (d, inl refl)
      by_index none q = ((q, d), new_user-Opened username password h users (right h refl), refl)
  create-Created (loses_reply e) username password (ok tt) (ok h) users right d =
      by_index (find_user username users) refl
    where
      by_index :
          (o : Option User)
          → find_user username users ≡ o
          → Created verify (loses_reply e) username password users (
              after_insert (new_user username h) (elim o [
                | none ↦ (new_user username h ∷ users, err (throws e))
                | some u ↦ (users, err (throws e))
              ]))
      by_index (some u) q = (d, inl refl)
      by_index none q =
          ((q, d), inr ((e, refl), new_user-Opened username password h users (right h refl)))

-- A user whose second provider is local and has a hash, and whose first one is another and has none, cannot
-- log in with any password, whatever the verification of hashes answers.
pub second_provider_locked_out :
    (verify : ℕ → ℕ → Bool) (username password hash : ℕ) (kind : AuthProvider) (u : User)
    (rest : List Provider) (users : List User)
    → kind ≢ local
    → find_user username users ≡ some u
    → u.providers
      ≡ record { provider = kind; password_hash = none }
        ∷ record { provider = local; password_hash = some hash }
        ∷ rest
    → (local_hash u.providers ≡ some hash)
      × (validate_password verify username password users ≡ none)
unfolding validate_password with_local local_hash check_user first_hash
second_provider_locked_out verify username password hash kind u rest users d f p = (
  ap local_hash p ∙ ground arith,
  ap (λ o. check_user verify password (with_local o)) f ∙ refused,
)
  where
    refused : check_user verify password (with_local (some u)) ≡ none
    refused = ground (arith, ap first_hash p, ap local_hash p)

stamp-id : (id now : ℕ) (d : Device) → (stamp id now d).device_id ≡ d.device_id
unfolding stamp
stamp-id id now d = ground arith

touch-any :
    (id now x : ℕ) (ds : List Device)
    → any (λ d. d.device_id == x) (touch id now ds) ≡ any (λ d. d.device_id == x) ds
unfolding touch
touch-any id now x [] = refl
touch-any id now x (d ∷ ds) =
    ap (λ k. (k == x) || any (λ e. e.device_id == x) (touch id now ds)) (stamp-id id now d)
    ∙ ap (λ b. (d.device_id == x) || b) (touch-any id now x ds)

any-append :
    (p : Device → Bool) (ds : List Device) (d : Device) → any p (ds ++ d ∷ []) ≡ (any p ds || p d)
any-append p [] d = ground arith
any-append p (x ∷ ds) d = ground (arith, any-append p ds d)

touch-DistinctDevices :
    (id now : ℕ) (ds : List Device) → DistinctDevices ds → DistinctDevices (touch id now ds)
unfolding touch DistinctDevices
touch-DistinctDevices id now [] a = tt
touch-DistinctDevices id now (d ∷ ds) (n, a) = (
  ap (λ k. any (λ x. x.device_id == k) (touch id now ds)) (stamp-id id now d)
      ∙ touch-any id now d.device_id ds
      ∙ n,
  touch-DistinctDevices id now ds a,
)

append-DistinctDevices :
    (ds : List Device) (d : Device)
    → DistinctDevices ds
    → any (λ x. x.device_id == d.device_id) ds ≡ false
    → DistinctDevices (ds ++ d ∷ [])
unfolding DistinctDevices
append-DistinctDevices [] d a h = (refl, tt)
append-DistinctDevices (x ∷ ds) d (n, a) h = (
  any-append (λ y. y.device_id == x.device_id) ds d ∙ ground arith,
  append-DistinctDevices ds d a (ground arith),
)

-- The login of a device as the list shows it.
unfoldable pub last_login_of : ℕ → List Device → Option ℕ
last_login_of id [] = none
last_login_of id (d ∷ ds) =
    let rest = last_login_of id ds in if d.device_id == id then some d.last_login else rest

last_login-touch :
    (id now : ℕ) (ds : List Device)
    → any (λ d. d.device_id == id) ds ≡ true
    → last_login_of id (touch id now ds) ≡ some now
unfolding last_login_of touch stamp
last_login-touch id now [] h = cc
last_login-touch id now (d ∷ ds) h = ground (arith, last_login-touch id now ds)

last_login-touch_other :
    (id now x : ℕ) (ds : List Device)
    → x ≢ id
    → last_login_of x (touch id now ds) ≡ last_login_of x ds
unfolding last_login_of touch stamp
last_login-touch_other id now x [] h = refl
last_login-touch_other id now x (d ∷ ds) h = ground (arith, last_login-touch_other id now x ds h)

last_login-append :
    (x : ℕ) (ds : List Device) (d : Device)
    → any (λ e. e.device_id == d.device_id) ds ≡ false
    → last_login_of x (ds ++ d ∷ [])
      ≡ (if d.device_id == x then some d.last_login else last_login_of x ds)
unfolding last_login_of
last_login-append x [] d h = refl
last_login-append x (e ∷ ds) d h = ground (arith, last_login-append x ds d)

-- A login from a device, known or new, keeps the devices distinct, is then the last of that device, and leaves
-- the last logins of the others.
pub add_device_lem :
    (id now : ℕ) (ds : List Device)
    → DistinctDevices ds
    → DistinctDevices (add_device id now ds)
      × (last_login_of id (add_device id now ds) ≡ some now)
      × ((x : ℕ) → x ≢ id → last_login_of x (add_device id now ds) ≡ last_login_of x ds)
unfolding add_device
add_device_lem id now ds a =
    both_branches
      (λ r.
        DistinctDevices r
        × (last_login_of id r ≡ some now)
        × ((x : ℕ) → x ≢ id → last_login_of x r ≡ last_login_of x ds))
      (any (λ d. d.device_id == id) ds)
      (λ h. (
        touch-DistinctDevices id now ds a,
        last_login-touch id now ds h,
        λ x differs. last_login-touch_other id now x ds differs,
      ))
      λ h. (
        append-DistinctDevices ds (record { device_id = id; last_login = now }) a h,
        last_login-append id ds (record { device_id = id; last_login = now }) h ∙ ground arith,
        λ x differs.
            last_login-append x ds (record { device_id = id; last_login = now }) h ∙ ground arith,
      )
