-- ===== src/Users/Tests.antt =====
-- apps/oceanchat-user/src on concrete names, passwords and devices.
use ocean_chat_private.Prelude.{
  arith, ℕ, ◌≡◌, ◌≢◌, ◌↔◌, refl, List, [], ◌∷◌, none, some, true, false, ok, err, ◌==◌, all,
}
use ocean_chat_private.Exceptions.{domain, password_no_digit, username_already_exists}
use ocean_chat_private.Users.Rules.{Rules, validate, is_lowercase}
use ocean_chat_private.Users.Rules.Acceptance.{Acceptable, validate_lem}
use ocean_chat_private.Users.Accounts.{
  Device, User, local, google, local_hash, validate_password, find_user, create, add_device, works,
}
use ocean_chat_private.Users.Accounts.Laws.{
  Distinct, DistinctDevices, Created, last_login_of, create-Created, add_device_lem,
  second_provider_locked_out,
}

abbrev rules : Rules
rules = record {
  username_min_length = some 2;
  username_max_length = some 5;
  username_regex = some (λ t. all is_lowercase t);
  password_min_length = some 3;
  require_digit = true;
  require_lowercase = true;
  require_uppercase = false;
  require_special_char = false;
}

-- The name 'ab' with the passwords 'xy1' and 'xyz'.
validate_lem_example :
    (validate rules (97 ∷ 98 ∷ []) (120 ∷ 121 ∷ 49 ∷ []) ≡ ok tt)
    ↔ Acceptable rules (97 ∷ 98 ∷ []) (120 ∷ 121 ∷ 49 ∷ [])
validate_lem_example = validate_lem rules (97 ∷ 98 ∷ []) (120 ∷ 121 ∷ 49 ∷ [])

accepted : validate rules (97 ∷ 98 ∷ []) (120 ∷ 121 ∷ 49 ∷ []) ≡ ok tt
unfolding validate
accepted = refl

digit_missing :
    validate rules (97 ∷ 98 ∷ []) (120 ∷ 121 ∷ 122 ∷ []) ≡ err (domain password_no_digit 400)
unfolding validate
digit_missing = refl

abbrev alice : User
alice = record {
  username = 1;
  providers = record { provider = local; password_hash = some 11 } ∷ [];
  devices = [];
}

alice-Distinct : Distinct (alice ∷ [])
unfolding Distinct find_user
alice-Distinct = (refl, tt)

-- The hash of a password is the password.
create-Created_example :
    Created (λ p h. p == h) works 2 22 (alice ∷ []) (create works 2 (ok tt) (ok 22) (alice ∷ []))
create-Created_example =
    create-Created (λ p. p) (λ p h. p == h) (λ p q. refl) works 2 22 (ok tt) (ok 22) (alice ∷ [])
      (λ h e. ground arith) alice-Distinct

name_taken :
    (create works 1 (ok tt) (ok 22) (alice ∷ [])).1 ≡ err (domain username_already_exists 409)
unfolding create find_user
name_taken = refl

-- An account that was opened with another provider and has got a password since.
abbrev bob : User
bob = record {
  username = 3;
  providers =
      record { provider = google; password_hash = none }
      ∷ record { provider = local; password_hash = some 33 }
      ∷ [];
  devices = [];
}

second_provider_locked_out_run :
    (local_hash bob.providers ≡ some 33)
    × (validate_password (λ p h. p == h) 3 33 (alice ∷ bob ∷ []) ≡ none)
unfolding find_user
second_provider_locked_out_run =
    second_provider_locked_out (λ p h. p == h) 3 33 33 google bob [] (alice ∷ bob ∷ [])
      (λ e. ground arith) refl refl

abbrev devices : List Device
devices = record { device_id = 1; last_login = 10 } ∷ record { device_id = 2; last_login = 20 } ∷ []

devices-Distinct : DistinctDevices devices
unfolding DistinctDevices
devices-Distinct = (refl, (refl, tt))

add_device_lem_run :
    DistinctDevices (add_device 2 30 devices)
    × (last_login_of 2 (add_device 2 30 devices) ≡ some 30)
    × ((x : ℕ) → x ≢ 2 → last_login_of x (add_device 2 30 devices) ≡ last_login_of x devices)
add_device_lem_run = add_device_lem 2 30 devices devices-Distinct
