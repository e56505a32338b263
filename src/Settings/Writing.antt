-- ===== src/Settings/Writing.antt =====
-- libs/settings/src/settings.service.ts and libs/models/src/repositories/setting.repository.ts: how settings are
-- created, updated and cached. The collection is a list of documents; each call that can fail does so where
-- its fault is set.
pub mod Seeding
pub mod Warming
pub mod Updates
mod Tests
use ocean_chat_private.Prelude.{
  ℕ, zero, suc, ◌+◌, List, [], ◌∷◌, map, ◌++◌, Option, none, some, Bool, true, false, Result, ok,
  err, ◌>>=◌, same_text, if◌then◌else◌,
}
use ocean_chat_private.Exceptions.{Exception, other}
use ocean_chat_private.Redis.Service.{RedisClient, mset, expire}
use ocean_chat_private.Settings.{Text, SettingValue, Json, value_to_cache}
use ocean_chat_private.Settings.Defaults.{Setting, default_settings}

-- 'settings:'
abbrev pub cache_key_prefix : Text
cache_key_prefix = 115 ∷ 101 ∷ 116 ∷ 116 ∷ 105 ∷ 110 ∷ 103 ∷ 115 ∷ 58 ∷ []

abbrev pub get_cache_key : Text → Text
get_cache_key key = cache_key_prefix ++ key

abbrev pub cache_ttl_seconds : ℕ
cache_ttl_seconds = 3600

abbrev pub Collection : Type 0 → Type 0
Collection J = List (Setting J)

module _ {J : Type 0} where
  -- `findByKey`.
  unfoldable pub find_by_key : Text → Collection J → Option (Setting J)
  find_by_key key [] = none
  find_by_key key (s ∷ rest) =
      let later = find_by_key key rest in if same_text s.id key then some s else later

  -- `createIfNotExists`: $setOnInsert writes only where a document is inserted.
  unfoldable pub create_if_not_exists : Setting J → Collection J → Collection J
  create_if_not_exists new [] = new ∷ []
  create_if_not_exists new (s ∷ rest) =
      let later = create_if_not_exists new rest in
      if same_text s.id new.id then s ∷ rest else s ∷ later

  -- `upsert`: a document that is inserted has the id and the value only.
  unfoldable pub upsert : Text → SettingValue J → Collection J → Collection J
  upsert key value [] =
      record { id = key; value = some value; type = none; group = none; i18n_label = none } ∷ []
  upsert key value (s ∷ rest) =
      let later = upsert key value rest in
      if same_text s.id key then record s { value = some value } ∷ rest else s ∷ later

-- Which calls throw while the module starts: the creation of the n-th default, `find`, MSET, and the EXPIRE of
-- the n-th setting.
pub record Faults : Type 0 where
  pub create : ℕ → Bool
  pub find : Bool
  pub mset : Bool
  pub expire : ℕ → Bool

module _ {J : Type 0} (json : Json J) (C : RedisClient) where
  -- The loop over the defaults, from the n-th on.
  unfoldable pub create_defaults :
      Faults → ℕ → List (Setting J) → Collection J → Collection J × Result Exception (Unit {0})
  unfolding create_if_not_exists
  create_defaults faults n [] db = (db, ok tt)
  create_defaults faults n (d ∷ defaults) db =
      let rest = create_defaults faults (suc n) defaults (create_if_not_exists d db) in
      if faults.create n then (db, err other) else rest

  unfoldable pub mset_payload : Collection J → List (Text × Text)
  unfolding value_to_cache
  mset_payload db = map (λ (s : Setting J). (get_cache_key s.id, value_to_cache json s.value)) db

  -- The EXPIRE of every key, the n-th with its jitter; `Promise.all` fails if one of them does.
  unfoldable pub expire_all :
      Faults → (ℕ → ℕ) → ℕ → ℕ → Collection J → C.State → C.State × Result Exception (Unit {0})
  unfolding expire
  expire_all faults jitter now n [] redis = (redis, ok tt)
  expire_all faults jitter now n (s ∷ rest) redis =
      let failed = expire_all faults jitter now (suc n) rest redis in
      let set =
        expire_all faults jitter now (suc n) rest
          (expire C (get_cache_key s.id) (cache_ttl_seconds + jitter n) now redis).0 in
      if faults.expire n then (failed.0, err other) else set

  -- `_loadAllSettingsToCache`.
  unfoldable pub load_all_settings_to_cache :
      Faults → (ℕ → ℕ) → ℕ → Collection J → C.State → C.State × Result Exception (Unit {0})
  unfolding mset_payload mset expire_all
  load_all_settings_to_cache faults jitter now [] redis =
      if faults.find then (redis, err other) else (redis, ok tt)
  load_all_settings_to_cache faults jitter now (s ∷ rest) redis =
      if faults.find
      then (redis, err other)
      else if faults.mset
      then (redis, err other)
      else expire_all faults jitter now 0 (s ∷ rest) (mset C (mset_payload (s ∷ rest)) redis)

  -- What follows the creation of the defaults, whose error is thrown again.
  abbrev pub then_load :
      Faults
      → (ℕ → ℕ)
      → ℕ
      → C.State
      → Collection J × Result Exception (Unit {0})
      → Collection J × C.State × Result Exception (Unit {0})
  then_load faults jitter now redis (db, err e) = (db, redis, err e)
  then_load faults jitter now redis (db, ok u) =
      let (redis', result) = load_all_settings_to_cache faults jitter now db redis in
      (db, redis', result)

  -- `onModuleInit`; only the owner of the settings runs it.
  unfoldable pub on_module_init :
      Bool
      → List (Setting J)
      → Faults
      → (ℕ → ℕ)
      → ℕ
      → Collection J
      → C.State
      → Collection J × C.State × Result Exception (Unit {0})
  unfolding create_defaults load_all_settings_to_cache
  on_module_init run_seeds defaults faults jitter now db redis =
      if run_seeds
      then then_load faults jitter now redis (create_defaults faults 0 defaults db)
      else (db, redis, ok tt)

  -- `setSettingValue`, whose del is not awaited and whose failure is only logged: the two Booleans say that
  -- the upsert throws and that the del fails.
  unfoldable pub set_setting_value :
      Bool
      → Bool
      → Text
      → SettingValue J
      → Collection J
      → C.State
      → Collection J × C.State × Result Exception (Option (Setting J))
  unfolding upsert find_by_key
  set_setting_value upsert_throws del_fails key value db redis =
      let updated = upsert key value db in
      if upsert_throws then (db, redis, err other) else (
        updated,
        if del_fails then redis else C.del (get_cache_key key) redis,
        ok (find_by_key key updated),
      )
